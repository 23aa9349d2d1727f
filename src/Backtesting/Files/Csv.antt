-- ===== src/Backtesting/Files/Csv.antt =====
-- CSVMarketDataParser of src/backtesting/tick_replay.cpp.
use hft_engine.Base.{
  ℕ, zero, suc, Bool, true, false, ◌&&◌, Option, none, some, List, [], ◌∷◌, ltb, length,
  if◌then◌else◌, ◌>>=◌,
}
use hft_engine.Base.Words.{wadd}
use hft_engine.Core.{Core}
use hft_engine.Fix.Bytes.{Bytes, stoul}
use hft_engine.Analytics.Calculator.{size_mod}
use hft_engine.Backtesting.Ticks.{HistoricalTick, HistoricalOrderBookSnapshot, complete_tick}
use hft_engine.Backtesting.Suite.{get_elem?}
use hft_engine.Backtesting.Files.{
  Reader, Stream, new_stream, open_stream, close_stream, getline, trim_end, trim_start,
}

-- CSVMarketDataParser::CSVFormat, without timestamp_format, which nothing reads.
pub record CsvFormat : Type 0 where
  pub timestamp_col : ℕ
  pub symbol_col : ℕ
  pub bid_price_col : ℕ
  pub ask_price_col : ℕ
  pub last_price_col : ℕ
  pub bid_size_col : ℕ
  pub ask_size_col : ℕ
  pub last_size_col : ℕ
  pub delimiter : ℕ
  pub has_header : Bool

abbrev pub default_format : CsvFormat
default_format = record {
  timestamp_col = 0;
  symbol_col = 1;
  bid_price_col = 2;
  ask_price_col = 3;
  last_price_col = 4;
  bid_size_col = 5;
  ask_size_col = 6;
  last_size_col = 7;
  delimiter = b',';
  has_header = true;
}

pub record CsvParser (c : Core) : Type 0 where
  pub file : Stream
  pub line_number : ℕ
  pub default_symbol : c.Symbol
  pub format : CsvFormat

abbrev pub newline : ℕ
newline = 10

-- The fields of a line: std::getline until it fails.
unfoldable pub fields_from : ℕ → ℕ → Stream → List Bytes
fields_from d zero ss = []
fields_from d (suc fuel) ss =
    let (field, ss') = getline d ss in
    elim field [ none ↦ [] | some text ↦ trim_start (trim_end text) ∷ fields_from d fuel ss' ]

-- A field takes at least a byte of the line, so that its length is fuel enough.
unfoldable pub parse_csv_line : CsvFormat → Bytes → List Bytes
parse_csv_line f line =
    fields_from f.delimiter (length line) (record { unread = line; good = true; is_open = true })

module _ (c : Core) (r : Reader c) where
  unfoldable pub new_csv_parser : c.Symbol → CsvParser c
  new_csv_parser default_symbol = record {
    file = new_stream;
    line_number = 0;
    default_symbol = default_symbol;
    format = default_format;
  }

  -- open: whether the file is open, and the parser. A file that does not open is none.
  unfoldable pub open_csv : CsvParser c → Option Bytes → Bool × CsvParser c
  open_csv p text =
      let f = open_stream p.file text in
      if f.is_open
      then (
        true,
        if p.format.has_header && f.good
            then record p { file = (getline newline f).1; line_number = 1 }
            else record p { file = f; line_number = 0 },
      )
      else (false, record p { file = f })

  unfoldable pub close_csv : CsvParser c → CsvParser c
  close_csv p = record p { file = close_stream p.file; line_number = 0 }

  -- An exception of std::stoull is caught, and the time is `now` then.
  unfoldable pub parse_timestamp : Bytes → c.TimePoint → c.TimePoint
  parse_timestamp s now = elim (stoul s) [ none ↦ now | some ns ↦ r.time_of_ns ns ]

  -- The tick's columns, in the order of the assignments; none is an exception, or a column beyond the
  -- fields. The members that are computed from the columns come from `t`.
  unfoldable pub read_columns :
      CsvFormat
      → c.Symbol
      → HistoricalTick c
      → List Bytes
      → ℕ
      → c.TimePoint
      → Option (HistoricalTick c)
  read_columns f default_symbol t fields line_number now = do
    timestamp ← get_elem? fields f.timestamp_col
    symbol ← elim (get_elem? fields f.symbol_col) [
      | none ↦ some default_symbol
      | some s ↦ some (r.symbol_of s)
    ]
    bid_text ← get_elem? fields f.bid_price_col
    bid ← r.stod bid_text
    ask_text ← get_elem? fields f.ask_price_col
    ask ← r.stod ask_text
    last_text ← get_elem? fields f.last_price_col
    last ← r.stod last_text
    bid_size_text ← get_elem? fields f.bid_size_col
    bid_size ← stoul bid_size_text
    ask_size_text ← get_elem? fields f.ask_size_col
    ask_size ← stoul ask_size_text
    last_size_text ← get_elem? fields f.last_size_col
    last_size ← stoul last_size_text
    some (record t {
      timestamp = parse_timestamp timestamp now;
      symbol = symbol;
      bid_price = bid;
      ask_price = ask;
      last_price = last;
      bid_size = bid_size;
      ask_size = ask_size;
      last_size = last_size;
      sequence_number = line_number;
    })

  -- What read_next_tick makes of a line.
  unfoldable pub tick_of_line :
      CsvFormat → c.Symbol → HistoricalTick c → Bytes → ℕ → c.TimePoint → Option (HistoricalTick c)
  tick_of_line f default_symbol t line line_number now =
      let fields = parse_csv_line f line in
      if ltb (length fields) 8 then none else do
        tick ← read_columns f default_symbol t fields line_number now
        some (complete_tick c tick)

  -- read_next_tick. The tick of a call that fails is read by no caller. `clock n` is the time when the
  -- n-th line is parsed.
  unfoldable pub read_next_tick :
      CsvParser c → HistoricalTick c → (ℕ → c.TimePoint) → Option (HistoricalTick c) × CsvParser c
  read_next_tick p t clock =
      let (line, f) = getline newline p.file in
      let n = wadd size_mod p.line_number 1 in
      elim line [
        | none ↦ (none, record p { file = f })
        | some text ↦ (
          tick_of_line p.format p.default_symbol t text n (clock n),
          record p { file = f; line_number = n },
        )
      ]

  unfoldable pub has_more_data : CsvParser c → Bool
  has_more_data p = p.file.good

  unfoldable pub get_total_records : CsvParser c → ℕ
  get_total_records p = p.line_number

  -- The loop `while (parser.read_next_tick(tick))`: the ticks that it is given, or none where the fuel
  -- does not reach.
  unfoldable pub read_ticks :
      ℕ → CsvParser c → HistoricalTick c → (ℕ → c.TimePoint) → Option (List (HistoricalTick c))
  read_ticks zero p t clock = none
  read_ticks (suc fuel) p t clock =
      let (next, p') = read_next_tick p t clock in
      elim next [ none ↦ some [] | some t' ↦ do ts ← read_ticks fuel p' t' clock; some (t' ∷ ts) ]

-- What read_next_snapshot makes of a tick, for both parsers.
unfoldable pub snapshot_of : (c : Core) → HistoricalTick c → HistoricalOrderBookSnapshot c
snapshot_of c t = record {
  symbol = t.symbol;
  timestamp = t.timestamp;
  bids = (t.bid_price, t.bid_size) ∷ [];
  asks = (t.ask_price, t.ask_size) ∷ [];
  sequence_number = t.sequence_number;
}

module _ (c : Core) (r : Reader c) where
  -- read_next_snapshot; the local tick begins as the memory held it, `t`.
  unfoldable pub read_next_snapshot :
      CsvParser c
      → HistoricalTick c
      → (ℕ → c.TimePoint)
      → Option (HistoricalOrderBookSnapshot c) × CsvParser c
  read_next_snapshot p t clock =
      let (next, p') = read_next_tick c r p t clock in
      (do tick ← next; some (snapshot_of c tick), p')
