-- ===== src/Backtesting/Files/Binary.antt =====
-- BinaryMarketDataParser of src/backtesting/tick_replay.cpp. A struct that is written to a file or read
-- from one is the struct itself: a file is a header and whole records of 64 bytes behind it.
use hft_engine.Base.{
  ℕ, zero, suc, ◌+◌, ◌*◌, Bool, true, false, not, ◌&&◌, ◌||◌, Option, none, some, List, [], ◌∷◌,
  ◌++◌, ◌==◌, ltb, length, if◌then◌else◌, ◌>>=◌,
}
use hft_engine.Base.Words.{wadd}
use hft_engine.Core.{Core}
use hft_engine.Fix.Bytes.{Bytes, same_bytes}
use hft_engine.Analytics.Calculator.{size_mod}
use hft_engine.Backtesting.Ticks.{HistoricalTick, HistoricalOrderBookSnapshot, complete_tick}
use hft_engine.Backtesting.Files.{Reader}
use hft_engine.Backtesting.Files.Csv.{
  CsvParser, new_csv_parser, open_csv, read_next_tick, snapshot_of,
}

-- The local struct BinaryTick of read_next_tick and convert_csv_to_binary
pub record BinaryTick (c : Core) : Type 0 where
  pub timestamp_ns : ℕ
  pub bid_price : c.Price
  pub ask_price : c.Price
  pub last_price : c.Price
  pub bid_size : ℕ
  pub ask_size : ℕ
  pub last_size : ℕ
  pub sequence_number : ℕ

-- BinaryHeader; `symbol` is the text up to the terminating zero.
pub record BinaryHeader : Type 0 where
  pub magic : Bytes
  pub version : ℕ
  pub record_count : ℕ
  pub start_time_ns : ℕ
  pub end_time_ns : ℕ
  pub symbol : Bytes
  pub record_size : ℕ

-- `torn` is the number of bytes behind the last whole record, fewer than 64.
pub record BinaryFile (c : Core) : Type 0 where
  pub header : BinaryHeader
  pub records : List (BinaryTick c)
  pub torn : ℕ

abbrev pub hftd : Bytes
hftd = b'H' ∷ b'F' ∷ b'T' ∷ b'D' ∷ []

-- sizeof(BinaryHeader) and sizeof(BinaryTick), with eight-byte doubles and alignment
abbrev pub header_bytes : ℕ
header_bytes = 56

abbrev pub tick_bytes : ℕ
tick_bytes = 64

-- The stream is the records that are left, good() and is_open().
pub record BinaryParser (c : Core) : Type 0 where
  pub unread : List (BinaryTick c)
  pub good : Bool
  pub is_open : Bool
  pub file_size : ℕ
  pub current_position : ℕ
  pub header : BinaryHeader

-- How convert_csv_to_binary ends. The last: strcpy writes beyond the header's symbol, which is
-- undefined.
pub data Conversion (c : Core) : Type 0 where
  refused : Conversion c
  written : BinaryFile c → Conversion c
  overflow : Conversion c

module _ (c : Core) (r : Reader c) where
  -- open, of a parser that has no file open. A file that does not open is none; one that is shorter
  -- than the header is not modelled.
  unfoldable pub open_binary : BinaryParser c → Option (BinaryFile c) → Bool × BinaryParser c
  open_binary p none = (false, record p { good = false })
  open_binary p (some f) =
      if same_bytes f.header.magic hftd
      then (
        true,
        record {
          unread = f.records;
          good = true;
          is_open = true;
          file_size = header_bytes + tick_bytes * length f.records + f.torn;
          current_position = header_bytes;
          header = f.header;
        },
      )
      else (false, record p { unread = []; good = true; is_open = false; header = f.header })

  -- The tick of a record; the computed members come from `t` and are overwritten.
  unfoldable pub unpack : HistoricalTick c → BinaryHeader → BinaryTick c → HistoricalTick c
  unpack t h b = complete_tick c (record t {
    symbol = r.symbol_of h.symbol;
    timestamp = r.time_of_ns b.timestamp_ns;
    bid_price = b.bid_price;
    ask_price = b.ask_price;
    last_price = b.last_price;
    bid_size = b.bid_size;
    ask_size = b.ask_size;
    last_size = b.last_size;
    sequence_number = b.sequence_number;
  })

  -- read_next_tick. A torn record sets eofbit and failbit.
  unfoldable pub read_binary_tick :
      BinaryParser c → HistoricalTick c → Option (HistoricalTick c) × BinaryParser c
  read_binary_tick p t =
      if not p.good || not (ltb p.current_position p.file_size) then (none, p) else elim p.unread [
        | [] ↦ (none, record p { good = false })
        | b ∷ bs ↦ (
          some (unpack t p.header b),
          record p { unread = bs; current_position = p.current_position + tick_bytes },
        )
      ]

  -- The loop `while (parser.read_next_tick(tick))`, as of the other parser
  unfoldable pub read_binary_ticks :
      ℕ → BinaryParser c → HistoricalTick c → Option (List (HistoricalTick c))
  read_binary_ticks zero p t = none
  read_binary_ticks (suc fuel) p t =
      let (next, p') = read_binary_tick p t in
      elim next [ none ↦ some [] | some t' ↦ do ts ← read_binary_ticks fuel p' t'; some (t' ∷ ts) ]

  unfoldable pub read_binary_snapshot :
      BinaryParser c → HistoricalTick c → Option (HistoricalOrderBookSnapshot c) × BinaryParser c
  read_binary_snapshot p t =
      let (next, p') = read_binary_tick p t in (do tick ← next; some (snapshot_of c tick), p')

  unfoldable pub close_binary : BinaryParser c → BinaryParser c
  close_binary p = record p { unread = []; is_open = false; current_position = 0 }

  unfoldable pub has_more_binary : BinaryParser c → Bool
  has_more_binary p = p.good && ltb p.current_position p.file_size

  unfoldable pub get_binary_records : BinaryParser c → ℕ
  get_binary_records p = p.header.record_count

  abbrev pub unknown : Bytes
  unknown = b'U' ∷ b'N' ∷ b'K' ∷ b'N' ∷ b'O' ∷ b'W' ∷ b'N' ∷ []

  abbrev pub first_header : BinaryHeader
  first_header = record {
    magic = hftd;
    version = 1;
    record_count = 0;
    start_time_ns = 0;
    end_time_ns = 0;
    symbol = unknown;
    record_size = tick_bytes;
  }

  unfoldable pub pack : HistoricalTick c → BinaryTick c
  pack t = record {
    timestamp_ns = r.ns_of t.timestamp;
    bid_price = t.bid_price;
    ask_price = t.ask_price;
    last_price = t.last_price;
    bid_size = t.bid_size;
    ask_size = t.ask_size;
    last_size = t.last_size;
    sequence_number = t.sequence_number;
  }

  -- What the loop of convert_csv_to_binary does to the header. none: strcpy of a text of sixteen bytes
  -- or more, with its terminating zero, overflows.
  unfoldable pub count_record : BinaryHeader → HistoricalTick c → Option BinaryHeader
  count_record h t =
      let n = wadd size_mod h.record_count 1 in
      let ns = r.ns_of t.timestamp in
      let name = r.symbol_text t.symbol in
      if n == 1
      then if ltb (length name) 16
        then some
            (record h { record_count = n; start_time_ns = ns; symbol = name; end_time_ns = ns })
        else none
      else some (record h { record_count = n; end_time_ns = ns })

  -- The loop, with the records that are written; the header is written over the first one at the end.
  unfoldable pub convert_ticks :
      ℕ
      → CsvParser c
      → HistoricalTick c
      → (ℕ → c.TimePoint)
      → BinaryHeader
      → List (BinaryTick c)
      → Option (Conversion c)
  convert_ticks zero p t clock h bs = none
  convert_ticks (suc fuel) p t clock h bs =
      let (next, p') = read_next_tick c r p t clock in
      elim next [
        | none ↦ some (written (record { header = h; records = bs; torn = 0 }))
        | some t' ↦ elim (count_record h t') [
          | none ↦ some overflow
          | some h' ↦ convert_ticks fuel p' t' clock h' (bs ++ pack t' ∷ [])
        ]
      ]

  -- convert_csv_to_binary: `csv` is the text of the CSV file, if it opens, and `writable` says whether
  -- the other file does. `t` is the local tick.
  unfoldable pub convert_csv_to_binary :
      ℕ → Option Bytes → Bool → HistoricalTick c → (ℕ → c.TimePoint) → Option (Conversion c)
  convert_csv_to_binary fuel csv writable t clock =
      let (opened, p) = open_csv c r (new_csv_parser c r c.no_symbol) csv in
      let rest = convert_ticks fuel p t clock first_header [] in
      if opened && writable then rest else some refused
