-- ===== src/Backtesting/Properties/Files/Generated.antt =====
-- The lines that TickDataGenerator::generate_csv_data writes, read by CSVMarketDataParser.
use hft_engine.Base.{
  suc, length, ℕ, ◌<◌, ◌≤◌, ◌/◌, ◌^◌, Bool, true, false, some, List, [], ◌∷◌, ◌++◌, map, ◌≡◌, refl,
  sym, ap, ◌∙◌, All, arith, if◌then◌else◌,
}
use hft_engine.Base.Words.{wadd}
use hft_engine.Core.{Core}
use hft_engine.Fix.Bytes.{Bytes, to_string}
use hft_engine.Fix.Bytes.Numbers.{to_string-IsDigits, to_string-DigitFirst, stoul-to_string}
use hft_engine.Analytics.Types.{Arithmetic}
use hft_engine.Analytics.Calculator.{size_mod}
use hft_engine.Backtesting.Ticks.{HistoricalTick, complete_tick}
use hft_engine.Backtesting.Suite.{get_elem?}
use hft_engine.Backtesting.Files.{Reader, open_stream}
use hft_engine.Backtesting.Files.Csv.{
  default_format, new_csv_parser, open_csv, read_ticks, parse_csv_line, parse_timestamp,
  read_columns, tick_of_line,
}
use hft_engine.Backtesting.Generator.{
  Draws, Row, next_price, row_of, next_timestamp, row_line, row_lines, generate_rows,
  generate_csv_data,
}
use hft_engine.Backtesting.Properties.Files.Pieces.{pieces}
use hft_engine.Backtesting.Properties.Files.Fields.{trimmed, parse_csv_line_lem}
use hft_engine.Backtesting.Properties.Files.Joined.{
  IsPlain, digits-ArePlain, joined, pieces-append, Lacks, fields_joined, joined-Lacks, comma,
}
use hft_engine.Backtesting.Properties.Files.Reading.{taken, ticks_of_lines}
use hft_engine.Backtesting.Properties.Files.Conversion.{csv_ticks, opened_reads}

-- The numbers of a row are uint64_t.
pub record IsRow {c : Core} (w : Row c) : Type 0 where
  pub timestamp_fits : w.timestamp_ns < 2 ^ 64
  pub bid_fits : w.bid_size < 2 ^ 64
  pub ask_fits : w.ask_size < 2 ^ 64
  pub last_fits : w.last_size < 2 ^ 64

-- How a double is printed: without a comma, a newline or a blank, and std::stod reads the text as the
-- double with the digits that are printed.
pub record IsPrinter (c : Core) (r : Reader c) (fixed : c.Price → Bytes)
    (rounded : c.Price → c.Price) : Type 0 where
  pub plain : (x : c.Price) → All IsPlain (fixed x)
  pub reads : (x : c.Price) → r.stod (fixed x) ≡ some (rounded x)

pub to_string-ArePlain : (n : ℕ) → All IsPlain (to_string n)
to_string-ArePlain n = digits-ArePlain (to_string n) (to_string-IsDigits n)

module _ (c : Core) (r : Reader c) (fixed : c.Price → Bytes) (rounded : c.Price → c.Price)
    (symbol : Bytes) where
  -- The tick of a row in the n-th line.
  abbrev pub tick_of_row : HistoricalTick c → ℕ → Row c → HistoricalTick c
  tick_of_row t n w = complete_tick c (record t {
    symbol = r.symbol_of symbol;
    timestamp = r.time_of_ns w.timestamp_ns;
    bid_price = rounded w.bid_price;
    ask_price = rounded w.ask_price;
    last_price = rounded w.last_price;
    bid_size = w.bid_size;
    ask_size = w.ask_size;
    last_size = w.last_size;
    sequence_number = n;
  })

  abbrev pub ticks_of_rows : HistoricalTick c → ℕ → List (Row c) → List (HistoricalTick c)
  ticks_of_rows t n [] = []
  ticks_of_rows t n (w ∷ ws) =
      let n' = wadd size_mod n 1 in tick_of_row t n' w ∷ ticks_of_rows (tick_of_row t n' w) n' ws

  abbrev first_fields : Row c → List Bytes
  first_fields w =
      to_string w.timestamp_ns
      ∷ symbol
      ∷ fixed w.bid_price
      ∷ fixed w.ask_price
      ∷ fixed w.last_price
      ∷ to_string w.bid_size
      ∷ to_string w.ask_size
      ∷ []

  row_joined :
      (w : Row c) → row_line c fixed symbol w ≡ joined (first_fields w) (to_string w.last_size)
  unfolding row_line
  row_joined w = refl

  module _ (printer : IsPrinter c r fixed rounded) (plain_symbol : All IsPlain symbol) where
    fields-ArePlain : (w : Row c) → All (All IsPlain) (first_fields w)
    fields-ArePlain w = (
      to_string-ArePlain w.timestamp_ns,
      (
        plain_symbol,
        (
          printer.plain w.bid_price,
          (
            printer.plain w.ask_price,
            (
              printer.plain w.last_price,
              (to_string-ArePlain w.bid_size, (to_string-ArePlain w.ask_size, tt)),
            ),
          ),
        ),
      ),
    )

    row_fields :
        (w : Row c)
        → parse_csv_line default_format (row_line c fixed symbol w)
          ≡ first_fields w ++ to_string w.last_size ∷ []
    row_fields w =
        parse_csv_line_lem default_format (row_line c fixed symbol w)
        ∙ ap (λ s. map trimmed (pieces comma s)) (row_joined w)
        ∙ fields_joined (first_fields w) (to_string w.last_size) (fields-ArePlain w)
            (to_string-ArePlain w.last_size) (to_string-DigitFirst w.last_size)

    timestamp_read :
        (n : ℕ) (now : c.TimePoint)
        → n < 2 ^ 64
        → parse_timestamp c r (to_string n) now ≡ r.time_of_ns n
    unfolding parse_timestamp
    timestamp_read n now h = rw (parse_timestamp, stoul-to_string n h) refl

    columns_read :
        (t : HistoricalTick c) (w : Row c) (n : ℕ) (now : c.TimePoint)
        → IsRow w
        → read_columns c r default_format c.no_symbol t
            (first_fields w ++ to_string w.last_size ∷ [])
            n
            now
          ≡ some (record t {
            symbol = r.symbol_of symbol;
            timestamp = r.time_of_ns w.timestamp_ns;
            bid_price = rounded w.bid_price;
            ask_price = rounded w.ask_price;
            last_price = rounded w.last_price;
            bid_size = w.bid_size;
            ask_size = w.ask_size;
            last_size = w.last_size;
            sequence_number = n;
          })
    unfolding read_columns get_elem?
    columns_read t w n now i =
        rw
          (
            printer.reads w.bid_price,
            printer.reads w.ask_price,
            printer.reads w.last_price,
            stoul-to_string w.bid_size i.bid_fits,
            stoul-to_string w.ask_size i.ask_fits,
            stoul-to_string w.last_size i.last_fits,
            timestamp_read w.timestamp_ns now i.timestamp_fits,
          )
          refl

    row_read :
        (t : HistoricalTick c) (w : Row c) (n : ℕ) (now : c.TimePoint)
        → IsRow w
        → tick_of_line c r default_format c.no_symbol t (row_line c fixed symbol w) n now
          ≡ some (tick_of_row t n w)
    unfolding tick_of_line
    row_read t w n now i = rw (row_fields w, columns_read t w n now i) refl

    row-Lacks : (w : Row c) → Lacks 10 (row_line c fixed symbol w)
    row-Lacks w = rw (row_joined w) (
        joined-Lacks (first_fields w) (to_string w.last_size) (fields-ArePlain w)
          (to_string-ArePlain w.last_size))

    rows_read :
        (t : HistoricalTick c) (clock : ℕ → c.TimePoint) (n : ℕ) (ws : List (Row c))
        → All IsRow ws
        → ticks_of_lines c r default_format c.no_symbol t clock n
            (pieces 10 (row_lines c fixed symbol ws))
          ≡ ticks_of_rows t n ws
    unfolding row_lines
    rows_read t clock n [] i = refl
    rows_read t clock n (w ∷ ws) i =
        let n' = wadd size_mod n 1 in
        rw
          (
            pieces-append 10 (row_line c fixed symbol w) (row_lines c fixed symbol ws)
                (row-Lacks w),
            ticks_of_lines,
            row_read t w n' (clock n') i.0,
            rows_read (tick_of_row t n' w) clock n' ws i.1,
          )
          refl

-- size_dist_ draws a whole number of at most 10000.
pub record IsDrawn {c : Core} (d : Draws c) : Type 0 where
  pub bid_bounded : d.bid_size ≤ 10000
  pub ask_bounded : d.ask_size ≤ 10000
  pub last_bounded : d.last_size ≤ 10000

tenth_if : (b : Bool) (n : ℕ) → n ≤ 10000 → (if b then n / 10 else 0) < 2 ^ 64
tenth_if true n h = omega (arith, h)
tenth_if false n h = omega arith

module _ (c : Core) (a : Arithmetic c) where
  next_fits : (ns : ℕ) (d : Draws c) → next_timestamp c a ns d < 2 ^ 64
  unfolding next_timestamp wadd
  next_fits ns d = omega arith

  generate_rows-AreRows :
      (trade_probability price : c.Price) (ns : ℕ) (ds : List (Draws c))
      → ns < 2 ^ 64
      → All IsDrawn ds
      → All IsRow (generate_rows c a trade_probability price ns ds)
  unfolding generate_rows row_of
  generate_rows-AreRows trade_probability price ns [] h i = tt
  generate_rows-AreRows trade_probability price ns (d ∷ ds) h i = (
    record {
      timestamp_fits = h;
      bid_fits = omega (arith, i.0.bid_bounded);
      ask_fits = omega (arith, i.0.ask_bounded);
      last_fits = tenth_if (c.price_lt d.trade trade_probability) d.last_size i.0.last_bounded;
    },
    generate_rows-AreRows trade_probability (next_price c a price d) (next_timestamp c a ns d) ds
        (next_fits ns d) i.1,
  )

module _ (c : Core) (r : Reader c) (a : Arithmetic c) (fixed : c.Price → Bytes)
    (rounded : c.Price → c.Price) where
  -- For a symbol and printed doubles without a comma, a newline or a blank, and printed doubles that
  -- std::stod reads as rounded ones: a new CSVMarketDataParser opens what generate_csv_data has written,
  -- for whatever draws of sizes up to 10000, and the loop over read_next_tick ends and yields a tick for
  -- each row, with the row's time, symbol and sizes and the rounded prices.
  pub generate_csv_data_lem :
      (symbol : Bytes) (initial_price trade_probability : c.Price) (ns : ℕ) (ds : List (Draws c))
      → (text : Bytes) → (t : HistoricalTick c) → (clock : ℕ → c.TimePoint)
      → IsPrinter c r fixed rounded
      → All IsPlain symbol
      → ns < 2 ^ 64
      → All IsDrawn ds
      → generate_csv_data c a fixed true symbol initial_price trade_probability ns ds ≡ some text
      → ((open_csv c r (new_csv_parser c r c.no_symbol) (some text)).0 ≡ true)
        × (read_ticks c r
              (suc (length text))
              (open_csv c r (new_csv_parser c r c.no_symbol) (some text)).1
              t
              clock
            ≡ some (
                ticks_of_rows c r fixed rounded symbol t 1
                  (generate_rows c a trade_probability initial_price ns ds)))
  unfolding generate_csv_data
  generate_csv_data_lem symbol initial_price trade_probability ns ds text t clock printer plain h i
        e =
      let rows = generate_rows c a trade_probability initial_price ns ds in
      (
        unfold open_csv open_stream new_csv_parser in refl,
        opened_reads c r text t clock
            ∙ ap (λ s. some (csv_ticks c r s t clock)) (sym (taken e))
            ∙ ap (λ ts. some ts)
                (rows_read c r fixed rounded symbol printer plain t clock 1 rows
                  (generate_rows-AreRows c a trade_probability initial_price ns ds h i)),
      )
