-- ===== src/Backtesting/Generator.antt =====
-- TickDataGenerator::generate_csv_data of src/backtesting/tick_data_generator.cpp.
use hft_engine.Base.{ℕ, ◌+◌, ◌/◌, ◌%◌, Bool, Option, none, some, List, [], ◌∷◌, ◌++◌, if◌then◌else◌}
use hft_engine.Base.Words.{wadd}
use hft_engine.Core.{Core}
use hft_engine.Fix.Bytes.{Bytes, to_string}
use hft_engine.Analytics.Types.{Arithmetic}
use hft_engine.Analytics.Calculator.{size_mod}

-- What the random distributions give for one tick, in the order of the draws. The two of a trade are
-- made only where there is one.
pub record Draws (c : Core) : Type 0 where
  pub walk : c.Price
  pub spread : c.Price
  pub bid_size : ℕ
  pub ask_size : ℕ
  pub trade : c.Price
  pub side : c.Price
  pub last_size : ℕ
  pub step : ℕ

-- The columns of a line.
pub record Row (c : Core) : Type 0 where
  pub timestamp_ns : ℕ
  pub bid_price : c.Price
  pub ask_price : c.Price
  pub last_price : c.Price
  pub bid_size : ℕ
  pub ask_size : ℕ
  pub last_size : ℕ

-- "timestamp_ns,symbol,bid_price,ask_price,last_price,bid_size,ask_size,last_size"
abbrev pub header_line : Bytes
header_line =
    b't' ∷ b'i' ∷ b'm' ∷ b'e' ∷ b's' ∷ b't' ∷ b'a' ∷ b'm' ∷ b'p' ∷ b'_' ∷ b'n' ∷ b's' ∷ b',' ∷ b's'
    ∷ b'y' ∷ b'm' ∷ b'b' ∷ b'o' ∷ b'l' ∷ b',' ∷ b'b' ∷ b'i' ∷ b'd' ∷ b'_' ∷ b'p' ∷ b'r' ∷ b'i'
    ∷ b'c' ∷ b'e' ∷ b',' ∷ b'a' ∷ b's' ∷ b'k' ∷ b'_' ∷ b'p' ∷ b'r' ∷ b'i' ∷ b'c' ∷ b'e' ∷ b','
    ∷ b'l' ∷ b'a' ∷ b's' ∷ b't' ∷ b'_' ∷ b'p' ∷ b'r' ∷ b'i' ∷ b'c' ∷ b'e' ∷ b',' ∷ b'b' ∷ b'i'
    ∷ b'd' ∷ b'_' ∷ b's' ∷ b'i' ∷ b'z' ∷ b'e' ∷ b',' ∷ b'a' ∷ b's' ∷ b'k' ∷ b'_' ∷ b's' ∷ b'i'
    ∷ b'z' ∷ b'e' ∷ b',' ∷ b'l' ∷ b'a' ∷ b's' ∷ b't' ∷ b'_' ∷ b's' ∷ b'i' ∷ b'z' ∷ b'e' ∷ []

module _ (c : Core) (a : Arithmetic c) where
  -- The walk of the price, which stays at 0.01 or above.
  unfoldable pub next_price : c.Price → Draws c → c.Price
  next_price price d = a.max (a.decimal 1 2) (c.price_mul price (c.price_add (c.price_of 1) d.walk))

  -- The line at the price that the walk has come to.
  unfoldable pub row_of : c.Price → c.Price → ℕ → Draws c → Row c
  row_of trade_probability price timestamp_ns d =
      let half = c.price_div (c.price_mul price d.spread) (c.price_of 2) in
      let bid = c.price_sub price half in
      let ask = c.price_add price half in
      let traded = c.price_lt d.trade trade_probability in
      record {
        timestamp_ns = timestamp_ns;
        bid_price = bid;
        ask_price = ask;
        last_price =
            if traded
            then (if c.price_lt d.side (a.decimal 5 1) then ask else bid)
            else c.price_of 0;
        bid_size = d.bid_size;
        ask_size = d.ask_size;
        last_size = if traded then d.last_size / 10 else 0;
      }

  unfoldable pub next_timestamp : ℕ → Draws c → ℕ
  next_timestamp timestamp_ns d = wadd size_mod timestamp_ns (1000 + d.step % 100000)

  -- The loop, for the draws of its rounds.
  unfoldable pub generate_rows : c.Price → c.Price → ℕ → List (Draws c) → List (Row c)
  generate_rows trade_probability price timestamp_ns [] = []
  generate_rows trade_probability price timestamp_ns (d ∷ ds) =
      let price' = next_price price d in
      row_of trade_probability price' timestamp_ns d
      ∷ generate_rows trade_probability price' (next_timestamp timestamp_ns d) ds

-- `fixed` is the text of a double with four digits behind the point.
module _ (c : Core) (fixed : c.Price → Bytes) where
  unfoldable pub row_line : Bytes → Row c → Bytes
  row_line symbol w =
      to_string w.timestamp_ns
      ++ b','
        ∷ (symbol
            ++ b','
              ∷ (fixed w.bid_price
                  ++ b','
                    ∷ (fixed w.ask_price
                        ++ b','
                          ∷ (fixed w.last_price
                              ++ b','
                                ∷ (to_string w.bid_size
                                    ++ b','
                                      ∷ (to_string w.ask_size ++ b',' ∷ to_string w.last_size))))))

  unfoldable pub row_lines : Bytes → List (Row c) → Bytes
  row_lines symbol [] = []
  row_lines symbol (w ∷ ws) = row_line symbol w ++ 10 ∷ row_lines symbol ws

-- The text of the file, for the draws of the num_ticks rounds; none is false, where the file does not
-- open.
unfoldable pub generate_csv_data :
    (c : Core)
    → Arithmetic c
    → (c.Price → Bytes)
    → Bool
    → Bytes
    → c.Price
    → c.Price
    → ℕ
    → List (Draws c)
    → Option Bytes
generate_csv_data c a fixed writable symbol initial_price trade_probability timestamp_ns ds =
    let rows = generate_rows c a trade_probability initial_price timestamp_ns ds in
    if writable then some (header_line ++ 10 ∷ row_lines c fixed symbol rows) else none
