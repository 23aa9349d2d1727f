-- ===== src/Backtesting/Ticks.antt =====
-- HistoricalTick and HistoricalOrderBookSnapshot of include/hft/backtesting/tick_replay.hpp.
use hft_engine.Base.{ℕ, Bool, List, [], ◌∷◌, ltb, if◌then◌else◌}
use hft_engine.Core.{Core}

pub record HistoricalTick (c : Core) : Type 0 where
  pub symbol : c.Symbol
  pub timestamp : c.TimePoint
  pub bid_price : c.Price
  pub ask_price : c.Price
  pub last_price : c.Price
  pub bid_size : ℕ
  pub ask_size : ℕ
  pub last_size : ℕ
  pub sequence_number : ℕ
  pub spread_bps : c.Price
  pub mid_price : c.Price
  pub is_trade_tick : Bool
  pub trade_aggressor_side : c.Side

pub record HistoricalOrderBookSnapshot (c : Core) : Type 0 where
  pub symbol : c.Symbol
  pub timestamp : c.TimePoint
  pub bids : List (c.Price × ℕ)
  pub asks : List (c.Price × ℕ)
  pub sequence_number : ℕ

module _ (c : Core) where
  abbrev pub middle : c.Price → c.Price → c.Price
  middle bid ask = c.price_div (c.price_add bid ask) (c.price_of 2)

  abbrev pub spread : c.Price → c.Price → c.Price → c.Price
  spread bid ask mid = c.price_mul (c.price_div (c.price_sub ask bid) mid) (c.price_of 10000)

  -- The constructor leaves the aggressor's side as the memory held it, `unset`.
  unfoldable pub new_tick :
      c.Symbol → c.TimePoint → c.Price → c.Price → c.Price → ℕ → ℕ → ℕ → c.Side → HistoricalTick c
  new_tick symbol timestamp bid ask last bid_size ask_size last_size unset = record {
    symbol = symbol;
    timestamp = timestamp;
    bid_price = bid;
    ask_price = ask;
    last_price = last;
    bid_size = bid_size;
    ask_size = ask_size;
    last_size = last_size;
    sequence_number = 0;
    spread_bps = spread bid ask (middle bid ask);
    mid_price = middle bid ask;
    is_trade_tick = ltb 0 last_size;
    trade_aggressor_side = unset;
  }

  unfoldable pub get_mid_price : HistoricalOrderBookSnapshot c → c.Price
  get_mid_price s = elim s.bids [
    | [] ↦ c.price_of 0
    | b ∷ bs ↦ elim s.asks [ [] ↦ c.price_of 0 | a ∷ as' ↦ middle b.0 a.0 ]
  ]

  unfoldable pub get_spread_bps : HistoricalOrderBookSnapshot c → c.Price
  get_spread_bps s = elim s.bids [
    | [] ↦ c.price_of 0
    | b ∷ bs ↦ elim s.asks [ [] ↦ c.price_of 0 | a ∷ as' ↦ spread b.0 a.0 (get_mid_price s) ]
  ]

  -- The last statements of the two parsers' read_next_tick, for the columns that they have read.
  unfoldable pub complete_tick : HistoricalTick c → HistoricalTick c
  complete_tick t =
      let mid = middle t.bid_price t.ask_price in
      record t {
        mid_price = mid;
        spread_bps = spread t.bid_price t.ask_price mid;
        is_trade_tick = ltb 0 t.last_size;
        trade_aggressor_side = if c.price_le mid t.last_price then c.buy else c.sell;
      }
