-- ===== src/Backtesting/Quoting.antt =====
-- MarketMakingStrategy of src/backtesting/tick_replay.cpp. Its std::maps are only looked up, assigned
-- to and erased from.
use hft_engine.Base.{
  ℕ, Bool, true, false, not, ◌&&◌, ◌||◌, Option, none, some, List, [], or_else, if◌then◌else◌,
}
use hft_engine.Base.Words.{wadd}
use hft_engine.Core.{Core}
use hft_engine.Containers.HashMap
use hft_engine.Order.{Order, new_order}
use hft_engine.Analytics.Types.{Arithmetic}
use hft_engine.Engine.Types.{Fill, Environment}
use hft_engine.Engine.State.{Engine}
use hft_engine.Engine.Requests.{submit_order, cancel_order}
use hft_engine.Backtesting.Ticks.{HistoricalTick}

-- `attached` says whether matching_engine_ is set.
pub record MarketMakingStrategy (c : Core) : Type 0 where
  pub spread_bps : c.Price
  pub default_size : ℕ
  pub max_position : c.Price
  pub inventory_skew_factor : c.Price
  pub positions : List (c.Symbol × c.Price)
  pub active_quotes : List (c.Symbol × (ℕ × ℕ))
  pub next_order_id : ℕ
  pub min_spread_bps : c.Price
  pub max_spread_bps : c.Price
  pub adaptive_sizing : Bool
  pub attached : Bool

module _ (c : Core) (a : Arithmetic c) where
  unfoldable pub new_quoting : c.Price → ℕ → c.Price → MarketMakingStrategy c
  new_quoting spread_bps default_size max_position = record {
    spread_bps = spread_bps;
    default_size = default_size;
    max_position = max_position;
    inventory_skew_factor = a.decimal 1 1;
    positions = [];
    active_quotes = [];
    next_order_id = 1;
    min_spread_bps = c.price_of 2;
    max_spread_bps = c.price_of 20;
    adaptive_sizing = true;
    attached = false;
  }

  -- `positions_[symbol]`, and the entry that it makes where there is none.
  unfoldable pub position_of : MarketMakingStrategy c → c.Symbol → c.Price
  position_of m symbol = or_else (c.price_of 0) (HashMap.find c.symbol_eq symbol m.positions)

  abbrev pub touched : MarketMakingStrategy c → c.Symbol → MarketMakingStrategy c
  touched m symbol = record m {
    positions = HashMap.assign c.symbol_eq symbol (position_of m symbol) m.positions;
  }

  unfoldable pub calculate_quote_prices :
      MarketMakingStrategy c → c.Symbol → c.Price → c.Price × c.Price
  calculate_quote_prices m symbol reference =
      let current_position = position_of m symbol in
      let inventory_skew = c.price_mul current_position m.inventory_skew_factor in
      let effective_spread_bps =
        if c.price_lt (c.price_mul m.max_position (a.decimal 8 1)) (a.abs current_position)
        then a.min m.max_spread_bps (c.price_mul m.spread_bps (a.decimal 15 1))
        else m.spread_bps in
      let half_spread =
        c.price_div (c.price_mul reference effective_spread_bps) (c.price_of 20000) in
      (
        c.price_sub (c.price_sub reference half_spread) inventory_skew,
        c.price_sub (c.price_add reference half_spread) inventory_skew,
      )

  unfoldable pub calculate_quote_size : MarketMakingStrategy c → c.Symbol → c.Side → ℕ
  calculate_quote_size m symbol side =
      let current_position = position_of m symbol in
      let near_limit =
        (c.is_buy side && c.price_lt (c.price_mul m.max_position (a.decimal 7 1)) current_position)
        || (not (c.is_buy side)
            && c.price_lt current_position
                (c.price_mul (a.negate m.max_position) (a.decimal 7 1))) in
      let size_adjustment = if near_limit then a.decimal 5 1 else c.price_of 1 in
      if m.adaptive_sizing
      then a.to_unsigned (c.price_mul (c.price_of m.default_size) size_adjustment)
      else m.default_size

  -- The two orders of update_quotes, and the strategy behind it.
  unfoldable pub quote_orders :
      MarketMakingStrategy c
      → c.Symbol
      → c.Price
      → c.TimePoint
      → (Order c × Order c) × MarketMakingStrategy c
  quote_orders m symbol reference now =
      let prices = calculate_quote_prices m symbol reference in
      let bid_id = m.next_order_id in
      let ask_id = wadd c.id_mod bid_id 1 in
      (
        (
          new_order c bid_id symbol c.buy c.limit prices.0 (calculate_quote_size m symbol c.buy)
              now,
          new_order c ask_id symbol c.sell c.limit prices.1 (calculate_quote_size m symbol c.sell)
              now,
        ),
        record (touched m symbol) {
          next_order_id = wadd c.id_mod ask_id 1;
          active_quotes = HashMap.assign c.symbol_eq symbol (bid_id, ask_id) m.active_quotes;
        },
      )

  -- The side of the fill is not read.
  unfoldable pub update_position :
      MarketMakingStrategy c → c.Symbol → Fill c → MarketMakingStrategy c
  update_position m symbol f = record m {
    positions =
        HashMap.assign c.symbol_eq symbol
          (c.price_add (position_of m symbol) (c.price_of f.quantity)) m.positions;
  }

  unfoldable pub on_fill : MarketMakingStrategy c → Fill c → MarketMakingStrategy c
  on_fill m f = update_position m f.symbol f

module _ (c : Core) (e : Environment c) (a : Arithmetic c) where
  -- Both orders are submitted; what the submissions return is not read.
  unfoldable pub update_quotes :
      MarketMakingStrategy c
      → Engine c e
      → c.Symbol
      → c.Price
      → c.TimePoint
      → MarketMakingStrategy c × Engine c e
  update_quotes m g symbol reference now =
      let quoted = quote_orders c a m symbol reference now in
      let after_bid = (submit_order c e g quoted.0.0 now).1 in
      (quoted.1, (submit_order c e after_bid quoted.0.1 now).1)

  unfoldable pub cancel_found :
      MarketMakingStrategy c
      → Engine c e
      → c.Symbol
      → Option (ℕ × ℕ)
      → MarketMakingStrategy c × Engine c e
  cancel_found m g symbol none = (m, g)
  cancel_found m g symbol (some (bid, ask)) = (
    record m { active_quotes = HashMap.erase c.symbol_eq symbol m.active_quotes },
    (cancel_order c e (cancel_order c e g bid).1 ask).1,
  )

  unfoldable pub cancel_quotes :
      MarketMakingStrategy c → Engine c e → c.Symbol → MarketMakingStrategy c × Engine c e
  cancel_quotes m g symbol =
      cancel_found m g symbol (HashMap.find c.symbol_eq symbol m.active_quotes)

  unfoldable pub on_tick :
      MarketMakingStrategy c
      → Engine c e
      → HistoricalTick c
      → c.TimePoint
      → MarketMakingStrategy c × Engine c e
  on_tick m g t now =
      let cancelled = cancel_quotes m g t.symbol in
      if m.attached then update_quotes cancelled.0 cancelled.1 t.symbol t.mid_price now else (m, g)
