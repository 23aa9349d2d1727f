-- ===== src/Engine/Making.antt =====
-- MarketMakingEngine, at the end of src/matching/matching_engine.cpp.
pub mod Quoting
pub mod Rounds
pub mod Idle
mod Examples
use hft_engine.Base.{
  ℕ, ◌+◌, Bool, true, false, ◌||◌, Option, none, some, List, [], ◌∷◌, ◌==◌, if◌then◌else◌,
}
use hft_engine.Base.Words.{wadd}
use hft_engine.Core.{Core}
use hft_engine.Containers.HashMap
use hft_engine.Order.{Order, new_order}
use hft_engine.Engine.Types.{
  Fill, ExecutionReport, price_time_priority, Event, executed, filled, failed, Environment,
}
use hft_engine.Engine.State.{
  Engine, new_engine, set_execution_callback, set_fill_callback, start, stop,
}
use hft_engine.Engine.Requests.{submit_order, cancel_order}
use hft_engine.Engine.Process.{matching_worker}

-- What the class uses of doubles beside the operators of Core: std::abs, std::max, the cast to a
-- quantity, 0.1 and 1e-6.
pub record Doubles (c : Core) : Type 0 where
  pub abs : c.Price → c.Price
  pub max : c.Price → c.Price → c.Price
  pub to_quantity : c.Price → ℕ
  pub one_tenth : c.Price
  pub one_millionth : c.Price

-- The ids of the bid and of the ask.
abbrev pub Quotes : Type 0
Quotes = ℕ × ℕ

pub record MarketMakingEngine (c : Core) (e : Environment c) : Type 0 where
  pub matching_engine : Engine c e
  pub spread_bps : c.Price
  pub default_size : ℕ
  pub max_position_size : c.Price
  pub inventory_skew_factor : c.Price
  pub positions : List (c.Symbol × c.Price)
  pub unrealized_pnl : List (c.Symbol × c.Price)
  pub active_quotes : List (c.Symbol × Quotes)
  pub next_quote_id : ℕ

module _ (c : Core) (e : Environment c) (d : Doubles c) where
  unfoldable pub new_maker : c.Price → ℕ → ℕ → MarketMakingEngine c e
  new_maker spread_bps default_size synthetic = record {
    matching_engine =
        set_fill_callback c e
          (set_execution_callback c e (new_engine c e price_time_priority false synthetic));
    spread_bps = spread_bps;
    default_size = default_size;
    max_position_size = c.price_of 1000000;
    inventory_skew_factor = d.one_tenth;
    positions = [];
    unrealized_pnl = [];
    active_quotes = [];
    next_quote_id = 1000000;
  }

  unfoldable pub get_position : MarketMakingEngine c e → c.Symbol → c.Price
  get_position k symbol = elim (HashMap.find c.symbol_eq symbol k.positions) [
    | none ↦ c.price_of 0
    | some p ↦ p
  ]

  unfoldable pub find_quotes : MarketMakingEngine c e → c.Symbol → Option Quotes
  find_quotes k symbol = HashMap.find c.symbol_eq symbol k.active_quotes

  -- `active_quotes_[symbol]`, which makes an entry where there is none.
  unfoldable pub quotes_or_new : MarketMakingEngine c e → c.Symbol → Quotes
  quotes_or_new k symbol = elim (find_quotes k symbol) [ none ↦ (0, 0) | some q ↦ q ]

  unfoldable pub update_position :
      MarketMakingEngine c e → c.Symbol → Fill c → MarketMakingEngine c e
  update_position k symbol f =
      let q = quotes_or_new k symbol in
      let change =
        if f.aggressive_order_id == q.1
        then c.price_sub (c.price_of 0) (c.price_of f.quantity)
        else c.price_of f.quantity in
      record k {
        active_quotes = HashMap.assign c.symbol_eq symbol q k.active_quotes;
        positions =
            HashMap.assign c.symbol_eq symbol (c.price_add (get_position k symbol) change)
              k.positions;
      }

  -- The loop of on_trade_execution.
  unfoldable pub update_positions :
      MarketMakingEngine c e → c.Symbol → List (Fill c) → MarketMakingEngine c e
  update_positions k symbol [] = k
  update_positions k symbol (f ∷ fs) = update_positions (update_position k symbol f) symbol fs

  unfoldable pub on_trade_execution :
      MarketMakingEngine c e → ExecutionReport c → MarketMakingEngine c e
  on_trade_execution k r = update_positions k r.symbol r.fills

  -- The fill callback that the constructor sets.
  unfoldable pub on_fill : MarketMakingEngine c e → Fill c → MarketMakingEngine c e
  on_fill k f = elim (find_quotes k f.symbol) [
    | none ↦ k
    | some (bid, ask) ↦
        if f.aggressive_order_id == bid || f.aggressive_order_id == ask
        then update_position k f.symbol f
        else k
  ]

  -- A call of a callback of the matching engine.
  unfoldable pub on_event : MarketMakingEngine c e → Event c → MarketMakingEngine c e
  on_event k (executed r) = on_trade_execution k r
  on_event k (filled f) = on_fill k f
  on_event k (failed code) = k

  unfoldable pub should_quote : MarketMakingEngine c e → c.Symbol → Bool
  should_quote k symbol = c.price_lt (d.abs (get_position k symbol)) k.max_position_size

  unfoldable pub calculate_inventory_skew : MarketMakingEngine c e → c.Symbol → c.Price
  calculate_inventory_skew k symbol = c.price_div (get_position k symbol) k.max_position_size

  unfoldable pub calculate_quote_prices :
      MarketMakingEngine c e → c.Symbol → c.Price → c.Price × c.Price
  calculate_quote_prices k symbol reference =
      let spread_fraction = c.price_div k.spread_bps (c.price_of 10000) in
      let half_spread = c.price_div (c.price_mul reference spread_fraction) (c.price_of 2) in
      let skew_adjustment =
        c.price_mul (c.price_mul reference (calculate_inventory_skew k symbol))
          k.inventory_skew_factor in
      (
        c.price_sub (c.price_sub reference half_spread) skew_adjustment,
        c.price_sub (c.price_add reference half_spread) skew_adjustment,
      )

  -- The side is not read.
  unfoldable pub calculate_quote_size : MarketMakingEngine c e → c.Symbol → c.Side → ℕ
  calculate_quote_size k symbol side =
      let ratio = c.price_div (d.abs (get_position k symbol)) k.max_position_size in
      let factor = d.max d.one_tenth (c.price_sub (c.price_of 1) ratio) in
      d.to_quantity (c.price_mul (c.price_of k.default_size) factor)

  unfoldable pub create_quote_order :
      MarketMakingEngine c e
      → c.Symbol
      → c.Side
      → c.Price
      → ℕ
      → c.TimePoint
      → Order c × MarketMakingEngine c e
  create_quote_order k symbol side price quantity now = (
    new_order c k.next_quote_id symbol side c.limit price quantity now,
    record k { next_quote_id = wadd c.id_mod k.next_quote_id 1 },
  )

  -- The result of a call of the matching engine, with the maker that owns it.
  abbrev pub with_engine : MarketMakingEngine c e → Engine c e → MarketMakingEngine c e
  with_engine k g = record k { matching_engine = g }

  -- The two cancellations may fail; what they report has no fills.
  unfoldable pub cancel_quotes : MarketMakingEngine c e → c.Symbol → MarketMakingEngine c e
  cancel_quotes k symbol = elim (find_quotes k symbol) [
    | none ↦ k
    | some (bid, ask) ↦
        let g = (cancel_order c e (cancel_order c e k.matching_engine bid).1 ask).1 in
        record k {
          matching_engine = g;
          active_quotes = HashMap.erase c.symbol_eq symbol k.active_quotes;
        }
  ]

  -- The two orders of a quote: the second is submitted if the first was queued. The quote is active
  -- if both were.
  unfoldable pub submit_quotes :
      MarketMakingEngine c e → c.Symbol → Order c → Order c → c.TimePoint → MarketMakingEngine c e
  submit_quotes k symbol bid ask now =
      let first = submit_order c e k.matching_engine bid now in
      let second = submit_order c e first.1 ask now in
      if first.0
      then if second.0
        then record k {
          matching_engine = second.1;
          active_quotes = HashMap.assign c.symbol_eq symbol (bid.id, ask.id) k.active_quotes;
        }
        else with_engine k second.1
      else with_engine k first.1

  -- The bid and the ask that update_quotes makes.
  unfoldable pub quote_orders :
      MarketMakingEngine c e
      → c.Symbol
      → c.Price
      → c.TimePoint
      → Order c × Order c × MarketMakingEngine c e
  quote_orders k symbol reference now =
      let (bid_price, ask_price) = calculate_quote_prices k symbol reference in
      let bid_size = calculate_quote_size k symbol c.buy in
      let ask_size = calculate_quote_size k symbol c.sell in
      let (bid, k1) = create_quote_order k symbol c.buy bid_price bid_size now in
      let (ask, k2) = create_quote_order k1 symbol c.sell ask_price ask_size now in (bid, ask, k2)

  -- update_quotes for a symbol that should be quoted, behind the cancellation.
  unfoldable pub quote :
      MarketMakingEngine c e → c.Symbol → c.Price → c.TimePoint → MarketMakingEngine c e
  quote k symbol reference now =
      let (bid, ask, k') = quote_orders k symbol reference now in
      submit_quotes k' symbol bid ask now

  unfoldable pub update_quotes :
      MarketMakingEngine c e → c.Symbol → c.Price → c.TimePoint → MarketMakingEngine c e
  update_quotes k symbol reference now =
      let cancelled = cancel_quotes k symbol in
      if should_quote k symbol then quote cancelled symbol reference now else cancelled

  unfoldable pub update_unrealized_pnl :
      MarketMakingEngine c e → c.Symbol → c.Price → MarketMakingEngine c e
  update_unrealized_pnl k symbol mark =
      let position = get_position k symbol in
      if c.price_lt d.one_millionth (d.abs position)
      then record k {
        unrealized_pnl =
            HashMap.assign c.symbol_eq symbol (c.price_mul position mark) k.unrealized_pnl;
      }
      else k

  unfoldable pub on_market_data_update :
      MarketMakingEngine c e → c.Symbol → c.Price → c.TimePoint → MarketMakingEngine c e
  on_market_data_update k symbol last_price now =
      update_unrealized_pnl (update_quotes k symbol last_price now) symbol last_price

  unfoldable pub get_unrealized_pnl : MarketMakingEngine c e → c.Symbol → c.Price
  get_unrealized_pnl k symbol = elim (HashMap.find c.symbol_eq symbol k.unrealized_pnl) [
    | none ↦ c.price_of 0
    | some p ↦ p
  ]

  unfoldable pub sum_pnl : c.Price → List (c.Symbol × c.Price) → c.Price
  sum_pnl total [] = total
  sum_pnl total (p ∷ ps) = sum_pnl (c.price_add total p.1) ps

  unfoldable pub get_total_pnl : MarketMakingEngine c e → c.Price
  get_total_pnl k = sum_pnl (c.price_of 0) k.unrealized_pnl

  unfoldable pub start_market_making : MarketMakingEngine c e → MarketMakingEngine c e
  start_market_making k = with_engine k (start c e k.matching_engine)

  unfoldable pub stop_market_making : MarketMakingEngine c e → MarketMakingEngine c e
  stop_market_making k = with_engine k (stop c e k.matching_engine)

  unfoldable pub set_spread : MarketMakingEngine c e → c.Price → MarketMakingEngine c e
  set_spread k s = record k { spread_bps = s }

  unfoldable pub set_default_size : MarketMakingEngine c e → ℕ → MarketMakingEngine c e
  set_default_size k n = record k { default_size = n }

  unfoldable pub set_max_position_size : MarketMakingEngine c e → c.Price → MarketMakingEngine c e
  set_max_position_size k p = record k { max_position_size = p }

  unfoldable pub set_inventory_skew_factor :
      MarketMakingEngine c e → c.Price → MarketMakingEngine c e
  set_inventory_skew_factor k p = record k { inventory_skew_factor = p }
