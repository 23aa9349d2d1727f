-- ===== src/Analytics/Calculator.antt =====
-- PnLCalculator of src/analytics/pnl_calculator_simple.cpp. A call runs under its locks as one step.
pub mod Queries
use hft_engine.Base.{
  ℕ, Bool, true, false, not, ◌&&◌, ◌||◌, Option, none, some, List, [], ◌∷◌, ◌++◌, if◌then◌else◌,
  or_else,
}
use hft_engine.Base.Words.{wadd}
use hft_engine.Core.{Core}
use hft_engine.Containers.HashMap
use hft_engine.Fix.Bytes.{Bytes}
use hft_engine.Analytics.Types.{Arithmetic, Trade, Unset, Position, new_trade, new_position}
use hft_engine.Analytics.Formulas.{tiny}

pub record PnLCalculator (c : Core) : Type 0 where
  pub positions : List (c.Symbol × Position c)
  pub trades : List (Trade c)
  pub current_prices : List (c.Symbol × c.Price)
  pub price_timestamps : List (c.Symbol × c.TimePoint)
  pub commission_rates : List (c.Symbol × c.Price)
  pub default_commission_rate : c.Price
  pub total_realized_pnl : c.Price
  pub total_unrealized_pnl : c.Price
  pub total_commission : c.Price
  pub trade_count : ℕ

-- The modulus of std::size_t
abbrev pub size_mod : ℕ
size_mod = 0x1_0000_0000_0000_0000

module _ (c : Core) (a : Arithmetic c) where
  abbrev pub above_zero : c.Price → Bool
  above_zero x = c.price_lt (c.price_of 0) x

  abbrev pub below_zero : c.Price → Bool
  below_zero x = c.price_lt x (c.price_of 0)

  unfoldable pub reset : PnLCalculator c → PnLCalculator c
  reset k = record {
    positions = [];
    trades = [];
    current_prices = [];
    price_timestamps = [];
    commission_rates = [];
    default_commission_rate = k.default_commission_rate;
    total_realized_pnl = c.price_of 0;
    total_unrealized_pnl = c.price_of 0;
    total_commission = c.price_of 0;
    trade_count = 0;
  }

  unfoldable pub new_calculator : c.Price → PnLCalculator c
  new_calculator default_commission_rate = reset (record {
    positions = [];
    trades = [];
    current_prices = [];
    price_timestamps = [];
    commission_rates = [];
    default_commission_rate = default_commission_rate;
    total_realized_pnl = c.price_of 0;
    total_unrealized_pnl = c.price_of 0;
    total_commission = c.price_of 0;
    trade_count = 0;
  })

  unfoldable pub reset_positions : PnLCalculator c → PnLCalculator c
  reset_positions k = record k { positions = []; total_unrealized_pnl = c.price_of 0 }

  unfoldable pub reset_trades : PnLCalculator c → PnLCalculator c
  reset_trades k = record k {
    trades = [];
    trade_count = 0;
    total_realized_pnl = c.price_of 0;
    total_commission = c.price_of 0;
  }

  -- The quantity as a double, negative for a sale. A side is BUY or SELL.
  unfoldable pub signed_quantity : Trade c → c.Price
  signed_quantity t =
      if c.is_buy t.side then c.price_of t.quantity else a.negate (c.price_of t.quantity)

  -- The position grows at the average price.
  unfoldable pub extend : Position c → c.Price → c.Price → Position c
  extend p quantity price =
      let total_cost =
        c.price_add (c.price_mul p.quantity p.avg_entry_price) (c.price_mul quantity price) in
      let grown = c.price_add p.quantity quantity in
      record p {
        quantity = grown;
        avg_entry_price =
            if c.price_eq grown (c.price_of 0) then c.price_of 0 else c.price_div total_cost grown;
      }

  -- What the trade realizes of a position in the other direction.
  unfoldable pub realize : Position c → c.Price → c.Price → c.Price
  realize p quantity price =
      let closing_quantity = a.min (a.abs p.quantity) (a.abs quantity) in
      if above_zero p.quantity
      then c.price_mul closing_quantity (c.price_sub price p.avg_entry_price)
      else c.price_mul closing_quantity (c.price_sub p.avg_entry_price price)

  abbrev pub same_sign : Bool → Bool → Bool
  same_sign true y = y
  same_sign false y = not y

  unfoldable pub reduce : Position c → c.Price → c.Price → Position c
  reduce p quantity price =
      let left = c.price_add p.quantity quantity in
      record p {
        realized_pnl = c.price_add p.realized_pnl (realize p quantity price);
        quantity = left;
        avg_entry_price =
            if same_sign (a.signbit left) (a.signbit (c.price_sub left quantity))
            then p.avg_entry_price
            else price;
      }

  abbrev pub same_direction : c.Price → c.Price → Bool
  same_direction x y = (above_zero x && above_zero y) || (below_zero x && below_zero y)

  abbrev pub opposite : c.Price → c.Price → Bool
  opposite x y = (above_zero x && below_zero y) || (below_zero x && above_zero y)

  -- The three branches of update_position: the new position, and what was realized.
  unfoldable pub apply_quantity : Position c → c.Price → c.Price → Position c × Option c.Price
  apply_quantity p quantity price =
      if same_direction p.quantity quantity
      then (extend p quantity price, none)
      else if opposite p.quantity quantity
      then (reduce p quantity price, some (realize p quantity price))
      else (record p { quantity = quantity; avg_entry_price = price }, none)

  unfoldable pub calculate_commission : PnLCalculator c → Trade c → c.Price
  calculate_commission k t =
      c.price_mul t.notional_value
        (or_else k.default_commission_rate (HashMap.find c.symbol_eq t.symbol k.commission_rates))

  -- `positions_[symbol]`, which makes an entry where there is none.
  unfoldable pub position_or_new : c.TimePoint → PnLCalculator c → c.Symbol → Position c
  position_or_new epoch k symbol =
      or_else (new_position c epoch) (HashMap.find c.symbol_eq symbol k.positions)

  -- The position behind the trade.
  unfoldable pub settled_position : Position c → Trade c → c.Price → Position c
  settled_position p t commission =
      let q =
        (apply_quantity (record p { symbol = t.symbol }) (signed_quantity t) t.executed_price).0 in
      record q {
        last_update_time = t.execution_time;
        realized_pnl = c.price_sub q.realized_pnl commission;
      }

  -- The total is touched where something was realized.
  abbrev pub add_gain : c.Price → Option c.Price → c.Price
  add_gain total none = total
  add_gain total (some gain) = c.price_add total gain

  unfoldable pub settled_total : Position c → Trade c → c.Price → c.Price
  settled_total p t total =
      add_gain total
        (apply_quantity (record p { symbol = t.symbol }) (signed_quantity t) t.executed_price).1

  unfoldable pub update_position : c.TimePoint → PnLCalculator c → Trade c → PnLCalculator c
  update_position epoch k t =
      let p = position_or_new epoch k t.symbol in
      let commission = calculate_commission k t in
      record k {
        positions =
            HashMap.assign c.symbol_eq t.symbol (settled_position p t commission) k.positions;
        total_realized_pnl = settled_total p t k.total_realized_pnl;
        total_commission = c.price_add k.total_commission commission;
      }

  unfoldable pub record_trade : c.TimePoint → PnLCalculator c → Trade c → PnLCalculator c
  record_trade epoch k t =
      let k' = update_position epoch (record k { trades = k.trades ++ t ∷ [] }) t in
      record k' { trade_count = wadd size_mod k'.trade_count 1 }

  -- The overload that makes the trade.
  unfoldable pub record_new_trade :
      c.TimePoint
      → PnLCalculator c
      → ℕ
      → c.Symbol
      → c.Side
      → c.Price
      → ℕ
      → Bytes
      → c.TimePoint
      → Unset c
      → PnLCalculator c
  record_new_trade epoch k order_id symbol side price quantity strategy_id now unset =
      record_trade epoch k (record (new_trade c order_id symbol side price quantity now unset) {
        strategy_id = strategy_id;
      })

  unfoldable pub update_risk_metrics : Position c → Position c
  update_risk_metrics p =
      let up =
        if c.price_lt p.max_favorable_excursion p.unrealized_pnl
        then p.unrealized_pnl
        else p.max_favorable_excursion in
      let down =
        if c.price_lt p.unrealized_pnl p.max_adverse_excursion
        then p.unrealized_pnl
        else p.max_adverse_excursion in
      record p { max_favorable_excursion = up; max_adverse_excursion = down }

  -- What the position would realize at the price.
  unfoldable pub open_pnl : Position c → c.Price → c.Price
  open_pnl p price =
      if above_zero p.quantity
      then c.price_mul p.quantity (c.price_sub price p.avg_entry_price)
      else c.price_mul (a.abs p.quantity) (c.price_sub p.avg_entry_price price)

  abbrev pub is_flat : Position c → Bool
  is_flat p = c.price_lt (a.abs p.quantity) (tiny c a)

  -- The position and the total behind calculate_unrealized_pnl; a flat position leaves the total.
  unfoldable pub calculate_unrealized_pnl : Position c → c.Price → c.Price → Position c × c.Price
  calculate_unrealized_pnl p price total =
      let pnl = open_pnl p price in
      if is_flat p then (record p { unrealized_pnl = c.price_of 0 }, total) else (
        update_risk_metrics (record p { unrealized_pnl = pnl }),
        c.price_add total (c.price_sub pnl p.unrealized_pnl),
      )

  -- The position that update_market_price finds, if any, is valued at the price.
  unfoldable pub revalue :
      PnLCalculator c → c.Symbol → c.Price → Option (Position c) → PnLCalculator c
  revalue k symbol price none = k
  revalue k symbol price (some p) =
      let valued = calculate_unrealized_pnl p price k.total_unrealized_pnl in
      record k {
        positions = HashMap.assign c.symbol_eq symbol valued.0 k.positions;
        total_unrealized_pnl = valued.1;
      }

  unfoldable pub update_market_price :
      PnLCalculator c → c.Symbol → c.Price → c.TimePoint → PnLCalculator c
  update_market_price k symbol price now =
      revalue
        (record k {
          current_prices = HashMap.assign c.symbol_eq symbol price k.current_prices;
          price_timestamps = HashMap.assign c.symbol_eq symbol now k.price_timestamps;
        })
        symbol price (HashMap.find c.symbol_eq symbol k.positions)

  -- Each price with the time at which the clock is read.
  unfoldable pub update_market_prices :
      PnLCalculator c → List (c.Symbol × c.Price × c.TimePoint) → PnLCalculator c
  update_market_prices k [] = k
  update_market_prices k ((symbol, price, now) ∷ ps) =
      update_market_prices (update_market_price k symbol price now) ps

  unfoldable pub set_commission_rate : PnLCalculator c → c.Symbol → c.Price → PnLCalculator c
  set_commission_rate k symbol rate = record k {
    commission_rates = HashMap.assign c.symbol_eq symbol rate k.commission_rates;
  }

  unfoldable pub set_default_commission_rate : PnLCalculator c → c.Price → PnLCalculator c
  set_default_commission_rate k rate = record k { default_commission_rate = rate }
