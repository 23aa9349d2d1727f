-- ===== src/Analytics/Types.antt =====
-- Trade, Position and SlippageMetrics of include/hft/analytics/pnl_calculator.hpp, and what the
-- analytics use of doubles.
use hft_engine.Base.{ℕ, zero, suc, Bool, List, [], ◌∷◌}
use hft_engine.Core.{Core}
use hft_engine.Fix.Bytes.{Bytes}

-- What the sources use of doubles beside the operators of Core: `-a`, std::signbit, std::abs,
-- std::min, std::max, std::sqrt, the cast to an unsigned integer, and `decimal m k` for a literal
-- with the digits `m`, of which `k` stand behind the point.
pub record Arithmetic (c : Core) : Type 0 where
  pub negate : c.Price → c.Price
  pub signbit : c.Price → Bool
  pub abs : c.Price → c.Price
  pub min : c.Price → c.Price → c.Price
  pub max : c.Price → c.Price → c.Price
  pub sqrt : c.Price → c.Price
  pub to_unsigned : c.Price → ℕ
  pub decimal : ℕ → ℕ → c.Price

pub record Trade (c : Core) : Type 0 where
  pub order_id : ℕ
  pub symbol : c.Symbol
  pub side : c.Side
  pub executed_price : c.Price
  pub quantity : ℕ
  pub execution_time : c.TimePoint
  pub market_price_at_execution : c.Price
  pub strategy_id : Bytes
  pub notional_value : c.Price
  pub commission : c.Price
  pub slippage_bps : c.Price

-- The constructor does not set three of the members; they hold what the memory held.
pub record Unset (c : Core) : Type 0 where
  pub market_price : c.Price
  pub commission : c.Price
  pub slippage : c.Price

pub record Position (c : Core) : Type 0 where
  pub symbol : c.Symbol
  pub quantity : c.Price
  pub avg_entry_price : c.Price
  pub unrealized_pnl : c.Price
  pub realized_pnl : c.Price
  pub total_pnl : c.Price
  pub last_update_time : c.TimePoint
  pub var_1_day : c.Price
  pub max_favorable_excursion : c.Price
  pub max_adverse_excursion : c.Price

pub record SlippageMetrics (c : Core) : Type 0 where
  pub total_slippage_bps : c.Price
  pub avg_slippage_bps : c.Price
  pub slippage_std_dev : c.Price
  pub positive_slippage_bps : c.Price
  pub negative_slippage_bps : c.Price
  pub buy_slippage_bps : c.Price
  pub sell_slippage_bps : c.Price
  pub slippage_by_size : List (Bytes × c.Price)
  pub hourly_slippage : List c.Price
  pub trade_count : ℕ

-- `assign(n, x)` of a vector
unfoldable pub assign_copies {ℓ} : {A : Type ℓ} → ℕ → A → List A
assign_copies zero x = []
assign_copies (suc n) x = x ∷ assign_copies n x

module _ (c : Core) where
  unfoldable pub new_trade : ℕ → c.Symbol → c.Side → c.Price → ℕ → c.TimePoint → Unset c → Trade c
  new_trade order_id symbol side price quantity time unset = record {
    order_id = order_id;
    symbol = symbol;
    side = side;
    executed_price = price;
    quantity = quantity;
    execution_time = time;
    market_price_at_execution = unset.market_price;
    strategy_id = [];
    notional_value = c.price_mul price (c.price_of quantity);
    commission = unset.commission;
    slippage_bps = unset.slippage;
  }

  -- The constructor leaves the time as the default of its type, `epoch`.
  unfoldable pub new_position : c.TimePoint → Position c
  new_position epoch = record {
    symbol = c.no_symbol;
    quantity = c.price_of 0;
    avg_entry_price = c.price_of 0;
    unrealized_pnl = c.price_of 0;
    realized_pnl = c.price_of 0;
    total_pnl = c.price_of 0;
    last_update_time = epoch;
    var_1_day = c.price_of 0;
    max_favorable_excursion = c.price_of 0;
    max_adverse_excursion = c.price_of 0;
  }

  -- SlippageMetrics::reset
  unfoldable pub reset_metrics : SlippageMetrics c
  reset_metrics = record {
    total_slippage_bps = c.price_of 0;
    avg_slippage_bps = c.price_of 0;
    slippage_std_dev = c.price_of 0;
    positive_slippage_bps = c.price_of 0;
    negative_slippage_bps = c.price_of 0;
    buy_slippage_bps = c.price_of 0;
    sell_slippage_bps = c.price_of 0;
    slippage_by_size = [];
    hourly_slippage = assign_copies 24 (c.price_of 0);
    trade_count = 0;
  }
