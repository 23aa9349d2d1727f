-- ===== src/Analytics/Formulas.antt =====
-- The free functions of src/analytics/pnl_calculator_simple.cpp.
use hft_engine.Base.{ℕ, suc, ◌==◌, if◌then◌else◌}
use hft_engine.Core.{Core}
use hft_engine.Analytics.Types.{Arithmetic}

-- The int that calculate_annualized_return takes.
pub data ℤ : Type 0 where
  pos : ℕ → ℤ
  negsuc : ℕ → ℤ

module _ (c : Core) (a : Arithmetic c) where
  -- 1e-6
  abbrev pub tiny : c.Price
  tiny = a.decimal 1 6

  unfoldable pub calculate_pnl : c.Side → c.Price → c.Price → ℕ → c.Price
  calculate_pnl side entry_price exit_price quantity =
      if c.is_buy side
      then c.price_mul (c.price_of quantity) (c.price_sub exit_price entry_price)
      else c.price_mul (c.price_of quantity) (c.price_sub entry_price exit_price)

  unfoldable pub calculate_return : c.Price → c.Price → c.Price
  calculate_return initial_value final_value =
      if c.price_lt (a.abs initial_value) tiny
      then c.price_of 0
      else c.price_div (c.price_sub final_value initial_value) (a.abs initial_value)

  unfoldable pub calculate_annualized_return : c.Price → ℤ → c.Price
  calculate_annualized_return total_return (ℤ.pos (suc n)) =
      c.price_mul (c.price_div total_return (c.price_of (suc n))) (c.price_of 252)
  calculate_annualized_return total_return _ = c.price_of 0

  unfoldable pub calculate_slippage_bps : c.Price → c.Price → c.Side → c.Price
  calculate_slippage_bps execution_price reference_price side =
      let slippage =
        if c.is_buy side
        then c.price_sub execution_price reference_price
        else c.price_sub reference_price execution_price in
      if c.price_lt (a.abs reference_price) tiny
      then c.price_of 0
      else c.price_mul (c.price_div slippage reference_price) (c.price_of 10000)

  unfoldable pub calculate_market_impact : ℕ → ℕ → c.Price
  calculate_market_impact order_size average_daily_volume =
      if average_daily_volume == 0
      then c.price_of 0
      else c.price_mul
          (a.sqrt (c.price_div (c.price_of order_size) (c.price_of average_daily_volume)))
          (c.price_of 100)
