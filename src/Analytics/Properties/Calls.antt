-- ===== src/Analytics/Properties/Calls.antt =====
-- The calls that change a PnLCalculator, in any order.
use hft_engine.Base.{List, [], ◌∷◌}
use hft_engine.Core.{Core}
use hft_engine.Analytics.Types.{Arithmetic, Trade}
use hft_engine.Analytics.Calculator
use hft_engine.Analytics.Calculator.{PnLCalculator}

pub data Call (c : Core) : Type 0 where
  record_trade : Trade c → Call c
  market_price : c.Symbol → c.Price → c.TimePoint → Call c
  commission_rate : c.Symbol → c.Price → Call c
  default_rate : c.Price → Call c
  reset : Call c
  reset_positions : Call c
  reset_trades : Call c

module _ (c : Core) (a : Arithmetic c) (epoch : c.TimePoint) where
  abbrev pub step : PnLCalculator c → Call c → PnLCalculator c
  step k (record_trade t) = Calculator.record_trade c a epoch k t
  step k (market_price s p now) = Calculator.update_market_price c a k s p now
  step k (commission_rate s r) = Calculator.set_commission_rate c a k s r
  step k (default_rate r) = Calculator.set_default_commission_rate c a k r
  step k reset = Calculator.reset c a k
  step k reset_positions = Calculator.reset_positions c a k
  step k reset_trades = Calculator.reset_trades c a k

  abbrev pub run : PnLCalculator c → List (Call c) → PnLCalculator c
  run k [] = k
  run k (x ∷ xs) = run (step k x) xs

  -- What each call keeps, every run keeps.
  pub run_induction {ℓ} :
      (P : PnLCalculator c → Type ℓ)
      → ((k : PnLCalculator c) (x : Call c) → P k → P (step k x))
      → (k : PnLCalculator c) (xs : List (Call c)) → P k
      → P (run k xs)
  run_induction P keeps k [] h = h
  run_induction P keeps k (x ∷ xs) h = run_induction P keeps (step k x) xs (keeps k x h)
