-- ===== src/Analytics/Properties/Slippage.antt =====
-- The calls that change a SlippageAnalyzer, in any order, and what they report.
pub mod History
pub mod Signs
use hft_engine.Base.{List, [], ◌∷◌, ◌++◌, if◌then◌else◌}
use hft_engine.Core.{Core}
use hft_engine.Analytics.Types.{Arithmetic, Trade}
use hft_engine.Analytics.Slippage
use hft_engine.Analytics.Slippage.{SlippageAnalyzer, ReferencePrice}

pub data SlippageCall (c : Core) : Type 0 where
  trade : Trade c → c.Price → SlippageCall c
  price : c.Symbol → c.Price → c.TimePoint → SlippageCall c
  restart : SlippageCall c

module _ (c : Core) (a : Arithmetic c) where
  abbrev pub step : SlippageAnalyzer c → SlippageCall c → SlippageAnalyzer c
  step s (trade t r) = Slippage.record_trade c a s t r
  step s (price j p now) = Slippage.update_price_history c a s j p now
  step s restart = Slippage.reset c a s

  abbrev pub run : SlippageAnalyzer c → List (SlippageCall c) → SlippageAnalyzer c
  run s [] = s
  run s (x ∷ xs) = run (step s x) xs

  -- The prices that the calls give for a symbol, behind those of `h`.
  abbrev pub prices_after :
      c.Symbol → List (c.TimePoint × c.Price) → List (SlippageCall c) → List (c.TimePoint × c.Price)
  prices_after j h [] = h
  prices_after j h (price i p now ∷ xs) =
      prices_after j (if c.symbol_eq i j then h ++ (now, p) ∷ [] else h) xs
  prices_after j h (_ ∷ xs) = prices_after j h xs

  -- The trades recorded since the last reset, behind `ts`.
  abbrev pub trades_after : List (Trade c) → List (SlippageCall c) → List (Trade c)
  trades_after ts [] = ts
  trades_after ts (trade t r ∷ xs) = trades_after (ts ++ t ∷ []) xs
  trades_after ts (restart ∷ xs) = trades_after [] xs
  trades_after ts (price j p now ∷ xs) = trades_after ts xs
