-- ===== src/Analytics/Properties/Ledger.antt =====
-- The ledger that a PnLCalculator keeps: the trades it was told of, and what was bought and sold since
-- the positions were last cleared.
pub mod Quantities
pub mod Refinement
use hft_engine.Base.{
  ℕ, suc, ◌+◌, ◌%◌, ◌≤◌, ◌<◌, Bool, true, false, ◌&&◌, ◌||◌, ◌⊎◌, Option, none, some, List, [], ◌∷◌,
  ◌++◌, ◌≡◌, ◌↔◌, refl, ap, sym, ◌∙◌, or_else, if◌then◌else◌, ltb, length, All, arith, inl, inr,
  Bool-cases, Option-cases, length-append, keep,
}
use hft_engine.Base.Words.{wadd-mod}
use hft_engine.Core.{Core}
use hft_engine.Containers.HashMap
use hft_engine.Containers.HashMap.{or_else-assign}
use hft_engine.Analytics.Types.{Arithmetic, Trade, Position, new_position}
use hft_engine.Analytics.Calculator
use hft_engine.Analytics.Calculator.{
  PnLCalculator, size_mod, apply_quantity, extend, reduce, signed_quantity, position_or_new,
}
use hft_engine.Analytics.Calculator.Queries.{
  get_trades, get_trade_count, get_net_position, get_position,
}
use hft_engine.Analytics.Properties.Calls.{
  Call, record_trade, market_price, commission_rate, default_rate, reset, reset_positions,
  reset_trades, step, run,
}
use hft_engine.Analytics.Properties.Exact.{balance, IsExact}

pub record Ledger (c : Core) : Type 0 where
  pub book : List (Trade c)
  pub open_trades : List (Trade c)

module _ (c : Core) where
  -- The quantity bought by the trade and the quantity sold.
  abbrev pub sides : Trade c → ℕ × ℕ
  sides t = if c.is_buy t.side then (t.quantity, 0) else (0, t.quantity)

  -- The quantity of the symbol's trades on one side.
  abbrev pub bought : c.Symbol → List (Trade c) → ℕ
  bought s [] = 0
  bought s (t ∷ ts) = if c.symbol_eq t.symbol s then (sides t).0 + bought s ts else bought s ts

  abbrev pub sold : c.Symbol → List (Trade c) → ℕ
  sold s [] = 0
  sold s (t ∷ ts) = if c.symbol_eq t.symbol s then (sides t).1 + sold s ts else sold s ts

  abbrev pub post : Ledger c → Call c → Ledger c
  post l (record_trade t) = record {
    book = l.book ++ t ∷ [];
    open_trades = l.open_trades ++ t ∷ [];
  }
  post l reset = record { book = []; open_trades = [] }
  post l reset_positions = record l { open_trades = [] }
  post l reset_trades = record l { book = [] }
  post l _ = l

  abbrev pub post_all : Ledger c → List (Call c) → Ledger c
  post_all l [] = l
  post_all l (x ∷ xs) = post_all (post l x) xs

  -- The ledger of calls on a new calculator.
  abbrev pub posted : List (Call c) → Ledger c
  posted ys = post_all (record { book = []; open_trades = [] }) ys

  -- What the calls trade, of all symbols together.
  abbrev pub traded : Call c → ℕ
  traded (record_trade t) = t.quantity
  traded _ = 0

  abbrev pub traded_all : List (Call c) → ℕ
  traded_all [] = 0
  traded_all (x ∷ xs) = traded x + traded_all xs

  -- What trades of all symbols add up to.
  abbrev pub volume : List (Trade c) → ℕ
  volume [] = 0
  volume (t ∷ ts) = t.quantity + volume ts

  abbrev pub TradesSome : Call c → Type 0
  TradesSome (record_trade t) = 0 < t.quantity
  TradesSome _ = Unit

  pub bought-last :
      (s : c.Symbol) (ts : List (Trade c)) (t : Trade c)
      → bought s (ts ++ t ∷ [])
        ≡ (if c.symbol_eq t.symbol s then bought s ts + (sides t).0 else bought s ts)
  bought-last s [] t = ground arith
  bought-last s (x ∷ ts) t = ground (arith, bought-last s ts t)

  pub sold-last :
      (s : c.Symbol) (ts : List (Trade c)) (t : Trade c)
      → sold s (ts ++ t ∷ [])
        ≡ (if c.symbol_eq t.symbol s then sold s ts + (sides t).1 else sold s ts)
  sold-last s [] t = ground arith
  sold-last s (x ∷ ts) t = ground (arith, sold-last s ts t)

  pub volume-last :
      (ts : List (Trade c)) (t : Trade c) → volume (ts ++ t ∷ []) ≡ volume ts + t.quantity
  volume-last [] t = omega arith
  volume-last (x ∷ ts) t = omega (arith, volume-last ts t)

  pub sides-le : (t : Trade c) → (sides t).0 + (sides t).1 ≤ t.quantity
  sides-le t = ground arith

  pub sides_cases :
      (t : Trade c)
      → 0 < t.quantity
      → ((0 < (sides t).0) × ((sides t).1 ≡ 0)) ⊎ ((0 < (sides t).1) × ((sides t).0 ≡ 0))
  sides_cases t h = ground arith

  pub bought-sold-le : (s : c.Symbol) (ts : List (Trade c)) → bought s ts + sold s ts ≤ volume ts
  bought-sold-le s [] = omega arith
  bought-sold-le s (t ∷ ts) = elim (Bool-cases (c.symbol_eq t.symbol s)) [
    | inl e ↦ rw e (omega (arith, sides-le t, bought-sold-le s ts))
    | inr e ↦ rw e (omega (arith, bought-sold-le s ts))
  ]
