-- ===== src/Backtesting/Properties/Entries.antt =====
-- The orders of MomentumStrategy over a run of ticks.
pub mod Decisions
pub mod Totals
use hft_engine.Base.{
  ℕ, suc, ◌+◌, ◌≤◌, Bool, true, false, not, ◌&&◌, Option, none, some, List, [], ◌∷◌, ◌++◌, ◌≡◌, ◌↔◌,
  refl, ap, sym, ◌∙◌, or_else, if◌then◌else◌, ltb, length, length-append, arith, inl, inr,
  Bool-cases,
}
use mathlib.Core.Path.{subst}
use hft_engine.Core.{Core}
use hft_engine.Core.Laws.{IsCore}
use hft_engine.Containers.HashMap
use hft_engine.Containers.HashMap.{or_else-assign}
use hft_engine.Order.{Order, new_order}
use hft_engine.Analytics.Types.{Arithmetic}
use hft_engine.Backtesting.Ticks.{HistoricalTick}
use hft_engine.Backtesting.Momentum.{
  SymbolState, MomentumStrategy, new_momentum, new_state, state_or_new, indicate,
  check_entry_signal, check_exit_signal, enter_position, exit_position, decide, on_tick, pop_front,
  with_state,
}
use hft_engine.Backtesting.Strategies.{Reading}

module _ (c : Core) (a : Arithmetic c) (zero_side : c.Side) where
  abbrev pub listed : Option (Order c) → List (Order c)
  listed none = []
  listed (some o) = o ∷ []

  -- Ticks with what the strategy reads of the clock: the strategy behind them, and its orders.
  abbrev pub run :
      MomentumStrategy c → List (HistoricalTick c × Reading c) → MomentumStrategy c × List (Order c)
  run m [] = (m, [])
  run m ((t, r) ∷ ts) =
      let ticked = on_tick c a zero_side m t r.ns r.now in
      let rest = run ticked.0 ts in (rest.0, listed ticked.1 ++ rest.1)

module _ (c : Core) where
  abbrev pub bought : c.Symbol → List (Order c) → ℕ
  bought s [] = 0
  bought s (o ∷ os) =
      if c.symbol_eq o.symbol s && c.is_buy o.side then o.quantity + bought s os else bought s os

  abbrev pub sold : c.Symbol → List (Order c) → ℕ
  sold s [] = 0
  sold s (o ∷ os) =
      if c.symbol_eq o.symbol s && not (c.is_buy o.side) then o.quantity + sold s os else sold s os

  -- The state of a symbol of which `b` was ordered to buy and `q` to sell.
  abbrev pub Balanced : ℕ → ℕ → ℕ → SymbolState c → Type 0
  Balanced size b q st =
      (length st.price_history ≤ 100)
      × (st.in_position ≡ false → b ≡ q)
      × (st.in_position ≡ true → c.is_buy st.position_side ≡ true → b ≡ q + size)
      × (st.in_position ≡ true → c.is_buy st.position_side ≡ false → q ≡ b + size)
