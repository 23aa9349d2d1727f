-- ===== src/Engine/Properties/Runs.antt =====
-- Sequences of calls on an engine, and the state of one without segment trees.
use hft_engine.Base.{ℕ, suc, false, none, some, Option, List, [], ◌∷◌, ◌≡◌}
use hft_engine.Core.{Core}
use hft_engine.Containers.OrderedMap.Laws.{Values}
use hft_engine.Order.{Order}
use hft_engine.OrderBook.TreeMode.{IsTreeBook}
use hft_engine.Engine.Types.{MatchingAlgorithm, Event, executed, filled, failed, Environment}
use hft_engine.Engine.State.{
  Engine, set_execution_callback, set_fill_callback, set_error_callback, set_matching_algorithm,
  start, stop,
}
use hft_engine.Engine.Requests.{submit_order, cancel_order, modify_order}
use hft_engine.Engine.Process.{matching_worker}

-- One call on an engine. `work` is a round of the worker thread, with one unit of fuel and `fuel`
-- more.
pub data Request (c : Core) : Type 0 where
  submit : Order c → c.TimePoint → Request c
  cancel : ℕ → Request c
  modify : ℕ → c.Price → ℕ → c.TimePoint → Request c
  work : ℕ → (ℕ → c.TimePoint) → c.TimePoint → c.Price → Request c
  starts stops listen_executions listen_fills listen_errors : Request c
  use_algorithm : MatchingAlgorithm → Request c

-- The call is not one of the fill callback, and reports no fills.
abbrev pub HasNoFill : {c : Core} → Event c → Type 0
HasNoFill (executed r) = r.fills ≡ []
HasNoFill (filled f) = ⊥
HasNoFill (failed code) = Unit

-- The engine is in the mode without segment trees, its books are in the other, and it has counted no
-- fill and no match.
pub record IsLegacy (c : Core) (e : Environment c) (g : Engine c e) : Type 0 where
  pub mode : g.use_segment_tree ≡ false
  pub books : Values (IsTreeBook c e.levels) g.order_books
  pub no_fills : g.stats.total_fills ≡ 0
  pub no_matches : g.stats.orders_matched ≡ 0

module _ (c : Core) (e : Environment c) where
  unfoldable pub step : Engine c e → Request c → Option (Engine c e)
  unfolding submit_order cancel_order modify_order matching_worker start stop
  step g (submit o now) = some (submit_order c e g o now).1
  step g (cancel id) = some (cancel_order c e g id).1
  step g (modify id price quantity now) = some (modify_order c e g id price quantity now).1
  step g (work fuel clock now latency) = matching_worker c e (suc fuel) clock now latency g
  step g starts = some (start c e g)
  step g stops = some (stop c e g)
  step g listen_executions = some (set_execution_callback c e g)
  step g listen_fills = some (set_fill_callback c e g)
  step g listen_errors = some (set_error_callback c e g)
  step g (use_algorithm a) = some (set_matching_algorithm c e g a)

  unfoldable pub run : Engine c e → List (Request c) → Option (Engine c e)
  run g [] = some g
  run g (r ∷ rs) = elim (step g r) [ none ↦ none | some g' ↦ run g' rs ]
