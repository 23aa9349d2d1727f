-- ===== src/Engine/Properties/Legacy.antt =====
-- The engine without segment trees makes every order book with them, so it finds no orders to match.
use hft_engine.Base.{ℕ, false, some, List, [], ◌∷◌, ◌≡◌, refl, arith}
use hft_engine.Core.{Core}
use hft_engine.Engine.Types.{MatchingAlgorithm, Environment}
use hft_engine.Engine.State.{
  Engine, new_engine, set_execution_callback, set_fill_callback, set_error_callback,
  set_matching_algorithm, start, stop,
}
use hft_engine.Engine.Properties.Runs.{
  Request, submit, cancel, modify, work, starts, stops, listen_executions, listen_fills,
  listen_errors, use_algorithm, IsLegacy, step, run,
}
use hft_engine.Engine.Properties.LegacyCalls.{
  cancel-IsLegacy, submit-IsLegacy, modify-IsLegacy, worker-IsLegacy,
}

module _ (c : Core) (e : Environment c) where
  step-IsLegacy :
      (g : Engine c e) (r : Request c)
      → IsLegacy c e g
      → (g' : Engine c e) × (step c e g r ≡ some g') × IsLegacy c e g'
  unfolding step
  step-IsLegacy g (submit o now) i = (_, refl, submit-IsLegacy c e g o now i)
  step-IsLegacy g (cancel id) i = (_, refl, cancel-IsLegacy c e g id i)
  step-IsLegacy g (modify id price quantity now) i =
      (_, refl, modify-IsLegacy c e g id price quantity now i)
  step-IsLegacy g (work fuel clock now latency) i = worker-IsLegacy c e fuel clock now latency g i
  step-IsLegacy g starts i = (start c e g, refl, unfold start in ground arith)
  step-IsLegacy g stops i = (stop c e g, refl, unfold stop in ground arith)
  step-IsLegacy g listen_executions i =
      (set_execution_callback c e g, refl, unfold set_execution_callback in ground arith)
  step-IsLegacy g listen_fills i =
      (set_fill_callback c e g, refl, unfold set_fill_callback in ground arith)
  step-IsLegacy g listen_errors i =
      (set_error_callback c e g, refl, unfold set_error_callback in ground arith)
  step-IsLegacy g (use_algorithm a) i =
      (set_matching_algorithm c e g a, refl, unfold set_matching_algorithm in ground arith)

  run-IsLegacy :
      (g : Engine c e) (rs : List (Request c))
      → IsLegacy c e g
      → (g' : Engine c e) × (run c e g rs ≡ some g') × IsLegacy c e g'
  unfolding run
  run-IsLegacy g [] i = (g, refl, i)
  run-IsLegacy g (r ∷ rs) i =
      let (h, stepped, j) = step-IsLegacy g r i in
      let (g', ran, k) = run-IsLegacy h rs j in (g', rw (stepped, run) ran, k)

  -- Whatever is asked of a new engine without segment trees, and however often its worker runs, with
  -- one unit of fuel or more: the calls end, and the engine has counted no fill and no match.
  pub legacy_never_matches :
      (algorithm : MatchingAlgorithm) (synthetic : ℕ) (rs : List (Request c))
      → (g : Engine c e) × (run c e (new_engine c e algorithm false synthetic) rs ≡ some g)
        × (g.stats.total_fills ≡ 0)
        × (g.stats.orders_matched ≡ 0)
  unfolding new_engine
  legacy_never_matches algorithm synthetic rs =
      let (g, ran, i) =
        run-IsLegacy (new_engine c e algorithm false synthetic) rs
          (record { mode = refl; books = tt; no_fills = refl; no_matches = refl }) in
      (g, ran, i.no_fills, i.no_matches)
