-- ===== src/Backtesting/Runs.antt =====
-- The loop of TickReplayEngine::run_backtest, with the rounds of the matching engine's worker between
-- the ticks. The lines that show the progress are left out.
use hft_engine.Base.{
  ℕ, suc, Bool, true, false, Option, none, some, List, [], ◌∷◌, ◌++◌, if◌then◌else◌,
}
use hft_engine.Base.Words.{wadd}
use hft_engine.Core.{Core}
use hft_engine.Analytics.Types.{Arithmetic}
use hft_engine.Analytics.Calculator.{size_mod}
use hft_engine.Engine.Types.{Environment}
use hft_engine.Engine.State.{Engine, start, stop}
use hft_engine.Engine.Process.{matching_worker}
use hft_engine.Backtesting.Ticks.{HistoricalTick}
use hft_engine.Backtesting.Strategies
use hft_engine.Backtesting.Strategies.{Strategy, Reading, attach}
use hft_engine.Backtesting.Replay.{
  Round, Turn, TickReplayEngine, no_stats, is_tick_in_replay_window, count_tick, with_engine,
}

-- The turns but the first.
abbrev pub later : {c : Core} → (ℕ → Turn c) → ℕ → Turn c
later turns n = turns (suc n)

module _ (c : Core) (e : Environment c) (a : Arithmetic c) (zero_side : c.Side) where
  -- Rounds of the worker.
  unfoldable pub work : TickReplayEngine c e → List (Round c) → Option (TickReplayEngine c e)
  work t [] = some t
  work t (r ∷ rs) =
      elim (matching_worker c e (suc r.fuel) r.clock r.now r.latency t.matching_engine) [
        | none ↦ none
        | some g ↦ work (with_engine c e a zero_side t g) rs
      ]

  -- The calls of on_tick: each strategy in turn, those before it being `done`.
  unfoldable pub tick_strategies :
      List (Strategy c)
      → List (Strategy c)
      → Engine c e
      → HistoricalTick c
      → Reading c
      → List (Strategy c) × Engine c e
  tick_strategies done [] g t r = (done, g)
  tick_strategies done (s ∷ ss) g t r =
      let ticked = Strategies.on_tick c e a zero_side s g t r in
      tick_strategies (done ++ ticked.0 ∷ []) ss ticked.1 t r

  unfoldable pub update_strategies :
      TickReplayEngine c e → HistoricalTick c → Reading c → TickReplayEngine c e
  update_strategies t tick r =
      let ticked = tick_strategies [] t.strategies t.matching_engine tick r in
      with_engine c e a zero_side (record t { strategies = ticked.0 }) ticked.1

  -- process_tick, which always returns true, and the worker's rounds behind the strategies' calls.
  unfoldable pub process_tick :
      TickReplayEngine c e → HistoricalTick c → Turn c → Option (TickReplayEngine c e)
  process_tick t tick turn =
      elim (work
        (update_strategies (record t { current_replay_time = tick.timestamp }) tick turn.reading)
        turn.rounds) [
          | none ↦ none
          | some t' ↦ some (record t' {
            stats = count_tick c a t'.stats tick;
            ticks_processed = wadd size_mod t'.ticks_processed 1;
          })
        ]

  -- The loop of run_backtest; a tick outside the window is read and passed over.
  unfoldable pub replay :
      TickReplayEngine c e → List (HistoricalTick c) → (ℕ → Turn c) → Option (TickReplayEngine c e)
  replay t [] turns = some t
  replay t (tick ∷ ticks) turns =
      let rest_skipped = replay t ticks (later turns) in
      if is_tick_in_replay_window c a t.config tick
      then elim (process_tick t tick (turns 0)) [
        | none ↦ none
        | some t' ↦ replay t' ticks (later turns)
      ]
      else rest_skipped

  -- What follows the loop, for a replay that took `duration` milliseconds.
  unfoldable pub finish : TickReplayEngine c e → ℕ → TickReplayEngine c e
  finish t duration = record t {
    matching_engine = stop c e t.matching_engine;
    stats = record (t.stats) {
      last_tick_time = t.current_replay_time;
      total_ticks = t.ticks_processed;
      replay_duration = duration;
      ticks_per_second =
          c.price_div (c.price_of t.ticks_processed)
            (c.price_div (c.price_of duration) (c.price_of 1000));
    };
  }

  -- What precedes the first read.
  unfoldable pub prepare : TickReplayEngine c e → c.TimePoint → TickReplayEngine c e
  prepare t epoch = record t {
    matching_engine = start c e t.matching_engine;
    stats = no_stats c a epoch;
    ticks_processed = 0;
  }

  -- The ticks of the parser: the first one is processed without a look at the window.
  unfoldable pub replay_all :
      TickReplayEngine c e → List (HistoricalTick c) → (ℕ → Turn c) → Option (TickReplayEngine c e)
  replay_all t [] turns = some t
  replay_all t (first ∷ ticks) turns =
      let timed = record t { stats = record (t.stats) { first_tick_time = first.timestamp } } in
      elim (process_tick timed first (turns 0)) [
        | none ↦ none
        | some t' ↦ replay t' ticks (later turns)
      ]

  -- run_backtest for the ticks of its parser, without one if it is null.
  unfoldable pub run_parser :
      TickReplayEngine c e
      → Option (List (HistoricalTick c))
      → (ℕ → Turn c)
      → c.TimePoint
      → ℕ
      → Option (Bool × TickReplayEngine c e)
  run_parser t none turns epoch duration = some (false, t)
  run_parser t (some ticks) turns epoch duration = elim (replay_all (prepare t epoch) ticks turns) [
    | none ↦ none
    | some t' ↦ some (true, finish (record t' { data_parser = some [] }) duration)
  ]

  -- run_backtest; the strategies' on_start and on_finish are those of the base class and do nothing.
  unfoldable pub run_backtest :
      TickReplayEngine c e → (ℕ → Turn c) → c.TimePoint → ℕ → Option (Bool × TickReplayEngine c e)
  run_backtest t turns epoch duration = run_parser t t.data_parser turns epoch duration
