-- ===== src/Backtesting/Properties/Counts.antt =====
-- A back test from its first tick to its last.
use hft_engine.Base.{
  ℕ, suc, ◌+◌, ◌%◌, true, false, some, List, [], ◌∷◌, ◌≡◌, refl, ap, ◌∙◌, if◌then◌else◌, length,
  keep, keep-in, keep-out, arith, inl, inr, Bool-cases,
}
use mathlib.Core.Path.{subst}
use hft_engine.Base.Words.{wadd, wadd-mod}
use hft_engine.Core.{Core}
use hft_engine.Analytics.Types.{Arithmetic}
use hft_engine.Analytics.Calculator.{size_mod}
use hft_engine.Engine.Types.{Environment}
use hft_engine.Engine.State.{Engine, start, stop}
use hft_engine.Engine.Properties.Runs.{IsLegacy}
use hft_engine.Backtesting.Ticks.{HistoricalTick}
use hft_engine.Backtesting.Replay.{
  ReplayConfig, ReplayStats, TickReplayEngine, Turn, no_stats, is_tick_in_replay_window, count_tick,
}
use hft_engine.Backtesting.Runs.{
  later, process_tick, replay, replay_all, prepare, finish, run_parser, run_backtest,
}
use hft_engine.Backtesting.Properties.Idle.{Processed, process_tick-Processed}

module _ {c : Core} (a : Arithmetic c) where
  -- The ticks that a replay processes: the first one, and those in the window.
  abbrev pub visited : ReplayConfig c → List (HistoricalTick c) → List (HistoricalTick c)
  visited config [] = []
  visited config (first ∷ ticks) = first ∷ keep (is_tick_in_replay_window c a config) ticks

  abbrev pub trades_in : List (HistoricalTick c) → ℕ
  trades_in [] = 0
  trades_in (t ∷ ts) = if t.is_trade_tick then suc (trades_in ts) else trades_in ts

  -- The sizes of the ticks, added to `total` in their order.
  abbrev pub volume_from : c.Price → List (HistoricalTick c) → c.Price
  volume_from total [] = total
  volume_from total (t ∷ ts) = volume_from (c.price_add total (c.price_of t.last_size)) ts

  -- What a replay that started with `ticks`, `trades` and `volume` has counted behind `ts`.
  record Counted (ticks trades : ℕ) (volume : c.Price) (ts : List (HistoricalTick c)) (n : ℕ)
      (s : ReplayStats c) : Type 0 where
    all_ticks : n ≡ (ticks + length ts) % size_mod
    all_trades : s.total_trades ≡ (trades + trades_in ts) % size_mod
    all_volume : s.total_volume ≡ volume_from volume ts

module _ (c : Core) (e : Environment c) (a : Arithmetic c) (zero_side : c.Side) where
  -- The counters of one more tick.
  trades-count_tick :
      (s : ReplayStats c) (tick : HistoricalTick c) (m : ℕ)
      → s.total_trades ≡ m % size_mod
      → (count_tick c a s tick).total_trades ≡ (if tick.is_trade_tick then m + 1 else m) % size_mod
  unfolding count_tick
  trades-count_tick s tick m h = elim (Bool-cases tick.is_trade_tick) [
    | inl t ↦ rw t (ap (λ n. wadd size_mod n 1) h ∙ wadd-mod size_mod m 1)
    | inr f ↦ rw f h
  ]

  volume-count_tick :
      (s : ReplayStats c) (tick : HistoricalTick c)
      → (count_tick c a s tick).total_volume
        ≡ c.price_add s.total_volume (c.price_of tick.last_size)
  unfolding count_tick
  volume-count_tick s tick = refl

  Counted-cons :
      (n m k : ℕ) (volume : c.Price) (tick : HistoricalTick c) (ts : List (HistoricalTick c))
      (s : ReplayStats c)
      → Counted a
          (n + 1)
          (if tick.is_trade_tick then m + 1 else m)
          (c.price_add volume (c.price_of tick.last_size))
          ts
          k
          s
      → Counted a n m volume (tick ∷ ts) k s
  Counted-cons n m k volume tick ts s h = record {
    all_ticks = h.all_ticks ∙ ap (λ x. x % size_mod) (omega arith);
    all_trades = h.all_trades ∙ ap (λ x. x % size_mod) (ground arith);
    all_volume = h.all_volume;
  }

  -- The engine behind a replay.
  record Replayed (t : TickReplayEngine c e) (ts : List (HistoricalTick c)) (n m : ℕ)
      (volume : c.Price) (t' : TickReplayEngine c e) : Type 0 where
    legacy : IsLegacy c e t'.matching_engine
    pnl : t'.pnl_calculator ≡ t.pnl_calculator
    counted : Counted a n m volume ts t'.ticks_processed t'.stats

  after-Processed :
      (t t1 t' : TickReplayEngine c e) (tick : HistoricalTick c) (ts : List (HistoricalTick c))
      (n m : ℕ)
      → Processed c e a zero_side t tick t1
      → Replayed t1 ts (n + 1) (if tick.is_trade_tick then m + 1 else m) t1.stats.total_volume t'
      → Replayed t (tick ∷ ts) n m t.stats.total_volume t'
  after-Processed t t1 t' tick ts n m p r = record {
    legacy = r.legacy;
    pnl = r.pnl ∙ p.pnl;
    counted =
        Counted-cons n m t'.ticks_processed t.stats.total_volume tick ts t'.stats
          (rw (p.stats, volume-count_tick t.stats tick) at r.counted);
  }

  replay-outside :
      (t : TickReplayEngine c e) (tick : HistoricalTick c) (ticks : List (HistoricalTick c))
      → (turns : ℕ → Turn c) → is_tick_in_replay_window c a t.config tick ≡ false
      → replay c e a zero_side t (tick ∷ ticks) turns ≡ replay c e a zero_side t ticks (later turns)
  unfolding replay
  replay-outside t tick ticks turns h = rw (replay, h) refl

  replay-inside :
      (t t1 : TickReplayEngine c e) (tick : HistoricalTick c) (ticks : List (HistoricalTick c))
      → (turns : ℕ → Turn c) → is_tick_in_replay_window c a t.config tick ≡ true
      → process_tick c e a zero_side t tick (turns 0) ≡ some t1
      → replay c e a zero_side t (tick ∷ ticks) turns
        ≡ replay c e a zero_side t1 ticks (later turns)
  unfolding replay
  replay-inside t t1 tick ticks turns h ran = rw (replay, h, ran) refl

  replay-Replayed :
      (t : TickReplayEngine c e) (ticks : List (HistoricalTick c)) (turns : ℕ → Turn c)
      → (config : ReplayConfig c) (n m : ℕ) → t.config ≡ config
      → IsLegacy c e t.matching_engine
      → t.ticks_processed ≡ n % size_mod
      → t.stats.total_trades ≡ m % size_mod
      → (t' : TickReplayEngine c e) × (replay c e a zero_side t ticks turns ≡ some t')
        × Replayed t (keep (is_tick_in_replay_window c a config) ticks) n m t.stats.total_volume t'
  unfolding replay
  replay-Replayed t [] turns config n m g i h k = (
    t,
    refl,
    record {
      legacy = i;
      pnl = refl;
      counted = record {
        all_ticks = h ∙ ap (λ x. x % size_mod) (omega arith);
        all_trades = k ∙ ap (λ x. x % size_mod) (omega arith);
        all_volume = refl;
      };
    },
  )
  replay-Replayed t (tick ∷ ticks) turns config n m g i h k =
      elim (Bool-cases (is_tick_in_replay_window c a config tick)) [
        | inr out ↦
            let (t', ran, r) = replay-Replayed t ticks (later turns) config n m g i h k in
            (
              t',
              replay-outside t tick ticks turns
                    (ap (λ x. is_tick_in_replay_window c a x tick) g ∙ out)
                  ∙ ran,
              subst (λ l. Replayed t l n m t.stats.total_volume t')
                  (keep-out (is_tick_in_replay_window c a config) tick ticks out) r,
            )
        | inl inside ↦
            let (t1, ran, p) = process_tick-Processed c e a zero_side t tick (turns 0) i in
            let (t', rest, r) =
              replay-Replayed t1 ticks (later turns) config (n + 1)
                (if tick.is_trade_tick then m + 1 else m) (p.config ∙ g) p.legacy
                (p.processed ∙ ap (λ x. wadd size_mod x 1) h ∙ wadd-mod size_mod n 1)
                (ap (λ s. s.total_trades) p.stats ∙ trades-count_tick t.stats tick m k) in
            (
              t',
              replay-inside t t1 tick ticks turns
                    (ap (λ x. is_tick_in_replay_window c a x tick) g ∙ inside) ran
                  ∙ rest,
              subst (λ l. Replayed t l n m t.stats.total_volume t')
                  (keep-in (is_tick_in_replay_window c a config) tick ticks inside)
                  (after-Processed t t1 t' tick _ n m p r),
            )
      ]

  start-IsLegacy : (g : Engine c e) → IsLegacy c e g → IsLegacy c e (start c e g)
  unfolding start
  start-IsLegacy g i = ground arith

  replay_all-Replayed :
      (t : TickReplayEngine c e) (ticks : List (HistoricalTick c)) (turns : ℕ → Turn c)
      → IsLegacy c e t.matching_engine
      → t.ticks_processed ≡ 0
      → t.stats.total_trades ≡ 0
      → (t' : TickReplayEngine c e) × (replay_all c e a zero_side t ticks turns ≡ some t')
        × Replayed t (visited a t.config ticks) 0 0 t.stats.total_volume t'
  unfolding replay_all
  replay_all-Replayed t [] turns i h k = (
    t,
    refl,
    record {
      legacy = i;
      pnl = refl;
      counted = record { all_ticks = h; all_trades = k; all_volume = refl };
    },
  )
  replay_all-Replayed t (first ∷ ticks) turns i h k =
      let timed = record t { stats = record (t.stats) { first_tick_time = first.timestamp } } in
      let (t1, ran, p) = process_tick-Processed c e a zero_side timed first (turns 0) i in
      let (t', rest, r) =
        replay-Replayed t1 ticks (later turns) t.config 1 (if first.is_trade_tick then 1 else 0)
          p.config p.legacy (p.processed ∙ ap (λ x. wadd size_mod x 1) h ∙ wadd-mod size_mod 0 1)
          (ap (λ s. s.total_trades) p.stats ∙ trades-count_tick timed.stats first 0 k) in
      let q = after-Processed timed t1 t' first _ 0 0 p r in
      (
        t',
        rw (replay_all, ran) rest,
        record { legacy = q.legacy; pnl = q.pnl; counted = q.counted },
      )

  stop_keeps_fills : (g : Engine c e) → (stop c e g).stats.total_fills ≡ g.stats.total_fills
  unfolding stop
  stop_keeps_fills g = ground arith

  run-parser :
      (t t' : TickReplayEngine c e) (ticks : List (HistoricalTick c)) (turns : ℕ → Turn c)
      → (epoch : c.TimePoint) (duration : ℕ)
      → replay_all c e a zero_side (prepare c e a zero_side t epoch) ticks turns ≡ some t'
      → run_parser c e a zero_side t (some ticks) turns epoch duration
        ≡ some (true, finish c e a zero_side (record t' { data_parser = some [] }) duration)
  unfolding run_parser
  run-parser t t' ticks turns epoch duration ran = rw (ran, run_parser) refl

  -- A parser with any ticks, and a matching engine in the state that the constructor leaves it in, up
  -- to what its clients and its worker do: whatever the strategies and the worker's rounds, the back
  -- test ends and returns true; the matching engine has counted no fill, and the calculator of results
  -- is as it was. The ticks processed are the first one and those of the others that lie in the
  -- window: their number and that of the trades among them are counted modulo 2 ^ 64, and their sizes
  -- are added up in their order.
  pub run_backtest_lem :
      (t : TickReplayEngine c e) (ticks : List (HistoricalTick c)) (turns : ℕ → Turn c)
      → (epoch : c.TimePoint) (duration : ℕ) → IsLegacy c e t.matching_engine
      → t.data_parser ≡ some ticks
      → (t' : TickReplayEngine c e) × (run_backtest c e a zero_side t turns epoch duration
          ≡ some (true, t'))
        × (t'.matching_engine.stats.total_fills ≡ 0)
        × (t'.pnl_calculator ≡ t.pnl_calculator)
        × (t'.stats.total_ticks ≡ length (visited a t.config ticks) % size_mod)
        × (t'.stats.total_trades ≡ trades_in a (visited a t.config ticks) % size_mod)
        × (t'.stats.total_volume ≡ volume_from a (c.price_of 0) (visited a t.config ticks))
  unfolding run_backtest prepare finish no_stats
  run_backtest_lem t ticks turns epoch duration i parser =
      let (t', ran, r) =
        replay_all-Replayed (prepare c e a zero_side t epoch) ticks turns
          (start-IsLegacy t.matching_engine i) refl refl in
      (
        finish c e a zero_side (record t' { data_parser = some [] }) duration,
        ap (λ o. run_parser c e a zero_side t o turns epoch duration) parser
            ∙ run-parser t t' ticks turns epoch duration ran,
        stop_keeps_fills t'.matching_engine ∙ r.legacy.no_fills,
        r.pnl,
        r.counted.all_ticks ∙ ap (λ x. x % size_mod) (omega arith),
        r.counted.all_trades ∙ ap (λ x. x % size_mod) (omega arith),
        r.counted.all_volume,
      )
