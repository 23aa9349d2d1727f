-- ===== src/Backtesting/Properties/Idle.antt =====
-- The matching engine of a back test matches nothing.
use hft_engine.Base.{
  ℕ, Bool, true, false, if◌then◌else◌, Option, none, some, List, [], ◌∷◌, ◌++◌, ◌≡◌, refl, ap, ◌∙◌,
}
use hft_engine.Base.Words.{wadd}
use hft_engine.Core.{Core}
use hft_engine.Analytics.Calculator.{size_mod}
use hft_engine.Order.{Order}
use hft_engine.Analytics.Types.{Arithmetic}
use hft_engine.Engine.Types.{Environment}
use hft_engine.Engine.State.{Engine}
use hft_engine.Engine.Properties.Runs.{IsLegacy}
use hft_engine.Engine.Properties.LegacyCalls.{cancel-IsLegacy, submit-IsLegacy, worker-IsLegacy}
use hft_engine.Backtesting.Ticks.{HistoricalTick}
use hft_engine.Backtesting.Quoting
use hft_engine.Backtesting.Strategies
use hft_engine.Backtesting.Strategies.{Strategy, market_making, momentum, Reading, submit_if}
use hft_engine.Backtesting.Replay.{TickReplayEngine, Round, Turn, count_tick, with_engine}
use hft_engine.Backtesting.Runs.{work, update_strategies, tick_strategies, process_tick}
use hft_engine.Backtesting.Properties.Frames.{SameRest, same_rest, same_trans, with_engine-SameRest}

module _ (c : Core) (e : Environment c) where
  -- The events are not among what makes an engine legacy.
  silent-IsLegacy : (g : Engine c e) → IsLegacy c e g → IsLegacy c e (record g { events = [] })
  silent-IsLegacy g i = record {
    mode = i.mode;
    books = i.books;
    no_fills = i.no_fills;
    no_matches = i.no_matches;
  }

module _ (c : Core) (e : Environment c) (a : Arithmetic c) (zero_side : c.Side) where
  cancel_found-IsLegacy :
      (m : Quoting.MarketMakingStrategy c) (g : Engine c e) (s : c.Symbol) (o : Option (ℕ × ℕ))
      → IsLegacy c e g
      → IsLegacy c e (Quoting.cancel_found c e a m g s o).1
  unfolding Quoting.cancel_found
  cancel_found-IsLegacy m g s none i = i
  cancel_found-IsLegacy m g s (some (bid, ask)) i =
      cancel-IsLegacy c e _ ask (cancel-IsLegacy c e g bid i)

  either-IsLegacy :
      {M : Type 0} (b : Bool) (p q : M × Engine c e)
      → IsLegacy c e p.1
      → IsLegacy c e q.1
      → IsLegacy c e (if b then p else q).1
  either-IsLegacy true p q i j = i
  either-IsLegacy false p q i j = j

  quoting-IsLegacy :
      (m : Quoting.MarketMakingStrategy c) (g : Engine c e) (t : HistoricalTick c)
      → (now : c.TimePoint) → IsLegacy c e g
      → IsLegacy c e (Quoting.on_tick c e a m g t now).1
  unfolding Quoting.on_tick Quoting.update_quotes Quoting.cancel_quotes
  quoting-IsLegacy m g t now i =
      either-IsLegacy m.attached _ (m, g)
        (submit-IsLegacy c e _ _ now
          (submit-IsLegacy c e _ _ now (cancel_found-IsLegacy m g t.symbol _ i)))
        i

  submit_if-IsLegacy :
      (g : Engine c e) (o : Option (Order c)) (now : c.TimePoint)
      → IsLegacy c e g
      → IsLegacy c e (submit_if c e a zero_side g o now)
  unfolding submit_if
  submit_if-IsLegacy g none now i = i
  submit_if-IsLegacy g (some o) now i = submit-IsLegacy c e g o now i

  on_tick-IsLegacy :
      (s : Strategy c) (g : Engine c e) (t : HistoricalTick c) (r : Reading c)
      → IsLegacy c e g
      → IsLegacy c e (Strategies.on_tick c e a zero_side s g t r).1
  unfolding Strategies.on_tick
  on_tick-IsLegacy (market_making m) g t r i = quoting-IsLegacy m g t r.now i
  on_tick-IsLegacy (momentum m) g t r i = submit_if-IsLegacy g _ r.now i

  ticks-IsLegacy :
      (done ss : List (Strategy c)) (g : Engine c e) (t : HistoricalTick c) (r : Reading c)
      → IsLegacy c e g
      → IsLegacy c e (tick_strategies c e a zero_side done ss g t r).1
  unfolding tick_strategies
  ticks-IsLegacy done [] g t r i = i
  ticks-IsLegacy done (s ∷ ss) g t r i =
      ticks-IsLegacy (done ++ (Strategies.on_tick c e a zero_side s g t r).0 ∷ []) ss
        (Strategies.on_tick c e a zero_side s g t r).1 t r (on_tick-IsLegacy s g t r i)

  abbrev Legacy : TickReplayEngine c e → Type 0
  Legacy t = IsLegacy c e t.matching_engine

  with_engine-Legacy :
      (t : TickReplayEngine c e) (g : Engine c e)
      → IsLegacy c e g
      → Legacy (with_engine c e a zero_side t g)
  with_engine-Legacy t g i =
      rw ((with_engine-SameRest c e a zero_side t g).1) (silent-IsLegacy c e g i)

  -- The worker's rounds end, and touch the strategies and the engine alone.
  work-Legacy :
      (t : TickReplayEngine c e) (rs : List (Round c))
      → Legacy t
      → (t' : TickReplayEngine c e) × (work c e a zero_side t rs ≡ some t')
        × Legacy t'
        × SameRest t t'
  unfolding work
  work-Legacy t [] i = (t, refl, i, same_rest c e t)
  work-Legacy t (r ∷ rs) i =
      let (g, ran, j) = worker-IsLegacy c e r.fuel r.clock r.now r.latency t.matching_engine i in
      let (t', rest, k, same) =
        work-Legacy (with_engine c e a zero_side t g) rs (with_engine-Legacy t g j) in
      (
        t',
        rw (ran, work) rest,
        k,
        same_trans c e t _ t' (with_engine-SameRest c e a zero_side t g).0 same,
      )

  update-Legacy :
      (t : TickReplayEngine c e) (tick : HistoricalTick c) (r : Reading c)
      → Legacy t
      → Legacy (update_strategies c e a zero_side t tick r)
        × SameRest t (update_strategies c e a zero_side t tick r)
  unfolding update_strategies
  update-Legacy t tick r i =
      let ticked = tick_strategies c e a zero_side [] t.strategies t.matching_engine tick r in
      let same =
        (with_engine-SameRest c e a zero_side (record t { strategies = ticked.0 }) ticked.1).0 in
      (
        with_engine-Legacy (record t { strategies = ticked.0 }) ticked.1
            (ticks-IsLegacy [] t.strategies t.matching_engine tick r i),
        record {
          pnl = same.pnl;
          config = same.config;
          time = same.time;
          processed = same.processed;
          stats = same.stats;
        },
      )

  -- A tick is processed, and counted once.
  pub record Processed (t : TickReplayEngine c e) (tick : HistoricalTick c)
      (t' : TickReplayEngine c e) : Type 0 where
    pub legacy : IsLegacy c e t'.matching_engine
    pub pnl : t'.pnl_calculator ≡ t.pnl_calculator
    pub config : t'.config ≡ t.config
    pub processed : t'.ticks_processed ≡ wadd size_mod t.ticks_processed 1
    pub stats : t'.stats ≡ count_tick c a t.stats tick

  pub process_tick-Processed :
      (t : TickReplayEngine c e) (tick : HistoricalTick c) (turn : Turn c)
      → IsLegacy c e t.matching_engine
      → (t' : TickReplayEngine c e) × (process_tick c e a zero_side t tick turn ≡ some t')
        × Processed t tick t'
  unfolding process_tick
  process_tick-Processed t tick turn i =
      let timed = record t { current_replay_time = tick.timestamp } in
      let (j, same) = update-Legacy timed tick turn.reading i in
      let (t', ran, k, same') =
        work-Legacy (update_strategies c e a zero_side timed tick turn.reading) turn.rounds j in
      (
        record t' {
          stats = count_tick c a t'.stats tick;
          ticks_processed = wadd size_mod t'.ticks_processed 1;
        },
        rw (ran, process_tick) refl,
        record {
          legacy = k;
          pnl = same'.pnl ∙ same.pnl;
          config = same'.config ∙ same.config;
          processed = ap (λ n. wadd size_mod n 1) (same'.processed ∙ same.processed);
          stats = ap (λ s. count_tick c a s tick) (same'.stats ∙ same.stats);
        },
      )
