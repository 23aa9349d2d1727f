-- ===== src/Backtesting/Properties/Frames.antt =====
-- What the strategies, the callbacks and the worker leave alone in a TickReplayEngine.
use hft_engine.Base.{List, [], ◌∷◌, ◌≡◌, refl, ◌∙◌}
use hft_engine.Core.{Core}
use hft_engine.Analytics.Types.{Arithmetic}
use hft_engine.Engine.Types.{Event, executed, filled, failed, Environment}
use hft_engine.Engine.State.{Engine}
use hft_engine.Backtesting.Replay.{
  TickReplayEngine, on_execution_report, on_fill, on_event, on_events, with_engine,
}

-- All fields but the strategies and the matching engine.
pub record SameRest {c : Core} {e : Environment c} (t t' : TickReplayEngine c e) : Type 0 where
  pub pnl : t'.pnl_calculator ≡ t.pnl_calculator
  pub config : t'.config ≡ t.config
  pub time : t'.current_replay_time ≡ t.current_replay_time
  pub processed : t'.ticks_processed ≡ t.ticks_processed
  pub stats : t'.stats ≡ t.stats

module _ (c : Core) (e : Environment c) where
  pub same_rest : (t : TickReplayEngine c e) → SameRest t t
  same_rest t = record { pnl = refl; config = refl; time = refl; processed = refl; stats = refl }

  pub same_trans : (t u v : TickReplayEngine c e) → SameRest t u → SameRest u v → SameRest t v
  same_trans t u v h k = record {
    pnl = k.pnl ∙ h.pnl;
    config = k.config ∙ h.config;
    time = k.time ∙ h.time;
    processed = k.processed ∙ h.processed;
    stats = k.stats ∙ h.stats;
  }

module _ (c : Core) (e : Environment c) (a : Arithmetic c) (zero_side : c.Side) where
  event-SameRest :
      (t : TickReplayEngine c e) (x : Event c)
      → SameRest t (on_event c e a zero_side t x)
        × ((on_event c e a zero_side t x).matching_engine ≡ t.matching_engine)
  unfolding on_event on_execution_report on_fill
  event-SameRest t (executed r) =
      (record { pnl = refl; config = refl; time = refl; processed = refl; stats = refl }, refl)
  event-SameRest t (filled f) =
      (record { pnl = refl; config = refl; time = refl; processed = refl; stats = refl }, refl)
  event-SameRest t (failed code) = (same_rest c e t, refl)

  events-SameRest :
      (t : TickReplayEngine c e) (xs : List (Event c))
      → SameRest t (on_events c e a zero_side t xs)
        × ((on_events c e a zero_side t xs).matching_engine ≡ t.matching_engine)
  unfolding on_events
  events-SameRest t [] = (same_rest c e t, refl)
  events-SameRest t (x ∷ xs) =
      let (h, g) = event-SameRest t x in
      let (k, g') = events-SameRest (on_event c e a zero_side t x) xs in
      (same_trans c e t _ _ h k, g' ∙ g)

  pub with_engine-SameRest :
      (t : TickReplayEngine c e) (g : Engine c e)
      → SameRest t (with_engine c e a zero_side t g)
        × ((with_engine c e a zero_side t g).matching_engine ≡ record g { events = [] })
  unfolding with_engine
  with_engine-SameRest t g =
      let (h, k) =
        events-SameRest (record t { matching_engine = record g { events = [] } }) g.events in
      (
        record {
          pnl = h.pnl;
          config = h.config;
          time = h.time;
          processed = h.processed;
          stats = h.stats;
        },
        k,
      )
