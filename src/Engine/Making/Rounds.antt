-- ===== src/Engine/Making/Rounds.antt =====
-- MarketMakingEngine in src/matching/matching_engine.cpp beside the worker thread of its engine, whose
-- callbacks are the maker's, and a caller of its operations.
use hft_engine.Base.{ℕ, suc, Option, none, some, List, [], ◌∷◌}
use hft_engine.Core.{Core}
use hft_engine.Engine.Types.{Event, Environment}
use hft_engine.Engine.Process.{matching_worker}
use hft_engine.Engine.Making.{
  Doubles, MarketMakingEngine, with_engine, on_event, update_quotes, cancel_quotes,
  on_market_data_update, start_market_making, stop_market_making, set_spread, set_default_size,
  set_max_position_size, set_inventory_skew_factor,
}

-- A call of an operation of a maker, or a round of its engine's worker, with one unit of fuel and
-- `fuel` more.
pub data Errand (c : Core) : Type 0 where
  tick : c.Symbol → c.Price → c.TimePoint → Errand c
  requote : c.Symbol → c.Price → c.TimePoint → Errand c
  withdraw : c.Symbol → Errand c
  starts stops : Errand c
  change_spread change_limit change_skew : c.Price → Errand c
  change_size : ℕ → Errand c
  work : ℕ → (ℕ → c.TimePoint) → c.TimePoint → c.Price → Errand c

module _ (c : Core) (e : Environment c) (d : Doubles c) where
  -- The calls of the callbacks, in the order in which the engine makes them.
  unfoldable pub call_back : MarketMakingEngine c e → List (Event c) → MarketMakingEngine c e
  unfolding on_event
  call_back k [] = k
  call_back k (x ∷ xs) = call_back (on_event c e d k x) xs

  -- A round of the worker in the maker's engine. The callbacks change nothing that the engine reads,
  -- so they run behind it.
  unfoldable pub work_round :
      ℕ
      → (ℕ → c.TimePoint)
      → c.TimePoint
      → c.Price
      → MarketMakingEngine c e
      → Option (MarketMakingEngine c e)
  unfolding matching_worker call_back
  work_round fuel clock now latency k =
      elim (matching_worker c e fuel clock now latency
        (record (k.matching_engine) { events = [] })) [
          | none ↦ none
          | some g ↦ some (call_back (with_engine c e d k g) g.events)
        ]

  unfoldable pub perform : MarketMakingEngine c e → Errand c → Option (MarketMakingEngine c e)
  unfolding on_market_data_update update_quotes cancel_quotes work_round
  perform k (tick symbol price now) = some (on_market_data_update c e d k symbol price now)
  perform k (requote symbol price now) = some (update_quotes c e d k symbol price now)
  perform k (withdraw symbol) = some (cancel_quotes c e d k symbol)
  perform k starts = some (start_market_making c e d k)
  perform k stops = some (stop_market_making c e d k)
  perform k (change_spread p) = some (set_spread c e d k p)
  perform k (change_limit p) = some (set_max_position_size c e d k p)
  perform k (change_skew p) = some (set_inventory_skew_factor c e d k p)
  perform k (change_size n) = some (set_default_size c e d k n)
  perform k (work fuel clock now latency) = work_round (suc fuel) clock now latency k

  unfoldable pub perform_all :
      MarketMakingEngine c e → List (Errand c) → Option (MarketMakingEngine c e)
  unfolding perform
  perform_all k [] = some k
  perform_all k (r ∷ rs) = elim (perform k r) [ none ↦ none | some k' ↦ perform_all k' rs ]
