-- ===== src/Engine/Making/Idle.antt =====
-- The market maker's own engine works without segment trees, so its quotes find no orders.
use hft_engine.Base.{[], ◌≡◌}
use hft_engine.Core.{Core}
use hft_engine.Containers.HashMap
use hft_engine.Order.{Order}
use hft_engine.Engine.Types.{Environment}
use hft_engine.Engine.State.{Engine}
use hft_engine.Engine.Properties.Runs.{IsLegacy}
use hft_engine.Engine.Making.{MarketMakingEngine}

-- The maker has no position and no result, and its engine has filled nothing.
record IsIdle (c : Core) (e : Environment c) (k : MarketMakingEngine c e) : Type 0 where
  engine : IsLegacy c e k.matching_engine
  flat : k.positions ≡ []
  even : k.unrealized_pnl ≡ []
