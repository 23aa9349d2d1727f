-- ===== src/Backtesting/Strategies.antt =====
-- BacktestingStrategy of include/hft/backtesting/tick_replay.hpp, as the sum of the two classes of the
-- repository that implement it.
use hft_engine.Base.{ℕ, true, Option, none, some}
use hft_engine.Core.{Core}
use hft_engine.Order.{Order}
use hft_engine.Analytics.Types.{Arithmetic}
use hft_engine.Engine.Types.{Fill, ExecutionReport, Environment}
use hft_engine.Engine.State.{Engine}
use hft_engine.Engine.Requests.{submit_order}
use hft_engine.Backtesting.Ticks.{HistoricalTick}
use hft_engine.Backtesting.Momentum
use hft_engine.Backtesting.Momentum.{MomentumStrategy}
use hft_engine.Backtesting.Quoting
use hft_engine.Backtesting.Quoting.{MarketMakingStrategy}

pub data Strategy (c : Core) : Type 0 where
  market_making : MarketMakingStrategy c → Strategy c
  momentum : MomentumStrategy c → Strategy c

-- What a strategy reads of the clock during a tick: the time, and the nanoseconds of the order id.
pub record Reading (c : Core) : Type 0 where
  pub now : c.TimePoint
  pub ns : ℕ

module _ (c : Core) where
  -- `strategy->matching_engine_ = ...`
  unfoldable pub attach : Strategy c → Strategy c
  attach (market_making m) = market_making (record m { attached = true })
  attach (momentum m) = momentum (record m { attached = true })

module _ (c : Core) (e : Environment c) (a : Arithmetic c) (zero_side : c.Side) where
  -- submit_order on the engine, where there is an order to submit.
  unfoldable pub submit_if : Engine c e → Option (Order c) → c.TimePoint → Engine c e
  submit_if g none now = g
  submit_if g (some o) now = (submit_order c e g o now).1

  unfoldable pub on_tick :
      Strategy c → Engine c e → HistoricalTick c → Reading c → Strategy c × Engine c e
  on_tick (market_making m) g t r =
      let ticked = Quoting.on_tick c e a m g t r.now in (market_making ticked.0, ticked.1)
  on_tick (momentum m) g t r =
      let ticked = Momentum.on_tick c a zero_side m t r.ns r.now in
      (momentum ticked.0, submit_if g ticked.1 r.now)

  -- Neither class does anything with a report.
  unfoldable pub on_execution_report : Strategy c → ExecutionReport c → Strategy c
  on_execution_report s r = s

  -- MomentumStrategy has the empty on_fill of the base class.
  unfoldable pub on_fill : Strategy c → Fill c → Strategy c
  on_fill (market_making m) f = market_making (Quoting.on_fill c a m f)
  on_fill (momentum m) f = momentum m
