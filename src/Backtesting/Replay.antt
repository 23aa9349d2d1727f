-- ===== src/Backtesting/Replay.antt =====
-- TickReplayEngine of src/backtesting/tick_replay.cpp.
use hft_engine.Base.{
  ℕ, Bool, true, false, not, ◌&&◌, Option, List, [], ◌∷◌, ◌++◌, map, if◌then◌else◌,
}
use hft_engine.Base.Words.{wadd}
use hft_engine.Core.{Core}
use hft_engine.Analytics.Types.{Arithmetic}
use hft_engine.Analytics.Calculator.{PnLCalculator, size_mod, new_calculator}
use hft_engine.Engine.Types.{
  Fill, ExecutionReport, price_time_priority, Event, executed, filled, failed, Environment,
}
use hft_engine.Engine.State.{Engine, new_engine, set_execution_callback, set_fill_callback, stop}
use hft_engine.Backtesting.Ticks.{HistoricalTick}
use hft_engine.Backtesting.Strategies
use hft_engine.Backtesting.Strategies.{Strategy, Reading, attach}

-- TickReplayEngine::ReplayConfig
pub record ReplayConfig (c : Core) : Type 0 where
  pub start_time : c.TimePoint
  pub end_time : c.TimePoint
  pub time_acceleration : c.Price
  pub enable_slippage_model : Bool
  pub commission_rate : c.Price
  pub print_progress : Bool
  pub progress_interval : ℕ

-- TickReplayEngine::ReplayStats; the duration is in milliseconds.
pub record ReplayStats (c : Core) : Type 0 where
  pub total_ticks : ℕ
  pub total_trades : ℕ
  pub total_volume : c.Price
  pub total_notional : c.Price
  pub first_tick_time : c.TimePoint
  pub last_tick_time : c.TimePoint
  pub replay_duration : ℕ
  pub ticks_per_second : c.Price

-- A round of the matching engine's worker, with one unit of fuel and `fuel` more.
pub record Round (c : Core) : Type 0 where
  pub fuel : ℕ
  pub clock : ℕ → c.TimePoint
  pub now : c.TimePoint
  pub latency : c.Price

-- What goes on during a tick: the strategies' readings of the clock, and the rounds of the worker
-- behind the strategies' calls.
pub record Turn (c : Core) : Type 0 where
  pub reading : Reading c
  pub rounds : List (Round c)

-- The parser stands for the ticks that it will return; `none` is the null pointer. The logged events
-- of the matching engine are those whose callbacks have not been called yet.
pub record TickReplayEngine (c : Core) (e : Environment c) : Type 0 where
  pub data_parser : Option (List (HistoricalTick c))
  pub matching_engine : Engine c e
  pub pnl_calculator : PnLCalculator c
  pub strategies : List (Strategy c)
  pub config : ReplayConfig c
  pub current_replay_time : c.TimePoint
  pub ticks_processed : ℕ
  pub stats : ReplayStats c

module _ (c : Core) (a : Arithmetic c) where
  -- `ReplayStats{}`; `epoch` is the default of the type of times.
  unfoldable pub no_stats : c.TimePoint → ReplayStats c
  no_stats epoch = record {
    total_ticks = 0;
    total_trades = 0;
    total_volume = c.price_of 0;
    total_notional = c.price_of 0;
    first_tick_time = epoch;
    last_tick_time = epoch;
    replay_duration = 0;
    ticks_per_second = c.price_of 0;
  }

  -- The default values of ReplayConfig, with the least and the greatest time.
  unfoldable pub default_config : c.TimePoint → c.TimePoint → ReplayConfig c
  default_config least greatest = record {
    start_time = least;
    end_time = greatest;
    time_acceleration = c.price_of 1;
    enable_slippage_model = true;
    commission_rate = a.decimal 1 3;
    print_progress = true;
    progress_interval = 100000;
  }

  unfoldable pub apply_slippage_model : ReplayConfig c → ExecutionReport c → ExecutionReport c
  apply_slippage_model config r =
      let slippage_factor = a.decimal 1 4 in
      let factor =
        if c.is_buy r.side
        then c.price_add (c.price_of 1) slippage_factor
        else c.price_sub (c.price_of 1) slippage_factor in
      if config.enable_slippage_model then record r { price = c.price_mul r.price factor } else r

  unfoldable pub is_tick_in_replay_window : ReplayConfig c → HistoricalTick c → Bool
  is_tick_in_replay_window config t =
      not (c.time_lt t.timestamp config.start_time) && not (c.time_lt config.end_time t.timestamp)

  -- The counters of process_tick.
  unfoldable pub count_tick : ReplayStats c → HistoricalTick c → ReplayStats c
  count_tick s t = record s {
    total_volume = c.price_add s.total_volume (c.price_of t.last_size);
    total_notional =
        c.price_add s.total_notional (c.price_mul t.last_price (c.price_of t.last_size));
    total_trades = if t.is_trade_tick then wadd size_mod s.total_trades 1 else s.total_trades;
  }

module _ (c : Core) (e : Environment c) (a : Arithmetic c) (zero_side : c.Side) where
  unfoldable pub new_replay :
      Option (List (HistoricalTick c)) → ReplayConfig c → c.TimePoint → ℕ → TickReplayEngine c e
  new_replay parser config epoch synthetic = record {
    data_parser = parser;
    matching_engine =
        set_fill_callback c e
          (set_execution_callback c e (new_engine c e price_time_priority false synthetic));
    pnl_calculator = new_calculator c a (a.decimal 1 3);
    strategies = [];
    config = config;
    current_replay_time = epoch;
    ticks_processed = 0;
    stats = no_stats c a epoch;
  }

  unfoldable pub set_replay_config : TickReplayEngine c e → ReplayConfig c → TickReplayEngine c e
  set_replay_config t config = record t { config = config }

  unfoldable pub set_commission_rate : TickReplayEngine c e → c.Price → TickReplayEngine c e
  set_commission_rate t rate = record t { config = record (t.config) { commission_rate = rate } }

  unfoldable pub enable_slippage_model : TickReplayEngine c e → Bool → TickReplayEngine c e
  enable_slippage_model t b = record t { config = record (t.config) { enable_slippage_model = b } }

  unfoldable pub add_strategy : TickReplayEngine c e → Strategy c → TickReplayEngine c e
  add_strategy t s = record t { strategies = t.strategies ++ attach c s ∷ [] }

  unfoldable pub clear_strategies : TickReplayEngine c e → TickReplayEngine c e
  clear_strategies t = record t { strategies = [] }

  unfoldable pub stop_backtest : TickReplayEngine c e → TickReplayEngine c e
  stop_backtest t = record t { matching_engine = stop c e t.matching_engine }

  unfoldable pub on_execution_report :
      TickReplayEngine c e → ExecutionReport c → TickReplayEngine c e
  on_execution_report t r =
      let modified_report = apply_slippage_model c a t.config r in
      record t {
        strategies =
            map (λ s. Strategies.on_execution_report c e a zero_side s modified_report)
              t.strategies;
      }

  -- The commission that it computes is not used.
  unfoldable pub on_fill : TickReplayEngine c e → Fill c → TickReplayEngine c e
  on_fill t f = record t {
    strategies = map (λ s. Strategies.on_fill c e a zero_side s f) t.strategies;
  }

  -- A call of a callback of the matching engine; no error callback is set.
  unfoldable pub on_event : TickReplayEngine c e → Event c → TickReplayEngine c e
  on_event t (executed r) = on_execution_report t r
  on_event t (filled f) = on_fill t f
  on_event t (failed code) = t

  unfoldable pub on_events : TickReplayEngine c e → List (Event c) → TickReplayEngine c e
  on_events t [] = t
  on_events t (x ∷ xs) = on_events (on_event t x) xs

  -- The matching engine behind a call, and the callbacks that the call has made.
  unfoldable pub with_engine : TickReplayEngine c e → Engine c e → TickReplayEngine c e
  with_engine t g = on_events (record t { matching_engine = record g { events = [] } }) g.events
