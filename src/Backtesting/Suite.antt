-- ===== src/Backtesting/Suite.antt =====
-- BacktestingSuite of src/backtesting/tick_replay.cpp.
use hft_engine.Base.{
  ℕ, zero, suc, ◌-◌, Bool, true, false, ◌&&◌, Option, none, some, List, [], ◌∷◌, ◌++◌, ltb, leb,
  length, if◌then◌else◌,
}
use hft_engine.Core.{Core}
use hft_engine.Fix.Bytes.{Bytes, drop, same_bytes}
use hft_engine.Analytics.Types.{Arithmetic}
use hft_engine.Analytics.Calculator.{PnLCalculator}
use hft_engine.Analytics.Calculator.Queries.{get_total_pnl, get_trade_count}
use hft_engine.Engine.Types.{Environment}
use hft_engine.Backtesting.Ticks.{HistoricalTick}
use hft_engine.Backtesting.Strategies.{Strategy}
use hft_engine.Backtesting.Replay.{
  ReplayConfig, Turn, TickReplayEngine, default_config, new_replay, set_replay_config, add_strategy,
}
use hft_engine.Backtesting.Runs

-- BacktestingSuite::BacktestJob; a strategy that was moved out is `none`.
pub record BacktestJob (c : Core) : Type 0 where
  pub name : Bytes
  pub data_file : Bytes
  pub strategy : Option (Strategy c)
  pub config : ReplayConfig c
  pub completed : Bool
  pub final_pnl : c.Price
  pub max_drawdown : c.Price
  pub sharpe_ratio : c.Price
  pub total_trades : ℕ

pub record BacktestingSuite (c : Core) : Type 0 where
  pub jobs : List (BacktestJob c)

-- How a call ends: it returns, the matching has run out of fuel, or a null strategy is used.
pub data Outcome (A : Type 0) : Type 0 where
  returned : A → Outcome A
  out_of_fuel : Outcome A
  null_strategy : Outcome A

-- What the replay of one job meets: the default, least and greatest time, the static counter of
-- order ids, the milliseconds that it takes, and the turns of its ticks.
pub record Conditions (c : Core) : Type 0 where
  pub epoch : c.TimePoint
  pub least : c.TimePoint
  pub greatest : c.TimePoint
  pub synthetic : ℕ
  pub duration : ℕ
  pub turns : ℕ → Turn c

-- The ticks that a file holds for each of the two parsers, if they can open it.
pub record Files (c : Core) : Type 0 where
  pub csv_ticks : Bytes → Option (List (HistoricalTick c))
  pub binary_ticks : Bytes → Option (List (HistoricalTick c))

-- s.ends_with(t)
unfoldable pub ends_with : Bytes → Bytes → Bool
ends_with t s = leb (length t) (length s) && same_bytes (drop (length s - length t) s) t

abbrev pub dot_csv : Bytes
dot_csv = b'.' ∷ b'c' ∷ b's' ∷ b'v' ∷ []

abbrev pub dot_bin : Bytes
dot_bin = b'.' ∷ b'b' ∷ b'i' ∷ b'n' ∷ []

module _ {A : Type 0} where
  -- `jobs_[i]`
  unfoldable pub get_elem? : List A → ℕ → Option A
  get_elem? [] i = none
  get_elem? (x ∷ xs) zero = some x
  get_elem? (x ∷ xs) (suc i) = get_elem? xs i

  unfoldable pub set_elem : List A → ℕ → A → List A
  set_elem [] i y = []
  set_elem (x ∷ xs) zero y = y ∷ xs
  set_elem (x ∷ xs) (suc i) y = x ∷ set_elem xs i y

module _ (c : Core) (a : Arithmetic c) where
  unfoldable pub new_job : Bytes → Bytes → Strategy c → ReplayConfig c → BacktestJob c
  new_job name data_file strategy config = record {
    name = name;
    data_file = data_file;
    strategy = some strategy;
    config = config;
    completed = false;
    final_pnl = c.price_of 0;
    max_drawdown = c.price_of 0;
    sharpe_ratio = c.price_of 0;
    total_trades = 0;
  }

  unfoldable pub add_backtest_job :
      BacktestingSuite c → Bytes → Bytes → Strategy c → ReplayConfig c → BacktestingSuite c
  add_backtest_job s name data_file strategy config = record {
    jobs = s.jobs ++ new_job name data_file strategy config ∷ [];
  }

  unfoldable pub calculate_performance_metrics :
      c.TimePoint → BacktestJob c → PnLCalculator c → BacktestJob c
  calculate_performance_metrics epoch job pnl = record job {
    final_pnl = get_total_pnl c a epoch pnl c.no_symbol;
    total_trades = get_trade_count c a pnl;
    max_drawdown = c.price_of 0;
    sharpe_ratio = c.price_of 0;
  }

  -- std::accumulate from `total`
  unfoldable pub accumulate : c.Price → List c.Price → c.Price
  accumulate total [] = total
  accumulate total (x ∷ xs) = accumulate (c.price_add total x) xs

  unfoldable pub sum_squares : c.Price → c.Price → List c.Price → c.Price
  sum_squares mean variance [] = variance
  sum_squares mean variance (x ∷ xs) =
      let diff = c.price_sub x mean in
      sum_squares mean (c.price_add variance (c.price_mul diff diff)) xs

  unfoldable pub calculate_sharpe_ratio : List c.Price → c.Price
  calculate_sharpe_ratio returns =
      let mean_return =
        c.price_div (accumulate (c.price_of 0) returns) (c.price_of (length returns)) in
      let variance =
        c.price_div (sum_squares mean_return (c.price_of 0) returns)
          (c.price_of (length returns - 1)) in
      let std_dev = a.sqrt variance in
      if ltb (length returns) 2
      then c.price_of 0
      else if c.price_lt (c.price_of 0) std_dev
      then c.price_div mean_return std_dev
      else c.price_of 0

  -- The loop of calculate_max_drawdown.
  unfoldable pub drawdown : c.Price → c.Price → List c.Price → c.Price
  drawdown peak max_dd [] = max_dd
  drawdown peak max_dd (value ∷ values) =
      let dd = c.price_div (c.price_sub peak value) peak in
      let at_peak = drawdown value max_dd values in
      let below_peak = drawdown peak (a.max max_dd dd) values in
      if c.price_lt peak value then at_peak else below_peak

  unfoldable pub calculate_max_drawdown : List c.Price → c.Price
  calculate_max_drawdown [] = c.price_of 0
  calculate_max_drawdown (value ∷ values) = drawdown value (c.price_of 0) (value ∷ values)

module _ (c : Core) (e : Environment c) (a : Arithmetic c) (zero_side : c.Side)
    (files : Files c) where
  -- The parser by the end of the file's name, opened; `none` if there is none or it cannot open it.
  unfoldable pub open_data : Bytes → Option (List (HistoricalTick c))
  open_data file =
      if ends_with dot_csv file
      then files.csv_ticks file
      else if ends_with dot_bin file
      then files.binary_ticks file
      else none

  -- The engine that run_backtest makes for the job.
  unfoldable pub job_engine :
      BacktestJob c → Strategy c → List (HistoricalTick c) → Conditions c → TickReplayEngine c e
  job_engine job strategy ticks w =
      add_strategy c e a zero_side
        (set_replay_config c e a zero_side
          (new_replay c e a zero_side (some ticks) (default_config c a w.least w.greatest) w.epoch
            w.synthetic)
          job.config)
        strategy

  -- The job behind a run: the strategy was moved out of it.
  unfoldable pub settle_job :
      BacktestJob c → Conditions c → Bool × TickReplayEngine c e → BacktestJob c
  settle_job job w (success, t) =
      let moved = record job { strategy = none } in
      if success
      then calculate_performance_metrics c a w.epoch (record moved { completed = true })
          t.pnl_calculator
      else moved

  unfoldable pub run_job :
      BacktestJob c
      → List (HistoricalTick c)
      → Conditions c
      → Option (Strategy c)
      → Outcome (Bool × BacktestJob c)
  run_job job ticks w none = null_strategy
  run_job job ticks w (some strategy) =
      elim (Runs.run_backtest c e a zero_side (job_engine job strategy ticks w) w.turns w.epoch
        w.duration) [ none ↦ out_of_fuel | some ran ↦ returned (ran.0, settle_job job w ran) ]

  -- The job at its place, behind the end of its run.
  unfoldable pub put_job :
      BacktestingSuite c → ℕ → Outcome (Bool × BacktestJob c) → Outcome (Bool × BacktestingSuite c)
  put_job s i (returned (ok, job)) = returned (ok, record { jobs = set_elem s.jobs i job })
  put_job s i out_of_fuel = out_of_fuel
  put_job s i null_strategy = null_strategy

  -- run_backtest for a job whose data is open, or is not.
  unfoldable pub run_opened :
      BacktestingSuite c
      → ℕ
      → BacktestJob c
      → Conditions c
      → Option (List (HistoricalTick c))
      → Outcome (Bool × BacktestingSuite c)
  run_opened s i job w none = returned (false, s)
  run_opened s i job w (some ticks) = put_job s i (run_job job ticks w job.strategy)

  -- run_backtest for the job that the index names, if it names one.
  unfoldable pub run_found :
      BacktestingSuite c
      → ℕ
      → Conditions c
      → Option (BacktestJob c)
      → Outcome (Bool × BacktestingSuite c)
  run_found s i w none = returned (false, s)
  run_found s i w (some job) = run_opened s i job w (open_data job.data_file)

  unfoldable pub run_backtest :
      BacktestingSuite c → ℕ → Conditions c → Outcome (Bool × BacktestingSuite c)
  run_backtest s i w = run_found s i w (get_elem? s.jobs i)

  -- The loop of run_all_backtests over the `n` jobs from `i` on.
  unfoldable pub run_from :
      ℕ → ℕ → Bool → BacktestingSuite c → (ℕ → Conditions c) → Outcome (Bool × BacktestingSuite c)
  run_from zero i all_successful s ws = returned (all_successful, s)
  run_from (suc n) i all_successful s ws = elim (run_backtest s i (ws i)) [
    | returned (ok, s') ↦ run_from n (suc i) (all_successful && ok) s' ws
    | out_of_fuel ↦ out_of_fuel
    | null_strategy ↦ null_strategy
  ]

  unfoldable pub run_all_backtests :
      BacktestingSuite c → (ℕ → Conditions c) → Outcome (Bool × BacktestingSuite c)
  run_all_backtests s ws = run_from (length s.jobs) 0 true s ws
