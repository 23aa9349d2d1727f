-- ===== src/Backtesting/Examples.antt =====
-- Back tests of two strategies at a few ticks.
use hft_engine.Base.{
  ℕ, ◌%◌, true, false, none, some, List, [], ◌∷◌, map, ◌≡◌, refl, length, max, ltb, All, arith,
  if◌then◌else◌, Bool-cases, inl, inr, ◌<◌, ◌≤◌,
}
use hft_engine.Core.Laws.{whole, whole-IsCore}
use hft_engine.Samples.{sample}
use hft_engine.Fix.Bytes.{Bytes, drop, same_bytes}
use hft_engine.Analytics.Calculator.{size_mod}
use hft_engine.Analytics.Signed.{wholes}
use hft_engine.Engine.State.{new_engine, set_execution_callback, set_fill_callback}
use hft_engine.Engine.Properties.Runs.{IsLegacy}
use hft_engine.Backtesting.Ticks.{HistoricalTick}
use hft_engine.Backtesting.Momentum.{new_momentum, state_or_new}
use hft_engine.Backtesting.Quoting.{new_quoting}
use hft_engine.Backtesting.Strategies.{Strategy, market_making, momentum}
use hft_engine.Backtesting.Replay.{
  ReplayConfig, Turn, TickReplayEngine, new_replay, add_strategy, default_config,
}
use hft_engine.Backtesting.Runs.{run_backtest}
use hft_engine.Backtesting.Suite
use hft_engine.Backtesting.Suite.{
  BacktestJob, BacktestingSuite, Outcome, returned, null_strategy, Conditions, Files, ends_with,
  open_data, new_job, run_all_backtests, calculate_max_drawdown, get_elem?,
}
use hft_engine.Backtesting.Properties.Counts.{visited, trades_in, volume_from, run_backtest_lem}
use hft_engine.Backtesting.Properties.Suites.{
  reported_if, data_of, all_open, HasStrategy, run_all_backtests_lem, second_run_fails,
}
use hft_engine.Backtesting.Properties.Drawdowns.{AtLeast, falls_of, calculate_max_drawdown_lem}
use hft_engine.Backtesting.Properties.Entries.{run, bought, sold, Balanced}
use hft_engine.Backtesting.Properties.Entries.Totals.{entries-Balanced}

-- A tick at the time and the price, of which `size` was traded.
abbrev tick : ℕ → ℕ → ℕ → HistoricalTick whole
tick time price size = record {
  symbol = 1;
  timestamp = time;
  bid_price = price;
  ask_price = price;
  last_price = price;
  bid_size = 5;
  ask_size = 5;
  last_size = size;
  sequence_number = 0;
  spread_bps = 0;
  mid_price = price;
  is_trade_tick = ltb 0 size;
  trade_aggressor_side = true;
}

abbrev ticks : List (HistoricalTick whole)
ticks = tick 1 100 3 ∷ tick 20 101 0 ∷ tick 5 102 4 ∷ []

abbrev config : ReplayConfig whole
config = default_config whole wholes 2 10

abbrev turn : ℕ → Turn whole
turn n = record {
  reading = record { now = n; ns = n };
  rounds = record { fuel = 5; clock = λ k. k; now = n; latency = 1 } ∷ [];
}

abbrev quoting : Strategy whole
quoting = market_making (new_quoting whole wholes 5 100 1000)

abbrev following : Strategy whole
following = momentum (new_momentum whole wholes 10 30 1 1000)

abbrev engine : TickReplayEngine whole sample
engine =
    add_strategy whole sample wholes true
      (new_replay whole sample wholes true (some ticks) config 0 900000000) quoting

engine-IsLegacy : IsLegacy whole sample engine.matching_engine
unfolding add_strategy new_replay set_fill_callback set_execution_callback new_engine
engine-IsLegacy = record { mode = refl; books = tt; no_fills = refl; no_matches = refl }

engine-parser : engine.data_parser ≡ some ticks
unfolding add_strategy new_replay
engine-parser = refl

run_backtest_lem_example :
    (t : TickReplayEngine whole sample) × (run_backtest whole sample wholes true engine turn 0 7
      ≡ some (true, t))
    × (t.matching_engine.stats.total_fills ≡ 0)
    × (t.pnl_calculator ≡ engine.pnl_calculator)
    × (t.stats.total_ticks ≡ length (visited wholes engine.config ticks) % size_mod)
    × (t.stats.total_trades ≡ trades_in wholes (visited wholes engine.config ticks) % size_mod)
    × (t.stats.total_volume ≡ volume_from wholes 0 (visited wholes engine.config ticks))
run_backtest_lem_example =
    run_backtest_lem whole sample wholes true engine ticks turn 0 7 engine-IsLegacy engine-parser

-- Every CSV file holds the ticks, and no binary file can be opened.
abbrev files : Files whole
files = record { csv_ticks = λ f. some ticks; binary_ticks = λ f. none }

abbrev conditions : ℕ → Conditions whole
conditions n = record {
  epoch = 0;
  least = 0;
  greatest = 100;
  synthetic = 900000000;
  duration = 3;
  turns = turn;
}

abbrev a_csv : Bytes
a_csv = b'a' ∷ b'.' ∷ b'c' ∷ b's' ∷ b'v' ∷ []

abbrev a_bin : Bytes
a_bin = b'a' ∷ b'.' ∷ b'b' ∷ b'i' ∷ b'n' ∷ []

abbrev jobs : List (BacktestJob whole)
jobs =
    new_job whole wholes a_csv a_csv quoting config
    ∷ new_job whole wholes a_bin a_bin following config
    ∷ []

jobs-HasStrategy : All (HasStrategy whole sample wholes true files) jobs
unfolding new_job
jobs-HasStrategy = ((quoting, refl), ((following, refl), tt))

run_all_backtests_lem_example :
    run_all_backtests whole sample wholes true files (record { jobs = jobs }) conditions
    ≡ returned (
      all_open whole sample wholes true files jobs,
      record {
        jobs =
            map
              (λ j.
                reported_if whole sample wholes true files j
                  (data_of whole sample wholes true files j))
              jobs;
      },
    )
run_all_backtests_lem_example =
    run_all_backtests_lem whole sample wholes true files refl jobs conditions jobs-HasStrategy

abbrev first_job : BacktestJob whole
first_job = new_job whole wholes a_csv a_csv quoting config

abbrev after_first_run : BacktestingSuite whole
after_first_run = record {
  jobs =
      map
        (λ j.
          reported_if whole sample wholes true files j (data_of whole sample wholes true files j))
        jobs;
}

second_run_fails_example :
    Suite.run_backtest whole sample wholes true files after_first_run 0 (conditions 0)
    ≡ null_strategy
unfolding get_elem? open_data ends_with same_bytes drop new_job
second_run_fails_example =
    second_run_fails whole sample wholes true files refl jobs conditions
      (all_open whole sample wholes true files jobs) after_first_run 0 first_job (conditions 0)
      jobs-HasStrategy run_all_backtests_lem_example refl refl

max_whole : (x y : ℕ) → max x y ≡ (if ltb x y then y else x)
max_whole x y = elim (Bool-cases (ltb x y)) [
  | inl e ↦ rw e (omega (arith, below x y e))
  | inr e ↦ rw e (omega (arith, not_below x y e))
]
  where
    below : (x y : ℕ) → ltb x y ≡ true → x < y
    below x y e = ground arith

    not_below : (x y : ℕ) → ltb x y ≡ false → y ≤ x
    not_below x y e = ground arith

calculate_max_drawdown_lem_example :
    AtLeast whole (calculate_max_drawdown whole wholes (100 ∷ 80 ∷ 120 ∷ 90 ∷ [])) 0
    × All
        (AtLeast whole (calculate_max_drawdown whole wholes (100 ∷ 80 ∷ 120 ∷ 90 ∷ [])))
        (falls_of whole (100 ∷ 80 ∷ 120 ∷ 90 ∷ []))
calculate_max_drawdown_lem_example =
    calculate_max_drawdown_lem wholes whole-IsCore.price_order max_whole (100 ∷ 80 ∷ 120 ∷ 90 ∷ [])

entries-Balanced_example :
    (let ran =
        run whole wholes true
          (record (new_momentum whole wholes 10 30 1 1000) { attached = true })
          ((tick 1 100 3, record { now = 1; ns = 1 }) ∷ []) in
      Balanced whole 1000
        (bought whole 1 ran.1)
        (sold whole 1 ran.1)
        (state_or_new whole wholes true ran.0 1))
entries-Balanced_example =
    entries-Balanced wholes whole-IsCore 10 30 1 1000
      ((tick 1 100 3, record { now = 1; ns = 1 }) ∷ []) 1
