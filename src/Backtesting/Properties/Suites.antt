-- ===== src/Backtesting/Properties/Suites.antt =====
-- What BacktestingSuite reports of its jobs.
use hft_engine.Base.{
  ℕ, zero, suc, Bool, true, false, ◌&&◌, Option, none, some, List, [], ◌∷◌, ◌++◌, map, ◌≡◌, refl,
  ap, sym, ◌∙◌, if◌then◌else◌, length, length-append, All, arith,
}
use mathlib.Core.Path.{ap₂}
use hft_engine.Core.{Core}
use hft_engine.Analytics.Types.{Arithmetic}
use hft_engine.Analytics.Calculator.{new_calculator, reset}
use hft_engine.Analytics.Calculator.Queries.{
  get_total_pnl, get_realized_pnl, get_unrealized_pnl, get_trade_count, get_position,
}
use hft_engine.Engine.Types.{Environment}
use hft_engine.Engine.State.{new_engine, set_execution_callback, set_fill_callback}
use hft_engine.Engine.Properties.Runs.{IsLegacy}
use hft_engine.Backtesting.Ticks.{HistoricalTick}
use hft_engine.Backtesting.Strategies.{Strategy}
use hft_engine.Backtesting.Replay.{TickReplayEngine, new_replay, set_replay_config, add_strategy}
use hft_engine.Backtesting.Runs
use hft_engine.Backtesting.Suite.{
  BacktestJob, BacktestingSuite, Outcome, returned, out_of_fuel, null_strategy, Conditions, Files,
  get_elem?, set_elem, calculate_performance_metrics, open_data, job_engine, settle_job, run_job,
  put_job, run_opened, run_found, run_backtest, run_from, run_all_backtests,
}
use hft_engine.Backtesting.Properties.Counts.{run_backtest_lem}

module _ {A : Type 0} where
  get_elem?-append : (xs ys : List A) (x : A) → get_elem? (xs ++ x ∷ ys) (length xs) ≡ some x
  unfolding get_elem?
  get_elem?-append [] ys x = refl
  get_elem?-append (z ∷ xs) ys x = get_elem?-append xs ys x

  set_elem-append :
      (xs ys : List A) (x y : A) → set_elem (xs ++ x ∷ ys) (length xs) y ≡ xs ++ y ∷ ys
  unfolding set_elem
  set_elem-append [] ys x y = refl
  set_elem-append (z ∷ xs) ys x y = ap (◌∷◌ z) (set_elem-append xs ys x y)

  get_elem?-map :
      (f : A → A) (xs : List A) (i : ℕ) (x : A)
      → get_elem? xs i ≡ some x
      → get_elem? (map f xs) i ≡ some (f x)
  unfolding get_elem?
  get_elem?-map f [] i x h = absurd (cc)
  get_elem?-map f (z ∷ xs) zero x h = ap (λ o. elim o [ none ↦ none | some y ↦ some (f y) ]) h
  get_elem?-map f (z ∷ xs) (suc i) x h = get_elem?-map f xs i x h

  append_assoc : (xs ys : List A) (x : A) → (xs ++ x ∷ []) ++ ys ≡ xs ++ x ∷ ys
  append_assoc [] ys x = refl
  append_assoc (z ∷ xs) ys x = ap (◌∷◌ z) (append_assoc xs ys x)

and_assoc : (x y z : Bool) → ((x && y) && z) ≡ (x && (y && z))
and_assoc true y z = refl
and_assoc false y z = refl

module _ (c : Core) (e : Environment c) (a : Arithmetic c) (zero_side : c.Side) where
  job_engine-IsLegacy :
      (files : Files c) (job : BacktestJob c) (s : Strategy c) (ticks : List (HistoricalTick c))
      (w : Conditions c)
      → IsLegacy c e (job_engine c e a zero_side files job s ticks w).matching_engine
  unfolding job_engine add_strategy set_replay_config new_replay set_fill_callback
      set_execution_callback new_engine
  job_engine-IsLegacy files job s ticks w = record {
    mode = refl;
    books = tt;
    no_fills = refl;
    no_matches = refl;
  }

  job_engine-parser :
      (files : Files c) (job : BacktestJob c) (s : Strategy c) (ticks : List (HistoricalTick c))
      (w : Conditions c)
      → (job_engine c e a zero_side files job s ticks w).data_parser ≡ some ticks
  unfolding job_engine add_strategy set_replay_config new_replay
  job_engine-parser files job s ticks w = refl

  job_engine-pnl :
      (files : Files c) (job : BacktestJob c) (s : Strategy c) (ticks : List (HistoricalTick c))
      (w : Conditions c)
      → (job_engine c e a zero_side files job s ticks w).pnl_calculator
        ≡ new_calculator c a (a.decimal 1 3)
  unfolding job_engine add_strategy set_replay_config new_replay
  job_engine-pnl files job s ticks w = refl

module _ (c : Core) where
  -- The job behind a run that could open its data: it reports that nothing was traded.
  abbrev pub idle_job : BacktestJob c → BacktestJob c
  idle_job job = record job {
    strategy = none;
    completed = true;
    final_pnl = c.price_add (c.price_of 0) (c.price_of 0);
    total_trades = 0;
    max_drawdown = c.price_of 0;
    sharpe_ratio = c.price_of 0;
  }

module _ (c : Core) (e : Environment c) (a : Arithmetic c) (zero_side : c.Side)
    (files : Files c) where
  -- The job behind run_backtest, by whether its data can be opened.
  abbrev pub reported_if : BacktestJob c → Option (List (HistoricalTick c)) → BacktestJob c
  reported_if job none = job
  reported_if job (some ticks) = idle_job c job

  abbrev pub is_some : Option (List (HistoricalTick c)) → Bool
  is_some none = false
  is_some (some ticks) = true

  abbrev pub data_of : BacktestJob c → Option (List (HistoricalTick c))
  data_of job = open_data c e a zero_side files job.data_file

  abbrev pub all_open : List (BacktestJob c) → Bool
  all_open [] = true
  all_open (j ∷ js) = is_some (data_of j) && all_open js

  abbrev pub HasStrategy : BacktestJob c → Type 0
  HasStrategy job = (s : Strategy c) × (job.strategy ≡ some s)

  abbrev suite_of : List (BacktestJob c) → BacktestingSuite c
  suite_of js = record { jobs = js }

module _ (c : Core) (e : Environment c) (a : Arithmetic c) (zero_side : c.Side) (files : Files c)
    (same_symbol : c.symbol_eq c.no_symbol c.no_symbol ≡ true) where
  total-new_calculator :
      (epoch : c.TimePoint) (rate : c.Price)
      → get_total_pnl c a epoch (new_calculator c a rate) c.no_symbol
        ≡ c.price_add (c.price_of 0) (c.price_of 0)
  unfolding get_total_pnl get_realized_pnl get_unrealized_pnl new_calculator reset
  total-new_calculator epoch rate =
      ap₂ c.price_add
        (ap
          (λ b.
            if b
            then c.price_of 0
            else (get_position c a epoch (new_calculator c a rate) c.no_symbol).realized_pnl)
          same_symbol)
        (ap
          (λ b.
            if b
            then c.price_of 0
            else (get_position c a epoch (new_calculator c a rate) c.no_symbol).unrealized_pnl)
          same_symbol)

  settle-idle :
      (job : BacktestJob c) (w : Conditions c) (t : TickReplayEngine c e) (rate : c.Price)
      → t.pnl_calculator ≡ new_calculator c a rate
      → settle_job c e a zero_side files job w (true, t) ≡ idle_job c job
  unfolding settle_job calculate_performance_metrics get_trade_count new_calculator reset
  settle-idle job w t rate p =
      rw p (ap (λ n. record (idle_job c job) { final_pnl = n }) (total-new_calculator w.epoch rate))

  run_job-returned :
      (job : BacktestJob c) (ticks : List (HistoricalTick c)) (w : Conditions c) (s : Strategy c)
      (ok : Bool) (t : TickReplayEngine c e)
      → Runs.run_backtest c e a zero_side
          (job_engine c e a zero_side files job s ticks w)
          w.turns
          w.epoch
          w.duration
        ≡ some (ok, t)
      → run_job c e a zero_side files job ticks w (some s)
        ≡ returned (ok, settle_job c e a zero_side files job w (ok, t))
  unfolding run_job
  run_job-returned job ticks w s ok t ran = rw (ran, run_job) refl

  run_job-idle :
      (job : BacktestJob c) (ticks : List (HistoricalTick c)) (w : Conditions c) (s : Strategy c)
      → run_job c e a zero_side files job ticks w (some s) ≡ returned (true, idle_job c job)
  run_job-idle job ticks w s =
      let t = job_engine c e a zero_side files job s ticks w in
      let (t', ran, _, pnl, _, _, _) =
        run_backtest_lem c e a zero_side t ticks w.turns w.epoch w.duration
          (job_engine-IsLegacy c e a zero_side files job s ticks w)
          (job_engine-parser c e a zero_side files job s ticks w) in
      run_job-returned job ticks w s true t' ran
      ∙ ap (λ j. returned (true, j))
          (settle-idle job w t' (a.decimal 1 3)
            (pnl ∙ job_engine-pnl c e a zero_side files job s ticks w))

  run_opened-reported :
      (done todo : List (BacktestJob c)) (job : BacktestJob c) (w : Conditions c)
      → (o : Option (List (HistoricalTick c))) → HasStrategy c e a zero_side files job
      → run_opened c e a zero_side files
          (suite_of c e a zero_side files (done ++ job ∷ todo))
          (length done)
          job
          w
          o
        ≡ returned (
          is_some c e a zero_side files o,
          suite_of c e a zero_side files (done ++ reported_if c e a zero_side files job o ∷ todo),
        )
  unfolding run_opened put_job
  run_opened-reported done todo job w none h = refl
  run_opened-reported done todo job w (some ticks) (s, h) =
      ap
        (λ x.
          put_job c e a zero_side files (suite_of c e a zero_side files (done ++ job ∷ todo))
            (length done) (run_job c e a zero_side files job ticks w x))
        h
      ∙ ap
          (put_job c e a zero_side files (suite_of c e a zero_side files (done ++ job ∷ todo))
            (length done))
          (run_job-idle job ticks w s)
      ∙ ap (λ js. returned (true, suite_of c e a zero_side files js))
          (set_elem-append done todo job (idle_job c job))

  run_backtest-reported :
      (done todo : List (BacktestJob c)) (job : BacktestJob c) (w : Conditions c)
      → HasStrategy c e a zero_side files job
      → run_backtest c e a zero_side files
          (suite_of c e a zero_side files (done ++ job ∷ todo))
          (length done)
          w
        ≡ returned (
          is_some c e a zero_side files (data_of c e a zero_side files job),
          suite_of c e a zero_side files (
              done
              ++ reported_if c e a zero_side files job (data_of c e a zero_side files job) ∷ todo),
        )
  unfolding run_backtest run_found
  run_backtest-reported done todo job w h =
      ap
        (run_found c e a zero_side files (suite_of c e a zero_side files (done ++ job ∷ todo))
          (length done) w)
        (get_elem?-append done todo job)
      ∙ run_opened-reported done todo job w (data_of c e a zero_side files job) h

  -- What run_from does behind the run of a job.
  abbrev next_job :
      ℕ
      → ℕ
      → Bool
      → (ℕ → Conditions c)
      → Outcome (Bool × BacktestingSuite c)
      → Outcome (Bool × BacktestingSuite c)
  next_job n i ok ws o = elim o [
    | returned ran ↦ run_from c e a zero_side files n (suc i) (ok && ran.0) ran.1 ws
    | out_of_fuel ↦ out_of_fuel
    | null_strategy ↦ null_strategy
  ]

  run_from-reported :
      (done todo : List (BacktestJob c)) (ok : Bool) (ws : ℕ → Conditions c)
      → All (HasStrategy c e a zero_side files) todo
      → run_from c e a zero_side files
          (length todo)
          (length done)
          ok
          (suite_of c e a zero_side files (done ++ todo))
          ws
        ≡ returned (
          ok && all_open c e a zero_side files todo,
          suite_of c e a zero_side files (
              done
              ++ map
                  (λ j. reported_if c e a zero_side files j (data_of c e a zero_side files j))
                  todo),
        )
  unfolding run_from
  run_from-reported done [] ok ws h =
      ap (λ b. returned (b, suite_of c e a zero_side files (done ++ []))) (ground arith)
  run_from-reported done (job ∷ todo) ok ws h =
      let job' = reported_if c e a zero_side files job (data_of c e a zero_side files job) in
      let ok' = ok && is_some c e a zero_side files (data_of c e a zero_side files job) in
      let rest = run_from-reported (done ++ job' ∷ []) todo ok' ws h.1 in
      ap (next_job (length todo) (length done) ok ws)
        (run_backtest-reported done todo job (ws (length done)) h.0)
      ∙ ap₂
          (λ i js.
            run_from c e a zero_side files (length todo) i ok' (suite_of c e a zero_side files js)
              ws)
          (omega (arith, length-append done (job' ∷ []))) (sym (append_assoc done todo job'))
      ∙ rest
      ∙ ap₂ (λ b js. returned (b, suite_of c e a zero_side files js))
          (and_assoc ok (is_some c e a zero_side files (data_of c e a zero_side files job))
            (all_open c e a zero_side files todo))
          (append_assoc done _ job')

  -- Whatever the strategies, the ticks and the worker do, of new jobs with a strategy each:
  -- run_all_backtests returns, and says whether all files could be opened; each job whose file could
  -- is completed, and reports no trade, the result 0 + 0, and 0 for the drawdown and the ratio.
  pub run_all_backtests_lem :
      (jobs : List (BacktestJob c)) (ws : ℕ → Conditions c)
      → All (HasStrategy c e a zero_side files) jobs
      → run_all_backtests c e a zero_side files (record { jobs = jobs }) ws
        ≡ returned (
          all_open c e a zero_side files jobs,
          record {
            jobs =
                map
                  (λ j. reported_if c e a zero_side files j (data_of c e a zero_side files j))
                  jobs;
          },
        )
  unfolding run_all_backtests
  run_all_backtests_lem jobs ws h = run_from-reported [] jobs true ws h

  abbrev report : BacktestJob c → BacktestJob c
  report j = reported_if c e a zero_side files j (data_of c e a zero_side files j)

  run_opened-idle :
      (s : BacktestingSuite c) (i : ℕ) (job : BacktestJob c) (w : Conditions c)
      → (o : Option (List (HistoricalTick c))) → is_some c e a zero_side files o ≡ true
      → run_opened c e a zero_side files s i (reported_if c e a zero_side files job o) w o
        ≡ null_strategy
  unfolding run_opened run_job put_job
  run_opened-idle s i job w none h = absurd (cc)
  run_opened-idle s i job w (some ticks) h = refl

  data-report :
      (job : BacktestJob c) (o : Option (List (HistoricalTick c)))
      → (reported_if c e a zero_side files job o).data_file ≡ job.data_file
  data-report job none = refl
  data-report job (some ticks) = refl

  suite_returned : (p q : Bool × BacktestingSuite c) → returned p ≡ returned q → p.1 ≡ q.1
  suite_returned p q h =
      ap (λ o. elim o [ returned r ↦ r.1 | out_of_fuel ↦ p.1 | null_strategy ↦ p.1 ]) h

  -- Of new jobs with a strategy each, behind a run_all_backtests that returned: to run a job again
  -- whose file can be opened uses a null strategy, since the first run has moved the strategy out.
  pub second_run_fails :
      (jobs : List (BacktestJob c)) (ws : ℕ → Conditions c) (ok : Bool) (s : BacktestingSuite c)
      → (i : ℕ) (job : BacktestJob c) (w : Conditions c)
      → All (HasStrategy c e a zero_side files) jobs
      → run_all_backtests c e a zero_side files (record { jobs = jobs }) ws ≡ returned (ok, s)
      → get_elem? jobs i ≡ some job
      → is_some c e a zero_side files (data_of c e a zero_side files job) ≡ true
      → run_backtest c e a zero_side files s i w ≡ null_strategy
  unfolding run_backtest run_found
  second_run_fails jobs ws ok s i job w h ran found opened =
      let same : suite_of c e a zero_side files (map report jobs) ≡ s =
        suite_returned
          (all_open c e a zero_side files jobs, suite_of c e a zero_side files (map report jobs))
          (ok, s) (sym (run_all_backtests_lem jobs ws h) ∙ ran) in
      ap (λ t. run_backtest c e a zero_side files t i w) (sym same)
      ∙ ap (run_found c e a zero_side files (suite_of c e a zero_side files (map report jobs)) i w)
          (get_elem?-map report jobs i job found)
      ∙ ap
          (λ f.
            run_opened c e a zero_side files (suite_of c e a zero_side files (map report jobs)) i
              (report job) w (open_data c e a zero_side files f))
          (data-report job (data_of c e a zero_side files job))
      ∙ run_opened-idle (suite_of c e a zero_side files (map report jobs)) i job w
          (data_of c e a zero_side files job) opened
