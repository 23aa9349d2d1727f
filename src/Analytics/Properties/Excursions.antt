-- ===== src/Analytics/Properties/Excursions.antt =====
-- The extremes of a position's unrealized result.
use hft_engine.Base.{
  false, Option, none, some, List, ◌≡◌, inl, inr, or_else, refl, Bool-cases, arith,
}
use hft_engine.Core.{Core}
use hft_engine.Containers.HashMap
use hft_engine.Containers.HashMap.{assign-Values, find-Values}
use hft_engine.Containers.OrderedMap.Laws.{IsOrder, Values}
use hft_engine.Analytics.Types.{Arithmetic, Trade, Position, new_position}
use hft_engine.Analytics.Calculator
use hft_engine.Analytics.Calculator.{
  PnLCalculator, apply_quantity, extend, reduce, position_or_new, settled_position,
  update_risk_metrics, calculate_unrealized_pnl, revalue, is_flat, open_pnl,
}
use hft_engine.Analytics.Calculator.Queries.{get_position}
use hft_engine.Analytics.Properties.Calls.{
  Call, record_trade, market_price, commission_rate, default_rate, reset, reset_positions,
  reset_trades, step, run, run_induction,
}

module _ {c : Core} where
  -- The unrealized result and 0 lie between the two excursions.
  pub record Within (p : Position c) : Type 0 where
    pub below_favorable : c.price_lt p.max_favorable_excursion p.unrealized_pnl ≡ false
    pub above_adverse : c.price_lt p.unrealized_pnl p.max_adverse_excursion ≡ false
    pub favorable : c.price_lt p.max_favorable_excursion (c.price_of 0) ≡ false
    pub adverse : c.price_lt (c.price_of 0) p.max_adverse_excursion ≡ false

  -- The excursions and the result of two positions.
  record SameResults (p q : Position c) : Type 0 where
    result : q.unrealized_pnl ≡ p.unrealized_pnl
    up : q.max_favorable_excursion ≡ p.max_favorable_excursion
    down : q.max_adverse_excursion ≡ p.max_adverse_excursion

  same-Within : (p q : Position c) → SameResults p q → Within p → Within q
  same-Within p q s w = record {
    below_favorable = rw (s.up, s.result) w.below_favorable;
    above_adverse = rw (s.result, s.down) w.above_adverse;
    favorable = rw s.up w.favorable;
    adverse = rw s.down w.adverse;
  }

module _ {c : Core} (a : Arithmetic c) (o : IsOrder c.price_lt) (epoch : c.TimePoint) where
  settled-Same :
      (p : Position c) (t : Trade c) (commission : c.Price)
      → SameResults p (settled_position c a p t commission)
  unfolding settled_position apply_quantity extend reduce
  settled-Same p t commission = record {
    result = ground arith;
    up = ground arith;
    down = ground arith;
  }

  risk-Within :
      (p : Position c)
      → c.price_lt p.max_favorable_excursion (c.price_of 0) ≡ false
      → c.price_lt (c.price_of 0) p.max_adverse_excursion ≡ false
      → Within (update_risk_metrics c a p)
  unfolding update_risk_metrics
  risk-Within p up down = record {
    below_favorable = ground (arith, o.irrefl p.unrealized_pnl);
    above_adverse = ground (arith, o.irrefl p.unrealized_pnl);
    favorable = ground (arith, o.trans p.max_favorable_excursion p.unrealized_pnl (c.price_of 0));
    adverse = ground (arith, o.trans (c.price_of 0) p.unrealized_pnl p.max_adverse_excursion);
  }

  valued-Within :
      (p : Position c) (price total : c.Price)
      → Within p
      → Within (calculate_unrealized_pnl c a p price total).0
  unfolding calculate_unrealized_pnl
  valued-Within p price total w = elim (Bool-cases (is_flat c a p)) [
    | inl e ↦ rw e (record {
      below_favorable = w.favorable;
      above_adverse = w.adverse;
      favorable = w.favorable;
      adverse = w.adverse;
    })
    | inr e ↦
        rw e
          (risk-Within (record p { unrealized_pnl = open_pnl c a p price }) w.favorable w.adverse)
  ]

  new-Within : Within (new_position c epoch)
  unfolding new_position
  new-Within = record {
    below_favorable = o.irrefl (c.price_of 0);
    above_adverse = o.irrefl (c.price_of 0);
    favorable = o.irrefl (c.price_of 0);
    adverse = o.irrefl (c.price_of 0);
  }

  abbrev AllWithin : PnLCalculator c → Type 0
  AllWithin k = Values Within k.positions

  or_new-Within :
      (m : List (c.Symbol × Position c)) (s : c.Symbol) (q : Option (Position c))
      → HashMap.find c.symbol_eq s m ≡ q
      → Values Within m
      → Within (or_else (new_position c epoch) q)
  or_new-Within m s none e h = new-Within
  or_new-Within m s (some p) e h = find-Values c.symbol_eq Within s m p e h

  found :
      (k : PnLCalculator c) (s : c.Symbol) → AllWithin k → Within (position_or_new c a epoch k s)
  unfolding position_or_new
  found k s h = or_new-Within k.positions s _ refl h

  start : (rate : c.Price) → AllWithin (Calculator.new_calculator c a rate)
  unfolding Calculator.new_calculator Calculator.reset
  start rate = tt

  record-Within :
      (k : PnLCalculator c) (t : Trade c)
      → AllWithin k
      → AllWithin (Calculator.record_trade c a epoch k t)
  unfolding Calculator.record_trade Calculator.update_position position_or_new
  record-Within k t h =
      assign-Values c.symbol_eq Within t.symbol _ k.positions
        (same-Within _ _ (settled-Same (position_or_new c a epoch k t.symbol) t _)
          (found k t.symbol h))
        h

  revalue-Within :
      (k : PnLCalculator c) (s : c.Symbol) (price : c.Price) (q : Option (Position c))
      → HashMap.find c.symbol_eq s k.positions ≡ q
      → AllWithin k
      → AllWithin (revalue c a k s price q)
  unfolding revalue
  revalue-Within k s price none e h = h
  revalue-Within k s price (some p) e h =
      assign-Values c.symbol_eq Within s _ k.positions
        (valued-Within p price _ (find-Values c.symbol_eq Within s k.positions p e h)) h

  step-Within : (k : PnLCalculator c) (y : Call c) → AllWithin k → AllWithin (step c a epoch k y)
  unfolding Calculator.reset Calculator.reset_positions Calculator.reset_trades
      Calculator.update_market_price Calculator.set_commission_rate
      Calculator.set_default_commission_rate
  step-Within k (record_trade t) h = record-Within k t h
  step-Within k (market_price s p now) h = revalue-Within _ s p _ refl h
  step-Within k (commission_rate s r) h = h
  step-Within k (default_rate r) h = h
  step-Within k reset h = tt
  step-Within k reset_positions h = tt
  step-Within k reset_trades h = h

  -- Prices in a strict total order, and any calls on a new calculator: the unrealized result of each
  -- position, and 0, are no more than its largest favorable excursion and no less than its largest
  -- adverse one.
  pub get_position-Within :
      (rate : c.Price) (ys : List (Call c)) (s : c.Symbol)
      → Within (get_position c a epoch (run c a epoch (Calculator.new_calculator c a rate) ys) s)
  unfolding get_position
  get_position-Within rate ys s = found _ s (
      run_induction c a epoch AllWithin step-Within (Calculator.new_calculator c a rate) ys
        (start rate))
