-- ===== src/Analytics/Properties/Slippage/Signs.antt =====
-- The count and the signs of the sums in SlippageMetrics.
use hft_engine.Base.{
  ◌+◌, true, false, List, [], ◌∷◌, ◌++◌, ◌≡◌, refl, sym, ap, ◌∙◌, length, length-append, arith,
}
use hft_engine.Core.{Core}
use hft_engine.Analytics.Types.{Arithmetic, Trade, SlippageMetrics, reset_metrics}
use hft_engine.Analytics.Slippage
use hft_engine.Analytics.Slippage.{
  SlippageAnalyzer, ReferencePrice, Sums, new_analyzer, sum_trades, add_trade, add_sign, add_side,
  no_sums, fill_metrics, metrics_of, calculate_slippage_metrics, trade_slippage,
}
use hft_engine.Analytics.Properties.Slippage.{
  SlippageCall, trade, price, restart, step, run, trades_after,
}

-- Sums of doubles that are not negative, and of doubles that are not positive, keep their sign.
pub record KeepsSign (c : Core) : Type 0 where
  pub zero_lem : c.price_lt (c.price_of 0) (c.price_of 0) ≡ false
  pub add_up :
      (x y : c.Price)
      → c.price_lt x (c.price_of 0) ≡ false
      → c.price_lt (c.price_of 0) y ≡ true
      → c.price_lt (c.price_add x y) (c.price_of 0) ≡ false
  pub add_down :
      (x y : c.Price)
      → c.price_lt (c.price_of 0) x ≡ false
      → c.price_lt (c.price_of 0) y ≡ false
      → c.price_lt (c.price_of 0) (c.price_add x y) ≡ false

module _ {c : Core} (a : Arithmetic c) (g : KeepsSign c) where
  abbrev Signed : Sums c → Type 0
  Signed s =
      (c.price_lt s.positive (c.price_of 0) ≡ false)
      × (c.price_lt (c.price_of 0) s.negative ≡ false)

  add-Signed : (t : Trade c) (s : Sums c) → Signed s → Signed (add_trade c a t s)
  unfolding add_trade add_sign add_side
  add-Signed t s h =
      ground (arith, g.add_up s.positive t.slippage_bps, g.add_down s.negative t.slippage_bps)

  sum-Signed : (s : Sums c) (ts : List (Trade c)) → Signed s → Signed (sum_trades c a s ts)
  unfolding sum_trades
  sum-Signed s [] h = h
  sum-Signed s (t ∷ ts) h = sum-Signed (add_trade c a t s) ts (add-Signed t s h)

  -- The metrics of `n` trades.
  record Counted (n : List (Trade c)) (m : SlippageMetrics c) : Type 0 where
    count : m.trade_count ≡ length n
    positive : c.price_lt m.positive_slippage_bps (c.price_of 0) ≡ false
    negative : c.price_lt (c.price_of 0) m.negative_slippage_bps ≡ false

  metrics-Counted : (m : SlippageMetrics c) (ts : List (Trade c)) → Counted ts (metrics_of c a m ts)
  unfolding metrics_of fill_metrics reset_metrics no_sums
  metrics-Counted m [] = record { count = refl; positive = g.zero_lem; negative = g.zero_lem }
  metrics-Counted m (t ∷ ts) =
      let signs = sum-Signed (no_sums c a) (t ∷ ts) (g.zero_lem, g.zero_lem) in
      record { count = refl; positive = signs.0; negative = signs.1 }

  -- The analyzer holds as many trades as there are in `ts`, and their metrics.
  record Follows (ts : List (Trade c)) (s : SlippageAnalyzer c) : Type 0 where
    held : length s.trades ≡ length ts
    counted : Counted s.trades s.metrics

  step-Follows :
      (ts : List (Trade c)) (s : SlippageAnalyzer c) (x : SlippageCall c)
      → Follows ts s
      → Follows (trades_after c a ts (x ∷ [])) (step c a s x)
  unfolding Slippage.record_trade Slippage.update_metrics Slippage.update_price_history
      Slippage.reset reset_metrics
  step-Follows ts s (trade t r) h = record {
    held = length-append s.trades _ ∙ ap (λ n. n + 1) h.held ∙ sym (length-append ts (t ∷ []));
    counted = metrics-Counted s.metrics _;
  }
  step-Follows ts s (price j p now) h = record { held = h.held; counted = h.counted }
  step-Follows ts s restart h = record {
    held = refl;
    counted = record { count = refl; positive = g.zero_lem; negative = g.zero_lem };
  }

  run-Follows :
      (ts : List (Trade c)) (s : SlippageAnalyzer c) (xs : List (SlippageCall c))
      → Follows ts s
      → Follows (trades_after c a ts xs) (run c a s xs)
  run-Follows ts s [] h = h
  run-Follows ts s (trade t r ∷ xs) h =
      run-Follows (ts ++ t ∷ []) (step c a s (trade t r)) xs (step-Follows ts s (trade t r) h)
  run-Follows ts s (price j p now ∷ xs) h =
      run-Follows ts (step c a s (price j p now)) xs (step-Follows ts s (price j p now) h)
  run-Follows ts s (restart ∷ xs) h =
      run-Follows [] (step c a s restart) xs (step-Follows ts s restart h)

  new-Follows : (type : ReferencePrice) → Follows [] (new_analyzer c a type)
  unfolding new_analyzer reset_metrics
  new-Follows type = record {
    held = refl;
    counted = record { count = refl; positive = g.zero_lem; negative = g.zero_lem };
  }

  -- Doubles whose sums keep their sign, and any calls on a new analyzer: the metrics count the trades
  -- recorded since the last reset, the positive slippage is not below 0 and the negative slippage is
  -- not above it.
  pub metrics_lem :
      (type : ReferencePrice) (xs : List (SlippageCall c))
      → let m = calculate_slippage_metrics c a (run c a (new_analyzer c a type) xs) in
        (m.trade_count ≡ length (trades_after c a [] xs))
        × (c.price_lt m.positive_slippage_bps (c.price_of 0) ≡ false)
        × (c.price_lt (c.price_of 0) m.negative_slippage_bps ≡ false)
  unfolding calculate_slippage_metrics
  metrics_lem type xs =
      let h = run-Follows [] (new_analyzer c a type) xs (new-Follows type) in
      (h.counted.count ∙ h.held, h.counted.positive, h.counted.negative)
