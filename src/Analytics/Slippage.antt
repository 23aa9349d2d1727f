-- ===== src/Analytics/Slippage.antt =====
-- SlippageAnalyzer of src/analytics/pnl_calculator_simple.cpp.
use hft_engine.Base.{ℕ, suc, ltb, or_else, List, [], ◌∷◌, ◌++◌, if◌then◌else◌, length}
use hft_engine.Core.{Core}
use hft_engine.Containers.HashMap
use hft_engine.Analytics.Types.{Arithmetic, Trade, SlippageMetrics, reset_metrics}
use hft_engine.Analytics.Formulas.{calculate_slippage_bps}

-- SlippageAnalyzer::ReferencePrice
pub data ReferencePrice : Type 0 where
  arrival_price : ReferencePrice
  decision_price : ReferencePrice
  mid_price : ReferencePrice
  vwap : ReferencePrice
  twap : ReferencePrice

pub record SlippageAnalyzer (c : Core) : Type 0 where
  pub trades : List (Trade c)
  pub metrics : SlippageMetrics c
  pub reference_price_type : ReferencePrice
  pub price_history : List (c.Symbol × List (c.TimePoint × c.Price))

-- The local variables of the first loop of update_metrics.
pub record Sums (c : Core) : Type 0 where
  pub total : c.Price
  pub positive : c.Price
  pub negative : c.Price
  pub buy : c.Price
  pub sell : c.Price
  pub buy_count : ℕ
  pub sell_count : ℕ

-- erase(begin()) of a vector
abbrev pub erase_front {ℓ} : {A : Type ℓ} → List A → List A
erase_front [] = []
erase_front (x ∷ xs) = xs

module _ (c : Core) (a : Arithmetic c) where
  unfoldable pub reset : SlippageAnalyzer c → SlippageAnalyzer c
  reset s = record s { trades = []; metrics = reset_metrics c }

  unfoldable pub new_analyzer : ReferencePrice → SlippageAnalyzer c
  new_analyzer type = record {
    trades = [];
    metrics = reset_metrics c;
    reference_price_type = type;
    price_history = [];
  }

  unfoldable pub no_sums : Sums c
  no_sums = record {
    total = c.price_of 0;
    positive = c.price_of 0;
    negative = c.price_of 0;
    buy = c.price_of 0;
    sell = c.price_of 0;
    buy_count = 0;
    sell_count = 0;
  }

  unfoldable pub add_sign : Trade c → Sums c → Sums c
  add_sign t s =
      if c.price_lt (c.price_of 0) t.slippage_bps
      then record s { positive = c.price_add s.positive t.slippage_bps }
      else record s { negative = c.price_add s.negative t.slippage_bps }

  unfoldable pub add_side : Trade c → Sums c → Sums c
  add_side t s =
      if c.is_buy t.side
      then record s { buy = c.price_add s.buy t.slippage_bps; buy_count = suc s.buy_count }
      else record s { sell = c.price_add s.sell t.slippage_bps; sell_count = suc s.sell_count }

  unfoldable pub add_trade : Trade c → Sums c → Sums c
  add_trade t s = add_side t (add_sign t (record s { total = c.price_add s.total t.slippage_bps }))

  -- The first loop of update_metrics.
  unfoldable pub sum_trades : Sums c → List (Trade c) → Sums c
  sum_trades s [] = s
  sum_trades s (t ∷ ts) = sum_trades (add_trade t s) ts

  -- Its second loop.
  unfoldable pub sum_squares : c.Price → c.Price → List (Trade c) → c.Price
  sum_squares average variance [] = variance
  sum_squares average variance (t ∷ ts) =
      let diff = c.price_sub t.slippage_bps average in
      sum_squares average (c.price_add variance (c.price_mul diff diff)) ts

  abbrev pub average_of : c.Price → ℕ → c.Price
  average_of total n = if ltb 0 n then c.price_div total (c.price_of n) else c.price_of 0

  unfoldable pub fill_metrics : SlippageMetrics c → List (Trade c) → SlippageMetrics c
  fill_metrics m ts =
      let s = sum_trades no_sums ts in
      let average = c.price_div s.total (c.price_of (length ts)) in
      let variance = sum_squares average (c.price_of 0) ts in
      record m {
        trade_count = length ts;
        total_slippage_bps = s.total;
        avg_slippage_bps = average;
        positive_slippage_bps = s.positive;
        negative_slippage_bps = s.negative;
        buy_slippage_bps = average_of s.buy s.buy_count;
        sell_slippage_bps = average_of s.sell s.sell_count;
        slippage_std_dev = a.sqrt (c.price_div variance (c.price_of (length ts)));
      }

  -- What update_metrics makes of the metrics for the trades.
  unfoldable pub metrics_of : SlippageMetrics c → List (Trade c) → SlippageMetrics c
  metrics_of m [] = reset_metrics c
  metrics_of m (t ∷ ts) = fill_metrics m (t ∷ ts)

  unfoldable pub update_metrics : SlippageAnalyzer c → SlippageAnalyzer c
  update_metrics s = record s { metrics = metrics_of s.metrics s.trades }

  -- SlippageAnalyzer::calculate_slippage_bps
  unfoldable pub trade_slippage : Trade c → c.Price → c.Price
  trade_slippage t reference_price =
      calculate_slippage_bps c a t.executed_price reference_price t.side

  unfoldable pub record_trade : SlippageAnalyzer c → Trade c → c.Price → SlippageAnalyzer c
  record_trade s t reference_price =
      let copy = record t { slippage_bps = trade_slippage t reference_price } in
      update_metrics (record s { trades = s.trades ++ copy ∷ [] })

  -- `price_history_[symbol]`, which makes an entry where there is none.
  unfoldable pub history : SlippageAnalyzer c → c.Symbol → List (c.TimePoint × c.Price)
  history s symbol = or_else [] (HashMap.find c.symbol_eq symbol s.price_history)

  unfoldable pub update_price_history :
      SlippageAnalyzer c → c.Symbol → c.Price → c.TimePoint → SlippageAnalyzer c
  update_price_history s symbol price now =
      let longer = history s symbol ++ (now, price) ∷ [] in
      let kept = if ltb 1000 (length longer) then erase_front longer else longer in
      record s { price_history = HashMap.assign c.symbol_eq symbol kept s.price_history }

  unfoldable pub calculate_slippage_metrics : SlippageAnalyzer c → SlippageMetrics c
  calculate_slippage_metrics s = s.metrics
