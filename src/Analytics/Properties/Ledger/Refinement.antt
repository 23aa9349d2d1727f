-- ===== src/Analytics/Properties/Ledger/Refinement.antt =====
-- PnLCalculator keeps the ledger.
use hft_engine.Base.{
  ℕ, ◌+◌, ◌%◌, ◌≤◌, ◌<◌, Bool, true, false, Option, none, some, List, [], ◌∷◌, ◌++◌, ◌≡◌, ◌↔◌, refl,
  ap, sym, ◌∙◌, or_else, if◌then◌else◌, length, All, arith, inl, inr, Bool-cases, length-append,
  keep,
}
use hft_engine.Base.Words.{wadd-mod}
use hft_engine.Core.{Core}
use hft_engine.Containers.HashMap
use hft_engine.Containers.HashMap.{or_else-assign}
use hft_engine.Analytics.Types.{Arithmetic, Trade, Position, new_position}
use hft_engine.Analytics.Calculator
use hft_engine.Analytics.Calculator.{
  PnLCalculator, size_mod, apply_quantity, extend, reduce, signed_quantity, position_or_new,
}
use hft_engine.Analytics.Calculator.Queries.{
  get_trades, get_trade_count, get_net_position, get_position,
}
use hft_engine.Analytics.Properties.Calls.{
  Call, record_trade, market_price, commission_rate, default_rate, reset, reset_positions,
  reset_trades, step, run,
}
use hft_engine.Analytics.Properties.Exact.{balance, IsExact}
use hft_engine.Analytics.Properties.Ledger.{
  Ledger, sides, bought, sold, post, post_all, traded, traded_all, volume, TradesSome, bought-last,
  posted, sold-last, volume-last, sides-le, sides_cases, bought-sold-le,
}
use hft_engine.Analytics.Properties.Ledger.Quantities.{apply-balance, signed-balance}

module _ {c : Core} (a : Arithmetic c) (epoch : c.TimePoint) where
  abbrev position : PnLCalculator c → c.Symbol → Position c
  position k s = position_or_new c a epoch k s

  -- The calculator holds what the ledger says.
  pub record Implements (k : PnLCalculator c) (l : Ledger c) : Type 0 where
    pub trades : k.trades ≡ l.book
    pub count : k.trade_count ≡ length l.book % size_mod
    pub net :
        (s : c.Symbol)
        → (position k s).quantity ≡ balance c (bought c s l.open_trades) (sold c s l.open_trades)

if_field :
    {c : Core} (b : Bool) (p q : Position c)
    → (if b then p else q).quantity ≡ (if b then p.quantity else q.quantity)
if_field true p q = refl
if_field false p q = refl

module _ {c : Core} {a : Arithmetic c} {limit : ℕ} (x : IsExact c a limit) (epoch : c.TimePoint)
    (symbol_eq_iff : (s t : c.Symbol) → (c.symbol_eq s t ≡ true) ↔ (s ≡ t)) where
  quantity-record_trade :
      (k : PnLCalculator c) (t : Trade c) (s : c.Symbol)
      → (position a epoch (Calculator.record_trade c a epoch k t) s).quantity ≡ (
          if c.symbol_eq t.symbol s
          then (apply_quantity c a
              (record (position a epoch k t.symbol) { symbol = t.symbol })
              (signed_quantity c a t)
              t.executed_price).0.quantity
          else (position a epoch k s).quantity)
  unfolding Calculator.record_trade Calculator.update_position position_or_new
      Calculator.settled_position
  quantity-record_trade k t s =
      ap (λ p. p.quantity)
        (or_else-assign c.symbol_eq symbol_eq_iff (new_position c epoch) s t.symbol _ k.positions)
      ∙ if_field (c.symbol_eq t.symbol s) _ _

  -- The quantity is not touched when a position is valued.
  quantity-calculate :
      (p : Position c) (price total : c.Price)
      → (Calculator.calculate_unrealized_pnl c a p price total).0.quantity ≡ p.quantity
  unfolding Calculator.calculate_unrealized_pnl Calculator.update_risk_metrics
  quantity-calculate p price total = ground arith

  quantity-revalue :
      (k : PnLCalculator c) (j s : c.Symbol) (price : c.Price) (o : Option (Position c))
      → HashMap.find c.symbol_eq j k.positions ≡ o
      → (position a epoch (Calculator.revalue c a k j price o) s).quantity
        ≡ (position a epoch k s).quantity
  unfolding position_or_new Calculator.revalue
  quantity-revalue k j s price none e = refl
  quantity-revalue k j s price (some p) e =
      ap (λ p. p.quantity)
        (or_else-assign c.symbol_eq symbol_eq_iff (new_position c epoch) s j _ k.positions)
      ∙ if_field (c.symbol_eq j s) _ _
      ∙ elim (Bool-cases (c.symbol_eq j s)) [
        | inl f ↦ rw f (
            quantity-calculate p price k.total_unrealized_pnl
            ∙ ap (λ o. (or_else (new_position c epoch) o).quantity)
                (sym (rw ((symbol_eq_iff j s).0 f) at e)))
        | inr f ↦ rw f refl
      ]

  quantity-market_price :
      (k : PnLCalculator c) (j s : c.Symbol) (price : c.Price) (now : c.TimePoint)
      → (position a epoch (Calculator.update_market_price c a k j price now) s).quantity
        ≡ (position a epoch k s).quantity
  unfolding Calculator.update_market_price position_or_new
  quantity-market_price k j s price now =
      quantity-revalue
        (record k {
          current_prices = HashMap.assign c.symbol_eq j price k.current_prices;
          price_timestamps = HashMap.assign c.symbol_eq j now k.price_timestamps;
        })
        j s price _ refl

  -- The position behind a trade, if the one before it was what the trades `ts` leave.
  net-record_trade :
      (k : PnLCalculator c) (t : Trade c) (s : c.Symbol) (ts : List (Trade c))
      → 0 < t.quantity
      → volume c ts + t.quantity ≤ limit
      → ((j : c.Symbol) → (position a epoch k j).quantity ≡ balance c (bought c j ts) (sold c j ts))
      → (position a epoch (Calculator.record_trade c a epoch k t) s).quantity
        ≡ balance c (bought c s (ts ++ t ∷ [])) (sold c s (ts ++ t ∷ []))
  net-record_trade k t s ts h b n = elim (Bool-cases (c.symbol_eq t.symbol s)) [
    | inl e ↦
        let same : t.symbol ≡ s = (symbol_eq_iff t.symbol s).0 e in
        rw (quantity-record_trade k t s, bought-last c s ts t, sold-last c s ts t, e)
          (apply-balance x (record (position a epoch k t.symbol) { symbol = t.symbol })
            (signed_quantity c a t) t.executed_price (bought c s ts) (sold c s ts) (sides c t).0
            (sides c t).1 (rw same (n s)) (signed-balance x t h (omega arith)) (sides_cases c t h)
            (omega (arith, bought-sold-le c s ts, sides-le c t))
            (omega (arith, bought-sold-le c s ts, sides-le c t)))
    | inr e ↦ rw (quantity-record_trade k t s, bought-last c s ts t, sold-last c s ts t, e) (n s)
  ]

  trades-revalue :
      (k : PnLCalculator c) (j : c.Symbol) (price : c.Price) (o : Option (Position c))
      → ((Calculator.revalue c a k j price o).trades ≡ k.trades)
        × ((Calculator.revalue c a k j price o).trade_count ≡ k.trade_count)
  unfolding Calculator.revalue
  trades-revalue k j price none = (refl, refl)
  trades-revalue k j price (some p) = (refl, refl)

  step-Implements :
      (k : PnLCalculator c) (l : Ledger c) (y : Call c)
      → Implements a epoch k l
      → TradesSome c y
      → volume c l.open_trades + traded c y ≤ limit
      → Implements a epoch (step c a epoch k y) (post c l y)
  unfolding Calculator.record_trade Calculator.update_position Calculator.reset
      Calculator.reset_positions Calculator.reset_trades Calculator.update_market_price
      Calculator.set_commission_rate Calculator.set_default_commission_rate position_or_new
      HashMap.find new_position
  step-Implements k l (record_trade t) h p b = record {
    trades = rw h.trades refl;
    count = rw (h.count, length-append l.book (t ∷ [])) (wadd-mod size_mod (length l.book) 1);
    net = λ s. net-record_trade k t s l.open_trades p b h.net;
  }
  step-Implements k l (market_price s p now) h _ b = record {
    trades = (trades-revalue _ s p _).0 ∙ h.trades;
    count = (trades-revalue _ s p _).1 ∙ h.count;
    net = λ j. quantity-market_price k s j p now ∙ h.net j;
  }
  step-Implements k l (commission_rate s r) h _ b = record {
    trades = h.trades;
    count = h.count;
    net = h.net;
  }
  step-Implements k l (default_rate r) h _ b = record {
    trades = h.trades;
    count = h.count;
    net = h.net;
  }
  step-Implements k l reset h _ b = record {
    trades = refl;
    count = refl;
    net = λ s. x.whole_lem 0 (omega arith);
  }
  step-Implements k l reset_positions h _ b = record {
    trades = h.trades;
    count = h.count;
    net = λ s. x.whole_lem 0 (omega arith);
  }
  step-Implements k l reset_trades h _ b = record { trades = refl; count = refl; net = h.net }

  post-volume :
      (l : Ledger c) (y : Call c)
      → volume c (post c l y).open_trades ≤ volume c l.open_trades + traded c y
  post-volume l (record_trade t) = omega (arith, volume-last c l.open_trades t)
  post-volume l (market_price s p now) = omega arith
  post-volume l (commission_rate s r) = omega arith
  post-volume l (default_rate r) = omega arith
  post-volume l reset = omega arith
  post-volume l reset_positions = omega arith
  post-volume l reset_trades = omega arith

  run-Implements :
      (k : PnLCalculator c) (l : Ledger c) (ys : List (Call c))
      → Implements a epoch k l
      → All (TradesSome c) ys
      → volume c l.open_trades + traded_all c ys ≤ limit
      → Implements a epoch (run c a epoch k ys) (post_all c l ys)
  run-Implements k l [] h p b = h
  run-Implements k l (y ∷ ys) h p b =
      run-Implements (step c a epoch k y) (post c l y) ys
        (step-Implements k l y h p.0 (omega arith)) p.1 (omega (arith, post-volume l y))

  new-Implements :
      (rate : c.Price)
      → Implements a epoch
          (Calculator.new_calculator c a rate)
          (record { book = []; open_trades = [] })
  unfolding Calculator.new_calculator Calculator.reset position_or_new HashMap.find new_position
  new-Implements rate = record {
    trades = refl;
    count = refl;
    net = λ s. x.whole_lem 0 (omega arith);
  }

  -- Doubles that are exact up to `limit`, and calls on a new calculator that record trades with a
  -- quantity, `limit` at most in all: the trades that get_trades returns are those recorded since
  -- they were last cleared, all of them for the empty symbol and the symbol's own otherwise, in
  -- their order; get_trade_count is their number modulo 2 ^ 64; and each net position is what was
  -- bought of the symbol less what was sold since the positions were last cleared.
  pub run_refines :
      (rate : c.Price) (ys : List (Call c)) (s : c.Symbol)
      → All (TradesSome c) ys
      → traded_all c ys ≤ limit
      → let k = run c a epoch (Calculator.new_calculator c a rate) ys in
        (get_trades c a k s ≡ (
          if c.symbol_eq s c.no_symbol
          then (posted c ys).book
          else keep (λ t. c.symbol_eq t.symbol s) (posted c ys).book))
        × (get_trade_count c a k ≡ length (posted c ys).book % size_mod)
        × (get_net_position c a epoch k s
            ≡ balance c (bought c s (posted c ys).open_trades) (sold c s (posted c ys).open_trades))
  unfolding get_trades get_trade_count get_net_position get_position
  run_refines rate ys s p b =
      let h =
        run-Implements (Calculator.new_calculator c a rate) (record { book = []; open_trades = [] })
          ys (new-Implements rate) p (omega arith) in
      (rw h.trades refl, h.count, h.net s)
