-- ===== src/Analytics/Properties/Stale.antt =====
-- Results that stay behind.
use hft_engine.Base.{
  ℕ, ◌≤◌, ◌<◌, true, false, not, none, some, ◌≡◌, ◌↔◌, refl, ap, ◌∙◌, or_else, arith, inl, inr,
  Bool-cases,
}
use hft_engine.Core.{Core}
use hft_engine.Containers.HashMap
use hft_engine.Containers.HashMap.{find-assign}
use hft_engine.Analytics.Types.{Arithmetic, Trade, Position, new_position}
use hft_engine.Analytics.Formulas.{calculate_pnl, tiny}
use hft_engine.Analytics.Calculator.{
  PnLCalculator, apply_quantity, extend, reduce, signed_quantity, position_or_new, settled_position,
  record_trade, update_position, update_market_price, revalue, calculate_unrealized_pnl,
  update_risk_metrics, open_pnl, is_flat,
}
use hft_engine.Analytics.Calculator.Queries.{get_position}
use hft_engine.Analytics.Properties.Exact.{balance, IsExact}
use hft_engine.Analytics.Properties.RoundTrip.{
  opened, closed, signs_long, signs_short, closing_quantity, commission_of,
}

module _ {c : Core} (a : Arithmetic c) (epoch : c.TimePoint)
    (symbol_eq_iff : (s j : c.Symbol) → (c.symbol_eq s j ≡ true) ↔ (s ≡ j)) where
  find-record_trade :
      (k : PnLCalculator c) (t : Trade c) (s : c.Symbol)
      → t.symbol ≡ s
      → HashMap.find c.symbol_eq s (record_trade c a epoch k t).positions
        ≡ some (
            settled_position c a
              (position_or_new c a epoch k t.symbol)
              t
              (commission_of a epoch symbol_eq_iff k t))
  unfolding record_trade update_position position_or_new
  find-record_trade k t s e =
      find-assign c.symbol_eq symbol_eq_iff s t.symbol _ k.positions
      ∙ rw ((symbol_eq_iff t.symbol s).1 e) refl

  find-update_market_price :
      (k : PnLCalculator c) (s : c.Symbol) (price : c.Price) (now : c.TimePoint) (p : Position c)
      → HashMap.find c.symbol_eq s k.positions ≡ some p
      → let k' = update_market_price c a k s price now in
        let valued = calculate_unrealized_pnl c a p price k.total_unrealized_pnl in
        (HashMap.find c.symbol_eq s k'.positions ≡ some valued.0)
        × (k'.total_unrealized_pnl ≡ valued.1)
  unfolding update_market_price revalue
  find-update_market_price k s price now p e =
      rw (update_market_price, e)
        (
          find-assign c.symbol_eq symbol_eq_iff s s _ k.positions
              ∙ rw ((symbol_eq_iff s s).1 refl) refl,
          refl,
        )

  unrealized-record_trade :
      (k : PnLCalculator c) (t : Trade c)
      → (record_trade c a epoch k t).total_unrealized_pnl ≡ k.total_unrealized_pnl
  unfolding record_trade update_position
  unrealized-record_trade k t = refl

module _ {c : Core} {a : Arithmetic c} {limit : ℕ} (x : IsExact c a limit) where
  not_tiny :
      (y : c.Price) (q : ℕ)
      → a.abs y ≡ c.price_of q
      → 0 < q
      → q ≤ limit
      → c.price_lt (a.abs y) (tiny c a) ≡ false
  not_tiny y q e h k = ap (λ n. c.price_lt n (tiny c a)) e ∙ x.tiny_lem q k ∙ ground arith

  unrealized-settled_position :
      (p : Position c) (t : Trade c) (commission : c.Price)
      → (settled_position c a p t commission).unrealized_pnl ≡ p.unrealized_pnl
  unfolding settled_position apply_quantity extend reduce
  unrealized-settled_position p t commission = ground arith

  -- The position that a trade opens is not flat, and would realize what calculate_pnl says.
  open_position :
      (p : Position c) (t : Trade c) (price : c.Price)
      → p.quantity ≡ signed_quantity c a t
      → p.avg_entry_price ≡ t.executed_price
      → 0 < t.quantity
      → t.quantity ≤ limit
      → (is_flat c a p ≡ false)
        × (open_pnl c a p price ≡ calculate_pnl c a t.side t.executed_price price t.quantity)
  unfolding calculate_pnl open_pnl signed_quantity
  open_position p t price e f h k = elim (Bool-cases (c.is_buy t.side)) [
    | inl b ↦
        let long : p.quantity ≡ balance c t.quantity 0 = rw b at e ∙ x.whole_lem t.quantity k in
        (
          ap (λ n. c.price_lt (a.abs n) (tiny c a)) long
              ∙ not_tiny _ t.quantity (closing_quantity x t.quantity k).0 h k,
          rw (long, (signs_long x t.quantity h k).0, ← x.whole_lem t.quantity k, f, b) refl,
        )
    | inr b ↦
        let short : p.quantity ≡ balance c 0 t.quantity = rw b at e ∙ x.negate_lem t.quantity h k in
        (
          ap (λ n. c.price_lt (a.abs n) (tiny c a)) short
              ∙ not_tiny _ t.quantity (closing_quantity x t.quantity k).1 h k,
          rw (short, (signs_short x t.quantity h k).0, (closing_quantity x t.quantity k).1, f, b)
              refl,
        )
  ]

  -- Valuing it keeps its size and price, and the total follows its result.
  valued_open :
      (p : Position c) (t : Trade c) (price total : c.Price)
      → p.quantity ≡ signed_quantity c a t
      → p.avg_entry_price ≡ t.executed_price
      → 0 < t.quantity
      → t.quantity ≤ limit
      → let valued = calculate_unrealized_pnl c a p price total in
        (valued.0.quantity ≡ p.quantity)
        × (valued.0.avg_entry_price ≡ p.avg_entry_price)
        × (valued.1
            ≡ c.price_add total (
                c.price_sub
                  (calculate_pnl c a t.side t.executed_price price t.quantity)
                  p.unrealized_pnl))
  unfolding calculate_unrealized_pnl update_risk_metrics
  valued_open p t price total e f h k =
      let (flat, pnl) = open_position p t price e f h k in rw (flat, pnl) (refl, refl, refl)

  valued_flat :
      (p : Position c) (price total : c.Price)
      → p.quantity ≡ c.price_of 0
      → let (q, total') = calculate_unrealized_pnl c a p price total in
        (q.unrealized_pnl ≡ c.price_of 0) × (total' ≡ total)
  unfolding calculate_unrealized_pnl
  valued_flat p price total e = rw (e, flat_zero) (refl, refl)
    where
      flat_zero : c.price_lt (a.abs (c.price_of 0)) (a.decimal 1 6) ≡ true
      flat_zero =
          ap (λ n. c.price_lt (a.abs n) (a.decimal 1 6)) (x.whole_lem 0 (omega arith))
          ∙ ap (λ n. c.price_lt n (a.decimal 1 6)) (x.abs_lem 0 0 (omega arith) (omega arith))
          ∙ x.tiny_lem 0 (omega arith)

  -- Doubles that are exact up to `limit`, a symbol without a position, and a trade of it with a
  -- quantity of at most `limit`, then a market price, an opposite trade of the same quantity, and
  -- another market price: the symbol's unrealized result is 0, and the total unrealized result still
  -- counts what the position was worth at the first market price.
  pub unrealized_stays :
      (symbol_eq_iff : (s j : c.Symbol) → (c.symbol_eq s j ≡ true) ↔ (s ≡ j))
      → (epoch : c.TimePoint) (k : PnLCalculator c) (t u : Trade c) (m m' : c.Price)
      → (now now' : c.TimePoint) → HashMap.find c.symbol_eq t.symbol k.positions ≡ none
      → u.symbol ≡ t.symbol
      → c.is_buy u.side ≡ not (c.is_buy t.side)
      → u.quantity ≡ t.quantity
      → 0 < t.quantity
      → t.quantity ≤ limit
      → let opened_at = update_market_price c a (record_trade c a epoch k t) t.symbol m now in
        let closed_at =
          update_market_price c a (record_trade c a epoch opened_at u) t.symbol m' now' in
        ((get_position c a epoch closed_at t.symbol).unrealized_pnl ≡ c.price_of 0)
        × (closed_at.total_unrealized_pnl
            ≡ c.price_add k.total_unrealized_pnl (
                c.price_sub
                  (calculate_pnl c a t.side t.executed_price m t.quantity)
                  (c.price_of 0)))
  unfolding position_or_new new_position get_position
  unrealized_stays eq epoch k t u m m' now now' none_yet same s q h l =
      let k1 = record_trade c a epoch k t in
      let k2 = update_market_price c a k1 t.symbol m now in
      let k3 = record_trade c a epoch k2 u in
      let old = position_or_new c a epoch k t.symbol in
      let fresh : old.quantity ≡ c.price_of 0 =
        ap (λ o. (or_else (new_position c epoch) o).quantity) none_yet in
      let (e, f, _) = opened x old t (commission_of a epoch eq k t) k.total_realized_pnl fresh in
      let p1 = settled_position c a old t (commission_of a epoch eq k t) in
      let (found2, total2) =
        find-update_market_price a epoch eq k1 t.symbol m now p1
          (find-record_trade a epoch eq k t t.symbol refl) in
      let (e2, f2, total) = valued_open p1 t m k1.total_unrealized_pnl e f h l in
      let here2 : position_or_new c a epoch k2 u.symbol
          ≡ (calculate_unrealized_pnl c a p1 m k1.total_unrealized_pnl).0 =
        ap (λ j. position_or_new c a epoch k2 j) same
        ∙ ap (or_else (new_position c epoch)) found2 in
      let (flat, _) =
        closed x (position_or_new c a epoch k2 u.symbol) t u (commission_of a epoch eq k2 u)
          k2.total_realized_pnl (ap (λ p. p.quantity) here2 ∙ e2 ∙ e)
          (ap (λ p. p.avg_entry_price) here2 ∙ f2 ∙ f) s q h l in
      let p3 =
        settled_position c a (position_or_new c a epoch k2 u.symbol) u
          (commission_of a epoch eq k2 u) in
      let (found4, total4) =
        find-update_market_price a epoch eq k3 t.symbol m' now' p3
          (find-record_trade a epoch eq k2 u t.symbol same) in
      let (none_left, kept) = valued_flat p3 m' k3.total_unrealized_pnl flat in
      let start : p1.unrealized_pnl ≡ c.price_of 0 =
        unrealized-settled_position old t _
        ∙ ap (λ o. (or_else (new_position c epoch) o).unrealized_pnl) none_yet in
      (
        ap (λ o. (or_else (new_position c epoch) o).unrealized_pnl) found4 ∙ none_left,
        total4
            ∙ kept
            ∙ unrealized-record_trade a epoch eq k2 u
            ∙ total2
            ∙ total
            ∙ ap
                (λ n.
                  c.price_add k1.total_unrealized_pnl
                    (c.price_sub (calculate_pnl c a t.side t.executed_price m t.quantity) n))
                start
            ∙ ap
                (λ n. c.price_add n (
                  c.price_sub (calculate_pnl c a t.side t.executed_price m t.quantity)
                    (c.price_of 0)))
                (unrealized-record_trade a epoch eq k t),
      )
