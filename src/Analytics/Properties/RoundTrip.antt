-- ===== src/Analytics/Properties/RoundTrip.antt =====
-- Two trades that open and close a position.
use hft_engine.Base.{
  ℕ, ◌+◌, ◌≤◌, ◌<◌, true, false, not, none, some, [], ◌∷◌, ◌++◌, ◌≡◌, ◌↔◌, refl, sym, ap, ◌∙◌,
  or_else, arith, inl, inr, Bool-cases,
}
use hft_engine.Core.{Core}
use hft_engine.Containers.HashMap
use hft_engine.Containers.HashMap.{or_else-assign}
use hft_engine.Analytics.Types.{Arithmetic, Trade, Position, new_position}
use hft_engine.Analytics.Formulas.{calculate_pnl}
use hft_engine.Analytics.Calculator.{
  PnLCalculator, apply_quantity, reduce, realize, signed_quantity, position_or_new,
  settled_position, settled_total, add_gain, record_trade, calculate_commission, update_position,
}
use hft_engine.Analytics.Calculator.Queries.{get_net_position, get_position}
use hft_engine.Analytics.Properties.Exact.{balance, IsExact}

module _ {c : Core} {a : Arithmetic c} {limit : ℕ} (x : IsExact c a limit) where
  -- A first quantity becomes the position, at the trade's price, and nothing is realized.
  apply_first :
      (p : Position c) (y price : c.Price)
      → p.quantity ≡ c.price_of 0
      → apply_quantity c a p y price ≡ (record p { quantity = y; avg_entry_price = price }, none)
  unfolding apply_quantity
  apply_first p y price e = rw (e, none_above) refl
    where
      zero_balance : c.price_of 0 ≡ balance c 0 0
      zero_balance = x.whole_lem 0 (omega arith)

      none_above : c.price_lt (c.price_of 0) (c.price_of 0) ≡ false
      none_above =
          ap (c.price_lt (c.price_of 0)) zero_balance ∙ x.above_lem 0 0 (omega arith) (omega arith)

  closed_quantity : (q : ℕ) → q ≤ limit → c.price_add (balance c q 0) (balance c 0 q) ≡ c.price_of 0
  closed_quantity q k =
      x.add_lem q 0 0 q (omega arith) (omega arith)
      ∙ x.balance_eq (q + 0) (0 + q) 0 0 (omega arith) (omega arith) (omega arith) (omega arith)
          (omega arith)
      ∙ sym (x.whole_lem 0 (omega arith))

  closed_short : (q : ℕ) → q ≤ limit → c.price_add (balance c 0 q) (balance c q 0) ≡ c.price_of 0
  closed_short q k =
      x.add_lem 0 q q 0 (omega arith) (omega arith)
      ∙ x.balance_eq (0 + q) (q + 0) 0 0 (omega arith) (omega arith) (omega arith) (omega arith)
          (omega arith)
      ∙ sym (x.whole_lem 0 (omega arith))

  pub signs_long :
      (q : ℕ)
      → 0 < q
      → q ≤ limit
      → (c.price_lt (c.price_of 0) (balance c q 0) ≡ true)
        × (c.price_lt (balance c q 0) (c.price_of 0) ≡ false)
  signs_long q h k = (
    x.above_lem q 0 k (omega arith) ∙ ground arith,
    x.below_lem q 0 k (omega arith) ∙ ground arith,
  )

  pub signs_short :
      (q : ℕ)
      → 0 < q
      → q ≤ limit
      → (c.price_lt (c.price_of 0) (balance c 0 q) ≡ false)
        × (c.price_lt (balance c 0 q) (c.price_of 0) ≡ true)
  signs_short q h k = (
    x.above_lem 0 q (omega arith) k ∙ ground arith,
    x.below_lem 0 q (omega arith) k ∙ ground arith,
  )

  pub closing_quantity :
      (q : ℕ)
      → q ≤ limit
      → (a.abs (balance c q 0) ≡ c.price_of q) × (a.abs (balance c 0 q) ≡ c.price_of q)
  closing_quantity q k = (
    x.abs_lem q 0 (omega arith) k ∙ ap c.price_of (omega arith),
    x.abs_negative 0 q (omega arith) k ∙ ap c.price_of (omega arith),
  )

  -- A sale of the whole long position, and a purchase of the whole short one.
  close_long :
      (p : Position c) (y price : c.Price) (q : ℕ)
      → p.quantity ≡ balance c q 0
      → y ≡ balance c 0 q
      → 0 < q
      → q ≤ limit
      → ((apply_quantity c a p y price).0.quantity ≡ c.price_of 0)
        × ((apply_quantity c a p y price).1
            ≡ some (c.price_mul (c.price_of q) (c.price_sub price p.avg_entry_price)))
  unfolding apply_quantity reduce realize
  close_long p y price q e f h k =
      let (l_up, l_down) = signs_long q h k in
      let (s_up, s_down) = signs_short q h k in
      let (l_abs, s_abs) = closing_quantity q k in
      (
        rw (e, f, l_up, l_down, s_up, s_down) (closed_quantity q k),
        rw (e, f, l_up, l_down, s_up, s_down, l_abs, s_abs, x.min_same) refl,
      )

  close_short :
      (p : Position c) (y price : c.Price) (q : ℕ)
      → p.quantity ≡ balance c 0 q
      → y ≡ balance c q 0
      → 0 < q
      → q ≤ limit
      → ((apply_quantity c a p y price).0.quantity ≡ c.price_of 0)
        × ((apply_quantity c a p y price).1
            ≡ some (c.price_mul (c.price_of q) (c.price_sub p.avg_entry_price price)))
  unfolding apply_quantity reduce realize
  close_short p y price q e f h k =
      let (l_up, l_down) = signs_long q h k in
      let (s_up, s_down) = signs_short q h k in
      let (l_abs, s_abs) = closing_quantity q k in
      (
        rw (e, f, l_up, l_down, s_up, s_down) (closed_short q k),
        rw (e, f, l_up, l_down, s_up, s_down, l_abs, s_abs, x.min_same) refl,
      )

  apply_opposite :
      (p : Position c) (price : c.Price) (t u : Trade c)
      → p.quantity ≡ signed_quantity c a t
      → c.is_buy u.side ≡ not (c.is_buy t.side)
      → u.quantity ≡ t.quantity
      → 0 < t.quantity
      → t.quantity ≤ limit
      → ((apply_quantity c a p (signed_quantity c a u) price).0.quantity ≡ c.price_of 0)
        × ((apply_quantity c a p (signed_quantity c a u) price).1
            ≡ some (calculate_pnl c a t.side p.avg_entry_price price t.quantity))
  unfolding signed_quantity calculate_pnl
  apply_opposite p price t u e s q h k = elim (Bool-cases (c.is_buy t.side)) [
    | inl b ↦ rw b (
        close_long p _ price t.quantity (e ∙ rw b (x.whole_lem t.quantity k))
          (rw (s, b, q) (x.negate_lem t.quantity h k)) h k)
    | inr b ↦ rw b (
        close_short p _ price t.quantity (e ∙ rw b (x.negate_lem t.quantity h k))
          (rw (s, b, q) (x.whole_lem t.quantity k)) h k)
  ]

  pub opened :
      (p : Position c) (t : Trade c) (commission total : c.Price)
      → p.quantity ≡ c.price_of 0
      → ((settled_position c a p t commission).quantity ≡ signed_quantity c a t)
        × ((settled_position c a p t commission).avg_entry_price ≡ t.executed_price)
        × (settled_total c a p t total ≡ total)
  unfolding settled_position settled_total
  opened p t commission total e =
      let first =
        apply_first (record p { symbol = t.symbol }) (signed_quantity c a t) t.executed_price e in
      (
        ap (λ r. r.0.quantity) first,
        ap (λ r. r.0.avg_entry_price) first,
        ap (λ r. add_gain c a total r.1) first,
      )

  pub closed :
      (p : Position c) (t u : Trade c) (commission total : c.Price)
      → p.quantity ≡ signed_quantity c a t
      → p.avg_entry_price ≡ t.executed_price
      → c.is_buy u.side ≡ not (c.is_buy t.side)
      → u.quantity ≡ t.quantity
      → 0 < t.quantity
      → t.quantity ≤ limit
      → ((settled_position c a p u commission).quantity ≡ c.price_of 0)
        × (settled_total c a p u total
            ≡ c.price_add total
                (calculate_pnl c a t.side t.executed_price u.executed_price t.quantity))
  unfolding settled_position settled_total
  closed p t u commission total e f s q h k =
      let last = apply_opposite (record p { symbol = u.symbol }) u.executed_price t u e s q h k in
      (
        last.0,
        ap (add_gain c a total)
            (last.1 ∙ ap (λ e. some (calculate_pnl c a t.side e u.executed_price t.quantity)) f),
      )

module _ {c : Core} (a : Arithmetic c) (epoch : c.TimePoint)
    (symbol_eq_iff : (s j : c.Symbol) → (c.symbol_eq s j ≡ true) ↔ (s ≡ j)) where
  -- The commission that record_trade takes.
  abbrev pub commission_of : PnLCalculator c → Trade c → c.Price
  commission_of k t = calculate_commission c a (record k { trades = k.trades ++ t ∷ [] }) t

  pub total-record_trade :
      (k : PnLCalculator c) (t : Trade c)
      → (record_trade c a epoch k t).total_realized_pnl
        ≡ settled_total c a (position_or_new c a epoch k t.symbol) t k.total_realized_pnl
  unfolding record_trade update_position position_or_new
  total-record_trade k t = refl

  pub position-record_trade :
      (k : PnLCalculator c) (t : Trade c) (s : c.Symbol)
      → c.symbol_eq t.symbol s ≡ true
      → position_or_new c a epoch (record_trade c a epoch k t) s
        ≡ settled_position c a (position_or_new c a epoch k t.symbol) t (commission_of k t)
  unfolding record_trade update_position position_or_new
  position-record_trade k t s e =
      or_else-assign c.symbol_eq symbol_eq_iff (new_position c epoch) s t.symbol _ k.positions
      ∙ rw e refl

module _ {c : Core} {a : Arithmetic c} {limit : ℕ} (x : IsExact c a limit) where
  -- Doubles that are exact up to `limit`, a symbol without a position, a trade of it with a quantity
  -- of at most `limit`, and an opposite trade of the same quantity: the total realized result grows
  -- by what calculate_pnl says of the two prices, and the net position is 0.
  pub round_trip_lem :
      (symbol_eq_iff : (s j : c.Symbol) → (c.symbol_eq s j ≡ true) ↔ (s ≡ j))
      → (epoch : c.TimePoint) (k : PnLCalculator c) (t u : Trade c)
      → HashMap.find c.symbol_eq t.symbol k.positions ≡ none
      → u.symbol ≡ t.symbol
      → c.is_buy u.side ≡ not (c.is_buy t.side)
      → u.quantity ≡ t.quantity
      → 0 < t.quantity
      → t.quantity ≤ limit
      → let closed_out = record_trade c a epoch (record_trade c a epoch k t) u in
        (closed_out.total_realized_pnl
          ≡ c.price_add k.total_realized_pnl
              (calculate_pnl c a t.side t.executed_price u.executed_price t.quantity))
        × (get_net_position c a epoch closed_out t.symbol ≡ c.price_of 0)
  unfolding position_or_new new_position get_net_position get_position
  round_trip_lem symbol_eq_iff epoch k t u none_yet same s q h l =
      let k' = record_trade c a epoch k t in
      let old = position_or_new c a epoch k t.symbol in
      let fresh : old.quantity ≡ c.price_of 0 =
        ap (λ o. (or_else (new_position c epoch) o).quantity) none_yet in
      let (e, f, g) =
        opened x old t (commission_of a epoch symbol_eq_iff k t) k.total_realized_pnl fresh in
      let found =
        position-record_trade a epoch symbol_eq_iff k t u.symbol
          ((symbol_eq_iff t.symbol u.symbol).1 (sym same)) in
      let last =
        closed x _ t u (commission_of a epoch symbol_eq_iff k' u) k'.total_realized_pnl
          (ap (λ p. p.quantity) found ∙ e) (ap (λ p. p.avg_entry_price) found ∙ f) s q h l in
      (
        total-record_trade a epoch symbol_eq_iff k' u
            ∙ last.1
            ∙ ap
                (λ n.
                  c.price_add n
                    (calculate_pnl c a t.side t.executed_price u.executed_price t.quantity))
                (total-record_trade a epoch symbol_eq_iff k t ∙ g),
        ap (λ p. p.quantity)
              (position-record_trade a epoch symbol_eq_iff k' u t.symbol
                ((symbol_eq_iff u.symbol t.symbol).1 same))
            ∙ last.0,
      )
