-- ===== src/Analytics/Properties/Ledger/Quantities.antt =====
-- The three branches of PnLCalculator::update_position as one addition of exact doubles.
use hft_engine.Base.{
  ℕ, ◌+◌, ◌≤◌, ◌<◌, Bool, ◌&&◌, ◌||◌, ◌⊎◌, ◌≡◌, if◌then◌else◌, ltb, arith, inl, inr, Bool-cases,
}
use hft_engine.Core.{Core}
use hft_engine.Analytics.Types.{Arithmetic, Trade, Position}
use hft_engine.Analytics.Calculator.{apply_quantity, extend, reduce, signed_quantity}
use hft_engine.Analytics.Properties.Exact.{balance, IsExact}
use hft_engine.Analytics.Properties.Ledger.{sides}

module _ (c : Core) (a : Arithmetic c) where
  -- The quantity behind apply_quantity, by the signs of the old quantity and of the trade's.
  pub quantity-apply_quantity :
      (p : Position c) (y price : c.Price) (p_up p_down y_up y_down : Bool)
      → c.price_lt (c.price_of 0) p.quantity ≡ p_up
      → c.price_lt p.quantity (c.price_of 0) ≡ p_down
      → c.price_lt (c.price_of 0) y ≡ y_up
      → c.price_lt y (c.price_of 0) ≡ y_down
      → (apply_quantity c a p y price).0.quantity ≡ (
          if (p_up && y_up || p_down && y_down) || (p_up && y_down || p_down && y_up)
          then c.price_add p.quantity y
          else y)
  unfolding apply_quantity extend reduce
  quantity-apply_quantity p y price p_up p_down y_up y_down h k l m = rw (h, k, l, m) (ground arith)

module _ {c : Core} {a : Arithmetic c} {limit : ℕ} (x : IsExact c a limit) where
  -- A purchase of `b'` or a sale of `s'` on a position that is `b - s`.
  pub apply-balance :
      (p : Position c) (y price : c.Price) (b s b' s' : ℕ)
      → p.quantity ≡ balance c b s
      → y ≡ balance c b' s'
      → ((0 < b') × (s' ≡ 0)) ⊎ ((0 < s') × (b' ≡ 0))
      → b + b' ≤ limit
      → s + s' ≤ limit
      → (apply_quantity c a p y price).0.quantity ≡ balance c (b + b') (s + s')
  apply-balance p y price b s b' s' e f d k l =
      rw
        (
          quantity-apply_quantity c a p y price (ltb s b) (ltb b s) (ltb s' b') (ltb b' s')
              (rw e (x.above_lem b s (omega arith) (omega arith)))
              (rw e (x.below_lem b s (omega arith) (omega arith)))
              (rw f (x.above_lem b' s' (omega arith) (omega arith)))
              (rw f (x.below_lem b' s' (omega arith) (omega arith))),
          e,
          f,
          x.add_lem b s b' s' k l,
        )
        (ground (arith, x.balance_eq b' s' (b + b') (s + s') (omega arith) (omega arith) k l))

  pub signed-balance :
      (t : Trade c)
      → 0 < t.quantity
      → t.quantity ≤ limit
      → signed_quantity c a t ≡ balance c (sides c t).0 (sides c t).1
  unfolding signed_quantity
  signed-balance t h k = elim (Bool-cases (c.is_buy t.side)) [
    | inl e ↦ rw e (x.whole_lem t.quantity k)
    | inr e ↦ rw e (x.negate_lem t.quantity h k)
  ]
