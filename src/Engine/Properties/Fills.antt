-- ===== src/Engine/Properties/Fills.antt =====
-- What a list of fills may look like for an incoming order.
use hft_engine.Base.{ℕ, ◌+◌, ◌-◌, ◌≤◌, ◌<◌, Bool, false, List, [], ◌∷◌, ◌++◌, ◌≡◌, arith}
use hft_engine.Base.Words.{wadd, wsub_exact, wadd_exact}
use hft_engine.Core.{Core}
use hft_engine.Order.{Order, remaining_quantity}
use hft_engine.Engine.Types.{Fill}
use hft_engine.Engine.Matching.{is_worse, add_filled}

-- An order that is not overfilled, with a word for its quantity.
pub record IsFillable (c : Core) (o : Order c) : Type 0 where
  pub not_over : o.filled_quantity ≤ o.quantity
  pub word : o.quantity < c.quantity_mod

-- A fill of the order `o` at a price that is no worse than its limit, and not 0.0.
pub record IsWithin (c : Core) (buying : Bool) (o : Order c) (f : Fill c) : Type 0 where
  pub aggressor : f.aggressive_order_id ≡ o.id
  pub limit : is_worse c buying o.price f.price ≡ false
  pub priced : c.price_eq f.price (c.price_of 0) ≡ false

module _ (c : Core) where
  unfoldable pub total_filled : List (Fill c) → ℕ
  total_filled [] = 0
  total_filled (f ∷ fs) = f.quantity + total_filled fs

  pub total_filled-append :
      (fs : List (Fill c)) (f : Fill c) → total_filled (fs ++ f ∷ []) ≡ total_filled fs + f.quantity
  unfolding total_filled
  total_filled-append [] f = omega arith
  total_filled-append (x ∷ fs) f = omega (arith, total_filled-append fs f)

  pub remaining_exact :
      (o : Order c) → IsFillable c o → remaining_quantity c o ≡ o.quantity - o.filled_quantity
  unfolding remaining_quantity
  remaining_exact o i = wsub_exact c.quantity_mod o.quantity o.filled_quantity i.not_over i.word

  -- A fill of at most what is left is counted without wrapping, and leaves the order fillable.
  pub add_filled_exact :
      (o : Order c) (q : ℕ)
      → IsFillable c o
      → q ≤ remaining_quantity c o
      → (wadd c.quantity_mod o.filled_quantity q ≡ o.filled_quantity + q)
        × IsFillable c (add_filled c o q)
  add_filled_exact o q i h =
      ground (arith, remaining_exact o i, wadd_exact c.quantity_mod o.filled_quantity q)
