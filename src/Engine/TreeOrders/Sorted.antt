-- ===== src/Engine/TreeOrders/Sorted.antt =====
-- The orders of a price in the order of their times.
use mathlib.Core.List.{Perm}
use mathlib.Core.List.Perm
use hft_engine.Base.{ℕ, ◌<◌, arith, true, false, List, [], ◌∷◌, ◌≡◌, inl, inr, Bool-cases}
use hft_engine.Core.{Core}
use hft_engine.Order.{Order, remaining_quantity}
use hft_engine.OrderBook.{Orders}
use hft_engine.Engine.TreeOrders.{
  has_time_priority, insert_by_time, sort_by_time_priority, is_open_at, open_orders,
  get_segment_tree_orders_at_price,
}

-- What get_segment_tree_orders_at_price asks of an order.
pub record IsOpen (c : Core) (price : c.Price) (side : c.Side) (o : Order c) : Type 0 where
  pub at_price : c.price_eq o.price price ≡ true
  pub on_side : c.is_buy o.side ≡ c.is_buy side
  pub remains : 0 < remaining_quantity c o
  pub not_cancelled : c.status_eq o.status c.cancelled ≡ false
  pub not_filled : c.status_eq o.status c.filled ≡ false

-- The orders of a map that have the property, each once and no others, in the order of the map.
pub data Chosen {c : Core} (P : Order c → Type 0) : Orders c → List (Order c) → Type 0 where
  done : Chosen P [] []
  take :
      (id : ℕ) (o : Order c) (os : Orders c) (ps : List (Order c))
      → P o
      → Chosen P os ps
      → Chosen P ((id, o) ∷ os) (o ∷ ps)
  skip :
      (id : ℕ) (o : Order c) (os : Orders c) (ps : List (Order c))
      → (P o → ⊥)
      → Chosen P os ps
      → Chosen P ((id, o) ∷ os) ps

module _ (c : Core) where
  is_open_at-IsOpen :
      (price : c.Price) (side : c.Side) (o : Order c)
      → is_open_at c price side o ≡ true
      → IsOpen c price side o
  unfolding is_open_at
  is_open_at-IsOpen price side o h = record {
    at_price = ground arith;
    on_side = ground arith;
    remains = ground arith;
    not_cancelled = ground arith;
    not_filled = ground arith;
  }

  open_again :
      (price : c.Price) (side : c.Side) (o : Order c)
      → IsOpen c price side o
      → is_open_at c price side o ≡ true
  unfolding is_open_at
  open_again price side o h =
      ground (arith, h.at_price, h.on_side, h.remains, h.not_cancelled, h.not_filled)

  open_orders-Chosen :
      (price : c.Price) (side : c.Side) (os : Orders c)
      → Chosen (IsOpen c price side) os (open_orders c price side os)
  unfolding open_orders
  open_orders-Chosen price side [] = done
  open_orders-Chosen price side ((id, o) ∷ os) =
      let rest = open_orders-Chosen price side os in
      elim (Bool-cases (is_open_at c price side o)) [
        | inl h ↦ rw (open_orders, h) (take id o os _ (is_open_at-IsOpen price side o h) rest)
        | inr h ↦
            rw (open_orders, h)
              (skip id o os _ (λ k. absurd (ground (arith, h, open_again price side o k))) rest)
      ]

module _ (c : Core)
    (asym : (a b : c.TimePoint) → c.time_lt a b ≡ true → c.time_lt b a ≡ false) where
  -- The first order, if there is one, does not have an earlier time than `o`.
  abbrev IsAfter : Order c → List (Order c) → Type 0
  IsAfter o [] = Unit
  IsAfter o (p ∷ ps) = c.time_lt p.timestamp o.timestamp ≡ false

  -- No order has an earlier time than the one before it.
  abbrev pub IsByTime : List (Order c) → Type 0
  IsByTime [] = Unit
  IsByTime (o ∷ os) = IsAfter o os × IsByTime os

  insert_by_time-IsAfter :
      (p o : Order c) (os : List (Order c))
      → c.time_lt p.timestamp o.timestamp ≡ true
      → IsAfter p os
      → IsAfter p (insert_by_time c o os)
  unfolding insert_by_time
  insert_by_time-IsAfter p o [] h k = asym p.timestamp o.timestamp h
  insert_by_time-IsAfter p o (r ∷ rs) h k = elim (Bool-cases (has_time_priority c r o)) [
    | inl e ↦ rw (insert_by_time, e) k
    | inr e ↦ rw (insert_by_time, e) (asym p.timestamp o.timestamp h)
  ]

  insert_by_time-IsByTime :
      (o : Order c) (os : List (Order c)) → IsByTime os → IsByTime (insert_by_time c o os)
  unfolding insert_by_time has_time_priority
  insert_by_time-IsByTime o [] h = (tt, tt)
  insert_by_time-IsByTime o (p ∷ ps) h = elim (Bool-cases (has_time_priority c p o)) [
    | inl e ↦
        rw (insert_by_time, e)
          (insert_by_time-IsAfter p o ps e h.0, insert_by_time-IsByTime o ps h.1)
    | inr e ↦ rw (insert_by_time, e) (e, h)
  ]

  insert_by_time-Perm : (o : Order c) (os : List (Order c)) → Perm (insert_by_time c o os) (o ∷ os)
  unfolding insert_by_time
  insert_by_time-Perm o [] = Perm.refl (o ∷ [])
  insert_by_time-Perm o (p ∷ ps) = elim (Bool-cases (has_time_priority c p o)) [
    | inl e ↦
        rw (insert_by_time, e)
          (Perm.trans (Perm.cons p (insert_by_time-Perm o ps)) (Perm.swap o p ps))
    | inr e ↦ rw (insert_by_time, e) (Perm.refl (o ∷ p ∷ ps))
  ]

  sort_by_time_priority_lem :
      (os : List (Order c))
      → IsByTime (sort_by_time_priority c os) × Perm (sort_by_time_priority c os) os
  unfolding sort_by_time_priority
  sort_by_time_priority_lem [] = (tt, Perm.refl [])
  sort_by_time_priority_lem (o ∷ os) =
      let (sorted, same) = sort_by_time_priority_lem os in
      (
        insert_by_time-IsByTime o (sort_by_time_priority c os) sorted,
        Perm.trans (insert_by_time-Perm o (sort_by_time_priority c os)) (Perm.cons o same),
      )

  -- If no two times are each before the other, get_segment_tree_orders_at_price gives exactly the
  -- stored orders of the price and the side that have a quantity left and are neither cancelled nor
  -- filled, each once, and none has an earlier time than the one before it.
  pub get_segment_tree_orders_at_price_lem :
      (os : Orders c) (price : c.Price) (side : c.Side)
      → IsByTime (get_segment_tree_orders_at_price c os price side)
        × ((ps : List (Order c)) × Chosen (IsOpen c price side) os ps
            × Perm (get_segment_tree_orders_at_price c os price side) ps)
  unfolding get_segment_tree_orders_at_price
  get_segment_tree_orders_at_price_lem os price side =
      let (sorted, same) = sort_by_time_priority_lem (open_orders c price side os) in
      (sorted, (open_orders c price side os, open_orders-Chosen c price side os, same))
