-- ===== src/PriceLevel/Priority.antt =====
-- Time priority: what the operations of a price level do to the order of its queue.
use hft_engine.Base.{ℕ, ◌≤◌, ◌<◌, ◌-◌, some, List, [], ◌∷◌, ◌++◌, ◌≡◌, ◌≢◌, refl, arith, All}
use hft_engine.Base.Words.{wsub, wsub_exact}
use hft_engine.PriceLevel.{
  OrderEntry, PriceLevel, find_entry, erase_entry, reduce_entry, add_order, remove_order,
  reduce_quantity,
}

-- No entry of the list has the id.
abbrev pub Avoids : ℕ → List OrderEntry → Type 0
Avoids id = All (λ e. e.order_id ≢ id)

find-append :
    (id : ℕ) (xs ys : List OrderEntry) (e : OrderEntry)
    → Avoids id xs
    → e.order_id ≡ id
    → find_entry id (xs ++ e ∷ ys) ≡ some e
unfolding find_entry
find-append id [] ys e h k = ground arith
find-append id (x ∷ xs) ys e h k = ground (arith, find-append id xs ys e h.1)

erase-append :
    (id : ℕ) (xs ys : List OrderEntry) (e : OrderEntry)
    → Avoids id xs
    → e.order_id ≡ id
    → erase_entry id (xs ++ e ∷ ys) ≡ xs ++ ys
unfolding erase_entry
erase-append id [] ys e h k = ground arith
erase-append id (x ∷ xs) ys e h k = ground (arith, erase-append id xs ys e h.1)

reduce-append :
    (m id q : ℕ) (xs ys : List OrderEntry) (e : OrderEntry)
    → Avoids id xs
    → e.order_id ≡ id
    → reduce_entry m id q (xs ++ e ∷ ys) ≡ xs ++ record e { quantity = wsub m e.quantity q } ∷ ys
unfolding reduce_entry
reduce-append m id q [] ys e h k = ground arith
reduce-append m id q (x ∷ xs) ys e h k = ground (arith, reduce-append m id q xs ys e h.1)

module _ (m : ℕ) {Price : Type 0} where
  -- On the oldest entry `e` of an order, `remove_order` takes that entry alone out of the queue, and
  -- `reduce_quantity` by at most what `e` holds lowers it in its place; a new order goes last.
  pub time_priority :
      (l : PriceLevel Price) (xs ys : List OrderEntry) (e : OrderEntry) (q id : ℕ)
      → l.order_queue ≡ xs ++ e ∷ ys
      → Avoids e.order_id xs
      → e.quantity < m
      → q ≤ e.quantity
      → ((remove_order m l e.order_id q).order_queue ≡ xs ++ ys)
        × ((reduce_quantity m l e.order_id q).order_queue
            ≡ xs ++ record e { quantity = e.quantity - q } ∷ ys)
        × ((add_order m l id q).order_queue
            ≡ (xs ++ e ∷ ys) ++ record { order_id = id; quantity = q } ∷ [])
  unfolding remove_order reduce_quantity add_order
  time_priority l xs ys e q id h a w k =
      let f : find_entry e.order_id l.order_queue ≡ some e =
        rw h (find-append e.order_id xs ys e a refl) in
      let g : erase_entry e.order_id l.order_queue ≡ xs ++ ys =
        rw h (erase-append e.order_id xs ys e a refl) in
      let r : reduce_entry m e.order_id q l.order_queue
          ≡ xs ++ record e { quantity = wsub m e.quantity q } ∷ ys =
        rw h (reduce-append m e.order_id q xs ys e a refl) in
      (ground (arith, f, g), ground (arith, f, r, wsub_exact m e.quantity q), ground (arith, h))
