-- ===== src/OrderBook/Levels.antt =====
-- The levels of one side of a book stay sorted, without empty queues, and with totals that are the
-- sums of their queues.
use hft_engine.Base.{
  ℕ, ◌<◌, Bool, false, List, [], ◌∷◌, ◌++◌, ◌≡◌, ◌≢◌, inl, inr, arith, Bool-cases, Option-cases,
  ◌==◌,
}
use hft_engine.Core.{Core}
use hft_engine.Containers.OrderedMap
use hft_engine.Containers.OrderedMap.Laws.{
  IsOrder, IsSorted, Values, assign-IsSorted, erase-IsSorted, assign-Values, erase-Values,
  find-Values,
}
use hft_engine.Order.{Order, remaining_quantity}
use hft_engine.PriceLevel
use hft_engine.PriceLevel.{PriceLevel}
use hft_engine.PriceLevel.Balance.{
  IsBalanced, sum_quantities, add_order-IsBalanced, remove_order-IsBalanced,
  reduce_quantity-IsBalanced,
}
use hft_engine.OrderBook.{
  Level, Levels, level_or_new, add_to_levels, put_level, cancel_in_levels, fill_level,
  fill_in_levels,
}

pub record IsLive (m : ℕ) {Price : Type 0} (l : PriceLevel Price) : Type 0 where
  pub balanced : IsBalanced m l
  pub busy : PriceLevel.empty l ≡ false

pub record AreLevels (c : Core) (before : c.Price → c.Price → Bool) (ls : Levels c) : Type 0 where
  pub sorted : IsSorted before ls
  pub live : Values (IsLive c.quantity_mod) ls

new_level-IsBalanced : (m : ℕ) {Price : Type 0} (p : Price) → IsBalanced m (PriceLevel.new_level p)
unfolding PriceLevel.new_level sum_quantities
new_level-IsBalanced m p = record { total = omega arith; words = tt }

busy-append : (xs : List PriceLevel.OrderEntry) (e : PriceLevel.OrderEntry) → xs ++ e ∷ [] ≢ []
busy-append [] e h = cc
busy-append (x ∷ xs) e h = cc

busy-add_order :
    (m : ℕ) {Price : Type 0} (l : PriceLevel Price) (id q : ℕ)
    → PriceLevel.empty (PriceLevel.add_order m l id q) ≡ false
unfolding PriceLevel.empty PriceLevel.add_order
busy-add_order m l id q =
    ground (arith, busy-append l.order_queue (record { order_id = id; quantity = q }))

module _ (c : Core) {before : c.Price → c.Price → Bool} (o : IsOrder before) where
  level_or_new-IsBalanced :
      (ls : Levels c) (p : c.Price)
      → AreLevels c before ls
      → IsBalanced c.quantity_mod (level_or_new c before ls p)
  unfolding level_or_new
  level_or_new-IsBalanced ls p a = elim (Option-cases (OrderedMap.find before p ls)) [
    | inl e ↦ rw (e, level_or_new) (new_level-IsBalanced _ _)
    | inr (l, e) ↦
        rw (e, level_or_new) (find-Values before (IsLive c.quantity_mod) p ls l e a.live).balanced
  ]

  pub add_to_levels-AreLevels :
      (ls : Levels c) (x : Order c)
      → x.quantity < c.quantity_mod
      → AreLevels c before ls
      → AreLevels c before (add_to_levels c before ls x)
  unfolding add_to_levels
  add_to_levels-AreLevels ls x w a = record {
    sorted = assign-IsSorted o x.price _ ls a.sorted;
    live =
        assign-Values before (IsLive c.quantity_mod) x.price _ ls
          (record {
            balanced =
                add_order-IsBalanced c.quantity_mod _ x.id x.quantity w
                  (level_or_new-IsBalanced ls x.price a);
            busy = busy-add_order c.quantity_mod _ x.id x.quantity;
          })
          a.live;
  }

  put_level-AreLevels :
      (ls : Levels c) (p : c.Price) (l : Level c)
      → IsBalanced c.quantity_mod l
      → AreLevels c before ls
      → AreLevels c before (put_level c before ls p l)
  unfolding put_level
  put_level-AreLevels ls p l b a = elim (Bool-cases (PriceLevel.empty l)) [
    | inl e ↦ rw e (record {
      sorted = erase-IsSorted o p ls a.sorted;
      live = erase-Values before (IsLive c.quantity_mod) p ls a.live;
    })
    | inr e ↦ rw e (record {
      sorted = assign-IsSorted o p l ls a.sorted;
      live =
          assign-Values before (IsLive c.quantity_mod) p l ls (record { balanced = b; busy = e })
            a.live;
    })
  ]

  pub cancel_in_levels-AreLevels :
      (ls : Levels c) (x : Order c) (id : ℕ)
      → AreLevels c before ls
      → AreLevels c before (cancel_in_levels c before ls x id)
  unfolding cancel_in_levels
  cancel_in_levels-AreLevels ls x id a = elim (Option-cases (OrderedMap.find before x.price ls)) [
    | inl e ↦ rw (e, cancel_in_levels) a
    | inr (l, e) ↦
        rw (e, cancel_in_levels)
          (put_level-AreLevels ls x.price _
            (remove_order-IsBalanced c.quantity_mod l id _
              (find-Values before (IsLive c.quantity_mod) x.price ls l e a.live).balanced)
            a)
  ]

  fill_level-IsBalanced :
      (l : Level c) (x : Order c) (id q : ℕ)
      → IsBalanced c.quantity_mod l
      → IsBalanced c.quantity_mod (fill_level c l x id q)
  unfolding fill_level
  fill_level-IsBalanced l x id q b =
      let r = reduce_quantity-IsBalanced c.quantity_mod l id q b in
      elim (Bool-cases (remaining_quantity c x == 0)) [
        | inl e ↦ rw e (remove_order-IsBalanced c.quantity_mod _ id 0 r)
        | inr e ↦ rw e r
      ]

  pub fill_in_levels-AreLevels :
      (ls : Levels c) (x : Order c) (id q : ℕ)
      → AreLevels c before ls
      → AreLevels c before (fill_in_levels c before ls x id q)
  unfolding fill_in_levels
  fill_in_levels-AreLevels ls x id q a = elim (Option-cases (OrderedMap.find before x.price ls)) [
    | inl e ↦ rw (e, fill_in_levels) a
    | inr (l, e) ↦
        rw (e, fill_in_levels)
          (put_level-AreLevels ls x.price _
            (fill_level-IsBalanced l x id q
              (find-Values before (IsLive c.quantity_mod) x.price ls l e a.live).balanced)
            a)
  ]
