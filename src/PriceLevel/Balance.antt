-- ===== src/PriceLevel/Balance.antt =====
-- The running total of a price level against the sum of its queue.
use hft_engine.Base.{
  ℕ, ◌+◌, ◌%◌, ◌≤◌, ◌<◌, some, List, [], ◌∷◌, ◌++◌, ◌≡◌, sym, ◌∙◌, ap, inl, inr, arith, All,
  All-append, Option-cases, Bool-cases, leb,
}
use hft_engine.Base.Words.{wadd, wsub, wadd-mod, wsub-mod, wsub_exact}
use hft_engine.PriceLevel.{
  OrderEntry, PriceLevel, find_entry, erase_entry, reduce_entry, add_order, remove_order,
  reduce_quantity,
}

unfoldable pub sum_quantities : List OrderEntry → ℕ
sum_quantities [] = 0
sum_quantities (e ∷ es) = e.quantity + sum_quantities es

-- The total is the sum of the queue as a word, and each entry is a word.
pub record IsBalanced (m : ℕ) {Price : Type 0} (l : PriceLevel Price) : Type 0 where
  pub total : l.total_quantity ≡ sum_quantities l.order_queue % m
  pub words : All (λ e. e.quantity < m) l.order_queue

sum-append :
    (xs : List OrderEntry) (e : OrderEntry)
    → sum_quantities (xs ++ e ∷ []) ≡ sum_quantities xs + e.quantity
unfolding sum_quantities
sum-append [] e = omega arith
sum-append (x ∷ xs) e = omega (arith, sum-append xs e)

sum-erase :
    (id : ℕ) (es : List OrderEntry) (e : OrderEntry)
    → find_entry id es ≡ some e
    → sum_quantities es ≡ sum_quantities (erase_entry id es) + e.quantity
unfolding sum_quantities find_entry erase_entry
sum-erase id [] e h = absurd (ground arith)
sum-erase id (x ∷ es) e h = ground (arith, sum-erase id es e)

words-erase :
    (m id : ℕ) (es : List OrderEntry)
    → All (λ e. e.quantity < m) es
    → All (λ e. e.quantity < m) (erase_entry id es)
unfolding erase_entry
words-erase m id [] w = tt
words-erase m id (x ∷ es) w = ground (arith, words-erase m id es w.1)

words-find :
    (m id : ℕ) (es : List OrderEntry) (e : OrderEntry)
    → All (λ e. e.quantity < m) es
    → find_entry id es ≡ some e
    → e.quantity < m
unfolding find_entry
words-find m id [] e w h = absurd (ground arith)
words-find m id (x ∷ es) e w h = ground (arith, words-find m id es e w.1)

sum-reduce :
    (m id q : ℕ) (es : List OrderEntry) (e : OrderEntry)
    → All (λ e. e.quantity < m) es
    → find_entry id es ≡ some e
    → q ≤ e.quantity
    → sum_quantities es ≡ sum_quantities (reduce_entry m id q es) + q
unfolding sum_quantities find_entry reduce_entry
sum-reduce m id q [] e w h k = absurd (ground arith)
sum-reduce m id q (x ∷ es) e w h k =
    ground (arith, sum-reduce m id q es e w.1, wsub_exact m x.quantity q)

words-reduce :
    (m id q : ℕ) (es : List OrderEntry) (e : OrderEntry)
    → All (λ e. e.quantity < m) es
    → find_entry id es ≡ some e
    → q ≤ e.quantity
    → All (λ e. e.quantity < m) (reduce_entry m id q es)
unfolding find_entry reduce_entry
words-reduce m id q [] e w h k = tt
words-reduce m id q (x ∷ es) e w h k =
    ground (arith, words-reduce m id q es e w.1, wsub_exact m x.quantity q)

-- A subtraction from a balanced total, given the sum that is left.
total-wsub :
    (m total old left q : ℕ) → total ≡ old % m → old ≡ left + q → q < m → wsub m total q ≡ left % m
total-wsub m total old left q t s h =
    ap (λ x. wsub m x q) t
    ∙ wsub-mod m old q (omega arith) (omega arith)
    ∙ ap (λ x. x % m) (omega arith)

module _ (m : ℕ) {Price : Type 0} where
  pub add_order-IsBalanced :
      (l : PriceLevel Price) (id q : ℕ) → q < m → IsBalanced m l → IsBalanced m (add_order m l id q)
  unfolding add_order
  add_order-IsBalanced l id q h b = record {
    total =
        ap (λ t. wadd m t q) b.total
        ∙ wadd-mod m (sum_quantities l.order_queue) q
        ∙ ap (λ t. t % m) (sym (sum-append l.order_queue _));
    words = All-append _ l.order_queue _ b.words (h, tt);
  }

  pub remove_order-IsBalanced :
      (l : PriceLevel Price) (id q : ℕ) → IsBalanced m l → IsBalanced m (remove_order m l id q)
  unfolding remove_order
  remove_order-IsBalanced l id q b = elim (Option-cases (find_entry id l.order_queue)) [
    | inl e ↦ rw (e, remove_order) b
    | inr (x, e) ↦
        rw (e, remove_order)
          (record {
            total =
                total-wsub m _ _ _ _ b.total (sum-erase id l.order_queue x e)
                  (words-find m id l.order_queue x b.words e);
            words = words-erase m id l.order_queue b.words;
          })
  ]

  pub reduce_quantity-IsBalanced :
      (l : PriceLevel Price) (id q : ℕ) → IsBalanced m l → IsBalanced m (reduce_quantity m l id q)
  unfolding reduce_quantity
  reduce_quantity-IsBalanced l id q b = elim (Option-cases (find_entry id l.order_queue)) [
    | inl e ↦ rw (e, reduce_quantity) b
    | inr (x, e) ↦
        rw (e, reduce_quantity)
          (elim (Bool-cases (leb q x.quantity)) [
            | inl fits ↦ rw fits (record {
              total =
                  total-wsub m _ _ _ _ b.total
                    (sum-reduce m id q l.order_queue x b.words e (ground arith))
                    (ground (arith, words-find m id l.order_queue x b.words e));
              words = words-reduce m id q l.order_queue x b.words e (ground arith);
            })
            | inr big ↦ rw big b
          ])
  ]
