-- ===== src/Samples.antt =====
-- Concrete stand-ins for what the repository does not hold, for the examples: a tree of price levels
-- and a tree of quantities as lists in ascending order of prices, and a queue with room for two.
use hft_engine.Base.{
  ℕ, ◌-◌, Bool, true, false, Option, none, some, List, [], ◌∷◌, ◌++◌, take, length, ltb, ◌==◌,
  if◌then◌else◌, ◌≡◌, ◌⊎◌, inl, inr, Bool-cases, sym, ap,
}
use hft_engine.Core.{SegmentTree, BookSegmentTree, LockFreeQueue, IsQueue}
use hft_engine.Core.Laws.{whole}
use hft_engine.Order.{Order}
use hft_engine.PriceLevel.{PriceLevel}
use hft_engine.Engine.Types.{Environment}

abbrev pub put {ℓ} : {V : Type ℓ} → ℕ → V → List (ℕ × V) → List (ℕ × V)
put k v [] = (k, v) ∷ []
put k v ((j, w) ∷ m) =
    if ltb j k then (j, w) ∷ put k v m else if j == k then (k, v) ∷ m else (k, v) ∷ (j, w) ∷ m

abbrev pub get {ℓ} : {V : Type ℓ} → ℕ → List (ℕ × V) → Option V
get k [] = none
get k ((j, w) ∷ m) = if j == k then some w else get k m

abbrev pub low_key {ℓ} : {V : Type ℓ} → List (ℕ × V) → ℕ
low_key [] = 0
low_key ((k, v) ∷ m) = k

abbrev pub high_key {ℓ} : {V : Type ℓ} → List (ℕ × V) → ℕ
high_key [] = 0
high_key ((k, v) ∷ []) = k
high_key (p ∷ q ∷ m) = high_key (q ∷ m)

abbrev pub list_levels : SegmentTree ℕ (PriceLevel ℕ)
list_levels = record {
  Tree = List (ℕ × PriceLevel ℕ);
  empty_tree = [];
  tree_best_bid = high_key;
  tree_best_ask = low_key;
  get_price_level = λ t p. get p t;
  update_price_level = λ t p l. put p l t;
  insert_price_level = λ t p l. put p l t;
}

-- Takes a quantity off a price, and the price away once nothing is left.
abbrev pub lower : ℕ → ℕ → List (ℕ × ℕ) → List (ℕ × ℕ)
lower p q [] = []
lower p q ((j, w) ∷ m) =
    if j == p then (if ltb q w then (j, w - q) ∷ m else m) else (j, w) ∷ lower p q m

abbrev pub raise : ℕ → ℕ → List (ℕ × ℕ) → List (ℕ × ℕ)
raise p q m = put p q m

-- The bids and the asks; `true` is the side of the bids.
abbrev pub list_book : BookSegmentTree ℕ Bool
list_book = record {
  Tree = List (ℕ × ℕ) × List (ℕ × ℕ);
  empty_tree = ([], []);
  best_bid = λ t. high_key t.0;
  best_ask = λ t. low_key t.1;
  bid_depth = λ t n. take n t.0;
  ask_depth = λ t n. take n t.1;
  add_order = λ t p q s. if s then (raise p q t.0, t.1) else (t.0, raise p q t.1);
  remove_order = λ t p q s. if s then (lower p q t.0, t.1) else (t.0, lower p q t.1);
}

abbrev pub short_queue : {A : Type 0} → LockFreeQueue A
short_queue {A = A} = record {
  Queue = List A;
  empty_queue = [];
  enqueue = λ q o. if ltb (length q) 2 then (true, q ++ o ∷ []) else (false, q);
  dequeue = λ q. elim q [ [] ↦ none | o ∷ os ↦ some (o, os) ];
}

abbrev IsIn : {A : Type 0} → A → List A → Type 0
IsIn a [] = ⊥
IsIn a (x ∷ xs) = (a ≡ x) ⊎ IsIn a xs

last-IsIn : {A : Type 0} (a x : A) (xs : List A) → IsIn a (xs ++ x ∷ []) → IsIn a xs ⊎ (a ≡ x)
last-IsIn a x [] i = elim i [ inl e ↦ inr e | inr n ↦ absurd n ]
last-IsIn a x (y ∷ xs) (inl e) = inl (inl e)
last-IsIn a x (y ∷ xs) (inr i) = elim (last-IsIn a x xs i) [ inl j ↦ inl (inr j) | inr e ↦ inr e ]

enqueue-IsIn :
    {A : Type 0} (a x : A) (s : List A) → IsIn a (short_queue.enqueue s x).1 → IsIn a s ⊎ (a ≡ x)
enqueue-IsIn a x s i = elim (Bool-cases (ltb (length s) 2)) [
  | inl e ↦ last-IsIn a x s (rw e at i)
  | inr e ↦ inl (rw e at i)
]

dequeue-IsIn :
    {A : Type 0} (x : A) (s t : List A)
    → short_queue.dequeue s ≡ some (x, t)
    → IsIn x s × ((a : A) → IsIn a t → IsIn a s)
dequeue-IsIn x [] t h = absurd (cc)
dequeue-IsIn x (y ∷ s) t h =
    let front : y ≡ x = ap (λ o. elim o [ none ↦ y | some p ↦ p.0 ]) h in
    let rest : s ≡ t = ap (λ o. elim o [ none ↦ s | some p ↦ p.1 ]) h in
    (inl (sym front), λ a i. inr (rw rest i))

pub short_queue-IsQueue : {A : Type 0} → IsQueue (short_queue {A = A})
short_queue-IsQueue {A = A} = record {
  In = IsIn;
  in_empty = λ a i. i;
  in_enqueue = enqueue-IsIn;
  in_dequeue = dequeue-IsIn;
}

abbrev pub sample : Environment whole
sample = record { levels = list_levels; trees = list_book; queue = short_queue }

-- A limit order for `quantity` at `price`, a buy if `side` is true.
abbrev pub limit_order : ℕ → Bool → ℕ → ℕ → Order whole
limit_order id side price quantity = record {
  id = id;
  symbol = 1;
  side = side;
  type = 0;
  price = price;
  quantity = quantity;
  filled_quantity = 0;
  status = 0;
  timestamp = 0;
}
