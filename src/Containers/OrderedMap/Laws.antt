-- ===== src/Containers/OrderedMap/Laws.antt =====
-- The laws of std::map, for a comparator that is a strict total order.
use hft_engine.Base.{
  Bool, true, false, none, some, List, [], ◌∷◌, ◌≡◌, refl, if◌then◌else◌, arith, not, ◌&&◌, inl,
  inr, Bool-cases,
}
use hft_engine.Containers.OrderedMap.{find, assign, erase}

pub record IsOrder {ℓ} {K : Type ℓ} (before : K → K → Bool) : Type ℓ where
  pub irrefl : (a : K) → before a a ≡ false
  pub trans : (a b d : K) → before a b ≡ true → before b d ≡ true → before a d ≡ true
  pub connected : (a b : K) → before a b ≡ false → before b a ≡ false → a ≡ b

abbrev pub same_key {ℓ} : {K : Type ℓ} → (K → K → Bool) → K → K → Bool
same_key before a b = not (before a b) && not (before b a)

module _ {ℓ κ} {K : Type ℓ} {V : Type κ} (before : K → K → Bool) where
  -- `k` comes before the first key.
  abbrev pub Starts : K → List (K × V) → Type 0
  Starts k [] = Unit
  Starts k ((j, v) ∷ m) = before k j ≡ true

  abbrev pub IsSorted : List (K × V) → Type 0
  IsSorted [] = Unit
  IsSorted ((j, v) ∷ m) = Starts j m × IsSorted m

module _ {ℓ κ} {K : Type ℓ} {V : Type κ} {before : K → K → Bool} (o : IsOrder before) where
  pub assign-Starts :
      (i k : K) (v : V) (m : List (K × V))
      → before i k ≡ true
      → Starts before i m
      → Starts before i (assign before k v m)
  unfolding assign
  assign-Starts i k v [] h s = h
  assign-Starts i k v ((j, w) ∷ m) h s = ground arith

  pub assign-IsSorted :
      (k : K) (v : V) (m : List (K × V)) → IsSorted before m → IsSorted before (assign before k v m)
  unfolding assign
  assign-IsSorted k v [] s = (tt, tt)
  assign-IsSorted k v ((j, w) ∷ m) s =
      ground (arith, assign-IsSorted k v m s.1, assign-Starts j k v m)

  pub erase-Starts :
      (i k : K) (m : List (K × V))
      → IsSorted before m
      → Starts before i m
      → Starts before i (erase before k m)
  unfolding erase
  erase-Starts i k [] s h = tt
  erase-Starts i k ((j, w) ∷ []) s h = ground arith
  erase-Starts i k ((j, w) ∷ (j', w') ∷ m) s h = ground (arith, o.trans i j j')

  pub erase-IsSorted :
      (k : K) (m : List (K × V)) → IsSorted before m → IsSorted before (erase before k m)
  unfolding erase
  erase-IsSorted k [] s = tt
  erase-IsSorted k ((j, w) ∷ m) s =
      ground (arith, erase-IsSorted k m s.1, erase-Starts j k m s.1 s.0)

  -- Nothing is found before the first key.
  pub find-Starts : (k : K) (m : List (K × V)) → Starts before k m → find before k m ≡ none
  unfolding find
  find-Starts k [] s = refl
  find-Starts k ((j, v) ∷ m) s = ground (arith, o.trans k j k, o.irrefl k)

  pub find-assign :
      (j k : K) (v : V) (m : List (K × V))
      → IsSorted before m
      → find before j (assign before k v m)
        ≡ (if same_key before j k then some v else find before j m)
  unfolding find assign
  find-assign j k v [] s = ground arith
  find-assign j k v ((i, w) ∷ m) s = ground (
    arith,
    find-assign j k v m s.1,
    o.connected j k,
    o.connected i k,
    o.connected i j,
    o.trans i k j,
    o.trans k i j,
    o.trans j k i,
    o.trans j i k,
    o.trans i j k,
    o.trans k j i,
    o.irrefl i,
    o.irrefl j,
    o.irrefl k,
  )

-- All stored values have `P`.
abbrev pub Values {ℓ κ ι} : {K : Type ℓ} {V : Type κ} → (V → Type ι) → List (K × V) → Type ι
Values P [] = Unit
Values P ((k, v) ∷ m) = P v × Values P m

module _ {ℓ κ ι} {K : Type ℓ} {V : Type κ} (before : K → K → Bool) (P : V → Type ι) where
  pub assign-Values :
      (k : K) (v : V) (m : List (K × V)) → P v → Values P m → Values P (assign before k v m)
  unfolding assign
  assign-Values k v [] p h = (p, tt)
  assign-Values k v ((j, w) ∷ m) p h = elim (Bool-cases (before j k)) [
    | inl e ↦ rw e (h.0, assign-Values k v m p h.1)
    | inr e ↦ rw e (elim (Bool-cases (before k j)) [ inl d ↦ rw d (p, h) | inr d ↦ rw d (p, h.1) ])
  ]

  pub erase-Values : (k : K) (m : List (K × V)) → Values P m → Values P (erase before k m)
  unfolding erase
  erase-Values k [] h = tt
  erase-Values k ((j, w) ∷ m) h = elim (Bool-cases (before j k)) [
    | inl e ↦ rw e (h.0, erase-Values k m h.1)
    | inr e ↦ rw e (elim (Bool-cases (before k j)) [ inl d ↦ rw d h | inr d ↦ rw d h.1 ])
  ]

  pub find-Values : (k : K) (m : List (K × V)) (v : V) → find before k m ≡ some v → Values P m → P v
  unfolding find
  find-Values k [] v e h = absurd (ground arith)
  find-Values k ((j, w) ∷ m) v e h = ground (arith, find-Values k m v)

module _ {ℓ κ} {K : Type ℓ} {V : Type κ} {before : K → K → Bool} (o : IsOrder before) where
  -- Nothing that is found comes before the first key, and the first key is found.
  pub find_first :
      (i k : K) (v w : V) (m : List (K × V))
      → find before i ((k, v) ∷ m) ≡ some w
      → (before i k ≡ false) × (find before k ((k, v) ∷ m) ≡ some v)
  unfolding find
  find_first i k v w m h = ground (arith, o.irrefl k, find-Starts o i ((k, v) ∷ m))
