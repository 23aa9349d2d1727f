-- ===== src/Containers/HashMap.antt =====
-- std::unordered_map: an association list with one entry for a key. The order of iteration, which
-- the standard leaves open, is the order of the list.
use hft_engine.Containers.OrderedMap.Laws.{Values}
use hft_engine.Base.{
  ◌<◌, ◌≤◌, Bool, true, false, Option, none, some, List, [], ◌∷◌, ◌≡◌, refl, ap, ◌∙◌, ◌↔◌, or_else,
  if◌then◌else◌, arith, length, Bool-cases, inl, inr,
}

module _ {ℓ κ} {K : Type ℓ} {V : Type κ} (eq : K → K → Bool) where
  unfoldable pub find : K → List (K × V) → Option V
  find k [] = none
  find k ((j, v) ∷ m) = if eq j k then some v else find k m

  unfoldable pub assign : K → V → List (K × V) → List (K × V)
  assign k v [] = (k, v) ∷ []
  assign k v ((j, w) ∷ m) = if eq j k then (j, v) ∷ m else (j, w) ∷ assign k v m

  unfoldable pub erase : K → List (K × V) → List (K × V)
  erase k [] = []
  erase k ((j, w) ∷ m) = let rest = erase k m in if eq j k then rest else (j, w) ∷ rest

module _ {ℓ κ ι} {K : Type ℓ} {V : Type κ} (eq : K → K → Bool) (P : V → Type ι) where
  pub assign-Values :
      (k : K) (v : V) (m : List (K × V)) → P v → Values P m → Values P (assign eq k v m)
  unfolding assign
  assign-Values k v [] p h = (p, tt)
  assign-Values k v ((j, w) ∷ m) p h = elim (Bool-cases (eq j k)) [
    | inl e ↦ rw e (p, h.1)
    | inr e ↦ rw e (h.0, assign-Values k v m p h.1)
  ]

  pub find-Values : (k : K) (m : List (K × V)) (v : V) → find eq k m ≡ some v → Values P m → P v
  unfolding find
  find-Values k [] v e h = absurd (ground arith)
  find-Values k ((j, w) ∷ m) v e h = ground (arith, find-Values k m v)

module _ {ℓ κ} {K : Type ℓ} {V : Type κ} (eq : K → K → Bool)
    (eq_iff : (a b : K) → (eq a b ≡ true) ↔ (a ≡ b)) where
  pub find-assign :
      (j k : K) (v : V) (m : List (K × V))
      → find eq j (assign eq k v m) ≡ (if eq k j then some v else find eq j m)
  unfolding find assign
  find-assign j k v [] = ground arith
  find-assign j k v ((i, w) ∷ m) =
      ground (arith, find-assign j k v m, eq_iff i k, eq_iff i j, eq_iff k j)

  -- Reading with a default behind an assignment.
  pub or_else-assign :
      (d : V) (j k : K) (v : V) (m : List (K × V))
      → or_else d (find eq j (assign eq k v m)) ≡ (if eq k j then v else or_else d (find eq j m))
  or_else-assign d j k v m = ap (or_else d) (find-assign j k v m) ∙ split (eq k j)
    where
      split :
          (b : Bool)
          → or_else d (if b then some v else find eq j m)
            ≡ (if b then v else or_else d (find eq j m))
      split true = refl
      split false = refl

  pub find-erase :
      (j k : K) (m : List (K × V))
      → find eq j (erase eq k m) ≡ (if eq k j then none else find eq j m)
  unfolding find erase
  find-erase j k [] = ground arith
  find-erase j k ((i, w) ∷ m) = ground (arith, find-erase j k m, eq_iff i k, eq_iff i j, eq_iff k j)

  pub length-erase-le : (k : K) (m : List (K × V)) → length (erase eq k m) ≤ length m
  unfolding erase
  length-erase-le k [] = omega arith
  length-erase-le k ((i, w) ∷ m) = ground (arith, length-erase-le k m)

  -- Erasing a key that is there makes the map shorter.
  pub length-erase-lt :
      (k : K) (v : V) (m : List (K × V)) → find eq k m ≡ some v → length (erase eq k m) < length m
  unfolding find erase
  length-erase-lt k v [] h = absurd (ground arith)
  length-erase-lt k v ((i, w) ∷ m) h = ground (arith, length-erase-lt k v m, length-erase-le k m)
