-- ===== src/Containers/OrderedMap.antt =====
-- std::map with a comparator: an association list in the comparator's order. Two keys are the same
-- key when neither comes before the other.
pub mod Laws
use hft_engine.Base.{Bool, Option, none, some, List, [], ◌∷◌, if◌then◌else◌}

module _ {ℓ κ} {K : Type ℓ} {V : Type κ} (before : K → K → Bool) where
  -- m.find(k)
  unfoldable pub find : K → List (K × V) → Option V
  find k [] = none
  find k ((j, v) ∷ m) =
      let rest = find k m in if before j k then rest else if before k j then none else some v

  -- m[k] = v: an equal key that stands there is kept.
  unfoldable pub assign : K → V → List (K × V) → List (K × V)
  assign k v [] = (k, v) ∷ []
  assign k v ((j, w) ∷ m) =
      let rest = assign k v m in
      if before j k then (j, w) ∷ rest else if before k j then (k, v) ∷ (j, w) ∷ m else (j, v) ∷ m

  -- m.erase(m.find(k)), for a key that is there
  unfoldable pub erase : K → List (K × V) → List (K × V)
  erase k [] = []
  erase k ((j, w) ∷ m) =
      let rest = erase k m in
      if before j k then (j, w) ∷ rest else if before k j then (j, w) ∷ m else m
