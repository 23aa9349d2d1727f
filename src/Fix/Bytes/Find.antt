-- ===== src/Fix/Bytes/Find.antt =====
-- What a found position says, also once more bytes have arrived.
use hft_engine.Base.{
  ℕ, zero, suc, ◌+◌, ◌-◌, ◌≤◌, ◌<◌, true, some, [], ◌∷◌, ◌++◌, ◌≡◌, refl, ap, arith, length, take,
}
use hft_engine.Fix.Bytes.{Bytes, begins, drop, find_at, find_from}

pub length-drop : (n : ℕ) (s : Bytes) → length (drop n s) ≡ length s - n
unfolding drop
length-drop zero s = omega arith
length-drop (suc n) [] = omega arith
length-drop (suc n) (b ∷ s) = omega (arith, length-drop n s)

drop-append : (n : ℕ) (s t : Bytes) → n ≤ length s → drop n (s ++ t) ≡ drop n s ++ t
unfolding drop
drop-append zero s t h = refl
drop-append (suc n) [] t h = absurd (omega arith)
drop-append (suc n) (b ∷ s) t h = drop-append n s t (omega arith)

take-append : (n : ℕ) (s t : Bytes) → n ≤ length s → take n (s ++ t) ≡ take n s
take-append zero s t h = refl
take-append (suc n) [] t h = absurd (omega arith)
take-append (suc n) (b ∷ s) t h = ap (λ x. b ∷ x) (take-append n s t (omega arith))

-- The bytes from `start` on, `n` of them, do not depend on what comes later.
pub take-drop-append :
    (n start : ℕ) (s t : Bytes)
    → start + n ≤ length s
    → take n (drop start (s ++ t)) ≡ take n (drop start s)
take-drop-append n start s t h =
    rw (drop-append start s t (omega arith))
      (take-append n (drop start s) t (omega (arith, length-drop start s)))

begins-length : (p s : Bytes) → begins p s ≡ true → length p ≤ length s
unfolding begins
begins-length [] s h = omega arith
begins-length (a ∷ p) [] h = cc
begins-length (a ∷ p) (b ∷ s) h = ground (arith, begins-length p s)

begins-append : (p s t : Bytes) → length p ≤ length s → begins p (s ++ t) ≡ begins p s
unfolding begins
begins-append [] s t h = refl
begins-append (a ∷ p) [] t h = absurd (omega arith)
begins-append (a ∷ p) (b ∷ s) t h = ground (arith, begins-append p s t)

find_at-length :
    (p : Bytes) (i : ℕ) (s : Bytes) (k : ℕ) → find_at p i s ≡ some k → length p ≤ length s
unfolding find_at
find_at-length p i [] k h = cc
find_at-length p i (b ∷ s) k h =
    ground (arith, begins-length p (b ∷ s), find_at-length p (i + 1) s k)

find_at-append :
    (p : Bytes) (i : ℕ) (s t : Bytes) (k : ℕ)
    → find_at p i s ≡ some k
    → find_at p i (s ++ t) ≡ some k
unfolding find_at
find_at-append p i [] t k h = cc
find_at-append p i (b ∷ s) t k h =
    let fits = find_at-length p i (b ∷ s) k h in
    ground (arith, begins-append p (b ∷ s) t fits, find_at-append p (i + 1) s t k)

find_at_bounds :
    (p : Bytes) (i : ℕ) (s : Bytes) (k : ℕ)
    → find_at p i s ≡ some k
    → (i ≤ k) × (k + length p ≤ i + length s) × (k < i + length s)
unfolding find_at
find_at_bounds p i [] k h = cc
find_at_bounds p i (b ∷ s) k h =
    ground (arith, begins-length p (b ∷ s), find_at_bounds p (i + 1) s k)

-- What is found at the front is there.
pub found_front : (p s : Bytes) → find_from p s 0 ≡ some 0 → begins p s ≡ true
unfolding find_from find_at drop
found_front p [] h = cc
found_front p (b ∷ s) h = ground (arith, find_at_bounds p 1 s 0)

pub find_from_bounds :
    (p s : Bytes) (from k : ℕ)
    → find_from p s from ≡ some k
    → (from ≤ k) × (k + length p ≤ length s) × (k < length s)
unfolding find_from
find_from_bounds p s from k h =
    let b = find_at_bounds p from (drop from s) k h in omega (arith, b, length-drop from s)

-- A position that was found stays the first one when bytes are added.
pub find_from-append :
    (p s t : Bytes) (from k : ℕ) → find_from p s from ≡ some k → find_from p (s ++ t) from ≡ some k
unfolding find_from
find_from-append p s t from k h =
    let b = find_from_bounds p s from k h in
    rw (drop-append from s t (omega (arith, b))) (find_at-append p from (drop from s) t k h)
