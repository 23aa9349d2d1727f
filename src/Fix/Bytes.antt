-- ===== src/Fix/Bytes.antt =====
-- Texts as lists of bytes, with the functions of std::string and std::stoul that the parser calls.
pub mod Find
pub mod Numbers
use hft_engine.Base.{
  ℕ, zero, suc, ◌+◌, ◌-◌, ◌*◌, ◌/◌, ◌%◌, ◌^◌, Bool, true, false, ◌&&◌, ◌||◌, Option, none, some,
  List, [], ◌∷◌, ◌++◌, ◌==◌, ltb, leb, if◌then◌else◌, length,
}

abbrev pub Bytes : Type 0
Bytes = List ℕ

-- FIX_SOH and FIX_EQUALS
abbrev pub soh : ℕ
soh = 1

abbrev pub equals : ℕ
equals = b'='

abbrev pub is_empty {ℓ} : {A : Type ℓ} → List A → Bool
is_empty [] = true
is_empty (b ∷ bs) = false

-- s == t
unfoldable pub same_bytes : Bytes → Bytes → Bool
same_bytes [] [] = true
same_bytes (a ∷ s) (b ∷ t) = a == b && same_bytes s t
same_bytes _ _ = false

unfoldable pub drop : ℕ → Bytes → Bytes
drop zero s = s
drop (suc n) [] = []
drop (suc n) (b ∷ s) = drop n s

-- The digits of `n` in front of `rest`; a uint64_t has at most twenty.
unfoldable pub digits : ℕ → ℕ → Bytes → Bytes
digits zero n rest = rest
digits (suc fuel) n rest =
    let more = digits fuel (n / 10) ((48 + n % 10) ∷ rest) in
    if ltb n 10 then (48 + n) ∷ rest else more

-- std::to_string of an unsigned number
unfoldable pub to_string : ℕ → Bytes
unfolding digits
to_string n = digits 20 n []

-- std::isspace in the "C" locale
unfoldable pub is_space : ℕ → Bool
is_space b = b == 32 || (leb 9 b && leb b 13)

unfoldable pub is_digit : ℕ → Bool
is_digit b = leb 48 b && leb b 57

-- The value of the leading digits, after those that are read into `n`.
unfoldable pub read_digits : ℕ → Bytes → ℕ
unfolding is_digit
read_digits n [] = n
read_digits n (b ∷ s) =
    let more = read_digits (n * 10 + (b - 48)) s in if is_digit b then more else n

-- `none` is an exception: no digit, or a value beyond unsigned long.
unfoldable pub read_unsigned : Bytes → Option ℕ
unfolding is_digit read_digits
read_unsigned [] = none
read_unsigned (b ∷ s) =
    if is_digit b
    then if ltb (read_digits 0 (b ∷ s)) (2 ^ 64) then some (read_digits 0 (b ∷ s)) else none
    else none

-- A minus sign negates modulo 2 ^ 64.
unfoldable pub read_signed : Bytes → Option ℕ
unfolding read_unsigned
read_signed [] = none
read_signed (b ∷ s) =
    if b == b'-'
    then elim (read_unsigned s) [ none ↦ none | some n ↦ some ((2 ^ 64 - n) % 2 ^ 64) ]
    else if b == b'+'
    then read_unsigned s
    else read_unsigned (b ∷ s)

-- std::stoul, with a 64-bit unsigned long: white space, a sign, digits, and anything behind them.
unfoldable pub stoul : Bytes → Option ℕ
unfolding is_space read_signed
stoul [] = none
stoul (b ∷ s) = let more = stoul s in if is_space b then more else read_signed (b ∷ s)

-- Whether `s` begins with the pattern.
unfoldable pub begins : Bytes → Bytes → Bool
begins [] s = true
begins (p ∷ ps) [] = false
begins (p ∷ ps) (b ∷ s) = p == b && begins ps s

-- The first position from `i` on at which the pattern stands in `s`, which begins at `i`.
unfoldable pub find_at : Bytes → ℕ → Bytes → Option ℕ
unfolding begins
find_at p i [] = none
find_at p i (b ∷ s) = let more = find_at p (i + 1) s in if begins p (b ∷ s) then some i else more

-- s.find(p, from) for a pattern that is not empty; `none` is npos.
unfoldable pub find_from : Bytes → Bytes → ℕ → Option ℕ
unfolding find_at drop
find_from p s from = find_at p from (drop from s)
