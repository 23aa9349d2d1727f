-- ===== src/Fix/Bytes/Numbers.antt =====
-- std::stoul reads what std::to_string writes.
use native.Mathlib.Nat.{pow-suc}
use hft_engine.Base.{
  ℕ, zero, suc, ◌+◌, ◌*◌, ◌/◌, ◌%◌, ◌^◌, ◌≤◌, ◌<◌, some, [], ◌∷◌, ◌≡◌, refl, ap, ◌∙◌, inl, inr,
  arith, Bool-cases, All, ltb,
}
use hft_engine.Fix.Bytes.{
  Bytes, digits, to_string, is_space, is_digit, read_digits, read_unsigned, read_signed, stoul,
}

-- A text that begins with a digit.
abbrev pub DigitFirst : Bytes → Type 0
DigitFirst [] = ⊥
DigitFirst (b ∷ s) = (48 ≤ b) × (b ≤ 57)

abbrev pub IsDigits : Bytes → Type 0
IsDigits = All (λ b. (48 ≤ b) × (b ≤ 57))

digits_all : (fuel n : ℕ) (s : Bytes) → IsDigits s → IsDigits (digits fuel n s)
unfolding digits
digits_all zero n s h = h
digits_all (suc fuel) n s h = elim (Bool-cases (ltb n 10)) [
  | inl e ↦ rw e ((omega arith, ground arith), h)
  | inr e ↦ rw e (digits_all fuel (n / 10) _ ((omega arith, omega arith), h))
]

digits_first : (fuel n : ℕ) (s : Bytes) → DigitFirst s → DigitFirst (digits fuel n s)
unfolding digits
digits_first zero n s h = h
digits_first (suc fuel) n s h = elim (Bool-cases (ltb n 10)) [
  | inl e ↦ rw e (omega arith, ground arith)
  | inr e ↦ rw e (digits_first fuel (n / 10) _ (omega arith, omega arith))
]

pub read_digit :
    (n d : ℕ) (s : Bytes) → d < 10 → read_digits n ((48 + d) ∷ s) ≡ read_digits (n * 10 + d) s
unfolding read_digits
read_digit n d s h = ground arith

read-digits :
    (fuel n : ℕ) (s : Bytes) → n < 10 ^ fuel → read_digits 0 (digits fuel n s) ≡ read_digits n s
unfolding digits
read-digits zero n s h = ap (λ k. read_digits k s) (omega arith)
read-digits (suc fuel) n s h = elim (Bool-cases (ltb n 10)) [
  | inl e ↦ rw e (read_digit 0 n s (ground arith) ∙ ap (λ k. read_digits k s) (omega arith))
  | inr e ↦ rw e (
      read-digits fuel (n / 10) _ (omega (arith, pow-suc 10 fuel))
      ∙ read_digit (n / 10) (n % 10) s (omega arith)
      ∙ ap (λ k. read_digits k s) (omega arith))
]

pub to_string-IsDigits : (n : ℕ) → IsDigits (to_string n)
unfolding to_string
to_string-IsDigits n = digits_all 20 n [] tt

pub to_string-DigitFirst : (n : ℕ) → DigitFirst (to_string n)
unfolding to_string digits
to_string-DigitFirst n = elim (Bool-cases (ltb n 10)) [
  | inl e ↦ rw e (omega arith, ground arith)
  | inr e ↦ rw e (digits_first 19 (n / 10) ((48 + n % 10) ∷ []) (omega arith, omega arith))
]

read-to_string : (n : ℕ) → n < 2 ^ 64 → read_digits 0 (to_string n) ≡ n
unfolding to_string
read-to_string n h = read-digits 20 n [] (omega arith) ∙ (unfold read_digits in refl)

pub stoul_digits :
    (s : Bytes) (n : ℕ) → DigitFirst s → read_digits 0 s ≡ n → n < 2 ^ 64 → stoul s ≡ some n
unfolding stoul read_signed read_unsigned is_space is_digit
stoul_digits [] n h e k = absurd h
stoul_digits (b ∷ s) n h e k = ground arith

-- Any uint64_t is read back from its text.
pub stoul-to_string : (n : ℕ) → n < 2 ^ 64 → stoul (to_string n) ≡ some n
stoul-to_string n h = stoul_digits (to_string n) n (to_string-DigitFirst n) (read-to_string n h) h
