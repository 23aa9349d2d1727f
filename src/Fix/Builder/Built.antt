-- ===== src/Fix/Builder/Built.antt =====
-- Messages whose members are what their fields say, as the operations of the builder make them.
use hft_engine.Base.{
  ℕ, ◌<◌, ◌+◌, ◌*◌, ◌/◌, ◌%◌, ◌^◌, true, List, [], ◌∷◌, ◌≡◌, ◌≢◌, ap, ◌∙◌, sym, inl, inr, arith,
  Bool-cases, All, ◌==◌, ==_iff,
}
use hft_engine.Fix.Tags
use hft_engine.Fix.Bytes.{Bytes, soh, read_digits, to_string}
use hft_engine.Fix.Bytes.Numbers.{IsDigits, read_digit, stoul_digits, stoul-to_string}
use hft_engine.Fix.Message.{FixField, FixMessage, get_field, set_ordered, set_field}
use hft_engine.Fix.Message.Fields.{set_field_lem}
use hft_engine.Fix.Parse.{number_or_zero}
use hft_engine.Fix.Builder.{three_digits}
use hft_engine.Fix.Parse.Headers.{read_header, get_field-set, read_header-IsRead}
use hft_engine.Fix.Parse.Split.{IsWritable}
use hft_engine.Fix.Parse.RoundTrip.{Distinct, IsDecoded}

-- The members are what the fields say, and the fields can be written.
pub record IsBuilt (m : FixMessage) : Type 0 where
  pub decoded : IsDecoded m
  pub writable : All IsWritable m.ordered_fields
  pub distinct : Distinct m.ordered_fields

abbrev pub IsText : Bytes → Type 0
IsText s = All (λ b. b ≢ soh) s

same_tag :
    (P : FixField → Type 0) (t tag : ℕ) (value : Bytes)
    → (t == tag) ≡ true
    → P (record { tag = tag; value = value })
    → P (record { tag = t; value = value })
same_tag P t tag value e p = rw ((==_iff t tag).0 e) p

set_ordered-All :
    (P : FixField → Type 0) (tag : ℕ) (value : Bytes) (fs : List FixField)
    → P (record { tag = tag; value = value })
    → All P fs
    → All P (set_ordered tag value fs)
unfolding set_ordered
set_ordered-All P tag value [] p h = (p, tt)
set_ordered-All P tag value (f ∷ fs) p h = elim (Bool-cases (f.tag == tag)) [
  | inl e ↦ rw (set_ordered, e) (same_tag P f.tag tag value e p, h.1)
  | inr e ↦ rw (set_ordered, e) (h.0, set_ordered-All P tag value fs p h.1)
]

set_ordered-Distinct :
    (tag : ℕ) (value : Bytes) (fs : List FixField)
    → Distinct fs
    → Distinct (set_ordered tag value fs)
unfolding set_ordered
set_ordered-Distinct tag value [] d = (tt, tt)
set_ordered-Distinct tag value (f ∷ fs) d = elim (Bool-cases (f.tag == tag)) [
  | inl e ↦ rw (set_ordered, e) d
  | inr e ↦
      rw (set_ordered, e)
        (
          set_ordered-All (λ g. g.tag ≢ f.tag) tag value fs (ground arith) d.0,
          set_ordered-Distinct tag value fs d.1,
        )
]

-- A field that is set, with its member.
pub set_field-IsBuilt :
    (m : FixMessage) (tag : ℕ) (value : Bytes)
    → IsBuilt m
    → IsWritable (record { tag = tag; value = value })
    → IsBuilt (read_header (set_field m tag value) tag)
unfolding set_field
set_field-IsBuilt m tag value b w = record {
  decoded = record {
    is_read = read_header-IsRead m tag value b.decoded.is_read;
    agrees = λ u. (set_field_lem m tag u value (b.decoded.agrees u)).0;
  };
  writable = set_ordered-All IsWritable tag value m.ordered_fields w b.writable;
  distinct = set_ordered-Distinct tag value m.ordered_fields b.distinct;
}

get_field_own :
    (m : FixMessage) (tag : ℕ) (value : Bytes) → get_field (set_field m tag value) tag ≡ value
get_field_own m tag value = ground (arith, get_field-set m tag tag value)

pub text-IsWritable :
    (tag : ℕ) (value : Bytes)
    → tag < 2 ^ 32
    → tag ≢ Tags.body_length
    → IsText value
    → IsWritable (record { tag = tag; value = value })
text-IsWritable tag value small other t = record {
  small = small;
  plain = t;
  numeric = λ e. absurd (other e);
}

-- A field that is set and a member that is set to what the field says.
pub member-IsBuilt {ℓ} :
    {A : Type ℓ} (read : Bytes → A) (put : A → FixMessage) (m : FixMessage) (tag : ℕ)
    (value : Bytes) (x : A)
    → IsBuilt m
    → IsWritable (record { tag = tag; value = value })
    → put (read (get_field (set_field m tag value) tag)) ≡ read_header (set_field m tag value) tag
    → read value ≡ x
    → IsBuilt (put x)
member-IsBuilt read put m tag value x b w e h =
    let same : read (get_field (set_field m tag value) tag) ≡ x =
      ap read (get_field_own m tag value) ∙ h in
    rw (sym same) (rw e (set_field-IsBuilt m tag value b w))

pub digits-IsText : (s : Bytes) → IsDigits s → IsText s
digits-IsText [] h = tt
digits-IsText (b ∷ s) h = (omega arith, digits-IsText s h.1)

pub number-to_string : (n : ℕ) → n < 2 ^ 32 → number_or_zero (2 ^ 32) (to_string n) ≡ n
number-to_string n h = rw (number_or_zero, stoul-to_string n (omega (arith, h))) (omega (arith, h))

read-three_digits : (n : ℕ) → n < 256 → read_digits 0 (three_digits n) ≡ n
unfolding three_digits
read-three_digits n h =
    read_digit 0 (n / 100) ((48 + n / 10 % 10) ∷ (48 + n % 10) ∷ []) (omega (arith, h))
    ∙ read_digit (0 * 10 + n / 100) (n / 10 % 10) ((48 + n % 10) ∷ []) (omega arith)
    ∙ read_digit ((0 * 10 + n / 100) * 10 + n / 10 % 10) (n % 10) [] (omega arith)
    ∙ unfold read_digits in omega (arith, h)

pub number-three_digits : (n : ℕ) → n < 256 → number_or_zero 256 (three_digits n) ≡ n
unfolding three_digits
number-three_digits n h =
    let e =
      stoul_digits (three_digits n) n (omega arith, omega (arith, h)) (read-three_digits n h)
        (omega (arith, h)) in
    rw (number_or_zero, e) (omega (arith, h))

pub three_digits-IsText : (n : ℕ) → IsText (three_digits n)
unfolding three_digits
three_digits-IsText n = (omega arith, (omega arith, (omega arith, tt)))
