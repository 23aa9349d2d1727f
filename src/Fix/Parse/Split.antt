-- ===== src/Fix/Parse/Split.antt =====
-- The parser takes apart what the serialisation puts together.
use mathlib.Core.List.{append_assoc, append-nil}
use hft_engine.Base.{
  ℕ, ◌<◌, ◌^◌, false, some, List, [], ◌∷◌, ◌++◌, map, ◌≡◌, ◌≢◌, refl, ap, ◌∙◌, arith, All,
  All-append, ◌==◌,
}
use hft_engine.Fix.Tags
use hft_engine.Fix.Bytes.{Bytes, soh, equals, is_empty, to_string, stoul}
use hft_engine.Fix.Bytes.Numbers.{
  DigitFirst, IsDigits, to_string-IsDigits, stoul-to_string, to_string-DigitFirst,
}
use hft_engine.Fix.Message.{FixField, field_bytes, serialize_fields}
use hft_engine.Fix.Parse.{split_fields, split_equals, parse_field}

-- A field that the serialisation can carry: a tag that fits, no separator in the value, and a number
-- where it is the body length.
pub record IsWritable (f : FixField) : Type 0 where
  pub small : f.tag < 2 ^ 32
  pub plain : All (λ b. b ≢ soh) f.value
  pub numeric : f.tag ≡ Tags.body_length → (n : ℕ) × (stoul f.value ≡ some n)

-- The text of a field, without the separator.
abbrev pub field_text : FixField → Bytes
field_text f = to_string f.tag ++ equals ∷ f.value

split_equals-append :
    (key value : Bytes)
    → All (λ b. b ≢ equals) key
    → split_equals (key ++ equals ∷ value) ≡ some (key, value)
unfolding split_equals
split_equals-append [] value h = refl
split_equals-append (b ∷ key) value h = ground (arith, split_equals-append key value h.1)

digits_ne : (s : Bytes) → IsDigits s → All (λ b. b ≢ equals) s × All (λ b. b ≢ soh) s
digits_ne [] h = (tt, tt)
digits_ne (b ∷ s) h = let r = digits_ne s h.1 in ((omega arith, r.0), (omega arith, r.1))

first_not_empty : (s : Bytes) → DigitFirst s → is_empty s ≡ false
first_not_empty [] h = absurd h
first_not_empty (b ∷ s) h = refl

pub parse-field_text :
    (f : FixField) → IsWritable f → parse_field (field_text f) ≡ some (f.tag, f.value)
unfolding parse_field
parse-field_text f w =
    let key = to_string f.tag in
    let s = split_equals-append key f.value (digits_ne key (to_string-IsDigits f.tag)).0 in
    let n = stoul-to_string f.tag (omega (arith, w.small)) in
    let e = first_not_empty key (to_string-DigitFirst f.tag) in ground (arith, s, n, e, w.small)

split-append :
    (acc s rest : Bytes)
    → All (λ b. b ≢ soh) s
    → is_empty (acc ++ s) ≡ false
    → split_fields acc ((s ++ soh ∷ []) ++ rest) ≡ (acc ++ s) ∷ split_fields [] rest
unfolding split_fields
split-append acc [] rest h e = ground (arith, append-nil acc)
split-append acc (b ∷ s) rest h e =
    let more = split-append (acc ++ b ∷ []) s rest h.1 (rw (append_assoc acc (b ∷ []) s) e) in
    let apart : (b == soh) ≡ false = ground (arith, h.0) in
    rw apart (more ∙ ap (λ x. x ∷ split_fields [] rest) (append_assoc acc (b ∷ []) s))

plain_text : (f : FixField) → IsWritable f → All (λ b. b ≢ soh) (field_text f)
plain_text f w =
    All-append (λ b. b ≢ soh) (to_string f.tag) (equals ∷ f.value)
      (digits_ne (to_string f.tag) (to_string-IsDigits f.tag)).1 (omega arith, w.plain)

text_not_empty : (key value : Bytes) → is_empty (key ++ equals ∷ value) ≡ false
text_not_empty [] value = refl
text_not_empty (b ∷ key) value = refl

pub field_bytes_text : (f : FixField) → field_bytes f ≡ field_text f ++ soh ∷ []
unfolding field_bytes
field_bytes_text f = refl

-- What was written field by field is taken apart at the same places.
pub split-serialize :
    (fs : List FixField)
    → All IsWritable fs
    → split_fields [] (serialize_fields fs) ≡ map field_text fs
unfolding serialize_fields
split-serialize [] w = unfold split_fields in refl
split-serialize (f ∷ fs) w = rw (field_bytes_text f) (
    split-append [] (field_text f) (serialize_fields fs) (plain_text f w.0)
      (text_not_empty (to_string f.tag) f.value)
    ∙ ap (λ x. field_text f ∷ x) (split-serialize fs w.1))
