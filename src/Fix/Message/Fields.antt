-- ===== src/Fix/Message/Fields.antt =====
-- The two containers of a message's fields, and its checksum.
use hft_engine.Base.{
  ℕ, ◌+◌, ◌%◌, ◌^◌, ◌<◌, true, Option, none, some, List, [], ◌∷◌, ◌++◌, ◌≡◌, refl, ap, ◌∙◌, sym,
  inl, inr, arith, Bool-cases, ◌==◌, ==_iff, if◌then◌else◌,
}
use hft_engine.Containers.HashMap
use hft_engine.Containers.HashMap.{find-assign}
use hft_engine.Fix.Tags
use hft_engine.Fix.Bytes.{Bytes}
use hft_engine.Fix.Message.{
  FixField, FixMessage, has_field, get_field, set_ordered, set_field, field_bytes, add_bytes,
  sum_fields, calculate_checksum, text_checksum, serialize_fields,
}

-- The first value of a tag in the ordered fields.
unfoldable pub find_ordered : ℕ → List FixField → Option Bytes
find_ordered tag [] = none
find_ordered tag (f ∷ fs) = if f.tag == tag then some f.value else find_ordered tag fs

find_ordered-set :
    (u tag : ℕ) (value : Bytes) (fs : List FixField)
    → find_ordered u (set_ordered tag value fs)
      ≡ (if tag == u then some value else find_ordered u fs)
unfolding find_ordered set_ordered
find_ordered-set u tag value [] = refl
find_ordered-set u tag value (f ∷ fs) =
    ground (arith, find_ordered-set u tag value fs, ==_iff f.tag tag, ==_iff f.tag u, ==_iff tag u)

-- Both containers of the message have the same value for the tag.
abbrev pub AgreesAt : ℕ → FixMessage → Type 0
AgreesAt u m = HashMap.find ◌==◌ u m.fields ≡ find_ordered u m.ordered_fields

-- When the map and the ordered fields of a message agree on a tag `u`, they still do after set_field;
-- then get_field gives the value that was set, if `u` is its tag, and the old value otherwise, and
-- has_field finds the tag that was set beside those that it found before.
pub set_field_lem :
    (m : FixMessage) (tag u : ℕ) (value : Bytes)
    → AgreesAt u m
    → AgreesAt u (set_field m tag value)
      × (get_field (set_field m tag value) u ≡ (if tag == u then value else get_field m u))
      × (has_field (set_field m tag value) u ≡ (if tag == u then true else has_field m u))
unfolding set_field get_field has_field
set_field_lem m tag u value h = ground (
  arith,
  find-assign ◌==◌ ==_iff u tag value m.fields,
  find_ordered-set u tag value m.ordered_fields,
)

-- The sum of the bytes of a text.
unfoldable pub total_bytes : Bytes → ℕ
total_bytes [] = 0
total_bytes (b ∷ s) = b + total_bytes s

-- The fields that the checksum covers.
unfoldable pub without_checksum : List FixField → List FixField
without_checksum [] = []
without_checksum (f ∷ fs) =
    let rest = without_checksum fs in if f.tag == Tags.check_sum then rest else f ∷ rest

add_bytes-append : (n : ℕ) (s t : Bytes) → add_bytes n (s ++ t) ≡ add_bytes (add_bytes n s) t
unfolding add_bytes
add_bytes-append n [] t = refl
add_bytes-append n (b ∷ s) t = add_bytes-append ((n + b) % 2 ^ 32) s t

add_bytes_exact : (n : ℕ) (s : Bytes) → n < 2 ^ 32 → add_bytes n s ≡ (n + total_bytes s) % 2 ^ 32
unfolding add_bytes total_bytes
add_bytes_exact n [] h = omega arith
add_bytes_exact n (b ∷ s) h = add_bytes_exact ((n + b) % 2 ^ 32) s (omega arith) ∙ omega arith

sum_fields_serialized :
    (n : ℕ) (fs : List FixField)
    → sum_fields n fs ≡ add_bytes n (serialize_fields (without_checksum fs))
unfolding sum_fields without_checksum serialize_fields
sum_fields_serialized n [] = unfold add_bytes in refl
sum_fields_serialized n (f ∷ fs) = elim (Bool-cases (f.tag == Tags.check_sum)) [
  | inl e ↦ rw e (sum_fields_serialized n fs)
  | inr e ↦ rw e (
      sum_fields_serialized (add_bytes n (field_bytes f)) fs
      ∙ sym (add_bytes-append n (field_bytes f) (serialize_fields (without_checksum fs))))
]

-- The checksum of a message is the parser's checksum of its serialised fields without the checksum
-- field, and both are the sum of those bytes modulo 256: the wrapping of the 32-bit sum does not show.
pub checksum_serialized :
    (m : FixMessage)
    → let text = serialize_fields (without_checksum m.ordered_fields) in
      (calculate_checksum m ≡ text_checksum text) × (calculate_checksum m ≡ total_bytes text % 256)
unfolding calculate_checksum text_checksum
checksum_serialized m =
    let text = serialize_fields (without_checksum m.ordered_fields) in
    let e = sum_fields_serialized 0 m.ordered_fields in
    (ap (λ n. n % 256) e, omega (arith, e, add_bytes_exact 0 text (omega arith)))
