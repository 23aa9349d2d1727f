-- ===== src/Fix/Builder/Sums.antt =====
-- The two sums that the builder writes: the body length and the checksum.
use hft_engine.Base.{
  ℕ, ◌<◌, ◌+◌, ◌^◌, Bool, true, false, ◌||◌, some, List, [], ◌∷◌, ◌≡◌, refl, inl, inr, arith,
  Bool-cases, ◌==◌, ==_iff, if◌then◌else◌, length, length-append,
}
use hft_engine.Fix.Tags
use hft_engine.Fix.Bytes.{Bytes, soh}
use hft_engine.Fix.Message.{FixField, set_ordered, field_bytes, add_bytes, sum_fields}
use hft_engine.Fix.Message.Fields.{find_ordered}
use hft_engine.Fix.Parse.Split.{field_text, field_bytes_text}
use hft_engine.Fix.Builder.{body_bytes}

-- Whether a field counts for the body length.
abbrev pub in_body : ℕ → Bool
in_body tag =
    if tag == Tags.begin_string || tag == Tags.body_length || tag == Tags.check_sum
    then false
    else true

-- The length of the fields of the body, without wrapping round.
unfoldable pub body_size : List FixField → ℕ
body_size [] = 0
body_size (f ∷ fs) =
    let rest = body_size fs in if in_body f.tag then length (field_bytes f) + rest else rest

pub body_bytes_exact :
    (n : ℕ) (fs : List FixField) → n + body_size fs < 2 ^ 32 → body_bytes n fs ≡ n + body_size fs
unfolding body_bytes body_size
body_bytes_exact n [] h = omega arith
body_bytes_exact n (f ∷ fs) h = elim (Bool-cases (in_body f.tag)) [
  | inl e ↦ ground (arith, body_bytes_exact (n + length (field_bytes f)) fs)
  | inr e ↦ ground (arith, body_bytes_exact n fs)
]

length-field_bytes : (f : FixField) → 0 < length (field_bytes f)
length-field_bytes f =
    rw (field_bytes_text f, length-append (field_text f) (soh ∷ [])) (omega arith)

-- A body with a field in it is not empty.
pub body_size_pos :
    (tag : ℕ) (v : Bytes) (fs : List FixField)
    → in_body tag ≡ true
    → find_ordered tag fs ≡ some v
    → 0 < body_size fs
unfolding body_size find_ordered
body_size_pos tag v [] i h = cc
body_size_pos tag v (f ∷ fs) i h =
    ground (arith, body_size_pos tag v fs i, length-field_bytes f, ==_iff f.tag tag)

-- The checksum does not see its own field.
pub sum_fields-set :
    (n : ℕ) (value : Bytes) (fs : List FixField)
    → sum_fields n (set_ordered Tags.check_sum value fs) ≡ sum_fields n fs
unfolding sum_fields set_ordered
sum_fields-set n value [] = refl
sum_fields-set n value (f ∷ fs) = elim (Bool-cases (f.tag == Tags.check_sum)) [
  | inl e ↦ rw (set_ordered, e, sum_fields, e) refl
  | inr e ↦
      rw (set_ordered, e, sum_fields, e) (sum_fields-set (add_bytes n (field_bytes f)) value fs)
]
