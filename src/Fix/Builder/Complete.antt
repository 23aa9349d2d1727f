-- ===== src/Fix/Builder/Complete.antt =====
-- What build makes of a message, for the parser.
use hft_engine.Base.{
  ℕ, ◌<◌, ◌%◌, ◌^◌, true, false, some, List, [], ◌∷◌, ◌≡◌, refl, ap, inl, inr, arith, Option-cases,
}
use hft_engine.Fix.Tags
use hft_engine.Fix.Bytes.{Bytes, is_empty, to_string}
use hft_engine.Fix.Bytes.Numbers.{to_string-IsDigits, stoul-to_string}
use hft_engine.Fix.Message.{
  FixField, FixMessage, get_field, set_field, set_ordered, is_valid, calculate_checksum,
}
use hft_engine.Fix.Message.Fields.{find_ordered}
use hft_engine.Fix.Parse.{number_or_zero}
use hft_engine.Fix.Parse.RoundTrip.{IsDecoded}
use hft_engine.Fix.Builder.{
  FixMessageBuilder, body_bytes, calculate_and_set_body_length, three_digits,
  calculate_and_set_checksum, fill_defaults, build,
}
use hft_engine.Fix.Builder.Built.{
  IsBuilt, IsText, text-IsWritable, member-IsBuilt, digits-IsText, number-to_string,
  number-three_digits, three_digits-IsText,
}
use hft_engine.Fix.Builder.Sums.{body_size, body_bytes_exact, body_size_pos, sum_fields-set}
use hft_engine.Fix.Builder.Ready.{IsReady, fill_defaults-IsAddressed}

set_ordered_not_empty :
    (tag : ℕ) (value : Bytes) (fs : List FixField) → is_empty (set_ordered tag value fs) ≡ false
unfolding set_ordered
set_ordered_not_empty tag value [] = refl
set_ordered_not_empty tag value (f ∷ fs) = ground arith

-- A message with a type has the field of the type.
type_field :
    (m : FixMessage)
    → IsDecoded m
    → is_empty m.msg_type ≡ false
    → (v : Bytes) × (find_ordered Tags.msg_type m.ordered_fields ≡ some v)
unfolding get_field
type_field m d h = elim (Option-cases (find_ordered Tags.msg_type m.ordered_fields)) [
  | inr p ↦ p
  | inl n ↦ absurd (ground (arith, d.is_read.msg_type, d.agrees Tags.msg_type))
]

-- The body length that is written is positive.
body_length_lem :
    (b : FixMessageBuilder)
    → IsReady b
    → body_size b.message.ordered_fields < 2 ^ 32
    → IsBuilt (calculate_and_set_body_length b).message
      × (0 < (calculate_and_set_body_length b).message.body_length)
unfolding calculate_and_set_body_length set_field
body_length_lem b r h =
    let fs = b.message.ordered_fields in
    let (v, found) = type_field b.message r.built.decoded r.typed in
    let exact = body_bytes_exact 0 fs (omega (arith, h)) in
    let positive = body_size_pos Tags.msg_type v fs refl found in
    let n = body_bytes 0 fs in
    let text = to_string n in
    (
      member-IsBuilt (number_or_zero (2 ^ 32))
          (λ x. record (set_field b.message Tags.body_length text) { body_length = x }) b.message
          Tags.body_length text n r.built
          (record {
            small = omega arith;
            plain = digits-IsText text (to_string-IsDigits n);
            numeric = λ e. (n, stoul-to_string n (omega (arith, exact, h)));
          })
          refl (number-to_string n (omega (arith, exact, h))),
      omega (arith, exact, positive),
    )

-- The checksum that is written is the checksum of the message that holds it.
checksum_lem :
    (b : FixMessageBuilder)
    → IsBuilt b.message
    → IsBuilt (calculate_and_set_checksum b).message
      × (calculate_checksum (calculate_and_set_checksum b).message
          ≡ (calculate_and_set_checksum b).message.checksum)
      × (is_empty (calculate_and_set_checksum b).message.ordered_fields ≡ false)
unfolding calculate_and_set_checksum set_field
checksum_lem b i =
    let n = calculate_checksum b.message in
    let text = three_digits n in
    (
      member-IsBuilt (number_or_zero 256)
          (λ x. record (set_field b.message Tags.check_sum text) { checksum = x }) b.message
          Tags.check_sum text n i
          (text-IsWritable Tags.check_sum text (omega arith) (omega arith) (three_digits-IsText n))
          refl (number-three_digits n (unfold calculate_checksum in omega arith)),
      unfold calculate_checksum in
          ap (λ k. k % 256) (sum_fields-set 0 text b.message.ordered_fields),
      set_ordered_not_empty Tags.check_sum text b.message.ordered_fields,
    )

complete_is_valid :
    (m : FixMessage)
    → is_empty m.begin_string ≡ false
    → is_empty m.msg_type ≡ false
    → is_empty m.sender_comp_id ≡ false
    → is_empty m.target_comp_id ≡ false
    → 0 < m.body_length
    → is_valid m ≡ true
unfolding is_valid
complete_is_valid m h1 h2 h3 h4 h5 = rw (h1, h2, h3, h4) (ground arith)

-- What build has made of the message, for the parser.
pub record IsComplete (m : FixMessage) : Type 0 where
  pub built : IsBuilt m
  pub valid : is_valid m ≡ true
  pub sum : calculate_checksum m ≡ m.checksum
  pub not_empty : is_empty m.ordered_fields ≡ false

pub build-IsComplete :
    (b : FixMessageBuilder) (now : Bytes)
    → IsReady b
    → IsText now
    → body_size (fill_defaults b now).message.ordered_fields < 2 ^ 32
    → IsComplete (build b now).message
unfolding build
build-IsComplete b now r t h =
    let a = fill_defaults-IsAddressed b now r t in
    let (built, positive) = body_length_lem (fill_defaults b now) a.ready h in
    let (done, sum, not_empty) =
      checksum_lem (calculate_and_set_body_length (fill_defaults b now)) built in
    record {
      built = done;
      valid =
          unfold calculate_and_set_checksum calculate_and_set_body_length set_field in
          complete_is_valid _ a.begins a.ready.typed a.sent a.aimed positive;
      sum = sum;
      not_empty = not_empty;
    }
