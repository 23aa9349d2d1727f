-- ===== src/Fix/Builder/Extracted.antt =====
-- What extract_next_message finds of a built message.
use mathlib.Core.List.{append_assoc}
use hft_engine.Base.{
  ℕ, zero, suc, ◌<◌, ◌≤◌, ◌-◌, ◌^◌, Bool, true, false, some, List, [], ◌∷◌, ◌++◌, ◌≡◌, ◌≢◌, ap, ◌∙◌,
  sym, inl, inr, arith, Bool-cases, ◌==◌, ==_iff, if◌then◌else◌, length, take,
}
use hft_engine.Fix.Tags
use hft_engine.Fix.Bytes.{
  Bytes, soh, equals, begins, drop, is_empty, to_string, stoul, is_space, is_digit, read_digits,
  read_unsigned, read_signed,
}
use hft_engine.Fix.Bytes.Find.{length-drop, found_front, find_from_bounds}
use hft_engine.Fix.Bytes.Numbers.{
  IsDigits, DigitFirst, to_string-IsDigits, to_string-DigitFirst, stoul-to_string,
}
use hft_engine.Fix.Message.{
  FixField, set_ordered, set_field, serialize_fields, serialize_fix_message,
}
use hft_engine.Fix.Parse.Split.{field_text, field_bytes_text}
use hft_engine.Fix.Feed.{Buffer, start_mark, extract_next_message}
use hft_engine.Fix.Feed.Delivery.{Extracted, extracted}
use hft_engine.Fix.Builder.{
  FixMessageBuilder, begin_string, msg_seq_num, sending_time, default_begin_string, default_sender,
  default_target, default_seq_num, default_sending_time, calculate_and_set_body_length,
  calculate_and_set_checksum, fill_defaults, build, to_fix_string,
}

-- The fields begin with one of the tag.
abbrev StartsWith : ℕ → List FixField → Type 0
StartsWith tag [] = ⊥
StartsWith tag (f ∷ fs) = f.tag ≡ tag

set_ordered-StartsWith :
    (t tag : ℕ) (value : Bytes) (fs : List FixField)
    → StartsWith t fs
    → StartsWith t (set_ordered tag value fs)
unfolding set_ordered
set_ordered-StartsWith t tag value [] h = absurd h
set_ordered-StartsWith t tag value (f ∷ fs) h = elim (Bool-cases (f.tag == tag)) [
  | inl e ↦ rw (set_ordered, e) h
  | inr e ↦ rw (set_ordered, e) h
]

-- The first field of the builder's message.
abbrev Starts : ℕ → FixMessageBuilder → Type 0
Starts t b = StartsWith t b.message.ordered_fields

if_either {ℓ κ} :
    {A : Type ℓ} (P : A → Type κ) (t : Bool) (x y : A) → P x → P y → P (if t then x else y)
if_either P true x y p q = p
if_either P false x y p q = q

default_begin_string-Starts :
    (t : ℕ) (b : FixMessageBuilder) → Starts t b → Starts t (default_begin_string b)
unfolding default_begin_string begin_string set_field
default_begin_string-Starts t b h =
    if_either (Starts t) (is_empty b.message.begin_string) _ b (set_ordered-StartsWith t _ _ _ h) h

default_sender-Starts : (t : ℕ) (b : FixMessageBuilder) → Starts t b → Starts t (default_sender b)
unfolding default_sender set_field
default_sender-Starts t b h =
    if_either (Starts t) (is_empty b.message.sender_comp_id) _ b (set_ordered-StartsWith t _ _ _ h)
      h

default_target-Starts : (t : ℕ) (b : FixMessageBuilder) → Starts t b → Starts t (default_target b)
unfolding default_target set_field
default_target-Starts t b h =
    if_either (Starts t) (is_empty b.message.target_comp_id) _ b (set_ordered-StartsWith t _ _ _ h)
      h

default_seq_num-Starts : (t : ℕ) (b : FixMessageBuilder) → Starts t b → Starts t (default_seq_num b)
unfolding default_seq_num msg_seq_num set_field
default_seq_num-Starts t b h =
    if_either (Starts t) (b.message.msg_seq_num == 0) _ b (set_ordered-StartsWith t _ _ _ h) h

default_sending_time-Starts :
    (t : ℕ) (b : FixMessageBuilder) (now : Bytes)
    → Starts t b
    → Starts t (default_sending_time b now)
unfolding default_sending_time sending_time set_field
default_sending_time-Starts t b now h =
    if_either (Starts t) (is_empty b.message.sending_time) _ b (set_ordered-StartsWith t _ _ _ h) h

fill_defaults-Starts :
    (t : ℕ) (b : FixMessageBuilder) (now : Bytes) → Starts t b → Starts t (fill_defaults b now)
unfolding fill_defaults
fill_defaults-Starts t b now h =
    let b1 = default_begin_string b in
    let b2 = default_sender b1 in
    let b3 = default_target b2 in
    let h1 = default_begin_string-Starts t b h in
    let h3 = default_target-Starts t b2 (default_sender-Starts t b1 h1) in
    default_sending_time-Starts t (default_seq_num b3) now (default_seq_num-Starts t b3 h3)

build-Starts : (t : ℕ) (b : FixMessageBuilder) (now : Bytes) → Starts t b → Starts t (build b now)
unfolding build calculate_and_set_checksum calculate_and_set_body_length set_field
build-Starts t b now h = set_ordered-StartsWith t _ _ _ (
    set_ordered-StartsWith t _ _ (fill_defaults b now).message.ordered_fields
      (fill_defaults-Starts t b now h))

-- A key that begins like the start of a message is that of the tag 8.
start_key :
    (key rest : Bytes)
    → IsDigits key
    → DigitFirst key
    → begins start_mark (key ++ equals ∷ rest) ≡ true
    → key ≡ b'8' ∷ []
unfolding begins
start_key [] rest d f h = absurd f
start_key (a ∷ []) rest d f h = ground (arith, ==_iff b'8' a)
start_key (a ∷ b ∷ key) rest d f h = absurd (ground (arith, ==_iff equals b, d.1.0))

number_eight : (n : ℕ) → some n ≡ stoul (b'8' ∷ []) → n ≡ 8
unfolding stoul is_space read_signed read_unsigned is_digit read_digits
number_eight n h = cc

not_start :
    (fs : List FixField) (t : ℕ)
    → StartsWith t fs
    → t ≢ Tags.begin_string
    → t < 2 ^ 64
    → begins start_mark (serialize_fields fs) ≢ true
unfolding serialize_fields
not_start [] t h n small e = absurd h
not_start (f ∷ fs) t h n small e =
    let key = to_string f.tag in
    let shape : serialize_fields (f ∷ fs) ≡ key ++ equals ∷ (f.value ++ soh ∷ serialize_fields fs) =
      rw (serialize_fields, field_bytes_text f)
        (append_assoc (field_text f) (soh ∷ []) (serialize_fields fs)
          ∙ append_assoc key (equals ∷ f.value) (soh ∷ serialize_fields fs)) in
    let k : key ≡ b'8' ∷ [] =
      start_key key (f.value ++ soh ∷ serialize_fields fs) (to_string-IsDigits f.tag)
        (to_string-DigitFirst f.tag) (rw (sym shape) e) in
    let read : some f.tag ≡ stoul (b'8' ∷ []) =
      sym (stoul-to_string f.tag (omega (arith, h, small))) ∙ ap stoul k in
    n (sym h ∙ number_eight f.tag read)

length-take_le : (n : ℕ) (s : Bytes) → length (take n s) ≤ length s
length-take_le zero s = omega arith
length-take_le (suc n) [] = omega arith
length-take_le (suc n) (b ∷ s) = omega (arith, length-take_le n s)

-- A text is extracted whole only if it begins like a message.
whole_begins :
    (text : Bytes) (b' : Buffer)
    → Extracted (record { bytes = text; position = 0 }) text b'
    → begins start_mark text ≡ true
whole_begins text b' x =
    let bounds = find_from_bounds start_mark text 0 x.start x.started in
    let less = length-take_le (x.end - x.start) (drop x.start text) in
    let same : length text ≡ length (take (x.end - x.start) (drop x.start text)) =
      ap length x.text in
    let front : x.start ≡ 0 = omega (arith, bounds, less, same, length-drop x.start text) in
    found_front start_mark text (x.started ∙ ap some front)

-- A builder whose message has fields, the first of them with another tag than the begin string, as when
-- that is left to the default of build: from a buffer that holds the text of the built message,
-- extract_next_message does not extract that text.
pub build_not_extracted :
    (b : FixMessageBuilder) (now : Bytes) (t : ℕ)
    → Starts t b
    → t ≢ Tags.begin_string
    → t < 2 ^ 64
    → (extract_next_message (record { bytes = to_fix_string b now; position = 0 })).0
      ≢ some (to_fix_string b now)
unfolding to_fix_string serialize_fix_message
build_not_extracted b now t h n small e =
    let text = to_fix_string b now in
    not_start (build b now).message.ordered_fields t (build-Starts t b now h) n small
      (whole_begins text _ (extracted (record { bytes = text; position = 0 }) text e))
