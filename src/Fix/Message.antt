-- ===== src/Fix/Message.antt =====
-- FixMessage and FixField.
pub mod Fields
use hft_engine.Base.{
  ℕ, ◌+◌, ◌%◌, ◌^◌, Bool, true, false, not, ◌&&◌, Option, none, some, List, [], ◌∷◌, ◌++◌, ◌==◌,
  ltb, if◌then◌else◌,
}
use hft_engine.Containers.HashMap
use hft_engine.Fix.Tags
use hft_engine.Fix.Bytes.{Bytes, soh, equals, is_empty, to_string}

pub record FixField : Type 0 where
  pub tag : ℕ
  pub value : Bytes

pub record FixMessage : Type 0 where
  pub begin_string : Bytes
  pub body_length : ℕ
  pub msg_type : Bytes
  pub msg_seq_num : ℕ
  pub sender_comp_id : Bytes
  pub target_comp_id : Bytes
  pub sending_time : Bytes
  pub checksum : ℕ
  pub fields : List (ℕ × Bytes)
  pub ordered_fields : List FixField

-- FixMessage::clear
abbrev pub empty_message : FixMessage
empty_message = record {
  begin_string = [];
  body_length = 0;
  msg_type = [];
  msg_seq_num = 0;
  sender_comp_id = [];
  target_comp_id = [];
  sending_time = [];
  checksum = 0;
  fields = [];
  ordered_fields = [];
}

unfoldable pub has_field : FixMessage → ℕ → Bool
has_field m tag = elim (HashMap.find ◌==◌ tag m.fields) [ none ↦ false | some v ↦ true ]

-- The empty text where the field is missing.
unfoldable pub get_field : FixMessage → ℕ → Bytes
get_field m tag = elim (HashMap.find ◌==◌ tag m.fields) [ none ↦ [] | some v ↦ v ]

-- The first field of the tag gets the value; where there is none, a new field goes last.
unfoldable pub set_ordered : ℕ → Bytes → List FixField → List FixField
set_ordered tag value [] = record { tag = tag; value = value } ∷ []
set_ordered tag value (f ∷ fs) =
    if f.tag == tag then record f { value = value } ∷ fs else f ∷ set_ordered tag value fs

-- Both overloads.
unfoldable pub set_field : FixMessage → ℕ → Bytes → FixMessage
unfolding set_ordered
set_field m tag value = record m {
  fields = HashMap.assign ◌==◌ tag value m.fields;
  ordered_fields = set_ordered tag value m.ordered_fields;
}

-- The same conjunction as FixParser::validate_message_structure.
unfoldable pub is_valid : FixMessage → Bool
is_valid m =
    not (is_empty m.begin_string)
    && not (is_empty m.msg_type)
    && not (is_empty m.sender_comp_id)
    && not (is_empty m.target_comp_id)
    && ltb 0 m.body_length

-- std::to_string(tag) + "=" + value + SOH
unfoldable pub field_bytes : FixField → Bytes
unfolding to_string
field_bytes f = to_string f.tag ++ equals ∷ f.value ++ soh ∷ []

-- `for (char c : text) sum += static_cast<uint8_t>(c)` on a uint32_t
unfoldable pub add_bytes : ℕ → Bytes → ℕ
add_bytes sum [] = sum
add_bytes sum (b ∷ s) = add_bytes ((sum + b) % 2 ^ 32) s

-- The loop of FixMessage::calculate_checksum.
unfoldable pub sum_fields : ℕ → List FixField → ℕ
unfolding add_bytes field_bytes
sum_fields sum [] = sum
sum_fields sum (f ∷ fs) =
    sum_fields (if f.tag == Tags.check_sum then sum else add_bytes sum (field_bytes f)) fs

unfoldable pub calculate_checksum : FixMessage → ℕ
unfolding sum_fields
calculate_checksum m = sum_fields 0 m.ordered_fields % 256

-- FixParser::calculate_checksum
unfoldable pub text_checksum : Bytes → ℕ
unfolding add_bytes
text_checksum s = add_bytes 0 s % 256

unfoldable pub serialize_fields : List FixField → Bytes
unfolding field_bytes
serialize_fields [] = []
serialize_fields (f ∷ fs) = field_bytes f ++ serialize_fields fs

-- serialize_fix_message
unfoldable pub serialize_fix_message : FixMessage → Bytes
unfolding serialize_fields
serialize_fix_message m = serialize_fields m.ordered_fields
