-- ===== src/Fix/Parse.antt =====
-- FixParser::parse_message_internal and what it calls.
pub mod Headers
pub mod Split
pub mod RoundTrip
pub mod Same
use hft_engine.Base.{
  ℕ, zero, suc, ◌%◌, ◌^◌, Bool, true, false, Option, none, some, List, [], ◌∷◌, ◌++◌, ◌==◌,
  if◌then◌else◌,
}
use hft_engine.Fix.Tags
use hft_engine.Fix.Bytes.{Bytes, soh, equals, is_empty, stoul}
use hft_engine.Fix.Message.{
  FixMessage, empty_message, get_field, set_field, is_valid, calculate_checksum,
}

-- The texts between the separators that are not empty; `acc` is the text since the last one.
unfoldable pub split_fields : Bytes → Bytes → List Bytes
split_fields acc [] = if is_empty acc then [] else acc ∷ []
split_fields acc (b ∷ s) =
    let next = split_fields [] s in
    let more = split_fields (acc ++ b ∷ []) s in
    if b == soh then (if is_empty acc then next else acc ∷ next) else more

-- The texts before and after the first equals sign, where there is one.
unfoldable pub split_equals : Bytes → Option (Bytes × Bytes)
split_equals [] = none
split_equals (b ∷ s) =
    let more = split_equals s in
    if b == equals
    then some ([], s)
    else elim more [ none ↦ none | some (key, value) ↦ some (b ∷ key, value) ]

-- FixParser::parse_field: the tag, cut to a uint32_t, and the value.
unfoldable pub parse_field : Bytes → Option (ℕ × Bytes)
unfolding split_equals stoul
parse_field s = elim (split_equals s) [
  | none ↦ none
  | some (key, value) ↦
      if is_empty key
      then none
      else elim (stoul key) [ none ↦ none | some tag ↦ some (tag % 2 ^ 32, value) ]
]

-- std::stoul cut to `m`, or 0 where it throws.
abbrev pub number_or_zero : ℕ → Bytes → ℕ
number_or_zero m s = elim (stoul s) [ none ↦ 0 | some n ↦ n % m ]

-- The switch on the tag, after the field is set; `none` is the return in the case of a body length
-- that is no number.
unfoldable pub store_header : FixMessage → ℕ → Option FixMessage
unfolding get_field stoul
store_header m tag =
    if tag == Tags.begin_string
    then some (record m { begin_string = get_field m tag })
    else if tag == Tags.body_length
    then elim (stoul (get_field m tag)) [
      | none ↦ none
      | some n ↦ some (record m { body_length = n % 2 ^ 32 })
    ]
    else if tag == Tags.msg_type
    then some (record m { msg_type = get_field m tag })
    else if tag == Tags.msg_seq_num
    then some (record m { msg_seq_num = number_or_zero (2 ^ 32) (get_field m tag) })
    else if tag == Tags.sender_comp_id
    then some (record m { sender_comp_id = get_field m tag })
    else if tag == Tags.target_comp_id
    then some (record m { target_comp_id = get_field m tag })
    else if tag == Tags.sending_time
    then some (record m { sending_time = get_field m tag })
    else if tag == Tags.check_sum
    then some (record m { checksum = number_or_zero 256 (get_field m tag) })
    else some m

-- The loop over the texts of the fields; one that is no field is passed over.
unfoldable pub store_fields : FixMessage → List Bytes → Option FixMessage
unfolding parse_field store_header set_field
store_fields m [] = some m
store_fields m (s ∷ ss) = elim (parse_field s) [
  | none ↦ store_fields m ss
  | some (tag, value) ↦ elim (store_header (set_field m tag value) tag) [
    | none ↦ none
    | some m' ↦ store_fields m' ss
  ]
]

-- How parse_message_internal ends, with the message where it has got that far. The two middle ends
-- are counted in the statistics.
pub data Outcome : Type 0 where
  accepted : FixMessage → Outcome
  invalid_message : FixMessage → Outcome
  checksum_error : FixMessage → Outcome
  malformed : Outcome

unfoldable pub check_message : FixMessage → Outcome
unfolding is_valid calculate_checksum
check_message m =
    if is_valid m
    then if calculate_checksum m == m.checksum then accepted m else checksum_error m
    else invalid_message m

-- The texts of the fields, stored and checked.
unfoldable pub parse_fields : List Bytes → Outcome
unfolding store_fields check_message
parse_fields [] = malformed
parse_fields (f ∷ fs) = elim (store_fields empty_message (f ∷ fs)) [
  | none ↦ malformed
  | some m ↦ check_message m
]

unfoldable pub parse_message_internal : Bytes → Outcome
unfolding split_fields parse_fields
parse_message_internal s = parse_fields (split_fields [] s)
