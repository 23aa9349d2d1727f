-- ===== src/Fix/Parse/Same.antt =====
-- Messages with the same fields.
use hft_engine.Base.{ℕ, ◌^◌, true, ◌≡◌, refl, ap, ◌∙◌, sym, ==_iff}
use hft_engine.Fix.Message.{FixMessage, get_field, is_valid, calculate_checksum}
use hft_engine.Fix.Parse.{number_or_zero, accepted, check_message}
use hft_engine.Fix.Parse.RoundTrip.{IsDecoded}

-- The same members in both messages.
pub record SameMembers (m n : FixMessage) : Type 0 where
  pub begin_string : m.begin_string ≡ n.begin_string
  pub body_length : m.body_length ≡ n.body_length
  pub msg_type : m.msg_type ≡ n.msg_type
  pub msg_seq_num : m.msg_seq_num ≡ n.msg_seq_num
  pub sender_comp_id : m.sender_comp_id ≡ n.sender_comp_id
  pub target_comp_id : m.target_comp_id ≡ n.target_comp_id
  pub sending_time : m.sending_time ≡ n.sending_time
  pub checksum : m.checksum ≡ n.checksum

-- Decoded messages with the same fields find the same values.
same_get_field :
    (m n : FixMessage) (u : ℕ)
    → IsDecoded m
    → IsDecoded n
    → m.ordered_fields ≡ n.ordered_fields
    → get_field m u ≡ get_field n u
unfolding get_field
same_get_field m n u dm dn e = rw (get_field, dm.agrees u, dn.agrees u, e) refl

pub decoded-SameMembers :
    (m n : FixMessage)
    → IsDecoded m
    → IsDecoded n
    → m.ordered_fields ≡ n.ordered_fields
    → SameMembers m n
decoded-SameMembers m n dm dn e =
    let same : (u : ℕ) → get_field m u ≡ get_field n u = λ u. same_get_field m n u dm dn e in
    let number = number_or_zero (2 ^ 32) in
    let rm = dm.is_read in
    let rn = dn.is_read in
    record {
      begin_string = rm.begin_string ∙ same _ ∙ sym rn.begin_string;
      body_length = rm.body_length ∙ ap number (same _) ∙ sym rn.body_length;
      msg_type = rm.msg_type ∙ same _ ∙ sym rn.msg_type;
      msg_seq_num = rm.msg_seq_num ∙ ap number (same _) ∙ sym rn.msg_seq_num;
      sender_comp_id = rm.sender_comp_id ∙ same _ ∙ sym rn.sender_comp_id;
      target_comp_id = rm.target_comp_id ∙ same _ ∙ sym rn.target_comp_id;
      sending_time = rm.sending_time ∙ same _ ∙ sym rn.sending_time;
      checksum = rm.checksum ∙ ap (number_or_zero 256) (same _) ∙ sym rn.checksum;
    }

pub check_message_same :
    (m n : FixMessage)
    → SameMembers m n
    → m.ordered_fields ≡ n.ordered_fields
    → is_valid n ≡ true
    → calculate_checksum n ≡ n.checksum
    → check_message m ≡ accepted m
unfolding check_message is_valid calculate_checksum
check_message_same m n s e v c =
    let valid : is_valid m ≡ true =
      rw (is_valid, s.begin_string, s.msg_type, s.sender_comp_id, s.target_comp_id, s.body_length)
        v in
    let sum : calculate_checksum m ≡ m.checksum = rw (calculate_checksum, e, s.checksum) c in
    rw (check_message, valid, (==_iff (calculate_checksum m) m.checksum).1 sum) refl
