-- ===== src/Fix/Parse/Headers.antt =====
-- The members of a message and the fields that they are read from.
use hft_engine.Base.{
  ℕ, ◌^◌, false, some, ◌≡◌, refl, sym, ◌⊎◌, inl, inr, arith, Bool-cases, ◌==◌, ==_iff,
  if◌then◌else◌,
}
use hft_engine.Containers.HashMap.{find-assign}
use hft_engine.Fix.Tags
use hft_engine.Fix.Bytes.{Bytes, stoul}
use hft_engine.Fix.Message.{FixMessage, get_field, set_field}
use hft_engine.Fix.Parse.{number_or_zero, store_header}

-- The members of the message are what its map of fields says.
pub record IsRead (m : FixMessage) : Type 0 where
  pub begin_string : m.begin_string ≡ get_field m Tags.begin_string
  pub body_length : m.body_length ≡ number_or_zero (2 ^ 32) (get_field m Tags.body_length)
  pub msg_type : m.msg_type ≡ get_field m Tags.msg_type
  pub msg_seq_num : m.msg_seq_num ≡ number_or_zero (2 ^ 32) (get_field m Tags.msg_seq_num)
  pub sender_comp_id : m.sender_comp_id ≡ get_field m Tags.sender_comp_id
  pub target_comp_id : m.target_comp_id ≡ get_field m Tags.target_comp_id
  pub sending_time : m.sending_time ≡ get_field m Tags.sending_time
  pub checksum : m.checksum ≡ number_or_zero 256 (get_field m Tags.check_sum)

pub get_field-set :
    (m : FixMessage) (tag u : ℕ) (value : Bytes)
    → get_field (set_field m tag value) u ≡ (if tag == u then value else get_field m u)
unfolding set_field get_field
get_field-set m tag u value = ground (arith, find-assign ◌==◌ ==_iff u tag value m.fields)

-- The message whose member of the tag is taken from its map of fields.
abbrev pub read_header : FixMessage → ℕ → FixMessage
read_header m tag = record m {
  begin_string = if tag == Tags.begin_string then get_field m Tags.begin_string else m.begin_string;
  body_length =
      if tag == Tags.body_length
      then number_or_zero (2 ^ 32) (get_field m Tags.body_length)
      else m.body_length;
  msg_type = if tag == Tags.msg_type then get_field m Tags.msg_type else m.msg_type;
  msg_seq_num =
      if tag == Tags.msg_seq_num
      then number_or_zero (2 ^ 32) (get_field m Tags.msg_seq_num)
      else m.msg_seq_num;
  sender_comp_id =
      if tag == Tags.sender_comp_id then get_field m Tags.sender_comp_id else m.sender_comp_id;
  target_comp_id =
      if tag == Tags.target_comp_id then get_field m Tags.target_comp_id else m.target_comp_id;
  sending_time = if tag == Tags.sending_time then get_field m Tags.sending_time else m.sending_time;
  checksum =
      if tag == Tags.check_sum then number_or_zero 256 (get_field m Tags.check_sum) else m.checksum;
}

==_cases : (a b : ℕ) → (a ≡ b) ⊎ ((a == b) ≡ false)
==_cases a b = ground arith

body_length_read :
    (m : FixMessage) (n : ℕ)
    → stoul (get_field m Tags.body_length) ≡ some n
    → store_header m Tags.body_length ≡ some (read_header m Tags.body_length)
unfolding store_header
body_length_read m n h = rw (number_or_zero, h) refl

pub store_header_read :
    (m : FixMessage) (tag : ℕ)
    → (tag ≡ Tags.body_length → (n : ℕ) × (stoul (get_field m tag) ≡ some n))
    → store_header m tag ≡ some (read_header m tag)
unfolding store_header
store_header_read m tag h = elim (==_cases tag Tags.begin_string) [
  | inl e ↦ rw e refl
  | inr not_begin_string ↦ elim (==_cases tag Tags.body_length) [
    | inl e ↦ rw e (body_length_read m (h e).0 (rw (sym e) (h e).1))
    | inr not_body_length ↦ elim (==_cases tag Tags.msg_type) [
      | inl e ↦ rw e refl
      | inr not_msg_type ↦ elim (==_cases tag Tags.msg_seq_num) [
        | inl e ↦ rw e refl
        | inr not_msg_seq_num ↦ elim (==_cases tag Tags.sender_comp_id) [
          | inl e ↦ rw e refl
          | inr not_sender_comp_id ↦ elim (==_cases tag Tags.target_comp_id) [
            | inl e ↦ rw e refl
            | inr not_target_comp_id ↦ elim (==_cases tag Tags.sending_time) [
              | inl e ↦ rw e refl
              | inr not_sending_time ↦ elim (==_cases tag Tags.check_sum) [
                | inl e ↦ rw e refl
                | inr not_check_sum ↦
                    rw
                      (
                        not_begin_string, not_body_length, not_msg_type, not_msg_seq_num,
                        not_sender_comp_id, not_target_comp_id, not_sending_time, not_check_sum,
                      )
                      refl
              ]
            ]
          ]
        ]
      ]
    ]
  ]
]

-- A member that is read from its field whenever that is set.
member_step {ℓ} :
    {A : Type ℓ} (read : Bytes → A) (m : FixMessage) (tag u : ℕ) (value : Bytes) (old : A)
    → old ≡ read (get_field m u)
    → (if tag == u then read (get_field (set_field m tag value) u) else old)
      ≡ read (get_field (set_field m tag value) u)
member_step read m tag u value old h = elim (Bool-cases (tag == u)) [
  | inl e ↦ rw e refl
  | inr e ↦ rw (e, get_field-set m tag u value, e) h
]

pub read_header-IsRead :
    (m : FixMessage) (tag : ℕ) (value : Bytes)
    → IsRead m
    → IsRead (read_header (set_field m tag value) tag)
unfolding set_field get_field
read_header-IsRead m tag value r = record {
  begin_string = member_step (λ v. v) m tag Tags.begin_string value m.begin_string r.begin_string;
  body_length =
      member_step (number_or_zero (2 ^ 32)) m tag Tags.body_length value m.body_length
        r.body_length;
  msg_type = member_step (λ v. v) m tag Tags.msg_type value m.msg_type r.msg_type;
  msg_seq_num =
      member_step (number_or_zero (2 ^ 32)) m tag Tags.msg_seq_num value m.msg_seq_num
        r.msg_seq_num;
  sender_comp_id =
      member_step (λ v. v) m tag Tags.sender_comp_id value m.sender_comp_id r.sender_comp_id;
  target_comp_id =
      member_step (λ v. v) m tag Tags.target_comp_id value m.target_comp_id r.target_comp_id;
  sending_time = member_step (λ v. v) m tag Tags.sending_time value m.sending_time r.sending_time;
  checksum = member_step (number_or_zero 256) m tag Tags.check_sum value m.checksum r.checksum;
}
