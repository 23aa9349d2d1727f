-- ===== src/Fix/Builder.antt =====
-- FixMessageBuilder.
pub mod Built
pub mod Sums
pub mod Ready
pub mod Calls
pub mod Complete
pub mod Accepted
pub mod Extracted
mod Examples
use hft_engine.Base.{ℕ, ◌+◌, ◌%◌, ◌/◌, ◌^◌, ◌||◌, List, [], ◌∷◌, ◌==◌, if◌then◌else◌, length}
use hft_engine.Fix.Tags
use hft_engine.Fix.Bytes.{Bytes, is_empty, to_string}
use hft_engine.Fix.Message.{
  FixField, FixMessage, empty_message, field_bytes, set_field, calculate_checksum,
  serialize_fix_message,
}

pub record FixMessageBuilder : Type 0 where
  pub message : FixMessage
  pub sender_comp_id : Bytes
  pub target_comp_id : Bytes
  pub next_seq_num : ℕ

-- The builder whose message has the field set.
abbrev with_field : FixMessageBuilder → ℕ → Bytes → FixMessageBuilder
with_field b tag value = record b { message = set_field b.message tag value }

unfoldable pub reset : FixMessageBuilder → FixMessageBuilder
reset b = record b { message = empty_message }

unfoldable pub new_builder : Bytes → Bytes → FixMessageBuilder
new_builder sender target = record {
  message = empty_message;
  sender_comp_id = sender;
  target_comp_id = target;
  next_seq_num = 1;
}

unfoldable pub begin_string : FixMessageBuilder → Bytes → FixMessageBuilder
unfolding set_field
begin_string b version = record b {
  message = record (set_field b.message Tags.begin_string version) { begin_string = version };
}

unfoldable pub msg_type : FixMessageBuilder → Bytes → FixMessageBuilder
unfolding set_field
msg_type b type = record b {
  message = record (set_field b.message Tags.msg_type type) { msg_type = type };
}

unfoldable pub msg_seq_num : FixMessageBuilder → ℕ → FixMessageBuilder
unfolding set_field
msg_seq_num b n = record b {
  message = record (set_field b.message Tags.msg_seq_num (to_string n)) { msg_seq_num = n };
  next_seq_num = (n + 1) % 2 ^ 32;
}

-- Both overloads; the one without an argument passes the clock's text.
unfoldable pub sending_time : FixMessageBuilder → Bytes → FixMessageBuilder
unfolding set_field
sending_time b time = record b {
  message = record (set_field b.message Tags.sending_time time) { sending_time = time };
}

-- The overloads for texts; those for numbers pass the text of the number.
unfoldable pub field : FixMessageBuilder → ℕ → Bytes → FixMessageBuilder
unfolding set_field
field b tag value = with_field b tag value

unfoldable pub field_number : FixMessageBuilder → ℕ → ℕ → FixMessageBuilder
unfolding set_field
field_number b tag value = with_field b tag (to_string value)

unfoldable pub cl_ord_id : FixMessageBuilder → Bytes → FixMessageBuilder
unfolding set_field
cl_ord_id b id = with_field b Tags.cl_ord_id id

unfoldable pub order_id : FixMessageBuilder → Bytes → FixMessageBuilder
unfolding set_field
order_id b id = with_field b Tags.order_id id

unfoldable pub symbol : FixMessageBuilder → Bytes → FixMessageBuilder
unfolding set_field
symbol b s = with_field b Tags.symbol s

unfoldable pub side : FixMessageBuilder → ℕ → FixMessageBuilder
unfolding set_field
side b s = with_field b Tags.side (s ∷ [])

unfoldable pub order_qty : FixMessageBuilder → ℕ → FixMessageBuilder
unfolding set_field
order_qty b q = with_field b Tags.order_qty (to_string q)

unfoldable pub ord_type : FixMessageBuilder → ℕ → FixMessageBuilder
unfolding set_field
ord_type b t = with_field b Tags.ord_type (t ∷ [])

unfoldable pub time_in_force : FixMessageBuilder → ℕ → FixMessageBuilder
unfolding set_field
time_in_force b t = with_field b Tags.time_in_force (t ∷ [])

-- The overloads for doubles, and price: `format` is the text of std::fixed and std::setprecision.
module _ {ℓ} {Double : Type ℓ} (format : Double → ℕ → Bytes) where
  unfoldable pub field_double : FixMessageBuilder → ℕ → Double → ℕ → FixMessageBuilder
  unfolding set_field
  field_double b tag value precision = with_field b tag (format value precision)

  unfoldable pub price : FixMessageBuilder → Double → ℕ → FixMessageBuilder
  unfolding set_field
  price b value precision = with_field b Tags.price (format value precision)

-- The loop of calculate_and_set_body_length, on a uint32_t.
unfoldable pub body_bytes : ℕ → List FixField → ℕ
unfolding field_bytes
body_bytes n [] = n
body_bytes n (f ∷ fs) =
    body_bytes
      (if f.tag == Tags.begin_string || f.tag == Tags.body_length || f.tag == Tags.check_sum
        then n
        else (n + length (field_bytes f)) % 2 ^ 32)
      fs

unfoldable pub calculate_and_set_body_length : FixMessageBuilder → FixMessageBuilder
unfolding body_bytes set_field
calculate_and_set_body_length b =
    let n = body_bytes 0 b.message.ordered_fields in
    record b {
      message = record (set_field b.message Tags.body_length (to_string n)) { body_length = n };
    }

-- std::setw(3) with std::setfill('0'), for a number below 1000
unfoldable pub three_digits : ℕ → Bytes
three_digits n = (48 + n / 100) ∷ (48 + n / 10 % 10) ∷ (48 + n % 10) ∷ []

unfoldable pub calculate_and_set_checksum : FixMessageBuilder → FixMessageBuilder
unfolding calculate_checksum three_digits set_field
calculate_and_set_checksum b =
    let n = calculate_checksum b.message in
    record b {
      message = record (set_field b.message Tags.check_sum (three_digits n)) { checksum = n };
    }

-- The defaults that build fills in, each where the builder's message lacks it.
unfoldable pub default_begin_string : FixMessageBuilder → FixMessageBuilder
unfolding begin_string
default_begin_string b =
    if is_empty b.message.begin_string
    then begin_string b (b'F' ∷ b'I' ∷ b'X' ∷ b'.' ∷ b'4' ∷ b'.' ∷ b'4' ∷ [])
    else b

unfoldable pub default_sender : FixMessageBuilder → FixMessageBuilder
unfolding set_field
default_sender b =
    if is_empty b.message.sender_comp_id
    then record b {
      message = record (set_field b.message Tags.sender_comp_id b.sender_comp_id) {
        sender_comp_id = b.sender_comp_id;
      };
    }
    else b

unfoldable pub default_target : FixMessageBuilder → FixMessageBuilder
unfolding set_field
default_target b =
    if is_empty b.message.target_comp_id
    then record b {
      message = record (set_field b.message Tags.target_comp_id b.target_comp_id) {
        target_comp_id = b.target_comp_id;
      };
    }
    else b

unfoldable pub default_seq_num : FixMessageBuilder → FixMessageBuilder
unfolding msg_seq_num
default_seq_num b = if b.message.msg_seq_num == 0 then msg_seq_num b b.next_seq_num else b

-- `now` is the clock's text.
unfoldable pub default_sending_time : FixMessageBuilder → Bytes → FixMessageBuilder
unfolding sending_time
default_sending_time b now = if is_empty b.message.sending_time then sending_time b now else b

unfoldable pub fill_defaults : FixMessageBuilder → Bytes → FixMessageBuilder
unfolding default_begin_string default_sender default_target default_seq_num default_sending_time
fill_defaults b now =
    default_sending_time
      (default_seq_num (default_target (default_sender (default_begin_string b)))) now

-- The builder afterwards; its message is what build returns.
unfoldable pub build : FixMessageBuilder → Bytes → FixMessageBuilder
unfolding fill_defaults calculate_and_set_body_length calculate_and_set_checksum
build b now = calculate_and_set_checksum (calculate_and_set_body_length (fill_defaults b now))

unfoldable pub to_fix_string : FixMessageBuilder → Bytes → Bytes
unfolding build serialize_fix_message
to_fix_string b now = serialize_fix_message (build b now).message
