-- ===== src/Fix/Builder/Ready.antt =====
-- What a builder must hold for its message to be accepted, and the defaults that build fills in.
use hft_engine.Base.{
  ℕ, ◌<◌, ◌+◌, ◌%◌, ◌^◌, Bool, true, false, ◌≡◌, ◌≢◌, refl, arith, ◌==◌, if◌then◌else◌,
}
use hft_engine.Fix.Tags
use hft_engine.Fix.Bytes.{Bytes, is_empty, to_string}
use hft_engine.Fix.Bytes.Numbers.{to_string-IsDigits}
use hft_engine.Fix.Message.{FixMessage, get_field, set_field}
use hft_engine.Fix.Parse.Headers.{read_header}
use hft_engine.Fix.Parse.{number_or_zero}
use hft_engine.Fix.Builder.{
  FixMessageBuilder, begin_string, msg_seq_num, sending_time, default_begin_string, default_sender,
  default_target, default_seq_num, default_sending_time, fill_defaults,
}
use hft_engine.Fix.Builder.Built.{
  IsBuilt, IsText, text-IsWritable, member-IsBuilt, digits-IsText, number-to_string,
}

-- A message that the builder's operations have made, with a message type; and identifications of the
-- two sides that are not empty and have no separator.
pub record IsReady (b : FixMessageBuilder) : Type 0 where
  pub built : IsBuilt b.message
  pub typed : is_empty b.message.msg_type ≡ false
  pub sender : is_empty b.sender_comp_id ≡ false
  pub sender_text : IsText b.sender_comp_id
  pub target : is_empty b.target_comp_id ≡ false
  pub target_text : IsText b.target_comp_id
  pub small : b.next_seq_num < 2 ^ 32

-- The members that build fills in before the sequence number.
pub record IsAddressed (b : FixMessageBuilder) : Type 0 where
  pub ready : IsReady b
  pub begins : is_empty b.message.begin_string ≡ false
  pub sent : is_empty b.message.sender_comp_id ≡ false
  pub aimed : is_empty b.message.target_comp_id ≡ false

if_either {ℓ κ} :
    {A : Type ℓ} (P : A → Type κ) (t : Bool) (x y : A)
    → (t ≡ true → P x)
    → (t ≡ false → P y)
    → P (if t then x else y)
if_either P true x y f g = f refl
if_either P false x y f g = g refl

pub text_member :
    (put : Bytes → FixMessage) (m : FixMessage) (tag : ℕ) (value : Bytes)
    → IsBuilt m
    → tag < 2 ^ 32
    → tag ≢ Tags.body_length
    → IsText value
    → put (get_field (set_field m tag value) tag) ≡ read_header (set_field m tag value) tag
    → IsBuilt (put value)
text_member put m tag value b small other t e =
    member-IsBuilt (λ v. v) put m tag value value b (text-IsWritable tag value small other t) e refl

-- A builder with another message.
with_message :
    (b : FixMessageBuilder) (m : FixMessage) (next : ℕ)
    → IsReady b
    → IsBuilt m
    → is_empty m.msg_type ≡ false
    → next < 2 ^ 32
    → IsReady (record b { message = m; next_seq_num = next })
with_message b m next r built typed small = record {
  built = built;
  typed = typed;
  sender = r.sender;
  sender_text = r.sender_text;
  target = r.target;
  target_text = r.target_text;
  small = small;
}

begin_string-IsReady :
    (b : FixMessageBuilder) (version : Bytes)
    → IsReady b
    → IsText version
    → IsReady (begin_string b version)
unfolding begin_string set_field
begin_string-IsReady b version r t =
    with_message b _ b.next_seq_num r
      (text_member
        (λ v. record (set_field b.message Tags.begin_string version) { begin_string = v }) b.message
        Tags.begin_string version r.built (omega arith) (omega arith) t refl)
      r.typed r.small

sender-IsReady :
    (b : FixMessageBuilder)
    → IsReady b
    → IsReady (record b {
      message = record (set_field b.message Tags.sender_comp_id b.sender_comp_id) {
        sender_comp_id = b.sender_comp_id;
      };
    })
unfolding set_field
sender-IsReady b r =
    with_message b _ b.next_seq_num r
      (text_member
        (λ v. record (set_field b.message Tags.sender_comp_id b.sender_comp_id) {
          sender_comp_id = v;
        })
        b.message Tags.sender_comp_id b.sender_comp_id r.built (omega arith) (omega arith)
        r.sender_text refl)
      r.typed r.small

target-IsReady :
    (b : FixMessageBuilder)
    → IsReady b
    → IsReady (record b {
      message = record (set_field b.message Tags.target_comp_id b.target_comp_id) {
        target_comp_id = b.target_comp_id;
      };
    })
unfolding set_field
target-IsReady b r =
    with_message b _ b.next_seq_num r
      (text_member
        (λ v. record (set_field b.message Tags.target_comp_id b.target_comp_id) {
          target_comp_id = v;
        })
        b.message Tags.target_comp_id b.target_comp_id r.built (omega arith) (omega arith)
        r.target_text refl)
      r.typed r.small

msg_seq_num-IsReady :
    (b : FixMessageBuilder) (n : ℕ) → IsReady b → n < 2 ^ 32 → IsReady (msg_seq_num b n)
unfolding msg_seq_num set_field
msg_seq_num-IsReady b n r h =
    with_message b _ ((n + 1) % 2 ^ 32) r
      (member-IsBuilt (number_or_zero (2 ^ 32))
        (λ v. record (set_field b.message Tags.msg_seq_num (to_string n)) { msg_seq_num = v })
        b.message Tags.msg_seq_num (to_string n) n r.built
        (text-IsWritable Tags.msg_seq_num (to_string n) (omega arith) (omega arith)
          (digits-IsText (to_string n) (to_string-IsDigits n)))
        refl (number-to_string n h))
      r.typed (omega arith)

sending_time-IsReady :
    (b : FixMessageBuilder) (time : Bytes) → IsReady b → IsText time → IsReady (sending_time b time)
unfolding sending_time set_field
sending_time-IsReady b time r t =
    with_message b _ b.next_seq_num r
      (text_member (λ v. record (set_field b.message Tags.sending_time time) { sending_time = v })
        b.message Tags.sending_time time r.built (omega arith) (omega arith) t refl)
      r.typed r.small

-- Ready, and with the member that has been filled in.
abbrev HasBegin : FixMessageBuilder → Type 0
HasBegin b = IsReady b × (is_empty b.message.begin_string ≡ false)

abbrev HasSender : FixMessageBuilder → Type 0
HasSender b = HasBegin b × (is_empty b.message.sender_comp_id ≡ false)

default_begin_string-HasBegin :
    (b : FixMessageBuilder) → IsReady b → HasBegin (default_begin_string b)
unfolding default_begin_string begin_string
default_begin_string-HasBegin b r =
    if_either HasBegin (is_empty b.message.begin_string) _ b
      (λ e. (
        begin_string-IsReady b _ r (
          omega arith,
          (
            omega arith,
            (omega arith, (omega arith, (omega arith, (omega arith, (omega arith, tt))))),
          ),
        ),
        refl,
      ))
      (λ e. (r, e))

default_sender-HasSender : (b : FixMessageBuilder) → HasBegin b → HasSender (default_sender b)
unfolding default_sender set_field
default_sender-HasSender b h =
    if_either HasSender (is_empty b.message.sender_comp_id) _ b
      (λ e. ((sender-IsReady b h.0, h.1), h.0.sender)) (λ e. (h, e))

default_target-IsAddressed : (b : FixMessageBuilder) → HasSender b → IsAddressed (default_target b)
unfolding default_target set_field
default_target-IsAddressed b h =
    if_either IsAddressed (is_empty b.message.target_comp_id) _ b
      (λ e. record {
        ready = target-IsReady b h.0.0;
        begins = h.0.1;
        sent = h.1;
        aimed = h.0.0.target;
      })
      (λ e. record { ready = h.0.0; begins = h.0.1; sent = h.1; aimed = e })

default_seq_num-IsAddressed :
    (b : FixMessageBuilder) → IsAddressed b → IsAddressed (default_seq_num b)
unfolding default_seq_num msg_seq_num set_field
default_seq_num-IsAddressed b a =
    if_either IsAddressed (b.message.msg_seq_num == 0) _ b
      (λ e. record {
        ready = msg_seq_num-IsReady b b.next_seq_num a.ready a.ready.small;
        begins = a.begins;
        sent = a.sent;
        aimed = a.aimed;
      })
      (λ e. a)

default_sending_time-IsAddressed :
    (b : FixMessageBuilder) (now : Bytes)
    → IsAddressed b
    → IsText now
    → IsAddressed (default_sending_time b now)
unfolding default_sending_time sending_time set_field
default_sending_time-IsAddressed b now a t =
    if_either IsAddressed (is_empty b.message.sending_time) _ b
      (λ e. record {
        ready = sending_time-IsReady b now a.ready t;
        begins = a.begins;
        sent = a.sent;
        aimed = a.aimed;
      })
      (λ e. a)

-- The defaults make the message complete, up to its body length and checksum.
pub fill_defaults-IsAddressed :
    (b : FixMessageBuilder) (now : Bytes)
    → IsReady b
    → IsText now
    → IsAddressed (fill_defaults b now)
unfolding fill_defaults
fill_defaults-IsAddressed b now r t =
    default_sending_time-IsAddressed _ now
      (default_seq_num-IsAddressed _ (
        default_target-IsAddressed _
          (default_sender-HasSender _ (default_begin_string-HasBegin b r))))
      t
