-- ===== src/Fix/Builder/Calls.antt =====
-- The calls that a client makes of a FixMessageBuilder, in any order, and what they keep.
use mathlib.Core.Path.{subst}
use hft_engine.Base.{ℕ, ◌<◌, ◌+◌, ◌%◌, ◌^◌, Bool, true, false, ◌||◌, ◌≡◌, ◌≢◌, refl, arith, ◌==◌}
use hft_engine.Fix.Tags
use hft_engine.Fix.Bytes.{Bytes, soh, is_empty, to_string}
use hft_engine.Fix.Bytes.Numbers.{to_string-IsDigits}
use hft_engine.Fix.Message.{FixMessage, empty_message, set_field}
use hft_engine.Fix.Parse.{number_or_zero}
use hft_engine.Fix.Parse.Headers.{read_header}
use hft_engine.Fix.Parse.RoundTrip.{empty_message-IsDecoded}
use hft_engine.Fix.Builder.{
  FixMessageBuilder, new_builder, reset, begin_string, msg_type, msg_seq_num, sending_time, field,
  field_number, cl_ord_id, order_id, symbol, side, order_qty, ord_type, time_in_force, field_double,
  price, fill_defaults, build,
}
use hft_engine.Fix.Builder.Built.{
  IsBuilt, IsText, text-IsWritable, member-IsBuilt, set_field-IsBuilt, digits-IsText,
  number-to_string,
}
use hft_engine.Fix.Builder.Sums.{body_size}
use hft_engine.Fix.Builder.Ready.{IsReady, text_member}

-- The tag of a member of FixMessage.
abbrev pub is_member : ℕ → Bool
is_member tag =
    tag == Tags.begin_string
    || (tag == Tags.body_length
        || (tag == Tags.msg_type
            || (tag == Tags.msg_seq_num
                || (tag == Tags.sender_comp_id
                    || (tag == Tags.target_comp_id
                        || (tag == Tags.sending_time || tag == Tags.check_sum))))))

-- A call. A text that it puts into the message has no separator; `field` is not used for the tag of a
-- member, which it would leave as it is; a number is a uint32_t or a uint64_t; and build is called for
-- a message with a type whose body is shorter than 2 ^ 32 bytes.
pub data Call {Double : Type 0} (format : Double → ℕ → Bytes)
    : FixMessageBuilder → FixMessageBuilder → Type 0 where
  reset_call : (b : FixMessageBuilder) → Call format b (reset b)
  begin_string_call :
      (b : FixMessageBuilder) (version : Bytes)
      → IsText version
      → Call format b (begin_string b version)
  msg_type_call :
      (b : FixMessageBuilder) (type : Bytes) → IsText type → Call format b (msg_type b type)
  msg_seq_num_call : (b : FixMessageBuilder) (n : ℕ) → n < 2 ^ 32 → Call format b (msg_seq_num b n)
  sending_time_call :
      (b : FixMessageBuilder) (time : Bytes) → IsText time → Call format b (sending_time b time)
  field_call :
      (b : FixMessageBuilder) (tag : ℕ) (value : Bytes)
      → tag < 2 ^ 32
      → is_member tag ≡ false
      → IsText value
      → Call format b (field b tag value)
  field_number_call :
      (b : FixMessageBuilder) (tag n : ℕ)
      → tag < 2 ^ 32
      → is_member tag ≡ false
      → Call format b (field_number b tag n)
  field_double_call :
      (b : FixMessageBuilder) (tag : ℕ) (x : Double) (precision : ℕ)
      → tag < 2 ^ 32
      → is_member tag ≡ false
      → IsText (format x precision)
      → Call format b (field_double format b tag x precision)
  cl_ord_id_call : (b : FixMessageBuilder) (id : Bytes) → IsText id → Call format b (cl_ord_id b id)
  order_id_call : (b : FixMessageBuilder) (id : Bytes) → IsText id → Call format b (order_id b id)
  symbol_call : (b : FixMessageBuilder) (s : Bytes) → IsText s → Call format b (symbol b s)
  side_call : (b : FixMessageBuilder) (s : ℕ) → s ≢ soh → Call format b (side b s)
  order_qty_call : (b : FixMessageBuilder) (q : ℕ) → Call format b (order_qty b q)
  price_call :
      (b : FixMessageBuilder) (x : Double) (precision : ℕ)
      → IsText (format x precision)
      → Call format b (price format b x precision)
  ord_type_call : (b : FixMessageBuilder) (t : ℕ) → t ≢ soh → Call format b (ord_type b t)
  time_in_force_call : (b : FixMessageBuilder) (t : ℕ) → t ≢ soh → Call format b (time_in_force b t)
  build_call :
      (b : FixMessageBuilder) (now : Bytes)
      → IsText now
      → is_empty b.message.msg_type ≡ false
      → body_size (fill_defaults b now).message.ordered_fields < 2 ^ 32
      → Call format b (build b now)

-- What the calls keep, for a builder that was made with the two identifications.
pub record IsMade (sender target : Bytes) (b : FixMessageBuilder) : Type 0 where
  pub built : IsBuilt b.message
  pub own : b.sender_comp_id ≡ sender
  pub other : b.target_comp_id ≡ target
  pub small : b.next_seq_num < 2 ^ 32

neither : (x y : Bool) → (x || y) ≡ false → (x ≡ false) × (y ≡ false)
neither true y h = absurd (cc)
neither false y h = (refl, h)

module _ (sender target : Bytes) where
  pub empty_message-IsBuilt : IsBuilt empty_message
  empty_message-IsBuilt = record { decoded = empty_message-IsDecoded; writable = tt; distinct = tt }

  pub new_builder-IsMade : IsMade sender target (new_builder sender target)
  unfolding new_builder
  new_builder-IsMade = record {
    built = empty_message-IsBuilt;
    own = refl;
    other = refl;
    small = omega arith;
  }

  with_built :
      (b : FixMessageBuilder) (m : FixMessage) (next : ℕ)
      → IsMade sender target b
      → IsBuilt m
      → next < 2 ^ 32
      → IsMade sender target (record b { message = m; next_seq_num = next })
  with_built b m next h built small = record {
    built = built;
    own = h.own;
    other = h.other;
    small = small;
  }

  -- A field that is no member.
  plain_header : (m : FixMessage) (tag : ℕ) → is_member tag ≡ false → read_header m tag ≡ m
  plain_header m tag h =
      let (h1, r1) = neither (tag == Tags.begin_string) _ h in
      let (h2, r2) = neither (tag == Tags.body_length) _ r1 in
      let (h3, r3) = neither (tag == Tags.msg_type) _ r2 in
      let (h4, r4) = neither (tag == Tags.msg_seq_num) _ r3 in
      let (h5, r5) = neither (tag == Tags.sender_comp_id) _ r4 in
      let (h6, r6) = neither (tag == Tags.target_comp_id) _ r5 in
      let (h7, h8) = neither (tag == Tags.sending_time) _ r6 in
      rw (h1, h2, h3, h4, h5, h6, h7, h8) refl

  pub field-IsMade :
      (b : FixMessageBuilder) (tag : ℕ) (value : Bytes)
      → IsMade sender target b
      → tag < 2 ^ 32
      → is_member tag ≡ false
      → IsText value
      → IsMade sender target (record b { message = set_field b.message tag value })
  field-IsMade b tag value h small plain t =
      with_built b _ b.next_seq_num h
        (subst (λ m. IsBuilt m) (plain_header (set_field b.message tag value) tag plain)
          (set_field-IsBuilt b.message tag value h.built
            (text-IsWritable tag value small (ground (arith, plain)) t)))
        h.small

  pub begin_string-IsMade :
      (b : FixMessageBuilder) (version : Bytes)
      → IsMade sender target b
      → IsText version
      → IsMade sender target (begin_string b version)
  unfolding begin_string set_field
  begin_string-IsMade b version h t =
      with_built b _ b.next_seq_num h
        (text_member
          (λ v. record (set_field b.message Tags.begin_string version) { begin_string = v })
          b.message Tags.begin_string version h.built (omega arith) (omega arith) t refl)
        h.small

  pub msg_type-IsMade :
      (b : FixMessageBuilder) (type : Bytes)
      → IsMade sender target b
      → IsText type
      → IsMade sender target (msg_type b type)
  unfolding msg_type set_field
  msg_type-IsMade b type h t =
      with_built b _ b.next_seq_num h
        (text_member (λ v. record (set_field b.message Tags.msg_type type) { msg_type = v })
          b.message Tags.msg_type type h.built (omega arith) (omega arith) t refl)
        h.small

  pub sending_time-IsMade :
      (b : FixMessageBuilder) (time : Bytes)
      → IsMade sender target b
      → IsText time
      → IsMade sender target (sending_time b time)
  unfolding sending_time set_field
  sending_time-IsMade b time h t =
      with_built b _ b.next_seq_num h
        (text_member (λ v. record (set_field b.message Tags.sending_time time) { sending_time = v })
          b.message Tags.sending_time time h.built (omega arith) (omega arith) t refl)
        h.small

  pub msg_seq_num-IsMade :
      (b : FixMessageBuilder) (n : ℕ)
      → IsMade sender target b
      → n < 2 ^ 32
      → IsMade sender target (msg_seq_num b n)
  unfolding msg_seq_num set_field
  msg_seq_num-IsMade b n h k =
      with_built b _ ((n + 1) % 2 ^ 32) h
        (member-IsBuilt (number_or_zero (2 ^ 32))
          (λ v. record (set_field b.message Tags.msg_seq_num (to_string n)) { msg_seq_num = v })
          b.message Tags.msg_seq_num (to_string n) n h.built
          (text-IsWritable Tags.msg_seq_num (to_string n) (omega arith) (omega arith)
            (digits-IsText (to_string n) (to_string-IsDigits n)))
          refl (number-to_string n k))
        (omega arith)

-- A made builder with a type, of identifications that are not empty and have no separator, is ready.
pub made-IsReady :
    (sender target : Bytes) (b : FixMessageBuilder)
    → is_empty sender ≡ false
    → IsText sender
    → is_empty target ≡ false
    → IsText target
    → IsMade sender target b
    → is_empty b.message.msg_type ≡ false
    → IsReady b
made-IsReady sender target b s st t tt' h typed = record {
  built = h.built;
  typed = typed;
  sender = rw h.own s;
  sender_text = rw h.own st;
  target = rw h.other t;
  target_text = rw h.other tt';
  small = h.small;
}
