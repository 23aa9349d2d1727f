-- ===== src/Fix/Builder/Accepted.antt =====
-- The parser accepts what the builder builds.
use hft_engine.Base.{
  Bool, if◌then◌else◌, ◌==◌, ℕ, ◌<◌, ◌^◌, true, false, [], ◌∷◌, ◌≡◌, refl, ap, ◌∙◌, arith,
}
use hft_engine.Fix.Tags
use hft_engine.Fix.Bytes.{Bytes, is_empty, to_string}
use hft_engine.Fix.Bytes.Numbers.{to_string-IsDigits}
use hft_engine.Fix.Message.{FixMessage}
use hft_engine.Fix.Parse.{accepted, parse_message_internal}
use hft_engine.Fix.Parse.RoundTrip.{parse-serialize_fix_message}
use hft_engine.Fix.Parse.Same.{SameMembers, decoded-SameMembers, check_message_same}
use hft_engine.Fix.Workers.Steps.{Star, star-preserves}
use hft_engine.Fix.Builder.{
  new_builder, reset, begin_string, msg_seq_num, sending_time, field, field_number, cl_ord_id,
  order_id, symbol, side, order_qty, ord_type, time_in_force, field_double, price,
  default_begin_string, default_sender, default_target, default_seq_num, default_sending_time,
  FixMessageBuilder, calculate_and_set_body_length, calculate_and_set_checksum, fill_defaults,
  build, to_fix_string,
}
use hft_engine.Fix.Builder.Built.{IsText, digits-IsText}
use hft_engine.Fix.Builder.Sums.{body_size}
use hft_engine.Fix.Builder.Ready.{IsReady, fill_defaults-IsAddressed}
use hft_engine.Fix.Builder.Complete.{build-IsComplete}
use hft_engine.Fix.Builder.Calls.{
  Call, reset_call, begin_string_call, msg_type_call, msg_seq_num_call, sending_time_call,
  field_call, field_number_call, field_double_call, cl_ord_id_call, order_id_call, symbol_call,
  side_call, order_qty_call, price_call, ord_type_call, time_in_force_call, build_call, IsMade,
  new_builder-IsMade, field-IsMade, begin_string-IsMade, msg_type-IsMade, msg_seq_num-IsMade,
  sending_time-IsMade, empty_message-IsBuilt, made-IsReady,
}

-- A builder that is ready builds what the parser accepts.
ready_accepted :
    (b : FixMessageBuilder) (now : Bytes)
    → IsReady b
    → IsText now
    → body_size (fill_defaults b now).message.ordered_fields < 2 ^ 32
    → (m : FixMessage) × (parse_message_internal (to_fix_string b now) ≡ accepted m)
      × (m.ordered_fields ≡ (build b now).message.ordered_fields)
      × SameMembers m (build b now).message
unfolding to_fix_string
ready_accepted b now r t h =
    let sent = (build b now).message in
    let c = build-IsComplete b now r t h in
    let (m, parsed, kept, decoded) =
      parse-serialize_fix_message sent c.not_empty c.built.writable c.built.distinct in
    let same = decoded-SameMembers m sent decoded c.built.decoded kept in
    (m, parsed ∙ check_message_same m sent same kept c.valid c.sum, kept, same)

to_string-IsText : (n : ℕ) → IsText (to_string n)
to_string-IsText n = digits-IsText (to_string n) (to_string-IsDigits n)

-- The two identifications of a builder; the defaults leave them as they are.
abbrev ids : FixMessageBuilder → Bytes × Bytes
ids b = (b.sender_comp_id, b.target_comp_id)

ids_if : (t : Bool) (x y : FixMessageBuilder) → ids x ≡ ids y → ids (if t then x else y) ≡ ids y
ids_if true x y e = e
ids_if false x y e = refl

ids-default_begin_string : (b : FixMessageBuilder) → ids (default_begin_string b) ≡ ids b
unfolding default_begin_string begin_string
ids-default_begin_string b = ids_if (is_empty b.message.begin_string) _ b refl

ids-default_sender : (b : FixMessageBuilder) → ids (default_sender b) ≡ ids b
unfolding default_sender
ids-default_sender b = ids_if (is_empty b.message.sender_comp_id) _ b refl

ids-default_target : (b : FixMessageBuilder) → ids (default_target b) ≡ ids b
unfolding default_target
ids-default_target b = ids_if (is_empty b.message.target_comp_id) _ b refl

ids-default_seq_num : (b : FixMessageBuilder) → ids (default_seq_num b) ≡ ids b
unfolding default_seq_num msg_seq_num
ids-default_seq_num b = ids_if (b.message.msg_seq_num == 0) _ b refl

ids-default_sending_time :
    (b : FixMessageBuilder) (now : Bytes) → ids (default_sending_time b now) ≡ ids b
unfolding default_sending_time sending_time
ids-default_sending_time b now = ids_if (is_empty b.message.sending_time) _ b refl

ids-fill_defaults : (b : FixMessageBuilder) (now : Bytes) → ids (fill_defaults b now) ≡ ids b
unfolding fill_defaults
ids-fill_defaults b now =
    let b1 = default_begin_string b in
    let b2 = default_sender b1 in
    let b3 = default_target b2 in
    let b4 = default_seq_num b3 in
    ids-default_sending_time b4 now
    ∙ ids-default_seq_num b3
    ∙ ids-default_target b2
    ∙ ids-default_sender b1
    ∙ ids-default_begin_string b

module _ (sender target : Bytes) (own : is_empty sender ≡ false) (own_text : IsText sender)
    (other : is_empty target ≡ false) (other_text : IsText target) where
  build-IsMade :
      (b : FixMessageBuilder) (now : Bytes)
      → IsMade sender target b
      → IsText now
      → is_empty b.message.msg_type ≡ false
      → body_size (fill_defaults b now).message.ordered_fields < 2 ^ 32
      → IsMade sender target (build b now)
  unfolding build calculate_and_set_body_length calculate_and_set_checksum
  build-IsMade b now h t typed size =
      let r = made-IsReady sender target b own own_text other other_text h typed in
      let same = ids-fill_defaults b now in
      record {
        built = (build-IsComplete b now r t size).built;
        own = ap (λ p. p.0) same ∙ h.own;
        other = ap (λ p. p.1) same ∙ h.other;
        small = (fill_defaults-IsAddressed b now r t).ready.small;
      }

  module _ {Double : Type 0} (format : Double → ℕ → Bytes) where
    Call-IsMade :
        (b b' : FixMessageBuilder)
        → Call format b b'
        → IsMade sender target b
        → IsMade sender target b'
    unfolding reset field field_number field_double cl_ord_id order_id symbol side order_qty price
        ord_type time_in_force
    Call-IsMade _ _ (reset_call b) h = record {
      built = empty_message-IsBuilt sender target;
      own = h.own;
      other = h.other;
      small = h.small;
    }
    Call-IsMade _ _ (begin_string_call b v t) h = begin_string-IsMade sender target b v h t
    Call-IsMade _ _ (msg_type_call b v t) h = msg_type-IsMade sender target b v h t
    Call-IsMade _ _ (msg_seq_num_call b n k) h = msg_seq_num-IsMade sender target b n h k
    Call-IsMade _ _ (sending_time_call b v t) h = sending_time-IsMade sender target b v h t
    Call-IsMade _ _ (field_call b tag v k p t) h = field-IsMade sender target b tag v h k p t
    Call-IsMade _ _ (field_number_call b tag n k p) h =
        field-IsMade sender target b tag (to_string n) h k p (to_string-IsText n)
    Call-IsMade _ _ (field_double_call b tag x d k p t) h =
        field-IsMade sender target b tag (format x d) h k p t
    Call-IsMade _ _ (cl_ord_id_call b v t) h =
        field-IsMade sender target b Tags.cl_ord_id v h (omega arith) refl t
    Call-IsMade _ _ (order_id_call b v t) h =
        field-IsMade sender target b Tags.order_id v h (omega arith) refl t
    Call-IsMade _ _ (symbol_call b v t) h =
        field-IsMade sender target b Tags.symbol v h (omega arith) refl t
    Call-IsMade _ _ (side_call b v t) h =
        field-IsMade sender target b Tags.side (v ∷ []) h (omega arith) refl (t, tt)
    Call-IsMade _ _ (order_qty_call b n) h =
        field-IsMade sender target b Tags.order_qty (to_string n) h (omega arith) refl
          (to_string-IsText n)
    Call-IsMade _ _ (price_call b x d t) h =
        field-IsMade sender target b Tags.price (format x d) h (omega arith) refl t
    Call-IsMade _ _ (ord_type_call b v t) h =
        field-IsMade sender target b Tags.ord_type (v ∷ []) h (omega arith) refl (t, tt)
    Call-IsMade _ _ (time_in_force_call b v t) h =
        field-IsMade sender target b Tags.time_in_force (v ∷ []) h (omega arith) refl (t, tt)
    Call-IsMade _ _ (build_call b now t typed size) h = build-IsMade b now h t typed size

    -- For a new builder with two identifications that are not empty, after any calls of its operations,
    -- in any order, whose texts have no separator, which use `field` for no tag of a member, and which
    -- call `build` only for messages that have a type and a body shorter than 2 ^ 32 bytes: if its
    -- message has a type, the clock's text has no separator and the body is shorter than 2 ^ 32 bytes,
    -- the parser accepts the text of the built message, and reads the same fields in the same order and
    -- the same members.
    pub build_accepted :
        (b : FixMessageBuilder) (now : Bytes)
        → Star (Call format) (new_builder sender target) b
        → is_empty b.message.msg_type ≡ false
        → IsText now
        → body_size (fill_defaults b now).message.ordered_fields < 2 ^ 32
        → (m : FixMessage) × (parse_message_internal (to_fix_string b now) ≡ accepted m)
          × (m.ordered_fields ≡ (build b now).message.ordered_fields)
          × SameMembers m (build b now).message
    build_accepted b now calls typed t size =
        let made : IsMade sender target b =
          star-preserves (Call format) (IsMade sender target) Call-IsMade calls
            (new_builder-IsMade sender target) in
        ready_accepted b now (made-IsReady sender target b own own_text other other_text made typed)
          t size
