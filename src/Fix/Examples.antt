-- ===== src/Fix/Examples.antt =====
-- The properties of the FIX parser at concrete messages.
use hft_engine.Base.{
  true, false, none, some, List, [], ◌∷◌, ◌++◌, ◌≡◌, refl, arith, length, ltb, All, ◌%◌, ◌==◌,
  if◌then◌else◌,
}
use hft_engine.Containers.HashMap
use hft_engine.Core.{LockFreeQueue}
use hft_engine.Fix.Bytes.{Bytes, stoul, find_from, find_at, begins, drop}
use hft_engine.Fix.Message.{
  FixMessage, empty_message, get_field, has_field, set_field, calculate_checksum, text_checksum,
  serialize_fields, serialize_fix_message,
}
use hft_engine.Fix.Message.Fields.{
  AgreesAt, find_ordered, set_field_lem, without_checksum, total_bytes, checksum_serialized,
}
use hft_engine.Fix.Parse.{check_message, parse_message_internal}
use hft_engine.Fix.Parse.Split.{IsWritable}
use hft_engine.Fix.Parse.RoundTrip.{IsDecoded, parse-serialize_fix_message}
use hft_engine.Fix.Feed.{Buffer, Feed, extract_next_message, message_end, consume}
use hft_engine.Fix.Feed.Delivery.{message_sent_again}

-- "8=FIX.4.4|35=D|10=000|" with SOH for the bars.
abbrev message_text : Bytes
message_text =
    b'8' ∷ b'=' ∷ b'F' ∷ b'I' ∷ b'X' ∷ b'.' ∷ b'4' ∷ b'.' ∷ b'4' ∷ 1 ∷ b'3' ∷ b'5' ∷ b'=' ∷ b'D' ∷ 1
    ∷ b'1' ∷ b'0' ∷ b'=' ∷ b'0' ∷ b'0' ∷ b'0' ∷ 1 ∷ []

abbrev full_buffer : Buffer
full_buffer = record { bytes = message_text; position = 0 }

-- A queue with room for one message.
abbrev single : LockFreeQueue Bytes
single = record {
  Queue = List Bytes;
  empty_queue = [];
  enqueue = λ q m. if ltb (length q) 1 then (true, m ∷ q) else (false, q);
  dequeue = λ q. elim q [ [] ↦ none | m ∷ ms ↦ some (m, ms) ];
}

message_sent_again_example :
    let b' = (extract_next_message (extract_next_message full_buffer).1).1 in
    ((extract_next_message (extract_next_message full_buffer).1).0 ≡ none)
    × ((extract_next_message (record b' { bytes = b'.bytes ++ b'8' ∷ b'=' ∷ [] })).0
        ≡ some message_text)
unfolding extract_next_message message_end consume find_from find_at begins drop
message_sent_again_example =
    message_sent_again full_buffer message_text (b'8' ∷ b'=' ∷ []) refl refl refl refl

-- The queue is full before the message comes.
abbrev waiting : Feed single
waiting = record {
  buffer = record { bytes = []; position = 0 };
  raw_queue = [] ∷ [];
  bytes_processed = 0;
  queue_full_events = 0;
  messages_dropped = 0;
  full_reports = 0;
}

-- Three fields, of which the second is a body length.
abbrev sent_message : FixMessage
sent_message = record empty_message {
  fields = (8, b'F' ∷ []) ∷ (9, b'5' ∷ []) ∷ (35, b'D' ∷ []) ∷ [];
  ordered_fields =
      record { tag = 8; value = b'F' ∷ [] }
      ∷ record { tag = 9; value = b'5' ∷ [] }
      ∷ record { tag = 35; value = b'D' ∷ [] }
      ∷ [];
}

set_field_lem_example :
    AgreesAt 35 (set_field sent_message 9 (b'7' ∷ []))
    × (get_field (set_field sent_message 9 (b'7' ∷ [])) 35
        ≡ (if 9 == 35 then b'7' ∷ [] else get_field sent_message 35))
    × (has_field (set_field sent_message 9 (b'7' ∷ [])) 35
        ≡ (if 9 == 35 then true else has_field sent_message 35))
unfolding HashMap.find find_ordered
set_field_lem_example = set_field_lem sent_message 9 35 (b'7' ∷ []) refl

checksum_serialized_example :
    let text = serialize_fields (without_checksum sent_message.ordered_fields) in
    (calculate_checksum sent_message ≡ text_checksum text)
    × (calculate_checksum sent_message ≡ total_bytes text % 256)
checksum_serialized_example = checksum_serialized sent_message

sent_message-IsWritable : All IsWritable sent_message.ordered_fields
unfolding stoul
sent_message-IsWritable = (
  record {
    small = omega arith;
    plain = (omega arith, tt);
    numeric = λ e. absurd (omega (arith, e));
  },
  (
    record { small = omega arith; plain = (omega arith, tt); numeric = λ e. (5, refl) },
    (
      record {
        small = omega arith;
        plain = (omega arith, tt);
        numeric = λ e. absurd (omega (arith, e));
      },
      tt,
    ),
  ),
)

parse-serialize_fix_message_example :
    (m : FixMessage) × (parse_message_internal (serialize_fix_message sent_message)
      ≡ check_message m)
    × (m.ordered_fields ≡ sent_message.ordered_fields)
    × IsDecoded m
parse-serialize_fix_message_example =
    parse-serialize_fix_message sent_message refl sent_message-IsWritable
      ((omega arith, (omega arith, tt)), ((omega arith, tt), (tt, tt)))
