-- ===== src/Fix/Builder/Examples.antt =====
-- A built message.
use hft_engine.Base.{ℕ, [], ◌∷◌, ◌≡◌, some, refl, arith, ◌≢◌}
use hft_engine.Fix.Message.{FixMessage, set_field, set_ordered, field_bytes}
use hft_engine.Fix.Parse.{accepted, parse_message_internal}
use hft_engine.Fix.Parse.Same.{SameMembers}
use hft_engine.Fix.Builder.{
  FixMessageBuilder, new_builder, msg_type, fill_defaults, build, to_fix_string,
}
use hft_engine.Fix.Builder.Sums.{body_size}
use hft_engine.Fix.Workers.Steps.{here, next}
use hft_engine.Fix.Builder.Calls.{msg_type_call}
use hft_engine.Fix.Bytes.{to_string}
use hft_engine.Fix.Builder.Accepted.{build_accepted}
use hft_engine.Fix.Builder.Extracted.{build_not_extracted}
use hft_engine.Fix.Feed.{extract_next_message}

-- A new order from A to B.
abbrev order_builder : FixMessageBuilder
unfolding msg_type new_builder
order_builder = msg_type (new_builder (b'A' ∷ []) (b'B' ∷ [])) (b'D' ∷ [])

build_accepted_example :
    (m : FixMessage) × (parse_message_internal (to_fix_string order_builder (b'0' ∷ []))
      ≡ accepted m)
    × (m.ordered_fields ≡ (build order_builder (b'0' ∷ [])).message.ordered_fields)
    × SameMembers m (build order_builder (b'0' ∷ [])).message
unfolding fill_defaults body_size field_bytes order_builder msg_type new_builder
build_accepted_example =
    build_accepted (b'A' ∷ []) (b'B' ∷ []) refl (omega arith, tt) refl (omega arith, tt)
      (λ (x : ℕ) precision. to_string x) order_builder (b'0' ∷ [])
      (next here (msg_type_call _ (b'D' ∷ []) (omega arith, tt))) refl (omega arith, tt)
      (omega arith)

build_not_extracted_example :
    (extract_next_message
      (record { bytes = to_fix_string order_builder (b'0' ∷ []); position = 0 })).0
    ≢ some (to_fix_string order_builder (b'0' ∷ []))
unfolding order_builder msg_type new_builder set_field set_ordered
build_not_extracted_example =
    build_not_extracted order_builder (b'0' ∷ []) 35 refl (omega arith) (omega arith)
