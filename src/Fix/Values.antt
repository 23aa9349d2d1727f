-- ===== src/Fix/Values.antt =====
-- FixMessage::get_price and get_quantity, and the kinds of messages at the end of
-- src/fix/fix_parser.cpp.
use hft_engine.Base.{ℕ, Bool, not, ◌||◌, Option, some, [], ◌∷◌, if◌then◌else◌}
use hft_engine.Fix.Bytes.{Bytes, is_empty, same_bytes, stoul}
use hft_engine.Fix.Message.{FixMessage, get_field}

module _ {Price : Type 0} (zero_price : Price) (stod : Bytes → Option Price) where
  -- none is an exception of std::stod.
  unfoldable pub get_price : FixMessage → ℕ → Option Price
  get_price m tag =
      let value = get_field m tag in if is_empty value then some zero_price else stod value

-- none is an exception of std::stoull.
unfoldable pub get_quantity : FixMessage → ℕ → Option ℕ
get_quantity m tag = let value = get_field m tag in if is_empty value then some 0 else stoul value

-- msg_type == "c"
abbrev is_type : Bytes → ℕ → Bool
is_type msg_type c = same_bytes msg_type (c ∷ [])

unfoldable pub is_admin_message : Bytes → Bool
is_admin_message msg_type =
    is_type msg_type b'0'
    || (is_type msg_type b'1'
        || (is_type msg_type b'2'
            || (is_type msg_type b'3' || (is_type msg_type b'4' || is_type msg_type b'5'))))

unfoldable pub is_application_message : Bytes → Bool
is_application_message msg_type = not (is_admin_message msg_type)

unfoldable pub is_order_message : Bytes → Bool
is_order_message msg_type =
    is_type msg_type b'D' || (is_type msg_type b'F' || is_type msg_type b'G')

unfoldable pub is_execution_report : Bytes → Bool
is_execution_report msg_type = is_type msg_type b'8'
