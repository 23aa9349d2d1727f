-- ===== src/Fix/Parse/RoundTrip.antt =====
-- What parse_message_internal makes of a text that serialize_fix_message has written.
use mathlib.Core.List.{append_assoc, append-nil}
use hft_engine.Base.{ℕ, false, some, List, [], ◌∷◌, ◌++◌, map, ◌≡◌, ◌≢◌, refl, ◌∙◌, sym, arith, All}
use hft_engine.Containers.HashMap
use hft_engine.Containers.HashMap.{find-assign}
use hft_engine.Fix.Bytes.{Bytes, is_empty, stoul}
use hft_engine.Fix.Message.{
  FixField, FixMessage, empty_message, get_field, set_ordered, set_field, serialize_fields,
  serialize_fix_message,
}
use hft_engine.Fix.Message.Fields.{AgreesAt, find_ordered, set_field_lem}
use hft_engine.Fix.Parse.{
  store_header, store_fields, check_message, parse_fields, parse_message_internal,
}
use hft_engine.Fix.Parse.Headers.{
  IsRead, read_header, get_field-set, store_header_read, read_header-IsRead,
}
use hft_engine.Fix.Parse.Split.{IsWritable, field_text, parse-field_text, split-serialize}

-- No two fields with the same tag.
abbrev pub Distinct : List FixField → Type 0
Distinct [] = Unit
Distinct (f ∷ fs) = All (λ g. g.tag ≢ f.tag) fs × Distinct fs

set_ordered-new :
    (tag : ℕ) (value : Bytes) (fs : List FixField)
    → All (λ g. g.tag ≢ tag) fs
    → set_ordered tag value fs ≡ fs ++ (record { tag = tag; value = value }) ∷ []
unfolding set_ordered
set_ordered-new tag value [] h = refl
set_ordered-new tag value (f ∷ fs) h = ground (arith, set_ordered-new tag value fs h.1, h.0)

All-middle :
    (P : FixField → Type 0) (os : List FixField) (f : FixField) (fs : List FixField)
    → All P (os ++ f ∷ fs)
    → P f
All-middle P [] f fs h = h.0
All-middle P (o ∷ os) f fs h = All-middle P os f fs h.1

-- A field between the others has none of the tags before it.
new_behind :
    (os : List FixField) (f : FixField) (fs : List FixField)
    → Distinct (os ++ f ∷ fs)
    → All (λ g. g.tag ≢ f.tag) os
new_behind [] f fs d = tt
new_behind (o ∷ os) f fs d =
    (λ e. All-middle (λ g. g.tag ≢ o.tag) os f fs d.0 (sym e), new_behind os f fs d.1)

-- What the loop keeps: the members and the map of fields say what the ordered fields say.
pub record IsDecoded (m : FixMessage) : Type 0 where
  pub is_read : IsRead m
  pub agrees : (u : ℕ) → AgreesAt u m

store_field_written :
    (m : FixMessage) (f : FixField)
    → IsWritable f
    → All (λ g. g.tag ≢ f.tag) m.ordered_fields
    → IsDecoded m
    → let m' = read_header (set_field m f.tag f.value) f.tag in
      (store_header (set_field m f.tag f.value) f.tag ≡ some m')
      × (m'.ordered_fields ≡ m.ordered_fields ++ f ∷ [])
      × IsDecoded m'
unfolding set_field
store_field_written m f w new d =
    let same : get_field (set_field m f.tag f.value) f.tag ≡ f.value =
      ground (arith, get_field-set m f.tag f.tag f.value) in
    (
      store_header_read (set_field m f.tag f.value) f.tag (λ e. rw same (w.numeric e)),
      set_ordered-new f.tag f.value m.ordered_fields new,
      record {
        is_read = read_header-IsRead m f.tag f.value d.is_read;
        agrees = λ u. (set_field_lem m f.tag u f.value (d.agrees u)).0;
      },
    )

store_fields_written :
    (m : FixMessage) (fs : List FixField)
    → All IsWritable fs
    → Distinct (m.ordered_fields ++ fs)
    → IsDecoded m
    → (m' : FixMessage) × (store_fields m (map field_text fs) ≡ some m')
      × (m'.ordered_fields ≡ m.ordered_fields ++ fs)
      × IsDecoded m'
unfolding store_fields
store_fields_written m [] w distinct d = (m, refl, sym (append-nil m.ordered_fields), d)
store_fields_written m (f ∷ fs) w distinct d =
    let (stored, kept, d') =
      store_field_written m f w.0 (new_behind m.ordered_fields f fs distinct) d in
    let m1 = read_header (set_field m f.tag f.value) f.tag in
    let shift : m1.ordered_fields ++ fs ≡ m.ordered_fields ++ f ∷ fs =
      rw kept (append_assoc m.ordered_fields (f ∷ []) fs) in
    let (m2, ran, all, d2) = store_fields_written m1 fs w.1 (rw shift distinct) d' in
    (m2, rw (store_fields, parse-field_text f w.0, stored) ran, all ∙ shift, d2)

pub empty_message-IsDecoded : IsDecoded empty_message
unfolding get_field find_ordered HashMap.find stoul
empty_message-IsDecoded = record {
  is_read = record {
    begin_string = refl;
    body_length = refl;
    msg_type = refl;
    msg_seq_num = refl;
    sender_comp_id = refl;
    target_comp_id = refl;
    sending_time = refl;
    checksum = refl;
  };
  agrees = λ u. refl;
}

parse-serialize_fields :
    (fs : List FixField)
    → is_empty fs ≡ false
    → All IsWritable fs
    → Distinct fs
    → (m : FixMessage) × (parse_message_internal (serialize_fields fs) ≡ check_message m)
      × (m.ordered_fields ≡ fs)
      × IsDecoded m
unfolding parse_message_internal
parse-serialize_fields [] e w d = absurd (cc)
parse-serialize_fields (f ∷ fs) e w d =
    let (m, ran, kept, decoded) =
      store_fields_written empty_message (f ∷ fs) w d empty_message-IsDecoded in
    (
      m,
      rw (parse_fields, parse_message_internal, split-serialize (f ∷ fs) w, parse_fields, ran) refl,
      kept,
      decoded,
    )

-- The text of a message with at least one field, whose fields have different tags that fit in 32 bits,
-- values without separators and, for a body length, a number: the parser reads the same fields in the
-- same order, each member is what its field says, and the message is accepted or refused by
-- check_message alone.
pub parse-serialize_fix_message :
    (sent : FixMessage)
    → is_empty sent.ordered_fields ≡ false
    → All IsWritable sent.ordered_fields
    → Distinct sent.ordered_fields
    → (m : FixMessage) × (parse_message_internal (serialize_fix_message sent) ≡ check_message m)
      × (m.ordered_fields ≡ sent.ordered_fields)
      × IsDecoded m
unfolding serialize_fix_message
parse-serialize_fix_message sent e w d = parse-serialize_fields sent.ordered_fields e w d
