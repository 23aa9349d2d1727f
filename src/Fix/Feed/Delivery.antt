-- ===== src/Fix/Feed/Delivery.antt =====
-- What the parser extracts from its buffer, and that a message that was extracted comes out again.
use hft_engine.Base.{
  ℕ, ◌+◌, ◌-◌, ◌≤◌, ◌<◌, none, some, [], ◌∷◌, ◌++◌, ◌≡◌, ap, inl, inr, arith, Option-cases, length,
  length-append, take,
}
use hft_engine.Fix.Bytes.{Bytes, soh, drop, find_from}
use hft_engine.Fix.Bytes.Find.{length-drop, take-drop-append, find_from_bounds, find_from-append}
use hft_engine.Fix.Feed.{
  Buffer, start_mark, check_mark, max_message, message_end, consume, extract_next_message,
}

message_end_bounds :
    (s : Bytes) (start end : ℕ) → message_end s start ≡ some end → (start < end) × (end ≤ length s)
unfolding message_end
message_end_bounds s start end h = elim (Option-cases (find_from check_mark s start)) [
  | inl n ↦ ground arith
  | inr (check, e) ↦ elim (Option-cases (find_from (soh ∷ []) s (check + 3))) [
    | inl n ↦ ground arith
    | inr (sep, e') ↦ ground (
      arith,
      find_from_bounds check_mark s start check,
      find_from_bounds (soh ∷ []) s (check + 3) sep,
    )
  ]
]

message_end-append :
    (s t : Bytes) (start end : ℕ)
    → message_end s start ≡ some end
    → message_end (s ++ t) start ≡ some end
unfolding message_end
message_end-append s t start end h = elim (Option-cases (find_from check_mark s start)) [
  | inl n ↦ ground arith
  | inr (check, e) ↦ elim (Option-cases (find_from (soh ∷ []) s (check + 3))) [
    | inl n ↦ ground arith
    | inr (sep, e') ↦ ground (
      arith,
      find_from-append check_mark s t start check,
      find_from-append (soh ∷ []) s t (check + 3) sep,
    )
  ]
]

-- How an extraction found its message.
pub record Extracted (b : Buffer) (m : Bytes) (b' : Buffer) : Type 0 where
  pub start : ℕ
  pub end : ℕ
  pub long : 20 ≤ length b.bytes
  pub started : find_from start_mark b.bytes b.position ≡ some start
  pub ended : message_end b.bytes start ≡ some end
  pub fits : end - start ≤ max_message
  pub text : m ≡ take (end - start) (drop start b.bytes)
  pub rest : b' ≡ consume b.bytes end

pub extracted :
    (b : Buffer) (m : Bytes)
    → (extract_next_message b).0 ≡ some m
    → Extracted b m (extract_next_message b).1
unfolding extract_next_message
extracted b m h = elim (Option-cases (find_from start_mark b.bytes b.position)) [
  | inl n ↦ ground arith
  | inr (start, e) ↦ elim (Option-cases (message_end b.bytes start)) [
    | inl n ↦ ground arith
    | inr (end, e') ↦ record {
      start = start;
      end = end;
      long = ground arith;
      started = e;
      ended = e';
      fits = ground arith;
      text = ground arith;
      rest = ground arith;
    }
  ]
]

consume_shrinks :
    (s : Bytes) (end position : ℕ)
    → position < end
    → end ≤ length s
    → length (consume s end).bytes - (consume s end).position < length s - position
unfolding consume
consume_shrinks s end position h k = ground (arith, length-drop end s)

-- An extraction leaves less to read.
pub extract_shrinks :
    (b : Buffer) (m : Bytes) (b' : Buffer)
    → Extracted b m b'
    → length b'.bytes - b'.position < length b.bytes - b.position
extract_shrinks b m b' x =
    let e = message_end_bounds b.bytes x.start x.end x.ended in
    let f = find_from_bounds start_mark b.bytes b.position x.start x.started in
    rw x.rest (consume_shrinks b.bytes x.end b.position (omega (arith, e, f)) e.1)

-- A found message is found again when bytes are added, if nothing was cut off.
extract-append :
    (b : Buffer) (m t : Bytes)
    → (extract_next_message b).0 ≡ some m
    → (extract_next_message (record b { bytes = b.bytes ++ t })).0 ≡ some m
unfolding extract_next_message
extract-append b m t h =
    let x = extracted b m h in
    let e = message_end_bounds b.bytes x.start x.end x.ended in
    ground (
      arith,
      x.long,
      x.fits,
      x.text,
      length-append b.bytes t,
      find_from-append start_mark b.bytes t b.position x.start x.started,
      message_end-append b.bytes t x.start x.end x.ended,
      take-drop-append (x.end - x.start) x.start b.bytes t (omega (arith, e)),
    )

no_start :
    (b' b : Buffer)
    → b'.bytes ≡ b.bytes
    → b.position ≡ 0
    → 20 ≤ length b.bytes
    → find_from start_mark b.bytes b'.position ≡ none
    → extract_next_message b' ≡ (none, b)
unfolding extract_next_message
no_start b' b kept z long n = ground arith

-- A message that was extracted from position 0 of the buffer, where nothing was cut off behind it and
-- no message begins after it: the next extraction finds nothing and sets the position back to 0, so
-- after it the same message is extracted once more, whatever bytes have been added.
pub message_sent_again :
    (b : Buffer) (m t : Bytes)
    → b.position ≡ 0
    → (extract_next_message b).0 ≡ some m
    → (extract_next_message b).1.bytes ≡ b.bytes
    → find_from start_mark b.bytes (extract_next_message b).1.position ≡ none
    → let b' = (extract_next_message (extract_next_message b).1).1 in
      ((extract_next_message (extract_next_message b).1).0 ≡ none)
      × ((extract_next_message (record b' { bytes = b'.bytes ++ t })).0 ≡ some m)
message_sent_again b m t z h kept n =
    let x = extracted b m h in
    let spent : extract_next_message (extract_next_message b).1 ≡ (none, b) =
      no_start (extract_next_message b).1 b kept z x.long n in
    (ap (λ r. r.0) spent, rw spent (extract-append b m t h))
