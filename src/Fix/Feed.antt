-- ===== src/Fix/Feed.antt =====
-- FixParser's buffer: feed_data and extract_next_message.
pub mod Delivery
pub mod Drained
use hft_engine.Base.{
  ℕ, zero, suc, ◌+◌, ◌-◌, ◌/◌, ◌^◌, Bool, true, false, ◌&&◌, ◌||◌, Option, none, some, List, [],
  ◌∷◌, ◌++◌, ◌==◌, ltb, if◌then◌else◌, length, take,
}
use hft_engine.Base.Words.{wadd}
use hft_engine.Core.{LockFreeQueue}
use hft_engine.Fix.Bytes.{Bytes, soh, drop, find_from}

-- message_buffer_ and buffer_position_
pub record Buffer : Type 0 where
  pub bytes : Bytes
  pub position : ℕ

abbrev pub max_message : ℕ
max_message = 8192

-- "8=FIX" and "10="
abbrev pub start_mark : Bytes
start_mark = b'8' ∷ b'=' ∷ b'F' ∷ b'I' ∷ b'X' ∷ []

abbrev pub check_mark : Bytes
check_mark = b'1' ∷ b'0' ∷ b'=' ∷ []

-- The end of the message that begins at `start`, behind the separator of its checksum.
unfoldable pub message_end : Bytes → ℕ → Option ℕ
message_end s start = elim (find_from check_mark s start) [
  | none ↦ none
  | some check ↦ elim (find_from (soh ∷ []) s (check + 3)) [
    | none ↦ none
    | some sep ↦ some (sep + 1)
  ]
]

-- The buffer behind a message that ends at `end`: more than half of it and more than 1024 bytes are
-- cut off.
unfoldable pub consume : Bytes → ℕ → Buffer
consume s end =
    if ltb (length s / 2) end && ltb 1024 end
    then record { bytes = drop end s; position = 0 }
    else record { bytes = s; position = end }

unfoldable pub extract_next_message : Buffer → Option Bytes × Buffer
extract_next_message b =
    if ltb (length b.bytes) 20 then (none, b) else elim (find_from start_mark b.bytes b.position) [
      | none ↦ (none, record b { position = 0 })
      | some start ↦ elim (message_end b.bytes start) [
        | none ↦ (none, b)
        | some end ↦
            if ltb max_message (end - start)
            then (none, record b { position = start + 1 })
            else (some (take (end - start) (drop start b.bytes)), consume b.bytes end)
      ]
    ]

-- What the parser has of the raw messages: the queue, and the counters of feed_data.
pub record Feed (q : LockFreeQueue Bytes) : Type 0 where
  pub buffer : Buffer
  pub raw_queue : q.Queue
  pub bytes_processed : ℕ
  pub queue_full_events : ℕ
  pub messages_dropped : ℕ
  -- how often a full queue was reported to the error callback, if it was set
  pub full_reports : ℕ

module _ {A : Type 0} (q : LockFreeQueue A) where
  -- The attempts to enqueue that are left; `others k` is what the workers do to the queue before the
  -- next attempt.
  unfoldable pub enqueue_retry : ℕ → (ℕ → q.Queue → q.Queue) → q.Queue → A → Bool × q.Queue
  enqueue_retry zero others queue m = (false, queue)
  enqueue_retry (suc k) others queue m =
      let (done, queue') = q.enqueue queue m in
      let again = enqueue_retry k others (others k queue') m in
      if done then (true, queue') else again

module _ (q : LockFreeQueue Bytes) where
  -- One extracted message: three attempts, or a counted drop.
  unfoldable pub deliver : (ℕ → q.Queue → q.Queue) → Feed q → Bytes → Feed q
  deliver others f m =
      let (done, queue) = enqueue_retry q 3 others f.raw_queue m in
      if done then record f { raw_queue = queue } else record f {
        raw_queue = queue;
        queue_full_events = wadd (2 ^ 64) f.queue_full_events 1;
        messages_dropped = wadd (2 ^ 64) f.messages_dropped 1;
        full_reports = f.full_reports + 1;
      }

  -- `while (extract_next_message(message))`; `none` means that the fuel ran out.
  unfoldable pub drain : ℕ → (ℕ → q.Queue → q.Queue) → Feed q → Option (Feed q)
  drain zero others f = none
  drain (suc fuel) others f =
      let (found, b) = extract_next_message f.buffer in
      elim found [
        | none ↦ some (record f { buffer = b })
        | some m ↦ drain fuel others (deliver others (record f { buffer = b }) m)
      ]

  -- feed_data of a running parser.
  unfoldable pub feed_data : ℕ → (ℕ → q.Queue → q.Queue) → Feed q → Bytes → Option (Feed q)
  feed_data fuel others f [] = some f
  feed_data fuel others f (b ∷ s) = drain fuel others (record f {
    bytes_processed = wadd (2 ^ 64) f.bytes_processed (length (b ∷ s));
    buffer = record (f.buffer) { bytes = f.buffer.bytes ++ b ∷ s };
  })
