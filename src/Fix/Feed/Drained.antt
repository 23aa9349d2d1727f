-- ===== src/Fix/Feed/Drained.antt =====
-- The loop of feed_data: it ends, and what it has done with each message.
use hft_engine.Base.{ℕ, suc, ◌+◌, ◌%◌, ◌^◌, ◌<◌, true, false, List, none, some, [], ◌∷◌, ◌≡◌}
use hft_engine.Base.Words.{wadd}
use hft_engine.Core.{LockFreeQueue}
use hft_engine.Fix.Bytes.{Bytes}
use hft_engine.Fix.Feed.{Buffer, Feed, extract_next_message, enqueue_retry}
use hft_engine.Fix.Feed.Delivery.{extracted}

-- The messages that repeated extraction takes out of a buffer, and what it leaves.
pub data Extracts : Buffer → List Bytes → Buffer → Type 0 where
  last : (b b' : Buffer) → extract_next_message b ≡ (none, b') → Extracts b [] b'
  more :
      (b b' b'' : Buffer) (m : Bytes) (ms : List Bytes)
      → extract_next_message b ≡ (some m, b')
      → Extracts b' ms b''
      → Extracts b (m ∷ ms) b''

module _ (q : LockFreeQueue Bytes) (others : ℕ → q.Queue → q.Queue) where
  -- The queue behind three attempts for each message, and how many messages got no place.
  pub data Offers : q.Queue → List Bytes → q.Queue → ℕ → Type 0 where
    all_offered : (s : q.Queue) → Offers s [] s 0
    placed :
        (s s' s'' : q.Queue) (m : Bytes) (ms : List Bytes) (lost : ℕ)
        → enqueue_retry q 3 others s m ≡ (true, s')
        → Offers s' ms s'' lost
        → Offers s (m ∷ ms) s'' lost
    refused :
        (s s' s'' : q.Queue) (m : Bytes) (ms : List Bytes) (lost : ℕ)
        → enqueue_retry q 3 others s m ≡ (false, s')
        → Offers s' ms s'' lost
        → Offers s (m ∷ ms) s'' (suc lost)

  -- A feed in which `lost` more messages were dropped, with the counters on 64 bits.
  pub record IsCounted (f f' : Feed q) (lost : ℕ) : Type 0 where
    pub full : f'.queue_full_events ≡ (f.queue_full_events + lost) % 2 ^ 64
    pub dropped : f'.messages_dropped ≡ (f.messages_dropped + lost) % 2 ^ 64
    pub reported : f'.full_reports ≡ f.full_reports + lost

  -- How the loop of feed_data ends: the messages of its buffer were offered to the queue, and those
  -- that got no place were counted.
  pub record IsDrained (f f' : Feed q) (b : Buffer) : Type 0 where
    pub messages : List Bytes
    pub lost : ℕ
    pub extracted : Extracts b messages f'.buffer
    pub offered : Offers f.raw_queue messages f'.raw_queue lost
    pub counted : IsCounted f f' lost
    pub bytes : f'.bytes_processed ≡ f.bytes_processed

  abbrev AreWords : Feed q → Type 0
  AreWords f = (f.queue_full_events < 2 ^ 64) × (f.messages_dropped < 2 ^ 64)

  -- A feed with one more dropped message.
  abbrev dropped_one : Feed q → q.Queue → Feed q
  dropped_one f s = record f {
    raw_queue = s;
    queue_full_events = wadd (2 ^ 64) f.queue_full_events 1;
    messages_dropped = wadd (2 ^ 64) f.messages_dropped 1;
    full_reports = f.full_reports + 1;
  }
