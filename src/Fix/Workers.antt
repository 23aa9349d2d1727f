-- ===== src/Fix/Workers.antt =====
-- FixParser with its threads: the constructor, start and stop, parse_message, and one round of each kind
-- of worker. The average parse time is left out.
pub mod Steps
pub mod Delivered
pub mod Views
pub mod Quiet
pub mod Silent
mod Examples
use hft_engine.Base.{
  ℕ, zero, suc, ◌+◌, ◌-◌, ◌/◌, ◌^◌, max, min, Bool, true, false, not, ◌||◌, Option, none, some,
  List, [], ◌∷◌, ◌++◌, ltb, if◌then◌else◌, length,
}
use hft_engine.Base.Words.{wadd, wsub}
use hft_engine.Core.{LockFreeQueue}
use hft_engine.Fix.Bytes.{Bytes, is_empty}
use hft_engine.Fix.Message.{FixMessage}
use hft_engine.Fix.Parse.{
  Outcome, accepted, invalid_message, checksum_error, malformed, parse_message_internal,
}
use hft_engine.Fix.Feed.{Buffer, Feed, max_message, enqueue_retry, feed_data}

-- How a call of the message callback ends: `throws` has the text of a std::exception.
pub data CallbackResult : Type 0 where
  returns : CallbackResult
  throws : Bytes → CallbackResult
  throws_other : CallbackResult

pub data ParserError : Type 0 where
  raw_queue_full : ParserError
  parsed_queue_full : ParserError
  callback_error : Bytes → ParserError

-- What the workers hand out.
pub data ParserEvent : Type 0 where
  delivered : FixMessage → ParserEvent
  reported : ParserError → ParserEvent

-- The counters that Feed does not have.
pub record FixParserStats : Type 0 where
  pub messages_parsed : ℕ
  pub parse_errors : ℕ
  pub checksum_errors : ℕ
  pub invalid_messages : ℕ
  pub callback_errors : ℕ

abbrev add_one : ℕ → ℕ
add_one n = wadd (2 ^ 64) n 1

-- What parse_message_internal counts.
unfoldable pub count_outcome : FixParserStats → Outcome → FixParserStats
count_outcome s (accepted m) = s
count_outcome s (invalid_message m) = record s { invalid_messages = add_one s.invalid_messages }
count_outcome s (checksum_error m) = record s { checksum_errors = add_one s.checksum_errors }
count_outcome s malformed = s

abbrev max_worker_threads : ℕ
max_worker_threads = 4

-- The calls of the error callback for `n` raw messages that found the queue full.
abbrev pub full_events : Option (ParserError → Bool) → ℕ → List ParserEvent
full_events none n = []
full_events (some g) zero = []
full_events (some g) (suc n) = reported raw_queue_full ∷ full_events (some g) n

module _ (q : LockFreeQueue Bytes) (pq : LockFreeQueue FixMessage) where
  -- An error callback says whether it returns.
  pub record FixParser : Type 0 where
    pub running : Bool
    pub num_worker_threads : ℕ
    pub parsing_workers : ℕ
    pub processing_workers : ℕ
    pub feed : Feed q
    pub parsed_queue : pq.Queue
    pub message_callback : Option (FixMessage → CallbackResult)
    pub error_callback : Option (ParserError → Bool)
    pub stats : FixParserStats
    pub events : List ParserEvent

  unfoldable pub new_parser : ℕ → FixParser
  new_parser num_workers = record {
    running = false;
    num_worker_threads = min num_workers max_worker_threads;
    parsing_workers = 0;
    processing_workers = 0;
    feed = record {
      buffer = record { bytes = []; position = 0 };
      raw_queue = q.empty_queue;
      bytes_processed = 0;
      queue_full_events = 0;
      messages_dropped = 0;
      full_reports = 0;
    };
    parsed_queue = pq.empty_queue;
    message_callback = none;
    error_callback = none;
    stats = record {
      messages_parsed = 0;
      parse_errors = 0;
      checksum_errors = 0;
      invalid_messages = 0;
      callback_errors = 0;
    };
    events = [];
  }

  unfoldable pub set_message_callback : FixParser → (FixMessage → CallbackResult) → FixParser
  set_message_callback p f = record p { message_callback = some f }

  unfoldable pub set_error_callback : FixParser → (ParserError → Bool) → FixParser
  set_error_callback p f = record p { error_callback = some f }

  -- The difference of the two std::size_t wraps round. The threads are emplaced into the vector.
  unfoldable pub start : FixParser → FixParser
  start p =
      let parsing = max 1 (p.num_worker_threads / 3) in
      let processing = wsub (2 ^ 64) p.num_worker_threads parsing in
      if p.running then p else record p {
        running = true;
        parsing_workers = p.parsing_workers + parsing;
        processing_workers = p.processing_workers + processing;
      }

  -- The queues keep what they hold.
  unfoldable pub stop : FixParser → FixParser
  stop p =
      if p.running
      then record p {
        running = false;
        parsing_workers = 0;
        processing_workers = 0;
        message_callback = none;
        error_callback = none;
        feed = record (p.feed) { buffer = record { bytes = []; position = 0 } };
      }
      else p

  -- `none` is the exception of a running parser.
  unfoldable pub set_worker_threads : FixParser → ℕ → Option FixParser
  set_worker_threads p count =
      if p.running
      then none
      else some (record p { num_worker_threads = min count max_worker_threads })

  -- feed_data with its test of `running`, and the calls of the error callback, which returns.
  unfoldable pub feed_parser : ℕ → (ℕ → q.Queue → q.Queue) → FixParser → Bytes → Option FixParser
  unfolding feed_data
  feed_parser fuel others p s =
      if p.running
      then elim (feed_data q fuel others p.feed s) [
        | none ↦ none
        | some f ↦ some (record p {
          feed = f;
          events = p.events ++ full_events p.error_callback (f.full_reports - p.feed.full_reports);
        })
      ]
      else some p

  -- parse_message: the parser afterwards, and how the parsing ended.
  unfoldable pub parse_message : FixParser → Bytes → FixParser × Outcome
  unfolding parse_message_internal count_outcome
  parse_message p raw =
      let o = parse_message_internal raw in
      let s = count_outcome p.stats o in
      (
        record p {
          stats = elim o [
            | accepted m ↦ record s { messages_parsed = add_one s.messages_parsed }
            | _ ↦ record s { parse_errors = add_one s.parse_errors }
          ];
        },
        o,
      )

  -- A call of the error callback inside a try block.
  unfoldable pub report_error : FixParser → ParserError → FixParser
  report_error p e = elim p.error_callback [
    | none ↦ p
    | some g ↦ record p {
      events = p.events ++ reported e ∷ [];
      stats =
          if g e
          then p.stats
          else record (p.stats) { callback_errors = add_one p.stats.callback_errors };
    }
  ]

  abbrev pub count_drop : FixParser → FixParser
  count_drop p = record p {
    feed = record (p.feed) {
      queue_full_events = add_one p.feed.queue_full_events;
      messages_dropped = add_one p.feed.messages_dropped;
    };
  }

  abbrev pub count_parse_error : FixParser → FixParser
  count_parse_error p = record p {
    stats = record (p.stats) { parse_errors = add_one p.stats.parse_errors };
  }

  abbrev pub count_callback_error : FixParser → FixParser
  count_callback_error p = record p {
    stats = record (p.stats) { callback_errors = add_one p.stats.callback_errors };
  }

  -- A parsed message: five attempts to enqueue it, or a counted and reported drop.
  unfoldable pub hand_on : (ℕ → pq.Queue → pq.Queue) → FixParser → FixMessage → FixParser
  unfolding enqueue_retry report_error
  hand_on others p m =
      let (done, queue) = enqueue_retry pq 5 others p.parsed_queue m in
      let kept = record p { parsed_queue = queue } in
      if done then kept else report_error (count_drop kept) parsed_queue_full

  -- What a parsing worker does with the result of parse_message_internal.
  unfoldable pub settle_outcome : (ℕ → pq.Queue → pq.Queue) → FixParser → Outcome → FixParser
  unfolding hand_on
  settle_outcome others p (accepted m) = hand_on others p m
  settle_outcome others p (invalid_message m) = count_parse_error p
  settle_outcome others p (checksum_error m) = count_parse_error p
  settle_outcome others p malformed = count_parse_error p

  -- A raw message that a parsing worker has taken.
  unfoldable pub parse_taken : (ℕ → pq.Queue → pq.Queue) → FixParser → Bytes → FixParser
  unfolding parse_message_internal count_outcome settle_outcome
  parse_taken others p raw =
      let o = parse_message_internal raw in
      if is_empty raw || ltb max_message (length raw)
      then p
      else settle_outcome others (record p { stats = count_outcome p.stats o }) o

  -- One round of parsing_worker; `others` is what other threads do to the queue of parsed messages
  -- between two attempts.
  unfoldable pub parsing_worker : (ℕ → pq.Queue → pq.Queue) → FixParser → FixParser
  unfolding parse_taken
  parsing_worker others p =
      if p.running
      then elim (q.dequeue p.feed.raw_queue) [
        | none ↦ p
        | some (raw, queue) ↦
            parse_taken others (record p { feed = record (p.feed) { raw_queue = queue } }) raw
      ]
      else p

  -- What a callback has thrown is counted and reported.
  unfoldable pub after_callback : FixParser → CallbackResult → FixParser
  unfolding report_error
  after_callback p returns = p
  after_callback p (throws what) = report_error (count_callback_error p) (callback_error what)
  after_callback p throws_other = count_callback_error p

  unfoldable pub call_back : FixParser → (FixMessage → CallbackResult) → FixMessage → FixParser
  unfolding after_callback
  call_back p f m = after_callback (record p { events = p.events ++ delivered m ∷ [] }) (f m)

  -- One round of processing_worker.
  unfoldable pub processing_worker : FixParser → FixParser
  unfolding call_back
  processing_worker p =
      if p.running
      then elim (pq.dequeue p.parsed_queue) [
        | none ↦ p
        | some (m, queue) ↦
            let taken = record p { parsed_queue = queue } in
            elim p.message_callback [ none ↦ taken | some f ↦ call_back taken f m ]
      ]
      else p
