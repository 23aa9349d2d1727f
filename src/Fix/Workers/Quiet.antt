-- ===== src/Fix/Workers/Quiet.antt =====
-- What the parser does without callbacks.
use hft_engine.Base.{
  ℕ, Bool, Option, none, List, ◌≡◌, refl, ap, inl, inr, Bool-cases, Option-cases, ◌||◌, ltb, length,
}
use hft_engine.Core.{LockFreeQueue}
use hft_engine.Fix.Bytes.{Bytes, is_empty}
use hft_engine.Fix.Message.{FixMessage}
use hft_engine.Fix.Parse.{
  Outcome, accepted, invalid_message, checksum_error, malformed, parse_message_internal,
}
use hft_engine.Fix.Feed.{max_message, enqueue_retry}
use hft_engine.Fix.Workers.{
  CallbackResult, ParserError, parsed_queue_full, ParserEvent, count_outcome, FixParser, start,
  stop, report_error, count_drop, hand_on, settle_outcome, parse_taken, parsing_worker,
  processing_worker,
}

-- The callbacks and the events.
pub record Quiet : Type 0 where
  pub message_callback : Option (FixMessage → CallbackResult)
  pub error_callback : Option (ParserError → Bool)
  pub events : List ParserEvent

module _ (q : LockFreeQueue Bytes) (pq : LockFreeQueue FixMessage) where
  abbrev pub quiet : FixParser q pq → Quiet
  quiet p = record {
    message_callback = p.message_callback;
    error_callback = p.error_callback;
    events = p.events;
  }

  pub quiet-start : (p : FixParser q pq) → quiet (start q pq p) ≡ quiet p
  unfolding start
  quiet-start p = elim (Bool-cases p.running) [
    | inl e ↦ rw (start, e) refl
    | inr e ↦ rw (start, e) refl
  ]

  pub quiet-stop :
      (p : FixParser q pq)
      → p.message_callback ≡ none
      → p.error_callback ≡ none
      → quiet (stop q pq p) ≡ quiet p
  unfolding stop
  quiet-stop p m c = elim (Bool-cases p.running) [
    | inl e ↦ rw (stop, e, m, c) refl
    | inr e ↦ rw (stop, e) refl
  ]

  -- Without an error callback, a report changes nothing.
  report_error_unset :
      (p : FixParser q pq) (e : ParserError) → p.error_callback ≡ none → report_error q pq p e ≡ p
  unfolding report_error
  report_error_unset p e c = simp (report_error, c)

  quiet-hand_on :
      (others : ℕ → pq.Queue → pq.Queue) (p : FixParser q pq) (m : FixMessage)
      → p.error_callback ≡ none
      → quiet (hand_on q pq others p m) ≡ quiet p
  unfolding hand_on
  quiet-hand_on others p m c =
      let queue = (enqueue_retry pq 5 others p.parsed_queue m).1 in
      elim (Bool-cases (enqueue_retry pq 5 others p.parsed_queue m).0) [
        | inl e ↦ rw (hand_on, e) refl
        | inr e ↦
            rw (hand_on, e)
              (ap quiet (
                report_error_unset (count_drop q pq (record p { parsed_queue = queue }))
                  parsed_queue_full c))
      ]

  quiet-settle_outcome :
      (others : ℕ → pq.Queue → pq.Queue) (p : FixParser q pq) (o : Outcome)
      → p.error_callback ≡ none
      → quiet (settle_outcome q pq others (record p { stats = count_outcome p.stats o }) o)
        ≡ quiet p
  unfolding settle_outcome count_outcome
  quiet-settle_outcome others p (accepted m) c = quiet-hand_on others p m c
  quiet-settle_outcome others p (invalid_message m) c = refl
  quiet-settle_outcome others p (checksum_error m) c = refl
  quiet-settle_outcome others p malformed c = refl

  quiet-parse_taken :
      (others : ℕ → pq.Queue → pq.Queue) (p : FixParser q pq) (raw : Bytes)
      → p.error_callback ≡ none
      → quiet (parse_taken q pq others p raw) ≡ quiet p
  unfolding parse_taken
  quiet-parse_taken others p raw c =
      elim (Bool-cases (is_empty raw || ltb max_message (length raw))) [
        | inl e ↦ rw (parse_taken, e) refl
        | inr e ↦ rw (parse_taken, e) (quiet-settle_outcome others p (parse_message_internal raw) c)
      ]

  pub quiet-parsing_worker :
      (others : ℕ → pq.Queue → pq.Queue) (p : FixParser q pq)
      → p.error_callback ≡ none
      → quiet (parsing_worker q pq others p) ≡ quiet p
  unfolding parsing_worker
  quiet-parsing_worker others p c = elim (Bool-cases p.running) [
    | inr e ↦ rw (parsing_worker, e) refl
    | inl e ↦ elim (Option-cases (q.dequeue p.feed.raw_queue)) [
      | inl n ↦ rw (parsing_worker, e, n) refl
      | inr ((raw, queue), n) ↦
          rw (parsing_worker, e, n)
            (quiet-parse_taken others (record p { feed = record (p.feed) { raw_queue = queue } })
              raw c)
    ]
  ]

  pub quiet-processing_worker :
      (p : FixParser q pq) → p.message_callback ≡ none → quiet (processing_worker q pq p) ≡ quiet p
  unfolding processing_worker
  quiet-processing_worker p c = elim (Bool-cases p.running) [
    | inr e ↦ rw (processing_worker, e) refl
    | inl e ↦ elim (Option-cases (pq.dequeue p.parsed_queue)) [
      | inl n ↦ rw (processing_worker, e, n) refl
      | inr ((m, queue), n) ↦
          rw (processing_worker, e, n, c) (ap (λ x. record (quiet p) { message_callback = x }) c)
    ]
  ]
