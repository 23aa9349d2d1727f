-- ===== src/Fix/Workers/Views.antt =====
-- What the rounds of the workers leave alone.
use hft_engine.Base.{
  ℕ, Option, none, List, [], ◌∷◌, ◌++◌, ◌≡◌, refl, ap, inl, inr, arith, Bool-cases, Option-cases,
  ◌||◌, ltb, length,
}
use hft_engine.Base.Words.{wsub}
use hft_engine.Core.{LockFreeQueue}
use hft_engine.Fix.Bytes.{Bytes, is_empty}
use hft_engine.Fix.Message.{FixMessage}
use hft_engine.Fix.Parse.{
  Outcome, accepted, invalid_message, checksum_error, malformed, parse_message_internal,
}
use hft_engine.Fix.Feed.{max_message, enqueue_retry}
use hft_engine.Fix.Workers.{
  CallbackResult, returns, throws, throws_other, ParserError, callback_error, parsed_queue_full,
  ParserEvent, delivered, reported, count_outcome, FixParser, start, report_error, count_drop,
  count_callback_error, hand_on, settle_outcome, parse_taken, parsing_worker, after_callback,
  call_back, processing_worker,
}
use hft_engine.Fix.Workers.Steps.{deliveries}

deliveries-reported :
    (es : List ParserEvent) (e : ParserError) → deliveries (es ++ reported e ∷ []) ≡ deliveries es
deliveries-reported [] e = refl
deliveries-reported (delivered m ∷ es) e = ap (λ ms. m ∷ ms) (deliveries-reported es e)
deliveries-reported (reported d ∷ es) e = deliveries-reported es e

-- What a parsing worker does not change.
pub record View : Type 0 where
  pub processing_workers : ℕ
  pub num_worker_threads : ℕ
  pub message_callback : Option (FixMessage → CallbackResult)
  pub messages_parsed : ℕ
  pub past : List FixMessage

module _ (q : LockFreeQueue Bytes) (pq : LockFreeQueue FixMessage) where
  abbrev pub view : FixParser q pq → View
  view p = record {
    processing_workers = p.processing_workers;
    num_worker_threads = p.num_worker_threads;
    message_callback = p.message_callback;
    messages_parsed = p.stats.messages_parsed;
    past = deliveries p.events;
  }

  view-report_error : (p : FixParser q pq) (e : ParserError) → view (report_error q pq p e) ≡ view p
  unfolding report_error
  view-report_error p e = elim (Option-cases p.error_callback) [
    | inl n ↦ rw (report_error, n) refl
    | inr (g, n) ↦ elim (Bool-cases (g e)) [
      | inl r ↦
          rw (report_error, n, r)
            (ap (λ d. record (view p) { past = d }) (deliveries-reported p.events e))
      | inr r ↦
          rw (report_error, n, r)
            (ap (λ d. record (view p) { past = d }) (deliveries-reported p.events e))
    ]
  ]

  view-hand_on :
      (others : ℕ → pq.Queue → pq.Queue) (p : FixParser q pq) (m : FixMessage)
      → view (hand_on q pq others p m) ≡ view p
  unfolding hand_on
  view-hand_on others p m =
      let (done, queue) = enqueue_retry pq 5 others p.parsed_queue m in
      elim (Bool-cases (enqueue_retry pq 5 others p.parsed_queue m).0) [
        | inl e ↦ rw (hand_on, e) refl
        | inr e ↦
            rw (hand_on, e)
              (view-report_error (count_drop q pq (record p { parsed_queue = queue }))
                parsed_queue_full)
      ]

  view-settle_outcome :
      (others : ℕ → pq.Queue → pq.Queue) (p : FixParser q pq) (o : Outcome)
      → view (settle_outcome q pq others (record p { stats = count_outcome p.stats o }) o) ≡ view p
  unfolding settle_outcome count_outcome
  view-settle_outcome others p (accepted m) = view-hand_on others p m
  view-settle_outcome others p (invalid_message m) = refl
  view-settle_outcome others p (checksum_error m) = refl
  view-settle_outcome others p malformed = refl

  view-parse_taken :
      (others : ℕ → pq.Queue → pq.Queue) (p : FixParser q pq) (raw : Bytes)
      → view (parse_taken q pq others p raw) ≡ view p
  unfolding parse_taken
  view-parse_taken others p raw = elim (Bool-cases (is_empty raw || ltb max_message (length raw))) [
    | inl e ↦ rw (parse_taken, e) refl
    | inr e ↦ rw (parse_taken, e) (view-settle_outcome others p (parse_message_internal raw))
  ]

  pub view-parsing_worker :
      (others : ℕ → pq.Queue → pq.Queue) (p : FixParser q pq)
      → view (parsing_worker q pq others p) ≡ view p
  unfolding parsing_worker
  view-parsing_worker others p = elim (Bool-cases p.running) [
    | inr e ↦ rw (parsing_worker, e) refl
    | inl e ↦ elim (Option-cases (q.dequeue p.feed.raw_queue)) [
      | inl n ↦ rw (parsing_worker, e, n) refl
      | inr ((raw, queue), n) ↦
          rw (parsing_worker, e, n)
            (view-parse_taken others (record p { feed = record (p.feed) { raw_queue = queue } })
              raw)
    ]
  ]

  view-after_callback :
      (p : FixParser q pq) (r : CallbackResult) → view (after_callback q pq p r) ≡ view p
  unfolding after_callback
  view-after_callback p returns = refl
  view-after_callback p (throws what) =
      view-report_error (count_callback_error q pq p) (callback_error what)
  view-after_callback p throws_other = refl

  -- A round of processing_worker without a callback.
  pub view-processing_worker :
      (p : FixParser q pq) → p.message_callback ≡ none → view (processing_worker q pq p) ≡ view p
  unfolding processing_worker
  view-processing_worker p c = elim (Bool-cases p.running) [
    | inr e ↦ rw (processing_worker, e) refl
    | inl e ↦ elim (Option-cases (pq.dequeue p.parsed_queue)) [
      | inl n ↦ rw (processing_worker, e, n) refl
      | inr ((m, queue), n) ↦
          rw (processing_worker, e, n, c) (ap (λ x. record (view p) { message_callback = x }) c)
    ]
  ]

  call_back_parsed :
      (p : FixParser q pq) (f : FixMessage → CallbackResult) (m : FixMessage)
      → (call_back q pq p f m).stats.messages_parsed ≡ p.stats.messages_parsed
  unfolding call_back
  call_back_parsed p f m =
      ap (λ v. v.messages_parsed)
        (view-after_callback (record p { events = p.events ++ delivered m ∷ [] }) (f m))

  pub processing_worker_parsed :
      (p : FixParser q pq)
      → (processing_worker q pq p).stats.messages_parsed ≡ p.stats.messages_parsed
  unfolding processing_worker
  processing_worker_parsed p = elim (Bool-cases p.running) [
    | inr e ↦ rw (processing_worker, e) refl
    | inl e ↦ elim (Option-cases (pq.dequeue p.parsed_queue)) [
      | inl n ↦ rw (processing_worker, e, n) refl
      | inr ((m, queue), n) ↦ elim (Option-cases p.message_callback) [
        | inl c ↦ rw (processing_worker, e, n, c) refl
        | inr (f, c) ↦
            rw (processing_worker, e, n, c)
              (call_back_parsed (record p { parsed_queue = queue }) f m)
      ]
    ]
  ]

  pub start_single :
      (p : FixParser q pq)
      → p.num_worker_threads ≡ 1
      → p.processing_workers ≡ 0
      → ((start q pq p).processing_workers ≡ 0) × ((start q pq p).num_worker_threads ≡ 1)
  unfolding start
  start_single p n z = elim (Bool-cases p.running) [
    | inl e ↦ rw (start, e) (z, n)
    | inr e ↦ rw (start, e, n) (unfold wsub in omega (arith, z), refl)
  ]
