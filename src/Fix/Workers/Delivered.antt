-- ===== src/Fix/Workers/Delivered.antt =====
-- Every message that reaches the callback has passed the parser's checks.
use hft_engine.Base.{
  ℕ, zero, suc, List, [], ◌∷◌, ◌++◌, ◌≡◌, refl, ap, inl, inr, arith, Bool-cases, Option-cases, All,
  All-append, ==_iff, ◌||◌, ltb, length,
}
use hft_engine.Core.{LockFreeQueue, IsQueue}
use hft_engine.Fix.Bytes.{Bytes, is_empty}
use hft_engine.Fix.Message.{FixMessage, empty_message, calculate_checksum}
use hft_engine.Fix.Parse.{
  Outcome, accepted, invalid_message, checksum_error, malformed, split_fields, store_fields,
  parse_fields, check_message, parse_message_internal,
}
use hft_engine.Fix.Feed.{enqueue_retry, max_message}
use hft_engine.Fix.Workers.{
  callback_error, count_outcome, count_drop, count_callback_error, settle_outcome, after_callback,
  returns, throws, throws_other, parsed_queue_full, CallbackResult, ParserError, ParserEvent,
  delivered, reported, FixParser, new_parser, set_message_callback, set_error_callback, start, stop,
  report_error, hand_on, parse_taken, parsing_worker, call_back, processing_worker,
}
use hft_engine.Fix.Workers.Steps.{
  Untouched, start-Untouched, stop-Untouched, feed_parser-Untouched, deliveries, IsAccepted, Keeps,
  Work, start_step, stop_step, feed_step, parsing_step, processing_step, Step, work_step,
  message_step, error_step, Star, star-preserves,
}

check_message-IsAccepted : (m n : FixMessage) → check_message m ≡ accepted n → IsAccepted n
unfolding check_message
check_message-IsAccepted m n h = ground (arith, ==_iff (calculate_checksum m) m.checksum)

parse_fields-IsAccepted :
    (fs : List Bytes) (n : FixMessage) → parse_fields fs ≡ accepted n → IsAccepted n
unfolding parse_fields
parse_fields-IsAccepted [] n h = cc
parse_fields-IsAccepted (f ∷ fs) n h = elim (Option-cases (store_fields empty_message (f ∷ fs))) [
  | inl e ↦ ground arith
  | inr (m, e) ↦ check_message-IsAccepted m n (ground arith)
]

parse-IsAccepted :
    (s : Bytes) (n : FixMessage) → parse_message_internal s ≡ accepted n → IsAccepted n
unfolding parse_message_internal
parse-IsAccepted s n h = parse_fields-IsAccepted (split_fields [] s) n h

deliveries-append :
    (es fs : List ParserEvent) → deliveries (es ++ fs) ≡ deliveries es ++ deliveries fs
deliveries-append [] fs = refl
deliveries-append (delivered m ∷ es) fs = ap (λ ms. m ∷ ms) (deliveries-append es fs)
deliveries-append (reported e ∷ es) fs = deliveries-append es fs

module _ (q : LockFreeQueue Bytes) (pq : LockFreeQueue FixMessage) (laws : IsQueue pq) where
  -- All messages that wait or were delivered are accepted ones.
  record IsSoundAt (s : pq.Queue) (es : List ParserEvent) : Type 0 where
    waiting : (m : FixMessage) → laws.In m s → IsAccepted m
    past : All IsAccepted (deliveries es)

  abbrev IsSound : FixParser q pq → Type 0
  IsSound p = IsSoundAt p.parsed_queue p.events

  enqueue_retry-IsAccepted :
      (n : ℕ) (others : ℕ → pq.Queue → pq.Queue) (s : pq.Queue) (x : FixMessage)
      → Keeps q pq laws others
      → IsAccepted x
      → ((m : FixMessage) → laws.In m s → IsAccepted m)
      → (m : FixMessage) → laws.In m (enqueue_retry pq n others s x).1
      → IsAccepted m
  unfolding enqueue_retry
  enqueue_retry-IsAccepted zero others s x k a h m i = h m i
  enqueue_retry-IsAccepted (suc n) others s x k a h m i =
      let put : (m' : FixMessage) → laws.In m' (pq.enqueue s x).1 → IsAccepted m' =
        λ m' j. elim (laws.in_enqueue m' x s j) [ inl o ↦ h m' o | inr e ↦ rw e a ] in
      elim (Bool-cases (pq.enqueue s x).0) [
        | inl e ↦ put m (rw e at i)
        | inr e ↦
            enqueue_retry-IsAccepted n others (others n (pq.enqueue s x).1) x k a
              (λ m' j. elim (k n (pq.enqueue s x).1 m' j) [ inl o ↦ put m' o | inr b ↦ b ]) m
              (rw e at i)
      ]

  report_error-IsSound :
      (p : FixParser q pq) (e : ParserError) → IsSound p → IsSound (report_error q pq p e)
  unfolding report_error
  report_error-IsSound p e h = elim (Option-cases p.error_callback) [
    | inl n ↦ rw (report_error, n) h
    | inr (g, n) ↦
        rw (report_error, n)
          (record {
            waiting = h.waiting;
            past =
                rw (deliveries-append p.events (reported e ∷ []))
                  (All-append IsAccepted (deliveries p.events) [] h.past tt);
          })
  ]

  hand_on-IsSound :
      (others : ℕ → pq.Queue → pq.Queue) (p : FixParser q pq) (m : FixMessage)
      → Keeps q pq laws others
      → IsAccepted m
      → IsSound p
      → IsSound (hand_on q pq others p m)
  unfolding hand_on
  hand_on-IsSound others p m k a h =
      let kept = enqueue_retry-IsAccepted 5 others p.parsed_queue m k a h.waiting in
      elim (Bool-cases (enqueue_retry pq 5 others p.parsed_queue m).0) [
        | inl e ↦ rw (hand_on, e) (record { waiting = kept; past = h.past })
        | inr e ↦
            rw (hand_on, e)
              (report_error-IsSound
                (count_drop q pq
                  (record p { parsed_queue = (enqueue_retry pq 5 others p.parsed_queue m).1 }))
                parsed_queue_full (record { waiting = kept; past = h.past }))
      ]

  settle_outcome-IsSound :
      (others : ℕ → pq.Queue → pq.Queue) (p : FixParser q pq) (o : Outcome)
      → Keeps q pq laws others
      → ((m : FixMessage) → o ≡ accepted m → IsAccepted m)
      → IsSound p
      → IsSound (settle_outcome q pq others p o)
  unfolding settle_outcome
  settle_outcome-IsSound others p (accepted m) k a h = hand_on-IsSound others p m k (a m refl) h
  settle_outcome-IsSound others p (invalid_message m) k a h = h
  settle_outcome-IsSound others p (checksum_error m) k a h = h
  settle_outcome-IsSound others p malformed k a h = h

  parse_taken-IsSound :
      (others : ℕ → pq.Queue → pq.Queue) (p : FixParser q pq) (raw : Bytes)
      → Keeps q pq laws others
      → IsSound p
      → IsSound (parse_taken q pq others p raw)
  unfolding parse_taken
  parse_taken-IsSound others p raw k h =
      let o = parse_message_internal raw in
      let settled =
        settle_outcome-IsSound others (record p { stats = count_outcome p.stats o }) o k
          (parse-IsAccepted raw) h in
      elim (Bool-cases (is_empty raw || ltb max_message (length raw))) [
        | inl e ↦ rw (parse_taken, e) h
        | inr e ↦ rw (parse_taken, e) settled
      ]

  parsing_worker-IsSound :
      (others : ℕ → pq.Queue → pq.Queue) (p : FixParser q pq)
      → Keeps q pq laws others
      → IsSound p
      → IsSound (parsing_worker q pq others p)
  unfolding parsing_worker
  parsing_worker-IsSound others p k h = elim (Bool-cases p.running) [
    | inr e ↦ rw (parsing_worker, e) h
    | inl e ↦ elim (Option-cases (q.dequeue p.feed.raw_queue)) [
      | inl n ↦ rw (parsing_worker, e, n) h
      | inr ((raw, queue), n) ↦
          rw (parsing_worker, e, n)
            (parse_taken-IsSound others (record p { feed = record (p.feed) { raw_queue = queue } })
              raw k h)
    ]
  ]

  after_callback-IsSound :
      (p : FixParser q pq) (r : CallbackResult) → IsSound p → IsSound (after_callback q pq p r)
  unfolding after_callback
  after_callback-IsSound p returns h = h
  after_callback-IsSound p (throws what) h =
      report_error-IsSound (count_callback_error q pq p) (callback_error what) h
  after_callback-IsSound p throws_other h = h

  call_back-IsSound :
      (p : FixParser q pq) (f : FixMessage → CallbackResult) (m : FixMessage)
      → IsAccepted m
      → IsSound p
      → IsSound (call_back q pq p f m)
  unfolding call_back
  call_back-IsSound p f m a h =
      after_callback-IsSound (record p { events = p.events ++ delivered m ∷ [] }) (f m)
        (record {
          waiting = h.waiting;
          past =
              rw (deliveries-append p.events (delivered m ∷ []))
                (All-append IsAccepted (deliveries p.events) (m ∷ []) h.past (a, tt));
        })

  processing_worker-IsSound : (p : FixParser q pq) → IsSound p → IsSound (processing_worker q pq p)
  unfolding processing_worker
  processing_worker-IsSound p h = elim (Bool-cases p.running) [
    | inr e ↦ rw (processing_worker, e) h
    | inl e ↦ elim (Option-cases (pq.dequeue p.parsed_queue)) [
      | inl n ↦ rw (processing_worker, e, n) h
      | inr ((m, queue), n) ↦
          let (first, rest) = laws.in_dequeue m p.parsed_queue queue n in
          let taken : IsSoundAt queue p.events = record {
            waiting = λ x i. h.waiting x (rest x i);
            past = h.past;
          } in
          elim (Option-cases p.message_callback) [
            | inl c ↦ rw (processing_worker, e, n, c) taken
            | inr (f, c) ↦
                rw (processing_worker, e, n, c)
                  (call_back-IsSound (record p { parsed_queue = queue }) f m (h.waiting m first)
                    taken)
          ]
    ]
  ]

  Untouched-IsSound : (p p' : FixParser q pq) → Untouched p p' → IsSound p → IsSound p'
  Untouched-IsSound p p' u h = record {
    waiting = rw u.parsed_queue h.waiting;
    past = rw u.past h.past;
  }

  Work-IsSound : (p p' : FixParser q pq) → Work q pq laws p p' → IsSound p → IsSound p'
  Work-IsSound _ _ (start_step p) h = Untouched-IsSound p (start q pq p) (start-Untouched q pq p) h
  Work-IsSound _ _ (stop_step p) h = Untouched-IsSound p (stop q pq p) (stop-Untouched q pq p) h
  Work-IsSound _ _ (feed_step p fuel others s p' e) h =
      Untouched-IsSound p p' (feed_parser-Untouched q pq fuel others p p' s e) h
  Work-IsSound _ _ (parsing_step p others n k) h = parsing_worker-IsSound others p k h
  Work-IsSound _ _ (processing_step p n) h = processing_worker-IsSound p h

  Step-IsSound : (p p' : FixParser q pq) → Step q pq laws p p' → IsSound p → IsSound p'
  Step-IsSound p p' (work_step w) h = Work-IsSound p p' w h
  Step-IsSound _ _ (message_step p f) h =
      unfold set_message_callback in record { waiting = h.waiting; past = h.past }
  Step-IsSound _ _ (error_step p f) h =
      unfold set_error_callback in record { waiting = h.waiting; past = h.past }

  new_parser-IsSound : (n : ℕ) → IsSound (new_parser q pq n)
  unfolding new_parser
  new_parser-IsSound n = record { waiting = λ m i. absurd (laws.in_empty m i); past = tt }

  -- If what comes out of the queue of parsed messages was put in, then after any steps of a new parser,
  -- its clients and its workers, every message that the callback was called with is valid and has the
  -- checksum of its fields.
  pub deliveries-IsAccepted :
      (n : ℕ) (p : FixParser q pq)
      → Star (Step q pq laws) (new_parser q pq n) p
      → All IsAccepted (deliveries p.events)
  deliveries-IsAccepted n p r =
      let sound : IsSound p =
        star-preserves (Step q pq laws) IsSound Step-IsSound r (new_parser-IsSound n) in
      sound.past
