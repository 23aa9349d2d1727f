-- ===== src/Fix/Workers/Steps.antt =====
-- The steps of the parser's clients and threads, in any order.
use mathlib.Core.List.{append-nil}
use hft_engine.Base.{
  ℕ, zero, suc, ◌-◌, ◌++◌, Option, refl, ap, ◌<◌, Bool, true, none, some, List, [], ◌∷◌, ◌≡◌, ◌⊎◌,
  inl, inr, arith, Bool-cases, Option-cases,
}
use hft_engine.Core.{LockFreeQueue, IsQueue}
use hft_engine.Fix.Bytes.{Bytes}
use hft_engine.Fix.Message.{FixMessage, is_valid, calculate_checksum}
use hft_engine.Fix.Feed.{feed_data}
use hft_engine.Fix.Workers.{
  full_events, CallbackResult, ParserError, ParserEvent, delivered, reported, FixParser,
  set_message_callback, set_error_callback, start, stop, feed_parser, parsing_worker,
  processing_worker,
}

-- The messages that the callback was called with.
abbrev pub deliveries : List ParserEvent → List FixMessage
deliveries [] = []
deliveries (delivered m ∷ es) = m ∷ deliveries es
deliveries (reported e ∷ es) = deliveries es

deliveries-full :
    (es : List ParserEvent) (c : Option (ParserError → Bool)) (n : ℕ)
    → deliveries (es ++ full_events c n) ≡ deliveries es
deliveries-full (delivered m ∷ es) c n = ap (λ ms. m ∷ ms) (deliveries-full es c n)
deliveries-full (reported e ∷ es) c n = deliveries-full es c n
deliveries-full [] none n = refl
deliveries-full [] (some g) zero = refl
deliveries-full [] (some g) (suc n) = deliveries-full [] (some g) n

-- What parse_message_internal asks of a message.
abbrev pub IsAccepted : FixMessage → Type 0
IsAccepted m = (is_valid m ≡ true) × (calculate_checksum m ≡ m.checksum)

module _ (q : LockFreeQueue Bytes) (pq : LockFreeQueue FixMessage) (laws : IsQueue pq) where
  -- Other threads take messages out of the queue or put accepted ones in.
  abbrev pub Keeps : (ℕ → pq.Queue → pq.Queue) → Type 0
  Keeps others =
      (k : ℕ) (s : pq.Queue) (m : FixMessage) → laws.In m (others k s) → laws.In m s ⊎ IsAccepted m

  -- A step that sets no callback. A worker's round needs a thread of its kind.
  pub data Work : FixParser q pq → FixParser q pq → Type 0 where
    start_step : (p : FixParser q pq) → Work p (start q pq p)
    stop_step : (p : FixParser q pq) → Work p (stop q pq p)
    feed_step :
        (p : FixParser q pq) (fuel : ℕ) (others : ℕ → q.Queue → q.Queue) (s : Bytes)
        (p' : FixParser q pq)
        → feed_parser q pq fuel others p s ≡ some p'
        → Work p p'
    parsing_step :
        (p : FixParser q pq) (others : ℕ → pq.Queue → pq.Queue)
        → 0 < p.parsing_workers
        → Keeps others
        → Work p (parsing_worker q pq others p)
    processing_step :
        (p : FixParser q pq) → 0 < p.processing_workers → Work p (processing_worker q pq p)

  pub data Step : FixParser q pq → FixParser q pq → Type 0 where
    work_step : {p p' : FixParser q pq} → Work p p' → Step p p'
    message_step :
        (p : FixParser q pq) (f : FixMessage → CallbackResult)
        → Step p (set_message_callback q pq p f)
    error_step :
        (p : FixParser q pq) (f : ParserError → Bool) → Step p (set_error_callback q pq p f)

-- What start, stop and feed_data leave alone.
pub record Untouched {q : LockFreeQueue Bytes} {pq : LockFreeQueue FixMessage}
    (p p' : FixParser q pq) : Type 0 where
  pub parsed_queue : p'.parsed_queue ≡ p.parsed_queue
  pub past : deliveries p'.events ≡ deliveries p.events
  pub stats : p'.stats ≡ p.stats
  pub num_worker_threads : p'.num_worker_threads ≡ p.num_worker_threads

module _ (q : LockFreeQueue Bytes) (pq : LockFreeQueue FixMessage) where
  pub start-Untouched : (p : FixParser q pq) → Untouched p (start q pq p)
  unfolding start
  start-Untouched p = elim (Bool-cases p.running) [
    | inl e ↦ record {
      parsed_queue = ground arith;
      past = ground arith;
      stats = ground arith;
      num_worker_threads = ground arith;
    }
    | inr e ↦ record {
      parsed_queue = ground arith;
      past = ground arith;
      stats = ground arith;
      num_worker_threads = ground arith;
    }
  ]

  pub stop-Untouched : (p : FixParser q pq) → Untouched p (stop q pq p)
  unfolding stop
  stop-Untouched p = record {
    parsed_queue = ground arith;
    past = ground arith;
    stats = ground arith;
    num_worker_threads = ground arith;
  }

  pub feed_parser-Untouched :
      (fuel : ℕ) (others : ℕ → q.Queue → q.Queue) (p p' : FixParser q pq) (s : Bytes)
      → feed_parser q pq fuel others p s ≡ some p'
      → Untouched p p'
  unfolding feed_parser
  feed_parser-Untouched fuel others p p' s h =
      elim (Option-cases (feed_data q fuel others p.feed s)) [
        | inl e ↦ record {
          parsed_queue = ground arith;
          past = ground arith;
          stats = ground arith;
          num_worker_threads = ground arith;
        }
        | inr (f, e) ↦ record {
          parsed_queue = ground arith;
          past = ground (
            arith,
            deliveries-full p.events p.error_callback (f.full_reports - p.feed.full_reports),
          );
          stats = ground arith;
          num_worker_threads = ground arith;
        }
      ]

  -- Without an error callback, feed_data calls nothing.
  pub feed_parser_silent :
      (fuel : ℕ) (others : ℕ → q.Queue → q.Queue) (p p' : FixParser q pq) (s : Bytes)
      → p.error_callback ≡ none
      → feed_parser q pq fuel others p s ≡ some p'
      → (p'.events ≡ p.events) × (p'.error_callback ≡ none)
  unfolding feed_parser
  feed_parser_silent fuel others p p' s c h =
      elim (Option-cases (feed_data q fuel others p.feed s)) [
        | inl e ↦ ground arith
        | inr (f, e) ↦ ground (arith, c, append-nil p.events)
      ]

  pub feed_parser_threads :
      (fuel : ℕ) (others : ℕ → q.Queue → q.Queue) (p p' : FixParser q pq) (s : Bytes)
      → feed_parser q pq fuel others p s ≡ some p'
      → (p'.processing_workers ≡ p.processing_workers) × (p'.message_callback ≡ p.message_callback)
  unfolding feed_parser
  feed_parser_threads fuel others p p' s h =
      elim (Option-cases (feed_data q fuel others p.feed s)) [
        | inl e ↦ ground arith
        | inr (f, e) ↦ ground arith
      ]

  pub start_callback : (p : FixParser q pq) → (start q pq p).message_callback ≡ p.message_callback
  unfolding start
  start_callback p = ground arith

  pub stop_callback :
      (p : FixParser q pq) → p.message_callback ≡ none → (stop q pq p).message_callback ≡ none
  unfolding stop
  stop_callback p h = ground arith

  pub stop_threads :
      (p : FixParser q pq) → p.processing_workers ≡ 0 → (stop q pq p).processing_workers ≡ 0
  unfolding stop
  stop_threads p h = ground arith

-- Any number of steps.
pub data Star {ℓ κ} {A : Type ℓ} (R : A → A → Type κ) (a : A) : A → Type (ℓ ⊔ κ) where
  here : Star R a a
  next : {b c : A} → Star R a b → R b c → Star R a c

pub star-preserves {ℓ κ μ} :
    {A : Type ℓ} (R : A → A → Type κ) (P : A → Type μ)
    → ((b c : A) → R b c → P b → P c)
    → {a b : A} → Star R a b
    → P a
    → P b
star-preserves R P keep here h = h
star-preserves R P keep (next r s) h = keep _ _ s (star-preserves R P keep r h)
