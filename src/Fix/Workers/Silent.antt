-- ===== src/Fix/Workers/Silent.antt =====
-- When the callback is not called, and what the workers never count.
use hft_engine.Base.{ℕ, true, none, List, [], ◌≡◌, refl, ap, ◌∙◌, arith}
use hft_engine.Core.{LockFreeQueue, IsQueue}
use hft_engine.Fix.Bytes.{Bytes}
use hft_engine.Fix.Message.{FixMessage}
use hft_engine.Fix.Workers.{
  ParserEvent, FixParser, new_parser, set_message_callback, set_error_callback, stop,
}
use hft_engine.Fix.Workers.Steps.{
  deliveries, feed_parser_silent, start-Untouched, stop-Untouched, feed_parser-Untouched,
  feed_parser_threads, stop_threads, Work, start_step, stop_step, feed_step, parsing_step,
  processing_step, Step, work_step, message_step, error_step, Star, star-preserves,
}
use hft_engine.Fix.Workers.Quiet.{
  quiet, quiet-start, quiet-stop, quiet-parsing_worker, quiet-processing_worker,
}
use hft_engine.Fix.Workers.Views.{view-parsing_worker, processing_worker_parsed, start_single}

module _ (q : LockFreeQueue Bytes) (pq : LockFreeQueue FixMessage) (laws : IsQueue pq) where
  -- One thread, which parses.
  record IsSingle (p : FixParser q pq) : Type 0 where
    none_process : p.processing_workers ≡ 0
    one : p.num_worker_threads ≡ 1
    nothing : deliveries p.events ≡ []

  Work-IsSingle : (p p' : FixParser q pq) → Work q pq laws p p' → IsSingle p → IsSingle p'
  Work-IsSingle _ _ (start_step p) h =
      let s = start_single q pq p h.one h.none_process in
      record { none_process = s.0; one = s.1; nothing = (start-Untouched q pq p).past ∙ h.nothing }
  Work-IsSingle _ _ (stop_step p) h =
      let u = stop-Untouched q pq p in
      record {
        none_process = stop_threads q pq p h.none_process;
        one = u.num_worker_threads ∙ h.one;
        nothing = u.past ∙ h.nothing;
      }
  Work-IsSingle _ _ (feed_step p fuel others s p' e) h =
      let u = feed_parser-Untouched q pq fuel others p p' s e in
      record {
        none_process = (feed_parser_threads q pq fuel others p p' s e).0 ∙ h.none_process;
        one = u.num_worker_threads ∙ h.one;
        nothing = u.past ∙ h.nothing;
      }
  Work-IsSingle _ _ (parsing_step p others n k) h =
      let v = view-parsing_worker q pq others p in
      record {
        none_process = ap (λ x. x.processing_workers) v ∙ h.none_process;
        one = ap (λ x. x.num_worker_threads) v ∙ h.one;
        nothing = ap (λ x. x.past) v ∙ h.nothing;
      }
  Work-IsSingle _ _ (processing_step p n) h = absurd (omega (arith, n, h.none_process))

  Step-IsSingle : (p p' : FixParser q pq) → Step q pq laws p p' → IsSingle p → IsSingle p'
  Step-IsSingle p p' (work_step w) h = Work-IsSingle p p' w h
  Step-IsSingle _ _ (message_step p f) h =
      unfold set_message_callback in
      record { none_process = h.none_process; one = h.one; nothing = h.nothing }
  Step-IsSingle _ _ (error_step p f) h =
      unfold set_error_callback in
      record { none_process = h.none_process; one = h.one; nothing = h.nothing }

  -- A parser that was made for one worker thread never calls its callback, whatever steps its clients
  -- and its workers make, in any order, calls of set_worker_threads aside.
  pub single_never_delivers :
      (p : FixParser q pq) → Star (Step q pq laws) (new_parser q pq 1) p → deliveries p.events ≡ []
  unfolding new_parser
  single_never_delivers p r =
      let single : IsSingle p =
        star-preserves (Step q pq laws) IsSingle Step-IsSingle r
          (record { none_process = refl; one = refl; nothing = refl }) in
      single.nothing

  -- No callback, and only the events that there were.
  record IsSilent (es : List ParserEvent) (p : FixParser q pq) : Type 0 where
    unset : p.message_callback ≡ none
    no_reports : p.error_callback ≡ none
    same : p.events ≡ es

  quiet-IsSilent :
      (es : List ParserEvent) (p p' : FixParser q pq)
      → quiet q pq p' ≡ quiet q pq p
      → IsSilent es p
      → IsSilent es p'
  quiet-IsSilent es p p' e h = record {
    unset = ap (λ v. v.message_callback) e ∙ h.unset;
    no_reports = ap (λ v. v.error_callback) e ∙ h.no_reports;
    same = ap (λ v. v.events) e ∙ h.same;
  }

  Work-IsSilent :
      (es : List ParserEvent) (p p' : FixParser q pq)
      → Work q pq laws p p'
      → IsSilent es p
      → IsSilent es p'
  Work-IsSilent es _ _ (start_step p) h = quiet-IsSilent es p _ (quiet-start q pq p) h
  Work-IsSilent es _ _ (stop_step p) h =
      quiet-IsSilent es p _ (quiet-stop q pq p h.unset h.no_reports) h
  Work-IsSilent es _ _ (feed_step p fuel others s p' e) h =
      let kept = feed_parser_silent q pq fuel others p p' s h.no_reports e in
      record {
        unset = (feed_parser_threads q pq fuel others p p' s e).1 ∙ h.unset;
        no_reports = kept.1;
        same = kept.0 ∙ h.same;
      }
  Work-IsSilent es _ _ (parsing_step p others n k) h =
      quiet-IsSilent es p _ (quiet-parsing_worker q pq others p h.no_reports) h
  Work-IsSilent es _ _ (processing_step p n) h =
      quiet-IsSilent es p _ (quiet-processing_worker q pq p h.unset) h

  -- After stop, a running parser calls neither its message callback nor its error callback until one is
  -- set, also when it is started again, is fed, and its workers take the messages that still wait in
  -- the queues.
  pub stopped_never_calls :
      (p p' : FixParser q pq)
      → p.running ≡ true
      → Star (Work q pq laws) (stop q pq p) p'
      → p'.events ≡ p.events
  stopped_never_calls p p' running r =
      let silent : IsSilent p.events p' =
        star-preserves (Work q pq laws) (IsSilent p.events) (Work-IsSilent p.events) r (record {
          unset = unfold stop in ground arith;
          no_reports = unfold stop in ground arith;
          same = unfold stop in ground arith;
        }) in
      silent.same

  Step-parsed :
      (n : ℕ) (p p' : FixParser q pq)
      → Step q pq laws p p'
      → p.stats.messages_parsed ≡ n
      → p'.stats.messages_parsed ≡ n
  Step-parsed n _ _ (work_step (start_step p)) h =
      ap (λ s. s.messages_parsed) (start-Untouched q pq p).stats ∙ h
  Step-parsed n _ _ (work_step (stop_step p)) h =
      ap (λ s. s.messages_parsed) (stop-Untouched q pq p).stats ∙ h
  Step-parsed n _ _ (work_step (feed_step p fuel others s p' e)) h =
      ap (λ s. s.messages_parsed) (feed_parser-Untouched q pq fuel others p p' s e).stats ∙ h
  Step-parsed n _ _ (work_step (parsing_step p others k l)) h =
      ap (λ x. x.messages_parsed) (view-parsing_worker q pq others p) ∙ h
  Step-parsed n _ _ (work_step (processing_step p k)) h = processing_worker_parsed q pq p ∙ h
  Step-parsed n _ _ (message_step p f) h = unfold set_message_callback in h
  Step-parsed n _ _ (error_step p f) h = unfold set_error_callback in h

  -- After any steps of a new parser, whatever its workers parse and deliver, messages_parsed is 0;
  -- calls of parse_message and set_worker_threads are not among the steps.
  pub workers_count_nothing :
      (n : ℕ) (p : FixParser q pq)
      → Star (Step q pq laws) (new_parser q pq n) p
      → p.stats.messages_parsed ≡ 0
  unfolding new_parser
  workers_count_nothing n p r =
      star-preserves (Step q pq laws) (λ x. x.stats.messages_parsed ≡ 0) (Step-parsed 0) r refl
