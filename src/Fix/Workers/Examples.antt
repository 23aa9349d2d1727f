-- ===== src/Fix/Workers/Examples.antt =====
-- The workers at a message that they deliver.
use hft_engine.Base.{ℕ, ◌<◌, [], ◌∷◌, ◌≡◌, refl, arith, inl, All, ap, length}
use hft_engine.Samples.{short_queue, short_queue-IsQueue}
use hft_engine.Fix.Bytes.{Bytes}
use hft_engine.Containers.HashMap
use hft_engine.Fix.Message.{
  set_field, set_ordered, get_field, is_valid, calculate_checksum, sum_fields, add_bytes,
  field_bytes,
}
use hft_engine.Fix.Parse.{
  parse_message_internal, parse_fields, split_fields, store_fields, store_header, parse_field,
  split_equals, check_message,
}
use hft_engine.Base.Words.{wadd, wsub}
use hft_engine.Fix.Bytes.{
  find_from, find_at, begins, drop, stoul, is_space, is_digit, read_digits, read_unsigned,
  read_signed, to_string, digits,
}
use hft_engine.Fix.Feed.{
  feed_data, drain, deliver, enqueue_retry, extract_next_message, message_end, consume,
}
use hft_engine.Fix.Workers.{
  feed_parser, parse_taken, settle_outcome, hand_on, call_back, after_callback, count_outcome,
  returns, FixParser, new_parser, set_message_callback, start, stop, parsing_worker,
  processing_worker,
}
use hft_engine.Fix.Workers.Views.{view-parsing_worker}
use hft_engine.Fix.Workers.Steps.{
  deliveries, IsAccepted, Work, feed_step, start_step, parsing_step, processing_step, Step,
  work_step, message_step, Star, here, next,
}
use hft_engine.Fix.Workers.Delivered.{deliveries-IsAccepted}
use hft_engine.Fix.Workers.Silent.{
  single_never_delivers, stopped_never_calls, workers_count_nothing,
}

-- "8=FIX|9=5|35=D|49=A|56=B|10=202|" with SOH for the bars.
abbrev valid_text : Bytes
valid_text =
    b'8' ∷ b'=' ∷ b'F' ∷ b'I' ∷ b'X' ∷ 1 ∷ b'9' ∷ b'=' ∷ b'5' ∷ 1 ∷ b'3' ∷ b'5' ∷ b'=' ∷ b'D' ∷ 1
    ∷ b'4' ∷ b'9' ∷ b'=' ∷ b'A' ∷ 1 ∷ b'5' ∷ b'6' ∷ b'=' ∷ b'B' ∷ 1 ∷ b'1' ∷ b'0' ∷ b'=' ∷ b'2'
    ∷ b'0' ∷ b'2' ∷ 1 ∷ []

abbrev Parser : Type 0
Parser = FixParser short_queue short_queue

-- A parser with a callback, started with `n` threads, that has been fed with the message.
abbrev started : ℕ → Parser
started n = start short_queue short_queue (
    set_message_callback short_queue short_queue (new_parser short_queue short_queue n)
      (λ m. returns))

abbrev fed : ℕ → Parser
fed n = record (started n) {
  feed = record {
    buffer = record { bytes = valid_text; position = 0 };
    raw_queue = valid_text ∷ [];
    bytes_processed = 32;
    queue_full_events = 0;
    messages_dropped = 0;
    full_reports = 0;
  };
}

fed_step : (n : ℕ) → Work short_queue short_queue short_queue-IsQueue (started n) (fed n)
unfolding start set_message_callback new_parser feed_parser feed_data drain deliver enqueue_retry
    extract_next_message message_end consume find_from find_at begins drop wadd
fed_step n = feed_step (started n) 33 (λ k s. s) valid_text (fed n) refl

-- The run that a parser with `n` threads begins with.
fed_run :
    (n : ℕ)
    → Star
        (Step short_queue short_queue short_queue-IsQueue)
        (new_parser short_queue short_queue n)
        (fed n)
fed_run n =
    next (next (next here (message_step _ (λ m. returns))) (work_step (start_step _)))
      (work_step (fed_step n))

abbrev parsed : ℕ → Parser
parsed n = parsing_worker short_queue short_queue (λ k s. s) (fed n)

abbrev processed : ℕ → Parser
processed n = processing_worker short_queue short_queue (parsed n)

parsed_run :
    (n : ℕ)
    → 0 < (fed n).parsing_workers
    → Star
        (Step short_queue short_queue short_queue-IsQueue)
        (new_parser short_queue short_queue n)
        (parsed n)
parsed_run n h = next (fed_run n) (work_step (parsing_step (fed n) (λ k s. s) h (λ k s m i. inl i)))

processed_run :
    Star
      (Step short_queue short_queue short_queue-IsQueue)
      (new_parser short_queue short_queue 4)
      (processed 4)
unfolding start set_message_callback new_parser wsub
processed_run =
    let v = view-parsing_worker short_queue short_queue (λ k s. s) (fed 4) in
    next (parsed_run 4 (omega arith))
      (work_step (processing_step (parsed 4) (omega (arith, ap (λ x. x.processing_workers) v))))

-- The message is delivered.
delivers_one : length (deliveries (processed 4).events) ≡ 1
unfolding start set_message_callback new_parser parsing_worker parse_taken settle_outcome hand_on
    processing_worker call_back after_callback parse_message_internal parse_fields split_fields
    store_fields store_header parse_field split_equals stoul is_space is_digit read_digits
    read_unsigned read_signed set_field set_ordered get_field check_message is_valid
    calculate_checksum sum_fields add_bytes field_bytes to_string digits HashMap.find HashMap.assign
    enqueue_retry count_outcome
delivers_one = refl

deliveries-IsAccepted_example : All IsAccepted (deliveries (processed 4).events)
deliveries-IsAccepted_example =
    deliveries-IsAccepted short_queue short_queue short_queue-IsQueue 4 (processed 4) processed_run

single_never_delivers_example : deliveries (parsed 1).events ≡ []
unfolding start set_message_callback new_parser
single_never_delivers_example =
    single_never_delivers short_queue short_queue short_queue-IsQueue (parsed 1)
      (parsed_run 1 (omega arith))

workers_count_nothing_example : (processed 4).stats.messages_parsed ≡ 0
workers_count_nothing_example =
    workers_count_nothing short_queue short_queue short_queue-IsQueue 4 (processed 4) processed_run

-- The parser is stopped and started again while a message waits.
abbrev restarted : Parser
restarted = start short_queue short_queue (stop short_queue short_queue (fed 4))

stopped_never_calls_example :
    (processing_worker short_queue short_queue
      (parsing_worker short_queue short_queue (λ k s. s) restarted)).events
    ≡ (fed 4).events
unfolding start stop set_message_callback new_parser wsub
stopped_never_calls_example =
    let v = view-parsing_worker short_queue short_queue (λ k s. s) restarted in
    stopped_never_calls short_queue short_queue short_queue-IsQueue (fed 4) _ refl (
      next
        (next (next here (start_step _))
          (parsing_step restarted (λ k s. s) (omega arith) (λ k s m i. inl i)))
        (processing_step _ (omega (arith, ap (λ x. x.processing_workers) v))))
