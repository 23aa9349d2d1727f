-- ===== src/Engine/Properties/LegacyCalls.antt =====
-- The clients' calls on an engine without segment trees, and the worker's.
use hft_engine.Base.{
  ℕ, suc, Bool, true, false, some, ◌≡◌, All, inl, inr, arith, Bool-cases, Option-cases,
  if◌then◌else◌,
}
use hft_engine.Base.Words.{wadd}
use hft_engine.Core.{Core}
use hft_engine.Containers.HashMap
use hft_engine.Containers.HashMap.{assign-Values, find-Values}
use hft_engine.Order.{Order}
use hft_engine.OrderBook.{find_order}
use hft_engine.OrderBook.TreeMode.{IsTreeBook, cancel_order-IsTreeBook}
use hft_engine.Engine.Types.{
  ErrorCode, validation_error, risk_check_failed, Event, failed, Environment,
}
use hft_engine.Engine.State.{Engine, known_orders, emit_if}
use hft_engine.Engine.Requests.{
  validate_order, perform_risk_checks, reject, cancel_in_tree, cancel_in_book, modified,
  submit_order, cancel_order, modify_order,
}
use hft_engine.Engine.Process.{matching_worker}
use hft_engine.Engine.Properties.Runs.{HasNoFill, IsLegacy}
use hft_engine.Engine.Properties.LegacyRounds.{work-IsQuiet}

module _ (c : Core) (e : Environment c) where
  emit-IsLegacy :
      (b : Bool) (x : Event c) (g : Engine c e) → IsLegacy c e g → IsLegacy c e (emit_if c e b x g)
  emit-IsLegacy true x g i = record {
    mode = i.mode;
    books = i.books;
    no_fills = i.no_fills;
    no_matches = i.no_matches;
  }
  emit-IsLegacy false x g i = i

  cancel_in_book-IsLegacy :
      (g : Engine c e) (o : Order c) (id : ℕ)
      → IsLegacy c e g
      → IsLegacy c e (cancel_in_book c e g o id)
  unfolding cancel_in_book
  cancel_in_book-IsLegacy g o id i = record {
    mode = i.mode;
    books = elim (Option-cases (HashMap.find c.symbol_eq o.symbol g.order_books)) [
      | inl n ↦ rw (n, cancel_in_book) i.books
      | inr (b, s) ↦
          rw (s, cancel_in_book)
            (assign-Values c.symbol_eq (IsTreeBook c e.levels) o.symbol _ g.order_books
              (cancel_order-IsTreeBook c e.levels b id (
                find-Values c.symbol_eq (IsTreeBook c e.levels) o.symbol g.order_books b s i.books))
              i.books)
    ];
    no_fills = i.no_fills;
    no_matches = i.no_matches;
  }

  cancel_in-IsLegacy :
      (g : Engine c e) (o : Order c) (id : ℕ)
      → IsLegacy c e g
      → IsLegacy c e
          (if g.use_segment_tree then cancel_in_tree c e g o id else cancel_in_book c e g o id)
  cancel_in-IsLegacy g o id i = simp i.mode (cancel_in_book-IsLegacy g o id i)

  pub cancel-IsLegacy :
      (g : Engine c e) (id : ℕ) → IsLegacy c e g → IsLegacy c e (cancel_order c e g id).1
  unfolding cancel_order
  cancel-IsLegacy g id i = elim (Option-cases (find_order c id (known_orders c e g))) [
    | inl n ↦ rw (n, cancel_order) i
    | inr (o, s) ↦ rw (s, cancel_order) (emit-IsLegacy _ _ _ (cancel_in-IsLegacy g o id i))
  ]

  reject-IsLegacy :
      (g : Engine c e) (code : ErrorCode) → IsLegacy c e g → IsLegacy c e (reject c e g code)
  unfolding reject
  reject-IsLegacy g code i =
      let j = emit-IsLegacy g.has_error_callback (failed code) g i in
      record { mode = j.mode; books = j.books; no_fills = j.no_fills; no_matches = j.no_matches }

  pub submit-IsLegacy :
      (g : Engine c e) (o : Order c) (now : c.TimePoint)
      → IsLegacy c e g
      → IsLegacy c e (submit_order c e g o now).1
  unfolding submit_order
  submit-IsLegacy g o now i = elim (Bool-cases (validate_order c o)) [
    | inr v ↦ rw v (reject-IsLegacy g validation_error i)
    | inl v ↦ elim (Bool-cases (perform_risk_checks c o)) [
      | inr r ↦ rw v (rw r (reject-IsLegacy g risk_check_failed i))
      | inl r ↦ rw v (
          rw r (record {
            mode = i.mode;
            books = i.books;
            no_fills = i.no_fills;
            no_matches = i.no_matches;
          }))
    ]
  ]

  pub modify-IsLegacy :
      (g : Engine c e) (id : ℕ) (price : c.Price) (quantity : ℕ) (now : c.TimePoint)
      → IsLegacy c e g
      → IsLegacy c e (modify_order c e g id price quantity now).1
  unfolding modify_order
  modify-IsLegacy g id price quantity now i =
      elim (Option-cases (find_order c id (known_orders c e g))) [
        | inl n ↦ rw (n, modify_order) i
        | inr (o, s) ↦
            let j = cancel-IsLegacy g id i in
            let g' = (cancel_order c e g id).1 in
            rw (s, modify_order)
              (submit-IsLegacy
                (record g' { next_execution_id = wadd c.id_mod g'.next_execution_id 1 })
                (modified c e o g'.next_execution_id price quantity now) now
                (record {
                  mode = j.mode;
                  books = j.books;
                  no_fills = j.no_fills;
                  no_matches = j.no_matches;
                }))
      ]

  -- The round ends, and tells the callbacks of no fill.
  pub worker-IsQuiet :
      (fuel : ℕ) (clock : ℕ → c.TimePoint) (now : c.TimePoint) (latency : c.Price) (g : Engine c e)
      → IsLegacy c e g
      → (g' : Engine c e) × (matching_worker c e (suc fuel) clock now latency g ≡ some g')
        × IsLegacy c e g'
        × (All HasNoFill g.events → All HasNoFill g'.events)
  unfolding matching_worker
  worker-IsQuiet fuel clock now latency g i = elim (Bool-cases g.running) [
    | inr r ↦ (g, rw (r, matching_worker), i, λ h. h)
    | inl r ↦ elim (Option-cases (e.queue.dequeue g.incoming_orders)) [
      | inl n ↦ (g, simp (r, n, matching_worker), i, λ h. h)
      | inr ((o, queue), s) ↦
          let taken = record g { incoming_orders = queue } in
          let (g', ran, j, quiet) = work-IsQuiet c e fuel clock now latency taken o (record {
            mode = i.mode;
            books = i.books;
            no_fills = i.no_fills;
            no_matches = i.no_matches;
          }) in
          (g', ground (arith, r, s, ran), j, quiet)
    ]
  ]

  pub worker-IsLegacy :
      (fuel : ℕ) (clock : ℕ → c.TimePoint) (now : c.TimePoint) (latency : c.Price) (g : Engine c e)
      → IsLegacy c e g
      → (g' : Engine c e) × (matching_worker c e (suc fuel) clock now latency g ≡ some g')
        × IsLegacy c e g'
  worker-IsLegacy fuel clock now latency g i =
      let (g', ran, j, quiet) = worker-IsQuiet fuel clock now latency g i in (g', ran, j)
