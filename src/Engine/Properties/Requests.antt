-- ===== src/Engine/Properties/Requests.antt =====
-- submit_order, cancel_order and modify_order on every branch.
use mathlib.Core.List.{append-nil}
use hft_engine.Base.{
  ℕ, Bool, false, not, ◌&&◌, some, ◌≡◌, arith, ◌==◌, ==_iff, true, ◌≤◌, ◌⊎◌, inl, inr, ◌∷◌, ◌++◌,
  [], Bool-cases, ap, refl, if◌then◌else◌,
}
use hft_engine.Core.{Core}
use hft_engine.Containers.HashMap.{find-erase}
use hft_engine.Order.{Order}
use hft_engine.OrderBook.{find_order}
use hft_engine.Engine.Types.{Environment, ErrorCode, failed, validation_error, risk_check_failed}
use hft_engine.Engine.State.{Engine, count_one, has_order, known_orders}
use hft_engine.Engine.Requests.{
  reject, validate_order, perform_risk_checks, submit_order, cancel_order, modify_order, modified,
}

module _ (c : Core) (e : Environment c) where
  abbrev pub accepts : Order c → Bool
  accepts o = validate_order c o && perform_risk_checks c o

  -- The order is within the limits of the engine, all in one: a price between 0 and 1,000,000, one to
  -- 100,000 pieces, and a value of at most 10,000,000.
  pub record IsWithinLimits (o : Order c) : Type 0 where
    pub price_above : c.price_lt (c.price_of 0) o.price ≡ true
    pub price_below : c.price_lt o.price (c.price_of 1_000_000) ≡ true
    pub some_quantity : 1 ≤ o.quantity
    pub quantity_small : o.quantity ≤ 100_000
    pub value_small :
        c.price_le (c.price_mul o.price (c.price_of o.quantity)) (c.price_of 10_000_000) ≡ true

  accepts-IsWithinLimits : (o : Order c) → accepts o ≡ true → IsWithinLimits o
  unfolding validate_order perform_risk_checks
  accepts-IsWithinLimits o h = record {
    price_above = ground arith;
    price_below = ground arith;
    some_quantity = ground arith;
    quantity_small = ground arith;
    value_small = ground arith;
  }

  within_accepted : (o : Order c) → IsWithinLimits o → accepts o ≡ true
  unfolding validate_order perform_risk_checks
  within_accepted o w =
      ground (arith, w.price_above, w.price_below, w.some_quantity, w.quantity_small, w.value_small)

  -- What submit_order does to the engine with an order that is within the limits.
  submitted :
      (g : Engine c e) (o : Order c) (now : c.TimePoint)
      → accepts o ≡ true
      → let offered = e.queue.enqueue g.incoming_orders (record o { timestamp = now }) in
        submit_order c e g o now ≡ (offered.0, record g { incoming_orders = offered.1 })
  unfolding submit_order
  submitted g o now h = ground arith

  -- The engine behind a refusal: one more rejected order, and a call of the error callback if it is set.
  abbrev pub refused : Engine c e → ErrorCode → Engine c e
  refused g code = record g {
    stats = record (g.stats) { orders_rejected = count_one g.stats.orders_rejected };
    events = g.events ++ (if g.has_error_callback then failed code ∷ [] else []);
  }

  reject_lem : (g : Engine c e) (code : ErrorCode) → reject c e g code ≡ refused g code
  unfolding reject
  reject_lem g code = elim (Bool-cases g.has_error_callback) [
    | inl b ↦ rw b refl
    | inr b ↦ rw (b, append-nil g.events) refl
  ]

  not_submitted :
      (g : Engine c e) (o : Order c) (now : c.TimePoint)
      → accepts o ≡ false
      → (code : ErrorCode) × (submit_order c e g o now ≡ (false, refused g code))
  unfolding submit_order
  not_submitted g o now h = elim (Bool-cases (validate_order c o)) [
    | inr v ↦ (
      validation_error,
      rw (submit_order, v) (ap (λ x. (false, x)) (reject_lem g validation_error)),
    )
    | inl v ↦ elim (Bool-cases (perform_risk_checks c o)) [
      | inl k ↦ absurd (ground (arith, h, v, k))
      | inr k ↦ (
        risk_check_failed,
        rw (submit_order, v, k) (ap (λ x. (false, x)) (reject_lem g risk_check_failed)),
      )
    ]
  ]

  -- An order within the limits of the engine is queued with the new time if the queue has room; the
  -- call says whether it had, and changes nothing else of the engine, no counter and no event. Any
  -- other order is refused: it is counted as rejected, the error callback is called once if it
  -- is set, and nothing else of the engine changes.
  pub submit_order_lem :
      (g : Engine c e) (o : Order c) (now : c.TimePoint)
      → let offered = e.queue.enqueue g.incoming_orders (record o { timestamp = now }) in
        let (done, g') = submit_order c e g o now in
        (IsWithinLimits o × (done ≡ offered.0) × (g' ≡ record g { incoming_orders = offered.1 }))
        ⊎ ((IsWithinLimits o → ⊥) × (done ≡ false) × ((code : ErrorCode) × (g' ≡ refused g code)))
  submit_order_lem g o now = elim (Bool-cases (accepts o)) [
    | inl h ↦
        let s = submitted g o now h in
        inl (accepts-IsWithinLimits o h, ap (λ x. x.0) s, ap (λ x. x.1) s)
    | inr h ↦
        let (code, s) = not_submitted g o now h in
        inr (
          (λ w. absurd (ground (arith, h, within_accepted o w))),
          ap (λ x. x.0) s,
          (code, ap (λ x. x.1) s),
        )
  ]

  -- cancel_order reports whether the engine knew the order; after it the order is unknown, and every
  -- other order is known exactly if it was.
  pub cancel_request :
      (g : Engine c e) (id j : ℕ)
      → ((cancel_order c e g id).0 ≡ has_order c e g id)
        × (has_order c e (cancel_order c e g id).1 j ≡ has_order c e g j && not (id == j))
  unfolding cancel_order has_order
  cancel_request g id j = ground (
    arith,
    find-erase ◌==◌ ==_iff j id g.segment_tree_orders,
    find-erase ◌==◌ ==_iff j id g.active_orders,
    ==_iff id j,
  )

  -- The modification of a known order to a price and a quantity that the checks refuse fails, and the
  -- order that it should have changed is gone: it was cancelled before the checks.
  pub modify_order_loses :
      (g : Engine c e) (o : Order c) (id : ℕ) (price : c.Price) (quantity : ℕ) (now : c.TimePoint)
      → find_order c id (known_orders c e g) ≡ some o
      → accepts (modified c e o (cancel_order c e g id).1.next_execution_id price quantity now)
        ≡ false
      → ((modify_order c e g id price quantity now).0 ≡ false)
        × (has_order c e (modify_order c e g id price quantity now).1 id ≡ false)
        × ((modify_order c e g id price quantity now).1.incoming_orders ≡ g.incoming_orders)
  unfolding modify_order cancel_order submit_order has_order
  modify_order_loses g o id price quantity now h k = ground (
    arith,
    find-erase ◌==◌ ==_iff id id g.segment_tree_orders,
    find-erase ◌==◌ ==_iff id id g.active_orders,
    ==_iff id id,
  )
