-- ===== src/Engine/Requests.antt =====
-- submit_order, cancel_order and modify_order, with the checks that they make.
use hft_engine.Base.{ℕ, Bool, true, false, ◌&&◌, none, some, ◌==◌, ltb, leb, if◌then◌else◌}
use hft_engine.Base.Words.{wadd}
use hft_engine.Core.{Core}
use hft_engine.Containers.HashMap
use hft_engine.Order.{Order, remaining_quantity}
use hft_engine.OrderBook
use hft_engine.OrderBook.{OrderBook, Orders, find_order}
use hft_engine.Engine.Types.{
  ErrorCode, validation_error, risk_check_failed, executed, failed, Environment,
}
use hft_engine.Engine.State.{Engine, count_one, report_of, emit_if, get_order_book, known_orders}

module _ (c : Core) where
  unfoldable pub validate_price : c.Price → Bool
  validate_price p = c.price_lt (c.price_of 0) p && c.price_lt p (c.price_of 1_000_000)

  unfoldable pub validate_quantity : ℕ → Bool
  validate_quantity q = ltb 0 q && leb q 1_000_000

  unfoldable pub validate_order : Order c → Bool
  unfolding validate_price validate_quantity
  validate_order o = validate_price o.price && validate_quantity o.quantity

  unfoldable pub check_position_limits : Order c → Bool
  check_position_limits o = true

  unfoldable pub check_order_limits : Order c → Bool
  check_order_limits o =
      leb o.quantity 100_000
      && c.price_le (c.price_mul o.price (c.price_of o.quantity)) (c.price_of 10_000_000)

  unfoldable pub perform_risk_checks : Order c → Bool
  unfolding check_position_limits check_order_limits
  perform_risk_checks o = check_position_limits o && check_order_limits o

module _ (c : Core) (e : Environment c) where
  -- A rejected order: the error callback and the counter.
  unfoldable pub reject : Engine c e → ErrorCode → Engine c e
  reject g code =
      let g' = emit_if c e g.has_error_callback (failed code) g in
      record g' {
        stats = record (g'.stats) { orders_rejected = count_one g'.stats.orders_rejected };
      }

  -- The copy with the new time goes into the queue.
  unfoldable pub submit_order : Engine c e → Order c → c.TimePoint → Bool × Engine c e
  unfolding reject validate_order perform_risk_checks
  submit_order g o now =
      if validate_order c o
      then if perform_risk_checks c o
        then (let (queued, queue) =
              e.queue.enqueue g.incoming_orders (record o { timestamp = now }) in
            (queued, record g { incoming_orders = queue }))
        else (false, reject g risk_check_failed)
      else (false, reject g validation_error)

  -- `ExecutionReport report(order)` with the order's status set to CANCELLED, and its callback.
  unfoldable pub report_cancelled : Engine c e → Order c → Engine c e
  unfolding report_of
  report_cancelled g o =
      emit_if c e g.has_execution_callback
        (executed (report_of c (record o { status = c.cancelled }))) g

  unfoldable pub cancel_in_tree : Engine c e → Order c → ℕ → Engine c e
  cancel_in_tree g o id = record g {
    segment_tree_books = elim (HashMap.find c.symbol_eq o.symbol g.segment_tree_books) [
      | none ↦ g.segment_tree_books
      | some tree ↦
          HashMap.assign c.symbol_eq o.symbol
            (e.trees.remove_order tree o.price (remaining_quantity c o) o.side) g.segment_tree_books
    ];
    segment_tree_orders = HashMap.erase ◌==◌ id g.segment_tree_orders;
  }

  unfoldable pub cancel_in_book : Engine c e → Order c → ℕ → Engine c e
  unfolding get_order_book
  cancel_in_book g o id = record g {
    order_books = elim (get_order_book c e g o.symbol) [
      | none ↦ g.order_books
      | some b ↦
          HashMap.assign c.symbol_eq o.symbol (OrderBook.cancel_order c e.levels b id).1
            g.order_books
    ];
    active_orders = HashMap.erase ◌==◌ id g.active_orders;
  }

  unfoldable pub cancel_order : Engine c e → ℕ → Bool × Engine c e
  unfolding find_order report_cancelled cancel_in_tree cancel_in_book
  cancel_order g id = elim (find_order c id (known_orders c e g)) [
    | none ↦ (false, g)
    | some o ↦ (
      true,
      report_cancelled (if g.use_segment_tree then cancel_in_tree g o id else cancel_in_book g o id)
          o,
    )
  ]

  -- The order under its new id, as modify_order submits it.
  unfoldable pub modified : Order c → ℕ → c.Price → ℕ → c.TimePoint → Order c
  modified o id price quantity now = record o {
    id = id;
    price = price;
    quantity = quantity;
    filled_quantity = 0;
    timestamp = now;
  }

  unfoldable pub modify_order : Engine c e → ℕ → c.Price → ℕ → c.TimePoint → Bool × Engine c e
  unfolding find_order cancel_order submit_order modified
  modify_order g id price quantity now = elim (find_order c id (known_orders c e g)) [
    | none ↦ (false, g)
    | some o ↦
        let g' = (cancel_order g id).1 in
        submit_order (record g' { next_execution_id = wadd c.id_mod g'.next_execution_id 1 })
          (modified o g'.next_execution_id price quantity now) now
  ]
