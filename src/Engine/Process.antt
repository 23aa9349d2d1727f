-- ===== src/Engine/Process.antt =====
-- process_order and the worker thread's loop.
use hft_engine.Base.{
  ℕ, Bool, not, ◌&&◌, Option, none, some, List, [], ◌∷◌, ◌==◌, ltb, if◌then◌else◌,
}
use hft_engine.Base.Words.{wadd}
use hft_engine.Core.{Core}
use hft_engine.Containers.HashMap
use hft_engine.Order.{Order, remaining_quantity}
use hft_engine.OrderBook
use hft_engine.OrderBook.{OrderBook, Orders}
use hft_engine.Engine.Types.{Fill, ExecutionReport, MatchingStats, executed, filled, Environment}
use hft_engine.Engine.State.{
  Engine, count_one, report_of, emit_if, get_or_create_order_book, get_or_create_segment_tree_book,
}
use hft_engine.Engine.Matching.{match_order_price_time_priority}
use hft_engine.Engine.SegmentMatching.{match_order_segment_tree_price_time}

module _ (c : Core) where
  -- The two sums of calculate_volume_weighted_price.
  unfoldable pub sum_fills : c.Price → ℕ → List (Fill c) → c.Price × ℕ
  sum_fills notional quantity [] = (notional, quantity)
  sum_fills notional quantity (f ∷ fs) =
      sum_fills (c.price_add notional (c.price_mul f.price (c.price_of f.quantity)))
        (wadd c.quantity_mod quantity f.quantity) fs

  unfoldable pub calculate_volume_weighted_price : List (Fill c) → c.Price
  unfolding sum_fills
  calculate_volume_weighted_price [] = c.price_of 0
  calculate_volume_weighted_price (f ∷ fs) =
      let (notional, quantity) = sum_fills (c.price_of 0) 0 (f ∷ fs) in
      if ltb 0 quantity then c.price_div notional (c.price_of quantity) else c.price_of 0

  unfoldable pub update_order_status : Order c → List (Fill c) → Order c
  update_order_status o [] = o
  update_order_status o (f ∷ fs) =
      if remaining_quantity c o == 0
      then record o { status = c.filled }
      else record o { status = c.partially_filled }

  -- `execution_id` is the counter's value before generate_execution_id adds one.
  unfoldable pub create_execution_report :
      Order c → List (Fill c) → ℕ → c.TimePoint → ExecutionReport c
  unfolding report_of calculate_volume_weighted_price
  create_execution_report o fills execution_id now = record (report_of c o) {
    fills = fills;
    execution_id = execution_id;
    avg_executed_price = calculate_volume_weighted_price fills;
    timestamp = now;
  }

  unfoldable pub update_matching_latency : MatchingStats c → c.Price → MatchingStats c
  update_matching_latency s latency = record s {
    matching_operations = count_one s.matching_operations;
    avg_matching_latency_ns =
        c.price_div
          (c.price_add (c.price_mul s.avg_matching_latency_ns (c.price_of s.matching_operations))
            latency)
          (c.price_of (count_one s.matching_operations));
    max_matching_latency_ns =
        if c.price_lt s.max_matching_latency_ns latency then latency else s.max_matching_latency_ns;
  }

  unfoldable pub record_fill : MatchingStats c → Fill c → MatchingStats c
  record_fill s f = record s {
    total_fills = count_one s.total_fills;
    total_volume = c.price_add s.total_volume (c.price_of f.quantity);
    total_notional = c.price_add s.total_notional (c.price_mul f.price (c.price_of f.quantity));
  }

  -- `order.remaining_quantity() > 0 && order.status != CANCELLED`
  unfoldable pub rests : Order c → Bool
  rests o = ltb 0 (remaining_quantity c o) && not (c.status_eq o.status c.cancelled)

module _ (c : Core) (e : Environment c) where
  -- The loop over the fills at the end of process_order.
  unfoldable pub record_fills : Engine c e → List (Fill c) → Engine c e
  unfolding record_fill
  record_fills g [] = g
  record_fills g (f ∷ fs) =
      record_fills
        (emit_if c e g.has_fill_callback (filled f) (record g { stats = record_fill c g.stats f }))
        fs

  -- The segment tree branch behind the matching. The order that is stored is process_order's copy.
  unfoldable pub settle_in_tree : Engine c e → Order c → e.trees.Tree → ℕ → Orders c → Engine c e
  unfolding rests
  settle_in_tree g o tree counter orders = record g {
    synthetic_counter = counter;
    segment_tree_books =
        HashMap.assign c.symbol_eq o.symbol
          (if rests c o
            then e.trees.add_order tree o.price (remaining_quantity c o) o.side
            else tree)
          g.segment_tree_books;
    segment_tree_orders =
        if rests c o
        then HashMap.assign ◌==◌ o.id o orders
        else HashMap.erase ◌==◌ o.id (HashMap.assign ◌==◌ o.id o orders);
  }

  -- The segment tree branch: the engine and the fills.
  unfoldable pub process_in_tree :
      ℕ → (ℕ → c.TimePoint) → Engine c e → Order c → Option (Engine c e × List (Fill c))
  unfolding get_or_create_segment_tree_book match_order_segment_tree_price_time settle_in_tree
  process_in_tree fuel clock g o =
      elim (match_order_segment_tree_price_time c e.trees clock fuel o
        (get_or_create_segment_tree_book c e g o.symbol) g.synthetic_counter
        (HashMap.assign ◌==◌ o.id o g.segment_tree_orders)) [
          | none ↦ none
          | some (fills, tree, counter, orders) ↦
              some (settle_in_tree g o tree counter orders, fills)
        ]

  -- The other branch behind the matching, with the same copy of the order.
  unfoldable pub settle_in_book :
      Engine c e → Order c → OrderBook c e.levels → Orders c → Engine c e
  unfolding rests OrderBook.add_order
  settle_in_book g o b active = record g {
    order_books =
        HashMap.assign c.symbol_eq o.symbol
          (if rests c o then (OrderBook.add_order c e.levels b o).1 else b) g.order_books;
    active_orders =
        if rests c o
        then HashMap.assign ◌==◌ o.id o active
        else HashMap.erase ◌==◌ o.id (HashMap.assign ◌==◌ o.id o active);
  }

  -- The other branch. All four algorithms call match_order_price_time_priority.
  unfoldable pub process_in_book :
      ℕ → (ℕ → c.TimePoint) → Engine c e → Order c → Option (Engine c e × List (Fill c))
  unfolding get_or_create_order_book match_order_price_time_priority settle_in_book
  process_in_book fuel clock g o =
      elim (match_order_price_time_priority c e.levels clock fuel o
        (get_or_create_order_book c e g o.symbol) (HashMap.assign ◌==◌ o.id o g.active_orders)) [
          | none ↦ none
          | some (fills, b, active) ↦ some (settle_in_book g o b active, fills)
        ]

  -- What follows the matching: the report, the statistics and the callbacks. `o` is process_order's
  -- copy of the order, which the matching has not changed.
  unfoldable pub finish_order :
      Engine c e → Order c → List (Fill c) → c.TimePoint → c.Price → Engine c e
  unfolding update_order_status create_execution_report update_matching_latency record_fills
  finish_order g o fills now latency =
      let report =
        create_execution_report c (update_order_status c o fills) fills g.next_execution_id now in
      let timed = update_matching_latency c g.stats latency in
      let counted = record timed {
        orders_processed = count_one timed.orders_processed;
        orders_matched = elim fills [
          | [] ↦ timed.orders_matched
          | f ∷ fs ↦ count_one timed.orders_matched
        ];
      } in
      record_fills
        (emit_if c e g.has_execution_callback (executed report)
          (record g { next_execution_id = wadd c.id_mod g.next_execution_id 1; stats = counted }))
        fills

  unfoldable pub process_order :
      ℕ → (ℕ → c.TimePoint) → c.TimePoint → c.Price → Engine c e → Order c → Option (Engine c e)
  unfolding process_in_tree process_in_book finish_order
  process_order fuel clock now latency g o =
      elim (if g.use_segment_tree
        then process_in_tree fuel clock g o
        else process_in_book fuel clock g o) [
          | none ↦ none
          | some (g', fills) ↦ some (finish_order g' o fills now latency)
        ]

  -- One round of matching_worker: nothing happens when the engine is stopped or the queue is empty.
  unfoldable pub matching_worker :
      ℕ → (ℕ → c.TimePoint) → c.TimePoint → c.Price → Engine c e → Option (Engine c e)
  unfolding process_order
  matching_worker fuel clock now latency g =
      if g.running
      then elim (e.queue.dequeue g.incoming_orders) [
        | none ↦ some g
        | some (o, queue) ↦
            process_order fuel clock now latency (record g { incoming_orders = queue }) o
      ]
      else some g
