-- ===== src/Engine/Properties/Examples.antt =====
-- The properties of the engine at concrete orders.
use hft_engine.Base.{
  ℕ, ◌-◌, ◌≤◌, true, false, ◌&&◌, some, List, [], ◌∷◌, ◌≡◌, ◌⊎◌, refl, arith, All, ◌==◌,
}
use hft_engine.Base.Words.{wsub}
use hft_engine.Core.Laws.{whole, whole-IsCore}
use hft_engine.Containers.HashMap
use hft_engine.Order.{Order, remaining_quantity}
use hft_engine.OrderBook.{Orders, find_order}
use hft_engine.Samples.{sample, list_book, limit_order}
use hft_engine.Engine.Types.{ErrorCode, Fill, price_time_priority}
use hft_engine.Engine.State.{Engine, new_engine, has_order, get_or_create_segment_tree_book}
use hft_engine.Engine.SegmentMatching.{match_order_segment_tree_price_time}
use hft_engine.Engine.Requests.{
  validate_order, perform_risk_checks, modified, submit_order, cancel_order, modify_order,
}
use hft_engine.Engine.Process.{rests, process_order}
use hft_engine.Engine.Properties.Fills.{IsFillable, IsWithin, total_filled}
use hft_engine.Engine.Properties.SegmentFills.{segment_matching_total}
use hft_engine.Engine.Properties.SegmentProcess.{process_order_forgets}
use hft_engine.Engine.Properties.Requests.{
  IsWithinLimits, refused, submit_order_lem, cancel_request, modify_order_loses,
}
use hft_engine.Engine.Properties.Runs.{Request, submit, starts, work, run}
use hft_engine.Engine.Properties.Legacy.{legacy_never_matches}

-- Buys 20 at 101 against asks of 5 at 100, 7 at 101 and 9 at 102.
abbrev buyer : Order whole
buyer = limit_order 10 true 101 20

abbrev asks : list_book.Tree
asks = ([], (100, 5) ∷ (101, 7) ∷ (102, 9) ∷ [])

buyer-IsFillable : IsFillable whole buyer
buyer-IsFillable = record { not_over = omega arith; word = omega arith }

-- The engine in segment tree mode that holds those asks and one resting order.
abbrev tree_engine : Engine whole sample
tree_engine = record (new_engine whole sample price_time_priority true 900000000) {
  segment_tree_books = (1, asks) ∷ [];
  segment_tree_orders = (7, limit_order 7 false 102 9) ∷ [];
  running = true;
}

segment_matching_total_example :
    (fills : List (Fill whole)) × (rest : list_book.Tree × ℕ × Orders whole)
    × (match_order_segment_tree_price_time whole list_book (λ n. n) 21 buyer asks 900000000 []
        ≡ some (fills, rest.0, rest.1, rest.2))
    × (total_filled whole fills ≤ 20 - 0)
    × All (IsWithin whole true buyer) fills
unfolding remaining_quantity wsub
segment_matching_total_example =
    segment_matching_total whole list_book (λ n. n) 21 buyer asks 900000000 [] buyer-IsFillable
      (omega arith)

process_order_forgets_example :
    (matched : List (Fill whole) × list_book.Tree × ℕ × Orders whole) × (g : Engine whole sample)
    × (match_order_segment_tree_price_time whole list_book
          (λ n. n)
          21
          buyer
          (get_or_create_segment_tree_book whole sample tree_engine 1)
          tree_engine.synthetic_counter
          (HashMap.assign ◌==◌ 10 buyer tree_engine.segment_tree_orders)
        ≡ some matched)
    × (process_order whole sample 21 (λ n. n) 50 3 tree_engine buyer ≡ some g)
    × (find_order whole 10 g.segment_tree_orders ≡ some buyer)
    × (HashMap.find ◌==◌ 1 g.segment_tree_books
        ≡ some (list_book.add_order matched.1 101 (remaining_quantity whole buyer) true))
unfolding remaining_quantity wsub rests
process_order_forgets_example =
    process_order_forgets whole whole-IsCore sample (λ n. n) 21 50 3 tree_engine buyer
      (unfold new_engine in refl) buyer-IsFillable (omega arith) refl

-- One piece too many for the risk checks.
abbrev too_large : Order whole
too_large = record buyer { quantity = 100_001 }

submit_order_lem_example :
    let (done, g') = submit_order whole sample tree_engine too_large 60 in
    (IsWithinLimits whole sample too_large
      × (done ≡ true)
      × (g' ≡ record tree_engine { incoming_orders = record too_large { timestamp = 60 } ∷ [] }))
    ⊎ ((IsWithinLimits whole sample too_large → ⊥)
        × (done ≡ false)
        × ((code : ErrorCode) × (g' ≡ refused whole sample tree_engine code)))
unfolding new_engine
submit_order_lem_example = submit_order_lem whole sample tree_engine too_large 60

cancel_request_example :
    ((cancel_order whole sample tree_engine 7).0 ≡ has_order whole sample tree_engine 7)
    × (has_order whole sample (cancel_order whole sample tree_engine 7).1 7
        ≡ has_order whole sample tree_engine 7 && false)
cancel_request_example = cancel_request whole sample tree_engine 7 7

-- The new quantity 0 is refused.
modify_order_loses_example :
    ((modify_order whole sample tree_engine 7 103 0 60).0 ≡ false)
    × (has_order whole sample (modify_order whole sample tree_engine 7 103 0 60).1 7 ≡ false)
    × ((modify_order whole sample tree_engine 7 103 0 60).1.incoming_orders
        ≡ tree_engine.incoming_orders)
unfolding find_order new_engine modified validate_order perform_risk_checks HashMap.find
modify_order_loses_example =
    modify_order_loses whole sample tree_engine (limit_order 7 false 102 9) 7 103 0 60 refl refl

abbrev crossing : List (Request whole)
crossing =
    starts
    ∷ submit (limit_order 1 false 100 10) 1
    ∷ submit (limit_order 2 true 101 10) 2
    ∷ work 5 (λ n. n) 3 4
    ∷ work 5 (λ n. n) 5 4
    ∷ []

legacy_never_matches_example :
    (g : Engine whole sample) × (run whole sample
        (new_engine whole sample price_time_priority false 900000000)
        crossing
      ≡ some g)
    × (g.stats.total_fills ≡ 0)
    × (g.stats.orders_matched ≡ 0)
legacy_never_matches_example =
    legacy_never_matches whole sample price_time_priority 900000000 crossing
