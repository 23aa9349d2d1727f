-- ===== src/Engine/TreeOrders/Examples.antt =====
-- Two orders at one price.
use mathlib.Core.List.{Perm}
use hft_engine.Base.{ℕ, true, false, List, [], ◌∷◌, ◌≡◌, arith, ltb}
use hft_engine.Core.Laws.{whole}
use hft_engine.Samples.{limit_order}
use hft_engine.Order.{Order}
use hft_engine.OrderBook.{Orders}
use hft_engine.Engine.TreeOrders.{get_segment_tree_orders_at_price}
use hft_engine.Engine.TreeOrders.Sorted.{
  IsByTime, IsOpen, Chosen, get_segment_tree_orders_at_price_lem,
}

-- Two open buys at 10, the later one stored first.
abbrev stored : Orders whole
stored = (2, record (limit_order 2 true 10 7) { timestamp = 9 }) ∷ (1, limit_order 1 true 10 5) ∷ []

ltb_asym : (a b : ℕ) → ltb a b ≡ true → ltb b a ≡ false
ltb_asym a b h = ground arith

get_segment_tree_orders_at_price_lem_example :
    IsByTime whole ltb_asym (get_segment_tree_orders_at_price whole stored 10 true)
    × ((ps : List (Order whole)) × Chosen (IsOpen whole 10 true) stored ps
        × Perm (get_segment_tree_orders_at_price whole stored 10 true) ps)
get_segment_tree_orders_at_price_lem_example =
    get_segment_tree_orders_at_price_lem whole ltb_asym stored 10 true
