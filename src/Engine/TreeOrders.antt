-- ===== src/Engine/TreeOrders.antt =====
-- The store of the orders of the segment trees, and the comparisons at the end of
-- src/matching/matching_engine.cpp.
pub mod Sorted
mod Examples
use hft_engine.Base.{
  ℕ, Bool, true, false, not, ◌&&◌, Option, none, some, List, [], ◌∷◌, ltb, ◌==◌, if◌then◌else◌,
}
use hft_engine.Core.{Core, SegmentTree}
use hft_engine.Containers.HashMap
use hft_engine.Order.{Order, remaining_quantity}
use hft_engine.OrderBook.{OrderBook, Orders, find_order, get_best_bid, get_best_ask}
use hft_engine.PriceLevel.{PriceLevel}

module _ (c : Core) where
  unfoldable pub has_time_priority : Order c → Order c → Bool
  has_time_priority a b = c.time_lt a.timestamp b.timestamp

  -- std::sort by has_time_priority, which leaves the order of equal times open: here the first of
  -- them stays first.
  unfoldable pub insert_by_time : Order c → List (Order c) → List (Order c)
  insert_by_time o [] = o ∷ []
  insert_by_time o (p ∷ ps) =
      let rest = insert_by_time o ps in if has_time_priority p o then p ∷ rest else o ∷ p ∷ ps

  unfoldable pub sort_by_time_priority : List (Order c) → List (Order c)
  sort_by_time_priority [] = []
  sort_by_time_priority (o ∷ os) = insert_by_time o (sort_by_time_priority os)

  unfoldable pub store_segment_tree_order : Orders c → Order c → Orders c
  store_segment_tree_order os o = HashMap.assign ◌==◌ o.id o os

  unfoldable pub update_segment_tree_order : Orders c → Order c → Orders c
  update_segment_tree_order os o = elim (find_order c o.id os) [
    | none ↦ os
    | some p ↦ HashMap.assign ◌==◌ o.id o os
  ]

  unfoldable pub remove_segment_tree_order : Orders c → ℕ → Orders c
  remove_segment_tree_order os id = HashMap.erase ◌==◌ id os

  -- `side == side` by way of Side::BUY, the only side that is tested for.
  unfoldable pub is_open_at : c.Price → c.Side → Order c → Bool
  is_open_at price side o =
      c.price_eq o.price price
      && (if c.is_buy side then c.is_buy o.side else not (c.is_buy o.side))
      && ltb 0 (remaining_quantity c o)
      && not (c.status_eq o.status c.cancelled)
      && not (c.status_eq o.status c.filled)

  unfoldable pub open_orders : c.Price → c.Side → Orders c → List (Order c)
  open_orders price side [] = []
  open_orders price side ((id, o) ∷ os) =
      let rest = open_orders price side os in if is_open_at price side o then o ∷ rest else rest

  unfoldable pub get_segment_tree_orders_at_price : Orders c → c.Price → c.Side → List (Order c)
  get_segment_tree_orders_at_price os price side = sort_by_time_priority (open_orders price side os)
