-- ===== src/OrderBook/TreeMode.antt =====
-- A book with segment trees: what its depth queries and cancel_order miss.
use hft_engine.Base.{ℕ, true, List, [], ◌∷◌, ◌≡◌, arith}
use hft_engine.Core.{Core, SegmentTree}
use hft_engine.Containers.OrderedMap
use hft_engine.Order.{Order}
use hft_engine.PriceLevel.{PriceLevel}
use hft_engine.OrderBook.{
  OrderBook, new_book, add_order, cancel_order, fill_order, refresh, get_best_bid, get_best_ask,
  get_bids, get_asks, get_orders_at_price, get_all_buys, get_all_sells,
}
use hft_engine.OrderBook.Reachable.{Call, add, cancel, fill, query, step, run}

-- The maps of a book with segment trees are never filled.
pub record IsTreeBook (c : Core) (t : SegmentTree c.Price (PriceLevel c.Price)) (b : OrderBook c t)
    : Type 0 where
  pub trees : b.use_segment_tree ≡ true
  pub no_bids : b.bid_levels ≡ []
  pub no_asks : b.ask_levels ≡ []

module _ (c : Core) (t : SegmentTree c.Price (PriceLevel c.Price)) where
  pub new_book-IsTreeBook : (symbol : c.Symbol) → IsTreeBook c t (new_book c t symbol true)
  unfolding new_book
  new_book-IsTreeBook symbol = ground arith

  pub add_order-IsTreeBook :
      (b : OrderBook c t) (o : Order c) → IsTreeBook c t b → IsTreeBook c t (add_order c t b o).1
  unfolding add_order
  add_order-IsTreeBook b o i = ground arith

  pub cancel_order-IsTreeBook :
      (b : OrderBook c t) (id : ℕ) → IsTreeBook c t b → IsTreeBook c t (cancel_order c t b id).1
  unfolding cancel_order OrderedMap.find
  cancel_order-IsTreeBook b id i = ground arith

  pub fill_order-IsTreeBook :
      (b : OrderBook c t) (id q : ℕ) → IsTreeBook c t b → IsTreeBook c t (fill_order c t b id q).1
  unfolding fill_order OrderedMap.find
  fill_order-IsTreeBook b id q i = ground arith

  pub refresh-IsTreeBook : (b : OrderBook c t) → IsTreeBook c t b → IsTreeBook c t (refresh c t b)
  unfolding refresh
  refresh-IsTreeBook b i = ground arith

  step-IsTreeBook :
      (b : OrderBook c t) (k : Call c) → IsTreeBook c t b → IsTreeBook c t (step c t b k)
  unfolding step
  step-IsTreeBook b (add o) i = add_order-IsTreeBook b o i
  step-IsTreeBook b (cancel id) i = cancel_order-IsTreeBook b id i
  step-IsTreeBook b (fill id q) i = fill_order-IsTreeBook b id q i
  step-IsTreeBook b query i = refresh-IsTreeBook b i

  run-IsTreeBook :
      (b : OrderBook c t) (ks : List (Call c)) → IsTreeBook c t b → IsTreeBook c t (run c t b ks)
  unfolding run
  run-IsTreeBook b [] i = i
  run-IsTreeBook b (k ∷ ks) i = run-IsTreeBook (step c t b k) ks (step-IsTreeBook b k i)

  pub get_orders-IsTreeBook :
      (b : OrderBook c t) (p : c.Price) (side : c.Side)
      → IsTreeBook c t b
      → get_orders_at_price c t b p side ≡ []
  unfolding get_orders_at_price OrderedMap.find
  get_orders-IsTreeBook b p side i = ground arith

  -- After any calls on a new book with segment trees, which is what the constructor makes by default,
  -- get_bids, get_asks, get_orders_at_price, get_all_buys and get_all_sells return nothing, whatever
  -- orders were added.
  pub tree_book_blind :
      (symbol : c.Symbol) (ks : List (Call c)) (depth : ℕ) (p : c.Price) (side : c.Side)
      → let b = run c t (new_book c t symbol true) ks in
        (get_bids c t b depth ≡ [])
        × (get_asks c t b depth ≡ [])
        × (get_orders_at_price c t b p side ≡ [])
        × (get_all_buys c t b ≡ [])
        × (get_all_sells c t b ≡ [])
  unfolding get_bids get_asks get_all_buys get_all_sells
  tree_book_blind symbol ks depth p side =
      let i = run-IsTreeBook _ ks (new_book-IsTreeBook symbol) in
      (rw i.no_bids, rw i.no_asks, get_orders-IsTreeBook _ p side i, rw i.no_bids, rw i.no_asks)

  -- cancel_order and fill_order on a book with segment trees leave both trees as they were, so the
  -- best prices that follow still count the order that is gone.
  pub best_prices_stale :
      (b : OrderBook c t) (id q : ℕ)
      → b.use_segment_tree ≡ true
      → (cancel_order c t b id).0 ≡ true
      → (fill_order c t b id q).0 ≡ true
      → ((get_best_bid c t (cancel_order c t b id).1).0 ≡ t.tree_best_bid b.bid_segment_tree)
        × ((get_best_ask c t (cancel_order c t b id).1).0 ≡ t.tree_best_ask b.ask_segment_tree)
        × ((get_best_bid c t (fill_order c t b id q).1).0 ≡ t.tree_best_bid b.bid_segment_tree)
        × ((get_best_ask c t (fill_order c t b id q).1).0 ≡ t.tree_best_ask b.ask_segment_tree)
  unfolding cancel_order fill_order get_best_bid get_best_ask
  best_prices_stale b id q m done done' = ground arith
