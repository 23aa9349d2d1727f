-- ===== src/Engine/Properties/SegmentProcess.antt =====
-- process_order with segment trees: the fills that the matching finds are not taken off the order.
use hft_engine.Base.{ℕ, ◌<◌, true, some, List, ◌≡◌, arith, ◌==◌, ==_iff}
use hft_engine.Core.{Core}
use hft_engine.Core.Laws.{IsCore}
use hft_engine.Containers.HashMap
use hft_engine.Containers.HashMap.{find-assign}
use hft_engine.Order.{Order, remaining_quantity}
use hft_engine.OrderBook.{Orders, find_order}
use hft_engine.Engine.Types.{Fill, Environment}
use hft_engine.Engine.State.{Engine, get_or_create_segment_tree_book}
use hft_engine.Engine.SegmentMatching.{match_order_segment_tree_price_time}
use hft_engine.Engine.Process.{rests, settle_in_tree, process_in_tree, finish_order, process_order}
use hft_engine.Engine.Properties.Fills.{IsFillable}
use hft_engine.Engine.Properties.SegmentFills.{segment_matching_total}
use hft_engine.Engine.Properties.Finish.{finish_order-SameBooks}

module _ (c : Core) (laws : IsCore c) (e : Environment c) (clock : ℕ → c.TimePoint) where
  stored :
      (g : Engine c e) (o : Order c) (tree : e.trees.Tree) (counter : ℕ) (os : Orders c)
      → rests c o ≡ true
      → find_order c o.id (settle_in_tree c e g o tree counter os).segment_tree_orders ≡ some o
  unfolding settle_in_tree find_order
  stored g o tree counter os r =
      rw r (rw (find-assign ◌==◌ ==_iff o.id o.id o os) (ground (arith, ==_iff o.id o.id)))

  tree_stored :
      (g : Engine c e) (o : Order c) (tree : e.trees.Tree) (counter : ℕ) (os : Orders c)
      → rests c o ≡ true
      → HashMap.find c.symbol_eq o.symbol
          (settle_in_tree c e g o tree counter os).segment_tree_books
        ≡ some (e.trees.add_order tree o.price (remaining_quantity c o) o.side)
  unfolding settle_in_tree
  tree_stored g o tree counter os r = rw r (
      rw
        (find-assign c.symbol_eq laws.symbol_eq_iff o.symbol o.symbol
          (e.trees.add_order tree o.price (remaining_quantity c o) o.side) g.segment_tree_books)
        (ground (arith, laws.symbol_eq_iff o.symbol o.symbol)))

  -- In an engine with segment trees, an order that is not overfilled, has a quantity left and is not
  -- cancelled, with more fuel than that quantity: the matching and process_order end, and whatever
  -- fills the matching found and took off the tree, process_order adds the order to the tree that is
  -- left with the whole quantity that it had before, and stores it with nothing filled by them.
  pub process_order_forgets :
      (fuel : ℕ) (now : c.TimePoint) (latency : c.Price) (g : Engine c e) (o : Order c)
      → g.use_segment_tree ≡ true
      → IsFillable c o
      → remaining_quantity c o < fuel
      → rests c o ≡ true
      → (matched : List (Fill c) × e.trees.Tree × ℕ × Orders c) × (g' : Engine c e)
        × (match_order_segment_tree_price_time c e.trees clock fuel o
              (get_or_create_segment_tree_book c e g o.symbol)
              g.synthetic_counter
              (HashMap.assign ◌==◌ o.id o g.segment_tree_orders)
            ≡ some matched)
        × (process_order c e fuel clock now latency g o ≡ some g')
        × (find_order c o.id g'.segment_tree_orders ≡ some o)
        × (HashMap.find c.symbol_eq o.symbol g'.segment_tree_books
            ≡ some (e.trees.add_order matched.1 o.price (remaining_quantity c o) o.side))
  unfolding process_order process_in_tree
  process_order_forgets fuel now latency g o m i h r =
      let (fills, rest, ran, _, _) =
        segment_matching_total c e.trees clock fuel o
          (get_or_create_segment_tree_book c e g o.symbol) g.synthetic_counter
          (HashMap.assign ◌==◌ o.id o g.segment_tree_orders) i h in
      let settled = settle_in_tree c e g o rest.0 rest.1 rest.2 in
      let same = finish_order-SameBooks c e settled o fills now latency in
      (
        (fills, rest.0, rest.1, rest.2),
        finish_order c e settled o fills now latency,
        ran,
        rw (m, process_order) (rw (ran, process_in_tree)),
        rw same.tree_orders (stored g o rest.0 rest.1 rest.2 r),
        rw same.trees (tree_stored g o rest.0 rest.1 rest.2 r),
      )
