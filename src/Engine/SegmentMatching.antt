-- ===== src/Engine/SegmentMatching.antt =====
-- match_order_segment_tree_price_time: an incoming order against the quantities of a segment tree.
use hft_engine.Base.{
  ℕ, zero, suc, min, Bool, Option, none, some, List, [], ◌∷◌, ◌++◌, ◌==◌, if◌then◌else◌, length,
}
use hft_engine.Base.Words.{wadd}
use hft_engine.Core.{Core, BookSegmentTree}
use hft_engine.Order.{Order, remaining_quantity}
use hft_engine.OrderBook.{Orders}
use hft_engine.Engine.Types.{Fill}
use hft_engine.Engine.Matching.{Turn, done, more, no_cross, add_filled, copy_filled}

-- The variables of the loop, with the static counter of generate_synthetic_order_id.
pub record SegmentState (c : Core) (s : BookSegmentTree c.Price c.Side) : Type 0 where
  pub incoming : Order c
  pub tree : s.Tree
  pub counter : ℕ
  pub fills : List (Fill c)

module _ (c : Core) (t : BookSegmentTree c.Price c.Side) (clock : ℕ → c.TimePoint) where
  abbrev pub best_price : Bool → t.Tree → c.Price
  best_price buying tree = if buying then t.best_ask tree else t.best_bid tree

  abbrev pub top_of_book : Bool → t.Tree → List (c.Price × ℕ)
  top_of_book buying tree = if buying then t.ask_depth tree 1 else t.bid_depth tree 1

  -- `clock n` is the time at which the n-th fill of the call is made.
  unfoldable pub make_fill : SegmentState c t → c.Price → ℕ → Fill c
  make_fill s best q = record {
    aggressive_order_id = s.incoming.id;
    passive_order_id = s.counter;
    price = best;
    quantity = q;
    timestamp = clock (length s.fills);
    symbol = s.incoming.symbol;
  }

  unfoldable pub fill_top : Bool → SegmentState c t → c.Price → ℕ → SegmentState c t
  unfolding make_fill
  fill_top buying s best q = record {
    incoming = add_filled c s.incoming q;
    tree = t.remove_order s.tree best q (if buying then c.sell else c.buy);
    counter = wadd c.id_mod s.counter 1;
    fills = s.fills ++ make_fill s best q ∷ [];
  }

  unfoldable pub cross : Bool → SegmentState c t → c.Price → Turn (SegmentState c t)
  unfolding fill_top
  cross buying s best = elim (top_of_book buying s.tree) [
    | [] ↦ done s
    | (p, q) ∷ ls ↦
        if min (remaining_quantity c s.incoming) q == 0
        then done s
        else more (fill_top buying s best (min (remaining_quantity c s.incoming) q))
  ]

  unfoldable pub turn : Bool → SegmentState c t → Turn (SegmentState c t)
  unfolding cross no_cross
  turn buying s =
      let best = best_price buying s.tree in
      if remaining_quantity c s.incoming == 0
      then done s
      else if no_cross c buying s.incoming.price best
      then done s
      else cross buying s best

  -- `none` means that the fuel ran out.
  unfoldable pub match_loop : ℕ → Bool → SegmentState c t → Option (SegmentState c t)
  match_loop zero buying s = none
  match_loop (suc f) buying s = elim (turn buying s) [
    | done s' ↦ some s'
    | more s' ↦ match_loop f buying s'
  ]

  -- The fills, the tree and the counter, and the map segment_tree_orders_ afterwards.
  unfoldable pub match_order_segment_tree_price_time :
      ℕ → Order c → t.Tree → ℕ → Orders c → Option (List (Fill c) × t.Tree × ℕ × Orders c)
  unfolding match_loop copy_filled
  match_order_segment_tree_price_time fuel o tree counter os =
      elim (match_loop fuel (c.is_buy o.side)
        (record { incoming = o; tree = tree; counter = counter; fills = [] })) [
          | none ↦ none
          | some s ↦ some (s.fills, s.tree, s.counter, copy_filled c os s.incoming)
        ]
