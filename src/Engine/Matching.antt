-- ===== src/Engine/Matching.antt =====
-- match_order_price_time_priority: an incoming order against a book of price levels. The branches of
-- the two sides differ only in the side that they read and the comparison, so `buying` picks those.
use hft_engine.Base.{
  ℕ, zero, suc, min, Bool, ◌||◌, Option, none, some, List, [], ◌∷◌, ◌++◌, ◌==◌, if◌then◌else◌,
  length,
}
use hft_engine.Base.Words.{wadd}
use hft_engine.Core.{Core, SegmentTree}
use hft_engine.Containers.HashMap
use hft_engine.Order.{Order, remaining_quantity}
use hft_engine.PriceLevel.{PriceLevel}
use hft_engine.OrderBook.{
  OrderBook, Orders, find_order, get_best_bid, get_best_ask, get_orders_at_price, cancel_order,
  fill_order,
}
use hft_engine.Engine.Types.{Fill}

-- The variables of the loop. `active` is the engine's map active_orders_.
pub record MatchState (c : Core) (t : SegmentTree c.Price (PriceLevel c.Price)) : Type 0 where
  pub incoming : Order c
  pub book : OrderBook c t
  pub active : Orders c
  pub fills : List (Fill c)

-- One round of the loop ends it, or goes on.
pub data Turn (S : Type 0) : Type 0 where
  done more : S → Turn S

module _ (c : Core) where
  -- `price < best_ask` of a buyer, `price > best_bid` of a seller
  unfoldable pub is_worse : Bool → c.Price → c.Price → Bool
  is_worse buying price best = if buying then c.price_lt price best else c.price_lt best price

  -- `best == 0.0 || price < best`
  unfoldable pub no_cross : Bool → c.Price → c.Price → Bool
  unfolding is_worse
  no_cross buying price best = c.price_eq best (c.price_of 0) || is_worse buying price best

  unfoldable pub fill_quantity : Order c → Order c → ℕ
  fill_quantity incoming passive =
      min (remaining_quantity c incoming) (remaining_quantity c passive)

  -- `order.filled_quantity += q`
  abbrev pub add_filled : Order c → ℕ → Order c
  add_filled o q = record o { filled_quantity = wadd c.quantity_mod o.filled_quantity q }

  -- The passive order's entry under the key `id` after a fill of `q`.
  unfoldable pub settle_passive : Orders c → ℕ → Order c → ℕ → Orders c
  settle_passive active id passive q =
      if remaining_quantity c (add_filled passive q) == 0
      then HashMap.erase ◌==◌ id active
      else HashMap.assign ◌==◌ id (record (add_filled passive q) { status = c.partially_filled })
          active

module _ (c : Core) (t : SegmentTree c.Price (PriceLevel c.Price)) (clock : ℕ → c.TimePoint) where
  -- `clock n` is the time at which the n-th fill of the call is made.
  unfoldable pub make_fill : MatchState c t → c.Price → Order c → ℕ → Fill c
  make_fill s best passive q = record {
    aggressive_order_id = s.incoming.id;
    passive_order_id = passive.id;
    price = best;
    quantity = q;
    timestamp = clock (length s.fills);
    symbol = s.incoming.symbol;
  }

  unfoldable pub fill_passive : MatchState c t → c.Price → ℕ → Order c → MatchState c t
  unfolding make_fill settle_passive fill_quantity
  fill_passive s best id passive =
      let q = fill_quantity c s.incoming passive in
      record {
        incoming = add_filled c s.incoming q;
        book = (fill_order c t s.book passive.id q).1;
        active = settle_passive c s.active id passive q;
        fills = s.fills ++ make_fill s best passive q ∷ [];
      }

  -- The oldest order at the best price; one that is not active is dropped from the book.
  unfoldable pub meet : MatchState c t → c.Price → ℕ → MatchState c t
  unfolding fill_passive find_order
  meet s best id = elim (find_order c id s.active) [
    | none ↦ record s { book = (cancel_order c t s.book id).1 }
    | some passive ↦ fill_passive s best id passive
  ]

  abbrev pub best_price : Bool → OrderBook c t → c.Price × OrderBook c t
  best_price buying b = if buying then get_best_ask c t b else get_best_bid c t b

  -- The opposite side's orders at a price.
  abbrev pub opposite_orders : Bool → OrderBook c t → c.Price → List (Order c)
  opposite_orders buying b p = get_orders_at_price c t b p (if buying then c.sell else c.buy)

  unfoldable pub cross : Bool → MatchState c t → c.Price → Turn (MatchState c t)
  unfolding meet
  cross buying s best = elim (opposite_orders buying s.book best) [
    | [] ↦ done s
    | o ∷ os ↦ more (meet s best o.id)
  ]

  -- The loop's condition and its body.
  unfoldable pub turn : Bool → MatchState c t → Turn (MatchState c t)
  unfolding cross no_cross
  turn buying s =
      let (best, b) = best_price buying s.book in
      let s' = record s { book = b } in
      if remaining_quantity c s.incoming == 0
      then done s
      else if no_cross c buying s.incoming.price best
      then done s'
      else cross buying s' best

  -- `none` means that the fuel ran out.
  unfoldable pub match_loop : ℕ → Bool → MatchState c t → Option (MatchState c t)
  match_loop zero buying s = none
  match_loop (suc f) buying s = elim (turn buying s) [
    | done s' ↦ some s'
    | more s' ↦ match_loop f buying s'
  ]

-- `it->second.filled_quantity = q` at the incoming order's entry, where there is one
unfoldable pub copy_filled : (c : Core) → Orders c → Order c → Orders c
unfolding find_order
copy_filled c os o = elim (find_order c o.id os) [
  | none ↦ os
  | some x ↦ HashMap.assign ◌==◌ o.id (record x { filled_quantity = o.filled_quantity }) os
]

-- The fills, with the book and the active orders afterwards. The incoming order is a const reference:
-- what the loop counts as filled stays in its own copy.
unfoldable pub match_order_price_time_priority :
    (c : Core) (t : SegmentTree c.Price (PriceLevel c.Price)) (clock : ℕ → c.TimePoint) (fuel : ℕ)
    → Order c
    → OrderBook c t
    → Orders c
    → Option (List (Fill c) × OrderBook c t × Orders c)
unfolding match_loop copy_filled
match_order_price_time_priority c t clock fuel o b active =
    elim (match_loop c t clock fuel (c.is_buy o.side)
      (record { incoming = o; book = b; active = active; fills = [] })) [
        | none ↦ none
        | some s ↦ some (s.fills, s.book, copy_filled c s.active s.incoming)
      ]
