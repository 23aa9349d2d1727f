-- ===== src/OrderBook/Stored.antt =====
-- The map `orders_` of a book under cancel_order and fill_order, errors included.
use hft_engine.Base.{
  ℕ, ◌+◌, ◌-◌, ◌≤◌, ◌<◌, not, ◌&&◌, none, some, ◌≡◌, arith, Option, if◌then◌else◌, ◌==◌, ==_iff,
  leb,
}
use hft_engine.Base.Words.{wadd, wadd_exact, wsub_exact}
use hft_engine.Core.{Core, SegmentTree}
use hft_engine.Containers.HashMap.{find-assign, find-erase}
use hft_engine.Order.{Order, remaining_quantity}
use hft_engine.PriceLevel.{PriceLevel}
use hft_engine.OrderBook.{OrderBook, find_order, cancel_order, fill_order, has_order, after_fill}

module _ (c : Core) (t : SegmentTree c.Price (PriceLevel c.Price)) where
  -- cancel_order reports whether it knew the order; after it the order is gone, and every other order
  -- is known exactly if it was.
  pub has_order-cancel_order :
      (b : OrderBook c t) (id j : ℕ)
      → ((cancel_order c t b id).0 ≡ has_order c t b id)
        × (has_order c t (cancel_order c t b id).1 j ≡ has_order c t b j && not (id == j))
  unfolding cancel_order has_order
  has_order-cancel_order b id j = ground (arith, find-erase ◌==◌ ==_iff j id b.orders, ==_iff id j)

  -- What fill_order should leave of the order `o`.
  abbrev pub filled_entry : Order c → ℕ → Option (Order c)
  filled_entry o q =
      if q == (o.quantity - o.filled_quantity)
      then none
      else some (record o { filled_quantity = o.filled_quantity + q })

  -- For a known order that is not overfilled, when the fill does not wrap round: fill_order succeeds
  -- exactly if the order has `q` left; then the order is gone if nothing is left and otherwise counts
  -- `q` more as filled; after a refusal it stays as it was. No other order changes.
  pub fill_order_lem :
      (b : OrderBook c t) (o : Order c) (id q j : ℕ)
      → find_order c id b.orders ≡ some o
      → o.filled_quantity ≤ o.quantity
      → o.quantity < c.quantity_mod
      → o.filled_quantity + q < c.quantity_mod
      → ((fill_order c t b id q).0 ≡ leb q (o.quantity - o.filled_quantity))
        × (find_order c j (fill_order c t b id q).1.orders ≡ (
            if id == j
            then if leb q (o.quantity - o.filled_quantity) then filled_entry o q else some o
            else find_order c j b.orders))
  unfolding fill_order remaining_quantity
  fill_order_lem b o id q j h f w v = ground (
    arith,
    find-erase ◌==◌ ==_iff j id b.orders,
    ==_iff id j,
    h,
    find-assign ◌==◌ ==_iff j id (after_fill c t o q) b.orders,
    wadd_exact c.quantity_mod o.filled_quantity q,
    wsub_exact c.quantity_mod o.quantity (wadd c.quantity_mod o.filled_quantity q),
  )
