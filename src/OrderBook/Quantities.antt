-- ===== src/OrderBook/Quantities.antt =====
-- The quantities at the price levels after an order is added, with the levels in std::map.
use hft_engine.Base.{Bool, false, ◌≡◌, arith, if◌then◌else◌}
use hft_engine.Base.Words.{wadd}
use hft_engine.Core.{Core, SegmentTree}
use hft_engine.Core.Laws.{IsCore, reverse-IsOrder}
use hft_engine.Containers.OrderedMap.Laws.{IsOrder, IsSorted, find-assign}
use hft_engine.Order.{Order}
use hft_engine.PriceLevel
use hft_engine.PriceLevel.{PriceLevel}
use hft_engine.OrderBook.{
  OrderBook, Levels, level_or_new, add_to_levels, level_quantity, add_order, get_bid_quantity,
  get_ask_quantity,
}
use hft_engine.OrderBook.Reachable.{IsBook}

module _ (c : Core) (laws : IsCore c) {before : c.Price → c.Price → Bool} (o : IsOrder before) where
  level_quantity-add :
      (ls : Levels c) (x : Order c) (p : c.Price)
      → IsSorted before ls
      → level_quantity c before (add_to_levels c before ls x) p ≡ (
          if c.price_eq p x.price
          then wadd c.quantity_mod (level_quantity c before ls p) x.quantity
          else level_quantity c before ls p)
  unfolding level_quantity add_to_levels PriceLevel.add_order PriceLevel.new_level
  level_quantity-add ls x p s = ground (
    arith,
    laws.price_eq_iff p x.price,
    o.irrefl p,
    o.connected p x.price,
    find-assign o p x.price
        (PriceLevel.add_order c.quantity_mod (level_or_new c before ls x.price) x.id x.quantity) ls
        s,
  )

module _ (c : Core) (laws : IsCore c) (t : SegmentTree c.Price (PriceLevel c.Price)) where
  -- In a well-formed book without segment trees, add_order raises the quantity at the order's price,
  -- on the order's side alone, by the order's whole quantity (as a word), whatever part of it is
  -- filled, and changes no other quantity of either side.
  pub level_quantities-add_order :
      (b : OrderBook c t) (x : Order c) (p : c.Price)
      → IsBook c t b
      → b.use_segment_tree ≡ false
      → (get_bid_quantity c t (add_order c t b x).1 p ≡ (
          if c.is_buy x.side
          then if c.price_eq p x.price
            then wadd c.quantity_mod (get_bid_quantity c t b p) x.quantity
            else get_bid_quantity c t b p
          else get_bid_quantity c t b p))
        × (get_ask_quantity c t (add_order c t b x).1 p ≡ (
            if c.is_buy x.side
            then get_ask_quantity c t b p
            else if c.price_eq p x.price
            then wadd c.quantity_mod (get_ask_quantity c t b p) x.quantity
            else get_ask_quantity c t b p))
  unfolding get_bid_quantity get_ask_quantity add_order
  level_quantities-add_order b x p i m = (
    ground (
      arith,
      level_quantity-add c laws (reverse-IsOrder laws.price_order) b.bid_levels x p i.bids.sorted,
    ),
    ground (arith, level_quantity-add c laws laws.price_order b.ask_levels x p i.asks.sorted),
  )
