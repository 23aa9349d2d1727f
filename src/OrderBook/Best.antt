-- ===== src/OrderBook/Best.antt =====
-- get_best_bid and get_best_ask against the levels, with the levels in std::map.
use hft_engine.Base.{Bool, false, [], ◌∷◌, some, ◌≡◌, arith}
use hft_engine.Core.{Core, SegmentTree}
use hft_engine.Core.Laws.{IsCore, reverse-IsOrder}
use hft_engine.Containers.OrderedMap
use hft_engine.Containers.OrderedMap.Laws.{IsOrder, find_first}
use hft_engine.PriceLevel.{PriceLevel}
use hft_engine.OrderBook.{
  OrderBook, Level, Levels, bid_before, ask_before, first_price, update_best_prices, refresh,
  get_best_bid, get_best_ask,
}
use hft_engine.OrderBook.Reachable.{IsBook}

-- `p` is the price of a level, and no level comes before it.
pub record IsBest (c : Core) (before : c.Price → c.Price → Bool) (ls : Levels c) (p q : c.Price)
    : Type 0 where
  pub level : Level c
  pub stands : OrderedMap.find before p ls ≡ some level
  pub first : before q p ≡ false

module _ (c : Core) {before : c.Price → c.Price → Bool} (o : IsOrder before) where
  first_price-IsBest :
      (ls : Levels c) (q : c.Price) (l : Level c)
      → OrderedMap.find before q ls ≡ some l
      → IsBest c before ls (first_price c ls) q
  unfolding first_price OrderedMap.find
  first_price-IsBest [] q l h = absurd (ground arith)
  first_price-IsBest ((p, x) ∷ ls) q l h =
      let f = find_first o q p x l ls h in record { level = x; stands = f.1; first = f.0 }

module _ (c : Core) (laws : IsCore c) (t : SegmentTree c.Price (PriceLevel c.Price)) where
  best_bid-first :
      (b : OrderBook c t)
      → IsBook c t b
      → b.use_segment_tree ≡ false
      → (get_best_bid c t b).0 ≡ first_price c b.bid_levels
  unfolding get_best_bid refresh update_best_prices
  best_bid-first b i m = ground (arith, i.cached_bid)

  best_ask-first :
      (b : OrderBook c t)
      → IsBook c t b
      → b.use_segment_tree ≡ false
      → (get_best_ask c t b).0 ≡ first_price c b.ask_levels
  unfolding get_best_ask refresh update_best_prices
  best_ask-first b i m = ground (arith, i.cached_ask)

  -- In a well-formed book without segment trees, when there is a bid level at `q`: get_best_bid
  -- returns, from the cache or not, the price of a bid level, and `q` is not above it.
  pub get_best_bid-IsBest :
      (b : OrderBook c t) (q : c.Price) (l : Level c)
      → IsBook c t b
      → b.use_segment_tree ≡ false
      → OrderedMap.find (bid_before c) q b.bid_levels ≡ some l
      → IsBest c (bid_before c) b.bid_levels (get_best_bid c t b).0 q
  get_best_bid-IsBest b q l i m h =
      rw (best_bid-first b i m)
        (first_price-IsBest c (reverse-IsOrder laws.price_order) b.bid_levels q l h)

  -- In a well-formed book without segment trees, when there is an ask level at `q`: get_best_ask
  -- returns, from the cache or not, the price of an ask level, and `q` is not below it.
  pub get_best_ask-IsBest :
      (b : OrderBook c t) (q : c.Price) (l : Level c)
      → IsBook c t b
      → b.use_segment_tree ≡ false
      → OrderedMap.find (ask_before c) q b.ask_levels ≡ some l
      → IsBest c (ask_before c) b.ask_levels (get_best_ask c t b).0 q
  get_best_ask-IsBest b q l i m h =
      rw (best_ask-first b i m) (first_price-IsBest c laws.price_order b.ask_levels q l h)
