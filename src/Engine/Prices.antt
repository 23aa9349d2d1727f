-- ===== src/Engine/Prices.antt =====
-- The comparisons of prices at the end of src/matching/matching_engine.cpp, and
-- calculate_market_impact.
use hft_engine.Base.{ℕ, Bool, ◌&&◌, List, [], ◌∷◌, if◌then◌else◌}
use hft_engine.Core.{Core, SegmentTree}
use hft_engine.Order.{Order}
use hft_engine.PriceLevel.{PriceLevel}
use hft_engine.OrderBook.{OrderBook, get_best_ask, get_best_bid, get_asks, get_bids}
use hft_engine.Analytics.Types.{Arithmetic}

module _ (c : Core) (a : Arithmetic c) where
  unfoldable pub calculate_price_improvement : c.Price → c.Price → c.Side → c.Price
  calculate_price_improvement execution_price reference_price side =
      if c.is_buy side
      then a.max (c.price_of 0) (c.price_sub reference_price execution_price)
      else a.max (c.price_of 0) (c.price_sub execution_price reference_price)

  unfoldable pub calculate_effective_spread : c.Price → c.Price → c.Price
  calculate_effective_spread bid ask =
      if c.price_lt bid ask then c.price_sub ask bid else c.price_of 0

  unfoldable pub calculate_mid_price : c.Price → c.Price → c.Price
  calculate_mid_price bid ask = c.price_div (c.price_add bid ask) (c.price_of 2)

  unfoldable pub prices_match : c.Price → c.Price → c.Side → Bool
  prices_match incoming_price book_price incoming_side =
      if c.is_buy incoming_side
      then c.price_le book_price incoming_price
      else c.price_le incoming_price book_price

  unfoldable pub get_better_price : c.Price → c.Price → c.Side → c.Price
  get_better_price price1 price2 side =
      if c.is_buy side then a.max price1 price2 else a.min price1 price2

  module _ (t : SegmentTree c.Price (PriceLevel c.Price)) where
    -- The best price is read from the cache, which is made valid first: the book changes.
    unfoldable pub is_marketable : Order c → OrderBook c t → Bool × OrderBook c t
    is_marketable o b =
        let (ask, b_ask) = get_best_ask c t b in
        let (bid, b_bid) = get_best_bid c t b in
        if c.is_buy o.side
        then (c.price_lt (c.price_of 0) ask && c.price_le ask o.price, b_ask)
        else (c.price_lt (c.price_of 0) bid && c.price_le o.price bid, b_bid)

    unfoldable pub total_liquidity : c.Price → List (c.Price × ℕ) → c.Price
    total_liquidity total [] = total
    total_liquidity total (level ∷ depth) =
        total_liquidity (c.price_add total (c.price_of level.1)) depth

    unfoldable pub calculate_market_impact : Order c → OrderBook c t → c.Price
    calculate_market_impact o b =
        let depth = if c.is_buy o.side then get_asks c t b 5 else get_bids c t b 5 in
        let total = total_liquidity (c.price_of 0) depth in
        if c.price_lt (c.price_of 0) total
        then c.price_div (c.price_of o.quantity) total
        else c.price_of 0
