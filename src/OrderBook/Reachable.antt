-- ===== src/OrderBook/Reachable.antt =====
-- The books that calls of OrderBook's operations can reach, with the levels in std::map.
use hft_engine.Base.{
  ℕ, ◌<◌, Bool, true, List, [], ◌∷◌, ◌≡◌, inl, inr, arith, Bool-cases, Option-cases, All, ltb,
}
use hft_engine.Base.Words.{wadd}
use hft_engine.Core.{Core, SegmentTree}
use hft_engine.Core.Laws.{IsCore, reverse-IsOrder}
use hft_engine.Order.{Order}
use hft_engine.PriceLevel.{PriceLevel}
use hft_engine.OrderBook.{
  OrderBook, bid_before, ask_before, find_order, new_book, update_best_prices, refresh, add_order,
  cancel_order, fill_order, fill_found, after_fill,
}
use hft_engine.OrderBook.Levels.{
  AreLevels, add_to_levels-AreLevels, cancel_in_levels-AreLevels, fill_in_levels-AreLevels,
}

-- One call on a book; `query` is get_best_bid or get_best_ask, which fill the cache.
pub data Call (c : Core) : Type 0 where
  add : Order c → Call c
  cancel : ℕ → Call c
  fill : ℕ → ℕ → Call c
  query : Call c

-- The quantity of an order is a word.
abbrev pub IsWord : (c : Core) → Call c → Type 0
IsWord c (add o) = o.quantity < c.quantity_mod
IsWord c _ = Unit

-- Both sides are sorted, live and balanced, and a valid cache is right.
pub record IsBook (c : Core) (t : SegmentTree c.Price (PriceLevel c.Price)) (b : OrderBook c t)
    : Type 0 where
  pub bids : AreLevels c (bid_before c) b.bid_levels
  pub asks : AreLevels c (ask_before c) b.ask_levels
  pub cached_bid : b.best_prices_valid ≡ true → b.best_bid ≡ (update_best_prices c t b).best_bid
  pub cached_ask : b.best_prices_valid ≡ true → b.best_ask ≡ (update_best_prices c t b).best_ask

module _ (c : Core) (t : SegmentTree c.Price (PriceLevel c.Price)) where
  unfoldable pub step : OrderBook c t → Call c → OrderBook c t
  unfolding add_order cancel_order fill_order refresh
  step b (add o) = (add_order c t b o).1
  step b (cancel id) = (cancel_order c t b id).1
  step b (fill id q) = (fill_order c t b id q).1
  step b query = refresh c t b

  unfoldable pub run : OrderBook c t → List (Call c) → OrderBook c t
  run b [] = b
  run b (k ∷ ks) = run (step b k) ks

module _ (c : Core) (laws : IsCore c) (t : SegmentTree c.Price (PriceLevel c.Price)) where
  new_book-IsBook : (symbol : c.Symbol) (trees : Bool) → IsBook c t (new_book c t symbol trees)
  unfolding new_book
  new_book-IsBook symbol trees = record {
    bids = record { sorted = tt; live = tt };
    asks = record { sorted = tt; live = tt };
    cached_bid = λ h. cc;
    cached_ask = λ h. cc;
  }

  add-IsBook :
      (b : OrderBook c t) (o : Order c)
      → o.quantity < c.quantity_mod
      → IsBook c t b
      → IsBook c t (add_order c t b o).1
  unfolding add_order
  add-IsBook b o w i = record {
    bids = ground (
      arith,
      add_to_levels-AreLevels c (reverse-IsOrder laws.price_order) b.bid_levels o w i.bids,
    );
    asks = ground (arith, add_to_levels-AreLevels c laws.price_order b.ask_levels o w i.asks);
    cached_bid = λ h. cc;
    cached_ask = λ h. cc;
  }

  cancel-IsBook : (b : OrderBook c t) (id : ℕ) → IsBook c t b → IsBook c t (cancel_order c t b id).1
  unfolding cancel_order
  cancel-IsBook b id i = elim (Option-cases (find_order c id b.orders)) [
    | inl e ↦ rw (e, cancel_order) i
    | inr (o, e) ↦
        rw (e, cancel_order)
          (record {
            bids = ground (
              arith,
              i.bids,
              cancel_in_levels-AreLevels c (reverse-IsOrder laws.price_order) b.bid_levels o id
                  i.bids,
            );
            asks = ground (
              arith,
              i.asks,
              cancel_in_levels-AreLevels c laws.price_order b.ask_levels o id i.asks,
            );
            cached_bid = λ h. cc;
            cached_ask = λ h. cc;
          })
  ]

  fill_found-IsBook :
      (b : OrderBook c t) (o : Order c) (id q : ℕ)
      → IsBook c t b
      → IsBook c t (fill_found c t b o id q)
  unfolding fill_found
  fill_found-IsBook b o id q i = record {
    bids = ground (
      arith,
      i.bids,
      fill_in_levels-AreLevels c (reverse-IsOrder laws.price_order) b.bid_levels
          (after_fill c t o q) id q i.bids,
    );
    asks = ground (
      arith,
      i.asks,
      fill_in_levels-AreLevels c laws.price_order b.ask_levels (after_fill c t o q) id q i.asks,
    );
    cached_bid = λ h. cc;
    cached_ask = λ h. cc;
  }

  fill-IsBook : (b : OrderBook c t) (id q : ℕ) → IsBook c t b → IsBook c t (fill_order c t b id q).1
  unfolding fill_order
  fill-IsBook b id q i = elim (Option-cases (find_order c id b.orders)) [
    | inl e ↦ rw (e, fill_order) i
    | inr (o, e) ↦
        rw (e, fill_order)
          (elim (Bool-cases (ltb o.quantity (wadd c.quantity_mod o.filled_quantity q))) [
            | inl over ↦ rw over i
            | inr fits ↦ rw fits (fill_found-IsBook b o id q i)
          ])
  ]

  refresh-IsBook : (b : OrderBook c t) → IsBook c t b → IsBook c t (refresh c t b)
  unfolding refresh
  refresh-IsBook b i = ground arith

  step-IsBook :
      (b : OrderBook c t) (k : Call c) → IsWord c k → IsBook c t b → IsBook c t (step c t b k)
  unfolding step
  step-IsBook b (add o) w i = add-IsBook b o w i
  step-IsBook b (cancel id) w i = cancel-IsBook b id i
  step-IsBook b (fill id q) w i = fill-IsBook b id q i
  step-IsBook b query w i = refresh-IsBook b i

  run-IsBook :
      (b : OrderBook c t) (ks : List (Call c))
      → All (IsWord c) ks
      → IsBook c t b
      → IsBook c t (run c t b ks)
  unfolding run
  run-IsBook b [] w i = i
  run-IsBook b (k ∷ ks) w i = run-IsBook (step c t b k) ks w.1 (step-IsBook b k w.0 i)

  -- After any calls of add_order, cancel_order, fill_order and the price queries on a new book, when
  -- the quantities of the orders are words: the levels of both sides are strictly sorted, no level is
  -- empty, each level's total is the sum of its queue modulo the word size, and the best prices of a
  -- valid cache are those that update_best_prices would compute.
  pub run-new_book-IsBook :
      (symbol : c.Symbol) (trees : Bool) (ks : List (Call c))
      → All (IsWord c) ks
      → IsBook c t (run c t (new_book c t symbol trees) ks)
  run-new_book-IsBook symbol trees ks w = run-IsBook _ ks w (new_book-IsBook symbol trees)
