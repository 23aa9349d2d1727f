-- ===== src/Engine/Properties/TreeBooks.antt =====
-- The matching finds nothing in an order book with segment trees.
use hft_engine.Base.{
  ℕ, suc, Bool, true, false, some, [], ◌≡◌, inl, inr, Bool-cases, Option-cases, ◌==◌, if◌then◌else◌,
}
use hft_engine.Core.{Core, SegmentTree}
use hft_engine.Containers.HashMap
use hft_engine.Containers.HashMap.{assign-Values, find-Values}
use hft_engine.Containers.OrderedMap.Laws.{Values}
use hft_engine.Order.{Order, remaining_quantity}
use hft_engine.PriceLevel.{PriceLevel}
use hft_engine.OrderBook.{OrderBook, Orders, get_best_bid, get_best_ask}
use hft_engine.OrderBook.TreeMode.{
  IsTreeBook, new_book-IsTreeBook, refresh-IsTreeBook, get_orders-IsTreeBook,
}
use hft_engine.Engine.Types.{Environment}
use hft_engine.Engine.State.{Engine, get_or_create_order_book}
use hft_engine.Engine.Matching.{
  MatchState, done, no_cross, best_price, cross, turn, match_loop, copy_filled,
  match_order_price_time_priority,
}

module _ (c : Core) (t : SegmentTree c.Price (PriceLevel c.Price)) (clock : ℕ → c.TimePoint) where
  best_price-IsTreeBook :
      (buying : Bool) (b : OrderBook c t)
      → IsTreeBook c t b
      → IsTreeBook c t (best_price c t clock buying b).1
  unfolding get_best_bid get_best_ask
  best_price-IsTreeBook true b i = refresh-IsTreeBook c t b i
  best_price-IsTreeBook false b i = refresh-IsTreeBook c t b i

  cross-IsTreeBook :
      (buying : Bool) (s : MatchState c t) (best : c.Price)
      → IsTreeBook c t s.book
      → cross c t clock buying s best ≡ done s
  unfolding cross
  cross-IsTreeBook buying s best i =
      rw (get_orders-IsTreeBook c t s.book best (if buying then c.sell else c.buy) i, cross)

  -- The first round ends the loop.
  turn-IsTreeBook :
      (buying : Bool) (s : MatchState c t)
      → IsTreeBook c t s.book
      → (b : OrderBook c t) × (turn c t clock buying s ≡ done (record s { book = b }))
        × IsTreeBook c t b
  unfolding turn
  turn-IsTreeBook buying s i = elim (Bool-cases (remaining_quantity c s.incoming == 0)) [
    | inl z ↦ (s.book, rw z, i)
    | inr z ↦
        let j = best_price-IsTreeBook buying s.book i in
        let p = best_price c t clock buying s.book in
        elim (Bool-cases (no_cross c buying s.incoming.price p.0)) [
          | inl n ↦ (p.1, rw z (rw n), j)
          | inr n ↦ (p.1, rw z (rw n (cross-IsTreeBook buying _ p.0 j)), j)
        ]
  ]

  pub match-IsTreeBook :
      (fuel : ℕ) (o : Order c) (b : OrderBook c t) (active : Orders c)
      → IsTreeBook c t b
      → (b' : OrderBook c t) × (active' : Orders c) × (match_order_price_time_priority c t clock
            (suc fuel)
            o
            b
            active
          ≡ some ([], b', active'))
        × IsTreeBook c t b'
  unfolding match_order_price_time_priority match_loop
  match-IsTreeBook fuel o b active i =
      let (b', e, j) =
        turn-IsTreeBook (c.is_buy o.side)
          (record { incoming = o; book = b; active = active; fills = [] }) i in
      (b', copy_filled c active o, rw (e, match_loop, match_order_price_time_priority), j)

module _ (c : Core) (e : Environment c) where
  pub book-IsTreeBook :
      (g : Engine c e) (symbol : c.Symbol)
      → Values (IsTreeBook c e.levels) g.order_books
      → IsTreeBook c e.levels (get_or_create_order_book c e g symbol)
  unfolding get_or_create_order_book
  book-IsTreeBook g symbol i = elim (Option-cases (HashMap.find c.symbol_eq symbol g.order_books)) [
    | inl n ↦ rw (n, get_or_create_order_book) (new_book-IsTreeBook c e.levels symbol)
    | inr (b, s) ↦
        rw (s, get_or_create_order_book)
          (find-Values c.symbol_eq (IsTreeBook c e.levels) symbol g.order_books b s i)
  ]
