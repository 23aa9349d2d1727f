-- ===== src/OrderBook/Examples.antt =====
-- The properties of the order book at concrete books.
use hft_engine.Base.{ℕ, true, false, ◌&&◌, none, List, [], ◌∷◌, ◌≡◌, refl, arith}
use hft_engine.Base.Words.{wadd, wsub}
use hft_engine.OrderBook
use hft_engine.Core.Laws.{whole, whole-IsCore}
use hft_engine.Containers.OrderedMap
use hft_engine.Containers.HashMap
use hft_engine.Order.{remaining_quantity}
use hft_engine.PriceLevel
use hft_engine.PriceLevel.{PriceLevel}
use hft_engine.Samples.{list_levels, limit_order}
use hft_engine.OrderBook.{
  OrderBook, bid_before, ask_before, find_order, new_book, add_order, cancel_order, fill_order,
  get_best_bid, get_best_ask, get_bid_quantity, get_ask_quantity, has_order, get_bids,
}
use hft_engine.OrderBook.Reachable.{Call, add, fill, query, IsBook, run, step, run-new_book-IsBook}
use hft_engine.OrderBook.Best.{IsBest, get_best_bid-IsBest}
use hft_engine.OrderBook.Quantities.{level_quantities-add_order}
use hft_engine.OrderBook.Stored.{has_order-cancel_order, fill_order_lem}
use hft_engine.OrderBook.TreeMode.{tree_book_blind, best_prices_stale}

-- Two bids and an ask, the better bid half filled.
abbrev calls : List (Call whole)
calls =
    add (limit_order 1 true 99 10)
    ∷ add (limit_order 2 true 101 20)
    ∷ query
    ∷ add (limit_order 3 false 105 5)
    ∷ fill 2 10
    ∷ []

-- What the examples compute with.
running : ℕ
unfolding run step new_book add_order fill_order cancel_order get_best_bid wadd wsub
    remaining_quantity HashMap.find HashMap.assign HashMap.erase OrderedMap.find OrderedMap.assign
    OrderedMap.erase PriceLevel.new_level PriceLevel.add_order PriceLevel.reduce_quantity
    PriceLevel.remove_order PriceLevel.find_entry PriceLevel.reduce_entry PriceLevel.erase_entry
    PriceLevel.empty
running = 0

abbrev map_book : OrderBook whole list_levels
map_book = run whole list_levels (new_book whole list_levels 1 false) calls

abbrev tree_book : OrderBook whole list_levels
tree_book = run whole list_levels (new_book whole list_levels 1 true) calls

map_book-IsBook : IsBook whole list_levels map_book
map_book-IsBook = run-new_book-IsBook whole whole-IsCore list_levels 1 false calls (omega arith)

run-new_book-IsBook_example :
    IsBook whole list_levels (run whole list_levels (new_book whole list_levels 1 false) calls)
run-new_book-IsBook_example =
    run-new_book-IsBook whole whole-IsCore list_levels 1 false calls (omega arith)

get_best_bid-IsBest_example :
    IsBest whole
      (bid_before whole)
      map_book.bid_levels
      (get_best_bid whole list_levels map_book).0
      99
unfolding running
get_best_bid-IsBest_example =
    get_best_bid-IsBest whole whole-IsCore list_levels map_book 99 _ map_book-IsBook refl refl

level_quantities-add_order_example :
    (get_bid_quantity whole list_levels
        (add_order whole list_levels map_book (limit_order 4 true 99 7)).1
        99
      ≡ wadd whole.quantity_mod (get_bid_quantity whole list_levels map_book 99) 7)
    × (get_ask_quantity whole list_levels
          (add_order whole list_levels map_book (limit_order 4 true 99 7)).1
          99
        ≡ get_ask_quantity whole list_levels map_book 99)
unfolding running
level_quantities-add_order_example =
    level_quantities-add_order whole whole-IsCore list_levels map_book (limit_order 4 true 99 7) 99
      map_book-IsBook refl

has_order-cancel_order_example :
    ((cancel_order whole list_levels map_book 1).0 ≡ has_order whole list_levels map_book 1)
    × (has_order whole list_levels (cancel_order whole list_levels map_book 1).1 2
        ≡ has_order whole list_levels map_book 2 && true)
has_order-cancel_order_example = has_order-cancel_order whole list_levels map_book 1 2

fill_order_lem_example :
    ((fill_order whole list_levels map_book 2 10).0 ≡ true)
    × (find_order whole 2 (fill_order whole list_levels map_book 2 10).1.orders ≡ none)
unfolding running
fill_order_lem_example =
    fill_order_lem whole list_levels map_book
      (record {
        id = 2;
        symbol = 1;
        side = true;
        type = 0;
        price = 101;
        quantity = 20;
        filled_quantity = 10;
        status = 0;
        timestamp = 0;
      })
      2 10 2 refl (omega arith) (omega arith) (omega arith)

tree_book_blind_example :
    (OrderBook.get_bids whole list_levels tree_book 5 ≡ [])
    × (OrderBook.get_asks whole list_levels tree_book 5 ≡ [])
    × (OrderBook.get_orders_at_price whole list_levels tree_book 101 true ≡ [])
    × (OrderBook.get_all_buys whole list_levels tree_book ≡ [])
    × (OrderBook.get_all_sells whole list_levels tree_book ≡ [])
tree_book_blind_example = tree_book_blind whole list_levels 1 calls 5 101 true

best_prices_stale_example :
    ((get_best_bid whole list_levels (cancel_order whole list_levels tree_book 2).1).0
      ≡ list_levels.tree_best_bid tree_book.bid_segment_tree)
    × ((get_best_ask whole list_levels (cancel_order whole list_levels tree_book 2).1).0
        ≡ list_levels.tree_best_ask tree_book.ask_segment_tree)
    × ((get_best_bid whole list_levels (fill_order whole list_levels tree_book 2 5).1).0
        ≡ list_levels.tree_best_bid tree_book.bid_segment_tree)
    × ((get_best_ask whole list_levels (fill_order whole list_levels tree_book 2 5).1).0
        ≡ list_levels.tree_best_ask tree_book.ask_segment_tree)
unfolding running
best_prices_stale_example = best_prices_stale whole list_levels tree_book 2 5 refl refl refl
