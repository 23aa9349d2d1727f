-- ===== src/OrderBook.antt =====
-- include/hft/order/order_book.hpp and src/order/order_book.cpp: the book of one symbol. Its levels
-- stand in two std::map or in two segment trees, as `use_segment_tree` says.
pub mod Levels
pub mod Reachable
pub mod Best
pub mod Quantities
pub mod Stored
pub mod TreeMode
mod Examples
use hft_engine.Base.{
  ℕ, Bool, true, false, Option, none, some, List, [], ◌∷◌, ◌++◌, ◌==◌, ltb, if◌then◌else◌,
}
use hft_engine.Base.Words.{wadd}
use hft_engine.Core.{Core, SegmentTree}
use hft_engine.Containers.OrderedMap
use hft_engine.Containers.HashMap
use hft_engine.Order.{Order, remaining_quantity, default_order}
use hft_engine.PriceLevel
use hft_engine.PriceLevel.{PriceLevel, OrderEntry}

abbrev pub Level : Core → Type 0
Level c = PriceLevel c.Price

abbrev pub Levels : Core → Type 0
Levels c = List (c.Price × PriceLevel c.Price)

abbrev pub Orders : Core → Type 0
Orders c = List (ℕ × Order c)

-- The comparators std::greater and std::less of the two maps.
abbrev pub bid_before : (c : Core) → c.Price → c.Price → Bool
bid_before c a b = c.price_lt b a

abbrev pub ask_before : (c : Core) → c.Price → c.Price → Bool
ask_before c a b = c.price_lt a b

-- Without segment trees the code leaves both tree pointers null and never reads them; here they hold
-- the empty tree.
pub record OrderBook (c : Core) (t : SegmentTree c.Price (PriceLevel c.Price)) : Type 0 where
  pub symbol : c.Symbol
  pub bid_levels : Levels c
  pub ask_levels : Levels c
  pub bid_segment_tree : t.Tree
  pub ask_segment_tree : t.Tree
  pub orders : Orders c
  pub best_bid : c.Price
  pub best_ask : c.Price
  pub best_prices_valid : Bool
  pub use_segment_tree : Bool

module _ (c : Core) where
  -- The key of the first level, or 0.0.
  unfoldable pub first_price : Levels c → c.Price
  first_price [] = c.price_of 0
  first_price ((p, l) ∷ ls) = p

  -- `o` is the order after the fill.
  unfoldable pub fill_level : Level c → Order c → ℕ → ℕ → Level c
  fill_level l o id q =
      let reduced = PriceLevel.reduce_quantity c.quantity_mod l id q in
      if remaining_quantity c o == 0
      then PriceLevel.remove_order c.quantity_mod reduced id 0
      else reduced

  module _ (before : c.Price → c.Price → Bool) where
    -- `levels[price]`, which makes a level of price 0.0 where there is none
    unfoldable pub level_or_new : Levels c → c.Price → Level c
    level_or_new ls p = elim (OrderedMap.find before p ls) [
      | none ↦ PriceLevel.new_level (c.price_of 0)
      | some l ↦ l
    ]

    unfoldable pub add_to_levels : Levels c → Order c → Levels c
    unfolding level_or_new
    add_to_levels ls o =
        OrderedMap.assign before o.price
          (PriceLevel.add_order c.quantity_mod (level_or_new ls o.price) o.id o.quantity) ls

    -- Stores a changed level, or erases it once it is empty.
    unfoldable pub put_level : Levels c → c.Price → Level c → Levels c
    put_level ls p l =
        if PriceLevel.empty l then OrderedMap.erase before p ls else OrderedMap.assign before p l ls

    unfoldable pub cancel_in_levels : Levels c → Order c → ℕ → Levels c
    unfolding put_level
    cancel_in_levels ls o id = elim (OrderedMap.find before o.price ls) [
      | none ↦ ls
      | some l ↦
          put_level ls o.price
            (PriceLevel.remove_order c.quantity_mod l id (remaining_quantity c o))
    ]

    unfoldable pub fill_in_levels : Levels c → Order c → ℕ → ℕ → Levels c
    unfolding put_level fill_level
    fill_in_levels ls o id q = elim (OrderedMap.find before o.price ls) [
      | none ↦ ls
      | some l ↦ put_level ls o.price (fill_level l o id q)
    ]

    unfoldable pub level_quantity : Levels c → c.Price → ℕ
    level_quantity ls p = elim (OrderedMap.find before p ls) [
      | none ↦ 0
      | some l ↦ l.total_quantity
    ]

  unfoldable pub find_order : ℕ → Orders c → Option (Order c)
  find_order = HashMap.find ◌==◌

  -- The orders of a queue that the book still knows, oldest first.
  unfoldable pub queued_orders : Orders c → List OrderEntry → List (Order c)
  unfolding find_order
  queued_orders os [] = []
  queued_orders os (e ∷ es) =
      let rest = queued_orders os es in
      elim (find_order e.order_id os) [ none ↦ rest | some o ↦ o ∷ rest ]

  unfoldable pub level_orders : Orders c → Levels c → List (Order c)
  level_orders os [] = []
  level_orders os ((p, l) ∷ ls) = queued_orders os l.order_queue ++ level_orders os ls

  -- The loop of get_bids and get_asks, `left` = depth - count.
  unfoldable pub depth_loop : ℕ → Levels c → List (c.Price × ℕ)
  depth_loop left [] = []
  depth_loop ℕ.zero ((p, l) ∷ ls) = []
  depth_loop (ℕ.suc left) ((p, l) ∷ ls) = (p, l.total_quantity) ∷ depth_loop left ls

module _ (c : Core) (t : SegmentTree c.Price (PriceLevel c.Price)) where
  -- OrderBook(symbol, use_segment_tree)
  unfoldable pub new_book : c.Symbol → Bool → OrderBook c t
  new_book symbol use_segment_tree = record {
    symbol = symbol;
    bid_levels = [];
    ask_levels = [];
    bid_segment_tree = t.empty_tree;
    ask_segment_tree = t.empty_tree;
    orders = [];
    best_bid = c.price_of 0;
    best_ask = c.price_of 0;
    best_prices_valid = false;
    use_segment_tree = use_segment_tree;
  }

  unfoldable pub update_best_prices_segment_tree : OrderBook c t → OrderBook c t
  update_best_prices_segment_tree b = record b {
    best_bid = t.tree_best_bid b.bid_segment_tree;
    best_ask = t.tree_best_ask b.ask_segment_tree;
    best_prices_valid = true;
  }

  unfoldable pub update_best_prices : OrderBook c t → OrderBook c t
  unfolding update_best_prices_segment_tree first_price
  update_best_prices b =
      if b.use_segment_tree then update_best_prices_segment_tree b else record b {
        best_bid = first_price c b.bid_levels;
        best_ask = first_price c b.ask_levels;
        best_prices_valid = true;
      }

  -- The cached prices are mutable, so a query returns the book too.
  unfoldable pub refresh : OrderBook c t → OrderBook c t
  unfolding update_best_prices
  refresh b = if b.best_prices_valid then b else update_best_prices b

  unfoldable pub get_best_bid : OrderBook c t → c.Price × OrderBook c t
  unfolding refresh
  get_best_bid b = ((refresh b).best_bid, refresh b)

  unfoldable pub get_best_ask : OrderBook c t → c.Price × OrderBook c t
  unfolding refresh
  get_best_ask b = ((refresh b).best_ask, refresh b)

  unfoldable pub get_mid_price : OrderBook c t → c.Price × OrderBook c t
  unfolding get_best_bid get_best_ask
  get_mid_price b =
      let (bid, b') = get_best_bid b in
      let (ask, b'') = get_best_ask b' in (c.price_div (c.price_add bid ask) (c.price_of 2), b'')

  unfoldable pub add_to_tree : t.Tree → Order c → t.Tree
  add_to_tree tree o = elim (t.get_price_level tree o.price) [
    | none ↦
        t.insert_price_level tree o.price
          (PriceLevel.add_order c.quantity_mod (PriceLevel.new_level o.price) o.id o.quantity)
    | some l ↦
        t.update_price_level tree o.price (PriceLevel.add_order c.quantity_mod l o.id o.quantity)
  ]

  -- Always true in the code.
  unfoldable pub add_order : OrderBook c t → Order c → Bool × OrderBook c t
  unfolding add_to_tree add_to_levels
  add_order b o = (
    true,
    record b {
      orders = HashMap.assign ◌==◌ o.id o b.orders;
      bid_segment_tree =
          if b.use_segment_tree
          then (if c.is_buy o.side then add_to_tree b.bid_segment_tree o else b.bid_segment_tree)
          else b.bid_segment_tree;
      ask_segment_tree =
          if b.use_segment_tree
          then (if c.is_buy o.side then b.ask_segment_tree else add_to_tree b.ask_segment_tree o)
          else b.ask_segment_tree;
      bid_levels =
          if b.use_segment_tree
          then b.bid_levels
          else if c.is_buy o.side
          then add_to_levels c (bid_before c) b.bid_levels o
          else b.bid_levels;
      ask_levels =
          if b.use_segment_tree
          then b.ask_levels
          else if c.is_buy o.side
          then b.ask_levels
          else add_to_levels c (ask_before c) b.ask_levels o;
      best_prices_valid = false;
    },
  )

  -- No branch on `use_segment_tree` here: the trees are left as they are.
  unfoldable pub cancel_order : OrderBook c t → ℕ → Bool × OrderBook c t
  unfolding cancel_in_levels find_order
  cancel_order b id = elim (find_order c id b.orders) [
    | none ↦ (false, b)
    | some o ↦ (
      true,
      record b {
        bid_levels =
            if c.is_buy o.side
            then cancel_in_levels c (bid_before c) b.bid_levels o id
            else b.bid_levels;
        ask_levels =
            if c.is_buy o.side
            then b.ask_levels
            else cancel_in_levels c (ask_before c) b.ask_levels o id;
        orders = HashMap.erase ◌==◌ id b.orders;
        best_prices_valid = false;
      },
    )
  ]

  abbrev pub after_fill : Order c → ℕ → Order c
  after_fill o q = record o { filled_quantity = wadd c.quantity_mod o.filled_quantity q }

  -- The part of fill_order behind its two guards; `o` is the order before the fill.
  unfoldable pub fill_found : OrderBook c t → Order c → ℕ → ℕ → OrderBook c t
  unfolding fill_in_levels
  fill_found b o id q = record b {
    bid_levels =
        if c.is_buy o.side
        then fill_in_levels c (bid_before c) b.bid_levels (after_fill o q) id q
        else b.bid_levels;
    ask_levels =
        if c.is_buy o.side
        then b.ask_levels
        else fill_in_levels c (ask_before c) b.ask_levels (after_fill o q) id q;
    orders =
        if remaining_quantity c (after_fill o q) == 0
        then HashMap.erase ◌==◌ id b.orders
        else HashMap.assign ◌==◌ id (after_fill o q) b.orders;
    best_prices_valid = false;
  }

  unfoldable pub fill_order : OrderBook c t → ℕ → ℕ → Bool × OrderBook c t
  unfolding fill_found find_order
  fill_order b id q = elim (find_order c id b.orders) [
    | none ↦ (false, b)
    | some o ↦
        if ltb o.quantity (wadd c.quantity_mod o.filled_quantity q)
        then (false, b)
        else (true, fill_found b o id q)
  ]

  unfoldable pub get_bid_quantity : OrderBook c t → c.Price → ℕ
  unfolding level_quantity
  get_bid_quantity b p = level_quantity c (bid_before c) b.bid_levels p

  unfoldable pub get_ask_quantity : OrderBook c t → c.Price → ℕ
  unfolding level_quantity
  get_ask_quantity b p = level_quantity c (ask_before c) b.ask_levels p

  unfoldable pub get_bids : OrderBook c t → ℕ → List (c.Price × ℕ)
  unfolding depth_loop
  get_bids b depth = depth_loop c depth b.bid_levels

  unfoldable pub get_asks : OrderBook c t → ℕ → List (c.Price × ℕ)
  unfolding depth_loop
  get_asks b depth = depth_loop c depth b.ask_levels

  unfoldable pub get_orders_at_price : OrderBook c t → c.Price → c.Side → List (Order c)
  unfolding queued_orders
  get_orders_at_price b p side =
      elim (if c.is_buy side
        then OrderedMap.find (bid_before c) p b.bid_levels
        else OrderedMap.find (ask_before c) p b.ask_levels) [
          | none ↦ []
          | some l ↦ queued_orders c b.orders l.order_queue
        ]

  unfoldable pub get_all_buys : OrderBook c t → List (Order c)
  unfolding level_orders queued_orders
  get_all_buys b = level_orders c b.orders b.bid_levels

  unfoldable pub get_all_sells : OrderBook c t → List (Order c)
  unfolding level_orders queued_orders
  get_all_sells b = level_orders c b.orders b.ask_levels

  unfoldable pub has_order : OrderBook c t → ℕ → Bool
  unfolding find_order
  has_order b id = elim (find_order c id b.orders) [ none ↦ false | some o ↦ true ]

  -- Order() for an unknown id
  unfoldable pub get_order : OrderBook c t → ℕ → c.TimePoint → Order c
  unfolding find_order default_order
  get_order b id now = elim (find_order c id b.orders) [ none ↦ default_order c now | some o ↦ o ]
