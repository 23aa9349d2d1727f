-- ===== src/Core.antt =====
-- The names of include/hft/core (types.hpp, clock.hpp, memory_optimized_segment_tree.hpp,
-- lock_free_queue.hpp), which the repository uses and does not hold: parameters of the model.
pub mod Laws
use hft_engine.Base.{ℕ, Bool, Option, some, List, ◌≡◌, ◌⊎◌}

-- The types and constants of core/types.hpp that the sources name, with the operators that they
-- apply to them. An order id and a quantity are unsigned words of unknown width.
pub record Core : Type 1 where
  pub Price : Type 0
  pub Symbol : Type 0
  pub Side : Type 0
  pub OrderType : Type 0
  pub OrderStatus : Type 0
  pub TimePoint : Type 0
  pub id_mod : ℕ
  pub quantity_mod : ℕ
  -- Prices, and the doubles that the sources compute from them: a literal that is a whole number,
  -- `a + b`, `a - b`, `a * b`, `a / b`, `a < b`, `a <= b` and `a == b`.
  pub price_of : ℕ → Price
  pub price_add : Price → Price → Price
  pub price_sub : Price → Price → Price
  pub price_mul : Price → Price → Price
  pub price_div : Price → Price → Price
  pub price_lt : Price → Price → Bool
  pub price_le : Price → Price → Bool
  pub price_eq : Price → Price → Bool
  -- the empty symbol and `a == b`
  pub no_symbol : Symbol
  pub symbol_eq : Symbol → Symbol → Bool
  -- Side::BUY, Side::SELL and the test `side == Side::BUY`
  pub buy : Side
  pub sell : Side
  pub is_buy : Side → Bool
  -- OrderType::LIMIT and MARKET
  pub limit : OrderType
  pub market : OrderType
  -- OrderStatus::PENDING, CANCELLED, FILLED, PARTIALLY_FILLED and `a == b`
  pub pending : OrderStatus
  pub cancelled : OrderStatus
  pub filled : OrderStatus
  pub partially_filled : OrderStatus
  pub status_eq : OrderStatus → OrderStatus → Bool
  -- `a < b` on time points
  pub time_lt : TimePoint → TimePoint → Bool

-- core::MemoryOptimizedSegmentTree<L>, as order_book.cpp calls it.
pub record SegmentTree (Price : Type 0) (L : Type 0) : Type 1 where
  pub Tree : Type 0
  pub empty_tree : Tree
  pub tree_best_bid : Tree → Price
  pub tree_best_ask : Tree → Price
  -- the pair (found, level) as an option
  pub get_price_level : Tree → Price → Option L
  pub update_price_level : Tree → Price → L → Tree
  pub insert_price_level : Tree → Price → L → Tree

-- core::OrderBookSegmentTree, as matching_engine.cpp calls it.
pub record BookSegmentTree (Price Side : Type 0) : Type 1 where
  pub Tree : Type 0
  pub empty_tree : Tree
  pub best_bid : Tree → Price
  pub best_ask : Tree → Price
  -- get_bid_depth(n), get_ask_depth(n)
  pub bid_depth : Tree → ℕ → List (Price × ℕ)
  pub ask_depth : Tree → ℕ → List (Price × ℕ)
  pub add_order : Tree → Price → ℕ → Side → Tree
  pub remove_order : Tree → Price → ℕ → Side → Tree

-- core::LockFreeQueue<A, N>: `enqueue` says whether there was room, `dequeue` whether there was an
-- element.
pub record LockFreeQueue (A : Type 0) : Type 1 where
  pub Queue : Type 0
  pub empty_queue : Queue
  pub enqueue : Queue → A → Bool × Queue
  pub dequeue : Queue → Option (A × Queue)

-- What is in a queue: what comes out of it was put in.
pub record IsQueue {A : Type 0} (q : LockFreeQueue A) : Type 1 where
  pub In : A → q.Queue → Type 0
  pub in_empty : (a : A) → In a q.empty_queue → ⊥
  pub in_enqueue : (a x : A) (s : q.Queue) → In a (q.enqueue s x).1 → In a s ⊎ (a ≡ x)
  pub in_dequeue :
      (x : A) (s s' : q.Queue) → q.dequeue s ≡ some (x, s') → In x s × ((a : A) → In a s' → In a s)
