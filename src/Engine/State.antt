-- ===== src/Engine/State.antt =====
-- The engine's state, its constructor, the switches and the queries.
use hft_engine.Base.{
  ℕ, Bool, true, false, Option, none, some, List, [], ◌∷◌, ◌++◌, map, if◌then◌else◌, ◌^◌,
}
use hft_engine.Base.Words.{wadd}
use hft_engine.Core.{Core}
use hft_engine.Containers.HashMap
use hft_engine.Order.{Order, remaining_quantity, default_order}
use hft_engine.OrderBook.{OrderBook, Orders, find_order, new_book}
use hft_engine.Engine.Types.{ExecutionReport, MatchingStats, MatchingAlgorithm, Event, Environment}

-- The modulus of the uint64_t counters.
abbrev pub u64_mod : ℕ
u64_mod = 2 ^ 64

abbrev pub count_one : ℕ → ℕ
count_one n = wadd u64_mod n 1

-- The callbacks are told apart by whether they are set; their calls are listed in `events`, oldest
-- first. `synthetic_counter` is the static of generate_synthetic_order_id. The log is left out.
pub record Engine (c : Core) (e : Environment c) : Type 0 where
  pub order_books : List (c.Symbol × OrderBook c e.levels)
  pub segment_tree_books : List (c.Symbol × e.trees.Tree)
  pub segment_tree_orders : Orders c
  pub use_segment_tree : Bool
  pub incoming_orders : e.queue.Queue
  pub running : Bool
  pub algorithm : MatchingAlgorithm
  pub has_execution_callback : Bool
  pub has_fill_callback : Bool
  pub has_error_callback : Bool
  pub stats : MatchingStats c
  pub active_orders : Orders c
  pub next_execution_id : ℕ
  pub synthetic_counter : ℕ
  pub events : List (Event c)

module _ (c : Core) where
  -- MatchingStats::reset, and the initial values
  unfoldable pub zero_stats : MatchingStats c
  zero_stats = record {
    orders_processed = 0;
    orders_matched = 0;
    orders_rejected = 0;
    total_fills = 0;
    total_volume = c.price_of 0;
    total_notional = c.price_of 0;
    avg_matching_latency_ns = c.price_of 0;
    max_matching_latency_ns = c.price_of 0;
    matching_operations = 0;
  }

  -- ExecutionReport(order)
  unfoldable pub report_of : Order c → ExecutionReport c
  report_of o = record {
    order_id = o.id;
    symbol = o.symbol;
    side = o.side;
    status = o.status;
    price = o.price;
    original_quantity = o.quantity;
    executed_quantity = o.filled_quantity;
    remaining_quantity = remaining_quantity c o;
    avg_executed_price = c.price_of 0;
    timestamp = o.timestamp;
    execution_id = 0;
    fills = [];
  }

  -- The orders of a symbol, in the map's order.
  unfoldable pub orders_with_symbol : c.Symbol → Orders c → List (Order c)
  orders_with_symbol symbol [] = []
  orders_with_symbol symbol ((k, o) ∷ os) =
      let rest = orders_with_symbol symbol os in
      if c.symbol_eq o.symbol symbol then o ∷ rest else rest

module _ (c : Core) (e : Environment c) where
  -- MatchingEngine(algorithm, log_path, use_segment_tree); `synthetic` is the static counter then.
  unfoldable pub new_engine : MatchingAlgorithm → Bool → ℕ → Engine c e
  unfolding zero_stats
  new_engine algorithm use_segment_tree synthetic = record {
    order_books = [];
    segment_tree_books = [];
    segment_tree_orders = [];
    use_segment_tree = use_segment_tree;
    incoming_orders = e.queue.empty_queue;
    running = false;
    algorithm = algorithm;
    has_execution_callback = false;
    has_fill_callback = false;
    has_error_callback = false;
    stats = zero_stats c;
    active_orders = [];
    next_execution_id = 1;
    synthetic_counter = synthetic;
    events = [];
  }

  unfoldable pub set_execution_callback : Engine c e → Engine c e
  set_execution_callback g = record g { has_execution_callback = true }

  unfoldable pub set_fill_callback : Engine c e → Engine c e
  set_fill_callback g = record g { has_fill_callback = true }

  unfoldable pub set_error_callback : Engine c e → Engine c e
  set_error_callback g = record g { has_error_callback = true }

  unfoldable pub set_matching_algorithm : Engine c e → MatchingAlgorithm → Engine c e
  set_matching_algorithm g a = record g { algorithm = a }

  -- The exchange on `running_`, and the thread that is started or joined behind it.
  unfoldable pub start : Engine c e → Engine c e
  start g = if g.running then g else record g { running = true }

  unfoldable pub stop : Engine c e → Engine c e
  stop g = if g.running then record g { running = false } else g

  unfoldable pub reset_stats : Engine c e → Engine c e
  unfolding zero_stats
  reset_stats g = record g { stats = zero_stats c }

  -- `callback(x)` where the callback is set
  abbrev pub emit_if : Bool → Event c → Engine c e → Engine c e
  emit_if b x g = if b then record g { events = g.events ++ x ∷ [] } else g

  unfoldable pub get_order_book : Engine c e → c.Symbol → Option (OrderBook c e.levels)
  get_order_book g symbol = HashMap.find c.symbol_eq symbol g.order_books

  -- The book is made with the constructor's default, `use_segment_tree = true`.
  unfoldable pub get_or_create_order_book : Engine c e → c.Symbol → OrderBook c e.levels
  unfolding get_order_book new_book
  get_or_create_order_book g symbol = elim (get_order_book g symbol) [
    | none ↦ new_book c e.levels symbol true
    | some b ↦ b
  ]

  unfoldable pub get_or_create_segment_tree_book : Engine c e → c.Symbol → e.trees.Tree
  get_or_create_segment_tree_book g symbol =
      elim (HashMap.find c.symbol_eq symbol g.segment_tree_books) [
        | none ↦ e.trees.empty_tree
        | some b ↦ b
      ]

  unfoldable pub get_symbols : Engine c e → List c.Symbol
  get_symbols g =
      if g.use_segment_tree
      then map (λ p. p.0) g.segment_tree_books
      else map (λ p. p.0) g.order_books

  -- The map that the engine's mode reads.
  abbrev pub known_orders : Engine c e → Orders c
  known_orders g = if g.use_segment_tree then g.segment_tree_orders else g.active_orders

  unfoldable pub has_order : Engine c e → ℕ → Bool
  unfolding find_order
  has_order g id = elim (find_order c id (known_orders g)) [ none ↦ false | some o ↦ true ]

  unfoldable pub get_order : Engine c e → ℕ → c.TimePoint → Order c
  unfolding find_order default_order
  get_order g id now = elim (find_order c id (known_orders g)) [
    | none ↦ default_order c now
    | some o ↦ o
  ]

  unfoldable pub get_orders_for_symbol : Engine c e → c.Symbol → List (Order c)
  unfolding orders_with_symbol
  get_orders_for_symbol g symbol = orders_with_symbol c symbol (known_orders g)
