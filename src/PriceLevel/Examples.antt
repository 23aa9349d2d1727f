-- ===== src/PriceLevel/Examples.antt =====
-- The properties of a price level at concrete queues.
use hft_engine.Base.{ℕ, ◌≡◌, refl, [], ◌∷◌, arith}
use hft_engine.PriceLevel.{OrderEntry, PriceLevel, add_order, remove_order, reduce_quantity}
use hft_engine.PriceLevel.Priority.{time_priority}

abbrev first_entry : OrderEntry
first_entry = record { order_id = 7; quantity = 30 }

abbrev second_entry : OrderEntry
second_entry = record { order_id = 8; quantity = 50 }

abbrev two_orders : PriceLevel ℕ
two_orders = record {
  price = 100;
  total_quantity = 80;
  order_queue = first_entry ∷ second_entry ∷ [];
}

time_priority_example :
    ((remove_order 1000 two_orders 8 20).order_queue ≡ first_entry ∷ [])
    × ((reduce_quantity 1000 two_orders 8 20).order_queue
        ≡ first_entry ∷ record { order_id = 8; quantity = 30 } ∷ [])
    × ((add_order 1000 two_orders 9 20).order_queue
        ≡ first_entry ∷ second_entry ∷ record { order_id = 9; quantity = 20 } ∷ [])
time_priority_example =
    time_priority 1000 two_orders (first_entry ∷ []) [] second_entry 20 9 refl
      ((λ h. absurd (omega arith)), tt) (omega arith) (omega arith)
