-- ===== src/PriceLevel.antt =====
-- include/hft/order/price_level.hpp and src/order/price_level.cpp: the queue of the orders that rest
-- at one price. The functions take the modulus `m` of a quantity.
pub mod Balance
pub mod Priority
mod Examples
use hft_engine.Base.{
  ℕ, Bool, true, false, Option, none, some, List, [], ◌∷◌, ◌++◌, ◌==◌, leb, ◌&&◌, if◌then◌else◌,
}
use hft_engine.Base.Words.{wadd, wsub}

pub record OrderEntry : Type 0 where
  pub order_id : ℕ
  pub quantity : ℕ

pub record PriceLevel (Price : Type 0) : Type 0 where
  pub price : Price
  pub total_quantity : ℕ
  pub order_queue : List OrderEntry

-- std::find_if by the order's id
unfoldable pub find_entry : ℕ → List OrderEntry → Option OrderEntry
find_entry id [] = none
find_entry id (e ∷ es) = if e.order_id == id then some e else find_entry id es

-- erase of the entry that find_if found
unfoldable pub erase_entry : ℕ → List OrderEntry → List OrderEntry
erase_entry id [] = []
erase_entry id (e ∷ es) = let rest = erase_entry id es in if e.order_id == id then es else e ∷ rest

-- `it->quantity -= quantity` at the entry that find_if found
unfoldable pub reduce_entry : ℕ → ℕ → ℕ → List OrderEntry → List OrderEntry
reduce_entry m id q [] = []
reduce_entry m id q (e ∷ es) =
    let rest = reduce_entry m id q es in
    if e.order_id == id then record e { quantity = wsub m e.quantity q } ∷ es else e ∷ rest

module _ {Price : Type 0} where
  unfoldable pub new_level : Price → PriceLevel Price
  new_level p = record { price = p; total_quantity = 0; order_queue = [] }

  module _ (m : ℕ) where
    unfoldable pub add_order : PriceLevel Price → ℕ → ℕ → PriceLevel Price
    add_order l id q = record l {
      total_quantity = wadd m l.total_quantity q;
      order_queue = l.order_queue ++ record { order_id = id; quantity = q } ∷ [];
    }

    -- The quantity that the caller passes is not read.
    unfoldable pub remove_order : PriceLevel Price → ℕ → ℕ → PriceLevel Price
    remove_order l id q = elim (find_entry id l.order_queue) [
      | none ↦ l
      | some e ↦ record l {
        total_quantity = wsub m l.total_quantity e.quantity;
        order_queue = erase_entry id l.order_queue;
      }
    ]

    unfoldable pub reduce_quantity : PriceLevel Price → ℕ → ℕ → PriceLevel Price
    reduce_quantity l id q = elim (find_entry id l.order_queue) [
      | none ↦ l
      | some e ↦
          if leb q e.quantity
          then record l {
            total_quantity = wsub m l.total_quantity q;
            order_queue = reduce_entry m id q l.order_queue;
          }
          else l
    ]

  unfoldable pub empty : PriceLevel Price → Bool
  empty l = elim l.order_queue [ [] ↦ true | e ∷ es ↦ false ]

  unfoldable pub front_order : PriceLevel Price → ℕ
  front_order l = elim l.order_queue [ [] ↦ 0 | e ∷ es ↦ e.order_id ]
