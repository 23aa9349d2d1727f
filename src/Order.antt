-- ===== src/Order.antt =====
-- include/hft/order/order.hpp and src/order/order.cpp: one order.
use hft_engine.Base.{ℕ, Bool, leb}
use hft_engine.Base.Words.{wsub}
use hft_engine.Core.{Core}

pub record Order (c : Core) : Type 0 where
  pub id : ℕ
  pub symbol : c.Symbol
  pub side : c.Side
  pub type : c.OrderType
  pub price : c.Price
  pub quantity : ℕ
  pub filled_quantity : ℕ
  pub status : c.OrderStatus
  pub timestamp : c.TimePoint

module _ (c : Core) where
  -- Order(): `now` is the clock's reading.
  unfoldable pub default_order : c.TimePoint → Order c
  default_order now = record {
    id = 0;
    symbol = c.no_symbol;
    side = c.buy;
    type = c.limit;
    price = c.price_of 0;
    quantity = 0;
    filled_quantity = 0;
    status = c.pending;
    timestamp = now;
  }

  -- Order(id, symbol, side, type, price, quantity)
  unfoldable pub new_order :
      ℕ → c.Symbol → c.Side → c.OrderType → c.Price → ℕ → c.TimePoint → Order c
  new_order id symbol side type price quantity now = record {
    id = id;
    symbol = symbol;
    side = side;
    type = type;
    price = price;
    quantity = quantity;
    filled_quantity = 0;
    status = c.pending;
    timestamp = now;
  }

  -- The side and the type stay.
  unfoldable pub reset : Order c → c.TimePoint → Order c
  reset o now = record o {
    id = 0;
    symbol = c.no_symbol;
    price = c.price_of 0;
    quantity = 0;
    filled_quantity = 0;
    status = c.pending;
    timestamp = now;
  }

  unfoldable pub remaining_quantity : Order c → ℕ
  remaining_quantity o = wsub c.quantity_mod o.quantity o.filled_quantity

  unfoldable pub is_complete : Order c → Bool
  is_complete o = leb o.quantity o.filled_quantity
