-- ===== src/Core/Laws.antt =====
-- What the proofs ask of the parameters in `Core`, and an instance of them over whole numbers.
use hft_engine.Base.{
  ℕ, Bool, true, false, ◌≡◌, ◌↔◌, ◌<◌, ◌+◌, ◌-◌, ◌*◌, ◌/◌, arith, ltb, leb, ◌==◌, ==_iff, refl,
}
use hft_engine.Core.{Core}
use hft_engine.Containers.OrderedMap.Laws.{IsOrder}

-- Below a modulus stand the words of a type; prices are finite numbers that are not zero or are the
-- same zero, so `<` is a strict total order and `==` is equality.
pub record IsCore (c : Core) : Type 0 where
  pub quantity_pos : 0 < c.quantity_mod
  pub price_order : IsOrder c.price_lt
  pub price_eq_iff : (a b : c.Price) → (c.price_eq a b ≡ true) ↔ (a ≡ b)
  pub symbol_eq_iff : (a b : c.Symbol) → (c.symbol_eq a b ≡ true) ↔ (a ≡ b)
  pub buy_lem : c.is_buy c.buy ≡ true
  pub sell_lem : c.is_buy c.sell ≡ false
  pub pending_lem : c.status_eq c.pending c.cancelled ≡ false
  pub cancelled_lem : c.status_eq c.cancelled c.cancelled ≡ true

-- The larger price first, as std::greater puts it.
pub reverse-IsOrder {ℓ} :
    {K : Type ℓ} {before : K → K → Bool} → IsOrder before → IsOrder (λ a b. before b a)
reverse-IsOrder o = record {
  irrefl = o.irrefl;
  trans = λ a b d h k. o.trans d b a k h;
  connected = λ a b h k. o.connected a b k h;
}

-- Whole prices, 64-bit words, and numbers for all other types.
abbrev pub whole : Core
whole = record {
  Price = ℕ;
  Symbol = ℕ;
  Side = Bool;
  OrderType = ℕ;
  OrderStatus = ℕ;
  TimePoint = ℕ;
  id_mod = 0x1_0000_0000_0000_0000;
  quantity_mod = 0x1_0000_0000_0000_0000;
  price_of = λ n. n;
  price_add = ◌+◌;
  price_sub = ◌-◌;
  price_mul = ◌*◌;
  price_div = ◌/◌;
  price_lt = ltb;
  price_le = leb;
  price_eq = ◌==◌;
  no_symbol = 0;
  symbol_eq = ◌==◌;
  buy = true;
  sell = false;
  is_buy = λ s. s;
  limit = 0;
  market = 1;
  pending = 0;
  cancelled = 1;
  filled = 2;
  partially_filled = 3;
  status_eq = ◌==◌;
  time_lt = ltb;
}

whole-IsOrder : IsOrder whole.price_lt
whole-IsOrder = record {
  irrefl = λ a. ground arith;
  trans = λ a b d h k. ground arith;
  connected = λ a b h k. ground arith;
}

pub whole-IsCore : IsCore whole
whole-IsCore = record {
  quantity_pos = omega arith;
  price_order = whole-IsOrder;
  price_eq_iff = ==_iff;
  symbol_eq_iff = ==_iff;
  buy_lem = refl;
  sell_lem = refl;
  pending_lem = refl;
  cancelled_lem = refl;
}
