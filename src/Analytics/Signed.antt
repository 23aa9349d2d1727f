-- ===== src/Analytics/Signed.antt =====
-- Signed whole numbers as doubles, for the examples: a number is the pair of its positive part and its
-- negative part, of which one is 0.
use hft_engine.Base.{
  min, max, ℕ, ◌+◌, ◌-◌, ◌*◌, ◌/◌, Bool, true, false, not, ◌&&◌, refl, ltb, ◌==◌, if◌then◌else◌,
  arith,
}
use mathlib.Core.Path.{ap₂}
use hft_engine.Core.{Core}
use hft_engine.Core.Laws.{whole}
use hft_engine.Analytics.Types.{Arithmetic}
use hft_engine.Analytics.Properties.Exact.{IsExact}
use hft_engine.Analytics.Properties.Slippage.Signs.{KeepsSign}

abbrev pub Signed : Type 0
Signed = ℕ × ℕ

abbrev pub normal : ℕ → ℕ → Signed
normal p n = (p - n, n - p)

abbrev pub less : Signed → Signed → Bool
less (p, n) (q, m) = ltb (p + m) (q + n)

abbrev pub size : Signed → ℕ
size (p, n) = p + n

abbrev pub quotient : Signed → Signed → Signed
quotient (p, n) (q, m) =
    let d = (p + n) / (q + m) in if (n == 0) && (m == 0) then (d, 0) else (0, d)

abbrev pub signed : Core
signed = record {
  Price = Signed;
  Symbol = ℕ;
  Side = Bool;
  OrderType = ℕ;
  OrderStatus = ℕ;
  TimePoint = ℕ;
  id_mod = 0x1_0000_0000_0000_0000;
  quantity_mod = 0x1_0000_0000_0000_0000;
  price_of = λ n. (n, 0);
  price_add = λ x y. normal (x.0 + y.0) (x.1 + y.1);
  price_sub = λ x y. normal (x.0 + y.1) (x.1 + y.0);
  price_mul = λ x y. normal (x.0 * y.0 + x.1 * y.1) (x.0 * y.1 + x.1 * y.0);
  price_div = quotient;
  price_lt = less;
  price_le = λ x y. not (less y x);
  price_eq = λ x y. (x.0 == y.0) && (x.1 == y.1);
  no_symbol = 0;
  symbol_eq = ◌==◌;
  buy = true;
  sell = false;
  is_buy = λ s. s;
  limit = 0;
  market = 1;
  pending = 0;
  cancelled = 1;
  filled = 2;
  partially_filled = 3;
  status_eq = ◌==◌;
  time_lt = ltb;
}

abbrev pub smaller : Signed → Signed → Signed
smaller x y = if less y x then y else x

abbrev pub signed_arithmetic : Arithmetic signed
signed_arithmetic = record {
  negate = λ x. (x.1, x.0);
  signbit = λ x. ltb x.0 x.1;
  abs = λ x. (x.0 + x.1, 0);
  min = smaller;
  max = λ x y. if less x y then y else x;
  sqrt = λ x. x;
  to_unsigned = λ x. x.0;
  decimal = λ m k. if k == 0 then (m, 0) else (1, 0);
}

pub signed-IsExact : IsExact signed signed_arithmetic 1000000
signed-IsExact = record {
  balance_eq = λ b s b' s' h k l m e. ap₂ (λ p n. (p, n)) (omega arith) (omega arith);
  whole_lem = λ n h. ap₂ (λ p m. (p, m)) (omega arith) (omega arith);
  negate_lem = λ n h k. ap₂ (λ p m. (p, m)) (omega arith) (omega arith);
  add_lem = λ b s b' s' h k. ap₂ (λ p n. (p, n)) (omega arith) (omega arith);
  below_lem = λ b s h k. ground arith;
  above_lem = λ b s h k. ground arith;
  abs_lem = λ b s h k. ap₂ (λ p n. (p, n)) (omega arith) refl;
  abs_negative = λ b s h k. ap₂ (λ p n. (p, n)) (omega arith) refl;
  min_same = λ x. ground arith;
  tiny_lem = λ n h. ground arith;
}

pub signed-KeepsSign : KeepsSign signed
signed-KeepsSign = record {
  zero_lem = refl;
  add_up = λ x y h k. ground arith;
  add_down = λ x y h k. ground arith;
}

-- Whole numbers without a sign.
abbrev pub wholes : Arithmetic whole
wholes = record {
  negate = λ x. x;
  signbit = λ x. false;
  abs = λ x. x;
  min = min;
  max = max;
  sqrt = λ x. x;
  to_unsigned = λ x. x;
  decimal = λ m k. m;
}
