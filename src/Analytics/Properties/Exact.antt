-- ===== src/Analytics/Properties/Exact.antt =====
-- Doubles that count exactly: whole numbers up to a limit, 2 ^ 53 in IEEE 754, their differences and
-- the sums of these.
use hft_engine.Base.{ℕ, ◌+◌, ◌-◌, ◌≤◌, ◌<◌, ◌≡◌, ltb, ◌==◌}
use hft_engine.Core.{Core}
use hft_engine.Analytics.Types.{Arithmetic}
use hft_engine.Analytics.Formulas.{tiny}

-- `b - s` as doubles
abbrev pub balance : (c : Core) → ℕ → ℕ → c.Price
balance c b s = c.price_sub (c.price_of b) (c.price_of s)

pub record IsExact (c : Core) (a : Arithmetic c) (limit : ℕ) : Type 0 where
  pub balance_eq :
      (b s b' s' : ℕ)
      → b ≤ limit
      → s ≤ limit
      → b' ≤ limit
      → s' ≤ limit
      → b + s' ≡ b' + s
      → balance c b s ≡ balance c b' s'
  pub whole_lem : (n : ℕ) → n ≤ limit → c.price_of n ≡ balance c n 0
  pub negate_lem : (n : ℕ) → 0 < n → n ≤ limit → a.negate (c.price_of n) ≡ balance c 0 n
  pub add_lem :
      (b s b' s' : ℕ)
      → b + b' ≤ limit
      → s + s' ≤ limit
      → c.price_add (balance c b s) (balance c b' s') ≡ balance c (b + b') (s + s')
  pub below_lem :
      (b s : ℕ) → b ≤ limit → s ≤ limit → c.price_lt (balance c b s) (c.price_of 0) ≡ ltb b s
  pub above_lem :
      (b s : ℕ) → b ≤ limit → s ≤ limit → c.price_lt (c.price_of 0) (balance c b s) ≡ ltb s b
  pub abs_lem : (b s : ℕ) → s ≤ b → b ≤ limit → a.abs (balance c b s) ≡ c.price_of (b - s)
  pub abs_negative : (b s : ℕ) → b ≤ s → s ≤ limit → a.abs (balance c b s) ≡ c.price_of (s - b)
  pub min_same : (x : c.Price) → a.min x x ≡ x
  -- 1e-6 lies between 0 and 1.
  pub tiny_lem : (n : ℕ) → n ≤ limit → c.price_lt (c.price_of n) (tiny c a) ≡ (n == 0)
