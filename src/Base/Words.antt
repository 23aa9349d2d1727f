-- ===== src/Base/Words.antt =====
-- Arithmetic of an unsigned machine word whose modulus `m` is a parameter.
use Prim.Native.Nat.{ℕ, ◌+◌, ◌-◌, ◌%◌, ◌≤◌, ◌<◌}
use mathlib.Core.Path.{◌≡◌, ap, ◌≡⟨◌⟩◌, ◌∎}
use native.Mathlib.Omega.{arith}
use native.Mathlib.Nat.{mod-add-mod, add-mod_right}

unfoldable pub wadd : ℕ → ℕ → ℕ → ℕ
wadd m a b = (a + b) % m

-- `a - b` below 0 wraps round; `b` is a word, so `a + m - b` is not truncated.
unfoldable pub wsub : ℕ → ℕ → ℕ → ℕ
wsub m a b = (a + m - b) % m

pub wadd_exact : (m a b : ℕ) → a + b < m → wadd m a b ≡ a + b
unfolding wadd
wadd_exact m a b h = grind arith

pub wsub_exact : (m a b : ℕ) → b ≤ a → a < m → wsub m a b ≡ a - b
unfolding wsub
wsub_exact m a b h k = grind arith

-- A wrapped sum follows the true sum modulo `m`.
pub wadd-mod : (m a b : ℕ) → wadd m (a % m) b ≡ (a + b) % m
unfolding wadd
wadd-mod m a b = mod-add-mod a m b

pub wsub-mod : (m a b : ℕ) → b ≤ a → b ≤ m → wsub m (a % m) b ≡ (a - b) % m
unfolding wsub
wsub-mod m a b h k =
    (a % m + m - b) % m
    ≡⟨ ap (λ t. t % m) (omega arith) ⟩ (a % m + (m - b)) % m
    ≡⟨ mod-add-mod a m (m - b) ⟩ (a + (m - b)) % m
    ≡⟨ ap (λ t. t % m) (omega arith) ⟩ (a - b + m) % m
    ≡⟨ add-mod_right (a - b) m ⟩ (a - b) % m ∎
