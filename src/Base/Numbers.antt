-- ===== src/Base/Numbers.antt =====
-- Products against quotients, and numbers by their digits.
use Prim.Native.Nat.{ℕ, zero, suc, ◌+◌, ◌*◌, ◌/◌, ◌≤◌, ◌<◌}
use mathlib.Core.Path.{◌≡◌, refl, ap}
use native.Mathlib.Omega.{arith}

pub mul_le_of_le_div : (a s m : ℕ) → 0 < s → a ≤ m / s → a * s ≤ m
mul_le_of_le_div a s m hs h = grind arith

pub le_div_of_mul_le : (a s m : ℕ) → 0 < s → a * s ≤ m → a ≤ m / s
le_div_of_mul_le a s m hs h = grind arith

-- A digit below the base, and what stands before it, are determined by the number.
pub digits_unique : (n a b c d : ℕ) → b < n → d < n → a * n + b ≡ c * n + d → (a ≡ c) × (b ≡ d)
digits_unique n zero b zero d h k e = (refl, omega arith)
digits_unique n zero b (suc c) d h k e = absurd (grind arith)
digits_unique n (suc a) b zero d h k e = absurd (grind arith)
digits_unique n (suc a) b (suc c) d h k e =
    let rest = digits_unique n a b c d h k (grind arith) in (ap suc rest.0, rest.1)

pub digits_lt : (n m a b : ℕ) → a < m → b < n → a * n + b < m * n
digits_lt n zero a b h k = elim h [ ]
digits_lt n (suc m) zero b h k = grind arith
digits_lt n (suc m) (suc a) b h k = grind (arith, digits_lt n m a b)
