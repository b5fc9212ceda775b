-- ===== src/Prelude/Bits.antt =====
-- `bit_and` at variables, and integers as bytes.
use Prim.Native.Nat.{ℕ, zero, suc, ◌/◌, ◌≤◌, min, bit_and, digits, bit_and-bitwise}
use mathlib.Core.Path.{sym, subst}
use native.Mathlib.Omega.{arith}

digits_min-le : (n a b : ℕ) → digits (λ _. zero) min n a b ≤ b
digits_min-le zero a b = omega arith
digits_min-le (suc n) zero b = omega arith
digits_min-le (suc n) (suc a) b = omega (arith, digits_min-le n (suc a / 2) (b / 2))

-- A masked value is at most the mask.
pub bit_and-le : (a b : ℕ) → bit_and a b ≤ b
bit_and-le a b = subst (λ x. x ≤ b) (sym (bit_and-bitwise a b)) (digits_min-le a a b)
