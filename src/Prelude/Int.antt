-- ===== src/Prelude/Int.antt =====
-- Python's integers, over the native numbers.
use Prim.Native.Nat.{ℕ}
use mathlib.Core.Bool.{Bool, true, false}
use mathlib.Core.Path.{◌≡◌}
use mathlib.Core.Logic.{◌↔◌}
use native.Mathlib.Omega.{arith}
use hivescope.Prelude.Tests.{nat_eq, leb}

-- `negsuc n` is -(n + 1).
pub data ℤ : Type 0 where
  pos : ℕ → ℤ
  negsuc : ℕ → ℤ

abbrev pub eq_ℤ : ℤ → ℤ → Bool
eq_ℤ (pos m) (pos n) = nat_eq m n
eq_ℤ (negsuc m) (negsuc n) = nat_eq m n
eq_ℤ _ _ = false

abbrev pub leb_ℤ : ℤ → ℤ → Bool
leb_ℤ (pos m) (pos n) = leb m n
leb_ℤ (negsuc m) (negsuc n) = leb n m
leb_ℤ (negsuc m) (pos n) = true
leb_ℤ (pos m) (negsuc n) = false

pub eq_ℤ_iff : (a b : ℤ) → (eq_ℤ a b ≡ true) ↔ (a ≡ b)
eq_ℤ_iff (pos m) (pos n) = ground arith
eq_ℤ_iff (negsuc m) (negsuc n) = ground arith
eq_ℤ_iff (pos m) (negsuc n) = ground arith
eq_ℤ_iff (negsuc m) (pos n) = ground arith
