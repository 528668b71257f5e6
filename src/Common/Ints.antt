-- ===== src/Common/Ints.antt =====
-- Python integers where a sign matters: revision numbers. `negsuc n` is -(n + 1).
use Prim.Native.Nat.{suc, zero, ℕ}
use mathlib.Core.Bool.{Bool, false, true}
use mathlib.Core.Logic.{◌↔◌}
use mathlib.Core.Path.{◌≡◌}
use native.Mathlib.Omega.{arith}
use vyne.Common.Tests.{◌==◌}

pub data ℤ : Type 0 where
  pos : ℕ → ℤ
  negsuc : ℕ → ℤ

abbrev pub eq : ℤ → ℤ → Bool
eq (pos a) (pos b) = a == b
eq (negsuc a) (negsuc b) = a == b
eq (pos a) (negsuc b) = false
eq (negsuc a) (pos b) = false

-- `a > 0`
abbrev pub is_positive : ℤ → Bool
is_positive (pos zero) = false
is_positive (pos (suc n)) = true
is_positive (negsuc n) = false

pub eq_iff : (a b : ℤ) → (eq a b ≡ true) ↔ (a ≡ b)
eq_iff (pos a) (pos b) = ground arith
eq_iff (negsuc a) (negsuc b) = ground arith
eq_iff (pos a) (negsuc b) = ground arith
eq_iff (negsuc a) (pos b) = ground arith

pub eq_refl : (a : ℤ) → eq a a ≡ true
eq_refl (pos a) = ground arith
eq_refl (negsuc a) = ground arith

-- `a + 1`
unfoldable pub add_one : ℤ → ℤ
add_one (pos n) = pos (suc n)
add_one (negsuc zero) = pos 0
add_one (negsuc (suc n)) = negsuc n
