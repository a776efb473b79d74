-- ===== src/Common/Int.antt =====
-- Go's `int` as an integer: `negsuc n` is -(n + 1).
use Prim.Native.Nat.{ℕ, suc, ◌+◌, ◌-◌}
use mathlib.Core.Bool.{Bool, true, false}
use permission_aware_search.Common.Tests.{ltb, leb, if◌then◌else◌}

pub data ℤ : Type 0 where
  pos : ℕ → ℤ
  negsuc : ℕ → ℤ

-- a - b, as an integer
abbrev pub sub_ℕ : ℕ → ℕ → ℤ
sub_ℕ a b = if leb b a then pos (a - b) else negsuc (b - a - 1)

-- the sum of an integer and a count
abbrev pub add_ℕ : ℤ → ℕ → ℤ
add_ℕ (pos a) b = pos (a + b)
add_ℕ (negsuc a) b = sub_ℕ b (suc a)

-- `n <= 0`
abbrev pub le_zero : ℤ → Bool
le_zero (pos n) = leb n 0
le_zero (negsuc n) = true

abbrev pub to_ℕ : ℤ → ℕ
to_ℕ (pos n) = n
to_ℕ (negsuc n) = 0

-- `a < b` for a count `b`
abbrev pub lt_ℕ : ℤ → ℕ → Bool
lt_ℕ (pos a) b = ltb a b
lt_ℕ (negsuc a) b = true

abbrev pub lt_ℤ : ℤ → ℤ → Bool
lt_ℤ (pos m) (pos n) = ltb m n
lt_ℤ (pos m) (negsuc n) = false
lt_ℤ (negsuc m) (pos n) = true
lt_ℤ (negsuc m) (negsuc n) = ltb n m
