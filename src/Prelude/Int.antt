-- ===== src/Prelude/Int.antt =====
-- The `int` results of the C functions, as integers over the native numbers.
use Prim.Native.Nat.{ℕ, suc, ◌-◌, ◌%◌, ◌^◌}
use mathlib.Core.Bool.{Bool, true, false}

-- `negsuc n` is -(n + 1).
pub data ℤ : Type 0 where
  pos : ℕ → ℤ
  negsuc : ℕ → ℤ

-- The test of a C `if` on an `int`.
abbrev pub is_zero : ℤ → Bool
is_zero (pos ℕ.zero) = true
is_zero (pos (suc n)) = false
is_zero (negsuc n) = false

abbrev pub is_minus_one : ℤ → Bool
is_minus_one (pos n) = false
is_minus_one (negsuc ℕ.zero) = true
is_minus_one (negsuc (suc n)) = false

-- The conversion of an `int` argument to `uint8_t`.
abbrev pub to_u8 : ℤ → ℕ
to_u8 (pos n) = n % 2 ^ 8
to_u8 (negsuc n) = 255 - n % 2 ^ 8
