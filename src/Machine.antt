-- ===== src/Machine.antt =====
-- What the C code leaves to the compiler and the machine. Every definition that meets such a
-- point takes a `Machine`, and the theorems hold for all of them unless they name an assumption.
use projet_l3_inf_bn_zl_rj_r.Prelude.{ℕ, ℤ, ◌*◌, ◌^◌, ltb, if◌then◌else◌, u32}

pub record Machine : Type 0 where
  -- `ENDIANESS` of arm_core.c: 1 where BIG_ENDIAN_SIMULATOR is defined, as Makefile.am does.
  pub endianess : ℕ
  -- A 32-bit `x << n` with `n` at least 32, which C leaves undefined.
  pub oversized_shift : ℕ → ℕ → ℕ
  -- What an automatic variable of each type holds before it is assigned; `n` is the
  -- cycle, and a second word is that of a function with two such variables.
  pub stale_word : ℕ → ℕ
  pub stale_second_word : ℕ → ℕ
  pub stale_half : ℕ → ℕ
  pub stale_byte : ℕ → ℕ
  pub stale_result : ℕ → ℤ

-- `x << n` on `uint32_t`.
unfoldable pub shift_left : Machine → ℕ → ℕ → ℕ
shift_left m x n = if ltb n 32 then u32 (x * 2 ^ n) else u32 (m.oversized_shift x n)
