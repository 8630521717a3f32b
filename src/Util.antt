-- ===== src/Util.antt =====
-- util.h: the bit macros and the byte swaps. Util/Shift has the functions of util.c.
-- A macro works on a value of the width that its use gives it, so the operand is a number that
-- fits that width. In `1 << i` and `~0 << n` the C code stays inside 32 bits.
pub mod Laws
pub mod Shift
use projet_l3_inf_bn_zl_rj_r.Prelude.{
  ℕ, ◌+◌, ◌-◌, ◌*◌, ◌/◌, ◌%◌, ◌^◌, bit_and, bit_or, ◌==◌, if◌then◌else◌, ◌>>>◌, ◌<<<◌, u32, not32,
  ltb, Bool,
}

-- `((x)>>(i))&1`
unfoldable pub get_bit : ℕ → ℕ → ℕ
get_bit x i = bit_and (x >>> i) 1

-- `(x)|(1<<(i))`
unfoldable pub set_bit : ℕ → ℕ → ℕ
set_bit x i = bit_or x (1 <<< i)

-- `(x)&~(1<<(i))`, on 32 bits
unfoldable pub clr_bit : ℕ → ℕ → ℕ
clr_bit x i = bit_and x (not32 (1 <<< i))

-- `((x)>>(l))&~((((uint32_t) ~0)>>((h)-(l)+1))<<((h)-(l)+1))`
unfoldable pub get_bits : ℕ → ℕ → ℕ → ℕ
get_bits x h l =
    let width = h - l + 1 in bit_and (x >>> l) (not32 (u32 (((2 ^ 32 - 1) >>> width) <<< width)))

-- `((x)&~(((~0)>>(l))<<(l)))|((x)&((((uint32_t) ~0)>>((h)+1))<<((h)+1)))|((bits)<<(l))`.
-- The first `~0` is the `int` -1, which stays -1 under `>>`: its complement is the mask of the
-- `l` low bits.
unfoldable pub set_bits : ℕ → ℕ → ℕ → ℕ → ℕ
set_bits x h l bits =
    let below = not32 (u32 ((2 ^ 32 - 1) <<< l)) in
    let above = u32 (((2 ^ 32 - 1) >>> (h + 1)) <<< (h + 1)) in
    bit_or (bit_or (bit_and x below) (bit_and x above)) (u32 (bits <<< l))

unfoldable pub reverse_2 : ℕ → ℕ
reverse_2 x = bit_or (bit_and x 0xff <<< 8) (bit_and (x >>> 8) 0xff)

unfoldable pub reverse_4 : ℕ → ℕ
reverse_4 x =
    bit_or
      (bit_or (bit_or (bit_and x 0xff <<< 24) (bit_and (x >>> 8) 0xff <<< 16))
        (bit_and (x >>> 16) 0xff <<< 8))
      (bit_and (x >>> 24) 0xff)
