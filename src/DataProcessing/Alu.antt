-- ===== src/DataProcessing/Alu.antt =====
-- The sixteen operations against the data-processing table of the ARM manual, on 32 bits.
use native.Mathlib.Nat.{mod-eq_of_lt}
use projet_l3_inf_bn_zl_rj_r.Prelude.{
  ℕ, ◌+◌, ◌-◌, ◌%◌, ◌^◌, ◌≤◌, ◌<◌, ◌≡◌, refl, ◌∙◌, ◌==◌, if◌then◌else◌, arith, bit_and, bit_or,
  bit_xor, not32, not64, u32,
}
use projet_l3_inf_bn_zl_rj_r.Bits.Split.{and-mod}
use projet_l3_inf_bn_zl_rj_r.Bits.Mask.{and-lt, or-lt, xor-lt}
use projet_l3_inf_bn_zl_rj_r.DataProcessing.{temp_of}

-- The result of each operation on 32 bits; the comparisons have the result that they test.
unfoldable pub alu : ℕ → ℕ → ℕ → ℕ → ℕ
alu opecode a b c =
    if opecode == 0
    then bit_and a b
    else if opecode == 1
    then bit_xor a b
    else if opecode == 2
    then (a + 2 ^ 32 - b) % 2 ^ 32
    else if opecode == 3
    then (b + 2 ^ 32 - a) % 2 ^ 32
    else if opecode == 4
    then (a + b) % 2 ^ 32
    else if opecode == 5
    then (a + b + c) % 2 ^ 32
    else if opecode == 6
    then (a + 2 ^ 32 - b - (1 - c)) % 2 ^ 32
    else if opecode == 7
    then (b + 2 ^ 32 - a - (1 - c)) % 2 ^ 32
    else if opecode == 8
    then bit_and a b
    else if opecode == 9
    then bit_xor a b
    else if opecode == 10
    then (a + 2 ^ 32 - b) % 2 ^ 32
    else if opecode == 11
    then (a + b) % 2 ^ 32
    else if opecode == 12
    then bit_or a b
    else if opecode == 13
    then b
    else if opecode == 14
    then bit_and a (not32 b)
    else not32 b

bic : (a b : ℕ) → a < 2 ^ 32 → b < 2 ^ 32 → u32 (bit_and a (not64 b)) ≡ bit_and a (not32 b)
bic a b p q =
    let low : not64 b % 2 ^ 32 ≡ not32 b = omega arith in
    and-mod 32 a (not64 b) ∙ rw (mod-eq_of_lt p, low) refl

module _ (a b c : ℕ) (ha : a < 2 ^ 32) (hb : b < 2 ^ 32) (hc : c ≤ 1) where
  -- The low 32 bits of the result, which go to the destination register, are the result of the
  -- ARM manual for each of the sixteen operations.
  pub temp_of-alu : (opecode : ℕ) → u32 (temp_of opecode a b c) ≡ alu opecode a b c
  unfolding temp_of alu
  temp_of-alu opecode = ground (arith, bic a b, and-lt 32 a b, or-lt 32 a b, xor-lt 32 a b)
