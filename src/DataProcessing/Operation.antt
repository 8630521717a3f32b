-- ===== src/DataProcessing/Operation.antt =====
-- Effectuer_Operation: the destination register, the flags, and what stays.
use projet_l3_inf_bn_zl_rj_r.Prelude.{
  ℕ, ◌+◌, ◌-◌, ◌/◌, ◌%◌, ◌^◌, ◌<◌, ◌≡◌, ◌≢◌, ◌∙◌, true, false, ◌==◌, ltb, if◌then◌else◌, arith,
  some, u32, sub64, u64, le→ltb,
}
use projet_l3_inf_bn_zl_rj_r.Util.{get_bit, get_bits}
use projet_l3_inf_bn_zl_rj_r.Util.Laws.{get_bit_lem, get_bit_small}
use projet_l3_inf_bn_zl_rj_r.Constants.{flag_n, flag_z, flag_c, flag_v, cpsr}
use projet_l3_inf_bn_zl_rj_r.Registers.{registers_get_mode}
use projet_l3_inf_bn_zl_rj_r.Registers.Bank.{place}
use projet_l3_inf_bn_zl_rj_r.Core.{Arm, arm_read_cpsr, arm_write_register}
use projet_l3_inf_bn_zl_rj_r.Core.Access.{write_register_at}
use projet_l3_inf_bn_zl_rj_r.DataProcessing.{temp_of, compares, effectuer_operation}
use projet_l3_inf_bn_zl_rj_r.DataProcessing.Flags.{
  OnlyCpsr, update_flags-OnlyCpsr, update_flags-flags_of,
}
use projet_l3_inf_bn_zl_rj_r.DataProcessing.Alu.{alu, temp_of-alu}

-- The carry that an operation starts from.
abbrev pub carry : Arm → ℕ
carry p = get_bit (arm_read_cpsr p) flag_c

module _ (opecode rn operande2 : ℕ) (p : Arm) (ins : ℕ) (known : opecode < 16) where
  -- A comparison, TST, TEQ, CMP or CMN, changes no register but the status register, and nothing
  -- else of the processor or the memory.
  pub effectuer_operation-OnlyCpsr :
      compares opecode ≡ true → OnlyCpsr p (effectuer_operation opecode rn operande2 p ins).1
  unfolding effectuer_operation
  effectuer_operation-OnlyCpsr test =
      rw (le→ltb 15 opecode (omega arith), test) (update_flags-OnlyCpsr _ p _ _)

  -- Any other operation puts the result of the ARM manual into the destination's cell of the
  -- present mode, and leaves every other cell but the status register alone.
  pub effectuer_operation-alu :
      (i j : ℕ)
      → rn < 2 ^ 32
      → operande2 < 2 ^ 32
      → compares opecode ≡ false
      → place (get_bits ins 15 12) (registers_get_mode p.reg) ≡ some i
      → j ≢ cpsr
      → (effectuer_operation opecode rn operande2 p ins).1.reg.registre j
        ≡ (if j == i then alu opecode rn operande2 (carry p) else p.reg.registre j)
  unfolding effectuer_operation
  effectuer_operation-alu i j ha hb test e ne =
      let result = temp_of-alu rn operande2 (carry p) ha hb (get_bit_small _ _) opecode in
      rw
        (
          le→ltb 15 opecode (omega arith),
          test,
          write_register_at p (get_bits ins 15 12) (u32 (temp_of opecode rn operande2 (carry p))) i
              e,
          result,
        )
        ((update_flags-OnlyCpsr _ _ _ _).registers j ne)

-- The flag bit `j` after an operation whose destination field is not the program counter.
abbrev pub after : ℕ → ℕ → ℕ → Arm → ℕ → ℕ → ℕ
after opecode rn operande2 p ins j =
    get_bit (arm_read_cpsr (effectuer_operation opecode rn operande2 p ins).1) j

-- CMP of two words sets Z exactly when they are equal and N to the sign of the difference. It sets
-- C when the difference borrows, where the ARM manual clears C, and V likewise, where the manual
-- asks for signed overflow.
pub effectuer_operation-cmp :
    (rn operande2 : ℕ) (p : Arm) (ins : ℕ)
    → rn < 2 ^ 32
    → operande2 < 2 ^ 32
    → get_bits ins 15 12 ≢ 15
    → (after 10 rn operande2 p ins flag_z ≡ (if rn == operande2 then 1 else 0))
      × (after 10 rn operande2 p ins flag_n ≡ (rn + 2 ^ 32 - operande2) % 2 ^ 32 / 2 ^ 31)
      × (after 10 rn operande2 p ins flag_c ≡ (if ltb rn operande2 then 1 else 0))
      × (after 10 rn operande2 p ins flag_v ≡ (if ltb rn operande2 then 1 else 0))
unfolding effectuer_operation compares temp_of
effectuer_operation-cmp rn operande2 p ins ha hb ne =
    let temp = sub64 rn operande2 in
    let at = λ (j : ℕ) (h : j < 32). (update_flags-flags_of temp p (get_bits ins 15 12) j ne h).1 in
    (
      at flag_z (omega arith) ∙ ground arith,
      at flag_n (omega arith) ∙ omega (arith, get_bit_lem temp 31),
      at flag_c (omega arith) ∙ ground (arith, get_bit_lem temp 32),
      at flag_v (omega arith) ∙ ground arith,
    )

-- ADD of two words with S set: C is the carry out of bit 31, and V is the same, where the ARM
-- manual asks for signed overflow. Z is set only if the sum is 0 before it is cut to 32 bits: a sum
-- of exactly 2^32, whose register result is 0, leaves Z clear.
pub effectuer_operation-adds :
    (rn operande2 : ℕ) (p : Arm) (ins : ℕ)
    → rn < 2 ^ 32
    → operande2 < 2 ^ 32
    → get_bits ins 15 12 ≢ 15
    → get_bit ins 20 ≡ 1
    → (after 4 rn operande2 p ins flag_z ≡ (if rn + operande2 == 0 then 1 else 0))
      × (after 4 rn operande2 p ins flag_n ≡ (rn + operande2) % 2 ^ 32 / 2 ^ 31)
      × (after 4 rn operande2 p ins flag_c ≡ (rn + operande2) / 2 ^ 32)
      × (after 4 rn operande2 p ins flag_v ≡ (rn + operande2) / 2 ^ 32)
unfolding effectuer_operation compares temp_of
effectuer_operation-adds rn operande2 p ins ha hb ne set =
    let temp = u64 (rn + operande2) in
    let rd = get_bits ins 15 12 in
    let written = arm_write_register p rd (u32 temp) in
    let at = λ (j : ℕ) (h : j < 32). (update_flags-flags_of temp written rd j ne h).1 in
    rw set (
      at flag_z (omega arith) ∙ ground arith,
      at flag_n (omega arith) ∙ omega (arith, get_bit_lem temp 31),
      at flag_c (omega arith) ∙ omega (arith, get_bit_lem temp 32),
      at flag_v (omega arith) ∙ ground arith,
    )
