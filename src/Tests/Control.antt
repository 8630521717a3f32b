-- ===== src/Tests/Control.antt =====
-- Conditions, branches, decoding, steps and runs at concrete states.
use projet_l3_inf_bn_zl_rj_r.Prelude.{
  ◌==◌, ℕ, ◌≡◌, ◌<◌, ◌+◌, ◌*◌, ◌^◌, refl, pos, some, if◌then◌else◌, arith, u32, bit_and,
}
use projet_l3_inf_bn_zl_rj_r.Constants.{
  flag_z, flag_n, flag_c, flag_v, reset, end_simulation, user_mask,
}
use projet_l3_inf_bn_zl_rj_r.Util.{get_bit, get_bits}
use projet_l3_inf_bn_zl_rj_r.Registers.{registers_read, registers_get_mode, registers_read_cpsr}
use projet_l3_inf_bn_zl_rj_r.Core.{
  Arm, cond_not_respect, condition_result, arm_read_cpsr, arm_write_cpsr, arm_write_register,
  arm_read_register,
}
use projet_l3_inf_bn_zl_rj_r.Core.Condition.{holds, cond_field, flag, cond_not_respect-holds}
use projet_l3_inf_bn_zl_rj_r.Core.Access.{pc_cell}
use projet_l3_inf_bn_zl_rj_r.Exception.{arm_create, arm_exception}
use projet_l3_inf_bn_zl_rj_r.Branch.{arm_branch, fonction_msr, msr_operand}
use projet_l3_inf_bn_zl_rj_r.Branch.Target.{extended, arm_branch_target}
use projet_l3_inf_bn_zl_rj_r.Branch.Msr.{fonction_msr-flags}
use projet_l3_inf_bn_zl_rj_r.Memory.{memory_read_word, gather, load}
use projet_l3_inf_bn_zl_rj_r.Instruction.{arm_step}
use projet_l3_inf_bn_zl_rj_r.Instruction.Step.{fetched, arm_step_skipped, arm_step_end}
use projet_l3_inf_bn_zl_rj_r.Valid.{IsValid, Ensures, Leaves}
use projet_l3_inf_bn_zl_rj_r.Valid.Access.{AreBytes}
use projet_l3_inf_bn_zl_rj_r.Valid.Step.{arm_step-Ensures, exception-Ensures, arm_create_lem}
use projet_l3_inf_bn_zl_rj_r.Tests.{machine, bank, program, processor, arm}

cond_not_respect-holds_example : cond_not_respect arm 0x10921003 ≡ (
    if cond_field 0x10921003 == 5
    then (if flag arm flag_n then 0 else 1)
    else if cond_field 0x10921003 == 13
    then 0
    else if cond_field 0x10921003 == 15
    then 2
    else if holds
        (cond_field 0x10921003)
        (flag arm flag_n)
        (flag arm flag_z)
        (flag arm flag_c)
        (flag arm flag_v)
    then 0
    else 1)
cond_not_respect-holds_example = cond_not_respect-holds arm 0x10921003

always : (ins : ℕ) → cond_field ins ≡ 14 → cond_not_respect arm ins ≡ 0
unfolding cond_not_respect condition_result
always ins e = rw e refl

arm_branch_target_example :
    ((arm_branch arm 0xeafffffe).0 ≡ pos 0)
    × (pc_cell (arm_branch arm 0xeafffffe).1 ≡ u32 (pc_cell arm + 4 * extended 0xeafffffe))
unfolding get_bits
arm_branch_target_example =
    arm_branch_target arm 0xeafffffe (always 0xeafffffe refl) (omega arith) refl (omega arith)

fonction_msr-flags_example :
    (fonction_msr machine arm 0xe128f001
      ≡ (pos 0, arm_write_cpsr arm (bit_and (msr_operand machine arm 0xe128f001) user_mask)))
    × (registers_get_mode (fonction_msr machine arm 0xe128f001).1.reg ≡ 0)
unfolding get_bits get_bit msr_operand arm_read_register registers_read
fonction_msr-flags_example =
    fonction_msr-flags machine arm 0xe128f001 refl refl refl refl refl refl refl

-- ADDNES r1, r2, r3 where the flag Z is set.
abbrev skips : Arm
skips = processor (program 0x10 0x92 0x10 0x03)

arm_step_skipped_example :
    arm_step machine skips
    ≡ some (pos reset, arm_write_register (arm_write_cpsr (fetched skips) 0x1d3) 15 0)
unfolding memory_read_word gather load get_bit get_bits cond_not_respect condition_result
    arm_read_cpsr registers_read_cpsr
arm_step_skipped_example = arm_step_skipped machine skips 0x10921003 refl refl (omega arith)

-- SWI 0x123456.
abbrev pub ends : Arm
ends = processor (program 0xef 0x12 0x34 0x56)

arm_step_end_example : arm_step machine ends ≡ some (pos end_simulation, fetched ends)
unfolding memory_read_word gather load
arm_step_end_example = arm_step_end machine ends 0xef123456 refl refl (omega arith) refl refl

valid_bank : (i : ℕ) → bank.registre i < 2 ^ 32
valid_bank i = ground arith

valid_program : AreBytes (program 0xef 0x12 0x34 0x56)
valid_program i = ground arith

pub valid : IsValid ends
valid = record { words = valid_bank; bytes = valid_program; cycles = omega arith }

arm_step-Ensures_example : Ensures Leaves (arm_step machine ends)
arm_step-Ensures_example = arm_step-Ensures machine valid

exception-Ensures_example : Ensures Leaves (arm_exception machine ends 7)
exception-Ensures_example = exception-Ensures machine 7 valid

arm_create_lem_example :
    (p : Arm) × (arm_create machine bank (program 0xef 0x12 0x34 0x56) ≡ some p)
    × IsValid p
    × (p.reg.registre 15 ≡ 0)
    × (p.reg.registre 16 ≡ 0x1d3)
    × (p.reg.registre 17 ≡ u32 64)
arm_create_lem_example =
    arm_create_lem machine bank (program 0xef 0x12 0x34 0x56) valid_bank valid_program
