-- ===== src/Tests/Multiple.antt =====
-- STM and LDM at a concrete state.
use projet_l3_inf_bn_zl_rj_r.Prelude.{◌≡◌, ◌==◌, if◌then◌else◌, refl, some, pos, arith}
use projet_l3_inf_bn_zl_rj_r.Util.{get_bit, get_bits}
use projet_l3_inf_bn_zl_rj_r.Registers.{
  Registers, assign, registers_read, registers_get_mode, registers_read_cpsr,
}
use projet_l3_inf_bn_zl_rj_r.Memory.{Memory}
use projet_l3_inf_bn_zl_rj_r.Core.{
  Arm, arm_read_register, arm_read_cpsr, cond_not_respect, condition_result,
}
use projet_l3_inf_bn_zl_rj_r.LoadStore.{arm_load_store_multiple}
use projet_l3_inf_bn_zl_rj_r.LoadStore.Multiple.{listed}
use projet_l3_inf_bn_zl_rj_r.LoadStore.Trip.{IsMultiple, list_of, arm_load_store_multiple-ldm_stm}
use projet_l3_inf_bn_zl_rj_r.Valid.{IsValid}
use projet_l3_inf_bn_zl_rj_r.Tests.{machine, arm, bank}

arm-IsValid : IsValid arm
arm-IsValid = record { words = λ i. ground arith; bytes = λ i. ground arith; cycles = omega arith }

-- The registers after r2 has been changed.
abbrev changed : Registers
changed = assign bank 2 99

-- STMIA r1, {r2, r3}.
stm_2_3 : IsMultiple arm 0xe881000c 0
unfolding get_bits get_bit cond_not_respect condition_result arm_read_cpsr registers_read_cpsr
stm_2_3 = record {
  met = refl;
  up = refl;
  plain = refl;
  kept = refl;
  way = refl;
  some_listed = omega arith;
  pc_unlisted = refl;
}

-- LDMIA r1, {r2, r3}.
ldm_2_3 : IsMultiple (record arm { reg = changed }) 0xe891000c 1
unfolding get_bits get_bit cond_not_respect condition_result arm_read_cpsr registers_read_cpsr
ldm_2_3 = record {
  met = refl;
  up = refl;
  plain = refl;
  kept = refl;
  way = refl;
  some_listed = omega arith;
  pc_unlisted = refl;
}

arm_load_store_multiple-ldm_stm_example :
    (mem' : Memory) × (q : Arm) × (arm_load_store_multiple machine arm 0xe881000c
      ≡ some (pos 0, record arm { mem = mem' }))
    × (arm_load_store_multiple machine (record arm { reg = changed; mem = mem' }) 0xe891000c
        ≡ some (pos 0, q))
    × (q.mem ≡ mem')
    × (arm_read_register q 2 ≡ (
        if get_bit (list_of 0xe881000c) 2 == 0
        then arm_read_register (record arm { reg = changed }) 2
        else arm_read_register arm 2))
unfolding get_bits get_bit arm_read_register registers_read registers_get_mode listed
arm_load_store_multiple-ldm_stm_example =
    arm_load_store_multiple-ldm_stm machine arm 0xe881000c 0xe891000c changed 2 arm-IsValid refl
      refl stm_2_3 ldm_2_3 refl refl (omega arith) (omega arith) (omega arith)
