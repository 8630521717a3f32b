-- ===== src/Tests/Operations.antt =====
-- The data-processing operations at concrete values.
use projet_l3_inf_bn_zl_rj_r.Prelude.{
  ◌≡◌, ◌+◌, ◌-◌, ◌/◌, ◌%◌, ◌^◌, refl, pos, ◌==◌, if◌then◌else◌, arith, ltb, u32,
}
use projet_l3_inf_bn_zl_rj_r.Constants.{asr, ror, flag_z, flag_n, flag_c, flag_v}
use projet_l3_inf_bn_zl_rj_r.Util.{get_bit, get_bits}
use projet_l3_inf_bn_zl_rj_r.Core.{arm_read_cpsr}
use projet_l3_inf_bn_zl_rj_r.DataProcessing.{effectuer_decalage, update_flags, temp_of}
use projet_l3_inf_bn_zl_rj_r.DataProcessing.Shifter.{shifted, effectuer_decalage-zero}
use projet_l3_inf_bn_zl_rj_r.DataProcessing.Flags.{
  OnlyCpsr, flags_of, update_flags-OnlyCpsr, update_flags-flags_of,
}
use projet_l3_inf_bn_zl_rj_r.DataProcessing.Alu.{alu, temp_of-alu}
use projet_l3_inf_bn_zl_rj_r.DataProcessing.Operation.{
  after, effectuer_operation-cmp, effectuer_operation-adds,
}
use projet_l3_inf_bn_zl_rj_r.Util.Shift
use projet_l3_inf_bn_zl_rj_r.DataProcessing.Shared.{asr-ror-shifted}
use projet_l3_inf_bn_zl_rj_r.Tests.{machine, arm}

effectuer_decalage-zero_example :
    (effectuer_decalage machine ror 0 0xf0000000 ≡ 0xf0000000)
    × (effectuer_decalage machine asr 0 0xf0000000
        ≡ (if ltb 0xf0000000 (2 ^ 31) then 0xf0000000 else 2 ^ 32 - 1))
effectuer_decalage-zero_example =
    effectuer_decalage-zero machine 0xf0000000 (λ x. refl) (omega arith)

temp_of-alu_example : u32 (temp_of 6 3 5 1) ≡ alu 6 3 5 1
temp_of-alu_example = temp_of-alu 3 5 1 (omega arith) (omega arith) (omega arith) 6

update_flags-OnlyCpsr_example : OnlyCpsr arm (update_flags 0 arm 1 1).1
update_flags-OnlyCpsr_example = update_flags-OnlyCpsr 0 arm 1 1

update_flags-flags_of_example :
    ((update_flags 0x100000000 arm 1 1).0 ≡ pos 0)
    × (get_bit (arm_read_cpsr (update_flags 0x100000000 arm 1 1).1) 29
        ≡ (if ltb 29 28 then get_bit (arm_read_cpsr arm) 29 else flags_of 0x100000000 29))
update_flags-flags_of_example =
    update_flags-flags_of 0x100000000 arm 1 29 (omega arith) (omega arith)

effectuer_operation-cmp_example :
    (after 10 3 5 arm 0xe1520003 flag_z ≡ (if 3 == 5 then 1 else 0))
    × (after 10 3 5 arm 0xe1520003 flag_n ≡ (3 + 2 ^ 32 - 5) % 2 ^ 32 / 2 ^ 31)
    × (after 10 3 5 arm 0xe1520003 flag_c ≡ (if ltb 3 5 then 1 else 0))
    × (after 10 3 5 arm 0xe1520003 flag_v ≡ (if ltb 3 5 then 1 else 0))
unfolding get_bits
effectuer_operation-cmp_example =
    effectuer_operation-cmp 3 5 arm 0xe1520003 (omega arith) (omega arith) (omega arith)

effectuer_operation-adds_example :
    (after 4 1 0xffffffff arm 0xe0921003 flag_z ≡ (if 1 + 0xffffffff == 0 then 1 else 0))
    × (after 4 1 0xffffffff arm 0xe0921003 flag_n ≡ (1 + 0xffffffff) % 2 ^ 32 / 2 ^ 31)
    × (after 4 1 0xffffffff arm 0xe0921003 flag_c ≡ (1 + 0xffffffff) / 2 ^ 32)
    × (after 4 1 0xffffffff arm 0xe0921003 flag_v ≡ (1 + 0xffffffff) / 2 ^ 32)
unfolding get_bit get_bits
effectuer_operation-adds_example =
    effectuer_operation-adds 1 0xffffffff arm 0xe0921003 (omega arith) (omega arith) (omega arith)
      refl

asr-ror-shifted_example :
    (Shift.asr machine 0x80000010 4 ≡ shifted asr 4 0x80000010)
    × (Shift.ror machine 0x80000010 4 ≡ shifted ror 4 0x80000010)
    × (Shift.asr machine 0x80000010 4 ≡ effectuer_decalage machine asr 4 0x80000010)
    × (Shift.ror machine 0x80000010 4 ≡ effectuer_decalage machine ror 4 0x80000010)
asr-ror-shifted_example =
    asr-ror-shifted machine 4 0x80000010 (omega arith) (omega arith) (omega arith)
