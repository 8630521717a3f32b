-- ===== src/Tests/Steps.antt =====
-- Steps of the processor at encoded instructions.
use projet_l3_inf_bn_zl_rj_r.Prelude.{◌*◌, refl, arith}
use projet_l3_inf_bn_zl_rj_r.Constants.{ror, asr}
use projet_l3_inf_bn_zl_rj_r.Util.{get_bit, get_bits}
use projet_l3_inf_bn_zl_rj_r.Registers.{registers_get_mode, registers_read_cpsr}
use projet_l3_inf_bn_zl_rj_r.Registers.Bank.{place}
use projet_l3_inf_bn_zl_rj_r.Memory.{memory_read_word, gather, load}
use projet_l3_inf_bn_zl_rj_r.Core.{
  Arm, cond_not_respect, condition_result, arm_read_cpsr, arm_read_register,
}
use projet_l3_inf_bn_zl_rj_r.DataProcessing.{compares}
use projet_l3_inf_bn_zl_rj_r.DataProcessing.Alu.{alu}
use projet_l3_inf_bn_zl_rj_r.DataProcessing.Shifter.{shifted}
use projet_l3_inf_bn_zl_rj_r.DataProcessing.Operation.{carry}
use projet_l3_inf_bn_zl_rj_r.Encoder.{
  construire_instruction, construire_shifter_im, construire_shifter_val,
}
use projet_l3_inf_bn_zl_rj_r.Instruction.Step.{fetched}
use projet_l3_inf_bn_zl_rj_r.Instruction.Computes.{Steps}
use projet_l3_inf_bn_zl_rj_r.Instruction.Encoded.{arm_step-immediate, arm_step-shifted_register}
use projet_l3_inf_bn_zl_rj_r.Valid.{IsValid}
use projet_l3_inf_bn_zl_rj_r.Tests.{machine, program, processor}

-- ADD r1, r2, #0xff000000.
abbrev adds : Arm
adds = processor (program 0xe2 0x82 0x14 0xff)

adds-IsValid : IsValid adds
adds-IsValid = record { words = λ i. ground arith; bytes = λ i. ground arith; cycles = omega arith }

arm_step-immediate_example :
    Steps machine adds 1 1
      (alu 4 (arm_read_register (fetched adds) 2) (shifted ror (2 * 4) 0xff) (carry (fetched adds)))
unfolding memory_read_word gather load get_bit get_bits cond_not_respect condition_result
    arm_read_cpsr registers_read_cpsr construire_instruction construire_shifter_im compares place
    registers_get_mode
arm_step-immediate_example =
    arm_step-immediate machine adds 14 4 0 2 1 1 1 adds-IsValid (omega arith) (omega arith) refl
      (omega arith) (omega arith) (omega arith) refl (omega arith) 4 0xff (omega arith)
      (omega arith) (omega arith) refl refl

-- SUBS r1, r2, r3, ASR #5.
abbrev subs : Arm
subs = processor (program 0xe0 0x52 0x12 0xc3)

subs-IsValid : IsValid subs
subs-IsValid = record { words = λ i. ground arith; bytes = λ i. ground arith; cycles = omega arith }

arm_step-shifted_register_example : Steps machine subs 1 1 (
    alu 2
      (arm_read_register (fetched subs) 2)
      (shifted asr 5 (arm_read_register (fetched subs) 3))
      (carry (fetched subs)))
unfolding memory_read_word gather load get_bit get_bits cond_not_respect condition_result
    arm_read_cpsr registers_read_cpsr construire_instruction construire_shifter_val compares place
    registers_get_mode
arm_step-shifted_register_example =
    arm_step-shifted_register machine subs 14 2 1 2 1 1 1 subs-IsValid (omega arith) (omega arith)
      refl (omega arith) (omega arith) (omega arith) refl (omega arith) 5 2 3 (omega arith)
      (omega arith) (omega arith) (omega arith) refl refl
