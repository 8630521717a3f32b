-- ===== src/Instruction/Decode.antt =====
-- arm_instruction.c: the switch on bits 27 to 25 with its doubled labels, and where the encodings
-- of BX and of MSR with an immediate operand end up.
use projet_l3_inf_bn_zl_rj_r.Prelude.{ℕ, ◌/◌, ◌%◌, ◌^◌, ◌≡◌, refl, arith, some, bit_and}
use projet_l3_inf_bn_zl_rj_r.Bits.Mask.{and_mask}
use projet_l3_inf_bn_zl_rj_r.Util.{get_bit, get_bits}
use projet_l3_inf_bn_zl_rj_r.Util.Laws.{get_bit_lem, get_bits_lem}
use projet_l3_inf_bn_zl_rj_r.Machine.{Machine}
use projet_l3_inf_bn_zl_rj_r.Core.{Arm, cond_not_respect}
use projet_l3_inf_bn_zl_rj_r.DataProcessing.{arm_data_processing_immediate_msr}
use projet_l3_inf_bn_zl_rj_r.Branch.{fonction_msr}
use projet_l3_inf_bn_zl_rj_r.Branch.Msr.{arm_miscellaneous-bx}
use projet_l3_inf_bn_zl_rj_r.Instruction.{
  case_0, case_1_first, case_1_second, case_3_first, case_3_second, dispatch,
}

-- Whichever of two equal labels one takes, the decoding is the same: the first body of `case 1`
-- and of `case 3` does what the second does on its own. The other doubled bodies are equal texts.
pub case_first-second :
    (m : Machine) (p : Arm) (ins : ℕ)
    → (case_1_first m p ins ≡ case_1_second m p ins)
      × (case_3_first m p ins ≡ case_3_second m p ins)
unfolding case_1_first case_1_second case_3_first case_3_second
case_first-second m p ins = (one, three)
  where
    one : case_1_first m p ins ≡ case_1_second m p ins
    one = ground arith

    three : case_3_first m p ins ≡ case_3_second m p ins
    three = ground arith

-- The three bits that the switch looks at.
pub function_to_use : (ins : ℕ) → bit_and (ins / 2 ^ 25) 7 ≡ ins / 2 ^ 25 % 8
function_to_use ins = and_mask 3 (ins / 2 ^ 25)

-- The encoding of BX, when its condition holds, is carried out as an MSR.
pub dispatch-bx :
    (m : Machine) (p : Arm) (ins : ℕ)
    → cond_not_respect p ins ≡ 0
    → get_bits ins 27 20 ≡ 18
    → dispatch m p ins ≡ some (fonction_msr m p ins)
unfolding dispatch case_0
dispatch-bx m p ins met code =
    let field : ins / 2 ^ 20 % 256 ≡ 18 = omega (arith, get_bits_lem ins 27 20 (omega arith)) in
    let class : ins / 2 ^ 25 % 8 ≡ 0 = omega arith in
    let b24 : get_bit ins 24 ≡ 1 = omega (arith, get_bit_lem ins 24) in
    let b23 : get_bit ins 23 ≡ 0 = omega (arith, get_bit_lem ins 23) in
    let b20 : get_bit ins 20 ≡ 0 = omega (arith, get_bit_lem ins 20) in
    rw (function_to_use ins, class, b24, b23, b20, arm_miscellaneous-bx m p ins met code) refl

-- The encoding of MSR with an immediate operand never reaches arm_miscellaneous: it is carried out
-- as a data-processing instruction, whatever its condition.
pub dispatch-msr_immediate :
    (m : Machine) (p : Arm) (ins : ℕ)
    → get_bits ins 27 20 ≡ 50
    → dispatch m p ins ≡ some (arm_data_processing_immediate_msr m p ins)
unfolding dispatch case_1_first case_1_second
dispatch-msr_immediate m p ins code =
    let field : ins / 2 ^ 20 % 256 ≡ 50 = omega (arith, get_bits_lem ins 27 20 (omega arith)) in
    let class : ins / 2 ^ 25 % 8 ≡ 1 = omega arith in
    let b21 : get_bit ins 21 ≡ 1 = omega (arith, get_bit_lem ins 21) in
    let b24 : get_bit ins 24 ≡ 1 = omega (arith, get_bit_lem ins 24) in
    let b23 : get_bit ins 23 ≡ 0 = omega (arith, get_bit_lem ins 23) in
    rw (function_to_use ins, class, b24, b23, b21) refl
