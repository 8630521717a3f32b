-- ===== src/Branch/Msr.antt =====
-- arm_miscellaneous: which instructions reach MSR and BX, and what MSR makes of the status register.
use projet_l3_inf_bn_zl_rj_r.Prelude.{
  ℕ, ◌/◌, ◌%◌, ◌^◌, ◌≡◌, ◌≢◌, refl, ◌∙◌, false, ◌==◌, arith, pos, bit_and, inl, inr, Bool-cases,
}
use projet_l3_inf_bn_zl_rj_r.Bits.Split.{and-mod}
use projet_l3_inf_bn_zl_rj_r.Bits.Mask.{and-zero, zero-or}
use projet_l3_inf_bn_zl_rj_r.Util.{get_bit, get_bits}
use projet_l3_inf_bn_zl_rj_r.Util.Laws.{get_bit_lem, get_bits_lem}
use projet_l3_inf_bn_zl_rj_r.Constants.{unalloc_mask, user_mask, state_mask}
use projet_l3_inf_bn_zl_rj_r.Registers.{registers_get_mode, registers_write_cpsr}
use projet_l3_inf_bn_zl_rj_r.Machine.{Machine}
use projet_l3_inf_bn_zl_rj_r.Core.{
  Arm, arm_write_cpsr, arm_read_cpsr, cond_not_respect, arm_in_a_privileged_mode,
}
use projet_l3_inf_bn_zl_rj_r.Branch.{
  arm_miscellaneous, fonction_msr, msr_operand, msr_merge, byte_mask,
}

-- An instruction with the code of BX in bits 27 to 20 passes the test for MSR, which stands first:
-- the call of fonction_BX is never made.
pub arm_miscellaneous-bx :
    (m : Machine) (p : Arm) (ins : ℕ)
    → cond_not_respect p ins ≡ 0
    → get_bits ins 27 20 ≡ 18
    → arm_miscellaneous m p ins ≡ fonction_msr m p ins
unfolding arm_miscellaneous
arm_miscellaneous-bx m p ins met code =
    let field : ins / 2 ^ 20 % 256 ≡ 18 = omega (arith, get_bits_lem ins 27 20 (omega arith)) in
    let b27 : get_bit ins 27 ≡ 0 = omega (arith, get_bit_lem ins 27) in
    let b26 : get_bit ins 26 ≡ 0 = omega (arith, get_bit_lem ins 26) in
    let b24 : get_bit ins 24 ≡ 1 = omega (arith, get_bit_lem ins 24) in
    let b23 : get_bit ins 23 ≡ 0 = omega (arith, get_bit_lem ins 23) in
    let b21 : get_bit ins 21 ≡ 1 = omega (arith, get_bit_lem ins 21) in
    let b20 : get_bit ins 20 ≡ 0 = omega (arith, get_bit_lem ins 20) in
    rw (met, b27, b26, b24, b23, b21, b20) refl

-- Only the operand's bits under the mask remain of the merge, for any mask but 0.
merge_lem : (old operand mask : ℕ) → mask ≢ 0 → msr_merge old operand mask ≡ bit_and operand mask
unfolding msr_merge
merge_lem old operand mask ne =
    let other : (mask == 0) ≡ false = ground arith in
    rw (other, and-zero old) (zero-or (bit_and operand mask))

mode_of_flags :
    (p : Arm) (operand : ℕ)
    → registers_get_mode (arm_write_cpsr p (bit_and operand user_mask)).reg ≡ 0
unfolding registers_get_mode arm_write_cpsr registers_write_cpsr
mode_of_flags p operand =
    let low : bit_and operand user_mask % 2 ^ 8 ≡ 0 =
      and-mod 8 operand user_mask ∙ and-zero (operand % 2 ^ 8) in
    rw low refl

-- The byte mask of the flag field alone.
byte_mask_f :
    (ins : ℕ)
    → get_bit ins 16 ≡ 0
    → get_bit ins 17 ≡ 0
    → get_bit ins 18 ≡ 0
    → get_bit ins 19 ≡ 1
    → byte_mask ins ≡ 0xff000000
unfolding byte_mask
byte_mask_f ins b16 b17 b18 b19 = rw (b16, b17, b18, b19) refl

flags_only :
    (m : Machine) (p : Arm) (ins : ℕ)
    → get_bit ins 22 ≡ 0
    → byte_mask ins ≡ 0xff000000
    → bit_and (msr_operand m p ins) unalloc_mask ≡ 0
    → bit_and (msr_operand m p ins) state_mask ≡ 0
    → fonction_msr m p ins ≡ (pos 0, arm_write_cpsr p (bit_and (msr_operand m p ins) user_mask))
unfolding fonction_msr
flags_only m p ins b22 mask free state =
    let merged = merge_lem (arm_read_cpsr p) (msr_operand m p ins) user_mask (omega arith) in
    elim (Bool-cases (arm_in_a_privileged_mode p)) [
      | inl e ↦ rw (free, b22, e, state, mask, merged) refl
      | inr e ↦ rw (free, b22, e, mask, merged) refl
    ]

-- MSR CPSR_f, which is meant to set the four flags and keep the rest, keeps nothing: the status
-- register becomes the flags of the operand alone, and the processor is left in mode 0, which is
-- none of its modes. So it goes in every mode, for an operand without reserved or state bits.
pub fonction_msr-flags :
    (m : Machine) (p : Arm) (ins : ℕ)
    → get_bit ins 22 ≡ 0
    → get_bit ins 16 ≡ 0
    → get_bit ins 17 ≡ 0
    → get_bit ins 18 ≡ 0
    → get_bit ins 19 ≡ 1
    → bit_and (msr_operand m p ins) unalloc_mask ≡ 0
    → bit_and (msr_operand m p ins) state_mask ≡ 0
    → (fonction_msr m p ins ≡ (pos 0, arm_write_cpsr p (bit_and (msr_operand m p ins) user_mask)))
      × (registers_get_mode (fonction_msr m p ins).1.reg ≡ 0)
fonction_msr-flags m p ins b22 b16 b17 b18 b19 free state =
    let whole = flags_only m p ins b22 (byte_mask_f ins b16 b17 b18 b19) free state in
    (whole, rw whole (mode_of_flags p (msr_operand m p ins)))
