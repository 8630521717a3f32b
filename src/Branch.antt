-- ===== src/Branch.antt =====
-- arm_branch_other.c: branches, the software interrupt, MSR and BX.
pub mod Target
pub mod Msr
use projet_l3_inf_bn_zl_rj_r.Prelude.{
  ℕ, ◌+◌, ◌-◌, ◌*◌, ◌%◌, ◌^◌, ℤ, pos, Bool, not, ◌&&◌, ◌||◌, ◌==◌, if◌then◌else◌, u32, sub32, ◌<<<◌,
  ◌>>>◌, bit_and, bit_or,
}
use projet_l3_inf_bn_zl_rj_r.Util.{get_bit, get_bits, set_bit, set_bits, clr_bit}
use projet_l3_inf_bn_zl_rj_r.Constants.{
  undefined_instruction, data_abort, software_interrupt, unalloc_mask, user_mask, priv_mask,
  state_mask,
}
use projet_l3_inf_bn_zl_rj_r.Memory.{minus_one}
use projet_l3_inf_bn_zl_rj_r.Machine.{Machine, shift_left}
use projet_l3_inf_bn_zl_rj_r.Core.{
  Arm, arm_read_register, arm_write_register, arm_read_cpsr, arm_write_cpsr, arm_read_spsr,
  arm_write_spsr, arm_in_a_privileged_mode, arm_current_mode_has_spsr, cond_not_respect,
}

-- `signed_immed_24` after its sign extension.
unfoldable pub signed_immed : ℕ → ℕ
signed_immed ins =
    let immed = get_bits ins 23 0 in
    if get_bit ins 23 == 0 then immed else set_bits immed 30 24 0xff

unfoldable pub arm_branch : Arm → ℕ → ℤ × Arm
unfolding signed_immed
arm_branch p ins =
    if not (cond_not_respect p ins == 0 || cond_not_respect p ins == 2)
    then (minus_one, p)
    else let bit_l = get_bit ins 24 in
      let exchange = get_bits ins 31 28 == 15 in
      let offset = u32 (signed_immed ins <<< 2) in
      let p1 =
        if not (bit_l == 0) || exchange
        then arm_write_register p 14 (arm_read_register p 15)
        else p in
      if exchange
      then (let p2 = arm_write_register p1 16 (set_bit (arm_read_register p1 16) 5) in
          (
            pos 0,
            arm_write_register p2 15
                (sub32 (u32 (u32 (arm_read_register p2 15 + offset) + bit_l <<< 1)) 4),
          ))
      else (pos 0, arm_write_register p1 15 (sub32 (u32 (arm_read_register p1 15 + offset)) 4))

unfoldable pub arm_coprocessor_others_swi : Arm → ℕ → ℤ × Arm
arm_coprocessor_others_swi p ins =
    (if get_bit ins 24 == 0 then pos undefined_instruction else pos software_interrupt, p)

unfoldable pub fonction_bx : Arm → ℕ → ℤ × Arm
fonction_bx p ins =
    let p1 =
      if get_bit ins 0 == 0
      then arm_write_register p 16 (set_bit (arm_read_register p 16) 5)
      else arm_write_register p 16 (clr_bit (arm_read_register p 16) 5) in
    (pos 0, arm_write_register p1 15 (bit_and (arm_read_register p1 (get_bits ins 3 0)) 0xfffffffe))

-- The operand of MSR: a rotated byte, or a register.
unfoldable pub msr_operand : Machine → Arm → ℕ → ℕ
msr_operand m p ins =
    if get_bit ins 25 == 0
    then arm_read_register p (get_bits ins 3 0)
    else let r = get_bits ins 7 0 in
      let val = get_bits ins 11 8 * 2 in bit_or (r >>> val) (shift_left m r (32 - val))

-- `byte_mask` after its four tests.
unfoldable pub byte_mask : ℕ → ℕ
byte_mask ins =
    let m0 = if get_bit ins 16 == 0 then 0 else 0x000000ff in
    let m1 = if get_bit ins 17 == 0 then m0 else bit_or m0 0x0000ff00 in
    let m2 = if get_bit ins 18 == 0 then m1 else bit_or m1 0x00ff0000 in
    if get_bit ins 19 == 0 then m2 else bit_or m2 0xff000000

-- `(old & !(mask)) | (operand & mask)`. The `!` is the logical one: 1 for 0, and 0 for all else.
unfoldable pub msr_merge : ℕ → ℕ → ℕ → ℕ
msr_merge old operand mask =
    bit_or (bit_and old (if mask == 0 then 1 else 0)) (bit_and operand mask)

unfoldable pub fonction_msr : Machine → Arm → ℕ → ℤ × Arm
fonction_msr m p ins =
    let operand = msr_operand m p ins in
    if not (bit_and operand unalloc_mask == 0)
    then (pos data_abort, p)
    else if get_bit ins 22 == 0
    then (if arm_in_a_privileged_mode p
        then (if not (bit_and operand state_mask == 0)
            then (pos data_abort, p)
            else let mask = bit_and (byte_mask ins) (bit_or user_mask priv_mask) in
              (pos 0, arm_write_cpsr p (msr_merge (arm_read_cpsr p) operand mask)))
        else (let mask = bit_and (byte_mask ins) user_mask in
            (pos 0, arm_write_cpsr p (msr_merge (arm_read_cpsr p) operand mask))))
    else if arm_current_mode_has_spsr p
    then (let mask = bit_and (byte_mask ins) (bit_or (bit_or user_mask priv_mask) state_mask) in
        (pos 0, arm_write_spsr p (msr_merge (arm_read_spsr p) operand mask)))
    else (pos data_abort, p)

unfoldable pub arm_miscellaneous : Machine → Arm → ℕ → ℤ × Arm
arm_miscellaneous m p ins =
    if not (cond_not_respect p ins == 0)
    then (pos undefined_instruction, p)
    else if (get_bit ins 27 == 0)
        && (get_bit ins 26 == 0)
        && not (get_bit ins 24 == 0)
        && (get_bit ins 23 == 0)
        && not (get_bit ins 21 == 0)
        && (get_bit ins 20 == 0)
    then fonction_msr m p ins
    else if get_bits ins 27 20 == 18
    then fonction_bx p ins
    else (pos undefined_instruction, p)
