-- ===== src/DataProcessing.antt =====
-- arm_data_processing.c: the shifter, the flags, the sixteen operations and the two decoders.
-- The C names are kept in snake case: Effectuer_Decalage is effectuer_decalage, and so on.
pub mod Flags
pub mod Alu
pub mod Shifter
pub mod Shared
pub mod Operation
use projet_l3_inf_bn_zl_rj_r.Prelude.{
  ℕ, ◌+◌, ◌-◌, ◌*◌, ◌%◌, ◌^◌, ℤ, pos, Bool, true, false, not, ◌&&◌, ◌==◌, ltb, if◌then◌else◌, u8,
  u32, u64, sub64, not32, not64, ◌<<<◌, ◌>>>◌, bit_and, bit_or, bit_xor,
}
use projet_l3_inf_bn_zl_rj_r.Util.{get_bit, get_bits}
use projet_l3_inf_bn_zl_rj_r.Constants.{
  lsl, lsr, asr, ror, undefined_instruction, flag_n, flag_z, flag_c, flag_v,
}
use projet_l3_inf_bn_zl_rj_r.Machine.{Machine, shift_left}
use projet_l3_inf_bn_zl_rj_r.Core.{
  Arm, arm_current_mode_has_spsr, arm_read_cpsr, arm_read_spsr, arm_write_cpsr, arm_read_register,
  arm_write_register, cond_not_respect,
}

unfoldable pub determiner_decalage : ℕ → ℕ → ℕ
determiner_decalage bit6 bit5 =
    if (bit6 == 0) && (bit5 == 0)
    then lsl
    else if (bit6 == 0) && (bit5 == 1)
    then lsr
    else if (bit6 == 1) && (bit5 == 0)
    then asr
    else ror

-- The callers pass a shift of 0 to 31; so `32 - val` is 32 at a shift of 0.
unfoldable pub effectuer_decalage : Machine → ℕ → ℕ → ℕ → ℕ
effectuer_decalage m decalage val r =
    if decalage == lsl
    then shift_left m r val
    else if decalage == lsr
    then r >>> val
    else if decalage == asr
    then (if get_bit r 31 == 1
        then bit_or (r >>> val) (shift_left m (not32 0) (32 - val))
        else r >>> val)
    else bit_or (r >>> val) (shift_left m r (32 - val))

-- `arm_write_cpsr(p, arm_read_cpsr(p) | ~mask)` or `... & mask`, with the mask `~(1 << i)`.
unfoldable pub put_flag : Bool → ℕ → Arm → Arm
put_flag on i p =
    let masque = not32 (1 <<< i) in
    if on
    then arm_write_cpsr p (bit_or (arm_read_cpsr p) (not32 masque))
    else arm_write_cpsr p (bit_and (arm_read_cpsr p) masque)

-- The branch of Update_Flags that sets the flags Z, N, C and V from the 64-bit result.
unfoldable pub set_flags : ℕ → Arm → Arm
set_flags temp p =
    let res = u32 temp in
    let p1 = put_flag (temp == 0) flag_z p in
    let p2 = put_flag (get_bit temp 31 == 1) flag_n p1 in
    let p3 = put_flag (get_bit temp 32 == 1) flag_c p2 in put_flag (not (temp == res)) flag_v p3

unfoldable pub update_flags : ℕ → Arm → ℕ → ℕ → ℤ × Arm
update_flags temp p bit_s rd_num =
    if (bit_s == 1) && (rd_num == 15)
    then (if arm_current_mode_has_spsr p
        then (pos 0, arm_write_cpsr p (arm_read_spsr p))
        else (pos undefined_instruction, p))
    else if bit_s == 1
    then (pos 0, set_flags temp p)
    else (pos 0, p)

-- The result `temp` of an operation, in `uint64_t`; `flag` is the flag C.
unfoldable pub temp_of : ℕ → ℕ → ℕ → ℕ → ℕ
temp_of opecode rn operande2 flag =
    if opecode == 0
    then bit_and rn operande2
    else if opecode == 1
    then bit_xor rn operande2
    else if opecode == 2
    then sub64 rn operande2
    else if opecode == 3
    then sub64 operande2 rn
    else if opecode == 4
    then u64 (rn + operande2)
    else if opecode == 5
    then u64 (rn + operande2 + flag)
    else if opecode == 6
    then sub64 (u64 (sub64 rn operande2 + flag)) 1
    else if opecode == 7
    then sub64 (u64 (sub64 operande2 rn + flag)) 1
    else if opecode == 8
    then bit_and rn operande2
    else if opecode == 9
    then bit_xor rn operande2
    else if opecode == 10
    then sub64 rn operande2
    else if opecode == 11
    then u64 (rn + operande2)
    else if opecode == 12
    then bit_or rn operande2
    else if opecode == 13
    then operande2
    else if opecode == 14
    then bit_and rn (not64 operande2)
    else not64 operande2

-- TST, TEQ, CMP and CMN (8 to 11) write no register and always set the flags.
unfoldable pub compares : ℕ → Bool
compares opecode = opecode >>> 2 == 2

-- The `default` of the switch is never taken: the callers pass four bits.
unfoldable pub effectuer_operation : ℕ → ℕ → ℕ → Arm → ℕ → ℤ × Arm
effectuer_operation opecode rn operande2 p ins =
    let rd_num = get_bits ins 15 12 in
    let flag = get_bit (arm_read_cpsr p) flag_c in
    let bit_s = get_bit ins 20 in
    let temp = temp_of opecode rn operande2 flag in
    if ltb 15 opecode
    then (pos 1, p)
    else if compares opecode
    then update_flags temp p 1 rd_num
    else update_flags temp (arm_write_register p rd_num (u32 temp)) bit_s rd_num

-- The end of both decoders, from the second operand on.
unfoldable pub operate : Arm → ℕ → ℕ → ℤ × Arm
operate p ins operande2 =
    effectuer_operation (get_bits ins 24 21) (arm_read_register p (u8 (get_bits ins 19 16)))
      operande2 p ins

unfoldable pub arm_data_processing_shift : Machine → Arm → ℕ → ℤ × Arm
arm_data_processing_shift m p ins =
    if not (cond_not_respect p ins == 0)
    then (pos 1, p)
    else let rm = arm_read_register p (u8 (get_bits ins 3 0)) in
      let decalage = determiner_decalage (get_bit ins 6) (get_bit ins 5) in
      if u8 (get_bit ins 4) == 0
      then operate p ins (effectuer_decalage m decalage (get_bits ins 11 7) rm)
      else if not (u8 (get_bit ins 7) == 0)
      then (pos undefined_instruction, p)
      else let rs = arm_read_register p (u8 (get_bits ins 11 8)) in
        operate p ins (effectuer_decalage m decalage (get_bits rs 4 0) rm)

unfoldable pub arm_data_processing_immediate_msr : Machine → Arm → ℕ → ℤ × Arm
arm_data_processing_immediate_msr m p ins =
    if not (cond_not_respect p ins == 0)
    then (pos 1, p)
    else operate p ins (effectuer_decalage m ror (get_bits ins 11 8 * 2) (get_bits ins 7 0))
