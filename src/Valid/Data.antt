-- ===== src/Valid/Data.antt =====
-- The widths after data processing, branches, MSR and BX.
use projet_l3_inf_bn_zl_rj_r.Prelude.{
  if_both, ℕ, ◌^◌, ◌<◌, ◌≡◌, refl, Bool, true, false, not, ◌==◌, ◌&&◌, ◌||◌, ltb, if◌then◌else◌,
  arith, bit_and, u8, ◌<<<◌, all_below, all_below_sound,
}
use projet_l3_inf_bn_zl_rj_r.Bits.Mask.{and-lt, and-right-lt, or-lt}
use projet_l3_inf_bn_zl_rj_r.Util.{get_bit, get_bits, set_bit, clr_bit}
use projet_l3_inf_bn_zl_rj_r.Constants.{flag_n, flag_z, flag_c, flag_v, state_mask}
use projet_l3_inf_bn_zl_rj_r.Machine.{Machine}
use projet_l3_inf_bn_zl_rj_r.Core.{
  Arm, arm_read_register, arm_write_register, arm_read_cpsr, arm_read_spsr,
  arm_current_mode_has_spsr, arm_in_a_privileged_mode, cond_not_respect,
}
use projet_l3_inf_bn_zl_rj_r.DataProcessing.{
  put_flag, set_flags, update_flags, compares, effectuer_operation, operate,
  arm_data_processing_shift, arm_data_processing_immediate_msr,
}
use projet_l3_inf_bn_zl_rj_r.Branch.{
  arm_branch, fonction_bx, fonction_msr, msr_operand, msr_merge, byte_mask, arm_miscellaneous,
}
use projet_l3_inf_bn_zl_rj_r.Valid.{IsValid, Leaves}
use projet_l3_inf_bn_zl_rj_r.Valid.Access.{
  read_register-lt, read_cpsr-lt, read_spsr-lt, write_register-IsValid, write_cpsr-IsValid,
  write_spsr-IsValid,
}

mask_table : all_below 32 (λ i. ltb (1 <<< i) (2 ^ 32)) ≡ true
unfolding all_below
mask_table = refl

flag_mask-lt : (i : ℕ) → i < 32 → 1 <<< i < 2 ^ 32
flag_mask-lt i h =
    let e = all_below_sound 32 (λ i. ltb (1 <<< i) (2 ^ 32)) i mask_table h in ground (arith, e)

set_bit-lt : (i x : ℕ) → i < 32 → x < 2 ^ 32 → set_bit x i < 2 ^ 32
unfolding set_bit
set_bit-lt i x h small = or-lt 32 x (1 <<< i) small (flag_mask-lt i h)

clr_bit-lt : (i x : ℕ) → x < 2 ^ 32 → clr_bit x i < 2 ^ 32
unfolding clr_bit
clr_bit-lt i x small = and-lt 32 x _ small

put_flag-IsValid : (on : Bool) (i : ℕ) {p : Arm} → i < 32 → IsValid p → IsValid (put_flag on i p)
unfolding put_flag
put_flag-IsValid true i {p} h valid =
    write_cpsr-IsValid valid _ (or-lt 32 (arm_read_cpsr p) _ (read_cpsr-lt valid) (omega arith))
put_flag-IsValid false i {p} h valid =
    write_cpsr-IsValid valid _ (and-lt 32 (arm_read_cpsr p) _ (read_cpsr-lt valid))

set_flags-IsValid : (temp : ℕ) {p : Arm} → IsValid p → IsValid (set_flags temp p)
unfolding set_flags
set_flags-IsValid temp valid = put_flag-IsValid _ flag_v (omega arith) (
    put_flag-IsValid _ flag_c (omega arith)
      (put_flag-IsValid _ flag_n (omega arith) (put_flag-IsValid _ flag_z (omega arith) valid)))

update_flags-Leaves :
    (temp : ℕ) {p : Arm} (bit_s rd_num : ℕ) → IsValid p → Leaves (update_flags temp p bit_s rd_num)
unfolding update_flags
update_flags-Leaves temp {p} bit_s rd_num valid =
    if_both Leaves ((bit_s == 1) && (rd_num == 15)) _ _
      (if_both Leaves (arm_current_mode_has_spsr p) _ _
        (write_cpsr-IsValid valid (arm_read_spsr p) (read_spsr-lt valid)) valid)
      (if_both Leaves (bit_s == 1) _ _ (set_flags-IsValid temp valid) valid)

effectuer_operation-Leaves :
    (opecode rn operande2 : ℕ) {p : Arm} (ins : ℕ)
    → IsValid p
    → Leaves (effectuer_operation opecode rn operande2 p ins)
unfolding effectuer_operation
effectuer_operation-Leaves opecode rn operande2 ins valid =
    if_both Leaves (ltb 15 opecode) _ _ valid (
      if_both Leaves (compares opecode) _ _ (update_flags-Leaves _ 1 _ valid)
        (update_flags-Leaves _ _ _ (write_register-IsValid valid _ _ (omega arith))))

operate-Leaves : {p : Arm} (ins operande2 : ℕ) → IsValid p → Leaves (operate p ins operande2)
unfolding operate
operate-Leaves {p} ins operande2 valid =
    effectuer_operation-Leaves (get_bits ins 24 21) (arm_read_register p (u8 (get_bits ins 19 16)))
      operande2 ins valid

pub data_processing_shift-Leaves :
    (m : Machine) {p : Arm} (ins : ℕ) → IsValid p → Leaves (arm_data_processing_shift m p ins)
unfolding arm_data_processing_shift
data_processing_shift-Leaves m {p} ins valid =
    if_both Leaves (not (cond_not_respect p ins == 0)) _ _ valid (
      if_both Leaves (u8 (get_bit ins 4) == 0) _ _ (operate-Leaves ins _ valid)
        (if_both Leaves (not (u8 (get_bit ins 7) == 0)) _ _ valid (operate-Leaves ins _ valid)))

pub data_processing_immediate-Leaves :
    (m : Machine) {p : Arm} (ins : ℕ)
    → IsValid p
    → Leaves (arm_data_processing_immediate_msr m p ins)
unfolding arm_data_processing_immediate_msr
data_processing_immediate-Leaves m {p} ins valid =
    if_both Leaves (not (cond_not_respect p ins == 0)) _ _ valid (operate-Leaves ins _ valid)

pub branch-Leaves : {p : Arm} (ins : ℕ) → IsValid p → Leaves (arm_branch p ins)
unfolding arm_branch
branch-Leaves {p} ins valid =
    let exchange = get_bits ins 31 28 == 15 in
    let p1 =
      if not (get_bit ins 24 == 0) || exchange
      then arm_write_register p 14 (arm_read_register p 15)
      else p in
    let linked : IsValid p1 =
      if_both IsValid (not (get_bit ins 24 == 0) || exchange) _ p
        (write_register-IsValid valid 14 _ (read_register-lt valid 15)) valid in
    if_both Leaves (not (cond_not_respect p ins == 0 || cond_not_respect p ins == 2)) _ _ valid (
      if_both Leaves exchange _ _
        (write_register-IsValid
          (write_register-IsValid linked 16 _
            (set_bit-lt 5 _ (omega arith) (read_register-lt linked 16)))
          15 _ (omega arith))
        (write_register-IsValid linked 15 _ (omega arith)))

bx-Leaves : {p : Arm} (ins : ℕ) → IsValid p → Leaves (fonction_bx p ins)
unfolding fonction_bx
bx-Leaves {p} ins valid =
    let p1 =
      if get_bit ins 0 == 0
      then arm_write_register p 16 (set_bit (arm_read_register p 16) 5)
      else arm_write_register p 16 (clr_bit (arm_read_register p 16) 5) in
    let status = read_register-lt valid 16 in
    let marked : IsValid p1 =
      if_both IsValid (get_bit ins 0 == 0) _ _
        (write_register-IsValid valid 16 _ (set_bit-lt 5 _ (omega arith) status))
        (write_register-IsValid valid 16 _ (clr_bit-lt 5 _ status)) in
    write_register-IsValid marked 15 _ (and-lt 32 _ _ (read_register-lt marked (get_bits ins 3 0)))

merge-lt :
    (old operand mask : ℕ) → old < 2 ^ 32 → mask < 2 ^ 32 → msr_merge old operand mask < 2 ^ 32
unfolding msr_merge
merge-lt old operand mask h k = or-lt 32 _ _ (and-lt 32 old _ h) (and-right-lt 32 operand mask k)

msr-Leaves : (m : Machine) {p : Arm} (ins : ℕ) → IsValid p → Leaves (fonction_msr m p ins)
unfolding fonction_msr
msr-Leaves m {p} ins valid =
    let operand = msr_operand m p ins in
    let masked = λ (k : ℕ) (h : k < 2 ^ 32). and-right-lt 32 (byte_mask ins) k h in
    if_both Leaves (not (bit_and operand 0x0fffff00 == 0)) _ _ valid (
      if_both Leaves (get_bit ins 22 == 0) _ _
        (if_both Leaves (arm_in_a_privileged_mode p) _ _
          (if_both Leaves (not (bit_and operand state_mask == 0)) _ _ valid (
            write_cpsr-IsValid valid _
              (merge-lt _ operand _ (read_cpsr-lt valid) (masked _ (omega arith)))))
          (write_cpsr-IsValid valid _
            (merge-lt _ operand _ (read_cpsr-lt valid) (masked _ (omega arith)))))
        (if_both Leaves (arm_current_mode_has_spsr p) _ _
          (write_spsr-IsValid valid _
            (merge-lt _ operand _ (read_spsr-lt valid) (masked _ (omega arith))))
          valid))

pub miscellaneous-Leaves :
    (m : Machine) {p : Arm} (ins : ℕ) → IsValid p → Leaves (arm_miscellaneous m p ins)
unfolding arm_miscellaneous
miscellaneous-Leaves m {p} ins valid =
    if_both Leaves (not (cond_not_respect p ins == 0)) _ _ valid (
      if_both Leaves _ _ _ (msr-Leaves m ins valid)
        (if_both Leaves (get_bits ins 27 20 == 18) _ _ (bx-Leaves ins valid) valid))
