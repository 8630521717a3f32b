-- ===== src/Instruction.antt =====
-- arm_instruction.c: the decoding of one instruction, and the step of the simulator.
-- The switch of the source carries most `case` labels twice. C refuses that; the model takes the
-- first label of each pair, and control falls through to the second where the code does not return.
pub mod Step
pub mod Decode
pub mod Computes
pub mod Encoded
use projet_l3_inf_bn_zl_rj_r.Prelude.{
  ℕ, ◌+◌, ◌%◌, ◌^◌, ℤ, pos, is_zero, to_u8, Bool, not, ◌&&◌, ◌==◌, if◌then◌else◌, Option, none,
  some, ◌>>=◌, u32, ◌>>>◌, bit_and,
}
use projet_l3_inf_bn_zl_rj_r.Util.{get_bit, get_bits}
use projet_l3_inf_bn_zl_rj_r.Constants.{undefined_instruction}
use projet_l3_inf_bn_zl_rj_r.Machine.{Machine}
use projet_l3_inf_bn_zl_rj_r.Core.{Arm, arm_fetch}
use projet_l3_inf_bn_zl_rj_r.Exception.{arm_exception}
use projet_l3_inf_bn_zl_rj_r.DataProcessing.{
  arm_data_processing_shift, arm_data_processing_immediate_msr,
}
use projet_l3_inf_bn_zl_rj_r.LoadStore.{
  arm_load_store, arm_load_store_multiple, arm_coprocessor_load_store,
}
use projet_l3_inf_bn_zl_rj_r.Branch.{arm_branch, arm_coprocessor_others_swi, arm_miscellaneous}

-- The body of the second `case 1`, on its own.
unfoldable pub case_1_second : Machine → Arm → ℕ → Option (ℤ × Arm)
case_1_second m p ins =
    if (get_bit ins 24 == 1)
      && (get_bit ins 23 == 0)
      && (get_bit ins 21 == 0)
      && (get_bit ins 20 == 0)
    then some (pos undefined_instruction, p)
    else some (arm_data_processing_immediate_msr m p ins)

-- The body of the first `case 1`, which falls through to the second.
unfoldable pub case_1_first : Machine → Arm → ℕ → Option (ℤ × Arm)
case_1_first m p ins =
    if (get_bit ins 24 == 1)
      && (get_bit ins 23 == 0)
      && (get_bit ins 21 == 0)
      && (get_bit ins 20 == 0)
    then (if not (get_bit ins 21 == 0)
        then some (arm_miscellaneous m p ins)
        else some (pos undefined_instruction, p))
    else case_1_second m p ins

unfoldable pub case_3_second : Machine → Arm → ℕ → Option (ℤ × Arm)
case_3_second m p ins =
    if (get_bits ins 24 20 == 0x1f) && (get_bits ins 7 4 == 0xf)
    then some (pos undefined_instruction, p)
    else arm_load_store m p ins

unfoldable pub case_3_first : Machine → Arm → ℕ → Option (ℤ × Arm)
case_3_first m p ins =
    if (get_bits ins 24 20 == 0x1f) && (get_bits ins 7 4 == 0xf)
    then some (pos undefined_instruction, p)
    else case_3_second m p ins

-- The body of `case 0`, whose two tests stand there twice as well.
unfoldable pub case_0 : Machine → Arm → ℕ → Option (ℤ × Arm)
case_0 m p ins =
    let misc = (get_bit ins 24 == 1) && (get_bit ins 23 == 0) && (get_bit ins 20 == 0) in
    let extra = (get_bit ins 4 == 1) && (get_bit ins 7 == 1) in
    if misc
    then some (arm_miscellaneous m p ins)
    else if extra
    then arm_load_store m p ins
    else if misc
    then some (arm_miscellaneous m p ins)
    else if extra
    then arm_load_store m p ins
    else some (arm_data_processing_shift m p ins)

-- The switch, once the instruction is fetched. A value of three bits never meets the `default`.
unfoldable pub dispatch : Machine → Arm → ℕ → Option (ℤ × Arm)
dispatch m p ins =
    let function_to_use = bit_and (ins >>> 25) 7 in
    if function_to_use == 0
    then case_0 m p ins
    else if function_to_use == 1
    then case_1_first m p ins
    else if function_to_use == 2
    then arm_load_store m p ins
    else if function_to_use == 3
    then case_3_first m p ins
    else if function_to_use == 4
    then arm_load_store_multiple m p ins
    else if function_to_use == 5
    then some (arm_branch p ins)
    else if function_to_use == 6
    then some (arm_coprocessor_load_store p ins)
    else if function_to_use == 7
    then some (arm_coprocessor_others_swi p ins)
    else some (ℤ.negsuc 0, p)

-- The result of the fetch is not looked at: `ins` keeps what it held if the read is refused.
unfoldable pub arm_execute_instruction : Machine → Arm → Option (ℤ × Arm)
arm_execute_instruction m p = do
  (_, ins, p') ← arm_fetch m p (u32 (m.stale_word p.cycle_count))
  dispatch m p' ins

unfoldable pub arm_step : Machine → Arm → Option (ℤ × Arm)
arm_step m p = do
  (result, p') ← arm_execute_instruction m p
  if is_zero result then some (result, p') else arm_exception m p' (to_u8 result)
