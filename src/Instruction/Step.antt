-- ===== src/Instruction/Step.antt =====
-- arm_step: the fetch, what happens to an instruction whose condition fails, and the software
-- interrupt that ends the simulation.
use projet_l3_inf_bn_zl_rj_r.Prelude.{
  ℕ, ◌+◌, ◌/◌, ◌%◌, ◌^◌, ◌<◌, ◌≡◌, ◌≢◌, refl, Bool, true, false, ◌==◌, ◌&&◌, not, ◌||◌, arith, some,
  pos, u32, sub32,
}
use projet_l3_inf_bn_zl_rj_r.Bits.Mask.{and_mask}
use projet_l3_inf_bn_zl_rj_r.Util.{get_bit}
use projet_l3_inf_bn_zl_rj_r.Util.Laws.{get_bit_lem}
use projet_l3_inf_bn_zl_rj_r.Constants.{reset, end_simulation}
use projet_l3_inf_bn_zl_rj_r.Registers.{registers_read, registers_write, assign}
use projet_l3_inf_bn_zl_rj_r.Memory.{memory_read_word}
use projet_l3_inf_bn_zl_rj_r.Memory.RoundTrip.{memory_read_word_fresh}
use projet_l3_inf_bn_zl_rj_r.Machine.{Machine}
use projet_l3_inf_bn_zl_rj_r.Core.{
  Arm, arm_fetch, cond_not_respect, arm_read_register, arm_write_register, arm_write_cpsr,
  arm_read_word,
}
use projet_l3_inf_bn_zl_rj_r.Core.Access.{pc_cell, read_pc}
use projet_l3_inf_bn_zl_rj_r.Exception.{arm_exception}
use projet_l3_inf_bn_zl_rj_r.DataProcessing.{
  arm_data_processing_immediate_msr, arm_data_processing_shift,
}
use projet_l3_inf_bn_zl_rj_r.Branch.{arm_coprocessor_others_swi}
use projet_l3_inf_bn_zl_rj_r.Instruction.{
  case_0, case_1_first, case_1_second, dispatch, arm_execute_instruction, arm_step,
}
use projet_l3_inf_bn_zl_rj_r.Instruction.Decode.{function_to_use}

-- The state behind a fetch: the program counter 4 further and one more cycle.
abbrev pub fetched : Arm → Arm
fetched p = record p {
  cycle_count = u32 (p.cycle_count + 1);
  reg = assign p.reg 15 (u32 (pc_cell p + 4));
}

-- The fetch that arm_execute_instruction makes, and the word that it finds.
abbrev pub Fetches : Machine → Arm → ℕ → Type 0
Fetches m p ins =
    memory_read_word p.mem (pc_cell p) (u32 (m.stale_word p.cycle_count)) m.endianess
    ≡ some (pos 0, ins)

fetch :
    (m : Machine) (p : Arm) (ins : ℕ)
    → Fetches m p ins
    → arm_fetch m p (u32 (m.stale_word p.cycle_count)) ≡ some (pos 0, ins, fetched p)
unfolding arm_fetch registers_read registers_write
fetch m p ins e = rw e refl

pub execute :
    (m : Machine) (p : Arm) (ins : ℕ)
    → Fetches m p ins
    → arm_execute_instruction m p ≡ dispatch m (fetched p) ins
unfolding arm_execute_instruction
execute m p ins e = rw (fetch m p ins e) refl

-- The encodings that the switch gives to the two data-processing functions.
abbrev pub is_data_processing : ℕ → Bool
is_data_processing ins =
    let extra = (get_bit ins 4 == 1) && (get_bit ins 7 == 1) in
    let misc = (get_bit ins 24 == 1) && (get_bit ins 23 == 0) && (get_bit ins 20 == 0) in
    (ins / 2 ^ 25 % 8 == 0 && not extra && not misc)
    || (ins / 2 ^ 25 % 8 == 1 && (get_bit ins 21 == 1 || not misc))

skipped :
    (m : Machine) (p : Arm) (ins : ℕ)
    → is_data_processing ins ≡ true
    → cond_not_respect p ins ≢ 0
    → dispatch m p ins ≡ some (pos 1, p)
unfolding dispatch case_0 case_1_first case_1_second arm_data_processing_immediate_msr
    arm_data_processing_shift
skipped m p ins class fails =
    let other : (cond_not_respect p ins == 0) ≡ false = ground arith in
    rw (function_to_use ins, other) (ground arith)

-- The exceptions other than the software interrupt.
exception_lem :
    (m : Machine) (p : Arm)
    → arm_exception m p reset ≡ some (pos reset, arm_write_register (arm_write_cpsr p 0x1d3) 15 0)
unfolding arm_exception
exception_lem m p = refl

-- A data-processing instruction whose condition fails is not skipped: its result 1 is the number
-- of the reset exception, so the processor is reset, with the program counter back at 0 and the
-- status register at 0x1d3.
pub arm_step_skipped :
    (m : Machine) (p : Arm) (ins : ℕ)
    → Fetches m p ins
    → is_data_processing ins ≡ true
    → cond_not_respect (fetched p) ins ≢ 0
    → arm_step m p ≡ some (pos reset, arm_write_register (arm_write_cpsr (fetched p) 0x1d3) 15 0)
unfolding arm_step
arm_step_skipped m p ins e class fails =
    rw (execute m p ins e, skipped m (fetched p) ins class fails) (exception_lem m (fetched p))

-- The instruction SWI 0x123456 ends the simulation: from an aligned program counter that is not at
-- the very end of the address space, the step gives 9 and changes nothing but what the fetch does.
pub arm_step_end :
    (m : Machine) (p : Arm) (ins : ℕ)
    → Fetches m p ins
    → pc_cell p % 4 ≡ 0
    → pc_cell p + 8 < 2 ^ 32
    → ins / 2 ^ 24 % 16 ≡ 15
    → ins % 2 ^ 24 ≡ 0x123456
    → arm_step m p ≡ some (pos end_simulation, fetched p)
unfolding arm_step dispatch arm_coprocessor_others_swi arm_exception arm_read_word
arm_step_end m p ins e aligned room swi code =
    let class : ins / 2 ^ 25 % 8 ≡ 7 = omega arith in
    let b24 : get_bit ins 24 ≡ 1 = omega (arith, get_bit_lem ins 24) in
    let here : sub32 (arm_read_register (fetched p) 15) 8 ≡ pc_cell p =
      omega (arith, read_pc (fetched p) (omega arith)) in
    let again =
      memory_read_word_fresh p.mem (pc_cell p) _ (u32 (m.stale_word (u32 (p.cycle_count + 1))))
        m.endianess ins e in
    rw (execute m p ins e, function_to_use ins, class, b24, here, again)
      (rw (and_mask 24 ins, code) refl)
