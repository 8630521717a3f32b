-- ===== src/Valid/Step.antt =====
-- Steps, interrupts and the first state, and whether they are well-formed.
use projet_l3_inf_bn_zl_rj_r.Prelude.{
  if_both, ℕ, ◌+◌, ◌^◌, ◌<◌, ◌≡◌, refl, ◌==◌, ◌&&◌, arith, some, [], ℤ, is_zero, to_u8, u32, sub32,
  bit_and, ◌>>>◌,
}
use projet_l3_inf_bn_zl_rj_r.Util.{get_bit, get_bits}
use projet_l3_inf_bn_zl_rj_r.Constants.{reset, software_interrupt}
use projet_l3_inf_bn_zl_rj_r.Registers.{
  Registers, registers_read, registers_get_mode, registers_write, registers_write_cpsr,
}
use projet_l3_inf_bn_zl_rj_r.Memory.{Memory, memory_read_word, memory_get_size}
use projet_l3_inf_bn_zl_rj_r.Machine.{Machine}
use projet_l3_inf_bn_zl_rj_r.Core.{
  Arm, arm_fetch, arm_read_register, arm_write_register, arm_read_word, arm_write_cpsr,
}
use projet_l3_inf_bn_zl_rj_r.Exception.{take_exception, arm_exception, arm_create, reset_cpsr}
use projet_l3_inf_bn_zl_rj_r.Branch.{arm_coprocessor_others_swi}
use projet_l3_inf_bn_zl_rj_r.LoadStore.{arm_coprocessor_load_store}
use projet_l3_inf_bn_zl_rj_r.Instruction.{
  case_0, case_1_first, case_1_second, case_3_first, case_3_second, dispatch,
  arm_execute_instruction, arm_step,
}
use projet_l3_inf_bn_zl_rj_r.Instruction.Decode.{case_first-second}
use projet_l3_inf_bn_zl_rj_r.Valid.{IsValid, Ensures, Ensures-bind, anything, Leaves}
use projet_l3_inf_bn_zl_rj_r.Valid.Access.{
  AreBytes, registers_write-AreWords, write_register-IsValid, write_cpsr-IsValid,
}
use projet_l3_inf_bn_zl_rj_r.Valid.Data.{
  data_processing_shift-Leaves, data_processing_immediate-Leaves, branch-Leaves,
  miscellaneous-Leaves,
}
use projet_l3_inf_bn_zl_rj_r.Valid.Transfer.{load_store-Ensures, load_store_multiple-Ensures}

take_exception-Leaves : {p : Arm} (exception : ℕ) → IsValid p → Leaves (take_exception p exception)
unfolding take_exception reset_cpsr
take_exception-Leaves {p} exception valid =
    if_both IsValid (exception == reset) _ _
      (write_register-IsValid (write_cpsr-IsValid valid 0x1d3 (omega arith)) 15 0 (omega arith))
      valid

module _ (m : Machine) where
  -- Raising an exception, from a well-formed state, leaves a well-formed one.
  pub exception-Ensures :
      {p : Arm} (exception : ℕ) → IsValid p → Ensures Leaves (arm_exception m p exception)
  unfolding arm_exception
  exception-Ensures {p} exception valid =
      if_both (Ensures Leaves) (exception == software_interrupt) _ _
        (Ensures-bind (λ r. Unit {0}) Leaves
          (arm_read_word m p (sub32 (arm_read_register p 15) 8) (u32 (m.stale_word p.cycle_count)))
          _ (anything _)
          λ r _. if_both (Ensures Leaves) (bit_and r.1 0xffffff == 0x123456) _ _ valid (
            if_both (Ensures Leaves) (bit_and r.1 0xffffff == 1) _ _
              (record { words = valid.words; bytes = valid.bytes; cycles = valid.cycles })
              (take_exception-Leaves exception valid)))
        (take_exception-Leaves exception valid)

  abbrev Fetched : ℤ × ℕ × Arm → Type 0
  Fetched r = IsValid r.2

  fetch-Ensures : {p : Arm} (old : ℕ) → IsValid p → Ensures Fetched (arm_fetch m p old)
  unfolding arm_fetch
  fetch-Ensures {p} old valid =
      let mode = registers_get_mode p.reg in
      let address = registers_read p.reg 15 mode in
      Ensures-bind (λ r. Unit {0}) Fetched (memory_read_word p.mem address old m.endianess) _
        (anything _)
        λ r _. record {
          words =
              registers_write-AreWords p.reg 15 mode (u32 (address + 4)) valid.words (omega arith);
          bytes = valid.bytes;
          cycles = omega arith;
        }

  case_0-Ensures : {p : Arm} (ins : ℕ) → IsValid p → Ensures Leaves (case_0 m p ins)
  unfolding case_0
  case_0-Ensures {p} ins valid =
      let misc = (get_bit ins 24 == 1) && (get_bit ins 23 == 0) && (get_bit ins 20 == 0) in
      let extra = (get_bit ins 4 == 1) && (get_bit ins 7 == 1) in
      let other = miscellaneous-Leaves m ins valid in
      let access = load_store-Ensures m ins valid in
      if_both (Ensures Leaves) misc _ _ other (
        if_both (Ensures Leaves) extra _ _ access (
          if_both (Ensures Leaves) misc _ _ other
            (if_both (Ensures Leaves) extra _ _ access (data_processing_shift-Leaves m ins valid))))

  case_1-Ensures : {p : Arm} (ins : ℕ) → IsValid p → Ensures Leaves (case_1_first m p ins)
  unfolding case_1_second
  case_1-Ensures {p} ins valid =
      let undefined =
        (get_bit ins 24 == 1)
        && (get_bit ins 23 == 0)
        && (get_bit ins 21 == 0)
        && (get_bit ins 20 == 0) in
      rw ((case_first-second m p ins).0) (
        if_both (Ensures Leaves) undefined _ _ valid (data_processing_immediate-Leaves m ins valid))

  case_3-Ensures : {p : Arm} (ins : ℕ) → IsValid p → Ensures Leaves (case_3_first m p ins)
  unfolding case_3_second
  case_3-Ensures {p} ins valid = rw ((case_first-second m p ins).1) (
      if_both (Ensures Leaves) ((get_bits ins 24 20 == 0x1f) && (get_bits ins 7 4 == 0xf)) _ _ valid
        (load_store-Ensures m ins valid))

  dispatch-Ensures : {p : Arm} (ins : ℕ) → IsValid p → Ensures Leaves (dispatch m p ins)
  unfolding dispatch arm_coprocessor_load_store arm_coprocessor_others_swi
  dispatch-Ensures {p} ins valid =
      let f = bit_and (ins >>> 25) 7 in
      if_both (Ensures Leaves) (f == 0) _ _ (case_0-Ensures ins valid) (
        if_both (Ensures Leaves) (f == 1) _ _ (case_1-Ensures ins valid) (
          if_both (Ensures Leaves) (f == 2) _ _ (load_store-Ensures m ins valid) (
            if_both (Ensures Leaves) (f == 3) _ _ (case_3-Ensures ins valid) (
              if_both (Ensures Leaves) (f == 4) _ _ (load_store_multiple-Ensures m ins valid) (
                if_both (Ensures Leaves) (f == 5) _ _ (branch-Leaves ins valid) (
                  if_both (Ensures Leaves) (f == 6) _ _ valid
                    (if_both (Ensures Leaves) (f == 7) _ _ valid valid)))))))

  -- One step of the simulator, from a well-formed state, leaves a well-formed one, whatever the
  -- instruction is and whatever the variables held that the code reads unassigned.
  pub arm_step-Ensures : {p : Arm} → IsValid p → Ensures Leaves (arm_step m p)
  unfolding arm_step arm_execute_instruction
  arm_step-Ensures {p} valid =
      Ensures-bind Leaves Leaves (arm_execute_instruction m p) _
        (Ensures-bind Fetched Leaves (arm_fetch m p (u32 (m.stale_word p.cycle_count))) _
          (fetch-Ensures _ valid) λ r v. dispatch-Ensures r.1 v)
        λ r v. if_both (Ensures Leaves) (is_zero r.0) _ _ v (exception-Ensures (to_u8 r.0) v)

creation :
    (registers : Registers) (mem : Memory)
    → let raw : Arm = record { cycle_count = 0; reg = registers; mem = mem; printed = [] } in
      let made = arm_write_register (take_exception raw reset).1 13 (u32 (memory_get_size mem)) in
      (made.reg.registre 15 ≡ 0)
      × (made.reg.registre 16 ≡ 0x1d3)
      × (made.reg.registre 17 ≡ u32 mem.size)
unfolding take_exception reset_cpsr arm_write_register arm_write_cpsr registers_write
    registers_write_cpsr registers_get_mode memory_get_size
creation registers mem = (refl, refl, refl)

-- `arm_create` gives a well-formed state, whatever words and bytes `malloc` has left, with the
-- program counter at 0, the status register 0x1d3 of supervisor mode with interrupts masked, and
-- the memory's size in the stack pointer of that mode.
pub arm_create_lem :
    (m : Machine) (registers : Registers) (mem : Memory)
    → ((i : ℕ) → registers.registre i < 2 ^ 32)
    → AreBytes mem
    → (p : Arm) × (arm_create m registers mem ≡ some p)
      × IsValid p
      × (p.reg.registre 15 ≡ 0)
      × (p.reg.registre 16 ≡ 0x1d3)
      × (p.reg.registre 17 ≡ u32 mem.size)
unfolding arm_create arm_exception
arm_create_lem m registers mem words bytes =
    let raw : Arm = record { cycle_count = 0; reg = registers; mem = mem; printed = [] } in
    let valid : IsValid raw = record { words = words; bytes = bytes; cycles = omega arith } in
    let after = (take_exception raw reset).1 in
    let made = arm_write_register after 13 (u32 (memory_get_size mem)) in
    let created = creation registers mem in
    (
      made,
      refl,
      write_register-IsValid (take_exception-Leaves reset valid) 13 _ (omega arith),
      created.0,
      created.1,
      created.2,
    )
