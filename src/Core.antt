-- ===== src/Core.antt =====
-- arm_core.c: the processor state, its accesses to registers and memory, the fetch and the test
-- of an instruction's condition. The trace calls write to a log and change nothing here.
pub mod Condition
pub mod Access
use projet_l3_inf_bn_zl_rj_r.Prelude.{
  ℕ, ◌+◌, ◌-◌, ◌%◌, ◌^◌, ℤ, pos, Bool, true, false, not, ◌&&◌, ◌||◌, ◌==◌, if◌then◌else◌, Option,
  none, some, ◌>>=◌, List, u8, u32, bit_and,
}
use projet_l3_inf_bn_zl_rj_r.Util.{get_bit, get_bits}
use projet_l3_inf_bn_zl_rj_r.Constants.{usr, pc, flag_n, flag_z, flag_c, flag_v}
use projet_l3_inf_bn_zl_rj_r.Registers.{
  Registers, registers_get_mode, registers_read, registers_write, registers_read_cpsr,
  registers_write_cpsr, registers_read_spsr, registers_write_spsr, registers_current_mode_has_spsr,
  registers_in_a_privileged_mode,
}
use projet_l3_inf_bn_zl_rj_r.Memory.{
  Memory, memory_read_byte, memory_read_half, memory_read_word, memory_write_byte,
  memory_write_half, memory_write_word,
}
use projet_l3_inf_bn_zl_rj_r.Machine.{Machine}

-- `struct arm_core_data`, and the characters that the program has printed, the last one first.
pub record Arm : Type 0 where
  pub cycle_count : ℕ
  pub reg : Registers
  pub mem : Memory
  pub printed : List ℕ

unfoldable pub arm_current_mode_has_spsr : Arm → Bool
arm_current_mode_has_spsr p = registers_current_mode_has_spsr p.reg

unfoldable pub arm_in_a_privileged_mode : Arm → Bool
arm_in_a_privileged_mode p = registers_in_a_privileged_mode p.reg

unfoldable pub arm_get_cycle_count : Arm → ℕ
arm_get_cycle_count p = p.cycle_count

unfoldable pub arm_read_register_internal : Arm → ℕ → ℕ → ℕ
arm_read_register_internal p reg mode =
    let value = registers_read p.reg reg mode in
    if reg == 15 then bit_and (u32 (value + 4)) 0xfffffffd else value

unfoldable pub arm_read_register : Arm → ℕ → ℕ
unfolding arm_read_register_internal
arm_read_register p reg = arm_read_register_internal p reg (registers_get_mode p.reg)

unfoldable pub arm_read_usr_register : Arm → ℕ → ℕ
unfolding arm_read_register_internal
arm_read_usr_register p reg = arm_read_register_internal p reg usr

unfoldable pub arm_read_cpsr : Arm → ℕ
arm_read_cpsr p = registers_read_cpsr p.reg

unfoldable pub arm_read_spsr : Arm → ℕ
arm_read_spsr p = registers_read_spsr p.reg (registers_get_mode p.reg)

unfoldable pub arm_write_register_internal : Arm → ℕ → ℕ → ℕ → Arm
arm_write_register_internal p reg mode value = record p {
  reg = registers_write p.reg reg mode value;
}

unfoldable pub arm_write_register : Arm → ℕ → ℕ → Arm
unfolding arm_write_register_internal
arm_write_register p reg value = arm_write_register_internal p reg (registers_get_mode p.reg) value

unfoldable pub arm_write_usr_register : Arm → ℕ → ℕ → Arm
unfolding arm_write_register_internal
arm_write_usr_register p reg value = arm_write_register_internal p reg usr value

unfoldable pub arm_write_cpsr : Arm → ℕ → Arm
arm_write_cpsr p value = record p { reg = registers_write_cpsr p.reg value }

unfoldable pub arm_write_spsr : Arm → ℕ → Arm
arm_write_spsr p value = record p {
  reg = registers_write_spsr p.reg (registers_get_mode p.reg) value;
}

-- The result and the new content of `*value`; a read changes nothing else.
unfoldable pub arm_read_byte : Arm → ℕ → ℕ → Option (ℤ × ℕ)
arm_read_byte p address value = memory_read_byte p.mem address value

unfoldable pub arm_read_half : Machine → Arm → ℕ → ℕ → Option (ℤ × ℕ)
arm_read_half m p address value = memory_read_half p.mem address value m.endianess

unfoldable pub arm_read_word : Machine → Arm → ℕ → ℕ → Option (ℤ × ℕ)
arm_read_word m p address value = memory_read_word p.mem address value m.endianess

unfoldable pub arm_fetch : Machine → Arm → ℕ → Option (ℤ × ℕ × Arm)
arm_fetch m p value = do
  let mode = registers_get_mode p.reg
  let address = registers_read p.reg 15 mode
  let reg' = registers_write p.reg 15 mode (u32 (address + 4))
  (result, word) ← memory_read_word p.mem address value m.endianess
  some (result, word, record p { cycle_count = u32 (p.cycle_count + 1); reg = reg' })

-- The result of a memory write, with the new memory put into the state.
abbrev pub put_memory : Arm → Option (ℤ × Memory) → Option (ℤ × Arm)
put_memory p none = none
put_memory p (some (result, mem')) = some (result, record p { mem = mem' })

unfoldable pub arm_write_byte : Arm → ℕ → ℕ → Option (ℤ × Arm)
arm_write_byte p address value = put_memory p (memory_write_byte p.mem address value)

unfoldable pub arm_write_half : Machine → Arm → ℕ → ℕ → Option (ℤ × Arm)
arm_write_half m p address value = put_memory p (memory_write_half p.mem address value m.endianess)

unfoldable pub arm_write_word : Machine → Arm → ℕ → ℕ → Option (ℤ × Arm)
arm_write_word m p address value = put_memory p (memory_write_word p.mem address value m.endianess)

-- The switch of `cond_not_respect` over the condition and the flags, 1 where `return 1` is met.
-- Case 13 tests `(flagZ =! 1) && ...`: an assignment of `!1`, which is 0 and so false.
unfoldable pub condition_result : ℕ → ℕ → ℕ → ℕ → ℕ → ℕ
condition_result cond n z c v =
    if cond == 0
    then (if z == 0 then 1 else 0)
    else if cond == 1
    then (if z == 1 then 1 else 0)
    else if cond == 2
    then (if c == 0 then 1 else 0)
    else if cond == 3
    then (if c == 1 then 1 else 0)
    else if cond == 4
    then (if n == 0 then 1 else 0)
    else if cond == 5
    then (if n == 0 then 1 else 0)
    else if cond == 6
    then (if v == 0 then 1 else 0)
    else if cond == 7
    then (if v == 1 then 1 else 0)
    else if cond == 8
    then (if not (c == 1) || not (z == 0) then 1 else 0)
    else if cond == 9
    then (if not (c == 0) && not (z == 1) then 1 else 0)
    else if cond == 10
    then (if not (n == v) then 1 else 0)
    else if cond == 11
    then (if n == v then 1 else 0)
    else if cond == 12
    then (if not (z == 0) || not (n == v) then 1 else 0)
    else if cond == 13
    then (if false && (n == v) then 1 else 0)
    else if cond == 14
    then 0
    else if cond == 15
    then 2
    else 1

unfoldable pub cond_not_respect : Arm → ℕ → ℕ
cond_not_respect p ins =
    let status = arm_read_cpsr p in
    condition_result (u8 (get_bits ins 31 28)) (u8 (get_bit status flag_n))
      (u8 (get_bit status flag_z)) (u8 (get_bit status flag_c)) (u8 (get_bit status flag_v))
