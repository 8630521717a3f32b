-- ===== src/Exception.antt =====
-- arm_exception.c, and `arm_create` of arm_core.c, which raises the first reset.
use projet_l3_inf_bn_zl_rj_r.Prelude.{
  ℕ, ℤ, pos, ◌==◌, if◌then◌else◌, Option, some, ◌>>=◌, [], ◌∷◌, u8, u32, sub32, bit_or, bit_and,
  ◌<<<◌,
}
use projet_l3_inf_bn_zl_rj_r.Constants.{reset, software_interrupt, end_simulation}
use projet_l3_inf_bn_zl_rj_r.Registers.{Registers}
use projet_l3_inf_bn_zl_rj_r.Memory.{Memory, memory_get_size}
use projet_l3_inf_bn_zl_rj_r.Machine.{Machine}
use projet_l3_inf_bn_zl_rj_r.Core.{
  Arm, arm_read_register, arm_write_register, arm_write_cpsr, arm_read_word,
}

-- `0x1d3 | Exception_bit_9`, where the bit is `0 << 9`: supervisor mode, interrupts masked.
unfoldable pub reset_cpsr : ℕ
reset_cpsr = bit_or 0x1d3 (0 <<< 9)

-- The last part of `arm_exception`: a reset, and the exception itself as the result.
unfoldable pub take_exception : Arm → ℕ → ℤ × Arm
unfolding reset_cpsr
take_exception p exception = (
  pos exception,
  if exception == reset then arm_write_register (arm_write_cpsr p reset_cpsr) 15 0 else p,
)

-- The argument is a `uint8_t`. The instruction word is what the variable held if the read of the
-- software interrupt's own instruction is refused.
unfoldable pub arm_exception : Machine → Arm → ℕ → Option (ℤ × Arm)
unfolding take_exception
arm_exception m p exception =
    if exception == software_interrupt
    then (do
      let address = sub32 (arm_read_register p 15) 8
      (_, word) ← arm_read_word m p address (u32 (m.stale_word p.cycle_count))
      let instruction = bit_and word 0xffffff
      if instruction == 0x123456
          then some (pos end_simulation, p)
          else if instruction == 1
          then some (pos 0, record p { printed = u8 (arm_read_register p 0) ∷ p.printed })
          else some (take_exception p exception))
    else some (take_exception p exception)

-- `malloc` is taken to succeed; the reset never reads memory. Its result is not looked at.
unfoldable pub arm_create : Machine → Registers → Memory → Option Arm
unfolding arm_exception
arm_create m registers mem = do
  let p : Arm = record { cycle_count = 0; reg = registers; mem = mem; printed = [] }
  (_, p') ← arm_exception m p reset
  some (arm_write_register p' 13 (u32 (memory_get_size mem)))
