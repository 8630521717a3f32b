-- ===== src/Simulator.antt =====
-- arm_simulator.c: the start of the simulator, and the turns that its two threads take. A handler of
-- gdb and an interrupt hold the lock while they use the processor. The sockets are left
-- out; Simulator/Options has the options.
pub mod Safety
pub mod Options
pub mod Settings
pub mod Applies
pub mod Loop
use projet_l3_inf_bn_zl_rj_r.Prelude.{ℕ, ◌<◌, ◌≡◌, true, List, [], Option, none, some, ◌>>=◌}
use projet_l3_inf_bn_zl_rj_r.Machine.{Machine}
use projet_l3_inf_bn_zl_rj_r.Registers.{Registers, registers_create}
use projet_l3_inf_bn_zl_rj_r.Memory.{Memory, Created, memory_create}
use projet_l3_inf_bn_zl_rj_r.Core.{Arm}
use projet_l3_inf_bn_zl_rj_r.Exception.{arm_create, arm_exception}
use projet_l3_inf_bn_zl_rj_r.Gdb.{Gdb, gdb_init_data}
use projet_l3_inf_bn_zl_rj_r.Scanner.{Parser, Token, act, handle_error}

-- The size of the memory that `main` asks for.
abbrev pub memory_size : ℕ
memory_size = 0x8000

-- `main` up to the start of the threads, where each `malloc` succeeds: `words` and `bytes` are what
-- it leaves in the registers and in the memory.
unfoldable pub launch : Machine → (ℕ → ℕ) → (ℕ → ℕ) → Option Arm
launch m words bytes = elim (memory_create true (some bytes) memory_size) [
  | Created.made mem ↦ arm_create m (registers_create words) mem
  | Created.null ↦ none
  | Created.dangling ↦ none
]

-- What the thread of gdb starts with, on the processor of `main`; `content` is left by `malloc` too.
abbrev pub connect : Arm → (ℕ → ℕ) → Parser
connect arm content = record { gdb = gdb_init_data arm content; buffer = [] }

-- A byte that the thread of interrupts reads.
unfoldable pub irq_listener : Machine → Parser → ℕ → Option Parser
irq_listener m parser irq = do
  (_, arm') ← arm_exception m parser.gdb.arm irq
  some (record parser { gdb = record parser.gdb { arm = arm' } })

-- The states that the turns of the two threads reach: a token that the scanner has found, with any
-- fuel for `cont`, the end of the input, and an interrupt.
pub data Reaches (m : Machine) (start : Parser) : Parser → Type 0 where
  begin : Reaches m start start
  token :
      {p q : Parser} (fuel : ℕ) (t : Token)
      → Reaches m start p
      → act fuel m p t ≡ some q
      → Reaches m start q
  end_of_input : {p q : Parser} → Reaches m start p → handle_error p ≡ some q → Reaches m start q
  interrupt :
      {p q : Parser} (irq : ℕ)
      → Reaches m start p
      → irq_listener m p irq ≡ some q
      → Reaches m start q
