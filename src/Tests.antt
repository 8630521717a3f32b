-- ===== src/Tests.antt =====
-- The concrete states at which the theorems are applied: a processor in system mode with the
-- program counter at 0 and a memory of 64 bytes that holds a few instructions.
pub mod Storage
pub mod Operations
pub mod Control
pub mod Debugger
pub mod Accesses
pub mod Requests
pub mod Turns
pub mod Steps
pub mod Files
pub mod Sessions
pub mod Options
pub mod Multiple
use projet_l3_inf_bn_zl_rj_r.Prelude.{ℕ, [], pos, ◌==◌, if◌then◌else◌}
use projet_l3_inf_bn_zl_rj_r.Machine.{Machine}
use projet_l3_inf_bn_zl_rj_r.Registers.{Registers}
use projet_l3_inf_bn_zl_rj_r.Memory.{Memory}
use projet_l3_inf_bn_zl_rj_r.Core.{Arm}

-- A big endian build on a processor that takes the amount of a shift modulo 32.
abbrev pub machine : Machine
machine = record {
  endianess = 1;
  oversized_shift = λ x n. x;
  stale_word = λ n. 0;
  stale_second_word = λ n. 0;
  stale_half = λ n. 0;
  stale_byte = λ n. 0;
  stale_result = λ n. pos 0;
}

-- System mode with the flag Z set; every register below 15 holds 8.
abbrev pub bank : Registers
bank = record { registre = λ i. if i == 15 then 0 else if i == 16 then 0x4000001f else 8 }

-- A memory whose first word is `(a << 24) + (b << 16) + (c << 8) + d`, with zeros behind it.
abbrev pub program : ℕ → ℕ → ℕ → ℕ → Memory
program a b c d = record {
  size = 64;
  cells = λ i.
      if i == 0 then a else if i == 1 then b else if i == 2 then c else if i == 3 then d else 0;
}

abbrev pub processor : Memory → Arm
processor mem = record { cycle_count = 0; reg = bank; mem = mem; printed = [] }

abbrev pub arm : Arm
arm = processor (program 0 0 0 0)
