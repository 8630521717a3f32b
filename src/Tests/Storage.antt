-- ===== src/Tests/Storage.antt =====
-- The memory and the registers at concrete values.
use projet_l3_inf_bn_zl_rj_r.Prelude.{
  ◌≡◌, refl, leb, none, pos, none, some, ◌==◌, if◌then◌else◌, arith,
}
use projet_l3_inf_bn_zl_rj_r.Memory.{Memory, memory_read_word, memory_write_word, minus_one}
use projet_l3_inf_bn_zl_rj_r.Memory.RoundTrip.{
  memory_read_word-write_word, memory_read_word_outside,
}
use projet_l3_inf_bn_zl_rj_r.Constants.{svc, fiq}
use projet_l3_inf_bn_zl_rj_r.Registers.{registers_read, registers_write}
use projet_l3_inf_bn_zl_rj_r.Registers.Bank.{place, private_bank, registers_read-write}
use projet_l3_inf_bn_zl_rj_r.Tests.{bank, program}

abbrev area : Memory
area = program 1 2 3 4

memory_read_word-write_word_example :
    (mem' : Memory) × (memory_write_word area 60 0xe1a00001 0 ≡ some (pos 0, mem'))
    × (memory_read_word mem' 60 7 0 ≡ some (pos 0, 0xe1a00001))
memory_read_word-write_word_example =
    memory_read_word-write_word area 60 0xe1a00001 0 7 (omega arith) (omega arith) (omega arith)

memory_read_word_outside_example :
    memory_read_word area 62 7 1 ≡ (if leb 64 62 then some (minus_one, 7) else none)
memory_read_word_outside_example = memory_read_word_outside area 62 7 1 (omega arith) (omega arith)

registers_read-write_example :
    registers_read (registers_write bank 13 svc 5) 13 fiq
    ≡ (if 34 == 17 then 5 else registers_read bank 13 fiq)
unfolding place private_bank
registers_read-write_example = registers_read-write bank 13 svc 5 13 fiq 17 34 refl refl
