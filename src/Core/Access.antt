-- ===== src/Core/Access.antt =====
-- The registers that the instructions read and write through arm_core.c, above all the program
-- counter, which reads 4 ahead of its cell.
use projet_l3_inf_bn_zl_rj_r.Prelude.{
  ℕ, ◌+◌, ◌*◌, ◌/◌, ◌%◌, ◌^◌, ◌<◌, ◌≡◌, ◌≢◌, refl, arith, some, bit_and, u32,
}
use projet_l3_inf_bn_zl_rj_r.Bits.Digit.{and_step}
use projet_l3_inf_bn_zl_rj_r.Bits.Mask.{and_mask}
use projet_l3_inf_bn_zl_rj_r.Registers.{registers_get_mode, registers_read, assign}
use projet_l3_inf_bn_zl_rj_r.Registers.Bank.{
  place, read_at, write_at, registers_read-read_at, registers_write-write_at,
}
use projet_l3_inf_bn_zl_rj_r.Core.{Arm, arm_read_register, arm_write_register}

-- `x & 0xFFFFFFFD` clears bit 1.
clear_bit_1 : (x : ℕ) → x < 2 ^ 32 → bit_and x 0xfffffffd ≡ x / 4 * 4 + x % 2
clear_bit_1 x h =
    omega (arith, and_step x 0xfffffffd, and_step (x / 2) 0x7ffffffe, and_mask 30 (x / 2 / 2))

-- The cell of the program counter, which is the same in every mode.
abbrev pub pc_cell : Arm → ℕ
pc_cell p = p.reg.registre 15

pub read_pc : (p : Arm) → pc_cell p % 4 ≡ 0 → arm_read_register p 15 ≡ u32 (pc_cell p + 4)
unfolding arm_read_register registers_read
read_pc p aligned = omega (arith, clear_bit_1 (u32 (pc_cell p + 4)) (omega arith))

-- A register other than the program counter is read from its place.
pub read_register_at :
    (p : Arm) (reg i : ℕ)
    → reg ≢ 15
    → place reg (registers_get_mode p.reg) ≡ some i
    → arm_read_register p reg ≡ p.reg.registre i
unfolding arm_read_register read_at
read_register_at p reg i ne e =
    ground (arith, registers_read-read_at p.reg reg (registers_get_mode p.reg))

-- A write changes the cell of the register in the present mode, and nothing else.
pub write_register_at :
    (p : Arm) (reg value i : ℕ)
    → place reg (registers_get_mode p.reg) ≡ some i
    → arm_write_register p reg value ≡ record p { reg = assign p.reg i value }
unfolding arm_write_register write_at
write_register_at p reg value i e =
    rw (registers_write-write_at p.reg reg (registers_get_mode p.reg) value, e) refl

pub place-pc : (mode : ℕ) → place 15 mode ≡ some 15
unfolding place
place-pc mode = refl

pub write_pc :
    (p : Arm) (value : ℕ) → arm_write_register p 15 value ≡ record p { reg = assign p.reg 15 value }
write_pc p value = write_register_at p 15 value 15 (place-pc _)
