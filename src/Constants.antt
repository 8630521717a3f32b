-- ===== src/Constants.antt =====
-- arm_constants.h, the register numbers of registers.h, and arm_constants.c.
use projet_l3_inf_bn_zl_rj_r.Prelude.{ℕ}

-- Processor modes.
abbrev pub usr : ℕ
usr = 0x10

abbrev pub fiq : ℕ
fiq = 0x11

abbrev pub irq : ℕ
irq = 0x12

abbrev pub svc : ℕ
svc = 0x13

abbrev pub abt : ℕ
abt = 0x17

abbrev pub und : ℕ
und = 0x1b

abbrev pub sys : ℕ
sys = 0x1f

-- Exceptions, which the instructions also use as their results.
abbrev pub reset : ℕ
reset = 1

abbrev pub data_abort : ℕ
data_abort = 2

abbrev pub undefined_instruction : ℕ
undefined_instruction = 7

abbrev pub interrupt : ℕ
interrupt = 4

abbrev pub software_interrupt : ℕ
software_interrupt = 8

abbrev pub end_simulation : ℕ
end_simulation = 9

-- Bits of the status register.
abbrev pub flag_n : ℕ
flag_n = 31

abbrev pub flag_z : ℕ
flag_z = 30

abbrev pub flag_c : ℕ
flag_c = 29

abbrev pub flag_v : ℕ
flag_v = 28

-- Kinds of shift.
abbrev pub lsl : ℕ
lsl = 0

abbrev pub lsr : ℕ
lsr = 1

abbrev pub asr : ℕ
asr = 2

abbrev pub ror : ℕ
ror = 3

-- Masks for MSR.
abbrev pub unalloc_mask : ℕ
unalloc_mask = 0x0fffff00

abbrev pub user_mask : ℕ
user_mask = 0xf0000000

abbrev pub priv_mask : ℕ
priv_mask = 0x0000000f

abbrev pub state_mask : ℕ
state_mask = 0x00000020

-- Places in the register array of registers.h that the code names.
abbrev pub pc : ℕ
pc = 15

abbrev pub cpsr : ℕ
cpsr = 16

abbrev pub prefetch_abort : ℕ
prefetch_abort = 6
