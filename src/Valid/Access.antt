-- ===== src/Valid/Access.antt =====
-- The widths after accesses to registers, status registers and memory.
use projet_l3_inf_bn_zl_rj_r.Prelude.{
  if_both, ℕ, zero, suc, ◌+◌, ◌-◌, ◌^◌, ◌<◌, ◌==◌, leb, ltb, arith, Option, none, some, ℤ, bit_and,
  u8, u16, u32, ◌<<<◌, inl, inr, Bool-cases,
}
use projet_l3_inf_bn_zl_rj_r.Bits.Mask.{and-le}
use projet_l3_inf_bn_zl_rj_r.Util.{reverse_2, reverse_4}
use projet_l3_inf_bn_zl_rj_r.Util.Laws.{reverse_2_lem, reverse_4_lem}
use projet_l3_inf_bn_zl_rj_r.Registers.{
  Registers, registers_get_mode, registers_read, registers_write, registers_write_cpsr,
  registers_write_spsr, registers_read_spsr, registers_read_cpsr, assign,
}
use projet_l3_inf_bn_zl_rj_r.Registers.Bank.{
  read_at, write_at, registers_read-read_at, registers_write-write_at,
}
use projet_l3_inf_bn_zl_rj_r.Memory.{
  Memory, load, store, gather, scatter, memory_read_byte, memory_read_half, memory_read_word,
  memory_write_byte, memory_write_half, memory_write_word, byte_out,
}
use projet_l3_inf_bn_zl_rj_r.Core.{
  Arm, arm_read_register, arm_write_register, arm_read_cpsr, arm_write_cpsr, arm_read_spsr,
  arm_write_spsr, put_memory,
}
use projet_l3_inf_bn_zl_rj_r.Valid.{IsValid, Ensures, Ensures-bind, anything, Leaves}

abbrev AreWords : Registers → Type 0
AreWords r = (i : ℕ) → r.registre i < 2 ^ 32

abbrev pub AreBytes : Memory → Type 0
AreBytes mem = (i : ℕ) → mem.cells i < 2 ^ 8

assign-AreWords : (r : Registers) (i v : ℕ) → AreWords r → v < 2 ^ 32 → AreWords (assign r i v)
assign-AreWords r i v h small j = if_both (λ x. x < 2 ^ 32) (j == i) v (r.registre j) small (h j)

write_at-AreWords :
    (r : Registers) (o : Option ℕ) (v : ℕ) → AreWords r → v < 2 ^ 32 → AreWords (write_at r o v)
unfolding write_at
write_at-AreWords r none v h small = h
write_at-AreWords r (some i) v h small = assign-AreWords r i v h small

read_at-lt : (r : Registers) (o : Option ℕ) → AreWords r → read_at r o < 2 ^ 32
unfolding read_at
read_at-lt r none h = omega arith
read_at-lt r (some i) h = h i

pub registers_read-lt :
    (r : Registers) (reg mode : ℕ) → AreWords r → registers_read r reg mode < 2 ^ 32
registers_read-lt r reg mode h = rw (registers_read-read_at r reg mode) (read_at-lt r _ h)

pub registers_write-AreWords :
    (r : Registers) (reg mode v : ℕ)
    → AreWords r
    → v < 2 ^ 32
    → AreWords (registers_write r reg mode v)
registers_write-AreWords r reg mode v h small =
    rw (registers_write-write_at r reg mode v) (write_at-AreWords r _ v h small)

module _ {p : Arm} (valid : IsValid p) where
  pub read_register-lt : (reg : ℕ) → arm_read_register p reg < 2 ^ 32
  unfolding arm_read_register
  read_register-lt reg =
      let v = registers_read p.reg reg (registers_get_mode p.reg) in
      if_both (λ x. x < 2 ^ 32) (reg == 15) (bit_and (u32 (v + 4)) 0xfffffffd) v
        (omega (arith, and-le (u32 (v + 4)) 0xfffffffd)) (registers_read-lt p.reg reg _ valid.words)

  pub read_cpsr-lt : arm_read_cpsr p < 2 ^ 32
  unfolding arm_read_cpsr registers_read_cpsr
  read_cpsr-lt = valid.words 16

  pub read_spsr-lt : arm_read_spsr p < 2 ^ 32
  unfolding arm_read_spsr registers_read_spsr registers_read
  read_spsr-lt = registers_read-lt p.reg 17 (registers_get_mode p.reg) valid.words

  with_registers : (r : Registers) → AreWords r → IsValid (record p { reg = r })
  with_registers r h = record { words = h; bytes = valid.bytes; cycles = valid.cycles }

  pub write_register-IsValid : (reg v : ℕ) → v < 2 ^ 32 → IsValid (arm_write_register p reg v)
  unfolding arm_write_register
  write_register-IsValid reg v small =
      with_registers _ (registers_write-AreWords p.reg reg _ v valid.words small)

  pub write_cpsr-IsValid : (v : ℕ) → v < 2 ^ 32 → IsValid (arm_write_cpsr p v)
  unfolding arm_write_cpsr registers_write_cpsr
  write_cpsr-IsValid v small = with_registers _ (assign-AreWords p.reg 16 v valid.words small)

  pub write_spsr-IsValid : (v : ℕ) → v < 2 ^ 32 → IsValid (arm_write_spsr p v)
  unfolding arm_write_spsr registers_write_spsr registers_write
  write_spsr-IsValid v small =
      with_registers _
        (registers_write-AreWords p.reg 17 (registers_get_mode p.reg) v valid.words small)

  with_memory : (mem : Memory) → AreBytes mem → IsValid (record p { mem = mem })
  with_memory mem h = record { words = valid.words; bytes = h; cycles = valid.cycles }

-- The reads give values of the width that they have in C.
load-Ensures : (mem : Memory) (i : ℕ) → AreBytes mem → Ensures (λ b. b < 2 ^ 8) (load mem i)
unfolding load
load-Ensures mem i h = elim (Bool-cases (ltb i mem.size)) [ inl e ↦ rw e (h i) | inr e ↦ rw e tt ]

gather-Ensures :
    (mem : Memory) (address rounds tmp : ℕ)
    → tmp < 2 ^ 32
    → Ensures (λ w. w < 2 ^ 32) (gather mem address rounds tmp)
unfolding gather
gather-Ensures mem address zero tmp small = small
gather-Ensures mem address (suc rounds) tmp small =
    Ensures-bind (λ b. Unit {0}) _ (load mem (u32 (address + (3 - rounds)))) _ (anything _)
      λ b _. gather-Ensures mem address rounds _ (omega arith)

abbrev pub Below : ℕ → ℤ × ℕ → Type 0
Below k r = r.1 < 2 ^ k

pub read_word-Ensures :
    (mem : Memory) (address old be : ℕ)
    → old < 2 ^ 32
    → Ensures (Below 32) (memory_read_word mem address old be)
unfolding memory_read_word
read_word-Ensures mem address old be small =
    if_both (Ensures (Below 32)) (leb mem.size address) _ _ small (
      Ensures-bind _ _ (gather mem address 4 0) _ (gather-Ensures mem address 4 0 (omega arith))
        λ w fits.
          if_both (λ x. x < 2 ^ 32) (be == 0) (reverse_4 w) w (omega (arith, reverse_4_lem w)) fits)

pub read_half-Ensures :
    (mem : Memory) (address old be : ℕ)
    → old < 2 ^ 16
    → Ensures (Below 16) (memory_read_half mem address old be)
unfolding memory_read_half
read_half-Ensures mem address old be small =
    if_both (Ensures (Below 16)) (leb mem.size address) _ _ small (
      Ensures-bind (λ b. Unit {0}) _ (load mem (u32 (address + 1))) _ (anything _)
        λ low _.
          Ensures-bind (λ b. Unit {0}) _ (load mem address) _ (anything _)
            λ high _.
              let w = u16 (low + high <<< 8) in
              if_both (λ x. x < 2 ^ 16) (be == 0) (reverse_2 w) w (omega (arith, reverse_2_lem w))
                (omega arith))

pub read_byte-Ensures :
    (mem : Memory) (address old : ℕ)
    → AreBytes mem
    → old < 2 ^ 8
    → Ensures (Below 8) (memory_read_byte mem address old)
unfolding memory_read_byte
read_byte-Ensures mem address old h small =
    if_both (Ensures (Below 8)) (leb mem.size address) _ _ small
      (Ensures-bind _ _ (load mem address) _ (load-Ensures mem address h) λ b fits. fits)

-- The writes keep the bytes below 256, since a store cuts its value.
store-Ensures : (mem : Memory) (i v : ℕ) → AreBytes mem → Ensures AreBytes (store mem i v)
unfolding store
store-Ensures mem i v h =
    if_both (Ensures AreBytes) (ltb i mem.size) _ _
      (λ j. if_both (λ x. x < 2 ^ 8) (j == i) (u8 v) (mem.cells j) (omega arith) (h j)) tt

scatter-Ensures :
    (be width address value i rounds : ℕ) (mem : Memory)
    → AreBytes mem
    → Ensures AreBytes (scatter be width address value i rounds mem)
unfolding scatter
scatter-Ensures be width address value i zero mem h = h
scatter-Ensures be width address value i (suc rounds) mem h =
    Ensures-bind _ _ (store mem (u32 (address + i)) (byte_out be width value i)) _
      (store-Ensures mem _ _ h)
      λ mem' h'. scatter-Ensures be width address value (i + 1) rounds mem' h'

abbrev pub LeavesBytes : ℤ × Memory → Type 0
LeavesBytes r = AreBytes r.1

pub write_word-Ensures :
    (mem : Memory) (address value be : ℕ)
    → AreBytes mem
    → Ensures LeavesBytes (memory_write_word mem address value be)
unfolding memory_write_word
write_word-Ensures mem address value be h =
    if_both (Ensures LeavesBytes) (leb mem.size address) _ _ h (
      Ensures-bind _ _ (scatter be 4 address value 0 4 mem) _
        (scatter-Ensures be 4 address value 0 4 mem h) λ mem' h'. h')

pub write_half-Ensures :
    (mem : Memory) (address value be : ℕ)
    → AreBytes mem
    → Ensures LeavesBytes (memory_write_half mem address value be)
unfolding memory_write_half
write_half-Ensures mem address value be h =
    if_both (Ensures LeavesBytes) (leb mem.size address) _ _ h (
      Ensures-bind _ _ (scatter be 2 address value 0 2 mem) _
        (scatter-Ensures be 2 address value 0 2 mem h) λ mem' h'. h')

pub write_byte-Ensures :
    (mem : Memory) (address value : ℕ)
    → AreBytes mem
    → Ensures LeavesBytes (memory_write_byte mem address value)
unfolding memory_write_byte
write_byte-Ensures mem address value h =
    if_both (Ensures LeavesBytes) (leb mem.size address) _ _ h (
      Ensures-bind _ _ (store mem address value) _ (store-Ensures mem address value h)
        λ mem' h'. h')

pub put_memory-Ensures :
    {p : Arm}
    → IsValid p
    → (o : Option (ℤ × Memory)) → Ensures LeavesBytes o
    → Ensures Leaves (put_memory p o)
put_memory-Ensures valid none h = tt
put_memory-Ensures valid (some (result, mem')) h = with_memory valid mem' h
