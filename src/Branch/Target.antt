-- ===== src/Branch/Target.antt =====
-- arm_branch: where a branch goes, and what BL leaves in the link register.
use native.Mathlib.Nat.{div-eq_of_lt}
use projet_l3_inf_bn_zl_rj_r.Prelude.{
  ℕ, ◌+◌, ◌-◌, ◌*◌, ◌/◌, ◌%◌, ◌^◌, ◌<◌, ◌≡◌, ◌≢◌, refl, false, ◌==◌, ltb, if◌then◌else◌, arith,
  some, u32, pos, sub32, bit_and, ◌<<<◌, not, ◌||◌, inl, inr, Bool-cases,
}
use projet_l3_inf_bn_zl_rj_r.Bits.Split.{and-div, and-mod}
use projet_l3_inf_bn_zl_rj_r.Bits.Mask.{and_mask, and-zero, or-zero, or_comm, or_fields}
use projet_l3_inf_bn_zl_rj_r.Util.{get_bit, get_bits, set_bits}
use projet_l3_inf_bn_zl_rj_r.Util.Laws.{get_bit_lem, get_bits_lem}
use projet_l3_inf_bn_zl_rj_r.Registers.{registers_get_mode, registers_write}
use projet_l3_inf_bn_zl_rj_r.Registers.Bank.{place, place_injective}
use projet_l3_inf_bn_zl_rj_r.Core.{Arm, arm_read_register, arm_write_register, cond_not_respect}
use projet_l3_inf_bn_zl_rj_r.Core.Access.{pc_cell, read_pc, write_pc, place-pc, write_register_at}
use projet_l3_inf_bn_zl_rj_r.Branch.{signed_immed, arm_branch}

-- The 24-bit field of the instruction, and the word that it stands for with its sign.
abbrev pub immed : ℕ → ℕ
immed ins = ins % 2 ^ 24

abbrev pub extended : ℕ → ℕ
extended ins = if ltb (immed ins) (2 ^ 23) then immed ins else immed ins + 2 ^ 32 - 2 ^ 24

no_top : (x : ℕ) → x < 2 ^ 24 → bit_and x 0x80000000 ≡ 0
no_top x h =
    let high : bit_and x 0x80000000 / 2 ^ 31 ≡ 0 =
      rw (and-div 31 x 0x80000000, div-eq_of_lt (let h' : x < 2 ^ 31 = omega arith in h')) refl in
    let low : bit_and x 0x80000000 % 2 ^ 31 ≡ 0 =
      rw (and-mod 31 x 0x80000000) (and-zero (x % 2 ^ 31)) in
    omega (arith, high, low)

-- The field of a branch is extended by its sign to 32 bits.
pub signed_immed-extended : (ins : ℕ) → signed_immed ins ≡ extended ins
unfolding signed_immed set_bits
signed_immed-extended ins =
    let x = immed ins in
    let field : get_bits ins 23 0 ≡ x = omega (arith, get_bits_lem ins 23 0 (omega arith)) in
    rw
      (
        field,
        and_mask 24 x,
        no_top x (omega arith),
        or-zero (x % 2 ^ 24),
        or_comm (x % 2 ^ 24) 0xff000000,
        or_fields 24 0xff (x % 2 ^ 24) (omega arith),
      )
      (ground (arith, get_bit_lem ins 23))

-- The link register is not the program counter.
link-pc_cell : (p : Arm) (v : ℕ) → pc_cell (arm_write_register p 14 v) ≡ pc_cell p
unfolding arm_write_register registers_write
link-pc_cell p v = ground arith

-- The state after the link register may have been written.
linked : Arm → ℕ → Arm
linked p ins =
    if not (get_bit ins 24 == 0) || (get_bits ins 31 28 == 15)
    then arm_write_register p 14 (arm_read_register p 15)
    else p

linked-pc_cell : (p : Arm) (ins : ℕ) → pc_cell (linked p ins) ≡ pc_cell p
unfolding linked
linked-pc_cell p ins = elim (Bool-cases (not (get_bit ins 24 == 0) || (get_bits ins 31 28 == 15))) [
  | inl e ↦ rw e (link-pc_cell p (arm_read_register p 15))
  | inr e ↦ rw e refl
]

-- What the code adds to the program counter, and takes off again.
target :
    (pc x : ℕ) → pc < 2 ^ 32 → sub32 (u32 (u32 (pc + 4) + u32 (x * 2 ^ 2))) 4 ≡ u32 (pc + 4 * x)
target pc x h = omega arith

arm_branch_lem :
    (p : Arm) (ins : ℕ)
    → cond_not_respect p ins ≡ 0
    → get_bits ins 31 28 ≢ 15
    → arm_branch p ins ≡ (
      pos 0,
      arm_write_register
          (linked p ins)
          15
          (sub32 (u32 (arm_read_register (linked p ins) 15 + u32 (extended ins <<< 2))) 4),
    )
unfolding arm_branch linked
arm_branch_lem p ins met code =
    let other : (get_bits ins 31 28 == 15) ≡ false = ground arith in
    rw (met, ← signed_immed-extended ins, other) refl

-- A branch that is carried out, with its condition code below 15, from an aligned fetch: the next
-- fetch is at the cell of the program counter, which the fetch has left 4 behind the branch, plus
-- four times the signed field. The ARM manual adds another 4.
pub arm_branch_target :
    (p : Arm) (ins : ℕ)
    → cond_not_respect p ins ≡ 0
    → get_bits ins 31 28 ≢ 15
    → pc_cell p % 4 ≡ 0
    → pc_cell p < 2 ^ 32
    → ((arm_branch p ins).0 ≡ pos 0)
      × (pc_cell (arm_branch p ins).1 ≡ u32 (pc_cell p + 4 * extended ins))
arm_branch_target p ins met code aligned word =
    let same = linked-pc_cell p ins in
    rw
      (
        arm_branch_lem p ins met code,
        write_pc (linked p ins),
        read_pc (linked p ins) (rw same aligned),
        same,
      )
      (refl, target (pc_cell p) (extended ins) word)

-- A branch with link leaves in the link register of the present mode the address that it would
-- have read as the program counter, 8 behind the branch; the ARM manual asks for 4 behind it.
pub arm_branch_link :
    (p : Arm) (ins i : ℕ)
    → cond_not_respect p ins ≡ 0
    → get_bits ins 31 28 ≢ 15
    → get_bit ins 24 ≡ 1
    → pc_cell p % 4 ≡ 0
    → place 14 (registers_get_mode p.reg) ≡ some i
    → (arm_branch p ins).1.reg.registre i ≡ u32 (pc_cell p + 4)
unfolding linked
arm_branch_link p ins i met code link aligned e =
    let apart : i ≢ 15 = λ (h : i ≡ 15). absurd (
      omega (
        arith,
        place_injective 14 _ 15 (registers_get_mode p.reg) 15 (omega arith) (omega arith)
            (rw h at e) (place-pc _),
      )) in
    let one : (get_bit ins 24 == 0) ≡ false = ground arith in
    rw
      (
        arm_branch_lem p ins met code,
        write_pc (linked p ins),
        one,
        write_register_at p 14 (arm_read_register p 15) i e,
        read_pc p aligned,
      )
      (ground arith)
