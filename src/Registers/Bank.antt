-- ===== src/Registers/Bank.antt =====
-- The register file as one array behind a choice of place, for the two switches of registers.c that
-- read and write it.
use projet_l3_inf_bn_zl_rj_r.Prelude.{
  ℕ, ◌+◌, ◌-◌, ◌≤◌, ◌<◌, ◌≡◌, ◌≢◌, refl, true, ◌&&◌, ◌||◌, ◌==◌, leb, if◌then◌else◌, Option, none,
  some, arith, sym, ◌∙◌, inl, inr, Option-cases,
}
use projet_l3_inf_bn_zl_rj_r.Constants.{usr, fiq, irq, svc, abt, und, sys}
use projet_l3_inf_bn_zl_rj_r.Registers.{Registers, assign, registers_read, registers_write}

-- Where the private registers 13, 14 and SPSR of a mode begin.
unfoldable pub private_bank : ℕ → Option ℕ
private_bank mode =
    if mode == svc
    then some 17
    else if mode == abt
    then some 20
    else if mode == und
    then some 23
    else if mode == irq
    then some 26
    else if mode == fiq
    then some 34
    else none

-- Where a register of a mode stands in the array: `none` if it has no place.
unfoldable pub place : ℕ → ℕ → Option ℕ
place reg mode =
    if leb 8 reg && leb reg 12
    then some (if mode == fiq then reg + 21 else reg)
    else if reg == 13 || reg == 14
    then (if mode == usr || mode == sys
        then some reg
        else elim (private_bank mode) [ none ↦ none | some base ↦ some (base + (reg - 13)) ])
    else if reg == 17
    then elim (private_bank mode) [ none ↦ none | some base ↦ some (base + 2) ]
    else some reg

-- Reading and writing by place.
unfoldable pub read_at : Registers → Option ℕ → ℕ
read_at r none = 0
read_at r (some i) = r.registre i

unfoldable pub write_at : Registers → Option ℕ → ℕ → Registers
write_at r none value = r
write_at r (some i) value = assign r i value

-- The switch that reads a register, over all registers and modes, reads the cell of the array that
-- the bank of the mode gives it, and gives 0 where it has none.
pub registers_read-read_at :
    (r : Registers) (reg mode : ℕ) → registers_read r reg mode ≡ read_at r (place reg mode)
unfolding registers_read place private_bank read_at
registers_read-read_at r reg mode = ground arith

-- The switch that writes a register, over all registers and modes, assigns the cell of the array
-- that the bank of the mode gives it and no other, and nothing where it has none.
pub registers_write-write_at :
    (r : Registers) (reg mode value : ℕ)
    → registers_write r reg mode value ≡ write_at r (place reg mode) value
unfolding registers_write place private_bank write_at
registers_write-write_at r reg mode value = ground arith

-- Which register of the program a cell of the array belongs to.
owner : ℕ → ℕ
owner i =
    if leb i 16
    then i
    else if i == 19 || i == 22 || i == 25 || i == 28 || i == 36
    then 17
    else if i == 17 || i == 20 || i == 23 || i == 26 || i == 34
    then 13
    else if i == 18 || i == 21 || i == 24 || i == 27 || i == 35
    then 14
    else i - 21

owner_low : (i : ℕ) → i ≤ 16 → owner i ≡ i
unfolding owner
owner_low i h = ground arith

owner_fiq : (i : ℕ) → 29 ≤ i → i ≤ 33 → owner i ≡ i - 21
unfolding owner
owner_fiq i h k = ground arith

private_bank-owner :
    (mode base : ℕ)
    → private_bank mode ≡ some base
    → (base < 35) × (owner base ≡ 13) × (owner (base + 1) ≡ 14) × (owner (base + 2) ≡ 17)
unfolding private_bank owner
private_bank-owner mode base e = ground arith

place-owner : (reg mode i : ℕ) → reg ≤ 17 → place reg mode ≡ some i → (i < 37) × (owner i ≡ reg)
unfolding place
place-owner reg mode i small e = elim (Option-cases (private_bank mode)) [
  | inl free ↦ ground (arith, owner_low reg, owner_fiq (reg + 21))
  | inr (base, taken) ↦
      ground (arith, owner_low reg, owner_fiq (reg + 21), private_bank-owner mode base taken)
]

-- The registers that the instructions can name, 0 to 15 with the status registers 16 and 17, stay
-- inside the array of 37 in every mode.
pub place-lt : (reg mode i : ℕ) → reg ≤ 17 → place reg mode ≡ some i → i < 37
place-lt reg mode i small e = (place-owner reg mode i small e).0

-- Two different registers never share a cell, not even across modes.
pub place_injective :
    (reg mode reg' mode' i : ℕ)
    → reg ≤ 17
    → reg' ≤ 17
    → place reg mode ≡ some i
    → place reg' mode' ≡ some i
    → reg ≡ reg'
place_injective reg mode reg' mode' i small small' e e' =
    sym (place-owner reg mode i small e).1 ∙ (place-owner reg' mode' i small' e').1

-- A read after a write gives the written value where both name the same cell, and the old value
-- otherwise, also when the two are made in different modes.
pub registers_read-write :
    (r : Registers) (reg mode value reg' mode' i j : ℕ)
    → place reg mode ≡ some i
    → place reg' mode' ≡ some j
    → registers_read (registers_write r reg mode value) reg' mode'
      ≡ (if j == i then value else registers_read r reg' mode')
registers_read-write r reg mode value reg' mode' i j e e' =
    rw
      (
        registers_write-write_at r reg mode value,
        registers_read-read_at (write_at r (place reg mode) value) reg' mode',
        registers_read-read_at r reg' mode',
        e,
        e',
      )
      (unfold read_at write_at in refl)

-- The seven modes of the processor.
abbrev pub IsMode : ℕ → Type 0
IsMode mode =
    ((mode == usr
        || mode == fiq
        || mode == irq
        || mode == svc
        || mode == abt
        || mode == und
        || mode == sys)
      ≡ true)

-- In each of the seven modes every register that an instruction names has a cell.
pub place-ne-none : (reg mode : ℕ) → reg ≤ 16 → IsMode mode → place reg mode ≢ none
unfolding place private_bank
place-ne-none reg mode small valid = ground arith
