-- ===== src/LoadStore/Stored.antt =====
-- The loop over the registers of arm_load_store_multiple, where it stores them at ascending addresses.
use projet_l3_inf_bn_zl_rj_r.Prelude.{
  ℕ, zero, suc, ◌+◌, ◌*◌, ◌^◌, ◌≤◌, ◌<◌, ◌≡◌, refl, ◌==◌, if◌then◌else◌, arith, pos, some, none,
  Bool-cases, inl, inr, u32, true, false,
}
use projet_l3_inf_bn_zl_rj_r.Util.{get_bit}
use projet_l3_inf_bn_zl_rj_r.Memory.{Memory}
use projet_l3_inf_bn_zl_rj_r.Memory.Word.{with_word, word_byte, memory_write_word-with_word}
use projet_l3_inf_bn_zl_rj_r.Machine.{Machine}
use projet_l3_inf_bn_zl_rj_r.Core.{Arm, arm_read_register, arm_write_word}
use projet_l3_inf_bn_zl_rj_r.LoadStore.{next_address, transfer, transfers}
use projet_l3_inf_bn_zl_rj_r.LoadStore.Multiple.{listed}

-- The four bytes of a word in memory.
pub record HoldsWord (be : ℕ) (mem : Memory) (address value : ℕ) : Type 0 where
  pub first : mem.cells address ≡ word_byte be value 0
  pub second : mem.cells (address + 1) ≡ word_byte be value 1
  pub third : mem.cells (address + 2) ≡ word_byte be value 2
  pub fourth : mem.cells (address + 3) ≡ word_byte be value 3

-- The listed registers from `reg_num` on, with the values `v`, stand in memory from `adresse` on.
abbrev pub Stored : ℕ → ℕ → (ℕ → ℕ) → Memory → ℕ → ℕ → ℕ → Type 0
Stored be list_reg v mem zero reg_num adresse = Unit
Stored be list_reg v mem (suc rounds) reg_num adresse =
    (if get_bit list_reg reg_num == 0 then Unit else HoldsWord be mem adresse (v reg_num))
    × Stored be list_reg v mem rounds (reg_num + 1)
        (if get_bit list_reg reg_num == 0 then adresse else adresse + 4)

-- A word keeps its place where memory is left alone below a limit behind it.
HoldsWord-kept :
    (be : ℕ) (mem mem' : Memory) (address value limit : ℕ)
    → address + 4 ≤ limit
    → ((c : ℕ) → c < limit → mem'.cells c ≡ mem.cells c)
    → HoldsWord be mem address value
    → HoldsWord be mem' address value
HoldsWord-kept be mem mem' address value limit room same h = record {
  first = ground (arith, same address, h.first);
  second = ground (arith, same (address + 1), h.second);
  third = ground (arith, same (address + 2), h.third);
  fourth = ground (arith, same (address + 3), h.fourth);
}

with_word-HoldsWord :
    (be : ℕ) (mem : Memory) (address value : ℕ)
    → HoldsWord be (with_word be address value mem) address value
with_word-HoldsWord be mem address value = record {
  first = ground arith;
  second = ground arith;
  third = ground arith;
  fourth = ground arith;
}

-- What the loop leaves of memory: the size and all cells below `adresse` stay, and the registers
-- stand in it.
pub record Leaves (be list_reg : ℕ) (v : ℕ → ℕ) (mem mem' : Memory) (rounds reg_num adresse : ℕ)
    : Type 0 where
  pub size : mem'.size ≡ mem.size
  pub below : (c : ℕ) → c < adresse → mem'.cells c ≡ mem.cells c
  pub stored : Stored be list_reg v mem' rounds reg_num adresse

module _ (m : Machine) (list_reg : ℕ) where
  -- One round that stores a register inside the memory.
  store_round :
      (reg_num adresse value : ℕ) (p : Arm)
      → adresse + 3 < p.mem.size
      → p.mem.size ≤ 2 ^ 32
      → transfer m 0 reg_num adresse value p
        ≡ some (
          pos 0,
          arm_read_register p reg_num,
          record p { mem = with_word m.endianess adresse (arm_read_register p reg_num) p.mem },
        )
  unfolding transfer arm_write_word
  store_round reg_num adresse value p fits small =
      rw
        (memory_write_word-with_word p.mem adresse fits small m.endianess
          (arm_read_register p reg_num))
        refl

  -- A run of the loop that saves the registers.
  abbrev pub Saves : (ℕ → ℕ) → (rounds reg_num adresse value : ℕ) → Arm → Type 0
  Saves v rounds reg_num adresse value p =
      (mem' : Memory) × (adresse' : ℕ) × (transfers m 1 0 list_reg rounds reg_num adresse value p
        ≡ some (none, adresse', record p { mem = mem' }))
      × Leaves m.endianess list_reg v p.mem mem' rounds reg_num adresse

  skip_round :
      (v : ℕ → ℕ) (rounds reg_num adresse value : ℕ) (p : Arm)
      → (get_bit list_reg reg_num == 0) ≡ true
      → Saves v rounds (reg_num + 1) adresse value p
      → Saves v (suc rounds) reg_num adresse value p
  unfolding transfers
  skip_round v rounds reg_num adresse value p skip (mem', adresse', e, rest) = (
    mem',
    adresse',
    rw skip e,
    record { size = rest.size; below = rest.below; stored = rw skip (tt, rest.stored) },
  )

  take_round :
      (v : ℕ → ℕ) (rounds reg_num adresse value : ℕ) (p : Arm)
      → (get_bit list_reg reg_num == 0) ≡ false
      → arm_read_register p reg_num ≡ v reg_num
      → adresse + 4 ≤ p.mem.size
      → p.mem.size < 2 ^ 32
      → Saves v rounds
          (reg_num + 1)
          (adresse + 4)
          (v reg_num)
          (record p { mem = with_word m.endianess adresse (v reg_num) p.mem })
      → Saves v (suc rounds) reg_num adresse value p
  unfolding transfers next_address
  take_round v rounds reg_num adresse value p taken is fits small (mem', adresse', e, rest) =
      let mem1 = with_word m.endianess adresse (v reg_num) p.mem in
      let next : u32 (adresse + 4) ≡ adresse + 4 = omega arith in
      let round = store_round reg_num adresse value p (omega arith) (omega arith) in
      (
        mem',
        adresse',
        rw (taken, round, is, next) e,
        record {
          size = rest.size;
          below = λ c h. ground (arith, rest.below c);
          stored = rw taken (
            HoldsWord-kept m.endianess mem1 mem' adresse (v reg_num) (adresse + 4) (omega arith)
                rest.below (with_word-HoldsWord m.endianess p.mem adresse (v reg_num)),
            rest.stored,
          );
        },
      )

  -- The whole loop, where the words that it stores lie inside the memory.
  pub transfers-Saves :
      (v : ℕ → ℕ) (rounds reg_num adresse value : ℕ) (p : Arm)
      → ((k : ℕ) → arm_read_register p k ≡ v k)
      → adresse + 4 * listed list_reg rounds reg_num ≤ p.mem.size
      → p.mem.size < 2 ^ 32
      → Saves v rounds reg_num adresse value p
  unfolding transfers listed arm_read_register
  transfers-Saves v zero reg_num adresse value p is fits small =
      (p.mem, adresse, refl, record { size = refl; below = λ c h. refl; stored = tt })
  transfers-Saves v (suc rounds) reg_num adresse value p is fits small =
      elim (Bool-cases (get_bit list_reg reg_num == 0)) [
        | inl skip ↦
            let fits' = rw skip at fits in
            skip_round v rounds reg_num adresse value p skip
              (transfers-Saves v rounds (reg_num + 1) adresse value p is fits' small)
        | inr taken ↦
            let fits' = rw taken at fits in
            let p1 : Arm = record p { mem = with_word m.endianess adresse (v reg_num) p.mem } in
            take_round v rounds reg_num adresse value p taken (is reg_num) (omega (arith, fits'))
              small
              (transfers-Saves v rounds (reg_num + 1) (adresse + 4) (v reg_num) p1 is
                (omega (arith, fits')) small)
      ]
