-- ===== src/LoadStore/Restored.antt =====
-- The loop over the registers of arm_load_store_multiple, where it loads them from ascending
-- addresses at which they have been stored.
use projet_l3_inf_bn_zl_rj_r.Prelude.{
  ℕ, zero, suc, ◌+◌, ◌*◌, ◌^◌, ◌≤◌, ◌<◌, ◌≡◌, refl, ◌∙◌, ap, true, false, not, ◌&&◌, ◌==◌, leb,
  if◌then◌else◌, arith, pos, some, none, Bool-cases, inl, inr, u32,
}
use projet_l3_inf_bn_zl_rj_r.Util.{get_bit}
use projet_l3_inf_bn_zl_rj_r.Memory.{Memory, memory_read_word}
use projet_l3_inf_bn_zl_rj_r.Memory.Word.{memory_read_word-word_of}
use projet_l3_inf_bn_zl_rj_r.Memory.RoundTrip.{word_of-word_byte, word_byte-lt}
use projet_l3_inf_bn_zl_rj_r.Registers.{registers_read, registers_get_mode}
use projet_l3_inf_bn_zl_rj_r.Registers.Bank.{IsMode}
use projet_l3_inf_bn_zl_rj_r.Registers.Modes.{read-write_if, mode-write}
use projet_l3_inf_bn_zl_rj_r.Machine.{Machine}
use projet_l3_inf_bn_zl_rj_r.Core.{Arm, arm_write_register, arm_read_word}
use projet_l3_inf_bn_zl_rj_r.LoadStore.{next_address, transfer, transfers}
use projet_l3_inf_bn_zl_rj_r.LoadStore.Multiple.{listed}
use projet_l3_inf_bn_zl_rj_r.LoadStore.Stored.{HoldsWord, Stored}

-- A word that stands in memory is read.
HoldsWord-memory_read_word :
    (be : ℕ) (mem : Memory) (address value old : ℕ)
    → address + 3 < mem.size
    → mem.size ≤ 2 ^ 32
    → value < 2 ^ 32
    → HoldsWord be mem address value
    → memory_read_word mem address old be ≡ some (pos 0, value)
HoldsWord-memory_read_word be mem address value old fits small word h =
    memory_read_word-word_of mem address fits small be old _ _ _ _ h.first h.second h.third h.fourth
      (word_byte-lt be value 0) (word_byte-lt be value 1) (word_byte-lt be value 2)
      (word_byte-lt be value 3)
    ∙ ap (λ (v : ℕ). some (pos 0, v)) (word_of-word_byte be value word)

-- Register `k` after the registers of the list from `reg_num` on have been loaded.
abbrev pub restored : ℕ → (ℕ → ℕ) → ℕ → ℕ → ℕ → ℕ
restored list_reg v reg_num k old =
    if leb reg_num k && not (get_bit list_reg k == 0) then v k else old

restored_skip :
    (list_reg : ℕ) (v : ℕ → ℕ) (reg_num k old : ℕ)
    → (get_bit list_reg reg_num == 0) ≡ true
    → restored list_reg v (reg_num + 1) k old ≡ restored list_reg v reg_num k old
restored_skip list_reg v reg_num k old skip = elim (Bool-cases (k == reg_num)) [
  | inl here ↦ let e : k ≡ reg_num = ground arith in rw (e, skip) (ground arith)
  | inr other ↦ ground arith
]

restored_take :
    (list_reg : ℕ) (v : ℕ → ℕ) (reg_num k old : ℕ)
    → (get_bit list_reg reg_num == 0) ≡ false
    → restored list_reg v (reg_num + 1) k (if k == reg_num then v reg_num else old)
      ≡ restored list_reg v reg_num k old
restored_take list_reg v reg_num k old taken = elim (Bool-cases (k == reg_num)) [
  | inl here ↦ let e : k ≡ reg_num = ground arith in rw (e, taken) (ground arith)
  | inr other ↦ ground arith
]

-- What the loop leaves: memory and the mode stay, and the listed registers have their values.
pub record Loads (list_reg mode : ℕ) (v : ℕ → ℕ) (reg_num : ℕ) (p p' : Arm) : Type 0 where
  pub memory : p'.mem ≡ p.mem
  pub current : registers_get_mode p'.reg ≡ mode
  pub registers :
      (k : ℕ)
      → k < 15
      → registers_read p'.reg k mode ≡ restored list_reg v reg_num k (registers_read p.reg k mode)

module _ (m : Machine) (list_reg mode : ℕ) (valid : IsMode mode) (v : ℕ → ℕ)
    (word : (k : ℕ) → v k < 2 ^ 32) where
  -- A run of the loop that loads the registers.
  abbrev pub Restores : (rounds reg_num adresse value : ℕ) → Arm → Type 0
  Restores rounds reg_num adresse value p =
      (p' : Arm) × (adresse' : ℕ) × (transfers m 1 1 list_reg rounds reg_num adresse value p
        ≡ some (none, adresse', p'))
      × Loads list_reg mode v reg_num p p'

  load_round :
      (reg_num adresse value : ℕ) (p : Arm)
      → adresse + 3 < p.mem.size
      → p.mem.size ≤ 2 ^ 32
      → HoldsWord m.endianess p.mem adresse (v reg_num)
      → transfer m 1 reg_num adresse value p
        ≡ some (pos 0, v reg_num, arm_write_register p reg_num (v reg_num))
  unfolding transfer arm_read_word
  load_round reg_num adresse value p fits small h =
      rw
        (HoldsWord-memory_read_word m.endianess p.mem adresse (v reg_num) value fits small
          (word reg_num) h)
        refl

  skip_Loads :
      (reg_num : ℕ) (p p' : Arm)
      → (get_bit list_reg reg_num == 0) ≡ true
      → Loads list_reg mode v (reg_num + 1) p p'
      → Loads list_reg mode v reg_num p p'
  skip_Loads reg_num p p' skip h = record {
    memory = h.memory;
    current = h.current;
    registers = λ k low. h.registers k low ∙ restored_skip list_reg v reg_num k _ skip;
  }

  take_Loads :
      (reg_num : ℕ) (p p' : Arm)
      → (get_bit list_reg reg_num == 0) ≡ false
      → reg_num < 15
      → registers_get_mode p.reg ≡ mode
      → Loads list_reg mode v (reg_num + 1) (arm_write_register p reg_num (v reg_num)) p'
      → Loads list_reg mode v reg_num p p'
  unfolding arm_write_register
  take_Loads reg_num p p' taken low now h = record {
    memory = h.memory;
    current = h.current;
    registers = λ k below.
        h.registers k below
        ∙ rw (now, read-write_if mode valid p.reg reg_num (v reg_num) k (omega arith) (omega arith))
            (restored_take list_reg v reg_num k (registers_read p.reg k mode) taken);
  }

  skip_round :
      (rounds reg_num adresse value : ℕ) (p : Arm)
      → (get_bit list_reg reg_num == 0) ≡ true
      → Restores rounds (reg_num + 1) adresse value p
      → Restores (suc rounds) reg_num adresse value p
  unfolding transfers
  skip_round rounds reg_num adresse value p skip (p', adresse', e, rest) =
      (p', adresse', rw skip e, skip_Loads reg_num p p' skip rest)

  take_round :
      (rounds reg_num adresse value : ℕ) (p : Arm)
      → (get_bit list_reg reg_num == 0) ≡ false
      → reg_num < 15
      → registers_get_mode p.reg ≡ mode
      → adresse + 4 ≤ p.mem.size
      → p.mem.size < 2 ^ 32
      → HoldsWord m.endianess p.mem adresse (v reg_num)
      → Restores rounds
          (reg_num + 1)
          (adresse + 4)
          (v reg_num)
          (arm_write_register p reg_num (v reg_num))
      → Restores (suc rounds) reg_num adresse value p
  unfolding transfers next_address
  take_round rounds reg_num adresse value p taken low now fits small h (p', adresse', e, rest) =
      let next : u32 (adresse + 4) ≡ adresse + 4 = omega arith in
      let round = load_round reg_num adresse value p (omega arith) (omega arith) h in
      (p', adresse', rw (taken, round, next) e, take_Loads reg_num p p' taken low now rest)

  write_mode :
      (reg_num value : ℕ) (p : Arm)
      → registers_get_mode p.reg ≡ mode
      → reg_num < 15
      → registers_get_mode (arm_write_register p reg_num value).reg ≡ mode
  unfolding arm_write_register
  write_mode reg_num value p now low =
      rw now (mode-write mode valid p.reg reg_num value (omega arith) ∙ now)

  -- The whole loop, where the words that it loads stand inside the memory.
  pub transfers-Restores :
      (rounds reg_num adresse value : ℕ) (p : Arm)
      → reg_num + rounds ≡ 15
      → registers_get_mode p.reg ≡ mode
      → adresse + 4 * listed list_reg rounds reg_num ≤ p.mem.size
      → p.mem.size < 2 ^ 32
      → Stored m.endianess list_reg v p.mem rounds reg_num adresse
      → Restores rounds reg_num adresse value p
  unfolding transfers listed arm_write_register
  transfers-Restores zero reg_num adresse value p end now fits small h =
      (p, adresse, refl, record { memory = refl; current = now; registers = λ k low. ground arith })
  transfers-Restores (suc rounds) reg_num adresse value p end now fits small (h, hs) =
      elim (Bool-cases (get_bit list_reg reg_num == 0)) [
        | inl skip ↦
            let fits' = rw skip at fits in
            let hs' = rw skip at hs in
            skip_round rounds reg_num adresse value p skip (
              transfers-Restores rounds (reg_num + 1) adresse value p (omega arith) now fits' small
                hs')
        | inr taken ↦
            let fits' = rw taken at fits in
            let h' = rw taken at h in
            let hs' = rw taken at hs in
            take_round rounds reg_num adresse value p taken (omega arith) now (omega (arith, fits'))
              small h'
              (transfers-Restores rounds (reg_num + 1) (adresse + 4) (v reg_num)
                (arm_write_register p reg_num (v reg_num)) (omega arith)
                (write_mode reg_num (v reg_num) p now (omega arith)) (omega (arith, fits')) small
                hs')
      ]
