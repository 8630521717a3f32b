-- ===== src/LoadStore/Trip.antt =====
-- arm_load_store_multiple: an LDM behind an STM with the same list, both with ascending addresses and
-- without write back.
use projet_l3_inf_bn_zl_rj_r.Prelude.{
  ℕ, ◌+◌, ◌*◌, ◌^◌, ◌≤◌, ◌<◌, ◌≡◌, ◌≢◌, refl, ◌∙◌, ap, false, ◌==◌, if◌then◌else◌, arith, pos, some,
  none, u8, u16, u32,
}
use projet_l3_inf_bn_zl_rj_r.Util.{get_bit, get_bits}
use projet_l3_inf_bn_zl_rj_r.Memory.{Memory}
use projet_l3_inf_bn_zl_rj_r.Registers.{Registers, registers_read, registers_get_mode}
use projet_l3_inf_bn_zl_rj_r.Registers.Bank.{IsMode}
use projet_l3_inf_bn_zl_rj_r.Machine.{Machine}
use projet_l3_inf_bn_zl_rj_r.Core.{Arm, arm_read_register, arm_read_cpsr, cond_not_respect}
use projet_l3_inf_bn_zl_rj_r.LoadStore.{
  next_address, transfers, multiple_end, arm_load_store_multiple,
}
use projet_l3_inf_bn_zl_rj_r.LoadStore.Multiple.{listed}
use projet_l3_inf_bn_zl_rj_r.LoadStore.Stored.{Stored, transfers-Saves}
use projet_l3_inf_bn_zl_rj_r.LoadStore.Restored.{transfers-Restores}
use projet_l3_inf_bn_zl_rj_r.Valid.{IsValid}
use projet_l3_inf_bn_zl_rj_r.Valid.Access.{read_register-lt}

abbrev pub list_of : ℕ → ℕ
list_of ins = u16 (get_bits ins 15 0)

-- The encodings of LDM (`l` is 1) and STM (`l` is 0) with ascending addresses, without write back,
-- with the S bit clear and a list that is not empty and does not have the program counter, whose
-- condition is met.
pub record IsMultiple (p : Arm) (ins l : ℕ) : Type 0 where
  pub met : cond_not_respect p ins ≡ 0
  pub up : get_bit ins 23 ≡ 1
  pub plain : get_bit ins 22 ≡ 0
  pub kept : get_bit ins 21 ≡ 0
  pub way : get_bit ins 20 ≡ l
  pub some_listed : list_of ins ≢ 0
  pub pc_unlisted : get_bit (list_of ins) 15 ≡ 0

-- The address of the first word.
abbrev pub start : Arm → ℕ → ℕ
start p ins =
    let base = arm_read_register p (u8 (get_bits ins 19 16)) in
    if get_bit ins 24 == 0 then base else next_address 1 base

multiple_lem :
    (m : Machine) (p : Arm) (ins l adresse' : ℕ) (p' : Arm)
    → IsMultiple p ins l
    → transfers m 1 l (list_of ins) 15 0 (start p ins) (u32 (m.stale_word p.cycle_count)) p
      ≡ some (none, adresse', p')
    → arm_load_store_multiple m p ins ≡ some (pos 0, p')
unfolding arm_load_store_multiple multiple_end
multiple_lem m p ins l adresse' p' h e =
    let listed : (list_of ins == 0) ≡ false = ground (arith, h.some_listed) in
    rw (h.met, h.up, h.plain, h.kept, h.way, listed, e, h.pc_unlisted) (ground (arith, e))

read_low :
    (p : Arm) (k : ℕ)
    → k < 15
    → arm_read_register p k ≡ registers_read p.reg k (registers_get_mode p.reg)
unfolding arm_read_register
read_low p k low = let other : (k == 15) ≡ false = ground arith in rw other refl

-- The LDM, once the registers stand in memory: `r` are the registers before it.
module _ (m : Machine) (p : Arm) (ldm : ℕ) (mode : ℕ) (seven : IsMode mode) (v : ℕ → ℕ)
    (word : (k : ℕ) → v k < 2 ^ 32) where
  loaded :
      (k list_reg adresse : ℕ)
      → registers_get_mode p.reg ≡ mode
      → IsMultiple p ldm 1
      → list_of ldm ≡ list_reg
      → start p ldm ≡ adresse
      → adresse + 4 * listed list_reg 15 0 ≤ p.mem.size
      → p.mem.size < 2 ^ 32
      → Stored m.endianess list_reg v p.mem 15 0 adresse
      → k < 15
      → (q : Arm) × (arm_load_store_multiple m p ldm ≡ some (pos 0, q))
        × (q.mem ≡ p.mem)
        × (arm_read_register q k ≡ (if get_bit list_reg k == 0 then arm_read_register p k else v k))
  loaded k list_reg adresse now h list first fits small stored low =
      let old = u32 (m.stale_word p.cycle_count) in
      let (q, adresse', e, got) =
        transfers-Restores m list_reg mode seven v word 15 0 adresse old p (omega arith) now fits
          small stored in
      let before : arm_read_register p k ≡ registers_read p.reg k mode =
        read_low p k low ∙ ap (λ (md : ℕ). registers_read p.reg k md) now in
      let behind : arm_read_register q k ≡ registers_read q.reg k mode =
        read_low q k low ∙ ap (λ (md : ℕ). registers_read q.reg k md) got.current in
      (
        q,
        multiple_lem m p ldm 1 adresse' q h (rw (list, first) e),
        got.memory,
        behind ∙ got.registers k low ∙ ground (arith, before),
      )

IsMultiple-mem :
    {p : Arm} {ins l : ℕ} (mem' : Memory)
    → IsMultiple p ins l
    → IsMultiple (record p { mem = mem' }) ins l
unfolding cond_not_respect arm_read_cpsr
IsMultiple-mem mem' h = record {
  met = h.met;
  up = h.up;
  plain = h.plain;
  kept = h.kept;
  way = h.way;
  some_listed = h.some_listed;
  pc_unlisted = h.pc_unlisted;
}

-- An STM whose condition is met, with ascending addresses, no write back, the S bit clear and a list
-- that is not empty and does not have the program counter, whose words lie inside a memory of less
-- than 2^32 bytes, of a well-formed processor in one of the seven modes, gives 0 and changes memory
-- only. Whatever the registers are changed to after it, in the same mode and with the same first
-- address, an LDM of the same kind whose condition is then met, with the same list, gives 0, leaves
-- memory alone, gives every listed register its value at the STM, and leaves the other registers
-- below 15.
pub arm_load_store_multiple-ldm_stm :
    (m : Machine) (p : Arm) (stm ldm : ℕ) (r : Registers) (k : ℕ)
    → IsValid p
    → IsMode (registers_get_mode p.reg)
    → registers_get_mode r ≡ registers_get_mode p.reg
    → IsMultiple p stm 0
    → IsMultiple (record p { reg = r }) ldm 1
    → list_of ldm ≡ list_of stm
    → start (record p { reg = r }) ldm ≡ start p stm
    → start p stm + 4 * listed (list_of stm) 15 0 ≤ p.mem.size
    → p.mem.size < 2 ^ 32
    → k < 15
    → (mem' : Memory) × (q : Arm) × (arm_load_store_multiple m p stm
        ≡ some (pos 0, record p { mem = mem' }))
      × (arm_load_store_multiple m (record p { reg = r; mem = mem' }) ldm ≡ some (pos 0, q))
      × (q.mem ≡ mem')
      × (arm_read_register q k ≡ (
          if get_bit (list_of stm) k == 0
          then arm_read_register (record p { reg = r }) k
          else arm_read_register p k))
unfolding arm_read_register
arm_load_store_multiple-ldm_stm m p stm ldm r k valid seven same h h' list first fits small low =
    let old = u32 (m.stale_word p.cycle_count) in
    let (mem', adresse', e, left) =
      transfers-Saves m (list_of stm) (arm_read_register p) 15 0 (start p stm) old p (λ j. refl)
        fits small in
    let (q, e', same_mem, read) =
      loaded m (record p { reg = r; mem = mem' }) ldm (registers_get_mode p.reg) seven
        (arm_read_register p) (read_register-lt valid) k (list_of stm) (start p stm) same
        (IsMultiple-mem mem' h') list first (omega (arith, left.size)) (omega (arith, left.size))
        left.stored low in
    (mem', q, multiple_lem m p stm 0 adresse' (record p { mem = mem' }) h e, e', same_mem, read)
