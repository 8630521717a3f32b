-- ===== src/LoadStore/Words.antt =====
-- arm_load_store on words: LDR and STR with an immediate offset that leave the base register alone.
use projet_l3_inf_bn_zl_rj_r.Prelude.{
  ℕ, zero, suc, ◌+◌, ◌^◌, ◌≤◌, ◌<◌, ◌≡◌, ◌≢◌, refl, false, ◌==◌, if◌then◌else◌, arith, pos, Option,
  some, u8, u32, le→leb, ◌∙◌, ℤ, is_minus_one, ◌>>=◌, Option-cases, inl, inr,
}
use projet_l3_inf_bn_zl_rj_r.Util.{get_bit, get_bits}
use projet_l3_inf_bn_zl_rj_r.Constants.{data_abort}
use projet_l3_inf_bn_zl_rj_r.Memory.{Memory, memory_write_word, memory_read_word}
use projet_l3_inf_bn_zl_rj_r.Memory.RoundTrip.{memory_read_word-write_word}
use projet_l3_inf_bn_zl_rj_r.Machine.{Machine}
use projet_l3_inf_bn_zl_rj_r.Core.{
  Arm, arm_read_register, arm_write_register, cond_not_respect, arm_write_word, arm_read_word,
  arm_read_cpsr,
}
use projet_l3_inf_bn_zl_rj_r.LoadStore.{
  displace, fields, pre_index, post_index, load_access, store_access, word_byte_access,
  arm_load_store,
}

-- The encodings of LDR (`l` is 1) and STR (`l` is 0) with an immediate offset, applied before the
-- access and not written back, with a base other than the program counter, that are carried out.
pub record IsWordAccess (p : Arm) (ins l : ℕ) : Type 0 where
  pub met : cond_not_respect p ins ≡ 0
  pub class : get_bits ins 27 26 ≡ 1
  pub immediate : get_bit ins 25 ≡ 0
  pub before : get_bit ins 24 ≡ 1
  pub whole : get_bit ins 22 ≡ 0
  pub kept : get_bit ins 21 ≡ 0
  pub way : get_bit ins 20 ≡ l
  pub base : u8 (get_bits ins 19 16) ≢ 15

-- The address that such an instruction names, and the number of its register.
abbrev pub target : Arm → ℕ → ℕ
target p ins =
    displace (get_bit ins 23) (arm_read_register p (u8 (get_bits ins 19 16))) (get_bits ins 11 0)

abbrev pub rd : ℕ → ℕ
rd ins = u8 (get_bits ins 15 12)

cond-mem :
    (p : Arm) (mem' : Memory) (ins : ℕ)
    → cond_not_respect (record p { mem = mem' }) ins ≡ cond_not_respect p ins
unfolding cond_not_respect arm_read_cpsr
cond-mem p mem' ins = refl

target-mem :
    (p : Arm) (mem' : Memory) (ins : ℕ) → target (record p { mem = mem' }) ins ≡ target p ins
unfolding arm_read_register
target-mem p mem' ins = refl

-- What follows the access: the data abort if it is refused.
abbrev ended : ℤ × Arm → Option (ℤ × Arm)
ended r = some (if is_minus_one r.0 then (pos data_abort, r.1) else (pos 0, r.1))

store_lem :
    (m : Machine) (p : Arm) (ins : ℕ)
    → IsWordAccess p ins 0
    → arm_load_store m p ins
      ≡ (arm_write_word m p (target p ins) (arm_read_register p (rd ins)) >>= ended)
unfolding arm_load_store word_byte_access store_access pre_index post_index fields
store_lem m p ins h =
    let other : (u8 (get_bits ins 19 16) == 15) ≡ false = ground (arith, h.base) in
    rw (h.met, h.class, h.immediate, h.whole, h.before, h.kept, h.way, other) refl

-- A word that is read goes to the register, a refused read included.
abbrev loaded : Arm → ℕ → ℤ × ℕ → Option (ℤ × Arm)
loaded p ins r = ended (r.0, arm_write_register p (rd ins) r.1)

load_lem :
    (m : Machine) (p : Arm) (ins : ℕ)
    → IsWordAccess p ins 1
    → arm_load_store m p ins
      ≡ (arm_read_word m p (target p ins) (u32 (m.stale_word p.cycle_count)) >>= loaded p ins)
unfolding arm_load_store word_byte_access load_access pre_index post_index fields
load_lem m p ins h =
    let other : (u8 (get_bits ins 19 16) == 15) ≡ false = ground (arith, h.base) in
    let old = u32 (m.stale_word p.cycle_count) in
    elim (Option-cases (arm_read_word m p (target p ins) old)) [
      | inl e ↦ rw (h.met, h.class, h.immediate, h.whole, h.before, h.kept, h.way, other, e) refl
      | inr (r, e) ↦
          rw (h.met, h.class, h.immediate, h.whole, h.before, h.kept, h.way, other, e) refl
    ]

-- An STR whose four bytes lie inside the memory gives 0 and changes nothing but memory; an LDR of
-- the same address after it gives 0 and puts the stored word into its register. Both stand for
-- instructions whose condition holds, with an immediate offset applied before the access and not
-- written back, and a base other than the program counter; the stored register holds a word.
pub arm_load_store-ldr_str :
    (m : Machine) (p : Arm) (str ldr : ℕ)
    → IsWordAccess p str 0
    → IsWordAccess p ldr 1
    → target p ldr ≡ target p str
    → target p str + 3 < p.mem.size
    → p.mem.size ≤ 2 ^ 32
    → arm_read_register p (rd str) < 2 ^ 32
    → (mem' : Memory) × (arm_load_store m p str ≡ some (pos 0, record p { mem = mem' }))
      × (arm_load_store m (record p { mem = mem' }) ldr
          ≡ some (
            pos 0,
            arm_write_register (record p { mem = mem' }) (rd ldr) (arm_read_register p (rd str)),
          ))
unfolding arm_write_word arm_read_word
arm_load_store-ldr_str m p str ldr h k same fits small word =
    let value = arm_read_register p (rd str) in
    let old = u32 (m.stale_word p.cycle_count) in
    let trip =
      memory_read_word-write_word p.mem (target p str) value m.endianess old fits small word in
    let p' : Arm = record p { mem = trip.0 } in
    let k' : IsWordAccess p' ldr 1 = record {
      met = cond-mem p trip.0 ldr ∙ k.met;
      class = k.class;
      immediate = k.immediate;
      before = k.before;
      whole = k.whole;
      kept = k.kept;
      way = k.way;
      base = k.base;
    } in
    (
      trip.0,
      rw (store_lem m p str h, trip.1) refl,
      rw (load_lem m p' ldr k', target-mem p trip.0 ldr ∙ same, trip.2) refl,
    )

-- Past the end of the memory, STR and LDR give DATA_ABORT. A refused STR changes nothing; a
-- refused LDR still overwrites its register, with what the variable held that was not assigned.
pub arm_load_store_abort :
    (m : Machine) (p : Arm) (ins l : ℕ)
    → p.mem.size ≤ target p ins
    → IsWordAccess p ins l
    → l ≤ 1
    → arm_load_store m p ins
      ≡ some (
        pos data_abort,
        if l == 0 then p else arm_write_register p (rd ins) (u32 (m.stale_word p.cycle_count)),
      )
unfolding arm_write_word arm_read_word memory_write_word memory_read_word
arm_load_store_abort m p ins zero outside h small =
    rw (store_lem m p ins h, le→leb p.mem.size (target p ins) outside) refl
arm_load_store_abort m p ins (suc zero) outside h small =
    rw (load_lem m p ins h, le→leb p.mem.size (target p ins) outside) refl
arm_load_store_abort m p ins (suc (suc l)) outside h small = absurd (omega arith)

-- An LDR with the program counter as its base, which is carried out, with an immediate offset: if the
-- variable that holds the result is not -1 by chance, the result is 0 and the register gets the
-- value of the program counter plus 8. Neither memory nor the offset is looked at.
pub arm_load_store-literal :
    (m : Machine) (p : Arm) (ins : ℕ)
    → cond_not_respect p ins ≡ 0
    → get_bits ins 27 26 ≡ 1
    → get_bit ins 25 ≡ 0
    → get_bit ins 24 ≡ 1
    → get_bit ins 22 ≡ 0
    → get_bit ins 21 ≡ 0
    → get_bit ins 20 ≡ 1
    → u8 (get_bits ins 19 16) ≡ 15
    → is_minus_one (m.stale_result p.cycle_count) ≡ false
    → arm_load_store m p ins
      ≡ some (pos 0, arm_write_register p (rd ins) (u32 (arm_read_register p 15 + 8)))
unfolding arm_load_store word_byte_access load_access pre_index post_index fields
arm_load_store-literal m p ins met class immediate before whole kept way base chance =
    rw (met, class, immediate, whole, before, kept, way, base, chance) refl
