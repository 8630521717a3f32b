-- ===== src/LoadStore/Halves.antt =====
-- arm_load_store on half words: LDRH and STRH with an immediate offset that leave the base register
-- alone.
use projet_l3_inf_bn_zl_rj_r.Prelude.{
  ℕ, ◌+◌, ◌^◌, ◌%◌, ◌≤◌, ◌<◌, ◌≡◌, ◌≢◌, refl, false, ◌==◌, arith, pos, some, u8, u16, ◌<<<◌, bit_or,
  ◌∙◌,
}
use projet_l3_inf_bn_zl_rj_r.Util.{get_bit, get_bits}
use projet_l3_inf_bn_zl_rj_r.Memory.{Memory}
use projet_l3_inf_bn_zl_rj_r.Memory.Half.{with_half, memory_read_half-write_half}
use projet_l3_inf_bn_zl_rj_r.Machine.{Machine}
use projet_l3_inf_bn_zl_rj_r.Core.{
  Arm, arm_read_register, arm_write_register, cond_not_respect, arm_write_half, arm_read_half,
  arm_read_cpsr,
}
use projet_l3_inf_bn_zl_rj_r.LoadStore.{
  displace, fields, pre_index, post_index, half_access, arm_load_store,
}

-- The encodings of LDRH (`l` is 1) and STRH (`l` is 0) with an immediate offset, applied before the
-- access and not written back, with a base other than the program counter, that are carried out.
pub record IsHalfAccess (p : Arm) (ins l : ℕ) : Type 0 where
  pub met : cond_not_respect p ins ≡ 0
  pub class : get_bits ins 27 26 ≡ 0
  pub extra : get_bits ins 27 25 ≡ 0
  pub before : get_bit ins 24 ≡ 1
  pub immediate : get_bit ins 22 ≡ 1
  pub kept : get_bit ins 21 ≡ 0
  pub way : get_bit ins 20 ≡ l
  pub seven : get_bit ins 7 ≡ 1
  pub four : get_bit ins 4 ≡ 1
  pub half : u8 (get_bits ins 6 5) ≡ 1
  pub base : u8 (get_bits ins 19 16) ≢ 15

-- The address that such an instruction names, and the number of its register.
abbrev pub half_target : Arm → ℕ → ℕ
half_target p ins =
    displace (get_bit ins 23) (arm_read_register p (u8 (get_bits ins 19 16)))
      (bit_or (u8 (get_bits ins 11 8) <<< 4) (u8 (get_bits ins 3 0)))

abbrev pub half_rd : ℕ → ℕ
half_rd ins = u8 (get_bits ins 15 12)

store_half :
    (m : Machine) (p p' : Arm) (ins : ℕ)
    → IsHalfAccess p ins 0
    → arm_write_half m p (half_target p ins) (u16 (arm_read_register p (half_rd ins)))
      ≡ some (pos 0, p')
    → arm_load_store m p ins ≡ some (pos 0, p')
unfolding arm_load_store half_access pre_index post_index fields
store_half m p p' ins h e =
    let other : (u8 (get_bits ins 19 16) == 15) ≡ false = ground (arith, h.base) in
    rw
      (
        h.met, h.class, h.extra, h.immediate, h.before, h.kept, h.way, h.seven, h.four, h.half,
        other, e,
      )
      refl

load_half :
    (m : Machine) (p : Arm) (ins value : ℕ)
    → IsHalfAccess p ins 1
    → arm_read_half m p (half_target p ins) (u16 (m.stale_half p.cycle_count)) ≡ some (pos 0, value)
    → arm_load_store m p ins ≡ some (pos 0, arm_write_register p (half_rd ins) value)
unfolding arm_load_store half_access pre_index post_index fields
load_half m p ins value h e =
    let other : (u8 (get_bits ins 19 16) == 15) ≡ false = ground (arith, h.base) in
    rw
      (
        h.met, h.class, h.extra, h.immediate, h.before, h.kept, h.way, h.seven, h.four, h.half,
        other, e,
      )
      refl

met-mem :
    (p : Arm) (mem' : Memory) (ins : ℕ)
    → cond_not_respect (record p { mem = mem' }) ins ≡ cond_not_respect p ins
unfolding cond_not_respect arm_read_cpsr
met-mem p mem' ins = refl

half_target-mem :
    (p : Arm) (mem' : Memory) (ins : ℕ)
    → half_target (record p { mem = mem' }) ins ≡ half_target p ins
unfolding arm_read_register
half_target-mem p mem' ins = refl

-- An STRH whose two bytes lie inside a memory of at most 2^32 bytes gives 0 and changes nothing but
-- memory, and an LDRH of the same address after it gives 0 and puts the lower half of the stored
-- register into its register; both with their conditions met, an immediate offset applied before the
-- access and not written back, and a base other than the program counter.
pub arm_load_store-ldrh_strh :
    (m : Machine) (p : Arm) (strh ldrh : ℕ)
    → IsHalfAccess p strh 0
    → IsHalfAccess p ldrh 1
    → half_target p ldrh ≡ half_target p strh
    → half_target p strh + 1 < p.mem.size
    → p.mem.size ≤ 2 ^ 32
    → (mem' : Memory) × (arm_load_store m p strh ≡ some (pos 0, record p { mem = mem' }))
      × (arm_load_store m (record p { mem = mem' }) ldrh
          ≡ some (
            pos 0,
            arm_write_register
                (record p { mem = mem' })
                (half_rd ldrh)
                (arm_read_register p (half_rd strh) % 2 ^ 16),
          ))
unfolding arm_write_half arm_read_half
arm_load_store-ldrh_strh m p strh ldrh h k same fits small =
    let value = u16 (arm_read_register p (half_rd strh)) in
    let old = u16 (m.stale_half p.cycle_count) in
    let trip =
      memory_read_half-write_half p.mem (half_target p strh) fits small m.endianess value old
        (omega arith) in
    let mem' = with_half m.endianess (half_target p strh) value p.mem in
    let p' : Arm = record p { mem = mem' } in
    let k' : IsHalfAccess p' ldrh 1 = record {
      met = met-mem p mem' ldrh ∙ k.met;
      class = k.class;
      extra = k.extra;
      before = k.before;
      immediate = k.immediate;
      kept = k.kept;
      way = k.way;
      seven = k.seven;
      four = k.four;
      half = k.half;
      base = k.base;
    } in
    (
      mem',
      store_half m p p' strh h (rw trip.0 refl),
      load_half m p' ldrh value k' (rw (half_target-mem p mem' ldrh ∙ same, trip.1) refl),
    )
