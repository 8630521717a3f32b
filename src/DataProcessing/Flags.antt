-- ===== src/DataProcessing/Flags.antt =====
-- Update_Flags: what it makes of the status register, bit by bit.
use projet_l3_inf_bn_zl_rj_r.Prelude.{
  if_both, ℕ, ◌/◌, ◌%◌, ◌^◌, ◌<◌, ◌≡◌, ◌≢◌, refl, Bool, true, false, not, ◌&&◌, ◌==◌, ltb, ◌∙◌,
  if◌then◌else◌, arith, all_below, all_below_sound, ◌<<<◌, not32, u32, pos, ℤ, bit_and, bit_or,
  Bool-cases, inl, inr,
}
use projet_l3_inf_bn_zl_rj_r.Bits.Split.{and-bit, or-bit}
use projet_l3_inf_bn_zl_rj_r.Util.{get_bit}
use projet_l3_inf_bn_zl_rj_r.Util.Laws.{get_bit_lem, get_bit_small}
use projet_l3_inf_bn_zl_rj_r.Constants.{flag_n, flag_z, flag_c, flag_v, cpsr}
use projet_l3_inf_bn_zl_rj_r.Registers.{registers_read_cpsr, registers_write_cpsr}
use projet_l3_inf_bn_zl_rj_r.Core.{Arm, arm_read_cpsr, arm_write_cpsr, arm_current_mode_has_spsr}
use projet_l3_inf_bn_zl_rj_r.DataProcessing.{put_flag, set_flags, update_flags}

-- The two masks of a flag, at every pair of places.
mask_tables :
    all_below 32 (λ i. all_below 32 λ j.
      (1 <<< i) / 2 ^ j % 2 == (if j == i then 1 else 0)
      && not32 (1 <<< i) / 2 ^ j % 2 == (if j == i then 0 else 1)
      && not32 (not32 (1 <<< i)) == 1 <<< i)
    ≡ true
unfolding all_below
mask_tables = refl

module _ (i j : ℕ) (hi : i < 32) (hj : j < 32) where
  masks :
      ((1 <<< i) / 2 ^ j % 2 ≡ (if j == i then 1 else 0))
      × (not32 (1 <<< i) / 2 ^ j % 2 ≡ (if j == i then 0 else 1))
      × (not32 (not32 (1 <<< i)) ≡ 1 <<< i)
  masks =
      let e = all_below_sound 32 _ j (all_below_sound 32 _ i mask_tables hi) hj in ground (arith, e)

-- The status register after a write of it.
pub read_cpsr-write_cpsr : (p : Arm) (v : ℕ) → arm_read_cpsr (arm_write_cpsr p v) ≡ v
unfolding arm_read_cpsr arm_write_cpsr registers_read_cpsr registers_write_cpsr
read_cpsr-write_cpsr p v = refl

-- `put_flag` sets or clears the one bit that it names.
pub put_flag-get_bit :
    (on : Bool) (i j : ℕ) (p : Arm)
    → i < 32
    → j < 32
    → get_bit (arm_read_cpsr (put_flag on i p)) j
      ≡ (if j == i then (if on then 1 else 0) else get_bit (arm_read_cpsr p) j)
unfolding put_flag
put_flag-get_bit true i j p hi hj =
    let old = arm_read_cpsr p in
    rw
      (
        read_cpsr-write_cpsr p (bit_or old (not32 (not32 (1 <<< i)))),
        (masks i j hi hj).2,
        get_bit_lem (bit_or old (1 <<< i)) j,
        or-bit j old (1 <<< i),
        get_bit_lem old j,
        (masks i j hi hj).0,
      )
      (elim (Bool-cases (j == i)) [ inl e ↦ rw e (omega arith) | inr e ↦ rw e (omega arith) ])
put_flag-get_bit false i j p hi hj =
    let old = arm_read_cpsr p in
    rw
      (
        read_cpsr-write_cpsr p (bit_and old (not32 (1 <<< i))),
        get_bit_lem (bit_and old (not32 (1 <<< i))) j,
        and-bit j old (not32 (1 <<< i)),
        get_bit_lem old j,
        (masks i j hi hj).1,
      )
      (elim (Bool-cases (j == i)) [ inl e ↦ rw e (omega arith) | inr e ↦ rw e (omega arith) ])

-- A change of the status register alone.
pub record OnlyCpsr (p p' : Arm) : Type 0 where
  pub registers : (i : ℕ) → i ≢ cpsr → p'.reg.registre i ≡ p.reg.registre i
  pub memory : p'.mem ≡ p.mem
  pub cycles : p'.cycle_count ≡ p.cycle_count
  pub output : p'.printed ≡ p.printed

write_cpsr-OnlyCpsr : (p : Arm) (v : ℕ) → OnlyCpsr p (arm_write_cpsr p v)
unfolding arm_write_cpsr registers_write_cpsr
write_cpsr-OnlyCpsr p v = record {
  registers = λ i ne. ground arith;
  memory = refl;
  cycles = refl;
  output = refl;
}

put_flag-OnlyCpsr : (on : Bool) (i : ℕ) (p : Arm) → OnlyCpsr p (put_flag on i p)
unfolding put_flag
put_flag-OnlyCpsr true i p = write_cpsr-OnlyCpsr p _
put_flag-OnlyCpsr false i p = write_cpsr-OnlyCpsr p _

OnlyCpsr-trans : {p q r : Arm} → OnlyCpsr p q → OnlyCpsr q r → OnlyCpsr p r
OnlyCpsr-trans a b = record {
  registers = λ i ne. b.registers i ne ∙ a.registers i ne;
  memory = b.memory ∙ a.memory;
  cycles = b.cycles ∙ a.cycles;
  output = b.output ∙ a.output;
}

set_flags-OnlyCpsr : (temp : ℕ) (p : Arm) → OnlyCpsr p (set_flags temp p)
unfolding set_flags
set_flags-OnlyCpsr temp p = OnlyCpsr-trans (put_flag-OnlyCpsr _ flag_z p) (
    OnlyCpsr-trans (put_flag-OnlyCpsr _ flag_n _)
      (OnlyCpsr-trans (put_flag-OnlyCpsr _ flag_c _) (put_flag-OnlyCpsr _ flag_v _)))

OnlyCpsr-refl : (p : Arm) → OnlyCpsr p p
OnlyCpsr-refl p = record { registers = λ i ne. refl; memory = refl; cycles = refl; output = refl }

-- Whatever it does, Update_Flags touches no register but the status register, and no memory.
pub update_flags-OnlyCpsr :
    (temp : ℕ) (p : Arm) (bit_s rd_num : ℕ) → OnlyCpsr p (update_flags temp p bit_s rd_num).1
unfolding update_flags
update_flags-OnlyCpsr temp p bit_s rd_num =
    let P = λ (r : ℤ × Arm). OnlyCpsr p r.1 in
    if_both P ((bit_s == 1) && (rd_num == 15)) _ _
      (if_both P (arm_current_mode_has_spsr p) _ _ (write_cpsr-OnlyCpsr p _) (OnlyCpsr-refl p))
      (if_both P (bit_s == 1) _ _ (set_flags-OnlyCpsr temp p) (OnlyCpsr-refl p))

-- The four flags as the code computes them from the 64-bit result.
abbrev pub flags_of : ℕ → ℕ → ℕ
flags_of temp j =
    if j == flag_z
    then (if temp == 0 then 1 else 0)
    else if j == flag_n
    then get_bit temp 31
    else if j == flag_c
    then get_bit temp 32
    else (if temp == u32 temp then 0 else 1)

set_flags-flags_of :
    (temp : ℕ) (p : Arm) (j : ℕ)
    → j < 32
    → get_bit (arm_read_cpsr (set_flags temp p)) j
      ≡ (if ltb j 28 then get_bit (arm_read_cpsr p) j else flags_of temp j)
unfolding set_flags
set_flags-flags_of temp p j hj =
    let p1 = put_flag (temp == 0) flag_z p in
    let p2 = put_flag (get_bit temp 31 == 1) flag_n p1 in
    let p3 = put_flag (get_bit temp 32 == 1) flag_c p2 in
    rw
      (
        put_flag-get_bit (not (temp == u32 temp)) flag_v j p3 (omega arith) hj,
        put_flag-get_bit (get_bit temp 32 == 1) flag_c j p2 (omega arith) hj,
        put_flag-get_bit (get_bit temp 31 == 1) flag_n j p1 (omega arith) hj,
        put_flag-get_bit (temp == 0) flag_z j p (omega arith) hj,
      )
      (ground (arith, get_bit_small temp 31, get_bit_small temp 32))

-- With S set and a destination other than the program counter, the result is 0, the four flags
-- are those of the 64-bit result, and the 28 bits below them stay.
pub update_flags-flags_of :
    (temp : ℕ) (p : Arm) (rd_num j : ℕ)
    → rd_num ≢ 15
    → j < 32
    → ((update_flags temp p 1 rd_num).0 ≡ pos 0)
      × (get_bit (arm_read_cpsr (update_flags temp p 1 rd_num).1) j
          ≡ (if ltb j 28 then get_bit (arm_read_cpsr p) j else flags_of temp j))
unfolding update_flags
update_flags-flags_of temp p rd_num j ne hj =
    let other : (rd_num == 15) ≡ false = ground arith in
    rw other (refl, set_flags-flags_of temp p j hj)
