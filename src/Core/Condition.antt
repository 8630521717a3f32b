-- ===== src/Core/Condition.antt =====
-- The condition field of an instruction: `cond_not_respect` against the table of the ARM manual.
use native.Mathlib.Nat.{mod-eq_of_lt}
use projet_l3_inf_bn_zl_rj_r.Prelude.{
  ℕ, ◌/◌, ◌%◌, ◌<◌, ◌≡◌, refl, Bool, true, not, ◌&&◌, ◌==◌, if◌then◌else◌, arith, all_below,
  all_below_sound,
}
use projet_l3_inf_bn_zl_rj_r.Util.{get_bit, get_bits}
use projet_l3_inf_bn_zl_rj_r.Util.Laws.{get_bit_small, get_bits_lem}
use projet_l3_inf_bn_zl_rj_r.Constants.{flag_n, flag_z, flag_c, flag_v}
use projet_l3_inf_bn_zl_rj_r.Core.{Arm, arm_read_cpsr, condition_result, cond_not_respect}

-- The table of conditions EQ to AL: the lowest bit of the code negates the test of the others.
base_test : ℕ → (n z c v : Bool) → Bool
base_test pair n z c v =
    if pair == 0
    then z
    else if pair == 1
    then c
    else if pair == 2
    then n
    else if pair == 3
    then v
    else if pair == 4
    then (c && not z)
    else if pair == 5
    then (if n then v else not v)
    else if pair == 6
    then (not z && (if n then v else not v))
    else true

unfoldable pub holds : ℕ → (n z c v : Bool) → Bool
unfolding base_test
holds cond n z c v =
    if cond % 2 == 0 then base_test (cond / 2) n z c v else not (base_test (cond / 2) n z c v)

abbrev pub is_set : ℕ → ℕ → Bool
is_set status i = get_bit status i == 1

-- What the code gives for each condition and flags.
expected : ℕ → (n z c v : Bool) → ℕ
expected cond n z c v =
    if cond == 5
    then (if n then 0 else 1)
    else if cond == 13
    then 0
    else if cond == 15
    then 2
    else if holds cond n z c v
    then 0
    else 1

-- All conditions, over all flags, by running both sides.
agrees : ℕ → ℕ → ℕ → ℕ → ℕ → Bool
agrees cond n z c v =
    condition_result cond n z c v == expected cond (n == 1) (z == 1) (c == 1) (v == 1)

table :
    all_below 16 (λ cond.
      all_below 2 λ n. all_below 2 λ z. all_below 2 λ c. all_below 2 λ v. agrees cond n z c v)
    ≡ true
unfolding all_below agrees expected condition_result holds
table = refl

agrees_all :
    (cond n z c v : ℕ) → cond < 16 → n < 2 → z < 2 → c < 2 → v < 2 → agrees cond n z c v ≡ true
agrees_all cond n z c v hcond hn hz hc hv =
    all_below_sound 2 _ v
      (all_below_sound 2 _ c
        (all_below_sound 2 _ z (all_below_sound 2 _ n (all_below_sound 16 _ cond table hcond) hn)
          hz)
        hc)
      hv

-- The condition code of an instruction, and a flag of the processor.
abbrev pub cond_field : ℕ → ℕ
cond_field ins = get_bits ins 31 28

abbrev pub flag : Arm → ℕ → Bool
flag p i = get_bit (arm_read_cpsr p) i == 1

cond_field-lt : (ins : ℕ) → cond_field ins < 16
cond_field-lt ins = omega (arith, get_bits_lem ins 31 28 (omega arith))

-- What the parts of `cond_not_respect` are before the conversions to `uint8_t`.
as_result :
    (p : Arm) (ins : ℕ)
    → cond_not_respect p ins
      ≡ condition_result
          (cond_field ins)
          (get_bit (arm_read_cpsr p) flag_n)
          (get_bit (arm_read_cpsr p) flag_z)
          (get_bit (arm_read_cpsr p) flag_c)
          (get_bit (arm_read_cpsr p) flag_v)
unfolding cond_not_respect
as_result p ins =
    let byte = λ (x : ℕ) (h : x < 256). mod-eq_of_lt h in
    let bit = λ (i : ℕ).
      byte (get_bit (arm_read_cpsr p) i) (omega (arith, get_bit_small (arm_read_cpsr p) i)) in
    rw
      (
        byte (cond_field ins) (omega (arith, cond_field-lt ins)),
        bit flag_n,
        bit flag_z,
        bit flag_c,
        bit flag_v,
      )
      refl

-- The result of `cond_not_respect` for every instruction and every state: PL (code 5) is carried out
-- exactly when the flag N is set, the opposite of the ARM manual, LE (code 13) is always carried out,
-- and the code 15 gives 2; for every other code the result is 0 exactly when the condition of the
-- ARM manual holds of the flags, and 1 otherwise.
pub cond_not_respect-holds :
    (p : Arm) (ins : ℕ)
    → cond_not_respect p ins ≡ (
        if cond_field ins == 5
        then (if flag p flag_n then 0 else 1)
        else if cond_field ins == 13
        then 0
        else if cond_field ins == 15
        then 2
        else if holds
            (cond_field ins)
            (flag p flag_n)
            (flag p flag_z)
            (flag p flag_c)
            (flag p flag_v)
        then 0
        else 1)
cond_not_respect-holds p ins =
    let bit = get_bit (arm_read_cpsr p) in
    let small = λ (i : ℕ). get_bit_small (arm_read_cpsr p) i in
    let e =
      agrees_all (cond_field ins) (bit flag_n) (bit flag_z) (bit flag_c) (bit flag_v)
        (cond_field-lt ins) (omega (arith, small flag_n)) (omega (arith, small flag_z))
        (omega (arith, small flag_c)) (omega (arith, small flag_v)) in
    unfold agrees expected in ground (arith, e, as_result p ins)
