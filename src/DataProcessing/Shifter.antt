-- ===== src/DataProcessing/Shifter.antt =====
-- Effectuer_Decalage against the four shifts of the ARM manual.
use native.Mathlib.Nat.{
  mod-eq_of_lt, div-lt_iff_lt-mul, div-add-mod', mod-lt, one-le-pow, mul_comm,
  mul-add-mod_self_right, div-le_self,
}
use projet_l3_inf_bn_zl_rj_r.Prelude.{
  ℕ, ◌+◌, ◌-◌, ◌*◌, ◌/◌, ◌%◌, ◌^◌, ◌<◌, ◌≡◌, refl, ◌∙◌, ap, true, ◌&&◌, ◌==◌, ltb, if◌then◌else◌,
  arith, all_below, all_below_sound, ==→eq, bit_or, not32, u32, lt→ltb, if_both,
}
use projet_l3_inf_bn_zl_rj_r.Bits.Mask.{or_fields, or_comm, or_self, le-or_right, or-lt}
use projet_l3_inf_bn_zl_rj_r.Util.{get_bit}
use projet_l3_inf_bn_zl_rj_r.Util.Laws.{get_bit_lem}
use projet_l3_inf_bn_zl_rj_r.Constants.{lsl, lsr, asr, ror}
use projet_l3_inf_bn_zl_rj_r.Machine.{Machine, shift_left}
use projet_l3_inf_bn_zl_rj_r.DataProcessing.{effectuer_decalage}

pow_table : all_below 33 (λ v. 2 ^ v * 2 ^ (32 - v) == 2 ^ 32) ≡ true
unfolding all_below
pow_table = refl

pow_split : (v : ℕ) → v < 33 → 2 ^ v * 2 ^ (32 - v) ≡ 2 ^ 32
pow_split v h = ==→eq _ _ (all_below_sound 33 _ v pow_table h)

in_range : (m : Machine) (x n : ℕ) → n < 32 → shift_left m x n ≡ u32 (x * 2 ^ n)
unfolding shift_left
in_range m x n h = rw (lt→ltb n 32 h) refl

shift_left-lt : (m : Machine) (x n : ℕ) → shift_left m x n < 2 ^ 32
unfolding shift_left
shift_left-lt m x n = ground arith

-- The bits that a shift to the left by `32 - v` keeps are the `v` low bits.
kept : (r v : ℕ) → v < 33 → u32 (r * 2 ^ (32 - v)) ≡ r % 2 ^ v * 2 ^ (32 - v)
kept r v h =
    let whole : r * 2 ^ (32 - v) ≡ r / 2 ^ v * 2 ^ 32 + r % 2 ^ v * 2 ^ (32 - v) = omega (
      arith,
      ap (λ (t : ℕ). t * 2 ^ (32 - v)) (div-add-mod' r (2 ^ v)),
      ap (λ (t : ℕ). r / 2 ^ v * t) (pow_split v h),
    ) in
    let below : r % 2 ^ v * 2 ^ (32 - v) < 2 ^ 32 = grind (
      arith,
      pow_split v h,
      mod-lt r (one-le-pow v 2 (omega arith)),
      one-le-pow (32 - v) 2 (omega arith),
    ) in
    rw whole (mul-add-mod_self_right (r / 2 ^ v) (2 ^ 32) _ ∙ mod-eq_of_lt below)

high_part : (r v : ℕ) → v < 33 → r < 2 ^ 32 → r / 2 ^ v < 2 ^ (32 - v)
high_part r v h small =
    (div-lt_iff_lt-mul (one-le-pow v 2 (omega arith))).1
      (omega (arith, pow_split v h, mul_comm (2 ^ v) (2 ^ (32 - v))))

-- `|` of the two parts of a rotated value is their sum.
or_parts :
    (r v q : ℕ)
    → v < 33
    → r < 2 ^ 32
    → bit_or (r / 2 ^ v) (q * 2 ^ (32 - v)) ≡ q * 2 ^ (32 - v) + r / 2 ^ v
or_parts r v q h small =
    or_comm (r / 2 ^ v) (q * 2 ^ (32 - v))
    ∙ or_fields (32 - v) q (r / 2 ^ v) (high_part r v h small)

sign_table :
    all_below 32 (λ v.
      (2 ^ 32 - 1) % 2 ^ v == 2 ^ v - 1 && (2 ^ v - 1) * 2 ^ (32 - v) == 2 ^ 32 - 2 ^ (32 - v))
    ≡ true
unfolding all_below
sign_table = refl

-- The mask of ASR has ones in its `v` high places.
sign_mask :
    (v : ℕ)
    → v < 32
    → ((2 ^ 32 - 1) % 2 ^ v ≡ 2 ^ v - 1) × ((2 ^ v - 1) * 2 ^ (32 - v) ≡ 2 ^ 32 - 2 ^ (32 - v))
sign_mask v h = let e = all_below_sound 32 _ v sign_table h in ground (arith, e)

module _ (m : Machine) (v r : ℕ) (pos : 0 < v) (fits : v < 32) (small : r < 2 ^ 32) where
  rotated : bit_or (r / 2 ^ v) (shift_left m r (32 - v)) ≡ r % 2 ^ v * 2 ^ (32 - v) + r / 2 ^ v
  rotated =
      rw (in_range m r (32 - v) (omega arith), kept r v (omega arith))
        (or_parts r v (r % 2 ^ v) (omega arith) small)

  extended :
      bit_or (r / 2 ^ v) (shift_left m (not32 0) (32 - v)) ≡ 2 ^ 32 - 2 ^ (32 - v) + r / 2 ^ v
  extended =
      rw
        (
          in_range m (not32 0) (32 - v) (omega arith),
          kept (not32 0) v (omega arith),
          (sign_mask v fits).0,
          or_parts r v (2 ^ v - 1) (omega arith) small,
          (sign_mask v fits).1,
        )
        refl

-- The value that the ARM manual gives for a shift of a word.
unfoldable pub shifted : ℕ → ℕ → ℕ → ℕ
shifted kind v r =
    if kind == lsl
    then r * 2 ^ v % 2 ^ 32
    else if kind == lsr
    then r / 2 ^ v
    else if kind == asr
    then r / 2 ^ v + (if ltb r (2 ^ 31) then 0 else 2 ^ 32 - 2 ^ (32 - v))
    else r % 2 ^ v * 2 ^ (32 - v) + r / 2 ^ v

-- For shifts of 1 to 31 places, each kind gives the value of the ARM manual: multiplication
-- modulo 2^32, division, division that repeats the sign, and rotation.
pub effectuer_decalage-shifted :
    (m : Machine) (kind v r : ℕ)
    → 0 < v
    → v < 32
    → r < 2 ^ 32
    → effectuer_decalage m kind v r ≡ shifted kind v r
unfolding effectuer_decalage shifted
effectuer_decalage-shifted m kind v r pos fits small = ground (
  arith,
  in_range m r v,
  rotated m v r pos fits small,
  extended m v r pos fits small,
  get_bit_lem r 31,
)

-- A rotation or an arithmetic shift by 0 shifts a word by 32 places to the left, which C leaves
-- undefined. Where that leaves the word alone, as on x86, a rotation by 0, which every small
-- immediate operand goes through, gives the word back; so does an arithmetic shift by 0 of a word
-- that is not negative, while that of a negative word gives all ones.
pub effectuer_decalage-zero :
    (m : Machine) (r : ℕ)
    → ((x : ℕ) → m.oversized_shift x 32 ≡ x)
    → r < 2 ^ 32
    → (effectuer_decalage m ror 0 r ≡ r)
      × (effectuer_decalage m asr 0 r ≡ (if ltb r (2 ^ 31) then r else 2 ^ 32 - 1))
unfolding effectuer_decalage shift_left
effectuer_decalage-zero m r masked small =
    let word : r / 1 ≡ r = omega arith in
    let cut : u32 r ≡ r = mod-eq_of_lt small in
    (
      rw (word, masked r, cut) (or_self r),
      rw (masked (not32 0), word)
          (ground (arith, get_bit_lem r 31, le-or_right r (not32 0), or-lt 32 r (not32 0) small)),
    )

-- Whatever the shift, the shifter gives a word.
pub effectuer_decalage-lt :
    (m : Machine) (kind v r : ℕ) → r < 2 ^ 32 → effectuer_decalage m kind v r < 2 ^ 32
unfolding effectuer_decalage
effectuer_decalage-lt m kind v r small =
    let P = λ (x : ℕ). x < 2 ^ 32 in
    let low : r / 2 ^ v < 2 ^ 32 = omega (arith, div-le_self r (2 ^ v)) in
    let left = λ (x n : ℕ). shift_left-lt m x n in
    if_both P (kind == lsl) _ _ (left r v) (
      if_both P (kind == lsr) _ _ low (
        if_both P (kind == asr) _ _
          (if_both P (get_bit r 31 == 1) _ _ (or-lt 32 _ _ low (left (not32 0) (32 - v))) low)
          (or-lt 32 _ _ low (left r (32 - v)))))
