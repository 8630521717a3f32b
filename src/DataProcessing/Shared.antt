-- ===== src/DataProcessing/Shared.antt =====
-- The shift functions of util.c against the shifter of arm_data_processing.c.
use projet_l3_inf_bn_zl_rj_r.Prelude.{
  ℕ, ◌^◌, ◌<◌, ◌≡◌, refl, sym, ◌∙◌, ◌==◌, Bool, arith, Bool-cases, inl, inr,
}
use projet_l3_inf_bn_zl_rj_r.Bits.Mask.{or-zero}
use projet_l3_inf_bn_zl_rj_r.Util.{get_bit}
use projet_l3_inf_bn_zl_rj_r.Util.Laws.{get_bit_small}
use projet_l3_inf_bn_zl_rj_r.Util.Shift
use projet_l3_inf_bn_zl_rj_r.Constants.{asr, ror}
use projet_l3_inf_bn_zl_rj_r.Machine.{Machine}
use projet_l3_inf_bn_zl_rj_r.DataProcessing.{effectuer_decalage}
use projet_l3_inf_bn_zl_rj_r.DataProcessing.Shifter.{shifted, effectuer_decalage-shifted}

-- asr and ror of util.c do what the shifter does for these two kinds, whatever the shift.
effectuer_decalage-util :
    (m : Machine) (v r : ℕ)
    → (effectuer_decalage m asr v r ≡ Shift.asr m r v)
      × (effectuer_decalage m ror v r ≡ Shift.ror m r v)
unfolding effectuer_decalage Shift.asr Shift.ror
effectuer_decalage-util m v r = (arithmetic, refl)
  where
    arithmetic : effectuer_decalage m asr v r ≡ Shift.asr m r v
    arithmetic = elim (Bool-cases (get_bit r 31 == 1)) [
      | inl negative ↦
          let e : (get_bit r 31 == 0) ≡ Bool.false = ground arith in rw (negative, e) refl
      | inr other ↦
          let e : (get_bit r 31 == 0) ≡ Bool.true = ground (arith, get_bit_small r 31) in
          rw (other, e) (sym (or-zero _))
    ]

-- For a word and a shift of 1 to 31 places, asr of util.c is the division that repeats the sign and
-- ror the rotation of the ARM manual, as the shifter of the processor computes them.
pub asr-ror-shifted :
    (m : Machine) (v r : ℕ)
    → 0 < v
    → v < 32
    → r < 2 ^ 32
    → (Shift.asr m r v ≡ shifted asr v r)
      × (Shift.ror m r v ≡ shifted ror v r)
      × (Shift.asr m r v ≡ effectuer_decalage m asr v r)
      × (Shift.ror m r v ≡ effectuer_decalage m ror v r)
asr-ror-shifted m v r pos fits small =
    let same = effectuer_decalage-util m v r in
    (
      sym same.0 ∙ effectuer_decalage-shifted m asr v r pos fits small,
      sym same.1 ∙ effectuer_decalage-shifted m ror v r pos fits small,
      sym same.0,
      sym same.1,
    )
