-- ===== src/Names/Lookup.antt =====
-- Names against numbers.
use projet_l3_inf_bn_zl_rj_r.Prelude.{
  ℕ, zero, suc, ◌+◌, ◌<◌, ◌≡◌, ◌↔◌, ◌==◌, Bool, true, List, [], ◌∷◌, none, some, ◌∙◌, ap, sym, refl,
  all_below, all_below_sound, ==→eq, gives, gives_sound, arith, inl, inr, Bool-cases, Option-cases,
  u8,
}
use projet_l3_inf_bn_zl_rj_r.Constants.{reset}
use projet_l3_inf_bn_zl_rj_r.Libc.{same_text}
use projet_l3_inf_bn_zl_rj_r.Names.{
  entry, arm_exception_names, arm_get_exception_name, search_irq, chosen_irq,
}

same_text-eq : (s t : List ℕ) → same_text s t ≡ true → s ≡ t
unfolding same_text
same_text-eq [] [] e = refl
same_text-eq [] (d ∷ t) e = absurd (cc)
same_text-eq (c ∷ s) [] e = absurd (cc)
same_text-eq (c ∷ s) (d ∷ t) e = elim (Bool-cases (c == d)) [
  | inl same ↦
      let rest = rw (same_text, same) at e in rw (==→eq c d same, same_text-eq s t rest) refl
  | inr other ↦ let e' = rw (same_text, other) at e in absurd (cc)
]

search_irq-name :
    (rounds irq i : ℕ) (name : List ℕ)
    → search_irq rounds irq name ≡ some i
    → arm_get_exception_name i ≡ some name
unfolding search_irq
search_irq-name zero irq i name e = absurd (cc)
search_irq-name (suc rounds) irq i name e = elim (Option-cases (arm_get_exception_name irq)) [
  | inl null ↦ let e' = rw (search_irq, null) at e in absurd (cc)
  | inr (text, h) ↦ elim (Bool-cases (same_text text name)) [
    | inl same ↦
        let e' = rw (search_irq, h, same) at e in
        let here : irq ≡ i = cc in rw (sym here) (h ∙ ap some (same_text-eq text name same))
    | inr other ↦
        let e' = rw (search_irq, h, other) at e in search_irq-name rounds (u8 (irq + 1)) i name e'
  ]
]

-- Every exception that has a name is found by it.
finds : ℕ → Bool
finds irq = elim (arm_get_exception_name irq) [
  | none ↦ true
  | some name ↦ gives (chosen_irq (some name)) irq
]

finds_all : all_below 8 finds ≡ true
unfolding all_below finds gives chosen_irq search_irq same_text arm_get_exception_name entry
    arm_exception_names
finds_all = refl

numbered : (irq : ℕ) (name : List ℕ) → arm_get_exception_name irq ≡ some name → irq < 8
unfolding arm_get_exception_name
numbered irq name e = ground arith

found :
    (irq : ℕ) (name : List ℕ)
    → arm_get_exception_name irq ≡ some name
    → finds irq ≡ true
    → gives (chosen_irq (some name)) irq ≡ true
unfolding finds
found irq name h e = rw (finds, h) at e

-- For every name and number, `send_irq` chooses that number for the name exactly if
-- arm_get_exception_name gives the name for it.
pub chosen_irq-name :
    (name : List ℕ) (irq : ℕ)
    → chosen_irq (some name) ≡ some irq ↔ arm_get_exception_name irq ≡ some name
unfolding chosen_irq
chosen_irq-name name irq = (
  search_irq-name 8 reset irq name,
  λ h.
      gives_sound (chosen_irq (some name)) irq
        (found irq name h (all_below_sound 8 finds irq finds_all (numbered irq name h))),
)
