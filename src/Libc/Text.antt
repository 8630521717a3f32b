-- ===== src/Libc/Text.antt =====
-- Lengths of texts, and pointers into them.
use projet_l3_inf_bn_zl_rj_r.Prelude.{
  ℕ, zero, suc, ◌+◌, ◌≡◌, refl, ap, List, [], ◌∷◌, ◌++◌, some, arith,
}
use projet_l3_inf_bn_zl_rj_r.Libc.{length, take, advance, print_hex}

pub length-++ : (s t : List ℕ) → length (s ++ t) ≡ length s + length t
length-++ [] t = omega arith
length-++ (c ∷ s) t = omega (arith, length-++ s t)

pub length-print_hex : (width value : ℕ) → length (print_hex width value) ≡ width
unfolding print_hex
length-print_hex zero value = refl
length-print_hex (suc width) value = ap suc (length-print_hex width value)

pub ++-assoc : (s t u : List ℕ) → (s ++ t) ++ u ≡ s ++ (t ++ u)
++-assoc [] t u = refl
++-assoc (c ∷ s) t u = ap (λ (r : List ℕ). c ∷ r) (++-assoc s t u)

pub take-++ : (s t : List ℕ) → take (length s) (s ++ t) ≡ s
unfolding take
take-++ [] t = refl
take-++ (c ∷ s) t = ap (λ (r : List ℕ). c ∷ r) (take-++ s t)

-- A pointer to a text and what follows it stays inside the array.
pub advance_zero : (s : List ℕ) (c : ℕ) (t : List ℕ) → advance 0 (s ++ c ∷ t) ≡ some (s ++ c ∷ t)
unfolding advance
advance_zero [] c t = refl
advance_zero (b ∷ s) c t = refl

-- A pointer that is moved behind a text and one character more.
pub advance-++ :
    (s : List ℕ) (d c : ℕ) (t : List ℕ) → advance (length s + 1) (s ++ d ∷ c ∷ t) ≡ some (c ∷ t)
unfolding advance
advance-++ [] d c t = refl
advance-++ (b ∷ s) d c t =
    let e : suc (length s) + 1 ≡ suc (length s + 1) = omega arith in rw e (advance-++ s d c t)
