-- ===== src/Debug/Order.antt =====
-- The order of names that `strcmp` makes.
use Prim.Native.Nat.{Ordering, lt, eq, gt}
use projet_l3_inf_bn_zl_rj_r.Prelude.{ℕ, ◌≡◌, ◌≢◌, ◌⊎◌, refl, List, [], ◌∷◌, arith, inl, inr}
use projet_l3_inf_bn_zl_rj_r.Debug.{strcmp}

pub Ordering-cases : (o : Ordering) → (o ≡ lt) ⊎ (o ≡ eq) ⊎ (o ≡ gt)
Ordering-cases lt = inl refl
Ordering-cases eq = inr (inl refl)
Ordering-cases gt = inr (inr refl)

pub strcmp_self : (s : List ℕ) → strcmp s s ≡ eq
unfolding strcmp
strcmp_self [] = refl
strcmp_self (x ∷ s) = ground (arith, strcmp_self s)

pub strcmp-eq : (s t : List ℕ) → strcmp s t ≡ eq → s ≡ t
unfolding strcmp
strcmp-eq [] [] e = refl
strcmp-eq [] (y ∷ t) e = absurd (cc)
strcmp-eq (x ∷ s) [] e = absurd (cc)
strcmp-eq (x ∷ s) (y ∷ t) e = ground (arith, strcmp-eq s t)

-- What is not above a name that is not above a third is not above the third.
pub not_gt_trans : (a b c : List ℕ) → strcmp a b ≢ gt → strcmp b c ≢ gt → strcmp a c ≢ gt
unfolding strcmp
not_gt_trans [] b [] h k e = cc
not_gt_trans [] b (z ∷ c) h k e = cc
not_gt_trans (x ∷ a) [] c h k e = absurd (h refl)
not_gt_trans (x ∷ a) (y ∷ b) [] h k e = absurd (k refl)
not_gt_trans (x ∷ a) (y ∷ b) (z ∷ c) h k e = ground (arith, not_gt_trans a b c)

-- Below a name, and below whatever is not below that.
pub lt-not_gt : (a b c : List ℕ) → strcmp a b ≡ lt → strcmp b c ≢ gt → strcmp a c ≡ lt
unfolding strcmp
lt-not_gt [] [] [] h k = h
lt-not_gt [] (y ∷ b) [] h k = absurd (k refl)
lt-not_gt [] b (z ∷ c) h k = refl
lt-not_gt (x ∷ a) [] c h k = absurd (cc)
lt-not_gt (x ∷ a) (y ∷ b) [] h k = absurd (k refl)
lt-not_gt (x ∷ a) (y ∷ b) (z ∷ c) h k = ground (arith, lt-not_gt a b c)

pub not_gt-lt : (a b c : List ℕ) → strcmp a b ≢ gt → strcmp b c ≡ lt → strcmp a c ≡ lt
unfolding strcmp
not_gt-lt [] [] c h k = k
not_gt-lt [] (y ∷ b) [] h k = absurd (cc)
not_gt-lt [] (y ∷ b) (z ∷ c) h k = refl
not_gt-lt (x ∷ a) [] c h k = absurd (h refl)
not_gt-lt (x ∷ a) (y ∷ b) [] h k = absurd (cc)
not_gt-lt (x ∷ a) (y ∷ b) (z ∷ c) h k = ground (arith, not_gt-lt a b c)

pub lt-flip : (a b : List ℕ) → strcmp a b ≢ lt → strcmp b a ≢ gt
unfolding strcmp
lt-flip [] [] h e = cc
lt-flip [] (y ∷ b) h e = absurd (h refl)
lt-flip (x ∷ a) [] h e = cc
lt-flip (x ∷ a) (y ∷ b) h e = ground (arith, lt-flip a b)

pub lt-converse : (a b : List ℕ) → strcmp a b ≡ lt → strcmp b a ≡ gt
unfolding strcmp
lt-converse [] [] h = absurd (cc)
lt-converse [] (y ∷ b) h = refl
lt-converse (x ∷ a) [] h = absurd (cc)
lt-converse (x ∷ a) (y ∷ b) h = ground (arith, lt-converse a b)
