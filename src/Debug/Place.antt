-- ===== src/Debug/Place.antt =====
-- add_debug_to: the place that its first loop finds, and what its second loop moves.
use Prim.Native.Nat.{Ordering, lt, eq, gt}
use projet_l3_inf_bn_zl_rj_r.Prelude.{
  ℕ, zero, suc, ◌+◌, ◌-◌, ◌≤◌, ◌<◌, ◌≡◌, ◌≢◌, ◌⊎◌, ◌∙◌, refl, List, arith, ltb, leb, ◌==◌,
  if◌then◌else◌, ◌&&◌, Bool-cases, inl, inr, true,
}
use projet_l3_inf_bn_zl_rj_r.Debug.{Files, strcmp, is_less, first_place, put_name, move_up}

-- The place `q` that the loop finds from `i` on.
pub record IsPlace (files : Files) (name : List ℕ) (i rounds q : ℕ) : Type 0 where
  pub low : i ≤ q
  pub high : q ≤ i + rounds
  pub listed : (k : ℕ) → i ≤ k → k < q → k < files.nb_debugged_files
  pub below : (k : ℕ) → i ≤ k → k < q → strcmp (files.debugged_files k) name ≡ lt
  pub above :
      q < i + rounds → q < files.nb_debugged_files → strcmp (files.debugged_files q) name ≢ lt

pub is_less_lem : (o : Ordering) → is_less o ≡ true → o ≡ lt
is_less_lem lt e = refl
is_less_lem eq e = absurd (cc)
is_less_lem gt e = absurd (cc)

pub first_place-IsPlace :
    (files : Files) (name : List ℕ) (rounds i : ℕ)
    → IsPlace files name i rounds (first_place rounds files name i)
unfolding first_place
first_place-IsPlace files name zero i = record {
  low = omega arith;
  high = omega arith;
  listed = λ k h h'. absurd (omega arith);
  below = λ k h h'. absurd (omega arith);
  above = λ h h'. absurd (omega arith);
}
first_place-IsPlace files name (suc rounds) i =
    let rest = first_place-IsPlace files name rounds (i + 1) in
    let q = first_place rounds files name (i + 1) in
    let test = is_less (strcmp (files.debugged_files i) name) in
    elim (Bool-cases (ltb i files.nb_debugged_files && test)) [
      | inl further ↦
          let less : strcmp (files.debugged_files i) name ≡ lt = is_less_lem _ (ground arith) in
          rw further (record {
            low = omega (arith, rest.low);
            high = omega (arith, rest.high);
            listed = λ k h h'. elim (Bool-cases (k == i)) [
              | inl here ↦ ground arith
              | inr later ↦ rest.listed k (ground arith) h'
            ];
            below = λ k h h'. elim (Bool-cases (k == i)) [
              | inl here ↦ let e : k ≡ i = ground arith in rw e less
              | inr later ↦ rest.below k (ground arith) h'
            ];
            above = λ h h'. rest.above (omega arith) h';
          })
      | inr stop ↦ rw stop (record {
        low = omega arith;
        high = omega arith;
        listed = λ k h h'. absurd (omega arith);
        below = λ k h h'. absurd (omega arith);
        above = λ h h' e. let stop' = rw e at stop in ground arith;
      })
    ]

-- The entries from `i` on are moved up by one.
pub move_up_lem :
    (rounds : ℕ) (names : ℕ → List ℕ) (i k : ℕ)
    → move_up rounds names i k ≡ (if ltb i k && leb k (i + rounds) then names (k - 1) else names k)
unfolding move_up
move_up_lem zero names i k = ground arith
move_up_lem (suc rounds) names i k =
    let names' = put_name names (i + suc rounds) (names (i + rounds)) in
    elim (Bool-cases (k == i + suc rounds)) [
      | inl last ↦
          let e : k ≡ i + suc rounds = ground arith in
          let e' : k - 1 ≡ i + rounds = omega arith in
          rw e' (move_up_lem rounds names' i k ∙ ground arith)
      | inr other ↦ move_up_lem rounds names' i k ∙ ground arith
    ]

pub tri : (k q : ℕ) → (k < q) ⊎ (k ≡ q) ⊎ (q < k)
tri k q = elim (Bool-cases (ltb k q)) [
  | inl low ↦ inl (ground arith)
  | inr other ↦ elim (Bool-cases (k == q)) [
    | inl same ↦ inr (inl (ground arith))
    | inr high ↦ inr (inr (ground arith))
  ]
]

pub IsPlace-le :
    (files : Files) (name : List ℕ) (rounds q : ℕ)
    → IsPlace files name 0 rounds q
    → q ≤ files.nb_debugged_files
IsPlace-le files name rounds q at = ground (arith, at.listed (q - 1))
