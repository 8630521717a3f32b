-- ===== src/Debug/Search.antt =====
-- __is_debugged: the binary search in a table of names that ascends.
use Prim.Native.Nat.{lt, eq, gt}
use projet_l3_inf_bn_zl_rj_r.Prelude.{
  ℕ, zero, suc, ◌+◌, ◌-◌, ◌/◌, ◌≤◌, ◌<◌, ◌≡◌, ◌≢◌, ◌↔◌, refl, List, arith, ltb, ◌==◌, Bool-cases,
  inl, inr, true,
}
use projet_l3_inf_bn_zl_rj_r.Debug.{Files, strcmp, search_name, is_debugged}
use projet_l3_inf_bn_zl_rj_r.Debug.Order.{Ordering-cases, strcmp_self, strcmp-eq, not_gt-lt}

-- The first `n` names ascend; a name may stand there more than once.
abbrev pub Ascends : (ℕ → List ℕ) → ℕ → Type 0
Ascends names n = (i j : ℕ) → i < j → j < n → strcmp (names i) (names j) ≢ gt

abbrev pub IsSorted : Files → Type 0
IsSorted files = Ascends files.debugged_files files.nb_debugged_files

abbrev pub Lists : Files → List ℕ → Type 0
Lists files name = (i : ℕ) × (i < files.nb_debugged_files) × (files.debugged_files i ≡ name)

-- An entry is behind every entry that is below it, and before every entry that is above it.
after :
    (files : Files)
    → IsSorted files
    → (middle i : ℕ) → middle < files.nb_debugged_files
    → strcmp (files.debugged_files middle) (files.debugged_files i) ≡ lt
    → middle < i
after files sorted middle i inside less = elim (Bool-cases (ltb middle i)) [
  | inl behind ↦ ground arith
  | inr other ↦ elim (Bool-cases (i == middle)) [
    | inl same ↦
        let k : i ≡ middle = ground arith in
        let less' : strcmp (files.debugged_files middle) (files.debugged_files middle) ≡ lt =
          rw k at less in
        absurd (cc (strcmp_self (files.debugged_files middle)))
    | inr before ↦
        let le = sorted i middle (ground arith) inside in
        absurd (cc (not_gt-lt _ _ _ le less, strcmp_self (files.debugged_files i)))
  ]
]

before :
    (files : Files)
    → IsSorted files
    → (middle i : ℕ) → i < files.nb_debugged_files
    → strcmp (files.debugged_files middle) (files.debugged_files i) ≡ gt
    → i < middle
before files sorted middle i inside more = elim (Bool-cases (ltb i middle)) [
  | inl less ↦ ground arith
  | inr other ↦ elim (Bool-cases (i == middle)) [
    | inl same ↦
        let k : i ≡ middle = ground arith in
        let more' : strcmp (files.debugged_files middle) (files.debugged_files middle) ≡ gt =
          rw k at more in
        absurd (cc (strcmp_self (files.debugged_files middle)))
    | inr behind ↦ absurd (sorted middle i (ground arith) inside more)
  ]
]

module _ (files : Files) (name : List ℕ) where
  search_sound :
      (fuel from end : ℕ)
      → end ≤ files.nb_debugged_files
      → search_name fuel files name from end ≡ 1
      → Lists files name
  unfolding search_name
  search_sound zero from end inside e = absurd (omega (arith, e))
  search_sound (suc fuel) from end inside e =
      let middle = (from + (end - 1)) / 2 in
      elim (Bool-cases (ltb (from + 1) end)) [
        | inl many ↦ elim (Ordering-cases (strcmp (files.debugged_files middle) name)) [
          | inl less ↦ let e' = rw (many, less) at e in search_sound fuel (middle + 1) end inside e'
          | inr (inl same) ↦ (middle, ground arith, strcmp-eq _ _ same)
          | inr (inr more) ↦
              let e' = rw (many, more) at e in search_sound fuel from middle (ground arith) e'
        ]
        | inr few ↦ elim (Bool-cases (from + 1 == end)) [
          | inl one ↦ elim (Ordering-cases (strcmp (files.debugged_files from) name)) [
            | inl less ↦ let e' = rw (few, one, less) at e in absurd (omega (arith, e'))
            | inr (inl same) ↦ (from, ground arith, strcmp-eq _ _ same)
            | inr (inr more) ↦ let e' = rw (few, one, more) at e in absurd (omega (arith, e'))
          ]
          | inr empty ↦ let e' = rw (few, empty) at e in absurd (omega (arith, e'))
        ]
      ]

  search_complete :
      IsSorted files
      → (fuel from end i : ℕ) → end ≤ files.nb_debugged_files
      → end < from + fuel
      → from ≤ i
      → i < end
      → files.debugged_files i ≡ name
      → search_name fuel files name from end ≡ 1
  unfolding search_name
  search_complete sorted zero from end i inside enough low high e = absurd (omega arith)
  search_complete sorted (suc fuel) from end i inside enough low high e =
      let middle = (from + (end - 1)) / 2 in
      let names = files.debugged_files in
      elim (Bool-cases (ltb (from + 1) end)) [
        | inl many ↦ elim (Ordering-cases (strcmp (names middle) name)) [
          | inl less ↦
              rw (many, less)
                (search_complete sorted fuel (middle + 1) end i inside (ground arith)
                  (omega (arith, after files sorted middle i (ground arith) (rw e less))) high e)
          | inr (inl same) ↦ rw (many, same) refl
          | inr (inr more) ↦
              rw (many, more)
                (search_complete sorted fuel from middle i (ground arith) (ground arith) low
                  (before files sorted middle i (omega arith) (rw e more)) e)
        ]
        | inr few ↦
            let one : (from + 1 == end) ≡ true = ground arith in
            let here : i ≡ from = ground arith in
            let same : strcmp (names from) name ≡ eq = rw (← here) (rw e (strcmp_self name)) in
            rw (few, one, same) refl
      ]

-- In a table in order, __is_debugged gives 1 exactly for the names of the table.
pub is_debugged-Lists :
    (files : Files) (name : List ℕ)
    → IsSorted files
    → (is_debugged files name ≡ 1) ↔ Lists files name
unfolding is_debugged
is_debugged-Lists files name sorted = (
  search_sound files name _ 0 _ (omega arith),
  λ (i, inside, e).
      search_complete files name sorted _ 0 _ i (omega arith) (omega arith) (omega arith) inside e,
)
