-- ===== src/Debug/Insert.antt =====
-- add_debug_to: the insertion into a table of names that ascends.
use Prim.Native.Nat.{lt, gt}
use projet_l3_inf_bn_zl_rj_r.Prelude.{
  ℕ, ◌+◌, ◌-◌, ◌≤◌, ◌<◌, ◌≡◌, ◌≢◌, ◌↔◌, ◌⊎◌, ◌∙◌, refl, sym, List, arith, ltb, ◌==◌, if◌then◌else◌,
  ◌&&◌, Bool-cases, inl, inr, true, false, some, none,
}
use projet_l3_inf_bn_zl_rj_r.Debug.{
  Files, strcmp, is_less, first_place, put_name, move_up, add_debug_to, max_files_number,
  is_debugged,
}
use projet_l3_inf_bn_zl_rj_r.Debug.Order.{not_gt_trans, lt-flip, lt-converse}
use projet_l3_inf_bn_zl_rj_r.Debug.Place.{
  IsPlace, is_less_lem, first_place-IsPlace, move_up_lem, tri, IsPlace-le,
}
use projet_l3_inf_bn_zl_rj_r.Debug.Search.{Ascends, IsSorted, Lists, is_debugged-Lists}

-- The table with `name` put in at the place `q`.
module _ (files : Files) (name : List ℕ) (sorted : IsSorted files) (q : ℕ)
    (at : IsPlace files name 0 max_files_number q) (open_place : q < max_files_number) where
  abbrev n : ℕ
  n = files.nb_debugged_files

  abbrev inserted : ℕ → List ℕ
  inserted = put_name (move_up (n - q) files.debugged_files q) q name

  place-le : q ≤ n
  place-le = IsPlace-le files name max_files_number q at

  entry_below : (k : ℕ) → k < q → inserted k ≡ files.debugged_files k
  entry_below k h = ground (arith, move_up_lem (n - q) files.debugged_files q k)

  entry_at : inserted q ≡ name
  entry_at = ground arith

  entry_above : (k : ℕ) → q < k → k < n + 1 → inserted k ≡ files.debugged_files (k - 1)
  entry_above k h h' = ground (arith, move_up_lem (n - q) files.debugged_files q k, place-le)

  not_below : (k : ℕ) → q ≤ k → k < n → strcmp name (files.debugged_files k) ≢ gt
  not_below k h h' =
      let first = lt-flip _ _ (at.above (omega arith) (omega arith)) in
      elim (Bool-cases (k == q)) [
        | inl same ↦ let e : k ≡ q = ground arith in rw e first
        | inr later ↦ not_gt_trans _ _ _ first (sorted q k (ground arith) h')
      ]

  not_above : (k : ℕ) → k < q → strcmp (files.debugged_files k) name ≢ gt
  not_above k h e = cc (at.below k (omega arith) h)

  inserted-Ascends : Ascends inserted (n + 1)
  inserted-Ascends i j h inside = elim (tri i q) [
    | inl low ↦ elim (tri j q) [
      | inl low' ↦
          rw (entry_below i low, entry_below j low') (sorted i j h (omega (arith, place-le)))
      | inr (inl same) ↦ rw (entry_below i low, same, entry_at) (not_above i low)
      | inr (inr high) ↦
          rw (entry_below i low, entry_above j high inside)
            (sorted i (j - 1) (omega arith) (omega arith))
    ]
    | inr (inl same) ↦
        let high : q < j = omega arith in
        rw (same, entry_at, entry_above j high inside)
          (not_below (j - 1) (omega arith) (omega arith))
    | inr (inr high) ↦
        rw (entry_above i high (omega arith), entry_above j (omega arith) inside)
          (sorted (i - 1) (j - 1) (omega arith) (omega arith))
  ]

  abbrev added : Files
  added = record { debugged_files = inserted; nb_debugged_files = n + 1 }

  added-Lists : (y : List ℕ) → Lists added y ↔ (y ≡ name) ⊎ Lists files y
  added-Lists y = (
    λ (i, inside, e). elim (tri i q) [
      | inl low ↦ inr (i, omega (arith, place-le), sym (entry_below i low) ∙ e)
      | inr (inl same) ↦ inl (sym e ∙ rw (same, entry_at) refl)
      | inr (inr high) ↦ inr (i - 1, omega arith, sym (entry_above i high inside) ∙ e)
    ],
    λ either. elim either [
      | inl new ↦ (q, omega (arith, place-le), entry_at ∙ sym new)
      | inr (i, inside, e) ↦ elim (Bool-cases (ltb i q)) [
        | inl low ↦ (i, omega arith, entry_below i (ground arith) ∙ e)
        | inr high ↦
            let back : i + 1 - 1 ≡ i = omega arith in
            (i + 1, omega arith, entry_above (i + 1) (ground arith) (omega arith) ∙ rw back e)
      ]
    ],
  )

-- A name is added to a table in order that has fewer than 64.
pub add_debug_to-Lists :
    (files : Files) (name : List ℕ)
    → IsSorted files
    → files.nb_debugged_files < max_files_number
    → (files' : Files) × (add_debug_to files name ≡ some files')
      × IsSorted files'
      × (files'.nb_debugged_files ≡ files.nb_debugged_files + 1)
      × ((y : List ℕ) → Lists files' y ↔ (y ≡ name) ⊎ Lists files y)
unfolding add_debug_to max_files_number
add_debug_to-Lists files name sorted room =
    let q = first_place max_files_number files name 0 in
    let at = first_place-IsPlace files name max_files_number 0 in
    let small : q < max_files_number = omega (arith, IsPlace-le files name max_files_number q at) in
    let inside : ltb q max_files_number ≡ true = ground arith in
    let fits : (ltb q files.nb_debugged_files && ltb 63 files.nb_debugged_files) ≡ false =
      ground arith in
    (
      added files name sorted q at small,
      rw (inside, fits) refl,
      inserted-Ascends files name sorted q at small,
      refl,
      added-Lists files name sorted q at small,
    )

-- A name that is added to a table in order with fewer than 64 names leaves a table in order with
-- one name more, in which __is_debugged finds that name and exactly the others that it found before.
pub add_debug_to-is_debugged :
    (files : Files) (name y : List ℕ)
    → IsSorted files
    → files.nb_debugged_files < max_files_number
    → (files' : Files) × (add_debug_to files name ≡ some files')
      × IsSorted files'
      × (files'.nb_debugged_files ≡ files.nb_debugged_files + 1)
      × (is_debugged files' y ≡ 1 ↔ (y ≡ name) ⊎ (is_debugged files y ≡ 1))
add_debug_to-is_debugged files name y sorted room =
    let (files', e, sorted', counted, listed) = add_debug_to-Lists files name sorted room in
    let before = is_debugged-Lists files y sorted in
    let behind = is_debugged-Lists files' y sorted' in
    (
      files',
      e,
      sorted',
      counted,
      (
        λ found. elim ((listed y).0 (behind.0 found)) [
          | inl new ↦ inl new
          | inr old ↦ inr (before.1 old)
        ],
        λ either.
            behind.1
              ((listed y).1 (elim either [ inl new ↦ inl new | inr old ↦ inr (before.0 old) ])),
      ),
    )

-- With 64 names in the table, which is in order, a name above all of them is dropped, and any other
-- name makes the loop write behind the end of the array.
pub add_debug_to_full :
    (files : Files) (name : List ℕ)
    → IsSorted files
    → files.nb_debugged_files ≡ max_files_number
    → add_debug_to files name ≡ (
        if is_less (strcmp (files.debugged_files (max_files_number - 1)) name)
        then some files
        else none)
unfolding add_debug_to max_files_number
add_debug_to_full files name sorted full =
    let q = first_place max_files_number files name 0 in
    let at = first_place-IsPlace files name max_files_number 0 in
    elim (Bool-cases (ltb q max_files_number)) [
      | inl inside ↦
          let within : (ltb q files.nb_debugged_files && ltb 63 files.nb_debugged_files) ≡ true =
            ground arith in
          let small : q < max_files_number = ground arith in
          let not_below_name : strcmp name (files.debugged_files 63) ≢ gt =
            not_below files name sorted q at small 63 (omega arith) (omega arith) in
          rw (inside, within)
            (elim (Bool-cases (is_less (strcmp (files.debugged_files 63) name))) [
              | inl less ↦ absurd (not_below_name (lt-converse _ _ (is_less_lem _ less)))
              | inr more ↦ rw more refl
            ])
      | inr outside ↦
          let less : strcmp (files.debugged_files 63) name ≡ lt =
            at.below 63 (omega arith) (ground arith) in
          rw (outside, less) refl
    ]
