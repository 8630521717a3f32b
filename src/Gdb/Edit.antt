-- ===== src/Gdb/Edit.antt =====
-- `gdb_add_breakpoint` and `gdb_remove_breakpoint` on a table of breakpoints in order.
use projet_l3_inf_bn_zl_rj_r.Prelude.{
  ℕ, ◌<◌, ◌≡◌, ◌≢◌, refl, sym, ap, ◌∙◌, ◌↔◌, ltb, arith, inl, inr, Option-cases, true, ◌⊎◌,
}
use projet_l3_inf_bn_zl_rj_r.Gdb.{
  Gdb, gdb_find_breakpoint, gdb_add_breakpoint, gdb_remove_breakpoint, max_breakpoints_number,
}
use projet_l3_inf_bn_zl_rj_r.Gdb.Search.{
  Holds, IsTable, gdb_find_breakpoint-IsTable, gdb_find_breakpoint-none,
}
use projet_l3_inf_bn_zl_rj_r.Gdb.Insert.{insert_place, insert-Ascends, insert-from, insert-to}
use projet_l3_inf_bn_zl_rj_r.Gdb.Close.{closed-Ascends, closed-from, closed-to, apart}

-- While the table is not full, adding an address gives 1, keeps the table in order, and makes it
-- hold that address and what it has held before.
pub gdb_add_breakpoint-Holds :
    (gdb : Gdb) (address : ℕ)
    → IsTable gdb
    → gdb.breakpoints_number < max_breakpoints_number
    → ((gdb_add_breakpoint gdb address).0 ≡ 1)
      × IsTable (gdb_add_breakpoint gdb address).1
      × ((y : ℕ) → Holds (gdb_add_breakpoint gdb address).1 y ↔ (y ≡ address) ⊎ Holds gdb y)
unfolding gdb_add_breakpoint
gdb_add_breakpoint-Holds gdb address sorted room =
    let n = gdb.breakpoints_number in
    let a = gdb.breakpoints in
    let free : ltb n max_breakpoints_number ≡ true = ground arith in
    elim (Option-cases (gdb_find_breakpoint gdb address)) [
      | inl missed ↦
          let place =
            insert_place n a address sorted
              (λ i. gdb_find_breakpoint-none gdb address i sorted missed) in
          let q = place.0 in
          let ins = place.1 in
          rw (free, missed)
            (
              refl,
              λ i j h inside. insert-Ascends n a address q ins sorted i j h (omega arith),
              λ y. (
                λ (i, h, e). insert-from n a address q ins i y (omega arith) e,
                λ either.
                    let r = insert-to n a address q ins y either in (r.0, omega (arith, r.1), r.2),
              ),
            )
      | inr (position, found) ↦
          let known = (gdb_find_breakpoint-IsTable gdb address position sorted).0 found in
          rw (free, found)
            (
              refl,
              sorted,
              λ y. (
                λ held. inr held,
                λ either. elim either [
                  | inl e ↦ (position, known.0, ground (arith, known.1))
                  | inr held ↦ held
                ],
              ),
            )
    ]

-- Removing an address gives 1 if the table has held it and 0 otherwise, keeps the table in order,
-- and leaves the other addresses in it.
pub gdb_remove_breakpoint-Holds :
    (gdb : Gdb) (address : ℕ)
    → IsTable gdb
    → ((gdb_remove_breakpoint gdb address).0 ≡ 1 ↔ Holds gdb address)
      × IsTable (gdb_remove_breakpoint gdb address).1
      × ((y : ℕ) → Holds (gdb_remove_breakpoint gdb address).1 y ↔ Holds gdb y × (y ≢ address))
unfolding gdb_remove_breakpoint
gdb_remove_breakpoint-Holds gdb address sorted =
    let n = gdb.breakpoints_number in
    let a = gdb.breakpoints in
    elim (Option-cases (gdb_find_breakpoint gdb address)) [
      | inl missed ↦
          let absent : (i : ℕ) → i < n → a i ≢ address =
            λ i. gdb_find_breakpoint-none gdb address i sorted missed in
          rw (gdb_remove_breakpoint, missed)
            (
              (λ (e : 0 ≡ 1). absurd (omega arith), λ (i, inside, e). absurd (absent i inside e)),
              sorted,
              λ y. (
                λ (i, inside, e).
                    ((i, inside, e), λ (same : y ≡ address). absent i inside (e ∙ same)),
                λ both. both.0,
              ),
            )
      | inr (position, found) ↦
          let known = (gdb_find_breakpoint-IsTable gdb address position sorted).0 found in
          let gone = closed-from n a position sorted known.0 in
          let left = closed-to n a position sorted known.0 in
          rw (gdb_remove_breakpoint, found)
            (
              (λ _. (position, known.0, known.1), λ _. refl),
              closed-Ascends n a position sorted known.0,
              λ y. (
                λ (i, inside, e).
                    let r = gone i inside in
                    (
                      (r.0, r.1, sym r.3 ∙ e),
                      λ (same : y ≡ address).
                          apart n a position sorted known.0 r.0 r.1 r.2
                            (sym r.3 ∙ e ∙ same ∙ sym known.1),
                    ),
                λ ((i, inside, e), other).
                    let moved : i ≢ position =
                      λ (h : i ≡ position). other (sym e ∙ ap a h ∙ known.1) in
                    let r = left i inside moved in (r.0, r.1, r.2 ∙ e),
              ),
            )
    ]
