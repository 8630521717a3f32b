-- ===== src/Gdb/Refines.antt =====
-- The table of breakpoints as an implementation of a set of at most 1024 addresses.
use projet_l3_inf_bn_zl_rj_r.Prelude.{
  ℕ, ◌+◌, ◌-◌, ◌≡◌, refl, true, false, ◌==◌, ltb, List, [], ◌∷◌, Option, none, some, ◌↔◌, ◌∙◌,
  arith, Bool-cases, Option-cases, inl, inr,
}
use projet_l3_inf_bn_zl_rj_r.Gdb.{
  Gdb, gdb_find_breakpoint, gdb_add_breakpoint, gdb_remove_breakpoint, max_breakpoints_number,
}
use projet_l3_inf_bn_zl_rj_r.Gdb.Search.{
  Holds, IsTable, gdb_find_breakpoint-IsTable, gdb_find_breakpoint-none,
}
use projet_l3_inf_bn_zl_rj_r.Gdb.Edit.{gdb_add_breakpoint-Holds, gdb_remove_breakpoint-Holds}
use projet_l3_inf_bn_zl_rj_r.Gdb.AddressSet.{
  length, contains, without, Distinct, contains-without, length-without, without-Distinct, Edit,
  add, remove, find, set_edit, set_edits,
}

abbrev is_found : Option ℕ → ℕ
is_found none = 0
is_found (some position) = 1

-- The answer to an edit, and the state behind it.
abbrev pub edit : Edit → Gdb → ℕ × Gdb
edit (add x) gdb = gdb_add_breakpoint gdb x
edit (remove x) gdb = gdb_remove_breakpoint gdb x
edit (find x) gdb = (is_found (gdb_find_breakpoint gdb x), gdb)

-- The answers to a list of edits, and what is behind them.
abbrev pub edits : List Edit → Gdb → List ℕ × Gdb
edits [] gdb = ([], gdb)
edits (e ∷ es) gdb =
    let step = edit e gdb in let rest = edits es step.1 in (step.0 ∷ rest.0, rest.1)

-- The table stands for the set.
pub record Refines (gdb : Gdb) (s : List ℕ) : Type 0 where
  pub table : IsTable gdb
  pub distinct : Distinct s
  pub number : gdb.breakpoints_number ≡ length s
  pub holds : (y : ℕ) → Holds gdb y ↔ (contains s y ≡ true)

-- The search finds an address exactly if the set has it.
found_lem :
    (gdb : Gdb) (s : List ℕ) (x i : ℕ)
    → Refines gdb s
    → gdb_find_breakpoint gdb x ≡ some i
    → contains s x ≡ true
found_lem gdb s x i r found =
    let at = (gdb_find_breakpoint-IsTable gdb x i r.table).0 found in (r.holds x).0 (i, at.0, at.1)

missed_lem :
    (gdb : Gdb) (s : List ℕ) (x : ℕ)
    → Refines gdb s
    → gdb_find_breakpoint gdb x ≡ none
    → contains s x ≡ false
missed_lem gdb s x r missed = elim (Bool-cases (contains s x)) [
  | inl has ↦
      let (i, inside, e) = (r.holds x).1 has in
      absurd (gdb_find_breakpoint-none gdb x i r.table missed inside e)
  | inr lacks ↦ lacks
]

-- What the two functions make of the number of breakpoints.
module _ (gdb : Gdb) (x : ℕ) where
  add_full :
      ltb gdb.breakpoints_number max_breakpoints_number ≡ false
      → gdb_add_breakpoint gdb x ≡ (0, gdb)
  unfolding gdb_add_breakpoint
  add_full full = rw full refl

  add_known :
      (i : ℕ)
      → ltb gdb.breakpoints_number max_breakpoints_number ≡ true
      → gdb_find_breakpoint gdb x ≡ some i
      → gdb_add_breakpoint gdb x ≡ (1, gdb)
  unfolding gdb_add_breakpoint
  add_known i room found = rw (room, found) refl

  add_number :
      ltb gdb.breakpoints_number max_breakpoints_number ≡ true
      → gdb_find_breakpoint gdb x ≡ none
      → (gdb_add_breakpoint gdb x).1.breakpoints_number ≡ gdb.breakpoints_number + 1
  unfolding gdb_add_breakpoint
  add_number room missed = rw (room, missed) refl

  remove_unknown : gdb_find_breakpoint gdb x ≡ none → gdb_remove_breakpoint gdb x ≡ (0, gdb)
  unfolding gdb_remove_breakpoint
  remove_unknown missed = rw (gdb_remove_breakpoint, missed) refl

  remove_number :
      (i : ℕ)
      → gdb_find_breakpoint gdb x ≡ some i
      → ((gdb_remove_breakpoint gdb x).0 ≡ 1)
        × ((gdb_remove_breakpoint gdb x).1.breakpoints_number ≡ gdb.breakpoints_number - 1)
  unfolding gdb_remove_breakpoint
  remove_number i found = rw (gdb_remove_breakpoint, found) (refl, refl)

-- One edit: the same answer, and the table behind it stands for the set behind it.
abbrev pub Agrees : ℕ × Gdb → ℕ × List ℕ → Type 0
Agrees a b = (a.0 ≡ b.0) × Refines a.1 b.1

put-Refines :
    (gdb : Gdb) (s : List ℕ) (x : ℕ)
    → Refines gdb s
    → ltb gdb.breakpoints_number max_breakpoints_number ≡ true
    → gdb_find_breakpoint gdb x ≡ none
    → Agrees (gdb_add_breakpoint gdb x) (1, x ∷ s)
put-Refines gdb s x r room missed =
    let step = gdb_add_breakpoint-Holds gdb x r.table (ground arith) in
    (
      step.0,
      record {
        table = step.1;
        distinct = (missed_lem gdb s x r missed, r.distinct);
        number = omega (arith, add_number gdb x room missed, r.number);
        holds = λ y. (
          λ held. ground (arith, (step.2 y).0 held, (r.holds y).0),
          λ has. (step.2 y).1 (elim (Bool-cases (x == y)) [
            | inl same ↦ inl (ground arith)
            | inr other ↦ let has' = rw other at has in inr ((r.holds y).1 has')
          ]),
        );
      },
    )

add-Refines :
    (gdb : Gdb) (s : List ℕ) (x : ℕ)
    → Refines gdb s
    → Agrees (edit (add x) gdb) (set_edit (add x) s)
add-Refines gdb s x r = elim (Bool-cases (ltb gdb.breakpoints_number max_breakpoints_number)) [
  | inl room ↦
      let room' : ltb (length s) max_breakpoints_number ≡ true = rw (← r.number) room in
      elim (Option-cases (gdb_find_breakpoint gdb x)) [
        | inl missed ↦ rw (room', missed_lem gdb s x r missed) (put-Refines gdb s x r room missed)
        | inr (i, found) ↦
            rw (room', found_lem gdb s x i r found, add_known gdb x i room found) (refl, r)
      ]
  | inr full ↦
      let full' : ltb (length s) max_breakpoints_number ≡ false = rw (← r.number) full in
      rw (full', add_full gdb x full) (refl, r)
]

take-Refines :
    (gdb : Gdb) (s : List ℕ) (x i : ℕ)
    → Refines gdb s
    → gdb_find_breakpoint gdb x ≡ some i
    → Agrees (gdb_remove_breakpoint gdb x) (1, without s x)
take-Refines gdb s x i r found =
    let step = gdb_remove_breakpoint-Holds gdb x r.table in
    let counted = remove_number gdb x i found in
    (
      counted.0,
      record {
        table = step.1;
        distinct = without-Distinct s x r.distinct;
        number =
            omega (arith, counted.1, r.number, length-without s x (found_lem gdb s x i r found));
        holds = λ y. (
          λ held.
              let (before, other) = (step.2 y).0 held in
              contains-without s x y r.distinct ∙ ground (arith, (r.holds y).0 before, other),
          λ has.
              let both = rw (contains-without s x y r.distinct) at has in
              (step.2 y).1 ((r.holds y).1 (ground (arith, both)), ground (arith, both)),
        );
      },
    )

remove-Refines :
    (gdb : Gdb) (s : List ℕ) (x : ℕ)
    → Refines gdb s
    → Agrees (edit (remove x) gdb) (set_edit (remove x) s)
remove-Refines gdb s x r = elim (Option-cases (gdb_find_breakpoint gdb x)) [
  | inl missed ↦ rw (missed_lem gdb s x r missed, remove_unknown gdb x missed) (refl, r)
  | inr (i, found) ↦ rw (found_lem gdb s x i r found) (take-Refines gdb s x i r found)
]

find-Refines :
    (gdb : Gdb) (s : List ℕ) (x : ℕ)
    → Refines gdb s
    → Agrees (edit (find x) gdb) (set_edit (find x) s)
find-Refines gdb s x r = elim (Option-cases (gdb_find_breakpoint gdb x)) [
  | inl missed ↦ rw (missed_lem gdb s x r missed, missed) (refl, r)
  | inr (i, found) ↦ rw (found_lem gdb s x i r found, found) (refl, r)
]

pub edit-Refines :
    (e : Edit) (gdb : Gdb) (s : List ℕ) → Refines gdb s → Agrees (edit e gdb) (set_edit e s)
edit-Refines (add x) gdb s r = add-Refines gdb s x r
edit-Refines (remove x) gdb s r = remove-Refines gdb s x r
edit-Refines (find x) gdb s r = find-Refines gdb s x r

-- From a table that stands for a set of addresses, any sequence of edits that set, clear and look
-- for breakpoints gets the answers of that set, which takes no address when it has 1024, and leaves
-- a table that stands for the set behind them.
pub edits-set_edits :
    (es : List Edit) (gdb : Gdb) (s : List ℕ)
    → Refines gdb s
    → ((edits es gdb).0 ≡ (set_edits es s).0) × Refines (edits es gdb).1 (set_edits es s).1
edits-set_edits [] gdb s r = (refl, r)
edits-set_edits (e ∷ es) gdb s r =
    let (answer, next) = edit-Refines e gdb s r in
    let rest = edits-set_edits es (edit e gdb).1 (set_edit e s).1 next in
    (rw (answer, rest.0) refl, rest.1)
