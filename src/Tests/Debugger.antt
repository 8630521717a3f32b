-- ===== src/Tests/Debugger.antt =====
-- The table of breakpoints at concrete values.
use projet_l3_inf_bn_zl_rj_r.Prelude.{
  ℕ, [], ◌∷◌, List, refl, inl, inr, Bool-cases, true, false, ◌≡◌, ◌≢◌, ◌↔◌, ◌⊎◌, pos, ◌==◌,
  if◌then◌else◌, arith,
}
use projet_l3_inf_bn_zl_rj_r.Gdb.{Gdb}
use projet_l3_inf_bn_zl_rj_r.Gdb.Search.{Holds, IsTable}
use projet_l3_inf_bn_zl_rj_r.Gdb.AddressSet.{Edit, add, remove, find, set_edits}
use projet_l3_inf_bn_zl_rj_r.Gdb.Refines.{Refines, edits, edits-set_edits}
use projet_l3_inf_bn_zl_rj_r.Gdb.Handlers.{stops}
use projet_l3_inf_bn_zl_rj_r.Gdb.Stops.{pc_of, stops-Holds}
use projet_l3_inf_bn_zl_rj_r.Tests.{arm}

-- Breakpoints at 4, 12 and 20.
abbrev pub table : Gdb
table = record {
  arm = arm;
  target_exception = pos 0;
  breakpoints = λ i. if i == 0 then 4 else if i == 1 then 12 else 20;
  breakpoints_number = 3;
  packet = [];
  sent = [];
  shut = false;
}

in_order : IsTable table
in_order i j h inside = ground arith

-- The table stands for the set of its three addresses.
abbrev pub table_set : List ℕ
table_set = 4 ∷ 12 ∷ 20 ∷ []

pub table-Refines : Refines table table_set
table-Refines = record {
  table = in_order;
  distinct = (refl, (refl, (refl, tt)));
  number = refl;
  holds = λ y. (
    λ (i, inside, e). ground arith,
    λ has. elim (Bool-cases (4 == y)) [
      | inl first ↦ (0, omega arith, ground arith)
      | inr other ↦ elim (Bool-cases (12 == y)) [
        | inl second ↦ (1, omega arith, ground arith)
        | inr another ↦ (2, omega arith, ground arith)
      ]
    ],
  );
}

-- An address is set twice, one is cleared twice, and one is looked for.
abbrev turns : List Edit
turns = add 8 ∷ add 8 ∷ remove 12 ∷ remove 12 ∷ find 20 ∷ []

edits-set_edits_example :
    ((edits turns table).0 ≡ (set_edits turns table_set).0)
    × Refines (edits turns table).1 (set_edits turns table_set).1
edits-set_edits_example = edits-set_edits turns table table_set table-Refines

stops-Holds_example :
    stops table ≡ true ↔ Holds table (pc_of table) ⊎ (table.target_exception ≢ pos 0)
stops-Holds_example = stops-Holds table in_order
