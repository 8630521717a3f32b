-- ===== src/Gdb/Stops.antt =====
-- What ends the loop of `cont`.
use projet_l3_inf_bn_zl_rj_r.Prelude.{
  ℕ, zero, suc, ◌≡◌, ◌≢◌, ◌⊎◌, ◌↔◌, inl, inr, true, not, ℤ, pos, negsuc, is_zero, Option-cases,
  refl,
}
use projet_l3_inf_bn_zl_rj_r.Registers.{registers_read, registers_get_mode}
use projet_l3_inf_bn_zl_rj_r.Gdb.{Gdb, gdb_find_breakpoint}
use projet_l3_inf_bn_zl_rj_r.Gdb.Search.{
  Holds, IsTable, gdb_find_breakpoint-IsTable, gdb_find_breakpoint-none,
}
use projet_l3_inf_bn_zl_rj_r.Gdb.Handlers.{stops}

-- The program counter in the present mode.
abbrev pub pc_of : Gdb → ℕ
pc_of gdb = registers_read gdb.arm.reg 15 (registers_get_mode gdb.arm.reg)

exception-ne : (e : ℤ) → not (is_zero e) ≡ true → e ≢ pos 0
exception-ne e h same = let h' = rw same at h in absurd (cc)

ne-exception : (e : ℤ) → e ≢ pos 0 → not (is_zero e) ≡ true
ne-exception (pos zero) other = absurd (other refl)
ne-exception (pos (suc n)) other = refl
ne-exception (negsuc n) other = refl

-- With a table of breakpoints in order, a state ends the loop of `cont` exactly if the table holds its
-- program counter or its last step has given a result other than 0.
pub stops-Holds :
    (gdb : Gdb)
    → IsTable gdb
    → stops gdb ≡ true ↔ Holds gdb (pc_of gdb) ⊎ (gdb.target_exception ≢ pos 0)
unfolding stops
stops-Holds gdb sorted = elim (Option-cases (gdb_find_breakpoint gdb (pc_of gdb))) [
  | inl missed ↦
      rw (stops, missed)
        (
          λ h. inr (exception-ne gdb.target_exception h),
          λ either. elim either [
            | inl (i, inside, e) ↦
                absurd (gdb_find_breakpoint-none gdb (pc_of gdb) i sorted missed inside e)
            | inr other ↦ ne-exception gdb.target_exception other
          ],
        )
  | inr (i, found) ↦
      let known = (gdb_find_breakpoint-IsTable gdb (pc_of gdb) i sorted).0 found in
      rw (stops, found) (λ _. inl (i, known.0, known.1), λ _. refl)
]
