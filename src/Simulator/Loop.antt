-- ===== src/Simulator/Loop.antt =====
-- The loop over the options against what they ask for.
use projet_l3_inf_bn_zl_rj_r.Prelude.{
  ℕ, ◌+◌, ◌≤◌, ◌<◌, ◌≡◌, ◌↔◌, ◌⊎◌, ◌∙◌, inl, inr, refl, if◌then◌else◌, Bool, false, List, [], ◌∷◌,
  ◌++◌, arith,
}
use projet_l3_inf_bn_zl_rj_r.Debug.{max_files_number}
use projet_l3_inf_bn_zl_rj_r.Debug.Search.{IsSorted, Lists}
use projet_l3_inf_bn_zl_rj_r.Simulator.Options.{Opt, Settings, set_options}
use projet_l3_inf_bn_zl_rj_r.Simulator.Settings.{
  is_fine, AreFine, ending, last_gdb, last_irq, files_in, Debugs, traces,
}
use projet_l3_inf_bn_zl_rj_r.Simulator.Applies.{
  set_option-Applies, set_options-step, set_options-stop,
}

module _ (opens : List ℕ → Bool) where
  -- What a list of options makes of the settings, whatever options follow.
  abbrev Runs : List Opt → Settings → Type 0
  Runs os s =
      (s' : Settings) × ((rest : List Opt)
        → set_options opens (os ++ rest) s ≡ set_options opens rest s')
      × (s'.gdb ≡ last_gdb os s.gdb)
      × (s'.irq ≡ last_irq os s.irq)
      × ((k : ℕ) → k < 32 → s'.trace.states k ≡ (if traces os k then 1 else s.trace.states k))
      × IsSorted s'.files
      × ((y : List ℕ) → Lists s'.files y ↔ Debugs os y ⊎ Lists s.files y)

  set_options-Runs :
      (os : List Opt) (s : Settings)
      → AreFine opens os
      → IsSorted s.files
      → s.files.nb_debugged_files + files_in os ≤ max_files_number
      → Runs os s
  set_options-Runs [] s fine sorted room = (
    s,
    λ rest. refl,
    refl,
    refl,
    λ k h. refl,
    sorted,
    λ y. (
      λ old. inr old,
      λ either. elim either [ inl none_left ↦ absurd none_left | inr old ↦ old ],
    ),
  )
  set_options-Runs (o ∷ os) s (fine, more) sorted room =
      let (s1, e, step) = set_option-Applies opens o s fine sorted (omega arith) in
      let (s2, run, gdb, irq, states, sorted', listed) =
        set_options-Runs os s1 more step.sorted (omega (arith, step.number)) in
      (
        s2,
        λ rest. set_options-step opens o (os ++ rest) s s1 e ∙ run rest,
        rw (← step.gdb) gdb,
        rw (← step.irq) irq,
        λ k h. states k h ∙ ground (arith, step.states k h),
        sorted',
        λ y. (
          λ held. elim ((listed y).0 held) [
            | inl later ↦ inl (inr later)
            | inr before ↦ elim ((step.listed y).0 before) [
              | inl now ↦ inl (inl now)
              | inr old ↦ inr old
            ]
          ],
          λ either. (listed y).1 (elim either [
            | inl among ↦ elim among [
              | inl now ↦ inr ((step.listed y).1 (inl now))
              | inr later ↦ inl later
            ]
            | inr old ↦ inr ((step.listed y).1 (inr old))
          ]),
        ),
      )

-- Behind such options, the first other one ends the simulator, whatever follows it: --help with the
-- code 0, an option that is not recognised and a trace file that cannot be opened with the code 1,
-- and the short form of --trace-state, whose argument is NULL, without a defined outcome.
pub set_options-ending :
    (opens : List ℕ → Bool) (os : List Opt) (o : Opt) (rest : List Opt) (s : Settings)
    → AreFine opens os
    → IsSorted s.files
    → s.files.nb_debugged_files + files_in os ≤ max_files_number
    → is_fine opens o ≡ false
    → set_options opens (os ++ (o ∷ rest)) s ≡ ending o
set_options-ending opens os o rest s fine sorted room bad =
    let ran = set_options-Runs opens os s fine sorted room in
    ran.1 (o ∷ rest) ∙ set_options-stop opens o rest ran.0 bad
