-- ===== src/Tests/Options.antt =====
-- The options of the simulator and the stack of locations at concrete values.
use projet_l3_inf_bn_zl_rj_r.Prelude.{ℕ, ◌+◌, ◌≡◌, Bool, List, [], ◌∷◌, ◌++◌, some, arith, refl}
use projet_l3_inf_bn_zl_rj_r.Libc.{codes}
use projet_l3_inf_bn_zl_rj_r.Debug.{max_files_number}
use projet_l3_inf_bn_zl_rj_r.Debug.Search.{IsSorted}
use projet_l3_inf_bn_zl_rj_r.Trace.{Trace, trace_start}
use projet_l3_inf_bn_zl_rj_r.Trace.Locations.{
  Calls, done, traced, register_shown, memory_shown, follow, Keeps, follow-Keeps,
}
use projet_l3_inf_bn_zl_rj_r.Simulator.Options.{
  Opt, gdb_port, trace_state, debug, help, Settings, default_settings, set_options,
}
use projet_l3_inf_bn_zl_rj_r.Simulator.Settings.{ending}
use projet_l3_inf_bn_zl_rj_r.Simulator.Loop.{set_options-ending}

-- --gdb-port 1234 --trace-state SVC --debug gdb.c
abbrev options : List Opt
options = gdb_port (codes "1234") ∷ trace_state (some (codes "SVC")) ∷ debug (codes "gdb.c") ∷ []

-- No file can be opened.
abbrev opens : List ℕ → Bool
opens name = Bool.false

default_settings-IsSorted : IsSorted default_settings.files
unfolding default_settings
default_settings-IsSorted i j h inside = absurd (omega arith)

set_options-ending_example :
    set_options opens (options ++ (help ∷ options)) default_settings ≡ ending help
unfolding default_settings max_files_number
set_options-ending_example =
    set_options-ending opens options help options default_settings (refl, (refl, (refl, tt)))
      default_settings-IsSorted (omega arith) refl

-- Two calls at one depth, the first with a read of a register, and a call inside it that fetches.
abbrev calls : Calls
calls =
    traced (codes "a.c") 3
      (register_shown 7 1 13 19 5 (traced (codes "b.c") 4 (memory_shown 7 1 4 1 8 9 done) done))
      (traced (codes "a.c") 5 done done)

abbrev showing : Trace
showing = record trace_start { trace_flags = 64 + 32 + 256 }

follow-Keeps_example : (t' : Trace) × (follow calls showing ≡ some t') × Keeps 0 showing t'
unfolding trace_start
follow-Keeps_example =
    follow-Keeps calls 0 showing refl refl
      ((omega arith, omega arith, omega arith, ((omega arith, omega arith, tt), tt)), (tt, tt))
      (omega arith)
