-- ===== src/Simulator/Settings.antt =====
-- What the options that `main` is given ask for.
use projet_l3_inf_bn_zl_rj_r.Prelude.{
  ℕ, ◌+◌, ◌≡◌, ◌⊎◌, ◌==◌, ◌||◌, Bool, true, false, List, [], ◌∷◌, none, some, ℤ, pos, negsuc, u16,
}
use projet_l3_inf_bn_zl_rj_r.Libc.{atoi}
use projet_l3_inf_bn_zl_rj_r.Names.{arm_get_mode_number}
use projet_l3_inf_bn_zl_rj_r.Simulator.Options.{
  Opt, gdb_port, irq_port, help, trace_file, trace_state, debug, unrecognized, Outcome, exits,
  undefined,
}

-- The options with which the simulator goes on.
abbrev pub is_fine : (List ℕ → Bool) → Opt → Bool
is_fine opens help = false
is_fine opens (trace_file a) = opens a
is_fine opens (trace_state none) = false
is_fine opens unrecognized = false
is_fine opens o = true

abbrev pub AreFine : (List ℕ → Bool) → List Opt → Type 0
AreFine opens [] = Unit
AreFine opens (o ∷ os) = (is_fine opens o ≡ true) × AreFine opens os

-- How the loop ends at any other option.
abbrev pub ending : Opt → Outcome
ending help = exits 0
ending (trace_file a) = exits 1
ending (trace_state none) = undefined
ending unrecognized = exits 1
ending o = undefined

-- The port of the last option that gives one.
abbrev pub gdb_after : Opt → ℕ → ℕ
gdb_after (gdb_port a) old = u16 (atoi a)
gdb_after o old = old

abbrev pub last_gdb : List Opt → ℕ → ℕ
last_gdb [] old = old
last_gdb (o ∷ os) old = last_gdb os (gdb_after o old)

abbrev pub irq_after : Opt → ℕ → ℕ
irq_after (irq_port a) old = u16 (atoi a)
irq_after o old = old

abbrev pub last_irq : List Opt → ℕ → ℕ
last_irq [] old = old
last_irq (o ∷ os) old = last_irq os (irq_after o old)

-- How many files are to be debugged, and whether one is among them.
abbrev pub one_file : Opt → ℕ
one_file (debug a) = 1
one_file o = 0

abbrev pub files_in : List Opt → ℕ
files_in [] = 0
files_in (o ∷ os) = one_file o + files_in os

abbrev pub Debugs : List Opt → List ℕ → Type 0
Debugs [] y = ⊥
Debugs (o ∷ os) y = (o ≡ debug y) ⊎ Debugs os y

-- Whether the state of a mode is to be traced.
abbrev pub is_mode : ℤ → ℕ → Bool
is_mode (pos n) k = k == n
is_mode (negsuc n) k = false

abbrev pub traces_mode : Opt → ℕ → Bool
traces_mode (trace_state (some a)) k = is_mode (arm_get_mode_number a) k
traces_mode o k = false

abbrev pub traces : List Opt → ℕ → Bool
traces [] k = false
traces (o ∷ os) k = traces_mode o k || traces os k
