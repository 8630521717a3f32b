-- ===== src/Simulator/Applies.antt =====
-- The switch over one option.
use projet_l3_inf_bn_zl_rj_r.Prelude.{
  ℕ, ◌+◌, ◌≤◌, ◌<◌, ◌≡◌, ◌≢◌, ◌↔◌, ◌⊎◌, ◌∙◌, inl, inr, refl, sym, ap, if◌then◌else◌, Bool, true,
  false, List, ◌∷◌, none, some, ℤ, pos, negsuc, arith,
}
use projet_l3_inf_bn_zl_rj_r.Names.{arm_get_mode_number}
use projet_l3_inf_bn_zl_rj_r.Debug.{Files, max_files_number}
use projet_l3_inf_bn_zl_rj_r.Debug.Search.{IsSorted, Lists}
use projet_l3_inf_bn_zl_rj_r.Debug.Insert.{add_debug_to-Lists}
use projet_l3_inf_bn_zl_rj_r.Trace.{Trace, trace_add, memory_flag, registers_flag, position_flag}
use projet_l3_inf_bn_zl_rj_r.Simulator.Options.{
  Opt, gdb_port, irq_port, help, trace_file, trace_registers_option, trace_memory_option,
  trace_state, trace_position, debug, unrecognized, Settings, running, set_option, set_options,
}
use projet_l3_inf_bn_zl_rj_r.Simulator.Settings.{
  is_fine, ending, gdb_after, irq_after, one_file, is_mode, traces_mode,
}

-- What one option makes of the settings.
pub record Applies (o : Opt) (s s' : Settings) : Type 0 where
  pub gdb : s'.gdb ≡ gdb_after o s.gdb
  pub irq : s'.irq ≡ irq_after o s.irq
  pub states :
      (k : ℕ) → k < 32 → s'.trace.states k ≡ (if traces_mode o k then 1 else s.trace.states k)
  pub sorted : IsSorted s'.files
  pub number : s'.files.nb_debugged_files ≡ s.files.nb_debugged_files + one_file o
  pub listed : (y : List ℕ) → Lists s'.files y ↔ (o ≡ debug y) ⊎ Lists s.files y

not_debug :
    (o : Opt) (files : Files)
    → ((y : List ℕ) → o ≢ debug y)
    → (y : List ℕ) → Lists files y ↔ (o ≡ debug y) ⊎ Lists files y
not_debug o files other y =
    (λ old. inr old, λ either. elim either [ inl e ↦ absurd (other y e) | inr old ↦ old ])

trace_add-states :
    (flags : ℤ) (t : Trace) (k : ℕ)
    → k < 32
    → (trace_add flags t).states k ≡ (if is_mode flags k then 1 else t.states k)
unfolding trace_add
trace_add-states (pos n) t k h = ground arith
trace_add-states (negsuc n) t k h = refl

-- The flags of the other trace options are no modes.
trace_flag-states :
    (n : ℕ) (t : Trace) (k : ℕ) → 32 ≤ n → k < 32 → (trace_add (pos n) t).states k ≡ t.states k
trace_flag-states n t k h low = trace_add-states (pos n) t k low ∙ ground arith

-- An option that leaves the table of files alone.
keeps_files :
    (o : Opt) (s : Settings) (trace : Trace)
    → ((y : List ℕ) → o ≢ debug y)
    → one_file o ≡ 0
    → ((k : ℕ) → k < 32 → trace.states k ≡ (if traces_mode o k then 1 else s.trace.states k))
    → IsSorted s.files
    → Applies o s (record s { gdb = gdb_after o s.gdb; irq = irq_after o s.irq; trace = trace })
keeps_files o s trace other none_listed states sorted = record {
  gdb = refl;
  irq = refl;
  states = states;
  sorted = sorted;
  number = omega (arith, none_listed);
  listed = not_debug o s.files other;
}

module _ (opens : List ℕ → Bool) where
  pub set_option-Applies :
      (o : Opt) (s : Settings)
      → is_fine opens o ≡ true
      → IsSorted s.files
      → s.files.nb_debugged_files + one_file o ≤ max_files_number
      → (s' : Settings) × (set_option opens o s ≡ running s') × Applies o s s'
  unfolding set_option
  set_option-Applies (gdb_port a) s fine sorted room =
      (_, refl, keeps_files (gdb_port a) s s.trace (λ y e. cc) refl (λ k h. refl) sorted)
  set_option-Applies (irq_port a) s fine sorted room =
      (_, refl, keeps_files (irq_port a) s s.trace (λ y e. cc) refl (λ k h. refl) sorted)
  set_option-Applies help s fine sorted room = absurd (cc)
  set_option-Applies (trace_file a) s fine sorted room =
      (s, rw fine refl, keeps_files (trace_file a) s s.trace (λ y e. cc) refl (λ k h. refl) sorted)
  set_option-Applies trace_registers_option s fine sorted room = (
    _,
    refl,
    keeps_files trace_registers_option s _ (λ y e. cc) refl
        (λ k h. trace_flag-states registers_flag s.trace k (omega arith) h) sorted,
  )
  set_option-Applies trace_memory_option s fine sorted room = (
    _,
    refl,
    keeps_files trace_memory_option s _ (λ y e. cc) refl
        (λ k h. trace_flag-states memory_flag s.trace k (omega arith) h) sorted,
  )
  set_option-Applies (trace_state none) s fine sorted room = absurd (cc)
  set_option-Applies (trace_state (some a)) s fine sorted room = (
    _,
    refl,
    keeps_files (trace_state (some a)) s _ (λ y e. cc) refl
        (λ k h. trace_add-states (arm_get_mode_number a) s.trace k h) sorted,
  )
  set_option-Applies trace_position s fine sorted room = (
    _,
    refl,
    keeps_files trace_position s _ (λ y e. cc) refl
        (λ k h. trace_flag-states position_flag s.trace k (omega arith) h) sorted,
  )
  set_option-Applies (debug a) s fine sorted room =
      let (files', e, sorted', counted, listed) =
        add_debug_to-Lists s.files a sorted (omega arith) in
      (
        record s { files = files' },
        rw e refl,
        record {
          gdb = refl;
          irq = refl;
          states = λ k h. refl;
          sorted = sorted';
          number = counted;
          listed = λ y. (
            λ held. elim ((listed y).0 held) [
              | inl new ↦ inl (ap debug (sym new))
              | inr old ↦ inr old
            ],
            λ either. (listed y).1 (elim either [ inl new ↦ inl (cc) | inr old ↦ inr old ]),
          );
        },
      )
  set_option-Applies unrecognized s fine sorted room = absurd (cc)

  pub set_options-step :
      (o : Opt) (rest : List Opt) (s s' : Settings)
      → set_option opens o s ≡ running s'
      → set_options opens (o ∷ rest) s ≡ set_options opens rest s'
  unfolding set_options
  set_options-step o rest s s' e = rw (set_options, e) refl

  pub set_options-stop :
      (o : Opt) (rest : List Opt) (s : Settings)
      → is_fine opens o ≡ false
      → set_options opens (o ∷ rest) s ≡ ending o
  unfolding set_options set_option
  set_options-stop help rest s bad = refl
  set_options-stop (trace_file a) rest s bad = rw (set_options, bad) refl
  set_options-stop (trace_state none) rest s bad = refl
  set_options-stop unrecognized rest s bad = refl
  set_options-stop (gdb_port a) rest s bad = absurd (cc)
  set_options-stop (irq_port a) rest s bad = absurd (cc)
  set_options-stop trace_registers_option rest s bad = absurd (cc)
  set_options-stop trace_memory_option rest s bad = absurd (cc)
  set_options-stop (trace_state (some a)) rest s bad = absurd (cc)
  set_options-stop trace_position rest s bad = absurd (cc)
  set_options-stop (debug a) rest s bad = absurd (cc)
