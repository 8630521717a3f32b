-- ===== src/Simulator/Options.antt =====
-- arm_simulator.c: the loop of `main` over the options. getopt_long is that of the C library: the model
-- starts from the options that it finds, in their order. Whether a trace file can be opened is a
-- parameter.
use projet_l3_inf_bn_zl_rj_r.Prelude.{
  ℕ, if◌then◌else◌, Bool, List, [], ◌∷◌, Option, none, some, pos, u16,
}
use projet_l3_inf_bn_zl_rj_r.Libc.{atoi}
use projet_l3_inf_bn_zl_rj_r.Names.{arm_get_mode_number}
use projet_l3_inf_bn_zl_rj_r.Debug.{Files, add_debug_to}
use projet_l3_inf_bn_zl_rj_r.Trace.{
  Trace, trace_add, trace_start, memory_flag, registers_flag, position_flag,
}

-- An option with its argument. The short form of --trace-state is declared without one, so that
-- `optarg` is NULL there.
pub data Opt : Type 0 where
  gdb_port : List ℕ → Opt
  irq_port : List ℕ → Opt
  help : Opt
  trace_file : List ℕ → Opt
  trace_registers_option : Opt
  trace_memory_option : Opt
  trace_state : Option (List ℕ) → Opt
  trace_position : Opt
  debug : List ℕ → Opt
  unrecognized : Opt

pub record Settings : Type 0 where
  pub gdb : ℕ
  pub irq : ℕ
  pub trace : Trace
  pub files : Files

-- How the loop ends: with settings, in `exit`, or without a defined outcome.
pub data Outcome : Type 0 where
  running : Settings → Outcome
  exits : ℕ → Outcome
  undefined : Outcome

abbrev pub with_files : Settings → Option Files → Outcome
with_files s none = undefined
with_files s (some files') = running (record s { files = files' })

-- The switch.
unfoldable pub set_option : (List ℕ → Bool) → Opt → Settings → Outcome
set_option opens (gdb_port a) s = running (record s { gdb = u16 (atoi a) })
set_option opens (irq_port a) s = running (record s { irq = u16 (atoi a) })
set_option opens help s = exits 0
set_option opens (trace_file a) s = if opens a then running s else exits 1
set_option opens trace_registers_option s =
    running (record s { trace = trace_add (pos registers_flag) s.trace })
set_option opens trace_memory_option s =
    running (record s { trace = trace_add (pos memory_flag) s.trace })
set_option opens (trace_state none) s = undefined
set_option opens (trace_state (some a)) s =
    running (record s { trace = trace_add (arm_get_mode_number a) s.trace })
set_option opens trace_position s =
    running (record s { trace = trace_add (pos position_flag) s.trace })
set_option opens (debug a) s = with_files s (add_debug_to s.files a)
set_option opens unrecognized s = exits 1

-- The `while` loop.
unfoldable pub set_options : (List ℕ → Bool) → List Opt → Settings → Outcome
set_options opens [] s = running s
set_options opens (o ∷ os) s = elim (set_option opens o s) [
  | running s' ↦ set_options opens os s'
  | exits code ↦ exits code
  | undefined ↦ undefined
]

-- What `main` starts from.
unfoldable pub default_settings : Settings
default_settings = record {
  gdb = 0;
  irq = 0;
  trace = trace_start;
  files = record { debugged_files = λ i. []; nb_debugged_files = 0 };
}
