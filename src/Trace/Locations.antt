-- ===== src/Trace/Locations.antt =====
-- The stack of locations under the macros of trace_location.h.
use native.Mathlib.Numerals.{add-one}
use projet_l3_inf_bn_zl_rj_r.Prelude.{
  ℕ, zero, suc, ◌+◌, ◌≤◌, ◌<◌, ◌≡◌, refl, ◌∙◌, ℤ, pos, negsuc, true, List, Option, some, ◌>>=◌,
  arith, max, ap, ltb, sym, [], ◌++◌,
}
use mathlib.Core.List.{append-nil, append_assoc}
use projet_l3_inf_bn_zl_rj_r.Trace.Printed.{trace_register-Shows, trace_memory-Shows}
use projet_l3_inf_bn_zl_rj_r.Trace.{
  Trace, Piece, trace_register, trace_memory, trace_start_location, push_location,
  trace_end_location, set_at, below,
}

-- The part of a run that trace.c sees: a call through a macro, which notes its location, runs the
-- function, and drops the location; and what the functions of arm_core.c print of an access.
pub data Calls : Type 0 where
  done : Calls
  traced : List ℕ → ℕ → Calls → Calls → Calls
  register_shown : ℕ → ℕ → ℕ → ℕ → ℕ → Calls → Calls
  memory_shown : ℕ → ℕ → ℕ → ℕ → ℕ → ℕ → Calls → Calls

pub follow : Calls → Trace → Option Trace
follow done t = some t
follow (traced file line inner rest) t = do
  t1 ← trace_start_location file line t
  t2 ← follow inner t1
  follow rest (trace_end_location t2)
follow (register_shown cycle type reg mode value rest) t = do
  t1 ← trace_register cycle type reg mode value t
  follow rest t1
follow (memory_shown cycle type size cause address value rest) t = do
  t1 ← trace_memory cycle type size cause address value t
  follow rest t1

-- What is printed has names: the types and causes are 0 or 1, the registers are those of
-- arm_constants.c, CPSR and SPSR, and a mode has five bits.
abbrev pub AreNamed : Calls → Type 0
AreNamed done = Unit
AreNamed (traced file line inner rest) = AreNamed inner × AreNamed rest
AreNamed (register_shown cycle type reg mode value rest) =
    (type < 2) × (reg < 18) × (mode < 32) × AreNamed rest
AreNamed (memory_shown cycle type size cause address value rest) =
    (type < 2) × (cause < 2) × AreNamed rest

-- How deep the calls are nested.
abbrev pub depth : Calls → ℕ
depth done = 0
depth (traced file line inner rest) = max (depth inner + 1) (depth rest)
depth (register_shown cycle type reg mode value rest) = depth rest
depth (memory_shown cycle type size cause address value rest) = depth rest

-- The top of a stack of `n` locations.
abbrev pub top_of : ℕ → ℤ
top_of zero = negsuc 0
top_of (suc n) = pos n

-- The stack has the same `n` locations, the flags are the same, and what was printed stays in front.
pub record Keeps (n : ℕ) (t t' : Trace) : Type 0 where
  pub on : t'.enabled ≡ true
  pub top : t'.location_stack_top ≡ top_of n
  pub files : (k : ℕ) → k < n → t'.location_file_stack k ≡ t.location_file_stack k
  pub lines : (k : ℕ) → k < n → t'.location_line_stack k ≡ t.location_line_stack k
  pub flags : t'.trace_flags ≡ t.trace_flags
  pub printed : (shown : List Piece) × (t'.output ≡ t.output ++ shown)

-- The stack with one location more.
abbrev pushed : List ℕ → ℕ → ℕ → Trace → Trace
pushed file line n t = record t {
  location_stack_top = pos n;
  location_file_stack = set_at t.location_file_stack n file;
  location_line_stack = set_at t.location_line_stack n line;
}

push_room :
    (file : List ℕ) (line n : ℕ) (t : Trace)
    → n < 128
    → push_location file line t n ≡ some (pushed file line n t)
unfolding push_location
push_room file line n t room = let fits : ltb n 128 ≡ true = ground arith in rw fits refl

start_push :
    (file : List ℕ) (line n : ℕ) (t : Trace)
    → t.enabled ≡ true
    → t.location_stack_top ≡ top_of n
    → trace_start_location file line t ≡ push_location file line t n
unfolding trace_start_location
start_push file line zero t on top = simp (on, top)
start_push file line (suc n) t on top = simp (on, top, add-one)

start_pushed :
    (file : List ℕ) (line n : ℕ) (t : Trace)
    → t.enabled ≡ true
    → t.location_stack_top ≡ top_of n
    → n < 128
    → trace_start_location file line t ≡ some (pushed file line n t)
start_pushed file line n t on top room =
    start_push file line n t on top ∙ push_room file line n t room

end_on :
    (t : Trace)
    → t.enabled ≡ true
    → trace_end_location t ≡ record t { location_stack_top = below t.location_stack_top }
unfolding trace_end_location
end_on t on = simp on

below_top : (n : ℕ) → below (top_of (suc n)) ≡ top_of n
below_top zero = refl
below_top (suc n) = refl

-- A print before a run.
Keeps-behind :
    {n : ℕ} {t t' : Trace} (address : ℕ) (shown : List Piece)
    → Keeps n (record t { last_address = address; output = t.output ++ shown }) t'
    → Keeps n t t'
Keeps-behind {n} {t} address shown k = record {
  on = k.on;
  top = k.top;
  files = k.files;
  lines = k.lines;
  flags = k.flags;
  printed = (shown ++ k.printed.0, k.printed.1 ∙ append_assoc t.output shown k.printed.0);
}

-- While the trace is enabled, the calls of a run whose nesting has room on the stack of 128
-- locations, with what the functions inside them print of registers and memory, which have names, come to
-- their end and leave the stack as it was, with its locations, and the flags; what they print stands
-- behind what was printed before.
pub follow-Keeps :
    (calls : Calls) (n : ℕ) (t : Trace)
    → t.enabled ≡ true
    → t.location_stack_top ≡ top_of n
    → AreNamed calls
    → n + depth calls ≤ 128
    → (t' : Trace) × (follow calls t ≡ some t') × Keeps n t t'
unfolding follow
follow-Keeps done n t on top named room = (
  t,
  refl,
  record {
    on = on;
    top = top;
    files = λ k h. refl;
    lines = λ k h. refl;
    flags = refl;
    printed = ([], sym (append-nil t.output));
  },
)
follow-Keeps (register_shown cycle type reg mode value rest) n t on top (typed, known, five, named)
      room =
    let (address, shown, e) = trace_register-Shows cycle type reg mode value t typed known five in
    let t1 = record t { last_address = address; output = t.output ++ shown } in
    let (t', e', k) = follow-Keeps rest n t1 on top named room in
    (t', rw e e', Keeps-behind address shown k)
follow-Keeps (memory_shown cycle type size cause address value rest) n t on top
      (typed, caused, named) room =
    let (last, shown, e) = trace_memory-Shows cycle type size cause address value t typed caused in
    let t1 = record t { last_address = last; output = t.output ++ shown } in
    let (t', e', k) = follow-Keeps rest n t1 on top named room in
    (t', rw e e', Keeps-behind last shown k)
follow-Keeps (traced file line inner rest) n t on top (named, named') room =
    let t1 = pushed file line n t in
    let (t2, e2, k2) = follow-Keeps inner (suc n) t1 on refl named (ground arith) in
    let t3 : Trace = record t2 { location_stack_top = below t2.location_stack_top } in
    let (t4, e4, k4) =
      follow-Keeps rest n t3 k2.on (ap below k2.top ∙ below_top n) named' (ground arith) in
    (
      t4,
      rw (start_pushed file line n t on top (ground arith), e2, end_on t2 k2.on) e4,
      record {
        on = k4.on;
        top = k4.top;
        files = λ k h. k4.files k h ∙ k2.files k (omega arith) ∙ ground arith;
        lines = λ k h. k4.lines k h ∙ k2.lines k (omega arith) ∙ ground arith;
        flags = k4.flags ∙ k2.flags;
        printed = (
          k2.printed.0 ++ k4.printed.0,
          k4.printed.1
              ∙ ap (λ (pieces : List Piece). pieces ++ k4.printed.0) k2.printed.1
              ∙ append_assoc t.output k2.printed.0 k4.printed.0,
        );
      },
    )
