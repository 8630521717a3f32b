-- ===== src/Trace/Printed.antt =====
-- What trace_register and trace_memory make of the state: they print behind what stands there.
use mathlib.Core.List.{append-nil, append_assoc}
use projet_l3_inf_bn_zl_rj_r.Prelude.{
  ℕ, zero, suc, ◌<◌, ◌≡◌, refl, ◌∙◌, sym, ap, ℤ, pos, negsuc, true, List, [], ◌∷◌, ◌++◌, Option,
  some, arith, inl, inr, Bool-cases,
}
use projet_l3_inf_bn_zl_rj_r.Libc.{codes}
use projet_l3_inf_bn_zl_rj_r.Names.{
  entry, arm_get_mode_name, arm_get_register_name, arm_mode_names, arm_register_names,
}
use projet_l3_inf_bn_zl_rj_r.Trace.{
  Trace, Piece, location_line, memory_line, register_line, is_on, print, position_flag,
  registers_flag, memory_flag, one_of, trace_print_location, trace_register, trace_memory,
}

-- What a function that prints an access makes of the state.
abbrev pub Shows : Trace → Option Trace → Type 0
Shows t o =
    (address : ℕ) × (shown : List Piece) × (o
      ≡ some (record t { last_address = address; output = t.output ++ shown }))

abbrev count {ℓ} : {A : Type ℓ} → List A → ℕ
count [] = 0
count (x ∷ s) = suc (count s)

entry-some {ℓ} : {A : Type ℓ} (s : List A) (i : ℕ) → i < count s → (x : A) × (entry s i ≡ some x)
unfolding entry
entry-some [] i inside = absurd (omega arith)
entry-some (x ∷ s) zero inside = (x, refl)
entry-some (x ∷ s) (suc i) inside = entry-some s i (omega arith)

one_of-some : (a b : List ℕ) (i : ℕ) → i < 2 → (x : List ℕ) × (one_of a b i ≡ some x)
one_of-some a b zero inside = (a, refl)
one_of-some a b (suc zero) inside = (b, refl)
one_of-some a b (suc (suc i)) inside = absurd (omega arith)

print_nothing : (t : Trace) → t ≡ print [] t
print_nothing t =
    ap (λ (pieces : List Piece). record t { output = pieces }) (sym (append-nil t.output))

-- Where a location is to be printed, and what is: nothing without one on the stack.
located :
    (t : Trace) (top : ℤ)
    → t.location_stack_top ≡ top
    → (shown : List Piece) × (trace_print_location t ≡ print shown t)
unfolding trace_print_location
located t (pos n) e = elim (Bool-cases (is_on t position_flag)) [
  | inl on ↦ (
    location_line (t.location_file_stack n) (t.location_line_stack n),
    simp (trace_print_location, on, e),
  )
  | inr off ↦ ([], rw (trace_print_location, off) (print_nothing t))
]
located t (negsuc n) e = elim (Bool-cases (is_on t position_flag)) [
  | inl on ↦
      let same : trace_print_location t ≡ t = simp (trace_print_location, on, e) in
      ([], same ∙ print_nothing t)
  | inr off ↦ ([], rw (trace_print_location, off) (print_nothing t))
]

-- One print behind another.
print_behind :
    (address : ℕ) (shown pieces : List Piece) (t : Trace)
    → print pieces (print shown (record t { last_address = address }))
      ≡ record t { last_address = address; output = t.output ++ (shown ++ pieces) }
print_behind address shown pieces t =
    ap (λ (all : List Piece). record t { last_address = address; output = all })
      (append_assoc t.output shown pieces)

trace_register-on :
    (cycle type reg mode value : ℕ) (t : Trace) (name : Option (List ℕ)) (kind register : List ℕ)
    → is_on t registers_flag ≡ true
    → arm_get_mode_name mode ≡ some name
    → one_of (codes "write") (codes "read") type ≡ some kind
    → arm_get_register_name reg ≡ some register
    → Shows t (trace_register cycle type reg mode value t)
unfolding trace_register
trace_register-on cycle type reg mode value t name kind register on e_mode e_type e_reg =
    let (shown, e) = located t t.location_stack_top refl in
    (
      t.last_address,
      shown ++ register_line cycle kind register name value,
      rw (trace_register, on, e_mode, e_type, e_reg, e)
          (ap some
            (print_behind t.last_address shown (register_line cycle kind register name value) t)),
    )

pub trace_register-Shows :
    (cycle type reg mode value : ℕ) (t : Trace)
    → type < 2
    → reg < 18
    → mode < 32
    → Shows t (trace_register cycle type reg mode value t)
unfolding trace_register arm_get_mode_name arm_get_register_name arm_mode_names arm_register_names
trace_register-Shows cycle type reg mode value t typed named five =
    elim (Bool-cases (is_on t registers_flag)) [
      | inl on ↦
          let (name, e_mode) = entry-some arm_mode_names mode five in
          let (kind, e_type) = one_of-some (codes "write") (codes "read") type typed in
          let (register, e_reg) = entry-some arm_register_names reg named in
          trace_register-on cycle type reg mode value t name kind register on e_mode e_type e_reg
      | inr off ↦ (t.last_address, [], rw (trace_register, off) (ap some (print_nothing t)))
    ]

pub trace_memory-Shows :
    (cycle type size cause address value : ℕ) (t : Trace)
    → type < 2
    → cause < 2
    → Shows t (trace_memory cycle type size cause address value t)
unfolding trace_memory
trace_memory-Shows cycle type size cause address value t typed caused =
    elim (Bool-cases (is_on t memory_flag)) [
      | inl on ↦
          let (kind, e_type) = one_of-some (codes "write") (codes "read") type typed in
          let (reason, e_cause) = one_of-some (codes "") (codes ", fetch") cause caused in
          let seen : Trace = record t { last_address = address } in
          let (shown, e) = located seen t.location_stack_top refl in
          (
            address,
            shown ++ memory_line cycle kind size reason address value,
            rw (trace_memory, on, e_type, e_cause, e)
                (ap some (
                  print_behind address shown (memory_line cycle kind size reason address value) t)),
          )
      | inr off ↦ (t.last_address, [], rw (trace_memory, off) (ap some (print_nothing t)))
    ]
