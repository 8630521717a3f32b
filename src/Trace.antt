-- ===== src/Trace.antt =====
-- trace.c, in the build without ARM_TRACE_FORMAT, and the macros of trace_location.h. What is printed
-- is kept as the pieces of the formats with their arguments; the formatting of numbers is left to
-- fprintf. The file that the pieces go to is chosen by set_trace_file and has no part in the state.
pub mod Locations
pub mod Printed
use projet_l3_inf_bn_zl_rj_r.Prelude.{
  ℕ, zero, suc, ◌+◌, ◌%◌, ◌^◌, ℤ, pos, negsuc, Bool, true, false, ◌&&◌, not, ◌==◌, ltb,
  if◌then◌else◌, List, [], ◌∷◌, ◌++◌, Option, none, some, ◌>>=◌, bit_and, bit_or, u32,
}
use projet_l3_inf_bn_zl_rj_r.Libc.{codes}
use projet_l3_inf_bn_zl_rj_r.Names.{arm_get_mode_name, arm_get_register_name}
use projet_l3_inf_bn_zl_rj_r.Registers.{
  Registers, registers_read, registers_read_cpsr, registers_read_spsr,
}

-- A piece of a format: text, an argument of `%d`, and one of `%08X`.
pub data Piece : Type 0 where
  text : List ℕ → Piece
  decimal : ℕ → Piece
  hex : ℕ → Piece

abbrev pub memory_flag : ℕ
memory_flag = 32

abbrev pub registers_flag : ℕ
registers_flag = 64

abbrev pub state_flag : ℕ
state_flag = 128

abbrev pub position_flag : ℕ
position_flag = 256

-- The static variables, and all that has been printed.
pub record Trace : Type 0 where
  pub last_address : ℕ
  pub enabled : Bool
  pub location_file_stack : ℕ → List ℕ
  pub location_line_stack : ℕ → ℕ
  pub location_stack_top : ℤ
  pub trace_flags : ℕ
  pub states : ℕ → ℕ
  pub output : List Piece

-- Their first values.
unfoldable pub trace_start : Trace
trace_start = record {
  last_address = 0x12345678;
  enabled = true;
  location_file_stack = λ i. [];
  location_line_stack = λ i. 0;
  location_stack_top = negsuc 0;
  trace_flags = 0;
  states = λ i. 0;
  output = [];
}

abbrev pub set_at {ℓ} : {A : Type ℓ} → (ℕ → A) → ℕ → A → ℕ → A
set_at f i x k = if k == i then x else f k

abbrev pub location_stack_size : ℕ
location_stack_size = 128

-- The assignments of trace_start_location at the new top; `none` outside the two arrays.
unfoldable pub push_location : List ℕ → ℕ → Trace → ℕ → Option Trace
push_location file line t top =
    if ltb top location_stack_size
    then some (record t {
      location_stack_top = pos top;
      location_file_stack = set_at t.location_file_stack top file;
      location_line_stack = set_at t.location_line_stack top line;
    })
    else none

unfoldable pub trace_start_location : List ℕ → ℕ → Trace → Option Trace
trace_start_location file line t =
    if t.enabled
    then elim t.location_stack_top [
      | pos n ↦ push_location file line t (n + 1)
      | negsuc n ↦ elim n [ zero ↦ push_location file line t 0 | suc k ↦ none ]
    ]
    else some t

abbrev pub below : ℤ → ℤ
below (pos zero) = negsuc 0
below (pos (suc n)) = pos n
below (negsuc n) = negsuc (suc n)

-- It gives 0 besides.
unfoldable pub trace_end_location : Trace → Trace
trace_end_location t =
    if t.enabled then record t { location_stack_top = below t.location_stack_top } else t

abbrev pub is_on : Trace → ℕ → Bool
is_on t flag = t.enabled && not (bit_and t.trace_flags flag == 0)

abbrev pub print : List Piece → Trace → Trace
print pieces t = record t { output = t.output ++ pieces }

-- The format of a location.
abbrev pub location_line : List ℕ → ℕ → List Piece
location_line file line = text file ∷ text (codes ", ") ∷ decimal line ∷ text (codes ": ") ∷ []

unfoldable pub trace_print_location : Trace → Trace
trace_print_location t =
    if is_on t position_flag
    then elim t.location_stack_top [
      | pos n ↦ print (location_line (t.location_file_stack n) (t.location_line_stack n)) t
      | negsuc n ↦ t
    ]
    else t

-- An element of an array of two texts.
abbrev pub one_of : List ℕ → List ℕ → ℕ → Option (List ℕ)
one_of a b i = if i == 0 then some a else if i == 1 then some b else none

-- The format of an access to memory.
abbrev pub memory_line : ℕ → List ℕ → ℕ → List ℕ → ℕ → ℕ → List Piece
memory_line cycle kind size reason address value =
    text (codes "Cycle ")
    ∷ decimal cycle
    ∷ text (codes ", Mem ")
    ∷ text kind
    ∷ text (codes " (")
    ∷ decimal size
    ∷ text (codes " bytes")
    ∷ text reason
    ∷ text (codes ") addr: ")
    ∷ hex address
    ∷ text (codes ", val: ")
    ∷ hex value
    ∷ text (codes "\n")
    ∷ []

-- Both texts of `trace_memory_seq` are empty.
unfoldable pub trace_memory : ℕ → ℕ → ℕ → ℕ → ℕ → ℕ → Trace → Option Trace
trace_memory cycle type size cause address value t =
    if is_on t memory_flag
    then (do
      let seen = trace_print_location (record t { last_address = address })
      kind ← one_of (codes "write") (codes "read") type
      reason ← one_of (codes "") (codes ", fetch") cause
      some (print (memory_line cycle kind size reason address value) seen))
    else some t

-- `mode_name`: an underscore and the name of the mode, if it has one.
unfoldable pub mode_suffix : Option (List ℕ) → List ℕ
mode_suffix none = []
mode_suffix (some name) = codes "_" ++ name

-- The format of an access to a register.
abbrev pub register_line : ℕ → List ℕ → List ℕ → Option (List ℕ) → ℕ → List Piece
register_line cycle kind register name value =
    text (codes "Cycle ")
    ∷ decimal cycle
    ∷ text (codes ", Register ")
    ∷ text kind
    ∷ text (codes ", ")
    ∷ text register
    ∷ text (mode_suffix name)
    ∷ text (codes ", val: ")
    ∷ hex value
    ∷ text (codes "\n")
    ∷ []

unfoldable pub trace_register : ℕ → ℕ → ℕ → ℕ → ℕ → Trace → Option Trace
trace_register cycle type reg mode value t =
    if is_on t registers_flag
    then (do
      name ← arm_get_mode_name mode
      kind ← one_of (codes "write") (codes "read") type
      register ← arm_get_register_name reg
      some (print (register_line cycle kind register name value) (trace_print_location t)))
    else some t

unfoldable pub trace_disable : Trace → Trace
trace_disable t = record t { enabled = false }

unfoldable pub trace_enable : Trace → Trace
trace_enable t = record t { enabled = true }

unfoldable pub trace_add : ℤ → Trace → Trace
trace_add (pos flags) t =
    if ltb flags 32
    then record t {
      trace_flags = bit_or t.trace_flags state_flag;
      states = set_at t.states flags 1;
    }
    else record t { trace_flags = bit_or t.trace_flags flags }
trace_add (negsuc flags) t = t

-- The inner loop of trace_arm_state, from `reg` on, with `rounds` left; `count` is `reg`.
unfoldable pub register_cells : Registers → ℕ → ℕ → ℕ → Option (List Piece)
register_cells r mode zero reg = some []
register_cells r mode (suc rounds) reg = do
  name ← arm_get_register_name reg
  rest ← register_cells r mode rounds (reg + 1)
  some (
      (if ltb 0 reg && (reg % 5 == 0) then text (codes "\n    ") ∷ [] else [])
      ++ (text (codes "   ")
          ∷ text name
          ∷ text (codes "=")
          ∷ hex (registers_read r reg mode)
          ∷ rest))

-- The line of a mode.
unfoldable pub mode_line : Registers → ℕ → List ℕ → Option (List Piece)
mode_line r mode name = do
  cells ← register_cells r mode 16 0
  some (
      (text name ∷ text (codes ":") ∷ cells)
      ++ (text (codes "   CPSR=")
          ∷ hex (registers_read_cpsr r)
          ∷ text (codes "   SPSR=")
          ∷ hex (registers_read_spsr r mode)
          ∷ text (codes "\n")
          ∷ []))

-- The outer loop, from `mode` on, with `rounds` left.
unfoldable pub mode_lines : Registers → ℕ → ℕ → Trace → Option Trace
mode_lines r zero mode t = some t
mode_lines r (suc rounds) mode t = do
  name ← arm_get_mode_name mode
  pieces ← elim name [
    | none ↦ some []
    | some shown ↦ if t.states mode == 0 then some [] else mode_line r mode shown
  ]
  mode_lines r rounds (mode + 1) (print pieces t)

unfoldable pub trace_arm_state : Registers → Trace → Option Trace
trace_arm_state r t = if is_on t state_flag then mode_lines r 32 0 t else some t
