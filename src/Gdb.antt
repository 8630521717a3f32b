-- ===== src/Gdb.antt =====
-- gdb_protocol.c: the state of a connection with gdb, and its table of breakpoints. The child modules
-- have the packets that are sent, the handlers of the requests, and the analysis of a packet.
pub mod Search
pub mod Insert
pub mod Close
pub mod Edit
pub mod AddressSet
pub mod Refines
pub mod Replies
pub mod Handlers
pub mod Analysis
pub mod Framing
pub mod Continue
pub mod Stops
pub mod General
pub mod Single
pub mod Transfer
pub mod Session
use projet_l3_inf_bn_zl_rj_r.Prelude.{
  ℕ, zero, suc, ◌+◌, ◌-◌, ◌/◌, ℤ, pos, Bool, false, List, [], Option, none, some, if◌then◌else◌,
  ltb, ◌==◌,
}
use projet_l3_inf_bn_zl_rj_r.Core.{Arm}

-- MAX_BREAKPOINTS_NUMBER.
abbrev pub max_breakpoints_number : ℕ
max_breakpoints_number = 1024

-- `struct gdb_protocol_data`; `reg` and `mem` are those of `arm`. `packet` is the first `len`
-- characters of the field `packet`. For the socket `fd` there are the texts that have been written
-- to it, the last one first, and whether it is shut for writing.
pub record Gdb : Type 0 where
  pub arm : Arm
  pub target_exception : ℤ
  pub breakpoints : ℕ → ℕ
  pub breakpoints_number : ℕ
  pub packet : List ℕ
  pub sent : List (List ℕ)
  pub shut : Bool

-- The array is not set by `malloc`: it is the second argument.
unfoldable pub gdb_init_data : Arm → (ℕ → ℕ) → Gdb
gdb_init_data arm content = record {
  arm = arm;
  target_exception = pos 0;
  breakpoints = content;
  breakpoints_number = 0;
  packet = [];
  sent = [];
  shut = false;
}

-- The assignment `breakpoints[i] = value`.
abbrev pub put : (ℕ → ℕ) → ℕ → ℕ → ℕ → ℕ
put breakpoints i value j = if j == i then value else breakpoints j

-- The loop of `gdb_find_breakpoint`, on fuel. It gives `none` for -1, and where the fuel runs out;
-- `gdb_find_breakpoint` starts it with one unit of fuel for each breakpoint and one more.
unfoldable pub search_breakpoint : ℕ → (ℕ → ℕ) → ℕ → ℕ → ℕ → Option ℕ
search_breakpoint zero breakpoints address begin end = none
search_breakpoint (suc fuel) breakpoints address begin end =
    let middle = (begin + end) / 2 in
    let below = search_breakpoint fuel breakpoints address begin middle in
    let above = search_breakpoint fuel breakpoints address (middle + 1) end in
    if ltb begin end
    then (if ltb address (breakpoints middle)
        then below
        else if ltb (breakpoints middle) address
        then above
        else some middle)
    else none

unfoldable pub gdb_find_breakpoint : Gdb → ℕ → Option ℕ
gdb_find_breakpoint gdb address =
    search_breakpoint (gdb.breakpoints_number + 1) gdb.breakpoints address 0 gdb.breakpoints_number

-- The loop of `gdb_add_breakpoint` that moves the greater breakpoints up, from `j` on, and the
-- assignment behind it.
unfoldable pub insert_breakpoint : ℕ → (ℕ → ℕ) → ℕ → ℕ → ℕ
insert_breakpoint zero breakpoints address = put breakpoints 0 address
insert_breakpoint (suc j) breakpoints address =
    let moved = insert_breakpoint j (put breakpoints (suc j) (breakpoints j)) address in
    if ltb address (breakpoints j) then moved else put breakpoints (suc j) address

unfoldable pub gdb_add_breakpoint : Gdb → ℕ → ℕ × Gdb
gdb_add_breakpoint gdb address =
    if ltb gdb.breakpoints_number max_breakpoints_number
    then elim (gdb_find_breakpoint gdb address) [
      | some position ↦ (1, gdb)
      | none ↦ (
        1,
        record gdb {
          breakpoints_number = gdb.breakpoints_number + 1;
          breakpoints = insert_breakpoint gdb.breakpoints_number gdb.breakpoints address;
        },
      )
    ]
    else (0, gdb)

-- The loop of `gdb_remove_breakpoint` that moves breakpoints down, from `j` on, with `rounds` left.
unfoldable pub close_gap : ℕ → ℕ → (ℕ → ℕ) → ℕ → ℕ
close_gap zero j breakpoints = breakpoints
close_gap (suc rounds) j breakpoints =
    close_gap rounds (j + 1) (put breakpoints j (breakpoints (j + 1)))

unfoldable pub gdb_remove_breakpoint : Gdb → ℕ → ℕ × Gdb
gdb_remove_breakpoint gdb address = elim (gdb_find_breakpoint gdb address) [
  | none ↦ (0, gdb)
  | some position ↦
      let last = gdb.breakpoints_number - 1 in
      (
        1,
        record gdb {
          breakpoints_number = last;
          breakpoints = close_gap (last - position) position gdb.breakpoints;
        },
      )
]
