-- ===== src/Gdb/Search.antt =====
-- `gdb_find_breakpoint`: the binary search in a table that ascends.
use projet_l3_inf_bn_zl_rj_r.Prelude.{
  ℕ, zero, suc, ◌+◌, ◌/◌, ◌≤◌, ◌<◌, ◌≡◌, ◌≢◌, ◌↔◌, none, some, arith,
}
use projet_l3_inf_bn_zl_rj_r.Gdb.{Gdb, search_breakpoint, gdb_find_breakpoint}

-- The first `n` entries ascend strictly.
abbrev pub Ascends : (ℕ → ℕ) → ℕ → Type 0
Ascends a n = (i j : ℕ) → i < j → j < n → a i < a j

-- The table holds an address.
abbrev pub Holds : Gdb → ℕ → Type 0
Holds gdb address = (i : ℕ) × (i < gdb.breakpoints_number) × (gdb.breakpoints i ≡ address)

-- The well-formed tables.
abbrev pub IsTable : Gdb → Type 0
IsTable gdb = Ascends gdb.breakpoints gdb.breakpoints_number

module _ (a : ℕ → ℕ) (x : ℕ) where
  search_sound :
      (fuel begin end i : ℕ) → search_breakpoint fuel a x begin end ≡ some i → (i < end) × (a i ≡ x)
  unfolding search_breakpoint
  search_sound zero begin end i e = absurd (cc)
  search_sound (suc fuel) begin end i e =
      let middle = (begin + end) / 2 in
      ground (arith, search_sound fuel begin middle i, search_sound fuel (middle + 1) end i)

  search_complete :
      (n : ℕ)
      → Ascends a n
      → (fuel begin end i : ℕ) → end ≤ n
      → end < begin + fuel
      → begin ≤ i
      → i < end
      → a i ≡ x
      → search_breakpoint fuel a x begin end ≡ some i
  unfolding search_breakpoint
  search_complete n sorted zero begin end i inside enough low high e = absurd (omega arith)
  search_complete n sorted (suc fuel) begin end i inside enough low high e =
      let middle = (begin + end) / 2 in
      ground (
        arith,
        sorted i middle,
        sorted middle i,
        search_complete n sorted fuel begin middle i,
        search_complete n sorted fuel (middle + 1) end i,
      )

-- In a table that ascends, the search gives the place `i` exactly when `i` is the place of an entry
-- of the table, and that entry is the address.
pub gdb_find_breakpoint-IsTable :
    (gdb : Gdb) (address i : ℕ)
    → IsTable gdb
    → (gdb_find_breakpoint gdb address ≡ some i)
      ↔ (i < gdb.breakpoints_number) × (gdb.breakpoints i ≡ address)
unfolding gdb_find_breakpoint
gdb_find_breakpoint-IsTable gdb address i sorted = (
  search_sound gdb.breakpoints address _ 0 _ i,
  λ (small, e).
      search_complete gdb.breakpoints address gdb.breakpoints_number sorted _ 0 _ i (omega arith)
        (omega arith) (omega arith) small e,
)

-- The search that finds nothing.
pub gdb_find_breakpoint-none :
    (gdb : Gdb) (address i : ℕ)
    → IsTable gdb
    → gdb_find_breakpoint gdb address ≡ none
    → i < gdb.breakpoints_number
    → gdb.breakpoints i ≢ address
gdb_find_breakpoint-none gdb address i sorted missed small e =
    let found = (gdb_find_breakpoint-IsTable gdb address i sorted).1 (small, e) in cc
