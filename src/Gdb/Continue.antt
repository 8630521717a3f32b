-- ===== src/Gdb/Continue.antt =====
-- `cont`: the steps of the processor up to the first one that ends the loop.
use projet_l3_inf_bn_zl_rj_r.Prelude.{
  ℕ, zero, suc, ◌≤◌, ◌≡◌, ◌≢◌, ◌⊎◌, ℤ, pos, true, false, some, refl, arith, inl, inr, Bool-cases,
}
use projet_l3_inf_bn_zl_rj_r.Machine.{Machine}
use projet_l3_inf_bn_zl_rj_r.Core.{Arm}
use projet_l3_inf_bn_zl_rj_r.Registers.{registers_read, registers_get_mode}
use projet_l3_inf_bn_zl_rj_r.Instruction.{arm_step}
use projet_l3_inf_bn_zl_rj_r.Gdb.{Gdb}
use projet_l3_inf_bn_zl_rj_r.Gdb.Search.{Holds, IsTable}
use projet_l3_inf_bn_zl_rj_r.Gdb.Stops.{stops-Holds}
use projet_l3_inf_bn_zl_rj_r.Gdb.Replies.{gdb_send_stop_reason}
use projet_l3_inf_bn_zl_rj_r.Gdb.Handlers.{single_step, stops, run_on, cont}

-- The program counter in the present mode.
abbrev pub counter : Arm → ℕ
counter p = registers_read p.reg 15 (registers_get_mode p.reg)

-- `n` steps lead from one processor to another, with the result of the last step. That step ends at
-- an address that is marked or gives a result other than 0, and no step before it does.
pub data StopsBehind (m : Machine) (Marked : ℕ → Type 0) : ℕ → Arm → ℤ → Arm → Type 0 where
  last :
      {p p' : Arm} {result : ℤ}
      → arm_step m p ≡ some (result, p')
      → Marked (counter p') ⊎ (result ≢ pos 0)
      → StopsBehind m Marked 1 p result p'
  before :
      {n : ℕ} {p p' : Arm} {result : ℤ} (next : Arm)
      → arm_step m p ≡ some (pos 0, next)
      → ¬ Marked (counter next)
      → StopsBehind m Marked n next result p'
      → StopsBehind m Marked (suc n) p result p'

-- The connection behind a step.
abbrev pub stepped : Gdb → ℤ → Arm → Gdb
stepped gdb result p = record gdb { target_exception = result; arm = p }

module _ (m : Machine) (gdb : Gdb) (sorted : IsTable gdb) where
  ends_loop :
      (result : ℤ) (p : Arm)
      → Holds gdb (counter p) ⊎ (result ≢ pos 0)
      → stops (stepped gdb result p) ≡ true
  ends_loop result p either = (stops-Holds (stepped gdb result p) sorted).1 either

  goes_on : (p : Arm) → ¬ Holds gdb (counter p) → stops (stepped gdb (pos 0) p) ≡ false
  goes_on p unmarked = elim (Bool-cases (stops (stepped gdb (pos 0) p))) [
    | inl stop ↦ elim ((stops-Holds (stepped gdb (pos 0) p) sorted).0 stop) [
      | inl marked ↦ absurd (unmarked marked)
      | inr other ↦ absurd (other refl)
    ]
    | inr go ↦ go
  ]

  reached :
      (n fuel : ℕ) (old : ℤ) (p : Arm) (result : ℤ) (p' : Arm)
      → n ≤ fuel
      → StopsBehind m (Holds gdb) n p result p'
      → run_on fuel m (stepped gdb old p) ≡ some (stepped gdb result p')
  unfolding run_on single_step
  reached n zero old p result p' enough (last e stop) = absurd (omega arith)
  reached n (suc fuel) old p result p' enough (last e stop) =
      rw (run_on, single_step, e, ends_loop result p' stop) refl
  reached n zero old p result p' enough (before next e go rest) = absurd (omega arith)
  reached n (suc fuel) old p result p' enough (before next e go rest) =
      rw (run_on, single_step, e, goes_on next go)
        (reached _ fuel (pos 0) next result p' (omega arith) rest)

-- On a table of breakpoints in order, where a number of steps of the processor leads to the first
-- state whose program counter is in the table or whose step gave a result other than 0, `cont` with at
-- least that much fuel sends the reason of the stop from that very state, with that result, and
-- with the rest of the connection as it was.
pub cont-StopsBehind :
    (n fuel : ℕ) (m : Machine) (gdb : Gdb) (result : ℤ) (p' : Arm)
    → IsTable gdb
    → n ≤ fuel
    → StopsBehind m (Holds gdb) n gdb.arm result p'
    → cont fuel m gdb ≡ gdb_send_stop_reason (stepped gdb result p')
unfolding cont
cont-StopsBehind n fuel m gdb result p' sorted enough run =
    rw (reached m gdb sorted n fuel gdb.target_exception gdb.arm result p' enough run) refl
