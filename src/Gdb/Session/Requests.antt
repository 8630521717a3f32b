-- ===== src/Gdb/Session/Requests.antt =====
-- The well-formed connections and the handlers of the requests.
use projet_l3_inf_bn_zl_rj_r.Prelude.{
  ℕ, ◌-◌, ◌^◌, ◌<◌, Bool, true, false, not, ◌==◌, ltb, if◌then◌else◌, arith, List, [], ◌∷◌, ◌&&◌,
  ◌||◌, some, u32, inl, inr, Option-cases, if_both,
}
use projet_l3_inf_bn_zl_rj_r.Libc.{
  atoi, codes, c_string, advance, same_text, starts_with, behind, scan_hex, scan_pair, scan_next,
  scan_byte_pair, assigned,
}
use projet_l3_inf_bn_zl_rj_r.Machine.{Machine}
use projet_l3_inf_bn_zl_rj_r.Registers.{registers_write_cpsr}
use projet_l3_inf_bn_zl_rj_r.Memory.{Memory, memory_get_size}
use projet_l3_inf_bn_zl_rj_r.Core.{arm_write_cpsr}
use projet_l3_inf_bn_zl_rj_r.Valid.{Ensures, Ensures-bind, anything}
use projet_l3_inf_bn_zl_rj_r.Valid.Access.{AreBytes, write_cpsr-IsValid}
use projet_l3_inf_bn_zl_rj_r.Gdb.{Gdb, gdb_add_breakpoint, gdb_remove_breakpoint}
use projet_l3_inf_bn_zl_rj_r.Gdb.Replies.{gdb_send_data, gdb_send_stop_reason}
use projet_l3_inf_bn_zl_rj_r.Gdb.Handlers
use projet_l3_inf_bn_zl_rj_r.Gdb.Handlers.{
  content_of, single_step_with_signal, put_registers, put_memory, single_step, stops, run_on,
  read_uint32, write_register, write_registers, next_byte, fill, breakpoint_of, dump,
  print_registers, read_register,
}
use projet_l3_inf_bn_zl_rj_r.Gdb.Session.{
  IsSession, with_arm, send-Ensures, send_data-Ensures, reason-Ensures, single_step-Ensures,
  run_on-Ensures, gdb_add_breakpoint-IsSession, gdb_remove_breakpoint-IsSession,
}
use projet_l3_inf_bn_zl_rj_r.Gdb.Session.Scan.{
  IsWord, assigned-lt, scan_second, scan_hex-Ensures, read_uint32-lt, Written, Filled,
  write_register-Ensures, write_registers-Ensures, fill-Ensures,
}

write_cpsr-IsSession :
    (gdb : Gdb) (value : ℕ)
    → IsSession gdb
    → value < 2 ^ 32
    → IsSession (put_registers gdb (registers_write_cpsr gdb.arm.reg value))
unfolding arm_write_cpsr
write_cpsr-IsSession gdb value session small =
    let valid = write_cpsr-IsValid session.valid value small in
    with_arm (record gdb.arm { reg = registers_write_cpsr gdb.arm.reg value }) gdb.target_exception
      session valid

fill-IsSession :
    (gdb : Gdb) (mem' : Memory) → IsSession gdb → AreBytes mem' → IsSession (put_memory gdb mem')
fill-IsSession gdb mem' session bytes =
    with_arm (record gdb.arm { mem = mem' }) gdb.target_exception session
      (record { words = session.valid.words; bytes = bytes; cycles = session.valid.cycles })

first-IsWord : (s : List ℕ) → IsWord (scan_pair s).0
unfolding scan_pair
first-IsWord s = elim (Option-cases (scan_hex s)) [
  | inl e ↦ rw (e, scan_pair) tt
  | inr (r, e) ↦
      let h = scan_hex-Ensures s in
      let h' = rw e at h in
      elim (Option-cases (scan_next r.1)) [
        | inl e' ↦ rw (e, scan_pair, e') h'
        | inr (r', e') ↦ rw (e, scan_pair, e') h'
      ]
]

byte_pair_second : (s : List ℕ) → IsWord (scan_byte_pair s).1
unfolding scan_byte_pair
byte_pair_second s = scan_second s

-- One of two texts is sent.
send_either :
    (b : Bool) (gdb : Gdb) (first second : List ℕ)
    → IsSession gdb
    → Ensures IsSession (if b then gdb_send_data gdb first else gdb_send_data gdb second)
send_either true gdb first second session = send_data-Ensures gdb first session
send_either false gdb first second session = send_data-Ensures gdb second session

pub query-Ensures :
    (gdb : Gdb) (raw : List ℕ) → IsSession gdb → Ensures IsSession (Handlers.query gdb raw)
unfolding Handlers.query
query-Ensures gdb raw session =
    let text = c_string raw in
    let sends = λ (reply : List ℕ). send_data-Ensures gdb reply session in
    if_both (Ensures IsSession) (same_text text (codes "Offsets")) _ _ (sends _) (
      if_both (Ensures IsSession) (starts_with (codes "Supported") text) _ _ (sends _) (
        if_both (Ensures IsSession) (same_text text (codes "TStatus")) _ _ (sends _) (
          if_both (Ensures IsSession) (same_text text (codes "Symbol::")) _ _ (sends _) (sends _))))

pub read_general-Ensures :
    (gdb : Gdb) → IsSession gdb → Ensures IsSession (Handlers.read_general_registers gdb)
unfolding Handlers.read_general_registers
read_general-Ensures gdb session =
    Ensures-bind (λ _. Unit {0}) IsSession (print_registers 16 0 gdb) _ (anything _)
      λ general _. send-Ensures gdb _ session

pub read_memory-Ensures :
    (m : Machine) (gdb : Gdb) (raw : List ℕ)
    → IsSession gdb
    → Ensures IsSession (Handlers.read_memory m gdb raw)
unfolding Handlers.read_memory
read_memory-Ensures m gdb raw session =
    Ensures-bind (λ _. Unit {0}) IsSession _ _ (anything _) λ text _. send-Ensures gdb text session

pub read_single-Ensures :
    (gdb : Gdb) (raw : List ℕ)
    → IsSession gdb
    → Ensures IsSession (Handlers.read_single_register gdb raw)
unfolding Handlers.read_single_register
read_single-Ensures gdb raw session =
    Ensures-bind (λ _. Unit {0}) IsSession _ _ (anything _) λ text _. send-Ensures gdb text session

pub set_thread-Ensures :
    (gdb : Gdb) (raw : List ℕ) → IsSession gdb → Ensures IsSession (Handlers.set_thread gdb raw)
unfolding Handlers.set_thread
set_thread-Ensures gdb [] session = tt
set_thread-Ensures gdb (type ∷ rest) session =
    let value = atoi (c_string rest) in
    send_either ((type == b'c' || type == b'g') && (value == 0 || value == 2 ^ 32 - 1)) gdb _ _
      session

pub write_general-Ensures :
    (m : Machine) (gdb : Gdb) (raw : List ℕ)
    → IsSession gdb
    → Ensures IsSession (Handlers.write_general_registers m gdb raw)
unfolding Handlers.write_general_registers
write_general-Ensures m gdb raw session =
    Ensures-bind Written IsSession (write_registers 16 0 m gdb raw) _
      (write_registers-Ensures 16 0 m gdb raw session)
      λ (raw', gdb') session'.
        Ensures-bind (λ _. Unit {0}) IsSession (advance 200 raw') _ (anything _)
          λ position _.
            send_data-Ensures _ _
              (write_cpsr-IsSession gdb' _ session' (read_uint32-lt m gdb' position))

pub write_single-Ensures :
    (m : Machine) (gdb : Gdb) (raw : List ℕ)
    → IsSession gdb
    → Ensures IsSession (Handlers.write_single_register m gdb raw)
unfolding Handlers.write_single_register
write_single-Ensures m gdb raw session =
    Ensures-bind (λ _. Unit {0}) IsSession (behind b'=' raw) _ (anything _)
      λ content _.
        Ensures-bind IsSession IsSession (write_register m gdb _ content) _
          (write_register-Ensures m gdb _ content session)
          λ gdb' session'. send_data-Ensures gdb' _ session'

pub write_memory-Ensures :
    (m : Machine) (gdb : Gdb) (raw : List ℕ)
    → IsSession gdb
    → Ensures IsSession (Handlers.write_memory_binary m gdb raw)
unfolding Handlers.write_memory_binary
write_memory-Ensures m gdb raw session =
    let read = scan_pair (c_string raw) in
    let address = assigned read.0 (u32 (m.stale_word gdb.arm.cycle_count)) in
    let size = assigned read.1 (u32 (m.stale_second_word gdb.arm.cycle_count)) in
    let mem = gdb.arm.mem in
    let content = content_of raw in
    Ensures-bind Filled IsSession
      (if ltb address (memory_get_size mem)
        then fill size mem address content
        else some (false, mem))
      _
      (if_both (Ensures Filled) (ltb address (memory_get_size mem)) (fill size mem address content)
        (some (false, mem)) (fill-Ensures size mem address content session.valid.bytes)
        session.valid.bytes)
      λ (ok, mem') bytes. send_data-Ensures _ _ (fill-IsSession gdb mem' session bytes)

pub set_breakpoint-Ensures :
    (m : Machine) (gdb : Gdb) (raw : List ℕ)
    → IsSession gdb
    → Ensures IsSession (Handlers.set_breakpoint m gdb raw)
unfolding Handlers.set_breakpoint
set_breakpoint-Ensures m gdb raw session =
    let at = breakpoint_of m gdb raw in
    let small : at.1 < 2 ^ 32 = assigned-lt _ _ (byte_pair_second (c_string raw)) (omega arith) in
    let added = gdb_add_breakpoint gdb at.1 in
    if_both (Ensures IsSession) (not (at.0 == 0)) (gdb_send_data gdb (codes "E03"))
      (gdb_send_data added.1 (if added.0 == 0 then codes "E04" else codes "OK"))
      (send_data-Ensures gdb _ session)
      (send_data-Ensures added.1 _ (gdb_add_breakpoint-IsSession gdb at.1 session small))

pub remove_breakpoint-Ensures :
    (m : Machine) (gdb : Gdb) (raw : List ℕ)
    → IsSession gdb
    → Ensures IsSession (Handlers.remove_breakpoint m gdb raw)
unfolding Handlers.remove_breakpoint
remove_breakpoint-Ensures m gdb raw session =
    let at = breakpoint_of m gdb raw in
    let removed = gdb_remove_breakpoint gdb at.1 in
    if_both (Ensures IsSession) (not (at.0 == 0)) (gdb_send_data gdb (codes "E03"))
      (gdb_send_data removed.1 (if removed.0 == 0 then codes "E05" else codes "OK"))
      (send_data-Ensures gdb _ session)
      (send_data-Ensures removed.1 _ (gdb_remove_breakpoint-IsSession gdb at.1 session))

pub cont-Ensures :
    (fuel : ℕ) (m : Machine) (gdb : Gdb)
    → IsSession gdb
    → Ensures IsSession (Handlers.cont fuel m gdb)
unfolding Handlers.cont
cont-Ensures fuel m gdb session =
    Ensures-bind IsSession IsSession (run_on fuel m gdb) gdb_send_stop_reason
      (run_on-Ensures fuel m gdb session) reason-Ensures

pub step-Ensures :
    (m : Machine) (gdb : Gdb) → IsSession gdb → Ensures IsSession (Handlers.step m gdb)
unfolding Handlers.step
step-Ensures m gdb session =
    Ensures-bind IsSession IsSession (single_step m gdb) gdb_send_stop_reason
      (single_step-Ensures m gdb session) reason-Ensures
