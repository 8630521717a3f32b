-- ===== src/Gdb/Analysis.antt =====
-- gdb_protocol.c: the table of handlers, and the analysis of a packet that the scanner has found.
use projet_l3_inf_bn_zl_rj_r.Prelude.{
  ℕ, ◌+◌, ◌-◌, List, [], ◌∷◌, ◌++◌, Option, none, some, ◌>>=◌, if◌then◌else◌, ◌==◌, u32,
}
use projet_l3_inf_bn_zl_rj_r.Libc.{length, advance, take, scan_value, assigned}
use projet_l3_inf_bn_zl_rj_r.Machine.{Machine}
use projet_l3_inf_bn_zl_rj_r.Gdb.{Gdb}
use projet_l3_inf_bn_zl_rj_r.Gdb.Replies.{
  gdb_send_ack, gdb_require_retransmission, gdb_send_data, checksum,
}
use projet_l3_inf_bn_zl_rj_r.Gdb.Handlers

-- The functions that the table points to.
pub data Handler : Type 0 where
  cont cont_with_signal kill_request query read_general_registers read_memory : Handler
  read_single_register reason set_thread step step_with_signal : Handler
  write_general_registers write_memory_binary write_single_register : Handler
  remove_breakpoint set_breakpoint : Handler

-- The table `handler` behind `gdb_init`.
unfoldable pub handler : ℕ → Option Handler
handler index =
    if index == b'c'
    then some Handler.cont
    else if index == b'C'
    then some Handler.cont_with_signal
    else if index == b'k'
    then some Handler.kill_request
    else if index == b'q'
    then some Handler.query
    else if index == b'g'
    then some Handler.read_general_registers
    else if index == b'm'
    then some Handler.read_memory
    else if index == b'p'
    then some Handler.read_single_register
    else if index == b'?'
    then some Handler.reason
    else if index == b'H'
    then some Handler.set_thread
    else if index == b's'
    then some Handler.step
    else if index == b'S'
    then some Handler.step_with_signal
    else if index == b'G'
    then some Handler.write_general_registers
    else if index == b'X'
    then some Handler.write_memory_binary
    else if index == b'P'
    then some Handler.write_single_register
    else if index == b'z'
    then some Handler.remove_breakpoint
    else if index == b'Z'
    then some Handler.set_breakpoint
    else none

-- The call of a handler; the fuel is for `cont`.
unfoldable pub call : ℕ → Machine → Handler → Gdb → List ℕ → Option Gdb
call fuel m Handler.cont gdb raw = Handlers.cont fuel m gdb
call fuel m Handler.cont_with_signal gdb raw = Handlers.cont fuel m gdb
call fuel m Handler.kill_request gdb raw = some (Handlers.kill_request gdb)
call fuel m Handler.query gdb raw = Handlers.query gdb raw
call fuel m Handler.read_general_registers gdb raw = Handlers.read_general_registers gdb
call fuel m Handler.read_memory gdb raw = Handlers.read_memory m gdb raw
call fuel m Handler.read_single_register gdb raw = Handlers.read_single_register gdb raw
call fuel m Handler.reason gdb raw = Handlers.reason gdb
call fuel m Handler.set_thread gdb raw = Handlers.set_thread gdb raw
call fuel m Handler.step gdb raw = Handlers.step m gdb
call fuel m Handler.step_with_signal gdb raw = Handlers.step_with_signal m gdb
call fuel m Handler.write_general_registers gdb raw = Handlers.write_general_registers m gdb raw
call fuel m Handler.write_memory_binary gdb raw = Handlers.write_memory_binary m gdb raw
call fuel m Handler.write_single_register gdb raw = Handlers.write_single_register m gdb raw
call fuel m Handler.remove_breakpoint gdb raw = Handlers.remove_breakpoint m gdb raw
call fuel m Handler.set_breakpoint gdb raw = Handlers.set_breakpoint m gdb raw

-- What is done once the checksum is right, with the array behind `$`.
unfoldable pub dispatch : ℕ → Machine → Gdb → List ℕ → Option Gdb
dispatch fuel m gdb request = elim request [
  | [] ↦ none
  | index ∷ raw ↦ elim (handler index) [
    | none ↦ gdb_send_data gdb []
    | some h ↦ call fuel m h gdb raw
  ]
]

-- The scanner passes on a `$`, characters that are neither `$` nor `#`, a `#` and two digits; the
-- array ends with a NUL. The text between is what the checksum is for, and the `#` is replaced by
-- a NUL before the handler is called.
unfoldable pub gdb_packet_analysis : ℕ → Machine → Gdb → List ℕ → Option Gdb
gdb_packet_analysis fuel m gdb packet = do
  let count = length packet - 4
  text ← advance 1 packet
  digits ← advance (count + 1) text
  let given = assigned (scan_value digits) (u32 (m.stale_word gdb.arm.cycle_count))
  if checksum (take count text) 0 == given
      then (gdb_send_ack gdb >>= λ gdb'.
          dispatch fuel m gdb' (take count text ++ 0 ∷ digits ++ 0 ∷ []))
      else gdb_require_retransmission gdb
