-- ===== src/Gdb/Session/Packets.antt =====
-- The well-formed connections and the analysis of a packet.
use projet_l3_inf_bn_zl_rj_r.Prelude.{
  ◌++◌, ℕ, ◌+◌, ◌-◌, true, ◌==◌, List, [], ◌∷◌, ◌>>=◌, u32, inl, inr, Option-cases, if_both,
}
use projet_l3_inf_bn_zl_rj_r.Libc.{advance, scan_value, take, assigned, length}
use projet_l3_inf_bn_zl_rj_r.Machine.{Machine}
use projet_l3_inf_bn_zl_rj_r.Valid.{Ensures, Ensures-bind, anything}
use projet_l3_inf_bn_zl_rj_r.Gdb.{Gdb}
use projet_l3_inf_bn_zl_rj_r.Gdb.Replies.{checksum, gdb_send_ack, gdb_require_retransmission}
use projet_l3_inf_bn_zl_rj_r.Gdb.Handlers
use projet_l3_inf_bn_zl_rj_r.Gdb.Handlers.{
  single_step_with_signal, put_registers, put_memory, single_step, stops, run_on, read_uint32,
  write_register, write_registers, next_byte, fill, breakpoint_of, dump, print_registers,
  read_register,
}
use projet_l3_inf_bn_zl_rj_r.Gdb.Analysis.{Handler, handler, call, dispatch, gdb_packet_analysis}
use projet_l3_inf_bn_zl_rj_r.Gdb.Session.{
  IsSession, with_texts, write_out-Ensures, send_data-Ensures, reason-Ensures,
}
use projet_l3_inf_bn_zl_rj_r.Gdb.Session.Requests.{
  query-Ensures, read_general-Ensures, read_memory-Ensures, read_single-Ensures, set_thread-Ensures,
  write_general-Ensures, write_single-Ensures, write_memory-Ensures, set_breakpoint-Ensures,
  remove_breakpoint-Ensures, cont-Ensures, step-Ensures,
}

call-Ensures :
    (fuel : ℕ) (m : Machine) (h : Handler) (gdb : Gdb) (raw : List ℕ)
    → IsSession gdb
    → Ensures IsSession (call fuel m h gdb raw)
unfolding call Handlers.kill_request Handlers.reason Handlers.step_with_signal Handlers.step
    single_step_with_signal
call-Ensures fuel m Handler.cont gdb raw session = cont-Ensures fuel m gdb session
call-Ensures fuel m Handler.cont_with_signal gdb raw session = cont-Ensures fuel m gdb session
call-Ensures fuel m Handler.kill_request gdb raw session =
    with_texts gdb.packet gdb.sent true session
call-Ensures fuel m Handler.query gdb raw session = query-Ensures gdb raw session
call-Ensures fuel m Handler.read_general_registers gdb raw session =
    read_general-Ensures gdb session
call-Ensures fuel m Handler.read_memory gdb raw session = read_memory-Ensures m gdb raw session
call-Ensures fuel m Handler.read_single_register gdb raw session =
    read_single-Ensures gdb raw session
call-Ensures fuel m Handler.reason gdb raw session = reason-Ensures gdb session
call-Ensures fuel m Handler.set_thread gdb raw session = set_thread-Ensures gdb raw session
call-Ensures fuel m Handler.step gdb raw session = step-Ensures m gdb session
call-Ensures fuel m Handler.step_with_signal gdb raw session = step-Ensures m gdb session
call-Ensures fuel m Handler.write_general_registers gdb raw session =
    write_general-Ensures m gdb raw session
call-Ensures fuel m Handler.write_memory_binary gdb raw session =
    write_memory-Ensures m gdb raw session
call-Ensures fuel m Handler.write_single_register gdb raw session =
    write_single-Ensures m gdb raw session
call-Ensures fuel m Handler.remove_breakpoint gdb raw session =
    remove_breakpoint-Ensures m gdb raw session
call-Ensures fuel m Handler.set_breakpoint gdb raw session =
    set_breakpoint-Ensures m gdb raw session

dispatch-Ensures :
    (fuel : ℕ) (m : Machine) (gdb : Gdb) (request : List ℕ)
    → IsSession gdb
    → Ensures IsSession (dispatch fuel m gdb request)
unfolding dispatch
dispatch-Ensures fuel m gdb [] session = tt
dispatch-Ensures fuel m gdb (index ∷ raw) session = elim (Option-cases (handler index)) [
  | inl e ↦ rw (dispatch, e) (send_data-Ensures gdb [] session)
  | inr (h, e) ↦ rw (dispatch, e) (call-Ensures fuel m h gdb raw session)
]

-- The analysis of any packet, from a well-formed session, ends in a well-formed session if it does not
-- stop the process.
pub gdb_packet_analysis-IsSession :
    (fuel : ℕ) (m : Machine) (gdb : Gdb) (packet : List ℕ)
    → IsSession gdb
    → Ensures IsSession (gdb_packet_analysis fuel m gdb packet)
unfolding gdb_packet_analysis gdb_send_ack gdb_require_retransmission
gdb_packet_analysis-IsSession fuel m gdb packet session =
    let count = length packet - 4 in
    Ensures-bind (λ _. Unit {0}) IsSession (advance 1 packet) _ (anything _)
      λ text _.
        Ensures-bind (λ _. Unit {0}) IsSession (advance (count + 1) text) _ (anything _)
          λ digits _.
            let given = assigned (scan_value digits) (u32 (m.stale_word gdb.arm.cycle_count)) in
            let request = take count text ++ 0 ∷ digits ++ 0 ∷ [] in
            if_both (Ensures IsSession) (checksum (take count text) 0 == given)
              (gdb_send_ack gdb >>= λ gdb'. dispatch fuel m gdb' request)
              (gdb_require_retransmission gdb)
              (Ensures-bind IsSession IsSession (gdb_send_ack gdb) _
                (write_out-Ensures gdb (b'+' ∷ []) session)
                λ gdb' session'. dispatch-Ensures fuel m gdb' request session')
              (write_out-Ensures gdb (b'-' ∷ []) session)
