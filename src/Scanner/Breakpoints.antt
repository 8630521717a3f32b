-- ===== src/Scanner/Breakpoints.antt =====
-- Packets behind each other that set and clear breakpoints.
use projet_l3_inf_bn_zl_rj_r.Prelude.{
  ℕ, ◌+◌, ◌≡◌, refl, ◌∙◌, ap, true, false, ◌==◌, List, [], ◌∷◌, some, arith, Bool-cases, inl, inr,
  ltb,
}
use projet_l3_inf_bn_zl_rj_r.Libc.{codes, length, c_string, scan_byte_pair}
use projet_l3_inf_bn_zl_rj_r.Machine.{Machine}
use projet_l3_inf_bn_zl_rj_r.Gdb.{Gdb, gdb_add_breakpoint, gdb_remove_breakpoint}
use projet_l3_inf_bn_zl_rj_r.Gdb.AddressSet.{Edit, add, remove, find, set_edit}
use projet_l3_inf_bn_zl_rj_r.Gdb.Refines.{Refines, edit, edit-Refines}
use projet_l3_inf_bn_zl_rj_r.Gdb.Replies.{
  frame, gdb_send_data, gdb_send_buffer, gdb_transmit_packet, write_out, max_packet_size,
}
use projet_l3_inf_bn_zl_rj_r.Gdb.Handlers.{set_breakpoint, remove_breakpoint}
use projet_l3_inf_bn_zl_rj_r.Gdb.Analysis.{handler, call, dispatch}
use projet_l3_inf_bn_zl_rj_r.Scanner.{yylex}
use projet_l3_inf_bn_zl_rj_r.Scanner.Packets.{yylex-frame}
use projet_l3_inf_bn_zl_rj_r.Scanner.Session.{raw_of, acknowledged}
use projet_l3_inf_bn_zl_rj_r.Scanner.Requests.{
  Request, set_at_address, clear_at_address, letter, text_of, address_of, edit_of, reply_to,
  AreRequests, packets, and_rounds, sent_for, set_for,
}

-- An edit of the table leaves the rest of the connection alone.
record Same (gdb gdb' : Gdb) : Type 0 where
  shut : gdb'.shut ≡ gdb.shut
  sent : gdb'.sent ≡ gdb.sent
  arm : gdb'.arm ≡ gdb.arm

edit-Same : (e : Edit) (gdb : Gdb) → Same gdb (edit e gdb).1
unfolding gdb_add_breakpoint gdb_remove_breakpoint
edit-Same (add x) gdb = record { shut = ground arith; sent = ground arith; arm = ground arith }
edit-Same (remove x) gdb = record { shut = ground arith; sent = ground arith; arm = ground arith }
edit-Same (find x) gdb = record { shut = refl; sent = refl; arm = refl }

-- What a request makes of the connection: an edit of the table, and a reply.
answered : Request → Gdb → Gdb
answered q gdb =
    let step = edit (edit_of q) gdb in
    let reply = frame (reply_to q step.0) in
    record step.1 { packet = reply; sent = reply ∷ step.1.sent }

-- A reply is short.
reply_short :
    (q : Request) (answer : ℕ) → ltb (length (reply_to q answer) + 4) max_packet_size ≡ true
reply_short (set_at_address x text) answer = elim (Bool-cases (answer == 0)) [
  | inl refused ↦ rw refused refl
  | inr done ↦ rw done refl
]
reply_short (clear_at_address x text) answer = elim (Bool-cases (answer == 0)) [
  | inl refused ↦ rw refused refl
  | inr done ↦ rw done refl
]

send_lem :
    (gdb : Gdb) (text : List ℕ)
    → gdb.shut ≡ false
    → ltb (length text + 4) max_packet_size ≡ true
    → gdb_send_data gdb text
      ≡ some (record gdb { packet = frame text; sent = frame text ∷ gdb.sent })
unfolding gdb_send_data gdb_send_buffer gdb_transmit_packet write_out
send_lem gdb text live short = rw (short, live) refl

dispatch-answered :
    (fuel : ℕ) (m : Machine) (q : Request) (gdb : Gdb) (raw : List ℕ)
    → gdb.shut ≡ false
    → scan_byte_pair (c_string raw) ≡ (some 0, some (address_of q))
    → dispatch fuel m gdb (letter q ∷ raw) ≡ some (answered q gdb)
unfolding dispatch handler call set_breakpoint remove_breakpoint answered
dispatch-answered fuel m (set_at_address x text) gdb raw live scanned = rw scanned (
    send_lem (edit (add x) gdb).1 (reply_to (set_at_address x text) (edit (add x) gdb).0)
      ((edit-Same (add x) gdb).shut ∙ live) (reply_short (set_at_address x text) _))
dispatch-answered fuel m (clear_at_address x text) gdb raw live scanned = rw scanned (
    send_lem (edit (remove x) gdb).1 (reply_to (clear_at_address x text) (edit (remove x) gdb).0)
      ((edit-Same (remove x) gdb).shut ∙ live) (reply_short (clear_at_address x text) _))

-- The table does not hang on what is sent.
Refines-sent :
    {gdb : Gdb} {s : List ℕ} (packet : List ℕ) (sent : List (List ℕ))
    → Refines gdb s
    → Refines (record gdb { packet = packet; sent = sent }) s
Refines-sent packet sent r = record {
  table = r.table;
  distinct = r.distinct;
  number = r.number;
  holds = r.holds;
}

module _ (q : Request) (gdb : Gdb) where
  answered-sent :
      (answer : ℕ)
      → (edit (edit_of q) gdb).0 ≡ answer
      → (answered q gdb).sent ≡ frame (reply_to q answer) ∷ gdb.sent
  unfolding answered
  answered-sent answer e = rw (e, (edit-Same (edit_of q) gdb).sent) refl

  answered-shut : gdb.shut ≡ false → (answered q gdb).shut ≡ false
  unfolding answered
  answered-shut live = (edit-Same (edit_of q) gdb).shut ∙ live

  answered-arm : (answered q gdb).arm ≡ gdb.arm
  unfolding answered
  answered-arm = (edit-Same (edit_of q) gdb).arm

  answered-Refines : (s : List ℕ) → Refines (edit (edit_of q) gdb).1 s → Refines (answered q gdb) s
  unfolding answered
  answered-Refines s r = Refines-sent _ _ r

-- What a run over requests leaves, from a connection with a table for the set `s`.
pub record Leaves (qs : List Request) (s : List ℕ) (gdb gdb' : Gdb) : Type 0 where
  pub live : gdb'.shut ≡ false
  pub sent : gdb'.sent ≡ sent_for qs s gdb.sent
  pub arm : gdb'.arm ≡ gdb.arm
  pub table : Refines gdb' (set_for qs s)

-- On an open socket and with no invalid text pending, from a table that stands for a set of addresses
-- and an input that begins with the packets of any requests Z and z for breakpoints of type 0, whose
-- texts have neither `$` nor `#`, the scanner acknowledges each and answers OK, E04 or E05 as that set
-- asks for, which takes no address when it has 1024; it goes on with the rest of the input on the
-- same processor, with a table that stands for the set behind the requests.
pub yylex-Leaves :
    (qs : List Request) (rounds fuel : ℕ) (m : Machine) (gdb : Gdb) (s rest : List ℕ)
    → gdb.shut ≡ false
    → Refines gdb s
    → AreRequests qs
    → (gdb' : Gdb) × (yylex
          (and_rounds qs rounds)
          fuel
          m
          (record { gdb = gdb; buffer = [] })
          (packets qs rest)
        ≡ yylex rounds fuel m (record { gdb = gdb'; buffer = [] }) rest)
      × Leaves qs s gdb gdb'
yylex-Leaves [] rounds fuel m gdb s rest live r valid =
    (gdb, refl, record { live = live; sent = refl; arm = refl; table = r })
yylex-Leaves (q ∷ qs) rounds fuel m gdb s rest live r ((plain, scanned), valid) =
    let before = acknowledged gdb in
    let step = edit-Refines (edit_of q) before s (Refines-sent gdb.packet before.sent r) in
    let answers = set_edit (edit_of q) s in
    let behind = answered q before in
    let told : behind.sent ≡ frame (reply_to q answers.0) ∷ codes "+" ∷ gdb.sent =
      answered-sent q before answers.0 step.0 in
    let (gdb', run, left) =
      yylex-Leaves qs rounds fuel m behind answers.1 rest (answered-shut q before live)
        (answered-Refines q before answers.1 step.1) valid in
    (
      gdb',
      yylex-frame (and_rounds qs rounds) fuel m gdb (letter q ∷ text_of q) (packets qs rest) live
            plain
          ∙ rw (dispatch-answered fuel m q before (raw_of (letter q) (text_of q)) live scanned) run,
      record {
        live = left.live;
        sent = left.sent ∙ ap (sent_for qs answers.1) told;
        arm = left.arm ∙ answered-arm q before;
        table = left.table;
      },
    )
