-- ===== src/Gdb/Session.antt =====
-- The well-formed states of a connection: those of the processor, with a table of breakpoints that
-- is in order, fits its array and holds words.
pub mod Scan
pub mod Requests
pub mod Packets
use projet_l3_inf_bn_zl_rj_r.Prelude.{
  not, ◌&&◌, ℕ, zero, suc, ◌+◌, ◌-◌, ◌^◌, ◌%◌, ◌≤◌, ◌<◌, ◌≡◌, ℤ, Bool, true, false, ◌==◌, ltb,
  if◌then◌else◌, arith, List, [], ◌∷◌, ◌||◌, Option, none, some, ◌>>=◌, u8, u32, inl, inr,
  Bool-cases, Option-cases, if_both, is_zero, refl, leb,
}
use projet_l3_inf_bn_zl_rj_r.Libc.{
  codes, c_string, advance, same_text, starts_with, behind, scan_hex, scan_value, scan_hex8, take,
  skip_spaces, scan_pair, scan_next, scan_byte_pair, to_unsigned, assigned, skip_prefix, take_sign,
  is_digit, scan_digits, length,
}
use projet_l3_inf_bn_zl_rj_r.Machine.{Machine}
use projet_l3_inf_bn_zl_rj_r.Registers.{
  registers_read, registers_write, registers_get_mode, registers_write_cpsr,
}
use projet_l3_inf_bn_zl_rj_r.Memory.{Memory, memory_write_byte, memory_get_size}
use projet_l3_inf_bn_zl_rj_r.Core.{Arm, arm_write_cpsr}
use projet_l3_inf_bn_zl_rj_r.Instruction.{arm_step}
use projet_l3_inf_bn_zl_rj_r.Valid.{IsValid, Ensures, Ensures-bind, anything, Leaves}
use projet_l3_inf_bn_zl_rj_r.Valid.Access.{
  AreBytes, registers_write-AreWords, write_cpsr-IsValid, write_byte-Ensures, LeavesBytes,
}
use projet_l3_inf_bn_zl_rj_r.Valid.Step.{arm_step-Ensures}
use projet_l3_inf_bn_zl_rj_r.Gdb.{
  Gdb, max_breakpoints_number, gdb_find_breakpoint, gdb_add_breakpoint, gdb_remove_breakpoint,
}
use projet_l3_inf_bn_zl_rj_r.Gdb.Search.{IsTable, Holds}
use projet_l3_inf_bn_zl_rj_r.Gdb.Edit.{gdb_add_breakpoint-Holds, gdb_remove_breakpoint-Holds}
use projet_l3_inf_bn_zl_rj_r.Gdb.Replies.{
  is_empty, write_out, gdb_transmit_packet, gdb_send_buffer, gdb_send_data, gdb_send_stop_reason,
  gdb_send_ack, gdb_require_retransmission, frame, max_packet_size,
}
use projet_l3_inf_bn_zl_rj_r.Gdb.Handlers
use projet_l3_inf_bn_zl_rj_r.Gdb.Handlers.{
  put_registers, put_memory, single_step, stops, run_on, read_uint32, write_register,
  write_registers, next_byte, fill, breakpoint_of, dump, print_registers, read_register,
}
use projet_l3_inf_bn_zl_rj_r.Gdb.Analysis.{handler, call, dispatch, gdb_packet_analysis}

pub record IsSession (gdb : Gdb) : Type 0 where
  pub valid : IsValid gdb.arm
  pub table : IsTable gdb
  pub room : gdb.breakpoints_number ≤ max_breakpoints_number
  pub addresses : (y : ℕ) → Holds gdb y → y < 2 ^ 32

-- A change of the processor alone, or of the texts that are sent alone.
pub with_arm :
    {gdb : Gdb} (arm' : Arm) (exception' : ℤ)
    → IsSession gdb
    → IsValid arm'
    → IsSession (record gdb { target_exception = exception'; arm = arm' })
with_arm arm' exception' session valid = record {
  valid = valid;
  table = session.table;
  room = session.room;
  addresses = session.addresses;
}

pub with_texts :
    {gdb : Gdb} (packet' : List ℕ) (sent' : List (List ℕ)) (shut' : Bool)
    → IsSession gdb
    → IsSession (record gdb { packet = packet'; sent = sent'; shut = shut' })
with_texts packet' sent' shut' session = record {
  valid = session.valid;
  table = session.table;
  room = session.room;
  addresses = session.addresses;
}

pub write_out-Ensures :
    (gdb : Gdb) (text : List ℕ) → IsSession gdb → Ensures IsSession (write_out gdb text)
unfolding write_out
write_out-Ensures gdb text session =
    if_both (Ensures IsSession) (gdb.shut && not (is_empty text)) _ _ tt
      (with_texts gdb.packet (text ∷ gdb.sent) gdb.shut session)

pub send-Ensures :
    (gdb : Gdb) (text : List ℕ) → IsSession gdb → Ensures IsSession (gdb_send_buffer gdb text)
unfolding gdb_send_buffer gdb_transmit_packet
send-Ensures gdb text session = elim (Bool-cases (ltb (length text + 4) max_packet_size)) [
  | inl fits ↦ rw fits (
      write_out-Ensures (record gdb { packet = frame text }) (frame text)
        (with_texts (frame text) gdb.sent gdb.shut session))
  | inr long ↦ rw long tt
]

pub send_data-Ensures :
    (gdb : Gdb) (text : List ℕ) → IsSession gdb → Ensures IsSession (gdb_send_data gdb text)
unfolding gdb_send_data
send_data-Ensures = send-Ensures

pub reason-Ensures : (gdb : Gdb) → IsSession gdb → Ensures IsSession (gdb_send_stop_reason gdb)
unfolding gdb_send_stop_reason
reason-Ensures gdb session = send_data-Ensures gdb _ session

pub single_step-Ensures :
    (m : Machine) (gdb : Gdb) → IsSession gdb → Ensures IsSession (single_step m gdb)
unfolding single_step
single_step-Ensures m gdb session =
    Ensures-bind Leaves IsSession (arm_step m gdb.arm) _ (arm_step-Ensures m session.valid)
      λ r valid. with_arm r.1 r.0 session valid

pub run_on-Ensures :
    (fuel : ℕ) (m : Machine) (gdb : Gdb) → IsSession gdb → Ensures IsSession (run_on fuel m gdb)
unfolding run_on
run_on-Ensures zero m gdb session = tt
run_on-Ensures (suc fuel) m gdb session =
    Ensures-bind IsSession IsSession (single_step m gdb) _ (single_step-Ensures m gdb session)
      λ gdb' session'.
        if_both (Ensures IsSession) (stops gdb') (some gdb') (run_on fuel m gdb') session'
          (run_on-Ensures fuel m gdb' session')

-- An addition and a removal leave the processor alone, and the table within its array.
abbrev Roomy : Gdb → Type 0
Roomy gdb = IsValid gdb.arm × (gdb.breakpoints_number ≤ max_breakpoints_number)

add-Roomy : (gdb : Gdb) (address : ℕ) → IsSession gdb → Roomy (gdb_add_breakpoint gdb address).1
unfolding gdb_add_breakpoint
add-Roomy gdb address session =
    elim (Bool-cases (ltb gdb.breakpoints_number max_breakpoints_number)) [
      | inl free ↦ elim (Option-cases (gdb_find_breakpoint gdb address)) [
        | inl missed ↦ rw (free, missed) (session.valid, ground arith)
        | inr (position, found) ↦ rw (free, found) (session.valid, session.room)
      ]
      | inr full ↦ rw full (session.valid, session.room)
    ]

remove-Roomy :
    (gdb : Gdb) (address : ℕ) → IsSession gdb → Roomy (gdb_remove_breakpoint gdb address).1
unfolding gdb_remove_breakpoint
remove-Roomy gdb address session = elim (Option-cases (gdb_find_breakpoint gdb address)) [
  | inl missed ↦ rw (gdb_remove_breakpoint, missed) (session.valid, session.room)
  | inr (position, found) ↦
      rw (gdb_remove_breakpoint, found) (session.valid, omega (arith, session.room))
]

full_table :
    (gdb : Gdb) (address : ℕ)
    → ltb gdb.breakpoints_number max_breakpoints_number ≡ false
    → gdb_add_breakpoint gdb address ≡ (0, gdb)
unfolding gdb_add_breakpoint
full_table gdb address full = rw full refl

pub gdb_add_breakpoint-IsSession :
    (gdb : Gdb) (address : ℕ)
    → IsSession gdb
    → address < 2 ^ 32
    → IsSession (gdb_add_breakpoint gdb address).1
gdb_add_breakpoint-IsSession gdb address session small =
    elim (Bool-cases (ltb gdb.breakpoints_number max_breakpoints_number)) [
      | inl free ↦
          let room : gdb.breakpoints_number < max_breakpoints_number = ground arith in
          let effect = gdb_add_breakpoint-Holds gdb address session.table room in
          let roomy = add-Roomy gdb address session in
          record {
            valid = roomy.0;
            table = effect.1;
            room = roomy.1;
            addresses = λ y held. elim ((effect.2 y).0 held) [
              | inl e ↦ rw e small
              | inr before ↦ session.addresses y before
            ];
          }
      | inr full ↦ rw (full_table gdb address full) session
    ]

pub gdb_remove_breakpoint-IsSession :
    (gdb : Gdb) (address : ℕ) → IsSession gdb → IsSession (gdb_remove_breakpoint gdb address).1
gdb_remove_breakpoint-IsSession gdb address session =
    let effect = gdb_remove_breakpoint-Holds gdb address session.table in
    let roomy = remove-Roomy gdb address session in
    record {
      valid = roomy.0;
      table = effect.1;
      room = roomy.1;
      addresses = λ y held. session.addresses y ((effect.2 y).0 held).0;
    }
