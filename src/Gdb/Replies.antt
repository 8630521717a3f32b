-- ===== src/Gdb/Replies.antt =====
-- gdb_protocol.c: what is written to gdb. `none` stands for a process that is stopped, by a write to a
-- socket that is shut or a failed `assert`, and for one that C leaves undefined, by an access past the
-- end of an array: the array `packet` stands in a structure, before the table of breakpoints, where no
-- sanitizer guards it.
use projet_l3_inf_bn_zl_rj_r.Prelude.{
  Bool, not, ◌&&◌, true, false, ℕ, ◌+◌, pos, negsuc, List, [], ◌∷◌, ◌++◌, Option, none, some,
  if◌then◌else◌, ltb, ◌==◌, u8,
}
use projet_l3_inf_bn_zl_rj_r.Constants.{
  undefined_instruction, prefetch_abort, data_abort, end_simulation,
}
use projet_l3_inf_bn_zl_rj_r.Libc.{codes, length, print_hex}
use projet_l3_inf_bn_zl_rj_r.Gdb.{Gdb}

-- MAX_PACKET_SIZE.
abbrev pub max_packet_size : ℕ
max_packet_size = 4096

abbrev pub is_empty : List ℕ → Bool
is_empty [] = true
is_empty (c ∷ s) = false

-- `Rio_writen(gdb->fd, text, strlen(text))`: only where there is something to write, a socket that is
-- shut stops the process.
unfoldable pub write_out : Gdb → List ℕ → Option Gdb
write_out gdb text =
    if gdb.shut && not (is_empty text) then none else some (record gdb { sent = text ∷ gdb.sent })

unfoldable pub gdb_transmit_packet : Gdb → Option Gdb
unfolding write_out
gdb_transmit_packet gdb = write_out gdb gdb.packet

unfoldable pub gdb_send_ack : Gdb → Option Gdb
unfolding write_out
gdb_send_ack gdb = write_out gdb (b'+' ∷ [])

unfoldable pub gdb_require_retransmission : Gdb → Option Gdb
unfolding write_out
gdb_require_retransmission gdb = write_out gdb (b'-' ∷ [])

-- The loop `check += ...` over a text, in `unsigned char`.
unfoldable pub checksum : List ℕ → ℕ → ℕ
checksum [] check = check
checksum (c ∷ s) check = checksum s (u8 (check + c))

-- A text between `$` and `#`, and its checksum.
unfoldable pub frame : List ℕ → List ℕ
frame text = b'$' ∷ (text ++ b'#' ∷ print_hex 2 (checksum text 0))

-- `gdb_send_buffer` with the text that has been put into `gdb->buffer`: the packet and its NUL
-- have to fit into the array `packet`.
unfoldable pub gdb_send_buffer : Gdb → List ℕ → Option Gdb
gdb_send_buffer gdb text =
    if ltb (length text + 4) max_packet_size
    then gdb_transmit_packet (record gdb { packet = frame text })
    else none

unfoldable pub gdb_send_data : Gdb → List ℕ → Option Gdb
gdb_send_data gdb text = gdb_send_buffer gdb text

-- The switch on an exception's number.
unfoldable pub action_of : ℕ → List ℕ
action_of target_exception =
    if target_exception == undefined_instruction
    then codes "S04"
    else if target_exception == prefetch_abort
    then codes "S0A"
    else if target_exception == data_abort
    then codes "S0B"
    else if target_exception == end_simulation
    then codes "X05"
    else codes "S05"

-- A negative `int` takes the default.
unfoldable pub gdb_send_stop_reason : Gdb → Option Gdb
gdb_send_stop_reason gdb =
    gdb_send_data gdb
      (elim gdb.target_exception [ pos exception ↦ action_of exception | negsuc _ ↦ codes "S05" ])
