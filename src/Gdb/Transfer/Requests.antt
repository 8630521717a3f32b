-- ===== src/Gdb/Transfer/Requests.antt =====
-- The handlers of X and m, for a request whose numbers are known.
use projet_l3_inf_bn_zl_rj_r.Prelude.{
  ℕ, ◌+◌, ◌*◌, ◌<◌, ◌≤◌, ◌≡◌, ◌^◌, refl, Bool, true, false, if◌then◌else◌, ltb, List, ◌∷◌, ◌++◌,
  none, some, arith, u8, lt→ltb,
}
use projet_l3_inf_bn_zl_rj_r.Libc.{codes, length, c_string, behind, scan_pair}
use projet_l3_inf_bn_zl_rj_r.Machine.{Machine}
use projet_l3_inf_bn_zl_rj_r.Memory.{memory_get_size}
use projet_l3_inf_bn_zl_rj_r.Gdb.{Gdb}
use projet_l3_inf_bn_zl_rj_r.Gdb.Replies.{
  max_packet_size, write_out, gdb_transmit_packet, gdb_send_buffer, gdb_send_data, frame,
}
use projet_l3_inf_bn_zl_rj_r.Gdb.Handlers.{content_of, put_memory, read_memory, write_memory_binary}
use projet_l3_inf_bn_zl_rj_r.Gdb.Transfer.{
  AreAll8, escape, with_bytes, cell_text, fill-escape, dump-cell_text, length-cell_text,
}

-- On an open socket, a request m for bytes that lie inside a memory of less than 2^32 bytes sends
-- their text if they are fewer than 2046, and otherwise has no defined outcome, as it writes past
-- the array of the packet.
pub read_memory_room :
    (m : Machine) (gdb : Gdb) (raw : List ℕ) (address n : ℕ)
    → gdb.shut ≡ false
    → scan_pair (c_string raw) ≡ (some address, some n)
    → address < gdb.arm.mem.size
    → address + n ≤ gdb.arm.mem.size
    → gdb.arm.mem.size < 2 ^ 32
    → let reply = frame (cell_text n gdb.arm.mem address) in
      read_memory m gdb raw
      ≡ (if ltb n 2046 then some (record gdb { packet = reply; sent = reply ∷ gdb.sent }) else none)
unfolding read_memory memory_get_size gdb_send_buffer gdb_transmit_packet write_out
read_memory_room m gdb raw address n live scanned low inside bound =
    let room : ltb (n * 2 + 4) max_packet_size ≡ ltb n 2046 = ground arith in
    rw
      (
        scanned,
        lt→ltb address gdb.arm.mem.size low,
        dump-cell_text n gdb.arm.mem address (u8 (m.stale_byte gdb.arm.cycle_count)) inside bound,
        length-cell_text n gdb.arm.mem address,
        room,
        live,
      )
      refl

content_found : (raw content : List ℕ) → behind b':' raw ≡ some content → content_of raw ≡ content
content_found raw content e = rw (content_of, e) refl

-- X, inside the memory.
pub write_memory_binary-escape :
    (m : Machine) (gdb : Gdb) (raw rest bytes : List ℕ) (special : ℕ → Bool) (address : ℕ)
    → special 0x7d ≡ true
    → AreAll8 bytes
    → scan_pair (c_string raw) ≡ (some address, some (length bytes))
    → behind b':' raw ≡ some (escape special bytes ++ rest)
    → address < gdb.arm.mem.size
    → address + length bytes ≤ gdb.arm.mem.size
    → gdb.arm.mem.size < 2 ^ 32
    → write_memory_binary m gdb raw
      ≡ gdb_send_data (put_memory gdb (with_bytes gdb.arm.mem address bytes)) (codes "OK")
unfolding write_memory_binary memory_get_size
write_memory_binary-escape m gdb raw rest bytes special address marked small scanned found low
      inside bound =
    rw
      (
        scanned,
        content_found raw (escape special bytes ++ rest) found,
        lt→ltb address gdb.arm.mem.size low,
        fill-escape special bytes gdb.arm.mem address rest marked small inside bound,
      )
      refl
