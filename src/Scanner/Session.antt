-- ===== src/Scanner/Session.antt =====
-- Two packets behind each other in the input of the scanner: a write of memory, and a read of it.
use projet_l3_inf_bn_zl_rj_r.Prelude.{
  ℕ, suc, ◌+◌, ◌≤◌, ◌<◌, ◌≡◌, refl, ◌^◌, true, false, Bool, List, [], ◌∷◌, ◌++◌, some, ◌∙◌, arith,
  ltb, lt→ltb,
}
use projet_l3_inf_bn_zl_rj_r.Libc.{codes, print_hex, length, c_string, scan_pair, behind}
use projet_l3_inf_bn_zl_rj_r.Machine.{Machine}
use projet_l3_inf_bn_zl_rj_r.Memory.{Memory}
use projet_l3_inf_bn_zl_rj_r.Gdb.{Gdb}
use projet_l3_inf_bn_zl_rj_r.Gdb.Replies.{frame, checksum}
use projet_l3_inf_bn_zl_rj_r.Gdb.Handlers.{put_memory, read_memory, write_memory_binary}
use projet_l3_inf_bn_zl_rj_r.Gdb.Analysis.{handler, call, dispatch}
use projet_l3_inf_bn_zl_rj_r.Gdb.General.Reply.{send_ok}
use projet_l3_inf_bn_zl_rj_r.Gdb.Transfer.{
  AreAll8, escape, with_bytes, byte_text, size-with_bytes, cell_text-with_bytes,
}
use projet_l3_inf_bn_zl_rj_r.Gdb.Transfer.Requests.{read_memory_room, write_memory_binary-escape}
use projet_l3_inf_bn_zl_rj_r.Scanner.{yylex}
use projet_l3_inf_bn_zl_rj_r.Scanner.Packets.{IsPlain, yylex-frame}

-- The array that a handler gets for the text `text` behind the letter `index` of a packet.
abbrev pub raw_of : ℕ → List ℕ → List ℕ
raw_of index text = text ++ 0 ∷ print_hex 2 (checksum (index ∷ text) 0) ++ 0 ∷ []

-- The connection after an acknowledgement.
abbrev pub acknowledged : Gdb → Gdb
acknowledged gdb = record gdb { sent = codes "+" ∷ gdb.sent }

dispatch_x :
    (fuel : ℕ) (m : Machine) (gdb : Gdb) (raw : List ℕ)
    → dispatch fuel m gdb (b'X' ∷ raw) ≡ write_memory_binary m gdb raw
unfolding dispatch handler call
dispatch_x fuel m gdb raw = refl

dispatch_m :
    (fuel : ℕ) (m : Machine) (gdb : Gdb) (raw : List ℕ)
    → dispatch fuel m gdb (b'm' ∷ raw) ≡ read_memory m gdb raw
unfolding dispatch handler call
dispatch_m fuel m gdb raw = refl

-- A request m for bytes that have been put into memory.
read_put :
    (m : Machine) (gdb : Gdb) (raw bytes : List ℕ) (address : ℕ) (mem : Memory)
    → gdb.shut ≡ false
    → length bytes < 2046
    → scan_pair (c_string raw) ≡ (some address, some (length bytes))
    → address < mem.size
    → address + length bytes ≤ mem.size
    → mem.size < 2 ^ 32
    → read_memory m (put_memory gdb (with_bytes mem address bytes)) raw
      ≡ some (record gdb {
        arm = record gdb.arm { mem = with_bytes mem address bytes };
        packet = frame (byte_text bytes);
        sent = frame (byte_text bytes) ∷ gdb.sent;
      })
read_put m gdb raw bytes address mem live short scanned low inside bound =
    let gdb' = put_memory gdb (with_bytes mem address bytes) in
    let size = size-with_bytes bytes mem address in
    let fits : ltb (length bytes) 2046 ≡ true = lt→ltb (length bytes) 2046 short in
    rw (fits, cell_text-with_bytes bytes mem address) at
      (read_memory_room m gdb' raw address (length bytes) live scanned (omega (arith, size))
        (omega (arith, size)) (omega (arith, size)))

-- On an open socket and with no invalid text pending, from an input that begins with the packets of
-- a request X with fewer than 2046 bytes, escaped in any way that escapes 0x7d, and of a request m
-- for the same bytes, whose texts have neither `$` nor `#`, for an address below the size of a memory
-- of less than 2^32 bytes that holds them, the scanner acknowledges the first packet, writes the
-- bytes and answers OK, acknowledges the second and answers with the text of the bytes, and goes on
-- with the rest of the input.
pub yylex-write_read :
    (rounds fuel : ℕ) (m : Machine) (gdb : Gdb) (x y rest bytes content : List ℕ)
    (special : ℕ → Bool) (address : ℕ)
    → gdb.shut ≡ false
    → IsPlain (b'X' ∷ x)
    → IsPlain (b'm' ∷ y)
    → special 0x7d ≡ true
    → AreAll8 bytes
    → length bytes < 2046
    → scan_pair (c_string (raw_of b'X' x)) ≡ (some address, some (length bytes))
    → behind b':' (raw_of b'X' x) ≡ some (escape special bytes ++ content)
    → scan_pair (c_string (raw_of b'm' y)) ≡ (some address, some (length bytes))
    → address < gdb.arm.mem.size
    → address + length bytes ≤ gdb.arm.mem.size
    → gdb.arm.mem.size < 2 ^ 32
    → yylex
        (suc (suc rounds))
        fuel
        m
        (record { gdb = gdb; buffer = [] })
        (frame (b'X' ∷ x) ++ (frame (b'm' ∷ y) ++ rest))
      ≡ yylex rounds fuel m
          (record {
            gdb = record gdb {
              arm = record gdb.arm { mem = with_bytes gdb.arm.mem address bytes };
              packet = frame (byte_text bytes);
              sent =
                  frame (byte_text bytes) ∷ codes "+" ∷ frame (codes "OK") ∷ codes "+" ∷ gdb.sent;
            };
            buffer = [];
          })
          rest
yylex-write_read rounds fuel m gdb x y rest bytes content special address live plain plain' marked
      small short scanned found scanned' low inside bound =
    let mem' = with_bytes gdb.arm.mem address bytes in
    let ok = frame (codes "OK") in
    let answered : Gdb = record gdb { packet = ok; sent = ok ∷ codes "+" ∷ gdb.sent } in
    let first =
      write_memory_binary-escape m (acknowledged gdb) (raw_of b'X' x) content bytes special address
        marked small scanned found low inside bound in
    let second =
      read_put m (acknowledged answered) (raw_of b'm' y) bytes address gdb.arm.mem live short
        scanned' low inside bound in
    yylex-frame (suc rounds) fuel m gdb (b'X' ∷ x) (frame (b'm' ∷ y) ++ rest) live plain
    ∙ rw
        (
          dispatch_x fuel m (acknowledged gdb) (raw_of b'X' x),
          first,
          send_ok (put_memory (acknowledged gdb) mem') live,
          yylex-frame rounds fuel m (put_memory answered mem') (b'm' ∷ y) rest live plain',
          dispatch_m fuel m (acknowledged (put_memory answered mem')) (raw_of b'm' y),
          second,
        )
        refl
