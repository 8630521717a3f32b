-- ===== src/Gdb/General/Reply.antt =====
-- The requests g and G: the reply to one is what the other takes.
use projet_l3_inf_bn_zl_rj_r.Prelude.{
  ℕ, zero, suc, ◌+◌, ◌*◌, ◌^◌, ◌<◌, ◌≡◌, refl, ◌∙◌, false, List, ◌∷◌, ◌++◌, some, ◌>>=◌, bit_and,
  u8, arith,
}
use projet_l3_inf_bn_zl_rj_r.Libc.{length, codes, advance, print_hex, length}
use projet_l3_inf_bn_zl_rj_r.Libc.Text.{++-assoc, length-++, length-print_hex}
use projet_l3_inf_bn_zl_rj_r.Machine.{Machine}
use projet_l3_inf_bn_zl_rj_r.Registers.{
  registers_read_cpsr, registers_write_cpsr, Registers, registers_read, registers_write,
  registers_get_mode,
}
use projet_l3_inf_bn_zl_rj_r.Registers.Bank.{IsMode}
use projet_l3_inf_bn_zl_rj_r.Gdb.{Gdb}
use projet_l3_inf_bn_zl_rj_r.Gdb.Handlers.{
  times, read_general_registers, write_general_registers, put_registers,
}
use projet_l3_inf_bn_zl_rj_r.Gdb.General.{
  words, words_cong, write_all, write_all_read, general_text,
}
use projet_l3_inf_bn_zl_rj_r.Registers.Modes.{read-write_other}
use projet_l3_inf_bn_zl_rj_r.Gdb.Replies.{
  write_out, gdb_transmit_packet, gdb_send_buffer, gdb_send_data, frame, checksum,
}
use projet_l3_inf_bn_zl_rj_r.Gdb.General.Words.{
  read_uint32-print_hex, write_registers-words, print_registers-words,
}

length-words : (v : ℕ → ℕ) (rounds reg : ℕ) → length (words v rounds reg) ≡ rounds * 8
length-words v zero reg = omega arith
length-words v (suc rounds) reg =
    rw
      (
        length-++ (print_hex 8 (v reg)) (words v rounds (reg + 1)),
        length-print_hex 8 (v reg),
        length-words v rounds (reg + 1),
      )
      (omega arith)

length-general_text : (v : ℕ → ℕ) (psr : ℕ) → length (general_text v psr) ≡ 336
unfolding times
length-general_text v psr =
    let general = words v 16 0 in
    let filler = times 24 (codes "xxxxxxxx") in
    rw
      (
        length-++ (general ++ filler ++ codes "xxxxxxxx") (print_hex 8 psr),
        length-++ (general ++ filler) (codes "xxxxxxxx"),
        length-++ general filler,
        length-words v 16 0,
        length-print_hex 8 psr,
      )
      (omega arith)

frame-length : (text : List ℕ) → length text ≡ 336 → length (frame text) ≡ 340
unfolding frame
frame-length text e =
    rw
      (
        length-++ text (b'#' ∷ print_hex 2 (checksum text 0)),
        length-print_hex 2 (checksum text 0),
        e,
      )
      (omega arith)

-- A text of this length is sent.
send_short :
    (gdb : Gdb) (text : List ℕ)
    → gdb.shut ≡ false
    → length text ≡ 336
    → gdb_send_buffer gdb text
      ≡ some (record gdb { packet = frame text; sent = frame text ∷ gdb.sent })
unfolding gdb_send_buffer gdb_transmit_packet write_out
send_short gdb text live e = rw (e, live) refl

-- The values of the general registers in the present mode.
abbrev pub general_registers : Gdb → ℕ → ℕ
general_registers gdb reg = registers_read gdb.arm.reg reg (registers_get_mode gdb.arm.reg)

-- The reply to g is a packet with the sixteen general registers in the present mode, the filler and the status
-- register, 340 characters long: it fits its array, and on a socket that is open it is sent.
pub read_general_registers_lem :
    (gdb : Gdb)
    → gdb.shut ≡ false
    → let text = general_text (general_registers gdb) (registers_read_cpsr gdb.arm.reg) in
      (read_general_registers gdb
        ≡ some (record gdb { packet = frame text; sent = frame text ∷ gdb.sent }))
      × (length (frame text) ≡ 340)
unfolding read_general_registers
read_general_registers_lem gdb live =
    let text = general_text (general_registers gdb) (registers_read_cpsr gdb.arm.reg) in
    (
      rw (print_registers-words 16 0 gdb (omega arith)) (
          send_short gdb text live
            (length-general_text (general_registers gdb) (registers_read_cpsr gdb.arm.reg))),
      frame-length text
          (length-general_text (general_registers gdb) (registers_read_cpsr gdb.arm.reg)),
    )

-- The processor behind a request G.
abbrev pub written : (ℕ → ℕ) → ℕ → Registers → Registers
written v psr r = registers_write_cpsr (write_all v 16 0 (registers_get_mode r) r) psr

written-psr : (v : ℕ → ℕ) (psr : ℕ) (r : Registers) → registers_read_cpsr (written v psr r) ≡ psr
unfolding registers_read_cpsr registers_write_cpsr
written-psr v psr r = refl

written-mode :
    (v : ℕ → ℕ) (psr : ℕ) (r : Registers)
    → registers_get_mode (written v psr r) ≡ bit_and (u8 psr) 0x1f
unfolding registers_get_mode registers_write_cpsr
written-mode v psr r = refl

-- The status register is written like a register.
as_register :
    (r : Registers) (mode psr : ℕ) → registers_write_cpsr r psr ≡ registers_write r 16 mode psr
unfolding registers_write_cpsr registers_write
as_register r mode psr = refl

written-read :
    (v : ℕ → ℕ) (psr k : ℕ) (r : Registers)
    → IsMode (registers_get_mode r)
    → k < 16
    → registers_read (written v psr r) k (registers_get_mode r) ≡ v k
written-read v psr k r valid inside =
    let mode = registers_get_mode r in
    let all = write_all v 16 0 mode r in
    rw (as_register all mode psr) (
      read-write_other mode valid all 16 psr k (omega arith) (omega arith) (omega arith)
      ∙ write_all_read mode valid v 16 0 k r (omega arith) (omega arith) (omega arith))

regroup : (a b c d e : List ℕ) → (((a ++ b) ++ c) ++ d) ++ e ≡ a ++ (b ++ (c ++ (d ++ e)))
regroup a b c d e =
    ++-assoc ((a ++ b) ++ c) d e ∙ ++-assoc (a ++ b) c (d ++ e) ∙ ++-assoc a b (c ++ (d ++ e))

-- The filler behind its first character.
abbrev filler_tail : List ℕ → List ℕ
filler_tail s = codes "xxxxxxx" ++ (times 23 (codes "xxxxxxxx") ++ (codes "xxxxxxxx" ++ s))

behind_filler :
    (value : ℕ) (s : List ℕ)
    → advance 200 (b'x' ∷ filler_tail (print_hex 8 value ++ s)) ≡ some (print_hex 8 value ++ s)
unfolding advance times print_hex
behind_filler value s = refl

regrouped :
    (v : ℕ → ℕ) (psr : ℕ) (s : List ℕ)
    → general_text v psr ++ s ≡ words v 16 0 ++ b'x' ∷ filler_tail (print_hex 8 psr ++ s)
unfolding times
regrouped v psr s =
    regroup (words v 16 0) (times 24 (codes "xxxxxxxx")) (codes "xxxxxxxx") (print_hex 8 psr) s

-- The request G with the text of the values `v` and `psr`, in one of the seven modes, writes the
-- general registers of that mode and then the status register.
pub write_general_registers_lem :
    (m : Machine) (gdb : Gdb) (v : ℕ → ℕ) (psr : ℕ) (rest : List ℕ)
    → IsMode (registers_get_mode gdb.arm.reg)
    → ((k : ℕ) → v k < 2 ^ 32)
    → psr < 2 ^ 32
    → write_general_registers m gdb (general_text v psr ++ 0 ∷ rest)
      ≡ gdb_send_data (put_registers gdb (written v psr gdb.arm.reg)) (codes "OK")
unfolding write_general_registers
write_general_registers_lem m gdb v psr rest valid small small' =
    let mode = registers_get_mode gdb.arm.reg in
    let tail = filler_tail (print_hex 8 psr ++ 0 ∷ rest) in
    let gdb' = put_registers gdb (write_all v 16 0 mode gdb.arm.reg) in
    rw
      (
        regrouped v psr (0 ∷ rest),
        write_registers-words 16 0 m gdb v (b'x') tail mode (omega arith) valid refl small,
        behind_filler psr (0 ∷ rest),
        read_uint32-print_hex m gdb' psr (0 ∷ rest) small',
      )
      refl

pub send_ok :
    (gdb : Gdb)
    → gdb.shut ≡ false
    → gdb_send_data gdb (codes "OK")
      ≡ some (record gdb { packet = frame (codes "OK"); sent = frame (codes "OK") ∷ gdb.sent })
unfolding gdb_send_data gdb_send_buffer gdb_transmit_packet write_out
send_ok gdb live = rw live refl

-- On an open socket, in one of the seven modes, a request G with the text of sixteen words and of a
-- status register that has the present mode, sent before a request g, makes the reply to g that
-- same text.
pub read_general_registers-write :
    (m : Machine) (gdb : Gdb) (v : ℕ → ℕ) (psr : ℕ) (rest : List ℕ)
    → gdb.shut ≡ false
    → IsMode (registers_get_mode gdb.arm.reg)
    → bit_and (u8 psr) 0x1f ≡ registers_get_mode gdb.arm.reg
    → ((k : ℕ) → v k < 2 ^ 32)
    → psr < 2 ^ 32
    → (write_general_registers m gdb (general_text v psr ++ 0 ∷ rest) >>= read_general_registers)
      ≡ some (record gdb {
        arm = record gdb.arm { reg = written v psr gdb.arm.reg };
        packet = frame (general_text v psr);
        sent = frame (general_text v psr) ∷ frame (codes "OK") ∷ gdb.sent;
      })
read_general_registers-write m gdb v psr rest live valid same small small' =
    let reg' = written v psr gdb.arm.reg in
    let text = frame (codes "OK") in
    let gdb' = record gdb {
      arm = record gdb.arm { reg = reg' };
      packet = text;
      sent = text ∷ gdb.sent;
    } in
    let mode' : registers_get_mode reg' ≡ registers_get_mode gdb.arm.reg =
      written-mode v psr gdb.arm.reg ∙ same in
    let values : words (general_registers gdb') 16 0 ≡ words v 16 0 =
      words_cong (general_registers gdb') v 16 0
        (λ k low high. rw mode' (written-read v psr k gdb.arm.reg valid (omega (arith, high)))) in
    rw
      (
        write_general_registers_lem m gdb v psr rest valid small small',
        send_ok (put_registers gdb reg') live,
      )
      (rw (values, written-psr v psr gdb.arm.reg) at (read_general_registers_lem gdb' live).0)
