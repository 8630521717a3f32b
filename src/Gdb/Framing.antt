-- ===== src/Gdb/Framing.antt =====
-- A packet whose text, checksum and digits are known, and its analysis.
use projet_l3_inf_bn_zl_rj_r.Prelude.{
  ℕ, ◌+◌, ◌-◌, ◌^◌, ◌%◌, ◌/◌, ◌<◌, ◌≡◌, refl, ◌∙◌, true, false, ◌≢◌, sym, List, [], ◌∷◌, ◌++◌, some,
  if◌then◌else◌, ◌==◌, u8, arith,
}
use projet_l3_inf_bn_zl_rj_r.Libc.{
  codes, length, advance, print_hex, hex_digit, is_digit, scan_value,
}
use projet_l3_inf_bn_zl_rj_r.Libc.Hex.{scan_hex-print_hex}
use projet_l3_inf_bn_zl_rj_r.Libc.Text.{length-++, take-++, advance-++, advance_zero}
use projet_l3_inf_bn_zl_rj_r.Machine.{Machine}
use projet_l3_inf_bn_zl_rj_r.Gdb.{Gdb}
use projet_l3_inf_bn_zl_rj_r.Gdb.Replies.{
  write_out, gdb_send_ack, gdb_require_retransmission, checksum, frame,
}
use projet_l3_inf_bn_zl_rj_r.Gdb.Analysis.{dispatch, gdb_packet_analysis}

-- The packet that gdb sends for a text with the checksum `given`.
abbrev pub packet_of : List ℕ → ℕ → List ℕ
packet_of text given = b'$' ∷ (text ++ b'#' ∷ print_hex 2 given)

-- The packet behind its `$`.
start :
    (text : List ℕ) (c : ℕ) (t : List ℕ) → advance 1 (b'$' ∷ (text ++ c ∷ t)) ≡ some (text ++ c ∷ t)
unfolding advance
start text c t = advance_zero text c t

scan_value-print_hex : (value : ℕ) → value < 2 ^ 8 → scan_value (print_hex 2 value) ≡ some value
unfolding scan_value print_hex is_digit
scan_value-print_hex value small = rw (scan_value, scan_hex-print_hex value [] small refl) refl

-- The analysis of a packet, on a socket that is open.
pub gdb_packet_analysis-packet_of :
    (fuel : ℕ) (m : Machine) (gdb : Gdb) (text : List ℕ) (given : ℕ)
    → gdb.shut ≡ false
    → given < 2 ^ 8
    → gdb_packet_analysis fuel m gdb (packet_of text given) ≡ (
        if checksum text 0 == given
        then dispatch fuel m
            (record gdb { sent = codes "+" ∷ gdb.sent })
            (text ++ 0 ∷ print_hex 2 given ++ 0 ∷ [])
        else some (record gdb { sent = codes "-" ∷ gdb.sent }))
unfolding gdb_packet_analysis print_hex
gdb_packet_analysis-packet_of fuel m gdb text given live small =
    let count : length (packet_of text given) - 4 ≡ length text =
      rw (length-++ text (b'#' ∷ print_hex 2 given)) (omega arith) in
    rw (start text (b'#') (print_hex 2 given), count, take-++ text (b'#' ∷ print_hex 2 given))
      (rw
        (
          advance-++ text (b'#') (hex_digit (given / 16 % 16)) (hex_digit (given / 1 % 16) ∷ []),
          scan_value-print_hex given small,
        )
        (unfold gdb_send_ack gdb_require_retransmission write_out in rw live refl))

checksum-++ : (s t : List ℕ) (check : ℕ) → checksum (s ++ t) check ≡ checksum t (checksum s check)
unfolding checksum
checksum-++ [] t check = refl
checksum-++ (c ∷ s) t check = checksum-++ s t (u8 (check + c))

checksum-lt : (s : List ℕ) (check : ℕ) → check < 2 ^ 8 → checksum s check < 2 ^ 8
unfolding checksum
checksum-lt [] check small = small
checksum-lt (c ∷ s) check small = checksum-lt s (u8 (check + c)) (omega arith)

-- What has been summed before can be told from the sum.
checksum_injective :
    (s : List ℕ) (a b : ℕ) → a < 2 ^ 8 → b < 2 ^ 8 → checksum s a ≡ checksum s b → a ≡ b
unfolding checksum
checksum_injective [] a b small small' e = e
checksum_injective (c ∷ s) a b small small' e =
    let h = checksum_injective s (u8 (a + c)) (u8 (b + c)) (omega arith) (omega arith) e in
    omega arith

-- Where one character of a text has been altered, its checksum is another one.
checksum-altered :
    (s t : List ℕ) (c d : ℕ)
    → c < 2 ^ 8
    → d < 2 ^ 8
    → c ≢ d
    → checksum (s ++ d ∷ t) 0 ≢ checksum (s ++ c ∷ t) 0
unfolding checksum
checksum-altered s t c d small small' other e =
    let small_s = checksum-lt s 0 (omega arith) in
    let h =
      checksum_injective t (u8 (checksum s 0 + d)) (u8 (checksum s 0 + c)) (omega arith)
        (omega arith) (sym (checksum-++ s (d ∷ t) 0) ∙ e ∙ checksum-++ s (c ∷ t) 0) in
    omega arith

-- On a socket that is open, a packet whose text has the right checksum is acknowledged, and its text
-- is dispatched.
pub gdb_packet_analysis-frame :
    (fuel : ℕ) (m : Machine) (gdb : Gdb) (text : List ℕ)
    → gdb.shut ≡ false
    → gdb_packet_analysis fuel m gdb (frame text)
      ≡ dispatch fuel m
          (record gdb { sent = codes "+" ∷ gdb.sent })
          (text ++ 0 ∷ print_hex 2 (checksum text 0) ++ 0 ∷ [])
unfolding frame
gdb_packet_analysis-frame fuel m gdb text live =
    let same : (checksum text 0 == checksum text 0) ≡ true = ground arith in
    gdb_packet_analysis-packet_of fuel m gdb text (checksum text 0) live
      (checksum-lt text 0 (omega arith))
    ∙ rw same refl

-- On an open socket, a packet in whose text, between `$` and `#`, one character, a byte, has been
-- altered into another byte after the checksum was made is refused: a `-` is sent, and nothing else
-- is changed.
pub gdb_packet_analysis-altered :
    (fuel : ℕ) (m : Machine) (gdb : Gdb) (s t : List ℕ) (c d : ℕ)
    → gdb.shut ≡ false
    → c < 2 ^ 8
    → d < 2 ^ 8
    → c ≢ d
    → gdb_packet_analysis fuel m gdb (packet_of (s ++ d ∷ t) (checksum (s ++ c ∷ t) 0))
      ≡ some (record gdb { sent = codes "-" ∷ gdb.sent })
gdb_packet_analysis-altered fuel m gdb s t c d live small small' other =
    let sent = checksum (s ++ c ∷ t) 0 in
    let differs = checksum-altered s t c d small small' other in
    let wrong : (checksum (s ++ d ∷ t) 0 == sent) ≡ false = ground arith in
    gdb_packet_analysis-packet_of fuel m gdb (s ++ d ∷ t) sent live
      (checksum-lt (s ++ c ∷ t) 0 (omega arith))
    ∙ rw wrong refl
