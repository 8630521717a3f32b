-- ===== src/Scanner/Packets.antt =====
-- A packet in the input of the scanner.
use projet_l3_inf_bn_zl_rj_r.Prelude.{
  ℕ, suc, ◌<◌, ◌≡◌, ◌≢◌, ◌^◌, ◌==◌, true, false, List, [], ◌∷◌, ◌++◌, Option, none, some, ◌>>=◌,
  arith, refl, ◌/◌, ◌%◌,
}
use projet_l3_inf_bn_zl_rj_r.Libc.{codes, print_hex, hex_digit, is_digit}
use projet_l3_inf_bn_zl_rj_r.Machine.{Machine}
use projet_l3_inf_bn_zl_rj_r.Gdb.{Gdb}
use projet_l3_inf_bn_zl_rj_r.Gdb.Replies.{frame, checksum}
use projet_l3_inf_bn_zl_rj_r.Gdb.Analysis.{dispatch}
use projet_l3_inf_bn_zl_rj_r.Scanner.{
  Parser, Token, handle_error, is_hex, match_packet, next_token, act, yylex,
}
use projet_l3_inf_bn_zl_rj_r.Libc.Hex.{digit_value-hex_digit}
use projet_l3_inf_bn_zl_rj_r.Libc.Text.{++-assoc}
use projet_l3_inf_bn_zl_rj_r.Gdb.Framing.{gdb_packet_analysis-frame}

-- No character of a text is one of `$` and `#`.
abbrev pub IsPlain : List ℕ → Type 0
IsPlain [] = Unit
IsPlain (c ∷ s) = (c ≢ b'$') × (c ≢ b'#') × IsPlain s

is_hex-hex_digit : (d : ℕ) → d < 16 → is_hex (hex_digit d) ≡ true
unfolding is_hex is_digit
is_hex-hex_digit d small = rw (is_digit, digit_value-hex_digit d small) refl

match_packet-frame :
    (text rest : List ℕ) (given : ℕ)
    → IsPlain text
    → match_packet (text ++ (b'#' ∷ print_hex 2 given ++ rest))
      ≡ some (text ++ b'#' ∷ print_hex 2 given, rest)
unfolding match_packet print_hex
match_packet-frame [] rest given plain =
    rw
      (
        is_hex-hex_digit (given / 16 ^ 1 % 16) (omega arith),
        is_hex-hex_digit (given / 16 ^ 0 % 16) (omega arith),
      )
      refl
match_packet-frame (c ∷ text) rest given (dollar, sharp, plain) =
    let other : (c == b'#') ≡ false = ground arith in
    let other' : (c == b'$') ≡ false = ground arith in
    rw (other, other', match_packet-frame text rest given plain) refl

next_token-frame :
    (text rest : List ℕ)
    → IsPlain text
    → next_token (b'$') ((text ++ b'#' ∷ print_hex 2 (checksum text 0)) ++ rest)
      ≡ (Token.packet (frame text), rest)
unfolding next_token frame
next_token-frame text rest plain =
    rw
      (
        ++-assoc text (b'#' ∷ print_hex 2 (checksum text 0)) rest,
        match_packet-frame text rest (checksum text 0) plain,
      )
      refl

bind_assoc :
    (o : Option Gdb) (f : Parser → Option Parser)
    → (o >>= λ gdb'. some (record { gdb = gdb'; buffer = [] })) >>= f
      ≡ (o >>= λ gdb'. f (record { gdb = gdb'; buffer = [] }))
bind_assoc none f = refl
bind_assoc (some gdb) f = refl

-- On an open socket and with no invalid text pending, the scanner, given at least one round, takes
-- a packet with the right checksum whose text has neither `$` nor `#` off the head of its input as
-- a whole, acknowledges it, has its text dispatched, and goes on with what follows the packet in
-- the connection that the handler leaves.
pub yylex-frame :
    (rounds fuel : ℕ) (m : Machine) (gdb : Gdb) (text rest : List ℕ)
    → gdb.shut ≡ false
    → IsPlain text
    → yylex (suc rounds) fuel m (record { gdb = gdb; buffer = [] }) (frame text ++ rest) ≡ (
        dispatch fuel m
          (record gdb { sent = codes "+" ∷ gdb.sent })
          (text ++ 0 ∷ print_hex 2 (checksum text 0) ++ 0 ∷ [])
        >>= λ gdb'. yylex rounds fuel m (record { gdb = gdb'; buffer = [] }) rest)
unfolding yylex act handle_error frame
yylex-frame rounds fuel m gdb text rest live plain =
    let reply =
      dispatch fuel m (record gdb { sent = codes "+" ∷ gdb.sent })
        (text ++ 0 ∷ print_hex 2 (checksum text 0) ++ 0 ∷ []) in
    rw (next_token-frame text rest plain, gdb_packet_analysis-frame fuel m gdb text live)
      (bind_assoc reply (λ parser. yylex rounds fuel m parser rest))
