-- ===== src/Scanner.antt =====
-- scanner.l, as scanner.c has it: the tokens of the requests of gdb, what is done for each, and the
-- text of an invalid request. The messages of `debug` are left out.
pub mod Tokens
pub mod Automaton
pub mod Bounds
pub mod Packets
pub mod Session
pub mod Requests
pub mod Breakpoints
use projet_l3_inf_bn_zl_rj_r.Prelude.{
  ℕ, zero, suc, ◌+◌, ◌-◌, ltb, ◌==◌, ◌&&◌, Bool, true, false, if◌then◌else◌, List, [], ◌∷◌, Option,
  none, some, ◌>>=◌,
}
use projet_l3_inf_bn_zl_rj_r.Libc.{length, is_digit}
use projet_l3_inf_bn_zl_rj_r.Machine.{Machine}
use projet_l3_inf_bn_zl_rj_r.Core.{Arm}
use projet_l3_inf_bn_zl_rj_r.Gdb.{Gdb, gdb_init_data}
use projet_l3_inf_bn_zl_rj_r.Gdb.Replies.{gdb_transmit_packet, gdb_require_retransmission}
use projet_l3_inf_bn_zl_rj_r.Gdb.Analysis.{gdb_packet_analysis}

-- MAX_ERROR_SIZE.
abbrev pub max_error_size : ℕ
max_error_size = 1024

-- `struct parser_data`: `buffer` is the first `len` characters of that field, the last one first.
pub record Parser : Type 0 where
  pub gdb : Gdb
  pub buffer : List ℕ

-- The NUL is written behind the text, inside the array.
unfoldable pub handle_error : Parser → Option Parser
handle_error parser =
    let len = length parser.buffer in
    if len == 0
    then some parser
    else if ltb len max_error_size
    then (gdb_require_retransmission parser.gdb >>= λ gdb'.
        some (record { gdb = gdb'; buffer = [] }))
    else none

unfoldable pub add_character_to_error : Parser → ℕ → Option Parser
add_character_to_error parser c = do
  parser' ←
      (if ltb (max_error_size - 2) (length parser.buffer) then handle_error parser else some parser)
  if ltb (length parser'.buffer) max_error_size
      then some (record { gdb = parser'.gdb; buffer = c ∷ parser'.buffer })
      else none

-- The tokens; `line_end` is the newline, which no rule matches and which flex copies to its output.
pub data Token : Type 0 where
  ack retransmission line_end : Token
  packet : List ℕ → Token
  character : ℕ → Token

-- A class HEX character.
unfoldable pub is_hex : ℕ → Bool
is_hex c = is_digit (c ∷ [])

-- The rest of a packet behind its `$`, and what follows it: characters that are neither `$` nor `#`,
-- then `#` and two digits.
unfoldable pub match_packet : List ℕ → Option (List ℕ × List ℕ)
match_packet [] = none
match_packet (c ∷ s) =
    let rest = match_packet s in
    if c == b'#'
    then elim s [
      | [] ↦ none
      | d ∷ t ↦ elim t [
        | [] ↦ none
        | e ∷ u ↦ if is_hex d && is_hex e then some (c ∷ d ∷ e ∷ [], u) else none
      ]
    ]
    else if c == b'$'
    then none
    else (rest >>= λ (matched, follows). some (c ∷ matched, follows))

-- The longest token at the head of an input, and what follows it.
unfoldable pub next_token : ℕ → List ℕ → Token × List ℕ
next_token c s =
    if c == b'+'
    then (Token.ack, s)
    else if c == b'-'
    then (Token.retransmission, s)
    else if c == b'$'
    then elim (match_packet s) [
      | none ↦ (Token.character c, s)
      | some (matched, follows) ↦ (Token.packet (c ∷ matched), follows)
    ]
    else if c == 10
    then (Token.line_end, s)
    else (Token.character c, s)

-- The actions of the rules; the fuel is for `cont`.
unfoldable pub act : ℕ → Machine → Parser → Token → Option Parser
act fuel m parser Token.ack = handle_error parser
act fuel m parser Token.retransmission = do
  parser' ← handle_error parser
  gdb' ← gdb_transmit_packet parser'.gdb
  some (record parser' { gdb = gdb' })
act fuel m parser (Token.packet text) = do
  parser' ← handle_error parser
  gdb' ← gdb_packet_analysis fuel m parser'.gdb text
  some (record parser' { gdb = gdb' })
act fuel m parser (Token.character c) = add_character_to_error parser c
act fuel m parser Token.line_end = some parser

-- The loop over the tokens of an input, with `rounds` left.
unfoldable pub yylex : ℕ → ℕ → Machine → Parser → List ℕ → Option Parser
yylex zero fuel m parser input = none
yylex (suc rounds) fuel m parser [] = handle_error parser
yylex (suc rounds) fuel m parser (c ∷ s) = act fuel m parser (next_token c s).0 >>= λ parser'.
    yylex rounds fuel m parser' (next_token c s).1

-- `gdb_scanner` on a stream that can be read, up to its end: a token takes a character at least.
unfoldable pub gdb_scanner : ℕ → Machine → Arm → (ℕ → ℕ) → List ℕ → Option Parser
gdb_scanner fuel m arm content input =
    yylex (length input + 1) fuel m (record { gdb = gdb_init_data arm content; buffer = [] }) input
