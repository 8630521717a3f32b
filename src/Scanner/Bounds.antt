-- ===== src/Scanner/Bounds.antt =====
-- The well-formed states of the scanner.
use projet_l3_inf_bn_zl_rj_r.Prelude.{
  ℕ, zero, suc, ◌+◌, ◌-◌, ◌<◌, ◌≤◌, ◌≡◌, ◌==◌, ltb, false, if◌then◌else◌, List, [], ◌∷◌, none, some,
  arith, refl, inl, inr, Bool-cases, Option-cases, if_both, lt→ltb,
}
use projet_l3_inf_bn_zl_rj_r.Libc.{length, codes}
use projet_l3_inf_bn_zl_rj_r.Machine.{Machine}
use projet_l3_inf_bn_zl_rj_r.Core.{Arm}
use projet_l3_inf_bn_zl_rj_r.Valid.{Ensures, Ensures-bind, IsValid}
use projet_l3_inf_bn_zl_rj_r.Gdb.{gdb_init_data}
use projet_l3_inf_bn_zl_rj_r.Gdb.Replies.{
  gdb_transmit_packet, gdb_require_retransmission, write_out,
}
use projet_l3_inf_bn_zl_rj_r.Gdb.Analysis.{gdb_packet_analysis}
use projet_l3_inf_bn_zl_rj_r.Scanner.{
  Parser, Token, max_error_size, handle_error, add_character_to_error, next_token, act, yylex,
  gdb_scanner,
}
use projet_l3_inf_bn_zl_rj_r.Gdb.Session.{IsSession, write_out-Ensures}
use projet_l3_inf_bn_zl_rj_r.Gdb.Session.Packets.{gdb_packet_analysis-IsSession}

pub record IsParser (parser : Parser) : Type 0 where
  pub session : IsSession parser.gdb
  pub room : length parser.buffer < max_error_size

-- The state behind an error that has been handled has an empty text.
abbrev Emptied : Parser → Type 0
Emptied parser = IsSession parser.gdb × (length parser.buffer ≡ 0)

handle_error-Ensures : (parser : Parser) → IsParser parser → Ensures Emptied (handle_error parser)
unfolding handle_error gdb_require_retransmission
handle_error-Ensures parser valid = elim (Bool-cases (length parser.buffer == 0)) [
  | inl empty ↦ rw empty (valid.session, ground arith)
  | inr filled ↦
      let fits = lt→ltb (length parser.buffer) max_error_size valid.room in
      rw (filled, fits)
        (Ensures-bind IsSession Emptied (gdb_require_retransmission parser.gdb) _
          (write_out-Ensures parser.gdb (b'-' ∷ []) valid.session) λ gdb' session. (session, refl))
]

emptied : (parser : Parser) → Emptied parser → IsParser parser
emptied parser (session, empty) = record { session = session; room = omega arith }

pub emptied-Ensures : (parser : Parser) → IsParser parser → Ensures IsParser (handle_error parser)
emptied-Ensures parser valid = elim (Option-cases (handle_error parser)) [
  | inl e ↦ rw e tt
  | inr (parser', e) ↦
      let h = rw e at (handle_error-Ensures parser valid) in rw e (emptied parser' h)
]

-- There is room for a character and the NUL.
abbrev Short : Parser → Type 0
Short parser = IsSession parser.gdb × (length parser.buffer ≤ max_error_size - 2)

room_made :
    (parser : Parser)
    → IsParser parser
    → Ensures Short (
        if ltb (max_error_size - 2) (length parser.buffer)
        then handle_error parser
        else some parser)
room_made parser valid = elim (Bool-cases (ltb (max_error_size - 2) (length parser.buffer))) [
  | inl long ↦ elim (Option-cases (handle_error parser)) [
    | inl e ↦ rw (long, e) tt
    | inr (parser', e) ↦
        let h = rw e at (handle_error-Ensures parser valid) in
        rw (long, e) (h.0, omega (arith, h.1))
  ]
  | inr short ↦ rw short (valid.session, ground arith)
]

add_character-Ensures :
    (parser : Parser) (c : ℕ) → IsParser parser → Ensures IsParser (add_character_to_error parser c)
unfolding add_character_to_error
add_character-Ensures parser c valid =
    Ensures-bind Short IsParser
      (if ltb (max_error_size - 2) (length parser.buffer) then handle_error parser else some parser)
      _ (room_made parser valid)
      λ parser' (session, short).
        if_both (Ensures IsParser) (ltb (length parser'.buffer) max_error_size) _ none
          (record { session = session; room = omega (arith, short) }) tt

pub act-Ensures :
    (fuel : ℕ) (m : Machine) (parser : Parser) (token : Token)
    → IsParser parser
    → Ensures IsParser (act fuel m parser token)
unfolding act gdb_transmit_packet
act-Ensures fuel m parser Token.ack valid = emptied-Ensures parser valid
act-Ensures fuel m parser Token.retransmission valid =
    Ensures-bind Emptied IsParser (handle_error parser) _ (handle_error-Ensures parser valid)
      λ parser' empty.
        Ensures-bind IsSession IsParser (gdb_transmit_packet parser'.gdb) _
          (write_out-Ensures parser'.gdb parser'.gdb.packet empty.0)
          λ gdb' session. emptied (record parser' { gdb = gdb' }) (session, empty.1)
act-Ensures fuel m parser (Token.packet text) valid =
    Ensures-bind Emptied IsParser (handle_error parser) _ (handle_error-Ensures parser valid)
      λ parser' empty.
        Ensures-bind IsSession IsParser (gdb_packet_analysis fuel m parser'.gdb text) _
          (gdb_packet_analysis-IsSession fuel m parser'.gdb text empty.0)
          λ gdb' session. emptied (record parser' { gdb = gdb' }) (session, empty.1)
act-Ensures fuel m parser (Token.character c) valid = add_character-Ensures parser c valid
act-Ensures fuel m parser Token.line_end valid = valid

yylex-Ensures :
    (rounds fuel : ℕ) (m : Machine) (parser : Parser) (input : List ℕ)
    → IsParser parser
    → Ensures IsParser (yylex rounds fuel m parser input)
unfolding yylex
yylex-Ensures zero fuel m parser input valid = tt
yylex-Ensures (suc rounds) fuel m parser [] valid = emptied-Ensures parser valid
yylex-Ensures (suc rounds) fuel m parser (c ∷ s) valid =
    Ensures-bind IsParser IsParser (act fuel m parser (next_token c s).0) _
      (act-Ensures fuel m parser (next_token c s).0 valid)
      λ parser' valid'. yylex-Ensures rounds fuel m parser' (next_token c s).1 valid'

-- What a scanner starts with.
pub fresh-IsParser :
    (arm : Arm) (content : ℕ → ℕ)
    → IsValid arm
    → IsParser (record { gdb = gdb_init_data arm content; buffer = [] })
unfolding gdb_init_data
fresh-IsParser arm content valid = record {
  session = record {
    valid = valid;
    table = λ i j h inside. absurd (omega arith);
    room = omega arith;
    addresses = λ y held. absurd (omega (arith, held.1));
  };
  room = omega arith;
}

-- Whatever bytes arrive on the socket, a scanner that starts on a well-formed processor and reaches
-- the end of its input leaves a well-formed one, a table of at most 1024 breakpoints that ascends
-- and holds words, and an invalid text that leaves room for its NUL.
pub gdb_scanner-IsParser :
    (fuel : ℕ) (m : Machine) (arm : Arm) (content : ℕ → ℕ) (input : List ℕ)
    → IsValid arm
    → Ensures IsParser (gdb_scanner fuel m arm content input)
unfolding gdb_scanner gdb_init_data
gdb_scanner-IsParser fuel m arm content input valid =
    yylex-Ensures (length input + 1) fuel m _ input (fresh-IsParser arm content valid)

-- On an open socket, a character added to an invalid text of fewer than 1024 characters gives a
-- text of fewer than 1024 characters, with no access outside the array.
pub add_character_to_error_lem :
    (parser : Parser) (c : ℕ)
    → parser.gdb.shut ≡ false
    → length parser.buffer < max_error_size
    → (parser' : Parser) × (add_character_to_error parser c ≡ some parser')
      × (length parser'.buffer < max_error_size)
unfolding add_character_to_error handle_error gdb_require_retransmission write_out
add_character_to_error_lem parser c live room =
    elim (Bool-cases (ltb (max_error_size - 2) (length parser.buffer))) [
      | inl long ↦
          let filled : (length parser.buffer == 0) ≡ false = ground arith in
          let fits = lt→ltb (length parser.buffer) max_error_size room in
          (
            record {
              gdb = record parser.gdb { sent = codes "-" ∷ parser.gdb.sent };
              buffer = c ∷ [];
            },
            rw (long, filled, fits, live) refl,
            omega arith,
          )
      | inr short ↦
          let fits = lt→ltb (length parser.buffer) max_error_size room in
          (
            record { gdb = parser.gdb; buffer = c ∷ parser.buffer },
            rw (short, fits) refl,
            ground arith,
          )
    ]
