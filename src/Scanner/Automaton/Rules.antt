-- ===== src/Scanner/Automaton/Rules.antt =====
-- The tokens that the automaton matches, against the rules.
use projet_l3_inf_bn_zl_rj_r.Prelude.{
  ℕ, suc, ◌+◌, ◌<◌, ◌≡◌, ◌==◌, true, false, List, [], ◌∷◌, ◌++◌, Option, none, some, ◌>>=◌, arith,
  refl, ap, ◌∙◌, inl, inr, Bool-cases, Option-cases, ==→eq,
}
use projet_l3_inf_bn_zl_rj_r.Libc.{take, length}
use projet_l3_inf_bn_zl_rj_r.Libc.Text.{take-++}
use projet_l3_inf_bn_zl_rj_r.Scanner.{Token, is_hex, match_packet, next_token}
use projet_l3_inf_bn_zl_rj_r.Scanner.Tokens.{match_packet-Parts}
use projet_l3_inf_bn_zl_rj_r.Scanner.Automaton.{
  element, yy_accept, yy_base, yy_ec, yy_def, yy_meta, yy_nxt, yy_chk, class, transition,
  find_action, accepted, yy_match, drop, token_of, matched_token,
}
use projet_l3_inf_bn_zl_rj_r.Scanner.Automaton.Transitions.{
  text_state, transition_first, transition_dollar, transition_text, transition_digit,
  transition_last,
}

-- The characters of an input are bytes.
abbrev pub AreChars : List ℕ → Type 0
AreChars [] = Unit
AreChars (c ∷ s) = (c < 256) × AreChars s

-- What a match in the text of a packet gives, behind `n` characters, where the rest of the packet is `o`.
abbrev outcome : ℕ → Option (List ℕ × List ℕ) → ℕ × ℕ
outcome n none = (4, 1)
outcome n (some r) = (3, n + length r.0)

-- `#` and the two digits behind it.
sharp_match :
    (c : ℕ) (s : List ℕ) (n : ℕ)
    → AreChars s
    → (c == b'#') ≡ true
    → yy_match s 10 (n + 1) (6, 1) ≡ outcome n (match_packet (c ∷ s))
unfolding yy_match accepted find_action element yy_accept yy_base match_packet
sharp_match c [] n chars sharp = rw (match_packet, sharp) refl
sharp_match c (d ∷ []) n chars sharp = elim (Bool-cases (is_hex d)) [
  | inl hex ↦ rw (transition_digit d chars.0, hex, match_packet, sharp) refl
  | inr other ↦ rw (transition_digit d chars.0, other, match_packet, sharp) refl
]
sharp_match c (d ∷ e ∷ u) n chars sharp = elim (Bool-cases (is_hex d)) [
  | inl hex ↦ elim (Bool-cases (is_hex e)) [
    | inl hex' ↦
        rw (transition_digit d chars.0, hex, transition_last e chars.1.0, hex', match_packet, sharp)
          (ap (λ (k : ℕ). let r : ℕ × ℕ = (3, k) in r) (omega arith))
    | inr other ↦
        rw
          (transition_digit d chars.0, hex, transition_last e chars.1.0, other, match_packet, sharp)
          refl
  ]
  | inr other ↦ rw (transition_digit d chars.0, other, match_packet, sharp) refl
]

outcome_cons :
    (c n : ℕ) (o : Option (List ℕ × List ℕ))
    → outcome (n + 1) o ≡ outcome n (o >>= λ (matched, follows). some (c ∷ matched, follows))
outcome_cons c n none = refl
outcome_cons c n (some r) = ap (λ (k : ℕ). let r : ℕ × ℕ = (3, k) in r) (omega arith)

-- One character of the text of a packet.
text_round :
    (state c : ℕ) (s : List ℕ) (n : ℕ) (before : ℕ × ℕ)
    → AreChars s
    → transition 3 state (class c) ≡ text_state c
    → accepted state n before ≡ (6, 1)
    → yy_match s 9 (n + 1) (6, 1) ≡ outcome (n + 1) (match_packet s)
    → yy_match (c ∷ s) state n before ≡ outcome n (match_packet (c ∷ s))
unfolding yy_match find_action element yy_accept yy_base match_packet
text_round state c s n before chars moves dollar later = elim (Bool-cases (c == b'#')) [
  | inl sharp ↦
      rw (moves, dollar, sharp) (sharp_match c s n chars sharp ∙ rw (match_packet, sharp) refl)
  | inr other ↦ elim (Bool-cases (c == b'$')) [
    | inl again ↦ rw (moves, dollar, other, again, match_packet) refl
    | inr plain ↦ rw (moves, dollar, other, plain, later) (outcome_cons c n (match_packet s))
  ]
]

text_match : (s : List ℕ) (n : ℕ) → AreChars s → yy_match s 9 n (6, 1) ≡ outcome n (match_packet s)
unfolding yy_match accepted find_action element yy_accept yy_base match_packet
text_match [] n chars = refl
text_match (c ∷ s) n (small, chars) =
    text_round 9 c s n (6, 1) chars (transition_text c small) refl (text_match s (n + 1) chars)

dollar_match : (s : List ℕ) → AreChars s → yy_match s 6 1 (0, 0) ≡ outcome 1 (match_packet s)
unfolding yy_match accepted find_action element yy_accept yy_base match_packet
dollar_match [] chars = refl
dollar_match (c ∷ s) (small, chars) =
    text_round 6 c s 1 (0, 0) chars (transition_dollar c small) refl (text_match s 2 chars)

drop-++ : (s t : List ℕ) → drop (length s) (s ++ t) ≡ t
unfolding drop
drop-++ [] t = refl
drop-++ (c ∷ s) t = drop-++ s t

packet_token :
    (c : ℕ) (matched follows : List ℕ)
    → token_of (3, 1 + length matched) c (matched ++ follows)
      ≡ (Token.packet (c ∷ matched), follows)
unfolding token_of take drop
packet_token c matched follows =
    let count : 1 + length matched ≡ suc (length matched) = omega arith in
    rw (count, take-++ matched follows, drop-++ matched follows) refl

-- A `$` and what follows it.
dollar_token :
    (s : List ℕ) → AreChars s → token_of (outcome 1 (match_packet s)) (b'$') s ≡ next_token (b'$') s
unfolding next_token token_of drop
dollar_token s chars = elim (Option-cases (match_packet s)) [
  | inl e ↦ rw (next_token, e) refl
  | inr (r, e) ↦
      let parts = match_packet-Parts s in
      let same : s ≡ r.0 ++ r.1 = rw e at parts in
      let whole : 36 ∷ s ≡ 36 ∷ (r.0 ++ r.1) = ap (λ (t : List ℕ). 36 ∷ t) same in
      rw (next_token, e, whole) (packet_token (b'$') r.0 r.1)
]

-- The other characters.
other_match :
    (c : ℕ) (s : List ℕ)
    → c < 256
    → (c == b'+') ≡ false
    → (c == b'-') ≡ false
    → (c == b'$') ≡ false
    → (c == 10) ≡ false
    → yy_match (c ∷ s) 1 0 (0, 0) ≡ (4, 1)
unfolding yy_match accepted find_action element yy_accept yy_base
other_match c s small plus minus dollar newline =
    rw (transition_first c small, plus, minus, dollar, newline) refl

at_dollar : (s : List ℕ) → AreChars s → matched_token (b'$') s ≡ next_token (b'$') s
unfolding matched_token yy_match accepted find_action transition class element yy_accept yy_base
    yy_ec yy_def yy_meta yy_nxt yy_chk
at_dollar s chars = rw (dollar_match s chars) (dollar_token s chars)

-- The characters that are a token alone.
single_token :
    (s : List ℕ)
    → (matched_token (b'+') s ≡ next_token (b'+') s)
      × (matched_token (b'-') s ≡ next_token (b'-') s)
      × (matched_token 10 s ≡ next_token 10 s)
unfolding matched_token next_token token_of drop yy_match accepted find_action transition class
    element yy_accept yy_base yy_ec yy_def yy_meta yy_nxt yy_chk
single_token s = (refl, refl, refl)

at_other :
    (c : ℕ) (s : List ℕ)
    → c < 256
    → (c == b'+') ≡ false
    → (c == b'-') ≡ false
    → (c == b'$') ≡ false
    → (c == 10) ≡ false
    → matched_token c s ≡ next_token c s
unfolding matched_token next_token token_of drop
at_other c s small plus minus dollar newline =
    rw (other_match c s small plus minus dollar newline, next_token, plus, minus, dollar, newline)
      refl

-- On bytes, the automaton of scanner.c takes at each place the token that the rules of scanner.l ask
-- for, the longest one, and leaves the same characters behind it.
pub matched_token-next_token :
    (c : ℕ) (s : List ℕ) → c < 256 → AreChars s → matched_token c s ≡ next_token c s
matched_token-next_token c s small chars = elim (Bool-cases (c == b'+')) [
  | inl e ↦ rw (==→eq c (b'+') e) ((single_token s).0)
  | inr plus ↦ elim (Bool-cases (c == b'-')) [
    | inl e ↦ rw (==→eq c (b'-') e) ((single_token s).1)
    | inr minus ↦ elim (Bool-cases (c == b'$')) [
      | inl e ↦ rw (==→eq c (b'$') e) (at_dollar s chars)
      | inr dollar ↦ elim (Bool-cases (c == 10)) [
        | inl e ↦ rw (==→eq c 10 e) ((single_token s).2)
        | inr newline ↦ at_other c s small plus minus dollar newline
      ]
    ]
  ]
]
