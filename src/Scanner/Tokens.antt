-- ===== src/Scanner/Tokens.antt =====
-- The tokens of an input: their texts are the input, and every one takes a character at least.
use mathlib.Core.Path.{fun_ext}
use projet_l3_inf_bn_zl_rj_r.Prelude.{
  ℕ, zero, suc, ◌+◌, ◌<◌, ◌≤◌, ◌≡◌, ◌==◌, ◌&&◌, true, false, List, [], ◌∷◌, ◌++◌, Option, none,
  some, ◌>>=◌, arith, refl, inl, inr, Bool-cases, Option-cases, ap, if_both, ==→eq, ◌∙◌, sym,
}
use projet_l3_inf_bn_zl_rj_r.Libc.{length}
use projet_l3_inf_bn_zl_rj_r.Libc.Text.{length-++}
use projet_l3_inf_bn_zl_rj_r.Machine.{Machine}
use projet_l3_inf_bn_zl_rj_r.Valid.{Ensures, Ensures-bind}
use projet_l3_inf_bn_zl_rj_r.Scanner.{
  Parser, Token, is_hex, match_packet, next_token, act, handle_error, yylex,
}

-- What is matched and what follows it are the input.
abbrev pub Parts : List ℕ → List ℕ × List ℕ → Type 0
Parts s r = s ≡ r.0 ++ r.1

sharp-Parts :
    (c : ℕ) (s : List ℕ) → (c == b'#') ≡ true → Ensures (Parts (c ∷ s)) (match_packet (c ∷ s))
unfolding match_packet
sharp-Parts c [] sharp = rw (match_packet, sharp) tt
sharp-Parts c (d ∷ []) sharp = rw (match_packet, sharp) tt
sharp-Parts c (d ∷ e ∷ u) sharp =
    rw (match_packet, sharp)
      (if_both (Ensures (Parts (c ∷ d ∷ e ∷ u))) (is_hex d && is_hex e) (some (c ∷ d ∷ e ∷ [], u))
        none refl tt)

pub match_packet-Parts : (s : List ℕ) → Ensures (Parts s) (match_packet s)
unfolding match_packet
match_packet-Parts [] = tt
match_packet-Parts (c ∷ s) = elim (Bool-cases (c == b'#')) [
  | inl sharp ↦ sharp-Parts c s sharp
  | inr other ↦ elim (Bool-cases (c == b'$')) [
    | inl dollar ↦ rw (match_packet, other, dollar) tt
    | inr plain ↦
        rw (match_packet, other, plain)
          (Ensures-bind (Parts s) (Parts (c ∷ s)) (match_packet s) _ (match_packet-Parts s)
            λ r same. ap (λ (t : List ℕ). c ∷ t) same)
  ]
]

-- The characters that a token takes.
abbrev pub token_text : Token → List ℕ
token_text Token.ack = b'+' ∷ []
token_text Token.retransmission = b'-' ∷ []
token_text Token.line_end = 10 ∷ []
token_text (Token.packet text) = text
token_text (Token.character c) = c ∷ []

-- The token at the head of an input takes its first character, and maybe more.
Takes : ℕ → List ℕ → Token × List ℕ → Type 0
Takes c s r = (token_text r.0 ++ r.1 ≡ c ∷ s) × (length r.1 ≤ length s)

dollar-Takes :
    (c : ℕ) (s : List ℕ)
    → (c == b'+') ≡ false
    → (c == b'-') ≡ false
    → (c == b'$') ≡ true
    → Takes c s (next_token c s)
unfolding Takes next_token
dollar-Takes c s no_plus no_minus dollar = elim (Option-cases (match_packet s)) [
  | inl e ↦ rw (next_token, no_plus, no_minus, dollar, e) (refl, omega arith)
  | inr (r, e) ↦
      let h = match_packet-Parts s in
      let h' : Parts s r = rw e at h in
      let count : length s ≡ length r.0 + length r.1 = ap length h' ∙ length-++ r.0 r.1 in
      rw (next_token, no_plus, no_minus, dollar, e)
        (ap (λ (t : List ℕ). c ∷ t) (sym h'), omega (arith, count))
]

next_token-Takes : (c : ℕ) (s : List ℕ) → Takes c s (next_token c s)
unfolding Takes next_token
next_token-Takes c s = elim (Bool-cases (c == b'+')) [
  | inl plus ↦ let same = ==→eq c (b'+') plus in rw (next_token, plus) (rw same refl, omega arith)
  | inr no_plus ↦ elim (Bool-cases (c == b'-')) [
    | inl minus ↦
        let same = ==→eq c (b'-') minus in
        rw (next_token, no_plus, minus) (rw same refl, omega arith)
    | inr no_minus ↦ elim (Bool-cases (c == b'$')) [
      | inl dollar ↦ dollar-Takes c s no_plus no_minus dollar
      | inr other ↦ elim (Bool-cases (c == 10)) [
        | inl line ↦
            let same = ==→eq c 10 line in
            rw (next_token, no_plus, no_minus, other, line) (rw same refl, omega arith)
        | inr plain ↦ rw (next_token, no_plus, no_minus, other, plain) (refl, omega arith)
      ]
    ]
  ]
]

-- The tokens that an input is read as, from its head to its end.
pub data Reads : List ℕ → List Token → Type 0 where
  end : Reads [] []
  token :
      {c : ℕ} {s : List ℕ} {tokens : List Token}
      → Reads (next_token c s).1 tokens
      → Reads (c ∷ s) ((next_token c s).0 ∷ tokens)

abbrev pub texts : List Token → List ℕ
texts [] = []
texts (t ∷ tokens) = token_text t ++ texts tokens

abbrev pub count : List Token → ℕ
count [] = 0
count (t ∷ tokens) = suc (count tokens)

-- The actions of the tokens in their order, and the end of the input.
abbrev pub act_all : ℕ → Machine → Parser → List Token → Option Parser
act_all fuel m parser' [] = handle_error parser'
act_all fuel m parser' (t ∷ tokens) =
    act fuel m parser' t >>= λ parser''. act_all fuel m parser'' tokens

-- Every input is read to its end.
tokens_of :
    (n : ℕ) (input : List ℕ)
    → length input < n
    → (tokens : List Token) × Reads input tokens
      × (texts tokens ≡ input)
      × (count tokens ≤ length input)
unfolding Takes
tokens_of zero input enough = absurd (omega arith)
tokens_of (suc n) [] enough = ([], Reads.end, refl, omega arith)
tokens_of (suc n) (c ∷ s) enough =
    let takes = next_token-Takes c s in
    let (tokens, reads, same, few) = tokens_of n (next_token c s).1 (omega (arith, takes.1)) in
    (
      (next_token c s).0 ∷ tokens,
      Reads.token reads,
      ap (λ (t : List ℕ). token_text (next_token c s).0 ++ t) same ∙ takes.0,
      omega (arith, takes.1),
    )

module _ (fuel : ℕ) (m : Machine) where
  run-Reads :
      (rounds : ℕ) (parser' : Parser) {input : List ℕ} {tokens : List Token}
      → length input < rounds
      → Reads input tokens
      → yylex rounds fuel m parser' input ≡ act_all fuel m parser' tokens
  unfolding yylex Takes
  run-Reads zero parser' enough reads = absurd (omega arith)
  run-Reads (suc rounds) parser' enough end = refl
  run-Reads (suc rounds) parser' enough (token {c} {s} reads) =
      let takes = next_token-Takes c s in
      ap (λ (f : Parser → Option Parser). act fuel m parser' (next_token c s).0 >>= f)
        (fun_ext λ parser''. run-Reads rounds parser'' (omega (arith, takes.1)) reads)

-- Every input is read to its end as tokens whose texts are the input, each with a character at
-- least; and the scanner, with more rounds than the input has characters, does what the actions of
-- these tokens and the end of the input do one after the other, whatever they are: it never runs out
-- of rounds.
pub yylex-act_all :
    (rounds fuel : ℕ) (m : Machine) (parser' : Parser) (input : List ℕ)
    → length input < rounds
    → (tokens : List Token) × Reads input tokens
      × (texts tokens ≡ input)
      × (count tokens ≤ length input)
      × (yylex rounds fuel m parser' input ≡ act_all fuel m parser' tokens)
yylex-act_all rounds fuel m parser' input enough =
    let (tokens, reads, same, few) = tokens_of rounds input enough in
    (tokens, reads, same, few, run-Reads fuel m rounds parser' enough reads)
