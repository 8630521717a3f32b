-- ===== src/Scanner/Automaton/Transitions.antt =====
-- The states that the automaton reaches, character by character.
use projet_l3_inf_bn_zl_rj_r.Prelude.{
  ℕ, ◌<◌, ◌≡◌, ◌==◌, true, if◌then◌else◌, all_below, all_below_sound, ==→eq, refl,
}
use projet_l3_inf_bn_zl_rj_r.Libc.{is_digit, digit_value}
use projet_l3_inf_bn_zl_rj_r.Scanner.{is_hex}
use projet_l3_inf_bn_zl_rj_r.Scanner.Automaton.{
  element, yy_ec, yy_meta, yy_base, yy_def, yy_nxt, yy_chk, class, transition,
}

-- The first character.
abbrev pub first_state : ℕ → ℕ
first_state c =
    if c == b'+'
    then 7
    else if c == b'-'
    then 8
    else if c == b'$'
    then 6
    else if c == 10
    then 5
    else 4

-- A character of the text of a packet.
abbrev pub text_state : ℕ → ℕ
text_state c = if c == b'#' then 10 else if c == b'$' then 13 else 9

-- What holds of all bytes is tried on each.
tried :
    (state : ℕ) (expected : ℕ → ℕ) (c : ℕ)
    → all_below 256 (λ d. transition 3 state (class d) == expected d) ≡ true
    → c < 256
    → transition 3 state (class c) ≡ expected c
tried state expected c run small =
    ==→eq _ _ (all_below_sound 256 (λ d. transition 3 state (class d) == expected d) c run small)

pub transition_first : (c : ℕ) → c < 256 → transition 3 1 (class c) ≡ first_state c
unfolding all_below transition class element yy_ec yy_meta yy_base yy_def yy_nxt yy_chk
transition_first c small = tried 1 first_state c refl small

pub transition_dollar : (c : ℕ) → c < 256 → transition 3 6 (class c) ≡ text_state c
unfolding all_below transition class element yy_ec yy_meta yy_base yy_def yy_nxt yy_chk
transition_dollar c small = tried 6 text_state c refl small

pub transition_text : (c : ℕ) → c < 256 → transition 3 9 (class c) ≡ text_state c
unfolding all_below transition class element yy_ec yy_meta yy_base yy_def yy_nxt yy_chk
transition_text c small = tried 9 text_state c refl small

pub transition_digit : (c : ℕ) → c < 256 → transition 3 10 (class c) ≡ (if is_hex c then 11 else 13)
unfolding all_below transition class element yy_ec yy_meta yy_base yy_def yy_nxt yy_chk is_hex
    is_digit digit_value
transition_digit c small = tried 10 (λ d. if is_hex d then 11 else 13) c refl small

pub transition_last : (c : ℕ) → c < 256 → transition 3 11 (class c) ≡ (if is_hex c then 12 else 13)
unfolding all_below transition class element yy_ec yy_meta yy_base yy_def yy_nxt yy_chk is_hex
    is_digit digit_value
transition_last c small = tried 11 (λ d. if is_hex d then 12 else 13) c refl small
