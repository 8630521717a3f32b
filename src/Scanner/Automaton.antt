-- ===== src/Scanner/Automaton.antt =====
-- scanner.c: the tables of the automaton that flex has made of the rules, and the match of a token. A
-- byte 0 is of class 1, as in yy_try_NUL_trans; the matching of the buffer's end is replaced by the end
-- of the list.
pub mod Transitions
pub mod Rules
use projet_l3_inf_bn_zl_rj_r.Prelude.{
  ℕ, zero, suc, ◌+◌, ◌-◌, leb, ◌==◌, Bool, true, false, if◌then◌else◌, List, [], ◌∷◌,
}
use projet_l3_inf_bn_zl_rj_r.Libc.{take}
use projet_l3_inf_bn_zl_rj_r.Scanner.{Token}

-- An element of a table.
unfoldable pub element : List ℕ → ℕ → ℕ
element [] i = 0
element (x ∷ s) zero = x
element (x ∷ s) (suc i) = element s i

unfoldable pub yy_accept : List ℕ
yy_accept = 0 ∷ 0 ∷ 0 ∷ 6 ∷ 4 ∷ 5 ∷ 4 ∷ 1 ∷ 2 ∷ 0 ∷ 0 ∷ 0 ∷ 3 ∷ 0 ∷ []

unfoldable pub yy_ec : List ℕ
yy_ec =
    0 ∷ 1 ∷ 1 ∷ 1 ∷ 1 ∷ 1 ∷ 1 ∷ 1 ∷ 1 ∷ 1 ∷ 2 ∷ 1 ∷ 1 ∷ 1 ∷ 1 ∷ 1 ∷ 1 ∷ 1 ∷ 1 ∷ 1 ∷ 1 ∷ 1 ∷ 1 ∷ 1
    ∷ 1 ∷ 1 ∷ 1 ∷ 1 ∷ 1 ∷ 1 ∷ 1 ∷ 1 ∷ 1 ∷ 1 ∷ 1 ∷ 3 ∷ 4 ∷ 1 ∷ 1 ∷ 1 ∷ 1 ∷ 1 ∷ 1 ∷ 5 ∷ 1 ∷ 6 ∷ 1 ∷ 1
    ∷ 7 ∷ 7 ∷ 7 ∷ 7 ∷ 7 ∷ 7 ∷ 7 ∷ 7 ∷ 7 ∷ 7 ∷ 1 ∷ 1 ∷ 1 ∷ 1 ∷ 1 ∷ 1 ∷ 1 ∷ 7 ∷ 7 ∷ 7 ∷ 7 ∷ 7 ∷ 7 ∷ 1
    ∷ 1 ∷ 1 ∷ 1 ∷ 1 ∷ 1 ∷ 1 ∷ 1 ∷ 1 ∷ 1 ∷ 1 ∷ 1 ∷ 1 ∷ 1 ∷ 1 ∷ 1 ∷ 1 ∷ 1 ∷ 1 ∷ 1 ∷ 1 ∷ 1 ∷ 1 ∷ 1 ∷ 1
    ∷ 1 ∷ 7 ∷ 7 ∷ 7 ∷ 7 ∷ 7 ∷ 7 ∷ 1 ∷ 1 ∷ 1 ∷ 1 ∷ 1 ∷ 1 ∷ 1 ∷ 1 ∷ 1 ∷ 1 ∷ 1 ∷ 1 ∷ 1 ∷ 1 ∷ 1 ∷ 1 ∷ 1
    ∷ 1 ∷ 1 ∷ 1 ∷ 1 ∷ 1 ∷ 1 ∷ 1 ∷ 1 ∷ 1 ∷ 1 ∷ 1 ∷ 1 ∷ 1 ∷ 1 ∷ 1 ∷ 1 ∷ 1 ∷ 1 ∷ 1 ∷ 1 ∷ 1 ∷ 1 ∷ 1 ∷ 1
    ∷ 1 ∷ 1 ∷ 1 ∷ 1 ∷ 1 ∷ 1 ∷ 1 ∷ 1 ∷ 1 ∷ 1 ∷ 1 ∷ 1 ∷ 1 ∷ 1 ∷ 1 ∷ 1 ∷ 1 ∷ 1 ∷ 1 ∷ 1 ∷ 1 ∷ 1 ∷ 1 ∷ 1
    ∷ 1 ∷ 1 ∷ 1 ∷ 1 ∷ 1 ∷ 1 ∷ 1 ∷ 1 ∷ 1 ∷ 1 ∷ 1 ∷ 1 ∷ 1 ∷ 1 ∷ 1 ∷ 1 ∷ 1 ∷ 1 ∷ 1 ∷ 1 ∷ 1 ∷ 1 ∷ 1 ∷ 1
    ∷ 1 ∷ 1 ∷ 1 ∷ 1 ∷ 1 ∷ 1 ∷ 1 ∷ 1 ∷ 1 ∷ 1 ∷ 1 ∷ 1 ∷ 1 ∷ 1 ∷ 1 ∷ 1 ∷ 1 ∷ 1 ∷ 1 ∷ 1 ∷ 1 ∷ 1 ∷ 1 ∷ 1
    ∷ 1 ∷ 1 ∷ 1 ∷ 1 ∷ 1 ∷ 1 ∷ 1 ∷ 1 ∷ 1 ∷ 1 ∷ 1 ∷ 1 ∷ 1 ∷ 1 ∷ 1 ∷ 1 ∷ 1 ∷ 1 ∷ 1 ∷ 1 ∷ 1 ∷ 1 ∷ 1 ∷ 1
    ∷ 1 ∷ 1 ∷ 1 ∷ 1 ∷ 1 ∷ 1 ∷ 1 ∷ 1 ∷ 1 ∷ 1 ∷ 1 ∷ 1 ∷ 1 ∷ 1 ∷ 1 ∷ 1 ∷ []

unfoldable pub yy_meta : List ℕ
yy_meta = 0 ∷ 1 ∷ 1 ∷ 1 ∷ 2 ∷ 1 ∷ 1 ∷ 1 ∷ []

unfoldable pub yy_base : List ℕ
yy_base = 0 ∷ 0 ∷ 0 ∷ 13 ∷ 14 ∷ 14 ∷ 9 ∷ 14 ∷ 14 ∷ 8 ∷ 3 ∷ 2 ∷ 14 ∷ 14 ∷ 7 ∷ []

unfoldable pub yy_def : List ℕ
yy_def = 0 ∷ 13 ∷ 1 ∷ 13 ∷ 13 ∷ 13 ∷ 14 ∷ 13 ∷ 13 ∷ 14 ∷ 13 ∷ 13 ∷ 13 ∷ 0 ∷ 13 ∷ []

unfoldable pub yy_nxt : List ℕ
yy_nxt =
    0 ∷ 4 ∷ 5 ∷ 4 ∷ 6 ∷ 7 ∷ 8 ∷ 4 ∷ 9 ∷ 12 ∷ 11 ∷ 10 ∷ 10 ∷ 13 ∷ 3 ∷ 13 ∷ 13 ∷ 13 ∷ 13 ∷ 13 ∷ 13
    ∷ 13 ∷ []

unfoldable pub yy_chk : List ℕ
yy_chk =
    0 ∷ 1 ∷ 1 ∷ 1 ∷ 1 ∷ 1 ∷ 1 ∷ 1 ∷ 14 ∷ 11 ∷ 10 ∷ 9 ∷ 6 ∷ 3 ∷ 13 ∷ 13 ∷ 13 ∷ 13 ∷ 13 ∷ 13 ∷ 13 ∷ 13
    ∷ []

-- The class of a character.
unfoldable pub class : ℕ → ℕ
class c = if c == 0 then 1 else element yy_ec c

-- The inner loop of a match: the state behind a character of class `c`. A state has at most two
-- defaults behind it, for which three rounds are enough.
unfoldable pub transition : ℕ → ℕ → ℕ → ℕ
transition zero state c = 0
transition (suc rounds) state c =
    let next = element yy_def state in
    let rest = transition rounds next (if leb 14 next then element yy_meta c else c) in
    if element yy_chk (element yy_base state + c) == state
    then element yy_nxt (element yy_base state + c)
    else rest

-- `yy_find_action`, in a state behind `count` characters, with the last accepting state and its
-- place: the action and how many characters it takes.
unfoldable pub find_action : ℕ → ℕ → ℕ × ℕ → ℕ × ℕ
find_action state count last =
    if element yy_accept state == 0
    then (element yy_accept last.0, last.1)
    else (element yy_accept state, count)

-- The last accepting state, when a match stands in a state.
unfoldable pub accepted : ℕ → ℕ → ℕ × ℕ → ℕ × ℕ
accepted state count last = if element yy_accept state == 0 then last else (state, count)

-- The loop `yy_match`, from a state behind `count` characters.
unfoldable pub yy_match : List ℕ → ℕ → ℕ → ℕ × ℕ → ℕ × ℕ
yy_match [] state count last = find_action state count (accepted state count last)
yy_match (c ∷ s) state count last =
    let next = transition 3 state (class c) in
    let last' = accepted state count last in
    let rest = yy_match s next (count + 1) last' in
    if element yy_base next == 14 then find_action next (count + 1) last' else rest

unfoldable pub drop : ℕ → List ℕ → List ℕ
drop zero s = s
drop (suc n) [] = []
drop (suc n) (c ∷ s) = drop n s

-- The switch on the action, for an input whose first character is `c`.
unfoldable pub token_of : ℕ × ℕ → ℕ → List ℕ → Token × List ℕ
token_of (act, count) c s =
    let follows = drop count (c ∷ s) in
    if act == 1
    then (Token.ack, follows)
    else if act == 2
    then (Token.retransmission, follows)
    else if act == 3
    then (Token.packet (take count (c ∷ s)), follows)
    else if act == 4
    then (Token.character c, follows)
    else (Token.line_end, follows)

-- A token at the head of an input, from the first state on.
unfoldable pub matched_token : ℕ → List ℕ → Token × List ℕ
matched_token c s = token_of (yy_match (c ∷ s) 1 0 (0, 0)) c s
