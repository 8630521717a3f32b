-- ===== src/Simulator/Safety.antt =====
-- The states of the running simulator.
use projet_l3_inf_bn_zl_rj_r.Prelude.{
  ℕ, ◌^◌, ◌<◌, ◌≡◌, List, [], ◌∷◌, zero, suc, some, inl, inr, Option-cases, sym,
}
use projet_l3_inf_bn_zl_rj_r.Machine.{Machine}
use projet_l3_inf_bn_zl_rj_r.Registers.{registers_create}
use projet_l3_inf_bn_zl_rj_r.Memory.{Memory, memory_create}
use projet_l3_inf_bn_zl_rj_r.Core.{Arm}
use projet_l3_inf_bn_zl_rj_r.Exception.{arm_exception}
use projet_l3_inf_bn_zl_rj_r.Valid.{IsValid, Ensures, Ensures-bind, Leaves}
use projet_l3_inf_bn_zl_rj_r.Valid.Step.{exception-Ensures, arm_create_lem}
use projet_l3_inf_bn_zl_rj_r.Gdb.Session.{with_arm}
use projet_l3_inf_bn_zl_rj_r.Scanner.{Parser, act, next_token, yylex}
use projet_l3_inf_bn_zl_rj_r.Scanner.Bounds.{IsParser, act-Ensures, emptied-Ensures, fresh-IsParser}
use projet_l3_inf_bn_zl_rj_r.Simulator.{memory_size, launch, connect, irq_listener, Reaches}

irq-Ensures :
    (m : Machine) (parser : Parser) (irq : ℕ)
    → IsParser parser
    → Ensures IsParser (irq_listener m parser irq)
unfolding irq_listener
irq-Ensures m parser irq valid =
    Ensures-bind Leaves IsParser (arm_exception m parser.gdb.arm irq) _
      (exception-Ensures m irq valid.session.valid)
      λ r valid'. record {
        session = with_arm r.1 parser.gdb.target_exception valid.session valid';
        room = valid.room;
      }

kept-IsParser : (m : Machine) (start p : Parser) → IsParser start → Reaches m start p → IsParser p
kept-IsParser m start p valid Reaches.begin = valid
kept-IsParser m start p valid (Reaches.token {p = q} fuel t before e) =
    let h = act-Ensures fuel m q t (kept-IsParser m start q valid before) in rw e at h
kept-IsParser m start p valid (Reaches.end_of_input {p = q} before e) =
    let h = emptied-Ensures q (kept-IsParser m start q valid before) in rw e at h
kept-IsParser m start p valid (Reaches.interrupt {p = q} irq before e) =
    let h = irq-Ensures m q irq (kept-IsParser m start q valid before) in rw e at h

launch-IsValid :
    (m : Machine) (words bytes : ℕ → ℕ) (arm : Arm)
    → ((i : ℕ) → words i < 2 ^ 32)
    → ((i : ℕ) → bytes i < 2 ^ 8)
    → launch m words bytes ≡ some arm
    → IsValid arm
unfolding launch memory_create registers_create
launch-IsValid m words bytes arm fit fit' e =
    let mem : Memory = record { size = memory_size; cells = bytes } in
    let made = arm_create_lem m (registers_create words) mem fit fit' in
    let same : made.0 ≡ arm = cc in rw (sym same) made.2

-- Whatever words and bytes the allocations of main leave, and in whatever order the tokens of the
-- debugger and the bytes of the interrupts are served, while every turn has a defined outcome the
-- simulator keeps a well-formed processor, a table of at most 1024 breakpoints that ascends and
-- holds words, and an invalid text that leaves room for its NUL.
pub Reaches-IsParser :
    (m : Machine) (words bytes content : ℕ → ℕ) (arm : Arm) (p : Parser)
    → ((i : ℕ) → words i < 2 ^ 32)
    → ((i : ℕ) → bytes i < 2 ^ 8)
    → launch m words bytes ≡ some arm
    → Reaches m (connect arm content) p
    → IsParser p
Reaches-IsParser m words bytes content arm p fit fit' e run =
    kept-IsParser m (connect arm content) p
      (fresh-IsParser arm content (launch-IsValid m words bytes arm fit fit' e)) run

-- What the scanner leaves at the end of its input is reached by the tokens of the input.
pub yylex-Reaches :
    (rounds fuel : ℕ) (m : Machine) (start p q : Parser) (input : List ℕ)
    → Reaches m start p
    → yylex rounds fuel m p input ≡ some q
    → Reaches m start q
unfolding yylex
yylex-Reaches zero fuel m start p q input run e = absurd (cc)
yylex-Reaches (suc rounds) fuel m start p q [] run e = Reaches.end_of_input run e
yylex-Reaches (suc rounds) fuel m start p q (c ∷ s) run e =
    elim (Option-cases (act fuel m p (next_token c s).0)) [
      | inl stuck ↦ let e' = rw (yylex, stuck) at e in absurd (cc)
      | inr (next, h) ↦
          yylex-Reaches rounds fuel m start next q (next_token c s).1
            (Reaches.token fuel (next_token c s).0 run h) (rw (yylex, h) at e)
    ]
