-- ===== src/Tests/Turns.antt =====
-- Tokens, interrupts and their turns at concrete inputs.
use projet_l3_inf_bn_zl_rj_r.Prelude.{ℕ, ◌≡◌, ◌↔◌, some, [], refl, arith}
use projet_l3_inf_bn_zl_rj_r.Libc.{codes}
use projet_l3_inf_bn_zl_rj_r.Registers.{registers_create}
use projet_l3_inf_bn_zl_rj_r.Memory.{Memory, memory_create, memory_get_size}
use projet_l3_inf_bn_zl_rj_r.Core.{Arm, arm_write_register}
use projet_l3_inf_bn_zl_rj_r.Constants.{reset}
use projet_l3_inf_bn_zl_rj_r.Exception.{arm_create, arm_exception, take_exception}
use projet_l3_inf_bn_zl_rj_r.Scanner.{Token, next_token, act, add_character_to_error}
use projet_l3_inf_bn_zl_rj_r.Scanner.Bounds.{IsParser}
use projet_l3_inf_bn_zl_rj_r.Scanner.Automaton.{matched_token}
use projet_l3_inf_bn_zl_rj_r.Scanner.Automaton.Rules.{matched_token-next_token}
use projet_l3_inf_bn_zl_rj_r.Simulator.{memory_size, launch, connect, irq_listener, Reaches}
use projet_l3_inf_bn_zl_rj_r.Simulator.Safety.{Reaches-IsParser}
use projet_l3_inf_bn_zl_rj_r.Names.{chosen_irq, arm_get_exception_name}
use projet_l3_inf_bn_zl_rj_r.Names.Lookup.{chosen_irq-name}
use projet_l3_inf_bn_zl_rj_r.Tests.{machine}

matched_token-next_token_example :
    matched_token (b'$') (codes "m#01+") ≡ next_token (b'$') (codes "m#01+")
matched_token-next_token_example =
    matched_token-next_token (b'$') (codes "m#01+") (omega arith)
      (omega arith, (omega arith, (omega arith, (omega arith, (omega arith, tt)))))

abbrev zeros : ℕ → ℕ
zeros i = 0

abbrev blank : Memory
blank = record { size = memory_size; cells = zeros }

abbrev raw : Arm
raw = record { cycle_count = 0; reg = record { registre = zeros }; mem = blank; printed = [] }

abbrev created : Arm
created = arm_write_register (take_exception raw reset).1 13 memory_size

launched : launch machine zeros zeros ≡ some created
unfolding launch memory_create registers_create arm_create arm_exception memory_get_size
launched = refl

-- The character x arrives from the debugger, and then an interrupt.
turns :
    Reaches machine (connect created zeros) (record (connect created zeros) { buffer = codes "x" })
unfolding act add_character_to_error irq_listener arm_exception take_exception
turns = Reaches.interrupt 4 (Reaches.token 0 (Token.character (b'x')) Reaches.begin refl) refl

Reaches-IsParser_example : IsParser (record (connect created zeros) { buffer = codes "x" })
Reaches-IsParser_example =
    Reaches-IsParser machine zeros zeros zeros created
      (record (connect created zeros) { buffer = codes "x" }) (λ i. omega arith) (λ i. omega arith)
      launched turns

chosen_irq-name_example :
    chosen_irq (some (codes "data abort")) ≡ some 2
    ↔ arm_get_exception_name 2 ≡ some (codes "data abort")
chosen_irq-name_example = chosen_irq-name (codes "data abort") 2
