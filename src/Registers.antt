-- ===== src/Registers.antt =====
-- registers.c: the array of 37 registers and the choice of the bank by the processor mode.
-- `malloc` leaves the array with whatever it holds; its content is the argument of
-- `registers_create`. The functions are called with registers 0 to 17 only, whose cells are below 37.
pub mod Bank
pub mod Modes
use projet_l3_inf_bn_zl_rj_r.Prelude.{
  ℕ, ◌+◌, ◌^◌, ◌%◌, Bool, true, false, ◌||◌, ◌==◌, if◌then◌else◌, bit_and, u8,
}
use projet_l3_inf_bn_zl_rj_r.Constants.{usr, fiq, irq, svc, abt, und, sys, cpsr}

pub record Registers : Type 0 where
  pub registre : ℕ → ℕ

unfoldable pub registers_create : (ℕ → ℕ) → Registers
registers_create content = record { registre = content }

-- The assignment `r->registre[i] = value`.
abbrev pub assign : Registers → ℕ → ℕ → Registers
assign r i value = record { registre = λ j. if j == i then value else r.registre j }

unfoldable pub registers_get_mode : Registers → ℕ
registers_get_mode r = bit_and (u8 (r.registre cpsr)) 0x1f

unfoldable pub registers_mode_has_spsr : ℕ → Bool
registers_mode_has_spsr mode = if mode == usr || mode == sys then false else true

unfoldable pub registers_current_mode_has_spsr : Registers → Bool
unfolding registers_mode_has_spsr registers_get_mode
registers_current_mode_has_spsr r = registers_mode_has_spsr (registers_get_mode r)

unfoldable pub registers_in_a_privileged_mode : Registers → Bool
unfolding registers_get_mode
registers_in_a_privileged_mode r = if registers_get_mode r == usr then false else true

unfoldable pub registers_read_cpsr : Registers → ℕ
registers_read_cpsr r = r.registre cpsr

unfoldable pub registers_read_spsr : Registers → ℕ → ℕ
unfolding registers_mode_has_spsr
registers_read_spsr r mode =
    if registers_mode_has_spsr mode
    then (if mode == svc
        then r.registre 19
        else if mode == abt
        then r.registre 22
        else if mode == und
        then r.registre 25
        else if mode == irq
        then r.registre 28
        else if mode == fiq
        then r.registre 36
        else 0)
    else 0

unfoldable pub registers_read : Registers → ℕ → ℕ → ℕ
unfolding registers_read_spsr
registers_read r reg mode =
    if reg == 8
    then (if mode == fiq then r.registre 29 else r.registre 8)
    else if reg == 9
    then (if mode == fiq then r.registre 30 else r.registre 9)
    else if reg == 10
    then (if mode == fiq then r.registre 31 else r.registre 10)
    else if reg == 11
    then (if mode == fiq then r.registre 32 else r.registre 11)
    else if reg == 12
    then (if mode == fiq then r.registre 33 else r.registre 12)
    else if reg == 13
    then (if mode == svc
        then r.registre 17
        else if mode == abt
        then r.registre 20
        else if mode == und
        then r.registre 23
        else if mode == irq
        then r.registre 26
        else if mode == fiq
        then r.registre 34
        else if mode == usr || mode == sys
        then r.registre 13
        else 0)
    else if reg == 14
    then (if mode == svc
        then r.registre 18
        else if mode == abt
        then r.registre 21
        else if mode == und
        then r.registre 24
        else if mode == irq
        then r.registre 27
        else if mode == fiq
        then r.registre 35
        else if mode == usr || mode == sys
        then r.registre 14
        else 0)
    else if reg == 17
    then registers_read_spsr r mode
    else r.registre reg

unfoldable pub registers_write_cpsr : Registers → ℕ → Registers
registers_write_cpsr r value = assign r cpsr value

unfoldable pub registers_write_spsr : Registers → ℕ → ℕ → Registers
unfolding registers_mode_has_spsr
registers_write_spsr r mode value =
    if registers_mode_has_spsr mode
    then (if mode == svc
        then assign r 19 value
        else if mode == abt
        then assign r 22 value
        else if mode == und
        then assign r 25 value
        else if mode == irq
        then assign r 28 value
        else if mode == fiq
        then assign r 36 value
        else r)
    else r

-- `reg` is an index of the array, below 37, in every call of the code.
unfoldable pub registers_write : Registers → ℕ → ℕ → ℕ → Registers
unfolding registers_write_spsr
registers_write r reg mode value =
    if reg == 8
    then (if mode == fiq then assign r 29 value else assign r 8 value)
    else if reg == 9
    then (if mode == fiq then assign r 30 value else assign r 9 value)
    else if reg == 10
    then (if mode == fiq then assign r 31 value else assign r 10 value)
    else if reg == 11
    then (if mode == fiq then assign r 32 value else assign r 11 value)
    else if reg == 12
    then (if mode == fiq then assign r 33 value else assign r 12 value)
    else if reg == 13
    then (if mode == svc
        then assign r 17 value
        else if mode == abt
        then assign r 20 value
        else if mode == und
        then assign r 23 value
        else if mode == irq
        then assign r 26 value
        else if mode == fiq
        then assign r 34 value
        else if mode == usr || mode == sys
        then assign r 13 value
        else r)
    else if reg == 14
    then (if mode == svc
        then assign r 18 value
        else if mode == abt
        then assign r 21 value
        else if mode == und
        then assign r 24 value
        else if mode == irq
        then assign r 27 value
        else if mode == fiq
        then assign r 35 value
        else if mode == usr || mode == sys
        then assign r 14 value
        else r)
    else if reg == 17
    then registers_write_spsr r mode value
    else assign r reg value
