-- ===== src/Names.antt =====
-- arm_constants.c: the names of modes, registers and exceptions, and the choice of an interrupt by its
-- name in send_irq.c. The rest of send_irq.c writes a help text and sends the byte on a socket.
pub mod Lookup
use projet_l3_inf_bn_zl_rj_r.Prelude.{
  ℕ, zero, suc, ◌+◌, ltb, ◌==◌, Bool, true, false, if◌then◌else◌, List, [], ◌∷◌, Option, none, some,
  ℤ, pos, negsuc, u8,
}
use projet_l3_inf_bn_zl_rj_r.Constants.{reset, interrupt}
use projet_l3_inf_bn_zl_rj_r.Libc.{codes, same_text}

-- The arrays of names; `none` is NULL.
abbrev pub Names : Type 0
Names = List (Option (List ℕ))

-- An element of an array: `none` outside it.
unfoldable pub entry {ℓ} : {A : Type ℓ} → List A → ℕ → Option A
entry [] i = none
entry (x ∷ s) zero = some x
entry (x ∷ s) (suc i) = entry s i

unfoldable pub arm_mode_names : Names
arm_mode_names =
    none
    ∷ none
    ∷ none
    ∷ none
    ∷ none
    ∷ none
    ∷ none
    ∷ none
    ∷ none
    ∷ none
    ∷ none
    ∷ none
    ∷ none
    ∷ none
    ∷ none
    ∷ none
    ∷ some (codes "USR")
    ∷ some (codes "FIQ")
    ∷ some (codes "IRQ")
    ∷ some (codes "SVC")
    ∷ none
    ∷ none
    ∷ none
    ∷ some (codes "ABT")
    ∷ none
    ∷ none
    ∷ none
    ∷ some (codes "UND")
    ∷ none
    ∷ none
    ∷ none
    ∷ some (codes "SYS")
    ∷ []

unfoldable pub arm_register_names : List (List ℕ)
arm_register_names =
    codes "R00"
    ∷ codes "R01"
    ∷ codes "R02"
    ∷ codes "R03"
    ∷ codes "R04"
    ∷ codes "R05"
    ∷ codes "R06"
    ∷ codes "R07"
    ∷ codes "R08"
    ∷ codes "R09"
    ∷ codes "R10"
    ∷ codes "R11"
    ∷ codes "R12"
    ∷ codes "SP"
    ∷ codes "LR"
    ∷ codes "PC"
    ∷ codes "CPSR"
    ∷ codes "SPSR"
    ∷ []

unfoldable pub arm_exception_names : Names
arm_exception_names =
    none
    ∷ some (codes "reset")
    ∷ some (codes "data abort")
    ∷ some (codes "fast interrupt")
    ∷ some (codes "interrupt")
    ∷ some (codes "imprecise abort")
    ∷ some (codes "prefetch abort")
    ∷ some (codes "undefined instruction")
    ∷ some (codes "software interrupt")
    ∷ []

-- A NULL that is in the array, and one that is returned for it, are the same.
unfoldable pub arm_get_exception_name : ℕ → Option (List ℕ)
arm_get_exception_name exception =
    if ltb exception 8
    then elim (entry arm_exception_names exception) [ none ↦ none | some name ↦ name ]
    else none

unfoldable pub arm_get_mode_name : ℕ → Option (Option (List ℕ))
arm_get_mode_name mode = entry arm_mode_names mode

-- Whether a name is there and is the given one.
unfoldable pub is_name : Option (List ℕ) → List ℕ → Bool
is_name none name = false
is_name (some text) name = same_text name text

-- The loop over the modes, from `i` on.
unfoldable pub mode_number : Names → ℕ → List ℕ → ℤ
mode_number [] i name = negsuc 0
mode_number (text ∷ rest) i name =
    let later = mode_number rest (i + 1) name in if is_name text name then pos i else later

unfoldable pub arm_get_mode_number : List ℕ → ℤ
arm_get_mode_number name = mode_number arm_mode_names 0 name

unfoldable pub arm_get_register_name : ℕ → Option (List ℕ)
arm_get_register_name reg = entry arm_register_names reg

-- The loop of send_irq.c over the names of exceptions, from `irq` on, with `rounds` left. It ends at a
-- NULL, which stands at 8 at the latest.
unfoldable pub search_irq : ℕ → ℕ → List ℕ → Option ℕ
search_irq zero irq name = none
search_irq (suc rounds) irq name =
    let later = search_irq rounds (u8 (irq + 1)) name in
    elim (arm_get_exception_name irq) [
      | none ↦ none
      | some text ↦ if same_text text name then some irq else later
    ]

-- The byte that send_irq.c sends for its third argument; `none` where it gives up.
unfoldable pub chosen_irq : Option (List ℕ) → Option ℕ
chosen_irq none = some interrupt
chosen_irq (some name) = search_irq 8 reset name
