-- ===== src/Gdb/AddressSet.antt =====
-- The set of addresses that the table of breakpoints stands for: a list without repetition, with the
-- operations that the debugger asks of the table.
use projet_l3_inf_bn_zl_rj_r.Prelude.{
  ℕ, suc, ◌+◌, ◌≡◌, refl, Bool, true, false, not, ◌||◌, ◌&&◌, ◌==◌, ltb, if◌then◌else◌, List, [],
  ◌∷◌, arith, Bool-cases, inl, inr,
}
use projet_l3_inf_bn_zl_rj_r.Gdb.{max_breakpoints_number}

abbrev pub length : List ℕ → ℕ
length [] = 0
length (x ∷ s) = suc (length s)

abbrev pub contains : List ℕ → ℕ → Bool
contains [] y = false
contains (x ∷ s) y = x == y || contains s y

abbrev pub without : List ℕ → ℕ → List ℕ
without [] y = []
without (x ∷ s) y = let rest = without s y in if x == y then s else x ∷ rest

abbrev pub Distinct : List ℕ → Type 0
Distinct [] = Unit
Distinct (x ∷ s) = (contains s x ≡ false) × Distinct s

pub contains-without :
    (s : List ℕ) (y z : ℕ) → Distinct s → contains (without s y) z ≡ (contains s z && not (z == y))
contains-without [] y z h = refl
contains-without (x ∷ s) y z (fresh, h) = elim (Bool-cases (x == y)) [
  | inl here ↦
      let e : x ≡ y = ground arith in
      let fresh' : contains s y ≡ false = rw (← e) fresh in
      elim (Bool-cases (z == y)) [
        | inl same ↦ let e' : z ≡ y = ground arith in rw (e, e') (ground arith)
        | inr other ↦ rw here (ground arith)
      ]
  | inr further ↦ rw further (ground (arith, contains-without s y z h))
]

pub length-without :
    (s : List ℕ) (y : ℕ) → contains s y ≡ true → length (without s y) + 1 ≡ length s
length-without [] y h = absurd (cc)
length-without (x ∷ s) y h = ground (arith, length-without s y)

pub without-Distinct : (s : List ℕ) (y : ℕ) → Distinct s → Distinct (without s y)
without-Distinct [] y h = tt
without-Distinct (x ∷ s) y (fresh, h) = elim (Bool-cases (x == y)) [
  | inl here ↦ rw here h
  | inr further ↦ rw further (ground (arith, contains-without s y x h), without-Distinct s y h)
]

-- An edit of the table: a breakpoint is set, cleared or looked for.
pub data Edit : Type 0 where
  add : ℕ → Edit
  remove : ℕ → Edit
  find : ℕ → Edit

-- What a set of at most 1024 addresses answers. A full set takes no address, not even one that it
-- has.
abbrev pub set_edit : Edit → List ℕ → ℕ × List ℕ
set_edit (add x) s =
    if ltb (length s) max_breakpoints_number then (1, if contains s x then s else x ∷ s) else (0, s)
set_edit (remove x) s = if contains s x then (1, without s x) else (0, s)
set_edit (find x) s = (if contains s x then 1 else 0, s)

-- The answers of the set to a list of edits, and the set behind them.
abbrev pub set_edits : List Edit → List ℕ → List ℕ × List ℕ
set_edits [] s = ([], s)
set_edits (e ∷ es) s =
    let step = set_edit e s in let rest = set_edits es step.1 in (step.0 ∷ rest.0, rest.1)
