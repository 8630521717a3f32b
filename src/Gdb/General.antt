-- ===== src/Gdb/General.antt =====
-- The texts of the requests g and G: the words of the general registers, filler, and the status
-- register.
pub mod Words
pub mod Reply
use projet_l3_inf_bn_zl_rj_r.Prelude.{
  ℕ, zero, suc, ◌+◌, ◌^◌, ◌<◌, ◌≤◌, ◌≡◌, ◌≢◌, refl, sym, ap, ◌∙◌, Bool, true, false, ◌==◌, ltb,
  if◌then◌else◌, List, [], ◌∷◌, ◌++◌, Option, none, some, ◌>>=◌, bit_and, u8, arith, inl, inr,
  Option-cases, Bool-cases,
}
use projet_l3_inf_bn_zl_rj_r.Constants.{cpsr}
use projet_l3_inf_bn_zl_rj_r.Libc.{codes, print_hex}
use projet_l3_inf_bn_zl_rj_r.Registers.{
  Registers, registers_read, registers_write, registers_get_mode,
}
use projet_l3_inf_bn_zl_rj_r.Registers.Bank.{
  place, place_injective, place-ne-none, registers_read-read_at, registers_write-write_at,
  registers_read-write, IsMode, write_at,
}
use projet_l3_inf_bn_zl_rj_r.Registers.Modes.{read-write_same, read-write_other}
use projet_l3_inf_bn_zl_rj_r.Gdb.Handlers.{times}

-- The words `v reg`, `v (reg + 1)` and so on, `rounds` of them.
abbrev pub words : (ℕ → ℕ) → ℕ → ℕ → List ℕ
words v zero reg = []
words v (suc rounds) reg = print_hex 8 (v reg) ++ words v rounds (reg + 1)

-- The text for general registers that hold `v` and a status register that holds `psr`.
abbrev pub general_text : (ℕ → ℕ) → ℕ → List ℕ
general_text v psr =
    words v 16 0 ++ times 24 (codes "xxxxxxxx") ++ codes "xxxxxxxx" ++ print_hex 8 psr

pub words_cong :
    (v w : ℕ → ℕ) (rounds reg : ℕ)
    → ((k : ℕ) → reg ≤ k → k < reg + rounds → v k ≡ w k)
    → words v rounds reg ≡ words w rounds reg
words_cong v w zero reg same = refl
words_cong v w (suc rounds) reg same =
    rw
      (
        same reg (omega arith) (omega arith),
        words_cong v w rounds (reg + 1) (λ k h h'. same k (omega (arith, h)) (omega (arith, h'))),
      )
      refl

-- The registers `reg`, `reg + 1` and so on, `rounds` of them, after they have been written.
abbrev pub write_all : (ℕ → ℕ) → ℕ → ℕ → ℕ → Registers → Registers
write_all v zero reg mode r = r
write_all v (suc rounds) reg mode r =
    write_all v rounds (reg + 1) mode (registers_write r reg mode (v reg))

module _ (mode : ℕ) (valid : IsMode mode) where
  pub write_all_below :
      (v : ℕ → ℕ) (rounds reg k : ℕ) (r : Registers)
      → reg + rounds ≤ 16
      → k < reg
      → registers_read (write_all v rounds reg mode r) k mode ≡ registers_read r k mode
  write_all_below v zero reg k r fits below = refl
  write_all_below v (suc rounds) reg k r fits below =
      write_all_below v rounds (reg + 1) k _ (omega arith) (omega arith)
      ∙ read-write_other mode valid r reg (v reg) k (omega arith) (omega arith) (omega arith)

  pub write_all_read :
      (v : ℕ → ℕ) (rounds reg k : ℕ) (r : Registers)
      → reg + rounds ≤ 16
      → reg ≤ k
      → k < reg + rounds
      → registers_read (write_all v rounds reg mode r) k mode ≡ v k
  write_all_read v zero reg k r fits low high = absurd (omega arith)
  write_all_read v (suc rounds) reg k r fits low high = elim (Bool-cases (k == reg)) [
    | inl here ↦
        let e : k ≡ reg = ground arith in
        rw e (
          write_all_below v rounds (reg + 1) reg (registers_write r reg mode (v reg)) (omega arith)
            (omega arith)
          ∙ read-write_same mode valid r reg (v reg) (omega arith))
    | inr later ↦
        let above : reg + 1 ≤ k = ground arith in
        write_all_read v rounds (reg + 1) k (registers_write r reg mode (v reg)) (omega arith) above
          (omega arith)
  ]
