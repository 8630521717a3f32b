-- ===== src/Registers/Modes.antt =====
-- Writes of registers in one of the seven modes, where every register has a cell.
use projet_l3_inf_bn_zl_rj_r.Prelude.{
  ℕ, ◌≤◌, ◌≡◌, ◌≢◌, refl, sym, ap, ◌∙◌, true, false, ◌==◌, if◌then◌else◌, bit_and, u8, arith, inl,
  inr, Option-cases, Bool-cases,
}
use projet_l3_inf_bn_zl_rj_r.Registers.{
  Registers, registers_read, registers_write, registers_get_mode,
}
use projet_l3_inf_bn_zl_rj_r.Registers.Bank.{
  place, place_injective, place-ne-none, registers_read-write, IsMode,
}

module _ (mode : ℕ) (valid : IsMode mode) where
  pub read-write_same :
      (r : Registers) (reg value : ℕ)
      → reg ≤ 16
      → registers_read (registers_write r reg mode value) reg mode ≡ value
  read-write_same r reg value small = elim (Option-cases (place reg mode)) [
    | inl e ↦ absurd (place-ne-none reg mode small valid e)
    | inr (i, e) ↦
        let same : (i == i) ≡ true = ground arith in
        registers_read-write r reg mode value reg mode i i e e ∙ rw same refl
  ]

  pub read-write_other :
      (r : Registers) (reg value k : ℕ)
      → reg ≤ 16
      → k ≤ 16
      → k ≢ reg
      → registers_read (registers_write r reg mode value) k mode ≡ registers_read r k mode
  read-write_other r reg value k small small' other = elim (Option-cases (place reg mode)) [
    | inl e ↦ absurd (place-ne-none reg mode small valid e)
    | inr (i, e) ↦ elim (Option-cases (place k mode)) [
      | inl e' ↦ absurd (place-ne-none k mode small' valid e')
      | inr (j, e') ↦
          let apart : j ≢ i = λ h.
            other
              (place_injective k mode reg mode i (omega arith) (omega arith) (rw (sym h) e') e) in
          let differ : (j == i) ≡ false = ground arith in
          registers_read-write r reg mode value k mode i j e e' ∙ rw differ refl
    ]
  ]

  -- The status register is not one of them.
  pub mode-write :
      (r : Registers) (reg value : ℕ)
      → reg ≤ 15
      → registers_get_mode (registers_write r reg mode value) ≡ registers_get_mode r
  unfolding registers_get_mode registers_read
  mode-write r reg value small =
      ap (λ (c : ℕ). bit_and (u8 c) 0x1f)
        (read-write_other r reg value 16 (omega arith) (omega arith) (omega arith))

  -- A read of a register after a write of one of the first sixteen, in the same mode.
  pub read-write_if :
      (r : Registers) (reg value k : ℕ)
      → reg ≤ 16
      → k ≤ 16
      → registers_read (registers_write r reg mode value) k mode
        ≡ (if k == reg then value else registers_read r k mode)
  read-write_if r reg value k small small' = elim (Bool-cases (k == reg)) [
    | inl here ↦
        let e : k ≡ reg = ground arith in
        let one : (reg == reg) ≡ true = ground arith in
        rw (e, one) (read-write_same r reg value small)
    | inr other ↦
        let ne : k ≢ reg = ground arith in rw other (read-write_other r reg value k small small' ne)
  ]
