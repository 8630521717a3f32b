-- ===== src/Instruction/Encoded.antt =====
-- arm_step on the instructions that command_creator.c encodes: the encoder, the memory, the decoder,
-- the shifter, the operations and the registers together.
use projet_l3_inf_bn_zl_rj_r.Prelude.{
  ℕ, ◌+◌, ◌*◌, ◌/◌, ◌%◌, ◌^◌, ◌<◌, ◌≡◌, ◌≢◌, refl, false, arith, some, u8,
}
use projet_l3_inf_bn_zl_rj_r.Bits.Mask.{and_mask}
use projet_l3_inf_bn_zl_rj_r.Util.{get_bit, get_bits}
use projet_l3_inf_bn_zl_rj_r.Util.Laws.{get_bit_lem, get_bits_lem}
use projet_l3_inf_bn_zl_rj_r.Constants.{cpsr, ror}
use projet_l3_inf_bn_zl_rj_r.Registers.{registers_get_mode}
use projet_l3_inf_bn_zl_rj_r.Registers.Bank.{place}
use projet_l3_inf_bn_zl_rj_r.Machine.{Machine}
use projet_l3_inf_bn_zl_rj_r.Core.{Arm, cond_not_respect, arm_read_register}
use projet_l3_inf_bn_zl_rj_r.DataProcessing.{
  determiner_decalage, effectuer_decalage, compares, operate, arm_data_processing_shift,
  arm_data_processing_immediate_msr,
}
use projet_l3_inf_bn_zl_rj_r.DataProcessing.Alu.{alu}
use projet_l3_inf_bn_zl_rj_r.DataProcessing.Shifter.{
  effectuer_decalage-shifted, shifted, effectuer_decalage-lt,
}
use projet_l3_inf_bn_zl_rj_r.DataProcessing.Operation.{carry}
use projet_l3_inf_bn_zl_rj_r.Encoder.{
  construire_instruction, construire_shifter_im, construire_shifter_val, construire_shifter_rs,
}
use projet_l3_inf_bn_zl_rj_r.Encoder.Fields.{
  construire_instruction-get_bits, construire_instruction-class,
}
use projet_l3_inf_bn_zl_rj_r.Instruction.{dispatch}
use projet_l3_inf_bn_zl_rj_r.Instruction.Step.{Fetches, fetched}
use projet_l3_inf_bn_zl_rj_r.Valid.{IsValid}
use projet_l3_inf_bn_zl_rj_r.Valid.Access.{read_register-lt}
use projet_l3_inf_bn_zl_rj_r.Instruction.Computes.{
  operate-Computes, determiner_decalage_lem, dispatch-immediate, dispatch-shift, Steps,
  step-Computes, fetched-IsValid,
}

module _ (m : Machine) (p : Arm) (cond opcode bit_s rn rd i j : ℕ) (valid : IsValid p)
    (cond_fits : cond < 16) (known : opcode < 16) (test : compares opcode ≡ false)
    (s_fits : bit_s < 2) (rn_fits : rn < 16) (rd_fits : rd < 15)
    (at : place rd (registers_get_mode (fetched p).reg) ≡ some i) (ne : j ≢ cpsr) where
  -- An encoded instruction, with the second operand left open.
  abbrev encoded : ℕ → ℕ → ℕ
  encoded i operand = construire_instruction cond i opcode bit_s rn rd operand

  read_back :
      (imm operand : ℕ)
      → imm < 2
      → operand < 2 ^ 12
      → (encoded imm operand / 2 ^ 25 % 8 ≡ imm)
        × (get_bits (encoded imm operand) 24 21 ≡ opcode)
        × (get_bits (encoded imm operand) 19 16 ≡ rn)
        × (get_bits (encoded imm operand) 15 12 ≡ rd)
        × (encoded imm operand % 2 ^ 12 ≡ operand)
  read_back imm operand h k =
      let f =
        construire_instruction-get_bits cond imm opcode bit_s rn rd operand cond_fits h known s_fits
          rn_fits (omega arith) k in
      (
        construire_instruction-class cond imm opcode bit_s rn rd operand cond_fits h known s_fits
            rn_fits (omega arith) k,
        f.2,
        f.4,
        f.5,
        omega (arith, f.6, get_bits_lem (encoded imm operand) 11 0 (omega arith)),
      )

  -- The step of an encoded instruction whose second operand the decoder works out to be `value`.
  finish :
      (imm operand value : ℕ)
      → imm < 2
      → operand < 2 ^ 12
      → value < 2 ^ 32
      → Fetches m p (encoded imm operand)
      → dispatch m (fetched p) (encoded imm operand)
        ≡ some (operate (fetched p) (encoded imm operand) value)
      → Steps m p i j (alu opcode (arm_read_register (fetched p) rn) value (carry (fetched p)))
  finish imm operand value h k word e d =
      let f = read_back imm operand h k in
      step-Computes m p (encoded imm operand) (operate (fetched p) (encoded imm operand) value) i j
        _ e d
        (operate-Computes (fetched p) (encoded imm operand) opcode rn rd i j value
          (fetched-IsValid valid) known test rn_fits rd_fits f.1 f.2 f.3 at ne word)

  -- From a well-formed state, a step that fetches an encoded instruction that is no comparison, whose
  -- fields fit and whose condition is met in the state behind the fetch, with the byte `immediate`
  -- rotated by twice `rotate`, from 1 to 15, as its second operand and with a destination other than
  -- the program counter that has the cell `i` in the present mode, gives 0 and puts the value of the
  -- ARM manual into that cell; every other cell but the status register is as the fetch left it.
  pub arm_step-immediate :
      (rotate immediate : ℕ)
      → 0 < rotate
      → rotate < 16
      → immediate < 256
      → Fetches m p (
          construire_instruction cond 1 opcode bit_s rn rd (construire_shifter_im rotate immediate))
      → cond_not_respect (fetched p) (
          construire_instruction cond 1 opcode bit_s rn rd (construire_shifter_im rotate immediate))
        ≡ 0
      → Steps m p i j (
          alu opcode
            (arm_read_register (fetched p) rn)
            (shifted ror (2 * rotate) immediate)
            (carry (fetched p)))
  unfolding arm_data_processing_immediate_msr construire_shifter_im
  arm_step-immediate rotate immediate turned r_fits i_fits e met =
      let operand = construire_shifter_im rotate immediate in
      let oe : operand ≡ rotate * 2 ^ 8 + immediate =
        omega (arith, and_mask 4 rotate, and_mask 8 immediate) in
      let ins = encoded 1 operand in
      let f = read_back 1 operand (omega arith) (omega arith) in
      let by : get_bits ins 11 8 * 2 ≡ 2 * rotate =
        omega (arith, f.4, get_bits_lem ins 11 8 (omega arith)) in
      let byte : get_bits ins 7 0 ≡ immediate =
        omega (arith, f.4, get_bits_lem ins 7 0 (omega arith)) in
      let value = shifted ror (2 * rotate) immediate in
      let turn : effectuer_decalage m ror (2 * rotate) immediate ≡ value =
        effectuer_decalage-shifted m ror (2 * rotate) immediate (omega arith) (omega arith)
          (omega arith) in
      let word : value < 2 ^ 32 =
        rw (← turn) (effectuer_decalage-lt m ror (2 * rotate) immediate (omega arith)) in
      finish 1 operand value (omega arith) (omega arith) word e
        (rw (dispatch-immediate m (fetched p) ins opcode test f.1 f.0, met, by, byte, turn) refl)

  -- The same with a register `rm`, shifted by 1 to 31 places in any of the four ways, as the second
  -- operand: from a well-formed state, at an encoded instruction that is no comparison, whose fields
  -- fit, whose condition is met, and whose destination is not the program counter and has the cell
  -- `i`, the step gives 0, puts the value of the ARM manual into that cell, and leaves every other
  -- cell but the status register as the fetch left it.
  pub arm_step-shifted_register :
      (valeur kind rm : ℕ)
      → 0 < valeur
      → valeur < 32
      → kind < 4
      → rm < 16
      → Fetches m p
          (construire_instruction cond 0 opcode bit_s rn rd (construire_shifter_val valeur kind rm))
      → cond_not_respect
          (fetched p)
          (construire_instruction cond 0 opcode bit_s rn rd (construire_shifter_val valeur kind rm))
        ≡ 0
      → Steps m p i j (
          alu opcode
            (arm_read_register (fetched p) rn)
            (shifted kind valeur (arm_read_register (fetched p) rm))
            (carry (fetched p)))
  unfolding arm_data_processing_shift construire_shifter_val
  arm_step-shifted_register valeur kind rm moved v_fits k_fits rm_fits e met =
      let operand = construire_shifter_val valeur kind rm in
      let oe : operand ≡ valeur * 2 ^ 7 + kind * 2 ^ 5 + rm =
        omega (arith, and_mask 5 valeur, and_mask 4 rm) in
      let ins = encoded 0 operand in
      let f = read_back 0 operand (omega arith) (omega arith) in
      let b4 : get_bit ins 4 ≡ 0 = omega (arith, f.4, get_bit_lem ins 4) in
      let d : determiner_decalage (get_bit ins 6) (get_bit ins 5) ≡ kind =
        determiner_decalage_lem kind _ _ k_fits (omega (arith, f.4, get_bit_lem ins 6))
          (omega (arith, f.4, get_bit_lem ins 5)) in
      let by : get_bits ins 11 7 ≡ valeur =
        omega (arith, f.4, get_bits_lem ins 11 7 (omega arith)) in
      let second : u8 (get_bits ins 3 0) ≡ rm =
        omega (arith, f.4, get_bits_lem ins 3 0 (omega arith)) in
      let r = arm_read_register (fetched p) rm in
      let small = read_register-lt (fetched-IsValid valid) rm in
      let turn : effectuer_decalage m kind valeur r ≡ shifted kind valeur r =
        effectuer_decalage-shifted m kind valeur r moved v_fits small in
      let word : shifted kind valeur r < 2 ^ 32 =
        rw (← turn) (effectuer_decalage-lt m kind valeur r small) in
      finish 0 operand (shifted kind valeur r) (omega arith) (omega arith) word e (
        rw
          (
            dispatch-shift m (fetched p) ins opcode test f.1 f.0
                (omega (arith, b4, get_bit_lem ins 7)),
            met,
            second,
            d,
            b4,
            by,
            turn,
          )
          refl)

  -- The same with a register `rm` shifted by the low five bits of the register `rs`, which are not 0,
  -- as the second operand: under the same conditions on the state and the other fields, the step
  -- gives 0, puts the value of the ARM manual into the cell of the destination, and leaves every
  -- other cell but the status register as the fetch left it.
  pub arm_step-shifted_by_register :
      (rs kind rm : ℕ)
      → 0 < arm_read_register (fetched p) rs % 32
      → rs < 16
      → kind < 4
      → rm < 16
      → Fetches m p
          (construire_instruction cond 0 opcode bit_s rn rd (construire_shifter_rs rs kind rm))
      → cond_not_respect
          (fetched p)
          (construire_instruction cond 0 opcode bit_s rn rd (construire_shifter_rs rs kind rm))
        ≡ 0
      → Steps m p i j (
          alu opcode
            (arm_read_register (fetched p) rn)
            (shifted kind
              (arm_read_register (fetched p) rs % 32)
              (arm_read_register (fetched p) rm))
            (carry (fetched p)))
  unfolding arm_data_processing_shift construire_shifter_rs
  arm_step-shifted_by_register rs kind rm moved rs_fits k_fits rm_fits e met =
      let operand = construire_shifter_rs rs kind rm in
      let oe : operand ≡ rs * 2 ^ 8 + kind * 2 ^ 5 + 2 ^ 4 + rm =
        omega (arith, and_mask 4 rs, and_mask 4 rm) in
      let ins = encoded 0 operand in
      let f = read_back 0 operand (omega arith) (omega arith) in
      let b4 : get_bit ins 4 ≡ 1 = omega (arith, f.4, get_bit_lem ins 4) in
      let b7 : get_bit ins 7 ≡ 0 = omega (arith, f.4, get_bit_lem ins 7) in
      let d : determiner_decalage (get_bit ins 6) (get_bit ins 5) ≡ kind =
        determiner_decalage_lem kind _ _ k_fits (omega (arith, f.4, get_bit_lem ins 6))
          (omega (arith, f.4, get_bit_lem ins 5)) in
      let third : u8 (get_bits ins 11 8) ≡ rs =
        omega (arith, f.4, get_bits_lem ins 11 8 (omega arith)) in
      let second : u8 (get_bits ins 3 0) ≡ rm =
        omega (arith, f.4, get_bits_lem ins 3 0 (omega arith)) in
      let amount = arm_read_register (fetched p) rs in
      let by : get_bits amount 4 0 ≡ amount % 32 =
        omega (arith, get_bits_lem amount 4 0 (omega arith)) in
      let r = arm_read_register (fetched p) rm in
      let small = read_register-lt (fetched-IsValid valid) rm in
      let turn : effectuer_decalage m kind (amount % 32) r ≡ shifted kind (amount % 32) r =
        effectuer_decalage-shifted m kind (amount % 32) r moved (omega arith) small in
      let word : shifted kind (amount % 32) r < 2 ^ 32 =
        rw (← turn) (effectuer_decalage-lt m kind (amount % 32) r small) in
      finish 0 operand (shifted kind (amount % 32) r) (omega arith) (omega arith) word e (
        rw
          (
            dispatch-shift m (fetched p) ins opcode test f.1 f.0 (omega arith),
            met,
            second,
            third,
            d,
            b4,
            b7,
            by,
            turn,
          )
          refl)
