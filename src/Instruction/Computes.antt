-- ===== src/Instruction/Computes.antt =====
-- arm_step on a data-processing instruction that is no comparison, once its fields are known.
use native.Mathlib.Nat.{mod-eq_of_lt}
use projet_l3_inf_bn_zl_rj_r.Prelude.{
  ℕ, ◌+◌, ◌/◌, ◌%◌, ◌^◌, ◌≤◌, ◌<◌, ◌≡◌, ◌≢◌, refl, false, ◌==◌, arith, if◌then◌else◌, some, pos, ℤ,
  u8, le→ltb,
}
use projet_l3_inf_bn_zl_rj_r.Util.{get_bit, get_bits}
use projet_l3_inf_bn_zl_rj_r.Util.Laws.{get_bit_lem, get_bits_lem}
use projet_l3_inf_bn_zl_rj_r.Constants.{cpsr}
use projet_l3_inf_bn_zl_rj_r.Registers.{registers_get_mode}
use projet_l3_inf_bn_zl_rj_r.Registers.Bank.{place}
use projet_l3_inf_bn_zl_rj_r.Machine.{Machine}
use projet_l3_inf_bn_zl_rj_r.Core.{Arm, arm_read_register}
use projet_l3_inf_bn_zl_rj_r.DataProcessing.{
  determiner_decalage, update_flags, compares, effectuer_operation, operate,
  arm_data_processing_shift, arm_data_processing_immediate_msr,
}
use projet_l3_inf_bn_zl_rj_r.DataProcessing.Alu.{alu}
use projet_l3_inf_bn_zl_rj_r.DataProcessing.Operation.{carry, effectuer_operation-alu}
use projet_l3_inf_bn_zl_rj_r.Instruction.{case_0, case_1_first, case_1_second, dispatch, arm_step}
use projet_l3_inf_bn_zl_rj_r.Instruction.Decode.{function_to_use}
use projet_l3_inf_bn_zl_rj_r.Instruction.Step.{Fetches, fetched, execute}
use projet_l3_inf_bn_zl_rj_r.Valid.{IsValid}
use projet_l3_inf_bn_zl_rj_r.Valid.Access.{read_register-lt}

-- What a data-processing instruction that is no comparison leaves: the result 0, and a state whose
-- cell `j` is that of the state before, or the value of the operation where it is the cell `i`.
abbrev pub Computes : Arm → (i j value : ℕ) → ℤ × Arm → Type 0
Computes p i j value r =
    (r.0 ≡ pos 0) × (r.1.reg.registre j ≡ (if j == i then value else p.reg.registre j))

-- The two bits of the kind of a shift.
pub determiner_decalage_lem :
    (kind bit6 bit5 : ℕ)
    → kind < 4
    → bit6 ≡ kind / 2
    → bit5 ≡ kind % 2
    → determiner_decalage bit6 bit5 ≡ kind
unfolding determiner_decalage
determiner_decalage_lem kind bit6 bit5 h e6 e5 = ground arith

-- With a destination other than the program counter, the result of an operation is 0.
operation-zero :
    (opcode rn operande2 : ℕ) (p : Arm) (ins : ℕ)
    → opcode < 16
    → get_bits ins 15 12 ≢ 15
    → (effectuer_operation opcode rn operande2 p ins).0 ≡ pos 0
unfolding effectuer_operation update_flags
operation-zero opcode rn operande2 p ins known ne =
    let other : (get_bits ins 15 12 == 15) ≡ false = ground arith in
    rw (le→ltb 15 opcode (omega arith), other) (ground arith)

module _ (p : Arm) (ins opcode rn rd : ℕ) (i j : ℕ) where
  pub operate-Computes :
      (operande2 : ℕ)
      → IsValid p
      → opcode < 16
      → compares opcode ≡ false
      → rn < 16
      → rd < 15
      → get_bits ins 24 21 ≡ opcode
      → get_bits ins 19 16 ≡ rn
      → get_bits ins 15 12 ≡ rd
      → place rd (registers_get_mode p.reg) ≡ some i
      → j ≢ cpsr
      → operande2 < 2 ^ 32
      → Computes p i j
          (alu opcode (arm_read_register p rn) operande2 (carry p))
          (operate p ins operande2)
  unfolding operate
  operate-Computes operande2 valid known test rn_fits rd_fits e0 e1 e2 at ne small =
      let byte : u8 rn ≡ rn = mod-eq_of_lt (omega arith) in
      let a = arm_read_register p rn in
      rw (e0, e1, byte)
        (
          operation-zero opcode a operande2 p ins known (omega (arith, e2)),
          effectuer_operation-alu opcode a operande2 p ins known i j (read_register-lt valid rn)
              small test (rw e2 at) ne,
        )

-- Where the switch takes an instruction that is no comparison: class 1 with an immediate operand,
-- class 0 otherwise, with bits 4 and 7 not both set.
module _ (m : Machine) (p : Arm) (ins opcode : ℕ) where
  pub dispatch-immediate :
      compares opcode ≡ false
      → get_bits ins 24 21 ≡ opcode
      → ins / 2 ^ 25 % 8 ≡ 1
      → dispatch m p ins ≡ some (arm_data_processing_immediate_msr m p ins)
  unfolding dispatch case_1_first case_1_second compares
  dispatch-immediate test code class =
      let e = get_bits_lem ins 24 21 (omega arith) in
      rw (function_to_use ins, class)
        (ground (arith, get_bit_lem ins 24, get_bit_lem ins 23, get_bit_lem ins 21))

  pub dispatch-shift :
      compares opcode ≡ false
      → get_bits ins 24 21 ≡ opcode
      → ins / 2 ^ 25 % 8 ≡ 0
      → get_bit ins 4 + get_bit ins 7 ≤ 1
      → dispatch m p ins ≡ some (arm_data_processing_shift m p ins)
  unfolding dispatch case_0 compares
  dispatch-shift test code class apart =
      let e = get_bits_lem ins 24 21 (omega arith) in
      rw (function_to_use ins, class) (ground (arith, get_bit_lem ins 24, get_bit_lem ins 23))

-- The state after a step that gives 0, with its cell `j`: that of the state behind the fetch, or
-- the value of the operation where it is the cell `i`.
abbrev pub Steps : Machine → Arm → (i j value : ℕ) → Type 0
Steps m p i j value =
    (q : Arm) × (arm_step m p ≡ some (pos 0, q))
    × (q.reg.registre j ≡ (if j == i then value else (fetched p).reg.registre j))

-- A step whose instruction is decoded and gives 0 raises no exception.
pub step-Computes :
    (m : Machine) (p : Arm) (ins : ℕ) (r : ℤ × Arm) (i j value : ℕ)
    → Fetches m p ins
    → dispatch m (fetched p) ins ≡ some r
    → Computes (fetched p) i j value r
    → Steps m p i j value
unfolding arm_step
step-Computes m p ins r i j value e d c = (r.1, rw (execute m p ins e, d, c.0) refl, c.1)

pub fetched-IsValid : {p : Arm} → IsValid p → IsValid (fetched p)
fetched-IsValid valid = record {
  words = λ i. ground (arith, valid.words i);
  bytes = valid.bytes;
  cycles = omega arith;
}
