-- ===== src/Encoder/Fields.antt =====
-- The encoder against the fields that the decoder of data-processing instructions reads.
use projet_l3_inf_bn_zl_rj_r.Prelude.{ℕ, ◌+◌, ◌*◌, ◌/◌, ◌%◌, ◌^◌, ◌<◌, ◌≡◌, arith}
use projet_l3_inf_bn_zl_rj_r.Bits.Mask.{and_mask}
use projet_l3_inf_bn_zl_rj_r.Util.{get_bit, get_bits}
use projet_l3_inf_bn_zl_rj_r.Util.Laws.{get_bit_lem, get_bits_lem}
use projet_l3_inf_bn_zl_rj_r.Encoder.{
  construire_instruction, construire_shifter_val, construire_shifter_rs,
}

encoded :
    (cond i opcode s rn rd shifter_operand : ℕ)
    → cond < 16
    → i < 2
    → opcode < 16
    → s < 2
    → rn < 16
    → rd < 16
    → shifter_operand < 2 ^ 12
    → construire_instruction cond i opcode s rn rd shifter_operand
      ≡ cond * 2 ^ 28
        + i * 2 ^ 25
        + opcode * 2 ^ 21
        + s * 2 ^ 20
        + rn * 2 ^ 16
        + rd * 2 ^ 12
        + shifter_operand
unfolding construire_instruction
encoded cond i opcode s rn rd shifter_operand h0 h1 h2 h3 h4 h5 h6 =
    omega
      (arith, and_mask 1 i, and_mask 1 s, and_mask 4 rn, and_mask 4 rd, and_mask 12 shifter_operand)

-- From an instruction that the encoder makes of fields that fit their widths, the decoder reads
-- those fields back.
pub construire_instruction-get_bits :
    (cond i opcode s rn rd shifter_operand : ℕ)
    → cond < 16
    → i < 2
    → opcode < 16
    → s < 2
    → rn < 16
    → rd < 16
    → shifter_operand < 2 ^ 12
    → let ins = construire_instruction cond i opcode s rn rd shifter_operand in
      (get_bits ins 31 28 ≡ cond)
      × (get_bit ins 25 ≡ i)
      × (get_bits ins 24 21 ≡ opcode)
      × (get_bit ins 20 ≡ s)
      × (get_bits ins 19 16 ≡ rn)
      × (get_bits ins 15 12 ≡ rd)
      × (get_bits ins 11 0 ≡ shifter_operand)
construire_instruction-get_bits cond i opcode s rn rd shifter_operand h0 h1 h2 h3 h4 h5 h6 =
    let ins = construire_instruction cond i opcode s rn rd shifter_operand in
    let e = encoded cond i opcode s rn rd shifter_operand h0 h1 h2 h3 h4 h5 h6 in
    (
      omega (arith, e, get_bits_lem ins 31 28 (omega arith)),
      omega (arith, e, get_bit_lem ins 25),
      omega (arith, e, get_bits_lem ins 24 21 (omega arith)),
      omega (arith, e, get_bit_lem ins 20),
      omega (arith, e, get_bits_lem ins 19 16 (omega arith)),
      omega (arith, e, get_bits_lem ins 15 12 (omega arith)),
      omega (arith, e, get_bits_lem ins 11 0 (omega arith)),
    )

-- Bits 27 and 26 of an encoded instruction are clear: the class is the bit for an immediate operand.
pub construire_instruction-class :
    (cond i opcode s rn rd shifter_operand : ℕ)
    → cond < 16
    → i < 2
    → opcode < 16
    → s < 2
    → rn < 16
    → rd < 16
    → shifter_operand < 2 ^ 12
    → construire_instruction cond i opcode s rn rd shifter_operand / 2 ^ 25 % 8 ≡ i
construire_instruction-class cond i opcode s rn rd shifter_operand h0 h1 h2 h3 h4 h5 h6 =
    omega (arith, encoded cond i opcode s rn rd shifter_operand h0 h1 h2 h3 h4 h5 h6)

-- The second operand by an immediate shift, of a kind below 4, is read back field by field, with
-- bit 4 clear; that by a register is read back with bit 4 set and bit 7 clear.
pub construire_shifter-get_bits :
    (valeur rs type_decal rm : ℕ)
    → valeur < 32
    → rs < 16
    → type_decal < 4
    → rm < 16
    → let by_value = construire_shifter_val valeur type_decal rm in
      let by_register = construire_shifter_rs rs type_decal rm in
      (get_bits by_value 11 7 ≡ valeur)
      × (get_bits by_value 6 5 ≡ type_decal)
      × (get_bit by_value 4 ≡ 0)
      × (get_bits by_value 3 0 ≡ rm)
      × (get_bits by_register 11 8 ≡ rs)
      × (get_bit by_register 7 ≡ 0)
      × (get_bits by_register 6 5 ≡ type_decal)
      × (get_bit by_register 4 ≡ 1)
      × (get_bits by_register 3 0 ≡ rm)
unfolding construire_shifter_val construire_shifter_rs
construire_shifter-get_bits valeur rs type_decal rm h0 h1 h2 h3 =
    let v = construire_shifter_val valeur type_decal rm in
    let r = construire_shifter_rs rs type_decal rm in
    let ev : v ≡ valeur * 2 ^ 7 + type_decal * 2 ^ 5 + rm =
      omega (arith, and_mask 5 valeur, and_mask 4 rm) in
    let er : r ≡ rs * 2 ^ 8 + type_decal * 2 ^ 5 + 2 ^ 4 + rm =
      omega (arith, and_mask 4 rs, and_mask 4 rm) in
    (
      omega (arith, ev, get_bits_lem v 11 7 (omega arith)),
      omega (arith, ev, get_bits_lem v 6 5 (omega arith)),
      omega (arith, ev, get_bit_lem v 4),
      omega (arith, ev, get_bits_lem v 3 0 (omega arith)),
      omega (arith, er, get_bits_lem r 11 8 (omega arith)),
      omega (arith, er, get_bit_lem r 7),
      omega (arith, er, get_bits_lem r 6 5 (omega arith)),
      omega (arith, er, get_bit_lem r 4),
      omega (arith, er, get_bits_lem r 3 0 (omega arith)),
    )
