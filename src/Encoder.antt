-- ===== src/Encoder.antt =====
-- command_creator.c: the encoder of data-processing instructions, for arguments that are not
-- negative. `int` sums that pass 2^31 are taken as two's complement and cut by the result's type.
pub mod Fields
use projet_l3_inf_bn_zl_rj_r.Prelude.{ℕ, ◌+◌, u16, u32, bit_and, ◌<<<◌}

unfoldable pub construire_instruction : ℕ → ℕ → ℕ → ℕ → ℕ → ℕ → ℕ → ℕ
construire_instruction cond i opcode s rn rd shifter_operand = u32 (
    cond <<< 28
    + (bit_and i 1) <<< 25
    + opcode <<< 21
    + (bit_and s 1) <<< 20
    + (bit_and rn 0xf) <<< 16
    + (bit_and rd 0xf) <<< 12
    + bit_and shifter_operand 0xfff)

unfoldable pub construire_shifter_im : ℕ → ℕ → ℕ
construire_shifter_im rotate immediate = u16 ((bit_and rotate 0xf) <<< 8 + bit_and immediate 0xff)

unfoldable pub construire_shifter_val : ℕ → ℕ → ℕ → ℕ
construire_shifter_val valeur type_decal rm =
    u16 ((bit_and valeur 0x1f) <<< 7 + type_decal <<< 5 + bit_and rm 0xf)

unfoldable pub construire_shifter_rs : ℕ → ℕ → ℕ → ℕ
construire_shifter_rs rs type_decal rm =
    u16 ((bit_and rs 0xf) <<< 8 + type_decal <<< 5 + 1 <<< 4 + bit_and rm 0xf)
