-- ===== src/Util/Shift.antt =====
-- util.c: the two shift functions. `~0 << (32 - shift)` shifts a negative `int`, which is taken as two's
-- complement.
use projet_l3_inf_bn_zl_rj_r.Prelude.{ℕ, ◌-◌, ◌==◌, not, if◌then◌else◌, ◌>>>◌, bit_or, not32}
use projet_l3_inf_bn_zl_rj_r.Util.{get_bit}
use projet_l3_inf_bn_zl_rj_r.Machine.{Machine, shift_left}

unfoldable pub asr : Machine → ℕ → ℕ → ℕ
asr m value shift =
    bit_or (value >>> shift)
      (if not (get_bit value 31 == 0) then shift_left m (not32 0) (32 - shift) else 0)

unfoldable pub ror : Machine → ℕ → ℕ → ℕ
ror m value rotation = bit_or (value >>> rotation) (shift_left m value (32 - rotation))
