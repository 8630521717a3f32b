-- ===== src/Util/Laws.antt =====
-- The macros of util.h as arithmetic.
use projet_l3_inf_bn_zl_rj_r.Prelude.{
  ℕ, ◌+◌, ◌-◌, ◌*◌, ◌/◌, ◌%◌, ◌^◌, ◌≤◌, ◌<◌, ◌≡◌, refl, true, bit_or, arith, ◌>>>◌, ◌<<<◌, ◌==◌,
  not32, u32, all_below, all_below_sound, ==→eq,
}
use projet_l3_inf_bn_zl_rj_r.Bits.Mask.{and_mask, or_fields}
use projet_l3_inf_bn_zl_rj_r.Util.{get_bit, get_bits, reverse_2, reverse_4}

pub get_bit_lem : (x i : ℕ) → get_bit x i ≡ x / 2 ^ i % 2
unfolding get_bit
get_bit_lem x i = and_mask 1 (x / 2 ^ i)

pub get_bit_small : (x i : ℕ) → get_bit x i ≤ 1
get_bit_small x i = omega (arith, get_bit_lem x i)

-- The mask of `get_bits` for a field of `width` bits.
abbrev field_mask : ℕ → ℕ
field_mask width = not32 (u32 (((2 ^ 32 - 1) >>> width) <<< width))

mask_table : all_below 33 (λ w. field_mask w == 2 ^ w - 1) ≡ true
unfolding all_below
mask_table = refl

field_mask_lem : (w : ℕ) → w < 33 → field_mask w ≡ 2 ^ w - 1
field_mask_lem w h = ==→eq _ _ (all_below_sound 33 (λ w. field_mask w == 2 ^ w - 1) w mask_table h)

-- A field of at most 32 bits is a quotient and a remainder.
pub get_bits_lem : (x h l : ℕ) → h - l < 32 → get_bits x h l ≡ x / 2 ^ l % 2 ^ (h - l + 1)
unfolding get_bits
get_bits_lem x h l fits =
    rw (field_mask_lem (h - l + 1) (omega arith)) (and_mask (h - l + 1) (x / 2 ^ l))

pub reverse_2_lem : (x : ℕ) → reverse_2 x ≡ x % 256 * 256 + x / 256 % 256
unfolding reverse_2
reverse_2_lem x =
    ground (arith, and_mask 8 x, and_mask 8 (x / 2 ^ 8), or_fields 8 (x % 256) (x / 256 % 256))

-- `|` of a multiple of `2^k` and a value below `2^k`.
or_apart : (k q x r : ℕ) → x ≡ q * 2 ^ k → r < 2 ^ k → bit_or x r ≡ x + r
or_apart k q x r e fits = rw e (or_fields k q r fits)

-- Four bytes joined by `|` at their places.
pub join_bytes :
    (b0 b1 b2 b3 : ℕ)
    → b1 < 256
    → b2 < 256
    → b3 < 256
    → bit_or (bit_or (bit_or (b0 * 2 ^ 24) (b1 * 2 ^ 16)) (b2 * 2 ^ 8)) b3
      ≡ ((b0 * 256 + b1) * 256 + b2) * 256 + b3
join_bytes b0 b1 b2 b3 h1 h2 h3 = ground (
  arith,
  or_apart 24 b0 (b0 * 2 ^ 24) (b1 * 2 ^ 16),
  or_apart 16 (b0 * 256 + b1) (b0 * 2 ^ 24 + b1 * 2 ^ 16) (b2 * 2 ^ 8),
  or_apart 8 ((b0 * 256 + b1) * 256 + b2) (b0 * 2 ^ 24 + b1 * 2 ^ 16 + b2 * 2 ^ 8) b3,
)

pub reverse_4_lem :
    (x : ℕ)
    → reverse_4 x
      ≡ ((x % 256 * 256 + x / 2 ^ 8 % 256) * 256 + x / 2 ^ 16 % 256) * 256 + x / 2 ^ 24 % 256
unfolding reverse_4
reverse_4_lem x =
    rw (and_mask 8 x, and_mask 8 (x / 2 ^ 8), and_mask 8 (x / 2 ^ 16), and_mask 8 (x / 2 ^ 24))
      (join_bytes (x % 256) (x / 2 ^ 8 % 256) (x / 2 ^ 16 % 256) (x / 2 ^ 24 % 256) (omega arith)
        (omega arith) (omega arith))
