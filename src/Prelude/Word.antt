-- ===== src/Prelude/Word.antt =====
-- The unsigned widths of C: a value is a number, and a cast cuts its high bits off.
use Prim.Native.Nat.{ℕ, ◌+◌, ◌-◌, ◌*◌, ◌/◌, ◌%◌, ◌^◌}

abbrev pub u8 : ℕ → ℕ
u8 n = n % 2 ^ 8

abbrev pub u16 : ℕ → ℕ
u16 n = n % 2 ^ 16

abbrev pub u32 : ℕ → ℕ
u32 n = n % 2 ^ 32

abbrev pub u64 : ℕ → ℕ
u64 n = n % 2 ^ 64

-- `x >> k`, and `x << k` before its result is cut to a width.
infixl 75 ◌>>>◌ ◌<<<◌
abbrev pub ◌>>>◌ : ℕ → ℕ → ℕ
x >>> k = x / 2 ^ k

abbrev pub ◌<<<◌ : ℕ → ℕ → ℕ
x <<< k = x * 2 ^ k

-- `~x` at 32 bits and at 64 bits, of a value that fits the width.
abbrev pub not32 : ℕ → ℕ
not32 x = 2 ^ 32 - 1 - x

abbrev pub not64 : ℕ → ℕ
not64 x = 2 ^ 64 - 1 - x

-- Unsigned difference: the modulus is added first, since `-` on ℕ stops at 0.
abbrev pub sub32 : ℕ → ℕ → ℕ
sub32 x y = (x + 2 ^ 32 - y) % 2 ^ 32

abbrev pub sub64 : ℕ → ℕ → ℕ
sub64 x y = (x + 2 ^ 64 - y) % 2 ^ 64
