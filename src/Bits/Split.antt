-- ===== src/Bits/Split.antt =====
-- An operator that works digit by digit commutes with a shift to the right and with the
-- remainder by a power of two. The section is used at `&`, `|` and `^`.
use native.Mathlib.Nat.{pow-suc, div-div-eq-div-mul, div-add-mod, mul_comm, div-one, mod-one}
use projet_l3_inf_bn_zl_rj_r.Prelude.{
  ℕ, zero, suc, ◌+◌, ◌*◌, ◌/◌, ◌%◌, ◌^◌, ◌<◌, ◌≡◌, refl, sym, ◌⊎◌, inl, inr, min, max, bit_and,
  bit_or, bit_xor, arith,
}
use projet_l3_inf_bn_zl_rj_r.Bits.Digit.{and_step, or_step, xor_step}
use Prim.Native.Nat.{differ}

div-pow-suc : (x k : ℕ) → x / 2 ^ suc k ≡ x / 2 / 2 ^ k
div-pow-suc x k = rw (pow-suc 2 k, mul_comm (2 ^ k) 2) (sym (div-div-eq-div-mul x 2 (2 ^ k)))

pub mod-pow-suc : (x k : ℕ) → x % 2 ^ suc k ≡ x / 2 % 2 ^ k * 2 + x % 2
mod-pow-suc x k =
    let parts : 2 ^ k * 2 * (x / 2 / 2 ^ k) + x % 2 ^ suc k ≡ x =
      rw (← div-pow-suc x k, ← pow-suc 2 k) (div-add-mod x (2 ^ suc k)) in
    omega (arith, parts, div-add-mod (x / 2) (2 ^ k))

half-mod : (x k : ℕ) → x % 2 ^ suc k / 2 ≡ x / 2 % 2 ^ k
half-mod x k = omega (arith, mod-pow-suc x k)

low-mod : (x k : ℕ) → x % 2 ^ suc k % 2 ≡ x % 2
low-mod x k = omega (arith, mod-pow-suc x k)

-- What the section needs of an operator: its lowest digit, and that the digit is 0 or 1.
module _ (op digit : ℕ → ℕ → ℕ)
    (step : (a b : ℕ) → op a b ≡ op (a / 2) (b / 2) * 2 + digit (a % 2) (b % 2))
    (small : (a b : ℕ) → digit (a % 2) (b % 2) < 2) where
  half_op : (a b : ℕ) → op a b / 2 ≡ op (a / 2) (b / 2)
  half_op a b = omega (arith, step a b, small a b)

  low_op : (a b : ℕ) → op a b % 2 ≡ digit (a % 2) (b % 2)
  low_op a b = omega (arith, step a b, small a b)

  op-div : (k a b : ℕ) → op a b / 2 ^ k ≡ op (a / 2 ^ k) (b / 2 ^ k)
  op-div zero a b = rw (div-one a, div-one b, div-one (op a b)) refl
  op-div (suc k) a b =
      rw (div-pow-suc (op a b) k, div-pow-suc a k, div-pow-suc b k, half_op a b)
        (op-div k (a / 2) (b / 2))

  op-bit : (k a b : ℕ) → op a b / 2 ^ k % 2 ≡ digit (a / 2 ^ k % 2) (b / 2 ^ k % 2)
  op-bit k a b = rw (op-div k a b) (low_op (a / 2 ^ k) (b / 2 ^ k))

  op-mod : op 0 0 ≡ 0 → (k a b : ℕ) → op a b % 2 ^ k ≡ op (a % 2 ^ k) (b % 2 ^ k)
  op-mod none zero a b = rw (mod-one a, mod-one b, mod-one (op a b), none) refl
  op-mod none (suc k) a b =
      rw
        (
          mod-pow-suc (op a b) k,
          half_op a b,
          low_op a b,
          op-mod none k (a / 2) (b / 2),
          step (a % 2 ^ suc k) (b % 2 ^ suc k),
          half-mod a k,
          half-mod b k,
          low-mod a k,
          low-mod b k,
        )
        refl

-- The laws at the three operators.
min_small : (a b : ℕ) → min (a % 2) (b % 2) < 2
min_small a b = omega arith

max_small : (a b : ℕ) → max (a % 2) (b % 2) < 2
max_small a b = omega arith

digit-cases : (a : ℕ) → (a % 2 ≡ 0) ⊎ (a % 2 ≡ 1)
digit-cases a = omega arith

differ_small : (a b : ℕ) → differ (a % 2) (b % 2) < 2
differ_small a b = elim (digit-cases a) [
  | inl p ↦ rw p (omega arith)
  | inr p ↦ elim (digit-cases b) [
    | inl q ↦ rw (p, q) (omega arith)
    | inr q ↦ rw (p, q) (omega arith)
  ]
]

pub and-div : (k a b : ℕ) → bit_and a b / 2 ^ k ≡ bit_and (a / 2 ^ k) (b / 2 ^ k)
and-div = op-div bit_and min and_step min_small

pub or-div : (k a b : ℕ) → bit_or a b / 2 ^ k ≡ bit_or (a / 2 ^ k) (b / 2 ^ k)
or-div = op-div bit_or max or_step max_small

pub xor-div : (k a b : ℕ) → bit_xor a b / 2 ^ k ≡ bit_xor (a / 2 ^ k) (b / 2 ^ k)
xor-div = op-div bit_xor differ xor_step differ_small

pub and-bit : (k a b : ℕ) → bit_and a b / 2 ^ k % 2 ≡ min (a / 2 ^ k % 2) (b / 2 ^ k % 2)
and-bit = op-bit bit_and min and_step min_small

pub or-bit : (k a b : ℕ) → bit_or a b / 2 ^ k % 2 ≡ max (a / 2 ^ k % 2) (b / 2 ^ k % 2)
or-bit = op-bit bit_or max or_step max_small

pub and-mod : (k a b : ℕ) → bit_and a b % 2 ^ k ≡ bit_and (a % 2 ^ k) (b % 2 ^ k)
and-mod = op-mod bit_and min and_step min_small refl

pub or-mod : (k a b : ℕ) → bit_or a b % 2 ^ k ≡ bit_or (a % 2 ^ k) (b % 2 ^ k)
or-mod = op-mod bit_or max or_step max_small refl

pub xor-mod : (k a b : ℕ) → bit_xor a b % 2 ^ k ≡ bit_xor (a % 2 ^ k) (b % 2 ^ k)
xor-mod = op-mod bit_xor differ xor_step differ_small refl
