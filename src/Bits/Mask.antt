-- ===== src/Bits/Mask.antt =====
-- Bounds of the operators, `&` with a mask of low ones, and `|` of disjoint fields.
use native.Mathlib.Nat.{mul-div_cancel, mul-mod_left, one-le-pow, mod-one, pow-suc, mod-lt}
use native.Mathlib.Nat.{mod-eq_of_lt, div-eq_of_lt, div-add-mod'}
use Prim.Native.Nat.{bit_and-bitwise}
use mathlib.Core.Path.{ap₂}
use projet_l3_inf_bn_zl_rj_r.Prelude.{
  ℕ, zero, suc, ◌+◌, ◌-◌, ◌*◌, ◌/◌, ◌%◌, ◌^◌, ◌≤◌, ◌<◌, ◌≡◌, refl, ◌∙◌, bit_and, bit_or, bit_xor,
  sym, arith,
}
use projet_l3_inf_bn_zl_rj_r.Bits.Digit.{and_step, or_step}
use projet_l3_inf_bn_zl_rj_r.Bits.Split.{or-div, or-mod, xor-mod, mod-pow-suc}

-- A property of numbers that passes from `a / 2` to `a` holds of all.
halving {ℓ} :
    (P : ℕ → Type ℓ) → P 0 → ((a : ℕ) → P (suc a / 2) → P (suc a)) → (n a : ℕ) → a ≤ n → P a
halving P base up n zero h = base
halving P base up zero (suc a) h = absurd (omega arith)
halving P base up (suc n) (suc a) h = up a (halving P base up n (suc a / 2) (omega arith))

pub or-zero : (a : ℕ) → bit_or a 0 ≡ a
or-zero a =
    halving (λ n. bit_or n 0 ≡ n) refl (λ n ih. omega (arith, or_step (suc n) 0, ih)) a a
      (omega arith)

pub and-zero : (a : ℕ) → bit_and a 0 ≡ 0
and-zero a =
    halving (λ n. bit_and n 0 ≡ 0) refl (λ n ih. omega (arith, and_step (suc n) 0, ih)) a a
      (omega arith)

pub zero-or : (a : ℕ) → bit_or 0 a ≡ a
zero-or a =
    halving (λ n. bit_or 0 n ≡ n) refl (λ n ih. omega (arith, or_step 0 (suc n), ih)) a a
      (omega arith)

pub and-le : (a b : ℕ) → bit_and a b ≤ a
and-le a =
    halving (λ n. (b : ℕ) → bit_and n b ≤ n) (λ b. simp bit_and-bitwise (omega arith))
      (λ n ih b. omega (arith, and_step (suc n) b, ih (b / 2))) a a (omega arith)

-- `x & (2^k - 1)` is the remainder by `2^k`.
pub and_mask : (k a : ℕ) → bit_and a (2 ^ k - 1) ≡ a % 2 ^ k
and_mask zero a = rw (and-zero a, mod-one a) refl
and_mask (suc k) a =
    let halved : (2 ^ suc k - 1) / 2 ≡ 2 ^ k - 1 = omega (arith, pow-suc 2 k, one-le-pow k 2) in
    let odd : (2 ^ suc k - 1) % 2 ≡ 1 = omega (arith, pow-suc 2 k, one-le-pow k 2) in
    rw (and_step a (2 ^ suc k - 1), halved, odd, and_mask k (a / 2))
      (omega (arith, mod-pow-suc a k))

pub or-lt : (k a b : ℕ) → a < 2 ^ k → b < 2 ^ k → bit_or a b < 2 ^ k
or-lt k a b p q =
    let whole : bit_or a b % 2 ^ k ≡ bit_or a b =
      or-mod k a b ∙ ap₂ bit_or (mod-eq_of_lt p) (mod-eq_of_lt q) in
    rw (← whole) (mod-lt _ (one-le-pow k 2 (omega arith)))

pub xor-lt : (k a b : ℕ) → a < 2 ^ k → b < 2 ^ k → bit_xor a b < 2 ^ k
xor-lt k a b p q =
    let whole : bit_xor a b % 2 ^ k ≡ bit_xor a b =
      xor-mod k a b ∙ ap₂ bit_xor (mod-eq_of_lt p) (mod-eq_of_lt q) in
    rw (← whole) (mod-lt _ (one-le-pow k 2 (omega arith)))

pub or_comm : (a b : ℕ) → bit_or a b ≡ bit_or b a
or_comm a =
    halving (λ n. (b : ℕ) → bit_or n b ≡ bit_or b n) (λ b. zero-or b ∙ sym (or-zero b))
      (λ n ih b. omega (arith, or_step (suc n) b, or_step b (suc n), ih (b / 2))) a a (omega arith)

pub or_self : (a : ℕ) → bit_or a a ≡ a
or_self a =
    halving (λ n. bit_or n n ≡ n) refl (λ n ih. omega (arith, or_step (suc n) (suc n), ih)) a a
      (omega arith)

pub le-or_right : (a b : ℕ) → b ≤ bit_or a b
le-or_right a =
    halving (λ n. (b : ℕ) → b ≤ bit_or n b) (λ b. omega (arith, zero-or b))
      (λ n ih b. omega (arith, or_step (suc n) b, ih (b / 2))) a a (omega arith)

pub and-lt : (k a b : ℕ) → a < 2 ^ k → bit_and a b < 2 ^ k
and-lt k a b p = omega (arith, and-le a b)

zero-and : (b : ℕ) → bit_and 0 b ≡ 0
zero-and b = bit_and-bitwise 0 b

pub and_comm : (a b : ℕ) → bit_and a b ≡ bit_and b a
and_comm a =
    halving (λ n. (b : ℕ) → bit_and n b ≡ bit_and b n) (λ b. zero-and b ∙ sym (and-zero b))
      (λ n ih b. omega (arith, and_step (suc n) b, and_step b (suc n), ih (b / 2))) a a
      (omega arith)

pub and-right-lt : (k a b : ℕ) → b < 2 ^ k → bit_and a b < 2 ^ k
and-right-lt k a b p = omega (arith, and_comm a b, and-le b a)

-- `(q << k) | r` is a sum when `r` fits into `k` bits.
pub or_fields : (k q r : ℕ) → r < 2 ^ k → bit_or (q * 2 ^ k) r ≡ q * 2 ^ k + r
or_fields k q r fits =
    let pos : 0 < 2 ^ k = one-le-pow k 2 (omega arith) in
    let high : bit_or (q * 2 ^ k) r / 2 ^ k ≡ q =
      rw (or-div k (q * 2 ^ k) r, mul-div_cancel q pos, div-eq_of_lt fits) (or-zero q) in
    let low : bit_or (q * 2 ^ k) r % 2 ^ k ≡ r =
      rw (or-mod k (q * 2 ^ k) r, mul-mod_left q (2 ^ k), mod-eq_of_lt fits) (zero-or r) in
    rw (← div-add-mod' (bit_or (q * 2 ^ k) r) (2 ^ k), high, low) refl
