-- ===== src/Bits/Digit.antt =====
-- One equation for the lowest digit of each bitwise operator: the native operators are a
-- recursion on binary digits with fuel, and here the fuel is dropped.
use Prim.Native.Nat.{digits, bitwise, bit_and-bitwise, bit_or-bitwise, bit_xor-bitwise, differ}
use native.Mathlib.Nat.{le_refl}
use projet_l3_inf_bn_zl_rj_r.Prelude.{
  ℕ, zero, suc, ◌+◌, ◌*◌, ◌/◌, ◌%◌, ◌≤◌, min, max, bit_and, bit_or, bit_xor, ◌≡◌, refl, arith,
}

-- The digits of `x` and `y` come out the same with any two amounts of fuel that `x` fits in.
enough :
    (pad : ℕ → ℕ) (digit : ℕ → ℕ → ℕ) (x y less more : ℕ)
    → x ≤ less
    → x ≤ more
    → digits pad digit less x y ≡ digits pad digit more x y
enough pad digit zero y zero zero fits fits' = refl
enough pad digit zero y (suc less) zero fits fits' = refl
enough pad digit zero y zero (suc more) fits fits' = refl
enough pad digit zero y (suc less) (suc more) fits fits' = refl
enough pad digit (suc x) y zero more fits fits' = absurd (omega arith)
enough pad digit (suc x) y (suc less) zero fits fits' = absurd (omega arith)
enough pad digit (suc x) y (suc less) (suc more) fits fits' =
    rw (enough pad digit (suc x / 2) (y / 2) less more (omega arith) (omega arith))

lowest :
    (pad : ℕ → ℕ) (digit : ℕ → ℕ → ℕ) (x y : ℕ)
    → bitwise pad digit (suc x) y
      ≡ digit (suc x % 2) (y % 2) + 2 * bitwise pad digit (suc x / 2) (y / 2)
lowest pad digit x y =
    let same = enough pad digit (suc x / 2) (y / 2) x (suc x / 2) (omega arith) (le_refl _) in
    omega (arith, same)

pub and_step : (x y : ℕ) → bit_and x y ≡ bit_and (x / 2) (y / 2) * 2 + min (x % 2) (y % 2)
and_step zero y = simp bit_and-bitwise (omega arith)
and_step (suc x) y = simp bit_and-bitwise (omega (arith, lowest (λ d. 0) min x y))

pub or_step : (x y : ℕ) → bit_or x y ≡ bit_or (x / 2) (y / 2) * 2 + max (x % 2) (y % 2)
or_step zero y = simp bit_or-bitwise (omega arith)
or_step (suc x) y = simp bit_or-bitwise (omega (arith, lowest (λ d. d) max x y))

pub xor_step : (x y : ℕ) → bit_xor x y ≡ bit_xor (x / 2) (y / 2) * 2 + differ (x % 2) (y % 2)
xor_step zero y = simp bit_xor-bitwise (omega arith)
xor_step (suc x) y = simp bit_xor-bitwise (omega (arith, lowest (λ d. d) differ x y))
