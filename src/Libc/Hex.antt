-- ===== src/Libc/Hex.antt =====
-- Numbers in base 16, printed and scanned.
use projet_l3_inf_bn_zl_rj_r.Prelude.{
  ℕ, ◌+◌, ◌*◌, ◌/◌, ◌%◌, ◌^◌, ◌<◌, ◌≡◌, refl, true, false, ◌==◌, some, List, [], ◌∷◌, ◌++◌, arith,
  inl, inr, ap, ◌∙◌, Option-cases,
}
use projet_l3_inf_bn_zl_rj_r.Libc.{
  hex_digit, print_hex, digit_value, is_space, skip_spaces, take_sign, skip_prefix, scan_digits,
  is_digit, to_unsigned, scan_hex, take, scan_hex8,
}

pub digit_value-hex_digit : (n : ℕ) → n < 16 → digit_value (hex_digit n) ≡ some n
unfolding digit_value hex_digit
digit_value-hex_digit n small = ground arith

-- A digit is neither a space nor a sign, and no digit is the letter of the prefix.
plain :
    (n : ℕ)
    → n < 16
    → (is_space (hex_digit n) ≡ false)
      × ((hex_digit n == b'-') ≡ false)
      × ((hex_digit n == b'+') ≡ false)
      × ((hex_digit n == b'x') ≡ false)
      × ((hex_digit n == b'X') ≡ false)
unfolding hex_digit is_space
plain n small = (ground arith, ground arith, ground arith, ground arith, ground arith)

-- A digit is read behind those that give `n`.
scan_step :
    (d : ℕ) (s : List ℕ) (n : ℕ)
    → d < 16
    → scan_digits (hex_digit d ∷ s) n ≡ scan_digits s (16 * n + d)
unfolding scan_digits
scan_step d s n small = rw (digit_value-hex_digit d small, scan_digits) refl

-- Nothing stands before a digit that a conversion would skip.
pub skip_spaces-hex_digit :
    (d : ℕ) (s : List ℕ) → d < 16 → skip_spaces (hex_digit d ∷ s) ≡ hex_digit d ∷ s
unfolding skip_spaces
skip_spaces-hex_digit d s small = rw ((plain d small).0) refl

take_sign-hex_digit :
    (d : ℕ) (s : List ℕ) → d < 16 → take_sign (hex_digit d ∷ s) ≡ (false, hex_digit d ∷ s)
unfolding take_sign
take_sign-hex_digit d s small = rw ((plain d small).1, (plain d small).2) refl

skip_prefix-hex_digit :
    (d e : ℕ) (s : List ℕ)
    → e < 16
    → skip_prefix (hex_digit d ∷ hex_digit e ∷ s) ≡ hex_digit d ∷ hex_digit e ∷ s
unfolding skip_prefix
skip_prefix-hex_digit d e s small = rw ((plain e small).3, (plain e small).4) (ground arith)

is_digit-hex_digit : (d : ℕ) (s : List ℕ) → d < 16 → is_digit (hex_digit d ∷ s) ≡ true
unfolding is_digit
is_digit-hex_digit d s small = rw (digit_value-hex_digit d small, is_digit) refl

-- A text that begins with two digits is scanned from its first digit on.
scan_hex-hex_digit :
    (d e : ℕ) (s : List ℕ) (value : ℕ) (rest : List ℕ)
    → d < 16
    → e < 16
    → scan_digits (hex_digit d ∷ hex_digit e ∷ s) 0 ≡ (value, rest)
    → value < 2 ^ 32
    → scan_hex (hex_digit d ∷ hex_digit e ∷ s) ≡ some (value, rest)
unfolding scan_hex to_unsigned
scan_hex-hex_digit d e s value rest small small' h fits =
    rw
      (
        skip_spaces-hex_digit d (hex_digit e ∷ s) small,
        take_sign-hex_digit d (hex_digit e ∷ s) small,
        skip_prefix-hex_digit d e s small',
        is_digit-hex_digit d (hex_digit e ∷ s) small,
        h,
      )
      (ground arith)

-- No digit stands at the head of a text.
abbrev pub Ends : List ℕ → Type 0
Ends s = is_digit s ≡ false

scan_digits-Ends : (s : List ℕ) (n : ℕ) → Ends s → scan_digits s n ≡ (n, s)
unfolding scan_digits is_digit
scan_digits-Ends [] n ends = refl
scan_digits-Ends (c ∷ s) n ends = elim (Option-cases (digit_value c)) [
  | inl e ↦ rw (e, scan_digits) refl
  | inr (d, e) ↦ let ends' = rw (e, is_digit) at ends in absurd (cc)
]

-- `%02x` is read back by `%x`, if no digit follows.
pub scan_hex-print_hex :
    (value : ℕ) (rest : List ℕ)
    → value < 2 ^ 8
    → Ends rest
    → scan_hex (print_hex 2 value ++ rest) ≡ some (value, rest)
unfolding print_hex
scan_hex-print_hex value rest small ends =
    let low : 16 * (16 * 0 + value / 16 % 16) + value / 1 % 16 ≡ value = omega arith in
    scan_hex-hex_digit (value / 16 % 16) (value / 1 % 16) rest value rest (omega arith)
      (omega arith)
      (scan_step (value / 16 % 16) (hex_digit (value / 1 % 16) ∷ rest) 0 (omega arith)
        ∙ scan_step (value / 1 % 16) rest _ (omega arith)
        ∙ rw low (scan_digits-Ends rest value ends))
      (omega arith)

-- One more digit of a word is read.
nibble_step :
    (value i : ℕ) (s : List ℕ) (n : ℕ)
    → scan_digits (hex_digit (value / 16 ^ i % 16) ∷ s) n
      ≡ scan_digits s (16 * n + value / 16 ^ i % 16)
nibble_step value i s n = scan_step (value / 16 ^ i % 16) s n (omega arith)

scan_digits-word : (value : ℕ) → value < 2 ^ 32 → scan_digits (print_hex 8 value) 0 ≡ (value, [])
unfolding print_hex
scan_digits-word value small =
    nibble_step value 7 (print_hex 7 value) 0
    ∙ nibble_step value 6 (print_hex 6 value) _
    ∙ nibble_step value 5 (print_hex 5 value) _
    ∙ nibble_step value 4 (print_hex 4 value) _
    ∙ nibble_step value 3 (print_hex 3 value) _
    ∙ nibble_step value 2 (print_hex 2 value) _
    ∙ nibble_step value 1 (print_hex 1 value) _
    ∙ nibble_step value 0 (print_hex 0 value) _
    ∙ unfold scan_digits in ap (λ (v : ℕ). let r : ℕ × List ℕ = (v, []) in r) (omega arith)

-- `%08x` is read back, whatever follows.
pub scan_hex8-print_hex :
    (value : ℕ) (rest : List ℕ)
    → value < 2 ^ 32
    → scan_hex8 (print_hex 8 value ++ rest) ≡ some value
unfolding print_hex scan_hex8 take
scan_hex8-print_hex value rest small =
    let first = value / 16 ^ 7 % 16 in
    let second = value / 16 ^ 6 % 16 in
    rw
      (
        skip_spaces-hex_digit first (hex_digit second ∷ print_hex 6 value ++ rest) (omega arith),
        scan_hex-hex_digit first second (print_hex 6 value) value [] (omega arith) (omega arith)
            (scan_digits-word value small) small,
      )
      refl
