-- ===== src/Libc.antt =====
-- What the program uses of the C library's text functions. A text is the list of its characters,
-- each below 256; the NUL that ends a string is the number 0.
pub mod Hex
pub mod Text
use Prim.Native.Char.{code}
use Prim.Native.String.{String}
use projet_l3_inf_bn_zl_rj_r.Prelude.{
  ℕ, zero, suc, ◌+◌, ◌-◌, ◌*◌, ◌/◌, ◌%◌, ◌^◌, Bool, true, false, not, ◌&&◌, ◌||◌, ◌==◌, ltb, leb,
  if◌then◌else◌, Option, none, some, ◌>>=◌, List, [], ◌∷◌, ◌++◌, u32,
}

-- A literal of the source, without its NUL.
abbrev pub codes : String → List ℕ
codes String.[] = []
codes (String.◌∷◌ c s) = code c ∷ codes s

abbrev pub length : List ℕ → ℕ
length [] = 0
length (c ∷ s) = suc (length s)

-- The string at the head of an array: what stands before the first NUL.
unfoldable pub c_string : List ℕ → List ℕ
c_string [] = []
c_string (c ∷ s) = let rest = c_string s in if c == 0 then [] else c ∷ rest

-- What a pointer into an array sees when it is moved by `n`: `none` if it leaves the array.
unfoldable pub advance : ℕ → List ℕ → Option (List ℕ)
advance zero [] = none
advance zero (c ∷ s) = some (c ∷ s)
advance (suc n) [] = none
advance (suc n) (c ∷ s) = advance n s

-- `strcmp(s, t) == 0`.
unfoldable pub same_text : List ℕ → List ℕ → Bool
same_text [] [] = true
same_text [] (d ∷ t) = false
same_text (c ∷ s) [] = false
same_text (c ∷ s) (d ∷ t) = c == d && same_text s t

-- `strncmp(s, t, strlen(t)) == 0`.
unfoldable pub starts_with : List ℕ → List ℕ → Bool
starts_with [] s = true
starts_with (d ∷ t) [] = false
starts_with (d ∷ t) (c ∷ s) = c == d && starts_with t s

-- `index(s, c) + 1`, what stands behind the first `c` of a string; `none` where `index` gives NULL.
unfoldable pub behind : ℕ → List ℕ → Option (List ℕ)
behind c [] = none
behind c (d ∷ s) = let rest = behind c s in if d == 0 then none else if d == c then some s else rest

-- A digit in base 16, in lower case.
unfoldable pub hex_digit : ℕ → ℕ
hex_digit n = if ltb n 10 then b'0' + n else b'a' + (n - 10)

-- `%02x` and `%08x` of a value that fits into `width` digits.
unfoldable pub print_hex : ℕ → ℕ → List ℕ
print_hex zero value = []
print_hex (suc width) value = hex_digit (value / 16 ^ width % 16) ∷ print_hex width value

-- The value of a digit in base 16, in either case.
unfoldable pub digit_value : ℕ → Option ℕ
digit_value c =
    if leb b'0' c && leb c b'9'
    then some (c - b'0')
    else if leb b'a' c && leb c b'f'
    then some (c - b'a' + 10)
    else if leb b'A' c && leb c b'F'
    then some (c - b'A' + 10)
    else none

unfoldable pub is_space : ℕ → Bool
is_space c = c == 32 || (leb 9 c && leb c 13)

unfoldable pub skip_spaces : List ℕ → List ℕ
skip_spaces [] = []
skip_spaces (c ∷ s) = let rest = skip_spaces s in if is_space c then rest else c ∷ s

-- A sign, and whether it is a minus.
unfoldable pub take_sign : List ℕ → Bool × List ℕ
take_sign [] = (false, [])
take_sign (c ∷ s) =
    if c == b'-' then (true, s) else if c == b'+' then (false, s) else (false, c ∷ s)

-- The prefix `0x`.
unfoldable pub skip_prefix : List ℕ → List ℕ
skip_prefix (c ∷ d ∷ s) = if c == b'0' && (d == b'x' || d == b'X') then s else c ∷ d ∷ s
skip_prefix s = s

-- The digits at the head of a text behind those that give `n`, and what follows them.
unfoldable pub scan_digits : List ℕ → ℕ → ℕ × List ℕ
scan_digits [] n = (n, [])
scan_digits (c ∷ s) n = elim (digit_value c) [
  | none ↦ (n, c ∷ s)
  | some d ↦ scan_digits s (16 * n + d)
]

unfoldable pub is_digit : List ℕ → Bool
is_digit [] = false
is_digit (c ∷ s) = elim (digit_value c) [ none ↦ false | some d ↦ true ]

-- The conversion to `unsigned int` of what `strtoul` gives: the digits' value, at most 2^64 - 1,
-- negated if the sign asks for it.
unfoldable pub to_unsigned : Bool → ℕ → ℕ
to_unsigned negative n =
    if leb (2 ^ 64) n then 2 ^ 32 - 1 else if negative then (2 ^ 64 - n) % 2 ^ 32 else n % 2 ^ 32

-- `%x`: the value and what follows it, or `none` where nothing is assigned.
unfoldable pub scan_hex : List ℕ → Option (ℕ × List ℕ)
scan_hex s =
    let signed = take_sign (skip_spaces s) in
    let digits = skip_prefix signed.1 in
    if is_digit digits
    then some (to_unsigned signed.0 (scan_digits digits 0).0, (scan_digits digits 0).1)
    else none

unfoldable pub take : ℕ → List ℕ → List ℕ
take zero s = []
take (suc n) [] = []
take (suc n) (c ∷ s) = c ∷ take n s

-- `%08x`: the eight characters behind the spaces at most.
unfoldable pub scan_hex8 : List ℕ → Option ℕ
scan_hex8 s = do (value, rest) ← scan_hex (take 8 (skip_spaces s)); some value

-- `%x`, of which only the value is used.
unfoldable pub scan_value : List ℕ → Option ℕ
scan_value s = elim (scan_hex s) [ none ↦ none | some (value, _) ↦ some value ]

-- `,%x` behind a first conversion.
unfoldable pub scan_next : List ℕ → Option (ℕ × List ℕ)
scan_next [] = none
scan_next (c ∷ s) = if c == b',' then scan_hex s else none

-- The decimal digits at the head of a text behind those that give `n`.
unfoldable pub decimal : List ℕ → ℕ → ℕ
decimal [] n = n
decimal (c ∷ s) n =
    let rest = decimal s (10 * n + (c - b'0')) in if leb b'0' c && leb c b'9' then rest else n

-- `atoi`, as the 32 bits of its `int`: the conversion of what `strtol` gives, which stays within
-- the range of `long`.
unfoldable pub atoi : List ℕ → ℕ
atoi s =
    let signed = take_sign (skip_spaces s) in
    let n = decimal signed.1 0 in
    if signed.0
    then (2 ^ 64 - (if ltb (2 ^ 63) n then 2 ^ 63 else n)) % 2 ^ 32
    else (if leb (2 ^ 63) n then 2 ^ 63 - 1 else n) % 2 ^ 32

-- `%x,%x`: the values that are assigned.
unfoldable pub scan_pair : List ℕ → Option ℕ × Option ℕ
scan_pair s = elim (scan_hex s) [
  | none ↦ (none, none)
  | some (first, rest) ↦ elim (scan_next rest) [
    | none ↦ (some first, none)
    | some (second, _) ↦ (some first, some second)
  ]
]

-- `%hhx,%x`, of which the first conversion is to `unsigned char`.
unfoldable pub scan_byte_pair : List ℕ → Option ℕ × Option ℕ
unfolding scan_pair
scan_byte_pair s =
    let read = scan_pair s in
    (elim read.0 [ none ↦ none | some value ↦ some (value % 2 ^ 8) ], read.1)

-- The content of a variable behind a conversion that may not have assigned it.
abbrev pub assigned : Option ℕ → ℕ → ℕ
assigned none old = old
assigned (some value) old = value
