-- ===== src/Gdb/Transfer.antt =====
-- The requests X and m: bytes that are written to memory, and the dump of memory.
pub mod Requests
use projet_l3_inf_bn_zl_rj_r.Prelude.{
  all_below, all_below_sound, ==→eq, ==_refl, lt→leb, lt→ltb, ◌==◌, ℕ, zero, suc, ◌+◌, ◌*◌, ◌<◌,
  ◌≤◌, ◌≡◌, ◌^◌, refl, ap, sym, ◌∙◌, Bool, true, false, if◌then◌else◌, ltb, leb, List, [], ◌∷◌,
  ◌++◌, Option, none, some, ◌>>=◌, ◌%◌, pos, is_zero, is_minus_one, u8, u32, bit_xor, arith, inl,
  inr, Bool-cases,
}
use projet_l3_inf_bn_zl_rj_r.Libc.{length, print_hex}
use projet_l3_inf_bn_zl_rj_r.Libc.Text.{length-++, length-print_hex, ++-assoc}
use projet_l3_inf_bn_zl_rj_r.Memory.{Memory, load, store, memory_read_byte, memory_write_byte}
use projet_l3_inf_bn_zl_rj_r.Gdb.Handlers.{next_byte, fill, dump}

-- The bytes of a list.
abbrev pub AreAll8 : List ℕ → Type 0
AreAll8 [] = Unit
AreAll8 (b ∷ s) = (b < 2 ^ 8) × AreAll8 s

-- The content of X for some bytes, of which those that `special` names are escaped.
abbrev pub escape : (ℕ → Bool) → List ℕ → List ℕ
escape special [] = []
escape special (b ∷ s) =
    if special b then 0x7d ∷ bit_xor b 0x20 ∷ escape special s else b ∷ escape special s

-- A memory in which some bytes have been assigned from an address on.
abbrev pub with_bytes : Memory → ℕ → List ℕ → Memory
with_bytes mem address [] = mem
with_bytes mem address (b ∷ s) =
    with_bytes (record mem { cells = λ j. if j == address then b else mem.cells j }) (address + 1) s

-- The text of some bytes.
abbrev pub byte_text : List ℕ → List ℕ
byte_text [] = []
byte_text (b ∷ s) = print_hex 2 b ++ byte_text s

-- The text of the `n` bytes of a memory from an address on.
abbrev pub cell_text : ℕ → Memory → ℕ → List ℕ
cell_text zero mem address = []
cell_text (suc n) mem address = print_hex 2 (mem.cells address) ++ cell_text n mem (address + 1)

xor_twice : (b : ℕ) → b < 256 → bit_xor (bit_xor b 0x20) 0x20 ≡ b
unfolding all_below
xor_twice b small =
    ==→eq _ b (all_below_sound 256 (λ c. bit_xor (bit_xor c 0x20) 0x20 == c) b refl small)

next_byte-escape :
    (special : ℕ → Bool) (b : ℕ) (s rest : List ℕ)
    → special 0x7d ≡ true
    → b < 2 ^ 8
    → next_byte (escape special (b ∷ s) ++ rest) ≡ some (b, escape special s ++ rest)
unfolding next_byte
next_byte-escape special b s rest marked small = elim (Bool-cases (special b)) [
  | inl escaped ↦ rw (escaped, xor_twice b small) (ground arith)
  | inr plain ↦ elim (Bool-cases (b == 0x7d)) [
    | inl e ↦
        let same : b ≡ 0x7d = ==→eq b 0x7d e in let marked' = rw (sym same) at marked in absurd (cc)
    | inr other ↦ rw (plain, other) (ground arith)
  ]
]

write_byte_inside :
    (mem : Memory) (address b : ℕ)
    → address < mem.size
    → b < 2 ^ 8
    → memory_write_byte mem address b
      ≡ some (pos 0, record mem { cells = λ j. if j == address then b else mem.cells j })
unfolding memory_write_byte store
write_byte_inside mem address b inside small =
    let e : u8 b ≡ b = omega arith in
    rw (lt→leb mem.size address inside, lt→ltb address mem.size inside, e) refl

read_byte_inside :
    (mem : Memory) (address value : ℕ)
    → address < mem.size
    → memory_read_byte mem address value ≡ some (pos 0, mem.cells address)
unfolding memory_read_byte load
read_byte_inside mem address value inside =
    rw (lt→leb mem.size address inside, lt→ltb address mem.size inside) refl

pub fill-escape :
    (special : ℕ → Bool) (bytes : List ℕ) (mem : Memory) (address : ℕ) (rest : List ℕ)
    → special 0x7d ≡ true
    → AreAll8 bytes
    → address + length bytes ≤ mem.size
    → mem.size < 2 ^ 32
    → fill (length bytes) mem address (escape special bytes ++ rest)
      ≡ some (true, with_bytes mem address bytes)
unfolding fill
fill-escape special [] mem address rest marked small inside bound = refl
fill-escape special (b ∷ s) mem address rest marked (low, small) inside bound =
    let next : u32 (address + 1) ≡ address + 1 = omega arith in
    rw
      (
        next_byte-escape special b s rest marked low,
        write_byte_inside mem address b (omega arith) low,
        next,
      )
      (fill-escape special s _ (address + 1) rest marked small (omega arith) bound)

pub dump-cell_text :
    (n : ℕ) (mem : Memory) (address value : ℕ)
    → address + n ≤ mem.size
    → mem.size < 2 ^ 32
    → dump n mem address value ≡ some (cell_text n mem address)
unfolding dump
dump-cell_text zero mem address value inside bound = refl
dump-cell_text (suc n) mem address value inside bound =
    let next : u32 (address + 1) ≡ address + 1 = omega arith in
    rw
      (
        read_byte_inside mem address value (omega arith),
        next,
        dump-cell_text n mem (address + 1) (mem.cells address) (omega arith) bound,
      )
      refl

with_bytes_below :
    (bytes : List ℕ) (mem : Memory) (address j : ℕ)
    → j < address
    → (with_bytes mem address bytes).cells j ≡ mem.cells j
with_bytes_below [] mem address j below = refl
with_bytes_below (b ∷ s) mem address j below =
    let other : (j == address) ≡ false = ground arith in
    with_bytes_below s _ (address + 1) j (omega arith) ∙ rw other refl

pub size-with_bytes :
    (bytes : List ℕ) (mem : Memory) (address : ℕ) → (with_bytes mem address bytes).size ≡ mem.size
size-with_bytes [] mem address = refl
size-with_bytes (b ∷ s) mem address = size-with_bytes s _ (address + 1)

pub cell_text-with_bytes :
    (bytes : List ℕ) (mem : Memory) (address : ℕ)
    → cell_text (length bytes) (with_bytes mem address bytes) address ≡ byte_text bytes
cell_text-with_bytes [] mem address = refl
cell_text-with_bytes (b ∷ s) mem address =
    let here : (address == address) ≡ true = ==_refl address in
    rw
      (
        with_bytes_below s _ (address + 1) address (omega arith),
        here,
        cell_text-with_bytes s _ (address + 1),
      )
      refl

pub length-cell_text :
    (n : ℕ) (mem : Memory) (address : ℕ) → length (cell_text n mem address) ≡ n * 2
length-cell_text zero mem address = omega arith
length-cell_text (suc n) mem address =
    rw
      (
        length-++ (print_hex 2 (mem.cells address)) (cell_text n mem (address + 1)),
        length-print_hex 2 (mem.cells address),
        length-cell_text n mem (address + 1),
      )
      (omega arith)
