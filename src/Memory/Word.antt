-- ===== src/Memory/Word.antt =====
-- Word accesses of memory.c: the bytes that a write stores, and what a read makes of them.
use native.Mathlib.Nat.{add-zero}
use projet_l3_inf_bn_zl_rj_r.Prelude.{
  ℕ, ◌+◌, ◌-◌, ◌*◌, ◌/◌, ◌%◌, ◌^◌, ◌≤◌, ◌<◌, ◌≡◌, refl, pos, some, arith, if◌then◌else◌, ◌==◌, u8,
  u32, ◌<<<◌, lt→leb, ltb, inl, inr, Bool-cases, true,
}
use projet_l3_inf_bn_zl_rj_r.Util.{reverse_4}
use projet_l3_inf_bn_zl_rj_r.Util.Laws.{get_bits_lem, reverse_4_lem}
use projet_l3_inf_bn_zl_rj_r.Memory.{
  Memory, memory_read_word, memory_write_word, byte_out, gather, load, store, scatter,
}

-- Byte `i` of a word in memory: the most significant comes first in big endian.
abbrev pub word_byte : ℕ → ℕ → ℕ → ℕ
word_byte be value i = value / 2 ^ (8 * (if be == 0 then i else 3 - i)) % 256

-- Memory after the four bytes of a word are stored from `address` on.
abbrev pub with_word : ℕ → ℕ → ℕ → Memory → Memory
with_word be address value mem = record mem {
  cells = λ j.
      if j == address + 3
      then word_byte be value 3
      else if j == address + 2
      then word_byte be value 2
      else if j == address + 1
      then word_byte be value 1
      else if j == address
      then word_byte be value 0
      else mem.cells j;
}

-- The word that four bytes in memory order stand for.
abbrev pub word_of : ℕ → ℕ → ℕ → ℕ → ℕ → ℕ
word_of be b0 b1 b2 b3 =
    if be == 0
    then ((b3 * 256 + b2) * 256 + b1) * 256 + b0
    else ((b0 * 256 + b1) * 256 + b2) * 256 + b3

byte_out-word_byte : (be value i : ℕ) → i < 4 → u8 (byte_out be 4 value i) ≡ word_byte be value i
unfolding byte_out
byte_out-word_byte be value i h =
    let nine : 8 * (i + 1) - 8 * i + 1 ≡ 9 = omega arith in
    let nine' : 8 * (4 - i) - 8 * (4 - 1 - i) + 1 ≡ 9 = omega arith in
    let shift : 8 * (4 - 1 - i) ≡ 8 * (3 - i) = omega arith in
    elim (Bool-cases (be == 0)) [
      | inl little ↦
          rw (little, get_bits_lem value (8 * (i + 1)) (8 * i) (omega arith), nine) (omega arith)
      | inr big ↦
          rw (big, get_bits_lem value (8 * (4 - i)) (8 * (4 - 1 - i)) (omega arith), nine', shift)
            (omega arith)
    ]

-- The sum that the loop of `memory_read_word` builds, before the byte order is looked at.
gathered :
    (b0 b1 b2 b3 : ℕ)
    → b0 < 256
    → b1 < 256
    → b2 < 256
    → b3 < 256
    → u32 (u32 (u32 (u32 (0 + b0 <<< 24) + b1 <<< 16) + b2 <<< 8) + b3 <<< 0)
      ≡ ((b0 * 256 + b1) * 256 + b2) * 256 + b3
gathered b0 b1 b2 b3 h0 h1 h2 h3 = omega arith

reversed :
    (b0 b1 b2 b3 : ℕ)
    → b0 < 256
    → b1 < 256
    → b2 < 256
    → b3 < 256
    → reverse_4 (((b0 * 256 + b1) * 256 + b2) * 256 + b3) ≡ ((b3 * 256 + b2) * 256 + b1) * 256 + b0
reversed b0 b1 b2 b3 h0 h1 h2 h3 =
    omega (arith, reverse_4_lem (((b0 * 256 + b1) * 256 + b2) * 256 + b3))

module _ (mem : Memory) (address : ℕ) (fits : address + 3 < mem.size)
    (small : mem.size ≤ 2 ^ 32) where
  in_word : (i : ℕ) → i ≤ 3 → u32 (address + i) ≡ address + i
  in_word i h = omega arith

  inside : (i : ℕ) → i ≤ 3 → ltb (address + i) mem.size ≡ true
  inside i h = ground arith

  -- A write of a word that lies inside the memory succeeds, puts its four bytes in the order that
  -- `be` asks for, and leaves every other byte and the size alone.
  pub memory_write_word-with_word :
      (be value : ℕ)
      → memory_write_word mem address value be ≡ some (pos 0, with_word be address value mem)
  unfolding memory_write_word scatter store
  memory_write_word-with_word be value =
      rw
        (
          in_word 0 (omega arith),
          in_word 1 (omega arith),
          in_word 2 (omega arith),
          in_word 3 (omega arith),
          inside 0 (omega arith),
          inside 1 (omega arith),
          inside 2 (omega arith),
          inside 3 (omega arith),
          lt→leb mem.size address (omega arith),
          byte_out-word_byte be value 0 (omega arith),
          byte_out-word_byte be value 1 (omega arith),
          byte_out-word_byte be value 2 (omega arith),
          byte_out-word_byte be value 3 (omega arith),
          add-zero address,
        )
        refl

  -- A read of a word that lies inside the memory gives the word that its four bytes stand for.
  pub memory_read_word-word_of :
      (be old b0 b1 b2 b3 : ℕ)
      → mem.cells address ≡ b0
      → mem.cells (address + 1) ≡ b1
      → mem.cells (address + 2) ≡ b2
      → mem.cells (address + 3) ≡ b3
      → b0 < 256
      → b1 < 256
      → b2 < 256
      → b3 < 256
      → memory_read_word mem address old be ≡ some (pos 0, word_of be b0 b1 b2 b3)
  unfolding memory_read_word gather load
  memory_read_word-word_of be old b0 b1 b2 b3 e0 e1 e2 e3 h0 h1 h2 h3 =
      rw
        (
          in_word 0 (omega arith),
          in_word 1 (omega arith),
          in_word 2 (omega arith),
          in_word 3 (omega arith),
          inside 0 (omega arith),
          inside 1 (omega arith),
          inside 2 (omega arith),
          inside 3 (omega arith),
          lt→leb mem.size address (omega arith),
          add-zero address,
          e0,
          e1,
          e2,
          e3,
          gathered b0 b1 b2 b3 h0 h1 h2 h3,
          reversed b0 b1 b2 b3 h0 h1 h2 h3,
        )
        refl
