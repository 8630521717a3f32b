-- ===== src/Memory/RoundTrip.antt =====
-- memory.c: reads of a word behind a write, and past the end of the memory.
use projet_l3_inf_bn_zl_rj_r.Prelude.{
  leb, if◌then◌else◌, none, ℕ, ◌+◌, ◌^◌, ◌≤◌, ◌<◌, ◌≡◌, ◌∙◌, ap, pos, none, some, arith, ◌==◌, inl,
  inr, Bool-cases,
}
use projet_l3_inf_bn_zl_rj_r.Memory.{
  Memory, minus_one, memory_read_word, memory_write_word, gather, load,
}
use projet_l3_inf_bn_zl_rj_r.Memory.Word.{
  with_word, word_byte, word_of, memory_write_word-with_word, memory_read_word-word_of,
}

-- The four bytes of a word stand for it.
pub word_of-word_byte :
    (be value : ℕ)
    → value < 2 ^ 32
    → word_of be
        (word_byte be value 0)
        (word_byte be value 1)
        (word_byte be value 2)
        (word_byte be value 3)
      ≡ value
word_of-word_byte be value h = elim (Bool-cases (be == 0)) [
  | inl little ↦ rw little (omega arith)
  | inr big ↦ rw big (omega arith)
]

pub word_byte-lt : (be value i : ℕ) → word_byte be value i < 256
word_byte-lt be value i = omega arith

-- A word written inside the memory is read back unchanged, in either byte order, whatever the
-- variable held that the read assigns.
pub memory_read_word-write_word :
    (mem : Memory) (address value be old : ℕ)
    → address + 3 < mem.size
    → mem.size ≤ 2 ^ 32
    → value < 2 ^ 32
    → (mem' : Memory) × (memory_write_word mem address value be ≡ some (pos 0, mem'))
      × (memory_read_word mem' address old be ≡ some (pos 0, value))
memory_read_word-write_word mem address value be old fits small word =
    let mem' = with_word be address value mem in
    let read : memory_read_word mem' address old be
        ≡ some (
          pos 0,
          word_of be (word_byte be value 0) (word_byte be value 1) (word_byte be value 2)
              (word_byte be value 3),
        ) =
      memory_read_word-word_of mem' address fits small be old _ _ _ _ (ground arith) (ground arith)
        (ground arith) (ground arith) (word_byte-lt be value 0) (word_byte-lt be value 1)
        (word_byte-lt be value 2) (word_byte-lt be value 3) in
    (
      mem',
      memory_write_word-with_word mem address fits small be value,
      read ∙ ap (λ (v : ℕ). some (pos 0, v)) (word_of-word_byte be value word),
    )

-- A read of a word that does not lie inside the memory as a whole: it is refused and leaves
-- `*value` alone if its first byte is outside, and stops the process otherwise, since the code tests
-- the first byte only.
pub memory_read_word_outside :
    (mem : Memory) (address old be : ℕ)
    → mem.size + 3 ≤ 2 ^ 32
    → mem.size ≤ address + 3
    → memory_read_word mem address old be
      ≡ (if leb mem.size address then some (minus_one, old) else none)
unfolding memory_read_word gather load
memory_read_word_outside mem address old be small outside = ground arith

-- What a successful read gives does not depend on what the variable held before.
pub memory_read_word_fresh :
    (mem : Memory) (address old old' be word : ℕ)
    → memory_read_word mem address old be ≡ some (pos 0, word)
    → memory_read_word mem address old' be ≡ some (pos 0, word)
unfolding memory_read_word
memory_read_word_fresh mem address old old' be word h = ground arith
