-- ===== src/Memory/Half.antt =====
-- Half-word accesses of memory.c.
use native.Mathlib.Nat.{add-zero}
use projet_l3_inf_bn_zl_rj_r.Prelude.{
  ℕ, ◌+◌, ◌-◌, ◌*◌, ◌/◌, ◌%◌, ◌^◌, ◌≤◌, ◌<◌, ◌≡◌, refl, pos, some, arith, if◌then◌else◌, ◌==◌, u8,
  u16, u32, ◌<<<◌, lt→leb, lt→ltb, inl, inr, Bool-cases, false, ==_refl,
}
use projet_l3_inf_bn_zl_rj_r.Util.{reverse_2}
use projet_l3_inf_bn_zl_rj_r.Util.Laws.{get_bits_lem, reverse_2_lem}
use projet_l3_inf_bn_zl_rj_r.Memory.{
  Memory, memory_read_half, memory_write_half, byte_out, load, store, scatter,
}

-- Byte `i` of a half word in memory.
abbrev half_byte : ℕ → ℕ → ℕ → ℕ
half_byte be value i = value / 2 ^ (8 * (if be == 0 then i else 1 - i)) % 256

-- Memory after the two bytes of a half word are stored from `address` on.
abbrev pub with_half : ℕ → ℕ → ℕ → Memory → Memory
with_half be address value mem = record mem {
  cells = λ j.
      if j == address + 1
      then half_byte be value 1
      else if j == address
      then half_byte be value 0
      else mem.cells j;
}

byte_out-half_byte : (be value i : ℕ) → i < 2 → u8 (byte_out be 2 value i) ≡ half_byte be value i
unfolding byte_out
byte_out-half_byte be value i h =
    let nine : 8 * (i + 1) - 8 * i + 1 ≡ 9 = omega arith in
    let nine' : 8 * (2 - i) - 8 * (2 - 1 - i) + 1 ≡ 9 = omega arith in
    let shift : 8 * (2 - 1 - i) ≡ 8 * (1 - i) = omega arith in
    elim (Bool-cases (be == 0)) [
      | inl little ↦
          rw (little, get_bits_lem value (8 * (i + 1)) (8 * i) (omega arith), nine) (omega arith)
      | inr big ↦
          rw (big, get_bits_lem value (8 * (2 - i)) (8 * (2 - 1 - i)) (omega arith), nine', shift)
            (omega arith)
    ]

-- What `memory_read_half` makes of the bytes of a half word.
assembled :
    (be value : ℕ)
    → value < 2 ^ 16
    → let tmp = u16 (half_byte be value 1 + half_byte be value 0 <<< 8) in
      (if be == 0 then reverse_2 tmp else tmp) ≡ value
assembled be value small = elim (Bool-cases (be == 0)) [
  | inl little ↦
      rw little (omega (arith, reverse_2_lem ((value / 256 % 256 + value / 1 % 256 * 256) % 65536)))
  | inr big ↦ rw big (omega arith)
]

module _ (mem : Memory) (address : ℕ) (fits : address + 1 < mem.size)
    (small : mem.size ≤ 2 ^ 32) where
  pub memory_write_half-with_half :
      (be value : ℕ)
      → memory_write_half mem address value be ≡ some (pos 0, with_half be address value mem)
  unfolding memory_write_half scatter store
  memory_write_half-with_half be value =
      let first : u32 address ≡ address = omega arith in
      let second : u32 (address + 1) ≡ address + 1 = omega arith in
      rw
        (
          add-zero address,
          first,
          second,
          lt→ltb address mem.size (omega arith),
          lt→ltb (address + 1) mem.size (omega arith),
          lt→leb mem.size address (omega arith),
          byte_out-half_byte be value 0 (omega arith),
          byte_out-half_byte be value 1 (omega arith),
        )
        refl

  -- A half word written inside a memory of at most 2^32 bytes is stored, and is read back unchanged
  -- in either byte order, whatever the variable held that the read assigns.
  pub memory_read_half-write_half :
      (be value old : ℕ)
      → value < 2 ^ 16
      → (memory_write_half mem address value be ≡ some (pos 0, with_half be address value mem))
        × (memory_read_half (with_half be address value mem) address old be ≡ some (pos 0, value))
  unfolding memory_read_half load
  memory_read_half-write_half be value old fit =
      let second : u32 (address + 1) ≡ address + 1 = omega arith in
      let other : (address == address + 1) ≡ false = ground arith in
      (
        memory_write_half-with_half be value,
        rw
            (
              second,
              lt→ltb address mem.size (omega arith),
              lt→ltb (address + 1) mem.size fits,
              lt→leb mem.size address (omega arith),
              ==_refl address,
              ==_refl (address + 1),
              other,
              assembled be value fit,
            )
            refl,
      )
