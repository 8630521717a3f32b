-- ===== src/Memory.antt =====
-- memory.c: the memory area and its accesses by byte, half word and word, in either byte order.
-- An access returns `none` where the C code indexes `mem->data` past its end: the program is
-- built with -fsanitize=address (Makefile.am), which stops the process there. Otherwise it gives
-- the C result, 0 or -1, with the new content of `*value` or the new memory.
pub mod Word
pub mod RoundTrip
pub mod Half
use projet_l3_inf_bn_zl_rj_r.Prelude.{
  ℕ, zero, suc, ◌+◌, ◌-◌, ◌*◌, ℤ, pos, negsuc, Bool, true, false, Option, none, some, ◌>>=◌,
  if◌then◌else◌, ltb, leb, ◌==◌, u8, u16, u32, ◌<<<◌,
}
use projet_l3_inf_bn_zl_rj_r.Util.{get_bits, reverse_2, reverse_4}

-- `struct memory_data`. `cells` is the field `data`, of which the first `size` bytes exist.
pub record Memory : Type 0 where
  pub size : ℕ
  pub cells : ℕ → ℕ

abbrev pub minus_one : ℤ
minus_one = negsuc 0

-- What `memory_create` returns: NULL, a pointer that it has just freed, or a memory.
pub data Created : Type 0 where
  null dangling : Created
  made : Memory → Created

-- The arguments stand for the two calls of `malloc`: whether the structure finds room, and the
-- bytes that happen to be in the area, if that finds room.
unfoldable pub memory_create : Bool → Option (ℕ → ℕ) → ℕ → Created
memory_create false area size = null
memory_create true none size = dangling
memory_create true (some content) size = made (record { size = size; cells = content })

unfoldable pub memory_get_size : Memory → ℕ
memory_get_size mem = mem.size

-- The byte `mem->data[i]`.
unfoldable pub load : Memory → ℕ → Option ℕ
load mem i = if ltb i mem.size then some (mem.cells i) else none

-- The assignment `mem->data[i] = value`; the store into a `uint8_t` cuts the value.
unfoldable pub store : Memory → ℕ → ℕ → Option Memory
store mem i value =
    if ltb i mem.size
    then some (record mem { cells = λ j. if j == i then u8 value else mem.cells j })
    else none

unfoldable pub memory_read_byte : Memory → ℕ → ℕ → Option (ℤ × ℕ)
memory_read_byte mem address value =
    if leb mem.size address
    then some (minus_one, value)
    else do byte ← load mem address; some (pos 0, byte)

-- `address + i` is computed in `uint32_t`.
unfoldable pub memory_read_half : Memory → ℕ → ℕ → ℕ → Option (ℤ × ℕ)
memory_read_half mem address value be = if leb mem.size address then some (minus_one, value) else do
  low ← load mem (u32 (address + 1))
  high ← load mem address
  let tmp = u16 (low + high <<< 8)
  some (pos 0, if be == 0 then reverse_2 tmp else tmp)

-- The loop `for (i = 0; i < 4; i++) tmp += data[address + i] << (3 - i) * 8`, at `rounds` left.
unfoldable pub gather : Memory → ℕ → ℕ → ℕ → Option ℕ
gather mem address zero tmp = some tmp
gather mem address (suc rounds) tmp = load mem (u32 (address + (3 - rounds))) >>= λ byte.
    gather mem address rounds (u32 (tmp + byte <<< (rounds * 8)))

unfoldable pub memory_read_word : Memory → ℕ → ℕ → ℕ → Option (ℤ × ℕ)
memory_read_word mem address value be =
    if leb mem.size address
    then some (minus_one, value)
    else do tmp ← gather mem address 4 0; some (pos 0, if be == 0 then reverse_4 tmp else tmp)

unfoldable pub memory_write_byte : Memory → ℕ → ℕ → Option (ℤ × Memory)
memory_write_byte mem address value =
    if leb mem.size address
    then some (minus_one, mem)
    else do mem' ← store mem address value; some (pos 0, mem')

-- What round `i` of a write of `width` bytes assigns.
unfoldable pub byte_out : ℕ → ℕ → ℕ → ℕ → ℕ
byte_out be width value i =
    if be == 0
    then get_bits value (8 * (i + 1)) (8 * i)
    else get_bits value (8 * (width - i)) (8 * (width - 1 - i))

-- The loop of both wide writes over `width` bytes, at round `i` with `rounds` left.
unfoldable pub scatter : ℕ → ℕ → ℕ → ℕ → ℕ → ℕ → Memory → Option Memory
scatter be width address value i zero mem = some mem
scatter be width address value i (suc rounds) mem =
    store mem (u32 (address + i)) (byte_out be width value i)
    >>= scatter be width address value (i + 1) rounds

unfoldable pub memory_write_half : Memory → ℕ → ℕ → ℕ → Option (ℤ × Memory)
memory_write_half mem address value be =
    if leb mem.size address
    then some (minus_one, mem)
    else do mem' ← scatter be 2 address value 0 2 mem; some (pos 0, mem')

unfoldable pub memory_write_word : Memory → ℕ → ℕ → ℕ → Option (ℤ × Memory)
memory_write_word mem address value be =
    if leb mem.size address
    then some (minus_one, mem)
    else do mem' ← scatter be 4 address value 0 4 mem; some (pos 0, mem')
