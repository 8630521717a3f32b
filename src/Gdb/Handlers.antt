-- ===== src/Gdb/Handlers.antt =====
-- gdb_protocol.c: the handlers of the requests. A handler takes the array behind the letter of the
-- request: the text of the request, a NUL, and what stands behind it in the scanner's buffer. The
-- debug messages and the warning are left out.
use projet_l3_inf_bn_zl_rj_r.Prelude.{
  ℕ, zero, suc, ◌+◌, ◌-◌, ◌^◌, is_zero, is_minus_one, Bool, true, false, not, ◌&&◌, ◌||◌, List, [],
  ◌∷◌, ◌++◌, Option, none, some, ◌>>=◌, if◌then◌else◌, ltb, ◌==◌, u8, u32, bit_xor,
}
use projet_l3_inf_bn_zl_rj_r.Libc.{
  codes, c_string, advance, same_text, starts_with, behind, print_hex, scan_value, scan_hex8,
  scan_pair, scan_byte_pair, assigned, atoi,
}
use projet_l3_inf_bn_zl_rj_r.Machine.{Machine}
use projet_l3_inf_bn_zl_rj_r.Registers.{
  Registers, registers_read, registers_write, registers_get_mode, registers_read_cpsr,
  registers_write_cpsr,
}
use projet_l3_inf_bn_zl_rj_r.Memory.{Memory, memory_read_byte, memory_write_byte, memory_get_size}
use projet_l3_inf_bn_zl_rj_r.Instruction.{arm_step}
use projet_l3_inf_bn_zl_rj_r.Gdb.{
  Gdb, gdb_find_breakpoint, gdb_add_breakpoint, gdb_remove_breakpoint,
}
use projet_l3_inf_bn_zl_rj_r.Gdb.Replies.{gdb_send_data, gdb_send_buffer, gdb_send_stop_reason}

-- The registers and the memory of `arm`, which `gdb->reg` and `gdb->mem` point to.
abbrev pub put_registers : Gdb → Registers → Gdb
put_registers gdb reg' = record gdb { arm = record gdb.arm { reg = reg' } }

abbrev pub put_memory : Gdb → Memory → Gdb
put_memory gdb mem' = record gdb { arm = record gdb.arm { mem = mem' } }

unfoldable pub single_step : Machine → Gdb → Option Gdb
single_step m gdb = do
  (result, arm') ← arm_step m gdb.arm
  some (record gdb { target_exception = result; arm = arm' })

unfoldable pub single_step_with_signal : Machine → Gdb → Option Gdb
single_step_with_signal m gdb = single_step m gdb

-- The test behind a round of `cont`: a breakpoint at the program counter, or an exception.
unfoldable pub stops : Gdb → Bool
stops gdb =
    let pc = registers_read gdb.arm.reg 15 (registers_get_mode gdb.arm.reg) in
    elim (gdb_find_breakpoint gdb pc) [
      | some position ↦ true
      | none ↦ not (is_zero gdb.target_exception)
    ]

-- The loop of `cont`, on fuel; `none` where the fuel runs out too.
unfoldable pub run_on : ℕ → Machine → Gdb → Option Gdb
run_on zero m gdb = none
run_on (suc fuel) m gdb = single_step m gdb >>= λ gdb'.
    let rest = run_on fuel m gdb' in if stops gdb' then some gdb' else rest

unfoldable pub cont : ℕ → Machine → Gdb → Option Gdb
cont fuel m gdb = run_on fuel m gdb >>= gdb_send_stop_reason

-- `shutdown(gdb->fd, SHUT_WR)`.
unfoldable pub kill_request : Gdb → Gdb
kill_request gdb = record gdb { shut = true }

unfoldable pub query : Gdb → List ℕ → Option Gdb
query gdb raw =
    let text = c_string raw in
    if same_text text (codes "Offsets")
    then gdb_send_data gdb (codes "Text=0;Data=0;Bss=0")
    else if starts_with (codes "Supported") text
    then gdb_send_data gdb (codes "PacketSize=400")
    else if same_text text (codes "TStatus")
    then gdb_send_data gdb (codes "T0;tnotrun:0")
    else if same_text text (codes "Symbol::")
    then gdb_send_data gdb []
    else gdb_send_data gdb []

-- The text that `read_register` writes; its argument is a `uint8_t`.
unfoldable pub read_register : Gdb → ℕ → Option (List ℕ)
read_register gdb reg =
    if ltb (u8 reg) 16
    then some (print_hex 8 (registers_read gdb.arm.reg (u8 reg) (registers_get_mode gdb.arm.reg)))
    else none

-- The loop over the registers, from `reg` on, with `rounds` left.
unfoldable pub print_registers : ℕ → ℕ → Gdb → Option (List ℕ)
print_registers zero reg gdb = some []
print_registers (suc rounds) reg gdb = do
  text ← read_register gdb reg
  rest ← print_registers rounds (reg + 1) gdb
  some (text ++ rest)

-- A text `n` times.
unfoldable pub times : ℕ → List ℕ → List ℕ
times zero text = []
times (suc n) text = text ++ times n text

unfoldable pub read_general_registers : Gdb → Option Gdb
read_general_registers gdb = do
  general ← print_registers 16 0 gdb
  gdb_send_buffer gdb (
      general
      ++ times 24 (codes "xxxxxxxx")
      ++ codes "xxxxxxxx"
      ++ print_hex 8 (registers_read_cpsr gdb.arm.reg))

-- The loop of `read_memory`, with `size` bytes left; `value` is the variable of that name.
unfoldable pub dump : ℕ → Memory → ℕ → ℕ → Option (List ℕ)
dump zero mem address value = some []
dump (suc size) mem address value = memory_read_byte mem address value >>= λ (result, byte).
    let rest = dump size mem (u32 (address + 1)) byte in
    if is_minus_one result then some [] else (rest >>= λ text. some (print_hex 2 byte ++ text))

unfoldable pub read_memory : Machine → Gdb → List ℕ → Option Gdb
read_memory m gdb raw = do
  let read = scan_pair (c_string raw)
  let address = assigned read.0 (u32 (m.stale_word gdb.arm.cycle_count))
  let size = assigned read.1 (u32 (m.stale_second_word gdb.arm.cycle_count))
  let mem = gdb.arm.mem
  text ←
      (if ltb address (memory_get_size mem)
        then dump size mem address (u8 (m.stale_byte gdb.arm.cycle_count))
        else some (codes "E0E"))
  gdb_send_buffer gdb text

unfoldable pub read_single_register : Gdb → List ℕ → Option Gdb
read_single_register gdb raw = do
  text ← read_register gdb (atoi (c_string raw))
  gdb_send_buffer gdb text

unfoldable pub reason : Gdb → Option Gdb
reason gdb = gdb_send_stop_reason gdb

-- The value is one of 0 and -1, as the 32 bits of an `int`.
unfoldable pub set_thread : Gdb → List ℕ → Option Gdb
set_thread gdb raw = elim raw [
  | [] ↦ none
  | type ∷ rest ↦
      let value = atoi (c_string rest) in
      if (type == b'c' || type == b'g') && (value == 0 || value == 2 ^ 32 - 1)
      then gdb_send_data gdb (codes "OK")
      else gdb_send_data gdb (codes "E01")
]

unfoldable pub step : Machine → Gdb → Option Gdb
step m gdb = single_step m gdb >>= gdb_send_stop_reason

unfoldable pub step_with_signal : Machine → Gdb → Option Gdb
step_with_signal m gdb = single_step_with_signal m gdb >>= gdb_send_stop_reason

-- `read_uint32`.
unfoldable pub read_uint32 : Machine → Gdb → List ℕ → ℕ
read_uint32 m gdb raw = assigned (scan_hex8 (c_string raw)) (u32 (m.stale_word gdb.arm.cycle_count))

unfoldable pub write_register : Machine → Gdb → ℕ → List ℕ → Option Gdb
write_register m gdb reg raw =
    let value = read_uint32 m gdb raw in
    if ltb reg 16
    then some
        (put_registers gdb (registers_write gdb.arm.reg reg (registers_get_mode gdb.arm.reg) value))
    else none

-- The loop over the registers, from `reg` on, with `rounds` left: the array behind it and the state.
unfoldable pub write_registers : ℕ → ℕ → Machine → Gdb → List ℕ → Option (List ℕ × Gdb)
write_registers zero reg m gdb raw = some (raw, gdb)
write_registers (suc rounds) reg m gdb raw = do
  gdb' ← write_register m gdb reg raw
  raw' ← advance 8 raw
  write_registers rounds (reg + 1) m gdb' raw'

unfoldable pub write_general_registers : Machine → Gdb → List ℕ → Option Gdb
write_general_registers m gdb raw = do
  (behind_registers, gdb') ← write_registers 16 0 m gdb raw
  position ← advance 200 behind_registers
  let value = read_uint32 m gdb' position
  gdb_send_data (put_registers gdb' (registers_write_cpsr gdb'.arm.reg value)) (codes "OK")

unfoldable pub write_single_register : Machine → Gdb → List ℕ → Option Gdb
write_single_register m gdb raw = do
  let reg = assigned (scan_value (c_string raw)) (u32 (m.stale_word gdb.arm.cycle_count))
  content ← behind b'=' raw
  gdb' ← write_register m gdb reg content
  gdb_send_data gdb' (codes "OK")

-- A byte of the content of `write_memory_binary`, and what follows it: 0x7d escapes.
unfoldable pub next_byte : List ℕ → Option (ℕ × List ℕ)
next_byte [] = none
next_byte (c ∷ s) =
    if c == 0x7d
    then elim s [ [] ↦ none | d ∷ rest ↦ some (u8 (bit_xor d 0x20), rest) ]
    else some (u8 c, s)

-- The loop of `write_memory_binary`, entered with `write_ok`, with `rounds` left.
unfoldable pub fill : ℕ → Memory → ℕ → List ℕ → Option (Bool × Memory)
fill zero mem address content = some (true, mem)
fill (suc rounds) mem address content = next_byte content >>= λ (value, content').
    memory_write_byte mem address value >>= λ (result, mem').
    let rest = fill rounds mem' (u32 (address + 1)) content' in
    if is_zero result then rest else some (false, mem')

-- What stands behind the `:` of a request X. Without one the pointer is to no place that can be read,
-- which an empty array stands for.
abbrev pub content_of : List ℕ → List ℕ
content_of raw = elim (behind b':' raw) [ none ↦ [] | some text ↦ text ]

unfoldable pub write_memory_binary : Machine → Gdb → List ℕ → Option Gdb
write_memory_binary m gdb raw = do
  let read = scan_pair (c_string raw)
  let address = assigned read.0 (u32 (m.stale_word gdb.arm.cycle_count))
  let size = assigned read.1 (u32 (m.stale_second_word gdb.arm.cycle_count))
  let mem = gdb.arm.mem
  let content = content_of raw
  (write_ok, mem') ←
      (if ltb address (memory_get_size mem)
        then fill size mem address content
        else some (false, mem))
  gdb_send_data (put_memory gdb mem') (if write_ok then codes "OK" else codes "E02")

-- The type and the address of a breakpoint; the length is not used.
abbrev pub breakpoint_of : Machine → Gdb → List ℕ → ℕ × ℕ
breakpoint_of m gdb raw =
    let read = scan_byte_pair (c_string raw) in
    (
      assigned read.0 (u8 (m.stale_byte gdb.arm.cycle_count)),
      assigned read.1 (u32 (m.stale_word gdb.arm.cycle_count)),
    )

unfoldable pub set_breakpoint : Machine → Gdb → List ℕ → Option Gdb
set_breakpoint m gdb raw =
    let at = breakpoint_of m gdb raw in
    if not (at.0 == 0)
    then gdb_send_data gdb (codes "E03")
    else let added = gdb_add_breakpoint gdb at.1 in
      gdb_send_data added.1 (if added.0 == 0 then codes "E04" else codes "OK")

unfoldable pub remove_breakpoint : Machine → Gdb → List ℕ → Option Gdb
remove_breakpoint m gdb raw =
    let at = breakpoint_of m gdb raw in
    if not (at.0 == 0)
    then gdb_send_data gdb (codes "E03")
    else let removed = gdb_remove_breakpoint gdb at.1 in
      gdb_send_data removed.1 (if removed.0 == 0 then codes "E05" else codes "OK")
