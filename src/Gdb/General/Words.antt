-- ===== src/Gdb/General/Words.antt =====
-- The handlers of g and G on a text of general registers, word by word.
use projet_l3_inf_bn_zl_rj_r.Prelude.{
  ℕ, zero, suc, ◌+◌, ◌/◌, ◌%◌, ◌^◌, ◌<◌, ◌≤◌, ◌≡◌, refl, ap, ◌∙◌, true, ltb, List, ◌∷◌, ◌++◌, some,
  u8, arith,
}
use projet_l3_inf_bn_zl_rj_r.Libc.{c_string, advance, print_hex, hex_digit}
use projet_l3_inf_bn_zl_rj_r.Libc.Hex.{scan_hex8-print_hex}
use projet_l3_inf_bn_zl_rj_r.Libc.Text.{++-assoc, advance_zero}
use projet_l3_inf_bn_zl_rj_r.Machine.{Machine}
use projet_l3_inf_bn_zl_rj_r.Registers.{registers_read, registers_write, registers_get_mode}
use projet_l3_inf_bn_zl_rj_r.Registers.Bank.{IsMode}
use projet_l3_inf_bn_zl_rj_r.Gdb.{Gdb}
use projet_l3_inf_bn_zl_rj_r.Gdb.Handlers.{
  put_registers, read_register, print_registers, read_uint32, write_register, write_registers,
}
use projet_l3_inf_bn_zl_rj_r.Gdb.General.{words, write_all}
use projet_l3_inf_bn_zl_rj_r.Registers.Modes.{mode-write}

c_string-hex_digit :
    (d : ℕ) (s : List ℕ) → d < 16 → c_string (hex_digit d ∷ s) ≡ hex_digit d ∷ c_string s
unfolding c_string hex_digit
c_string-hex_digit d s small = ground arith

c_string-print_hex :
    (width value : ℕ) (s : List ℕ)
    → c_string (print_hex width value ++ s) ≡ print_hex width value ++ c_string s
unfolding print_hex
c_string-print_hex zero value s = refl
c_string-print_hex (suc width) value s =
    c_string-hex_digit (value / 16 ^ width % 16) (print_hex width value ++ s) (omega arith)
    ∙ ap (λ (t : List ℕ). hex_digit (value / 16 ^ width % 16) ∷ t)
        (c_string-print_hex width value s)

-- A printed word is read back, whatever follows it.
pub read_uint32-print_hex :
    (m : Machine) (gdb : Gdb) (value : ℕ) (s : List ℕ)
    → value < 2 ^ 32
    → read_uint32 m gdb (print_hex 8 value ++ s) ≡ value
unfolding read_uint32
read_uint32-print_hex m gdb value s small =
    rw (c_string-print_hex 8 value s, scan_hex8-print_hex value (c_string s) small) refl

pub advance-word :
    (value : ℕ) (s : List ℕ) (c : ℕ) (t : List ℕ)
    → advance 8 (print_hex 8 value ++ (s ++ c ∷ t)) ≡ some (s ++ c ∷ t)
unfolding advance print_hex
advance-word value s c t = advance_zero s c t

pub write_register-print_hex :
    (m : Machine) (gdb : Gdb) (reg value : ℕ) (s : List ℕ)
    → reg < 16
    → value < 2 ^ 32
    → write_register m gdb reg (print_hex 8 value ++ s)
      ≡ some (
          put_registers gdb
            (registers_write gdb.arm.reg reg (registers_get_mode gdb.arm.reg) value))
unfolding write_register
write_register-print_hex m gdb reg value s inside small =
    let fits : ltb reg 16 ≡ true = ground arith in
    rw (read_uint32-print_hex m gdb value s small, fits) refl

pub write_registers-words :
    (rounds reg : ℕ) (m : Machine) (gdb : Gdb) (v : ℕ → ℕ) (c : ℕ) (s : List ℕ) (mode : ℕ)
    → reg + rounds ≤ 16
    → IsMode mode
    → registers_get_mode gdb.arm.reg ≡ mode
    → ((k : ℕ) → v k < 2 ^ 32)
    → write_registers rounds reg m gdb (words v rounds reg ++ c ∷ s)
      ≡ some (c ∷ s, put_registers gdb (write_all v rounds reg mode gdb.arm.reg))
unfolding write_registers
write_registers-words zero reg m gdb v c s mode fits valid current small = refl
write_registers-words (suc rounds) reg m gdb v c s mode fits valid current small =
    let r = registers_write gdb.arm.reg reg mode (v reg) in
    let here =
      λ (t : List ℕ). write_register-print_hex m gdb reg (v reg) t (omega arith) (small reg) in
    rw
      (
        ++-assoc (print_hex 8 (v reg)) (words v rounds (reg + 1)) (c ∷ s),
        here (words v rounds (reg + 1) ++ c ∷ s),
        advance-word (v reg) (words v rounds (reg + 1)) c s,
        current,
      )
      (write_registers-words rounds (reg + 1) m (put_registers gdb r) v c s mode (omega arith) valid
        (mode-write mode valid gdb.arm.reg reg (v reg) (omega arith) ∙ current) small)

pub print_registers-words :
    (rounds reg : ℕ) (gdb : Gdb)
    → reg + rounds ≤ 16
    → print_registers rounds reg gdb
      ≡ some (words (λ k. registers_read gdb.arm.reg k (registers_get_mode gdb.arm.reg)) rounds reg)
unfolding print_registers read_register
print_registers-words zero reg gdb fits = refl
print_registers-words (suc rounds) reg gdb fits =
    let inside : ltb (u8 reg) 16 ≡ true = ground arith in
    let same : u8 reg ≡ reg = omega arith in
    rw (inside, same, print_registers-words rounds (reg + 1) gdb (omega arith)) refl
