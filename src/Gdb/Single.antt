-- ===== src/Gdb/Single.antt =====
-- The requests p and P, which read and write one register.
use projet_l3_inf_bn_zl_rj_r.Prelude.{
  gives, gives_sound, all_below, all_below_sound, ==→eq, ℕ, ◌^◌, ◌<◌, ◌≡◌, ◌≢◌, refl, true, false,
  ◌==◌, ltb, if◌then◌else◌, List, ◌∷◌, ◌++◌, some, ◌>>=◌, u8, arith, inl, inr, Bool-cases,
}
use projet_l3_inf_bn_zl_rj_r.Libc.{
  atoi, behind, scan_value, scan_hex, skip_spaces, take_sign, skip_prefix, scan_digits, is_digit,
  digit_value, to_unsigned, decimal, is_space, codes, c_string, print_hex, hex_digit,
}
use projet_l3_inf_bn_zl_rj_r.Libc.Text.{length-print_hex}
use projet_l3_inf_bn_zl_rj_r.Machine.{Machine}
use projet_l3_inf_bn_zl_rj_r.Registers.{
  Registers, registers_read, registers_write, registers_get_mode,
}
use projet_l3_inf_bn_zl_rj_r.Registers.Bank.{IsMode}
use projet_l3_inf_bn_zl_rj_r.Gdb.{Gdb}
use projet_l3_inf_bn_zl_rj_r.Gdb.Handlers.{
  read_single_register, write_single_register, put_registers, read_register,
}
use projet_l3_inf_bn_zl_rj_r.Registers.Modes.{mode-write, read-write_same, read-write_other}
use projet_l3_inf_bn_zl_rj_r.Gdb.Replies.{
  write_out, gdb_transmit_packet, gdb_send_buffer, gdb_send_data, frame,
}
use projet_l3_inf_bn_zl_rj_r.Gdb.General.Reply.{send_ok}
use projet_l3_inf_bn_zl_rj_r.Gdb.General.Words.{write_register-print_hex}

atoi-hex_digit :
    (d : ℕ) (s : List ℕ)
    → d < 16
    → atoi (c_string (hex_digit d ∷ 0 ∷ s)) ≡ (if ltb d 10 then d else 0)
unfolding all_below atoi c_string hex_digit skip_spaces take_sign decimal is_space
atoi-hex_digit d s small = ==→eq _ _ (
    all_below_sound 16 (λ e. atoi (c_string (hex_digit e ∷ 0 ∷ s)) == (if ltb e 10 then e else 0)) d
      refl small)

scan_value-hex_digit :
    (d : ℕ) (s : List ℕ) → d < 16 → scan_value (c_string (hex_digit d ∷ b'=' ∷ s)) ≡ some d
unfolding gives all_below c_string scan_value scan_hex skip_spaces take_sign skip_prefix scan_digits
    is_digit digit_value to_unsigned hex_digit is_space
scan_value-hex_digit d s small = gives_sound _ d (
    all_below_sound 16 (λ e. gives (scan_value (c_string (hex_digit e ∷ b'=' ∷ s))) e) d refl small)

behind-hex_digit : (d : ℕ) (s : List ℕ) → d < 16 → behind b'=' (hex_digit d ∷ b'=' ∷ s) ≡ some s
unfolding behind hex_digit
behind-hex_digit d s small = ground arith

send_word :
    (gdb : Gdb) (value : ℕ)
    → gdb.shut ≡ false
    → gdb_send_buffer gdb (print_hex 8 value)
      ≡ some (record gdb {
        packet = frame (print_hex 8 value);
        sent = frame (print_hex 8 value) ∷ gdb.sent;
      })
unfolding gdb_send_buffer gdb_transmit_packet write_out
send_word gdb value live = rw (length-print_hex 8 value, live) refl

-- p with one digit in base 16: the register is read whose number the digit is in base 10.
pub read_single_register-hex_digit :
    (gdb : Gdb) (d : ℕ) (rest : List ℕ)
    → gdb.shut ≡ false
    → d < 16
    → let reg = if ltb d 10 then d else 0 in
      let reply =
        frame (print_hex 8 (registers_read gdb.arm.reg reg (registers_get_mode gdb.arm.reg))) in
      read_single_register gdb (hex_digit d ∷ 0 ∷ rest)
      ≡ some (record gdb { packet = reply; sent = reply ∷ gdb.sent })
unfolding read_single_register read_register
read_single_register-hex_digit gdb d rest live small =
    let reg = if ltb d 10 then d else 0 in
    let inside : ltb (u8 reg) 16 ≡ true = ground arith in
    let same : u8 reg ≡ reg = ground arith in
    let value = registers_read gdb.arm.reg reg (registers_get_mode gdb.arm.reg) in
    rw (atoi-hex_digit d rest small, inside, same) (send_word gdb value live)

-- P with one digit in base 16 and a word.
pub write_single_register-hex_digit :
    (m : Machine) (gdb : Gdb) (d value : ℕ) (rest : List ℕ)
    → d < 16
    → value < 2 ^ 32
    → write_single_register m gdb (hex_digit d ∷ b'=' ∷ (print_hex 8 value ++ rest))
      ≡ gdb_send_data
          (put_registers gdb (registers_write gdb.arm.reg d (registers_get_mode gdb.arm.reg) value))
          (codes "OK")
unfolding write_single_register
write_single_register-hex_digit m gdb d value rest inside small =
    let text = print_hex 8 value ++ rest in
    rw
      (
        scan_value-hex_digit d text inside,
        behind-hex_digit d text inside,
        write_register-print_hex m gdb d value rest inside small,
      )
      refl

-- The register that p reads for a digit, after P has written the register of that digit.
single_value :
    (mode : ℕ)
    → IsMode mode
    → (r : Registers) (d value : ℕ) → d < 16
    → registers_read (registers_write r d mode value) (if ltb d 10 then d else 0) mode
      ≡ (if ltb d 10 then value else registers_read r 0 mode)
single_value mode valid r d value inside = elim (Bool-cases (ltb d 10)) [
  | inl low ↦ rw low (read-write_same mode valid r d value (omega arith))
  | inr high ↦
      let other : 0 ≢ d = ground arith in
      rw high (read-write_other mode valid r d value 0 (omega arith) (omega arith) other)
]

-- On an open socket and in one of the seven modes, a request P that writes a word to the register
-- of one digit in base 16 is answered with OK, and a request p with the same digit after it with
-- the word if the digit is below 10, and with the old value of register 0 otherwise.
pub read_single_register-write :
    (m : Machine) (gdb : Gdb) (d value : ℕ) (rest rest' : List ℕ)
    → gdb.shut ≡ false
    → IsMode (registers_get_mode gdb.arm.reg)
    → d < 16
    → value < 2 ^ 32
    → let mode = registers_get_mode gdb.arm.reg in
      let reply =
        frame (print_hex 8 (if ltb d 10 then value else registers_read gdb.arm.reg 0 mode)) in
      (write_single_register m gdb (hex_digit d ∷ b'=' ∷ (print_hex 8 value ++ rest)) >>= λ gdb'.
      read_single_register gdb' (hex_digit d ∷ 0 ∷ rest'))
      ≡ some (record gdb {
        arm = record gdb.arm { reg = registers_write gdb.arm.reg d mode value };
        packet = reply;
        sent = reply ∷ frame (codes "OK") ∷ gdb.sent;
      })
read_single_register-write m gdb d value rest rest' live valid inside small =
    let mode = registers_get_mode gdb.arm.reg in
    let reg' = registers_write gdb.arm.reg d mode value in
    let ok = frame (codes "OK") in
    let gdb' = record gdb {
      arm = record gdb.arm { reg = reg' };
      packet = ok;
      sent = ok ∷ gdb.sent;
    } in
    rw
      (
        write_single_register-hex_digit m gdb d value rest inside small,
        send_ok (put_registers gdb reg') live,
      )
      (rw
        (
          mode-write mode valid gdb.arm.reg d value (omega arith),
          single_value mode valid gdb.arm.reg d value inside,
        )
        at (read_single_register-hex_digit gdb' d rest' live inside))
