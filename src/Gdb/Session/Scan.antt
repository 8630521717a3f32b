-- ===== src/Gdb/Session/Scan.antt =====
-- What the requests of gdb scan fits its variable, and what they write keeps the state well-formed.
use projet_l3_inf_bn_zl_rj_r.Prelude.{
  ℕ, zero, suc, ◌+◌, ◌^◌, ◌<◌, Bool, false, ◌==◌, ltb, arith, List, [], ◌∷◌, Option, none, some,
  u32, inl, inr, Option-cases, if_both, is_zero,
}
use projet_l3_inf_bn_zl_rj_r.Libc.{
  c_string, advance, scan_hex, scan_value, scan_hex8, take, skip_spaces, scan_pair, scan_next,
  to_unsigned, assigned, skip_prefix, take_sign, is_digit, scan_digits,
}
use projet_l3_inf_bn_zl_rj_r.Machine.{Machine}
use projet_l3_inf_bn_zl_rj_r.Registers.{registers_write, registers_get_mode}
use projet_l3_inf_bn_zl_rj_r.Memory.{Memory, memory_write_byte}
use projet_l3_inf_bn_zl_rj_r.Valid.{Ensures, Ensures-bind, anything}
use projet_l3_inf_bn_zl_rj_r.Valid.Access.{
  AreBytes, registers_write-AreWords, write_byte-Ensures, LeavesBytes,
}
use projet_l3_inf_bn_zl_rj_r.Gdb.{Gdb}
use projet_l3_inf_bn_zl_rj_r.Gdb.Handlers.{
  put_registers, read_uint32, write_register, write_registers, next_byte, fill,
}
use projet_l3_inf_bn_zl_rj_r.Gdb.Session.{IsSession, with_arm}

-- What is scanned fits the variable that it is for.
abbrev pub IsWord : Option ℕ → Type 0
IsWord = Ensures (λ (n : ℕ). n < 2 ^ 32)

pub assigned-lt : (o : Option ℕ) (old : ℕ) → IsWord o → old < 2 ^ 32 → assigned o old < 2 ^ 32
assigned-lt none old h small = small
assigned-lt (some n) old h small = h

to_unsigned-lt : (negative : Bool) (n : ℕ) → to_unsigned negative n < 2 ^ 32
unfolding to_unsigned
to_unsigned-lt negative n = ground arith

abbrev pub Scanned : ℕ × List ℕ → Type 0
Scanned r = r.0 < 2 ^ 32

pub scan_hex-Ensures : (s : List ℕ) → Ensures Scanned (scan_hex s)
unfolding scan_hex
scan_hex-Ensures s =
    let digits = skip_prefix (take_sign (skip_spaces s)).1 in
    if_both (Ensures Scanned) (is_digit digits)
      (some (
        to_unsigned (take_sign (skip_spaces s)).0 (scan_digits digits 0).0,
        (scan_digits digits 0).1,
      ))
      none (to_unsigned-lt (take_sign (skip_spaces s)).0 (scan_digits digits 0).0) tt

pub scan_value-IsWord : (s : List ℕ) → IsWord (scan_value s)
unfolding scan_value
scan_value-IsWord s = elim (Option-cases (scan_hex s)) [
  | inl e ↦ rw (e, scan_value) tt
  | inr (r, e) ↦ let h = scan_hex-Ensures s in let h' = rw e at h in rw (e, scan_value) h'
]

pub scan_hex8-IsWord : (s : List ℕ) → IsWord (scan_hex8 s)
unfolding scan_hex8
scan_hex8-IsWord s =
    Ensures-bind Scanned _ (scan_hex (take 8 (skip_spaces s))) _ (scan_hex-Ensures _) λ r h. h

scan_next-Ensures : (s : List ℕ) → Ensures Scanned (scan_next s)
unfolding scan_next
scan_next-Ensures [] = tt
scan_next-Ensures (c ∷ s) =
    if_both (Ensures Scanned) (c == b',') (scan_hex s) none (scan_hex-Ensures s) tt

pub scan_second : (s : List ℕ) → IsWord (scan_pair s).1
unfolding scan_pair
scan_second s = elim (Option-cases (scan_hex s)) [
  | inl e ↦ rw (e, scan_pair) tt
  | inr (r, e) ↦ elim (Option-cases (scan_next r.1)) [
    | inl e' ↦ rw (e, scan_pair, e') tt
    | inr (r', e') ↦
        let h = scan_next-Ensures r.1 in let h' = rw e' at h in rw (e, scan_pair, e') h'
  ]
]

pub read_uint32-lt : (m : Machine) (gdb : Gdb) (raw : List ℕ) → read_uint32 m gdb raw < 2 ^ 32
unfolding read_uint32
read_uint32-lt m gdb raw = assigned-lt _ _ (scan_hex8-IsWord (c_string raw)) (omega arith)

pub write_register-Ensures :
    (m : Machine) (gdb : Gdb) (reg : ℕ) (raw : List ℕ)
    → IsSession gdb
    → Ensures IsSession (write_register m gdb reg raw)
unfolding write_register
write_register-Ensures m gdb reg raw session =
    let mode = registers_get_mode gdb.arm.reg in
    let value = read_uint32 m gdb raw in
    let reg' = registers_write gdb.arm.reg reg mode value in
    if_both (Ensures IsSession) (ltb reg 16) (some (put_registers gdb reg')) none
      (with_arm (record gdb.arm { reg = reg' }) gdb.target_exception session
        (record {
          words =
              registers_write-AreWords gdb.arm.reg reg mode value session.valid.words
                (read_uint32-lt m gdb raw);
          bytes = session.valid.bytes;
          cycles = session.valid.cycles;
        }))
      tt

abbrev pub Written : List ℕ × Gdb → Type 0
Written r = IsSession r.1

pub write_registers-Ensures :
    (rounds reg : ℕ) (m : Machine) (gdb : Gdb) (raw : List ℕ)
    → IsSession gdb
    → Ensures Written (write_registers rounds reg m gdb raw)
unfolding write_registers
write_registers-Ensures zero reg m gdb raw session = session
write_registers-Ensures (suc rounds) reg m gdb raw session =
    Ensures-bind IsSession Written (write_register m gdb reg raw) _
      (write_register-Ensures m gdb reg raw session)
      λ gdb' session'.
        Ensures-bind (λ _. Unit {0}) Written (advance 8 raw) _ (anything _)
          λ raw' _. write_registers-Ensures rounds (reg + 1) m gdb' raw' session'

abbrev pub Filled : Bool × Memory → Type 0
Filled r = AreBytes r.1

pub fill-Ensures :
    (rounds : ℕ) (mem : Memory) (address : ℕ) (content : List ℕ)
    → AreBytes mem
    → Ensures Filled (fill rounds mem address content)
unfolding fill
fill-Ensures zero mem address content bytes = bytes
fill-Ensures (suc rounds) mem address content bytes =
    Ensures-bind (λ _. Unit {0}) Filled (next_byte content) _ (anything _)
      λ b _.
        Ensures-bind LeavesBytes Filled (memory_write_byte mem address b.0) _
          (write_byte-Ensures mem address b.0 bytes)
          λ r bytes'.
            if_both (Ensures Filled) (is_zero r.0) (fill rounds r.1 (u32 (address + 1)) b.1)
              (some (false, r.1)) (fill-Ensures rounds r.1 (u32 (address + 1)) b.1 bytes') bytes'
