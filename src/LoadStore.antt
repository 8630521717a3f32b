-- ===== src/LoadStore.antt =====
-- arm_load_store.c: loads and stores of a word, a byte or a half word, and of many registers.
pub mod Words
pub mod Halves
pub mod Multiple
pub mod Stored
pub mod Restored
pub mod Trip
use projet_l3_inf_bn_zl_rj_r.Prelude.{
  ℕ, zero, suc, ◌+◌, ℤ, pos, is_minus_one, not, ◌&&◌, ◌||◌, ◌==◌, if◌then◌else◌, Option, none, some,
  ◌>>=◌, u8, u16, u32, sub32, ◌<<<◌, bit_or,
}
use projet_l3_inf_bn_zl_rj_r.Util.{get_bit, get_bits}
use projet_l3_inf_bn_zl_rj_r.Constants.{undefined_instruction, data_abort}
use projet_l3_inf_bn_zl_rj_r.Memory.{minus_one}
use projet_l3_inf_bn_zl_rj_r.Machine.{Machine}
use projet_l3_inf_bn_zl_rj_r.Core.{
  Arm, arm_read_register, arm_write_register, cond_not_respect, arm_read_byte, arm_read_half,
  arm_read_word, arm_write_byte, arm_write_half, arm_write_word,
}
use projet_l3_inf_bn_zl_rj_r.DataProcessing.{effectuer_decalage}

-- `adresse += u ? offset : -offset`, in `uint32_t`.
unfoldable pub displace : ℕ → ℕ → ℕ → ℕ
displace u adresse offset = if u == 0 then sub32 adresse offset else u32 (adresse + offset)

-- The fields of a load or store that every form of it uses.
pub record Access : Type 0 where
  pub rn : ℕ
  pub rd : ℕ
  pub u : ℕ
  pub p_bit : ℕ
  pub w : ℕ
  pub l : ℕ

unfoldable pub fields : ℕ → Access
fields ins = record {
  rn = u8 (get_bits ins 19 16);
  rd = u8 (get_bits ins 15 12);
  u = get_bit ins 23;
  p_bit = get_bit ins 24;
  w = get_bit ins 21;
  l = get_bit ins 20;
}

-- `if (p_bit) { adresse += ...; if (w) arm_write_register(p, Rn, adresse); }`: the address of the
-- access, and the state.
unfoldable pub pre_index : Access → ℕ → ℕ → Arm → ℕ × Arm
pre_index a adresse offset p =
    if a.p_bit == 0
    then (adresse, p)
    else let adresse' = displace a.u adresse offset in
      (adresse', if a.w == 0 then p else arm_write_register p a.rn adresse')

-- What follows an access: the data abort, then `if (!p_bit) { ... }`.
unfoldable pub post_index : Access → ℕ → ℕ → ℤ → Arm → ℤ × Arm
post_index a adresse offset result p =
    if is_minus_one result
    then (pos data_abort, p)
    else if not (a.p_bit == 0)
    then (pos 0, p)
    else if not (a.w == 0)
    then (pos undefined_instruction, p)
    else (pos 0, arm_write_register p a.rn (displace a.u adresse offset))

-- The branch `if (l)` of a word or byte access. With `Rn == 15` nothing is read: a word register
-- gets `adresse + 8` of the unmodified address, and a byte register and the result keep what the
-- variables held.
unfoldable pub load_access : Machine → Access → ℕ → ℕ → ℕ → Arm → Option (ℤ × Arm)
load_access m a b base adresse p =
    if a.rn == 15
    then some (
      m.stale_result p.cycle_count,
      arm_write_register p a.rd
          (if b == 0 then u32 (base + 8) else u8 (m.stale_byte p.cycle_count)),
    )
    else if b == 0
    then (do
      (result, value) ← arm_read_word m p adresse (u32 (m.stale_word p.cycle_count))
      some (result, arm_write_register p a.rd value))
    else (do
      (result, value8) ← arm_read_byte p adresse (u8 (m.stale_byte p.cycle_count))
      some (result, arm_write_register p a.rd value8))

-- The branch `else` of the same test.
unfoldable pub store_access : Machine → Access → ℕ → ℕ → ℕ → Arm → Option (ℤ × Arm)
store_access m a b base adresse p =
    let value = if a.rn == 15 then u32 (base + 8) else arm_read_register p a.rd in
    let value8 =
      if a.rn == 15 then u8 (m.stale_byte p.cycle_count) else u8 (arm_read_register p a.rd) in
    if b == 0 then arm_write_word m p adresse value else arm_write_byte p adresse value8

-- A word or byte access, once the offset is known.
unfoldable pub word_byte_access : Machine → Access → ℕ → ℕ → Arm → Option (ℤ × Arm)
word_byte_access m a b offset p = do
  let base = arm_read_register p a.rn
  let (adresse, p1) = pre_index a base offset p
  (result, p2) ←
      (if a.l == 0 then store_access m a b base adresse p1 else load_access m a b base adresse p1)
  some (post_index a adresse offset result p2)

-- The switch on the kind of a half word access: 1 is STRH and 5 is LDRH.
unfoldable pub half_access : Machine → Access → ℕ → ℕ → Arm → Option (ℤ × Arm)
half_access m a acces_mem offset p = do
  let base = arm_read_register p a.rn
  let (adresse, p1) = pre_index a base offset p
  if acces_mem == 1
      then (do
        (result, p2) ← arm_write_half m p1 adresse (u16 (arm_read_register p1 a.rd))
        some (post_index a adresse offset result p2))
      else if acces_mem == 5
      then (do
        (result, value) ← arm_read_half m p1 adresse (u16 (m.stale_half p1.cycle_count))
        some (post_index a adresse offset result (arm_write_register p1 a.rd value)))
      else some (pos undefined_instruction, p1)

unfoldable pub arm_load_store : Machine → Arm → ℕ → Option (ℤ × Arm)
arm_load_store m p ins =
    let a = fields ins in
    let undefined = some (pos undefined_instruction, p) in
    if not (cond_not_respect p ins == 0)
    then some (minus_one, p)
    else if get_bits ins 27 26 == 1
    then (if get_bit ins 25 == 0
        then word_byte_access m a (get_bit ins 22) (get_bits ins 11 0) p
        else if get_bit ins 4 == 0
        then word_byte_access m a (get_bit ins 22)
            (effectuer_decalage m (u8 (get_bits ins 6 5)) (u8 (get_bits ins 11 7))
              (arm_read_register p (u8 (get_bits ins 3 0))))
            p
        else undefined)
    else if a.rn == 15
    then undefined
    else if (get_bits ins 27 25 == 0) && (get_bit ins 7 == 1) && (get_bit ins 4 == 1)
    then half_access m a (u8 (bit_or (a.l <<< 2) (u8 (get_bits ins 6 5))))
        (if get_bit ins 22 == 0
          then arm_read_register p (u8 (get_bits ins 3 0))
          else bit_or (u8 (get_bits ins 11 8) <<< 4) (u8 (get_bits ins 3 0)))
        p
    else undefined

-- `adresse += u ? 4 : -4`.
unfoldable pub next_address : ℕ → ℕ → ℕ
next_address u adresse = if u == 0 then sub32 adresse 4 else u32 (adresse + 4)

-- One round of the loop over the registers: the result, the new content of `value`, which lives
-- across the rounds, and the state.
unfoldable pub transfer : Machine → ℕ → ℕ → ℕ → ℕ → Arm → Option (ℤ × ℕ × Arm)
transfer m l reg_num adresse value p =
    if l == 0
    then (do
      let value' = arm_read_register p reg_num
      (result, p') ← arm_write_word m p adresse value'
      some (result, value', p'))
    else do
      (result, value') ← arm_read_word m p adresse value
      some (result, value', arm_write_register p reg_num value')

-- The loop `for (reg_num = 0; reg_num < 15; reg_num++)` with `rounds` left. It gives the result of
-- the function if a transfer is refused, and the address behind the last one otherwise.
unfoldable pub transfers : Machine → ℕ → ℕ → ℕ → ℕ → ℕ → ℕ → ℕ → Arm → Option (Option ℤ × ℕ × Arm)
transfers m u l list_reg zero reg_num adresse value p = some (none, adresse, p)
transfers m u l list_reg (suc rounds) reg_num adresse value p =
    let skip = transfers m u l list_reg rounds (reg_num + 1) adresse value p in
    if get_bit list_reg reg_num == 0 then skip else do
      (result, value', p') ← transfer m l reg_num adresse value p
      let rest = transfers m u l list_reg rounds (reg_num + 1) (next_address u adresse) value' p'
      if is_minus_one result then some (some (pos data_abort), adresse, p') else rest

-- What follows the loop: the data abort, the test of register 15, and the write back.
unfoldable pub multiple_end : ℕ → ℕ → ℕ → Option ℤ → ℕ → Arm → ℤ × Arm
multiple_end w rn list_reg (some result) adresse p = (result, p)
multiple_end w rn list_reg none adresse p =
    if not (get_bit list_reg 15 == 0)
    then (pos undefined_instruction, p)
    else if w == 0
    then (pos 0, p)
    else (pos 0, arm_write_register p rn adresse)

unfoldable pub arm_load_store_multiple : Machine → Arm → ℕ → Option (ℤ × Arm)
arm_load_store_multiple m p ins =
    if not (cond_not_respect p ins == 0)
    then some (minus_one, p)
    else let u = get_bit ins 23 in
      let w = get_bit ins 21 in
      let rn = u8 (get_bits ins 19 16) in
      let list_reg = u16 (get_bits ins 15 0) in
      let base = arm_read_register p rn in
      let adresse = if get_bit ins 24 == 0 then base else next_address u base in
      if (list_reg == 0) || (not (get_bit ins rn == 0) && not (w == 0))
      then some (pos undefined_instruction, p)
      else if not (get_bit ins 22 == 0)
      then some (pos undefined_instruction, p)
      else do
        (stop, adresse', p') ←
            transfers m u (get_bit ins 20) list_reg 15 0 adresse (u32 (m.stale_word p.cycle_count))
              p
        some (multiple_end w rn list_reg stop adresse' p')

unfoldable pub arm_coprocessor_load_store : Arm → ℕ → ℤ × Arm
arm_coprocessor_load_store p ins = (pos undefined_instruction, p)
