-- ===== src/Valid/Transfer.antt =====
-- The widths after loads and stores.
use projet_l3_inf_bn_zl_rj_r.Prelude.{
  if_both, ℕ, zero, suc, ◌+◌, ◌^◌, ◌<◌, not, ◌==◌, ◌&&◌, ◌||◌, if◌then◌else◌, arith, Option, none,
  some, ℤ, u8, u16, u32, sub32, is_minus_one,
}
use projet_l3_inf_bn_zl_rj_r.Util.{get_bit, get_bits}
use projet_l3_inf_bn_zl_rj_r.Machine.{Machine}
use projet_l3_inf_bn_zl_rj_r.Core.{
  Arm, arm_read_register, cond_not_respect, arm_read_byte, arm_read_half, arm_read_word,
  arm_write_byte, arm_write_half, arm_write_word,
}
use projet_l3_inf_bn_zl_rj_r.LoadStore.{
  Access, displace, fields, pre_index, post_index, load_access, store_access, word_byte_access,
  half_access, arm_load_store, next_address, transfer, transfers, multiple_end,
  arm_load_store_multiple,
}
use projet_l3_inf_bn_zl_rj_r.Valid.{IsValid, Ensures, Ensures-bind, Leaves}
use projet_l3_inf_bn_zl_rj_r.Valid.Access.{
  Below, read_register-lt, write_register-IsValid, read_word-Ensures, read_half-Ensures,
  read_byte-Ensures, write_word-Ensures, write_half-Ensures, write_byte-Ensures, put_memory-Ensures,
}

-- The same with the address of the access in front.
abbrev Aimed : ℕ × Arm → Type 0
Aimed r = IsValid r.1

pre_index-Aimed :
    (a : Access) (adresse offset : ℕ) {p : Arm} → IsValid p → Aimed (pre_index a adresse offset p)
unfolding pre_index displace
pre_index-Aimed a adresse offset {p} valid = if_both Aimed (a.p_bit == 0) _ _ valid (
    if_both IsValid (a.w == 0) _ _ valid (
      write_register-IsValid valid a.rn _
        (if_both (λ x. x < 2 ^ 32) (a.u == 0) _ _ (omega arith) (omega arith))))

displace-lt : (u adresse offset : ℕ) → displace u adresse offset < 2 ^ 32
unfolding displace
displace-lt u adresse offset = if_both (λ x. x < 2 ^ 32) (u == 0) _ _ (omega arith) (omega arith)

post_index-Leaves :
    (a : Access) (adresse offset : ℕ) (result : ℤ) {p : Arm}
    → IsValid p
    → Leaves (post_index a adresse offset result p)
unfolding post_index
post_index-Leaves a adresse offset result {p} valid =
    if_both Leaves (is_minus_one result) _ _ valid (
      if_both Leaves (not (a.p_bit == 0)) _ _ valid (
        if_both Leaves (not (a.w == 0)) _ _ valid
          (write_register-IsValid valid a.rn _ (displace-lt a.u adresse offset))))

module _ (m : Machine) where
  load_access-Ensures :
      (a : Access) (b base adresse : ℕ) {p : Arm}
      → IsValid p
      → Ensures Leaves (load_access m a b base adresse p)
  unfolding load_access arm_read_word arm_read_byte
  load_access-Ensures a b base adresse {p} valid =
      if_both (Ensures Leaves) (a.rn == 15) _ _
        (write_register-IsValid valid a.rd _ (
          if_both (λ x. x < 2 ^ 32) (b == 0) (u32 (base + 8)) (u8 (m.stale_byte p.cycle_count))
            (omega arith) (omega arith)))
        (if_both (Ensures Leaves) (b == 0) _ _
          (Ensures-bind (Below 32) _ _ _
            (read_word-Ensures p.mem adresse _ m.endianess (omega arith))
            λ r small. write_register-IsValid valid a.rd r.1 small)
          (Ensures-bind (Below 8) _ _ _
            (read_byte-Ensures p.mem adresse _ valid.bytes (omega arith))
            λ r small. write_register-IsValid valid a.rd r.1 (omega arith)))

  store_word-Ensures :
      (adresse value : ℕ) {p : Arm} → IsValid p → Ensures Leaves (arm_write_word m p adresse value)
  unfolding arm_write_word
  store_word-Ensures adresse value {p} valid =
      put_memory-Ensures valid _ (write_word-Ensures p.mem adresse value m.endianess valid.bytes)

  store_access-Ensures :
      (a : Access) (b base adresse : ℕ) {p : Arm}
      → IsValid p
      → Ensures Leaves (store_access m a b base adresse p)
  unfolding store_access arm_write_byte
  store_access-Ensures a b base adresse {p} valid =
      if_both (Ensures Leaves) (b == 0) _ _ (store_word-Ensures adresse _ valid)
        (put_memory-Ensures valid _ (write_byte-Ensures p.mem adresse _ valid.bytes))

  word_byte_access-Ensures :
      (a : Access) (b offset : ℕ) {p : Arm}
      → IsValid p
      → Ensures Leaves (word_byte_access m a b offset p)
  unfolding word_byte_access
  word_byte_access-Ensures a b offset {p} valid =
      let base = arm_read_register p a.rn in
      let start = pre_index a base offset p in
      let aimed : IsValid start.1 = pre_index-Aimed a base offset valid in
      Ensures-bind Leaves _ _ _
        (if_both (Ensures Leaves) (a.l == 0) _ _ (store_access-Ensures a b base start.0 aimed)
          (load_access-Ensures a b base start.0 aimed))
        λ r left. post_index-Leaves a start.0 offset r.0 left

  half_access-Ensures :
      (a : Access) (acces_mem offset : ℕ) {p : Arm}
      → IsValid p
      → Ensures Leaves (half_access m a acces_mem offset p)
  unfolding half_access arm_write_half arm_read_half
  half_access-Ensures a acces_mem offset {p} valid =
      let base = arm_read_register p a.rn in
      let start = pre_index a base offset p in
      let aimed : IsValid start.1 = pre_index-Aimed a base offset valid in
      if_both (Ensures Leaves) (acces_mem == 1) _ _
        (Ensures-bind Leaves _ _ _
          (put_memory-Ensures aimed _
            (write_half-Ensures start.1.mem start.0 _ m.endianess aimed.bytes))
          λ r left. post_index-Leaves a start.0 offset r.0 left)
        (if_both (Ensures Leaves) (acces_mem == 5) _ _
          (Ensures-bind (Below 16) _ _ _
            (read_half-Ensures start.1.mem start.0 _ m.endianess (omega arith))
            λ r small.
              post_index-Leaves a start.0 offset r.0
                (write_register-IsValid aimed a.rd r.1 (omega arith)))
          aimed)

  pub load_store-Ensures : {p : Arm} (ins : ℕ) → IsValid p → Ensures Leaves (arm_load_store m p ins)
  unfolding arm_load_store
  load_store-Ensures {p} ins valid =
      let a = fields ins in
      if_both (Ensures Leaves) (not (cond_not_respect p ins == 0)) _ _ valid (
        if_both (Ensures Leaves) (get_bits ins 27 26 == 1) _ _
          (if_both (Ensures Leaves) (get_bit ins 25 == 0) _ _ (word_byte_access-Ensures a _ _ valid)
            (if_both (Ensures Leaves) (get_bit ins 4 == 0) _ _
              (word_byte_access-Ensures a _ _ valid) valid))
          (if_both (Ensures Leaves) (a.rn == 15) _ _ valid (
            if_both (Ensures Leaves)
              ((get_bits ins 27 25 == 0) && (get_bit ins 7 == 1) && (get_bit ins 4 == 1)) _ _
              (half_access-Ensures a _ _ valid) valid)))

  -- What a round leaves: a well-formed state, and a word in `value`.
  abbrev Moved : ℤ × ℕ × Arm → Type 0
  Moved r = IsValid r.2 × (r.1 < 2 ^ 32)

  transfer-Ensures :
      (l reg_num adresse value : ℕ) {p : Arm}
      → IsValid p
      → value < 2 ^ 32
      → Ensures Moved (transfer m l reg_num adresse value p)
  unfolding transfer arm_read_word
  transfer-Ensures l reg_num adresse value {p} valid small =
      if_both (Ensures Moved) (l == 0) _ _
        (Ensures-bind Leaves Moved _ _
          (store_word-Ensures adresse (arm_read_register p reg_num) valid)
          λ r left. (left, read_register-lt valid reg_num))
        (Ensures-bind (Below 32) Moved _ _ (read_word-Ensures p.mem adresse value m.endianess small)
          λ r fits. (write_register-IsValid valid reg_num r.1 fits, fits))

  abbrev Loaded : Option ℤ × ℕ × Arm → Type 0
  Loaded r = IsValid r.2 × (r.1 < 2 ^ 32)

  transfers-Ensures :
      (u l list_reg rounds reg_num adresse value : ℕ) {p : Arm}
      → IsValid p
      → adresse < 2 ^ 32
      → value < 2 ^ 32
      → Ensures Loaded (transfers m u l list_reg rounds reg_num adresse value p)
  unfolding transfers next_address
  transfers-Ensures u l list_reg zero reg_num adresse value valid small word = (valid, small)
  transfers-Ensures u l list_reg (suc rounds) reg_num adresse value {p} valid small word =
      if_both (Ensures Loaded) (get_bit list_reg reg_num == 0) _ _
        (transfers-Ensures u l list_reg rounds (reg_num + 1) adresse value valid small word)
        (Ensures-bind Moved Loaded (transfer m l reg_num adresse value p) _
          (transfer-Ensures l reg_num adresse value valid word)
          λ r moved.
            if_both (Ensures Loaded) (is_minus_one r.0) _ _ (moved.0, small)
              (transfers-Ensures u l list_reg rounds (reg_num + 1) _ r.1 moved.0
                (if_both (λ x. x < 2 ^ 32) (u == 0) (sub32 adresse 4) (u32 (adresse + 4))
                  (omega arith) (omega arith))
                moved.1))

  end-Leaves :
      (w rn list_reg : ℕ) (r : Option ℤ × ℕ × Arm)
      → Loaded r
      → Leaves (multiple_end w rn list_reg r.0 r.1 r.2)
  unfolding multiple_end
  end-Leaves w rn list_reg (some result, adresse, p) (valid, small) = valid
  end-Leaves w rn list_reg (none, adresse, p) (valid, small) =
      if_both Leaves (not (get_bit list_reg 15 == 0)) _ _ valid
        (if_both Leaves (w == 0) _ _ valid (write_register-IsValid valid rn adresse small))

  pub load_store_multiple-Ensures :
      {p : Arm} (ins : ℕ) → IsValid p → Ensures Leaves (arm_load_store_multiple m p ins)
  unfolding arm_load_store_multiple next_address
  load_store_multiple-Ensures {p} ins valid =
      let rn = u8 (get_bits ins 19 16) in
      let list_reg = u16 (get_bits ins 15 0) in
      let base = arm_read_register p rn in
      let u = get_bit ins 23 in
      let adresse = if get_bit ins 24 == 0 then base else next_address u base in
      let start : adresse < 2 ^ 32 =
        if_both (λ x. x < 2 ^ 32) (get_bit ins 24 == 0) base (next_address u base)
          (read_register-lt valid rn)
          (if_both (λ x. x < 2 ^ 32) (u == 0) (sub32 base 4) (u32 (base + 4)) (omega arith)
            (omega arith)) in
      if_both (Ensures Leaves) (not (cond_not_respect p ins == 0)) _ _ valid (
        if_both (Ensures Leaves)
          ((list_reg == 0) || (not (get_bit ins rn == 0) && not (get_bit ins 21 == 0))) _ _ valid
          (if_both (Ensures Leaves) (not (get_bit ins 22 == 0)) _ _ valid (
            Ensures-bind Loaded Leaves
              (transfers m u (get_bit ins 20) list_reg 15 0 adresse
                (u32 (m.stale_word p.cycle_count)) p)
              _
              (transfers-Ensures u (get_bit ins 20) list_reg 15 0 adresse _ valid start
                (omega arith))
              λ r loaded. end-Leaves (get_bit ins 21) rn list_reg r loaded)))
