-- ===== src/LoadStore/Multiple.antt =====
-- arm_load_store_multiple: the addresses that the loop over the registers runs through.
use projet_l3_inf_bn_zl_rj_r.Prelude.{
  ℕ, zero, suc, ◌+◌, ◌*◌, ◌^◌, ◌<◌, ◌≡◌, ◌==◌, if◌then◌else◌, arith, some, none, u32, Option-cases,
  Bool-cases, inl, inr, is_minus_one,
}
use projet_l3_inf_bn_zl_rj_r.Util.{get_bit}
use projet_l3_inf_bn_zl_rj_r.Machine.{Machine}
use projet_l3_inf_bn_zl_rj_r.Core.{Arm}
use projet_l3_inf_bn_zl_rj_r.LoadStore.{next_address, transfer, transfers}

-- How many of the registers `reg_num`, `reg_num + 1` and so on are in the list.
unfoldable pub listed : ℕ → ℕ → ℕ → ℕ
listed list_reg zero reg_num = 0
listed list_reg (suc rounds) reg_num =
    let rest = listed list_reg rounds (reg_num + 1) in
    if get_bit list_reg reg_num == 0 then rest else 1 + rest

-- `adresse'` lies `n` words behind `adresse`, or before it where `u` is 0.
abbrev pub Apart : ℕ → ℕ → ℕ → ℕ → Type 0
Apart u n adresse adresse' =
    if u == 0 then u32 (adresse' + 4 * n) ≡ adresse else adresse' ≡ u32 (adresse + 4 * n)

next-lt : (u adresse : ℕ) → next_address u adresse < 2 ^ 32
unfolding next_address
next-lt u adresse = ground arith

-- One word further.
further :
    (u n adresse adresse' : ℕ)
    → adresse < 2 ^ 32
    → Apart u n (next_address u adresse) adresse'
    → Apart u (1 + n) adresse adresse'
unfolding next_address
further u n adresse adresse' small h = elim (Bool-cases (u == 0)) [
  | inl down ↦ let h' = rw down at h in rw down (omega (arith, h'))
  | inr up ↦ let h' = rw up at h in rw up (omega (arith, h'))
]

module _ (m : Machine) (u l list_reg : ℕ) where
  -- Where the loop over the registers is not stopped, the address behind it lies as many words
  -- behind the one before it as registers of the list are transferred, or before it where U is 0,
  -- loads and stores alike.
  pub transfers-Apart :
      (rounds reg_num adresse value : ℕ) (p : Arm) (adresse' : ℕ) (p' : Arm)
      → adresse < 2 ^ 32
      → transfers m u l list_reg rounds reg_num adresse value p ≡ some (none, adresse', p')
      → Apart u (listed list_reg rounds reg_num) adresse adresse'
  unfolding transfers listed
  transfers-Apart zero reg_num adresse value p adresse' p' small e = ground (arith, e)
  transfers-Apart (suc rounds) reg_num adresse value p adresse' p' small e =
      let rest = transfers-Apart rounds (reg_num + 1) in
      elim (Bool-cases (get_bit list_reg reg_num == 0)) [
        | inl skip ↦ let e' = rw skip at e in rw skip (rest adresse value p adresse' p' small e')
        | inr taken ↦ elim (Option-cases (transfer m l reg_num adresse value p)) [
          | inl stopped ↦ let e' = rw (taken, stopped) at e in absurd (cc)
          | inr (r, moved) ↦ elim (Bool-cases (is_minus_one r.0)) [
            | inl refused ↦ let e' = rw (taken, moved, refused) at e in absurd (cc)
            | inr done ↦
                let e' = rw (taken, moved, done) at e in
                let next = next_address u adresse in
                let behind = rest next r.1 r.2 adresse' p' (next-lt u adresse) e' in
                rw taken
                  (further u (listed list_reg rounds (reg_num + 1)) adresse adresse' small behind)
          ]
        ]
      ]
