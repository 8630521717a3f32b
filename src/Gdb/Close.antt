-- ===== src/Gdb/Close.antt =====
-- The loop of `gdb_remove_breakpoint` that moves entries down over the one that goes.
use projet_l3_inf_bn_zl_rj_r.Prelude.{
  ℕ, zero, suc, ◌+◌, ◌-◌, ◌<◌, ◌≡◌, ◌≢◌, if◌then◌else◌, ltb, leb, arith, inl, inr, Bool-cases, ◌&&◌,
}
use projet_l3_inf_bn_zl_rj_r.Gdb.{close_gap, put}
use projet_l3_inf_bn_zl_rj_r.Gdb.Search.{Ascends}

close_gap_lem :
    (rounds j : ℕ) (a : ℕ → ℕ) (k : ℕ)
    → close_gap rounds j a k ≡ (if leb j k && ltb k (j + rounds) then a (k + 1) else a k)
unfolding close_gap
close_gap_lem zero j a k = ground arith
close_gap_lem (suc rounds) j a k =
    ground (arith, close_gap_lem rounds (j + 1) (put a j (a (j + 1))) k)

-- The table after the entry at `position` is closed up.
abbrev pub closed : ℕ → (ℕ → ℕ) → ℕ → ℕ → ℕ
closed n a position = close_gap (n - 1 - position) position a

module _ (n : ℕ) (a : ℕ → ℕ) (position : ℕ) (sorted : Ascends a n) (held : position < n) where
  pub closed_lem :
      (k : ℕ) → k < n - 1 → closed n a position k ≡ (if leb position k then a (k + 1) else a k)
  closed_lem k inside = ground (arith, close_gap_lem (n - 1 - position) position a k)

  pub closed-Ascends : Ascends (closed n a position) (n - 1)
  closed-Ascends i j h inside =
      ground
        (arith, closed_lem i, closed_lem j, sorted i j, sorted i (j + 1), sorted (i + 1) (j + 1))

  -- Every entry that is left comes from another place.
  pub closed-from :
      (i : ℕ) → i < n - 1 → (k : ℕ) × (k < n) × (k ≢ position) × (closed n a position i ≡ a k)
  closed-from i inside = elim (Bool-cases (leb position i)) [
    | inl high ↦ (i + 1, omega arith, ground arith, ground (arith, closed_lem i))
    | inr low ↦ (i, omega arith, ground arith, ground (arith, closed_lem i))
  ]

  -- Every entry at another place is left.
  pub closed-to :
      (k : ℕ) → k < n → k ≢ position → (i : ℕ) × (i < n - 1) × (closed n a position i ≡ a k)
  closed-to k inside other = elim (Bool-cases (leb position k)) [
    | inl high ↦ (k - 1, ground arith, ground (arith, closed_lem (k - 1)))
    | inr low ↦ (k, ground arith, ground (arith, closed_lem k))
  ]

  -- Two places hold two addresses.
  pub apart : (k : ℕ) → k < n → k ≢ position → a k ≢ a position
  apart k inside other = ground (arith, sorted k position, sorted position k)
