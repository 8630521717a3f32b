-- ===== src/Gdb/Insert.antt =====
-- The loop of `gdb_add_breakpoint` that moves the greater entries up: the place that it finds.
use projet_l3_inf_bn_zl_rj_r.Prelude.{
  ℕ, zero, suc, ◌-◌, ◌≤◌, ◌<◌, ◌≡◌, ◌≢◌, if◌then◌else◌, ltb, leb, arith, ◌==◌, inl, inr, Bool-cases,
  ◌⊎◌,
}
use projet_l3_inf_bn_zl_rj_r.Gdb.{insert_breakpoint, put}
use projet_l3_inf_bn_zl_rj_r.Gdb.Search.{Ascends}

-- The first `n` entries with `x` put in at place `q`.
abbrev pub spread : (ℕ → ℕ) → ℕ → ℕ → ℕ → ℕ → ℕ
spread a n x q k = if ltb k q then a k else if k == q then x else if leb k n then a (k - 1) else a k

-- The place that the insertion of `x` into the first `n` entries finds.
pub record Inserted (n : ℕ) (a : ℕ → ℕ) (x q : ℕ) : Type 0 where
  pub inside : q ≤ n
  pub below : (k : ℕ) → k < q → a k < x
  pub above : (k : ℕ) → q ≤ k → k < n → x < a k
  pub entries : (k : ℕ) → insert_breakpoint n a x k ≡ spread a n x q k

pub insert_place :
    (n : ℕ) (a : ℕ → ℕ) (x : ℕ)
    → Ascends a n
    → ((i : ℕ) → i < n → a i ≢ x)
    → (q : ℕ) × Inserted n a x q
unfolding insert_breakpoint
insert_place zero a x sorted fresh = (
  0,
  record {
    inside = omega arith;
    below = λ k h. absurd (omega arith);
    above = λ k h h'. absurd (omega arith);
    entries = λ k. ground arith;
  },
)
insert_place (suc n) a x sorted fresh = elim (Bool-cases (ltb x (a n))) [
  | inl less ↦
      let moved = put a (suc n) (a n) in
      let rest =
        insert_place n moved x (λ i j h k. ground (arith, sorted i j))
          (λ i h. ground (arith, fresh i)) in
      let q = rest.0 in
      (
        q,
        record {
          inside = omega (arith, rest.1.inside);
          below = λ k h. ground (arith, rest.1.below k, rest.1.inside);
          above = λ k h h'. ground (arith, rest.1.above k);
          entries = λ k. rw less (ground (arith, rest.1.entries k, rest.1.inside));
        },
      )
  | inr more ↦ (
    suc n,
    record {
      inside = omega arith;
      below = λ k h. ground (arith, sorted k n, fresh n);
      above = λ k h h'. absurd (omega arith);
      entries = λ k. rw more (ground arith);
    },
  )
]

module _ (n : ℕ) (a : ℕ → ℕ) (x q : ℕ) (ins : Inserted n a x q) where
  pub insert-Ascends : Ascends a n → Ascends (insert_breakpoint n a x) (suc n)
  insert-Ascends sorted i j h inside = ground (
    arith,
    ins.inside,
    ins.entries i,
    ins.entries j,
    sorted i j,
    sorted i (j - 1),
    sorted (i - 1) (j - 1),
    ins.below i,
    ins.above (j - 1),
  )

  -- Where an entry of the new table comes from.
  pub insert-from :
      (i y : ℕ)
      → i < suc n
      → insert_breakpoint n a x i ≡ y
      → (y ≡ x) ⊎ ((k : ℕ) × (k < n) × (a k ≡ y))
  insert-from i y inside e = elim (Bool-cases (ltb i q)) [
    | inl low ↦ inr (i, ground (arith, ins.inside), ground (arith, ins.entries i))
    | inr high ↦ elim (Bool-cases (i == q)) [
      | inl here ↦ inl (ground (arith, ins.entries i))
      | inr other ↦ inr (i - 1, ground arith, ground (arith, ins.entries i))
    ]
  ]

  pub insert-to :
      (y : ℕ)
      → (y ≡ x) ⊎ ((k : ℕ) × (k < n) × (a k ≡ y))
      → (i : ℕ) × (i < suc n) × (insert_breakpoint n a x i ≡ y)
  insert-to y (inl e) = (q, omega (arith, ins.inside), ground (arith, ins.entries q))
  insert-to y (inr (k, inside, e)) = elim (Bool-cases (ltb k q)) [
    | inl low ↦ (k, omega arith, ground (arith, ins.entries k))
    | inr high ↦ (suc k, omega arith, ground (arith, ins.entries (suc k)))
  ]
