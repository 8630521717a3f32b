-- ===== src/Valid.antt =====
-- The well-formed states of the processor, those whose registers and bytes fit the widths that the
-- C types give them. The child modules follow the
-- operations: accesses, data processing and branches, loads and stores, steps and runs.
pub mod Access
pub mod Data
pub mod Transfer
pub mod Step
use projet_l3_inf_bn_zl_rj_r.Prelude.{
  ℕ, ◌^◌, ◌<◌, ◌≡◌, Bool, true, false, if◌then◌else◌, Option, none, some, ◌>>=◌, ℤ,
}
use projet_l3_inf_bn_zl_rj_r.Core.{Arm}

pub record IsValid (p : Arm) : Type 0 where
  pub words : (i : ℕ) → p.reg.registre i < 2 ^ 32
  pub bytes : (i : ℕ) → p.mem.cells i < 2 ^ 8
  pub cycles : p.cycle_count < 2 ^ 32

-- A statement about the value of a step, if the process is not stopped there.
abbrev pub Ensures {ℓ κ} : {A : Type ℓ} → (A → Type κ) → Option A → Type κ
Ensures P none = Unit
Ensures P (some a) = P a

pub Ensures-bind {ℓ κ ι μ} :
    {A : Type ℓ} {B : Type κ} (P : A → Type ι) (Q : B → Type μ) (o : Option A) (f : A → Option B)
    → Ensures P o
    → ((a : A) → P a → Ensures Q (f a))
    → Ensures Q (o >>= f)
Ensures-bind P Q none f h next = tt
Ensures-bind P Q (some a) f h next = next a h

-- Nothing is asked of the value.
pub anything {ℓ} : {A : Type ℓ} (o : Option A) → Ensures (λ _. Unit {0}) o
anything none = tt
anything (some a) = tt

-- The state that a step leaves, with its result.
abbrev pub Leaves : ℤ × Arm → Type 0
Leaves r = IsValid r.1
