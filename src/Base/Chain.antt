-- ===== src/Base/Chain.antt =====
-- Chains of steps that may fault: `none` stands for undefined behaviour or a failed assertion.
use mathlib.Core.Option.{Option, none, some}

infixl 5 ◌>>=◌
abbrev pub ◌>>=◌ {ℓ κ} : {A : Type ℓ} {B : Type κ} → Option A → (A → Option B) → Option B
none >>= f = none
some a >>= f = f a
