-- ===== src/Prelude/Partial.antt =====
-- Chains of `Option` results. `none` is an exception that nothing on the path catches.
use coredis.Prelude.{Option, none, some}

infixl 5 ◌>>=◌
abbrev pub ◌>>=◌ {ℓ κ} : {A : Type ℓ} {B : Type κ} → Option A → (A → Option B) → Option B
none >>= f = none
some a >>= f = f a
