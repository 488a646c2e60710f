-- ===== src/Prelude/Options.antt =====
-- `do` blocks of optional results.
use mathlib.Core.Option.{Option, none, some}

infixl 1 ◌>>=◌
abbrev pub ◌>>=◌ {ℓ κ} : {A : Type ℓ} {B : Type κ} → Option A → (A → Option B) → Option B
none >>= f = none
some a >>= f = f a
