-- ===== src/Common/Partial.antt =====
-- Chains of optional results, for `do` blocks and for `?` on an `Option`.
use ground_core.Common.Tests.{Option, none, some}

infixl 5 ◌>>=◌
abbrev pub ◌>>=◌ {ℓ} : {A B : Type ℓ} → Option A → (A → Option B) → Option B
none >>= f = none
some a >>= f = f a
