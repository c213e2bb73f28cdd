-- ===== src/Base/Options.antt =====
-- Code that may panic or fail: `none` is the failure.
use mathlib.Core.Option.{Option, none, some}

infixl 5 ◌>>=◌ ◌>>◌
abbrev pub ◌>>=◌ {ℓ κ} : {A : Type ℓ} {B : Type κ} → Option A → (A → Option B) → Option B
none >>= f = none
some a >>= f = f a

abbrev pub ◌>>◌ {ℓ κ} : {A : Type ℓ} {B : Type κ} → Option A → Option B → Option B
m >> k = m >>= λ _. k

-- the first value that is there
abbrev pub or_else {ℓ} : {A : Type ℓ} → Option A → Option A → Option A
or_else none b = b
or_else (some a) b = some a
