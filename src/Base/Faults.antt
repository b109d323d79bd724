-- ===== src/Base/Faults.antt =====
-- Steps that may stop: `none` is a failed debug assertion (`XN_ASSERT` of a checked build).
use mathlib.Core.Bool.{Bool, true, false}
use mathlib.Core.Option.{Option, none, some}

infixl 5 ◌>>=◌ ◌>>◌
abbrev pub ◌>>=◌ {ℓ κ} : {A : Type ℓ} {B : Type κ} → Option A → (A → Option B) → Option B
none >>= f = none
some a >>= f = f a

abbrev pub ◌>>◌ {ℓ} : {B : Type ℓ} → Option (Unit {0}) → Option B → Option B
m >> k = m >>= λ _. k

-- `XN_ASSERT(b)`
abbrev pub xn_assert : Bool → Option (Unit {0})
xn_assert true = some tt
xn_assert false = none
