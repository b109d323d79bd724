-- ===== src/Base/Tables.antt =====
-- Arrays and memory as functions of the index, updated at one place.
use Prim.Native.Nat.{ℕ, ◌<◌}
use mathlib.Core.Path.{◌≡◌}
use native.Mathlib.Omega.{arith}
use win_pvdrivers_mirror.Base.Tests.{ltb, lt→ltb, ◌==◌, if◌then◌else◌}

abbrev pub update {ℓ} : {A : Type ℓ} → (ℕ → A) → ℕ → A → ℕ → A
update f i a j = if i == j then a else f j

module _ {ℓ} {A : Type ℓ} where
  pub update_self : (f : ℕ → A) (i : ℕ) (a : A) → update f i a i ≡ a
  update_self f i a = ground arith

  pub update_ne : (f : ℕ → A) {i j : ℕ} (a : A) → (i ≡ j → ⊥) → update f i a j ≡ f j
  update_ne f a h = ground arith

-- The array `dst` after a copy of the first `n` elements of `src`: `memcpy`.
abbrev pub copy_prefix {ℓ} : {A : Type ℓ} → ℕ → (src dst : ℕ → A) → ℕ → A
copy_prefix n src dst i = if ltb i n then src i else dst i

pub copy_prefix_lt {ℓ} :
    {A : Type ℓ} (n : ℕ) (src dst : ℕ → A) (r : ℕ) → r < n → copy_prefix n src dst r ≡ src r
copy_prefix_lt n src dst r h = rw (lt→ltb r n h)
