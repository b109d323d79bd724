-- ===== src/Base/Stacks.antt =====
-- Stacks kept in an array: the entries below a height.
use Prim.Native.Nat.{ℕ, zero, suc, ◌≤◌}
use mathlib.Core.Path.{◌≡◌, refl, ap, ap₂}
use mathlib.Core.List.{List, [], ◌∷◌}
use native.Mathlib.Omega.{arith}
use win_pvdrivers_mirror.Base.Lists.{length}
use win_pvdrivers_mirror.Base.Tables.{update, update_self, update_ne}

-- The first `n` entries of the list, the last one first.
abbrev pub contents : (n : ℕ) → (ℕ → ℕ) → List ℕ
contents zero f = []
contents (suc n) f = f n ∷ contents n f

pub contents-update : (n m v : ℕ) (f : ℕ → ℕ) → n ≤ m → contents n (update f m v) ≡ contents n f
contents-update zero m v f le = refl
contents-update (suc n) m v f le =
    ap₂ (λ x xs. x ∷ xs) (update_ne f v (omega arith)) (contents-update n m v f (omega arith))

-- A list to which `v` is added at its end.
pub contents-push : (n v : ℕ) (f : ℕ → ℕ) → contents (suc n) (update f n v) ≡ v ∷ contents n f
contents-push n v f =
    ap₂ (λ x xs. x ∷ xs) (update_self f n v) (contents-update n n v f (omega arith))

pub length-contents : (n : ℕ) (f : ℕ → ℕ) → length (contents n f) ≡ n
length-contents zero f = refl
length-contents (suc n) f = ap suc (length-contents n f)
