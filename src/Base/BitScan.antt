-- ===== src/Base/BitScan.antt =====
-- A machine word by its bits: the set bits in ascending order, and the scan for the lowest one.
use Prim.Native.Nat.{ℕ, zero, suc, ◌+◌, ◌<◌, ◌≤◌}
use mathlib.Core.Path.{◌≡◌, refl, ap}
use mathlib.Core.Bool.{Bool, true, false}
use mathlib.Core.Logic.{inl, inr}
use mathlib.Core.List.{List, [], ◌∷◌}
use mathlib.Core.Option.{Option, none, some}
use native.Mathlib.Omega.{arith}
use win_pvdrivers_mirror.Base.Tests.{if◌then◌else◌, Bool-cases}

-- Bit `i` of the word is `w i`.
abbrev pub Bits : Type 0
Bits = ℕ → Bool

-- The lowest of the `n` bits from `i` on that is set: `_BitScanForward`.
pub scan : ℕ → ℕ → Bits → Option ℕ
scan zero i w = none
scan (suc n) i w = if w i then some i else scan n (suc i) w

-- The set bits among the `n` from `i` on, in ascending order.
unfoldable pub set_bits : ℕ → ℕ → Bits → List ℕ
set_bits zero i w = []
set_bits (suc n) i w = if w i then i ∷ set_bits n (suc i) w else set_bits n (suc i) w

pub scan-some :
    (n i b : ℕ) (w : Bits)
    → i ≤ b
    → b < i + n
    → w b ≡ true
    → ((j : ℕ) → i ≤ j → j < b → w j ≡ false)
    → scan n i w ≡ some b
unfolding scan
scan-some zero i b w lo hi h low = absurd (omega arith)
scan-some (suc n) i b w lo hi h low = elim (Bool-cases (w i)) [
  | inl here ↦ rw here (ap some (first here))
  | inr none_here ↦
      rw none_here
        (scan-some n (suc i) b w (later none_here) (omega arith) h λ j p q. low j (omega arith) q)
]
  where
    first : w i ≡ true → i ≡ b
    first e = elim (Bool-cases (w i)) [ inl _ ↦ ground (arith, low i) | inr z ↦ ground arith ]

    later : w i ≡ false → i < b
    later e = ground arith

pub scan-none :
    (n i : ℕ) (w : Bits) → ((j : ℕ) → i ≤ j → j < i + n → w j ≡ false) → scan n i w ≡ none
unfolding scan
scan-none zero i w low = refl
scan-none (suc n) i w low =
    rw (low i (omega arith) (omega arith))
      (scan-none n (suc i) w λ j p q. low j (omega arith) (omega arith))

-- Words that agree from `i` on have the same set bits there.
pub set_bits-ext :
    (n i : ℕ) (v w : Bits) → ((j : ℕ) → i ≤ j → v j ≡ w j) → set_bits n i v ≡ set_bits n i w
unfolding set_bits
set_bits-ext zero i v w same = refl
set_bits-ext (suc n) i v w same =
    rw (same i (omega arith), set_bits-ext n (suc i) v w (λ j h. same j (omega arith)))
