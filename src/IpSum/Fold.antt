-- ===== src/IpSum/Fold.antt =====
-- Adding the carries of a ones' complement sum.
use win_pvdrivers_mirror.Base.{
  ℕ, suc, ◌+◌, ◌*◌, ◌/◌, ◌%◌, ◌^◌, ◌<◌, ◌≤◌, ◌≡◌, inl, inr, ltb, lt→ltb, ltb→lt, ltb→le, Bool-cases,
  arith,
}
use win_pvdrivers_mirror.IpSum.{fold_carries}

-- Three rounds leave 16 bits, keep the value modulo 65535, and keep a sum that is not 0 so.
pub record Folded (n m : ℕ) : Type 0 where
  pub small : m < 65536
  pub quotient : ℕ
  pub carries : n ≡ m + 65535 * quotient
  pub positive : 0 < n → 0 < m

Folded-step : (n m : ℕ) → Folded (n % 65536 + n / 65536) m → 65536 ≤ n → Folded n m
Folded-step n m f h = record {
  small = f.small;
  quotient = n / 65536 + f.quotient;
  carries = omega (arith, f.carries);
  positive = λ p. f.positive (omega arith);
}

Folded-small : (n : ℕ) → n < 65536 → Folded n n
Folded-small n h = record { small = h; quotient = 0; carries = omega arith; positive = λ p. p }

fold_once : (fuel n : ℕ) → n ≤ 131070 → Folded n (fold_carries (suc (suc fuel)) n)
unfolding fold_carries
fold_once fuel n h = elim (Bool-cases (ltb n 65536)) [
  | inl done ↦ rw done (Folded-small n (ltb→lt n 65536 done))
  | inr more ↦
      let big = ltb→le n 65536 more in
      rw (more, lt→ltb (n % 65536 + n / 65536) 65536 (omega arith))
        (Folded-step n (n % 65536 + n / 65536) (Folded-small (n % 65536 + n / 65536) (omega arith))
          big)
]

pub fold_carries-Folded : (n : ℕ) → n < 2 ^ 32 → Folded n (fold_carries 3 n)
unfolding fold_carries
fold_carries-Folded n h = elim (Bool-cases (ltb n 65536)) [
  | inl done ↦ rw done (Folded-small n (ltb→lt n 65536 done))
  | inr more ↦
      let big = ltb→le n 65536 more in
      rw more (Folded-step n _ (fold_once 0 (n % 65536 + n / 65536) (omega arith)) big)
]
