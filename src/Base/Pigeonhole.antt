-- ===== src/Base/Pigeonhole.antt =====
-- Distinct numbers below a bound are no more than the bound.
use Prim.Native.Nat.{ℕ, zero, suc, ◌+◌, ◌<◌, ◌≤◌}
use mathlib.Core.Path.{◌≡◌, refl, ap, sym, ◌∙◌, subst}
use mathlib.Core.Logic.{◌≢◌, ◌⊎◌, inl, inr}
use mathlib.Core.Bool.{true, false}
use mathlib.Core.List.{List, [], ◌∷◌}
use native.Mathlib.Omega.{arith}
use win_pvdrivers_mirror.Base.Tests.{◌==◌, ==_iff, if◌then◌else◌, Bool-cases}
use win_pvdrivers_mirror.Base.Lists.{length, elem, Distinct}

-- The list without `x`
without : ℕ → List ℕ → List ℕ
without x [] = []
without x (y ∷ ys) = let rest = without x ys in if x == y then rest else y ∷ rest

without-same : (x y : ℕ) (ys : List ℕ) → (x == y) ≡ true → without x (y ∷ ys) ≡ without x ys
unfolding without
without-same x y ys e = ap (λ b. if b then without x ys else y ∷ without x ys) e

without-other : (x y : ℕ) (ys : List ℕ) → (x == y) ≡ false → without x (y ∷ ys) ≡ y ∷ without x ys
unfolding without
without-other x y ys e = ap (λ b. if b then without x ys else y ∷ without x ys) e

elem-without : (x j : ℕ) (xs : List ℕ) → elem j (without x xs) ≡ true → (elem j xs ≡ true) × (j ≢ x)
unfolding without
elem-without x j [] e = absurd (cc)
elem-without x j (y ∷ ys) e = go (Bool-cases (x == y)) λ h. elem-without x j ys h
  where
    go :
        ((x == y) ≡ true) ⊎ ((x == y) ≡ false)
        → (elem j (without x ys) ≡ true → (elem j ys ≡ true) × (j ≢ x))
        → (elem j (y ∷ ys) ≡ true) × (j ≢ x)
    go (inl same) ih =
        let (in_ys, ne) = ih (ap (elem j) (sym (without-same x y ys same)) ∙ e) in
        (ground (arith, in_ys), ne)
    go (inr other) ih =
        let e' : elem j (y ∷ without x ys) ≡ true =
          ap (elem j) (sym (without-other x y ys other)) ∙ e in
        elim (Bool-cases (j == y)) [
          | inl here ↦ (ground (arith, here), λ f. apart here f)
          | inr there ↦
              let (in_ys, ne) = ih (ground (arith, e', there)) in (ground (arith, in_ys), ne)
        ]
      where
        apart : (j == y) ≡ true → j ≡ x → ⊥
        apart h f = ground (arith, other)

length-without_out : (x : ℕ) (xs : List ℕ) → elem x xs ≡ false → length (without x xs) ≡ length xs
unfolding without
length-without_out x [] e = refl
length-without_out x (y ∷ ys) e = ground (arith, length-without_out x ys)

length-without : (x : ℕ) (xs : List ℕ) → Distinct xs → length xs ≤ 1 + length (without x xs)
unfolding without
length-without x [] d = omega arith
length-without x (y ∷ ys) d = elim (Bool-cases (x == y)) [
  | inl same ↦
      let out : elem x ys ≡ false =
        subst (λ k. elem k ys ≡ false) (sym ((==_iff x y).0 same)) d.0 in
      omega (arith, ap length (without-same x y ys same), length-without_out x ys out)
  | inr other ↦ omega (arith, ap length (without-other x y ys other), length-without x ys d.1)
]

Distinct-without : (x : ℕ) (xs : List ℕ) → Distinct xs → Distinct (without x xs)
unfolding without
Distinct-without x [] d = tt
Distinct-without x (y ∷ ys) d = elim (Bool-cases (x == y)) [
  | inl same ↦ subst Distinct (sym (without-same x y ys same)) (Distinct-without x ys d.1)
  | inr other ↦
      subst Distinct (sym (without-other x y ys other))
        (out (Bool-cases (elem y (without x ys))), Distinct-without x ys d.1)
]
  where
    out :
        (elem y (without x ys) ≡ true) ⊎ (elem y (without x ys) ≡ false)
        → elem y (without x ys) ≡ false
    out (inl h) = absurd (clash (elem-without x y ys h).0)
      where
        clash : elem y ys ≡ true → ⊥
        clash e = ground (arith, d.0)
    out (inr h) = h

-- Distinct numbers below `n` are at most `n`.
pub length-Distinct :
    (n : ℕ) (xs : List ℕ) → Distinct xs → ((j : ℕ) → elem j xs ≡ true → j < n) → length xs ≤ n
length-Distinct zero [] d below = omega arith
length-Distinct zero (x ∷ xs) d below = absurd (omega (arith, below x (ground arith)))
length-Distinct (suc n) xs d below =
    let rest =
      length-Distinct n (without n xs) (Distinct-without n xs d)
        λ j e. let (in_xs, other) = elem-without n j xs e in omega (arith, below j in_xs, other) in
    omega (arith, length-without n xs d, rest)
