-- ===== src/Base/Lists.antt =====
-- Lists measured and indexed by native numbers, under the library's names.
use Prim.Native.Nat.{ℕ, zero, suc, ◌+◌, ◌-◌, ◌<◌, ◌≤◌, min}
use mathlib.Core.Path.{◌≡◌, refl, ap, sym, subst}
use mathlib.Core.Logic.{◌≢◌, inl, inr}
use mathlib.Core.Bool.{Bool, true, false, ◌||◌}
use mathlib.Core.List.{List, [], ◌∷◌, ◌++◌, reverse, reverse-cons}
use native.Mathlib.Omega.{arith}
use win_pvdrivers_mirror.Base.Tests.{◌==◌, Bool-cases, ==_iff}

module _ {ℓ} {A : Type ℓ} where
  abbrev pub length : List A → ℕ
  length [] = 0
  length (x ∷ xs) = suc (length xs)

  abbrev pub get_or : List A → ℕ → A → A
  get_or [] i d = d
  get_or (x ∷ xs) zero d = x
  get_or (x ∷ xs) (suc i) d = get_or xs i d

  -- A write out of bounds changes nothing.
  abbrev pub set : List A → ℕ → A → List A
  set [] i v = []
  set (x ∷ xs) zero v = v ∷ xs
  set (x ∷ xs) (suc i) v = x ∷ set xs i v

  abbrev pub take : ℕ → List A → List A
  take zero xs = []
  take (suc n) [] = []
  take (suc n) (x ∷ xs) = x ∷ take n xs

  abbrev pub drop : ℕ → List A → List A
  drop zero xs = xs
  drop (suc n) [] = []
  drop (suc n) (x ∷ xs) = drop n xs

  abbrev pub replicate : ℕ → A → List A
  replicate zero a = []
  replicate (suc n) a = a ∷ replicate n a

  abbrev pub All {κ} : (A → Type κ) → List A → Type κ
  All P [] = Unit
  All P (x ∷ xs) = P x × All P xs

module _ {ℓ} {A : Type ℓ} where
  pub length-append : (xs ys : List A) → length (xs ++ ys) ≡ length xs + length ys
  length-append [] ys = omega arith
  length-append (x ∷ xs) ys = omega (arith, length-append xs ys)

  pub length-reverse : (xs : List A) → length (reverse xs) ≡ length xs
  length-reverse [] = refl
  length-reverse (x ∷ xs) =
      omega (
        arith,
        ap length (reverse-cons x xs),
        length-append (reverse xs) (x ∷ []),
        length-reverse xs,
      )

  pub length-set : (xs : List A) (i : ℕ) (v : A) → length (set xs i v) ≡ length xs
  length-set [] i v = refl
  length-set (x ∷ xs) zero v = refl
  length-set (x ∷ xs) (suc i) v = ap suc (length-set xs i v)

  pub get_or-set_self :
      (xs : List A) (i : ℕ) (v d : A) → i < length xs → get_or (set xs i v) i d ≡ v
  get_or-set_self [] i v d h = absurd (omega arith)
  get_or-set_self (x ∷ xs) zero v d h = refl
  get_or-set_self (x ∷ xs) (suc i) v d h = get_or-set_self xs i v d (omega arith)

  pub get_or-set_ne :
      (xs : List A) {i j : ℕ} (v d : A) → i ≢ j → get_or (set xs i v) j d ≡ get_or xs j d
  get_or-set_ne [] v d h = refl
  get_or-set_ne (x ∷ xs) {i = zero} {j = zero} v d h = absurd (h refl)
  get_or-set_ne (x ∷ xs) {i = zero} {j = suc j} v d h = refl
  get_or-set_ne (x ∷ xs) {i = suc i} {j = zero} v d h = refl
  get_or-set_ne (x ∷ xs) {i = suc i} {j = suc j} v d h = get_or-set_ne xs v d (λ e. h (ap suc e))

  pub take-append-drop : (n : ℕ) (xs : List A) → take n xs ++ drop n xs ≡ xs
  take-append-drop zero xs = refl
  take-append-drop (suc n) [] = refl
  take-append-drop (suc n) (x ∷ xs) = ap (◌∷◌ x) (take-append-drop n xs)

  pub length-take : (n : ℕ) (xs : List A) → length (take n xs) ≡ min n (length xs)
  length-take zero xs = omega arith
  length-take (suc n) [] = omega arith
  length-take (suc n) (x ∷ xs) = omega (arith, length-take n xs)

  pub length-drop : (n : ℕ) (xs : List A) → length (drop n xs) ≡ length xs - n
  length-drop zero xs = omega arith
  length-drop (suc n) [] = omega arith
  length-drop (suc n) (x ∷ xs) = omega (arith, length-drop n xs)

  pub length-replicate : (n : ℕ) (a : A) → length (replicate n a) ≡ n
  length-replicate zero a = refl
  length-replicate (suc n) a = ap suc (length-replicate n a)

  -- A write just behind `pre`.
  pub set-append :
      (pre : List A) {i : ℕ} (a v : A) (rest : List A)
      → i ≡ length pre
      → set (pre ++ (a ∷ rest)) i v ≡ pre ++ (v ∷ rest)
  set-append [] {i = zero} a v rest h = refl
  set-append [] {i = suc i} a v rest h = absurd (omega arith)
  set-append (x ∷ pre) {i = zero} a v rest h = absurd (omega arith)
  set-append (x ∷ pre) {i = suc i} a v rest h = ap (◌∷◌ x) (set-append pre a v rest (omega arith))

  pub get_or-append :
      (pre : List A) {i : ℕ} (a d : A) (rest : List A)
      → i ≡ length pre
      → get_or (pre ++ (a ∷ rest)) i d ≡ a
  get_or-append [] {i = zero} a d rest h = refl
  get_or-append [] {i = suc i} a d rest h = absurd (omega arith)
  get_or-append (x ∷ pre) {i = zero} a d rest h = absurd (omega arith)
  get_or-append (x ∷ pre) {i = suc i} a d rest h = get_or-append pre a d rest (omega arith)

abbrev pub elem : ℕ → List ℕ → Bool
elem a [] = false
elem a (x ∷ xs) = (a == x) || elem a xs

-- No entry twice.
abbrev pub Distinct : List ℕ → Type 0
Distinct [] = Unit
Distinct (x ∷ xs) = (elem x xs ≡ false) × Distinct xs

-- A predicate on a list, by its members.
pub All-of_elem {κ} : {P : ℕ → Type κ} (xs : List ℕ) → ((r : ℕ) → elem r xs ≡ true → P r) → All P xs
All-of_elem [] h = tt
All-of_elem (x ∷ xs) h = (h x (ground arith), All-of_elem xs λ r e. h r (ground arith))

pub All-elem {κ} : (P : ℕ → Type κ) (xs : List ℕ) (r : ℕ) → All P xs → elem r xs ≡ true → P r
All-elem P [] r a e = absurd (cc)
All-elem P (x ∷ xs) r a e = elim (Bool-cases (r == x)) [
  | inl same ↦ subst P (sym ((==_iff r x).0 same)) a.0
  | inr other ↦ All-elem P xs r a.1 (ground arith)
]

pub elem-take : (n : ℕ) (xs : List ℕ) (r : ℕ) → elem r (take n xs) ≡ true → elem r xs ≡ true
elem-take zero xs r e = absurd (cc)
elem-take (suc n) [] r e = e
elem-take (suc n) (x ∷ xs) r e = ground (arith, elem-take n xs r)

pub Distinct-take : (n : ℕ) (xs : List ℕ) → Distinct xs → Distinct (take n xs)
Distinct-take zero xs d = tt
Distinct-take (suc n) [] d = tt
Distinct-take (suc n) (x ∷ xs) d = (ground (arith, elem-take n xs x, d.0), Distinct-take n xs d.1)

pub length-take-le {ℓ} : {A : Type ℓ} (n : ℕ) (xs : List A) → length (take n xs) ≤ n
length-take-le n xs = omega (arith, length-take n xs)
