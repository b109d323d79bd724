-- ===== src/Base/Slices.antt =====
-- Parts of lists: what `drop`, `take` and `++` leave, and what is read from it.
use Prim.Native.Nat.{ℕ, zero, suc, ◌+◌, ◌-◌, ◌<◌, ◌≤◌}
use mathlib.Core.Path.{◌≡◌, refl, ap, sym, ◌∙◌}
use mathlib.Core.List.{List, [], ◌∷◌, ◌++◌}
use native.Mathlib.Omega.{arith}
use win_pvdrivers_mirror.Base.Lists.{length, take, drop, get_or, length-drop, length-append}

module _ {ℓ} {A : Type ℓ} where
  pub drop-nil : (n : ℕ) → drop {A = A} n [] ≡ []
  drop-nil zero = refl
  drop-nil (suc n) = refl

  pub drop-drop : (k n : ℕ) {m : ℕ} (xs : List A) → m ≡ n + k → drop k (drop n xs) ≡ drop m xs
  drop-drop k zero xs e = ap (λ j. drop j xs) (omega arith)
  drop-drop k (suc n) {m} [] e = drop-nil k ∙ sym (drop-nil m)
  drop-drop k (suc n) {m = zero} (x ∷ xs) e = absurd (omega arith)
  drop-drop k (suc n) {m = suc m} (x ∷ xs) e = drop-drop k n xs (omega arith)

  pub drop-append : (xs ys : List A) → drop (length xs) (xs ++ ys) ≡ ys
  drop-append [] ys = refl
  drop-append (x ∷ xs) ys = drop-append xs ys

  pub get_or-drop :
      (n i : ℕ) {m : ℕ} (xs : List A) (d : A) → m ≡ n + i → get_or (drop n xs) i d ≡ get_or xs m d
  get_or-drop zero i xs d e = ap (λ j. get_or xs j d) (omega arith)
  get_or-drop (suc n) i [] d e = refl
  get_or-drop (suc n) i {m = zero} (x ∷ xs) d e = absurd (omega arith)
  get_or-drop (suc n) i {m = suc m} (x ∷ xs) d e = get_or-drop n i xs d (omega arith)

  pub get_or-take : (n i : ℕ) (xs : List A) (d : A) → i < n → get_or (take n xs) i d ≡ get_or xs i d
  get_or-take zero i xs d h = absurd (omega arith)
  get_or-take (suc n) i [] d h = refl
  get_or-take (suc n) zero (x ∷ xs) d h = refl
  get_or-take (suc n) (suc i) (x ∷ xs) d h = get_or-take n i xs d (omega arith)

  pub get_or-append_before :
      (xs ys : List A) (i : ℕ) (d e : A) → i < length xs → get_or (xs ++ ys) i d ≡ get_or xs i e
  get_or-append_before [] ys i d e h = absurd (omega arith)
  get_or-append_before (x ∷ xs) ys zero d e h = refl
  get_or-append_before (x ∷ xs) ys (suc i) d e h = get_or-append_before xs ys i d e (omega arith)

  pub drop_long : (n : ℕ) (xs : List A) → length xs ≤ n → drop n xs ≡ []
  drop_long zero [] h = refl
  drop_long zero (x ∷ xs) h = absurd (omega arith)
  drop_long (suc n) [] h = refl
  drop_long (suc n) (x ∷ xs) h = drop_long n xs (omega arith)

  pub drop_empty : (n : ℕ) (xs : List A) → drop n xs ≡ [] → length xs ≤ n
  drop_empty zero [] h = omega arith
  drop_empty zero (x ∷ xs) h = absurd (cc)
  drop_empty (suc n) [] h = omega arith
  drop_empty (suc n) (x ∷ xs) h = omega (arith, drop_empty n xs h)

  -- A list that goes on with `ys` after `n` is as long as that.
  pub length_ge :
      (xs ys zs : List A) (o n : ℕ)
      → o ≤ length ys
      → n ≤ length xs
      → drop o (ys ++ zs) ≡ drop n xs
      → n + (length ys - o) ≤ length xs
  length_ge xs ys zs zero n a b e =
      omega (arith, a, b, length-drop n xs, ap length e, length-append ys zs)
  length_ge xs [] zs (suc o) n a b e = absurd (omega arith)
  length_ge xs (y ∷ ys) zs (suc o) n a b e = omega (arith, length_ge xs ys zs o n (omega arith) b e)
