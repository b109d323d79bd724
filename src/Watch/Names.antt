-- ===== src/Watch/Names.antt =====
-- `XenBus_List`: the names in the body of a reply.
use win_pvdrivers_mirror.Base.{
  ℕ, suc, ◌+◌, ◌≡◌, ◌≢◌, refl, ap, ap₂, ◌∙◌, List, [], ◌∷◌, ◌++◌, append_assoc, ==_ne, take, drop,
  length, All, arith,
}
use win_pvdrivers_mirror.Watch.{strlen, count_zeros, split_names, list_names}

-- The names as xenstored sends them, each with a NUL.
unfoldable pub terminated : List (List ℕ) → List ℕ
terminated [] = []
terminated (x ∷ xs) = x ++ (0 ∷ terminated xs)

-- No byte is 0.
abbrev pub NoZero : List ℕ → Type 0
NoZero xs = All (λ b. b ≢ 0) xs

count_zeros-append : (x ys : List ℕ) → NoZero x → count_zeros (x ++ ys) ≡ count_zeros ys
unfolding count_zeros
count_zeros-append [] ys h = refl
count_zeros-append (b ∷ x) ys h = rw (==_ne h.0) (count_zeros-append x ys h.1)

pub strlen-append : (x ys : List ℕ) → NoZero x → strlen (x ++ (0 ∷ ys)) ≡ length x
unfolding strlen
strlen-append [] ys h = refl
strlen-append (b ∷ x) ys h = rw (==_ne h.0) (ap suc (strlen-append x ys h.1))

pub take-append : (x ys : List ℕ) → take (length x) (x ++ ys) ≡ x
take-append [] ys = refl
take-append (b ∷ x) ys = ap (◌∷◌ b) (take-append x ys)

pub drop-append : (x ys : List ℕ) → drop (suc (length x)) (x ++ (0 ∷ ys)) ≡ ys
drop-append [] ys = refl
drop-append (b ∷ x) ys = drop-append x ys

count_names :
    (xs : List (List ℕ)) (tail : List ℕ)
    → All NoZero xs
    → NoZero tail
    → count_zeros (terminated xs ++ tail) ≡ length xs
unfolding terminated count_zeros
count_names [] [] h t = refl
count_names [] (b ∷ tail) h t = rw (==_ne t.0) (count_names [] tail h t.1)
count_names (x ∷ xs) tail h t =
    ap count_zeros (append_assoc x (0 ∷ terminated xs) tail)
    ∙ count_zeros-append x (0 ∷ (terminated xs ++ tail)) h.0
    ∙ ap suc (count_names xs tail h.1 t)

split_terminated :
    (xs : List (List ℕ)) (tail : List ℕ)
    → All NoZero xs
    → split_names (length xs) (terminated xs ++ tail) ≡ xs
unfolding terminated split_names
split_terminated [] tail h = refl
split_terminated (x ∷ xs) tail h =
    let rest = terminated xs ++ tail in
    ap (split_names (suc (length xs))) (append_assoc x (0 ∷ terminated xs) tail)
    ∙ ap (λ n. take n (x ++ (0 ∷ rest)) ∷ split_names (length xs) (drop (n + 1) (x ++ (0 ∷ rest))))
        (strlen-append x rest h.0)
    ∙ ap₂ (λ a b. a ∷ split_names (length xs) b) (take-append x (0 ∷ rest)) (at_end x rest)
    ∙ ap (◌∷◌ x) (split_terminated xs tail h.1)
  where
    one_more : (n : ℕ) → n + 1 ≡ suc n
    one_more n = omega arith

    at_end : (x ys : List ℕ) → drop (length x + 1) (x ++ (0 ∷ ys)) ≡ ys
    at_end x ys = ap (λ n. drop n (x ++ (0 ∷ ys))) (one_more (length x)) ∙ drop-append x ys

-- `XenBus_List` of names without NUL bytes, each sent with a NUL, gives back these names in order;
-- bytes after the last NUL are dropped.
pub list_names-terminated :
    (xs : List (List ℕ)) (tail : List ℕ)
    → All NoZero xs
    → NoZero tail
    → list_names (terminated xs ++ tail) ≡ xs
unfolding list_names
list_names-terminated xs tail h t =
    ap (λ n. split_names n (terminated xs ++ tail)) (count_names xs tail h t)
    ∙ split_terminated xs tail h
