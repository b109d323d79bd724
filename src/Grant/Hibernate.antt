-- ===== src/Grant/Hibernate.antt =====
-- Suspend sets references aside and resume gives them back: the loops over `hiber_grefs`, and the
-- round trip of the free list, the table and the tags.
use mathlib.Core.List.{reverse_aux}
use win_pvdrivers_mirror.Base.{
  ℕ, zero, suc, ◌+◌, ◌-◌, ◌<◌, ◌≤◌, ◌≡◌, refl, ap, sym, ◌∙◌, false, some, List, [], ◌∷◌, ◌++◌, ◌==◌,
  if◌then◌else◌, update, arith, length, take, drop, set, get_or, replicate, elem, Distinct, All,
  set-append, get_or-append, append_assoc, length-append,
}
use win_pvdrivers_mirror.Grant.{
  StackApi, GrantTag, GrantState, invalid_grant_ref, hibr, take_hiber, put_hiber,
}
use win_pvdrivers_mirror.Grant.Refs.{
  taken, freed, get_ref-empty, get_ref-cons, put_ref-freed, Untagged, Untagged-update,
}

-- The tags after the references of a list have been taken by 'HIBR', and after they were put back.
pub marks : ℕ → (ℕ → GrantTag) → List ℕ → ℕ → GrantTag
marks g f [] = f
marks g f (x ∷ xs) = marks g (update f x (record { generation = g; tag = hibr })) xs

pub unmarks : (ℕ → GrantTag) → List ℕ → ℕ → GrantTag
unmarks f [] = f
unmarks f (x ∷ xs) = unmarks (update f x (record { generation = 0xffffffff; tag = 0 })) xs

pub tag-marks :
    (g : ℕ) (f : ℕ → GrantTag) (xs : List ℕ) (r : ℕ)
    → (marks g f xs r).tag ≡ (if elem r xs then hibr else (f r).tag)
unfolding marks
tag-marks g f [] r = refl
tag-marks g f (x ∷ xs) r =
    ground (arith, tag-marks g (update f x (record { generation = g; tag = hibr })) xs r)

pub tag-unmarks :
    (f : ℕ → GrantTag) (xs : List ℕ) (r : ℕ)
    → (unmarks f xs r).tag ≡ (if elem r xs then 0 else (f r).tag)
unfolding unmarks
tag-unmarks f [] r = refl
tag-unmarks f (x ∷ xs) r =
    ground (arith, tag-unmarks (update f x (record { generation = 0xffffffff; tag = 0 })) xs r)

-- References that the tag 'HIBR' marks.
abbrev pub Marked : (ℕ → GrantTag) → List ℕ → Type 0
Marked f = All (λ r. ((f r).tag ≡ hibr) × (r < invalid_grant_ref))

Marked-update :
    (f : ℕ → GrantTag) (x : ℕ) (t : GrantTag) (xs : List ℕ)
    → elem x xs ≡ false
    → Marked f xs
    → Marked (update f x t) xs
Marked-update f x t [] out h = tt
Marked-update f x t (y ∷ ys) out h = (ground arith, Marked-update f x t ys (ground arith) h.1)

fill_eq : (a b : ℕ) → a ≡ b → replicate a invalid_grant_ref ≡ replicate b invalid_grant_ref
fill_eq a b e = ap (λ k. replicate k invalid_grant_ref) e

module _ (lf : StackApi) where
  open lf use {
    Stack, new, push, pop, contents, room, room-new, contents-new, contents-push, room-push,
    pop-nil, pop-cons,
  }

  -- What the first loop of `GntTbl_Suspend` leaves.
  abbrev pub aside : GrantState Stack → List ℕ → List ℕ → ℕ → Stack → GrantState Stack
  aside s pre xs n ss = record s {
    ss = ss;
    hiber_grefs = pre ++ (take n xs ++ replicate (n - length xs) invalid_grant_ref);
    tags = marks s.generation s.tags (take n xs);
  }

  pub take_hiber_lem :
      (n i size : ℕ) (s : GrantState Stack) (pre xs : List ℕ)
      → contents s.ss ≡ xs
      → s.hiber_grefs ≡ pre ++ replicate n invalid_grant_ref
      → i ≡ length pre
      → size < invalid_grant_ref
      → Distinct xs
      → Untagged size s.tags xs
      → (ss : Stack) × (take_hiber lf n i s ≡ some (aside s pre xs n ss))
        × (contents ss ≡ drop n xs)
        × (room s.ss + length (take n xs) ≤ room ss)
  unfolding take_hiber marks
  take_hiber_lem zero i size s pre xs c hp hi hs d u = (
    s.ss,
    ap (λ h. some (record s { hiber_grefs = h }))
        (hp ∙ ap (◌++◌ pre) (fill_eq 0 (0 - length xs) (omega arith))),
    c,
    omega arith,
  )
  take_hiber_lem (suc n) i size s pre [] c hp hi hs d u = (
    s.ss,
    rw (get_ref-empty lf s hibr c) (
        ap (λ h. some (record s { hiber_grefs = h }))
          (ap (λ h. set h i invalid_grant_ref) hp
            ∙ set-append pre invalid_grant_ref invalid_grant_ref (replicate n invalid_grant_ref) hi
            ∙ ap (◌++◌ pre) (fill_eq (suc n) (suc n - 0) (omega arith)))),
    c,
    omega arith,
  )
  take_hiber_lem (suc n) i size s pre (x ∷ xs) c hp hi hs d u =
      let (ss, got, below, more) = get_ref-cons lf s hibr x xs c u.0.0 in
      let s1 = record (taken lf s x hibr ss) { hiber_grefs = set s.hiber_grefs i x } in
      let written : set s.hiber_grefs i x ≡ (pre ++ x ∷ []) ++ replicate n invalid_grant_ref =
        ap (λ h. set h i x) hp
        ∙ set-append pre invalid_grant_ref x (replicate n invalid_grant_ref) hi
        ∙ sym (append_assoc pre (x ∷ []) (replicate n invalid_grant_ref)) in
      let valid : (x == invalid_grant_ref) ≡ false = ground arith in
      let (ss', run, rest, room') =
        take_hiber_lem n (suc i) size s1 (pre ++ x ∷ []) xs below written
          (omega (arith, length-append pre (x ∷ []))) hs d.1
          (Untagged-update size s.tags x (record { generation = s.generation; tag = hibr }) xs d.0
            u.1) in
      (
        ss',
        rw (got, valid)
            (run
              ∙ ap (λ h. some (record (aside s pre (x ∷ xs) (suc n) ss') { hiber_grefs = h }))
                  (append_assoc pre (x ∷ [])
                      (take n xs ++ replicate (n - length xs) invalid_grant_ref)
                    ∙ ap (λ k. pre ++ (x ∷ (take n xs ++ k)))
                        (fill_eq (n - length xs) (suc n - suc (length xs)) (omega arith)))),
        rest,
        omega arith,
      )

  abbrev pub returned : GrantState Stack → List ℕ → Stack → GrantState Stack
  returned s ys ss = record s { ss = ss; tags = unmarks s.tags ys }

  pub put_hiber_lem :
      (n i m : ℕ) (s : GrantState Stack) (pre ys : List ℕ)
      → s.hiber_grefs ≡ pre ++ (ys ++ replicate m invalid_grant_ref)
      → i ≡ length pre
      → n ≡ length ys + m
      → length ys ≤ room s.ss
      → Distinct ys
      → Marked s.tags ys
      → (ss : Stack) × (put_hiber lf n i s ≡ some (returned s ys ss))
        × (contents ss ≡ reverse_aux ys (contents s.ss))
  unfolding put_hiber unmarks
  put_hiber_lem zero i m s pre [] hp hi hn hr d k = (s.ss, refl, refl)
  put_hiber_lem zero i m s pre (y ∷ ys) hp hi hn hr d k = absurd (omega arith)
  put_hiber_lem (suc n) i zero s pre [] hp hi hn hr d k = absurd (omega arith)
  put_hiber_lem (suc n) i (suc m) s pre [] hp hi hn hr d k =
      let last : get_or s.hiber_grefs i invalid_grant_ref ≡ invalid_grant_ref =
        ap (λ h. get_or h i invalid_grant_ref) hp
        ∙ get_or-append pre invalid_grant_ref invalid_grant_ref (replicate m invalid_grant_ref)
            hi in
      (s.ss, rw last, refl)
  put_hiber_lem (suc n) i m s pre (y ∷ ys) hp hi hn hr d k =
      let here : get_or s.hiber_grefs i invalid_grant_ref ≡ y =
        ap (λ h. get_or h i invalid_grant_ref) hp
        ∙ get_or-append pre y invalid_grant_ref (ys ++ replicate m invalid_grant_ref) hi in
      let valid : (y == invalid_grant_ref) ≡ false = ground arith in
      let (ss, run, c) =
        put_hiber_lem n (suc i) m (freed lf s y) (pre ++ y ∷ []) ys
          (hp ∙ sym (append_assoc pre (y ∷ []) (ys ++ replicate m invalid_grant_ref)))
          (omega (arith, length-append pre (y ∷ []))) (omega arith)
          (omega (arith, room-push s.ss y)) d.1
          (Marked-update s.tags y (record { generation = 0xffffffff; tag = 0 }) ys d.0 k.1) in
      (
        ss,
        rw (here, valid, put_ref-freed lf s y hibr k.0.0) run,
        c ∙ ap (reverse_aux ys) (contents-push s.ss y (omega arith)),
      )
