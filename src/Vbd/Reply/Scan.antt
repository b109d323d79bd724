-- ===== src/Vbd/Reply/Scan.antt =====
-- The loop of `XenVbd_ResetBus` over the shadows.
use win_pvdrivers_mirror.Base.{
  ℕ, zero, suc, ◌+◌, ◌<◌, ◌≤◌, ◌≡◌, ◌⊎◌, inl, inr, refl, ap, ap₂, sym, ◌∙◌, subst, Bool, true,
  false, ◌||◌, Option, none, some, List, [], ◌∷◌, ◌++◌, ◌==◌, if◌then◌else◌, elem, Distinct, update,
  update_self, update_ne, ==_iff, ==_self, Bool-cases, eq_of_some, arith,
}
use win_pvdrivers_mirror.Vbd.{Shadow, VbdState}
use win_pvdrivers_mirror.Vbd.Reply.{reset_shadow, reset_shadows}

elem-snoc : (x y : ℕ) (xs : List ℕ) → elem x (xs ++ y ∷ []) ≡ (elem x xs || (x == y))
elem-snoc x y [] = or_false (x == y)
  where
    or_false : (b : Bool) → (b || false) ≡ b
    or_false true = refl
    or_false false = refl
elem-snoc x y (z ∷ xs) =
    ap (λ b. (x == z) || b) (elem-snoc x y xs) ∙ regroup (x == z) (elem x xs) (x == y)
  where
    regroup : (a b c : Bool) → (a || (b || c)) ≡ ((a || b) || c)
    regroup true b c = refl
    regroup false b c = refl

Distinct-snoc : (y : ℕ) (xs : List ℕ) → Distinct xs → elem y xs ≡ false → Distinct (xs ++ y ∷ [])
Distinct-snoc y [] d out = (refl, tt)
Distinct-snoc y (z ∷ xs) d out =
    (ground (arith, elem-snoc z y xs, d.0, out), Distinct-snoc y xs d.1 (ground (arith, out)))

-- What the loop over `n` shadows from `i` on does to the state `s` and the list `found`.
pub record Scanned (i n : ℕ) (s : VbdState) (found : List ℕ) (r : VbdState × List ℕ) : Type 0 where
  pub distinct : Distinct found → Distinct r.1
  pub keeps : (id : ℕ) → elem id found ≡ true → elem id r.1 ≡ true
  pub finds : (j id : ℕ) → i ≤ j → j < i + n → (s.shadows j).srb ≡ some id → elem id r.1 ≡ true
  pub only :
      (id : ℕ)
      → elem id r.1 ≡ true
      → (elem id found ≡ true) ⊎ ((j : ℕ) × (i ≤ j) × (j < i + n) × ((s.shadows j).srb ≡ some id))
  pub empties : (j : ℕ) → i ≤ j → j < i + n → (r.0.shadows j).srb ≡ none
  pub marks :
      (j id : ℕ) → i ≤ j → j < i + n → (s.shadows j).srb ≡ some id → (r.0.shadows j).reset ≡ true
  pub before : (j : ℕ) → j < i → r.0.shadows j ≡ s.shadows j
  pub after : (j : ℕ) → i + n ≤ j → r.0.shadows j ≡ s.shadows j
  pub calls : r.0.calls ≡ s.calls
  pub queue : r.0.srb_list ≡ s.srb_list
  pub buffer : r.0.aligned_in_use ≡ s.aligned_in_use

reset_shadow-Scanned :
    (i : ℕ) (s : VbdState) (found : List ℕ) (o : Option ℕ)
    → (s.shadows i).srb ≡ o
    → Scanned i 1 s found (reset_shadow s i found o)
unfolding reset_shadow
reset_shadow-Scanned i s found none e = record {
  distinct = λ d. d;
  keeps = λ id h. h;
  finds = λ j id l h held. absurd (clash (at j l h) held);
  only = λ id h. inl h;
  empties = λ j l h. at j l h;
  marks = λ j id l h held. absurd (clash (at j l h) held);
  before = λ j l. refl;
  after = λ j l. refl;
  calls = refl;
  queue = refl;
  buffer = refl;
}
  where
    at : (j : ℕ) → i ≤ j → j < i + 1 → (s.shadows j).srb ≡ none
    at j l h = subst (λ k. (s.shadows k).srb ≡ none) (omega arith) e

    clash : {o : Option ℕ} {id : ℕ} → o ≡ none → o ≡ some id → ⊥
    clash e f = cc
reset_shadow-Scanned i s found (some id) e = record {
  distinct = λ d. spread d (Bool-cases (elem id found));
  keeps = λ k h. kept k h (elem id found);
  finds = λ j k l h held.
      subst (λ k. elem k (joined (elem id found)) ≡ true) (eq_of_some (sym (at j l h) ∙ held))
        (joined_in (Bool-cases (elem id found)));
  only = λ k h. from_joined k (elem id found) h;
  empties = λ j l h.
      subst (λ k. (update s.shadows i marked k).srb ≡ none) (omega arith)
        (ap (λ (b : Shadow). b.srb) (update_self s.shadows i marked));
  marks = λ j id l h held.
      subst (λ k. (update s.shadows i marked k).reset ≡ true) (omega arith)
        (ap (λ (b : Shadow). b.reset) (update_self s.shadows i marked));
  before = λ j l. update_ne s.shadows marked (omega arith);
  after = λ j l. update_ne s.shadows marked (omega arith);
  calls = refl;
  queue = refl;
  buffer = refl;
}
  where
    marked : Shadow
    marked = record (s.shadows i) { reset = true; srb = none; aligned_in_use = false }

    joined : Bool → List ℕ
    joined b = if b then found else found ++ id ∷ []

    spread :
        Distinct found
        → (elem id found ≡ true) ⊎ (elem id found ≡ false)
        → Distinct (joined (elem id found))
    spread d (inl h) = subst (λ b. Distinct (joined b)) (sym h) d
    spread d (inr h) = subst (λ b. Distinct (joined b)) (sym h) (Distinct-snoc id found d h)

    kept : (k : ℕ) → elem k found ≡ true → (b : Bool) → elem k (joined b) ≡ true
    kept k h true = h
    kept k h false = elem-snoc k id found ∙ ap (λ b. b || (k == id)) h

    at : (j : ℕ) → i ≤ j → j < i + 1 → (s.shadows j).srb ≡ some id
    at j l h = subst (λ k. (s.shadows k).srb ≡ some id) (omega arith) e

    joined_in :
        (elem id found ≡ true) ⊎ (elem id found ≡ false) → elem id (joined (elem id found)) ≡ true
    joined_in (inl h) = subst (λ b. elem id (joined b) ≡ true) (sym h) h
    joined_in (inr h) =
        subst (λ b. elem id (joined b) ≡ true) (sym h)
          (elem-snoc id id found ∙ ap₂ (λ a b. a || b) h (==_self id))

    from_joined :
        (k : ℕ) (b : Bool)
        → elem k (joined b) ≡ true
        → (elem k found ≡ true) ⊎ ((j : ℕ) × (i ≤ j) × (j < i + 1) × ((s.shadows j).srb ≡ some k))
    from_joined k true h = inl h
    from_joined k false h = elim (Bool-cases (k == id)) [
      | inl same ↦ inr (i, omega arith, omega arith, e ∙ ap some (sym ((==_iff k id).0 same)))
      | inr other ↦ inl (rest (elem k found) (k == id) (sym (elem-snoc k id found) ∙ h) other)
    ]
      where
        rest : (a b : Bool) → (a || b) ≡ true → b ≡ false → a ≡ true
        rest true b e f = refl
        rest false b e f = absurd (cc)

first_or_later : (i j : ℕ) → i ≤ j → (i ≡ j) ⊎ (suc i ≤ j)
first_or_later i j l = ground arith

-- One shadow and then the rest.
scan_on :
    (i n : ℕ) (s : VbdState) (found : List ℕ) (r q : VbdState × List ℕ)
    → Scanned i 1 s found r
    → Scanned (suc i) n r.0 r.1 q
    → Scanned i (suc n) s found q
scan_on i n s found r q a b = record {
  distinct = λ d. b.distinct (a.distinct d);
  keeps = λ id h. b.keeps id (a.keeps id h);
  finds = λ j id l h held. elim (first_or_later i j l) [
    | inl e ↦ b.keeps id (a.finds j id (omega arith) (omega arith) held)
    | inr m ↦
        b.finds j id m (omega arith) (ap (λ (x : Shadow). x.srb) (a.after j (omega arith)) ∙ held)
  ];
  only = λ id h. elim (b.only id h) [
    | inl old ↦ elim (a.only id old) [
      | inl older ↦ inl older
      | inr (j, l, m, held) ↦ inr (j, l, omega arith, held)
    ]
    | inr (j, l, m, held) ↦ inr (
      j,
      omega arith,
      omega arith,
      ap (λ (x : Shadow). x.srb) (sym (a.after j (omega arith))) ∙ held,
    )
  ];
  empties = λ j l h. elim (first_or_later i j l) [
    | inl e ↦
        ap (λ (x : Shadow). x.srb) (b.before j (omega arith))
        ∙ a.empties j (omega arith) (omega arith)
    | inr m ↦ b.empties j m (omega arith)
  ];
  marks = λ j id l h held. elim (first_or_later i j l) [
    | inl e ↦
        ap (λ (x : Shadow). x.reset) (b.before j (omega arith))
        ∙ a.marks j id (omega arith) (omega arith) held
    | inr m ↦
        b.marks j id m (omega arith) (ap (λ (x : Shadow). x.srb) (a.after j (omega arith)) ∙ held)
  ];
  before = λ j l. b.before j (omega arith) ∙ a.before j l;
  after = λ j l. b.after j (omega arith) ∙ a.after j (omega arith);
  calls = b.calls ∙ a.calls;
  queue = b.queue ∙ a.queue;
  buffer = b.buffer ∙ a.buffer;
}

pub reset_shadows-Scanned :
    (n i : ℕ) (s : VbdState) (found : List ℕ) → Scanned i n s found (reset_shadows n i s found)
unfolding reset_shadows
reset_shadows-Scanned zero i s found = record {
  distinct = λ d. d;
  keeps = λ id h. h;
  finds = λ j id l h held. absurd (omega arith);
  only = λ id h. inl h;
  empties = λ j l h. absurd (omega arith);
  marks = λ j id l h held. absurd (omega arith);
  before = λ j l. refl;
  after = λ j l. refl;
  calls = refl;
  queue = refl;
  buffer = refl;
}
reset_shadows-Scanned (suc n) i s found =
    let r = reset_shadow s i found (s.shadows i).srb in
    scan_on i n s found r (reset_shadows n (suc i) r.0 r.1)
      (reset_shadow-Scanned i s found (s.shadows i).srb refl)
      (reset_shadows-Scanned n (suc i) r.0 r.1)
