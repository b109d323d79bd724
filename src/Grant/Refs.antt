-- ===== src/Grant/Refs.antt =====
-- References leave and enter the free list one at a time, with their tags.
use win_pvdrivers_mirror.Base.{
  sym, subst, ◌∙◌, elem, Distinct, All, All-elem, update_self, update_ne, inl, inr, ℕ, ◌+◌, ◌<◌,
  ◌≤◌, ◌≡◌, refl, ◌≢◌, ap, false, some, List, [], ◌∷◌, update, arith, Bool-cases, ==_self,
}
use win_pvdrivers_mirror.Grant.{
  grant_entries, StackApi, GrantTag, GrantState, invalid_grant_ref, put_ref, get_ref,
}

-- References on a free list: untagged, and below the size of the table.
abbrev pub Untagged : ℕ → (ℕ → GrantTag) → List ℕ → Type 0
Untagged n f = All (λ r. ((f r).tag ≡ 0) × (r < n))

pub Untagged-update :
    (n : ℕ) (f : ℕ → GrantTag) (x : ℕ) (t : GrantTag) (xs : List ℕ)
    → elem x xs ≡ false
    → Untagged n f xs
    → Untagged n (update f x t) xs
Untagged-update n f x t [] out h = tt
Untagged-update n f x t (y ∷ ys) out h =
    (ground arith, Untagged-update n f x t ys (ground arith) h.1)

module _ (lf : StackApi) where
  open lf use {Stack, push, pop, contents, room, contents-push, room-push, pop-nil, pop-cons}

  -- The free list holds no reference twice, and all of them are untagged entries of the table.
  pub record IsReady (s : GrantState Stack) : Type 0 where
    pub distinct : Distinct (contents s.ss)
    pub untagged : Untagged (grant_entries s.grant_frames) s.tags (contents s.ss)

  abbrev pub taken : GrantState Stack → ℕ → ℕ → Stack → GrantState Stack
  taken s ref tag ss = record s {
    ss = ss;
    tags = update s.tags ref (record { generation = s.generation; tag = tag });
  }

  abbrev pub freed : GrantState Stack → ℕ → GrantState Stack
  freed s ref = record s {
    tags = update s.tags ref (record { generation = 0xffffffff; tag = 0 });
    ss = push s.ss ref;
  }

  -- With an empty free list no reference is given out and nothing changes.
  pub get_ref-empty :
      (s : GrantState Stack) (tag : ℕ)
      → contents s.ss ≡ []
      → get_ref lf s tag ≡ some (invalid_grant_ref, s)
  unfolding get_ref
  get_ref-empty s tag h = rw (pop-nil s.ss h)

  -- The reference on top is given out if it is untagged.
  pub get_ref-cons :
      (s : GrantState Stack) (tag : ℕ) (x : ℕ) (xs : List ℕ)
      → contents s.ss ≡ x ∷ xs
      → (s.tags x).tag ≡ 0
      → (ss : Stack) × (get_ref lf s tag ≡ some (x, taken s x tag ss))
        × (contents ss ≡ xs)
        × (room s.ss + 1 ≤ room ss)
  unfolding get_ref
  get_ref-cons s tag x xs h e = let (ss, p, c, r) = pop-cons s.ss x xs h in (ss, rw (p, e), c, r)

  pub put_ref-freed :
      (s : GrantState Stack) (ref tag : ℕ)
      → (s.tags ref).tag ≡ tag
      → put_ref lf s ref tag ≡ some (freed s ref)
  unfolding put_ref
  put_ref-freed s ref tag h = rw (h, ==_self tag)

  pub Ready-taken :
      (s : GrantState Stack) (tag x : ℕ) (xs : List ℕ) (ss : Stack)
      → IsReady s
      → contents s.ss ≡ x ∷ xs
      → contents ss ≡ xs
      → IsReady (taken s x tag ss)
  Ready-taken s tag x xs ss v c c' =
      let d : Distinct (x ∷ xs) = subst Distinct c v.distinct in
      let u : Untagged (grant_entries s.grant_frames) s.tags (x ∷ xs) =
        subst (Untagged (grant_entries s.grant_frames) s.tags) c v.untagged in
      record {
        distinct = subst Distinct (sym c') d.1;
        untagged =
            subst (Untagged (grant_entries s.grant_frames) (taken s x tag ss).tags) (sym c') (
              Untagged-update (grant_entries s.grant_frames) s.tags x
                (record { generation = s.generation; tag = tag }) xs d.0 u.1);
      }

  -- What a call of `GntTbl_GetRef` gives: nothing from an empty free list, else an entry of the
  -- table that leaves the free list and carries the caller's tag.
  pub data Got (s : GrantState Stack) (tag : ℕ) : ℕ → GrantState Stack → Type 0 where
    exhausted : contents s.ss ≡ [] → Got s tag invalid_grant_ref s
    given :
        {t : GrantState Stack} (x : ℕ)
        → contents s.ss ≡ x ∷ contents t.ss
        → x < grant_entries s.grant_frames
        → elem x (contents t.ss) ≡ false
        → (t.tags x).tag ≡ tag
        → ((r : ℕ) → r ≢ x → t.tags r ≡ s.tags r)
        → Got s tag x t

  -- `GntTbl_GetRef` meets no failed assertion on a free list of distinct untagged references, keeps
  -- it such, and gives out its top or, where it is empty, INVALID_GRANT_REF.
  pub get_ref-Got :
      (s : GrantState Stack) (tag : ℕ)
      → IsReady s
      → (x : ℕ) × (t : GrantState Stack) × (get_ref lf s tag ≡ some (x, t))
        × Got s tag x t
        × IsReady t
  get_ref-Got s tag v = go (contents s.ss) refl
    where
      go :
          (xs : List ℕ)
          → contents s.ss ≡ xs
          → (x : ℕ) × (t : GrantState Stack) × (get_ref lf s tag ≡ some (x, t))
            × Got s tag x t
            × IsReady t
      go [] c = (invalid_grant_ref, s, get_ref-empty s tag c, exhausted c, v)
      go (x ∷ xs) c =
          let d : Distinct (x ∷ xs) = subst Distinct c v.distinct in
          let u : Untagged (grant_entries s.grant_frames) s.tags (x ∷ xs) =
            subst (Untagged (grant_entries s.grant_frames) s.tags) c v.untagged in
          let (ss, run, below, _) = get_ref-cons s tag x xs c u.0.0 in
          (
            x,
            taken s x tag ss,
            run,
            given x (c ∙ ap (◌∷◌ x) (sym below)) u.0.1 (ap (elem x) below ∙ d.0)
                (ap GrantTag.tag
                  (update_self s.tags x (record { generation = s.generation; tag = tag })))
                (λ r ne.
                  update_ne s.tags {i = x} {j = r} (record { generation = s.generation; tag = tag })
                    (λ e. ne (sym e))),
            Ready-taken s tag x xs ss v c below,
          )

  -- `GntTbl_PutRef` of a reference that carries the caller's tag, which is not 0, meets no failed
  -- assertion, puts the reference on top of the free list without its tag, and keeps the free list
  -- one of distinct untagged references: nothing is freed twice.
  pub put_ref-IsReady :
      (s : GrantState Stack) (ref tag : ℕ)
      → IsReady s
      → (s.tags ref).tag ≡ tag
      → tag ≢ 0
      → ref < grant_entries s.grant_frames
      → 0 < room s.ss
      → (t : GrantState Stack) × (put_ref lf s ref tag ≡ some t)
        × (contents t.ss ≡ ref ∷ contents s.ss)
        × IsReady t
  put_ref-IsReady s ref tag v e ne low space =
      let blank : GrantTag = record { generation = 0xffffffff; tag = 0 } in
      let out : elem ref (contents s.ss) ≡ false = elim (Bool-cases (elem ref (contents s.ss))) [
        | inl i ↦ absurd (ne (sym e ∙ (All-elem _ (contents s.ss) ref v.untagged i).0))
        | inr o ↦ o
      ] in
      let top = contents-push s.ss ref space in
      (
        freed s ref,
        put_ref-freed s ref tag e,
        top,
        record {
          distinct = subst Distinct (sym top) (out, v.distinct);
          untagged =
              subst (Untagged (grant_entries s.grant_frames) (update s.tags ref blank)) (sym top) (
                (ap GrantTag.tag (update_self s.tags ref blank), low),
                Untagged-update (grant_entries s.grant_frames) s.tags ref blank (contents s.ss) out
                    v.untagged,
              );
        },
      )
