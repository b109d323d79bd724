-- ===== src/Vbd/Pool.antt =====
-- The free list of shadows as a set of free shadows: `get_shadow_from_freelist` and
-- `put_shadow_on_freelist`.
use win_pvdrivers_mirror.Base.{
  ℕ, zero, suc, ◌+◌, ◌-◌, ◌%◌, ◌^◌, ◌<◌, ◌≤◌, ◌≡◌, ◌≢◌, ◌⊎◌, inl, inr, refl, ap, ap₂, sym, ◌∙◌,
  subst, Bool, true, false, none, some, List, ◌∷◌, elem, Distinct, ◌==◌, ==_iff, update, contents,
  contents-push, length-contents, Bool-cases, length-Distinct, arith,
}
use win_pvdrivers_mirror.Vbd.{
  Host, VbdState, Shadow, requeue, put_srb_on_ring, shadow_id, max_shadow_entries,
}
use win_pvdrivers_mirror.Vbd.Placing.{Placed, sent, deferred}
use win_pvdrivers_mirror.Vbd.Submit.{Ready, Outcome, popped, next_shadow, put_srb_on_ring-Outcome}
use win_pvdrivers_mirror.Vbd.Reply.{Response, handle_response}
use win_pvdrivers_mirror.Vbd.Reply.Answer.{handle_response-Answered}

abbrev pub pool : VbdState → List ℕ
pool s = contents s.shadow_free s.free_list

-- The free shadows are distinct, in the table and without an SRB, and each shadow has its own id.
pub record IsPool (s : VbdState) : Type 0 where
  pub distinct : Distinct (pool s)
  pub free :
      (j : ℕ) → elem j (pool s) ≡ true → (j < max_shadow_entries) × ((s.shadows j).srb ≡ none)
  pub ids : (j : ℕ) → j < max_shadow_entries → shadow_id (s.shadows j).req.id ≡ j

pool-popped : (s : VbdState) → s.shadow_free ≢ 0 → pool s ≡ next_shadow s ∷ pool (popped s)
pool-popped s n = at s.shadow_free n
  where
    at :
        (k : ℕ)
        → k ≢ 0
        → contents k s.free_list ≡ s.free_list (k - 1) ∷ contents (k - 1) s.free_list
    at zero n = absurd (n refl)
    at (suc k) n = ap (λ m. s.free_list m ∷ contents m s.free_list) (omega arith)

-- A list without the number `i` under an `i`
elem-under : (i j : ℕ) (xs : List ℕ) → elem j (i ∷ xs) ≡ true → (j ≡ i) ⊎ (elem j xs ≡ true)
elem-under i j xs e = elim (Bool-cases (j == i)) [
  | inl here ↦ inl ((==_iff j i).0 here)
  | inr there ↦ inr (ground (arith, there))
]

ne_of_elem : (i j : ℕ) (xs : List ℕ) → elem i xs ≡ false → elem j xs ≡ true → i ≢ j
ne_of_elem i j xs out here e = absurd (clash (subst (λ k. elem k xs ≡ false) e out) here)
  where
    clash : {b : Bool} → b ≡ false → b ≡ true → ⊥
    clash e f = cc

few : (s : VbdState) → IsPool s → s.shadow_free ≤ max_shadow_entries
few s q = omega (
  arith,
  sym (length-contents s.shadow_free s.free_list),
  length-Distinct max_shadow_entries (pool s) q.distinct λ j e. (q.free j e).0,
)

-- The shadow that is taken off is no longer free.
pool_pop :
    (s : VbdState)
    → IsPool s
    → s.shadow_free ≢ 0
    → IsPool (popped s)
      × (elem (next_shadow s) (pool (popped s)) ≡ false)
      × (next_shadow s < max_shadow_entries)
pool_pop s q n =
    let split = pool-popped s n in
    let d : Distinct (next_shadow s ∷ pool (popped s)) = subst Distinct split q.distinct in
    (
      record {
        distinct = d.1;
        free = λ j e. q.free j (ap (elem j) split ∙ ground (arith, e));
        ids = q.ids;
      },
      d.0,
      (q.free (next_shadow s) (ap (elem (next_shadow s)) split ∙ ground arith)).0,
    )

-- The ids stay when one shadow changes and keeps its own.
keep_ids :
    (s t : VbdState) (i : ℕ)
    → IsPool s
    → ((j : ℕ) → i ≢ j → t.shadows j ≡ s.shadows j)
    → (t.shadows i).req.id ≡ (s.shadows i).req.id
    → (j : ℕ) → j < max_shadow_entries
    → shadow_id (t.shadows j).req.id ≡ j
keep_ids s t i q others same j l = elim (Bool-cases (i == j)) [
  | inl at ↦
      let at' = (==_iff i j).0 at in
      subst (λ k. shadow_id (t.shadows k).req.id ≡ k) at'
        (ap shadow_id same ∙ q.ids i (omega (arith, at', l)))
  | inr off ↦ ap (λ (b : Shadow). shadow_id b.req.id) (others j (ne_of off)) ∙ q.ids j l
]
  where
    ne_of : {a b : ℕ} → (a == b) ≡ false → a ≡ b → ⊥
    ne_of e f = ground arith

-- A step that changes only a shadow that is not free keeps the pool.
pool_same :
    (s t : VbdState) (i : ℕ)
    → IsPool s
    → elem i (pool s) ≡ false
    → t.free_list ≡ s.free_list
    → t.shadow_free ≡ s.shadow_free
    → ((j : ℕ) → i ≢ j → t.shadows j ≡ s.shadows j)
    → (t.shadows i).req.id ≡ (s.shadows i).req.id
    → IsPool t × (pool t ≡ pool s)
pool_same s t i q out fl sf others same =
    let e = ap₂ contents sf fl in
    (
      record {
        distinct = subst Distinct (sym e) q.distinct;
        free = λ j here.
            let here' = ap (elem j) (sym e) ∙ here in
            let (low, empty) = q.free j here' in
            (
              low,
              ap (λ (b : Shadow). b.srb) (others j (ne_of_elem i j (pool s) out here')) ∙ empty,
            );
        ids = keep_ids s t i q others same;
      },
      e,
    )

-- A shadow that was not free is put on the list.
pool_push :
    (s t : VbdState) (i : ℕ)
    → IsPool s
    → elem i (pool s) ≡ false
    → i < max_shadow_entries
    → t.free_list ≡ update s.free_list s.shadow_free (shadow_id (s.shadows i).req.id)
    → t.shadow_free ≡ (s.shadow_free + 1) % 2 ^ 16
    → (t.shadows i).srb ≡ none
    → ((j : ℕ) → i ≢ j → t.shadows j ≡ s.shadows j)
    → (t.shadows i).req.id ≡ (s.shadows i).req.id
    → IsPool t × (pool t ≡ i ∷ pool s)
pool_push s t i q out low fl sf empty others same =
    let count : t.shadow_free ≡ suc s.shadow_free = omega (arith, sf, few s q) in
    let list : t.free_list ≡ update s.free_list s.shadow_free i =
      fl ∙ ap (update s.free_list s.shadow_free) (q.ids i low) in
    let e : pool t ≡ i ∷ pool s =
      ap₂ contents count list ∙ contents-push s.shadow_free i s.free_list in
    (
      record {
        distinct = subst Distinct (sym e) (out, q.distinct);
        free = λ j here. elim (elem-under i j (pool s) (ap (elem j) (sym e) ∙ here)) [
          | inl at ↦ (omega (arith, at, low), subst (λ k. (t.shadows k).srb ≡ none) (sym at) empty)
          | inr below ↦ (
            (q.free j below).0,
            ap (λ (b : Shadow). b.srb) (others j (ne_of_elem i j (pool s) out below))
                ∙ (q.free j below).1,
          )
        ];
        ids = keep_ids s t i q others same;
      },
      e,
    )

-- What becomes of the pool: the shadow on top of it is used up if something was sent, and else it is as
-- it was.
abbrev pub PoolAfter : VbdState → Bool × VbdState → Type 0
PoolAfter s (true, t) = IsPool t × (pool s ≡ next_shadow s ∷ pool t)
PoolAfter s (false, t) = IsPool t × (pool t ≡ pool s)

-- Under the same conditions as before, and with the free list a list of distinct shadows of the table that
-- hold no SRB, putting an SRB on the ring takes exactly the top of the list off if a request is sent, and
-- otherwise leaves the list as it was; the list stays one of distinct shadows that hold no SRB.
pub put_srb_on_ring-IsPool :
    (h : Host) (s : VbdState) (id base : ℕ)
    → Ready h s id base
    → IsPool s
    → (r : Bool × VbdState) × (put_srb_on_ring h s id ≡ some r) × PoolAfter s r
put_srb_on_ring-IsPool h s id base ready q =
    let (r, run, outcome) = put_srb_on_ring-Outcome h s id base ready in (r, run, after r outcome)
  where
    stays : IsPool (requeue s id)
    stays = record { distinct = q.distinct; free = q.free; ids = q.ids }

    placed :
        (address sector blocks : ℕ) (r : Bool × VbdState)
        → s.shadow_free ≢ 0
        → Placed h (popped s) id (next_shadow s) address sector blocks r
        → PoolAfter s r
    placed address sector blocks (true, t) n (sent x) =
        let (q', out, low) = pool_pop s q n in
        let (qt, e) =
          pool_same (popped s) t (next_shadow s) q' out x.free_list x.shadow_free x.other_shadows
            x.same_id in
        (qt, pool-popped s n ∙ ap (λ xs. next_shadow s ∷ xs) (sym e))
    placed address sector blocks (false, t) n (deferred x) =
        let (q', out, low) = pool_pop s q n in
        let (qt, e) =
          pool_push (popped s) t (next_shadow s) q' out low x.free_list x.shadow_free x.emptied
            x.other_shadows x.same_id in
        (qt, e ∙ sym (pool-popped s n))

    after : (r : Bool × VbdState) → Outcome h s id base r → PoolAfter s r
    after r (inl (why, e)) = subst (PoolAfter s) (sym e) (stays, refl)
    after r (inr (c, n, p)) = placed _ _ _ r n p

-- A response for a shadow of the table in use, under the same conditions as before, puts exactly that
-- shadow on top of the free list, which stays one of distinct shadows that hold no SRB.
pub handle_response-IsPool :
    (s : VbdState) (rep : Response) (id : ℕ)
    → (s.shadows (shadow_id rep.id)).reset ≡ false
    → (s.shadows (shadow_id rep.id)).srb ≡ some id
    → ((s.shadows (shadow_id rep.id)).aligned_in_use ≡ true → s.aligned_in_use ≡ true)
    → 0 < (s.srbs id).outstanding
    → (s.srbs id).outstanding < 2 ^ 32
    → shadow_id rep.id < max_shadow_entries
    → IsPool s
    → (t : VbdState) × (handle_response s rep ≡ some t)
      × IsPool t
      × (pool t ≡ shadow_id rep.id ∷ pool s)
handle_response-IsPool s rep id live held buffer some_out bound low q =
    let i = shadow_id rep.id in
    let (t, run, a) = handle_response-Answered s rep id live held buffer some_out bound in
    let (qt, e) =
      pool_push s t i q (busy (Bool-cases (elem i (pool s)))) low a.free_list a.shadow_free
        a.emptied a.other_shadows a.same_id in
    (t, run, qt, e)
  where
    busy :
        (elem (shadow_id rep.id) (pool s) ≡ true) ⊎ (elem (shadow_id rep.id) (pool s) ≡ false)
        → elem (shadow_id rep.id) (pool s) ≡ false
    busy (inl here) = absurd (clash (sym held ∙ (q.free (shadow_id rep.id) here).1))
      where
        clash : some id ≡ none → ⊥
        clash e = cc
    busy (inr out) = out
