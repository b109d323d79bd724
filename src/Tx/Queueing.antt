-- ===== src/Tx/Queueing.antt =====
-- The packets that `XenNet_SendNetBufferLists` queues, and what becomes of them at the end.
use win_pvdrivers_mirror.Tx.{
  TxState, NetBuffer, NetBufferList, queue_packets, queue_list, shutdown_queue,
}
use win_pvdrivers_mirror.Tx.Lists.{members, completions, Counted, once_if, shutdown_queue-once}
use win_pvdrivers_mirror.Base.{
  ℕ, zero, suc, ◌+◌, ◌^◌, ◌<◌, ◌≡◌, ◌≢◌, refl, ap, ap₂, sym, ◌∙◌, subst, inl, inr, true, false,
  List, [], ◌∷◌, ◌++◌, length, length-append, elem, Distinct, ◌==◌, ==_iff, ==_ne, ne-of_==,
  if◌then◌else◌, update, update_self, update_ne, append-nil, append_assoc, Bool-cases, arith,
}

-- What queueing the packets of a list leaves.
record Queued (nbl : ℕ) (ps : List ℕ) (s t : TxState) : Type 0 where
  waiting : t.waiting ≡ s.waiting ++ ps
  ref : t.nbl_ref nbl ≡ s.nbl_ref nbl + length ps
  other_refs : (n : ℕ) → nbl ≢ n → t.nbl_ref n ≡ s.nbl_ref n
  mine : (p : ℕ) → elem p ps ≡ true → (t.nbs p).nbl ≡ nbl
  others : (p : ℕ) → elem p ps ≡ false → t.nbs p ≡ s.nbs p

queue_packets-Queued :
    (nbl : ℕ) (ps : List ℕ) (s : TxState) → Distinct ps → Queued nbl ps s (queue_packets nbl ps s)
queue_packets-Queued nbl [] s d = record {
  waiting = sym (append-nil s.waiting);
  ref = omega arith;
  other_refs = λ n ne. refl;
  mine = λ p e. absurd (cc);
  others = λ p e. refl;
}
queue_packets-Queued nbl (p ∷ ps) s d =
    let r = queue_packets-Queued nbl ps next d.1 in
    record {
      waiting = r.waiting ∙ append_assoc s.waiting (p ∷ []) ps;
      ref =
          r.ref
          ∙ ap (λ n. n + length ps) (update_self s.nbl_ref nbl (s.nbl_ref nbl + 1))
          ∙ omega arith;
      other_refs = λ n ne. r.other_refs n ne ∙ update_ne s.nbl_ref (s.nbl_ref nbl + 1) ne;
      mine = λ q e. elim (Bool-cases (elem q ps)) [
        | inl there ↦ r.mine q there
        | inr not_there ↦
            ap (λ (b : NetBuffer). b.nbl) (r.others q not_there)
            ∙ ap (λ k. (update s.nbs p (record (s.nbs p) { nbl = nbl }) k).nbl)
                (is_head q p ps e not_there)
            ∙ ap (λ (b : NetBuffer). b.nbl) (update_self s.nbs p (record (s.nbs p) { nbl = nbl }))
      ];
      others = λ q e.
          r.others q (not_under q p ps e)
          ∙ update_ne s.nbs (record (s.nbs p) { nbl = nbl }) (not_head q p ps e);
    }
  where
    next : TxState
    next = record s {
      nbs = update s.nbs p (record (s.nbs p) { nbl = nbl });
      waiting = s.waiting ++ (p ∷ []);
      nbl_ref = update s.nbl_ref nbl (s.nbl_ref nbl + 1);
    }

    is_head : (q p : ℕ) (ps : List ℕ) → elem q (p ∷ ps) ≡ true → elem q ps ≡ false → q ≡ p
    is_head q p ps e out = ground arith

    not_under : (q p : ℕ) (ps : List ℕ) → elem q (p ∷ ps) ≡ false → elem q ps ≡ false
    not_under q p ps e = ground arith

    not_head : (q p : ℕ) (ps : List ℕ) → elem q (p ∷ ps) ≡ false → p ≢ q
    not_head q p ps e = ground arith

members-append :
    (nbs : ℕ → NetBuffer) (nbl : ℕ) (ps qs : List ℕ)
    → members nbs nbl (ps ++ qs) ≡ members nbs nbl ps + members nbs nbl qs
members-append nbs nbl [] qs = omega arith
members-append nbs nbl (p ∷ ps) qs = ground (arith, members-append nbs nbl ps qs)

under_self : (i : ℕ) (xs : List ℕ) → elem i (i ∷ xs) ≡ true
under_self i xs = ground arith

under_more : (i j : ℕ) (xs : List ℕ) → elem j xs ≡ true → elem j (i ∷ xs) ≡ true
under_more i j xs e = ground arith

-- Packets whose lists are the same in both tables count the same.
members_same :
    (f g : ℕ → NetBuffer) (nbl : ℕ) (ps : List ℕ)
    → ((p : ℕ) → elem p ps ≡ true → f p ≡ g p)
    → members f nbl ps ≡ members g nbl ps
members_same f g nbl [] e = refl
members_same f g nbl (p ∷ ps) e =
    ap₂ (λ (b : NetBuffer) n. if b.nbl == nbl then n + 1 else n) (e p (under_self p ps))
      (members_same f g nbl ps (λ q l. e q (under_more p q ps l)))

members_all :
    (nbs : ℕ → NetBuffer) (nbl : ℕ) (ps : List ℕ)
    → ((p : ℕ) → elem p ps ≡ true → (nbs p).nbl ≡ nbl)
    → members nbs nbl ps ≡ length ps
members_all nbs nbl [] e = refl
members_all nbs nbl (p ∷ ps) e =
    ap (λ b. if b then members nbs nbl ps + 1 else members nbs nbl ps)
      ((==_iff _ _).1 (e p (under_self p ps)))
    ∙ ap (λ n. n + 1) (members_all nbs nbl ps (λ q l. e q (under_more p q ps l)))
    ∙ omega arith

members_none :
    (nbs : ℕ → NetBuffer) (nbl n : ℕ) (ps : List ℕ)
    → nbl ≢ n
    → ((p : ℕ) → elem p ps ≡ true → (nbs p).nbl ≡ nbl)
    → members nbs n ps ≡ 0
members_none nbs nbl n [] ne e = refl
members_none nbs nbl n (p ∷ ps) ne e =
    ap (λ b. if b then members nbs n ps + 1 else members nbs n ps)
      (==_ne (λ z. ne (sym (e p (under_self p ps)) ∙ z)))
    ∙ members_none nbs nbl n ps ne (λ q l. e q (under_more p q ps l))

-- After a list was queued: its packets wait behind the others, its count is their number, and the
-- packets of the other lists are as many as before.
pub record ListQueued (l : NetBufferList) (s t : TxState) : Type 0 where
  pub waiting : t.waiting ≡ s.waiting ++ l.packets
  pub calls : t.calls ≡ s.calls
  pub counted : Counted t
  pub mine : members t.nbs l.nbl t.waiting ≡ length l.packets
  pub others : (n : ℕ) → l.nbl ≢ n → members t.nbs n t.waiting ≡ members s.nbs n s.waiting

queue_packets_calls :
    (nbl : ℕ) (ps : List ℕ) (s : TxState) → (queue_packets nbl ps s).calls ≡ s.calls
queue_packets_calls nbl [] s = refl
queue_packets_calls nbl (p ∷ ps) s = queue_packets_calls nbl ps (record s {
  nbs = update s.nbs p (record (s.nbs p) { nbl = nbl });
  waiting = s.waiting ++ (p ∷ []);
  nbl_ref = update s.nbl_ref nbl (s.nbl_ref nbl + 1);
})

-- A list of new packets is queued by `XenNet_SendNetBufferLists`: its packets wait in order behind
-- the others, each list still counts its packets, and no list is given back.
pub queue_list-ListQueued :
    (l : NetBufferList) (s : TxState)
    → Counted s
    → members s.nbs l.nbl s.waiting ≡ 0
    → Distinct l.packets
    → ((p : ℕ) → elem p s.waiting ≡ true → elem p l.packets ≡ false)
    → ListQueued l s (queue_list l s)
unfolding queue_list
queue_list-ListQueued l s counted fresh d apart = record {
  waiting = q.waiting;
  calls = queue_packets_calls l.nbl l.packets start;
  counted = λ n ne. elim (Bool-cases (l.nbl == n)) [
    | inl e ↦ subst (λ n. t.nbl_ref n ≡ members t.nbs n t.waiting) ((==_iff l.nbl n).0 e) own
    | inr e ↦
        let same = other n (ne-of_== e) in
        q.other_refs n (ne-of_== e)
        ∙ update_ne s.nbl_ref 0 (ne-of_== e)
        ∙ counted n (λ z. absurd (ne (same ∙ z)))
        ∙ sym same
  ];
  mine = mine;
  others = other;
}
  where
    start : TxState
    start = record s { nbl_ref = update s.nbl_ref l.nbl 0 }

    t : TxState
    t = queue_packets l.nbl l.packets start

    q : Queued l.nbl l.packets start t
    q = queue_packets-Queued l.nbl l.packets start d

    split :
        (n : ℕ) → members t.nbs n t.waiting ≡ members s.nbs n s.waiting + members t.nbs n l.packets
    split n =
        ap (members t.nbs n) q.waiting
        ∙ members-append t.nbs n s.waiting l.packets
        ∙ ap (λ m. m + members t.nbs n l.packets)
            (members_same t.nbs s.nbs n s.waiting (λ p e. q.others p (apart p e)))

    mine : members t.nbs l.nbl t.waiting ≡ length l.packets
    mine =
        split l.nbl
        ∙ ap₂ (λ a b. a + b) fresh (members_all t.nbs l.nbl l.packets q.mine)
        ∙ omega arith

    own : t.nbl_ref l.nbl ≡ members t.nbs l.nbl t.waiting
    own =
        q.ref
        ∙ ap (λ n. n + length l.packets) (update_self s.nbl_ref l.nbl 0)
        ∙ omega arith
        ∙ sym mine

    other : (n : ℕ) → l.nbl ≢ n → members t.nbs n t.waiting ≡ members s.nbs n s.waiting
    other n ne =
        split n
        ∙ ap (λ m. members s.nbs n s.waiting + m) (members_none t.nbs l.nbl n l.packets ne q.mine)
        ∙ omega arith

-- A list that is queued with packets by `XenNet_SendNetBufferLists` while no packet is on the ring,
-- and what waits is dropped by `XenNet_TxShutdown`: the list is given back once, and any other list
-- once when it had packets waiting, and else not at all.
pub queue_list-shutdown_queue :
    (l : NetBufferList) (s : TxState)
    → Counted s
    → members s.nbs l.nbl s.waiting ≡ 0
    → Distinct l.packets
    → ((p : ℕ) → elem p s.waiting ≡ true → elem p l.packets ≡ false)
    → length l.packets ≢ 0
    → length s.waiting + length l.packets < 2 ^ 63
    → (completions l.nbl (shutdown_queue (queue_list l s)).calls ≡ completions l.nbl s.calls + 1)
      × ((n : ℕ)
          → l.nbl ≢ n
          → completions n (shutdown_queue (queue_list l s)).calls
            ≡ completions n s.calls + once_if (members s.nbs n s.waiting))
queue_list-shutdown_queue l s counted fresh d apart some_there few = (
  once l.nbl
      ∙ ap₂ (λ c m. completions l.nbl c + once_if m) q.calls q.mine
      ∙ ap (λ m. completions l.nbl s.calls + m) (once_of (length l.packets) some_there),
  λ n ne. once n ∙ ap₂ (λ c m. completions n c + once_if m) q.calls (q.others n ne),
)
  where
    t : TxState
    t = queue_list l s

    q : ListQueued l s t
    q = queue_list-ListQueued l s counted fresh d apart

    once :
        (n : ℕ)
        → completions n (shutdown_queue t).calls
          ≡ completions n t.calls + once_if (members t.nbs n t.waiting)
    once n =
        shutdown_queue-once t n q.counted
          (omega (arith, ap length q.waiting, length-append s.waiting l.packets))

    once_of : (n : ℕ) → n ≢ 0 → once_if n ≡ 1
    once_of zero ne = absurd (ne refl)
    once_of (suc n) ne = refl
