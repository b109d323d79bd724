-- ===== src/Tx/Responses.antt =====
-- The responses that `XenNet_TxBufferGC` collects.
use win_pvdrivers_mirror.Tx.{
  TxState, TxShadow, TxCall, TxResponse, Collected, empty_shadow, net_tx_ring_size, given_back,
  put_id, is_none, calls_for, note_packet, empty_slot, with_tx, close_response, collect_response,
}
use win_pvdrivers_mirror.Tx.Free.{Idle, IsTx, free_ids, elem-under, ne-of_elem}
use win_pvdrivers_mirror.Base.{
  ℕ, suc, ◌+◌, ◌<◌, ◌≡◌, ◌≢◌, refl, ap, ap₂, sym, ◌∙◌, subst, inl, inr, true, false, Option, none,
  some, ◌∷◌, lt→ltb, elem, Distinct, if◌then◌else◌, update_self, update_ne, contents, contents-push,
  Bool-cases, arith, ◌>>◌, xn_assert,
}

-- A request with this id is on the ring: its shadow has a grant.
abbrev pub InFlight : TxState → ℕ → Type 0
InFlight s id = (id < net_tx_ring_size) × (r : ℕ) × ((s.shadows id).gref ≡ some r)

-- What stays when a packet is noted.
record Noted (g h : Collected) : Type 0 where
  shadows : h.tx.shadows ≡ g.tx.shadows
  id_list : h.tx.id_list ≡ g.tx.id_list
  id_free : h.tx.id_free ≡ g.tx.id_free
  ring_free : h.tx.ring_free ≡ g.tx.ring_free
  calls : h.tx.calls ≡ g.tx.calls

note_packet-Noted : (o : Option ℕ) (g : Collected) → Noted g (note_packet o g)
unfolding note_packet
note_packet-Noted none g = record {
  shadows = refl;
  id_list = refl;
  id_free = refl;
  ring_free = refl;
  calls = refl;
}
note_packet-Noted (some p) g = record {
  shadows = refl;
  id_list = refl;
  id_free = refl;
  ring_free = refl;
  calls = refl;
}

-- One response: the state `h` after that for the id `id` in the state `g`.
pub record Returned (id : ℕ) (g h : Collected) : Type 0 where
  pub free : free_ids h.tx ≡ id ∷ free_ids g.tx
  pub emptied : h.tx.shadows id ≡ empty_shadow
  pub others : (j : ℕ) → id ≢ j → h.tx.shadows j ≡ g.tx.shadows j
  pub ring_free : h.tx.ring_free ≡ g.tx.ring_free + 1
  pub calls :
      h.tx.calls
      ≡ calls_for TxCall.access_ended
          (g.tx.shadows id).gref
          (calls_for TxCall.buffer_freed (g.tx.shadows id).cb g.tx.calls)

-- An id in flight is not free.
busy_not_free :
    (extra id : ℕ) (s : TxState) → IsTx extra s → InFlight s id → elem id (free_ids s) ≡ false
busy_not_free extra id s q f = elim (Bool-cases (elem id (free_ids s))) [
  | inl e ↦ let idle : (s.shadows id).gref ≡ none = (q.free id e).1.0 in absurd (cc (idle, f.2))
  | inr e ↦ e
]

module _ (id : ℕ) (g : Collected) where
  -- The state before the end of the response.
  abbrev emptied_at : Collected
  emptied_at =
      let s = record (g.tx) { ring_free = g.tx.ring_free + 1 } in
      note_packet (g.tx.shadows id).packet (record g { tx = empty_slot id (g.tx.shadows id) s })

  abbrev pub closed : Collected
  closed = record emptied_at { tx = given_back id emptied_at.tx }

  noted :
      Noted
        (record g {
          tx = empty_slot id (g.tx.shadows id) (record (g.tx) { ring_free = g.tx.ring_free + 1 });
        })
        emptied_at
  noted = note_packet-Noted (g.tx.shadows id).packet _

  shadow_at : emptied_at.tx.shadows id ≡ empty_shadow
  shadow_at = ap (λ f. f id) noted.shadows ∙ update_self g.tx.shadows id empty_shadow

  close_response_run : id < net_tx_ring_size → close_response id emptied_at ≡ some closed
  unfolding close_response put_id
  close_response_run low =
      ap
        (λ b.
          xn_assert b
          >> (xn_assert (is_none (emptied_at.tx.shadows id).cb)
              >> with_tx emptied_at (put_id id emptied_at.tx)))
        (ap (λ (sh : TxShadow). is_none sh.gref) shadow_at)
      ∙ ap (λ b. xn_assert b >> with_tx emptied_at (put_id id emptied_at.tx))
          (ap (λ (sh : TxShadow). is_none sh.cb) shadow_at)
      ∙ ap (λ b. with_tx emptied_at (xn_assert b >> some (given_back id emptied_at.tx)))
          (lt→ltb id net_tx_ring_size low)

  closed-Returned : Returned id g closed
  closed-Returned = record {
    free =
        ap (λ n. contents n closed.tx.id_list) {y = suc emptied_at.tx.id_free} (omega arith)
        ∙ contents-push emptied_at.tx.id_free id emptied_at.tx.id_list
        ∙ ap₂ (λ n f. id ∷ contents n f) noted.id_free noted.id_list;
    emptied = shadow_at;
    others = λ j ne. ap (λ f. f j) noted.shadows ∙ update_ne g.tx.shadows empty_shadow ne;
    ring_free = noted.ring_free;
    calls = noted.calls;
  }

-- The ids are in order after a response.
Returned-IsTx :
    (extra id : ℕ) (g h : Collected)
    → IsTx extra g.tx
    → InFlight g.tx id
    → Returned id g h
    → h.tx.id_free ≡ g.tx.id_free + 1
    → IsTx extra h.tx
Returned-IsTx extra id g h q f r one = record {
  distinct = subst Distinct (sym r.free) (busy_not_free extra id g.tx q f, q.distinct);
  free = λ j e. elim (elem-under id j (free_ids g.tx) (ap (elem j) (sym r.free) ∙ e)) [
    | inl here ↦ (
      omega (arith, here, f.0),
      subst (λ k. Idle (h.tx.shadows k)) (sym here) (subst Idle (sym r.emptied) (refl, refl)),
    )
    | inr there ↦
        let before = q.free j there in
        (
          before.0,
          subst Idle
              (sym (
                r.others j
                  (ne-of_elem id j (free_ids g.tx) (busy_not_free extra id g.tx q f) there)))
              before.1,
        )
  ];
  slots = omega (arith, q.slots, r.ring_free, one);
}

-- A null response.
pub collect_null :
    (extra : ℕ) (rsp : TxResponse) (g : Collected)
    → rsp.is_null ≡ true
    → IsTx (extra + 1) g.tx
    → collect_response rsp g
        ≡ some (record g { tx = record (g.tx) { ring_free = g.tx.ring_free + 1 } })
      × IsTx extra (record (g.tx) { ring_free = g.tx.ring_free + 1 })
unfolding collect_response
collect_null extra rsp g null q = (
  ap
      (λ b.
        if b
        then some (record g { tx = record (g.tx) { ring_free = g.tx.ring_free + 1 } })
        else close_response rsp.id (emptied_at rsp.id g))
      null,
  record { distinct = q.distinct; free = q.free; slots = omega (arith, q.slots) },
)

-- A response to a request.
pub collect_answer :
    (extra : ℕ) (rsp : TxResponse) (g : Collected)
    → rsp.is_null ≡ false
    → IsTx extra g.tx
    → InFlight g.tx rsp.id
    → (collect_response rsp g ≡ some (closed rsp.id g))
      × Returned rsp.id g (closed rsp.id g)
      × IsTx extra (closed rsp.id g).tx
unfolding collect_response
collect_answer extra rsp g not_null q f = (
  ap
        (λ b.
          if b
          then some (record g { tx = record (g.tx) { ring_free = g.tx.ring_free + 1 } })
          else close_response rsp.id (emptied_at rsp.id g))
        not_null
      ∙ close_response_run rsp.id g f.0,
  closed-Returned rsp.id g,
  Returned-IsTx extra rsp.id g (closed rsp.id g) q f (closed-Returned rsp.id g)
      (omega (arith, (noted rsp.id g).id_free)),
)
