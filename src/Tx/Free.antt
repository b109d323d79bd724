-- ===== src/Tx/Free.antt =====
-- The free ids and the free slots of the ring: who has a slot has an id.
use win_pvdrivers_mirror.Tx.{
  TxState, TxShadow, net_tx_ring_size, taken, get_id, is_none, fill_request, put_with_id,
  put_cb_on_ring, put_extra,
}
use win_pvdrivers_mirror.Base.{
  ℕ, zero, suc, ◌+◌, ◌-◌, ◌%◌, ◌^◌, ◌≤◌, ◌<◌, ◌≡◌, ◌≢◌, ◌⊎◌, inl, inr, refl, ap, sym, ◌∙◌, subst,
  Bool, true, false, Option, none, some, List, ◌∷◌, ltb, leb, lt→ltb, le→leb, length, elem,
  Distinct, ◌==◌, ==_iff, update_self, update_ne, contents, Bool-cases, arith, ◌>>=◌, ◌>>◌,
  xn_assert,
}

abbrev pub free_ids : TxState → List ℕ
free_ids s = contents s.id_free s.id_list

-- A shadow without a buffer and without a grant.
abbrev pub Idle : TxShadow → Type 0
Idle sh = (sh.gref ≡ none) × (sh.cb ≡ none)

-- The free ids are distinct, in the table, and their shadows idle; there is a free id for each free
-- slot and for each of the `extra` slots that carry extra information.
pub record IsTx (extra : ℕ) (s : TxState) : Type 0 where
  pub distinct : Distinct (free_ids s)
  pub free : (j : ℕ) → elem j (free_ids s) ≡ true → (j < net_tx_ring_size) × Idle (s.shadows j)
  pub slots : s.id_free ≡ s.ring_free + extra

-- The number on top of the free ids.
abbrev pub top_id : TxState → ℕ
top_id s = s.id_list (s.id_free - 1)

pub contents-top : (n : ℕ) (f : ℕ → ℕ) → n ≢ 0 → contents n f ≡ f (n - 1) ∷ contents (n - 1) f
contents-top zero f ne = absurd (ne refl)
contents-top (suc n) f ne = ap (λ m. f m ∷ contents m f) (omega arith)

-- A number under an `i` in a list.
pub elem-under : (i j : ℕ) (xs : List ℕ) → elem j (i ∷ xs) ≡ true → (j ≡ i) ⊎ (elem j xs ≡ true)
elem-under i j xs e = elim (Bool-cases (j == i)) [
  | inl here ↦ inl ((==_iff j i).0 here)
  | inr there ↦ inr (ground (arith, there))
]

pub ne-of_elem : (i j : ℕ) (xs : List ℕ) → elem i xs ≡ false → elem j xs ≡ true → i ≢ j
ne-of_elem i j xs out here e = absurd (clash (subst (λ k. elem k xs ≡ false) e out) here)
  where
    clash : {b : Bool} → b ≡ false → b ≡ true → ⊥
    clash e f = cc

pub is_none_at : {o : Option ℕ} → o ≡ none → is_none o ≡ true
is_none_at e = ap is_none e

-- What `XenNet_PutCbOnRing` leaves.
pub record Put (cb length gref : ℕ) (s t : TxState) : Type 0 where
  pub id : ℕ
  pub low : id < net_tx_ring_size
  pub was_free : elem id (free_ids s) ≡ true
  pub in_use : elem id (free_ids t) ≡ false
  pub request :
      t.requests (s.req_prod % net_tx_ring_size)
      ≡ record { id = id; gref = gref; offset = 0; size = length }
  pub shadow :
      t.shadows id ≡ record { packet = (s.shadows id).packet; cb = some cb; gref = some gref }
  pub others : (j : ℕ) → id ≢ j → t.shadows j ≡ s.shadows j
  pub one_less : t.ring_free + 1 ≡ s.ring_free
  pub prod : t.req_prod ≡ (s.req_prod + 1) % 2 ^ 32
  pub outstanding : t.outstanding ≡ s.outstanding
  pub fewer : (j : ℕ) → elem j (free_ids t) ≡ true → elem j (free_ids s) ≡ true

-- The run of `XenNet_PutCbOnRing`, its tests passed.
put_cb_on_ring_run :
    (cb length gref : ℕ) (s : TxState)
    → s.ring_free ≢ 0
    → s.id_free ≢ 0
    → Idle (s.shadows (top_id s))
    → 0 < length
    → length ≤ 4096
    → put_cb_on_ring cb length gref s ≡ some (fill_request (top_id s) cb length gref (taken s))
unfolding put_cb_on_ring get_id put_with_id
put_cb_on_ring_run cb length gref s room id idle pos small =
    ap (λ b. xn_assert b >> ((xn_assert (ltb 0 s.id_free) >> some (top_id s, taken s)) >>= next))
      (lt→ltb 0 s.ring_free (omega arith))
    ∙ ap (λ b. (xn_assert b >> some (top_id s, taken s)) >>= next)
        (lt→ltb 0 s.id_free (omega arith))
    ∙ ap
        (λ b.
          xn_assert b
          >> (xn_assert (is_none sh.cb)
              >> (xn_assert (leb size 4096) >> (xn_assert (ltb 0 size) >> some filled))))
        (is_none_at idle.0)
    ∙ ap
        (λ b. xn_assert b >> (xn_assert (leb size 4096) >> (xn_assert (ltb 0 size) >> some filled)))
        (is_none_at idle.1)
    ∙ ap (λ b. xn_assert b >> (xn_assert (ltb 0 size) >> some filled))
        (le→leb size 4096 (omega arith))
    ∙ ap (λ b. xn_assert b >> some filled) (lt→ltb 0 size (omega arith))
  where
    next : ℕ × TxState → Option TxState
    next = put_with_id cb length gref

    sh : TxShadow
    sh = s.shadows (top_id s)

    size : ℕ
    size = length % 2 ^ 16

    filled : TxState
    filled = fill_request (top_id s) cb length gref (taken s)

-- With a free slot on the ring, `XenNet_PutCbOnRing` finds an id, and none of its assertions fails:
-- the request carries the id, the grant and the length, the shadow of the id has the buffer and the
-- grant, and the free ids and slots are in order again.
pub put_cb_on_ring-Put :
    (extra cb length gref : ℕ) (s : TxState)
    → IsTx extra s
    → s.ring_free ≢ 0
    → 0 < length
    → length ≤ 4096
    → (t : TxState) × (put_cb_on_ring cb length gref s ≡ some t)
      × Put cb length gref s t
      × IsTx extra t
put_cb_on_ring-Put extra cb length gref s q room pos small = (
  t,
  put_cb_on_ring_run cb length gref s room ids (q.free id on_top).1 pos small,
  record {
    id = id;
    low = (q.free id on_top).0;
    was_free = on_top;
    in_use = d.0;
    request =
        update_self s.requests (s.req_prod % net_tx_ring_size) _
        ∙ ap (λ n. record { id = id; gref = gref; offset = 0; size = n }) (omega arith);
    shadow = update_self s.shadows id _;
    others = λ j ne. update_ne s.shadows _ ne;
    one_less = omega arith;
    prod = refl;
    outstanding = refl;
    fewer = λ j e. ap (elem j) split ∙ ground (arith, e);
  },
  record {
    distinct = d.1;
    free = λ j e.
        let before = q.free j (ap (elem j) split ∙ ground (arith, e)) in
        (
          before.0,
          subst Idle (sym (update_ne s.shadows _ (ne-of_elem id j (free_ids t) d.0 e))) before.1,
        );
    slots = omega (arith, q.slots);
  },
)
  where
    id : ℕ
    id = top_id s

    t : TxState
    t = fill_request id cb length gref (taken s)

    ids : s.id_free ≢ 0
    ids e = absurd (room (omega (arith, q.slots, e)))

    split : free_ids s ≡ id ∷ free_ids t
    split = contents-top s.id_free s.id_list ids

    on_top : elem id (free_ids s) ≡ true
    on_top = ap (elem id) split ∙ ground arith

    d : Distinct (id ∷ free_ids t)
    d = subst Distinct split q.distinct

-- A slot for extra information takes no id.
pub put_extra-IsTx :
    (extra : ℕ) (s : TxState)
    → IsTx extra s
    → s.ring_free ≢ 0
    → (t : TxState) × (put_extra s ≡ some t) × IsTx (extra + 1) t × (t.ring_free + 1 ≡ s.ring_free)
unfolding put_extra
put_extra-IsTx extra s q room = (
  t,
  ap (λ b. xn_assert b >> some t) (lt→ltb 0 s.ring_free (omega arith)),
  record { distinct = q.distinct; free = q.free; slots = omega (arith, q.slots) },
  omega arith,
)
  where
    t : TxState
    t = record s { ring_free = s.ring_free - 1; req_prod = (s.req_prod + 1) % 2 ^ 32 }
