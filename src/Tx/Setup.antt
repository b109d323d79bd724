-- ===== src/Tx/Setup.antt =====
-- `XenNet_TxInit` puts all ids on the free list.
use win_pvdrivers_mirror.Tx.{
  TxState, net_tx_ring_size, given_back, put_id, clear_shadow, fill_ids, tx_init,
}
use win_pvdrivers_mirror.Tx.Free.{Idle, IsTx, elem-under}
use win_pvdrivers_mirror.Base.{
  ℕ, zero, suc, ◌≤◌, ◌<◌, ◌≡◌, refl, ap, sym, ◌∙◌, subst, inl, inr, true, some, [], lt→ltb, elem,
  Distinct, ◌==◌, ==_iff, ne-of_==, update, update_self, update_ne, contents, Bool-cases, arith,
  ◌>>=◌, ◌>>◌, xn_assert,
}

-- After the ids below `n`.
record Numbered (n : ℕ) (s t : TxState) : Type 0 where
  height : t.id_free ≡ n
  ids : (k : ℕ) → k < n → t.id_list k ≡ k
  idle : (k : ℕ) → k < n → Idle (t.shadows k)
  slots : t.ring_free ≡ s.ring_free
  waiting : t.waiting ≡ s.waiting
  outstanding : t.outstanding ≡ s.outstanding

fill_ids-Numbered :
    (n : ℕ) (s : TxState)
    → s.id_free ≡ 0
    → n ≤ net_tx_ring_size
    → (t : TxState) × (fill_ids n s ≡ some t) × Numbered n s t
unfolding fill_ids put_id
fill_ids-Numbered zero s start l = (
  s,
  refl,
  record {
    height = start;
    ids = λ k l. absurd (omega arith);
    idle = λ k l. absurd (omega arith);
    slots = refl;
    waiting = refl;
    outstanding = refl;
  },
)
fill_ids-Numbered (suc n) s start l =
    let (t, run, d) = fill_ids-Numbered n s start (omega arith) in
    (
      given_back n (clear_shadow n t),
      ap (λ o. o >>= λ t. put_id n (clear_shadow n t)) run
          ∙ ap (λ b. xn_assert b >> some (given_back n (clear_shadow n t)))
              (lt→ltb n net_tx_ring_size (omega arith)),
      record {
        height = omega (arith, d.height);
        ids = λ k less. elim (Bool-cases (t.id_free == k)) [
          | inl here ↦
              let e = (==_iff _ _).0 here in
              subst (λ j. update t.id_list t.id_free n j ≡ j) e
                (update_self t.id_list t.id_free n ∙ sym d.height)
          | inr there ↦
              update_ne t.id_list n (ne-of_== there)
              ∙ d.ids k (omega (arith, d.height, ne-of_== there))
        ];
        idle = λ k less. elim (Bool-cases (n == k)) [
          | inl here ↦
              subst (λ j. Idle ((clear_shadow n t).shadows j)) ((==_iff n k).0 here)
                (subst Idle (sym (update_self t.shadows n _)) (refl, refl))
          | inr there ↦
              subst Idle (sym (update_ne t.shadows _ (ne-of_== there)))
                (d.idle k (omega (arith, ne-of_== there)))
        ];
        slots = d.slots;
        waiting = d.waiting;
        outstanding = d.outstanding;
      },
    )

-- The first `n` numbers.
below :
    (n : ℕ) (f : ℕ → ℕ)
    → ((k : ℕ) → k < n → f k ≡ k)
    → (j : ℕ) → elem j (contents n f) ≡ true
    → j < n
below zero f same j e = absurd (cc)
below (suc n) f same j e = elim (elem-under (f n) j (contents n f) e) [
  | inl here ↦ omega (arith, here, same n (omega arith))
  | inr there ↦ omega (arith, below n f (λ k l. same k (omega arith)) j there)
]

numbers_apart : (n : ℕ) (f : ℕ → ℕ) → ((k : ℕ) → k < n → f k ≡ k) → Distinct (contents n f)
numbers_apart zero f same = tt
numbers_apart (suc n) f same =
    let same' = λ (k : ℕ) (l : k < n). same k (omega arith) in
    (
      (elim (Bool-cases (elem (f n) (contents n f))) [
        | inl e ↦ absurd (omega (arith, below n f same' (f n) e, same n (omega arith)))
        | inr e ↦ e
      ]),
      numbers_apart n f same',
    )

-- `XenNet_TxInit`, from any state: it ends with all ids and all slots free, each id once and its
-- shadow idle, with nothing waiting and nothing outstanding.
pub tx_init-IsTx :
    (s : TxState)
    → (t : TxState) × (tx_init s ≡ some t)
      × IsTx 0 t
      × (t.id_free ≡ net_tx_ring_size)
      × (t.ring_free ≡ net_tx_ring_size)
      × (t.waiting ≡ [])
      × (t.outstanding ≡ 0)
unfolding tx_init
tx_init-IsTx s =
    let (t, run, d) = fill_ids-Numbered net_tx_ring_size start refl (omega arith) in
    let height = ap (λ n. contents n t.id_list) d.height in
    (
      t,
      run,
      record {
        distinct = subst Distinct (sym height) (numbers_apart net_tx_ring_size t.id_list d.ids);
        free = λ j e.
            let low = below net_tx_ring_size t.id_list d.ids j (ap (elem j) (sym height) ∙ e) in
            (low, d.idle j low);
        slots = omega (arith, d.height, d.slots);
      },
      d.height,
      d.slots,
      d.waiting,
      d.outstanding,
    )
  where
    start : TxState
    start = record s { waiting = []; outstanding = 0; ring_free = net_tx_ring_size; id_free = 0 }
