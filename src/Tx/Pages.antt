-- ===== src/Tx/Pages.antt =====
-- The fragments of `XenNet_HWSendPacket` on the ring, one request for each.
use win_pvdrivers_mirror.Tx.{TxState, TxShadow, TxRequest, net_tx_ring_size, taken, get_id, is_none}
use win_pvdrivers_mirror.Tx.Free.{
  Idle, IsTx, free_ids, top_id, contents-top, ne-of_elem, is_none_at,
}
use win_pvdrivers_mirror.Tx.Frags.{Fragment, total_size, InPage}
use win_pvdrivers_mirror.Tx.Room.{
  fill_page, add_size, put_page_with_id, put_page, put_next, put_pages, PagesAt, NoPacket,
}
use win_pvdrivers_mirror.Base.{
  ℕ, suc, ◌+◌, ◌%◌, ◌^◌, ◌≤◌, ◌<◌, ◌≡◌, ◌≢◌, refl, ap, sym, ◌∙◌, subst, Option, none, some, List,
  [], ◌∷◌, ltb, leb, lt→ltb, le→leb, length, elem, Distinct, All, update_ne, update_self, arith,
  ◌>>=◌, ◌>>◌, xn_assert,
}

-- What one fragment does, with a free slot that is not that of `tx0`.
record Page (extra slot gref : ℕ) (f : Fragment) (s : TxState) (id : ℕ) (t : TxState) : Type 0 where
  pub tx : IsTx extra t
  one_less : t.ring_free + 1 ≡ s.ring_free
  pub prod : t.req_prod ≡ (s.req_prod + 1) % 2 ^ 32
  pub outstanding : t.outstanding ≡ s.outstanding
  request :
      t.requests (s.req_prod % net_tx_ring_size)
      ≡ record { id = id; gref = gref; offset = f.offset; size = f.size }
  pub others : (j : ℕ) → slot ≢ j → s.req_prod % net_tx_ring_size ≢ j → t.requests j ≡ s.requests j
  pub sum :
      t.requests slot
      ≡ record (s.requests slot) { size = ((s.requests slot).size + f.size) % 2 ^ 16 }
  no_packets : NoPacket t
  pub no_packet : (t.shadows id).packet ≡ none

put_page-Page :
    (extra slot gref : ℕ) (f : Fragment) (s : TxState)
    → IsTx extra s
    → NoPacket s
    → s.ring_free ≢ 0
    → slot ≢ s.req_prod % net_tx_ring_size
    → InPage f
    → (id : ℕ) × (t : TxState) × (put_page slot gref f s ≡ some (id, t))
      × Page extra slot gref f s id t
unfolding put_page get_id put_page_with_id
put_page-Page extra slot gref f s q clear room apart (pos, page) = (
  id,
  t,
  run,
  record {
    tx = record {
      distinct = d.1;
      free = λ j e.
          let before = q.free j (ap (elem j) split ∙ ground (arith, e)) in
          (
            before.0,
            subst Idle (sym (update_ne s.shadows _ (ne-of_elem id j (free_ids t) d.0 e))) before.1,
          );
      slots = omega (arith, q.slots);
    };
    one_less = omega arith;
    prod = refl;
    outstanding = refl;
    request =
        update_ne u.requests _ apart
        ∙ update_self s.requests (s.req_prod % net_tx_ring_size) _
        ∙ ap (λ n. record { id = id; gref = gref; offset = f.offset; size = n }) whole;
    others = λ j a b. update_ne u.requests _ a ∙ update_ne s.requests _ b;
    sum =
        update_self u.requests slot _
        ∙ ap (λ (r : TxRequest). record r { size = (r.size + f.size % 2 ^ 16) % 2 ^ 16 })
            (update_ne s.requests _ (λ e. apart (sym e)))
        ∙ ap (λ n. record (s.requests slot) { size = ((s.requests slot).size + n) % 2 ^ 16 }) whole;
    no_packets = λ j e.
        ap (λ (sh : TxShadow). sh.packet)
          (update_ne s.shadows _ (ne-of_elem id j (free_ids t) d.0 e))
        ∙ clear j (ap (elem j) split ∙ ground (arith, e));
    no_packet =
        ap (λ (sh : TxShadow). sh.packet) (update_self s.shadows id _)
        ∙ clear id (ap (elem id) split ∙ ground arith);
  },
)
  where
    id : ℕ
    id = top_id s

    u : TxState
    u = fill_page id gref f (taken s)

    t : TxState
    t = add_size slot (f.size % 2 ^ 16) u

    whole : f.size % 2 ^ 16 ≡ f.size
    whole = omega (arith, page)

    ids : s.id_free ≢ 0
    ids e = absurd (room (omega (arith, q.slots, e)))

    split : free_ids s ≡ id ∷ free_ids t
    split = contents-top s.id_free s.id_list ids

    d : Distinct (id ∷ free_ids t)
    d = subst Distinct split q.distinct

    idle : Idle (s.shadows id)
    idle = (q.free id (ap (elem id) split ∙ ground arith)).1

    run : put_page slot gref f s ≡ some (id, t)
    run =
        ap
          (λ b.
            xn_assert b
            >> ((xn_assert (ltb 0 s.id_free) >> some (id, taken s))
                >>= put_page_with_id slot gref f))
          (lt→ltb 0 s.ring_free (omega arith))
        ∙ ap (λ b. (xn_assert b >> some (id, taken s)) >>= put_page_with_id slot gref f)
            (lt→ltb 0 s.id_free (omega arith))
        ∙ ap
            (λ b.
              xn_assert b
              >> (xn_assert (is_none (s.shadows id).cb)
                  >> (xn_assert (leb (f.offset + f.size % 2 ^ 16) 4096)
                      >> (xn_assert (ltb 0 (f.size % 2 ^ 16)) >> some (id, t)))))
            (is_none_at idle.0)
        ∙ ap
            (λ b.
              xn_assert b
              >> (xn_assert (leb (f.offset + f.size % 2 ^ 16) 4096)
                  >> (xn_assert (ltb 0 (f.size % 2 ^ 16)) >> some (id, t))))
            (is_none_at idle.1)
        ∙ ap (λ b. xn_assert b >> (xn_assert (ltb 0 (f.size % 2 ^ 16)) >> some (id, t)))
            (le→leb (f.offset + f.size % 2 ^ 16) 4096 (omega (arith, whole, page)))
        ∙ ap (λ b. xn_assert b >> some (id, t))
            (lt→ltb 0 (f.size % 2 ^ 16) (omega (arith, whole, pos)))

-- What the fragments do, with a grant for each.
pub record Pages (extra slot : ℕ) (refs : ℕ → ℕ) (k : ℕ) (fs : List Fragment) (s : TxState)
    (last : ℕ) (t : TxState) : Type 0 where
  pub tx : IsTx extra t
  pub less : t.ring_free + length fs ≡ s.ring_free
  pub prod : t.req_prod % 2 ^ 32 ≡ (s.req_prod + length fs) % 2 ^ 32
  pub outstanding : t.outstanding ≡ s.outstanding
  pub pages : PagesAt t.requests refs s.req_prod k fs
  pub others :
      (j : ℕ)
      → slot ≢ j
      → ((i : ℕ) → i < length fs → (s.req_prod + i) % net_tx_ring_size ≢ j)
      → t.requests j ≡ s.requests j
  pub sum :
      t.requests slot ≡ record (s.requests slot) { size = (s.requests slot).size + total_size fs }
  pub no_packet : (t.shadows last).packet ≡ none

-- The slots only count modulo the ring.
pub PagesAt-mod :
    (requests : ℕ → TxRequest) (refs : ℕ → ℕ) (p p' k : ℕ) (fs : List Fragment)
    → p % net_tx_ring_size ≡ p' % net_tx_ring_size
    → PagesAt requests refs p k fs
    → PagesAt requests refs p' k fs
PagesAt-mod requests refs p p' k [] e a = tt
PagesAt-mod requests refs p p' k (f ∷ fs) e (a, rest) = (
  (a.0, ap requests (sym e) ∙ a.1),
  PagesAt-mod requests refs (p + 1) (p' + 1) (suc k) fs (omega (arith, e)) rest,
)

pub put_pages-Pages :
    (extra slot : ℕ) (grant : ℕ → Option ℕ) (refs : ℕ → ℕ) (k : ℕ) (fs : List Fragment) (last : ℕ)
    (s : TxState)
    → IsTx extra s
    → NoPacket s
    → (s.shadows last).packet ≡ none
    → length fs ≤ s.ring_free
    → length fs < 256
    → ((i : ℕ) → i < length fs → grant (k + i) ≡ some (refs (k + i)))
    → ((i : ℕ) → i < length fs → (s.req_prod + i) % net_tx_ring_size ≢ slot)
    → (s.requests slot).size + total_size fs < 2 ^ 16
    → All InPage fs
    → (last' : ℕ) × (t : TxState) × (put_pages grant slot k fs last s ≡ some (last', t))
      × Pages extra slot refs k fs s last' t
unfolding put_pages put_next
put_pages-Pages extra slot grant refs k [] last s q clear last_clear room few given apart fits a = (
  last,
  s,
  refl,
  record {
    tx = q;
    less = omega arith;
    prod = omega arith;
    outstanding = refl;
    pages = tt;
    others = λ j a b. refl;
    sum = ap (λ n. record (s.requests slot) { size = n }) (omega arith);
    no_packet = last_clear;
  },
)
put_pages-Pages extra slot grant refs k (f ∷ fs) last s q clear last_clear room few given apart fits
      a =
    let (id, t, run, p) =
      put_page-Page extra slot (refs k) f s q clear (λ z. absurd (omega (arith, z, room)))
        (λ e. apart 0 (omega arith) (first ∙ sym e)) a.0 in
    let size : (t.requests slot).size ≡ (s.requests slot).size + f.size =
      ap (λ (r : TxRequest). r.size) p.sum ∙ omega (arith, fits) in
    let (last', u, rest, ps) =
      put_pages-Pages extra slot grant refs (suc k) fs id t p.tx p.no_packets p.no_packet
        (omega (arith, p.one_less, room)) (omega (arith, few))
        (λ i l.
          ap grant (omega arith)
          ∙ given (suc i) (omega (arith, l))
          ∙ ap (λ n. some (refs n)) (omega arith))
        (λ i l e. apart (suc i) (omega (arith, l)) (omega (arith, p.prod, e)))
        (omega (arith, size, fits)) a.1 in
    (
      last',
      u,
      ap (λ o. put_next o slot f (put_pages grant slot (suc k) fs) last s)
            (ap grant {y = k + 0} (omega arith)
              ∙ given 0 (omega arith)
              ∙ ap (λ n. some (refs n)) (omega arith))
          ∙ ap (λ o. o >>= λ r. put_pages grant slot (suc k) fs r.0 r.1) run
          ∙ rest,
      record {
        tx = ps.tx;
        less = omega (arith, ps.less, p.one_less);
        prod = omega (arith, ps.prod, p.prod);
        outstanding = ps.outstanding ∙ p.outstanding;
        pages = (
          (
            id,
            ps.others (s.req_prod % net_tx_ring_size) (λ e. apart 0 (omega arith) (first ∙ sym e))
                  (λ i l e. absurd (omega (arith, p.prod, e, few, l)))
                ∙ p.request,
          ),
          PagesAt-mod u.requests refs t.req_prod (s.req_prod + 1) (suc k) fs (omega (arith, p.prod))
              ps.pages,
        );
        others = λ j x y.
            ps.others j x (λ i l e. y (suc i) (omega (arith, l)) (omega (arith, p.prod, e)))
            ∙ p.others j x (λ e. y 0 (omega arith) (first ∙ e));
        sum =
            ps.sum
            ∙ ap (λ (r : TxRequest). record r { size = r.size + total_size fs }) p.sum
            ∙ ap (λ n. record (s.requests slot) { size = n }) (omega (arith, fits));
        no_packet = ps.no_packet;
      },
    )
  where
    first : (s.req_prod + 0) % net_tx_ring_size ≡ s.req_prod % net_tx_ring_size
    first = omega arith
