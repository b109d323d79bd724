-- ===== src/Tx/Round.antt =====
-- A round of responses that `XenNet_TxBufferGC` collects.
use win_pvdrivers_mirror.Tx.{TxShadow, TxResponse, Collected, empty_shadow, collect_responses}
use win_pvdrivers_mirror.Tx.Free.{IsTx, free_ids, elem-under, ne-of_elem}
use win_pvdrivers_mirror.Tx.Responses.{InFlight, Returned, closed, collect_null, collect_answer}
use win_pvdrivers_mirror.Base.{
  ℕ, suc, ◌+◌, ◌≡◌, ◌≢◌, refl, ap, sym, ◌∙◌, subst, inl, inr, true, false, some, List, [], ◌∷◌,
  length, elem, Distinct, if◌then◌else◌, Bool-cases, arith, ◌>>=◌,
}

-- The ids that responses give back, and the number of null responses.
abbrev pub answered_ids : List TxResponse → List ℕ
answered_ids [] = []
answered_ids (r ∷ rs) = if r.is_null then answered_ids rs else r.id ∷ answered_ids rs

abbrev pub null_count : List TxResponse → ℕ
null_count [] = 0
null_count (r ∷ rs) = if r.is_null then null_count rs + 1 else null_count rs

-- What `n` responses leave, to requests with these ids.
pub record GivenBack (g : Collected) (ids : List ℕ) (n : ℕ) (h : Collected) : Type 0 where
  pub freed : (j : ℕ) → elem j (free_ids g.tx) ≡ true → elem j (free_ids h.tx) ≡ true
  pub answered :
      (j : ℕ)
      → elem j ids ≡ true
      → (elem j (free_ids h.tx) ≡ true) × (h.tx.shadows j ≡ empty_shadow)
  pub others : (j : ℕ) → elem j ids ≡ false → h.tx.shadows j ≡ g.tx.shadows j
  pub ring_free : h.tx.ring_free ≡ g.tx.ring_free + n

module _ (rsp : TxResponse) (rsps : List TxResponse) where
  ids_null : rsp.is_null ≡ true → answered_ids (rsp ∷ rsps) ≡ answered_ids rsps
  ids_null e = ap (λ b. if b then answered_ids rsps else rsp.id ∷ answered_ids rsps) e

  ids_answer : rsp.is_null ≡ false → answered_ids (rsp ∷ rsps) ≡ rsp.id ∷ answered_ids rsps
  ids_answer e = ap (λ b. if b then answered_ids rsps else rsp.id ∷ answered_ids rsps) e

  count_null :
      (extra : ℕ)
      → rsp.is_null ≡ true
      → extra + null_count (rsp ∷ rsps) ≡ extra + null_count rsps + 1
  count_null extra e =
      ap (λ b. extra + (if b then null_count rsps + 1 else null_count rsps)) e ∙ omega arith

  count_answer :
      (extra : ℕ) → rsp.is_null ≡ false → extra + null_count (rsp ∷ rsps) ≡ extra + null_count rsps
  count_answer extra e = ap (λ b. extra + (if b then null_count rsps + 1 else null_count rsps)) e

under_self : (i : ℕ) (xs : List ℕ) → elem i (i ∷ xs) ≡ true
under_self i xs = ground arith

under_more : (i j : ℕ) (xs : List ℕ) → elem j xs ≡ true → elem j (i ∷ xs) ≡ true
under_more i j xs e = ground arith

-- A request stays in flight while another is answered.
others_stay :
    {id j : ℕ} {g h : Collected} → Returned id g h → id ≢ j → InFlight g.tx j → InFlight h.tx j
others_stay {j = j} one ne (low, r, e) =
    (low, r, ap (λ (sh : TxShadow). sh.gref) (one.others j ne) ∙ e)

-- One response and those behind it.
behind_one :
    (id : ℕ) (ids : List ℕ) (n : ℕ) {g k h : Collected}
    → elem id ids ≡ false
    → Returned id g k
    → GivenBack k ids n h
    → GivenBack g (id ∷ ids) (suc n) h
behind_one id ids n {g} {k} {h} out one b = record {
  freed = λ j e. b.freed j (ap (elem j) one.free ∙ under_more id j (free_ids g.tx) e);
  answered = λ j e. elim (elem-under id j ids e) [
    | inl here ↦
        subst (λ i. (elem i (free_ids h.tx) ≡ true) × (h.tx.shadows i ≡ empty_shadow)) (sym here)
          (
            b.freed id (ap (elem id) one.free ∙ under_self id (free_ids g.tx)),
            b.others id out ∙ one.emptied,
          )
    | inr there ↦ b.answered j there
  ];
  others = λ j e. b.others j (not_under id j ids e) ∙ one.others j (not_self id j ids e);
  ring_free = omega (arith, b.ring_free, one.ring_free);
}
  where
    not_under : (id j : ℕ) (ids : List ℕ) → elem j (id ∷ ids) ≡ false → elem j ids ≡ false
    not_under id j ids e = ground arith

    not_self : (id j : ℕ) (ids : List ℕ) → elem j (id ∷ ids) ≡ false → id ≢ j
    not_self id j ids e = ground arith

-- `XenNet_TxBufferGC` on the responses of a round, to requests in flight, each once, and no more null
-- responses than slots of extra information: no assertion fails, each response gives back a slot,
-- those to requests their id with an empty shadow, and the free ids and slots are in order again.
pub collect_responses-GivenBack :
    (extra : ℕ) (rsps : List TxResponse) (g : Collected)
    → IsTx (extra + null_count rsps) g.tx
    → Distinct (answered_ids rsps)
    → ((j : ℕ) → elem j (answered_ids rsps) ≡ true → InFlight g.tx j)
    → (h : Collected) × (collect_responses rsps g ≡ some h)
      × GivenBack g (answered_ids rsps) (length rsps) h
      × IsTx extra h.tx
unfolding collect_responses
collect_responses-GivenBack extra [] g q d f = (
  g,
  refl,
  record {
    freed = λ j e. e;
    answered = λ j e. absurd (cc);
    others = λ j e. refl;
    ring_free = omega arith;
  },
  subst (λ n. IsTx n g.tx) (omega arith) q,
)
collect_responses-GivenBack extra (rsp ∷ rsps) g q d f = elim (Bool-cases rsp.is_null) [
  | inl e ↦
      let (first, q') =
        collect_null (extra + null_count rsps) rsp g e
          (subst (λ n. IsTx n g.tx) (count_null rsp rsps extra e) q) in
      let (h, run, b, r) =
        collect_responses-GivenBack extra rsps
          (record g { tx = record (g.tx) { ring_free = g.tx.ring_free + 1 } }) q'
          (subst Distinct (ids_null rsp rsps e) d)
          (λ j l. f j (ap (elem j) (ids_null rsp rsps e) ∙ l)) in
      (
        h,
        ap (λ o. o >>= collect_responses rsps) first ∙ run,
        subst (λ ids. GivenBack g ids (suc (length rsps)) h) (sym (ids_null rsp rsps e))
            (record {
              freed = b.freed;
              answered = b.answered;
              others = b.others;
              ring_free = omega (arith, b.ring_free);
            }),
        r,
      )
  | inr e ↦
      let d' : Distinct (rsp.id ∷ answered_ids rsps) = subst Distinct (ids_answer rsp rsps e) d in
      let at = ids_answer rsp rsps e in
      let flight = f rsp.id (ap (elem rsp.id) at ∙ under_self rsp.id (answered_ids rsps)) in
      let (first, one, q') =
        collect_answer (extra + null_count rsps) rsp g e
          (subst (λ n. IsTx n g.tx) (count_answer rsp rsps extra e) q) flight in
      let (h, run, b, r) = collect_responses-GivenBack extra rsps (closed rsp.id g) q' d'.1 (λ j l.
        others_stay one (ne-of_elem rsp.id j (answered_ids rsps) d'.0 l)
          (f j (ap (elem j) at ∙ under_more rsp.id j (answered_ids rsps) l))) in
      (
        h,
        ap (λ o. o >>= collect_responses rsps) first ∙ run,
        subst (λ ids. GivenBack g ids (suc (length rsps)) h) (sym at)
            (behind_one rsp.id (answered_ids rsps) (length rsps) d'.0 one b),
        r,
      )
]
