-- ===== src/Vbd/Submit.antt =====
-- `XenVbd_PutSrbOnRing` as a whole: an SRB waits, is sent in part, or is deferred, and a write that is
-- pending is not overlapped.
use win_pvdrivers_mirror.Base.{
  ℕ, zero, suc, ◌+◌, ◌-◌, ◌*◌, ◌/◌, ◌-◌, ◌%◌, ◌^◌, ◌<◌, ◌≤◌, ◌≡◌, ◌≢◌, ◌⊎◌, refl, ap, ap₂, sym,
  subst, ◌∙◌, inl, inr, Bool, true, false, not, ◌&&◌, ◌||◌, Option, none, some, ltb, leb, ◌==◌,
  lt→ltb, ==_iff, ==_ne, if◌then◌else◌, Bool-cases, arith, ◌>>◌, xn_assert, eq_of_some,
}
use win_pvdrivers_mirror.Vbd.{
  Host, VbdState, fill_shadow, requeue, is_active, is_free, cdb_blocks, cdb_start, srb_sector,
  srb_blocks, conflict, get_shadow, with_shadow, place_srb, place_mapped, put_srb_on_ring,
  any_conflict, shadow_conflicts, overlaps, decode_cdb_is_read, max_shadow_entries,
  decode_cdb_sector, decode_cdb_length,
}
use win_pvdrivers_mirror.Vbd.Placing.{Placed, Aligned, fill_shadow-Placed}

-- The state after the next free shadow has been taken off the list, and the shadow.
abbrev pub popped : VbdState → VbdState
popped s = record s { shadow_free = s.shadow_free - 1 }

abbrev pub next_shadow : VbdState → ℕ
next_shadow s = s.free_list (s.shadow_free - 1)

-- A device and an SRB that `XenVbd_PutSrbOnRing` expects, the buffer being mapped at `base`.
pub record Ready (h : Host) (s : VbdState) (id base : ℕ) : Type 0 where
  pub active : is_active s.device_state ≡ true
  pub mapped : h.system_address ≡ some base
  pub whole : cdb_blocks s (s.srbs id).cdb * 512 % 2 ^ 32 ≡ (s.srbs id).data_length
  pub more : 0 < srb_blocks s (s.srbs id)
  pub free : s.shadow_free ≢ 0 → (s.shadows (next_shadow s)).srb ≡ none
  pub unmarked : s.shadow_free ≢ 0 → (s.shadows (next_shadow s)).aligned_in_use ≡ false
  pub unused : s.aligned_in_use ≡ false
  pub aligned : Aligned h s

-- The 512-byte sector that the SRB goes on at, behind what has been submitted, and the sectors left of it.
abbrev pub front_sector : VbdState → ℕ → ℕ
front_sector s id =
    (decode_cdb_sector (s.srbs id).cdb * (s.bytes_per_sector / 512) % 2 ^ 64
      + (s.srbs id).offset / 512)
    % 2 ^ 64

abbrev pub front_blocks : VbdState → ℕ → ℕ
front_blocks s id =
    (decode_cdb_length (s.srbs id).cdb * (s.bytes_per_sector / 512) % 2 ^ 32
      + 2 ^ 32
      - (s.srbs id).offset / 512)
    % 2 ^ 32

-- What has become of the SRB: it waits for a pending write or for a shadow, or a shadow is filled for it.
abbrev pub Outcome : Host → VbdState → (id base : ℕ) → Bool × VbdState → Type 0
Outcome h s id base r =
    (((conflict s (s.srbs id) ≡ true) ⊎ (s.shadow_free ≡ 0)) × (r ≡ (false, requeue s id)))
    ⊎ ((conflict s (s.srbs id) ≡ false)
        × (s.shadow_free ≢ 0)
        × Placed h (popped s) id (next_shadow s) (base + (s.srbs id).offset) (front_sector s id)
            (front_blocks s id) r)

with_shadow-Placed :
    (h : Host) (s t : VbdState) (id i address sector blocks : ℕ)
    → Aligned h t
    → t.aligned_in_use ≡ false
    → (t.shadows i).srb ≡ none
    → (t.shadows i).aligned_in_use ≡ false
    → (r : Bool × VbdState) × (with_shadow h s id address sector blocks (some (i, t)) ≡ some r)
      × Placed h t id i address sector blocks r
unfolding with_shadow is_free
with_shadow-Placed h s t id i address sector blocks aligned unused free unmarked =
    let (r, run, placed) = fill_shadow-Placed h t id i address sector blocks aligned unused in
    (
      r,
      ap
            (λ b.
              xn_assert (not b)
              >> (xn_assert (is_free (t.shadows i).srb)
                  >> fill_shadow h t id i address sector blocks))
            unmarked
          ∙ ap (λ o. xn_assert (is_free o) >> fill_shadow h t id i address sector blocks) free
          ∙ run,
      placed,
    )

with_shadow-none :
    (h : Host) (s : VbdState) (id address sector blocks : ℕ)
    → with_shadow h s id address sector blocks none ≡ some (false, requeue s id)
unfolding with_shadow
with_shadow-none h s id address sector blocks = refl

put_srb_on_ring_lem :
    (h : Host) (s : VbdState) (id base : ℕ) {b : Bool} {o : Option (ℕ × VbdState)}
    → Ready h s id base
    → conflict s (s.srbs id) ≡ b
    → get_shadow s ≡ o
    → put_srb_on_ring h s id ≡ (
        if b
        then some (false, requeue s id)
        else with_shadow h s id
            (base + (s.srbs id).offset)
            (srb_sector s (s.srbs id))
            (srb_blocks s (s.srbs id))
            o)
unfolding put_srb_on_ring place_mapped place_srb
put_srb_on_ring_lem h s id base ready c g =
    ap (λ b. if b then place_mapped h s id h.system_address else some (false, requeue s id))
      ready.active
    ∙ ap (place_mapped h s id) ready.mapped
    ∙ ap
        (λ b.
          xn_assert b
          >> (xn_assert (ltb 0 (srb_blocks s (s.srbs id)))
              >> rest (conflict s (s.srbs id)) (get_shadow s)))
        (==_at ready.whole)
    ∙ ap (λ b. xn_assert b >> rest (conflict s (s.srbs id)) (get_shadow s)) (lt→ltb _ _ ready.more)
    ∙ ap₂ rest c g
  where
    rest : Bool → Option (ℕ × VbdState) → Option (Bool × VbdState)
    rest b o =
        if b
        then some (false, requeue s id)
        else with_shadow h s id (base + (s.srbs id).offset) (srb_sector s (s.srbs id))
            (srb_blocks s (s.srbs id)) o

    ==_at : {a b : ℕ} → a ≡ b → (a == b) ≡ true
    ==_at e = ground arith

get_shadow-some : (s : VbdState) → s.shadow_free ≢ 0 → get_shadow s ≡ some (next_shadow s, popped s)
unfolding get_shadow
get_shadow-some s n = ap (λ b. if b then none else some (next_shadow s, popped s)) (==_ne n)

get_shadow-none : (s : VbdState) → s.shadow_free ≡ 0 → get_shadow s ≡ none
unfolding get_shadow
get_shadow-none s e =
    ap (λ b. if b then none else some (next_shadow s, popped s)) ((==_iff s.shadow_free 0).1 e)

-- On an active device whose data buffer is mapped, for an SRB with sectors left whose CDB has the size of
-- its buffer, with the aligned buffer free and on the 512-byte raster, the next free shadow without an SRB
-- and without the aligned buffer, and physical addresses that keep the offset in the page, no assertion
-- fails. If no shadow is free, or if the SRB is at offset 0 and overlaps a pending write, it goes back to
-- the head of the queue untouched. Else a shadow is filled. Either a request is on the ring that
-- starts at the sector behind what was submitted before, and for whole sectors of the memory there: all
-- that are left, or as many as the segments or the aligned buffer hold; the shadow then holds the SRB, the
-- address, the length and the request, and the offset has moved past it. (A segment has the frame of its
-- physical address modulo 2^44.) Or a grant was refused, nothing is on the ring and all that was granted
-- is ended.
pub put_srb_on_ring-Outcome :
    (h : Host) (s : VbdState) (id base : ℕ)
    → Ready h s id base
    → (r : Bool × VbdState) × (put_srb_on_ring h s id ≡ some r) × Outcome h s id base r
unfolding cdb_start cdb_blocks
put_srb_on_ring-Outcome h s id base ready = elim (Bool-cases (conflict s (s.srbs id))) [
  | inl c ↦ ((false, requeue s id), put_srb_on_ring_lem h s id base ready c refl, inl (inl c, refl))
  | inr c ↦ elim (Bool-cases (s.shadow_free == 0)) [
    | inl z ↦
        let z' = (==_iff s.shadow_free 0).0 z in
        (
          (false, requeue s id),
          put_srb_on_ring_lem h s id base ready c (get_shadow-none s z')
              ∙ with_shadow-none h s id (base + (s.srbs id).offset) (srb_sector s (s.srbs id))
                  (srb_blocks s (s.srbs id)),
          inl (inr z', refl),
        )
    | inr z ↦
        let z' : s.shadow_free ≢ 0 = ne_of z in
        let (r, run, placed) =
          with_shadow-Placed h s (popped s) id (next_shadow s) (base + (s.srbs id).offset)
            (srb_sector s (s.srbs id)) (srb_blocks s (s.srbs id))
            (record { keeps = ready.aligned.keeps; buffer = ready.aligned.buffer }) ready.unused
            (ready.free z') (ready.unmarked z') in
        (
          r,
          put_srb_on_ring_lem h s id base ready c (get_shadow-some s z') ∙ run,
          inr (c, z', placed),
        )
  ]
]
  where
    ne_of : (s.shadow_free == 0) ≡ false → s.shadow_free ≡ 0 → ⊥
    ne_of e z = ground arith

any_conflict-false :
    (n i : ℕ) (s : VbdState) (start blocks : ℕ) (j : ℕ)
    → any_conflict n i s start blocks ≡ false
    → i ≤ j
    → j < i + n
    → shadow_conflicts s start blocks (s.shadows j).srb ≡ false
unfolding any_conflict
any_conflict-false zero i s start blocks j e low high = absurd (omega arith)
any_conflict-false (suc n) i s start blocks j e low high = elim (Bool-cases (i == j)) [
  | inl same ↦
      subst (λ k. shadow_conflicts s start blocks (s.shadows k).srb ≡ false) ((==_iff i j).0 same)
        (left _ _ e)
  | inr other ↦
      any_conflict-false n (suc i) s start blocks j (right _ _ e) (later other) (omega arith)
]
  where
    left : (a b : Bool) → (a || b) ≡ false → a ≡ false
    left false b e = refl
    left true b e = e

    right : (a b : Bool) → (a || b) ≡ false → b ≡ false
    right false b e = e
    right true b e = absurd (cc)

    later : (i == j) ≡ false → suc i ≤ j
    later o = ground (arith, low)

-- The two ranges of sectors have none in common.
abbrev pub Apart : (start1 blocks1 start2 blocks2 : ℕ) → Type 0
Apart start1 blocks1 start2 blocks2 = (start1 + blocks1 ≤ start2) ⊎ (start2 + blocks2 ≤ start1)

overlaps-Apart :
    (start1 blocks1 start2 blocks2 : ℕ)
    → start1 + blocks1 < 2 ^ 64
    → start2 + blocks2 < 2 ^ 64
    → overlaps start1 blocks1 start2 blocks2 ≡ false
    → Apart start1 blocks1 start2 blocks2
unfolding overlaps
overlaps-Apart start1 blocks1 start2 blocks2 b1 b2 e =
    split (ltb start1 start2) (ltb start2 start1) (leb ((start1 + blocks1) % 2 ^ 64) start2)
      (leb ((start2 + blocks2) % 2 ^ 64) start1) e (before b1) (before b2)
  where
    before : {n m : ℕ} → n < 2 ^ 64 → leb (n % 2 ^ 64) m ≡ true → n ≤ m
    before {n} {m} b e = ground (arith)

    split :
        (a b c d : Bool)
        → (not (a && c) && not (b && d)) ≡ false
        → (c ≡ true → start1 + blocks1 ≤ start2)
        → (d ≡ true → start2 + blocks2 ≤ start1)
        → Apart start1 blocks1 start2 blocks2
    split true b true d e f g = inl (f refl)
    split true true false true e f g = inr (g refl)
    split false true c true e f g = inr (g refl)
    split true true false false e f g = absurd (cc)
    split true false false d e f g = absurd (cc)
    split false false c d e f g = absurd (cc)
    split false true c false e f g = absurd (cc)

-- Under the same conditions, an SRB that is put on the ring for the first time has no sector in common
-- with a write that a shadow holds, as long as neither range passes the end of the 64-bit sectors.
pub put_srb_on_ring-Apart :
    (h : Host) (s t : VbdState) (id base j srb2 : ℕ)
    → Ready h s id base
    → (s.srbs id).offset ≡ 0
    → put_srb_on_ring h s id ≡ some (true, t)
    → j < max_shadow_entries
    → (s.shadows j).srb ≡ some srb2
    → decode_cdb_is_read (s.srbs srb2).cdb ≡ false
    → srb_sector s (s.srbs id) + srb_blocks s (s.srbs id) < 2 ^ 64
    → cdb_start s (s.srbs srb2).cdb + cdb_blocks s (s.srbs srb2).cdb < 2 ^ 64
    → Apart
        (srb_sector s (s.srbs id))
        (srb_blocks s (s.srbs id))
        (cdb_start s (s.srbs srb2).cdb)
        (cdb_blocks s (s.srbs srb2).cdb)
unfolding shadow_conflicts
put_srb_on_ring-Apart h s t id base j srb2 ready fresh run in_table held write b1 b2 =
    let (r, run', outcome) = put_srb_on_ring-Outcome h s id base ready in
    let none_hit = clear (eq_of_some (sym run ∙ run')) outcome in
    let missed =
      any_conflict-false max_shadow_entries 0 s (srb_sector s (s.srbs id))
        (srb_blocks s (s.srbs id)) j none_hit (omega arith) in_table in
    let here =
      ap (shadow_conflicts s (srb_sector s (s.srbs id)) (srb_blocks s (s.srbs id))) (sym held)
      ∙ missed in
    overlaps-Apart _ _ _ _ b1 b2 (
      ap
        (λ b.
          not b
          && overlaps (srb_sector s (s.srbs id)) (srb_blocks s (s.srbs id))
              (cdb_start s (s.srbs srb2).cdb) (cdb_blocks s (s.srbs srb2).cdb))
        (sym write)
      ∙ here)
  where
    clear :
        {r : Bool × VbdState}
        → (true, t) ≡ r
        → Outcome h s id base r
        → any_conflict max_shadow_entries 0 s (srb_sector s (s.srbs id)) (srb_blocks s (s.srbs id))
          ≡ false
    clear e (inl (w, f)) = absurd (no (ap (λ (r : Bool × VbdState). r.0) (e ∙ f)))
      where
        no : true ≡ false → ⊥
        no e = cc
    clear e (inr (c, more, placed)) =
        ap
          (λ b.
            b
            && any_conflict max_shadow_entries 0 s (srb_sector s (s.srbs id))
                (srb_blocks s (s.srbs id)))
          (sym ((==_iff (s.srbs id).offset 0).1 fresh))
        ∙ c
