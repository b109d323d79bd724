-- ===== src/Vbd/Queue/Moves.antt =====
-- What one attempt to put an SRB on the ring does to the queue and to the number of free shadows.
use win_pvdrivers_mirror.Base.{
  ℕ, ◌+◌, ◌-◌, ◌*◌, ◌%◌, ◌^◌, ◌≤◌, ◌≡◌, refl, ap, sym, subst, Bool, true, false, not, Option, none,
  some, List, ◌∷◌, length, ltb, ◌==◌, if◌then◌else◌, arith, inl, inr, ◌⊎◌, Bool-cases, ◌>>=◌, ◌>>◌,
  xn_assert,
}
use win_pvdrivers_mirror.Vbd.{
  Host, VbdState, Filled, Segment, requeue, put_srb_on_ring, place_mapped, place_srb, with_shadow,
  fill_shadow, end_fill, submit, defer, take_shadow, put_shadow, get_shadow, srb_sector, srb_blocks,
  cdb_blocks, conflict, is_active, is_free, fill_segments, max_segments, buffer_at, bytes_for,
}

-- `P` holds of the result, if there is one.
abbrev pub Always {ℓ} : {A : Type ℓ} → (A → Type 0) → Option A → Type 0
Always P none = Unit
Always P (some a) = P a

Always-assert {ℓ} :
    {A : Type ℓ} (P : A → Type 0) (b : Bool) (k : Option A)
    → Always P k
    → Always P (xn_assert b >> k)
Always-assert P true k p = p
Always-assert P false k p = tt

Always-bind {ℓ κ} :
    {A : Type ℓ} {B : Type κ} (P : B → Type 0) (o : Option A) (f : A → Option B)
    → ((a : A) → Always P (f a))
    → Always P (o >>= f)
Always-bind P none f p = tt
Always-bind P (some a) f p = p a

pub Always-if {ℓ} :
    {A : Type ℓ} (P : A → Type 0) (b : Bool) (x y : Option A)
    → Always P x
    → Always P y
    → Always P (if b then x else y)
Always-if P true x y p q = p
Always-if P false x y p q = q

-- Without a request the SRB is at the head of the queue as it was; with one a shadow is gone, and the
-- queue has at most this SRB more.
abbrev pub Moved : VbdState → ℕ → Bool × VbdState → Type 0
Moved s id (false, t) = (t.srb_list ≡ id ∷ s.srb_list) × (t.srbs ≡ s.srbs)
Moved s id (true, t) =
    (t.shadow_free + 1 ≡ s.shadow_free) × (length t.srb_list ≤ 1 + length s.srb_list)

Moved-if :
    (s t u : VbdState) (id : ℕ) (b : Bool)
    → Moved s id (true, t)
    → Moved s id (false, u)
    → Moved s id (if b then (true, t) else (false, u))
Moved-if s t u id true p q = p
Moved-if s t u id false p q = q

at_most_one : (b : Bool) (id : ℕ) (xs : List ℕ) → length (if b then id ∷ xs else xs) ≤ 1 + length xs
at_most_one true id xs = omega arith
at_most_one false id xs = omega arith

submit-Moved :
    (s t : VbdState) (id i address sector blocks total : ℕ) (f : Filled)
    → t.shadow_free + 1 ≡ s.shadow_free
    → t.srb_list ≡ s.srb_list
    → Moved s id (true, submit (take_shadow t id i address sector blocks) id i f total)
unfolding submit take_shadow
submit-Moved s t id i address sector blocks total f free queue =
    let u = take_shadow t id i address sector blocks in
    let offset = ((u.srbs id).offset + (total - f.left)) % 2 ^ 32 in
    let more = ltb offset (u.srbs id).length in
    (
      free,
      subst (λ xs. length (if more then id ∷ t.srb_list else t.srb_list) ≤ 1 + length xs) queue
          (at_most_one more id t.srb_list),
    )

defer-Moved :
    (s t : VbdState) (id i address sector blocks : ℕ) (segs : List Segment)
    → t.srb_list ≡ s.srb_list
    → t.srbs ≡ s.srbs
    → Moved s id (false, defer (take_shadow t id i address sector blocks) id i segs)
unfolding defer take_shadow put_shadow
defer-Moved s t id i address sector blocks segs queue srbs = (ap (λ xs. id ∷ xs) queue, srbs)

fill_shadow-Moved :
    (h : Host) (s t : VbdState) (id i address sector blocks : ℕ)
    → t.shadow_free + 1 ≡ s.shadow_free
    → t.srb_list ≡ s.srb_list
    → t.srbs ≡ s.srbs
    → Always (Moved s id) (fill_shadow h t id i address sector blocks)
unfolding fill_shadow end_fill
fill_shadow-Moved h s t id i address sector blocks free queue srbs =
    let u = take_shadow t id i address sector blocks in
    let bytes = bytes_for t address blocks in
    Always-bind (Moved s id) (fill_segments h max_segments 0 (buffer_at t address) bytes)
      (λ f. some (end_fill u id i bytes f))
      λ f.
        Moved-if s (submit u id i f bytes) (defer u id i f.segs) id f.granted
          (submit-Moved s t id i address sector blocks (bytes_for t address blocks) f free queue)
          (defer-Moved s t id i address sector blocks f.segs queue srbs)

with_shadow-Moved :
    (h : Host) (s : VbdState) (id address sector blocks : ℕ)
    → Always (Moved s id) (with_shadow h s id address sector blocks (get_shadow s))
unfolding with_shadow get_shadow
with_shadow-Moved h s id address sector blocks = shadow_or (Bool-cases (s.shadow_free == 0))
  where
    t : VbdState
    t = record s { shadow_free = s.shadow_free - 1 }

    i : ℕ
    i = s.free_list (s.shadow_free - 1)

    one_less : (s.shadow_free == 0) ≡ false → s.shadow_free - 1 + 1 ≡ s.shadow_free
    one_less e = ground arith

    shadow_or :
        ((s.shadow_free == 0) ≡ true) ⊎ ((s.shadow_free == 0) ≡ false)
        → Always (Moved s id) (
            with_shadow h s id address sector blocks
              (if s.shadow_free == 0 then none else some (i, t)))
    shadow_or (inl e) =
        subst
          (λ b.
            Always (Moved s id)
              (with_shadow h s id address sector blocks (if b then none else some (i, t))))
          (sym e) (refl, refl)
    shadow_or (inr e) =
        subst
          (λ b.
            Always (Moved s id)
              (with_shadow h s id address sector blocks (if b then none else some (i, t))))
          (sym e)
          (Always-assert (Moved s id) (not (t.shadows i).aligned_in_use)
            (xn_assert (is_free (t.shadows i).srb) >> fill_shadow h t id i address sector blocks)
            (Always-assert (Moved s id) (is_free (t.shadows i).srb)
              (fill_shadow h t id i address sector blocks)
              (fill_shadow-Moved h s t id i address sector blocks (one_less e) refl refl)))

place_srb-Moved :
    (h : Host) (s : VbdState) (id base : ℕ) → Always (Moved s id) (place_srb h s id base)
unfolding place_srb
place_srb-Moved h s id base =
    let rest =
      with_shadow h s id (base + (s.srbs id).offset) (srb_sector s (s.srbs id))
        (srb_blocks s (s.srbs id)) (get_shadow s) in
    let tried = if conflict s (s.srbs id) then some (false, requeue s id) else rest in
    Always-assert (Moved s id)
      (cdb_blocks s (s.srbs id).cdb * 512 % 2 ^ 32 == (s.srbs id).data_length)
      (xn_assert (ltb 0 (srb_blocks s (s.srbs id))) >> tried)
      (Always-assert (Moved s id) (ltb 0 (srb_blocks s (s.srbs id))) tried (
        Always-if (Moved s id) (conflict s (s.srbs id)) (some (false, requeue s id)) rest
          (refl, refl)
          (with_shadow-Moved h s id (base + (s.srbs id).offset) (srb_sector s (s.srbs id))
            (srb_blocks s (s.srbs id)))))

-- Whatever the host gives, `put_srb_on_ring` either leaves the SRB at the head of the queue as it was, or
-- uses up a shadow.
pub put_srb_on_ring-Moved :
    (h : Host) (s : VbdState) (id : ℕ) → Always (Moved s id) (put_srb_on_ring h s id)
unfolding put_srb_on_ring place_mapped
put_srb_on_ring-Moved h s id =
    Always-if (Moved s id) (is_active s.device_state) (place_mapped h s id h.system_address)
      (some (false, requeue s id)) (mapped h.system_address) (refl, refl)
  where
    mapped : (o : Option ℕ) → Always (Moved s id) (place_mapped h s id o)
    mapped none = (refl, refl)
    mapped (some base) = place_srb-Moved h s id base
