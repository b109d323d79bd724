-- ===== src/Vbd/Placing.antt =====
-- What becomes of an SRB that is put on the ring, `XenVbd_PutSrbOnRing` from the shadow on.
use win_pvdrivers_mirror.Base.{
  ◌≢◌, ℕ, ◌+◌, ◌-◌, ◌*◌, ◌/◌, ◌%◌, ◌^◌, ◌≤◌, ◌≡◌, ◌⊎◌, refl, ap, sym, subst, ◌∙◌, inl, inr, min,
  Bool, true, false, not, ◌&&◌, ◌||◌, none, some, List, [], ◌∷◌, ◌++◌, map, ltb, ◌==◌, ==_iff,
  if◌then◌else◌, length, Bool-cases, arith, update_self, update_ne, append-nil, ◌>>=◌, update,
}
use win_pvdrivers_mirror.Vbd.{
  copy_to_buffer, Shadow, taken_shadow, Host, Segment, Filled, Srb, VbdState, VbdCall, Request,
  fill_shadow, take_shadow, end_fill, submit, defer, put_shadow, bytes_for, buffer_at, on_raster,
  max_segments, end_access, decode_cdb_is_read, shadow_id,
}
use win_pvdrivers_mirror.Vbd.Segments.{
  Tiled, Given, total_bytes, KeepsOffset, Cut, fill_segments-Cut,
}

-- The memory that is granted, for data at `address`, and its bytes out of `blocks` sectors: the data itself
-- where it is on the 512-byte raster, else the aligned buffer as far as it reaches.
abbrev pub front_buffer : VbdState → ℕ → ℕ
front_buffer s address = if address % 512 == 0 then address else s.aligned_buffer

abbrev pub front_bytes : VbdState → (address blocks : ℕ) → ℕ
front_bytes s address blocks =
    (if address % 512 == 0 then blocks else min blocks (s.aligned_size / 512)) * 512 % 2 ^ 32

-- A request for the front of what is left of the SRB is on the ring, and the SRB stands at its end.
pub record Sent (h : Host) (s : VbdState) (id i address sector blocks : ℕ) (t : VbdState)
    : Type 0 where
  pub request : Request
  pub on_ring : t.ring ≡ s.ring ++ request ∷ []
  pub direction : request.is_read ≡ decode_cdb_is_read (s.srbs id).cdb
  pub at_sector : request.sector_number ≡ sector
  pub tiled : Tiled h.phys (front_buffer s address) request.segs
  pub given : Given h.grant 0 request.segs
  pub few : length request.segs ≤ max_segments
  pub within : total_bytes request.segs ≤ front_bytes s address blocks
  pub ends :
      (total_bytes request.segs ≡ front_bytes s address blocks)
      ⊎ (length request.segs ≡ max_segments)
  pub offset : (t.srbs id).offset ≡ ((s.srbs id).offset + total_bytes request.segs) % 2 ^ 32
  pub outstanding : (t.srbs id).outstanding ≡ ((s.srbs id).outstanding + 1) % 2 ^ 32
  pub queue :
      t.srb_list
      ≡ (if ltb (t.srbs id).offset (s.srbs id).length then id ∷ s.srb_list else s.srb_list)
  pub free_list : t.free_list ≡ s.free_list
  pub shadow_free : t.shadow_free ≡ s.shadow_free
  pub other_shadows : (j : ℕ) → i ≢ j → t.shadows j ≡ s.shadows j
  pub own_id : request.id ≡ (s.shadows i).req.id
  pub filled : t.shadows i ≡ record {
    req = request;
    srb = some id;
    system_address = address;
    length = total_bytes request.segs;
    aligned_in_use = not (address % 512 == 0);
    reset = false;
  }
  pub buffer_taken : t.aligned_in_use ≡ (s.aligned_in_use || not (address % 512 == 0))
  pub copied_out : t.calls ≡ (
      if not (address % 512 == 0) && not (decode_cdb_is_read (s.srbs id).cdb)
      then s.calls ++ copy_to_buffer address (front_bytes s address blocks) ∷ []
      else s.calls)
  pub other_srbs : (j : ℕ) → id ≢ j → t.srbs j ≡ s.srbs j
  pub same_id : (t.shadows i).req.id ≡ (s.shadows i).req.id

-- Nothing is on the ring, every page granted is ended, and SRB and shadow are back in their lists.
pub record Deferred (h : Host) (s : VbdState) (id i address : ℕ) (t : VbdState) : Type 0 where
  pub granted : List Segment
  pub given : Given h.grant 0 granted
  pub refused : h.grant (0 + length granted) ≡ none
  pub tiled : Tiled h.phys (buffer_at s address) granted
  pub copies : List VbdCall
  pub calls : t.calls ≡ (s.calls ++ copies) ++ map (λ (g : Segment). end_access g.gref) granted
  pub ring : t.ring ≡ s.ring
  pub srbs : t.srbs ≡ s.srbs
  pub queue : t.srb_list ≡ id ∷ s.srb_list
  pub free_list : t.free_list ≡ update s.free_list s.shadow_free (shadow_id (s.shadows i).req.id)
  pub shadow_free : t.shadow_free ≡ (s.shadow_free + 1) % 2 ^ 16
  pub emptied : (t.shadows i).srb ≡ none
  pub other_shadows : (j : ℕ) → i ≢ j → t.shadows j ≡ s.shadows j
  pub same_id : (t.shadows i).req.id ≡ (s.shadows i).req.id
  pub buffer_free : t.aligned_in_use ≡ s.aligned_in_use

submit-Sent :
    (h : Host) (s : VbdState) (id i address sector blocks : ℕ) (f : Filled)
    → f.granted ≡ true
    → Cut h max_segments 0 (buffer_at s address) (bytes_for s address blocks) f
    → Sent h s id i address sector blocks
        (submit (take_shadow s id i address sector blocks) id i f (bytes_for s address blocks))
unfolding submit take_shadow
submit-Sent h s id i address sector blocks f g cut = record {
  request = record (taken_shadow s id i address sector).req { segs = f.segs };
  on_ring =
      ap (λ (sh : Shadow). s.ring ++ record (sh.req) { segs = f.segs } ∷ [])
        (update_self s.shadows i (taken_shadow s id i address sector));
  direction = refl;
  at_sector = refl;
  tiled = cut.tiled;
  given = cut.given;
  few = cut.few;
  within = omega (arith, cut.sum);
  ends = whole (cut.ends g) cut.sum;
  offset =
      ap (λ (b : Srb). b.offset) (update_self s.srbs id _)
      ∙ ap (λ n. ((s.srbs id).offset + n) % 2 ^ 32) moved;
  outstanding = ap (λ (b : Srb). b.outstanding) (update_self s.srbs id _);
  queue =
      ap (λ (b : Srb). if ltb b.offset (s.srbs id).length then id ∷ s.srb_list else s.srb_list)
        (sym (update_self s.srbs id _));
  free_list = refl;
  shadow_free = refl;
  other_shadows = λ j ne.
      update_ne (update s.shadows i (taken_shadow s id i address sector)) _ ne
      ∙ update_ne s.shadows (taken_shadow s id i address sector) ne;
  own_id = refl;
  filled =
      update_self (update s.shadows i (taken_shadow s id i address sector)) i _
      ∙ ap
          (λ (sh : Shadow). record sh {
            req = record (sh.req) { segs = f.segs };
            length = bytes_for s address blocks - f.left;
          })
          (update_self s.shadows i (taken_shadow s id i address sector))
      ∙ ap
          (λ n. record (taken_shadow s id i address sector) {
            req = record (taken_shadow s id i address sector).req { segs = f.segs };
            length = n;
          })
          moved;
  buffer_taken = refl;
  copied_out = refl;
  other_srbs = λ j ne. update_ne s.srbs _ ne;
  same_id =
      ap (λ (sh : Shadow). sh.req.id)
        (update_self (update s.shadows i (taken_shadow s id i address sector)) i _)
      ∙ ap (λ (sh : Shadow). sh.req.id)
          (update_self s.shadows i (taken_shadow s id i address sector));
}
  where
    whole :
        {n left total : ℕ}
        → (left ≡ 0) ⊎ (n ≡ max_segments)
        → total_bytes f.segs + left ≡ total
        → (total_bytes f.segs ≡ total) ⊎ (n ≡ max_segments)
    whole (inl e) sum = inl (omega (arith, sum))
    whole (inr e) sum = inr e

    moved : bytes_for s address blocks - f.left ≡ total_bytes f.segs
    moved = omega (arith, cut.sum)

copied :
    (b : Bool) (calls more : List VbdCall) (call : VbdCall)
    → (copies : List VbdCall) × ((if b then calls ++ call ∷ [] else calls) ++ more
        ≡ (calls ++ copies) ++ more)
copied true calls more call = (call ∷ [], refl)
copied false calls more call = ([], ap (λ c. c ++ more) (sym (append-nil calls)))

put_shadow-empty : (s : VbdState) (i : ℕ) → ((put_shadow s i).shadows i).srb ≡ none
unfolding put_shadow
put_shadow-empty s i = ap (λ (sh : Shadow). sh.srb) (update_self s.shadows i _)

defer-empty :
    (s : VbdState) (id i : ℕ) (segs : List Segment) → ((defer s id i segs).shadows i).srb ≡ none
unfolding defer
defer-empty s id i segs = put_shadow-empty _ i

put_shadow-keeps :
    (s : VbdState) (i : ℕ)
    → ((j : ℕ) → i ≢ j → (put_shadow s i).shadows j ≡ s.shadows j)
      × (((put_shadow s i).shadows i).req.id ≡ (s.shadows i).req.id)
unfolding put_shadow
put_shadow-keeps s i =
    (λ j ne. update_ne s.shadows _ ne, ap (λ (sh : Shadow). sh.req.id) (update_self s.shadows i _))

defer-keeps :
    (s : VbdState) (id i : ℕ) (segs : List Segment)
    → ((j : ℕ) → i ≢ j → (defer s id i segs).shadows j ≡ s.shadows j)
      × (((defer s id i segs).shadows i).req.id ≡ (s.shadows i).req.id)
unfolding defer
defer-keeps s id i segs =
    let (others, same) = put_shadow-keeps _ i in
    (
      λ j ne. others j ne ∙ update_ne s.shadows _ ne,
      same ∙ ap (λ (sh : Shadow). sh.req.id) (update_self s.shadows i _),
    )

defer-Deferred :
    (h : Host) (s : VbdState) (id i address sector blocks : ℕ) (f : Filled)
    → f.granted ≡ false
    → s.aligned_in_use ≡ false
    → Cut h max_segments 0 (buffer_at s address) (bytes_for s address blocks) f
    → Deferred h s id i address (defer (take_shadow s id i address sector blocks) id i f.segs)
unfolding defer take_shadow put_shadow
defer-Deferred h s id i address sector blocks f g unused cut =
    let (copies, calls) =
      copied (not (on_raster address) && not (decode_cdb_is_read (s.srbs id).cdb)) s.calls
        (map (λ (g : Segment). end_access g.gref) f.segs)
        (copy_to_buffer address (bytes_for s address blocks)) in
    let (others, same) = defer-keeps (take_shadow s id i address sector blocks) id i f.segs in
    record {
      granted = f.segs;
      given = cut.given;
      refused = cut.refused g;
      tiled = cut.tiled;
      copies = copies;
      calls = calls;
      ring = refl;
      srbs = refl;
      queue = refl;
      free_list =
          ap (λ (sh : Shadow). update s.free_list s.shadow_free (shadow_id sh.req.id))
            (update_self (update s.shadows i (taken_shadow s id i address sector)) i _)
          ∙ ap (λ (sh : Shadow). update s.free_list s.shadow_free (shadow_id sh.req.id))
              (update_self s.shadows i (taken_shadow s id i address sector));
      shadow_free = refl;
      emptied = defer-empty (take_shadow s id i address sector blocks) id i f.segs;
      other_shadows =
          λ j ne. others j ne ∙ update_ne s.shadows (taken_shadow s id i address sector) ne;
      same_id =
          same
          ∙ ap (λ (sh : Shadow). sh.req.id)
              (update_self s.shadows i (taken_shadow s id i address sector));
      buffer_free =
          ap
            (λ (sh : Shadow).
              if sh.aligned_in_use then false else s.aligned_in_use || not (on_raster address))
            (update_self s.shadows i (taken_shadow s id i address sector))
          ∙ released (on_raster address) s.aligned_in_use unused;
    }
  where
    released : (b u : Bool) → u ≡ false → (if not b then false else u || not b) ≡ u
    released true false e = refl
    released false false e = refl
    released true true e = absurd (cc)
    released false true e = absurd (cc)

-- How an attempt to fill the shadow at `i` ends.
pub data Placed (h : Host) (s : VbdState) (id i address sector blocks : ℕ)
    : Bool × VbdState → Type 0 where
  sent :
      {t : VbdState}
      → Sent h s id i address sector blocks t
      → Placed h s id i address sector blocks (true, t)
  deferred :
      {t : VbdState}
      → Deferred h s id i address t
      → Placed h s id i address sector blocks (false, t)

-- The buffers are on the raster.
pub record Aligned (h : Host) (s : VbdState) : Type 0 where
  pub keeps : KeepsOffset h.phys
  pub buffer : s.aligned_buffer % 512 ≡ 0

end_fill-Placed :
    (h : Host) (s : VbdState) (id i address sector blocks : ℕ) (f : Filled)
    → s.aligned_in_use ≡ false
    → Cut h max_segments 0 (buffer_at s address) (bytes_for s address blocks) f
    → (f.granted ≡ true) ⊎ (f.granted ≡ false)
    → Placed h s id i address sector blocks
        (end_fill (take_shadow s id i address sector blocks) id i (bytes_for s address blocks) f)
unfolding end_fill
end_fill-Placed h s id i address sector blocks f unused cut (inl g) =
    subst
      (λ (b : Bool). Placed h s id i address sector blocks (
        if b
        then (
          true,
          submit (take_shadow s id i address sector blocks) id i f (bytes_for s address blocks),
        )
        else (false, defer (take_shadow s id i address sector blocks) id i f.segs)))
      (sym g) (sent (submit-Sent h s id i address sector blocks f g cut))
end_fill-Placed h s id i address sector blocks f unused cut (inr g) =
    subst
      (λ (b : Bool). Placed h s id i address sector blocks (
        if b
        then (
          true,
          submit (take_shadow s id i address sector blocks) id i f (bytes_for s address blocks),
        )
        else (false, defer (take_shadow s id i address sector blocks) id i f.segs)))
      (sym g) (deferred (defer-Deferred h s id i address sector blocks f g unused cut))

pub fill_shadow-Placed :
    (h : Host) (s : VbdState) (id i address sector blocks : ℕ)
    → Aligned h s
    → s.aligned_in_use ≡ false
    → (r : Bool × VbdState) × (fill_shadow h s id i address sector blocks ≡ some r)
      × Placed h s id i address sector blocks r
unfolding fill_shadow
fill_shadow-Placed h s id i address sector blocks fits unused =
    let bytes = bytes_for s address blocks in
    let (f, run, cut) =
      fill_segments-Cut h max_segments 0 (buffer_at s address) bytes fits.keeps
        (at (Bool-cases (on_raster address))) by in
    (
      end_fill (take_shadow s id i address sector blocks) id i bytes f,
      ap (λ o. o >>= λ f. some (end_fill (take_shadow s id i address sector blocks) id i bytes f))
          run,
      end_fill-Placed h s id i address sector blocks f unused cut (Bool-cases f.granted),
    )
  where
    at : (on_raster address ≡ true) ⊎ (on_raster address ≡ false) → buffer_at s address % 512 ≡ 0
    at (inl e) =
        ap (λ b. (if b then address else s.aligned_buffer) % 512) e ∙ (==_iff (address % 512) 0).0 e
    at (inr e) = ap (λ b. (if b then address else s.aligned_buffer) % 512) e ∙ fits.buffer

    by : bytes_for s address blocks % 512 ≡ 0
    by = raster (if on_raster address then blocks else min blocks (s.aligned_size / 512))
      where
        raster : (n : ℕ) → n * 512 % 2 ^ 32 % 512 ≡ 0
        raster n = omega arith
