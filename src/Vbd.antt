-- ===== src/Vbd.antt =====
-- The block miniport, xenvbd_common/common_miniport.h, outside dump mode: SCSI reads and writes as
-- requests on the ring of the backend, their responses, and resets. `none` is a failed assertion.
mod Defs
mod Cdb
mod Segments
pub mod Placing
pub mod Submit
pub mod Reply
pub mod Command
pub mod Queue
pub mod Pool
mod Tests
pub use Defs.*
unfoldable pub use Cdb.*
unfoldable pub use Segments.*
use Defs.{
  active, end_access, copy_to_buffer, copy_from_buffer, complete, notify_backend, next_request,
}
use win_pvdrivers_mirror.Base.{
  ℕ, zero, suc, ◌+◌, ◌-◌, ◌*◌, ◌/◌, ◌%◌, ◌^◌, min, Bool, true, false, not, ◌&&◌, ◌||◌, Option, none,
  some, List, [], ◌∷◌, ◌++◌, map, ltb, leb, ◌==◌, if◌then◌else◌, update, elem, ◌>>=◌, ◌>>◌,
  xn_assert,
}

abbrev pub log : VbdState → VbdCall → VbdState
log s c = record s { calls = s.calls ++ c ∷ [] }

-- `InsertHeadList(&xvdd->srb_list, ...)`
abbrev pub requeue : VbdState → ℕ → VbdState
requeue s id = record s { srb_list = id ∷ s.srb_list }

-- `get_shadow_from_freelist`: the index of the shadow.
pub get_shadow : VbdState → Option (ℕ × VbdState)
get_shadow s =
    if s.shadow_free == 0
    then none
    else some (s.free_list (s.shadow_free - 1), record s { shadow_free = s.shadow_free - 1 })

-- `put_shadow_on_freelist` of the shadow at `i`
pub put_shadow : VbdState → ℕ → VbdState
put_shadow s i = record s {
  free_list = update s.free_list s.shadow_free (shadow_id (s.shadows i).req.id);
  shadows =
      update s.shadows i
        (record (s.shadows i) { srb = none; reset = false; aligned_in_use = false });
  shadow_free = (s.shadow_free + 1) % 2 ^ 16;
}

-- The number of 512-byte sectors of a CDB, on 32 bits, and the first of them, on 64.
pub cdb_blocks : VbdState → (ℕ → ℕ) → ℕ
cdb_blocks s cdb = decode_cdb_length cdb * (s.bytes_per_sector / 512) % 2 ^ 32

pub cdb_start : VbdState → (ℕ → ℕ) → ℕ
cdb_start s cdb = decode_cdb_sector cdb * (s.bytes_per_sector / 512) % 2 ^ 64

-- The test of the loop over pending writes, for the one at `cdb2`.
pub overlaps : (start1 blocks1 start2 blocks2 : ℕ) → Bool
overlaps start1 blocks1 start2 blocks2 =
    not (ltb start1 start2 && leb ((start1 + blocks1) % 2 ^ 64) start2)
    && not (ltb start2 start1 && leb ((start2 + blocks2) % 2 ^ 64) start1)

pub shadow_conflicts : VbdState → (start blocks : ℕ) → Option ℕ → Bool
shadow_conflicts s start blocks none = false
shadow_conflicts s start blocks (some srb2) =
    let cdb = (s.srbs srb2).cdb in
    not (decode_cdb_is_read cdb) && overlaps start blocks (cdb_start s cdb) (cdb_blocks s cdb)

-- Whether one of `n` shadows from `i` on holds a write that overlaps.
pub any_conflict : (n i : ℕ) → VbdState → (start blocks : ℕ) → Bool
any_conflict zero i s start blocks = false
any_conflict (suc n) i s start blocks =
    shadow_conflicts s start blocks (s.shadows i).srb || any_conflict n (suc i) s start blocks

-- The request has been filled: it goes on the ring, and the SRB to the head of the queue if more is left.
pub submit : VbdState → (id i : ℕ) → Filled → (total : ℕ) → VbdState
submit s id i f total =
    let srb = s.srbs id in
    let moved = total - f.left in
    let shadow = s.shadows i in
    let req = record (shadow.req) { segs = f.segs } in
    let offset = (srb.offset + moved) % 2 ^ 32 in
    let outstanding = (srb.outstanding + 1) % 2 ^ 32 in
    record s {
      shadows = update s.shadows i (record shadow { req = req; length = moved });
      srbs = update s.srbs id (record srb { offset = offset; outstanding = outstanding });
      ring = s.ring ++ req ∷ [];
      srb_list = if ltb offset srb.length then id ∷ s.srb_list else s.srb_list;
    }

-- A grant was refused: what has been granted is ended, and SRB and shadow go back.
pub defer : VbdState → (id i : ℕ) → List Segment → VbdState
defer s id i segs =
    let shadow = s.shadows i in
    let ended = record s {
      shadows =
          update s.shadows i
            (record shadow { req = record (shadow.req) { segs = segs }; aligned_in_use = false });
      aligned_in_use = if shadow.aligned_in_use then false else s.aligned_in_use;
      calls = s.calls ++ map (λ (g : Segment). end_access g.gref) segs;
    } in
    put_shadow (requeue ended id) i

-- An address off the 512-byte raster goes by the aligned buffer, as far as that reaches.
abbrev pub on_raster : ℕ → Bool
on_raster address = address % 512 == 0

abbrev pub buffer_at : VbdState → ℕ → ℕ
buffer_at s address = if on_raster address then address else s.aligned_buffer

abbrev pub bytes_for : VbdState → (address blocks : ℕ) → ℕ
bytes_for s address blocks =
    (if on_raster address then blocks else min blocks (s.aligned_size / 512)) * 512 % 2 ^ 32

-- The shadow at `i` is taken for the SRB, and what is written is copied to the aligned buffer.
abbrev pub taken_shadow : VbdState → (id i address sector : ℕ) → Shadow
taken_shadow s id i address sector = record {
  req = record {
    id = (s.shadows i).req.id;
    is_read = decode_cdb_is_read (s.srbs id).cdb;
    sector_number = sector;
    segs = [];
  };
  srb = some id;
  system_address = address;
  length = 0;
  aligned_in_use = not (on_raster address);
  reset = false;
}

pub take_shadow : VbdState → (id i address sector blocks : ℕ) → VbdState
take_shadow s id i address sector blocks = record s {
  shadows = update s.shadows i (taken_shadow s id i address sector);
  aligned_in_use = s.aligned_in_use || not (on_raster address);
  calls =
      if not (on_raster address) && not (decode_cdb_is_read (s.srbs id).cdb)
      then s.calls ++ copy_to_buffer address (bytes_for s address blocks) ∷ []
      else s.calls;
}

pub end_fill : VbdState → (id i bytes : ℕ) → Filled → Bool × VbdState
end_fill s id i bytes f =
    if f.granted then (true, submit s id i f bytes) else (false, defer s id i f.segs)

pub fill_shadow : Host → VbdState → (id i address sector blocks : ℕ) → Option (Bool × VbdState)
fill_shadow h s id i address sector blocks =
    let bytes = bytes_for s address blocks in
    fill_segments h max_segments 0 (buffer_at s address) bytes >>= λ f.
    some (end_fill (take_shadow s id i address sector blocks) id i bytes f)

pub is_free : Option ℕ → Bool
is_free none = true
is_free (some srb) = false

-- The SRB gets a shadow, or goes back to the queue.
pub with_shadow :
    Host
    → VbdState
    → (id address sector blocks : ℕ) → Option (ℕ × VbdState)
    → Option (Bool × VbdState)
with_shadow h s id address sector blocks none = some (false, requeue s id)
with_shadow h s id address sector blocks (some (i, t)) = do
  xn_assert (not (t.shadows i).aligned_in_use)
  xn_assert (is_free (t.shadows i).srb)
  fill_shadow h t id i address sector blocks

-- The sector that the SRB goes on at, and the 512-byte sectors it has left, on 64 and on 32 bits.
abbrev pub srb_sector : VbdState → Srb → ℕ
srb_sector s srb = (cdb_start s srb.cdb + srb.offset / 512) % 2 ^ 64

abbrev pub srb_blocks : VbdState → Srb → ℕ
srb_blocks s srb = (cdb_blocks s srb.cdb + 2 ^ 32 - srb.offset / 512) % 2 ^ 32

-- Whether the SRB, not begun yet, has to wait for a pending write.
abbrev pub conflict : VbdState → Srb → Bool
conflict s srb =
    (srb.offset == 0) && any_conflict max_shadow_entries 0 s (srb_sector s srb) (srb_blocks s srb)

-- The SRB is mapped at `base`.
pub place_srb : Host → VbdState → (id base : ℕ) → Option (Bool × VbdState)
place_srb h s id base =
    let srb = s.srbs id in
    let sector = srb_sector s srb in
    let blocks = srb_blocks s srb in
    xn_assert (cdb_blocks s srb.cdb * 512 % 2 ^ 32 == srb.data_length)
    >> (xn_assert (ltb 0 blocks)
        >> (if conflict s srb
            then some (false, requeue s id)
            else with_shadow h s id (base + srb.offset) sector blocks (get_shadow s)))

pub is_active : DeviceState → Bool
is_active active = true
is_active _ = false

pub place_mapped : Host → VbdState → ℕ → Option ℕ → Option (Bool × VbdState)
place_mapped h s id none = some (false, requeue s id)
place_mapped h s id (some base) = place_srb h s id base

-- `XenVbd_PutSrbOnRing`: whether something has been put on the ring.
pub put_srb_on_ring : Host → VbdState → ℕ → Option (Bool × VbdState)
put_srb_on_ring h s id =
    if is_active s.device_state
    then place_mapped h s id h.system_address
    else some (false, requeue s id)
