-- ===== src/Grant.antt =====
-- xenpci/gnttbl.c in the checked build (DBG): the grant table, the free list of its references, and
-- what suspend and resume do to both. The lock-free stack of liblfds is an argument, `StackApi`.
-- `none` is a failed assertion; a hypercall is an entry of the log `calls`.
mod Defs
pub mod Refs
pub mod Access
pub mod Hibernate
pub mod Suspend
pub mod Resume
pub mod Setup
mod Tests
pub use Defs.*
use win_pvdrivers_mirror.Base.{
  ℕ, zero, suc, ◌+◌, ◌-◌, ◌*◌, ◌%◌, ◌^◌, bit_and, bit_or, Bool, true, false, not, ◌&&◌, Option,
  none, some, List, [], ◌∷◌, ◌++◌, ltb, leb, ◌==◌, if◌then◌else◌, set, get_or, replicate, update,
  copy_prefix, ◌>>=◌, ◌>>◌, xn_assert,
}
use Defs.{
  StackApi, GrantEntry, GrantTag, GrantCall, add_to_physmap, decrease_reservation, GrantState,
  invalid_grant_ref, nr_reserved_entries, hiber_gref_count, hibr, gtf_permit_access, gtf_readonly,
  gtf_in_use, grant_entries, table_size, hole_rounds,
}

-- `GntTbl_QueryMaxFrames`: `rc` and `status` are the results of the hypercall (a negative `rc` is
-- a failure), and `GNTST_okay` is 0.
unfoldable pub query_max_frames : Bool → ℕ → ℕ → ℕ
query_max_frames rc_negative status max_nr_frames =
    if rc_negative then 4 else if status == 0 then max_nr_frames else 4

module _ (lf : StackApi) where
  open lf use {Stack, new, push, pop}

  -- `GntTbl_PutRef`
  unfoldable pub put_ref : GrantState Stack → ℕ → ℕ → Option (GrantState Stack)
  put_ref s ref tag = do
    xn_assert ((s.tags ref).tag == tag)
    let free : GrantTag = record { generation = 0xffffffff; tag = 0 }
    some (record s { tags = update s.tags ref free; ss = push s.ss ref })

  take_ref : GrantState Stack → ℕ → Option (ℕ × Stack) → Option (ℕ × GrantState Stack)
  take_ref s tag none = some (invalid_grant_ref, s)
  take_ref s tag (some (ref, ss)) = do
    xn_assert ((s.tags ref).tag == 0)
    let used : GrantTag = record { generation = s.generation; tag = tag }
    some (ref, record s { ss = ss; tags = update s.tags ref used })

  -- `GntTbl_GetRef`
  unfoldable pub get_ref : GrantState Stack → ℕ → Option (ℕ × GrantState Stack)
  unfolding take_ref
  get_ref s tag = take_ref s tag (pop s.ss)

  -- The hypercalls of `GntTbl_Map`, from `i` down: `rounds` is `i - start_idx`.
  pub map_frames : GrantState Stack → (rounds i : ℕ) → GrantState Stack
  map_frames s zero i = record s { calls = s.calls ++ add_to_physmap i (s.mdl_pfn i) ∷ [] }
  map_frames s (suc n) i =
      map_frames (record s { calls = s.calls ++ add_to_physmap i (s.mdl_pfn i) ∷ [] }) n (i - 1)

  -- `GntTbl_Map`. The loop runs before its test, so a start above the end maps the end.
  unfoldable pub map_table : GrantState Stack → ℕ → ℕ → GrantState Stack
  unfolding map_frames
  map_table s start_idx end_idx = map_frames s (end_idx - start_idx) end_idx

  pub fill_entry :
      GrantState Stack → (domid frame readonly ref tag : ℕ) → Option (ℕ × GrantState Stack)
  fill_entry s domid frame readonly ref tag = do
    xn_assert ((s.tags ref).tag == tag)
    xn_assert ((s.table ref).flags == 0)
    let entry : GrantEntry = record {
      flags = bit_or gtf_permit_access (readonly * gtf_readonly % 2 ^ 16);
      domid = domid;
      frame = frame;
    }
    some (ref, record s { table = update s.table ref entry })

  -- `GntTbl_GrantAccess`
  unfoldable pub grant_access :
      GrantState Stack → (domid frame readonly ref tag : ℕ) → Option (ℕ × GrantState Stack)
  unfolding get_ref fill_entry
  grant_access s domid frame readonly ref tag =
      (if ref == invalid_grant_ref then get_ref s tag else some (ref, s)) >>= λ got.
      if got.0 == invalid_grant_ref
      then some got
      else fill_entry got.1 domid frame readonly got.0 tag

  -- The compare-and-exchange loop of `GntTbl_EndAccess` on one flags word. `seen` is `nflags`,
  -- `mem` the word in memory, and `writes` what the hypervisor stores before each exchange.
  -- The result is whether the word was cleared, and the word.
  pub end_loop : ℕ → (seen mem : ℕ) → List ℕ → Option (Bool × ℕ)
  end_loop zero seen mem writes = none
  end_loop (suc fuel) seen mem [] =
      let retry = end_loop fuel mem mem [] in
      if bit_and seen gtf_in_use == 0
      then (if mem == seen then some (true, 0) else retry)
      else some (false, mem)
  end_loop (suc fuel) seen mem (w ∷ writes) =
      let retry = end_loop fuel w w writes in
      if bit_and seen gtf_in_use == 0
      then (if w == seen then some (true, 0) else retry)
      else some (false, mem)

  pub finish_end :
      GrantState Stack → (ref : ℕ) → Bool → (tag : ℕ) → Bool × ℕ → Option (Bool × GrantState Stack)
  finish_end s ref keepref tag (cleared, flags) =
      let s' = record s { table = update s.table ref (record (s.table ref) { flags = flags }) } in
      if cleared
      then (if keepref then some (true, s') else (put_ref s' ref tag >>= λ t. some (true, t)))
      else some (false, s')

  -- `GntTbl_EndAccess`, with fuel for its loop
  unfoldable pub end_access :
      ℕ
      → GrantState Stack
      → (ref : ℕ) → Bool
      → (tag : ℕ) → List ℕ
      → Option (Bool × GrantState Stack)
  end_access fuel s ref keepref tag writes = do
    xn_assert (not (ref == invalid_grant_ref))
    xn_assert ((s.tags ref).tag == tag)
    r ← end_loop fuel (s.table ref).flags (s.table ref).flags writes
    finish_end s ref keepref tag r

  push_range : Stack → (count i : ℕ) → Stack
  push_range ss zero i = ss
  push_range ss (suc n) i = push_range (push ss i) n (suc i)

  -- One hole in the address space for each frame from `i` on.
  pub make_holes : GrantState Stack → (count i : ℕ) → GrantState Stack
  make_holes s zero i = s
  make_holes s (suc n) i =
      make_holes (record s { calls = s.calls ++ decrease_reservation (s.mdl_pfn i) ∷ [] }) n (suc i)

  last_frame : ℕ → ℕ
  last_frame frames = (frames + 2 ^ 32 - 1) % 2 ^ 32

  -- `GntTbl_Init`; `frames` is what `query_max_frames` gives. The allocations succeed, as the
  -- code takes for granted.
  unfoldable pub init : GrantState Stack → ℕ → GrantState Stack
  unfolding make_holes push_range last_frame map_table
  init s0 frames =
      let n = grant_entries frames in
      let blank : GrantTag = record { generation = 0; tag = 0 } in
      let zeroed : GrantEntry = record { flags = 0; domid = 0; frame = 0 } in
      let s1 = record s0 {
        grant_frames = frames;
        tags = copy_prefix n (λ _. blank) s0.tags;
        generation = 0;
      } in
      let s2 = make_holes s1 (hole_rounds frames) 0 in
      let s3 = record s2 {
        ss = push_range (new n) (n - nr_reserved_entries) nr_reserved_entries;
      } in
      let s4 = map_table s3 0 (last_frame frames) in
      record s4 { table = copy_prefix (table_size frames) (λ _. zeroed) s4.table }

  -- Up to 128 references go into `hiber_grefs`, from index `i` on.
  pub take_hiber : (rounds i : ℕ) → GrantState Stack → Option (GrantState Stack)
  take_hiber zero i s = some s
  take_hiber (suc n) i s = get_ref s hibr >>= λ got.
      let s' = record got.1 { hiber_grefs = set got.1.hiber_grefs i got.0 } in
      let rest = take_hiber n (suc i) s' in if got.0 == invalid_grant_ref then some s' else rest

  -- The references of `hiber_grefs` from index `i` on go to the free list.
  pub put_hiber : (rounds i : ℕ) → GrantState Stack → Option (GrantState Stack)
  put_hiber zero i s = some s
  put_hiber (suc n) i s =
      let ref = get_or s.hiber_grefs i invalid_grant_ref in
      let rest = put_ref s ref hibr >>= λ s'. put_hiber n (suc i) s' in
      if ref == invalid_grant_ref then some s else rest

  set_aside : GrantState Stack → Option (GrantState Stack)
  unfolding take_hiber
  set_aside s = do
    t ←
        take_hiber hiber_gref_count 0
          (record s { hiber_grefs = replicate hiber_gref_count invalid_grant_ref })
    some (record t { ss_copy = some t.ss; ss = new hiber_gref_count })

  back_up : GrantState Stack → GrantState Stack
  back_up s = record s {
    table_copy = copy_prefix (table_size s.grant_frames) s.table s.table_copy;
    tags_copy = copy_prefix (grant_entries s.grant_frames) s.tags s.tags_copy;
  }

  -- `GntTbl_Suspend`; `low` says that the IRQL is at most DISPATCH_LEVEL.
  unfoldable pub suspend : Bool → GrantState Stack → Option (GrantState Stack)
  unfolding set_aside back_up put_hiber
  suspend low s0 =
      let s = record s0 { generation = (s0.generation + 1) % 2 ^ 32 } in
      if low
      then (set_aside s >>= λ t. put_hiber hiber_gref_count 0 (back_up t))
      else some (back_up (record s { ss_copy = none }))

  restore_refs : GrantState Stack → Option Stack → Option (GrantState Stack)
  restore_refs s none = some s
  restore_refs s (some saved) = put_hiber hiber_gref_count 0 (record s { ss = saved }) >>= λ t.
      some (record t { ss_copy = none })

  restore_tables : GrantState Stack → GrantState Stack
  restore_tables s = record s {
    table = copy_prefix (table_size s.grant_frames) s.table_copy s.table;
    tags = copy_prefix (grant_entries s.grant_frames) s.tags_copy s.tags;
  }

  -- `GntTbl_Resume`; `new_frames` is what `query_max_frames` gives.
  unfoldable pub resume : ℕ → GrantState Stack → Option (GrantState Stack)
  unfolding restore_refs restore_tables make_holes last_frame map_table put_hiber
  resume new_frames s =
      let s1 = make_holes s (hole_rounds s.grant_frames) 0 in
      xn_assert (leb s1.grant_frames new_frames)
      >> (let s2 = restore_tables (map_table s1 0 (last_frame s1.grant_frames)) in
          restore_refs s2 s2.ss_copy)
