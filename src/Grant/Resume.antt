-- ===== src/Grant/Resume.antt =====
-- `GntTbl_Resume` after `GntTbl_Suspend` gives back the free list, the table and the tags.
use mathlib.Core.List.{reverse_aux, Perm}
use mathlib.Core.List.Permᴰ
use win_pvdrivers_mirror.Base.{
  ℕ, zero, suc, ◌+◌, ◌-◌, ◌%◌, ◌^◌, ◌<◌, ◌≤◌, ◌≡◌, refl, ap, sym, ◌∙◌, subst, true, some, List, [],
  ◌∷◌, ◌++◌, if◌then◌else◌, leb, copy_prefix, copy_prefix_lt, ◌>>◌, xn_assert, arith, length, take,
  drop, replicate, elem, All-of_elem, All-elem, elem-take, Distinct-take, length-take,
  take-append-drop, Option, none, Bool-cases, inl, inr, eq_of_some,
}
use win_pvdrivers_mirror.Grant.{
  StackApi, GrantTag, GrantCall, add_to_physmap, decrease_reservation, GrantState,
  invalid_grant_ref, hibr, hiber_gref_count, grant_entries, table_size, hole_rounds, suspend,
  restore_refs, restore_tables, resume, map_table, make_holes, last_frame, map_table, map_frames,
}
use win_pvdrivers_mirror.Grant.Hibernate.{
  marks, unmarks, tag-marks, tag-unmarks, Marked, returned, put_hiber_lem,
}
use win_pvdrivers_mirror.Grant.Refs.{IsReady}
use win_pvdrivers_mirror.Grant.Suspend.{kept, suspended, suspend_run}

module _ (lf : StackApi) where
  open lf use {Stack, contents, room}

  -- The hypercalls change the log alone.
  make_holes-calls :
      (n i : ℕ) (s : GrantState Stack)
      → make_holes lf s n i ≡ record s { calls = (make_holes lf s n i).calls }
  unfolding make_holes
  make_holes-calls zero i s = refl
  make_holes-calls (suc n) i s =
      make_holes-calls n (suc i)
        (record s { calls = s.calls ++ decrease_reservation (s.mdl_pfn i) ∷ [] })

  map_table-calls :
      (n i : ℕ) (s : GrantState Stack)
      → map_frames lf s n i ≡ record s { calls = (map_frames lf s n i).calls }
  unfolding map_frames
  map_table-calls zero i s = refl
  map_table-calls (suc n) i s =
      map_table-calls n (i - 1)
        (record s { calls = s.calls ++ add_to_physmap i (s.mdl_pfn i) ∷ [] })

  -- Between suspend and resume the driver may do anything but touch what resume reads back.
  pub record Asleep (t t' : GrantState Stack) : Type 0 where
    pub ss_copy : t'.ss_copy ≡ t.ss_copy
    pub hiber_grefs : t'.hiber_grefs ≡ t.hiber_grefs
    pub table_copy : t'.table_copy ≡ t.table_copy
    pub tags_copy : t'.tags_copy ≡ t.tags_copy
    pub grant_frames : t'.grant_frames ≡ t.grant_frames

  -- What resume gives back of a state before suspend: the table, the owner of each reference, and
  -- the free list up to order.
  pub record IsRestored (s u : GrantState Stack) : Type 0 where
    pub free : Perm (contents u.ss) (contents s.ss)
    pub table : (r : ℕ) → r < table_size s.grant_frames → u.table r ≡ s.table r
    pub tags : (r : ℕ) → r < grant_entries s.grant_frames → (u.tags r).tag ≡ (s.tags r).tag
    pub single_list : u.ss_copy ≡ none

  resume_refs :
      (t : GrantState Stack) (new_frames : ℕ) (saved : Stack)
      → t.grant_frames ≤ new_frames
      → t.ss_copy ≡ some saved
      → (calls : List GrantCall) × (resume lf new_frames t
          ≡ restore_refs lf (restore_tables lf (record t { calls = calls })) (some saved))
  unfolding resume
  resume_refs t new_frames saved h e =
      let last = last_frame lf t.grant_frames in
      let tail : GrantState Stack → Option (GrantState Stack) =
        λ x. let s2 = restore_tables lf x in restore_refs lf s2 s2.ss_copy in
      let whole : GrantState Stack → Option (GrantState Stack) = λ x.
        xn_assert (leb x.grant_frames new_frames)
        >> tail (map_table lf x 0 (last_frame lf x.grant_frames)) in
      let holes = (make_holes lf t (hole_rounds t.grant_frames) 0).calls in
      let t1 = record t { calls = holes } in
      let enough : leb t.grant_frames new_frames ≡ true = ground arith in
      let maps = (map_frames lf t1 (last - 0) last).calls in
      (
        maps,
        ap whole (make_holes-calls (hole_rounds t.grant_frames) 0 t)
            ∙ ap (λ b. xn_assert b >> tail (map_table lf t1 0 last)) enough
            ∙ ap tail (map_table-calls (last - 0) last t1)
            ∙ ap (restore_refs lf (restore_tables lf (record t { calls = maps }))) e,
      )

  module _ (s t : GrantState Stack) (g : ℕ) (v : IsReady lf s)
      (ef : t.grant_frames ≡ s.grant_frames)
      (et : t.table_copy ≡ copy_prefix (table_size s.grant_frames) s.table s.table_copy)
      (eg : t.tags_copy
        ≡ copy_prefix (grant_entries s.grant_frames) (marks g s.tags (kept lf s)) s.tags_copy) where
    restored_tag :
        (r : ℕ)
        → r < grant_entries s.grant_frames
        → ((restore_tables lf t).tags r).tag ≡ (if elem r (kept lf s) then hibr else (s.tags r).tag)
    unfolding restore_tables
    restored_tag r h =
        ap GrantTag.tag (
          copy_prefix_lt (grant_entries t.grant_frames) t.tags_copy t.tags r
            (subst (λ n. r < grant_entries n) (sym ef) h)
          ∙ ap (λ f. f r) eg
          ∙ copy_prefix_lt (grant_entries s.grant_frames) (marks g s.tags (kept lf s)) s.tags_copy r
              h)
        ∙ tag-marks g s.tags (kept lf s) r

    restored_entry :
        (r : ℕ) → r < table_size s.grant_frames → (restore_tables lf t).table r ≡ s.table r
    unfolding restore_tables
    restored_entry r h =
        copy_prefix_lt (table_size t.grant_frames) t.table_copy t.table r
          (subst (λ n. r < table_size n) (sym ef) h)
        ∙ ap (λ f. f r) et
        ∙ copy_prefix_lt (table_size s.grant_frames) s.table s.table_copy r h

    kept_low :
        (r : ℕ)
        → elem r (kept lf s) ≡ true
        → ((s.tags r).tag ≡ 0) × (r < grant_entries s.grant_frames)
    kept_low r e =
        All-elem _ (contents s.ss) r v.untagged (elem-take hiber_gref_count (contents s.ss) r e)

    Marked-restored : Marked (restore_tables lf t).tags (kept lf s)
    Marked-restored = All-of_elem (kept lf s) λ r e. (
      restored_tag r (kept_low r e).1 ∙ ap (λ b. if b then hibr else (s.tags r).tag) e,
      omega (arith, (kept_low r e).1),
    )

    given_back :
        (r : ℕ)
        → r < grant_entries s.grant_frames
        → (unmarks (restore_tables lf t).tags (kept lf s) r).tag ≡ (s.tags r).tag
    given_back r h = elim (Bool-cases (elem r (kept lf s))) [
      | inl e ↦
          tag-unmarks (restore_tables lf t).tags (kept lf s) r
          ∙ ap (λ b. if b then 0 else ((restore_tables lf t).tags r).tag) e
          ∙ sym (kept_low r e).0
      | inr e ↦
          tag-unmarks (restore_tables lf t).tags (kept lf s) r
          ∙ ap (λ b. if b then 0 else ((restore_tables lf t).tags r).tag) e
          ∙ restored_tag r h
          ∙ ap (λ b. if b then hibr else (s.tags r).tag) e
    ]

  free-Perm :
      (xs : List ℕ) (n : ℕ) (ys : List ℕ) → ys ≡ reverse_aux (take n xs) (drop n xs) → Perm ys xs
  free-Perm xs n ys e =
      let p : Perm (reverse_aux (take n xs) (drop n xs)) (take n xs ++ drop n xs) =
        ∣ Permᴰ.reverse_aux (take n xs) (drop n xs) ∣₁ in
      rw e (rw (take-append-drop n xs) at p)

  -- Resume from a state in which the tables and the references of `s` were set aside.
  resume_run :
      (s t : GrantState Stack) (new_frames g : ℕ) (saved : Stack)
      → IsReady lf s
      → t.grant_frames ≡ s.grant_frames
      → t.grant_frames ≤ new_frames
      → t.ss_copy ≡ some saved
      → t.hiber_grefs
        ≡ kept lf s ++ replicate (hiber_gref_count - length (contents s.ss)) invalid_grant_ref
      → t.table_copy ≡ copy_prefix (table_size s.grant_frames) s.table s.table_copy
      → t.tags_copy
        ≡ copy_prefix (grant_entries s.grant_frames) (marks g s.tags (kept lf s)) s.tags_copy
      → contents saved ≡ drop hiber_gref_count (contents s.ss)
      → length (kept lf s) ≤ room saved
      → (u : GrantState Stack) × (resume lf new_frames t ≡ some u) × IsRestored s u
  unfolding restore_refs restore_tables
  resume_run s t new_frames g saved v ef en es eh et eg below more =
      let (calls, e) = resume_refs t new_frames saved en es in
      let x = record (restore_tables lf (record t { calls = calls })) { ss = saved } in
      let (ss, run, c) =
        put_hiber_lem lf hiber_gref_count 0 (hiber_gref_count - length (contents s.ss)) x []
          (kept lf s) eh refl (omega (arith, length-take hiber_gref_count (contents s.ss))) more
          (Distinct-take hiber_gref_count (contents s.ss) v.distinct)
          (Marked-restored s (record t { calls = calls }) g v ef et eg) in
      (
        record (returned lf x (kept lf s) ss) { ss_copy = none },
        e ∙ rw run,
        record {
          free =
              free-Perm (contents s.ss) hiber_gref_count (contents ss)
                (c ∙ ap (reverse_aux (kept lf s)) below);
          table = restored_entry s (record t { calls = calls }) g v ef et eg;
          tags = given_back s (record t { calls = calls }) g v ef et eg;
          single_list = refl;
        },
      )

  -- Resume after a suspend of `s` below DISPATCH_LEVEL, whatever happened between them to the hiber
  -- free list, the table and the tags, meets no failed assertion and restores `s`, if the
  -- hypervisor still gives as many frames.
  pub suspend-resume :
      (s t t' : GrantState Stack) (new_frames : ℕ)
      → IsReady lf s
      → suspend lf true s ≡ some t
      → Asleep t t'
      → s.grant_frames ≤ new_frames
      → (u : GrantState Stack) × (resume lf new_frames t' ≡ some u) × IsRestored s u
  suspend-resume s t t' new_frames v h a n =
      let (saved, ss, run, below, more, _) = suspend_run lf s v in
      let e : t ≡ suspended lf s saved ss = eq_of_some (sym h ∙ run) in
      let frames : t'.grant_frames ≡ s.grant_frames =
        a.grant_frames ∙ ap GrantState.grant_frames e in
      resume_run s t' new_frames ((s.generation + 1) % 2 ^ 32) saved v frames
        (subst (λ k. k ≤ new_frames) (sym frames) n) (a.ss_copy ∙ ap GrantState.ss_copy e)
        (a.hiber_grefs ∙ ap GrantState.hiber_grefs e) (a.table_copy ∙ ap GrantState.table_copy e)
        (a.tags_copy ∙ ap GrantState.tags_copy e) below more
