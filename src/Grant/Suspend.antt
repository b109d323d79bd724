-- ===== src/Grant/Suspend.antt =====
-- `GntTbl_Suspend` on a hibernate: it goes through, and what it leaves.
use mathlib.Core.List.{reverse_aux, reverse}
use mathlib.Core.Option
use win_pvdrivers_mirror.Base.{
  ℕ, ◌+◌, ◌-◌, ◌%◌, ◌^◌, ◌<◌, ◌≤◌, ◌≡◌, refl, ap, sym, ◌∙◌, true, some, List, [], ◌++◌,
  if◌then◌else◌, copy_prefix, arith, length, take, drop, replicate, elem, All, All-of_elem,
  All-elem, elem-take, Distinct-take, length-take, length-take-le, Bool-cases, inl, inr,
}
use win_pvdrivers_mirror.Grant.{
  StackApi, GrantState, invalid_grant_ref, hibr, hiber_gref_count, grant_entries, table_size,
  set_aside, back_up, suspend,
}
use win_pvdrivers_mirror.Grant.Refs.{IsReady}
use win_pvdrivers_mirror.Grant.Hibernate.{
  marks, unmarks, tag-marks, tag-unmarks, aside, take_hiber_lem, put_hiber_lem,
}

module _ (lf : StackApi) where
  open lf use {Stack, new, contents, room, room-new, contents-new}

  -- The references that suspend takes.
  abbrev pub kept : GrantState Stack → List ℕ
  kept s = take hiber_gref_count (contents s.ss)

  abbrev pub suspended : GrantState Stack → (saved ss : Stack) → GrantState Stack
  suspended s saved ss =
      let g = (s.generation + 1) % 2 ^ 32 in
      let held = marks g s.tags (kept s) in
      record s {
        ss = ss;
        ss_copy = some saved;
        hiber_grefs =
            kept s ++ replicate (hiber_gref_count - length (contents s.ss)) invalid_grant_ref;
        table_copy = copy_prefix (table_size s.grant_frames) s.table s.table_copy;
        generation = g;
        tags = unmarks held (kept s);
        tags_copy = copy_prefix (grant_entries s.grant_frames) held s.tags_copy;
      }

  Marked-marks :
      (g : ℕ) (s : GrantState Stack)
      → IsReady lf s
      → All (λ r. ((marks g s.tags (kept s) r).tag ≡ hibr) × (r < invalid_grant_ref)) (kept s)
  Marked-marks g s v = All-of_elem (kept s) λ r e. (
    tag-marks g s.tags (kept s) r ∙ ap (λ b. if b then hibr else (s.tags r).tag) e,
    let low =
          All-elem _ (contents s.ss) r v.untagged
            (elem-take hiber_gref_count (contents s.ss) r e) in
        omega (arith, low.1),
  )

  -- The tags after the references were taken and put back.
  tags_back :
      (s : GrantState Stack)
      → IsReady lf s
      → (r : ℕ)
      → (unmarks (marks ((s.generation + 1) % 2 ^ 32) s.tags (kept s)) (kept s) r).tag
        ≡ (s.tags r).tag
  tags_back s v r =
      let g = (s.generation + 1) % 2 ^ 32 in
      tag-unmarks (marks g s.tags (kept s)) (kept s) r ∙ elim (Bool-cases (elem r (kept s))) [
        | inl e ↦
            ap (λ b. if b then 0 else (marks g s.tags (kept s) r).tag) e
            ∙ sym
                (All-elem _ (contents s.ss) r v.untagged
                  (elem-take hiber_gref_count (contents s.ss) r e)).0
        | inr e ↦
            ap (λ b. if b then 0 else (marks g s.tags (kept s) r).tag) e
            ∙ tag-marks g s.tags (kept s) r
            ∙ ap (λ b. if b then hibr else (s.tags r).tag) e
      ]

  pub suspend_run :
      (s : GrantState Stack)
      → IsReady lf s
      → (saved ss : Stack) × (suspend lf true s ≡ some (suspended s saved ss))
        × (contents saved ≡ drop hiber_gref_count (contents s.ss))
        × (length (kept s) ≤ room saved)
        × (contents ss ≡ reverse_aux (kept s) [])
  unfolding suspend set_aside back_up
  suspend_run s v =
      let xs = contents s.ss in
      let g = (s.generation + 1) % 2 ^ 32 in
      let s1 = record s {
        generation = g;
        hiber_grefs = replicate hiber_gref_count invalid_grant_ref;
      } in
      let (saved, run, below, more) =
        take_hiber_lem lf hiber_gref_count 0 (grant_entries s.grant_frames) s1 [] xs refl refl refl
          (omega arith) v.distinct v.untagged in
      let t = record (aside lf s1 [] xs hiber_gref_count saved) {
        ss_copy = some saved;
        ss = new hiber_gref_count;
      } in
      let (ss, back, c) =
        put_hiber_lem lf hiber_gref_count 0 (hiber_gref_count - length xs) (back_up lf t) []
          (kept s) refl refl (omega (arith, length-take hiber_gref_count xs))
          (omega (arith, room-new hiber_gref_count, length-take-le hiber_gref_count xs))
          (Distinct-take hiber_gref_count xs v.distinct) (Marked-marks g s v) in
      (
        saved,
        ss,
        rw run back,
        below,
        omega arith,
        c ∙ ap (reverse_aux (kept s)) (contents-new hiber_gref_count),
      )

  -- Below DISPATCH_LEVEL, with a free list that holds no reference twice and only untagged ones,
  -- suspend meets no failed assertion. It saves the free list less its first 128 references, which
  -- are untagged again and are the free list until resume.
  pub suspend-total :
      (s : GrantState Stack)
      → IsReady lf s
      → (t : GrantState Stack) × (suspend lf true s ≡ some t)
        × (contents t.ss ≡ reverse (take hiber_gref_count (contents s.ss)))
        × ((r : ℕ) → (t.tags r).tag ≡ (s.tags r).tag)
        × (Option.map contents t.ss_copy ≡ some (drop hiber_gref_count (contents s.ss)))
  suspend-total s v =
      let (saved, ss, run, below, more, c) = suspend_run s v in
      let held = marks ((s.generation + 1) % 2 ^ 32) s.tags (kept s) in
      (suspended s saved ss, run, c, (λ r. tags_back s v r), ap some below)
