-- ===== src/Grant/Access.antt =====
-- Access to a page is granted and ended: the entry in the table, and the exchange on its flags.
use win_pvdrivers_mirror.Base.{
  ℕ, zero, suc, ◌*◌, ◌%◌, ◌^◌, ◌<◌, ◌≤◌, ◌≡◌, refl, ◌≢◌, ap, sym, subst, ◌∙◌, inl, inr, bit_and,
  bit_or, Bool, true, false, some, List, [], ◌∷◌, ◌==◌, if◌then◌else◌, update, arith, Bool-cases,
  ==_self, ==_ne, length, elem, update_self, update_ne, not, eq_of_some,
}
use win_pvdrivers_mirror.Grant.{
  StackApi, GrantEntry, GrantTag, GrantState, invalid_grant_ref, grant_entries, gtf_in_use,
  gtf_permit_access, gtf_readonly, fill_entry, grant_access, end_loop, finish_end, end_access,
}
use win_pvdrivers_mirror.Grant.Refs.{
  IsReady, taken, freed, get_ref-cons, put_ref-freed, put_ref-IsReady, Ready-taken, Untagged,
}

-- A flags word with a bit of `GTF_reading | GTF_writing`.
abbrev pub in_use : ℕ → Bool
in_use flags = not (bit_and flags gtf_in_use == 0)

module _ (lf : StackApi) where
  open lf use {Stack, contents, room, contents-push}

  -- How the exchange can end, with the values that the hypervisor stored along the way.
  pub data LoopEnd (values : List ℕ) : Bool × ℕ → Type 0 where
    cleared : (m : ℕ) → elem m values ≡ true → in_use m ≡ false → LoopEnd values (true, 0)
    refused : (m : ℕ) → elem m values ≡ true → in_use m ≡ true → LoopEnd values (false, m)

  LoopEnd-cons :
      {m : ℕ} {values : List ℕ} {r : Bool × ℕ} → LoopEnd values r → LoopEnd (m ∷ values) r
  LoopEnd-cons {m} {values} (cleared k i f) = cleared k (ground arith) f
  LoopEnd-cons {m} {values} (refused k i f) = refused k (ground arith) f

  -- With a round for each store and one more, the exchange ends: it clears a word that no bit
  -- marks in use, or leaves one that is.
  pub end_loop-LoopEnd :
      (fuel mem : ℕ) (writes : List ℕ)
      → length writes < fuel
      → (r : Bool × ℕ) × (end_loop lf fuel mem mem writes ≡ some r) × LoopEnd (mem ∷ writes) r
  unfolding end_loop
  end_loop-LoopEnd zero mem writes h = absurd (omega arith)
  end_loop-LoopEnd (suc fuel) mem [] h = elim (Bool-cases (bit_and mem gtf_in_use == 0)) [
    | inl idle ↦ ((true, 0), rw (idle, ==_self mem), cleared mem (ground arith) (ap not idle))
    | inr busy ↦ ((false, mem), rw busy, refused mem (ground arith) (ap not busy))
  ]
  end_loop-LoopEnd (suc fuel) mem (w ∷ writes) h = elim (Bool-cases (bit_and mem gtf_in_use == 0)) [
    | inl idle ↦ elim (Bool-cases (w == mem)) [
      | inl same ↦ ((true, 0), rw (idle, same), cleared mem (ground arith) (ap not idle))
      | inr other ↦
          let (r, run, e) = end_loop-LoopEnd fuel w writes (omega arith) in
          (r, rw (idle, other) run, LoopEnd-cons e)
    ]
    | inr busy ↦ ((false, mem), rw busy, refused mem (ground arith) (ap not busy))
  ]

  -- The flags word of one entry is stored.
  abbrev pub flagged : GrantState Stack → ℕ → ℕ → GrantState Stack
  flagged s ref flags = record s {
    table = update s.table ref (record (s.table ref) { flags = flags });
  }

  -- The two outcomes of `GntTbl_EndAccess`: the entry was idle and is cleared, and the reference
  -- freed unless the caller keeps it, or the hypervisor uses the page and only its own store is
  -- seen.
  pub data Ended (s : GrantState Stack) (ref : ℕ) (keepref : Bool) (writes : List ℕ)
      : Bool → GrantState Stack → Type 0 where
    revoked :
        (m : ℕ)
        → elem m ((s.table ref).flags ∷ writes) ≡ true
        → in_use m ≡ false
        → Ended s ref keepref writes true
            (if keepref then flagged s ref 0 else freed lf (flagged s ref 0) ref)
    busy :
        (m : ℕ)
        → elem m ((s.table ref).flags ∷ writes) ≡ true
        → in_use m ≡ true
        → Ended s ref keepref writes false (flagged s ref m)

  finish_end_lem :
      (s : GrantState Stack) (ref tag : ℕ) (keepref : Bool) (writes : List ℕ) (r : Bool × ℕ)
      → (s.tags ref).tag ≡ tag
      → LoopEnd ((s.table ref).flags ∷ writes) r
      → (b : Bool) × (t : GrantState Stack) × (finish_end lf s ref keepref tag r ≡ some (b, t))
        × Ended s ref keepref writes b t
  unfolding finish_end
  finish_end_lem s ref tag true writes r e (cleared m i f) =
      (true, flagged s ref 0, refl, revoked m i f)
  finish_end_lem s ref tag false writes r e (cleared m i f) = (
    true,
    freed lf (flagged s ref 0) ref,
    rw (put_ref-freed lf (flagged s ref 0) ref tag e),
    revoked m i f,
  )
  finish_end_lem s ref tag keepref writes r e (refused m i f) =
      (false, flagged s ref m, refl, busy m i f)

  -- `GntTbl_EndAccess` of a reference that carries the caller's tag ends whatever the hypervisor
  -- stores in between, with a round for each of these stores and one more. It revokes the grant
  -- only by replacing a flags word that shows no use, and otherwise returns FALSE and frees nothing.
  pub end_access-Ended :
      (fuel : ℕ) (s : GrantState Stack) (ref : ℕ) (keepref : Bool) (tag : ℕ) (writes : List ℕ)
      → ref ≢ invalid_grant_ref
      → (s.tags ref).tag ≡ tag
      → length writes < fuel
      → (b : Bool) × (t : GrantState Stack) × (end_access lf fuel s ref keepref tag writes
          ≡ some (b, t))
        × Ended s ref keepref writes b t
  unfolding end_access
  end_access-Ended fuel s ref keepref tag writes valid e h =
      let (r, run, how) = end_loop-LoopEnd fuel (s.table ref).flags writes h in
      let (b, t, fin, ended) = finish_end_lem s ref tag keepref writes r e how in
      (b, t, rw (==_ne valid, e, ==_self tag, run) fin, ended)

  -- The entry that `GntTbl_GrantAccess` writes.
  abbrev pub granted_entry : (domid frame readonly : ℕ) → GrantEntry
  granted_entry domid frame readonly = record {
    flags = bit_or gtf_permit_access (readonly * gtf_readonly % 2 ^ 16);
    domid = domid;
    frame = frame;
  }

  fill_entry_lem :
      (s : GrantState Stack) (domid frame readonly ref tag : ℕ)
      → (s.tags ref).tag ≡ tag
      → (s.table ref).flags ≡ 0
      → fill_entry lf s domid frame readonly ref tag
        ≡ some (ref, record s { table = update s.table ref (granted_entry domid frame readonly) })
  unfolding fill_entry
  fill_entry_lem s domid frame readonly ref tag e f = rw (e, ==_self tag, f)

  end_idle :
      (s : GrantState Stack) (ref tag : ℕ)
      → ref ≢ invalid_grant_ref
      → (s.tags ref).tag ≡ tag
      → (bit_and (s.table ref).flags gtf_in_use == 0) ≡ true
      → end_access lf 1 s ref false tag [] ≡ some (true, freed lf (flagged s ref 0) ref)
  unfolding end_access end_loop finish_end
  end_idle s ref tag valid e idle = rw (
    ==_ne valid,
    e,
    ==_self tag,
    idle,
    ==_self (s.table ref).flags,
    put_ref-freed lf (flagged s ref 0) ref tag e,
  )

  idle_granted :
      (domid frame readonly : ℕ)
      → readonly ≤ 1
      → (bit_and (granted_entry domid frame readonly).flags gtf_in_use == 0) ≡ true
  idle_granted domid frame zero h = refl
  idle_granted domid frame (suc zero) h = refl
  idle_granted domid frame (suc (suc n)) h = absurd (omega arith)

  -- With an unused entry on top of the free list, `GntTbl_GrantAccess` of INVALID_GRANT_REF takes
  -- that reference and publishes the frame in its entry alone; when the hypervisor has not used it,
  -- `GntTbl_EndAccess` then clears the entry and gives the free list back as it was.
  pub grant-end :
      (s : GrantState Stack) (domid frame readonly tag x : ℕ) (xs : List ℕ)
      → IsReady lf s
      → contents s.ss ≡ x ∷ xs
      → (s.table x).flags ≡ 0
      → readonly ≤ 1
      → tag ≢ 0
      → (t u : GrantState Stack) × (grant_access lf s domid frame readonly invalid_grant_ref tag
          ≡ some (x, t))
        × (t.table x ≡ granted_entry domid frame readonly)
        × ((r : ℕ) → r ≢ x → t.table r ≡ s.table r)
        × (contents t.ss ≡ xs)
        × (end_access lf 1 t x false tag [] ≡ some (true, u))
        × (contents u.ss ≡ contents s.ss)
        × ((u.table x).flags ≡ 0)
        × IsReady lf u
  unfolding grant_access
  grant-end s domid frame readonly tag x xs v c f ro ne =
      let n = grant_entries s.grant_frames in
      let u : Untagged n s.tags (x ∷ xs) = subst (Untagged n s.tags) c v.untagged in
      let low : x < n = u.0.1 in
      let valid : x ≢ invalid_grant_ref = omega arith in
      let (ss, got, below, more) = get_ref-cons lf s tag x xs c u.0.0 in
      let s1 = taken lf s x tag ss in
      let entry = granted_entry domid frame readonly in
      let t = record s1 { table = update s1.table x entry } in
      let tagged : (s1.tags x).tag ≡ tag =
        ap GrantTag.tag (update_self s.tags x (record { generation = s.generation; tag = tag })) in
      let stored : t.table x ≡ entry = update_self s1.table x entry in
      let idle : (bit_and (t.table x).flags gtf_in_use == 0) ≡ true =
        ap (λ (e : GrantEntry). bit_and e.flags gtf_in_use == 0) stored
        ∙ idle_granted domid frame readonly ro in
      let ready : IsReady lf (flagged t x 0) =
        let r = Ready-taken lf s tag x xs ss v c below in
        record { distinct = r.distinct; untagged = r.untagged } in
      let space : 0 < room ss = omega arith in
      let (z, put, top, v') = put_ref-IsReady lf (flagged t x 0) x tag ready tagged ne low space in
      let same : z ≡ freed lf (flagged t x 0) x =
        eq_of_some (sym put ∙ put_ref-freed lf (flagged t x 0) x tag tagged) in
      (
        t,
        freed lf (flagged t x 0) x,
        rw (got, ==_ne valid) (fill_entry_lem s1 domid frame readonly x tag tagged f),
        stored,
        (λ r ne'. update_ne s.table {i = x} {j = r} entry (λ e. ne' (sym e))),
        below,
        end_idle t x tag valid tagged idle,
        contents-push ss x space ∙ ap (◌∷◌ x) below ∙ sym c,
        ap GrantEntry.flags (update_self t.table x (record (t.table x) { flags = 0 })),
        subst (IsReady lf) same v',
      )
