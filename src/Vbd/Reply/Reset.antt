-- ===== src/Vbd/Reply/Reset.antt =====
-- `XenVbd_ResetBus`: every SRB that is queued or in flight is handed back once.
use win_pvdrivers_mirror.Base.{
  ℕ, ◌+◌, ◌<◌, ◌≤◌, ◌≡◌, ◌⊎◌, inl, inr, refl, ap, ap₂, sym, ◌∙◌, subst, true, false, none, some,
  List, [], ◌∷◌, ◌++◌, ◌==◌, if◌then◌else◌, elem, Distinct, ==_iff, Bool-cases, arith,
}
use win_pvdrivers_mirror.Vbd.{
  Shadow, VbdState, VbdCall, complete, notify_backend, next_request, max_shadow_entries,
}
use win_pvdrivers_mirror.Vbd.Reply.{reset_shadows, reset_srb, reset_srbs, reset_bus}
use win_pvdrivers_mirror.Vbd.Reply.Frame.{completions, completions-append}
use win_pvdrivers_mirror.Vbd.Reply.Scan.{Scanned, reset_shadows-Scanned}

one_more :
    (id x : ℕ) (xs : List ℕ) (c n : ℕ)
    → elem x xs ≡ false
    → c ≡ n + ((if x == id then 1 else 0) + 0)
    → c + (if elem id xs then 1 else 0) ≡ n + (if elem id (x ∷ xs) then 1 else 0)
one_more id x xs c n out e = elim (Bool-cases (id == x)) [
  | inl same ↦
      let here : elem id xs ≡ false =
        subst (λ k. elem k xs ≡ false) (sym ((==_iff id x).0 same)) out in
      ground (arith, here)
  | inr other ↦ ground arith
]

-- Handing back a list of distinct SRBs.
record HandedBack (ids : List ℕ) (s t : VbdState) : Type 0 where
  shadows : t.shadows ≡ s.shadows
  queue : t.srb_list ≡ s.srb_list
  buffer : t.aligned_in_use ≡ s.aligned_in_use
  done : (id : ℕ) → completions id t.calls ≡ completions id s.calls + (if elem id ids then 1 else 0)

reset_srbs-HandedBack :
    (ids : List ℕ) (s : VbdState) → Distinct ids → HandedBack ids s (reset_srbs s ids)
unfolding reset_srbs reset_srb
reset_srbs-HandedBack [] s d = record {
  shadows = refl;
  queue = refl;
  buffer = refl;
  done = λ id. omega arith;
}
reset_srbs-HandedBack (x ∷ xs) s d =
    let rest = reset_srbs-HandedBack xs (reset_srb s x) d.1 in
    record {
      shadows = rest.shadows;
      queue = rest.queue;
      buffer = rest.buffer;
      done = λ id.
          rest.done id ∙ one_more id x xs _ _ d.0 (completions-append id s.calls (complete x ∷ []));
    }

-- The SRB is queued, or a shadow holds it.
abbrev pub InFlight : VbdState → ℕ → Type 0
InFlight s id =
    (elem id s.srb_list ≡ true)
    ⊎ ((j : ℕ) × (0 ≤ j) × (j < 0 + max_shadow_entries) × ((s.shadows j).srb ≡ some id))

-- What a reset leaves: nothing is queued or held by a shadow, a shadow that held an SRB is marked, and
-- every SRB that was queued or held has been completed once, and no other.
pub record WasReset (s t : VbdState) : Type 0 where
  pub queue : t.srb_list ≡ []
  pub buffer : t.aligned_in_use ≡ false
  pub empties : (j : ℕ) → j < max_shadow_entries → (t.shadows j).srb ≡ none
  pub marks :
      (j id : ℕ) → j < max_shadow_entries → (s.shadows j).srb ≡ some id → (t.shadows j).reset ≡ true
  pub completed : (id : ℕ) → InFlight s id → completions id t.calls ≡ completions id s.calls + 1
  pub untouched : (id : ℕ) → (InFlight s id → ⊥) → completions id t.calls ≡ completions id s.calls

-- For a queue that names no SRB twice, a bus reset leaves nothing queued and no SRB with a shadow, marks
-- every shadow that had one, frees the aligned buffer, and completes each SRB that was queued or in flight
-- exactly once, however many shadows it was split over, and no other SRB.
pub reset_bus-WasReset : (s : VbdState) → Distinct s.srb_list → WasReset s (reset_bus s)
unfolding reset_bus
reset_bus-WasReset s d =
    let s' : VbdState = record s { aligned_in_use = false; srb_list = [] } in
    let r = reset_shadows max_shadow_entries 0 s' s.srb_list in
    let scan = reset_shadows-Scanned max_shadow_entries 0 s' s.srb_list in
    let back = reset_srbs-HandedBack r.1 r.0 (scan.distinct d) in
    record {
      queue = back.queue ∙ scan.queue;
      buffer = back.buffer ∙ scan.buffer;
      empties = λ j l.
          ap (λ (f : ℕ → Shadow). (f j).srb) back.shadows
          ∙ scan.empties j (omega arith) (omega arith);
      marks = λ j id l held.
          ap (λ (f : ℕ → Shadow). (f j).reset) back.shadows
          ∙ scan.marks j id (omega arith) (omega arith) held;
      completed = λ id m.
          count id (reset_srbs r.0 r.1).calls
          ∙ back.done id
          ∙ ap₂ (λ cs b. completions id cs + (if b then 1 else 0)) scan.calls (found scan id m);
      untouched = λ id m.
          count id (reset_srbs r.0 r.1).calls
          ∙ back.done id
          ∙ ap₂ (λ cs b. completions id cs + (if b then 1 else 0)) scan.calls (missed scan id m)
          ∙ add_zero _;
    }
  where
    count :
        (id : ℕ) (cs : List VbdCall)
        → completions id ((cs ++ notify_backend ∷ []) ++ next_request ∷ []) ≡ completions id cs
    count id cs = omega (
      arith,
      completions-append id (cs ++ notify_backend ∷ []) (next_request ∷ []),
      completions-append id cs (notify_backend ∷ []),
    )

    add_zero : (n : ℕ) → n + 0 ≡ n
    add_zero n = omega arith

    found :
        {r : VbdState × List ℕ}
        → Scanned 0 max_shadow_entries
            (record s { aligned_in_use = false; srb_list = [] })
            s.srb_list
            r
        → (id : ℕ) → InFlight s id
        → elem id r.1 ≡ true
    found scan id (inl h) = scan.keeps id h
    found scan id (inr (j, l, h, held)) = scan.finds j id l h held

    missed :
        {r : VbdState × List ℕ}
        → Scanned 0 max_shadow_entries
            (record s { aligned_in_use = false; srb_list = [] })
            s.srb_list
            r
        → (id : ℕ) → (InFlight s id → ⊥)
        → elem id r.1 ≡ false
    missed {r} scan id m = elim (Bool-cases (elem id r.1)) [
      | inl h ↦ absurd (m (scan.only id h))
      | inr h ↦ h
    ]
