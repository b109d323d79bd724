-- ===== src/Store/Token.antt =====
-- Watch events and the tokens that `XenBus_SendAddWatch` gave them.
use win_pvdrivers_mirror.Base.{
  ℕ, suc, ◌+◌, ◌%◌, ◌^◌, ◌<◌, ◌≤◌, ◌≡◌, ◌≢◌, ◌⊎◌, refl, ap, ap₂, sym, subst, ◌∙◌, inl, inr, Bool,
  true, false, not, List, [], ◌∷◌, ◌++◌, append_assoc, leb, le→leb, ◌==◌, ==_ne, if◌then◌else◌,
  arith, take, drop, length, update, update_self, update_ne,
}
use win_pvdrivers_mirror.Xenbus.{XbState, WatchEntry, call_watch, max_watch_entries}
use win_pvdrivers_mirror.Watch.{strlen, watch_fired}
use win_pvdrivers_mirror.Watch.Names.{NoZero, strlen-append, take-append, drop-append}
use win_pvdrivers_mirror.Store.{c_str, atoi, print_token, watch_item}
use win_pvdrivers_mirror.Store.Decimal.{atoi-print_token}

-- The body of the event for a path and the token of a slot.
abbrev pub event_body : List ℕ → ℕ → List ℕ
event_body path slot = c_str path ++ c_str (print_token slot)

watch_item-event_body :
    (s : XbState) (path : List ℕ) (slot : ℕ)
    → NoZero path
    → watch_item s (event_body path slot) ≡ watch_fired s path false slot
unfolding watch_item
watch_item-event_body s path slot h =
    let rest = c_str (print_token slot) in
    let run : ℕ → List ℕ → XbState = λ n bytes.
      let index = atoi (drop (n + 1) bytes) in watch_fired s (take n bytes) index.0 index.1 in
    ap (λ bytes. run (strlen bytes) bytes) (append_assoc path (0 ∷ []) rest)
    ∙ ap (λ n. run n (path ++ (0 ∷ rest))) (strlen-append path rest h)
    ∙ ap₂ (λ p tail. watch_fired s p (atoi tail).0 (atoi tail).1) (take-append path (0 ∷ rest))
        (ap (λ n. drop n (path ++ (0 ∷ rest))) (one_more (length path)) ∙ drop-append path rest)
    ∙ ap (λ (i : Bool × ℕ). watch_fired s path i.0 i.1) (atoi-print_token slot [])
  where
    one_more : (n : ℕ) → n + 1 ≡ suc n
    one_more n = omega arith

-- What a watch event does to the table and the log.
pub record Fired (s : XbState) (path : List ℕ) (slot : ℕ) (t : XbState) : Type 0 where
  pub called :
      t.calls ≡ s.calls ++ call_watch (s.watches slot).routine (s.watches slot).context path ∷ []
  pub own :
      t.watches slot ≡ record (s.watches slot) { count = ((s.watches slot).count + 1) % 2 ^ 32 }
  pub others : (j : ℕ) → j ≢ slot → t.watches j ≡ s.watches j

-- The entry counted and the state after the call.
abbrev counted : WatchEntry → WatchEntry
counted e = record e { count = (e.count + 1) % 2 ^ 32 }

abbrev fired : XbState → List ℕ → ℕ → XbState
fired s path slot = record s {
  watches = update s.watches slot (counted (s.watches slot));
  calls = s.calls ++ call_watch (s.watches slot).routine (s.watches slot).context path ∷ [];
}

watch_fired-Fired :
    (s : XbState) (path : List ℕ) (slot : ℕ)
    → slot < max_watch_entries
    → (s.watches slot).active ≡ true
    → (s.watches slot).routine ≢ 0
    → Fired s path slot (watch_fired s path false slot)
unfolding watch_fired
watch_fired-Fired s path slot h a r =
    subst (Fired s path slot)
      (sym (
        passes (leb max_watch_entries slot) (not (s.watches slot).active)
          ((s.watches slot).routine == 0) (fired s path slot) (past slot h) (ap not a) (==_ne r)))
      (record {
        called = refl;
        own = update_self s.watches slot (counted (s.watches slot));
        others = λ j ne.
            update_ne s.watches {i = slot} {j = j} (counted (s.watches slot)) (λ e. ne (sym e));
      })
  where
    past : (i : ℕ) → i < max_watch_entries → leb max_watch_entries i ≡ false
    past i h = ground arith

    passes :
        (a b c : Bool) (t : XbState)
        → a ≡ false
        → b ≡ false
        → c ≡ false
        → (if a then s else if b then s else if c then s else t) ≡ t
    passes false false false t e f g = refl
    passes true b c t e f g = absurd (cc)
    passes false true c t e f g = absurd (cc)
    passes false false true t e f g = absurd (cc)

-- The token that `XenBus_SendAddWatch` prints for a slot leads a watch event back to that slot: for
-- an active entry with a routine, the work item calls this routine once with the entry's context and
-- the path of the event, counts it, and changes no other entry.
pub watch_item-Fired :
    (s : XbState) (path : List ℕ) (slot : ℕ)
    → NoZero path
    → slot < max_watch_entries
    → (s.watches slot).active ≡ true
    → (s.watches slot).routine ≢ 0
    → Fired s path slot (watch_item s (event_body path slot))
watch_item-Fired s path slot z h a r =
    rw (watch_item-event_body s path slot z) (watch_fired-Fired s path slot h a r)

-- An event whose token is a number past the table, or that of an entry that is not active or has no
-- routine, changes nothing and calls nothing.
pub watch_item_ignored :
    (s : XbState) (path : List ℕ) (slot : ℕ)
    → NoZero path
    → (max_watch_entries ≤ slot)
      ⊎ (((s.watches slot).active ≡ false) ⊎ ((s.watches slot).routine ≡ 0))
    → watch_item s (event_body path slot) ≡ s
unfolding watch_fired
watch_item_ignored s path slot z why =
    watch_item-event_body s path slot z
    ∙ guarded (leb max_watch_entries slot) (not (s.watches slot).active)
        ((s.watches slot).routine == 0) (fired s path slot) (reasons why)
  where
    reasons :
        (max_watch_entries ≤ slot)
          ⊎ (((s.watches slot).active ≡ false) ⊎ ((s.watches slot).routine ≡ 0))
        → (leb max_watch_entries slot ≡ true)
          ⊎ ((not (s.watches slot).active ≡ true) ⊎ (((s.watches slot).routine == 0) ≡ true))
    reasons (inl h) = inl (le→leb max_watch_entries slot h)
    reasons (inr (inl e)) = inr (inl (ap not e))
    reasons (inr (inr e)) = inr (inr (ap (λ r. r == 0) e))

    guarded :
        (a b c : Bool) (t : XbState)
        → (a ≡ true) ⊎ ((b ≡ true) ⊎ (c ≡ true))
        → (if a then s else if b then s else if c then s else t) ≡ s
    guarded true b c t h = refl
    guarded false true c t h = refl
    guarded false false true t h = refl
    guarded false false false t (inl e) = absurd (cc)
    guarded false false false t (inr (inl e)) = absurd (cc)
    guarded false false false t (inr (inr e)) = absurd (cc)
