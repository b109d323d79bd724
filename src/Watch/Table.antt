-- ===== src/Watch/Table.antt =====
-- `XenBus_AddWatch` on the table.
use native.Mathlib.Decide.{dec_lt}
use win_pvdrivers_mirror.Base.{
  ℕ, zero, suc, ◌+◌, ◌<◌, ◌≤◌, ◌≡◌, ◌≢◌, refl, ap, sym, ◌∙◌, inl, inr, true, false, Option, none,
  some, List, [], ◌∷◌, ◌++◌, lt→ltb, ◌==◌, ==_ne, arith, update, update_self, update_ne, length,
  Bool-cases,
}
use win_pvdrivers_mirror.Xenbus.{
  XbState, WatchEntry, watch_path, max_watch_entries, watch_path_size,
}
use win_pvdrivers_mirror.Watch.{first_free, place_watch, add_watch}

-- The search ends at the lowest slot that is free, or behind the last.
record Found (n i : ℕ) (w : ℕ → WatchEntry) (k : ℕ) : Type 0 where
  low : i ≤ k
  high : k ≤ i + n
  free : k < i + n → (w k).active ≡ false
  used : (j : ℕ) → i ≤ j → j < k → (w j).active ≡ true

first_free-Found : (n i : ℕ) (w : ℕ → WatchEntry) → Found n i w (first_free n i w)
unfolding first_free
first_free-Found zero i w = record {
  low = omega arith;
  high = omega arith;
  free = λ h. absurd (omega arith);
  used = λ j h k. absurd (omega arith);
}
first_free-Found (suc n) i w = elim (Bool-cases (w i).active) [
  | inl taken ↦
      let r = first_free-Found n (suc i) w in
      rw taken (record {
        low = omega (arith, r.low);
        high = omega (arith, r.high);
        free = λ h. r.free (omega arith);
        used = λ j h k. elim (dec_lt i j) [
          | yes above ↦ r.used j above k
          | no here ↦ ap (λ q. (w q).active) (sym (same j h here)) ∙ taken
        ];
      })
  | inr free ↦ rw free (record {
    low = omega arith;
    high = omega arith;
    free = λ h. free;
    used = λ j h k. absurd (omega arith);
  })
]
  where
    same : (j : ℕ) → i ≤ j → (i < j → ⊥) → i ≡ j
    same j h k = omega arith

abbrev pub entry_for : (path : List ℕ) (routine context : ℕ) → WatchEntry
entry_for path routine context = record {
  path = path;
  routine = routine;
  context = context;
  count = 0;
  active = true;
}

-- What `XenBus_AddWatch` does.
pub data Added (s : XbState) (path : List ℕ) (routine context : ℕ) (answer : Option (List ℕ))
    : Option (List ℕ) → XbState → Type 0 where
  no_slot :
      ((j : ℕ) → j < max_watch_entries → (s.watches j).active ≡ true)
      → Added s path routine context answer none s
  added :
      {t : XbState} (i : ℕ)
      → i < max_watch_entries
      → (s.watches i).active ≡ false
      → ((j : ℕ) → j < i → (s.watches j).active ≡ true)
      → answer ≡ none
      → t.watches i ≡ entry_for path routine context
      → ((j : ℕ) → j ≢ i → t.watches j ≡ s.watches j)
      → t.calls ≡ s.calls ++ watch_path path i ∷ []
      → Added s path routine context answer none t
  refused :
      {t : XbState} (i : ℕ) (msg : List ℕ)
      → (s.watches i).active ≡ false
      → answer ≡ some msg
      → (t.watches i).active ≡ false
      → ((j : ℕ) → j ≢ i → t.watches j ≡ s.watches j)
      → t.calls ≡ s.calls ++ watch_path path i ∷ []
      → Added s path routine context answer (some msg) t

placed :
    (i : ℕ) (s : XbState) (path : List ℕ) (routine context : ℕ) (answer : Option (List ℕ))
    → i < max_watch_entries
    → (s.watches i).active ≡ false
    → ((j : ℕ) → j < i → (s.watches j).active ≡ true)
    → let out = place_watch i s path routine context answer in
      Added s path routine context answer out.0 out.1
unfolding place_watch
placed i s path routine context none h free used =
    added i h free used refl (update_self s.watches i (entry_for path routine context))
      (λ j ne.
        update_ne s.watches {i = i} {j = j} (entry_for path routine context) (λ e. ne (sym e)))
      refl
placed i s path routine context (some msg) h free used =
    let w = update s.watches i (entry_for path routine context) in
    let off : WatchEntry = record (w i) { active = false } in
    refused i msg free refl (ap WatchEntry.active (update_self w i off))
      (λ j ne.
        update_ne w {i = i} {j = j} off (λ e. ne (sym e))
        ∙ update_ne s.watches {i = i} {j = j} (entry_for path routine context) (λ e. ne (sym e)))
      refl

-- `XenBus_AddWatch` of a path of less than 128 bytes meets no failed assertion. It takes the lowest
-- free slot, leaves all others alone and asks xenstored for the watch with that slot's number; when
-- xenstored refuses, it returns the error and the slot is free again. With no free slot it does
-- nothing at all and returns NULL, as it does on success.
pub add_watch-Added :
    (s : XbState) (path : List ℕ) (routine context : ℕ) (answer : Option (List ℕ))
    → length path < watch_path_size
    → (msg : Option (List ℕ)) × (t : XbState) × (add_watch s path routine context answer
        ≡ some (msg, t))
      × Added s path routine context answer msg t
unfolding add_watch
add_watch-Added s path routine context answer h =
    let k = first_free max_watch_entries 0 s.watches in
    let f = first_free-Found max_watch_entries 0 s.watches in
    let short = lt→ltb (length path) watch_path_size h in
    elim (dec_lt k max_watch_entries) [
      | no full ↦ (
        none,
        s,
        rw (short, at_end k f.high full),
        no_slot λ j q. f.used j (omega arith) (omega (arith, full)),
      )
      | yes fits ↦
          let out = place_watch k s path routine context answer in
          (
            out.0,
            out.1,
            rw (short, ==_ne (below k fits)),
            placed k s path routine context answer fits (f.free (omega arith))
                (λ j q. f.used j (omega arith) q),
          )
    ]
  where
    at_end :
        (k : ℕ)
        → k ≤ 0 + max_watch_entries
        → (k < max_watch_entries → ⊥)
        → (k == max_watch_entries) ≡ true
    at_end k h no_room = ground arith

    below : (k : ℕ) → k < max_watch_entries → k ≢ max_watch_entries
    below k h = omega arith
