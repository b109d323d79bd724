-- ===== src/Watch/Halt.antt =====
-- `XenBus_Halt`.
use native.Mathlib.Decide.{dec_lt}
use mathlib.Core.List.{map}
use win_pvdrivers_mirror.Base.{
  ℕ, zero, suc, ◌+◌, ◌<◌, ◌≤◌, ◌≡◌, refl, ap, ap₂, sym, ◌∙◌, Bool, true, false, List, [], ◌∷◌, ◌++◌,
  append_assoc, append-nil, if◌then◌else◌, arith, update, update_self, update_ne,
}
use win_pvdrivers_mirror.Xenbus.{
  XbState, XbCall, WatchEntry, unwatch_path, unbind_event, max_watch_entries, log,
}
use win_pvdrivers_mirror.Watch.{halt_watches, halt}
use win_pvdrivers_mirror.Watch.Moves.{active_from, unwatched}

active_from-ext :
    (n i : ℕ) (w w' : ℕ → WatchEntry)
    → ((j : ℕ) → i ≤ j → w j ≡ w' j)
    → active_from n i w ≡ active_from n i w'
unfolding active_from
active_from-ext zero i w w' h = refl
active_from-ext (suc n) i w w' h =
    ap₂ (λ (e : WatchEntry) (l : List (List ℕ × ℕ)). if e.active then (e.path, i) ∷ l else l)
      (h i (omega arith)) (active_from-ext n (suc i) w w' (λ j k. h j (omega arith)))

-- The slots from `i` on have been emptied.
pub record Halted (n i : ℕ) (s t : XbState) : Type 0 where
  pub off : (j : ℕ) → i ≤ j → j < i + n → (t.watches j).active ≡ false
  pub keep : (j : ℕ) → j < i → t.watches j ≡ s.watches j
  pub calls : t.calls ≡ s.calls ++ map unwatched (active_from n i s.watches)

halt_watches-Halted : (n i : ℕ) (s : XbState) → Halted n i s (halt_watches n i s)
unfolding halt_watches active_from
halt_watches-Halted zero i s = record {
  off = λ j h k. absurd (omega arith);
  keep = λ j h. refl;
  calls = sym (append-nil s.calls);
}
halt_watches-Halted (suc n) i s =
    by_active (s.watches i).active refl (halt_watches-Halted n (suc i))
  where
    here_eq : (j : ℕ) → i ≤ j → (i < j → ⊥) → i ≡ j
    here_eq j h k = omega arith

    rest_calls : Bool → List XbCall
    rest_calls b = map unwatched (
        if b
        then ((s.watches i).path, i) ∷ active_from n (suc i) s.watches
        else active_from n (suc i) s.watches)

    emptied : WatchEntry
    emptied = record (s.watches i) { active = false }

    off_state : XbState
    off_state = record s { watches = update s.watches i emptied }

    by_active :
        (b : Bool)
        → (s.watches i).active ≡ b
        → ((t : XbState) → Halted n (suc i) t (halt_watches n (suc i) t))
        → Halted (suc n) i s (
            halt_watches n
              (suc i)
              (if b then log off_state (unwatch_path (s.watches i).path i) else s))
    by_active true e ih =
        let r = ih (log off_state (unwatch_path (s.watches i).path i)) in
        record {
          off = λ j h k. elim (dec_lt i j) [
            | yes above ↦ r.off j above (omega arith)
            | no here ↦
                ap WatchEntry.active (r.keep j (omega arith))
                ∙ ap (λ q. (off_state.watches q).active) (sym (here_eq j h here))
                ∙ ap WatchEntry.active (update_self s.watches i emptied)
          ];
          keep = λ j h.
              r.keep j (omega arith) ∙ update_ne s.watches {i = i} {j = j} emptied (omega arith);
          calls =
              r.calls
              ∙ append_assoc s.calls (unwatch_path (s.watches i).path i ∷ [])
                  (map unwatched (active_from n (suc i) off_state.watches))
              ∙ ap (λ l. s.calls ++ (unwatch_path (s.watches i).path i ∷ map unwatched l))
                  (active_from-ext n (suc i) off_state.watches s.watches
                    (λ j k. update_ne s.watches {i = i} {j = j} emptied (omega arith)))
              ∙ sym (ap (λ b. s.calls ++ rest_calls b) e);
        }
    by_active false e ih =
        let r = ih s in
        record {
          off = λ j h k. elim (dec_lt i j) [
            | yes above ↦ r.off j above (omega arith)
            | no here ↦
                ap WatchEntry.active (r.keep j (omega arith))
                ∙ ap (λ q. (s.watches q).active) (sym (here_eq j h here))
                ∙ e
          ];
          keep = λ j h. r.keep j (omega arith);
          calls = r.calls ∙ sym (ap (λ b. s.calls ++ rest_calls b) e);
        }

-- After `XenBus_Halt` none of the 128 watches is active; xenstored has been asked to drop those that
-- were, in ascending order, and the event is unbound last.
pub halt-Halted :
    (s : XbState)
    → ((j : ℕ) → j < max_watch_entries → ((halt s).watches j).active ≡ false)
      × ((halt s).calls
          ≡ s.calls
            ++ (map unwatched (active_from max_watch_entries 0 s.watches) ++ unbind_event ∷ []))
unfolding halt
halt-Halted s =
    let r = halt_watches-Halted max_watch_entries 0 s in
    (
      λ j h. r.off j (omega arith) (omega arith),
      ap (λ l. l ++ unbind_event ∷ []) r.calls
          ∙ append_assoc s.calls (map unwatched (active_from max_watch_entries 0 s.watches))
              (unbind_event ∷ []),
    )
