-- ===== src/Watch/Moves.antt =====
-- Watches across suspend and resume, and after halt.
use mathlib.Core.List.{map}
use win_pvdrivers_mirror.Base.{
  ℕ, zero, suc, ◌≡◌, ap, sym, ◌∙◌, Bool, true, false, List, [], ◌∷◌, ◌++◌, append_assoc, append-nil,
  if◌then◌else◌,
}
use win_pvdrivers_mirror.Xenbus.{
  XbState, XbCall, WatchEntry, watch_path, unwatch_path, bind_event, unbind_event,
  max_watch_entries, log,
}
use win_pvdrivers_mirror.Watch.{rem_watches, add_watches, suspend, resume}

-- The active watches from slot `i` on: their paths and slots.
unfoldable pub active_from : (n i : ℕ) → (ℕ → WatchEntry) → List (List ℕ × ℕ)
active_from zero i w = []
active_from (suc n) i w =
    let rest = active_from n (suc i) w in if (w i).active then ((w i).path, i) ∷ rest else rest

abbrev pub unwatched : List ℕ × ℕ → XbCall
unwatched a = unwatch_path a.0 a.1

abbrev pub watched : List ℕ × ℕ → XbCall
watched a = watch_path a.0 a.1

rem_watches_lem :
    (n i : ℕ) (s : XbState)
    → rem_watches n i s ≡ record s { calls = s.calls ++ map unwatched (active_from n i s.watches) }
unfolding rem_watches active_from
rem_watches_lem zero i s = ap (λ c. record s { calls = c }) (sym (append-nil s.calls))
rem_watches_lem (suc n) i s = by_active (s.watches i).active (rem_watches_lem n (suc i))
  where
    by_active :
        (b : Bool)
        → ((t : XbState)
            → rem_watches n (suc i) t
              ≡ record t { calls = t.calls ++ map unwatched (active_from n (suc i) t.watches) })
        → rem_watches n (suc i) (if b then log s (unwatch_path (s.watches i).path i) else s)
          ≡ record s {
            calls =
                s.calls
                ++ map unwatched (
                    if b
                    then ((s.watches i).path, i) ∷ active_from n (suc i) s.watches
                    else active_from n (suc i) s.watches);
          }
    by_active true ih =
        ih (log s (unwatch_path (s.watches i).path i))
        ∙ ap (λ c. record s { calls = c })
            (append_assoc s.calls (unwatch_path (s.watches i).path i ∷ [])
              (map unwatched (active_from n (suc i) s.watches)))
    by_active false ih = ih s

add_watches_lem :
    (n i : ℕ) (s : XbState)
    → add_watches n i s ≡ record s { calls = s.calls ++ map watched (active_from n i s.watches) }
unfolding add_watches active_from
add_watches_lem zero i s = ap (λ c. record s { calls = c }) (sym (append-nil s.calls))
add_watches_lem (suc n) i s = by_active (s.watches i).active (add_watches_lem n (suc i))
  where
    by_active :
        (b : Bool)
        → ((t : XbState)
            → add_watches n (suc i) t
              ≡ record t { calls = t.calls ++ map watched (active_from n (suc i) t.watches) })
        → add_watches n (suc i) (if b then log s (watch_path (s.watches i).path i) else s)
          ≡ record s {
            calls =
                s.calls
                ++ map watched (
                    if b
                    then ((s.watches i).path, i) ∷ active_from n (suc i) s.watches
                    else active_from n (suc i) s.watches);
          }
    by_active true ih =
        ih (log s (watch_path (s.watches i).path i))
        ∙ ap (λ c. record s { calls = c })
            (append_assoc s.calls (watch_path (s.watches i).path i ∷ [])
              (map watched (active_from n (suc i) s.watches)))
    by_active false ih = ih s

-- `XenBus_Suspend` takes back every active watch in ascending order of the slots and then unbinds the
-- event; `XenBus_Resume` binds it and asks again for the same watches with the same paths and slots in
-- the same order. The table itself does not change.
pub suspend-resume_watches :
    (s : XbState)
    → let live = active_from max_watch_entries 0 s.watches in
      ((suspend s).calls ≡ s.calls ++ (map unwatched live ++ unbind_event ∷ []))
      × ((resume (suspend s)).calls ≡ (suspend s).calls ++ (bind_event ∷ map watched live))
      × ((resume (suspend s)).watches ≡ s.watches)
unfolding suspend resume
suspend-resume_watches s =
    let live = active_from max_watch_entries 0 s.watches in
    let off = rem_watches_lem max_watch_entries 0 s in
    let asleep : XbState = log (rem_watches max_watch_entries 0 s) unbind_event in
    let back = add_watches_lem max_watch_entries 0 (log asleep bind_event) in
    let table : asleep.watches ≡ s.watches = ap XbState.watches off in
    (
      ap (λ t. t.calls ++ unbind_event ∷ []) off
          ∙ append_assoc s.calls (map unwatched live) (unbind_event ∷ []),
      ap XbState.calls back
          ∙ append_assoc asleep.calls (bind_event ∷ [])
              (map watched (active_from max_watch_entries 0 asleep.watches))
          ∙ ap (λ w. asleep.calls ++ (bind_event ∷ map watched (active_from max_watch_entries 0 w)))
              table,
      ap XbState.watches back ∙ table,
    )
