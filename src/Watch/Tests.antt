-- ===== src/Watch/Tests.antt =====
-- Runs of the watch table.
use mathlib.Core.List.{map}
use win_pvdrivers_mirror.Base.{
  ℕ, ◌<◌, ◌≡◌, refl, false, ◌||◌, Option, none, some, List, [], ◌∷◌, ◌++◌, ◌==◌, if◌then◌else◌,
  arith,
}
use win_pvdrivers_mirror.Xenbus.{XbState, bind_event, unbind_event, max_watch_entries}
use win_pvdrivers_mirror.Watch.{
  list_names, add_watch, suspend, resume, halt, count_zeros, split_names, strlen,
}
use win_pvdrivers_mirror.Watch.Names.{terminated, list_names-terminated}
use win_pvdrivers_mirror.Watch.Table.{Added, add_watch-Added}
use win_pvdrivers_mirror.Watch.Moves.{active_from, unwatched, watched, suspend-resume_watches}
use win_pvdrivers_mirror.Watch.Halt.{halt-Halted}

-- "a", the empty name and "bc"
abbrev three_names : List (List ℕ)
three_names = (97 ∷ []) ∷ [] ∷ (98 ∷ 99 ∷ []) ∷ []

-- Watches in the slots 0 and 2.
abbrev watching : XbState
watching = record {
  req = λ _. 0;
  rsp = λ _. 0;
  req_prod = 0;
  rsp_cons = 0;
  xb_msg = none;
  xb_reply = none;
  watches = λ i. record {
    path = if i == 0 then 97 ∷ [] else 98 ∷ [];
    routine = 5;
    context = i;
    count = 0;
    active = (i == 0) || (i == 2);
  };
  calls = [];
}

names_split : list_names (97 ∷ 0 ∷ 0 ∷ 98 ∷ 99 ∷ 0 ∷ 100 ∷ []) ≡ three_names
unfolding list_names count_zeros split_names strlen
names_split = refl

list_names-terminated_example : list_names (terminated three_names ++ (100 ∷ [])) ≡ three_names
list_names-terminated_example =
    list_names-terminated three_names (100 ∷ [])
      ((omega arith, tt), (tt, ((omega arith, (omega arith, tt)), tt))) (omega arith, tt)

-- Slot 1 is taken.
add_watch-Added_example :
    (msg : Option (List ℕ)) × (t : XbState) × (add_watch watching (99 ∷ []) 7 8 none
      ≡ some (msg, t))
    × Added watching (99 ∷ []) 7 8 none msg t
add_watch-Added_example = add_watch-Added watching (99 ∷ []) 7 8 none (omega arith)

suspend-resume_watches_example :
    let live = active_from max_watch_entries 0 watching.watches in
    ((suspend watching).calls ≡ [] ++ (map unwatched live ++ unbind_event ∷ []))
    × ((resume (suspend watching)).calls
        ≡ (suspend watching).calls ++ (bind_event ∷ map watched live))
    × ((resume (suspend watching)).watches ≡ watching.watches)
suspend-resume_watches_example = suspend-resume_watches watching

halt-Halted_example :
    ((j : ℕ) → j < max_watch_entries → ((halt watching).watches j).active ≡ false)
    × ((halt watching).calls
        ≡ []
          ++ (map unwatched (active_from max_watch_entries 0 watching.watches)
              ++ unbind_event ∷ []))
halt-Halted_example = halt-Halted watching
