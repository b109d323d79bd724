-- ===== src/Watch.antt =====
-- The watch table of xenpci/xenbus.c, and what it makes of replies. A path is its bytes without the
-- terminating NUL. What xenstored answers to a request is an argument: `none`, or an error message.
pub mod Names
pub mod Table
pub mod Moves
pub mod Halt
mod Tests
use win_pvdrivers_mirror.Base.{
  ℕ, zero, suc, ◌+◌, ◌%◌, ◌^◌, Bool, true, false, not, ◌&&◌, Option, none, some, List, [], ◌∷◌, ltb,
  leb, ◌==◌, if◌then◌else◌, update, take, drop, length, ◌>>◌, xn_assert,
}
use win_pvdrivers_mirror.Xenbus.{
  XbMsg, XbState, XbCall, WatchEntry, watch_path, unwatch_path, call_watch, bind_event,
  unbind_event, log, sizeof_sockmsg, max_watch_entries, watch_path_size, xs_error,
}

-- The bytes behind the header.
abbrev pub body : XbMsg → List ℕ
body m = drop sizeof_sockmsg m.raw

-- "No reply" and "EAGAIN"
abbrev pub no_reply : List ℕ
no_reply = 78 ∷ 111 ∷ 32 ∷ 114 ∷ 101 ∷ 112 ∷ 108 ∷ 121 ∷ []

abbrev pub eagain : List ℕ
eagain = 69 ∷ 65 ∷ 71 ∷ 65 ∷ 73 ∷ 78 ∷ []

-- `errmsg`
pub errmsg : Option XbMsg → Option (List ℕ)
errmsg none = some no_reply
errmsg (some m) = if m.header.type == xs_error then some (body m) else none

pub strlen : List ℕ → ℕ
strlen [] = 0
strlen (x ∷ xs) = if x == 0 then 0 else suc (strlen xs)

-- `strcmp(a, b) == 0`
pub str_eq : List ℕ → List ℕ → Bool
str_eq [] [] = true
str_eq (x ∷ xs) (y ∷ ys) = (x == y) && str_eq xs ys
str_eq _ _ = false

-- The result of `XenBus_EndTransaction`, the error and `*retry`, from the reply.
pub end_transaction : Option XbMsg → Option (List ℕ) × Bool
end_transaction reply = elim (errmsg reply) [
  | none ↦ (none, false)
  | some err ↦ if str_eq (take (strlen err) err) eagain then (none, true) else (some err, false)
]

-- The number of bytes that are 0.
pub count_zeros : List ℕ → ℕ
count_zeros [] = 0
count_zeros (x ∷ xs) = if x == 0 then suc (count_zeros xs) else count_zeros xs

-- The second loop of `XenBus_List`, for `n` elements. Each is a string up to its NUL.
pub split_names : ℕ → List ℕ → List (List ℕ)
split_names zero bytes = []
split_names (suc n) bytes =
    take (strlen bytes) bytes ∷ split_names n (drop (strlen bytes + 1) bytes)

-- What `XenBus_List` stores in `*contents` from the body of a reply.
pub list_names : List ℕ → List (List ℕ)
list_names bytes = split_names (count_zeros bytes) bytes

-- The first slot from `i` on that is not active; past the `n` slots if there is none.
pub first_free : (n i : ℕ) → (ℕ → WatchEntry) → ℕ
first_free zero i w = i
first_free (suc n) i w = let rest = first_free n (suc i) w in if (w i).active then rest else i

-- The entry `i` is filled and the watch asked for; a refusal frees the entry again.
pub place_watch :
    (i : ℕ)
    → XbState
    → (path : List ℕ) (routine context : ℕ) → Option (List ℕ)
    → Option (List ℕ) × XbState
place_watch i s path routine context answer =
    let entry : WatchEntry = record {
      path = path;
      routine = routine;
      context = context;
      count = 0;
      active = true;
    } in
    let s1 = log (record s { watches = update s.watches i entry }) (watch_path path i) in
    let s2 = record s1 {
      watches = update s1.watches i (record (s1.watches i) { active = false });
    } in
    elim answer [ none ↦ (none, s1) | some msg ↦ (some msg, s2) ]

-- `XenBus_AddWatch`: the error it returns, `none` for NULL, and the state.
pub add_watch :
    XbState
    → (path : List ℕ) (routine context : ℕ) → Option (List ℕ)
    → Option (Option (List ℕ) × XbState)
add_watch s path routine context answer =
    let i = first_free max_watch_entries 0 s.watches in
    xn_assert (ltb (length path) watch_path_size)
    >> (if i == max_watch_entries
        then some (none, s)
        else some (place_watch i s path routine context answer))

abbrev pub matches : WatchEntry → List ℕ → ℕ → ℕ → Bool
matches e path routine context =
    e.active && (str_eq e.path path && ((e.routine == routine) && (e.context == context)))

pub first_match : (n i : ℕ) → (ℕ → WatchEntry) → List ℕ → ℕ → ℕ → ℕ
first_match zero i w path routine context = i
first_match (suc n) i w path routine context =
    let rest = first_match n (suc i) w path routine context in
    if matches (w i) path routine context then i else rest

-- `XenBus_RemWatch`
pub rem_watch :
    XbState → (path : List ℕ) (routine context : ℕ) → Option (List ℕ) → Option (List ℕ) × XbState
rem_watch s path routine context answer =
    let i = first_match max_watch_entries 0 s.watches path routine context in
    let gone : WatchEntry = record (s.watches i) { active = false; path = [] } in
    if i == max_watch_entries
    then (none, s)
    else (answer, log (record s { watches = update s.watches i gone }) (unwatch_path path i))

-- `XenBus_WatchWorkItemProc` for the path and the number in the token of a watch event.
unfoldable pub watch_fired : XbState → (path : List ℕ) (negative : Bool) (index : ℕ) → XbState
watch_fired s path negative index =
    let entry = s.watches index in
    let s1 = record s {
      watches = update s.watches index (record entry { count = (entry.count + 1) % 2 ^ 32 });
    } in
    if negative
    then s
    else if leb max_watch_entries index
    then s
    else if not entry.active
    then s
    else if entry.routine == 0
    then s
    else log s1 (call_watch entry.routine entry.context path)

-- The loop of `XenBus_Suspend`, that of `XenBus_Resume` and that of `XenBus_Halt`.
pub rem_watches : (n i : ℕ) → XbState → XbState
rem_watches zero i s = s
rem_watches (suc n) i s =
    rem_watches n (suc i)
      (if (s.watches i).active then log s (unwatch_path (s.watches i).path i) else s)

pub add_watches : (n i : ℕ) → XbState → XbState
add_watches zero i s = s
add_watches (suc n) i s =
    add_watches n (suc i)
      (if (s.watches i).active then log s (watch_path (s.watches i).path i) else s)

pub halt_watches : (n i : ℕ) → XbState → XbState
halt_watches zero i s = s
halt_watches (suc n) i s =
    let off = record s { watches = update s.watches i (record (s.watches i) { active = false }) } in
    halt_watches n (suc i)
      (if (s.watches i).active then log off (unwatch_path (s.watches i).path i) else s)

-- `XenBus_Suspend`, `XenBus_Resume` and `XenBus_Halt`
pub suspend : XbState → XbState
suspend s = log (rem_watches max_watch_entries 0 s) unbind_event

pub resume : XbState → XbState
resume s = add_watches max_watch_entries 0 (log s bind_event)

pub halt : XbState → XbState
halt s = log (halt_watches max_watch_entries 0 s) unbind_event
