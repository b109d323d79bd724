-- ===== src/Vbd/Reply/Frame.antt =====
-- What the steps of a response leave alone, and how often they complete an SRB.
use win_pvdrivers_mirror.Base.{
  ℕ, ◌+◌, ◌≡◌, ◌≢◌, refl, ap, ◌∙◌, subst, Bool, true, false, List, [], ◌∷◌, ◌++◌, ◌==◌,
  if◌then◌else◌, update, update_self, update_ne, append-nil, arith,
}
use win_pvdrivers_mirror.Vbd.{Sense, Srb, Segment, VbdCall, VbdState, complete}
use win_pvdrivers_mirror.Vbd.Reply.{ended}

-- How often an SRB is handed back to the port driver.
abbrev pub is_completion : ℕ → VbdCall → ℕ
is_completion id (complete srb) = if srb == id then 1 else 0
is_completion id _ = 0

abbrev pub completions : ℕ → List VbdCall → ℕ
completions id [] = 0
completions id (c ∷ cs) = is_completion id c + completions id cs

pub completions-append :
    (id : ℕ) (xs ys : List VbdCall)
    → completions id (xs ++ ys) ≡ completions id xs + completions id ys
completions-append id [] ys = omega arith
completions-append id (x ∷ xs) ys = omega (arith, completions-append id xs ys)

pub completions-ended : (id : ℕ) (segs : List Segment) → completions id (ended segs) ≡ 0
completions-ended id [] = refl
completions-ended id (s ∷ segs) = omega (arith, completions-ended id segs)

-- From `s` to `t` the SRB `id` is completed `n` times, and nothing changes of the pool of shadows, of the
-- queue and the ring, of the other SRBs and of how far this one has come.
pub record Touches (id n : ℕ) (s t : VbdState) : Type 0 where
  pub shadows : t.shadows ≡ s.shadows
  pub free_list : t.free_list ≡ s.free_list
  pub shadow_free : t.shadow_free ≡ s.shadow_free
  pub queue : t.srb_list ≡ s.srb_list
  pub ring : t.ring ≡ s.ring
  pub others : (j : ℕ) → id ≢ j → t.srbs j ≡ s.srbs j
  pub outstanding : (t.srbs id).outstanding ≡ (s.srbs id).outstanding
  pub offset : (t.srbs id).offset ≡ (s.srbs id).offset
  pub length : (t.srbs id).length ≡ (s.srbs id).length
  pub autosense : (t.srbs id).disable_autosense ≡ (s.srbs id).disable_autosense
  pub cac : (s.srbs id).disable_autosense ≡ false → s.cac ≡ false → t.cac ≡ false
  pub done : (j : ℕ) → completions j t.calls ≡ completions j s.calls + (if id == j then n else 0)

pub Touches-refl : {id : ℕ} {s : VbdState} → Touches id 0 s s
Touches-refl {id} = record {
  shadows = refl;
  free_list = refl;
  shadow_free = refl;
  queue = refl;
  ring = refl;
  others = λ j ne. refl;
  outstanding = refl;
  offset = refl;
  length = refl;
  autosense = refl;
  cac = λ d c. c;
  done = λ j. nothing (id == j);
}
  where
    nothing : {c : ℕ} (b : Bool) → c ≡ c + (if b then 0 else 0)
    nothing true = omega arith
    nothing false = omega arith

pub Touches-trans :
    {id n m : ℕ} {s t u : VbdState} → Touches id n s t → Touches id m t u → Touches id (n + m) s u
Touches-trans {id} {n} {m} a b = record {
  shadows = b.shadows ∙ a.shadows;
  free_list = b.free_list ∙ a.free_list;
  shadow_free = b.shadow_free ∙ a.shadow_free;
  queue = b.queue ∙ a.queue;
  ring = b.ring ∙ a.ring;
  others = λ j ne. b.others j ne ∙ a.others j ne;
  outstanding = b.outstanding ∙ a.outstanding;
  offset = b.offset ∙ a.offset;
  length = b.length ∙ a.length;
  autosense = b.autosense ∙ a.autosense;
  cac = λ d c. b.cac (a.autosense ∙ d) (a.cac d c);
  done = λ j. both _ _ _ (id == j) (a.done j) (b.done j);
}
  where
    both :
        (x y z : ℕ) (b : Bool)
        → y ≡ x + (if b then n else 0)
        → z ≡ y + (if b then m else 0)
        → z ≡ x + (if b then n + m else 0)
    both x y z true e f = omega arith
    both x y z false e f = omega arith

pub Touches-if :
    {id n : ℕ} {s t u : VbdState} (b : Bool)
    → Touches id n s t
    → Touches id n s u
    → Touches id n s (if b then t else u)
Touches-if true t u = t
Touches-if false t u = u

pub Touches-split :
    {id n : ℕ} {s t u : VbdState} (b : Bool)
    → (b ≡ true → Touches id n s t)
    → Touches id n s u
    → Touches id n s (if b then t else u)
Touches-split true t u = t refl
Touches-split false t u = u

-- A step that changes one SRB at most, keeping its place, and the calls by some that complete nothing.
pub quiet-Touches :
    (s : VbdState) (id : ℕ) (srb : Srb) (sense : Sense) (cac : Bool) (cs : List VbdCall)
    → srb.outstanding ≡ (s.srbs id).outstanding
    → srb.offset ≡ (s.srbs id).offset
    → srb.length ≡ (s.srbs id).length
    → srb.disable_autosense ≡ (s.srbs id).disable_autosense
    → ((s.srbs id).disable_autosense ≡ false → s.cac ≡ false → cac ≡ false)
    → ((j : ℕ) → completions j cs ≡ 0)
    → Touches id 0 s (record s {
      srbs = update s.srbs id srb;
      last_sense = sense;
      cac = cac;
      calls = s.calls ++ cs;
    })
quiet-Touches s id srb sense cac cs o f l d c quiet = record {
  shadows = refl;
  free_list = refl;
  shadow_free = refl;
  queue = refl;
  ring = refl;
  others = λ j ne. update_ne s.srbs srb ne;
  outstanding = ap (λ (b : Srb). b.outstanding) (update_self s.srbs id srb) ∙ o;
  offset = ap (λ (b : Srb). b.offset) (update_self s.srbs id srb) ∙ f;
  length = ap (λ (b : Srb). b.length) (update_self s.srbs id srb) ∙ l;
  autosense = ap (λ (b : Srb). b.disable_autosense) (update_self s.srbs id srb) ∙ d;
  cac = c;
  done = λ j. nothing _ _ _ (id == j) (completions-append j s.calls cs) (quiet j);
}
  where
    nothing : (c n m : ℕ) (b : Bool) → m ≡ c + n → n ≡ 0 → m ≡ c + (if b then 0 else 0)
    nothing c n m true e f = omega arith
    nothing c n m false e f = omega arith

pub log-Touches :
    (s : VbdState) (id : ℕ) (in_use : Bool) (sense : Sense) (cac : Bool) (cs : List VbdCall)
    → (s.cac ≡ false → cac ≡ false)
    → ((j : ℕ) → completions j cs ≡ 0)
    → Touches id 0 s
        (record s { aligned_in_use = in_use; last_sense = sense; cac = cac; calls = s.calls ++ cs })
log-Touches s id in_use sense cac cs keep quiet = record {
  shadows = refl;
  free_list = refl;
  shadow_free = refl;
  queue = refl;
  ring = refl;
  others = λ j ne. refl;
  outstanding = refl;
  offset = refl;
  length = refl;
  autosense = refl;
  cac = λ d. keep;
  done = λ j. nothing _ _ _ (id == j) (completions-append j s.calls cs) (quiet j);
}
  where
    nothing : (c n m : ℕ) (b : Bool) → m ≡ c + n → n ≡ 0 → m ≡ c + (if b then 0 else 0)
    nothing c n m true e f = omega arith
    nothing c n m false e f = omega arith

pub set_srb-Touches :
    (s : VbdState) (id : ℕ) (srb : Srb) (cac : Bool)
    → srb.outstanding ≡ (s.srbs id).outstanding
    → srb.offset ≡ (s.srbs id).offset
    → srb.length ≡ (s.srbs id).length
    → srb.disable_autosense ≡ (s.srbs id).disable_autosense
    → ((s.srbs id).disable_autosense ≡ false → s.cac ≡ false → cac ≡ false)
    → Touches id 0 s (record s { srbs = update s.srbs id srb; cac = cac })
set_srb-Touches s id srb cac o f l d c =
    subst (λ cs. Touches id 0 s (record s { srbs = update s.srbs id srb; cac = cac; calls = cs }))
      (append-nil s.calls) (quiet-Touches s id srb s.last_sense cac [] o f l d c λ j. refl)
