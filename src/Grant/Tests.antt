-- ===== src/Grant/Tests.antt =====
-- Runs of the grant table on a stack that is a list and a count of free elements.
use win_pvdrivers_mirror.Base.{
  ℕ, suc, ◌+◌, ◌-◌, ◌≤◌, ◌≡◌, ◌≢◌, refl, ap, Bool, true, false, Option, none, some, List, [], ◌∷◌,
  ltb, lt→ltb, ◌==◌, if◌then◌else◌, arith,
}
use win_pvdrivers_mirror.Grant.{
  StackApi, GrantState, invalid_grant_ref, grant_access, end_access, resume, query_max_frames,
}
use win_pvdrivers_mirror.Grant.Refs.{IsReady}
use win_pvdrivers_mirror.Grant.Access.{Ended, granted_entry, end_access-Ended, grant-end}
use win_pvdrivers_mirror.Grant.Suspend.{suspend-total}
use win_pvdrivers_mirror.Grant.Resume.{IsRestored, suspend-resume}

record Counted : Type 0 where
  entries : List ℕ
  free : ℕ

abbrev push_counted : Counted → ℕ → Counted
push_counted s x = record {
  entries = if ltb 0 s.free then x ∷ s.entries else s.entries;
  free = s.free - 1;
}

abbrev pop_entries : List ℕ → ℕ → Option (ℕ × Counted)
pop_entries [] n = none
pop_entries (x ∷ xs) n = some (x, record { entries = xs; free = suc n })

popped :
    (ys : List ℕ) (n x : ℕ) (xs : List ℕ)
    → ys ≡ x ∷ xs
    → (t : Counted) × (pop_entries ys n ≡ some (x, t)) × (t.entries ≡ xs) × (n + 1 ≤ t.free)
popped [] n x xs e = absurd (cc)
popped (y ∷ ys) n x xs e = (
  record { entries = ys; free = suc n },
  ap (λ k. some (k, record { entries = ys; free = suc n })) (cc),
  cc,
  omega arith,
)

abbrev counted : StackApi
counted = record {
  Stack = Counted;
  new = λ n. record { entries = []; free = n };
  push = push_counted;
  pop = λ s. pop_entries s.entries s.free;
  contents = Counted.entries;
  room = Counted.free;
  contents-new = λ n. refl;
  room-new = λ n. omega arith;
  contents-push = λ s x h. rw (lt→ltb 0 s.free h);
  room-push = λ s x. omega arith;
  pop-nil = λ s e. rw e;
  pop-cons = λ s. popped s.entries s.free;
}

-- Four free references, of which 9 is on top.
abbrev small : GrantState Counted
small = record {
  ss = record { entries = 9 ∷ 10 ∷ 11 ∷ 8 ∷ []; free = 3 };
  ss_copy = none;
  hiber_grefs = [];
  mdl_pfn = λ i. 100 + i;
  table = λ _. record { flags = 0; domid = 0; frame = 0 };
  table_copy = λ _. record { flags = 7; domid = 7; frame = 7 };
  generation = 5;
  tags = λ r. record { generation = 0; tag = if r == 12 then 77 else 0 };
  tags_copy = λ _. record { generation = 7; tag = 7 };
  grant_frames = 1;
  calls = [];
}

small-IsReady : IsReady counted small
small-IsReady = record {
  distinct = (refl, (refl, (refl, (refl, tt))));
  untagged = (
    (refl, omega arith),
    ((refl, omega arith), ((refl, omega arith), ((refl, omega arith), tt))),
  );
}

-- A failed hypercall, a bad status and an answer.
frames_asked :
    (query_max_frames true 0 32 ≡ 4)
    × (query_max_frames false 1 32 ≡ 4)
    × (query_max_frames false 0 32 ≡ 32)
unfolding query_max_frames
frames_asked = (refl, refl, refl)

-- The other domain starts to read, then stops.
end_access-Ended_example :
    (b : Bool) × (t : GrantState Counted) × (end_access counted 3 small 12 true 77 (9 ∷ 1 ∷ [])
      ≡ some (b, t))
    × Ended counted small 12 true (9 ∷ 1 ∷ []) b t
end_access-Ended_example =
    end_access-Ended counted 3 small 12 true 77 (9 ∷ 1 ∷ []) (omega arith) refl (omega arith)

grant-end_example :
    (t u : GrantState Counted) × (grant_access counted small 2 33 1 invalid_grant_ref 77
      ≡ some (9, t))
    × (t.table 9 ≡ granted_entry counted 2 33 1)
    × ((r : ℕ) → r ≢ 9 → t.table r ≡ small.table r)
    × (t.ss.entries ≡ 10 ∷ 11 ∷ 8 ∷ [])
    × (end_access counted 1 t 9 false 77 [] ≡ some (true, u))
    × (u.ss.entries ≡ small.ss.entries)
    × ((u.table 9).flags ≡ 0)
    × IsReady counted u
grant-end_example =
    grant-end counted small 2 33 1 77 9 (10 ∷ 11 ∷ 8 ∷ []) small-IsReady refl refl (omega arith)
      (omega arith)

-- The state of a suspended driver, and the same after the new host has wiped its tables.
abbrev slept : GrantState Counted
slept = (suspend-total counted small small-IsReady).0

abbrev wiped : GrantState Counted
wiped = record slept {
  table = λ _. record { flags = 0; domid = 0; frame = 0 };
  tags = λ _. record { generation = 0; tag = 3 };
  generation = 9;
}

suspend-resume_example :
    (u : GrantState Counted) × (resume counted 4 wiped ≡ some u) × IsRestored counted small u
suspend-resume_example =
    suspend-resume counted small slept wiped 4 small-IsReady
      (suspend-total counted small small-IsReady).1
      (record {
        ss_copy = refl;
        hiber_grefs = refl;
        table_copy = refl;
        tags_copy = refl;
        grant_frames = refl;
      })
      (omega arith)
