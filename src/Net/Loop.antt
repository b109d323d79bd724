-- ===== src/Net/Loop.antt =====
-- The loop of `XenNet_BuildHeader` ends, with the header as long as asked for where the buffers are
-- mapped and hold as much.
use win_pvdrivers_mirror.Net.{Mdl, Cursor}
use win_pvdrivers_mirror.Net.Header.{
  next_mdl, copy_size, copy_mdl, step_past, copy_round, go_on, loop_body, copy_loop,
}
use win_pvdrivers_mirror.Net.Gather.{Mapped, IsCut, at, copy_mdl-IsCut, next_mdl-IsCut}
use win_pvdrivers_mirror.Base.{
  ℕ, zero, suc, ◌+◌, ◌-◌, ◌%◌, ◌^◌, ◌≤◌, ◌<◌, ◌≡◌, ◌≢◌, refl, ap, sym, subst, ◌∙◌, inl, inr, min,
  Bool, true, false, Option, none, some, List, [], ◌∷◌, ◌==◌, ==_iff, ==_ne, ne-of_==,
  if◌then◌else◌, length, drop, All, Bool-cases, drop-nil, drop_empty, arith,
}

-- What the loop gives when `n` bytes are asked for behind a header of `hl`.
pub record Copied (packet : List ℕ) (n hl : ℕ) (ms : List Mdl) (r : Bool × Cursor) : Type 0 where
  pub cut : IsCut packet r.1
  pub exact : r.0 ≡ true → r.1.header_length ≡ hl + n
  pub least : hl ≤ r.1.header_length
  pub most : r.1.header_length ≤ hl + n
  pub complete : All Mapped ms → hl + n ≤ length packet → r.0 ≡ true
  pub mapped : All Mapped ms → All Mapped r.1.mdls

-- A round that is done hands over to the next.
loop_body_next :
    (rest : ℕ → Cursor → Option (Bool × Cursor)) (m : Mdl) (ms : List Mdl) {n : ℕ} (c : Cursor)
    {d : Cursor}
    → n ≢ 0
    → copy_round m n c ≡ some d
    → loop_body rest (m ∷ ms) n c ≡ rest (n - copy_size m n c) d
unfolding loop_body go_on
loop_body_next rest m ms {n} c ne e =
    ap (λ b. if b then some (true, c) else go_on rest (n - copy_size m n c) c (copy_round m n c))
      (==_ne ne)
    ∙ ap (go_on rest (n - copy_size m n c) c) e

loop_body_zero :
    (rest : ℕ → Cursor → Option (Bool × Cursor)) (m : Mdl) (ms : List Mdl) {n : ℕ} (c : Cursor)
    → n ≡ 0
    → loop_body rest (m ∷ ms) n c ≡ some (true, c)
unfolding loop_body
loop_body_zero rest m ms {n} c e =
    ap (λ b. if b then some (true, c) else go_on rest (n - copy_size m n c) c (copy_round m n c))
      ((==_iff n 0).1 e)

loop_body_failed :
    (rest : ℕ → Cursor → Option (Bool × Cursor)) (m : Mdl) (ms : List Mdl) {n : ℕ} (c : Cursor)
    → n ≢ 0
    → copy_round m n c ≡ none
    → loop_body rest (m ∷ ms) n c ≡ some (false, c)
unfolding loop_body go_on
loop_body_failed rest m ms {n} c ne e =
    ap (λ b. if b then some (true, c) else go_on rest (n - copy_size m n c) c (copy_round m n c))
      (==_ne ne)
    ∙ ap (go_on rest (n - copy_size m n c) c) e

-- Nothing is left to copy.
pub copy_loop_done : (fuel : ℕ) (c : Cursor) → 0 < fuel → copy_loop fuel 0 c ≡ some (true, c)
unfolding copy_loop loop_body
copy_loop_done zero c l = absurd (omega arith)
copy_loop_done (suc fuel) c l = body c.mdls
  where
    body : (ms : List Mdl) → loop_body (copy_loop fuel) ms 0 c ≡ some (true, c)
    body [] = refl
    body (m ∷ ms) = refl

step_past_used : (m : Mdl) (c : Cursor) → c.offset ≡ length m.bytes → step_past m c ≡ next_mdl c
step_past_used m c e = ap (λ b. if b then next_mdl c else c) ((==_iff _ _).1 e)

step_past_not : (m : Mdl) (c : Cursor) → c.offset ≢ length m.bytes → step_past m c ≡ c
step_past_not m c e = ap (λ b. if b then next_mdl c else c) (==_ne e)

copy_round_empty :
    (m : Mdl) (n : ℕ) (c : Cursor) → length m.bytes ≡ 0 → copy_round m n c ≡ some (step_past m c)
unfolding copy_round
copy_round_empty m n c e =
    ap
      (λ b.
        if b
        then some (step_past m c)
        else (if m.mapped then some (step_past m (copy_mdl m (copy_size m n c) c)) else none))
      ((==_iff _ _).1 e)

copy_round_full :
    (m : Mdl) (n : ℕ) (c : Cursor)
    → length m.bytes ≢ 0
    → copy_round m n c
      ≡ (if m.mapped then some (step_past m (copy_mdl m (copy_size m n c) c)) else none)
unfolding copy_round
copy_round_full m n c e =
    ap
      (λ b.
        if b
        then some (step_past m c)
        else (if m.mapped then some (step_past m (copy_mdl m (copy_size m n c) c)) else none))
      (==_ne e)

-- The rounds that are left, when `k` bytes were copied first.
after_copy :
    {packet : List ℕ} {n k hl : ℕ} {m : Mdl} {ms ns : List Mdl} {r : Bool × Cursor}
    → k ≤ n
    → (All Mapped (m ∷ ms) → All Mapped ns)
    → Copied packet (n - k) (hl + k) ns r
    → Copied packet n hl (m ∷ ms) r
after_copy l sub c = record {
  cut = c.cut;
  exact = λ e. omega (arith, c.exact e);
  least = omega (arith, c.least);
  most = omega (arith, c.most);
  complete = λ a b. c.complete (sub a) (omega arith);
  mapped = λ a. c.mapped (sub a);
}

abbrev Result : List ℕ → Option (Bool × Cursor) → (n hl : ℕ) → List Mdl → Type 0
Result packet run n hl ms = (r : Bool × Cursor) × (run ≡ some r) × Copied packet n hl ms r

run_at :
    {packet : List ℕ} {run run' : Option (Bool × Cursor)} {n hl : ℕ} {ms : List Mdl}
    → run ≡ run'
    → Result packet run' n hl ms
    → Result packet run n hl ms
run_at e (r, run, c) = (r, e ∙ run, c)

run_after :
    {packet : List ℕ} {run : Option (Bool × Cursor)} {n k hl : ℕ} {m : Mdl} {ms : List Mdl}
    → k ≤ n
    → Result packet run (n - k) (hl + k) ms
    → Result packet run n hl (m ∷ ms)
run_after l (r, run, c) = (r, run, after_copy l (λ a. a.1) c)

-- Nothing is copied any more: the cursor stays.
no_copy :
    {packet : List ℕ} {n hl : ℕ} {ms : List Mdl} {r : Bool × Cursor}
    → IsCut packet r.1
    → r.1.mdls ≡ ms
    → r.1.header_length ≡ hl + n
    → r.0 ≡ true
    → Copied packet n hl ms r
no_copy c same len e = record {
  cut = c;
  exact = λ x. len;
  least = omega (arith, len);
  most = omega (arith, len);
  complete = λ a b. e;
  mapped = λ a. subst (λ ns. All Mapped ns) (sym same) a;
}

module _ (packet : List ℕ) (fuel : ℕ) (m : Mdl) (ms : List Mdl) (pbs : List ℕ) (h : ℕ → ℕ) where
  -- What the rounds on the buffers after `m` give.
  abbrev Later : Type 0
  Later =
      (n o : ℕ) (pbs : List ℕ) (hl : ℕ) (h : ℕ → ℕ)
      → IsCut packet (at ms o pbs hl h)
      → Result packet (copy_loop fuel n (at ms o pbs hl h)) n hl ms

  -- After a copy of `k` bytes from `m`.
  copied :
      (n o hl : ℕ)
      → 0 < fuel
      → IsCut packet (at (m ∷ ms) o pbs hl h)
      → Later
      → Result packet
          (copy_loop fuel
            (n - min n (length m.bytes - o))
            (step_past m (copy_mdl m (min n (length m.bytes - o)) (at (m ∷ ms) o pbs hl h))))
          n
          hl
          (m ∷ ms)
  copied n o hl enough c later = elim (Bool-cases (new_offset == length m.bytes)) [
    | inl used ↦ go_past ((==_iff _ _).0 used)
    | inr left ↦ stay (ne-of_== left)
  ]
    where
      k : ℕ
      k = min n (length m.bytes - o)

      new_offset : ℕ
      new_offset = (o + k) % 2 ^ 16

      d : Cursor
      d = copy_mdl m k (at (m ∷ ms) o pbs hl h)

      cut : IsCut packet d
      cut = copy_mdl-IsCut packet m ms o pbs hl h k c (omega arith)

      go_past :
          new_offset ≡ length m.bytes
          → Result packet (copy_loop fuel (n - k) (step_past m d)) n hl (m ∷ ms)
      go_past e = run_at (ap (copy_loop fuel (n - k)) (step_past_used m d e)) (
          run_after (omega arith) (
            later (n - k) 0 (drop 1 pbs) (hl + k) d.header
              (next_mdl-IsCut packet m ms new_offset pbs (hl + k) d.header e cut)))

      all : new_offset ≢ length m.bytes → k ≡ n
      all ne = elim (Bool-cases (k == n)) [
        | inl e ↦ (==_iff k n).0 e
        | inr e ↦ absurd (ne (omega (arith, c.fits.0, c.fits.1.0, ne-of_== e)))
      ]

      stay :
          new_offset ≢ length m.bytes
          → Result packet (copy_loop fuel (n - k) (step_past m d)) n hl (m ∷ ms)
      stay ne =
          run_at
            (ap (copy_loop fuel (n - k)) (step_past_not m d ne)
              ∙ ap (λ j. copy_loop fuel j d) (omega (arith, all ne))
              ∙ copy_loop_done fuel d enough)
            ((true, d), refl, no_copy cut refl (omega (arith, all ne)) refl)

  -- A round on the buffer `m`.
  round :
      (n o hl : ℕ)
      → 0 < fuel
      → IsCut packet (at (m ∷ ms) o pbs hl h)
      → Later
      → Result packet (loop_body (copy_loop fuel) (m ∷ ms) n (at (m ∷ ms) o pbs hl h)) n hl (m ∷ ms)
  round n o hl enough c later = elim (Bool-cases (n == 0)) [
    | inl e ↦ run_at (zero ((==_iff n 0).0 e)) (
      (true, at (m ∷ ms) o pbs hl h),
      refl,
      no_copy c refl (omega (arith, (==_iff n 0).0 e)) refl,
    )
    | inr e ↦ elim (Bool-cases (length m.bytes == 0)) [
      | inl none_there ↦ empty (ne-of_== e) ((==_iff _ _).0 none_there)
      | inr some_there ↦ full (ne-of_== e) (ne-of_== some_there)
    ]
  ]
    where
      k : ℕ
      k = min n (length m.bytes - o)

      start : Cursor
      start = at (m ∷ ms) o pbs hl h

      body : Option (Bool × Cursor)
      body = loop_body (copy_loop fuel) (m ∷ ms) n start

      zero : n ≡ 0 → body ≡ some (true, start)
      zero e = loop_body_zero (copy_loop fuel) m ms start e

      empty : n ≢ 0 → length m.bytes ≡ 0 → Result packet body n hl (m ∷ ms)
      empty ne e =
          run_at
            (loop_body_next (copy_loop fuel) m ms start ne (copy_round_empty m n start e)
              ∙ ap (copy_loop fuel (n - k)) (step_past_used m start (omega (arith, c.fits.0))))
            (run_after {k = k} (omega arith) (
              subst (λ j. Result packet (copy_loop fuel (n - k) (next_mdl start)) (n - k) j ms)
                (omega (arith, c.fits.0))
                (later (n - k) 0 (drop 1 pbs) hl h
                  (next_mdl-IsCut packet m ms o pbs hl h (omega (arith, c.fits.0)) c))))

      full : n ≢ 0 → length m.bytes ≢ 0 → Result packet body n hl (m ∷ ms)
      full ne some_there = elim (Bool-cases m.mapped) [
        | inl mapped ↦
            run_at
              (loop_body_next (copy_loop fuel) m ms start ne (
                copy_round_full m n start some_there
                ∙ ap (λ b. if b then some (step_past m (copy_mdl m k start)) else none) mapped))
              (copied n o hl enough c later)
        | inr not_mapped ↦
            run_at
              (loop_body_failed (copy_loop fuel) m ms start ne (
                copy_round_full m n start some_there
                ∙ ap (λ b. if b then some (step_past m (copy_mdl m k start)) else none) not_mapped))
              (
                (false, start),
                refl,
                record {
                  cut = c;
                  exact = λ e. absurd (cc);
                  least = omega arith;
                  most = omega arith;
                  complete = λ a b. absurd (cc (a.0));
                  mapped = λ a. a;
                },
              )
      ]

-- The whole loop.
pub copy_loop-Copied :
    (packet : List ℕ) (fuel n : ℕ) (ms : List Mdl) (o : ℕ) (pbs : List ℕ) (hl : ℕ) (h : ℕ → ℕ)
    → length ms < fuel
    → IsCut packet (at ms o pbs hl h)
    → Result packet (copy_loop fuel n (at ms o pbs hl h)) n hl ms
unfolding copy_loop loop_body
copy_loop-Copied packet zero n ms o pbs hl h enough c = absurd (omega arith)
copy_loop-Copied packet (suc fuel) n [] o pbs hl h enough c = (
  (n == 0, at [] o pbs hl h),
  refl,
  record {
    cut = c;
    exact = λ e. omega (arith, (==_iff n 0).0 e);
    least = omega arith;
    most = omega arith;
    complete = λ a b. (==_iff n 0).1 (omega (arith, b, all));
    mapped = λ a. a;
  },
)
  where
    all : length packet ≤ hl
    all = drop_empty hl packet (sym c.rest ∙ drop-nil o)
copy_loop-Copied packet (suc fuel) n (m ∷ ms) o pbs hl h enough c =
    round packet fuel m ms pbs h n o hl (omega arith) c
      (λ n o pbs hl h c. copy_loop-Copied packet fuel n ms o pbs hl h (omega arith) c)
