-- ===== src/Vbd/Reply/Drain.antt =====
-- The responses to all requests of an SRB hand it back once.
use win_pvdrivers_mirror.Base.{
  ℕ, suc, ◌+◌, ◌^◌, ◌<◌, ◌≡◌, ◌≢◌, ap, sym, ◌∙◌, false, ◌&&◌, some, List, [], ◌∷◌, ◌==◌,
  if◌then◌else◌, elem, Distinct, length, arith, ◌>>=◌,
}
use win_pvdrivers_mirror.Vbd.{Shadow, VbdState, shadow_id}
use win_pvdrivers_mirror.Vbd.Reply.{Response, handle_response, handle_responses}
use win_pvdrivers_mirror.Vbd.Reply.Frame.{completions}
use win_pvdrivers_mirror.Vbd.Reply.Answer.{handle_response-Answered}

-- The shadows that the responses are for.
abbrev pub slots : List Response → List ℕ
slots [] = []
slots (rep ∷ reps) = shadow_id rep.id ∷ slots reps

-- Every shadow that a response is for holds the SRB, has met no reset and does not have the aligned buffer.
abbrev pub AllHold : VbdState → ℕ → List Response → Type 0
AllHold s id [] = Unit
AllHold s id (rep ∷ reps) =
    let shadow = s.shadows (shadow_id rep.id) in
    (shadow.reset ≡ false)
    × (shadow.srb ≡ some id)
    × (shadow.aligned_in_use ≡ false)
    × AllHold s id reps

keeps_others :
    (s t : VbdState) (id i : ℕ) (reps : List Response)
    → ((j : ℕ) → i ≢ j → t.shadows j ≡ s.shadows j)
    → elem i (slots reps) ≡ false
    → AllHold s id reps
    → AllHold t id reps
keeps_others s t id i [] same out all = tt
keeps_others s t id i (rep ∷ reps) same out (r, h, b, all) =
    let e = same (shadow_id rep.id) (ground (arith, out)) in
    (
      ap (λ (x : Shadow). x.reset) e ∙ r,
      ap (λ (x : Shadow). x.srb) e ∙ h,
      ap (λ (x : Shadow). x.aligned_in_use) e ∙ b,
      keeps_others s t id i reps same (ground (arith, out)) all,
    )

last_one :
    (x y o f l id : ℕ)
    → y ≡ x + (if id == id then (if (o == 1) && (f == l) then 1 else 0) else 0)
    → f ≡ l
    → o ≡ 1
    → y ≡ x + 1
last_one x y o f l id e full one = ground arith

not_last :
    (x y o f l id more : ℕ)
    → y ≡ x + (if id == id then (if (o == 1) && (f == l) then 1 else 0) else 0)
    → o ≡ suc (suc more)
    → y ≡ x
not_last x y o f l id more e two = ground arith

consume :
    (s : VbdState) (rep : Response) (reps : List Response) {t : VbdState}
    → s.cac ≡ false
    → handle_response s rep ≡ some t
    → handle_responses s (rep ∷ reps) ≡ handle_responses t reps
unfolding handle_responses
consume s rep reps c run =
    ap
      (λ b.
        if b then some (s, rep ∷ reps) else handle_response s rep >>= λ t. handle_responses t reps)
      c
    ∙ ap (λ o. o >>= λ t. handle_responses t reps) run

-- An SRB that disables no autosense has been submitted to its end and has at least one request outstanding.
-- As many responses come for distinct shadows that hold this SRB, were not met by a reset and do not have
-- the aligned buffer, with no sense data waiting. Then, in whatever order and with whatever status they
-- come, all are consumed without a failed assertion, and the SRB is completed exactly once.
pub handle_responses-completes :
    (s : VbdState) (id : ℕ) (reps : List Response)
    → s.cac ≡ false
    → (s.srbs id).disable_autosense ≡ false
    → (s.srbs id).offset ≡ (s.srbs id).length
    → (s.srbs id).outstanding < 2 ^ 32
    → (s.srbs id).outstanding ≡ length reps
    → 0 < length reps
    → Distinct (slots reps)
    → AllHold s id reps
    → (t : VbdState) × (handle_responses s reps ≡ some (t, []))
      × ((t.srbs id).outstanding ≡ 0)
      × (completions id t.calls ≡ completions id s.calls + 1)
unfolding handle_responses
handle_responses-completes s id [] c d full bound count more dist all = absurd (omega arith)
handle_responses-completes s id (rep ∷ []) c d full bound count more dist (r, h, b, all) =
    let (t, run, a) =
      handle_response-Answered s rep id r h (λ e. absurd (cc)) (omega arith) bound in
    (
      t,
      consume s rep [] c run,
      omega (arith, a.outstanding),
      last_one _ _ _ _ _ id (a.done id) full count,
    )
handle_responses-completes s id (rep ∷ next ∷ reps) c d full bound count more dist (r, h, b, all) =
    let (t, run, a) =
      handle_response-Answered s rep id r h (λ e. absurd (cc)) (omega arith) bound in
    let (u, run', none_left, done) =
      handle_responses-completes t id (next ∷ reps) (a.cac d c) (a.autosense ∙ d)
        (a.offset ∙ full ∙ sym a.length) (omega (arith, a.outstanding))
        (omega (arith, a.outstanding)) (omega arith) dist.1
        (keeps_others s t id (shadow_id rep.id) (next ∷ reps) a.other_shadows dist.0 all) in
    (
      u,
      consume s rep (next ∷ reps) c run ∙ run',
      none_left,
      done ∙ ap (λ n. n + 1) (not_last _ _ _ _ _ id (length reps) (a.done id) count),
    )
