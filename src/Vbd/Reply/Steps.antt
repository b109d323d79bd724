-- ===== src/Vbd/Reply/Steps.antt =====
-- What each step of a response leaves alone, and which of them completes the SRB.
use win_pvdrivers_mirror.Base.{
  ==_iff, ℕ, ◌≡◌, refl, ap, subst, Bool, true, false, ◌&&◌, some, [], ◌∷◌, ◌++◌, ◌==◌,
  if◌then◌else◌, append-nil, arith, ◌>>◌, xn_assert,
}
use win_pvdrivers_mirror.Vbd.{
  Srb, VbdState, copy_from_buffer, sense_data, complete, decode_cdb_is_read, log,
}
use win_pvdrivers_mirror.Vbd.Reply.{
  copied_out, srb_status_success, failed_srb, failed_sense, note_failure, less_one, is_last,
  no_sense, scsistat_check_condition, srb_status_error_sense, make_sense, make_auto_sense, set_srb,
  ended, end_grants, note_status, free_buffer, complete_srb, count_down,
}
use win_pvdrivers_mirror.Vbd.Reply.Frame.{
  completions, completions-append, completions-ended, Touches, Touches-refl, Touches-trans,
  Touches-if, Touches-split, log-Touches, set_srb-Touches, quiet-Touches,
}

pub make_sense-Touches : (s : VbdState) (id : ℕ) → Touches id 0 s (make_sense s id)
unfolding make_sense
make_sense-Touches s id =
    Touches-if (s.srbs id).has_sense_buffer
      (log-Touches s id s.aligned_in_use no_sense false (sense_data id s.last_sense ∷ [])
        (λ c. refl) λ j. refl)
      Touches-refl

pub make_auto_sense-Touches : (s : VbdState) (id : ℕ) → Touches id 0 s (make_auto_sense s id)
unfolding make_auto_sense
make_auto_sense-Touches s id =
    let srb = s.srbs id in
    let checked_srb : Srb = record srb { scsi_status = scsistat_check_condition } in
    let checked : VbdState = set_srb s id checked_srb in
    let sensed : VbdState = make_sense checked id in
    let at_check = set_srb-Touches s id checked_srb s.cac refl refl refl refl (λ d c. c) in
    Touches-if (s.last_sense.key == 0) Touches-refl (
      Touches-split srb.disable_autosense
        (λ on.
          set_srb-Touches s id checked_srb true refl refl refl refl λ off c. absurd (both on off))
        (Touches-trans (Touches-trans at_check (make_sense-Touches checked id)) (
          set_srb-Touches sensed id
            (record (sensed.srbs id) { srb_status = srb_status_error_sense }) sensed.cac refl refl
            refl refl (λ d c. c))))
  where
    both : {b : Bool} → b ≡ true → b ≡ false → ⊥
    both e f = cc

if-true {ℓ} : {A : Type ℓ} (b : Bool) (x y : A) → b ≡ true → (if b then x else y) ≡ x
if-true true x y e = refl
if-true false x y e = absurd (cc)

pub make_auto_sense-none : (s : VbdState) (id : ℕ) → s.last_sense.key ≡ 0 → make_auto_sense s id ≡ s
unfolding make_auto_sense
make_auto_sense-none s id e = if-true (s.last_sense.key == 0) s _ ((==_iff s.last_sense.key 0).1 e)

pub note_status-Touches :
    (s : VbdState) (id : ℕ) (okay : Bool) → Touches id 0 s (note_status s id okay)
unfolding note_status
note_status-Touches s id true = set_srb-Touches s id _ s.cac refl refl refl refl (λ d c. c)
note_status-Touches s id false = set_srb-Touches s id _ s.cac refl refl refl refl (λ d c. c)

failed_srb_lem :
    (b : Bool) (srb : Srb)
    → ((failed_srb b srb).outstanding ≡ srb.outstanding)
      × ((failed_srb b srb).offset ≡ srb.offset)
      × ((failed_srb b srb).length ≡ srb.length)
      × ((failed_srb b srb).disable_autosense ≡ srb.disable_autosense)
unfolding failed_srb
failed_srb_lem true srb = (refl, refl, refl, refl)
failed_srb_lem false srb = (refl, refl, refl, refl)

note_failure-Touches : (s : VbdState) (id : ℕ) → Touches id 0 s (note_failure s id)
note_failure-Touches s id =
    let (o, f, l, d) = failed_srb_lem (s.srbs id).error (s.srbs id) in
    subst (λ cs. Touches id 0 s (record (note_failure s id) { calls = cs })) (append-nil s.calls)
      (quiet-Touches s id (failed_srb (s.srbs id).error (s.srbs id))
        (failed_sense (s.srbs id).error s.last_sense) s.cac [] o f l d (λ d c. c) λ j. refl)

completion-Touches : (s : VbdState) (id : ℕ) → Touches id 1 s (log s (complete id))
completion-Touches s id = record {
  shadows = refl;
  free_list = refl;
  shadow_free = refl;
  queue = refl;
  ring = refl;
  others = λ j ne. refl;
  outstanding = refl;
  offset = refl;
  length = refl;
  autosense = refl;
  cac = λ d c. c;
  done = λ j. omega (arith, completions-append j s.calls (complete id ∷ []));
}

complete_srb-Touches : (s : VbdState) (id : ℕ) → Touches id 1 s (complete_srb s id)
unfolding complete_srb
complete_srb-Touches s id =
    Touches-trans
      (Touches-trans (note_failure-Touches s id) (make_auto_sense-Touches (note_failure s id) id))
      (completion-Touches (make_auto_sense (note_failure s id) id) id)

Touches-choice :
    {id : ℕ} {s t u : VbdState} (b : Bool)
    → Touches id 1 s t
    → Touches id 0 s u
    → Touches id (if b then 1 else 0) s (if b then t else u)
Touches-choice true t u = t
Touches-choice false t u = u

pub count_down-Touches :
    (s : VbdState) (id : ℕ)
    → Touches id (if is_last s id then 1 else 0) (less_one s id) (count_down s id)
unfolding count_down
count_down-Touches s id =
    Touches-choice (is_last s id) (complete_srb-Touches (less_one s id) id) Touches-refl

pub free_buffer-Touches :
    (s : VbdState) (id i : ℕ) (b : Bool)
    → (b ≡ true → s.aligned_in_use ≡ true)
    → (t : VbdState) × (free_buffer s id i b ≡ some t) × Touches id 0 s t
unfolding free_buffer
free_buffer-Touches s id i false held = (s, refl, Touches-refl)
free_buffer-Touches s id i true held = (
  record s { aligned_in_use = false; calls = s.calls ++ copied_out s id i },
  ap
      (λ b.
        xn_assert b
        >> some (record s { aligned_in_use = false; calls = s.calls ++ copied_out s id i }))
      (held refl),
  log-Touches s id false s.last_sense s.cac (copied_out s id i) (λ c. c)
      λ j.
        quiet ((s.srbs id).srb_status == srb_status_success) (decode_cdb_is_read (s.srbs id).cdb) j,
)
  where
    quiet :
        (a b : Bool) (j : ℕ)
        → completions j (
            if a && b
            then copy_from_buffer (s.shadows i).system_address (s.shadows i).length ∷ []
            else [])
          ≡ 0
    quiet true true j = refl
    quiet true false j = refl
    quiet false b j = refl

pub end_grants-Touches : (s : VbdState) (id i : ℕ) → Touches id 0 s (end_grants s i)
unfolding end_grants
end_grants-Touches s id i =
    log-Touches s id s.aligned_in_use s.last_sense s.cac (ended (s.shadows i).req.segs) (λ c. c)
      λ j. completions-ended j (s.shadows i).req.segs
