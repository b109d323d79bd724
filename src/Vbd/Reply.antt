-- ===== src/Vbd/Reply.antt =====
-- The responses of the backend, `XenVbd_HandleEvent`, the sense data that goes with a failure, and
-- `XenVbd_ResetBus` of xenvbd_common/common_miniport.h. `none` is a failed assertion.
pub mod Frame
pub mod Steps
pub mod Answer
pub mod Drain
pub mod Scan
pub mod Reset
pub mod Emptied
pub mod Late
mod Tests
use win_pvdrivers_mirror.Base.{
  ℕ, zero, suc, ◌+◌, ◌-◌, ◌%◌, ◌^◌, Bool, true, false, not, ◌&&◌, Option, none, some, List, [], ◌∷◌,
  ◌++◌, map, ◌==◌, if◌then◌else◌, update, elem, ◌>>◌, ◌>>=◌, xn_assert,
}
use win_pvdrivers_mirror.Vbd.{
  Sense, Srb, Shadow, Segment, VbdCall, VbdState, end_access, copy_from_buffer, sense_data,
  complete, notify_backend, next_request, put_shadow, shadow_id, decode_cdb_is_read, log,
  max_shadow_entries,
}

-- `blkif_response_t`: the request, and whether the status is `BLKIF_RSP_OKAY`.
pub record Response : Type 0 where
  pub id : ℕ
  pub okay : Bool

abbrev pub srb_status_success : ℕ
srb_status_success = 1

abbrev pub srb_status_error : ℕ
srb_status_error = 4

-- `SRB_STATUS_ERROR | SRB_STATUS_AUTOSENSE_VALID`
abbrev pub srb_status_error_sense : ℕ
srb_status_error_sense = 0x84

abbrev pub srb_status_bus_reset : ℕ
srb_status_bus_reset = 14

abbrev pub scsistat_check_condition : ℕ
scsistat_check_condition = 2

abbrev pub scsi_sense_medium_error : ℕ
scsi_sense_medium_error = 3

abbrev pub no_sense : Sense
no_sense = record { key = 0; code = 0; qualifier = 0 }

abbrev pub set_srb : VbdState → ℕ → Srb → VbdState
set_srb s id srb = record s { srbs = update s.srbs id srb }

-- `XenVbd_MakeSense`; what it returns is the length of the sense data, or 0 without a buffer.
pub make_sense : VbdState → ℕ → VbdState
make_sense s id =
    if (s.srbs id).has_sense_buffer
    then record s {
      calls = s.calls ++ sense_data id s.last_sense ∷ [];
      last_sense = no_sense;
      cac = false;
    }
    else s

-- `XenVbd_MakeAutoSense`
pub make_auto_sense : VbdState → ℕ → VbdState
make_auto_sense s id =
    let srb = s.srbs id in
    let checked = set_srb s id (record srb { scsi_status = scsistat_check_condition }) in
    let sensed = make_sense checked id in
    if s.last_sense.key == 0
    then s
    else if srb.disable_autosense
    then record checked { cac = true }
    else set_srb sensed id (record (sensed.srbs id) { srb_status = srb_status_error_sense })

-- The grant of every segment of the shadow is ended.
abbrev pub ended : List Segment → List VbdCall
ended segs = map (λ (g : Segment). end_access g.gref) segs

pub end_grants : VbdState → ℕ → VbdState
end_grants s i = record s { calls = s.calls ++ ended (s.shadows i).req.segs }

-- The status of the response is noted in the SRB.
pub note_status : VbdState → ℕ → Bool → VbdState
note_status s id true = set_srb s id (record (s.srbs id) { srb_status = srb_status_success })
note_status s id false = set_srb s id (record (s.srbs id) { error = true })

-- The aligned buffer of the shadow, if it has it, is copied out after a successful read, and freed.
abbrev pub copied_out : VbdState → (id i : ℕ) → List VbdCall
copied_out s id i =
    if ((s.srbs id).srb_status == srb_status_success) && decode_cdb_is_read (s.srbs id).cdb
    then copy_from_buffer (s.shadows i).system_address (s.shadows i).length ∷ []
    else []

pub free_buffer : VbdState → (id i : ℕ) → Bool → Option VbdState
free_buffer s id i false = some s
free_buffer s id i true =
    xn_assert s.aligned_in_use
    >> some (record s { aligned_in_use = false; calls = s.calls ++ copied_out s id i })

-- An error becomes the status of the SRB and the sense key.
pub failed_srb : Bool → Srb → Srb
failed_srb true srb = record srb { srb_status = srb_status_error }
failed_srb false srb = srb

pub failed_sense : Bool → Sense → Sense
failed_sense true sense = record sense { key = scsi_sense_medium_error }
failed_sense false sense = sense

abbrev pub note_failure : VbdState → ℕ → VbdState
note_failure s id = record s {
  srbs = update s.srbs id (failed_srb (s.srbs id).error (s.srbs id));
  last_sense = failed_sense (s.srbs id).error s.last_sense;
}

-- The last response to an SRB: an error is reported, and the port driver has it back.
pub complete_srb : VbdState → ℕ → VbdState
complete_srb s id = log (make_auto_sense (note_failure s id) id) (complete id)

-- One request less is outstanding; the SRB is complete when none is and all of it has been submitted.
abbrev pub less_one : VbdState → ℕ → VbdState
less_one s id =
    set_srb s id
      (record (s.srbs id) { outstanding = ((s.srbs id).outstanding + 2 ^ 32 - 1) % 2 ^ 32 })

abbrev pub is_last : VbdState → ℕ → Bool
is_last s id =
    (((s.srbs id).outstanding + 2 ^ 32 - 1) % 2 ^ 32 == 0)
    && ((s.srbs id).offset == (s.srbs id).length)

pub count_down : VbdState → ℕ → VbdState
count_down s id = if is_last s id then complete_srb (less_one s id) id else less_one s id

pub answer : VbdState → (i : ℕ) → Bool → Option ℕ → Option VbdState
answer s i okay none = none
answer s i okay (some id) =
    free_buffer (note_status s id okay) id i (s.shadows i).aligned_in_use >>= λ t.
    some (put_shadow (count_down (end_grants t i) id) i)

-- One response: for a shadow that a reset has left, only its grants are ended.
pub handle_response : VbdState → Response → Option VbdState
handle_response s rep =
    let i = shadow_id rep.id in
    if (s.shadows i).reset
    then some (put_shadow (end_grants s i) i)
    else answer s i rep.okay (s.shadows i).srb

-- The loop over the responses on the ring, which stops as soon as sense data waits to be asked for, and
-- the responses that are left.
pub handle_responses : VbdState → List Response → Option (VbdState × List Response)
handle_responses s [] = some (s, [])
handle_responses s (rep ∷ reps) =
    if s.cac then some (s, rep ∷ reps) else handle_response s rep >>= λ t. handle_responses t reps

-- The shadow at `i` is marked, and its SRB joins the list unless it is there.
pub reset_shadow : VbdState → (i : ℕ) → List ℕ → Option ℕ → VbdState × List ℕ
reset_shadow s i found none = (s, found)
reset_shadow s i found (some id) =
    let shadow = record (s.shadows i) { reset = true; srb = none; aligned_in_use = false } in
    (
      record s { shadows = update s.shadows i shadow },
      if elem id found then found else found ++ id ∷ [],
    )

-- The loop over `n` shadows from `i` on.
pub reset_shadows : (n i : ℕ) → VbdState → List ℕ → VbdState × List ℕ
reset_shadows zero i s found = (s, found)
reset_shadows (suc n) i s found =
    let (t, found') = reset_shadow s i found (s.shadows i).srb in reset_shadows n (suc i) t found'

pub reset_srb : VbdState → ℕ → VbdState
reset_srb s id =
    log (set_srb s id (record (s.srbs id) { outstanding = 0; srb_status = srb_status_bus_reset }))
      (complete id)

pub reset_srbs : VbdState → List ℕ → VbdState
reset_srbs s [] = s
reset_srbs s (id ∷ ids) = reset_srbs (reset_srb s id) ids

-- `XenVbd_ResetBus`
pub reset_bus : VbdState → VbdState
reset_bus s =
    let (t, found) =
      reset_shadows max_shadow_entries 0 (record s { aligned_in_use = false; srb_list = [] })
        s.srb_list in
    log (log (reset_srbs t found) notify_backend) next_request
