-- ===== src/Vbd/Queue.antt =====
-- The queue of SRBs, `XenVbd_ProcessSrbList` of xenvbd_common/common_miniport.h. Of the PnP and power
-- requests and those of the dump driver only the status is modelled.
pub mod Moves
pub mod Ends
pub mod Finish
mod Tests
use win_pvdrivers_mirror.Base.{
  ℕ, zero, suc, ◌+◌, Bool, true, false, not, ◌&&◌, ◌||◌, Option, none, some, List, [], ◌∷◌, ◌++◌,
  ltb, leb, ◌==◌, if◌then◌else◌, update, ◌>>=◌,
}
use win_pvdrivers_mirror.Vbd.{
  DeviceState, disconnected, initialising, inactive, active, disconnecting, SrbFunction,
  execute_scsi, flush, pnp, power, dump_pointers, shutdown, bus_reset, wmi, io_control,
  free_dump_pointers, other_function, Host, Srb, VbdState, Sense, write_data, complete,
  notify_backend, log, requeue, is_active, put_srb_on_ring,
}
use win_pvdrivers_mirror.Vbd.Reply.{
  set_srb, make_sense, make_auto_sense, reset_bus, srb_status_success, srb_status_error,
}
use win_pvdrivers_mirror.Vbd.Command.{
  Disk, Pages, Answer, Effect, answer, put_on_ring, request_sense, illegal_request, command,
}

-- The device with its disk; `new_total_sectors` is none when it is -1.
pub record Device : Type 0 where
  pub vbd : VbdState
  pub disk : Disk
  pub new_total_sectors : Option ℕ

abbrev pub srb_status_no_device : ℕ
srb_status_no_device = 8

abbrev pub srb_status_invalid_request : ℕ
srb_status_invalid_request = 6

abbrev pub srb_status_data_overrun : ℕ
srb_status_data_overrun = 0x12

-- `sizeof(SENSE_DATA)`
abbrev pub sizeof_sense_data : ℕ
sizeof_sense_data = 18

abbrev pub with_vbd : Device → VbdState → Device
with_vbd d s = record d { vbd = s }

-- The SRB gets a status and is handed back.
abbrev pub complete_as : VbdState → (id status : ℕ) → VbdState
complete_as s id status =
    log (set_srb s id (record (s.srbs id) { srb_status = status })) (complete id)

-- A new size is taken over and told to the next request.
pub resize_to : Device → Option ℕ → Device
resize_to d none = record d { new_total_sectors = some d.disk.total_sectors }
resize_to d (some n) = if n == d.disk.total_sectors then d else record d {
  disk = record (d.disk) { total_sectors = n };
  vbd = record (d.vbd) { last_sense = record { key = 6; code = 0x2a; qualifier = 9 } };
}

pub check_resize : Device → Device
check_resize d = resize_to d d.new_total_sectors

-- A command that fails without a reason of its own has an illegal field.
abbrev pub sense_or_invalid : Sense → Sense
sense_or_invalid sense =
    if sense.key == 0 then record { key = 5; code = 0x24; qualifier = 0 } else sense

-- The end of a command that has failed, and of one that has succeeded with `len` bytes of data. The status
-- and the length are set whatever the length is, so that the last test does not hold.
pub finish_error : VbdState → ℕ → VbdState
finish_error s id =
    let t = record (set_srb s id (record (s.srbs id) { srb_status = srb_status_error })) {
      last_sense = sense_or_invalid s.last_sense;
    } in
    log (make_auto_sense t id) (complete id)

abbrev pub finished_srb : Srb → (len : ℕ) → Srb
finished_srb srb len =
    let overrun : Srb = record srb { srb_status = srb_status_data_overrun; data_length = len } in
    record overrun {
      srb_status =
          if ltb len overrun.data_length then srb_status_data_overrun else srb_status_success;
    }

pub finish_success : VbdState → (id len : ℕ) → VbdState
finish_success s id len =
    log (make_auto_sense (set_srb s id (finished_srb (s.srbs id) len)) id) (complete id)

abbrev pub clear_status : Bool → VbdState → ℕ → VbdState
clear_status b s id =
    set_srb s id (record (s.srbs id) { scsi_status = if b then 0 else (s.srbs id).scsi_status })

pub finish_answer : VbdState → ℕ → Answer → VbdState
finish_answer s id a =
    let t = clear_status a.clears (log s (write_data id a.bytes)) id in
    if a.success then finish_success t id a.data_transfer_length else finish_error t id

-- What the switch on the operation code leads to, and whether a request was put on the ring.
pub run_effect : Host → VbdState → ℕ → Effect → Option (Bool × VbdState)
run_effect h s id (answer a) = some (false, finish_answer s id a)
run_effect h s id put_on_ring = put_srb_on_ring h s id
run_effect h s id request_sense =
    let len = if (s.srbs id).has_sense_buffer then sizeof_sense_data else 0 in
    some (false, finish_success (make_sense s id) id len)
run_effect h s id illegal_request =
    some (
      false,
      finish_error (record s { last_sense = record { key = 5; code = 0; qualifier = 0 } }) id,
    )

-- An SRB with a SCSI command: it waits until the device is active, and for sense data to be asked for.
pub run_scsi : Pages → Host → Device → ℕ → Option (Bool × Device)
run_scsi w h d0 id =
    let d = check_resize d0 in
    let cdb = (d0.vbd.srbs id).cdb in
    if not (is_active d0.vbd.device_state)
    then some (false, with_vbd d0 (requeue d0.vbd id))
    else if d.vbd.cac && not (cdb 0 == 3)
    then some (false, with_vbd d (requeue d.vbd id))
    else run_effect h d.vbd id (command w d.disk cdb (d0.vbd.srbs id).data_length)
      >>= λ (r : Bool × VbdState). some (r.0, with_vbd d r.1)

-- The switch on the function of the SRB.
pub run_srb : Pages → Host → Device → ℕ → SrbFunction → Option (Bool × Device)
run_srb w h d id execute_scsi = run_scsi w h d id
run_srb w h d id bus_reset =
    some (false, with_vbd d (complete_as (reset_bus d.vbd) id srb_status_success))
run_srb w h d id wmi = some (false, with_vbd d (complete_as d.vbd id srb_status_invalid_request))
run_srb w h d id io_control =
    some (false, with_vbd d (complete_as d.vbd id srb_status_invalid_request))
run_srb w h d id other_function =
    some (false, with_vbd d (complete_as d.vbd id srb_status_invalid_request))
run_srb w h d id _ = some (false, with_vbd d (complete_as d.vbd id srb_status_success))

pub is_inactive : DeviceState → Bool
is_inactive inactive = true
is_inactive _ = false

pub heads : List ℕ → ℕ → Bool
heads [] id = false
heads (head ∷ rest) id = head == id

-- Whether the SRB is at the head of the queue again, as far as it was.
abbrev pub is_back : VbdState → (id offset : ℕ) → Bool
is_back s id offset = heads s.srb_list id && ((s.srbs id).offset == offset)

-- How the loop ends: with a failed assertion, for want of fuel, or done, and whether anything was sent.
pub data Ended : Type 0 where
  failed out_of_fuel : Ended
  done : (sent : Bool) → Device → Ended

-- The end of a round: the loop goes on by `next` unless the SRB is back where it was.
pub end_round :
    (next : Bool → Device → Ended)
    → (sent : Bool) → (id offset : ℕ) → Option (Bool × Device)
    → Ended
end_round next sent id offset none = failed
end_round next sent id offset (some (sent', d)) =
    if is_back d.vbd id offset then done (sent || sent') d else next (sent || sent') d

-- The round for the SRB at the head of the queue, the rest of which is `rest`.
pub run_round :
    (next : Bool → Device → Ended)
    → Pages
    → Host
    → (sent : Bool) → Device
    → (id : ℕ) → (rest : List ℕ) → Ended
run_round next w h sent d id rest =
    let s = record (d.vbd) { srb_list = rest } in
    if d.vbd.aligned_in_use || (d.vbd.shadow_free == 0)
    then done sent d
    else if is_inactive s.device_state
    then next sent (with_vbd d (complete_as s id srb_status_no_device))
    else end_round next sent id (s.srbs id).offset
        (run_srb w h (with_vbd d s) id (s.srbs id).function)

pub round_of :
    (next : Bool → Device → Ended) → Pages → Host → (sent : Bool) → Device → List ℕ → Ended
round_of next w h sent d [] = done sent d
round_of next w h sent d (id ∷ rest) = run_round next w h sent d id rest

-- The loop of `XenVbd_ProcessSrbList`; `k` counts the rounds, each of which has its host.
pub process_loop : (fuel : ℕ) → Pages → (ℕ → Host) → (k : ℕ) → (sent : Bool) → Device → Ended
process_loop zero w hosts k sent d = out_of_fuel
process_loop (suc fuel) w hosts k sent d =
    round_of (process_loop fuel w hosts (suc k)) w (hosts k) sent d d.vbd.srb_list

-- The backend is notified if something was sent and it wants to know.
pub notify_after : (wants : Bool) → Ended → Ended
notify_after wants failed = failed
notify_after wants out_of_fuel = out_of_fuel
notify_after wants (done sent d) =
    done sent (if sent && wants then with_vbd d (log d.vbd notify_backend) else d)

-- `XenVbd_ProcessSrbList`
pub process_srb_list : (fuel : ℕ) → Pages → (ℕ → Host) → (wants : Bool) → Device → Ended
process_srb_list fuel w hosts wants d = notify_after wants (process_loop fuel w hosts 0 false d)
