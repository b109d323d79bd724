-- ===== src/Vbd/Reply/Tests.antt =====
-- Runs of responses and resets.
use win_pvdrivers_mirror.Base.{
  ℕ, ◌+◌, ◌*◌, ◌%◌, ◌^◌, ◌≡◌, refl, true, false, ◌≢◌, update, ◌||◌, none, some, [], ◌∷◌, ◌==◌,
  if◌then◌else◌, arith,
}
use win_pvdrivers_mirror.Vbd.{active, execute_scsi, VbdState, rw10, scsiop_write}
use win_pvdrivers_mirror.Vbd.Reply.{Response, handle_response, handle_responses, reset_bus}
use win_pvdrivers_mirror.Vbd.Reply.Frame.{completions}
use win_pvdrivers_mirror.Vbd.Reply.Drain.{handle_responses-completes}
use win_pvdrivers_mirror.Vbd.Reply.Reset.{WasReset, reset_bus-WasReset}
use win_pvdrivers_mirror.Vbd.Reply.Late.{reset_bus-late}

-- SRB 5 has been submitted in two requests, by shadows 30 and 31; SRB 6 is queued.
abbrev busy : VbdState
busy = record {
  device_state = active;
  shadows = λ i. record {
    req = record {
      id = i;
      is_read = false;
      sector_number = 0;
      segs = record { gref = 200 + i; pfn = 16; first_sect = 0; last_sect = 7 } ∷ [];
    };
    srb = if (i == 30) || (i == 31) then some 5 else none;
    system_address = 0x10000;
    length = 4096;
    aligned_in_use = false;
    reset = false;
  };
  free_list = λ k. k;
  shadow_free = 30;
  srbs = λ id. record {
    function = execute_scsi;
    cdb = rw10 scsiop_write 100 16;
    data_length = 8192;
    srb_status = 0;
    scsi_status = 0;
    disable_autosense = false;
    has_sense_buffer = true;
    length = 8192;
    offset = if id == 5 then 8192 else 0;
    outstanding = if id == 5 then 2 else 0;
    error = false;
  };
  srb_list = 6 ∷ [];
  ring = [];
  aligned_in_use = false;
  aligned_buffer = 0x40000;
  aligned_size = 12 * 4096;
  bytes_per_sector = 512;
  last_sense = record { key = 0; code = 0; qualifier = 0 };
  cac = false;
  calls = [];
}

-- The second request ends first, and the first one with an error.
abbrev first_reply : Response
first_reply = record { id = 31; okay = true }

abbrev second_reply : Response
second_reply = record { id = 30; okay = false }

handle_responses-completes_example :
    (t : VbdState) × (handle_responses busy (first_reply ∷ second_reply ∷ []) ≡ some (t, []))
    × ((t.srbs 5).outstanding ≡ 0)
    × (completions 5 t.calls ≡ completions 5 busy.calls + 1)
handle_responses-completes_example =
    handle_responses-completes busy 5 (first_reply ∷ second_reply ∷ []) refl refl refl (omega arith)
      refl (omega arith) (refl, (refl, tt)) (refl, refl, refl, (refl, refl, refl, tt))

reset_bus-WasReset_example : WasReset busy (reset_bus busy)
reset_bus-WasReset_example = reset_bus-WasReset busy (refl, tt)

reset_bus-late_example :
    (t : VbdState) × (handle_response (reset_bus busy) second_reply ≡ some t)
    × ((k : ℕ) → completions k t.calls ≡ completions k (reset_bus busy).calls)
    × (t.srbs ≡ (reset_bus busy).srbs)
    × ((t.shadows 30).reset ≡ false)
    × ((t.shadows 30).srb ≡ none)
    × (t.free_list ≡ update (reset_bus busy).free_list (reset_bus busy).shadow_free 30)
    × (t.shadow_free ≡ ((reset_bus busy).shadow_free + 1) % 2 ^ 16)
    × ((j : ℕ) → 30 ≢ j → t.shadows j ≡ (reset_bus busy).shadows j)
    × (t.srb_list ≡ (reset_bus busy).srb_list)
    × (t.ring ≡ (reset_bus busy).ring)
reset_bus-late_example = reset_bus-late busy second_reply 5 (refl, tt) (omega arith) refl refl
