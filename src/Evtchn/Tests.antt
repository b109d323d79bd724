-- ===== src/Evtchn/Tests.antt =====
-- Runs of the event channels.
use win_pvdrivers_mirror.Base.{
  ℕ, ◌<◌, ◌≤◌, ◌≡◌, refl, Bool, true, false, ◌&&◌, ◌||◌, some, [], ◌∷◌, ltb, ◌==◌, if◌then◌else◌,
  arith,
}
use win_pvdrivers_mirror.Evtchn.{
  empty, normal, dpc, EvState, isr, init, service, dispatch, handle_event, bits_per_long,
}
use win_pvdrivers_mirror.Evtchn.Isr.{selector, isr-Served}
use win_pvdrivers_mirror.Evtchn.Lost.{isr_lost}
use win_pvdrivers_mirror.Evtchn.Words.{Served}
use win_pvdrivers_mirror.Evtchn.Setup.{Initialised, init-Initialised}

-- Port 3 has a routine, port 70 a DPC; ports 3, 5, 70 and 2100 are pending, and 5 is masked.
abbrev busy : EvState
busy = record {
  actions = λ q. record {
    type = if q == 3 then normal else if q == 70 then dpc else empty;
    routine = if q == 3 then 30 else 0;
    context = if q == 3 then 31 else 0;
    flags = 0;
    count = 0;
  };
  pending = λ w b.
      ((w == 0) && ((b == 3) || (b == 5))) || ((w == 1) && (b == 6)) || ((w == 32) && (b == 52));
  mask = λ w b. (w == 0) && (b == 5);
  vcpus = λ _. record { upcall_pending = 1; upcall_mask = 0; pending_sel = λ w. ltb w 2 };
  pending_pvt = λ _ _. 0;
  interrupts_masked = false;
  irq_number = 28;
  calls = [];
}

-- The same while the driver is suspended, and with words 31 and 32 selected too.
abbrev shut : EvState
shut = record busy { interrupts_masked = true }

abbrev crowded : EvState
crowded = record busy {
  vcpus = λ _. record {
    upcall_pending = 1;
    upcall_mask = 0;
    pending_sel = λ w. ltb w 2 || (w == 31) || (w == 32);
  };
}

beyond_two : (j : ℕ) → 32 ≤ j → ltb j 2 ≡ false
beyond_two j h = ground arith

isr-Served_example :
    (handled : Bool) × (t : EvState) × (isr busy 0 ≡ some (handled, t))
    × Served 32 0 (selector busy) busy t
    × ((w : ℕ) → selector t w ≡ false)
isr-Served_example = isr-Served busy 0 refl beyond_two

isr_lost_example :
    (handled : Bool) × (t : EvState) × (isr crowded 0 ≡ some (handled, t))
    × Served 32 0 (selector crowded) crowded t
    × ((w : ℕ) → selector t w ≡ false)
    × ((w b : ℕ) → 32 ≤ w → b < bits_per_long → t.pending w b ≡ crowded.pending w b)
isr_lost_example = isr_lost crowded 0 refl refl

init-Initialised_example : Initialised busy (init busy)
init-Initialised_example = init-Initialised busy

-- Two events of port 3 in a row: one callback each.
handled_twice :
    (handle_event 0 (handle_event 0 busy 3) 3).calls ≡ service 3 30 31 ∷ service 3 30 31 ∷ []
unfolding handle_event dispatch
handled_twice = refl
