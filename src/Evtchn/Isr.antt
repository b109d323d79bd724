-- ===== src/Evtchn/Isr.antt =====
-- `EvtChn_EvtInterruptIsr` as a whole.
use mathlib.Core.List.{foldl}
use win_pvdrivers_mirror.Base.{
  ℕ, ◌+◌, ◌≤◌, ◌≡◌, refl, ap, Bool, true, false, some, Bits, set_bits, if◌then◌else◌, ◌∙◌,
}
use win_pvdrivers_mirror.Evtchn.{EvState, acknowledge, take_sel, isr, drain_words, bits_per_long}
use win_pvdrivers_mirror.Evtchn.Scan.{serve_word, drain_words-serve}
use win_pvdrivers_mirror.Evtchn.Served.{vcpus-serve_words}
use win_pvdrivers_mirror.Evtchn.Words.{Served, Served-start, serve_words}

-- The words that Xen marks as holding an event for the first processor.
abbrev pub selector : EvState → Bits
selector s = (s.vcpus 0).pending_sel

-- Unless interrupts are masked, and if Xen selects words below 32 only, the service routine ends.
-- It serves exactly the events that are pending and not masked in the selected words: each pending
-- bit is cleared, its count goes up by one, and the routines and DPCs are called once each, in
-- ascending order of the ports. Everything else stays pending and no mask changes; the
-- selector is left empty.
pub isr-Served :
    (s : EvState) (pcpu : ℕ)
    → s.interrupts_masked ≡ false
    → ((j : ℕ) → 32 ≤ j → selector s j ≡ false)
    → (handled : Bool) × (t : EvState) × (isr s pcpu ≡ some (handled, t))
      × Served 32 0 (selector s) s t
      × ((w : ℕ) → selector t w ≡ false)
unfolding isr acknowledge take_sel
isr-Served s pcpu open_ high =
    let start = take_sel (acknowledge s pcpu) in
    let out = foldl serve_word (false, start) (set_bits 32 0 (selector s)) in
    (
      out.0,
      out.1,
      ap
            (λ b.
              if b
              then some (true, acknowledge s pcpu)
              else drain_words (bits_per_long + 1) (selector s) (false, start))
            open_
          ∙ drain_words-serve (selector s) (false, start) high,
      Served-start 32 0 (selector s) s start out.1 refl refl refl refl
          (serve_words 32 0 (selector s) (false, start)),
      (λ w.
          ap (λ v. (v 0).pending_sel w)
            (vcpus-serve_words (set_bits 32 0 (selector s)) (false, start))),
    )

-- While interrupts are masked, the service routine acknowledges the upcall and serves nothing: pending
-- bits, handlers and the selector stay, and nothing is called.
pub isr_masked :
    (s : EvState) (pcpu : ℕ)
    → s.interrupts_masked ≡ true
    → (t : EvState) × (isr s pcpu ≡ some (true, t))
      × (t.pending ≡ s.pending)
      × (t.calls ≡ s.calls)
      × (t.actions ≡ s.actions)
      × (selector t ≡ selector s)
      × ((t.vcpus 0).upcall_pending ≡ 0)
unfolding isr acknowledge
isr_masked s pcpu e = (acknowledge s pcpu, rw e, refl, refl, refl, refl, refl)
