-- ===== src/Evtchn/Lost.antt =====
-- The `int` in `evt_words &= ~(1 << evt_word)`: with word 31 selected, the service routine forgets
-- the words above it.
use mathlib.Core.List.{foldl}
use native.Mathlib.Decide.{dec_lt}
use win_pvdrivers_mirror.Base.{
  ℕ, zero, suc, ◌+◌, ◌<◌, ◌≤◌, ◌≡◌, refl, ap, sym, subst, ◌∙◌, inl, inr, Bool, true, false, not,
  ◌&&◌, some, Bits, set_bits, set_bits-ext, scan-some, arith, ltb, ◌==◌, lt→ltb, if◌then◌else◌,
  Bool-cases,
}
use win_pvdrivers_mirror.Evtchn.{
  EvState, acknowledge, take_sel, isr, drain_words, clear_sel, bits_per_long,
}
use win_pvdrivers_mirror.Evtchn.Scan.{serve_word, drain_word-serve, drain_words-from}
use win_pvdrivers_mirror.Evtchn.Words.{Served, Served-start, serve_words}
use win_pvdrivers_mirror.Evtchn.Served.{within, vcpus-serve_words}
use win_pvdrivers_mirror.Evtchn.Isr.{selector}

clear_sel_before :
    (words : Bits) (w : ℕ) → w < 31 → clear_sel words w ≡ some (λ j. words j && not (j == w))
unfolding clear_sel
clear_sel_before words w h = rw (lt→ltb w 31 h)

clear_sel_sign :
    (words : Bits) (w : ℕ) → w ≡ 31 → clear_sel words w ≡ some (λ j. words j && ltb j 31)
unfolding clear_sel
clear_sel_sign words w e = rw e

sign_stops :
    (n i fuel : ℕ) (words : Bits) (hs : Bool × EvState)
    → i + n ≡ 31
    → n + 1 < fuel
    → ((j : ℕ) → j < i → words j ≡ false)
    → words 31 ≡ true
    → drain_words fuel words hs ≡ some (foldl serve_word hs (set_bits (suc n) i words))
unfolding drain_words set_bits
sign_stops n i zero words hs e f low top = absurd (omega arith)
sign_stops zero i (suc fuel) words hs e f low top =
    let here : i ≡ 31 = omega arith in
    let on : words i ≡ true = subst (λ k. words k ≡ true) (sym here) top in
    rw
      (
        scan-some bits_per_long 0 i words (omega arith) (omega arith) on (λ j p q. low j q),
        clear_sel_sign words i here,
        drain_word-serve i hs,
        on,
        drain_words,
      )
      (drain_words-from 0 32 fuel (λ j. words j && ltb j 31) (serve_word hs i) refl (omega arith)
        (λ j q. elim (dec_lt j 31) [ yes p ↦ rw (low j (omega arith)) | no p ↦ ground arith ])
        (λ j q. ground arith))
sign_stops (suc n) i (suc fuel) words hs e f low top = elim (Bool-cases (words i)) [
  | inl on ↦
      let words' : Bits = λ j. words j && not (j == i) in
      let past : (31 == i) ≡ false = ground arith in
      rw
        (
          scan-some bits_per_long 0 i words (omega arith) (omega arith) on (λ j p q. low j q),
          clear_sel_before words i (omega arith),
          drain_word-serve i hs,
          on,
          drain_words,
        )
        (sign_stops n (suc i) fuel words' (serve_word hs i) (omega arith) (omega arith)
            (λ j q. elim (dec_lt j i) [ yes below ↦ rw (low j below) | no here ↦ ground arith ])
            (rw (top, past))
          ∙ ap (λ ws. some (foldl serve_word (serve_word hs i) ws))
              (set_bits-ext (suc n) (suc i) words' words (λ j q. ground arith)))
  | inr off ↦ rw off (
      sign_stops n (suc i) (suc fuel) words hs (omega arith) (omega arith)
        (λ j q. elim (dec_lt j i) [
          | yes below ↦ low j below
          | no here ↦ subst (λ k. words k ≡ false) (omega arith) off
        ])
        top)
]

-- When Xen selects word 31, the service routine empties the selector but serves the words up to 31
-- only: the events of every word above stay pending, whether Xen selected the word or not.
pub isr_lost :
    (s : EvState) (pcpu : ℕ)
    → s.interrupts_masked ≡ false
    → selector s 31 ≡ true
    → (handled : Bool) × (t : EvState) × (isr s pcpu ≡ some (handled, t))
      × Served 32 0 (selector s) s t
      × ((w : ℕ) → selector t w ≡ false)
      × ((w b : ℕ) → 32 ≤ w → b < bits_per_long → t.pending w b ≡ s.pending w b)
unfolding isr acknowledge take_sel
isr_lost s pcpu open_ top =
    let start = take_sel (acknowledge s pcpu) in
    let out = foldl serve_word (false, start) (set_bits 32 0 (selector s)) in
    let r =
      Served-start 32 0 (selector s) s start out.1 refl refl refl refl
        (serve_words 32 0 (selector s) (false, start)) in
    (
      out.0,
      out.1,
      ap
            (λ b.
              if b
              then some (true, acknowledge s pcpu)
              else drain_words (bits_per_long + 1) (selector s) (false, start))
            open_
          ∙ sign_stops 31 0 (bits_per_long + 1) (selector s) (false, start) refl (omega arith)
              (λ j q. absurd (omega arith)) top,
      r,
      (λ w.
          ap (λ v. (v 0).pending_sel w)
            (vcpus-serve_words (set_bits 32 0 (selector s)) (false, start))),
      (λ w b h q. r.pending w b q ∙ rw (outside w h) (keep (s.pending w b))),
    )
  where
    outside : (w : ℕ) → 32 ≤ w → within 0 32 w ≡ false
    outside w h = ground arith

    keep : (x : Bool) → (x && true) ≡ x
    keep true = refl
    keep false = refl
