-- ===== src/Evtchn/Scan.antt =====
-- The loops of the service routine rescan a word after each event. They come to one pass over the
-- bits that were set at the start.
use mathlib.Core.List.{foldl}
use native.Mathlib.Decide.{dec_lt}
use win_pvdrivers_mirror.Base.{
  ℕ, zero, suc, ◌+◌, ◌<◌, ◌≤◌, ◌≡◌, refl, ap, ◌∙◌, inl, inr, Bool, true, false, not, ◌&&◌, some,
  ltb, lt→ltb, subst, ◌==◌, arith, Bool-cases, Bits, set_bits, set_bits-ext, scan-some, scan-none,
}
use win_pvdrivers_mirror.Evtchn.{
  ActionType, empty, EvState, bits_per_long, put_bit, port_of, dispatch, handle_event, live,
  drain_word, clear_sel, drain_words,
}

-- Serving bit `b` of word `w`, with `handled`.
abbrev pub serve : ℕ → Bool × EvState → ℕ → Bool × EvState
serve w hs b = (true, handle_event w hs.1 b)

-- One pass over the live bits of word `w`.
abbrev pub serve_word : Bool × EvState → ℕ → Bool × EvState
serve_word hs w = foldl (serve w) hs (set_bits bits_per_long 0 (live hs.1 w))

pub pending-dispatch : (t : ActionType) (s : EvState) (p : ℕ) → (dispatch t s p).pending ≡ s.pending
unfolding dispatch
pending-dispatch empty s p = refl
pending-dispatch _ s p = refl

pub mask-dispatch : (t : ActionType) (s : EvState) (p : ℕ) → (dispatch t s p).mask ≡ s.mask
unfolding dispatch
mask-dispatch empty s p = refl
mask-dispatch _ s p = refl

pub pending-handle_event :
    (s : EvState) (w b : ℕ) → (handle_event w s b).pending ≡ put_bit s.pending w b false
unfolding handle_event
pending-handle_event s w b = pending-dispatch (s.actions (port_of w b)).type _ (port_of w b)

pub mask-handle_event : (s : EvState) (w b : ℕ) → (handle_event w s b).mask ≡ s.mask
unfolding handle_event
mask-handle_event s w b = mask-dispatch (s.actions (port_of w b)).type _ (port_of w b)

pub live-handle_event :
    (s : EvState) (w b w' j : ℕ)
    → live (handle_event w s b) w' j ≡ (live s w' j && not ((w' == w) && (j == b)))
live-handle_event s w b w' j =
    rw (pending-handle_event s w b, mask-handle_event s w b) (ground arith)

-- From position `i` on, with no live bit below and a round for each bit and one more.
drain_word-from :
    (n i fuel w : ℕ) (h : Bool) (s : EvState)
    → i + n ≡ bits_per_long
    → n < fuel
    → ((j : ℕ) → j < i → live s w j ≡ false)
    → drain_word fuel w (h, s) ≡ some (foldl (serve w) (h, s) (set_bits n i (live s w)))
unfolding drain_word set_bits
drain_word-from n i zero w h s e f low = absurd (omega arith)
drain_word-from zero i (suc fuel) w h s e f low =
    rw (scan-none bits_per_long 0 (live s w) (λ j p q. low j (omega arith)), drain_word)
drain_word-from (suc n) i (suc fuel) w h s e f low = elim (Bool-cases (live s w i)) [
  | inl on ↦
      let s' = handle_event w s i in
      rw
        (
          scan-some bits_per_long 0 i (live s w) (omega arith) (omega arith) on (λ j p q. low j q),
          on,
          drain_word,
        )
        (drain_word-from n (suc i) fuel w true s' (omega arith) (omega arith) (passed on)
          ∙ ap (λ bs. some (foldl (serve w) (true, s') bs))
              (set_bits-ext n (suc i) (live s' w) (live s w) above))
  | inr off ↦ rw off (
      drain_word-from n (suc i) (suc fuel) w h s (omega arith) (omega arith) (λ j q.
        elim (dec_lt j i) [
          | yes below ↦ low j below
          | no here ↦ subst (λ k. live s w k ≡ false) (omega arith) off
        ]))
]
  where
    above : (j : ℕ) → suc i ≤ j → live (handle_event w s i) w j ≡ live s w j
    above j q = live-handle_event s w i w j ∙ ground arith

    passed : live s w i ≡ true → (j : ℕ) → j < suc i → live (handle_event w s i) w j ≡ false
    passed on j q = elim (dec_lt j i) [
      | yes below ↦ live-handle_event s w i w j ∙ rw (low j below)
      | no here ↦ live-handle_event s w i w j ∙ ground arith
    ]

-- The inner loop with 65 rounds is one pass over the live bits of its word.
pub drain_word-serve :
    (w : ℕ) (hs : Bool × EvState) → drain_word (bits_per_long + 1) w hs ≡ some (serve_word hs w)
drain_word-serve w (h, s) =
    drain_word-from bits_per_long 0 (bits_per_long + 1) w h s refl (omega arith)
      (λ j q. absurd (omega arith))

clear_sel_low :
    (words : Bits) (w : ℕ)
    → w < 32
    → ((j : ℕ) → 32 ≤ j → words j ≡ false)
    → (words' : Bits) × (clear_sel words w ≡ some words')
      × ((j : ℕ) → words' j ≡ (words j && not (j == w)))
unfolding clear_sel
clear_sel_low words w h high = elim (dec_lt w 31) [
  | yes low ↦ (_, rw (lt→ltb w 31 low), λ j. refl)
  | no last ↦
      let e : w ≡ 31 = omega arith in
      (
        (λ j. words j && ltb j 31),
        ground arith,
        (λ j. elim (dec_lt j 32) [ yes p ↦ ground arith | no p ↦ rw (high j (omega arith)) ]),
      )
]

pub drain_words-from :
    (n i fuel : ℕ) (words : Bits) (hs : Bool × EvState)
    → i + n ≡ 32
    → n < fuel
    → ((j : ℕ) → j < i → words j ≡ false)
    → ((j : ℕ) → 32 ≤ j → words j ≡ false)
    → drain_words fuel words hs ≡ some (foldl serve_word hs (set_bits n i words))
unfolding drain_words set_bits
drain_words-from n i zero words hs e f low high = absurd (omega arith)
drain_words-from zero i (suc fuel) words hs e f low high =
    rw (scan-none bits_per_long 0 words none_left, drain_words)
  where
    none_left : (j : ℕ) → 0 ≤ j → j < 64 → words j ≡ false
    none_left j p q = elim (dec_lt j i) [
      | yes below ↦ low j below
      | no above ↦ high j (omega arith)
    ]
drain_words-from (suc n) i (suc fuel) words hs e f low high = elim (Bool-cases (words i)) [
  | inl on ↦
      let (words', cleared, same) = clear_sel_low words i (omega arith) high in
      rw
        (
          scan-some bits_per_long 0 i words (omega arith) (omega arith) on (λ j p q. low j q),
          cleared,
          drain_word-serve i hs,
          on,
          drain_words,
        )
        (drain_words-from n (suc i) fuel words' (serve_word hs i) (omega arith) (omega arith)
            (λ j q.
              same j ∙ elim (dec_lt j i) [ yes below ↦ rw (low j below) | no here ↦ ground arith ])
            (λ j q. same j ∙ rw (high j q))
          ∙ ap (λ ws. some (foldl serve_word (serve_word hs i) ws))
              (set_bits-ext n (suc i) words' words (λ j q. same j ∙ ground arith)))
  | inr off ↦ rw off (
      drain_words-from n (suc i) (suc fuel) words hs (omega arith) (omega arith)
        (λ j q. elim (dec_lt j i) [
          | yes below ↦ low j below
          | no here ↦ subst (λ k. words k ≡ false) (omega arith) off
        ])
        high)
]

-- The outer loop with 65 rounds is one pass over the words that the selector names, if it names
-- words below 32.
pub drain_words-serve :
    (words : Bits) (hs : Bool × EvState)
    → ((j : ℕ) → 32 ≤ j → words j ≡ false)
    → drain_words (bits_per_long + 1) words hs ≡ some (foldl serve_word hs (set_bits 32 0 words))
drain_words-serve words hs high =
    drain_words-from 32 0 (bits_per_long + 1) words hs refl (omega arith)
      (λ j q. absurd (omega arith)) high
