-- ===== src/Xenbus/Delivery.antt =====
-- The loop of `XenBus_Dpc` over what has come when the interrupt is served.
use win_pvdrivers_mirror.Base.{
  ℕ, zero, suc, ◌<◌, ◌≡◌, ◌⊎◌, refl, ap, subst, sym, ◌∙◌, inl, inr, Bool, true, false, Option, none,
  some, List, [], ◌∷◌, ◌++◌, ◌==◌, if◌then◌else◌, arith, length, length-append, append_assoc,
  append-nil, replicate, All,
}
use win_pvdrivers_mirror.Xenbus.{
  XbMsg, XbState, XbCall, notify_port, set_event, queue_watch, xs_watch_event, decode, Round, stop,
  next, assert_failed, dpc_round, dpc,
}
use win_pvdrivers_mirror.Xenbus.Send.{joined}
use win_pvdrivers_mirror.Xenbus.Stream.{
  stream, IsWhole, IsPart, HoldsWhole, IsValid, replied, watched, put_off, failed, RoundEnd, waited,
  passed,
}
use win_pvdrivers_mirror.Xenbus.Rounds.{dpc_round-RoundEnd}

abbrev pub is_event : List ℕ → Bool
is_event bytes = (decode bytes).type == xs_watch_event

-- What is asked of the kernel and the event channel for a message, and for several.
abbrev pub event_calls : List ℕ → List XbCall
event_calls bytes =
    if is_event bytes then queue_watch bytes ∷ notify_port ∷ [] else set_event ∷ notify_port ∷ []

unfoldable pub all_calls : List (List ℕ) → List XbCall
all_calls [] = []
all_calls (m ∷ ms) = event_calls m ++ all_calls ms

-- The bytes of the reply that has not been taken; and after messages, each reply among them taking the
-- place.
abbrev pub reply_of : Option XbMsg → Option (List ℕ)
reply_of none = none
reply_of (some m) = some m.raw

unfoldable pub reply_after : Option (List ℕ) → List (List ℕ) → Option (List ℕ)
reply_after o [] = o
reply_after o (m ∷ ms) = reply_after (if is_event m then o else some m) ms

-- No reply comes while one is there.
abbrev pub OneReply : Option (List ℕ) → List (List ℕ) → Type 0
OneReply o [] = Unit
OneReply o (m ∷ ms) =
    (is_event m ≡ false → o ≡ none) × OneReply (if is_event m then o else some m) ms

-- How the loop ends, from the state `s`.
pub data DpcEnd (s : XbState) (prod : ℕ) : Round → Type 0 where
  emptied :
      {t : XbState} (ms : List (List ℕ)) (notes : List XbCall)
      → All IsWhole ms
      → stream s prod ≡ joined ms ++ stream t prod
      → IsPart (stream t prod)
      → t.calls ≡ s.calls ++ (all_calls ms ++ notes)
      → reply_of t.xb_reply ≡ reply_after (reply_of s.xb_reply) ms
      → OneReply (reply_of s.xb_reply) ms
      → (notes ≡ []) ⊎ (notes ≡ notify_port ∷ [])
      → DpcEnd s prod (stop t)
  overrun :
      (ms : List (List ℕ)) (m r rest : List ℕ)
      → All IsWhole ms
      → stream s prod ≡ joined ms ++ (m ++ rest)
      → reply_after (reply_of s.xb_reply) ms ≡ some r
      → IsWhole m
      → is_event m ≡ false
      → DpcEnd s prod assert_failed

DpcEnd-cons :
    (s t : XbState) (prod : ℕ) (m : List ℕ) (r : Round)
    → IsWhole m
    → stream s prod ≡ m ++ stream t prod
    → t.calls ≡ s.calls ++ event_calls m
    → reply_of t.xb_reply ≡ (if is_event m then reply_of s.xb_reply else some m)
    → (is_event m ≡ false → reply_of s.xb_reply ≡ none)
    → DpcEnd t prod r
    → DpcEnd s prod r
unfolding joined all_calls reply_after
DpcEnd-cons s t prod m r w b c k free
      (emptied {t = u} ms notes whole rest part calls reply once one) =
    emptied (m ∷ ms) notes (w, whole)
      (b ∙ ap (λ ys. m ++ ys) rest ∙ sym (append_assoc m (joined ms) (stream u prod))) part
      (calls
        ∙ ap (λ l. l ++ (all_calls ms ++ notes)) c
        ∙ append_assoc s.calls (event_calls m) (all_calls ms ++ notes)
        ∙ sym (ap (λ l. s.calls ++ l) (append_assoc (event_calls m) (all_calls ms) notes)))
      (reply ∙ ap (λ o. reply_after o ms) k) (free, subst (λ o. OneReply o ms) k once) one
DpcEnd-cons s t prod m r w b c k free (overrun ms m' r' rest whole e reply w' kind) =
    overrun (m ∷ ms) m' r' rest (w, whole)
      (b ∙ ap (λ ys. m ++ ys) e ∙ sym (append_assoc m (joined ms) (m' ++ rest)))
      (sym (ap (λ o. reply_after o ms) k) ∙ reply) w' kind

-- While xenstored writes nothing more and every work item is created, from a valid state (ring indices
-- of 32 bits at most a ring apart, a message under way no longer than its header says) in which no
-- whole message is held back, `XenBus_Dpc` ends after at most as many rounds as there are bytes and one
-- more. It hands on, in order, whole messages that the bytes held and on the ring begin with, each
-- watch event by one work item, each reply by the event and in `xb_reply`, and each with a
-- notification. Either these are all the whole messages, no reply among them comes while one is there,
-- and it leaves less than a message and in `xb_reply` the reply that has come or else what was there.
-- Or its assertion fails, and then the next message is whole and a reply, and a reply is there already.
pub dpc-DpcEnd :
    (n : ℕ) (s : XbState) (prod : ℕ)
    → IsValid s prod
    → (HoldsWhole s.xb_msg → ⊥)
    → length (stream s prod) < n
    → DpcEnd s prod (dpc (replicate n (prod, true)) s)
unfolding dpc all_calls joined reply_after
dpc-DpcEnd zero s prod v h k = absurd (omega arith)
dpc-DpcEnd (suc n) s prod v h k =
    go (λ t u g l. dpc-DpcEnd n t prod u g l) (dpc_round s prod true)
      (dpc_round-RoundEnd s prod true v)
  where
    calls_of : (b : Bool) (m : List ℕ) → List XbCall
    calls_of b m = if b then queue_watch m ∷ notify_port ∷ [] else set_event ∷ notify_port ∷ []

    shorter :
        (t : XbState) (m : XbMsg)
        → IsWhole m.raw
        → stream s prod ≡ m.raw ++ stream t prod
        → length (stream t prod) < n
    shorter t m w b = omega (arith, length-append m.raw (stream t prod), ap length b)

    fresh : {o : Option XbMsg} → o ≡ none → HoldsWhole o → ⊥
    fresh e (m, f, _) = absurd (cc)

    clash : {b : Bool} → b ≡ true → b ≡ false → ⊥
    clash e f = cc

    stay :
        (t : XbState) (notes : List XbCall)
        → stream t prod ≡ stream s prod
        → t.xb_reply ≡ s.xb_reply
        → IsPart (stream t prod) ⊎ HoldsWhole s.xb_msg
        → t.calls ≡ s.calls ++ notes
        → (notes ≡ []) ⊎ (notes ≡ notify_port ∷ [])
        → DpcEnd s prod (stop t)
    stay t notes b o (inl p) c one = emptied [] notes tt (sym b) p c (ap reply_of o) tt one
    stay t notes b o (inr w) c one = absurd (h w)

    go :
        ((t : XbState)
          → IsValid t prod
          → (HoldsWhole t.xb_msg → ⊥)
          → length (stream t prod) < n
          → DpcEnd t prod (dpc (replicate n (prod, true)) t))
        → (r : Round) → RoundEnd s prod true r
        → DpcEnd s prod (elim r [
          | next t ↦ dpc (replicate n (prod, true)) t
          | stop t ↦ stop t
          | assert_failed ↦ assert_failed
        ])
    go ih _ (waited {t = t} b c part (inl l) u) =
        stay t [] b c part (l ∙ sym (append-nil s.calls)) (inl refl)
    go ih _ (waited {t = t} b c part (inr l) u) = stay t (notify_port ∷ []) b c part l (inr refl)
    go ih _ (passed (replied {t = t} m w y b o free c d u)) =
        DpcEnd-cons s t prod m.raw _ w b (d ∙ ap (λ k. s.calls ++ calls_of k m.raw) (sym y))
          (ap reply_of c ∙ ap (λ k. if k then reply_of s.xb_reply else some m.raw) (sym y))
          (λ e. ap reply_of free) (ih t u (fresh o) (shorter t m w b))
    go ih _ (passed (watched {t = t} m w y b o c d u)) =
        DpcEnd-cons s t prod m.raw _ w b (d ∙ ap (λ k. s.calls ++ calls_of k m.raw) (sym y))
          (ap reply_of c ∙ ap (λ k. if k then reply_of s.xb_reply else some m.raw) (sym y))
          (λ e. absurd (clash y e)) (ih t u (fresh o) (shorter t m w b))
    go ih _ (passed (put_off fail b c d u)) = absurd (cc)
    go ih _ (passed (failed m r rest w y b taken)) =
        overrun [] m.raw r.raw rest tt b (ap reply_of taken) w y
