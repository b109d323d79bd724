-- ===== src/Xenbus/Rounds.antt =====
-- A round of the loop of `XenBus_Dpc`.
use win_pvdrivers_mirror.Base.{
  le→leb, ltb→le, ltb→lt, ◌⊎◌, ℕ, ◌+◌, ◌-◌, ◌%◌, ◌^◌, ◌<◌, ◌≤◌, ◌≡◌, refl, ap, sym, ◌∙◌, inl, inr,
  min, Bool, true, false, Option, none, some, List, [], ◌∷◌, ◌++◌, ltb, leb, ◌==◌, if◌then◌else◌,
  arith, length, length-append, append_assoc, Bool-cases, ==_iff,
}
use win_pvdrivers_mirror.Xenbus.{
  XbMsg, XbState, Header, notify_port, set_event, queue_watch, mask_idx, ring_gap, sizeof_sockmsg,
  whole_size, xs_watch_event, memcpy_from_ring, decode, Round, stop, finish, give_reply,
  queue_event, receive, begin_msg, dpc_round, log,
}
use win_pvdrivers_mirror.Xenbus.Bytes.{fetch, memcpy_from_ring-fetch, length-fetch}
use win_pvdrivers_mirror.Xenbus.Stream.{
  held, stream, IsHeld, IsWhole, IsPart, HoldsWhole, IsValid, AllHeld, Passed, replied, watched,
  put_off, failed, RoundEnd, waited, passed, decode-append, advance, stream-held, length-stream,
  held-IsPart,
}

held_first :
    (s : XbState) (m : XbMsg) (prod : ℕ)
    → s.xb_msg ≡ some m
    → stream s prod ≡ m.raw ++ fetch s.rsp s.rsp_cons (ring_gap prod s.rsp_cons)
unfolding stream
held_first s m prod e = ap (λ o. held o ++ fetch s.rsp s.rsp_cons (ring_gap prod s.rsp_cons)) e

give_reply-Passed :
    (o : Option XbMsg) (s : XbState) (m : XbMsg) (prod : ℕ) (created : Bool)
    → s.xb_reply ≡ o
    → s.xb_msg ≡ some m
    → IsWhole m.raw
    → ((decode m.raw).type == xs_watch_event) ≡ false
    → IsValid s prod
    → Passed s prod created (give_reply o s m)
unfolding give_reply
give_reply-Passed none s m prod created free e whole kind v =
    replied m whole kind (stream-held s _ m prod e refl refl refl) refl free refl
      (append_assoc s.calls (set_event ∷ []) (notify_port ∷ []))
      (record { cons_fits = v.cons_fits; prod_fits = v.prod_fits; room = v.room; msg = tt })
give_reply-Passed (some r) s m prod created taken e whole kind v =
    failed m r (fetch s.rsp s.rsp_cons (ring_gap prod s.rsp_cons)) whole kind
      (held_first s m prod e) taken

queue_event-Passed :
    (s : XbState) (m : XbMsg) (prod : ℕ) (created : Bool)
    → s.xb_msg ≡ some m
    → IsWhole m.raw
    → ((decode m.raw).type == xs_watch_event) ≡ true
    → IsValid s prod
    → Passed s prod created (queue_event created s m)
unfolding queue_event
queue_event-Passed s m prod true e whole kind v =
    watched m whole kind (stream-held s _ m prod e refl refl refl) refl refl
      (append_assoc s.calls (queue_watch m.raw ∷ []) (notify_port ∷ []))
      (record { cons_fits = v.cons_fits; prod_fits = v.prod_fits; room = v.room; msg = tt })
queue_event-Passed s m prod false e whole kind v = put_off refl refl refl refl v

finish-Passed :
    (s : XbState) (m : XbMsg) (prod : ℕ) (created : Bool)
    → s.xb_msg ≡ some m
    → IsWhole m.raw
    → decode m.raw ≡ m.header
    → IsValid s prod
    → Passed s prod created (finish s m created)
unfolding finish
finish-Passed s m prod created e whole head v =
    elim (Bool-cases (m.header.type == xs_watch_event)) [
      | inl watch ↦ rw watch (
          queue_event-Passed s m prod created e whole
            (ap (λ (h : Header). h.type == xs_watch_event) head ∙ watch) v)
      | inr other ↦ rw other (
          give_reply-Passed s.xb_reply s m prod created refl e whole
            (ap (λ (h : Header). h.type == xs_watch_event) head ∙ other) v)
    ]

-- What happens to it from a state with the same bytes, reply and log.
Passed-from :
    (s t : XbState) (prod : ℕ) (created : Bool) (r : Round)
    → stream t prod ≡ stream s prod
    → t.xb_reply ≡ s.xb_reply
    → t.calls ≡ s.calls
    → Passed t prod created r
    → Passed s prod created r
Passed-from s t prod created r e f g (replied m w y b o free c d v) =
    replied m w y (sym e ∙ b) o (sym f ∙ free) c
      (d ∙ ap (λ l. l ++ (set_event ∷ notify_port ∷ [])) g) v
Passed-from s t prod created r e f g (watched m w y b o c d v) =
    watched m w y (sym e ∙ b) o (c ∙ f)
      (d ∙ ap (λ l. l ++ (queue_watch m.raw ∷ notify_port ∷ [])) g) v
Passed-from s t prod created r e f g (put_off fail b c d v) = put_off fail (b ∙ e) (c ∙ f) (d ∙ g) v
Passed-from s t prod created r e f g (failed m q rest w y b taken) =
    failed m q rest w y (sym e ∙ b) (sym f ∙ taken)

receive-RoundEnd :
    (s0 s : XbState) (m : XbMsg) (prod : ℕ) (created : Bool)
    → stream s prod ≡ stream s0 prod
    → s.xb_reply ≡ s0.xb_reply
    → s.calls ≡ s0.calls
    → s.xb_msg ≡ some m
    → IsHeld m
    → IsValid s prod
    → RoundEnd s0 prod created (receive s m prod created)
unfolding receive stream
receive-RoundEnd s0 s m prod created e0 f0 g0 e h v =
    let n = min (ring_gap prod s.rsp_cons) (whole_size m - length m.raw) in
    let new_bytes = memcpy_from_ring s.rsp (mask_idx s.rsp_cons) n in
    let bytes : new_bytes ≡ fetch s.rsp s.rsp_cons n =
      memcpy_from_ring-fetch s.rsp s.rsp_cons n (omega (arith, v.room)) in
    let count : length new_bytes ≡ n = ap length bytes ∙ length-fetch n s.rsp s.rsp_cons in
    let m' : XbMsg = record m { raw = m.raw ++ new_bytes } in
    let s' = record s { rsp_cons = (s.rsp_cons + n) % 2 ^ 32; xb_msg = some m' } in
    let size : length m'.raw ≡ length m.raw + n =
      omega (arith, length-append m.raw new_bytes, count) in
    let held' : IsHeld m' = record {
      header = decode-append m.raw new_bytes h.started ∙ h.header;
      started = omega (arith, h.started, size);
      bounded = omega (arith, h.bounded, size);
    } in
    let v' : IsValid s' prod = record {
      cons_fits = omega arith;
      prod_fits = v.prod_fits;
      room = omega (arith, v.room, v.cons_fits, v.prod_fits);
      msg = held';
    } in
    let same : stream s' prod ≡ stream s prod =
      append_assoc m.raw new_bytes (fetch s.rsp s'.rsp_cons (ring_gap prod s'.rsp_cons))
      ∙ ap (λ ys. m.raw ++ (ys ++ fetch s.rsp s'.rsp_cons (ring_gap prod s'.rsp_cons))) bytes
      ∙ ap (λ ys. m.raw ++ ys)
          (sym (advance s.rsp s.rsp_cons prod n v.cons_fits v.prod_fits (omega arith)))
      ∙ sym (ap (λ o. held o ++ fetch s.rsp s.rsp_cons (ring_gap prod s.rsp_cons)) e) in
    let fits : leb (length m.raw + n) (whole_size m) ≡ true =
      le→leb (length m.raw + n) (whole_size m) (omega (arith, h.bounded)) in
    let left = fetch s.rsp s'.rsp_cons (ring_gap prod s'.rsp_cons) in
    let part : ltb (length m'.raw) (whole_size m) ≡ true
        → IsPart (m'.raw ++ left) ⊎ HoldsWhole s0.xb_msg =
      λ partial.
        part_of m'.raw left (ltb→lt (length m'.raw) (whole_size m) partial)
          (omega (
            arith,
            length-fetch (ring_gap prod s'.rsp_cons) s.rsp s'.rsp_cons,
            ltb→lt (length m'.raw) (whole_size m) partial,
          ))
          (decode-append m'.raw left held'.started ∙ held'.header) in
    elim (Bool-cases (ltb (length m'.raw) (whole_size m))) [
      | inl partial ↦
          rw (fits, partial)
            (waited {t = log s' notify_port} (same ∙ e0) f0 (part partial)
              (inr (ap (λ l. l ++ notify_port ∷ []) g0))
              (record {
                cons_fits = v'.cons_fits;
                prod_fits = v'.prod_fits;
                room = v'.room;
                msg = held';
              }))
      | inr full ↦
          rw (fits, full)
            (passed (
              Passed-from s0 s' prod created (finish s' m' created) (same ∙ e0) f0 g0 (
                finish-Passed s' m' prod created refl
                  (whole_of (ltb→le (length m'.raw) (whole_size m) full) held') held'.header v')))
    ]
  where
    whole_of :
        {raw : List ℕ} → whole_size m ≤ length raw → IsHeld (record m { raw = raw }) → IsWhole raw
    whole_of {raw = raw} full h =
        let len : (decode raw).len ≡ m.header.len = ap Header.len h.header in
        omega (arith, h.bounded)

    part_of :
        (a b : List ℕ)
        → length a < whole_size m
        → length b ≡ 0
        → decode (a ++ b) ≡ m.header
        → IsPart (a ++ b) ⊎ HoldsWhole s0.xb_msg
    part_of a b h z d = inl (inr (omega (arith, length-append a b, ap Header.len d)))

-- A new message starts with its header.
begin_msg-RoundEnd :
    (s : XbState) (prod : ℕ) (created : Bool)
    → s.xb_msg ≡ none
    → sizeof_sockmsg ≤ ring_gap prod s.rsp_cons
    → IsValid s prod
    → RoundEnd s prod created (begin_msg s prod created)
unfolding begin_msg stream
begin_msg-RoundEnd s prod created e h v =
    let raw = memcpy_from_ring s.rsp (mask_idx s.rsp_cons) sizeof_sockmsg in
    let bytes : raw ≡ fetch s.rsp s.rsp_cons sizeof_sockmsg =
      memcpy_from_ring-fetch s.rsp s.rsp_cons sizeof_sockmsg (omega arith) in
    let count : length raw ≡ sizeof_sockmsg =
      ap length bytes ∙ length-fetch sizeof_sockmsg s.rsp s.rsp_cons in
    let m : XbMsg = record { header = decode raw; raw = raw } in
    let s' = record s { xb_msg = some m; rsp_cons = (s.rsp_cons + sizeof_sockmsg) % 2 ^ 32 } in
    let held' : IsHeld m = record {
      header = refl;
      started = omega (arith, count);
      bounded = omega (arith, count);
    } in
    let v' : IsValid s' prod = record {
      cons_fits = omega arith;
      prod_fits = v.prod_fits;
      room = omega (arith, v.room, v.cons_fits, v.prod_fits);
      msg = held';
    } in
    let same : stream s' prod ≡ stream s prod =
      ap (λ ys. ys ++ fetch s.rsp s'.rsp_cons (ring_gap prod s'.rsp_cons)) bytes
      ∙ sym (advance s.rsp s.rsp_cons prod sizeof_sockmsg v.cons_fits v.prod_fits h)
      ∙ sym (ap (λ o. held o ++ fetch s.rsp s.rsp_cons (ring_gap prod s.rsp_cons)) e) in
    receive-RoundEnd s s' m prod created same refl refl refl held' v'

-- From a valid state, with the ring at most full, a round of `XenBus_Dpc` loses no byte: the bytes
-- held and on the ring before it are those of the message it passes on, if it does, followed by those
-- held and on the ring after it. It passes on whole messages only, as their headers give their
-- length: a watch event to a work item, anything else as the reply, with the event set. It leaves the
-- loop only on less than a message or on one held back for want of a work item, and its assertion
-- fails only when the last reply has not been taken.
pub dpc_round-RoundEnd :
    (s : XbState) (prod : ℕ) (created : Bool)
    → IsValid s prod
    → RoundEnd s prod created (dpc_round s prod created)
unfolding dpc_round
dpc_round-RoundEnd s prod created v = elim (Bool-cases (prod == s.rsp_cons)) [
  | inl empty ↦
      rw empty
        (idle s.xb_msg refl v.msg (omega (arith, (==_iff prod s.rsp_cons).0 empty, v.cons_fits)))
  | inr more ↦ rw more (by_msg s.xb_msg refl v.msg)
]
  where
    wait : IsPart (stream s prod) ⊎ HoldsWhole s.xb_msg → RoundEnd s prod created (stop s)
    wait part = waited refl refl part (inl refl) v

    idle :
        (o : Option XbMsg)
        → s.xb_msg ≡ o
        → AllHeld o
        → ring_gap prod s.rsp_cons ≡ 0
        → RoundEnd s prod created (stop s)
    idle none e h z = wait (inl (inl (omega (arith, z, length-stream s prod e))))
    idle (some m) e h z = wait (held-IsPart s prod m e h z)

    by_msg :
        (o : Option XbMsg)
        → s.xb_msg ≡ o
        → AllHeld o
        → RoundEnd s prod created (elim o [
          | none ↦
              if ltb (ring_gap prod s.rsp_cons) sizeof_sockmsg
              then stop s
              else begin_msg s prod created
          | some m ↦ receive s m prod created
        ])
    by_msg none e h = elim (Bool-cases (ltb (ring_gap prod s.rsp_cons) sizeof_sockmsg)) [
      | inl short ↦ rw short (
          wait (
            inl (
              inl (
                omega (
                  arith,
                  ltb→lt (ring_gap prod s.rsp_cons) sizeof_sockmsg short,
                  length-stream s prod e,
                )))))
      | inr long ↦ rw long (
          begin_msg-RoundEnd s prod created e
            (ltb→le (ring_gap prod s.rsp_cons) sizeof_sockmsg long) v)
    ]
    by_msg (some m) e h = receive-RoundEnd s s m prod created refl refl refl e h v
