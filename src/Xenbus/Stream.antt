-- ===== src/Xenbus/Stream.antt =====
-- `XenBus_Dpc`: a round loses no byte of what xenstored sends, and delivers whole messages only.
use native.Mathlib.Decide.{dec_lt}
use win_pvdrivers_mirror.Base.{
  ◌⊎◌, ℕ, zero, suc, ◌+◌, ◌%◌, ◌^◌, ◌<◌, ◌≤◌, ◌≡◌, refl, ap, ap₂, sym, ◌∙◌, inl, inr, Bool, true,
  false, Option, none, some, List, [], ◌∷◌, ◌++◌, ◌==◌, arith, length, length-append, get_or,
}
use win_pvdrivers_mirror.Xenbus.{
  XbMsg, XbState, Header, notify_port, set_event, queue_watch, ring_size, ring_gap, sizeof_sockmsg,
  whole_size, xs_watch_event, decode, word, Round, stop, next, assert_failed,
}
use win_pvdrivers_mirror.Xenbus.Bytes.{fetch, fetch-add, fetch_mask, length-fetch}

-- The bytes received so far of the message that is being received.
abbrev pub held : Option XbMsg → List ℕ
held none = []
held (some m) = m.raw

-- The bytes received and not yet delivered, in the order sent.
unfoldable pub stream : XbState → ℕ → List ℕ
stream s prod = held s.xb_msg ++ fetch s.rsp s.rsp_cons (ring_gap prod s.rsp_cons)

-- A message under way agrees with its header and is no longer than that says.
pub record IsHeld (m : XbMsg) : Type 0 where
  pub header : decode m.raw ≡ m.header
  pub started : sizeof_sockmsg ≤ length m.raw
  pub bounded : length m.raw ≤ whole_size m

abbrev pub AllHeld : Option XbMsg → Type 0
AllHeld none = Unit
AllHeld (some m) = IsHeld m

-- Bytes that are one whole message: as long as their header says.
abbrev pub IsWhole : List ℕ → Type 0
IsWhole bytes = length bytes ≡ sizeof_sockmsg + (decode bytes).len

-- Bytes that are less than a whole message.
abbrev pub IsPart : List ℕ → Type 0
IsPart bytes =
    (length bytes < sizeof_sockmsg) ⊎ (length bytes < sizeof_sockmsg + (decode bytes).len)

-- A whole message is held back, since it got no work item.
abbrev pub HoldsWhole : Option XbMsg → Type 0
HoldsWhole o = (m : XbMsg) × (o ≡ some m) × IsWhole m.raw

-- The indices are 32-bit numbers, at most a ring apart.
pub record IsValid (s : XbState) (prod : ℕ) : Type 0 where
  pub cons_fits : s.rsp_cons < 2 ^ 32
  pub prod_fits : prod < 2 ^ 32
  pub room : ring_gap prod s.rsp_cons ≤ ring_size
  pub msg : AllHeld s.xb_msg

-- What happens to a whole message in a round from the state `s`.
pub data Passed (s : XbState) (prod : ℕ) (created : Bool) : Round → Type 0 where
  replied :
      {t : XbState} (m : XbMsg)
      → IsWhole m.raw
      → ((decode m.raw).type == xs_watch_event) ≡ false
      → stream s prod ≡ m.raw ++ stream t prod
      → t.xb_msg ≡ none
      → s.xb_reply ≡ none
      → t.xb_reply ≡ some m
      → t.calls ≡ s.calls ++ (set_event ∷ notify_port ∷ [])
      → IsValid t prod
      → Passed s prod created (next t)
  watched :
      {t : XbState} (m : XbMsg)
      → IsWhole m.raw
      → ((decode m.raw).type == xs_watch_event) ≡ true
      → stream s prod ≡ m.raw ++ stream t prod
      → t.xb_msg ≡ none
      → t.xb_reply ≡ s.xb_reply
      → t.calls ≡ s.calls ++ (queue_watch m.raw ∷ notify_port ∷ [])
      → IsValid t prod
      → Passed s prod created (next t)
  put_off :
      {t : XbState}
      → created ≡ false
      → stream t prod ≡ stream s prod
      → t.xb_reply ≡ s.xb_reply
      → t.calls ≡ s.calls
      → IsValid t prod
      → Passed s prod created (next t)
  failed :
      (m r : XbMsg) (rest : List ℕ)
      → IsWhole m.raw
      → ((decode m.raw).type == xs_watch_event) ≡ false
      → stream s prod ≡ m.raw ++ rest
      → s.xb_reply ≡ some r
      → Passed s prod created assert_failed

-- What a round does.
pub data RoundEnd (s : XbState) (prod : ℕ) (created : Bool) : Round → Type 0 where
  waited :
      {t : XbState}
      → stream t prod ≡ stream s prod
      → t.xb_reply ≡ s.xb_reply
      → IsPart (stream t prod) ⊎ HoldsWhole s.xb_msg
      → (t.calls ≡ s.calls) ⊎ (t.calls ≡ s.calls ++ notify_port ∷ [])
      → IsValid t prod
      → RoundEnd s prod created (stop t)
  passed : {r : Round} → Passed s prod created r → RoundEnd s prod created r

-- The header is read from the first 16 bytes.
get_or-append_left : (a b : List ℕ) (i d : ℕ) → i < length a → get_or (a ++ b) i d ≡ get_or a i d
get_or-append_left [] b i d h = absurd (omega arith)
get_or-append_left (x ∷ a) b zero d h = refl
get_or-append_left (x ∷ a) b (suc i) d h = get_or-append_left a b i d (omega arith)

pub decode-append : (a b : List ℕ) → sizeof_sockmsg ≤ length a → decode (a ++ b) ≡ decode a
unfolding decode
decode-append a b h =
    let header : ℕ → ℕ → ℕ → Header = λ t x l. record { type = t; tx_id = x; len = l } in
    ap (λ t. header t (word (a ++ b) 8) (word (a ++ b) 12)) (word-append 0 (omega arith))
    ∙ ap₂ (header (word a 0)) (word-append 8 (omega arith)) (word-append 12 (omega arith))
  where
    word-append : (i : ℕ) → i + 3 < length a → word (a ++ b) i ≡ word a i
    word-append i k = omega (
      arith,
      get_or-append_left a b i 0 (omega arith),
      get_or-append_left a b (i + 1) 0 (omega arith),
      get_or-append_left a b (i + 2) 0 (omega arith),
      get_or-append_left a b (i + 3) 0 (omega arith),
    )

-- What is left on the ring after `n` bytes.
pub advance :
    (ring : ℕ → ℕ) (cons prod n : ℕ)
    → cons < 2 ^ 32
    → prod < 2 ^ 32
    → n ≤ ring_gap prod cons
    → let cons' = (cons + n) % 2 ^ 32 in
      fetch ring cons (ring_gap prod cons)
      ≡ fetch ring cons n ++ fetch ring cons' (ring_gap prod cons')
advance ring cons prod n hc hp h =
    let cons' = (cons + n) % 2 ^ 32 in
    ap (fetch ring cons) whole
    ∙ fetch-add n (ring_gap prod cons') ring cons
    ∙ ap (λ ys. fetch ring cons n ++ ys)
        (fetch_mask (ring_gap prod cons') ring (cons + n) cons' (omega arith))
  where
    whole : ring_gap prod cons ≡ n + ring_gap prod ((cons + n) % 2 ^ 32)
    whole = omega arith

-- A message that has been passed on is off the stream.
pub stream-held :
    (s t : XbState) (m : XbMsg) (prod : ℕ)
    → s.xb_msg ≡ some m
    → t.xb_msg ≡ none
    → t.rsp ≡ s.rsp
    → t.rsp_cons ≡ s.rsp_cons
    → stream s prod ≡ m.raw ++ stream t prod
unfolding stream
stream-held s t m prod e f g h =
    ap (λ o. held o ++ fetch s.rsp s.rsp_cons (ring_gap prod s.rsp_cons)) e
    ∙ sym (ap₂ (λ r c. m.raw ++ fetch r c (ring_gap prod c)) g h)
    ∙ sym (ap (λ o. m.raw ++ (held o ++ fetch t.rsp t.rsp_cons (ring_gap prod t.rsp_cons))) f)

pub length-stream :
    (s : XbState) (prod : ℕ) → s.xb_msg ≡ none → length (stream s prod) ≡ ring_gap prod s.rsp_cons
unfolding stream
length-stream s prod e =
    ap (λ o. length (held o ++ fetch s.rsp s.rsp_cons (ring_gap prod s.rsp_cons))) e
    ∙ length-fetch (ring_gap prod s.rsp_cons) s.rsp s.rsp_cons

-- With an empty ring, what is held is part of a message or a whole one.
pub held-IsPart :
    (s : XbState) (prod : ℕ) (m : XbMsg)
    → s.xb_msg ≡ some m
    → IsHeld m
    → ring_gap prod s.rsp_cons ≡ 0
    → IsPart (stream s prod) ⊎ HoldsWhole s.xb_msg
unfolding stream
held-IsPart s prod m e h z =
    let left = fetch s.rsp s.rsp_cons (ring_gap prod s.rsp_cons) in
    let same : held s.xb_msg ++ left ≡ m.raw ++ left = ap (λ o. held o ++ left) e in
    let len : (decode (held s.xb_msg ++ left)).len ≡ m.header.len =
      ap (λ ys. (decode ys).len) same
      ∙ ap Header.len (decode-append m.raw left h.started ∙ h.header) in
    let size : length (held s.xb_msg ++ left) ≡ length m.raw =
      ap length same
      ∙ omega (
        arith,
        length-append m.raw left,
        length-fetch (ring_gap prod s.rsp_cons) s.rsp s.rsp_cons,
      ) in
    elim (dec_lt (length m.raw) (whole_size m)) [
      | yes less ↦ inl (inr (omega arith))
      | no full ↦ inr (m, e, omega (arith, h.bounded, ap Header.len h.header))
    ]
