-- ===== src/Tx/Tests.antt =====
-- Transmission on a small state: the requests of a packet, two requests in flight with a slot of extra
-- information between them and their responses, and a list of packets that waits when the device is
-- shut down.
use win_pvdrivers_mirror.Tx.{
  LinkState, TxState, TxShadow, TxStats, TxResponse, NetBufferList, Collected, empty_shadow,
  net_tx_ring_size, tx_init, collect_responses, queue_list, shutdown_queue,
}
use win_pvdrivers_mirror.Tx.Free.{Idle, IsTx, free_ids}
use win_pvdrivers_mirror.Tx.Setup.{tx_init-IsTx}
use win_pvdrivers_mirror.Tx.Responses.{InFlight}
use win_pvdrivers_mirror.Tx.Round.{GivenBack, answered_ids, collect_responses-GivenBack}
use win_pvdrivers_mirror.Tx.PseudoHeader.{adjust_checksum, adjust_checksum_lem}
use win_pvdrivers_mirror.Tx.Frags.{
  Walk, Fragment, put_fragments, count_fragments, Cut, span_addresses,
}
use win_pvdrivers_mirror.Tx.Walk.{put_fragments-Cut}
use win_pvdrivers_mirror.Tx.Lists.{members, completions, Counted, once_if}
use win_pvdrivers_mirror.Tx.Queueing.{queue_list-shutdown_queue}
use win_pvdrivers_mirror.Base.{
  ℕ, ◌%◌, ◌+◌, ◌<◌, ◌≡◌, ◌≢◌, refl, sym, subst, inl, inr, true, false, none, some, List, [], ◌∷◌,
  length, elem, if◌then◌else◌, ◌==◌, ==_iff, Bool-cases, arith,
}

abbrev no_stats : TxStats
no_stats = record {
  octets = 0;
  ucast_pkts = 0;
  ucast_octets = 0;
  broadcast_pkts = 0;
  broadcast_octets = 0;
  multicast_pkts = 0;
  multicast_octets = 0;
}

-- The packets 40 and 41 are of the list 4. The requests 5 and 6 are on the ring, the latter the last
-- of the packet 40, and the ids
-- 7 to 11 are free, for four slots and one of extra information.
abbrev busy_shadows : ℕ → TxShadow
busy_shadows j =
    if j == 5
    then record { packet = none; cb = some 90; gref = some 70 }
    else (if j == 6 then record { packet = some 40; cb = none; gref = some 71 } else empty_shadow)

abbrev busy : TxState
busy = record {
  device_state = LinkState.link_active;
  waiting = [];
  nbs = λ p. record { nbl = 4; data_length = 60; header = λ i. 2 };
  nbl_ref = λ n. 2;
  ring_free = 4;
  id_free = 5;
  id_list = λ k. k + 7;
  shadows = busy_shadows;
  requests = λ i. record { id = 0; gref = 0; offset = 0; size = 0 };
  req_prod = 3;
  outstanding = 1;
  idle_event = false;
  stats = no_stats;
  calls = [];
}

busy_free : (j : ℕ) → elem j (free_ids busy) ≡ true → (j < net_tx_ring_size) × Idle (busy.shadows j)
busy_free j e = elim (Bool-cases (j == 11)) [
  | inl a ↦ at 11 a (omega arith, (refl, refl))
  | inr a ↦ elim (Bool-cases (j == 10)) [
    | inl b ↦ at 10 b (omega arith, (refl, refl))
    | inr b ↦ elim (Bool-cases (j == 9)) [
      | inl c ↦ at 9 c (omega arith, (refl, refl))
      | inr c ↦ elim (Bool-cases (j == 8)) [
        | inl d ↦ at 8 d (omega arith, (refl, refl))
        | inr d ↦ elim (Bool-cases (j == 7)) [
          | inl f ↦ at 7 f (omega arith, (refl, refl))
          | inr f ↦ absurd (ground arith)
        ]
      ]
    ]
  ]
]
  where
    at :
        (k : ℕ)
        → (j == k) ≡ true
        → (k < net_tx_ring_size) × Idle (busy.shadows k)
        → (j < net_tx_ring_size) × Idle (busy.shadows j)
    at k same h =
        subst (λ i. (i < net_tx_ring_size) × Idle (busy.shadows i)) (sym ((==_iff j k).0 same)) h

busy-IsTx : IsTx 1 busy
busy-IsTx = record {
  distinct = (refl, (refl, (refl, (refl, (refl, tt)))));
  free = busy_free;
  slots = refl;
}

-- A packet of 5000 and 1000 bytes, of which the first page is the header.
abbrev walk : Walk
walk = record {
  spans =
      record { count = 5000; byte_offset = 100; pfns = λ p. 700 + p }
      ∷ record { count = 1000; byte_offset = 0; pfns = λ p. 900 + p }
      ∷ [];
  offset = 4096;
}

put_fragments-Cut_example :
    (fs : List Fragment) × (put_fragments 2000 walk 1904 ≡ some fs)
    × Cut (span_addresses walk.spans walk.offset) 1904 1 fs (count_fragments 2000 walk 1904 1)
put_fragments-Cut_example =
    put_fragments-Cut 2000 walk 1904 1 (omega arith) refl (omega arith) (omega arith) (omega arith)

tx_init-IsTx_example :
    (t : TxState) × (tx_init busy ≡ some t)
    × IsTx 0 t
    × (t.id_free ≡ net_tx_ring_size)
    × (t.ring_free ≡ net_tx_ring_size)
    × (t.waiting ≡ [])
    × (t.outstanding ≡ 0)
tx_init-IsTx_example = tx_init-IsTx busy

-- The responses: to the request 5, to the extra information, to the request 6.
abbrev rsps : List TxResponse
rsps =
    record { id = 5; is_null = false }
    ∷ record { id = 0; is_null = true }
    ∷ record { id = 6; is_null = false }
    ∷ []

abbrev start : Collected
start = record { tx = busy; head = []; tx_packets = 0 }

rsps-InFlight : (j : ℕ) → elem j (answered_ids rsps) ≡ true → InFlight busy j
rsps-InFlight j e = elim (Bool-cases (j == 5)) [
  | inl a ↦ at 5 a (omega arith, 70, refl)
  | inr a ↦ elim (Bool-cases (j == 6)) [
    | inl b ↦ at 6 b (omega arith, 71, refl)
    | inr b ↦ absurd (ground arith)
  ]
]
  where
    at : (k : ℕ) → (j == k) ≡ true → InFlight busy k → InFlight busy j
    at k same h = subst (InFlight busy) (sym ((==_iff j k).0 same)) h

collect_responses-GivenBack_example :
    (h : Collected) × (collect_responses rsps start ≡ some h)
    × GivenBack start (answered_ids rsps) (length rsps) h
    × IsTx 0 h.tx
collect_responses-GivenBack_example =
    collect_responses-GivenBack 0 rsps start busy-IsTx (refl, (refl, tt)) rsps-InFlight

-- The packet 50 of the list 6 waits already.
abbrev crowded : TxState
crowded = record busy {
  waiting = 50 ∷ [];
  nbs = λ p. record { nbl = 6; data_length = 60; header = λ i. 2 };
  nbl_ref = λ n. 1;
}

crowded-Counted : Counted crowded
crowded-Counted n ne = ground (arith, ne)

-- The list 4 with the packets 40 and 41 is queued, and the device shut down.
abbrev two_packets : NetBufferList
two_packets = record { nbl = 4; packets = 40 ∷ 41 ∷ [] }

apart_from_50 : (p : ℕ) → elem p (50 ∷ []) ≡ true → elem p (40 ∷ 41 ∷ []) ≡ false
apart_from_50 p e = ground arith

queue_list-shutdown_queue_example :
    (completions 4 (shutdown_queue (queue_list two_packets crowded)).calls ≡ 0 + 1)
    × ((n : ℕ)
        → 4 ≢ n
        → completions n (shutdown_queue (queue_list two_packets crowded)).calls
          ≡ 0 + once_if (members crowded.nbs n (50 ∷ [])))
queue_list-shutdown_queue_example =
    queue_list-shutdown_queue two_packets crowded crowded-Counted refl (refl, (refl, tt))
      apart_from_50 (λ e. absurd (cc)) (omega arith)

adjust_checksum_lem_example : adjust_checksum 65000 1000 % 65535 ≡ (65000 + 1000) % 65535
adjust_checksum_lem_example = adjust_checksum_lem 65000 1000 (omega arith) (omega arith)
