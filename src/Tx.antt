-- ===== src/Tx.antt =====
-- The transmit side of the network driver, xennet/xennet_tx.c, in the build for NDIS 6 with its
-- assertions: the free list of request ids, requests with a buffer of the driver's own, the responses
-- of the backend, and the lists of packets that the system hands over and gets back. `none` is a
-- failed assertion.
pub mod Free
pub mod Setup
pub mod Responses
pub mod Round
pub mod PseudoHeader
pub mod Frags
pub mod Eaten
pub mod Walk
pub mod Room
pub mod Pages
pub mod Ring
pub mod Lists
pub mod Queueing
mod Tests
use win_pvdrivers_mirror.Net.Parse.{is_broadcast_addr}
use win_pvdrivers_mirror.Base.{
  ℕ, zero, suc, ◌+◌, ◌-◌, ◌%◌, ◌^◌, Bool, true, false, not, ◌&&◌, ◌||◌, Option, none, some, List,
  [], ◌∷◌, ◌++◌, ltb, leb, ◌==◌, if◌then◌else◌, update, ◌>>=◌, ◌>>◌, xn_assert,
}

-- `NET_TX_RING_SIZE`, the entries of a ring of one page
abbrev pub net_tx_ring_size : ℕ
net_tx_ring_size = 256

-- `DEVICE_STATE_*`
pub data LinkState : Type 0 where
  link_disconnected : LinkState
  link_initialising : LinkState
  link_inactive : LinkState
  link_active : LinkState
  link_disconnecting : LinkState

abbrev pub is_active : LinkState → Bool
is_active LinkState.link_active = true
is_active s = false

-- `tx_shadow_t`: the packet, set on its last request, the driver's buffer and the grant reference,
-- which is `none` for `INVALID_GRANT_REF`.
pub record TxShadow : Type 0 where
  pub packet : Option ℕ
  pub cb : Option ℕ
  pub gref : Option ℕ

abbrev pub empty_shadow : TxShadow
empty_shadow = record { packet = none; cb = none; gref = none }

-- What the driver reads of a NET_BUFFER: `NB_NBL`, `DataLength` and its first bytes.
pub record NetBuffer : Type 0 where
  pub nbl : ℕ
  pub data_length : ℕ
  pub header : ℕ → ℕ

-- `struct netif_tx_request`
pub record TxRequest : Type 0 where
  pub id : ℕ
  pub gref : ℕ
  pub offset : ℕ
  pub size : ℕ

-- The counters of `xi->stats` that transmission raises.
pub record TxStats : Type 0 where
  pub octets : ℕ
  pub ucast_pkts : ℕ
  pub ucast_octets : ℕ
  pub broadcast_pkts : ℕ
  pub broadcast_octets : ℕ
  pub multicast_pkts : ℕ
  pub multicast_octets : ℕ

-- Calls of the kernel: the grants, a buffer given back to the lookaside list, and a list of packets
-- completed with its status.
pub data TxCall : Type 0 where
  access_granted : ℕ → TxCall
  access_ended : ℕ → TxCall
  buffer_freed : ℕ → TxCall
  completed : (nbl : ℕ) → (ok : Bool) → TxCall

-- The transmit fields of `struct xennet_info`, with the reference counts of the packets' lists.
pub record TxState : Type 0 where
  pub device_state : LinkState
  pub waiting : List ℕ
  pub nbs : ℕ → NetBuffer
  pub nbl_ref : ℕ → ℕ
  pub ring_free : ℕ
  pub id_free : ℕ
  pub id_list : ℕ → ℕ
  pub shadows : ℕ → TxShadow
  pub requests : ℕ → TxRequest
  pub req_prod : ℕ
  pub outstanding : ℕ
  pub idle_event : Bool
  pub stats : TxStats
  pub calls : List TxCall

-- `get_id_from_freelist`
abbrev pub taken : TxState → TxState
taken s = record s { id_free = s.id_free - 1 }

unfoldable pub get_id : TxState → Option (ℕ × TxState)
get_id s = xn_assert (ltb 0 s.id_free) >> some (s.id_list (s.id_free - 1), taken s)

-- `put_id_on_freelist`
abbrev pub given_back : ℕ → TxState → TxState
given_back id s = record s { id_list = update s.id_list s.id_free id; id_free = s.id_free + 1 }

unfoldable pub put_id : ℕ → TxState → Option TxState
put_id id s = xn_assert (ltb id net_tx_ring_size) >> some (given_back id s)

abbrev pub is_none {ℓ} : {A : Type ℓ} → Option A → Bool
is_none none = true
is_none (some a) = false

-- The request in the next slot of the ring, with its shadow.
abbrev pub fill_request : (id cb length gref : ℕ) → TxState → TxState
fill_request id cb length gref s = record s {
  ring_free = s.ring_free - 1;
  requests =
      update s.requests (s.req_prod % net_tx_ring_size)
        (record { id = id; gref = gref; offset = 0; size = length % 2 ^ 16 });
  req_prod = (s.req_prod + 1) % 2 ^ 32;
  shadows =
      update s.shadows id
        (record { packet = (s.shadows id).packet; cb = some cb; gref = some gref });
  calls = TxCall.access_granted gref ∷ s.calls;
}

-- What follows once the id is known.
unfoldable pub put_with_id : (cb length gref : ℕ) → ℕ × TxState → Option TxState
put_with_id cb length gref (id, s) =
    xn_assert (is_none (s.shadows id).gref)
    >> (xn_assert (is_none (s.shadows id).cb)
        >> (xn_assert (leb (length % 2 ^ 16) 4096)
            >> (xn_assert (ltb 0 (length % 2 ^ 16)) >> some (fill_request id cb length gref s))))

-- `XenNet_PutCbOnRing`
unfoldable pub put_cb_on_ring : (cb length gref : ℕ) → TxState → Option TxState
put_cb_on_ring cb length gref s =
    xn_assert (ltb 0 s.ring_free) >> (get_id s >>= put_with_id cb length gref)

-- The slot of the extra information, which has no id (B of `XenNet_HWSendPacket`).
unfoldable pub put_extra : TxState → Option TxState
put_extra s =
    xn_assert (ltb 0 s.ring_free)
    >> some (record s { ring_free = s.ring_free - 1; req_prod = (s.req_prod + 1) % 2 ^ 32 })

-- `XenNet_TxInit`: its loop over the ids below `n`, and the function.
abbrev pub clear_shadow : ℕ → TxState → TxState
clear_shadow n s = record s {
  shadows = update s.shadows n (record (s.shadows n) { gref = none; cb = none });
}

unfoldable pub fill_ids : (n : ℕ) → TxState → Option TxState
fill_ids zero s = some s
fill_ids (suc n) s = fill_ids n s >>= λ t. put_id n (clear_shadow n t)

unfoldable pub tx_init : TxState → Option TxState
tx_init s =
    fill_ids net_tx_ring_size
      (record s { waiting = []; outstanding = 0; ring_free = net_tx_ring_size; id_free = 0 })

-- `netif_tx_response_t`: the id, and whether the status is `NETIF_RSP_NULL`.
pub record TxResponse : Type 0 where
  pub id : ℕ
  pub is_null : Bool

-- The counters after a packet.
abbrev pub is_multicast_addr : NetBuffer → Bool
is_multicast_addr nb = not (ltb nb.data_length 14 || not (nb.header 0 % 2 == 1))

abbrev pub count_packet : NetBuffer → TxStats → TxStats
count_packet nb st =
    let group = is_multicast_addr nb in
    let every = is_broadcast_addr nb.header in
    record {
      octets = st.octets + nb.data_length;
      ucast_pkts = if group then st.ucast_pkts else st.ucast_pkts + 1;
      ucast_octets = if group then st.ucast_octets else st.ucast_octets + nb.data_length;
      broadcast_pkts = if group && every then st.broadcast_pkts + 1 else st.broadcast_pkts;
      broadcast_octets =
          if group && every then st.broadcast_octets + nb.data_length else st.broadcast_octets;
      multicast_pkts = if group && not every then st.multicast_pkts + 1 else st.multicast_pkts;
      multicast_octets =
          if group && not every then st.multicast_octets + nb.data_length else st.multicast_octets;
    }

-- `NBL_REF(nbl)--`
abbrev pub count_less : ℕ → ℕ
count_less n = (n + 2 ^ 64 - 1) % 2 ^ 64

-- The state while responses are collected: `head`, the lists of packets that are done, in order, and
-- `tx_packets`.
pub record Collected : Type 0 where
  pub tx : TxState
  pub head : List ℕ
  pub tx_packets : ℕ

-- The packet of a request is done, and with the last of its list the list.
abbrev pub packet_done : ℕ → Collected → Collected
packet_done packet g =
    let nb = g.tx.nbs packet in
    let left = count_less (g.tx.nbl_ref nb.nbl) in
    record {
      tx = record (g.tx) {
        stats = count_packet nb g.tx.stats;
        nbl_ref = update g.tx.nbl_ref nb.nbl left;
      };
      head = if left == 0 then g.head ++ (nb.nbl ∷ []) else g.head;
      tx_packets = g.tx_packets + 1;
    }

unfoldable pub note_packet : Option ℕ → Collected → Collected
note_packet none g = g
note_packet (some packet) g = packet_done packet g

abbrev pub calls_for : (ℕ → TxCall) → Option ℕ → List TxCall → List TxCall
calls_for call none calls = calls
calls_for call (some a) calls = call a ∷ calls

-- The shadow is emptied, its buffer freed and its grant ended.
abbrev pub empty_slot : (id : ℕ) → TxShadow → TxState → TxState
empty_slot id sh s = record s {
  shadows = update s.shadows id empty_shadow;
  calls = calls_for TxCall.access_ended sh.gref (calls_for TxCall.buffer_freed sh.cb s.calls);
}

abbrev pub with_tx : Collected → Option TxState → Option Collected
with_tx g o = o >>= λ t. some (record g { tx = t })

-- The end of a response: the assertions, and the id given back.
unfoldable pub close_response : ℕ → Collected → Option Collected
close_response id g =
    xn_assert (is_none (g.tx.shadows id).gref)
    >> (xn_assert (is_none (g.tx.shadows id).cb) >> with_tx g (put_id id g.tx))

-- One response; a null response frees only its slot.
unfoldable pub collect_response : TxResponse → Collected → Option Collected
collect_response rsp g =
    let s = record (g.tx) { ring_free = g.tx.ring_free + 1 } in
    let sh = s.shadows rsp.id in
    if rsp.is_null
    then some (record g { tx = s })
    else close_response rsp.id (note_packet sh.packet (record g { tx = empty_slot rsp.id sh s }))

-- The responses of one round of the loop in `XenNet_TxBufferGC`.
unfoldable pub collect_responses : List TxResponse → Collected → Option Collected
collect_responses [] g = some g
collect_responses (rsp ∷ rsps) g = collect_response rsp g >>= collect_responses rsps

-- The lists that are done go back to the system, and the packets are no longer outstanding.
abbrev pub complete_lists : (ok : Bool) → List ℕ → List TxCall → List TxCall
complete_lists ok [] calls = calls
complete_lists ok (nbl ∷ nbls) calls = complete_lists ok nbls (TxCall.completed nbl ok ∷ calls)

unfoldable pub finish_gc : Collected → TxState
finish_gc g =
    let left = (g.tx.outstanding + 2 ^ 32 - g.tx_packets) % 2 ^ 32 in
    record (g.tx) {
      calls = complete_lists true g.head g.tx.calls;
      outstanding = left;
      idle_event = (not (is_active g.tx.device_state) && (left == 0)) || g.tx.idle_event;
    }

-- The lists of packets of one call of `XenNet_SendNetBufferLists`: a list and its packets.
pub record NetBufferList : Type 0 where
  pub nbl : ℕ
  pub packets : List ℕ

abbrev pub queue_packets : (nbl : ℕ) → List ℕ → TxState → TxState
queue_packets nbl [] s = s
queue_packets nbl (p ∷ ps) s = queue_packets nbl ps (record s {
  nbs = update s.nbs p (record (s.nbs p) { nbl = nbl });
  waiting = s.waiting ++ (p ∷ []);
  nbl_ref = update s.nbl_ref nbl (s.nbl_ref nbl + 1);
})

unfoldable pub queue_list : NetBufferList → TxState → TxState
queue_list l s = queue_packets l.nbl l.packets (record s { nbl_ref = update s.nbl_ref l.nbl 0 })

abbrev pub fail_all : List NetBufferList → List TxCall → List TxCall
fail_all [] calls = calls
fail_all (l ∷ ls) calls = fail_all ls (TxCall.completed l.nbl false ∷ calls)

abbrev pub queue_lists : List NetBufferList → TxState → TxState
queue_lists [] s = s
queue_lists (l ∷ ls) s = queue_lists ls (queue_list l s)

abbrev pub is_inactive : LinkState → Bool
is_inactive LinkState.link_inactive = true
is_inactive s = false

-- `XenNet_SendNetBufferLists` up to the sending of what waits: an inactive device fails all lists.
unfoldable pub accept_lists : List NetBufferList → TxState → TxState
accept_lists ls s =
    if is_inactive s.device_state
    then record s { calls = fail_all ls s.calls }
    else queue_lists ls s

-- The loop of `XenNet_TxShutdown` over the packets that wait.
unfoldable pub drop_packet : ℕ → TxState → TxState
drop_packet p s =
    let nbl = (s.nbs p).nbl in
    let left = count_less (s.nbl_ref nbl) in
    record s {
      nbl_ref = update s.nbl_ref nbl left;
      calls = if left == 0 then TxCall.completed nbl false ∷ s.calls else s.calls;
    }

unfoldable pub drop_waiting : List ℕ → TxState → TxState
drop_waiting [] s = record s { waiting = [] }
drop_waiting (p ∷ ps) s = drop_waiting ps (drop_packet p s)

abbrev pub shutdown_queue : TxState → TxState
shutdown_queue s = drop_waiting s.waiting s
