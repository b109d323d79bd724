-- ===== src/Tx/Room.antt =====
-- The requests that `XenNet_HWSendPacket` puts on the ring for one packet: the header (A), the slot of
-- extra information (B) and the fragments (C), without coalescing, up to its end. The flags of the requests
-- and what the extra information says are left out.
use win_pvdrivers_mirror.Tx.{
  TxState, TxCall, TxRequest, net_tx_ring_size, get_id, is_none, put_cb_on_ring, put_extra,
}
use win_pvdrivers_mirror.Tx.Free.{free_ids}
use win_pvdrivers_mirror.Tx.Frags.{Fragment}
use win_pvdrivers_mirror.Base.{
  ℕ, suc, ◌+◌, ◌-◌, ◌%◌, ◌^◌, ◌≡◌, Bool, true, false, ◌||◌, Option, none, some, List, [], ◌∷◌, ltb,
  leb, ◌==◌, elem, if◌then◌else◌, update, ◌>>=◌, ◌>>◌, xn_assert,
}

-- `txN`, a fragment of the packet's own page with its grant.
abbrev pub fill_page : (id gref : ℕ) → Fragment → TxState → TxState
fill_page id gref f s = record s {
  ring_free = s.ring_free - 1;
  requests =
      update s.requests (s.req_prod % net_tx_ring_size)
        (record { id = id; gref = gref; offset = f.offset; size = f.size % 2 ^ 16 });
  req_prod = (s.req_prod + 1) % 2 ^ 32;
  shadows = update s.shadows id (record (s.shadows id) { gref = some gref });
  calls = TxCall.access_granted gref ∷ s.calls;
}

-- `tx0->size = tx0->size + txN->size`, of USHORTs, with `tx0` in the slot given.
abbrev pub add_size : (slot size : ℕ) → TxState → TxState
add_size slot size s = record s {
  requests =
      update s.requests slot
        (record (s.requests slot) { size = ((s.requests slot).size + size) % 2 ^ 16 });
}

-- One fragment, and the id of its request.
unfoldable pub put_page_with_id : (slot gref : ℕ) → Fragment → ℕ × TxState → Option (ℕ × TxState)
put_page_with_id slot gref f (id, s) =
    xn_assert (is_none (s.shadows id).gref)
    >> (xn_assert (is_none (s.shadows id).cb)
        >> (xn_assert (leb (f.offset + f.size % 2 ^ 16) 4096)
            >> (xn_assert (ltb 0 (f.size % 2 ^ 16))
                >> some (id, add_size slot (f.size % 2 ^ 16) (fill_page id gref f s)))))

unfoldable pub put_page : (slot gref : ℕ) → Fragment → TxState → Option (ℕ × TxState)
put_page slot gref f s =
    xn_assert (ltb 0 s.ring_free) >> (get_id s >>= put_page_with_id slot gref f)

-- The fragments, the k-th with the k-th grant, and the id of the last request, `last` so far; without a
-- grant the rest is not sent.
unfoldable pub put_next :
    Option ℕ
    → (slot : ℕ) → Fragment
    → (ℕ → TxState → Option (ℕ × TxState))
    → (last : ℕ) → TxState
    → Option (ℕ × TxState)
put_next none slot f rest last s = some (last, s)
put_next (some gref) slot f rest last s = put_page slot gref f s >>= λ r. rest r.0 r.1

unfoldable pub put_pages :
    (ℕ → Option ℕ) → (slot k : ℕ) → List Fragment → (last : ℕ) → TxState → Option (ℕ × TxState)
put_pages grant slot k [] last s = some (last, s)
put_pages grant slot k (f ∷ fs) last s =
    put_next (grant k) slot f (put_pages grant slot (suc k) fs) last s

-- The end: the sizes must be those of the packet, which its last request is marked with.
abbrev pub mark_last : (packet last : ℕ) → TxState → TxState
mark_last packet last s = record s {
  shadows = update s.shadows last (record (s.shadows last) { packet = some packet });
  outstanding = (s.outstanding + 1) % 2 ^ 32;
}

unfoldable pub end_send : (packet slot total : ℕ) → ℕ × TxState → Option TxState
end_send packet slot total (last, s) =
    xn_assert ((s.requests slot).size == total)
    >> (xn_assert (is_none (s.shadows last).packet) >> some (mark_last packet last s))

-- From (A) on, for a packet of `total` bytes of which `remaining` are behind the header; `sg` says that
-- scatter and gather are supported.
unfoldable pub put_requests :
    (ℕ → Option ℕ)
    → (packet total remaining cb header_length gref : ℕ) → (xen_gso sg : Bool) → List Fragment
    → TxState
    → Option TxState
put_requests grant packet total remaining cb header_length gref xen_gso sg fs s =
    let slot = s.req_prod % net_tx_ring_size in
    put_cb_on_ring cb header_length gref s >>= λ t.
    (if xen_gso then put_extra t else some t) >>= λ u.
    xn_assert (sg || (remaining == 0))
    >> (put_pages grant slot 0 fs (t.requests slot).id u >>= end_send packet slot total)

-- The requests from the slot of `prod` on are the fragments, the k-th with the k-th reference.
abbrev pub PagesAt :
    (requests : ℕ → TxRequest) → (refs : ℕ → ℕ) → (prod k : ℕ) → List Fragment → Type 0
PagesAt requests refs prod k [] = Unit
PagesAt requests refs prod k (f ∷ fs) =
    ((id : ℕ) × (requests (prod % net_tx_ring_size)
        ≡ record { id = id; gref = refs k; offset = f.offset; size = f.size }))
    × PagesAt requests refs (prod + 1) (suc k) fs

-- No free shadow has a packet.
abbrev pub NoPacket : TxState → Type 0
NoPacket s = (j : ℕ) → elem j (free_ids s) ≡ true → (s.shadows j).packet ≡ none

-- The slots of extra information of a packet.
abbrev pub gso_slots : Bool → ℕ
gso_slots true = 1
gso_slots false = 0
