-- ===== src/Tx/Ring.antt =====
-- What `XenNet_HWSendPacket` puts on the ring for one packet that is not coalesced.
use win_pvdrivers_mirror.Tx.{TxState, net_tx_ring_size}
use win_pvdrivers_mirror.Tx.Free.{IsTx}
use win_pvdrivers_mirror.Tx.Frags.{Walk, Fragment}
use win_pvdrivers_mirror.Tx.Room.{PagesAt, gso_slots}
use win_pvdrivers_mirror.Base.{ℕ, ◌+◌, ◌-◌, ◌%◌, ◌^◌, ◌≡◌, Bool, true, false, some, List, length}

abbrev with_gso : Bool → TxState → TxState
with_gso true s = record s { ring_free = s.ring_free - 1; req_prod = (s.req_prod + 1) % 2 ^ 32 }
with_gso false s = s

-- What is on the ring for a packet of `total` bytes: the request of the header, with the size of the whole
-- packet, and behind the slot of extra information one request for each fragment, in order.
pub record OnRing (packet total gref : ℕ) (xen_gso : Bool) (extra : ℕ) (refs : ℕ → ℕ)
    (fs : List Fragment) (s t : TxState) : Type 0 where
  pub id : ℕ
  pub header :
      t.requests (s.req_prod % net_tx_ring_size)
      ≡ record { id = id; gref = gref; offset = 0; size = total }
  pub pages : PagesAt t.requests refs (s.req_prod + (1 + gso_slots xen_gso)) 0 fs
  pub prod : t.req_prod % 2 ^ 32 ≡ (s.req_prod + (1 + gso_slots xen_gso) + length fs) % 2 ^ 32
  pub ring_free : t.ring_free + (1 + gso_slots xen_gso) + length fs ≡ s.ring_free
  pub last : ℕ
  pub marked : (t.shadows last).packet ≡ some packet
  pub outstanding : t.outstanding ≡ (s.outstanding + 1) % 2 ^ 32
  pub in_order : IsTx (extra + gso_slots xen_gso) t
