-- ===== src/Xenbus.antt =====
-- xenpci/xenbus.c: messages to and from xenstored over two rings of bytes, directories, and watches.
-- `none` is a failed assertion, unless a comment says otherwise.
mod Defs
pub mod Bytes
pub mod Send
pub mod Stream
pub mod Rounds
pub mod Delivery
mod Tests
pub use Defs.*
use Defs.{notify_port, set_event, queue_watch, watch_path, unwatch_path, bind_event, unbind_event}
use win_pvdrivers_mirror.Base.{
  ℕ, zero, suc, ◌+◌, ◌-◌, ◌*◌, ◌/◌, ◌%◌, ◌^◌, min, Bool, true, false, not, ◌&&◌, Option, none, some,
  List, [], ◌∷◌, ◌++◌, ltb, leb, ◌==◌, if◌then◌else◌, update, length, take, drop, get_or, ◌>>=◌,
  ◌>>◌, xn_assert,
}

abbrev pub log : XbState → XbCall → XbState
log s c = record s { calls = s.calls ++ c ∷ [] }

-- `memcpy` of the bytes into memory at an offset.
pub blit : (ℕ → ℕ) → ℕ → List ℕ → ℕ → ℕ
blit ring off [] = ring
blit ring off (x ∷ xs) = blit (update ring off x) (suc off) xs

-- `memcpy` of `n` bytes from memory at an offset.
pub copy_out : (ℕ → ℕ) → (off n : ℕ) → List ℕ
copy_out ring off zero = []
copy_out ring off (suc n) = ring off ∷ copy_out ring (suc off) n

-- What `memcpy_from_ring` puts at its destination.
pub memcpy_from_ring : (ℕ → ℕ) → (off len : ℕ) → List ℕ
memcpy_from_ring ring off len =
    let c1 = min len (ring_size - off) in
    let c2 = len - c1 in copy_out ring off c1 ++ copy_out ring 0 c2

-- The loop of `xb_write` on fuel: the ring and `prod` after it. `none` is fuel that ran out.
pub write_loop : ℕ → (ℕ → ℕ) → ℕ → List ℕ → Option ((ℕ → ℕ) × ℕ)
write_loop zero ring prod bytes = none
write_loop (suc fuel) ring prod [] = some (ring, prod)
write_loop (suc fuel) ring prod (x ∷ xs) =
    let bytes = x ∷ xs in
    let copy_len = min (length bytes) (ring_size - mask_idx prod) in
    write_loop fuel (blit ring (mask_idx prod) (take copy_len bytes)) ((prod + copy_len) % 2 ^ 32)
      (drop copy_len bytes)

-- `xb_write`
pub xb_write : XbState → List ℕ → Option XbState
xb_write s bytes = do
  xn_assert (leb (length bytes) ring_size)
  out ← write_loop (length bytes + 1) s.req s.req_prod bytes
  some (log (record s { req = out.0; req_prod = out.1 }) notify_port)

-- A 32-bit field, in memory order.
pub le32 : ℕ → List ℕ
le32 n = n % 256 ∷ n / 256 % 256 ∷ n / 65536 % 256 ∷ n / 16777216 % 256 ∷ []

pub encode : Header → List ℕ
encode h = le32 h.type ++ (le32 0 ++ (le32 h.tx_id ++ le32 h.len))

pub total_len : List (List ℕ) → ℕ
total_len [] = 0
total_len (r ∷ rs) = length r + total_len rs

pub write_all : XbState → List (List ℕ) → Option XbState
write_all s [] = some s
write_all s (r ∷ rs) = xb_write s r >>= λ t. write_all t rs

-- `xenbus_format_msg_reply` up to its wait for the reply.
pub send_request : XbState → (type trans_id : ℕ) → List (List ℕ) → Option XbState
send_request s type trans_id req =
    let msg : Header = record { type = type; tx_id = trans_id; len = total_len req % 2 ^ 32 } in
    xb_write s (encode msg) >>= λ t. write_all t req

-- The rest of it: the reply is taken.
pub take_reply : XbState → Option XbMsg × XbState
take_reply s = (s.xb_reply, record s { xb_reply = none })

-- The 32-bit field at an offset.
abbrev pub word : List ℕ → ℕ → ℕ
word raw i =
    get_or raw i 0
    + 256 * get_or raw (i + 1) 0
    + 65536 * get_or raw (i + 2) 0
    + 16777216 * get_or raw (i + 3) 0

pub decode : List ℕ → Header
decode raw = record { type = word raw 0; tx_id = word raw 8; len = word raw 12 }

-- `rsp_prod - rsp_cons` on 32 bits
abbrev pub ring_gap : ℕ → ℕ → ℕ
ring_gap prod cons = (prod + 2 ^ 32 - cons) % 2 ^ 32

abbrev pub whole_size : XbMsg → ℕ
whole_size m = sizeof_sockmsg + m.header.len

-- How a round of the loop of `XenBus_Dpc` ends: the loop is left, the next round follows, or
-- `XN_ASSERT` fails.
pub data Round : Type 0 where
  stop next : (s : XbState) → Round
  assert_failed : Round

-- A whole reply is passed on, unless one is still there.
pub give_reply : Option XbMsg → XbState → XbMsg → Round
give_reply none s m =
    next (log (log (record s { xb_reply = some m; xb_msg = none }) set_event) notify_port)
give_reply (some r) s m = assert_failed

-- A whole watch event goes to a work item. `created` is whether WdfWorkItemCreate succeeds.
pub queue_event : Bool → XbState → XbMsg → Round
queue_event true s m = next (log (log (record s { xb_msg = none }) (queue_watch m.raw)) notify_port)
queue_event false s m = next s

-- A message is complete.
pub finish : XbState → XbMsg → Bool → Round
finish s m created =
    if m.header.type == xs_watch_event then queue_event created s m else give_reply s.xb_reply s m

-- The body of the message is copied as far as it has come.
pub receive : XbState → XbMsg → (prod : ℕ) → Bool → Round
receive s m prod created =
    let msg_len = min (ring_gap prod s.rsp_cons) (whole_size m - length m.raw) in
    let m' = record m { raw = m.raw ++ memcpy_from_ring s.rsp (mask_idx s.rsp_cons) msg_len } in
    let s' = record s { rsp_cons = (s.rsp_cons + msg_len) % 2 ^ 32; xb_msg = some m' } in
    if leb (length m.raw + msg_len) (whole_size m)
    then (if ltb (length m'.raw) (whole_size m)
        then stop (log s' notify_port)
        else finish s' m' created)
    else assert_failed

-- The header of a new message is copied.
pub begin_msg : XbState → (prod : ℕ) → Bool → Round
begin_msg s prod created =
    let raw = memcpy_from_ring s.rsp (mask_idx s.rsp_cons) sizeof_sockmsg in
    let m : XbMsg = record { header = decode raw; raw = raw } in
    receive (record s { xb_msg = some m; rsp_cons = (s.rsp_cons + sizeof_sockmsg) % 2 ^ 32 }) m prod
      created

-- A round that reads `prod` in rsp_prod.
pub dpc_round : XbState → (prod : ℕ) → Bool → Round
dpc_round s prod created = if prod == s.rsp_cons then stop s else elim s.xb_msg [
  | none ↦
      if ltb (ring_gap prod s.rsp_cons) sizeof_sockmsg then stop s else begin_msg s prod created
  | some m ↦ receive s m prod created
]

-- `XenBus_Dpc`, round by round: what each round reads in rsp_prod, and whether it gets a work item.
-- A result `next` is a loop that still runs.
pub dpc : List (ℕ × Bool) → XbState → Round
dpc [] s = next s
dpc ((prod, created) ∷ seen) s = elim (dpc_round s prod created) [
  | next t ↦ dpc seen t
  | stop t ↦ stop t
  | assert_failed ↦ assert_failed
]
