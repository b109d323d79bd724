-- ===== src/Xenbus/Defs.antt =====
-- The state of xenpci/xenbus.c: the page shared with xenstored (common/include/public/io/xs_wire.h),
-- the message that is being received, the reply that has come, and the watches.
use win_pvdrivers_mirror.Base.{ℕ, ◌%◌, Bool, Option, List}

-- `struct xsd_sockmsg`, less req_id, which the driver sets to 0 and does not read.
pub record Header : Type 0 where
  pub type : ℕ
  pub tx_id : ℕ
  pub len : ℕ

-- A message in memory. `raw` is the bytes copied so far, header included, so that xb_msg_offset is
-- its length.
pub record XbMsg : Type 0 where
  pub header : Header
  pub raw : List ℕ

-- `XENBUS_WATCH_ENTRY`; a routine is named by a number, 0 for NULL.
pub record WatchEntry : Type 0 where
  pub path : List ℕ
  pub routine : ℕ
  pub context : ℕ
  pub count : ℕ
  pub active : Bool

-- What the code asks of the kernel, the event channels, xenstored and the callbacks, in order.
pub data XbCall : Type 0 where
  notify_port : XbCall
  set_event : XbCall
  queue_watch : (raw : List ℕ) → XbCall
  watch_path : (path : List ℕ) (slot : ℕ) → XbCall
  unwatch_path : (path : List ℕ) (slot : ℕ) → XbCall
  call_watch : (routine context : ℕ) (path : List ℕ) → XbCall
  bind_event : XbCall
  unbind_event : XbCall

pub record XbState : Type 0 where
  pub req : ℕ → ℕ
  pub rsp : ℕ → ℕ
  pub req_prod : ℕ
  pub rsp_cons : ℕ
  pub xb_msg : Option XbMsg
  pub xb_reply : Option XbMsg
  pub watches : ℕ → WatchEntry
  pub calls : List XbCall

-- `XENSTORE_RING_SIZE`
abbrev pub ring_size : ℕ
ring_size = 1024

-- `sizeof(xsd_sockmsg_t)`
abbrev pub sizeof_sockmsg : ℕ
sizeof_sockmsg = 16

abbrev pub max_watch_entries : ℕ
max_watch_entries = 128

abbrev pub watch_path_size : ℕ
watch_path_size = 128

abbrev pub xs_watch_event : ℕ
xs_watch_event = 15

abbrev pub xs_error : ℕ
xs_error = 16

-- `MASK_XENSTORE_IDX`
abbrev pub mask_idx : ℕ → ℕ
mask_idx idx = idx % ring_size
