-- ===== src/Vbd/Defs.antt =====
-- The state of the block miniport, xenvbd_common/common_miniport.h and xenvbd_storport/xenvbd.h, outside
-- dump mode. A request block (SRB) is named by a number, and its list entry, which is its extension, is
-- part of it.
use win_pvdrivers_mirror.Base.{ℕ, ◌+◌, ◌-◌, ◌*◌, ◌%◌, Bool, Option, List}

-- `DEVICE_STATE_*`
pub data DeviceState : Type 0 where
  disconnected initialising inactive active disconnecting : DeviceState

-- `srb->Function`
pub data SrbFunction : Type 0 where
  execute_scsi flush pnp power dump_pointers shutdown bus_reset wmi io_control free_dump_pointers :
      SrbFunction
  other_function : SrbFunction

-- `SCSI_REQUEST_BLOCK` with `srb_list_entry_t`, less what the code does not read. The CDB is its bytes.
pub record Srb : Type 0 where
  pub function : SrbFunction
  pub cdb : ℕ → ℕ
  pub data_length : ℕ
  pub srb_status : ℕ
  pub scsi_status : ℕ
  pub disable_autosense : Bool
  pub has_sense_buffer : Bool
  pub length : ℕ
  pub offset : ℕ
  pub outstanding : ℕ
  pub error : Bool

-- A segment of a ring request, with the page that its grant reference stands for.
pub record Segment : Type 0 where
  pub gref : ℕ
  pub pfn : ℕ
  pub first_sect : ℕ
  pub last_sect : ℕ

-- `blkif_request_t`; nr_segments is the length of `segs`.
pub record Request : Type 0 where
  pub id : ℕ
  pub is_read : Bool
  pub sector_number : ℕ
  pub segs : List Segment

-- `blkif_shadow_t`
pub record Shadow : Type 0 where
  pub req : Request
  pub srb : Option ℕ
  pub system_address : ℕ
  pub length : ℕ
  pub aligned_in_use : Bool
  pub reset : Bool

-- `last_sense_key` and the two codes with it
pub record Sense : Type 0 where
  pub key : ℕ
  pub code : ℕ
  pub qualifier : ℕ

-- What the code asks of the grant table, the port driver and the event channel, in order.
pub data VbdCall : Type 0 where
  end_access : (gref : ℕ) → VbdCall
  copy_to_buffer : (address bytes : ℕ) → VbdCall
  copy_from_buffer : (address bytes : ℕ) → VbdCall
  sense_data : (srb : ℕ) (sense : Sense) → VbdCall
  write_data : (srb : ℕ) (bytes : List ℕ) → VbdCall
  complete : (srb : ℕ) → VbdCall
  notify_backend : VbdCall
  next_request : VbdCall

-- The fields of `XENVBD_DEVICE_DATA` that the code works on; `ring` lists the requests put on the ring,
-- the last one last.
pub record VbdState : Type 0 where
  pub device_state : DeviceState
  pub shadows : ℕ → Shadow
  pub free_list : ℕ → ℕ
  pub shadow_free : ℕ
  pub srbs : ℕ → Srb
  pub srb_list : List ℕ
  pub ring : List Request
  pub aligned_in_use : Bool
  pub aligned_buffer : ℕ
  pub aligned_size : ℕ
  pub bytes_per_sector : ℕ
  pub last_sense : Sense
  pub cac : Bool
  pub calls : List VbdCall

-- What a call is given by the kernel: the address that the data buffer is mapped at, if it can be,
-- the physical address of an address, and the grant reference that the k-th grant of the call yields.
pub record Host : Type 0 where
  pub system_address : Option ℕ
  pub phys : ℕ → ℕ
  pub grant : ℕ → Option ℕ

-- `MAX_SHADOW_ENTRIES`
abbrev pub max_shadow_entries : ℕ
max_shadow_entries = 64

-- `SHADOW_ID_ID_MASK`, which keeps the low 10 bits
abbrev pub shadow_id : ℕ → ℕ
shadow_id id = id % 1024

-- `BLKIF_MAX_SEGMENTS_PER_REQUEST`
abbrev pub max_segments : ℕ
max_segments = 11

abbrev pub page_size : ℕ
page_size = 4096

abbrev pub seg_bytes : Segment → ℕ
seg_bytes s = (s.last_sect + 1 - s.first_sect) * 512
