-- ===== src/Vbd/Command.antt =====
-- The SCSI commands that `XenVbd_ProcessSrbList` answers itself, xenvbd_common/common_miniport.h. The
-- data of the standard inquiry and of `XenVbd_FillModePage` are arguments.
pub mod Capacity
use win_pvdrivers_mirror.Base.{
  ℕ, ◌+◌, ◌-◌, ◌*◌, ◌/◌, ◌%◌, ◌^◌, min, Bool, true, false, not, ◌||◌, List, [], ◌∷◌, ◌++◌, length,
  take, ltb, leb, ◌==◌, if◌then◌else◌,
}
use win_pvdrivers_mirror.Vbd.{byte, is_rw10, is_rw16}

-- `XENVBD_DEVICETYPE`
pub data DeviceType : Type 0 where
  unknown disk cdrom controller : DeviceType

-- The fields of `XENVBD_DEVICE_DATA` that describe the disk; the serial number is without its terminator.
pub record Disk : Type 0 where
  pub device_type : DeviceType
  pub total_sectors : ℕ
  pub bytes_per_sector : ℕ
  pub hw_bytes_per_sector : ℕ
  pub serial_number : List ℕ

-- What a command leaves: the bytes at the front of the data buffer, the length to report, whether it
-- succeeded, and whether it clears the SCSI status.
pub record Answer : Type 0 where
  pub bytes : List ℕ
  pub data_transfer_length : ℕ
  pub success : Bool
  pub clears : Bool

-- What a command asks for.
pub data Effect : Type 0 where
  answer : Answer → Effect
  put_on_ring request_sense illegal_request : Effect

-- The answers that stand on structures of the Windows headers: the standard inquiry, and the mode page for
-- a CDB and a length.
pub record Pages : Type 0 where
  pub inquiry : DeviceType → Answer
  pub mode_page : Disk → (ℕ → ℕ) → ℕ → Answer

-- A command without data, one that fails, and one with data: `len` is the length of the data buffer.
abbrev pub no_data : ℕ → Bool → Answer
no_data len clears = record {
  bytes = [];
  data_transfer_length = len;
  success = true;
  clears = clears;
}

abbrev pub failure : ℕ → Bool → Answer
failure len clears = record {
  bytes = [];
  data_transfer_length = len;
  success = false;
  clears = clears;
}

abbrev pub with_data : List ℕ → Answer
with_data bytes = record {
  bytes = bytes;
  data_transfer_length = length bytes;
  success = true;
  clears = true;
}

abbrev pub last_sector : Disk → ℕ
last_sector d = (d.total_sectors + 2 ^ 64 - 1) % 2 ^ 64

abbrev pub word_bytes : ℕ → List ℕ
word_bytes n = byte n 3 ∷ byte n 2 ∷ byte n 1 ∷ byte n 0 ∷ []

-- The last sector on 32 bits, or 0xffffffff if it does not fit.
abbrev pub sector_word : (fits : Bool) → ℕ → List ℕ
sector_word true n = word_bytes n
sector_word false n = 0xff ∷ 0xff ∷ 0xff ∷ 0xff ∷ []

-- `SCSIOP_READ_CAPACITY`
pub read_capacity : Disk → Answer
read_capacity d = record {
  bytes =
      sector_word (last_sector d / 2 ^ 32 == 0) (last_sector d) ++ word_bytes d.bytes_per_sector;
  data_transfer_length = 8;
  success = true;
  clears = true;
}

-- The exponent of the hardware sectors.
pub sector_exponent : ℕ → ℕ
sector_exponent ratio =
    if ratio == 2 then 1 else if ratio == 4 then 2 else if ratio == 8 then 3 else 0

-- `SCSIOP_READ_CAPACITY16`
pub read_capacity16 : Disk → Answer
read_capacity16 d =
    let n = last_sector d in
    record {
      bytes =
          byte n 7 ∷ byte n 6 ∷ byte n 5 ∷ byte n 4 ∷ word_bytes n
          ++ word_bytes d.bytes_per_sector
          ++ 0 ∷ sector_exponent (d.hw_bytes_per_sector / d.bytes_per_sector) ∷ 0xc0 ∷ 0 ∷ [];
      data_transfer_length = 16;
      success = true;
      clears = true;
    }

-- The serial number page, in a buffer of `len` bytes.
pub serial_page : Disk → (len : ℕ) → Answer
serial_page d len =
    let serial = d.serial_number in
    record {
      bytes =
          0
          ∷ 0x80
          ∷ 0
          ∷ length serial % 256
          ∷ (if ltb 4 len then take (min (len - 4) (length serial)) serial else []);
      data_transfer_length = 4 + length serial % 256;
      success = true;
      clears = true;
    }

-- One entry of the page of identifiers.
abbrev pub identifier : (kind : ℕ) → List ℕ → List ℕ
identifier kind serial = 2 ∷ kind ∷ 0 ∷ (length serial % 256) ∷ take (length serial % 256) serial

-- The page of device identifiers
pub identifiers_page : Disk → (len : ℕ) → Answer
identifiers_page d len =
    let serial = d.serial_number in
    let total = 4 + 2 * (4 + length serial) in
    record {
      bytes =
          0
          ∷ 0x83
          ∷ 0
          ∷ 2 * (4 + length serial % 256) % 256
          ∷ (if leb total len then identifier 0 serial ++ identifier 1 serial else []);
      data_transfer_length = total;
      success = true;
      clears = true;
    }

-- The pages of vital product data, by code.
pub disk_page : Disk → (page len : ℕ) → Answer
disk_page d page len =
    if page == 0
    then with_data (0 ∷ 0 ∷ 0 ∷ 4 ∷ 0 ∷ 0x80 ∷ 0x83 ∷ 0xb0 ∷ [])
    else if page == 0x80
    then serial_page d len
    else if page == 0x83
    then identifiers_page d len
    else failure len true

pub cdrom_page : (page len : ℕ) → Answer
cdrom_page page len =
    if page == 0
    then with_data (5 ∷ 0 ∷ 0 ∷ 2 ∷ 0 ∷ 0x80 ∷ [])
    else if page == 0x80
    then with_data (5 ∷ 0x80 ∷ 0 ∷ 8 ∷ 0x31 ∷ 0x32 ∷ 0x33 ∷ 0x34 ∷ 0x35 ∷ 0x36 ∷ 0x37 ∷ 0x38 ∷ [])
    else failure len true

-- `SCSIOP_INQUIRY`
pub inquiry : Pages → Disk → DeviceType → (ℕ → ℕ) → (len : ℕ) → Answer
inquiry w d disk cdb len =
    if cdb 1 % 2 == 0
    then (if cdb 2 == 0 then w.inquiry disk else failure len true)
    else disk_page d (cdb 2) len
inquiry w d cdrom cdb len = if cdb 1 % 2 == 0 then w.inquiry cdrom else cdrom_page (cdb 2) len
inquiry w d _ cdb len = failure len true

-- `SCSIOP_READ_TOC`: format 0 only
pub read_toc : (ℕ → ℕ) → (len : ℕ) → Answer
read_toc cdb len =
    if cdb 2 % 16 == 0
    then record {
      bytes = 0 ∷ 10 ∷ 1 ∷ 1 ∷ 0 ∷ 0x14 ∷ 1 ∷ 0 ∷ 0 ∷ 0 ∷ 0 ∷ 0 ∷ [];
      data_transfer_length = 12;
      success = true;
      clears = false;
    }
    else failure len false

-- `SCSIOP_REPORT_LUNS`: a length of 8 and one LUN of zeros
pub report_luns : Answer
report_luns = with_data (0 ∷ 0 ∷ 0 ∷ 8 ∷ 0 ∷ 0 ∷ 0 ∷ 0 ∷ 0 ∷ 0 ∷ 0 ∷ 0 ∷ 0 ∷ 0 ∷ 0 ∷ 0 ∷ [])

-- Reserve, release, start and stop, verify and the flush of the cache do nothing.
pub is_ignored : ℕ → Bool
is_ignored op =
    (op == 0x16) || (op == 0x17) || (op == 0x1b) || (op == 0x2f) || (op == 0x8f) || (op == 0x35)

-- Write same and unmap are refused.
pub is_refused : ℕ → Bool
is_refused op = (op == 0x41) || (op == 0x93) || (op == 0x42)

-- The switch on the operation code, for a data buffer of `len` bytes.
pub command : Pages → Disk → (ℕ → ℕ) → (len : ℕ) → Effect
command w d cdb len =
    let op = cdb 0 in
    if op == 0
    then answer (no_data len true)
    else if op == 0x12
    then answer (inquiry w d d.device_type cdb len)
    else if op == 0x25
    then answer (read_capacity d)
    else if op == 0x9e
    then answer (read_capacity16 d)
    else if (op == 0x1a) || (op == 0x5a)
    then answer (w.mode_page d cdb len)
    else if is_rw10 op || is_rw16 op
    then put_on_ring
    else if is_refused op
    then answer (failure len false)
    else if is_ignored op
    then answer (no_data len false)
    else if op == 0xa0
    then answer report_luns
    else if op == 0x03
    then request_sense
    else if op == 0x43
    then answer (read_toc cdb len)
    else illegal_request
