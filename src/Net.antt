-- ===== src/Net.antt =====
-- The headers of the packets of xennet/xennet_common.c: their bytes gathered from the buffers of a
-- packet, what is read from them, and the filter on the destination. `none` is a failed assertion.
pub mod Header
pub mod Gather
pub mod Loop
pub mod Built
pub mod Parse
pub mod Fields
pub mod Short
pub mod Filter
pub mod Mac
pub mod MacText
mod Tests
use win_pvdrivers_mirror.Base.{ℕ, Bool, List}

-- One buffer of a packet: its bytes, whose number is its byte count, and whether
-- `MmGetSystemAddressForMdlSafe` maps it.
pub record Mdl : Type 0 where
  pub bytes : List ℕ
  pub mapped : Bool

-- The fields of `packet_info_t` that move while the header is gathered: `curr_mdl` and the buffers
-- after it, the offset in it, `curr_pb` and those after it, and the header with its length.
pub record Cursor : Type 0 where
  pub mdls : List Mdl
  pub offset : ℕ
  pub pbs : List ℕ
  pub header_length : ℕ
  pub header : ℕ → ℕ

-- The fields that stay: the packet's length, the length of the first buffer, and whether the header
-- is that buffer itself (`header == first_mdl_virtual`).
pub record Frame : Type 0 where
  pub total_length : ℕ
  pub first_mdl_length : ℕ
  pub in_place : Bool
