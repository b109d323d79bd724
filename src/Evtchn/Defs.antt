-- ===== src/Evtchn/Defs.antt =====
-- The state of xenpci/evtchn.c. Words of the shared info page are given by their bits. The build is
-- amd64: BITS_PER_LONG is 64, BITS_PER_LONG_SHIFT 6 and NR_EVENTS 4096.
use win_pvdrivers_mirror.Base.{ℕ, ◌+◌, ◌*◌, Bool, List, Bits, ◌==◌, ◌&&◌, if◌then◌else◌}

-- `EVT_ACTION_TYPE_*`
pub data ActionType : Type 0 where
  empty normal dpc new : ActionType

-- `ev_action_t`, less the DPC object and fields that nothing reads. A routine is named by a
-- number, 0 for NULL.
pub record EvAction : Type 0 where
  pub type : ActionType
  pub routine : ℕ
  pub context : ℕ
  pub flags : ℕ
  pub count : ℕ

-- The fields of `vcpu_info_t` that the driver writes.
pub record VcpuInfo : Type 0 where
  pub upcall_pending : ℕ
  pub upcall_mask : ℕ
  pub pending_sel : Bits

-- What the code asks of the kernel and the hypervisor, in order.
pub data EvCall : Type 0 where
  service : (port routine context : ℕ) → EvCall
  insert_dpc : (port : ℕ) → EvCall
  remove_dpc : (port : ℕ) → EvCall
  unhandled : (port : ℕ) → EvCall
  flush_dpcs : EvCall
  set_callback_irq : (irq : ℕ) → EvCall
  send : (port : ℕ) → EvCall
  bind_ipi : (vcpu : ℕ) → EvCall
  alloc_unbound : (remote_dom : ℕ) → EvCall
  close_port : (port : ℕ) → EvCall

pub record EvState : Type 0 where
  pub actions : ℕ → EvAction
  pub pending : ℕ → Bits
  pub mask : ℕ → Bits
  pub vcpus : ℕ → VcpuInfo
  pub pending_pvt : ℕ → ℕ → ℕ
  pub interrupts_masked : Bool
  pub irq_number : ℕ
  pub calls : List EvCall

abbrev pub bits_per_long : ℕ
bits_per_long = 64

abbrev pub nr_events : ℕ
nr_events = 4096

abbrev pub max_virt_cpus : ℕ
max_virt_cpus = 32

-- Bit `b` of word `w` is stored.
abbrev pub put_bit : (ℕ → Bits) → ℕ → ℕ → Bool → ℕ → Bits
put_bit f w b v w' b' = if (w' == w) && (b' == b) then v else f w' b'

-- `(evt_word << BITS_PER_LONG_SHIFT) + evt_bit`
abbrev pub port_of : ℕ → ℕ → ℕ
port_of w b = w * bits_per_long + b
