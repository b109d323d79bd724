-- ===== src/Evtchn.antt =====
-- xenpci/evtchn.c on amd64: event channels, their handlers and the interrupt service routine.
-- A callback and a call of the kernel or of the hypervisor are entries of the log `calls`; what a
-- callback does to the state is its own component's part.
mod Defs
pub mod Scan
pub mod Served
pub mod Words
pub mod Isr
pub mod Lost
pub mod Handlers
pub mod Setup
mod Tests
pub use Defs.*
use Defs.{
  empty, normal, dpc, new, service, insert_dpc, remove_dpc, unhandled, flush_dpcs, set_callback_irq,
  send, bind_ipi, alloc_unbound, close_port,
}
use win_pvdrivers_mirror.Base.{
  ℕ, zero, suc, ◌+◌, ◌-◌, ◌*◌, ◌/◌, ◌%◌, ◌^◌, Bool, true, false, not, ◌&&◌, Option, none, some,
  List, [], ◌∷◌, ◌++◌, ltb, ◌==◌, if◌then◌else◌, update, ◌>>=◌, Bits, scan,
}

abbrev pub log : EvState → EvCall → EvState
log s c = record s { calls = s.calls ++ c ∷ [] }

-- `EvtChn_DpcBounce` of the action of a port
pub dpc_bounce : EvState → ℕ → EvState
dpc_bounce s port = elim (s.actions port).type [
  | empty ↦ s
  | _ ↦ log s (service port (s.actions port).routine (s.actions port).context)
]

-- `EvtChn_Mask`
pub mask_port : EvState → ℕ → EvState
mask_port s port = record s {
  mask = put_bit s.mask (port / bits_per_long) (port % bits_per_long) true;
}

-- `EvtChn_Unmask`
pub unmask_port : EvState → ℕ → EvState
unmask_port s port = record s {
  mask = put_bit s.mask (port / bits_per_long) (port % bits_per_long) false;
}

-- The `switch` on the type of the action.
pub dispatch : ActionType → EvState → ℕ → EvState
dispatch normal s port = log s (service port (s.actions port).routine (s.actions port).context)
dispatch dpc s port = log s (insert_dpc port)
dispatch empty s port = log s (unhandled port)
dispatch new s port = log s (unhandled port)

-- One round of the inner loop of the service routine, at bit `b` of word `w`.
pub handle_event : ℕ → EvState → ℕ → EvState
handle_event w s b =
    let port = port_of w b in
    let action = s.actions port in
    let counted : EvAction = record action { count = (action.count + 1) % 2 ^ 32 } in
    dispatch action.type
      (record s { pending = put_bit s.pending w b false; actions = update s.actions port counted })
      port

-- `evtchn_pending[w] & ~evtchn_mask[w]`
abbrev pub live : EvState → ℕ → Bits
live s w b = s.pending w b && not (s.mask w b)

-- The inner loop, on fuel. The Boolean is `handled`; `none` is fuel that ran out.
pub drain_word : ℕ → ℕ → Bool × EvState → Option (Bool × EvState)
drain_word zero w (handled, s) = none
drain_word (suc fuel) w (handled, s) = elim (scan bits_per_long 0 (live s w)) [
  | none ↦ some (handled, s)
  | some b ↦ drain_word fuel w (true, handle_event w s b)
]

-- `evt_words &= ~(1 << evt_word)`, where 1 is an `int`: at 31 the shift gives the sign bit, and the
-- complement, widened to 64 bits, clears bit 31 and all above. Past 31 the shift is undefined.
pub clear_sel : Bits → ℕ → Option Bits
clear_sel words w =
    if ltb w 31
    then some (λ j. words j && not (j == w))
    else if w == 31
    then some (λ j. words j && ltb j 31)
    else none

-- The outer loop, on fuel. `none` is also the undefined shift.
pub drain_words : ℕ → Bits → Bool × EvState → Option (Bool × EvState)
drain_words zero words hs = none
drain_words (suc fuel) words hs = elim (scan bits_per_long 0 words) [
  | none ↦ some hs
  | some w ↦ clear_sel words w >>= λ words'.
      drain_word (bits_per_long + 1) w hs >>= λ hs'. drain_words fuel words' hs'
]

-- The part of the service routine before its loops: what is left over from earlier events is
-- dropped and the upcall acknowledged.
pub acknowledge : EvState → ℕ → EvState
acknowledge s pcpu = record s {
  pending_pvt =
      update s.pending_pvt pcpu (λ i. if ltb i bits_per_long then 0 else s.pending_pvt pcpu i);
  vcpus = update s.vcpus 0 (record (s.vcpus 0) { upcall_pending = 0 });
}

-- `xchg(&vcpu_info->evtchn_pending_sel, 0)`
pub take_sel : EvState → EvState
take_sel s = record s { vcpus = update s.vcpus 0 (record (s.vcpus 0) { pending_sel = λ _. false }) }

-- `EvtChn_EvtInterruptIsr` on processor `pcpu`
pub isr : EvState → ℕ → Option (Bool × EvState)
isr s0 pcpu =
    let s = acknowledge s0 pcpu in
    let looped = drain_words (bits_per_long + 1) (s.vcpus 0).pending_sel (false, take_sel s) in
    if s.interrupts_masked then some (true, s) else looped

-- `EvtChn_Bind` (`normal`) and `EvtChn_BindDpc` (`dpc`): the same code but for the last type. The
-- Boolean is whether the call succeeds.
pub bind_as : ActionType → ActionType → EvState → (port routine context flags : ℕ) → Bool × EvState
bind_as kind empty s port routine context flags =
    let reserved = record s {
      actions = update s.actions port (record (s.actions port) { type = new });
    } in
    let action : EvAction = record (reserved.actions port) {
      type = kind;
      routine = routine;
      context = context;
      flags = flags;
    } in
    (true, unmask_port (record reserved { actions = update reserved.actions port action }) port)
bind_as kind _ s port routine context flags = (false, s)

pub bind : EvState → (port routine context flags : ℕ) → Bool × EvState
bind s port = bind_as normal (s.actions port).type s port

pub bind_dpc : EvState → (port routine context flags : ℕ) → Bool × EvState
bind_dpc s port = bind_as dpc (s.actions port).type s port

pub retire : ActionType → EvState → ℕ → EvState
retire dpc s port = log (log s (remove_dpc port)) flush_dpcs
retire _ s port = s

-- `EvtChn_Unbind`
pub unbind : EvState → ℕ → EvState
unbind s0 port =
    let s = mask_port s0 port in
    let old_type = (s.actions port).type in
    let s1 = record s {
      actions = update s.actions port (record (s.actions port) { type = empty });
    } in
    let s2 = retire old_type s1 port in
    record s2 {
      actions = update s2.actions port (record (s2.actions port) { routine = 0; context = 0 });
    }

-- `EvtChn_Notify`, `EvtChn_AllocIpi`, `EvtChn_AllocUnbound` and `EvtChn_Close`: one hypercall each.
-- `answer` is the port that the hypervisor fills in.
pub notify : EvState → ℕ → EvState
notify s port = log s (send port)

pub alloc_ipi : EvState → (vcpu answer : ℕ) → ℕ × EvState
alloc_ipi s vcpu answer = (answer, log s (bind_ipi vcpu))

pub alloc_unbound_port : EvState → (domain answer : ℕ) → ℕ × EvState
alloc_unbound_port s domain answer = (answer, log s (alloc_unbound domain))

pub close : EvState → ℕ → EvState
close s port = log s (close_port port)

-- The loop of `EvtChn_Init` over the events from `i` on.
pub reset_events : ℕ → ℕ → EvState → EvState
reset_events zero i s = s
reset_events (suc n) i s0 =
    let s = mask_port s0 i in
    let blank : EvAction = record (s.actions i) { type = empty; count = 0 } in
    reset_events n (suc i) (record s { actions = update s.actions i blank })

-- The loop over the processors, and the one that clears their mask.
pub reset_vcpus : ℕ → ℕ → EvState → EvState
reset_vcpus zero i s = s
reset_vcpus (suc n) i s =
    let info : VcpuInfo = record {
      upcall_pending = 0;
      upcall_mask = 1;
      pending_sel = λ _. false;
    } in
    reset_vcpus n (suc i) (record s { vcpus = update s.vcpus i info })

pub set_upcall_masks : ℕ → ℕ → ℕ → EvState → EvState
set_upcall_masks value zero i s = s
set_upcall_masks value (suc n) i s =
    set_upcall_masks value n (suc i)
      (record s { vcpus = update s.vcpus i (record (s.vcpus i) { upcall_mask = value }) })

-- `EvtChn_Init`, which is also `EvtChn_Resume`. Only 8 of the 64 words of pending bits are cleared.
pub init : EvState → EvState
init s0 =
    let s1 = reset_events nr_events 0 s0 in
    let s2 = record s1 { pending = λ w. if ltb w 8 then (λ _. false) else s1.pending w } in
    let s3 = log (reset_vcpus max_virt_cpus 0 s2) (set_callback_irq s0.irq_number) in
    record (set_upcall_masks 0 max_virt_cpus 0 s3) { interrupts_masked = false }

pub resume : EvState → EvState
resume s = init s

pub remove_if_dpc : ActionType → EvState → ℕ → EvState
remove_if_dpc dpc s port = log s (remove_dpc port)
remove_if_dpc _ s port = s

pub remove_dpcs : ℕ → ℕ → EvState → EvState
remove_dpcs zero i s = s
remove_dpcs (suc n) i s = remove_dpcs n (suc i) (remove_if_dpc (s.actions i).type s i)

-- `EvtChn_Suspend`
pub suspend : EvState → EvState
suspend s0 =
    let s1 = set_upcall_masks 1 max_virt_cpus 0 (record s0 { interrupts_masked = true }) in
    log (remove_dpcs nr_events 0 (log s1 (set_callback_irq 0))) flush_dpcs
