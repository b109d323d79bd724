-- ===== src/Evtchn/Setup.antt =====
-- `EvtChn_Init`, which also resumes, and `EvtChn_Suspend`.
use native.Mathlib.Decide.{dec_lt}
use win_pvdrivers_mirror.Base.{
  ap₂, lt→ltb, ℕ, zero, suc, ◌+◌, ◌*◌, ◌<◌, ◌≤◌, ◌≡◌, refl, ap, sym, ◌∙◌, inl, inr, Bool, true,
  false, ◌&&◌, not, List, [], ◌∷◌, ◌++◌, append_assoc, append-nil, ltb, ◌==◌, if◌then◌else◌, arith,
  update, update_self, update_ne, ==_iff, Bool-cases,
}
use win_pvdrivers_mirror.Evtchn.{
  ActionType, empty, normal, dpc, new, EvAction, EvState, EvCall, VcpuInfo, remove_dpc, flush_dpcs,
  set_callback_irq, bits_per_long, nr_events, max_virt_cpus, log, mask_port, reset_events,
  reset_vcpus, set_upcall_masks, init, suspend, remove_dpcs, remove_if_dpc, live,
}

-- Events in a range have been reset.
record Reset (n i : ℕ) (s t : EvState) : Type 0 where
  type : (q : ℕ) → i ≤ q → q < i + n → ((t.actions q).type ≡ empty) × ((t.actions q).count ≡ 0)
  keep : (q : ℕ) → q < i → t.actions q ≡ s.actions q
  mask : (w b : ℕ) → b < 64 → i ≤ w * 64 + b → w * 64 + b < i + n → t.mask w b ≡ true
  keep_mask : (w b : ℕ) → b < 64 → w * 64 + b < i → t.mask w b ≡ s.mask w b
  irq : t.irq_number ≡ s.irq_number

reset_events-Reset : (n i : ℕ) (s : EvState) → Reset n i s (reset_events n i s)
unfolding reset_events mask_port
reset_events-Reset zero i s = record {
  type = λ q h k. absurd (omega arith);
  keep = λ q h. refl;
  mask = λ w b h k l. absurd (omega arith);
  keep_mask = λ w b h k. refl;
  irq = refl;
}
reset_events-Reset (suc n) i s =
    let blank : EvAction = record (s.actions i) { type = empty; count = 0 } in
    let s1 = record (mask_port s i) { actions = update s.actions i blank } in
    let r = reset_events-Reset n (suc i) s1 in
    record {
      type = λ q h k. elim (dec_lt i q) [
        | yes above ↦ r.type q above (omega arith)
        | no here ↦ ground (arith, r.keep q)
      ];
      keep = λ q h. ground (arith, r.keep q);
      mask = λ w b h k l. elim (dec_lt i (w * 64 + b)) [
        | yes above ↦ r.mask w b h above (omega arith)
        | no here ↦ ground (arith, r.keep_mask w b)
      ];
      keep_mask = λ w b h k. ground (arith, r.keep_mask w b);
      irq = r.irq;
    }

-- What the loops over the processors leave alone.
record SameBut (s t : EvState) : Type 0 where
  actions : t.actions ≡ s.actions
  mask : t.mask ≡ s.mask
  pending : t.pending ≡ s.pending
  calls : t.calls ≡ s.calls
  masked : t.interrupts_masked ≡ s.interrupts_masked

SameBut-trans : {s t u : EvState} → SameBut s t → SameBut t u → SameBut s u
SameBut-trans a b = record {
  actions = b.actions ∙ a.actions;
  mask = b.mask ∙ a.mask;
  pending = b.pending ∙ a.pending;
  calls = b.calls ∙ a.calls;
  masked = b.masked ∙ a.masked;
}

SameBut-vcpus : (s : EvState) (v : ℕ → VcpuInfo) → SameBut s (record s { vcpus = v })
SameBut-vcpus s v = record {
  actions = refl;
  mask = refl;
  pending = refl;
  calls = refl;
  masked = refl;
}

record VcpusReset (n i : ℕ) (s t : EvState) : Type 0 where
  same : SameBut s t
  info :
      (c : ℕ)
      → i ≤ c
      → c < i + n
      → t.vcpus c ≡ record { upcall_pending = 0; upcall_mask = 1; pending_sel = λ _. false }
  keep : (c : ℕ) → c < i → t.vcpus c ≡ s.vcpus c

reset_vcpus-VcpusReset : (n i : ℕ) (s : EvState) → VcpusReset n i s (reset_vcpus n i s)
unfolding reset_vcpus
reset_vcpus-VcpusReset zero i s = record {
  same = SameBut-vcpus s s.vcpus;
  info = λ c h k. absurd (omega arith);
  keep = λ c h. refl;
}
reset_vcpus-VcpusReset (suc n) i s =
    let info : VcpuInfo = record {
      upcall_pending = 0;
      upcall_mask = 1;
      pending_sel = λ _. false;
    } in
    let s1 = record s { vcpus = update s.vcpus i info } in
    let r = reset_vcpus-VcpusReset n (suc i) s1 in
    record {
      same = SameBut-trans (SameBut-vcpus s (update s.vcpus i info)) r.same;
      info = λ c h k. elim (dec_lt i c) [
        | yes above ↦ r.info c above (omega arith)
        | no here ↦ r.keep c (omega arith) ∙ at_vcpu i c s.vcpus info (omega arith)
      ];
      keep = λ c h. r.keep c (omega arith) ∙ update_ne s.vcpus {i = i} {j = c} info (omega arith);
    }
  where
    at_vcpu : (i c : ℕ) (f : ℕ → VcpuInfo) (v : VcpuInfo) → i ≡ c → update f i v c ≡ v
    at_vcpu i c f v e = rw e (update_self f c v)

-- One field of each processor in a range has been set.
record UpcallsSet (v n i : ℕ) (s t : EvState) : Type 0 where
  same : SameBut s t
  sel : (c : ℕ) → (t.vcpus c).pending_sel ≡ (s.vcpus c).pending_sel
  upcall : (c : ℕ) → (t.vcpus c).upcall_pending ≡ (s.vcpus c).upcall_pending
  value : (c : ℕ) → i ≤ c → c < i + n → (t.vcpus c).upcall_mask ≡ v
  keep : (c : ℕ) → c < i → (t.vcpus c).upcall_mask ≡ (s.vcpus c).upcall_mask

set_upcall_masks-UpcallsSet :
    (v n i : ℕ) (s : EvState) → UpcallsSet v n i s (set_upcall_masks v n i s)
unfolding set_upcall_masks
set_upcall_masks-UpcallsSet v zero i s = record {
  same = SameBut-vcpus s s.vcpus;
  sel = λ c. refl;
  upcall = λ c. refl;
  value = λ c h k. absurd (omega arith);
  keep = λ c h. refl;
}
set_upcall_masks-UpcallsSet v (suc n) i s =
    let one : VcpuInfo = record (s.vcpus i) { upcall_mask = v } in
    let s1 = record s { vcpus = update s.vcpus i one } in
    let r = set_upcall_masks-UpcallsSet v n (suc i) s1 in
    record {
      same = SameBut-trans (SameBut-vcpus s (update s.vcpus i one)) r.same;
      sel = λ c. r.sel c ∙ at_field VcpuInfo.pending_sel c refl;
      upcall = λ c. r.upcall c ∙ at_field VcpuInfo.upcall_pending c refl;
      value = λ c h k. elim (dec_lt i c) [
        | yes above ↦ r.value c above (omega arith)
        | no here ↦ ground (arith, r.keep c)
      ];
      keep = λ c h. ground (arith, r.keep c);
    }
  where
    at_field :
        {A : Type 0} (g : VcpuInfo → A) (c : ℕ)
        → g (record (s.vcpus i) { upcall_mask = v }) ≡ g (s.vcpus i)
        → g (update s.vcpus i (record (s.vcpus i) { upcall_mask = v }) c) ≡ g (s.vcpus c)
    at_field g c e = elim (Bool-cases (i == c)) [
      | inl here ↦ rw here (e ∙ ap (λ k. g (s.vcpus k)) ((==_iff i c).0 here))
      | inr other ↦ rw other
    ]

-- What `EvtChn_Init` establishes.
pub record Initialised (s t : EvState) : Type 0 where
  pub type : (q : ℕ) → q < nr_events → ((t.actions q).type ≡ empty) × ((t.actions q).count ≡ 0)
  pub quiet : (w b : ℕ) → w < bits_per_long → b < bits_per_long → live t w b ≡ false
  pub cleared : (w b : ℕ) → w < 8 → t.pending w b ≡ false
  pub sel : (c b : ℕ) → c < max_virt_cpus → (t.vcpus c).pending_sel b ≡ false
  pub upcall :
      (c : ℕ) → c < max_virt_cpus → ((t.vcpus c).upcall_pending ≡ 0) × ((t.vcpus c).upcall_mask ≡ 0)
  pub served : t.interrupts_masked ≡ false
  pub calls : t.calls ≡ s.calls ++ set_callback_irq s.irq_number ∷ []

reset_events-calls : (n i : ℕ) (s : EvState) → (reset_events n i s).calls ≡ s.calls
unfolding reset_events mask_port
reset_events-calls zero i s = refl
reset_events-calls (suc n) i s = reset_events-calls n (suc i) _

-- The states of `EvtChn_Init` between its loops.
abbrev masked : EvState → EvState
masked s = reset_events nr_events 0 s

abbrev cleared : EvState → EvState
cleared s = record (masked s) {
  pending = λ w. if ltb w 8 then (λ _. false) else (masked s).pending w;
}

abbrev hooked : EvState → EvState
hooked s = log (reset_vcpus max_virt_cpus 0 (cleared s)) (set_callback_irq s.irq_number)

-- After `EvtChn_Init` every event is unhandled and its count zero, and no bit the service routine
-- would take is set in any of the 64 words; the selectors and the pending flags of the first 32
-- processors are clear and their upcalls allowed, the first 8 words of pending bits are clear,
-- interrupts are served, and the one call made registers the interrupt.
pub init-Initialised : (s : EvState) → Initialised s (init s)
unfolding init
init-Initialised s =
    let r = reset_events-Reset nr_events 0 s in
    let v = reset_vcpus-VcpusReset max_virt_cpus 0 (cleared s) in
    let u = set_upcall_masks-UpcallsSet 0 max_virt_cpus 0 (hooked s) in
    record {
      type = λ q h. (
        ap (λ f. (f q).type) (u.same.actions ∙ v.same.actions) ∙ (r.type q (omega arith) h).0,
        ap (λ f. (f q).count) (u.same.actions ∙ v.same.actions) ∙ (r.type q (omega arith) h).1,
      );
      quiet = λ w b h k.
          and_masked ((init s).pending w b) (
            ap (λ f. f w b) (u.same.mask ∙ v.same.mask) ∙ r.mask w b k (omega arith) (omega arith));
      cleared = λ w b h. ap (λ f. f w b) (u.same.pending ∙ v.same.pending) ∙ low_words w b h;
      sel = λ c b h. ap (λ f. f b) (u.sel c ∙ ap VcpuInfo.pending_sel (v.info c (omega arith) h));
      upcall = λ c h. (
        u.upcall c ∙ ap VcpuInfo.upcall_pending (v.info c (omega arith) h),
        u.value c (omega arith) h,
      );
      served = refl;
      calls =
          u.same.calls
          ∙ ap (λ l. l ++ set_callback_irq s.irq_number ∷ [])
              (v.same.calls ∙ reset_events-calls nr_events 0 s);
    }
  where
    and_masked : (a : Bool) {b : Bool} → b ≡ true → (a && not b) ≡ false
    and_masked a {b = b} e = ground arith

    low_words : (w b : ℕ) → w < 8 → (cleared s).pending w b ≡ false
    low_words w b h = rw (lt→ltb w 8 h) refl

-- What `EvtChn_Suspend` asks for a port: its DPC is removed.
pub removals : ActionType → ℕ → List EvCall
removals dpc i = remove_dpc i ∷ []
removals _ i = []

pub all_removals : (ℕ → EvAction) → ℕ → ℕ → List EvCall
all_removals f zero i = []
all_removals f (suc n) i = removals (f i).type i ++ all_removals f n (suc i)

remove_dpcs_lem :
    (n i : ℕ) (s : EvState)
    → remove_dpcs n i s ≡ record s { calls = s.calls ++ all_removals s.actions n i }
unfolding remove_dpcs all_removals remove_if_dpc removals
remove_dpcs_lem zero i s = ap (λ l. record s { calls = l }) (sym (append-nil s.calls))
remove_dpcs_lem (suc n) i s =
    remove_dpcs_lem n (suc i) (remove_if_dpc (s.actions i).type s i) ∙ step (s.actions i).type
  where
    step :
        (a : ActionType)
        → record (remove_if_dpc a s i) {
          calls =
              (remove_if_dpc a s i).calls ++ all_removals (remove_if_dpc a s i).actions n (suc i);
        }
          ≡ record s { calls = s.calls ++ (removals a i ++ all_removals s.actions n (suc i)) }
    step dpc =
        ap (λ l. record s { calls = l })
          (append_assoc s.calls (remove_dpc i ∷ []) (all_removals s.actions n (suc i)))
    step empty = refl
    step normal = refl
    step new = refl

pub record Suspended (s t : EvState) : Type 0 where
  pub closed : t.interrupts_masked ≡ true
  pub upcall : (c : ℕ) → c < max_virt_cpus → (t.vcpus c).upcall_mask ≡ 1
  pub sel : (c : ℕ) → (t.vcpus c).pending_sel ≡ (s.vcpus c).pending_sel
  pub actions : t.actions ≡ s.actions
  pub pending : t.pending ≡ s.pending
  pub mask : t.mask ≡ s.mask
  pub calls :
      t.calls
      ≡ s.calls ++ (set_callback_irq 0 ∷ (all_removals s.actions nr_events 0 ++ flush_dpcs ∷ []))

-- `EvtChn_Suspend` closes the service routine and the upcalls of the first 32 processors before it
-- asks the hypervisor for anything; it then takes the interrupt away, removes the DPC of every port
-- that has one, in ascending order, and flushes the DPCs last. Handlers, pending bits, masks and
-- selectors stay.
pub suspend-Suspended : (s : EvState) → Suspended s (suspend s)
unfolding suspend
suspend-Suspended s =
    let u = set_upcall_masks-UpcallsSet 1 max_virt_cpus 0 (record s { interrupts_masked = true }) in
    let s1 = set_upcall_masks 1 max_virt_cpus 0 (record s { interrupts_masked = true }) in
    let gone = remove_dpcs_lem nr_events 0 (log s1 (set_callback_irq 0)) in
    record {
      closed = ap EvState.interrupts_masked gone ∙ u.same.masked;
      upcall = λ c h. ap (λ e. (e.vcpus c).upcall_mask) gone ∙ u.value c (omega arith) h;
      sel = λ c. ap (λ e. (e.vcpus c).pending_sel) gone ∙ u.sel c;
      actions = ap EvState.actions gone ∙ u.same.actions;
      pending = ap EvState.pending gone ∙ u.same.pending;
      mask = ap EvState.mask gone ∙ u.same.mask;
      calls =
          ap (λ e. e.calls ++ flush_dpcs ∷ []) gone
          ∙ ap₂
              (λ l f.
                ((l ++ set_callback_irq 0 ∷ []) ++ all_removals f nr_events 0) ++ flush_dpcs ∷ [])
              u.same.calls u.same.actions
          ∙ regroup s.calls (all_removals s.actions nr_events 0);
    }
  where
    regroup :
        (a r : List EvCall)
        → ((a ++ set_callback_irq 0 ∷ []) ++ r) ++ flush_dpcs ∷ []
          ≡ a ++ (set_callback_irq 0 ∷ (r ++ flush_dpcs ∷ []))
    regroup a r =
        append_assoc (a ++ set_callback_irq 0 ∷ []) r (flush_dpcs ∷ [])
        ∙ append_assoc a (set_callback_irq 0 ∷ []) (r ++ flush_dpcs ∷ [])
