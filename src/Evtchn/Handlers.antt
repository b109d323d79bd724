-- ===== src/Evtchn/Handlers.antt =====
-- `EvtChn_Bind`, `EvtChn_BindDpc` and `EvtChn_Unbind`.
use win_pvdrivers_mirror.Base.{
  ℕ, ◌/◌, ◌%◌, ◌≡◌, refl, ◌≢◌, ap, sym, ◌∙◌, true, false, List, [], ◌∷◌, ◌++◌, update, update_self,
  update_ne, append_assoc, append-nil,
}
use win_pvdrivers_mirror.Evtchn.{
  ActionType, empty, normal, dpc, new, EvAction, EvState, EvCall, remove_dpc, flush_dpcs,
  bits_per_long, bind_as, bind, bind_dpc, unbind, retire, mask_port, unmask_port, put_bit,
}

-- A handler of a kind has been registered for a port, and nothing else has changed but the mask.
pub record Bound (kind : ActionType) (s : EvState) (port routine context flags : ℕ) (t : EvState)
    : Type 0 where
  pub own :
      t.actions port
      ≡ record (s.actions port) { type = kind; routine = routine; context = context; flags = flags }
  pub others : (q : ℕ) → q ≢ port → t.actions q ≡ s.actions q
  pub mask : t.mask ≡ put_bit s.mask (port / bits_per_long) (port % bits_per_long) false
  pub pending : t.pending ≡ s.pending
  pub calls : t.calls ≡ s.calls

bind_as-Bound :
    (kind t : ActionType) (s : EvState) (port routine context flags : ℕ)
    → t ≡ empty
    → (u : EvState) × (bind_as kind t s port routine context flags ≡ (true, u))
      × Bound kind s port routine context flags u
unfolding bind_as unmask_port
bind_as-Bound kind empty s port routine context flags e =
    let first : EvAction = record (s.actions port) { type = new } in
    let f = update s.actions port first in
    let last : EvAction = record (f port) {
      type = kind;
      routine = routine;
      context = context;
      flags = flags;
    } in
    (
      _,
      refl,
      record {
        own =
            update_self f port last
            ∙ ap
                (λ (a : EvAction). record a {
                  type = kind;
                  routine = routine;
                  context = context;
                  flags = flags;
                })
                (update_self s.actions port first);
        others = λ q ne.
            update_ne f {i = port} {j = q} last (λ e. ne (sym e))
            ∙ update_ne s.actions {i = port} {j = q} first (λ e. ne (sym e));
        mask = refl;
        pending = refl;
        calls = refl;
      },
    )
bind_as-Bound kind _ s port routine context flags e = absurd (cc)

bind_as_taken :
    (kind t : ActionType) (s : EvState) (port routine context flags : ℕ)
    → t ≢ empty
    → bind_as kind t s port routine context flags ≡ (false, s)
unfolding bind_as
bind_as_taken kind empty s port routine context flags ne = absurd (ne refl)
bind_as_taken kind _ s port routine context flags ne = refl

-- On a port without a handler, `EvtChn_Bind` and `EvtChn_BindDpc` succeed and register theirs,
-- unmask the port and leave every other port, the pending bits and the log alone.
pub bind-Bound :
    (s : EvState) (port routine context flags : ℕ)
    → (s.actions port).type ≡ empty
    → ((t : EvState) × (bind s port routine context flags ≡ (true, t))
        × Bound normal s port routine context flags t)
      × ((t : EvState) × (bind_dpc s port routine context flags ≡ (true, t))
          × Bound dpc s port routine context flags t)
unfolding bind bind_dpc
bind-Bound s port routine context flags e = (
  bind_as-Bound normal (s.actions port).type s port routine context flags e,
  bind_as-Bound dpc (s.actions port).type s port routine context flags e,
)

-- On a port with a handler, or one whose registration is in progress, both fail and change nothing.
pub bind_taken :
    (s : EvState) (port routine context flags : ℕ)
    → (s.actions port).type ≢ empty
    → (bind s port routine context flags ≡ (false, s))
      × (bind_dpc s port routine context flags ≡ (false, s))
unfolding bind bind_dpc
bind_taken s port routine context flags ne = (
  bind_as_taken normal (s.actions port).type s port routine context flags ne,
  bind_as_taken dpc (s.actions port).type s port routine context flags ne,
)

-- The calls that retire a handler.
abbrev pub retire_calls : ActionType → ℕ → List EvCall
retire_calls dpc port = remove_dpc port ∷ flush_dpcs ∷ []
retire_calls _ port = []

-- A port has no handler any more, and nothing else has changed but the mask.
pub record Unbound (s : EvState) (port : ℕ) (t : EvState) : Type 0 where
  pub own : t.actions port ≡ record (s.actions port) { type = empty; routine = 0; context = 0 }
  pub others : (q : ℕ) → q ≢ port → t.actions q ≡ s.actions q
  pub mask : t.mask ≡ put_bit s.mask (port / bits_per_long) (port % bits_per_long) true
  pub pending : t.pending ≡ s.pending
  pub calls : t.calls ≡ s.calls ++ retire_calls (s.actions port).type port

retire-calls :
    (k : ActionType) (s : EvState) (port : ℕ)
    → retire k s port ≡ record s { calls = s.calls ++ retire_calls k port }
unfolding retire
retire-calls dpc s port =
    ap (λ c. record s { calls = c }) (append_assoc s.calls (remove_dpc port ∷ []) (flush_dpcs ∷ []))
retire-calls _ s port = ap (λ c. record s { calls = c }) (sym (append-nil s.calls))

-- `EvtChn_Unbind` masks the port and clears its handler, and removes and flushes the DPC if the
-- handler had one. Other ports and pending bits stay.
pub unbind-Unbound : (s : EvState) (port : ℕ) → Unbound s port (unbind s port)
unfolding unbind mask_port
unbind-Unbound s port =
    let first : EvAction = record (s.actions port) { type = empty } in
    let f = update s.actions port first in
    let s1 = record (mask_port s port) { actions = f } in
    let finish : EvState → EvState = λ x. record x {
      actions = update x.actions port (record (x.actions port) { routine = 0; context = 0 });
    } in
    let last : EvAction = record (f port) { routine = 0; context = 0 } in
    let e = ap finish (retire-calls (s.actions port).type s1 port) in
    record {
      own =
          ap (λ x. EvState.actions x port) e
          ∙ update_self f port last
          ∙ ap (λ (a : EvAction). record a { routine = 0; context = 0 })
              (update_self s.actions port first);
      others = λ q ne.
          ap (λ x. EvState.actions x q) e
          ∙ update_ne f {i = port} {j = q} last (λ e. ne (sym e))
          ∙ update_ne s.actions {i = port} {j = q} first (λ e. ne (sym e));
      mask = ap EvState.mask e;
      pending = ap EvState.pending e;
      calls = ap EvState.calls e;
    }
