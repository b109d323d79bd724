-- ===== src/Evtchn/Served.antt =====
-- What one pass over live bits does, port by port: pending bits, counts, and the calls in order.
use mathlib.Core.List.{foldl, map}
use win_pvdrivers_mirror.Base.{
  ℕ, zero, suc, ◌+◌, ◌/◌, ◌%◌, ◌^◌, ◌≤◌, ◌≡◌, refl, ap, ap₂, sym, ◌∙◌, inl, inr, Bool, true, false,
  not, ◌&&◌, List, [], ◌∷◌, ◌++◌, append_assoc, append-nil, ltb, leb, ◌==◌, ==_iff, if◌then◌else◌,
  arith, update, update_self, fun_ext, Bool-cases, Bits, set_bits,
}
use win_pvdrivers_mirror.Evtchn.{
  ActionType, empty, normal, dpc, EvState, EvAction, EvCall, service, insert_dpc, unhandled,
  bits_per_long, put_bit, port_of, dispatch, handle_event, live,
}
use win_pvdrivers_mirror.Evtchn.Scan.{serve, serve_word, pending-handle_event, mask-handle_event}

-- The call that serves an event of a port: the routine itself, its DPC, or a message.
abbrev pub call_of : EvAction → ℕ → EvCall
call_of a port = elim a.type [
  | normal ↦ service port a.routine a.context
  | dpc ↦ insert_dpc port
  | _ ↦ unhandled port
]

abbrev pub within : ℕ → ℕ → ℕ → Bool
within i n b = leb i b && ltb b (i + n)

abbrev pub counted : EvAction → EvAction
counted a = record a { count = (a.count + 1) % 2 ^ 32 }

actions-dispatch : (t : ActionType) (s : EvState) (p : ℕ) → (dispatch t s p).actions ≡ s.actions
unfolding dispatch
actions-dispatch empty s p = refl
actions-dispatch _ s p = refl

calls-dispatch :
    (t : ActionType) (s : EvState) (p : ℕ)
    → (s.actions p).type ≡ t
    → (dispatch t s p).calls ≡ s.calls ++ call_of (s.actions p) p ∷ []
unfolding dispatch
calls-dispatch empty s p e = rw e
calls-dispatch _ s p e = rw e

actions-handle_event :
    (s : EvState) (w b : ℕ)
    → (handle_event w s b).actions
      ≡ update s.actions (port_of w b) (counted (s.actions (port_of w b)))
unfolding handle_event
actions-handle_event s w b = actions-dispatch (s.actions (port_of w b)).type _ (port_of w b)

calls-handle_event :
    (s : EvState) (w b : ℕ)
    → (handle_event w s b).calls ≡ s.calls ++ call_of (s.actions (port_of w b)) (port_of w b) ∷ []
unfolding handle_event
calls-handle_event s w b =
    let p = port_of w b in
    let a = s.actions p in
    let s1 = record s {
      pending = put_bit s.pending w b false;
      actions = update s.actions p (counted a);
    } in
    let here : s1.actions p ≡ counted a = update_self s.actions p (counted a) in
    calls-dispatch a.type s1 p (ap EvAction.type here) ∙ ap (λ x. s.calls ++ call_of x p ∷ []) here

call_of-handle_event :
    (s : EvState) (w b q : ℕ) → call_of ((handle_event w s b).actions q) q ≡ call_of (s.actions q) q
call_of-handle_event s w b q =
    ap (λ f. call_of (f q) q) (actions-handle_event s w b) ∙ elim (Bool-cases (port_of w b == q)) [
      | inl e ↦ rw e (ap (λ k. call_of (s.actions k) q) ((==_iff (port_of w b) q).0 e))
      | inr e ↦ rw e
    ]

-- A count, one higher where a test holds.
abbrev pub bumped : Bool → ℕ → ℕ
bumped hit c = if hit then (c + 1) % 2 ^ 32 else c

count-handle_event :
    (s : EvState) (w b q : ℕ)
    → ((handle_event w s b).actions q).count ≡ bumped (port_of w b == q) (s.actions q).count
count-handle_event s w b q =
    ap (λ f. EvAction.count (f q)) (actions-handle_event s w b)
    ∙ elim (Bool-cases (port_of w b == q)) [
      | inl e ↦ rw e (ap (λ k. ((s.actions k).count + 1) % 2 ^ 32) ((==_iff (port_of w b) q).0 e))
      | inr e ↦ rw e
    ]

-- The bits of word `w` in a range that `p` names have been served, from `s` to `t`.
pub record Swept (w n i : ℕ) (p : Bits) (s t : EvState) : Type 0 where
  pub pending :
      (w' b' : ℕ)
      → t.pending w' b' ≡ (s.pending w' b' && not ((w' == w) && (within i n b' && p b')))
  pub mask : t.mask ≡ s.mask
  pub count :
      (q : ℕ)
      → (t.actions q).count
        ≡ bumped ((q / 64 == w) && (within i n (q % 64) && p (q % 64))) (s.actions q).count
  pub call : (q : ℕ) → call_of (t.actions q) q ≡ call_of (s.actions q) q
  pub calls :
      t.calls
      ≡ s.calls ++ map (λ b. call_of (s.actions (port_of w b)) (port_of w b)) (set_bits n i p)

calls_step :
    (w i : ℕ) (bs : List ℕ) (s t : EvState)
    → t.calls
      ≡ (handle_event w s i).calls
        ++ map (λ b. call_of ((handle_event w s i).actions (port_of w b)) (port_of w b)) bs
    → t.calls ≡ s.calls ++ map (λ b. call_of (s.actions (port_of w b)) (port_of w b)) (i ∷ bs)
calls_step w i bs s t e =
    e
    ∙ ap₂ ◌++◌ (calls-handle_event s w i)
        (ap (λ f. map f bs) (fun_ext λ b. call_of-handle_event s w i (port_of w b)))
    ∙ append_assoc s.calls (call_of (s.actions (port_of w i)) (port_of w i) ∷ [])
        (map (λ b. call_of (s.actions (port_of w b)) (port_of w b)) bs)

pub sweep :
    (n i w : ℕ) (p : Bits) (hs : Bool × EvState)
    → i + n ≤ 64
    → Swept w n i p hs.1 (foldl (serve w) hs (set_bits n i p)).1
unfolding set_bits
sweep zero i w p (h, s) fits = record {
  pending = λ w' b'. ground arith;
  mask = refl;
  count = λ q. ground arith;
  call = λ q. refl;
  calls = sym (append-nil s.calls);
}
sweep (suc n) i w p (h, s) fits = elim (Bool-cases (p i)) [
  | inl on ↦
      let s' = handle_event w s i in
      let t = (foldl (serve w) (true, s') (set_bits n (suc i) p)).1 in
      let r = sweep n (suc i) w p (true, s') (omega arith) in
      let pend : (w' b' : ℕ)
          → s'.pending w' b' ≡ (if (w' == w) && (b' == i) then false else s.pending w' b') =
        λ w' b'. ap (λ f. f w' b') (pending-handle_event s w i) in
      rw on (record {
        pending = λ w' b'. ground (arith, r.pending w' b', pend w' b', on);
        mask = r.mask ∙ mask-handle_event s w i;
        count = λ q. ground (arith, r.count q, count-handle_event s w i q, on);
        call = λ q. r.call q ∙ call_of-handle_event s w i q;
        calls = rw on (calls_step w i (set_bits n (suc i) p) s t r.calls);
      })
  | inr off ↦
      let r = sweep n (suc i) w p (h, s) (omega arith) in
      rw off (record {
        pending = λ w' b'. ground (arith, r.pending w' b', off);
        mask = r.mask;
        count = λ q. ground (arith, r.count q, off);
        call = r.call;
        calls = rw off r.calls;
      })
]

vcpus-dispatch : (t : ActionType) (s : EvState) (p : ℕ) → (dispatch t s p).vcpus ≡ s.vcpus
unfolding dispatch
vcpus-dispatch empty s p = refl
vcpus-dispatch _ s p = refl

vcpus-handle_event : (s : EvState) (w b : ℕ) → (handle_event w s b).vcpus ≡ s.vcpus
unfolding handle_event
vcpus-handle_event s w b = vcpus-dispatch (s.actions (port_of w b)).type _ (port_of w b)

vcpus-serve :
    (w : ℕ) (bs : List ℕ) (hs : Bool × EvState) → (foldl (serve w) hs bs).1.vcpus ≡ hs.1.vcpus
vcpus-serve w [] hs = refl
vcpus-serve w (b ∷ bs) (h, s) =
    vcpus-serve w bs (true, handle_event w s b) ∙ vcpus-handle_event s w b

pub vcpus-serve_words :
    (ws : List ℕ) (hs : Bool × EvState) → (foldl serve_word hs ws).1.vcpus ≡ hs.1.vcpus
vcpus-serve_words [] hs = refl
vcpus-serve_words (w ∷ ws) hs =
    vcpus-serve_words ws (serve_word hs w)
    ∙ vcpus-serve w (set_bits bits_per_long 0 (live hs.1 w)) hs
