-- ===== src/Tx/Lists.antt =====
-- The lists of packets that the system hands over: each is given back once, with its last packet.
use win_pvdrivers_mirror.Tx.{
  TxState, TxCall, NetBuffer, count_less, drop_packet, drop_waiting, shutdown_queue,
}
use win_pvdrivers_mirror.Base.{
  ℕ, zero, suc, ◌+◌, ◌^◌, ◌≤◌, ◌<◌, ◌≡◌, ◌≢◌, refl, ap, ap₂, sym, ◌∙◌, inl, inr, Bool, true, false,
  ◌&&◌, List, [], ◌∷◌, length, ◌==◌, ==_iff, ==_self, ==_ne, ne-of_==, if◌then◌else◌, update,
  update_self, update_ne, Bool-cases, arith,
}

-- How many of these packets are of the list `nbl`.
abbrev pub members : (ℕ → NetBuffer) → ℕ → List ℕ → ℕ
members nbs nbl [] = 0
members nbs nbl (p ∷ ps) = if (nbs p).nbl == nbl then members nbs nbl ps + 1 else members nbs nbl ps

-- How often the list `nbl` was given back.
abbrev pub completions : ℕ → List TxCall → ℕ
completions nbl [] = 0
completions nbl (TxCall.completed n ok ∷ calls) =
    if n == nbl then completions nbl calls + 1 else completions nbl calls
completions nbl (TxCall.access_granted r ∷ calls) = completions nbl calls
completions nbl (TxCall.access_ended r ∷ calls) = completions nbl calls
completions nbl (TxCall.buffer_freed b ∷ calls) = completions nbl calls

-- A list with packets that wait counts them.
abbrev pub Counted : TxState → Type 0
Counted s =
    (nbl : ℕ) → members s.nbs nbl s.waiting ≢ 0 → s.nbl_ref nbl ≡ members s.nbs nbl s.waiting

abbrev pub once_if : ℕ → ℕ
once_if zero = 0
once_if (suc n) = 1

members_le : (nbs : ℕ → NetBuffer) (nbl : ℕ) (ps : List ℕ) → members nbs nbl ps ≤ length ps
members_le nbs nbl [] = omega arith
members_le nbs nbl (p ∷ ps) = ground (arith, members_le nbs nbl ps)

completions_if :
    (b : Bool) (n nbl : ℕ) (calls : List TxCall)
    → completions nbl (if b then TxCall.completed n false ∷ calls else calls)
      ≡ (if b && (n == nbl) then completions nbl calls + 1 else completions nbl calls)
completions_if true n nbl calls = refl
completions_if false n nbl calls = refl

-- One packet dropped, for the list `nbl` that counts `n` packets with it.
dropped_mine :
    (p nbl n : ℕ) (s : TxState)
    → (s.nbs p).nbl ≡ nbl
    → s.nbl_ref nbl ≡ suc n
    → n < 2 ^ 63
    → ((drop_packet p s).nbl_ref nbl ≡ n)
      × (completions nbl (drop_packet p s).calls + once_if n ≡ completions nbl s.calls + 1)
unfolding drop_packet
dropped_mine p nbl n s e ref l = (
  ap (λ k. update s.nbl_ref k left nbl) e ∙ update_self s.nbl_ref nbl left ∙ is_left,
  ap (λ c. c + once_if n) (completions_if (left == 0) (s.nbs p).nbl nbl s.calls)
      ∙ ap₂ (λ k m. (if (m == 0) && (k == nbl) then c + 1 else c) + once_if n) e is_left
      ∙ ap (λ b. (if (n == 0) && b then c + 1 else c) + once_if n) (==_self nbl)
      ∙ value n,
)
  where
    left : ℕ
    left = count_less (s.nbl_ref (s.nbs p).nbl)

    c : ℕ
    c = completions nbl s.calls

    is_left : left ≡ n
    is_left = ap (λ k. count_less (s.nbl_ref k)) e ∙ ap count_less ref ∙ omega arith

    value : (n : ℕ) → (if (n == 0) && true then c + 1 else c) + once_if n ≡ c + 1
    value zero = omega arith
    value (suc n) =
        ap (λ b. (if b && true then c + 1 else c) + 1) (==_ne (λ z. absurd (omega (arith, z))))

dropped_other :
    (p nbl : ℕ) (s : TxState)
    → (s.nbs p).nbl ≢ nbl
    → ((drop_packet p s).nbl_ref nbl ≡ s.nbl_ref nbl)
      × (completions nbl (drop_packet p s).calls ≡ completions nbl s.calls)
unfolding drop_packet
dropped_other p nbl s ne = (
  update_ne s.nbl_ref left ne,
  completions_if (left == 0) (s.nbs p).nbl nbl s.calls
      ∙ ap (λ b. if (left == 0) && b then completions nbl s.calls + 1 else completions nbl s.calls)
          (==_ne ne)
      ∙ no_more (left == 0),
)
  where
    left : ℕ
    left = count_less (s.nbl_ref (s.nbs p).nbl)

    no_more :
        (b : Bool)
        → (if b && false then completions nbl s.calls + 1 else completions nbl s.calls)
          ≡ completions nbl s.calls
    no_more true = refl
    no_more false = refl

drop_waiting_lem :
    (nbl : ℕ) (ps : List ℕ) (s : TxState)
    → length ps < 2 ^ 63
    → (members s.nbs nbl ps ≢ 0 → s.nbl_ref nbl ≡ members s.nbs nbl ps)
    → completions nbl (drop_waiting ps s).calls
      ≡ completions nbl s.calls + once_if (members s.nbs nbl ps)
unfolding drop_waiting drop_packet
drop_waiting_lem nbl [] s l h = omega arith
drop_waiting_lem nbl (p ∷ ps) s l h = elim (Bool-cases ((s.nbs p).nbl == nbl)) [
  | inl e ↦
      let all : members s.nbs nbl (p ∷ ps) ≡ suc n = ap pick e ∙ omega arith in
      let ref : s.nbl_ref nbl ≡ suc n = h (λ z. absurd (omega (arith, z, all))) ∙ all in
      let (left, done) =
        dropped_mine p nbl n s ((==_iff _ _).0 e) ref (omega (arith, members_le s.nbs nbl ps)) in
      let rest =
        drop_waiting_lem nbl ps (drop_packet p s) (omega arith) (λ ne. left ∙ sym (same ps)) in
      rest
      ∙ ap (λ m. completions nbl (drop_packet p s).calls + once_if m) (same ps)
      ∙ done
      ∙ ap (λ m. completions nbl s.calls + once_if m) (sym all)
  | inr e ↦
      let all : members s.nbs nbl (p ∷ ps) ≡ n = ap pick e in
      let (left, done) = dropped_other p nbl s (ne-of_== e) in
      let rest =
        drop_waiting_lem nbl ps (drop_packet p s) (omega arith)
          (λ ne. left ∙ h (λ z. absurd (ne (same ps ∙ sym all ∙ z))) ∙ all ∙ sym (same ps)) in
      rest
      ∙ ap₂ (λ c m. c + once_if m) done (same ps)
      ∙ ap (λ m. completions nbl s.calls + once_if m) (sym all)
]
  where
    n : ℕ
    n = members s.nbs nbl ps

    pick : Bool → ℕ
    pick b = if b then n + 1 else n

    same : (ps : List ℕ) → members (drop_packet p s).nbs nbl ps ≡ members s.nbs nbl ps
    same ps = refl

-- `XenNet_TxShutdown` on what waits, with no packet on the ring: the lists that count their packets
-- which wait are each given back once, with their last packet, and no other list is.
pub shutdown_queue-once :
    (s : TxState) (nbl : ℕ)
    → Counted s
    → length s.waiting < 2 ^ 63
    → completions nbl (shutdown_queue s).calls
      ≡ completions nbl s.calls + once_if (members s.nbs nbl s.waiting)
shutdown_queue-once s nbl counted l = drop_waiting_lem nbl s.waiting s l (counted nbl)
