-- ===== src/Vbd/Reply/Late.antt =====
-- A response that comes after a reset.
use win_pvdrivers_mirror.Base.{
  ℕ, zero, suc, subst, Option, List, [], ◌∷◌, ◌==◌, ==_iff, ne-of_==, Bool-cases, inl, inr, ◌+◌,
  ◌%◌, ◌^◌, ◌<◌, ◌≡◌, ◌≢◌, refl, ap, true, ◌∙◌, none, update, update_ne, false, some, Distinct,
  arith, update_self, if◌then◌else◌,
}
use win_pvdrivers_mirror.Vbd.{Shadow, VbdState, Request, put_shadow, shadow_id, max_shadow_entries}
use win_pvdrivers_mirror.Vbd.Reply.{
  Response, answer, end_grants, ended, handle_response, reset_bus, reset_shadow, reset_shadows,
  reset_srb, reset_srbs,
}
use win_pvdrivers_mirror.Vbd.Reply.Frame.{completions, completions-append, completions-ended}
use win_pvdrivers_mirror.Vbd.Reply.Reset.{reset_bus-WasReset}

-- A reset leaves every shadow its request.
reset_shadow-req :
    (s : VbdState) (i : ℕ) (found : List ℕ) (o : Option ℕ) (j : ℕ)
    → ((reset_shadow s i found o).0.shadows j).req ≡ (s.shadows j).req
unfolding reset_shadow
reset_shadow-req s i found none j = refl
reset_shadow-req s i found (some id) j = elim (Bool-cases (i == j)) [
  | inl e ↦
      let marked = record (s.shadows i) { reset = true; srb = none; aligned_in_use = false } in
      subst (λ k. (update s.shadows i marked k).req ≡ (s.shadows k).req) ((==_iff i j).0 e)
        (ap (λ (b : Shadow). b.req) (update_self s.shadows i marked))
  | inr e ↦ ap (λ (b : Shadow). b.req) (update_ne s.shadows _ (ne-of_== e))
]

reset_shadows-req :
    (n i : ℕ) (s : VbdState) (found : List ℕ) (j : ℕ)
    → ((reset_shadows n i s found).0.shadows j).req ≡ (s.shadows j).req
unfolding reset_shadows
reset_shadows-req zero i s found j = refl
reset_shadows-req (suc n) i s found j =
    let r = reset_shadow s i found (s.shadows i).srb in
    reset_shadows-req n (suc i) r.0 r.1 j ∙ reset_shadow-req s i found (s.shadows i).srb j

reset_srbs-shadows : (ids : List ℕ) (s : VbdState) → (reset_srbs s ids).shadows ≡ s.shadows
unfolding reset_srbs reset_srb
reset_srbs-shadows [] s = refl
reset_srbs-shadows (x ∷ xs) s = reset_srbs-shadows xs (reset_srb s x)

reset_bus-req : (s : VbdState) (j : ℕ) → ((reset_bus s).shadows j).req ≡ (s.shadows j).req
unfolding reset_bus
reset_bus-req s j =
    let s' : VbdState = record s { aligned_in_use = false; srb_list = [] } in
    let r = reset_shadows max_shadow_entries 0 s' s.srb_list in
    ap (λ (f : ℕ → Shadow). (f j).req) (reset_srbs-shadows r.1 r.0)
    ∙ reset_shadows-req max_shadow_entries 0 s' s.srb_list j

-- The response that the backend sends after a bus reset, to a request that was on the ring then: no
-- assertion fails, no SRB is completed a second time, the SRBs stay as the reset has left them, and the
-- shadow, without its mark and without an SRB, is free again: its own id goes on top of the free list, the
-- shadow having the id of its place. The other shadows, the queue and the ring stay as the reset has left
-- them. Before the reset, the id of the response is one of the
-- table, its shadow holds an SRB, and no SRB is queued twice.
pub reset_bus-late :
    (s : VbdState) (rep : Response) (id : ℕ)
    → Distinct s.srb_list
    → shadow_id rep.id < max_shadow_entries
    → (s.shadows (shadow_id rep.id)).srb ≡ some id
    → shadow_id (s.shadows (shadow_id rep.id)).req.id ≡ shadow_id rep.id
    → (t : VbdState) × (handle_response (reset_bus s) rep ≡ some t)
      × ((k : ℕ) → completions k t.calls ≡ completions k (reset_bus s).calls)
      × (t.srbs ≡ (reset_bus s).srbs)
      × ((t.shadows (shadow_id rep.id)).reset ≡ false)
      × ((t.shadows (shadow_id rep.id)).srb ≡ none)
      × (t.free_list ≡ update (reset_bus s).free_list (reset_bus s).shadow_free (shadow_id rep.id))
      × (t.shadow_free ≡ ((reset_bus s).shadow_free + 1) % 2 ^ 16)
      × ((j : ℕ) → shadow_id rep.id ≢ j → t.shadows j ≡ (reset_bus s).shadows j)
      × (t.srb_list ≡ (reset_bus s).srb_list)
      × (t.ring ≡ (reset_bus s).ring)
unfolding handle_response end_grants put_shadow
reset_bus-late s rep id d bound held own =
    let i = shadow_id rep.id in
    let t = reset_bus s in
    (
      put_shadow (end_grants t i) i,
      ap
          (λ b.
            if b
            then some (put_shadow (end_grants t i) i)
            else answer t i rep.okay (t.shadows i).srb)
          ((reset_bus-WasReset s d).marks i id bound held),
      λ k. omega (
        arith,
        completions-append k t.calls (ended (t.shadows i).req.segs),
        completions-ended k (t.shadows i).req.segs,
      ),
      refl,
      ap (λ (b : Shadow). b.reset) (update_self t.shadows i _),
      ap (λ (b : Shadow). b.srb) (update_self t.shadows i _),
      ap (update t.free_list t.shadow_free)
          (ap (λ (q : Request). shadow_id q.id) (reset_bus-req s i) ∙ own),
      refl,
      λ j ne. update_ne t.shadows _ ne,
      refl,
      refl,
    )
