-- ===== src/Vbd/Reply/Emptied.antt =====
-- A reset empties the queue and leaves the number of free shadows.
use win_pvdrivers_mirror.Base.{
  ℕ, zero, suc, ◌≡◌, refl, ◌∙◌, false, Option, none, some, List, [], ◌∷◌,
}
use win_pvdrivers_mirror.Vbd.{VbdState, max_shadow_entries}
use win_pvdrivers_mirror.Vbd.Reply.{reset_shadow, reset_shadows, reset_srb, reset_srbs, reset_bus}

abbrev Kept : VbdState → VbdState → Type 0
Kept s t = (t.srb_list ≡ s.srb_list) × (t.shadow_free ≡ s.shadow_free)

reset_shadow-Kept :
    (s : VbdState) (i : ℕ) (found : List ℕ) (o : Option ℕ) → Kept s (reset_shadow s i found o).0
unfolding reset_shadow
reset_shadow-Kept s i found none = (refl, refl)
reset_shadow-Kept s i found (some id) = (refl, refl)

reset_shadows-Kept :
    (n i : ℕ) (s : VbdState) (found : List ℕ) → Kept s (reset_shadows n i s found).0
unfolding reset_shadows
reset_shadows-Kept zero i s found = (refl, refl)
reset_shadows-Kept (suc n) i s found =
    let r = reset_shadow s i found (s.shadows i).srb in
    let (q, f) = reset_shadows-Kept n (suc i) r.0 r.1 in
    let (q', f') = reset_shadow-Kept s i found (s.shadows i).srb in (q ∙ q', f ∙ f')

reset_srbs-Kept : (ids : List ℕ) (s : VbdState) → Kept s (reset_srbs s ids)
unfolding reset_srbs reset_srb
reset_srbs-Kept [] s = (refl, refl)
reset_srbs-Kept (id ∷ ids) s = reset_srbs-Kept ids (reset_srb s id)

pub reset_bus-queue :
    (s : VbdState) → ((reset_bus s).srb_list ≡ []) × ((reset_bus s).shadow_free ≡ s.shadow_free)
unfolding reset_bus
reset_bus-queue s =
    let s' : VbdState = record s { aligned_in_use = false; srb_list = [] } in
    let r = reset_shadows max_shadow_entries 0 s' s.srb_list in
    let (q, f) = reset_shadows-Kept max_shadow_entries 0 s' s.srb_list in
    let (q', f') = reset_srbs-Kept r.1 r.0 in (q' ∙ q, f' ∙ f)
