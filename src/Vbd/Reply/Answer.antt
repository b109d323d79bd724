-- ===== src/Vbd/Reply/Answer.antt =====
-- What one response does for the SRB that its request was part of.
use win_pvdrivers_mirror.Base.{
  ℕ, ◌+◌, ◌-◌, ◌%◌, ◌^◌, ◌<◌, ◌≡◌, ◌≢◌, refl, ap, ap₂, ◌∙◌, Bool, true, false, ◌&&◌, none, some,
  ◌==◌, if◌then◌else◌, update, update_self, update_ne, arith, ◌>>=◌,
}
use win_pvdrivers_mirror.Vbd.{Srb, Shadow, VbdState, put_shadow, shadow_id}
use win_pvdrivers_mirror.Vbd.Reply.{
  end_grants, note_status, count_down, answer, less_one, is_last, Response, handle_response,
}
use win_pvdrivers_mirror.Vbd.Reply.Frame.{Touches, Touches-trans, completions}
use win_pvdrivers_mirror.Vbd.Reply.Steps.{
  free_buffer-Touches, end_grants-Touches, note_status-Touches, count_down-Touches,
}

-- What a response does for the SRB `id` of the shadow at `i`.
pub record Answered (s : VbdState) (id i : ℕ) (t : VbdState) : Type 0 where
  pub free_list : t.free_list ≡ update s.free_list s.shadow_free (shadow_id (s.shadows i).req.id)
  pub shadow_free : t.shadow_free ≡ (s.shadow_free + 1) % 2 ^ 16
  pub emptied : (t.shadows i).srb ≡ none
  pub other_shadows : (j : ℕ) → i ≢ j → t.shadows j ≡ s.shadows j
  pub same_id : (t.shadows i).req.id ≡ (s.shadows i).req.id
  pub queue : t.srb_list ≡ s.srb_list
  pub ring : t.ring ≡ s.ring
  pub others : (j : ℕ) → id ≢ j → t.srbs j ≡ s.srbs j
  pub offset : (t.srbs id).offset ≡ (s.srbs id).offset
  pub length : (t.srbs id).length ≡ (s.srbs id).length
  pub autosense : (t.srbs id).disable_autosense ≡ (s.srbs id).disable_autosense
  pub cac : (s.srbs id).disable_autosense ≡ false → s.cac ≡ false → t.cac ≡ false
  pub outstanding : (t.srbs id).outstanding + 1 ≡ (s.srbs id).outstanding
  pub done :
      (j : ℕ)
      → completions j t.calls
        ≡ completions j s.calls
          + (if id == j
              then (if ((s.srbs id).outstanding == 1) && ((s.srbs id).offset == (s.srbs id).length)
                  then 1
                  else 0)
              else 0)

put_shadow_lem :
    (s : VbdState) (i : ℕ)
    → ((put_shadow s i).free_list
        ≡ update s.free_list s.shadow_free (shadow_id (s.shadows i).req.id))
      × ((put_shadow s i).shadow_free ≡ (s.shadow_free + 1) % 2 ^ 16)
      × (((put_shadow s i).shadows i).srb ≡ none)
      × ((j : ℕ) → i ≢ j → (put_shadow s i).shadows j ≡ s.shadows j)
      × ((put_shadow s i).srb_list ≡ s.srb_list)
      × ((put_shadow s i).ring ≡ s.ring)
      × ((put_shadow s i).srbs ≡ s.srbs)
      × ((put_shadow s i).calls ≡ s.calls)
      × ((put_shadow s i).cac ≡ s.cac)
      × (((put_shadow s i).shadows i).req.id ≡ (s.shadows i).req.id)
unfolding put_shadow
put_shadow_lem s i = (
  refl,
  refl,
  ap (λ (sh : Shadow). sh.srb) (update_self s.shadows i _),
  λ j ne. update_ne s.shadows _ ne,
  refl,
  refl,
  refl,
  refl,
  refl,
  ap (λ (sh : Shadow). sh.req.id) (update_self s.shadows i _),
)

-- From the frames of the steps before and after the count goes down.
answered :
    (s u v : VbdState) (id i : ℕ)
    → Touches id 0 s u
    → Touches id (if is_last u id then 1 else 0) (less_one u id) v
    → 0 < (s.srbs id).outstanding
    → (s.srbs id).outstanding < 2 ^ 32
    → Answered s id i (put_shadow v i)
answered s u v id i a b low high =
    let (fl, sf, em, osh, q, r, ss, cs, cc', same) = put_shadow_lem v i in
    record {
      free_list =
          fl
          ∙ ap (λ f. update f v.shadow_free (shadow_id (v.shadows i).req.id))
              (b.free_list ∙ a.free_list)
          ∙ ap (λ n. update s.free_list n (shadow_id (v.shadows i).req.id))
              (b.shadow_free ∙ a.shadow_free)
          ∙ ap (λ (f : ℕ → Shadow). update s.free_list s.shadow_free (shadow_id (f i).req.id))
              (b.shadows ∙ a.shadows);
      shadow_free = sf ∙ ap (λ n. (n + 1) % 2 ^ 16) (b.shadow_free ∙ a.shadow_free);
      emptied = em;
      other_shadows = λ j ne. osh j ne ∙ ap (λ (f : ℕ → Shadow). f j) (b.shadows ∙ a.shadows);
      same_id = same ∙ ap (λ (f : ℕ → Shadow). (f i).req.id) (b.shadows ∙ a.shadows);
      queue = q ∙ b.queue ∙ a.queue;
      ring = r ∙ b.ring ∙ a.ring;
      others = λ j ne.
          ap (λ (f : ℕ → Srb). f j) ss ∙ b.others j ne ∙ update_ne u.srbs _ ne ∙ a.others j ne;
      offset =
          ap (λ (f : ℕ → Srb). (f id).offset) ss
          ∙ b.offset
          ∙ ap (λ (x : Srb). x.offset) (update_self u.srbs id _)
          ∙ a.offset;
      length =
          ap (λ (f : ℕ → Srb). (f id).length) ss
          ∙ b.length
          ∙ ap (λ (x : Srb). x.length) (update_self u.srbs id _)
          ∙ a.length;
      autosense =
          ap (λ (f : ℕ → Srb). (f id).disable_autosense) ss
          ∙ b.autosense
          ∙ ap (λ (x : Srb). x.disable_autosense) (update_self u.srbs id _)
          ∙ a.autosense;
      cac = λ d c.
          cc'
          ∙ b.cac
              (ap (λ (x : Srb). x.disable_autosense) (update_self u.srbs id _) ∙ a.autosense ∙ d)
              (a.cac d c);
      outstanding = less (
          ap (λ (f : ℕ → Srb). (f id).outstanding) ss
          ∙ b.outstanding
          ∙ ap (λ (x : Srb). x.outstanding) (update_self u.srbs id _)
          ∙ ap (λ n. (n + 2 ^ 32 - 1) % 2 ^ 32) a.outstanding);
      done = λ j.
          ap (completions j) cs
          ∙ b.done j
          ∙ count _ _ (id == j) (a.done j) (
              ap (λ b. if b then 1 else 0)
                (ap₂ (λ x y. x && y) (ap (λ n. (n + 2 ^ 32 - 1) % 2 ^ 32 == 0) a.outstanding ∙ last)
                  (ap₂ (λ x y. x == y) a.offset a.length)));
    }
  where
    less :
        {x : ℕ}
        → x ≡ ((s.srbs id).outstanding + 2 ^ 32 - 1) % 2 ^ 32
        → x + 1 ≡ (s.srbs id).outstanding
    less e = omega arith

    last : (((s.srbs id).outstanding + 2 ^ 32 - 1) % 2 ^ 32 == 0) ≡ ((s.srbs id).outstanding == 1)
    last = down (s.srbs id).outstanding low high
      where
        down : (n : ℕ) → 0 < n → n < 2 ^ 32 → ((n + 2 ^ 32 - 1) % 2 ^ 32 == 0) ≡ (n == 1)
        down n low high = ground arith

    count :
        {l l' : ℕ} (x y : ℕ) (b : Bool)
        → y ≡ x + (if b then 0 else 0)
        → l ≡ l'
        → y + (if b then l else 0) ≡ x + (if b then l' else 0)
    count x y true e f = omega arith
    count x y false e f = omega arith

note_status-in_use :
    (s : VbdState) (id : ℕ) (okay : Bool)
    → (note_status s id okay).aligned_in_use ≡ s.aligned_in_use
unfolding note_status
note_status-in_use s id true = refl
note_status-in_use s id false = refl

pub handle_response-Answered :
    (s : VbdState) (rep : Response) (id : ℕ)
    → (s.shadows (shadow_id rep.id)).reset ≡ false
    → (s.shadows (shadow_id rep.id)).srb ≡ some id
    → ((s.shadows (shadow_id rep.id)).aligned_in_use ≡ true → s.aligned_in_use ≡ true)
    → 0 < (s.srbs id).outstanding
    → (s.srbs id).outstanding < 2 ^ 32
    → (t : VbdState) × (handle_response s rep ≡ some t) × Answered s id (shadow_id rep.id) t
unfolding handle_response answer
handle_response-Answered s rep id live held buffer low high =
    let i = shadow_id rep.id in
    let noted = note_status s id rep.okay in
    let (t, run, freed) =
      free_buffer-Touches noted id i (s.shadows i).aligned_in_use
        λ e. note_status-in_use s id rep.okay ∙ buffer e in
    let u = end_grants t i in
    let before =
      Touches-trans (Touches-trans (note_status-Touches s id rep.okay) freed)
        (end_grants-Touches t id i) in
    (
      put_shadow (count_down u id) i,
      ap
            (λ b.
              if b
              then some (put_shadow (end_grants s i) i)
              else answer s i rep.okay (s.shadows i).srb)
            live
          ∙ ap (answer s i rep.okay) held
          ∙ ap (λ o. o >>= λ t. some (put_shadow (count_down (end_grants t i) id) i)) run,
      answered s u (count_down u id) id i before (count_down-Touches u id) low high,
    )
