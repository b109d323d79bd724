-- ===== src/Vbd/Queue/Finish.antt =====
-- The end of a SCSI command that has succeeded.
use win_pvdrivers_mirror.Base.{
  ℕ, ◌+◌, ◌≡◌, ap, ◌∙◌, false, [], ◌∷◌, ◌++◌, ltb, ==_self, update_self, if◌then◌else◌, arith,
}
use win_pvdrivers_mirror.Vbd.{Srb, VbdState, complete}
use win_pvdrivers_mirror.Vbd.Reply.{set_srb, srb_status_success}
use win_pvdrivers_mirror.Vbd.Reply.Frame.{completions, completions-append}
use win_pvdrivers_mirror.Vbd.Reply.Steps.{make_auto_sense-none}
use win_pvdrivers_mirror.Vbd.Queue.{finish_success, finished_srb, srb_status_data_overrun}

-- Without sense data to tell, a command that has succeeded ends with the status of success and with its own
-- length in the SRB, even a length beyond that of the data buffer and whatever that was, and the SRB is
-- completed once.
pub finish_success_lem :
    (s : VbdState) (id len : ℕ)
    → s.last_sense.key ≡ 0
    → (((finish_success s id len).srbs id).data_length ≡ len)
      × (((finish_success s id len).srbs id).srb_status ≡ srb_status_success)
      × (completions id (finish_success s id len).calls ≡ completions id s.calls + 1)
unfolding finish_success
finish_success_lem s id len e =
    let srb = finished_srb (s.srbs id) len in
    let t = set_srb s id srb in
    let same = make_auto_sense-none t id e in
    let read = update_self s.srbs id srb in
    (
      ap (λ (u : VbdState). (u.srbs id).data_length) same ∙ ap (λ (b : Srb). b.data_length) read,
      ap (λ (u : VbdState). (u.srbs id).srb_status) same
          ∙ ap (λ (b : Srb). b.srb_status) read
          ∙ ap (λ b. if b then srb_status_data_overrun else srb_status_success) (irrefl len),
      ap (λ (u : VbdState). completions id (u.calls ++ complete id ∷ [])) same
          ∙ completions-append id s.calls (complete id ∷ [])
          ∙ ap (λ b. completions id s.calls + ((if b then 1 else 0) + 0)) (==_self id),
    )
  where
    irrefl : (n : ℕ) → ltb n n ≡ false
    irrefl n = ground arith
