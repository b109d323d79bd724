-- ===== src/Vbd/Queue/Ends.antt =====
-- The loop of `XenVbd_ProcessSrbList` ends.
use win_pvdrivers_mirror.Base.{
  ℕ, zero, suc, ◌+◌, ◌<◌, ◌≤◌, ◌≡◌, refl, ap, ap₂, sym, ◌∙◌, subst, Bool, true, false, not, ◌&&◌,
  ◌||◌, Option, none, some, List, [], ◌∷◌, length, ◌==◌, ==_self, if◌then◌else◌, arith, inl, inr,
  ◌⊎◌, ◌>>=◌,
}
use win_pvdrivers_mirror.Vbd.{
  log, write_data, Host, VbdState, SrbFunction, execute_scsi, flush, pnp, power, dump_pointers,
  shutdown, bus_reset, wmi, io_control, free_dump_pointers, other_function, Srb, put_srb_on_ring,
  requeue, is_active,
}
use win_pvdrivers_mirror.Vbd.Reply.{srb_status_success, make_sense}
use win_pvdrivers_mirror.Vbd.Reply.Steps.{make_sense-Touches, make_auto_sense-Touches}
use win_pvdrivers_mirror.Vbd.Reply.Emptied.{reset_bus-queue}
use win_pvdrivers_mirror.Vbd.Command.{
  Pages, Answer, Effect, answer, put_on_ring, request_sense, illegal_request, command,
}
use win_pvdrivers_mirror.Vbd.Queue.{
  Device, with_vbd, complete_as, check_resize, resize_to, finish_error, finish_success,
  finish_answer, clear_status, run_effect, run_scsi, run_srb, srb_status_no_device,
  srb_status_invalid_request, is_inactive, is_back, heads, Ended, failed, out_of_fuel, done,
  end_round, run_round, round_of, process_loop, process_srb_list, notify_after, sizeof_sense_data,
}
use win_pvdrivers_mirror.Vbd.Queue.Moves.{Always, Always-if, Moved, put_srb_on_ring-Moved}

-- The queue and the number of free shadows are as they were.
abbrev Kept : VbdState → VbdState → Type 0
Kept s t = (t.srb_list ≡ s.srb_list) × (t.shadow_free ≡ s.shadow_free)

finish_error-Kept : (s : VbdState) (id : ℕ) → Kept s (finish_error s id)
unfolding finish_error
finish_error-Kept s id = let m = make_auto_sense-Touches _ id in (m.queue, m.shadow_free)

finish_success-Kept : (s : VbdState) (id len : ℕ) → Kept s (finish_success s id len)
unfolding finish_success
finish_success-Kept s id len = let m = make_auto_sense-Touches _ id in (m.queue, m.shadow_free)

finish_answer-Kept : (s : VbdState) (id : ℕ) (a : Answer) → Kept s (finish_answer s id a)
unfolding finish_answer
finish_answer-Kept s id a = choose a.success
  where
    t : VbdState
    t = clear_status a.clears (log s (write_data id a.bytes)) id

    choose :
        (b : Bool)
        → Kept s (if b then finish_success t id a.data_transfer_length else finish_error t id)
    choose true = finish_success-Kept t id a.data_transfer_length
    choose false = finish_error-Kept t id

-- What an SRB leaves: it is at the head of the queue as it was, or queue and free shadows are no more
-- than before.
abbrev Fewer : VbdState → ℕ → VbdState → Type 0
Fewer s id t =
    (is_back t id (s.srbs id).offset ≡ true)
    ⊎ (length t.srb_list + t.shadow_free ≤ length s.srb_list + s.shadow_free)

Fewer-Kept : (s t : VbdState) (id : ℕ) → Kept s t → Fewer s id t
Fewer-Kept s t id (q, f) = inr (weigh (ap₂ (λ xs n. length xs + n) q f))
  where
    weigh : {n m : ℕ} → n ≡ m → n ≤ m
    weigh e = omega arith

Fewer-back :
    (s t : VbdState) (id : ℕ) → t.srb_list ≡ id ∷ s.srb_list → t.srbs ≡ s.srbs → Fewer s id t
unfolding heads
Fewer-back s t id q f = inl (
    ap₂ (λ xs (g : ℕ → Srb). heads xs id && ((g id).offset == (s.srbs id).offset)) q f
    ∙ ap₂ (λ a b. a && b) (==_self id) (==_self (s.srbs id).offset))

run_effect-Fewer :
    (h : Host) (s : VbdState) (id : ℕ) (e : Effect)
    → Always (λ (r : Bool × VbdState). Fewer s id r.1) (run_effect h s id e)
unfolding run_effect
run_effect-Fewer h s id (answer a) =
    Fewer-Kept s (finish_answer s id a) id (finish_answer-Kept s id a)
run_effect-Fewer h s id put_on_ring = fewer (put_srb_on_ring h s id) (put_srb_on_ring-Moved h s id)
  where
    fewer :
        (o : Option (Bool × VbdState))
        → Always (Moved s id) o
        → Always (λ (r : Bool × VbdState). Fewer s id r.1) o
    fewer none m = tt
    fewer (some (true, t)) (f, q) = inr (omega arith)
    fewer (some (false, t)) (q, f) = Fewer-back s t id q f
run_effect-Fewer h s id request_sense =
    let len = if (s.srbs id).has_sense_buffer then sizeof_sense_data else 0 in
    let m = make_sense-Touches s id in
    let (q, f) = finish_success-Kept (make_sense s id) id len in
    Fewer-Kept s (finish_success (make_sense s id) id len) id (q ∙ m.queue, f ∙ m.shadow_free)
run_effect-Fewer h s id illegal_request =
    let t : VbdState = record s { last_sense = record { key = 5; code = 0; qualifier = 0 } } in
    Fewer-Kept s (finish_error t id) id (finish_error-Kept t id)

-- A new size changes nothing of the queue.
check_resize_lem :
    (d : Device) → Kept d.vbd (check_resize d).vbd × ((check_resize d).vbd.srbs ≡ d.vbd.srbs)
unfolding check_resize resize_to
check_resize_lem d = resized d.new_total_sectors
  where
    resized :
        (o : Option ℕ) → Kept d.vbd (resize_to d o).vbd × ((resize_to d o).vbd.srbs ≡ d.vbd.srbs)
    resized none = ((refl, refl), refl)
    resized (some n) = unchanged (n == d.disk.total_sectors)
      where
        bigger : Device
        bigger = record d {
          disk = record (d.disk) { total_sectors = n };
          vbd = record (d.vbd) { last_sense = record { key = 6; code = 0x2a; qualifier = 9 } };
        }

        unchanged :
            (b : Bool)
            → Kept d.vbd (if b then d else bigger).vbd
              × ((if b then d else bigger).vbd.srbs ≡ d.vbd.srbs)
        unchanged true = ((refl, refl), refl)
        unchanged false = ((refl, refl), refl)

abbrev FewerAfter : Device → ℕ → Bool × Device → Type 0
FewerAfter d id r = Fewer d.vbd id r.1.vbd

run_scsi-Fewer :
    (w : Pages) (h : Host) (d : Device) (id : ℕ) → Always (FewerAfter d id) (run_scsi w h d id)
unfolding run_scsi
run_scsi-Fewer w h d id =
    let c = check_resize d in
    let (kept, srbs) = check_resize_lem d in
    Always-if (FewerAfter d id) (not (is_active d.vbd.device_state))
      (some (false, with_vbd d (requeue d.vbd id)))
      (if c.vbd.cac && not ((d.vbd.srbs id).cdb 0 == 3)
        then some (false, with_vbd c (requeue c.vbd id))
        else rest)
      (Fewer-back d.vbd (requeue d.vbd id) id refl refl)
      (Always-if (FewerAfter d id) (c.vbd.cac && not ((d.vbd.srbs id).cdb 0 == 3))
        (some (false, with_vbd c (requeue c.vbd id))) rest
        (Fewer-back d.vbd (requeue c.vbd id) id (ap (λ xs. id ∷ xs) kept.0) srbs)
        (after (run_effect h c.vbd id e) (run_effect-Fewer h c.vbd id e)))
  where
    e : Effect
    e = command w (check_resize d).disk (d.vbd.srbs id).cdb (d.vbd.srbs id).data_length

    on : Bool × VbdState → Option (Bool × Device)
    on r = some (r.0, with_vbd (check_resize d) r.1)

    rest : Option (Bool × Device)
    rest = run_effect h (check_resize d).vbd id e >>= on

    after :
        (o : Option (Bool × VbdState))
        → Always (λ (r : Bool × VbdState). Fewer (check_resize d).vbd id r.1) o
        → Always (FewerAfter d id) (o >>= on)
    after none f = tt
    after (some r) (inl back) =
        let (kept, srbs) = check_resize_lem d in
        inl (ap (λ (g : ℕ → Srb). is_back r.1 id (g id).offset) (sym srbs) ∙ back)
    after (some r) (inr less) =
        let (kept, srbs) = check_resize_lem d in
        inr (
          subst (λ n. length r.1.srb_list + r.1.shadow_free ≤ n)
            (ap₂ (λ xs n. length xs + n) kept.0 kept.1) less)

completed-Fewer : (s : VbdState) (id status : ℕ) → Fewer s id (complete_as s id status)
completed-Fewer s id status = Fewer-Kept s (complete_as s id status) id (refl, refl)

run_srb-Fewer :
    (w : Pages) (h : Host) (d : Device) (id : ℕ) (f : SrbFunction)
    → Always (FewerAfter d id) (run_srb w h d id f)
unfolding run_srb
run_srb-Fewer w h d id execute_scsi = run_scsi-Fewer w h d id
run_srb-Fewer w h d id bus_reset =
    let (q, f) = reset_bus-queue d.vbd in inr (weigh (ap length q) f (length d.vbd.srb_list))
  where
    weigh : {n m k : ℕ} → n ≡ 0 → m ≡ k → (l : ℕ) → n + m ≤ l + k
    weigh e f l = omega arith
run_srb-Fewer w h d id wmi = completed-Fewer d.vbd id srb_status_invalid_request
run_srb-Fewer w h d id io_control = completed-Fewer d.vbd id srb_status_invalid_request
run_srb-Fewer w h d id other_function = completed-Fewer d.vbd id srb_status_invalid_request
run_srb-Fewer w h d id flush = completed-Fewer d.vbd id srb_status_success
run_srb-Fewer w h d id pnp = completed-Fewer d.vbd id srb_status_success
run_srb-Fewer w h d id power = completed-Fewer d.vbd id srb_status_success
run_srb-Fewer w h d id dump_pointers = completed-Fewer d.vbd id srb_status_success
run_srb-Fewer w h d id shutdown = completed-Fewer d.vbd id srb_status_success
run_srb-Fewer w h d id free_dump_pointers = completed-Fewer d.vbd id srb_status_success

-- The loop has ended of itself.
abbrev pub Finished : Ended → Type 0
Finished failed = Unit
Finished (done sent d) = Unit
Finished out_of_fuel = ⊥

-- The SRBs in the queue and the free shadows.
abbrev pub weight : Device → ℕ
weight d = length d.vbd.srb_list + d.vbd.shadow_free

end_round-Finished :
    (next : Bool → Device → Ended) (sent : Bool) (d : Device) (id : ℕ) (o : Option (Bool × Device))
    → ((sent' : Bool) (d' : Device) → weight d' ≤ weight d → Finished (next sent' d'))
    → Always (FewerAfter d id) o
    → Finished (end_round next sent id (d.vbd.srbs id).offset o)
unfolding end_round
end_round-Finished next sent d id none on fewer = tt
end_round-Finished next sent d id (some (sent', d')) on (inl back) =
    subst (λ b. Finished (if b then done (sent || sent') d' else next (sent || sent') d'))
      (sym back) tt
end_round-Finished next sent d id (some (sent', d')) on (inr less) =
    choose (is_back d'.vbd id (d.vbd.srbs id).offset)
  where
    choose : (b : Bool) → Finished (if b then done (sent || sent') d' else next (sent || sent') d')
    choose true = tt
    choose false = on (sent || sent') d' less

run_round-Finished :
    (next : Bool → Device → Ended) (w : Pages) (h : Host) (sent : Bool) (d : Device) (id : ℕ)
    (rest : List ℕ)
    → ((sent' : Bool) (d' : Device)
        → weight d' ≤ length rest + d.vbd.shadow_free
        → Finished (next sent' d'))
    → Finished (run_round next w h sent d id rest)
unfolding run_round
run_round-Finished next w h sent d id rest on =
    stop_or (d.vbd.aligned_in_use || (d.vbd.shadow_free == 0)) (is_inactive s.device_state)
  where
    s : VbdState
    s = record (d.vbd) { srb_list = rest }

    ran : Ended
    ran =
        end_round next sent id (s.srbs id).offset
          (run_srb w h (with_vbd d s) id (s.srbs id).function)

    stop_or :
        (stop off : Bool)
        → Finished (
            if stop
            then done sent d
            else if off
            then next sent (with_vbd d (complete_as s id srb_status_no_device))
            else ran)
    stop_or true off = tt
    stop_or false true = on sent (with_vbd d (complete_as s id srb_status_no_device)) (omega arith)
    stop_or false false =
        end_round-Finished next sent (with_vbd d s) id
          (run_srb w h (with_vbd d s) id (s.srbs id).function) on
          (run_srb-Fewer w h (with_vbd d s) id (s.srbs id).function)

round_of-Finished :
    (next : Bool → Device → Ended) (w : Pages) (h : Host) (sent : Bool) (d : Device) (fuel : ℕ)
    (xs : List ℕ)
    → length xs + d.vbd.shadow_free ≤ fuel
    → ((sent' : Bool) (d' : Device) → weight d' < fuel → Finished (next sent' d'))
    → Finished (round_of next w h sent d xs)
unfolding round_of
round_of-Finished next w h sent d fuel [] le on = tt
round_of-Finished next w h sent d fuel (id ∷ rest) le on =
    run_round-Finished next w h sent d id rest λ sent' d' less. on sent' d' (omega arith)

process_loop-Finished :
    (fuel : ℕ) (w : Pages) (hosts : ℕ → Host) (k : ℕ) (sent : Bool) (d : Device)
    → weight d < fuel
    → Finished (process_loop fuel w hosts k sent d)
unfolding process_loop
process_loop-Finished zero w hosts k sent d enough = absurd (omega arith)
process_loop-Finished (suc fuel) w hosts k sent d enough =
    round_of-Finished (process_loop fuel w hosts (suc k)) w (hosts k) sent d fuel d.vbd.srb_list
      (omega arith) λ sent' d' less. process_loop-Finished fuel w hosts (suc k) sent' d' less

-- The loop over the queue ends of itself after at most as many rounds as SRBs are queued and shadows are
-- free, and one more, whatever the SRBs ask for and whatever the host gives in each round.
pub process_srb_list-Finished :
    (w : Pages) (hosts : ℕ → Host) (wants : Bool) (d : Device) (fuel : ℕ)
    → weight d < fuel
    → Finished (process_srb_list fuel w hosts wants d)
unfolding process_srb_list notify_after
process_srb_list-Finished w hosts wants d fuel enough =
    told (process_loop fuel w hosts 0 false d) (process_loop-Finished fuel w hosts 0 false d enough)
  where
    told : (e : Ended) → Finished e → Finished (notify_after wants e)
    told failed f = tt
    told (done sent d) f = tt
    told out_of_fuel f = f
