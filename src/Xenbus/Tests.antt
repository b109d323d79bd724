-- ===== src/Xenbus/Tests.antt =====
-- Runs of the rings.
use win_pvdrivers_mirror.Base.{
  ℕ, ◌<◌, ◌≡◌, refl, true, false, none, some, List, [], ◌∷◌, ◌++◌, arith, replicate, length,
}
use win_pvdrivers_mirror.Xenbus.{
  XbState, encode, send_request, total_len, dpc_round, dpc, notify_port,
}
use win_pvdrivers_mirror.Xenbus.Bytes.{put}
use win_pvdrivers_mirror.Xenbus.Send.{Sent, joined, send_request-Sent}
use win_pvdrivers_mirror.Xenbus.Stream.{stream, length-stream, IsValid, RoundEnd, HoldsWhole}
use win_pvdrivers_mirror.Xenbus.Rounds.{dpc_round-RoundEnd}
use win_pvdrivers_mirror.Xenbus.Delivery.{DpcEnd, dpc-DpcEnd}

-- A request of type 2 for "ab", and an answer "OK".
abbrev question : List (List ℕ)
question = (97 ∷ 98 ∷ 0 ∷ []) ∷ []

abbrev reply_bytes : List ℕ
reply_bytes = encode (record { type = 2; tx_id = 0; len = 2 }) ++ (79 ∷ 75 ∷ [])

-- Both rings stand shortly before their ends, and the answer is on its ring.
abbrev idle : XbState
idle = record {
  req = λ _. 0;
  rsp = put (λ _. 0) 4294967290 reply_bytes;
  req_prod = 4294967290;
  rsp_cons = 4294967290;
  xb_msg = none;
  xb_reply = none;
  watches = λ _. record { path = []; routine = 0; context = 0; count = 0; active = false };
  calls = [];
}

idle-IsValid : IsValid idle 12
idle-IsValid = record {
  cons_fits = omega arith;
  prod_fits = omega arith;
  room = omega arith;
  msg = tt;
}

send_request-Sent_example :
    (t : XbState) × (send_request idle 2 0 question ≡ some t)
    × Sent idle (encode (record { type = 2; tx_id = 0; len = 3 }) ++ joined question) t
    × (t.calls ≡ notify_port ∷ notify_port ∷ [])
unfolding total_len
send_request-Sent_example = send_request-Sent idle 2 0 question (omega arith) (omega arith)

dpc_round-RoundEnd_example : RoundEnd idle 12 true (dpc_round idle 12 true)
dpc_round-RoundEnd_example = dpc_round-RoundEnd idle 12 true idle-IsValid

nothing_held : HoldsWhole none → ⊥
nothing_held (m, e, _) = absurd (cc)

idle_bytes : length (stream idle 12) < 19
idle_bytes = omega (arith, length-stream idle 12 refl)

dpc-DpcEnd_example : DpcEnd idle 12 (dpc (replicate 19 (12, true)) idle)
dpc-DpcEnd_example = dpc-DpcEnd 19 idle 12 idle-IsValid nothing_held idle_bytes
