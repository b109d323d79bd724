-- ===== src/Store/Tests.antt =====
-- Runs of tokens and watch events.
use win_pvdrivers_mirror.Base.{refl, none, [], ◌∷◌, ◌==◌, arith}
use win_pvdrivers_mirror.Xenbus.{XbState}
use win_pvdrivers_mirror.Store.{watch_item}
use win_pvdrivers_mirror.Store.Token.{Fired, event_body, watch_item-Fired}

-- A watch in slot 127.
abbrev watching : XbState
watching = record {
  req = λ _. 0;
  rsp = λ _. 0;
  req_prod = 0;
  rsp_cons = 0;
  xb_msg = none;
  xb_reply = none;
  watches = λ i. record {
    path = 97 ∷ [];
    routine = 5;
    context = 6;
    count = 4294967295;
    active = i == 127;
  };
  calls = [];
}

watch_item-Fired_example :
    Fired watching (97 ∷ []) 127 (watch_item watching (event_body (97 ∷ []) 127))
watch_item-Fired_example =
    watch_item-Fired watching (97 ∷ []) 127 (omega arith, tt) (omega arith) refl (omega arith)
