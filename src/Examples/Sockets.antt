-- ===== src/Examples/Sockets.antt =====
-- Events at the gateway of the small hub, whose first socket has registered two devices.
use troofai_mvp.Prelude.{◌≡◌, refl, none, true, List, [], ◌∷◌, count}
use troofai_mvp.Collections.{get, contains}
use troofai_mvp.Platform.{ChallengePayload}
use troofai_mvp.Schema.{verified}
use troofai_mvp.Gateway.{StatusUpdate, handle_disconnect, emit_meeting_update}
use troofai_mvp.Gateway.Sockets.{IsOrderly, disconnects, subscribes}
use troofai_mvp.Gateway.Delivery.{
  device_entries, reaches, device_entries-disconnect, emit_meeting_update_reach,
}
use troofai_mvp.Gateway.Subscriptions.{
  GatewayEvent, event, sends_challenge, updates_meeting, run, view, view-run,
}
use troofai_mvp.Examples.{sockets}

sockets-IsOrderly : IsOrderly sockets
unfolding contains
sockets-IsOrderly = record {
  devices = (refl, (refl, tt));
  meetings = (refl, tt);
  watched = ((refl, (refl, tt)), tt);
}

abbrev update : StatusUpdate
update = record {
  meeting_id = none;
  participant_id = "ana";
  trust_status = verified;
  reason = "Enrolled device, valid signature";
}

abbrev payload : ChallengePayload
payload = record {
  challenge_id = "c1";
  nonce = "n1";
  meeting_id = "standup";
  participant_id = "ana";
  issued_at = "0";
  expires_at = "1";
}

-- A second socket subscribes, a challenge and an update are sent, and the first socket leaves.
abbrev course : List GatewayEvent
course =
    event (subscribes "socket3" "standup")
    ∷ sends_challenge "laptop" payload
    ∷ updates_meeting "standup" update
    ∷ event (disconnects "socket1")
    ∷ []

view-run_example : view (run course sockets) "socket3" "standup" ≡ true
unfolding get contains
view-run_example = view-run course sockets "socket3" "standup" sockets-IsOrderly

device_entries-disconnect_example :
    device_entries "socket1" (handle_disconnect "socket1" sockets) ≡ 1
device_entries-disconnect_example = device_entries-disconnect "socket1" "socket1" sockets

emit_meeting_update_reach_example :
    count (reaches "socket1") (emit_meeting_update "standup" update sockets).outbox ≡ 2
unfolding get contains
emit_meeting_update_reach_example =
    emit_meeting_update_reach "socket1" "standup" update sockets sockets-IsOrderly refl
