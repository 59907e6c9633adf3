-- ===== src/Gateway/Subscriptions.antt =====
-- What services/hub-api/src/gateway/events.gateway.ts promises of its meeting sockets: a relation
-- between sockets and meetings, which forgets the order of the tables and how they are kept.
use troofai_mvp.Prelude.{
  inl, inr, Option-cases, String, ◌≡◌, refl, ◌∙◌, Bool, false, ◌&&◌, ◌||◌, List, [], ◌∷◌, ◌==◌,
  if◌then◌else◌,
}
use troofai_mvp.Platform.{ChallengePayload}
use troofai_mvp.Collections.{get}
use troofai_mvp.Gateway.{
  Gateway, StatusUpdate, handle_device_connect, emit_challenge_to_device, emit_meeting_update,
}
use troofai_mvp.Gateway.Sockets.{
  SocketEvent, disconnects, connects, subscribes, IsOrderly, handle, handle-IsOrderly,
}
use troofai_mvp.Gateway.Delivery.{watches, watches-disconnect, watches-subscribe}

-- What happens at the gateway: an event of a socket, or a call of the challenge service.
pub data GatewayEvent : Type 0 where
  event : SocketEvent → GatewayEvent
  sends_challenge : String → ChallengePayload → GatewayEvent
  updates_meeting : String → StatusUpdate → GatewayEvent

abbrev pub happens : GatewayEvent → Gateway → Gateway
happens (event e) g = handle e g
happens (sends_challenge device payload) g = emit_challenge_to_device device payload g
happens (updates_meeting meeting payload) g = emit_meeting_update meeting payload g

abbrev pub run : List GatewayEvent → Gateway → Gateway
run [] g = g
run (e ∷ es) g = run es (happens e g)

-- The specification: who watches which meeting.
abbrev pub Watching : Type 0
Watching = String → String → Bool

abbrev pub watching_after : GatewayEvent → Watching → Watching
watching_after (event (disconnects client)) r y mid = if client == y then false else r y mid
watching_after (event (connects client device)) r y mid = r y mid
watching_after (event (subscribes client meeting)) r y mid =
    (meeting == mid && client == y) || r y mid
watching_after (sends_challenge device payload) r y mid = r y mid
watching_after (updates_meeting meeting payload) r y mid = r y mid

abbrev pub watching_run : List GatewayEvent → Watching → Watching
watching_run [] r = r
watching_run (e ∷ es) r = watching_run es (watching_after e r)

-- The view of the tables that the specification has.
abbrev pub view : Gateway → Watching
view g y mid = watches y mid g.meeting_sockets

happens-IsOrderly : (e : GatewayEvent) (g : Gateway) → IsOrderly g → IsOrderly (happens e g)
unfolding emit_meeting_update emit_challenge_to_device
happens-IsOrderly (event e) g o = handle-IsOrderly e g o
happens-IsOrderly (sends_challenge device payload) g o =
    elim (Option-cases (get device g.device_sockets)) [
      | inl absent ↦ rw (absent, emit_challenge_to_device) o
      | inr (socket, there) ↦
          rw (there, emit_challenge_to_device)
            (record { devices = o.devices; meetings = o.meetings; watched = o.watched })
    ]
happens-IsOrderly (updates_meeting meeting payload) g o = record {
  devices = o.devices;
  meetings = o.meetings;
  watched = o.watched;
}

view-happens :
    (e : GatewayEvent) (g : Gateway) (y mid : String)
    → IsOrderly g
    → view (happens e g) y mid ≡ watching_after e (view g) y mid
unfolding handle handle_device_connect emit_meeting_update emit_challenge_to_device
view-happens (event (disconnects client)) g y mid o = watches-disconnect client y mid g o
view-happens (event (connects client device)) g y mid o = refl
view-happens (event (subscribes client meeting)) g y mid o =
    watches-subscribe client meeting y mid g
view-happens (sends_challenge device payload) g y mid o =
    elim (Option-cases (get device g.device_sockets)) [
      | inl absent ↦ rw (absent, emit_challenge_to_device) refl
      | inr (socket, there) ↦ rw (there, emit_challenge_to_device) refl
    ]
view-happens (updates_meeting meeting payload) g y mid o = refl

watching_run_same :
    (es : List GatewayEvent) (r s : Watching)
    → ((y mid : String) → r y mid ≡ s y mid)
    → (y mid : String) → watching_run es r y mid ≡ watching_run es s y mid
watching_run_same es r s h y mid = λ i. watching_run es (λ x m. h x m i) y mid

-- Over every sequence of events, the tables of the gateway show who watches which meeting exactly as
-- the specification says, from any tables that are in order: a subscription adds one pair, a disconnect
-- removes the pairs of the socket, and nothing else changes the relation.
pub view-run :
    (es : List GatewayEvent) (g : Gateway) (y mid : String)
    → IsOrderly g
    → view (run es g) y mid ≡ watching_run es (view g) y mid
view-run [] g y mid o = refl
view-run (e ∷ es) g y mid o =
    view-run es (happens e g) y mid (happens-IsOrderly e g o)
    ∙ watching_run_same es (view (happens e g)) (watching_after e (view g))
        (λ x m. view-happens e g x m o) y mid
