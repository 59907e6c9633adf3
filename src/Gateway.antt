-- ===== src/Gateway.antt =====
-- services/hub-api/src/gateway/events.gateway.ts: the socket tables of `EventsGateway` and what it
-- emits. A socket is known by its id. The two handlers that call other services are in `Events`.
pub mod Sockets
pub mod Delivery
pub mod Subscriptions
use troofai_mvp.Prelude.{
  String, Bool, true, false, Option, none, some, List, [], ◌∷◌, ◌++◌, ◌==◌, map, if◌then◌else◌,
}
use troofai_mvp.Schema.{TrustStatus}
use troofai_mvp.Platform.{ChallengePayload}
use troofai_mvp.Collections.{get, set, delete, keys, contains, add, drop}

pub record StatusUpdate : Type 0 where
  pub meeting_id : Option String
  pub participant_id : String
  pub trust_status : TrustStatus
  pub reason : String

pub data Message : Type 0 where
  challenge_issue : ChallengePayload → Message
  status_update : StatusUpdate → Message

-- One `emit`: to a socket, or (`none`) to every connected client.
pub record Emission : Type 0 where
  pub target : Option String
  pub message : Message

pub record Gateway : Type 0 where
  pub device_sockets : List (String × String)
  pub meeting_sockets : List (String × List String)
  pub has_server : Bool
  pub has_challenge_service : Bool
  pub outbox : List Emission

-- What a handler of an event answers.
pub data Reply : Type 0 where
  device_connected heartbeat_ack service_not_ready : Reply
  meeting_subscribed : String → Reply

unfoldable pub set_challenge_service : Gateway → Gateway
set_challenge_service g = record g { has_challenge_service = true }

-- The first loop of `handleDisconnect`, which breaks at the first device of the socket.
unfoldable pub forget_device : String → List (String × String) → List (String × String)
forget_device client [] = []
forget_device client ((device, socket) ∷ rest) =
    if socket == client then rest else (device, socket) ∷ forget_device client rest

-- `if (sockets.size === 0) this.meetingSockets.delete(meetingId)`
abbrev pub keep_watched :
    String → List String → List (String × List String) → List (String × List String)
keep_watched meeting [] others = others
keep_watched meeting (s ∷ ss) others = (meeting, s ∷ ss) ∷ others

-- The second loop: the socket leaves every meeting, and a meeting that nobody watches goes.
unfoldable pub leave_meetings : String → List (String × List String) → List (String × List String)
leave_meetings client [] = []
leave_meetings client ((meeting, sockets) ∷ rest) =
    keep_watched meeting (drop client sockets) (leave_meetings client rest)

unfoldable pub handle_disconnect : String → Gateway → Gateway
handle_disconnect client g = record g {
  device_sockets = forget_device client g.device_sockets;
  meeting_sockets = leave_meetings client g.meeting_sockets;
}

unfoldable pub handle_device_connect : String → String → Gateway → Reply × Gateway
handle_device_connect client device_id g =
    (device_connected, record g { device_sockets = set device_id client g.device_sockets })

abbrev pub or_empty : Option (List String) → List String
or_empty none = []
or_empty (some s) = s

unfoldable pub handle_meeting_subscribe : String → String → Gateway → Reply × Gateway
handle_meeting_subscribe client meeting_id g =
    let sockets = or_empty (get meeting_id g.meeting_sockets) in
    (
      meeting_subscribed meeting_id,
      record g { meeting_sockets = set meeting_id (add client sockets) g.meeting_sockets },
    )

abbrev pub emit : Option String → Message → Emission
emit target message = record { target = target; message = message }

unfoldable pub emit_challenge_to_device : String → ChallengePayload → Gateway → Gateway
emit_challenge_to_device device_id payload g = elim (get device_id g.device_sockets) [
  | none ↦ g
  | some socket ↦ record g {
    outbox = g.outbox ++ emit (some socket) (challenge_issue payload) ∷ [];
  }
]

abbrev pub broadcast : Bool → Message → List Emission
broadcast true message = emit none message ∷ []
broadcast false message = []

-- `{ meeting_id: meetingId, ...payload }`: the payload's own meeting goes first.
abbrev pub own_or : String → Option String → String
own_or meeting_id none = meeting_id
own_or meeting_id (some id) = id

unfoldable pub emit_meeting_update : String → StatusUpdate → Gateway → Gateway
emit_meeting_update meeting_id payload g =
    let watchers = or_empty (get meeting_id g.meeting_sockets) in
    record g {
      outbox =
          g.outbox
          ++ (map (λ socket. emit (some socket) (status_update payload)) watchers
              ++ broadcast g.has_server (
                  status_update
                    (record payload { meeting_id = some (own_or meeting_id payload.meeting_id) })));
    }

unfoldable pub is_device_connected : String → Gateway → Bool
is_device_connected device_id g = contains device_id (keys g.device_sockets)

unfoldable pub get_connected_device_ids : Gateway → List String
get_connected_device_ids g = keys g.device_sockets
