-- ===== src/Api/Requests.antt =====
-- What reaches services/hub-api from outside, but for GET /stats, which only reads (see Stats): one type
-- of requests, and the states that the hub
-- goes through when it serves them one after the other. `handleConnection` of the gateway only logs.
use troofai_mvp.Prelude.{String, ◌≡◌, Option, List}
use troofai_mvp.Schema.{AuditEvent}
use troofai_mvp.Platform.{Platform}
use troofai_mvp.Exec.{ok, pure, ◌>>=◌, ◌>>◌}
use troofai_mvp.Gateway.{
  Gateway, Reply, set_challenge_service, handle_disconnect, handle_device_connect,
  handle_meeting_subscribe,
}
use troofai_mvp.World.{World, Hub, on_gateway, redis_get}
use troofai_mvp.Audit.{get_by_meeting}
use troofai_mvp.Auth.{DemoTenant, get_demo_tenant}
use troofai_mvp.Challenge.{IssueResult, challenge_key}
use troofai_mvp.Challenge.Race.{after_fetch}
use troofai_mvp.Meeting.{token_key}
use troofai_mvp.Meeting.Race.{after_token}
use troofai_mvp.Events.{ChallengeReply, handle_heartbeat, handle_challenge_response}
use troofai_mvp.Api.{
  Success, MeetingRequest, MeetingAnswer, DeviceRequest, DeviceAnswer, trigger_challenge,
  answer_meeting, answer_device,
}

-- The events of a socket, by the client's id where the handler takes the client.
pub data SocketEvent : Type 0 where
  connection : String → SocketEvent
  disconnection : String → SocketEvent
  device_connect : String → String → SocketEvent
  device_heartbeat : String → SocketEvent
  challenge_response : String → String → String → SocketEvent
  meeting_subscribe : String → String → SocketEvent

pub data SocketReply : Type 0 where
  silence : SocketReply
  replied : Reply → SocketReply
  challenge_result : ChallengeReply → SocketReply

pub data Request : Type 0 where
  demo_tenant : Request
  meetings : MeetingRequest → Request
  devices : DeviceRequest → Request
  challenges : String → Request
  audit : String → Request
  socket : SocketEvent → Request

pub data Response : Type 0 where
  tenant_shown : DemoTenant → Response
  meetings_answered : MeetingAnswer → Response
  devices_answered : DeviceAnswer → Response
  challenged : Success (List IssueResult) → Response
  audit_shown : List AuditEvent → Response
  socket_answered : SocketReply → Response

module _ (p : Platform) where
  -- `onModuleInit` of the challenge module
  unfoldable pub on_module_init : World p → World p
  on_module_init w = record w { gateway = set_challenge_service w.gateway }

  -- a handler of the gateway that answers and waits for nothing
  unfoldable pub at_once : (Gateway → Reply × Gateway) → Hub p SocketReply
  at_once f w = let (reply, g) = f w.gateway in (ok (replied reply), record w { gateway = g })

  unfoldable pub answer_socket : SocketEvent → Hub p SocketReply
  answer_socket (connection client) = pure silence
  answer_socket (disconnection client) = do on_gateway p (handle_disconnect client); pure silence
  answer_socket (device_connect client device_id) = at_once (handle_device_connect client device_id)
  answer_socket (device_heartbeat device_id) = do
    reply ← handle_heartbeat p device_id
    pure (replied reply)
  answer_socket (challenge_response challenge_id device_id signature) = do
    reply ← handle_challenge_response p challenge_id device_id signature
    pure (challenge_result reply)
  answer_socket (meeting_subscribe client meeting_id) =
      at_once (handle_meeting_subscribe client meeting_id)

  unfoldable pub serve : Request → Hub p Response
  serve demo_tenant = do tenant ← get_demo_tenant p; pure (tenant_shown tenant)
  serve (meetings r) = do answer ← answer_meeting p r; pure (meetings_answered answer)
  serve (devices r) = do answer ← answer_device p r; pure (devices_answered answer)
  serve (challenges meeting_id) = do
    answer ← trigger_challenge p meeting_id
    pure (challenged answer)
  serve (audit meeting_id) = do events ← get_by_meeting p meeting_id; pure (audit_shown events)
  serve (socket e) = do reply ← answer_socket e; pure (socket_answered reply)

  -- The states that the hub comes to from a state: by a request served whole, where one that ends in an
  -- exception leaves the state that it has made until then, or by the rest of a response or of a binding
  -- that has read Redis in an earlier state, before other requests were served.
  pub data Reachable : World p → World p → Type 0 where
    here : (w : World p) → Reachable w w
    served : (v w : World p) (r : Request) → Reachable v w → Reachable v (serve r w).1
    overtaken :
        (v t u w : World p) (challenge_id device_id signature : String) (found : Option String)
        → Reachable v t
        → redis_get p (challenge_key challenge_id) t ≡ (ok found, u)
        → Reachable u w
        → Reachable v (after_fetch p challenge_id device_id signature found w).1
    overtaken_binding :
        (v t u w : World p) (meeting_id join_token device_id signature : String)
        (stored : Option String)
        → Reachable v t
        → redis_get p (token_key join_token) t ≡ (ok stored, u)
        → Reachable u w
        → Reachable v (after_token p meeting_id join_token device_id signature stored w).1
