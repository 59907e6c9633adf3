-- ===== src/Interleaving/Requests.antt =====
-- Every request of Api.Requests call by call: the controllers of services/hub-api/src and the handlers of
-- gateway/events.gateway.ts. A read that is one query is one call.
use troofai_mvp.Prelude.{String, Bool, true, false, List}
use troofai_mvp.Platform.{Platform}
use troofai_mvp.Exec.{Result, ok}
use troofai_mvp.Gateway.{
  Reply, heartbeat_ack, handle_disconnect, handle_device_connect, handle_meeting_subscribe,
}
use troofai_mvp.World.{Hub, on_gateway}
use troofai_mvp.Audit.{get_by_meeting}
use troofai_mvp.Device.{find_by_id}
use troofai_mvp.Meeting.Reads.{get_meeting, get_participants}
use troofai_mvp.Challenge.{IssueResult}
use troofai_mvp.Events.{ChallengeReply, not_ready, result}
use troofai_mvp.Api.{
  Success, succeeded, enrolled, MeetingRequest, MeetingAnswer, DeviceRequest, DeviceAnswer,
  create_request, list_request, get_request, join_request, attendance_request, token_request,
  bind_request, created, listed, shown, joined, attendance, token_issued, bound, enroll_request,
  devices_request, device_request, device_enrolled, devices_listed, device_shown, list_meetings,
  list_devices,
}
use troofai_mvp.Api.Requests.{
  SocketEvent, SocketReply, connection, disconnection, device_connect, device_heartbeat,
  challenge_response, meeting_subscribe, silence, replied, challenge_result, Request, Response,
  demo_tenant, meetings, devices, challenges, audit, socket, tenant_shown, meetings_answered,
  devices_answered, challenged, audit_shown, socket_answered, at_once,
}
use troofai_mvp.Interleaving.{Thread, call, return, ◌>>=◌, ◌>>◌, catching}
use troofai_mvp.Interleaving.Handlers.{issue_challenge_steps, verify_response_steps}
use troofai_mvp.Interleaving.Services.{
  get_demo_tenant_steps, enroll_steps, heartbeat_steps, create_steps, add_participant_steps,
  issue_join_token_steps, bind_device_steps,
}

module _ (p : Platform) where
  unfoldable pub answer_meeting_steps : MeetingRequest → Thread p MeetingAnswer
  answer_meeting_steps (create_request dto) = do
    meeting ← create_steps p dto
    return (created (succeeded meeting))
  answer_meeting_steps (list_request tenant_id) = do
    summaries ← call (list_meetings p tenant_id)
    return (listed summaries)
  answer_meeting_steps (get_request id) = do
    meeting ← call (get_meeting p id)
    return (shown meeting)
  answer_meeting_steps (join_request meeting_id dto) = do
    participant ← add_participant_steps p meeting_id dto
    return (joined (succeeded participant))
  answer_meeting_steps (attendance_request meeting_id) = do
    participants ← call (get_participants p meeting_id)
    return (attendance participants)
  answer_meeting_steps (token_request meeting_id dto) = do
    token ← issue_join_token_steps p meeting_id dto.participant_id
    return (token_issued token)
  answer_meeting_steps (bind_request meeting_id dto) = do
    participant ← bind_device_steps p meeting_id dto.join_token dto.device_id dto.signature
    return (bound (succeeded participant))

  unfoldable pub answer_device_steps : DeviceRequest → Thread p DeviceAnswer
  answer_device_steps (enroll_request dto) = do
    device ← enroll_steps p dto
    return (device_enrolled (enrolled device))
  answer_device_steps (devices_request tenant_id) = do
    rows ← call (list_devices p tenant_id)
    return (devices_listed rows)
  answer_device_steps (device_request id) = do
    device ← call (find_by_id p id)
    return (device_shown device)

  unfoldable pub trigger_challenge_steps : String → Thread p (Success (List IssueResult))
  trigger_challenge_steps meeting_id = do
    results ← issue_challenge_steps p meeting_id
    return (succeeded results)

  abbrev pub acknowledged : {A : Type 0} → Result A → Reply
  acknowledged _ = heartbeat_ack

  -- Whether the gateway has the challenge service.
  unfoldable pub has_service : Hub p Bool
  has_service w = (ok w.gateway.has_challenge_service, w)

  unfoldable pub answer_challenge_steps : String → String → String → Bool → Thread p ChallengeReply
  answer_challenge_steps challenge_id device_id signature false = return not_ready
  answer_challenge_steps challenge_id device_id signature true = do
    answer ← verify_response_steps p challenge_id device_id signature
    return (result answer)

  unfoldable pub handle_challenge_response_steps :
      String → String → String → Thread p ChallengeReply
  handle_challenge_response_steps challenge_id device_id signature = do
    ready ← call has_service
    answer_challenge_steps challenge_id device_id signature ready

  unfoldable pub answer_socket_steps : SocketEvent → Thread p SocketReply
  answer_socket_steps (connection client) = return silence
  answer_socket_steps (disconnection client) = do
    call (on_gateway p (handle_disconnect client))
    return silence
  answer_socket_steps (device_connect client device_id) =
      call (at_once p (handle_device_connect client device_id))
  answer_socket_steps (device_heartbeat device_id) = do
    reply ← catching acknowledged (heartbeat_steps p device_id)
    return (replied reply)
  answer_socket_steps (challenge_response challenge_id device_id signature) = do
    reply ← handle_challenge_response_steps challenge_id device_id signature
    return (challenge_result reply)
  answer_socket_steps (meeting_subscribe client meeting_id) =
      call (at_once p (handle_meeting_subscribe client meeting_id))

  unfoldable pub serve_steps : Request → Thread p Response
  serve_steps demo_tenant = do tenant ← get_demo_tenant_steps p; return (tenant_shown tenant)
  serve_steps (meetings r) = do answer ← answer_meeting_steps r; return (meetings_answered answer)
  serve_steps (devices r) = do answer ← answer_device_steps r; return (devices_answered answer)
  serve_steps (challenges meeting_id) = do
    answer ← trigger_challenge_steps meeting_id
    return (challenged answer)
  serve_steps (audit meeting_id) = do
    events ← call (get_by_meeting p meeting_id)
    return (audit_shown events)
  serve_steps (socket e) = do reply ← answer_socket_steps e; return (socket_answered reply)
