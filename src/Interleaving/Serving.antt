-- ===== src/Interleaving/Serving.antt =====
-- Every request of Api.Requests keeps the state sound, whatever overtakes it.
use troofai_mvp.Prelude.{String, Bool, true, false}
use troofai_mvp.Platform.{Platform}
use troofai_mvp.World.{World}
use troofai_mvp.Integrity.{Keeps, Extends-refl}
use troofai_mvp.Integrity.Quiet.{Keeps-on_gateway}
use troofai_mvp.Integrity.Challenges.{Keeps-find_by_id}
use troofai_mvp.Api.{
  MeetingRequest, create_request, list_request, get_request, join_request, attendance_request,
  token_request, bind_request, DeviceRequest, enroll_request, devices_request, device_request,
}
use troofai_mvp.Api.Requests.{
  SocketEvent, connection, disconnection, device_connect, device_heartbeat, challenge_response,
  meeting_subscribe, Request, demo_tenant, meetings, devices, challenges, audit, socket,
}
use troofai_mvp.Api.Serving.{
  Keeps-list_meetings, Keeps-list_devices, Keeps-get_meeting, Keeps-get_participants,
  Keeps-get_by_meeting, Keeps-at_once,
}
use troofai_mvp.Interleaving.Requests.{
  answer_meeting_steps, answer_device_steps, answer_challenge_steps, answer_socket_steps,
  serve_steps, trigger_challenge_steps, handle_challenge_response_steps, has_service,
}
use troofai_mvp.Interleaving.Safety.{
  Guarded, Guarded-return, Guarded-call, Guarded-bind, Guarded-catching,
}
use troofai_mvp.Interleaving.Challenges.{guarded_rules, Guarded-verify_response}
use troofai_mvp.Interleaving.Issuing.{Guarded-issue_challenge}
use troofai_mvp.Interleaving.Bindings.{
  Guarded-get_demo_tenant, Guarded-enroll, Guarded-heartbeat, Guarded-create,
  Guarded-add_participant, Guarded-issue_join_token, Guarded-bind_device,
}

module _ (p : Platform) where
  Guarded-answer_meeting :
      (r : MeetingRequest) (w : World p) → Guarded p (answer_meeting_steps p r) w
  unfolding answer_meeting_steps
  Guarded-answer_meeting (create_request dto) w = search (guarded_rules, Guarded-create)
  Guarded-answer_meeting (list_request t) w = search (guarded_rules, Keeps-list_meetings)
  Guarded-answer_meeting (get_request id) w = search (guarded_rules, Keeps-get_meeting)
  Guarded-answer_meeting (join_request id dto) w = search (guarded_rules, Guarded-add_participant)
  Guarded-answer_meeting (attendance_request id) w = search (guarded_rules, Keeps-get_participants)
  Guarded-answer_meeting (token_request id dto) w = search (guarded_rules, Guarded-issue_join_token)
  Guarded-answer_meeting (bind_request id dto) w = search (guarded_rules, Guarded-bind_device)

  Guarded-answer_device : (r : DeviceRequest) (w : World p) → Guarded p (answer_device_steps p r) w
  unfolding answer_device_steps
  Guarded-answer_device (enroll_request dto) w = search (guarded_rules, Guarded-enroll)
  Guarded-answer_device (devices_request t) w = search (guarded_rules, Keeps-list_devices)
  Guarded-answer_device (device_request id) w = search (guarded_rules, Keeps-find_by_id)

  Keeps-has_service : (w : World p) → Keeps p (has_service p) w
  unfolding has_service
  Keeps-has_service w = record { at = λ s. (s, Extends-refl p w) }

  Guarded-answer_challenge :
      (cid did sig : String) (ready : Bool) (w : World p)
      → Guarded p (answer_challenge_steps p cid did sig ready) w
  unfolding answer_challenge_steps
  Guarded-answer_challenge cid did sig false w = Guarded-return p _ w
  Guarded-answer_challenge cid did sig true w =
      Guarded-bind p _ _ w (Guarded-verify_response p cid did sig w) (λ a v _. Guarded-return p _ v)

  Guarded-handle_challenge_response :
      (cid did sig : String) (w : World p)
      → Guarded p (handle_challenge_response_steps p cid did sig) w
  unfolding handle_challenge_response_steps
  Guarded-handle_challenge_response cid did sig w =
      search (guarded_rules, Keeps-has_service, Guarded-answer_challenge)

  Guarded-trigger_challenge :
      (mid : String) (w : World p) → Guarded p (trigger_challenge_steps p mid) w
  unfolding trigger_challenge_steps
  Guarded-trigger_challenge mid w = search (guarded_rules, Guarded-issue_challenge)

  Guarded-answer_socket : (e : SocketEvent) (w : World p) → Guarded p (answer_socket_steps p e) w
  unfolding answer_socket_steps
  Guarded-answer_socket (connection client) w = Guarded-return p _ w
  Guarded-answer_socket (disconnection client) w = search (guarded_rules, Keeps-on_gateway)
  Guarded-answer_socket (device_connect client id) w =
      Guarded-call p _ w (λ u _. Keeps-at_once p _ u)
  Guarded-answer_socket (device_heartbeat id) w =
      Guarded-bind p _ _ w (Guarded-catching p _ _ w (Guarded-heartbeat p id w))
        (λ reply v _. Guarded-return p _ v)
  Guarded-answer_socket (challenge_response cid did sig) w =
      search (guarded_rules, Guarded-handle_challenge_response)
  Guarded-answer_socket (meeting_subscribe client id) w =
      Guarded-call p _ w (λ u _. Keeps-at_once p _ u)

  pub Guarded-serve : (r : Request) (w : World p) → Guarded p (serve_steps p r) w
  unfolding serve_steps
  Guarded-serve demo_tenant w = search (guarded_rules, Guarded-get_demo_tenant)
  Guarded-serve (meetings r) w = search (guarded_rules, Guarded-answer_meeting)
  Guarded-serve (devices r) w = search (guarded_rules, Guarded-answer_device)
  Guarded-serve (challenges id) w = search (guarded_rules, Guarded-trigger_challenge)
  Guarded-serve (audit id) w = search (guarded_rules, Keeps-get_by_meeting)
  Guarded-serve (socket e) w = search (guarded_rules, Guarded-answer_socket)
