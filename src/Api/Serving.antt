-- ===== src/Api/Serving.antt =====
-- Every request that `Requests` names, against the integrity of the state.
use troofai_mvp.Prelude.{String, ◌≡◌, refl, Bool, true, false, Option, [], Option-cases, inl, inr}
use troofai_mvp.Platform.{Platform}
use troofai_mvp.Exec.{Result, ok, thrown, pure, ◌>>=◌}
use troofai_mvp.Gateway.{Gateway, Reply}
use troofai_mvp.World.{World, Hub, truthy, find_meeting, on_gateway}
use troofai_mvp.Audit.{get_by_meeting}
use troofai_mvp.Device.{heartbeat, find_by_tenant}
use troofai_mvp.Meeting.Reads.{get_meeting, get_participants, list_by_tenant}
use troofai_mvp.Challenge.{verify_response}
use troofai_mvp.Events.{
  ChallengeReply, not_ready, caught, result, handle_heartbeat, handle_challenge_response,
}
use troofai_mvp.Integrity.{Extends-refl, Keeps, Keeps-bind}
use troofai_mvp.Integrity.Quiet.{Keeps-on_gateway}
use troofai_mvp.Integrity.Services.{
  keeps_rules, Keeps-pure, Keeps-get_demo_tenant, Keeps-enroll, Keeps-heartbeat, Keeps-create,
  Keeps-add_participant, Keeps-issue_join_token,
}
use troofai_mvp.Integrity.Bindings.{Keeps-bind_device}
use troofai_mvp.Integrity.Challenges.{Keeps-verify_response, Keeps-find_by_id}
use troofai_mvp.Integrity.Issuing.{Keeps-issue_challenge}
use troofai_mvp.Api.{
  MeetingRequest, create_request, list_request, get_request, join_request, attendance_request,
  token_request, bind_request, DeviceRequest, enroll_request, devices_request, device_request,
  trigger_challenge, list_meetings, list_devices, answer_meeting, answer_device,
}
use troofai_mvp.Api.Requests.{
  SocketEvent, connection, disconnection, device_connect, device_heartbeat, challenge_response,
  meeting_subscribe, Request, demo_tenant, meetings, devices, challenges, audit, socket, at_once,
  answer_socket, serve,
}

module _ (p : Platform) where
  Keeps-find_by_tenant : (id : String) (w : World p) → Keeps p (find_by_tenant p id) w
  unfolding find_by_tenant
  Keeps-find_by_tenant id w = record { at = λ s. (s, Extends-refl p w) }

  Keeps-list_by_tenant : (id : String) (w : World p) → Keeps p (list_by_tenant p id) w
  unfolding list_by_tenant
  Keeps-list_by_tenant id w = record { at = λ s. (s, Extends-refl p w) }

  pub Keeps-get_by_meeting : (id : String) (w : World p) → Keeps p (get_by_meeting p id) w
  unfolding get_by_meeting
  Keeps-get_by_meeting id w = record { at = λ s. (s, Extends-refl p w) }

  pub Keeps-get_participants : (id : String) (w : World p) → Keeps p (get_participants p id) w
  unfolding get_participants
  Keeps-get_participants id w = record { at = λ s. (s, Extends-refl p w) }

  pub Keeps-get_meeting : (id : String) (w : World p) → Keeps p (get_meeting p id) w
  unfolding get_meeting find_meeting get_participants
  Keeps-get_meeting id w = elim (Option-cases (p.meetings.find_unique id w.meetings)) [
    | inl e ↦ record { at = λ s. rw e (s, Extends-refl p w) }
    | inr (m, e) ↦ record { at = λ s. rw e (s, Extends-refl p w) }
  ]

  pub Keeps-list_meetings : (t : Option String) (w : World p) → Keeps p (list_meetings p t) w
  unfolding list_meetings
  Keeps-list_meetings t w = elim (Option-cases (truthy t)) [
    | inl e ↦ rw (e, list_meetings) (Keeps-pure p [] w)
    | inr (id, e) ↦ rw (e, list_meetings) (Keeps-list_by_tenant id w)
  ]

  pub Keeps-list_devices : (t : Option String) (w : World p) → Keeps p (list_devices p t) w
  unfolding list_devices
  Keeps-list_devices t w = elim (Option-cases (truthy t)) [
    | inl e ↦ rw (e, list_devices) (Keeps-pure p [] w)
    | inr (id, e) ↦ rw (e, list_devices) (Keeps-find_by_tenant id w)
  ]

  Keeps-answer_meeting : (r : MeetingRequest) (w : World p) → Keeps p (answer_meeting p r) w
  unfolding answer_meeting
  Keeps-answer_meeting (create_request dto) w = search (keeps_rules, Keeps-create)
  Keeps-answer_meeting (list_request t) w = search (keeps_rules, Keeps-list_meetings)
  Keeps-answer_meeting (get_request id) w = search (keeps_rules, Keeps-get_meeting)
  Keeps-answer_meeting (join_request id dto) w = search (keeps_rules, Keeps-add_participant)
  Keeps-answer_meeting (attendance_request id) w = search (keeps_rules, Keeps-get_participants)
  Keeps-answer_meeting (token_request id dto) w = search (keeps_rules, Keeps-issue_join_token)
  Keeps-answer_meeting (bind_request id dto) w = search (keeps_rules, Keeps-bind_device)

  Keeps-answer_device : (r : DeviceRequest) (w : World p) → Keeps p (answer_device p r) w
  unfolding answer_device
  Keeps-answer_device (enroll_request dto) w = search (keeps_rules, Keeps-enroll)
  Keeps-answer_device (devices_request t) w = search (keeps_rules, Keeps-list_devices)
  Keeps-answer_device (device_request id) w = search (keeps_rules, Keeps-find_by_id)

  Keeps-trigger_challenge : (id : String) (w : World p) → Keeps p (trigger_challenge p id) w
  unfolding trigger_challenge
  Keeps-trigger_challenge id w = search (keeps_rules, Keeps-issue_challenge)

  caught_state : {A : Type 0} (x : Result A × World p) → (caught p x).1 ≡ x.1
  caught_state (ok a, w) = refl
  caught_state (thrown e, w) = refl

  Keeps-handle_heartbeat : (id : String) (w : World p) → Keeps p (handle_heartbeat p id) w
  unfolding handle_heartbeat
  Keeps-handle_heartbeat id w = record {
    at = λ s. rw (caught_state (heartbeat p id w)) ((Keeps-heartbeat p id w).at s);
  }

  -- The handler by whether the challenge service has been set.
  abbrev gated : Bool → String → String → String → Hub p ChallengeReply
  gated b cid did sig w = elim b [
    | true ↦ (do answer ← verify_response p cid did sig; pure (result answer)) w
    | false ↦ (ok not_ready, w)
  ]

  Keeps-gated : (b : Bool) (cid did sig : String) (w : World p) → Keeps p (gated b cid did sig) w
  Keeps-gated true cid did sig w = record {
    at =
        (Keeps-bind p (verify_response p cid did sig) (λ answer. pure (result answer)) w
          (Keeps-verify_response p cid did sig w) (λ a v _ _. Keeps-pure p (result a) v)).at;
  }
  Keeps-gated false cid did sig w = record { at = λ s. (s, Extends-refl p w) }

  Keeps-handle_challenge_response :
      (cid did sig : String) (w : World p) → Keeps p (handle_challenge_response p cid did sig) w
  unfolding handle_challenge_response
  Keeps-handle_challenge_response cid did sig w = record {
    at = (Keeps-gated w.gateway.has_challenge_service cid did sig w).at;
  }

  pub Keeps-at_once : (f : Gateway → Reply × Gateway) (w : World p) → Keeps p (at_once p f) w
  unfolding at_once on_gateway
  Keeps-at_once f w = record { at = (Keeps-on_gateway p (λ g. (f g).1) w).at }

  Keeps-answer_socket : (e : SocketEvent) (w : World p) → Keeps p (answer_socket p e) w
  unfolding answer_socket
  Keeps-answer_socket (connection client) w = Keeps-pure p _ w
  Keeps-answer_socket (disconnection client) w = search (keeps_rules, Keeps-on_gateway)
  Keeps-answer_socket (device_connect client id) w = Keeps-at_once _ w
  Keeps-answer_socket (device_heartbeat id) w = search (keeps_rules, Keeps-handle_heartbeat)
  Keeps-answer_socket (challenge_response cid did sig) w =
      search (keeps_rules, Keeps-handle_challenge_response)
  Keeps-answer_socket (meeting_subscribe client id) w = Keeps-at_once _ w

  pub Keeps-serve : (r : Request) (w : World p) → Keeps p (serve p r) w
  unfolding serve
  Keeps-serve demo_tenant w = search (keeps_rules, Keeps-get_demo_tenant)
  Keeps-serve (meetings r) w = search (keeps_rules, Keeps-answer_meeting)
  Keeps-serve (devices r) w = search (keeps_rules, Keeps-answer_device)
  Keeps-serve (challenges id) w = search (keeps_rules, Keeps-trigger_challenge)
  Keeps-serve (audit id) w = search (keeps_rules, Keeps-get_by_meeting)
  Keeps-serve (socket e) w = search (keeps_rules, Keeps-answer_socket)
