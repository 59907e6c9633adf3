-- ===== src/Interleaving/Served.antt =====
-- The requests that nothing overtakes, against `serve` of Api.Requests.
use troofai_mvp.Prelude.{String, ◌≡◌, refl, ◌∙◌, ap, Bool, true, false, Option, none, some}
use troofai_mvp.Schema.{Tenant, Device}
use troofai_mvp.Platform.{Platform, StoredToken}
use troofai_mvp.Exec.{Result, ok, thrown}
use troofai_mvp.Exec as E
use troofai_mvp.World.{World}
use troofai_mvp.Gateway.{Reply}
use troofai_mvp.Auth as U
use troofai_mvp.Device as D
use troofai_mvp.Meeting as M
use troofai_mvp.Events as V
use troofai_mvp.Challenge.{verify_response}
use troofai_mvp.Interleaving.Handlers.{verify_response_steps}
use troofai_mvp.Api.{
  MeetingRequest, create_request, list_request, get_request, join_request, attendance_request,
  token_request, bind_request, DeviceRequest, enroll_request, devices_request, device_request,
  answer_meeting, answer_device, trigger_challenge,
}
use troofai_mvp.Api.Requests.{
  SocketEvent, connection, disconnection, device_connect, device_heartbeat, challenge_response,
  meeting_subscribe, Request, demo_tenant, meetings, devices, challenges, audit, socket,
  answer_socket, serve,
}
use troofai_mvp.Interleaving.{Thread, done, step, call, return, run, catching}
use troofai_mvp.Interleaving.Services.{
  ensure_demo_tenant_steps, get_demo_tenant_steps, re_enroll_steps, enroll_new_steps, enroll_steps,
  heartbeat_steps, create_steps, add_participant_steps, issue_join_token_steps,
  complete_binding_steps, bind_device_steps,
}
use troofai_mvp.Interleaving.Requests.{
  answer_meeting_steps, answer_device_steps, answer_challenge_steps, answer_socket_steps,
  serve_steps, trigger_challenge_steps, handle_challenge_response_steps, has_service, acknowledged,
}
use troofai_mvp.Interleaving.Alone.{
  Runs, Runs-bind, Runs-call, Runs-return, runs_rules, Runs-issue_challenge, Runs-verify_response,
}

module _ (p : Platform) where
  Runs-ensure_demo_tenant : Runs p (ensure_demo_tenant_steps p) (U.ensure_demo_tenant p)
  unfolding ensure_demo_tenant_steps U.ensure_demo_tenant
  Runs-ensure_demo_tenant = Runs-bind p _ _ _ _ (Runs-call p _) go
    where
      go :
          (o : Option Tenant)
          → Runs p
              (elim o [ none ↦ call (U.new_demo_tenant p) | some t ↦ return t ])
              (elim o [ none ↦ U.new_demo_tenant p | some t ↦ E.pure t ])
      go none = Runs-call p _
      go (some t) = Runs-return p t

  Runs-get_demo_tenant : Runs p (get_demo_tenant_steps p) (U.get_demo_tenant p)
  unfolding get_demo_tenant_steps U.get_demo_tenant
  Runs-get_demo_tenant = search (runs_rules, Runs-ensure_demo_tenant)

  Runs-enroll : (dto : D.EnrollDeviceDto) → Runs p (enroll_steps p dto) (D.enroll p dto)
  unfolding enroll_steps D.enroll re_enroll_steps D.re_enroll enroll_new_steps D.enroll_new
  Runs-enroll dto = Runs-bind p _ _ _ _ (Runs-call p _) go
    where
      go :
          (o : Option Device)
          → Runs p
              (elim o [ none ↦ enroll_new_steps p dto | some _ ↦ re_enroll_steps p dto ])
              (elim o [ none ↦ D.enroll_new p dto | some _ ↦ D.re_enroll p dto ])
      go none = search runs_rules depth 12
      go (some _) = search runs_rules depth 12

  Runs-heartbeat : (id : String) → Runs p (heartbeat_steps p id) (D.heartbeat p id)
  unfolding heartbeat_steps D.heartbeat
  Runs-heartbeat id = search runs_rules

  Runs-create : (dto : M.CreateMeetingDto) → Runs p (create_steps p dto) (M.create p dto)
  unfolding create_steps M.create
  Runs-create dto = search runs_rules depth 12

  Runs-add_participant :
      (mid : String) (dto : M.AddParticipantDto)
      → Runs p (add_participant_steps p mid dto) (M.add_participant p mid dto)
  unfolding add_participant_steps M.add_participant
  Runs-add_participant mid dto = search runs_rules depth 16

  Runs-issue_join_token :
      (mid pid : String) → Runs p (issue_join_token_steps p mid pid) (M.issue_join_token p mid pid)
  unfolding issue_join_token_steps M.issue_join_token
  Runs-issue_join_token mid pid = search runs_rules depth 16

  Runs-complete_binding :
      (mid tok : String) (token : StoredToken) (d : Device) (dev : String)
      → Runs p
          (complete_binding_steps p mid tok token d dev)
          (M.complete_binding p mid tok token d dev)
  unfolding complete_binding_steps M.complete_binding
  Runs-complete_binding mid tok token d dev = search runs_rules depth 16

  Runs-bind_device :
      (mid tok dev sig : String)
      → Runs p (bind_device_steps p mid tok dev sig) (M.bind_device p mid tok dev sig)
  unfolding bind_device_steps M.bind_device
  Runs-bind_device mid tok dev sig = search (runs_rules, Runs-complete_binding) depth 20

  Runs-answer_meeting :
      (r : MeetingRequest) → Runs p (answer_meeting_steps p r) (answer_meeting p r)
  unfolding answer_meeting_steps answer_meeting
  Runs-answer_meeting (create_request dto) = search (runs_rules, Runs-create)
  Runs-answer_meeting (list_request t) = search runs_rules
  Runs-answer_meeting (get_request id) = search runs_rules
  Runs-answer_meeting (join_request id dto) = search (runs_rules, Runs-add_participant)
  Runs-answer_meeting (attendance_request id) = search runs_rules
  Runs-answer_meeting (token_request id dto) = search (runs_rules, Runs-issue_join_token)
  Runs-answer_meeting (bind_request id dto) = search (runs_rules, Runs-bind_device)

  Runs-answer_device : (r : DeviceRequest) → Runs p (answer_device_steps p r) (answer_device p r)
  unfolding answer_device_steps answer_device
  Runs-answer_device (enroll_request dto) = search (runs_rules, Runs-enroll)
  Runs-answer_device (devices_request t) = search runs_rules
  Runs-answer_device (device_request id) = search runs_rules

  -- A caught exception is caught wherever it comes from.
  run-catching :
      {A B : Type 0} (f : Result A → B) (t : Thread p A) (w : World p)
      → run (catching f t) w ≡ (ok (f (run t w).0), (run t w).1)
  run-catching f (done r) w = refl
  run-catching f (step m k) w = run-catching f (k (m w).0) (m w).1

  caught_acknowledged :
      {A : Type 0} (x : Result A × World p)
      → Path (Result Reply × World p) (ok (acknowledged p x.0), x.1) (V.caught p x)
  caught_acknowledged (ok a, w) = refl
  caught_acknowledged (thrown e, w) = refl

  Runs-handle_heartbeat :
      (id : String)
      → Runs p (catching (acknowledged p) (heartbeat_steps p id)) (V.handle_heartbeat p id)
  unfolding V.handle_heartbeat
  Runs-handle_heartbeat id = record {
    at = λ w.
        run-catching (acknowledged p) (heartbeat_steps p id) w
        ∙ caught_acknowledged (run (heartbeat_steps p id) w)
        ∙ ap (V.caught p) ((Runs-heartbeat id).at w);
  }

  Runs-answer_challenge :
      (cid did sig : String)
      → Runs p
          (handle_challenge_response_steps p cid did sig)
          (V.handle_challenge_response p cid did sig)
  unfolding handle_challenge_response_steps has_service answer_challenge_steps
      V.handle_challenge_response
  Runs-answer_challenge cid did sig = record { at = λ w. go w.gateway.has_challenge_service w }
    where
      go :
          (b : Bool) (w : World p)
          → run (answer_challenge_steps p cid did sig b) w ≡ elim b [
            | true ↦ (E.◌>>=◌ (verify_response p cid did sig) λ a. E.pure (V.result a)) w
            | false ↦ (ok V.not_ready, w)
          ]
      go true w =
          (Runs-bind p (verify_response_steps p cid did sig) (verify_response p cid did sig)
              (λ a. return (V.result a)) (λ a. E.pure (V.result a))
              (Runs-verify_response p cid did sig) (λ a. Runs-return p (V.result a))).at
            w
      go false w = refl

  Runs-trigger_challenge :
      (mid : String) → Runs p (trigger_challenge_steps p mid) (trigger_challenge p mid)
  unfolding trigger_challenge_steps trigger_challenge
  Runs-trigger_challenge mid = search (runs_rules, Runs-issue_challenge)

  Runs-answer_socket : (e : SocketEvent) → Runs p (answer_socket_steps p e) (answer_socket p e)
  unfolding answer_socket_steps answer_socket
  Runs-answer_socket (connection client) = Runs-return p _
  Runs-answer_socket (disconnection client) = search runs_rules
  Runs-answer_socket (device_connect client id) = Runs-call p _
  Runs-answer_socket (device_heartbeat id) = search (runs_rules, Runs-handle_heartbeat)
  Runs-answer_socket (challenge_response cid did sig) = search (runs_rules, Runs-answer_challenge)
  Runs-answer_socket (meeting_subscribe client id) = Runs-call p _

  -- A request that nothing overtakes is served as `serve` says.
  pub run-serve_steps : (r : Request) (w : World p) → run (serve_steps p r) w ≡ serve p r w
  unfolding serve_steps serve
  run-serve_steps r w = (go r).at w
    where
      go : (r : Request) → Runs p (serve_steps p r) (serve p r)
      go demo_tenant = search (runs_rules, Runs-get_demo_tenant)
      go (meetings r) = search (runs_rules, Runs-answer_meeting)
      go (devices r) = search (runs_rules, Runs-answer_device)
      go (challenges id) = search (runs_rules, Runs-trigger_challenge)
      go (audit id) = search runs_rules
      go (socket e) = search (runs_rules, Runs-answer_socket)
