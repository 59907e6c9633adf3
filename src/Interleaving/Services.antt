-- ===== src/Interleaving/Services.antt =====
-- The handlers of services/hub-api call by call: meeting.service.ts, device.service.ts and
-- tenant.controller.ts.
use troofai_mvp.Prelude.{◌+◌, String, none, some, ◌==◌}
use troofai_mvp.Schema.{Tenant, Device, Meeting, MeetingParticipant}
use troofai_mvp.Platform.{Platform, StoredToken}
use troofai_mvp.Exec.{bad_request, not_found, type_error, or_throw}
use troofai_mvp.World.{
  truthy, now, random_uuid, redis_get, redis_set, redis_del, json_parse, signature_valid,
  find_device, find_meeting, find_participant, find_tenant_by_name, update_device,
  update_participant, create_device, create_meeting, create_participant,
}
use troofai_mvp.Audit.{log}
use troofai_mvp.Auth.{DemoTenant, demo_name, new_demo_tenant}
use troofai_mvp.Device.{
  EnrollDeviceDto, re_enroll_patch, re_enroll_event, new_device, enroll_event, beat_patch,
}
use troofai_mvp.Meeting.{
  CreateMeetingDto, AddParticipantDto, JoinToken, token_key, bind_material, bound_patch,
  bound_event, new_meeting, new_participant, created_event, joined_event, require,
}
use troofai_mvp.Interleaving.{Thread, call, return, ◌>>=◌, ◌>>◌}

module _ (p : Platform) where
  unfoldable pub ensure_demo_tenant_steps : Thread p Tenant
  ensure_demo_tenant_steps = do
    existing ← call (find_tenant_by_name p demo_name)
    elim existing [ none ↦ call (new_demo_tenant p) | some tenant ↦ return tenant ]

  unfoldable pub get_demo_tenant_steps : Thread p DemoTenant
  get_demo_tenant_steps = do
    tenant ← ensure_demo_tenant_steps
    return (record { tenant_id = tenant.id; name = tenant.name; api_key = tenant.api_key })

  unfoldable pub re_enroll_steps : EnrollDeviceDto → Thread p Device
  re_enroll_steps dto = do
    beat ← call (now p)
    device ← call (update_device p dto.device_id (re_enroll_patch dto beat))
    call (log p (re_enroll_event dto))
    return device

  unfoldable pub enroll_new_steps : EnrollDeviceDto → Thread p Device
  enroll_new_steps dto = do
    beat ← call (now p)
    enrolled_at ← call (now p)
    device ← call (create_device p (new_device dto beat enrolled_at))
    call (log p (enroll_event dto))
    return device

  unfoldable pub enroll_steps : EnrollDeviceDto → Thread p Device
  enroll_steps dto = do
    existing ← call (find_device p dto.device_id)
    elim existing [ none ↦ enroll_new_steps dto | some _ ↦ re_enroll_steps dto ]

  unfoldable pub heartbeat_steps : String → Thread p Device
  heartbeat_steps device_id = do
    beat ← call (now p)
    call (update_device p device_id (beat_patch beat))

  unfoldable pub create_steps : CreateMeetingDto → Thread p Meeting
  create_steps dto = do
    id ← call (random_uuid p)
    created_at ← call (now p)
    meeting ← call (create_meeting p (new_meeting dto id created_at))
    call (log p (created_event dto meeting.id))
    return meeting

  unfoldable pub add_participant_steps : String → AddParticipantDto → Thread p MeetingParticipant
  add_participant_steps meeting_id dto = do
    found ← call (find_meeting p meeting_id)
    meeting ← call (or_throw (not_found "Meeting not found") found)
    id ← call (random_uuid p)
    joined_at ← call (now p)
    participant ← call (create_participant p (new_participant meeting_id dto id joined_at))
    call (log p (joined_event meeting meeting_id dto participant.id))
    return participant

  unfoldable pub issue_join_token_steps : String → String → Thread p JoinToken
  issue_join_token_steps meeting_id participant_id = do
    found ← call (find_participant p participant_id)
    call (or_throw (not_found "Participant not found") found)
    join_token ← call (random_uuid p)
    t ← call (now p)
    let expires_at = p.to_iso (t + 30000)
    call (
        redis_set p (token_key join_token)
          (p.token_json.stringify (record {
            meeting_id = meeting_id;
            participant_id = participant_id;
            expires_at = expires_at;
          }))
          (some 30))
    return (record {
      join_token = join_token;
      meeting_id = meeting_id;
      participant_id = participant_id;
      expires_at = expires_at;
    })

  unfoldable pub complete_binding_steps :
      String → String → StoredToken → Device → String → Thread p MeetingParticipant
  complete_binding_steps meeting_id join_token token device device_id = do
    call (redis_del p (token_key join_token))
    bound_at ← call (now p)
    participant ←
        call (update_participant p token.participant_id (bound_patch device device_id bound_at))
    found ← call (find_meeting p meeting_id)
    meeting ← call (or_throw type_error found)
    call (log p (bound_event meeting.tenant_id meeting_id token device device_id))
    return participant

  unfoldable pub bind_device_steps : String → String → String → String → Thread p MeetingParticipant
  bind_device_steps meeting_id join_token device_id signature = do
    stored ← call (redis_get p (token_key join_token))
    json ← call (or_throw (bad_request "Join token expired or invalid") (truthy stored))
    token ← call (json_parse p p.token_json json)
    call (require p (token.meeting_id == meeting_id) (bad_request "Meeting ID mismatch"))
    found ← call (find_device p device_id)
    device ← call (or_throw (bad_request "Device not found — not enrolled") found)
    let material =
        bind_material join_token meeting_id token.participant_id device_id token.expires_at
    call (
        require p (signature_valid p device.public_key_pem material signature)
          (bad_request "Invalid binding signature"))
    complete_binding_steps meeting_id join_token token device device_id
