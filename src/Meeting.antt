-- ===== src/Meeting.antt =====
-- services/hub-api/src/meeting/meeting.service.ts and meeting.dto.ts: sessions, participants, join
-- tokens and the binding of a device. Each method that writes is here, and the others in Reads.
pub mod Binding
pub mod Guarantees
pub mod Tokens
pub mod Reads
pub mod Race
pub mod Replays
use Prim.Native.String
use troofai_mvp.Prelude.{
  ℕ, ◌+◌, String, Bool, true, false, not, Option, none, some, List, [], ◌∷◌, ◌==◌, if◌then◌else◌,
}
use troofai_mvp.Prelude.Text.{join_lines}
use troofai_mvp.Schema.{Device, Meeting, MeetingParticipant, verified, unknown, Detail, text, flag}
use troofai_mvp.Platform.{Platform, StoredToken}
use troofai_mvp.Exec.{
  Exception, not_found, bad_request, type_error, pure, throw, or_throw, ◌>>=◌, ◌>>◌,
}
use troofai_mvp.World.{
  Hub, truthy, now, random_uuid, json_parse, redis_set, redis_get, redis_del, signature_valid,
  find_device, find_meeting, find_participant, create_meeting, create_participant,
  update_participant,
}
use troofai_mvp.Audit.{AuditLogInput, log}

pub record CreateMeetingDto : Type 0 where
  pub tenant_id : String
  pub name : String

pub record AddParticipantDto : Type 0 where
  pub user_id : String
  pub display_name : String

-- What the dashboard gets for a join token.
pub record JoinToken : Type 0 where
  pub join_token : String
  pub meeting_id : String
  pub participant_id : String
  pub expires_at : String

-- The Redis key of a join token.
abbrev pub token_key : String → String
token_key id = String.◌++◌ "join_token:" id

-- The text that a device signs to be bound.
unfoldable pub bind_material : String → String → String → String → String → String
unfolding join_lines
bind_material join_token meeting_id participant_id device_id expires_at =
    join_lines (join_token ∷ meeting_id ∷ participant_id ∷ device_id ∷ expires_at ∷ [])

abbrev pub bound_reason : Bool → String
bound_reason hardware_bound =
    String.◌++◌ "Device bound and enrolled" (if hardware_bound then " (hardware-backed)" else "")

-- What `bindDevice` writes of the participant, and logs.
abbrev pub bound_patch : Device → String → ℕ → MeetingParticipant → MeetingParticipant
bound_patch device device_id bound_at r = record r {
  device_id = some device_id;
  bound_at = some bound_at;
  trust_status = verified;
  status_reason = some (bound_reason device.hardware_bound);
}

abbrev pub bound_event : String → String → StoredToken → Device → String → AuditLogInput
bound_event tenant_id meeting_id token device device_id = record {
  tenant_id = tenant_id;
  meeting_id = some meeting_id;
  event_type = "DEVICE_BOUND";
  actor = device.user_id;
  details =
      ("participant_id", text token.participant_id)
      ∷ ("device_id", text device_id)
      ∷ ("hardware_bound", flag device.hardware_bound)
      ∷ [];
}

-- What `create` and `addParticipant` log.
abbrev pub created_event : CreateMeetingDto → String → AuditLogInput
created_event dto meeting_id = record {
  tenant_id = dto.tenant_id;
  meeting_id = some meeting_id;
  event_type = "MEETING_CREATED";
  actor = "system";
  details = ("name", text dto.name) ∷ [];
}

abbrev pub joined_event : Meeting → String → AddParticipantDto → String → AuditLogInput
joined_event meeting meeting_id dto participant_id = record {
  tenant_id = meeting.tenant_id;
  meeting_id = some meeting_id;
  event_type = "PARTICIPANT_JOINED";
  actor = dto.user_id;
  details = ("display_name", text dto.display_name) ∷ ("participant_id", text participant_id) ∷ [];
}

-- The row of a new participant.
abbrev pub new_participant : String → AddParticipantDto → String → ℕ → MeetingParticipant
new_participant meeting_id dto id joined_at = record {
  id = id;
  meeting_id = meeting_id;
  user_id = dto.user_id;
  device_id = none;
  display_name = dto.display_name;
  trust_status = unknown;
  status_reason = none;
  joined_at = joined_at;
  bound_at = none;
  last_challenge_at = none;
}

-- The row of a new meeting.
abbrev pub new_meeting : CreateMeetingDto → String → ℕ → Meeting
new_meeting dto id created_at = record {
  id = id;
  tenant_id = dto.tenant_id;
  name = dto.name;
  created_at = created_at;
  ended_at = none;
}

module _ (p : Platform) where
  -- An exception unless the test holds.
  abbrev pub require : Bool → Exception → Hub p (Unit {0})
  require true e = pure tt
  require false e = throw e

  unfoldable pub create : CreateMeetingDto → Hub p Meeting
  create dto = do
    id ← random_uuid p
    created_at ← now p
    meeting ← create_meeting p (new_meeting dto id created_at)
    log p (created_event dto meeting.id)
    pure meeting

  unfoldable pub add_participant : String → AddParticipantDto → Hub p MeetingParticipant
  add_participant meeting_id dto = do
    found ← find_meeting p meeting_id
    meeting ← or_throw (not_found "Meeting not found") found
    id ← random_uuid p
    joined_at ← now p
    participant ← create_participant p (new_participant meeting_id dto id joined_at)
    log p (joined_event meeting meeting_id dto participant.id)
    pure participant

  -- The token is good for 30 seconds. That the participant is one of the meeting is not checked.
  unfoldable pub issue_join_token : String → String → Hub p JoinToken
  issue_join_token meeting_id participant_id = do
    found ← find_participant p participant_id
    or_throw (not_found "Participant not found") found
    join_token ← random_uuid p
    t ← now p
    let expires_at = p.to_iso (t + 30000)
    redis_set p (token_key join_token)
        (p.token_json.stringify (record {
          meeting_id = meeting_id;
          participant_id = participant_id;
          expires_at = expires_at;
        }))
        (some 30)
    pure (record {
      join_token = join_token;
      meeting_id = meeting_id;
      participant_id = participant_id;
      expires_at = expires_at;
    })

  -- `bindDevice` once the token, the device and the signature have been accepted.
  unfoldable pub complete_binding :
      String → String → StoredToken → Device → String → Hub p MeetingParticipant
  complete_binding meeting_id join_token token device device_id = do
    redis_del p (token_key join_token)
    bound_at ← now p
    participant ← update_participant p token.participant_id (bound_patch device device_id bound_at)
    found ← find_meeting p meeting_id
    meeting ← or_throw type_error found
    log p (bound_event meeting.tenant_id meeting_id token device device_id)
    pure participant

  unfoldable pub bind_device : String → String → String → String → Hub p MeetingParticipant
  bind_device meeting_id join_token device_id signature = do
    stored ← redis_get p (token_key join_token)
    json ← or_throw (bad_request "Join token expired or invalid") (truthy stored)
    token ← json_parse p p.token_json json
    require (token.meeting_id == meeting_id) (bad_request "Meeting ID mismatch")
    found ← find_device p device_id
    device ← or_throw (bad_request "Device not found — not enrolled") found
    let material =
        bind_material join_token meeting_id token.participant_id device_id token.expires_at
    require (signature_valid p device.public_key_pem material signature)
        (bad_request "Invalid binding signature")
    complete_binding meeting_id join_token token device device_id
