-- ===== src/Interleaving/Handlers.antt =====
-- The handlers of services/hub-api call by call: challenge.service.ts, meeting.service.ts,
-- device.service.ts, tenant.controller.ts, and every request of Api.Requests.
use troofai_mvp.Prelude.{String, Bool, not, Option, none, some, List, [], ◌∷◌, ◌==◌, if◌then◌else◌}
use troofai_mvp.Schema.{Device, Meeting, MeetingParticipant}
use troofai_mvp.Platform.{Platform, StoredChallenge}
use troofai_mvp.Gateway.{emit_challenge_to_device, emit_meeting_update}
use troofai_mvp.World.{
  truthy, now, random_uuid, random_base64, redis_get, redis_set, redis_del, json_parse, on_gateway,
  signature_valid, find_meeting, participants_of, update_participant,
}
use troofai_mvp.Policy.{PolicyResult, evaluate}
use troofai_mvp.Audit.{log}
use troofai_mvp.Device.{find_by_id}
use troofai_mvp.Challenge.{
  IssueResult, VerifyResult, not_bound, challenge_sent, refused, challenge_key, signed_material,
  is_after, new_payload, policy_input, unbound_patch, unbound_event, unbound_update, sent_event,
  verdict_patch, verdict_event, verdict_update,
}
use troofai_mvp.Interleaving.{Thread, call, return, ◌>>=◌, ◌>>◌}

module _ (p : Platform) where
  -- challenge.service.ts
  unfoldable pub fail_unbound_steps : String → Meeting → MeetingParticipant → Thread p IssueResult
  fail_unbound_steps meeting_id meeting participant = do
    t ← call (now p)
    call (update_participant p participant.id (unbound_patch t))
    call (log p (unbound_event meeting_id meeting participant))
    call (on_gateway p (emit_meeting_update meeting_id (unbound_update participant)))
    return (record {
      participant_id = participant.id;
      display_name = participant.display_name;
      outcome = not_bound "No device binding";
    })

  unfoldable pub send_challenge_steps :
      String → Meeting → MeetingParticipant → String → Thread p IssueResult
  send_challenge_steps meeting_id meeting participant device_id = do
    challenge_id ← call (random_uuid p)
    nonce ← call (random_base64 p 32)
    issued ← call (now p)
    expires ← call (now p)
    let payload = new_payload p challenge_id nonce meeting_id participant.id issued expires
    call (
        redis_set p (challenge_key challenge_id)
          (p.challenge_json.stringify (record {
            payload = payload;
            tenant_id = meeting.tenant_id;
            device_id = device_id;
            user_id = participant.user_id;
          }))
          (some 15))
    call (on_gateway p (emit_challenge_to_device device_id payload))
    call (log p (sent_event challenge_id meeting_id meeting participant device_id))
    return (record {
      participant_id = participant.id;
      display_name = participant.display_name;
      outcome = challenge_sent challenge_id;
    })

  unfoldable pub issue_one_steps :
      String → Meeting → MeetingParticipant × Option Device → Thread p IssueResult
  issue_one_steps meeting_id meeting (participant, device) = elim (truthy participant.device_id) [
    | none ↦ fail_unbound_steps meeting_id meeting participant
    | some device_id ↦ elim device [
      | none ↦ fail_unbound_steps meeting_id meeting participant
      | some _ ↦ send_challenge_steps meeting_id meeting participant device_id
    ]
  ]

  unfoldable pub issue_all_steps :
      String → Meeting → List (MeetingParticipant × Option Device) → Thread p (List IssueResult)
  issue_all_steps meeting_id meeting [] = return []
  issue_all_steps meeting_id meeting (r ∷ rs) = do
    answer ← issue_one_steps meeting_id meeting r
    results ← issue_all_steps meeting_id meeting rs
    return (answer ∷ results)

  unfoldable pub issue_challenge_steps : String → Thread p (List IssueResult)
  issue_challenge_steps meeting_id = do
    found ← call (find_meeting p meeting_id)
    elim found [
      | none ↦ return []
      | some meeting ↦ do
        participants ← call (participants_of p meeting_id)
        issue_all_steps meeting_id meeting participants
    ]

  unfoldable pub settle_steps :
      String → String → StoredChallenge → Device → Bool → PolicyResult → Thread p VerifyResult
  settle_steps challenge_id device_id challenge device is_valid policy = do
    challenged_at ← call (now p)
    call
        (update_participant p challenge.payload.participant_id (verdict_patch policy challenged_at))
    call (log p (verdict_event challenge_id device_id challenge device is_valid policy))
    call (
        on_gateway p
          (emit_meeting_update challenge.payload.meeting_id (verdict_update challenge policy)))
    return (record { valid = is_valid; status = policy.status; reason = policy.reason })

  unfoldable pub judge_steps :
      String → String → String → StoredChallenge → Bool → Device → Thread p VerifyResult
  judge_steps challenge_id device_id signature challenge is_expired device = do
    let is_valid = signature_valid p device.public_key_pem (signed_material challenge) signature
    call (redis_del p (challenge_key challenge_id))
    t ← call (now p)
    settle_steps challenge_id device_id challenge device is_valid
        (evaluate t (policy_input device is_valid is_expired))

  unfoldable pub check_device_steps :
      String → String → String → StoredChallenge → Thread p VerifyResult
  check_device_steps challenge_id device_id signature challenge = do
    t ← call (now p)
    let is_expired = is_after p t challenge.payload.expires_at
    if not (challenge.device_id == device_id) then return (refused "Device ID mismatch") else do
      found ← call (find_by_id p device_id)
      elim found [
        | none ↦ return (refused "Device not found")
        | some device ↦ judge_steps challenge_id device_id signature challenge is_expired device
      ]

  unfoldable pub verify_response_steps : String → String → String → Thread p VerifyResult
  verify_response_steps challenge_id device_id signature = do
    found ← call (redis_get p (challenge_key challenge_id))
    elim (truthy found) [
      | none ↦ return (refused "Challenge expired or not found")
      | some json ↦ do
        challenge ← call (json_parse p p.challenge_json json)
        check_device_steps challenge_id device_id signature challenge
    ]
