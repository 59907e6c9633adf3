-- ===== src/Challenge.antt =====
-- services/hub-api/src/challenge/challenge.service.ts.
pub mod Settled
pub mod Verdict
pub mod Soundness
pub mod Effects
pub mod Honest
pub mod Sent
pub mod Round
pub mod Delivered
pub mod Issuing
pub mod Signing
pub mod Race
pub mod Progress
use Prim.Native.String
use troofai_mvp.Prelude.{
  ℕ, ◌+◌, String, Bool, true, false, not, Option, none, some, List, [], ◌∷◌, ◌==◌, ltb,
  if◌then◌else◌,
}
use troofai_mvp.Prelude.Text.{join_lines}
use troofai_mvp.Schema.{
  Device, Meeting, MeetingParticipant, TrustStatus, verified, failed, Detail, text, flag, status,
}
use troofai_mvp.Platform.{Platform, ChallengePayload, StoredChallenge}
use troofai_mvp.Exec.{pure, ◌>>=◌, ◌>>◌}
use troofai_mvp.World.{
  Hub, truthy, now, random_uuid, random_base64, json_parse, redis_set, redis_get, redis_del,
  on_gateway, signature_valid, find_meeting, participants_of, update_participant,
}
use troofai_mvp.Gateway.{StatusUpdate, emit_challenge_to_device, emit_meeting_update}
use troofai_mvp.Policy.{PolicyInput, PolicyResult, evaluate}
use troofai_mvp.Audit.{AuditLogInput, log}
use troofai_mvp.Device.{find_by_id}

-- The Redis key of a challenge.
abbrev pub challenge_key : String → String
challenge_key id = String.◌++◌ "challenge:" id

pub data IssueStatus : Type 0 where
  not_bound : String → IssueStatus
  challenge_sent : String → IssueStatus

-- What `issueChallenge` reports of a participant: FAILED with a reason, or CHALLENGE_SENT with an id.
pub record IssueResult : Type 0 where
  pub participant_id : String
  pub display_name : String
  pub outcome : IssueStatus

pub record VerifyResult : Type 0 where
  pub valid : Bool
  pub status : TrustStatus
  pub reason : String

-- The text that the device signs.
unfoldable pub signed_material : StoredChallenge → String
unfolding join_lines
signed_material c = join_lines (
    "troofai-v1" ∷ c.payload.challenge_id ∷ c.tenant_id ∷ c.device_id ∷ c.user_id
    ∷ c.payload.meeting_id ∷ c.payload.participant_id ∷ c.payload.nonce ∷ c.payload.issued_at
    ∷ c.payload.expires_at ∷ [])

abbrev pub refused : String → VerifyResult
refused reason = record { valid = false; status = failed; reason = reason }

abbrev pub is_verified : TrustStatus → Bool
is_verified verified = true
is_verified _ = false

-- What `verifyResponse` writes of the participant, logs, and announces.
abbrev pub verdict_patch : PolicyResult → ℕ → MeetingParticipant → MeetingParticipant
verdict_patch policy challenged_at r = record r {
  trust_status = policy.status;
  status_reason = some policy.reason;
  last_challenge_at = some challenged_at;
}

abbrev pub verdict_event :
    String → String → StoredChallenge → Device → Bool → PolicyResult → AuditLogInput
verdict_event challenge_id device_id challenge device is_valid policy = record {
  tenant_id = challenge.tenant_id;
  meeting_id = some challenge.payload.meeting_id;
  event_type = if is_verified policy.status then "CHALLENGE_PASSED" else "CHALLENGE_FAILED";
  actor = challenge.user_id;
  details =
      ("challenge_id", text challenge_id)
      ∷ ("participant_id", text challenge.payload.participant_id)
      ∷ ("device_id", text device_id)
      ∷ ("status", status policy.status)
      ∷ ("reason", text policy.reason)
      ∷ ("hardware_bound", flag device.hardware_bound)
      ∷ ("signature_valid", flag is_valid)
      ∷ [];
}

abbrev pub verdict_update : StoredChallenge → PolicyResult → StatusUpdate
verdict_update challenge policy = record {
  meeting_id = none;
  participant_id = challenge.payload.participant_id;
  trust_status = policy.status;
  reason = policy.reason;
}

-- What `issueChallenge` writes of a participant without a device, logs, and announces.
abbrev pub unbound_patch : ℕ → MeetingParticipant → MeetingParticipant
unbound_patch t r = record r {
  trust_status = failed;
  status_reason = some "No device binding — cannot verify";
  last_challenge_at = some t;
}

abbrev pub unbound_event : String → Meeting → MeetingParticipant → AuditLogInput
unbound_event meeting_id meeting participant = record {
  tenant_id = meeting.tenant_id;
  meeting_id = some meeting_id;
  event_type = "CHALLENGE_NO_DEVICE";
  actor = participant.user_id;
  details =
      ("participant_id", text participant.id)
      ∷ ("display_name", text participant.display_name)
      ∷ ("reason", text "No device binding")
      ∷ [];
}

abbrev pub unbound_update : MeetingParticipant → StatusUpdate
unbound_update participant = record {
  meeting_id = none;
  participant_id = participant.id;
  trust_status = failed;
  reason = "No device binding — cannot verify";
}

-- What it logs of a challenge that it has sent.
abbrev pub sent_event : String → String → Meeting → MeetingParticipant → String → AuditLogInput
sent_event challenge_id meeting_id meeting participant device_id = record {
  tenant_id = meeting.tenant_id;
  meeting_id = some meeting_id;
  event_type = "CHALLENGE_ISSUED";
  actor = "system";
  details =
      ("challenge_id", text challenge_id)
      ∷ ("participant_id", text participant.id)
      ∷ ("display_name", text participant.display_name)
      ∷ ("device_id", text device_id)
      ∷ [];
}

-- What the policy engine is asked about a response.
abbrev pub policy_input : Device → Bool → Bool → PolicyInput
policy_input device is_valid is_expired = record {
  device = record {
    status = device.status;
    last_heartbeat = device.last_heartbeat;
    hardware_bound = device.hardware_bound;
  };
  signature_valid = is_valid;
  challenge_expired = is_expired;
  has_meeting_binding = true;
}

module _ (p : Platform) where
  -- `new Date() > new Date(iso)`, false for an invalid date
  abbrev pub is_after : ℕ → String → Bool
  is_after t iso = elim (p.from_iso iso) [ none ↦ false | some d ↦ ltb d t ]

  -- What goes to the device: it expires after 10 seconds.
  abbrev pub new_payload : String → String → String → String → ℕ → ℕ → ChallengePayload
  new_payload challenge_id nonce meeting_id participant_id issued expires = record {
    challenge_id = challenge_id;
    nonce = nonce;
    meeting_id = meeting_id;
    participant_id = participant_id;
    issued_at = p.to_iso issued;
    expires_at = p.to_iso (expires + 10000);
  }

  -- The branch of a participant without a device.
  unfoldable pub fail_unbound : String → Meeting → MeetingParticipant → Hub p IssueResult
  fail_unbound meeting_id meeting participant = do
    t ← now p
    update_participant p participant.id (unbound_patch t)
    log p (unbound_event meeting_id meeting participant)
    on_gateway p (emit_meeting_update meeting_id (unbound_update participant))
    pure (record {
      participant_id = participant.id;
      display_name = participant.display_name;
      outcome = not_bound "No device binding";
    })

  -- The branch of a participant that is bound to a device. Redis keeps the challenge 15 seconds.
  unfoldable pub send_challenge : String → Meeting → MeetingParticipant → String → Hub p IssueResult
  send_challenge meeting_id meeting participant device_id = do
    challenge_id ← random_uuid p
    nonce ← random_base64 p 32
    issued ← now p
    expires ← now p
    let payload = new_payload challenge_id nonce meeting_id participant.id issued expires
    redis_set p (challenge_key challenge_id)
        (p.challenge_json.stringify (record {
          payload = payload;
          tenant_id = meeting.tenant_id;
          device_id = device_id;
          user_id = participant.user_id;
        }))
        (some 15)
    on_gateway p (emit_challenge_to_device device_id payload)
    log p (sent_event challenge_id meeting_id meeting participant device_id)
    pure (record {
      participant_id = participant.id;
      display_name = participant.display_name;
      outcome = challenge_sent challenge_id;
    })

  -- One round of the loop: `!participant.deviceId || !participant.device`.
  unfoldable pub issue_one :
      String → Meeting → MeetingParticipant × Option Device → Hub p IssueResult
  issue_one meeting_id meeting (participant, device) = elim (truthy participant.device_id) [
    | none ↦ fail_unbound meeting_id meeting participant
    | some device_id ↦ elim device [
      | none ↦ fail_unbound meeting_id meeting participant
      | some _ ↦ send_challenge meeting_id meeting participant device_id
    ]
  ]

  unfoldable pub issue_all :
      String → Meeting → List (MeetingParticipant × Option Device) → Hub p (List IssueResult)
  issue_all meeting_id meeting [] = pure []
  issue_all meeting_id meeting (r ∷ rs) = do
    result ← issue_one meeting_id meeting r
    results ← issue_all meeting_id meeting rs
    pure (result ∷ results)

  unfoldable pub issue_challenge : String → Hub p (List IssueResult)
  issue_challenge meeting_id = do
    found ← find_meeting p meeting_id
    elim found [
      | none ↦ pure []
      | some meeting ↦ do
        participants ← participants_of p meeting_id
        issue_all meeting_id meeting participants
    ]

  -- Steps 9 to 11 of `verifyResponse`: the result is stored, logged, announced and returned.
  unfoldable pub settle :
      String → String → StoredChallenge → Device → Bool → PolicyResult → Hub p VerifyResult
  settle challenge_id device_id challenge device is_valid policy = do
    challenged_at ← now p
    update_participant p challenge.payload.participant_id (verdict_patch policy challenged_at)
    log p (verdict_event challenge_id device_id challenge device is_valid policy)
    on_gateway p
        (emit_meeting_update challenge.payload.meeting_id (verdict_update challenge policy))
    pure (record { valid = is_valid; status = policy.status; reason = policy.reason })

  -- Steps 6 to 8.
  unfoldable pub judge :
      String → String → String → StoredChallenge → Bool → Device → Hub p VerifyResult
  judge challenge_id device_id signature challenge is_expired device = do
    let is_valid = signature_valid p device.public_key_pem (signed_material challenge) signature
    redis_del p (challenge_key challenge_id)
    t ← now p
    settle challenge_id device_id challenge device is_valid
        (evaluate t (policy_input device is_valid is_expired))

  -- Steps 2 to 5.
  unfoldable pub check_device : String → String → String → StoredChallenge → Hub p VerifyResult
  check_device challenge_id device_id signature challenge = do
    t ← now p
    let is_expired = is_after t challenge.payload.expires_at
    if not (challenge.device_id == device_id) then pure (refused "Device ID mismatch") else do
      found ← find_by_id p device_id
      elim found [
        | none ↦ pure (refused "Device not found")
        | some device ↦ judge challenge_id device_id signature challenge is_expired device
      ]

  unfoldable pub verify_response : String → String → String → Hub p VerifyResult
  verify_response challenge_id device_id signature = do
    found ← redis_get p (challenge_key challenge_id)
    elim (truthy found) [
      | none ↦ pure (refused "Challenge expired or not found")
      | some json ↦ do
        challenge ← json_parse p p.challenge_json json
        check_device challenge_id device_id signature challenge
    ]
