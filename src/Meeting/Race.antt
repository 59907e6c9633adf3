-- ===== src/Meeting/Race.antt =====
-- `bindDevice` of services/hub-api/src/meeting/meeting.service.ts cut at its first await, for other
-- requests to be served in between.
use troofai_mvp.Prelude.{String, ◌≡◌, refl, Option, ◌==◌}
use troofai_mvp.Schema.{MeetingParticipant}
use troofai_mvp.Platform.{Platform}
use troofai_mvp.Exec.{bad_request, or_throw, ◌>>=◌, ◌>>◌}
use troofai_mvp.World.{Hub, World, truthy, json_parse, redis_get, find_device, signature_valid}
use troofai_mvp.Meeting.{token_key, bind_material, require, complete_binding, bind_device}

module _ (p : Platform) where
  -- The rest of `bindDevice` once Redis has answered.
  unfoldable pub after_token :
      String → String → String → String → Option String → Hub p MeetingParticipant
  after_token meeting_id join_token device_id signature stored = do
    json ← or_throw (bad_request "Join token expired or invalid") (truthy stored)
    token ← json_parse p p.token_json json
    require p (token.meeting_id == meeting_id) (bad_request "Meeting ID mismatch")
    found ← find_device p device_id
    device ← or_throw (bad_request "Device not found — not enrolled") found
    let material =
        bind_material join_token meeting_id token.participant_id device_id token.expires_at
    require p (signature_valid p device.public_key_pem material signature)
        (bad_request "Invalid binding signature")
    complete_binding p meeting_id join_token token device device_id

  bind_device-after_token :
      (mid tok dev sig : String) (w : World p)
      → bind_device p mid tok dev sig w
        ≡ (redis_get p (token_key tok) >>= after_token mid tok dev sig) w
  unfolding bind_device after_token
  bind_device-after_token mid tok dev sig w = refl
