-- ===== src/Meeting/Replays.antt =====
-- Two bindings with one join token (services/hub-api/src/meeting/meeting.service.ts), one of which
-- overtakes the other.
use troofai_mvp.Prelude.{String, ◌≡◌, ◌∙◌, ap, true, Option, none, some, arith, ◌==◌}
use troofai_mvp.Schema.{Device, Meeting, MeetingParticipant}
use troofai_mvp.Platform.{Platform, StoredToken}
use troofai_mvp.Exec.{Result, ok}
use troofai_mvp.World.{World, truthy, has_tenant, signature_valid, json_parse, find_device}
use troofai_mvp.Meeting.{token_key, bind_material, complete_binding}
use troofai_mvp.Meeting.Race.{after_token}
use troofai_mvp.Meeting.Binding.{bound_row, bound_patch_lem}
use troofai_mvp.Meeting.Guarantees.{complete_binding_runs}

module _ (p : Platform) (mid tok dev sig : String) where
  after_token-complete_binding :
      (stored : Option String) (json : String) (token : StoredToken) (d : Device) (v : World p)
      → truthy stored ≡ some json
      → p.token_json.parse json ≡ some token
      → (token.meeting_id == mid) ≡ true
      → p.devices.find_unique dev v.devices ≡ some d
      → signature_valid p d.public_key_pem
          (bind_material tok mid token.participant_id dev token.expires_at)
          sig
        ≡ true
      → after_token p mid tok dev sig stored v ≡ complete_binding p mid tok token d dev v
  unfolding after_token json_parse find_device
  after_token-complete_binding stored json token d v fetched parsed same there signed =
      ground (arith, fetched, parsed, same, there, signed)

  -- The deletion of a join token does not stop a binding that has fetched it before: if Redis answered a
  -- call with the token, and the call goes on in a state in which Redis holds the token no longer
  -- (another binding with it, perhaps of another device, has been completed in between), then it binds
  -- its own device all the same: the participant's row, as it is by then, is returned as VERIFIED with
  -- that device, the time and the reason, its other fields as they were. The token is for the meeting, the device is enrolled and its key verifies the signature
  -- of the binding, the participant, the meeting and its tenant are in the database and the id of
  -- the event is free.
  pub after_token_replayed :
      (stored : Option String) (json : String) (token : StoredToken) (d : Device)
      (row : MeetingParticipant) (m : Meeting) (v : World p)
      → truthy stored ≡ some json
      → p.token_json.parse json ≡ some token
      → p.redis.get (p.clock v.readings) (token_key tok) v.redis ≡ none
      → (token.meeting_id == mid) ≡ true
      → p.devices.find_unique dev v.devices ≡ some d
      → signature_valid p d.public_key_pem
          (bind_material tok mid token.participant_id dev token.expires_at)
          sig
        ≡ true
      → p.participants.find_unique token.participant_id v.participants ≡ some row
      → p.meetings.find_unique mid v.meetings ≡ some m
      → has_tenant p v m.tenant_id ≡ true
      → p.audit_events.find_unique (p.uuid v.draws) v.audit_events ≡ none
      → (after_token p mid tok dev sig stored v).0
        ≡ ok (bound_row row dev d.hardware_bound (p.clock v.readings))
  after_token_replayed stored json token d row m v fetched parsed gone same there signed present
        held tenant free =
      ap (λ (q : Result MeetingParticipant × World p). q.0)
        (after_token-complete_binding stored json token d v fetched parsed same there signed)
      ∙ complete_binding_runs p mid tok dev sig token d row m v present held tenant free
      ∙ ap ok (bound_patch_lem d dev (p.clock v.readings) row)
