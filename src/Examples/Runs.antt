-- ===== src/Examples/Runs.antt =====
-- A run of a hub that starts with nothing: from the first tenant to a participant that is bound.
use Prim.Native.String
use troofai_mvp.Prelude.{String, ◌≡◌, refl, none, some, true, [], ◌∷◌}
use troofai_mvp.Prelude.Text.{join_lines}
use troofai_mvp.Schema.{Meeting, MeetingParticipant, AuditEvent, text, verified}
use troofai_mvp.Exec.{ok}
use troofai_mvp.World.{
  World, now, random_uuid, random_hex, redis_set, redis_get, redis_del, json_parse, find_device,
  find_meeting, find_participant, find_tenant_by_name, create_tenant, create_device, create_meeting,
  create_participant, create_audit_event, update_participant,
}
use troofai_mvp.Api.Requests.{tenant_shown}
use troofai_mvp.HubPages.{fetch_audit}
use troofai_mvp.HubPages.Trail.{IsOfMeeting, fetch_audit_shown}
use troofai_mvp.Platform.Order.{desc, IsOrdered}
use troofai_mvp.Prelude.{All}
use troofai_mvp.Auth.{DemoTenant, get_demo_tenant, ensure_demo_tenant, new_demo_tenant}
use troofai_mvp.Device.{enroll, enroll_new}
use troofai_mvp.Audit.{log}
use troofai_mvp.Meeting.{
  bind_material, create, add_participant, issue_join_token, bind_device, complete_binding,
}
use troofai_mvp.Api.{
  BindDeviceDto, create_request, join_request, token_request, bind_request, enroll_request,
  answer_meeting, answer_device,
}
use troofai_mvp.Api.Requests.{demo_tenant, meetings, devices, Reachable, here, served, serve}
use troofai_mvp.Api.Reachable.{IsFresh}
use troofai_mvp.Memory.{memory, token_text, parse_token}
use troofai_mvp.Memory.Rows.{list_table, find, many, first, insert, change, without}
use troofai_mvp.Collections.Sorting.{in_order, place}
use troofai_mvp.Memory.Texts.{bits, value, bits_from, frame, unframe}
use troofai_mvp.Memory.Entries.{list_redis, get, del, live}

unfoldable pub fresh : World memory
unfolding memory list_table list_redis
fresh = record {
  tenants = [];
  devices = [];
  meetings = [];
  participants = [];
  audit_events = [];
  redis = [];
  gateway = record {
    device_sockets = [];
    meeting_sockets = [];
    has_server = true;
    has_challenge_service = true;
    outbox = [];
  };
  readings = 0;
  draws = 0;
}

unfoldable pub state1 : World memory
state1 = (serve memory demo_tenant fresh).1

unfoldable pub state2 : World memory
state2 =
    (serve memory
      (devices (
        enroll_request (record {
          tenant_id = "uuid1";
          device_id = "laptop";
          user_id = "ana";
          display_name = "Laptop";
          public_key_pem = "pem";
          key_algorithm = none;
          hardware_bound = some true;
        })))
      state1).1

unfoldable pub state3 : World memory
state3 =
    (serve memory (meetings (create_request (record { tenant_id = "uuid1"; name = "Standup" })))
      state2).1

unfoldable pub state4 : World memory
state4 =
    (serve memory
      (meetings (join_request "uuid11" (record { user_id = "ana"; display_name = "Ana" })))
      state3).1

unfoldable pub state5 : World memory
state5 =
    (serve memory (meetings (token_request "uuid11" (record { participant_id = "uuid101" })))
      state4).1

abbrev pub token_deadline : String
token_deadline = memory.to_iso 1030008

abbrev pub binding : BindDeviceDto
binding = record {
  join_token = "uuid111";
  device_id = "laptop";
  signature =
      String.◌++◌ "pem" (bind_material "uuid111" "uuid11" "uuid101" "laptop" token_deadline);
}

unfoldable pub state6 : World memory
state6 = (serve memory (meetings (bind_request "uuid11" binding)) state5).1

pub fresh-IsFresh : IsFresh memory fresh
unfolding fresh memory list_table list_redis find get
fresh-IsFresh = record {
  devices = λ k. refl;
  meetings = λ k. refl;
  participants = λ k. refl;
  events = λ k. refl;
  redis = λ t k. refl;
}

-- The meeting is held, and one more request has bound the participant.
pub state3-Reachable : Reachable memory fresh state3
unfolding state3 state2 state1
state3-Reachable = served _ _ _ (served _ _ _ (served _ _ _ (here fresh)))

abbrev pub member : MeetingParticipant
member = record {
  id = "uuid101";
  meeting_id = "uuid11";
  user_id = "ana";
  device_id = some "laptop";
  display_name = "Ana";
  trust_status = verified;
  status_reason = some "Device bound and enrolled (hardware-backed)";
  joined_at = 1000006;
  bound_at = some 1000011;
  last_challenge_at = none;
}

pub state6_member : memory.participants.find_unique "uuid101" state6.participants ≡ some member
unfolding state6 state5 state4 state3 state2 state1 fresh memory list_table list_redis find many
    first insert change without in_order place get live del bits value bits_from frame unframe
    token_text parse_token join_lines bind_material serve answer_meeting answer_device
    get_demo_tenant ensure_demo_tenant new_demo_tenant enroll enroll_new create add_participant
    issue_join_token bind_device complete_binding log now random_uuid random_hex redis_set redis_get
    redis_del json_parse find_device find_meeting find_participant find_tenant_by_name create_tenant
    create_device create_meeting create_participant create_audit_event update_participant
state6_member = refl

abbrev pub held_meeting : Meeting
held_meeting = record {
  id = "uuid11";
  tenant_id = "uuid1";
  name = "Standup";
  created_at = 1000004;
  ended_at = none;
}

pub state3_meeting : memory.meetings.find_unique "uuid11" state3.meetings ≡ some held_meeting
unfolding state3 state2 state1 fresh memory list_table list_redis find many first insert change
    without in_order place bits bits_from serve answer_meeting answer_device get_demo_tenant
    ensure_demo_tenant new_demo_tenant enroll enroll_new create log now random_uuid random_hex
    find_device find_tenant_by_name create_tenant create_device create_meeting create_audit_event
state3_meeting = refl

pub opening : AuditEvent
opening = record {
  id = "uuid001";
  tenant_id = "uuid1";
  meeting_id = some "uuid11";
  event_type = "MEETING_CREATED";
  actor = "system";
  details = ("name", text "Standup") ∷ [];
  created_at = 1000005;
}

pub state3_event : memory.audit_events.find_unique "uuid001" state3.audit_events ≡ some opening
unfolding opening state3 state2 state1 fresh memory list_table list_redis find many first insert
    change without in_order place bits bits_from serve answer_meeting answer_device get_demo_tenant
    ensure_demo_tenant new_demo_tenant enroll enroll_new create log now random_uuid random_hex
    find_device find_tenant_by_name create_tenant create_device create_meeting create_audit_event
state3_event = refl

pub opening_meeting : opening.meeting_id ≡ some "uuid11"
unfolding opening
opening_meeting = refl

abbrev demo : DemoTenant
demo = record { tenant_id = "uuid1"; name = "TroofAI Demo"; api_key = "troofai-demo-hex" }

-- A hub with one meeting, whose opening is in the log beside an enrollment.
unfoldable held : World memory
unfolding memory list_table list_redis fresh opening
held = record fresh {
  tenants =
      (record {
        id = "uuid1";
        name = "TroofAI Demo";
        api_key = "troofai-demo-hex";
        created_at = 1000000;
      })
      ∷ [];
  meetings = held_meeting ∷ [];
  audit_events = opening ∷ (record opening { id = "uuid01"; meeting_id = none }) ∷ [];
}

held_tenant : serve memory demo_tenant held ≡ (ok (tenant_shown demo), held)
unfolding held memory list_table list_redis many first without serve get_demo_tenant
    ensure_demo_tenant find_tenant_by_name
held_tenant = refl

fetch_audit_shown_example :
    IsOrdered desc (λ e. e.created_at) (fetch_audit memory [] held).0.rows
    × All (IsOfMeeting memory held) (fetch_audit memory [] held).0.rows
fetch_audit_shown_example = fetch_audit_shown memory [] held held demo held_tenant
