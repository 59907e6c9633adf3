-- ===== src/Examples/Agents.antt =====
-- An agent that starts on a hub that runs, is bound to a participant of a meeting, and is challenged.
use Prim.Native.Char.{Char}
use Prim.Native.String
use text.Mathlib.TextLemmas.{append_cancel_left}
use troofai_mvp.Prelude.{
  String, ◌≡◌, refl, sym, none, some, true, false, [], ◌∷◌, ◌++◌, arith, ◌==◌, ==_of_ne, eq_refl,
  eq_iff, Bool, if◌then◌else◌,
}
use troofai_mvp.Prelude.Text.{join_lines}
use troofai_mvp.Schema.{Tenant, Device, Meeting, MeetingParticipant, unknown, verified}
use troofai_mvp.Exec.{ok}
use troofai_mvp.Gateway.{challenge_issue, emit, emit_challenge_to_device, emit_meeting_update}
use troofai_mvp.World.{
  World, now, random_uuid, random_base64, redis_set, redis_get, redis_del, on_gateway, json_parse,
  find_device, find_participant, update_participant, create_device, create_audit_event,
}
use troofai_mvp.Device as D
use troofai_mvp.Collections as C
use troofai_mvp.Platform.{ChallengePayload, StoredChallenge}
use troofai_mvp.Challenge.Sent.{new_challenge}
use troofai_mvp.Challenge.Honest.{CanRecord}
use troofai_mvp.Challenge.{VerifyResult}
use troofai_mvp.Events.{result}
use troofai_mvp.Policy.{evaluate}
use troofai_mvp.Audit.{log}
use troofai_mvp.Meeting.{JoinToken, issue_join_token, bind_device, bound_patch}
use troofai_mvp.Challenge.{
  IssueResult, challenge_sent, signed_material, send_challenge, verify_response, check_device,
  judge, settle,
}
use troofai_mvp.Api.{BindDeviceDto, answer_device}
use troofai_mvp.Api.Requests.{SocketEvent, challenge_result, serve, answer_socket}
use troofai_mvp.ZoomMeeting.{signed}
use troofai_mvp.Agent.{
  Rsa, KeyStore, Agent, DeviceConfig, running, initialize, main, enroll_async, enrollment,
  handle_bind, on_challenge, binding_material, challenge_material,
}
use troofai_mvp.Agent.Keys.{IsKnown, IsRunning, initialize_again, main_running}
use troofai_mvp.Agent.Rounds.{Accepts, Commits, agent_verified, agent_foreign}
use troofai_mvp.Meeting.Tokens.{new_token}
use troofai_mvp.Agent.Bindings.{agent_bound}
use troofai_mvp.Memory.{memory, token_text, parse_token, challenge_text, parse_challenge}
use troofai_mvp.Memory.Rows.{list_table, find, many, first, insert, change, without}
use troofai_mvp.Memory.Entries.{list_redis, get, del, live}
use troofai_mvp.Memory.Texts.{bits, value, bits_from, frame, unframe}

abbrev mark : Char
mark = "p"

-- The toy signature of the platform that runs, with texts as keys.
unfoldable toy : Rsa
toy = record {
  Key = String;
  public_key_pem = λ k. String.◌∷◌ mark k;
  sign = λ k text. String.◌++◌ (String.◌∷◌ mark k) text;
}

pem_nonempty : (k : String) → (String.◌∷◌ mark k == "") ≡ false
pem_nonempty k = ==_of_ne _ _ (λ e. cc e)

toy-Accepts : Accepts toy memory
unfolding toy memory
toy-Accepts k text = rw (pem_nonempty k, eq_refl (String.◌++◌ (String.◌∷◌ mark k) text)) refl

checked : (b c : Bool) → b ≡ false → (if b then none else some c) ≡ some true → c ≡ true
checked true c h e = ground arith
checked false c h e = ground arith

toy-Commits : Commits toy memory
unfolding toy memory
toy-Commits k text other e = sym (
    append_cancel_left (String.◌∷◌ mark k) text other
      ((eq_iff _ _).0 (checked _ _ (pem_nonempty k) e)))

abbrev store : KeyStore toy
unfolding toy bits
store = record { tpm = none; software = none; has_tpm = true; made = 0; next = λ n. bits n }

initialize_again_example : initialize toy (initialize toy store).1 ≡ initialize toy store
unfolding toy initialize store
initialize_again_example = initialize_again toy store

abbrev acme : Tenant
acme = record { id = "acme"; name = "Acme"; api_key = "key"; created_at = 0 }

abbrev weekly : Meeting
weekly = record {
  id = "weekly-1";
  tenant_id = "acme";
  name = "Weekly";
  created_at = 0;
  ended_at = none;
}

abbrev alice : MeetingParticipant
alice = record {
  id = "alice-at-weekly";
  meeting_id = "weekly-1";
  user_id = "alice@troofai.com";
  device_id = none;
  display_name = "Alice Baker";
  trust_status = unknown;
  status_reason = none;
  joined_at = 0;
  bound_at = none;
  last_challenge_at = none;
}

unfoldable office : World memory
unfolding memory list_table list_redis
office = record {
  tenants = acme ∷ [];
  devices = [];
  meetings = weekly ∷ [];
  participants = alice ∷ [];
  audit_events = [];
  redis = [];
  gateway = record {
    device_sockets = ("guid-0001", "socket1") ∷ [];
    meeting_sockets = [];
    has_server = true;
    has_challenge_service = true;
    outbox = [];
  };
  readings = 0;
  draws = 8;
}

abbrev agent : Agent toy
unfolding toy
agent = record {
  key = "";
  hardware_bound = true;
  device_id = "guid-0001";
  tenant_id = "acme";
  user_id = "alice@troofai.com";
}

abbrev file : DeviceConfig
file = record { device_id = "guid-0001"; tenant_id = "acme"; user_id = "alice@troofai.com" }

abbrev kept : KeyStore toy
unfolding toy bits
kept = record { tpm = some ""; software = none; has_tpm = true; made = 1; next = λ n. bits n }

unfoldable started : World memory
unfolding main
started = (main toy memory store none "acme" "guid-0001" office).1.1

started-main :
    main toy memory store none "acme" "guid-0001" office ≡ (running agent file, (kept, started))
unfolding started main enroll_async initialize toy memory list_table list_redis find many first
    insert change without bits bits_from office serve answer_device D.enroll D.enroll_new log now
    random_uuid find_device create_device create_audit_event
started-main = refl

main_running_example : IsRunning toy memory store none agent file kept started
main_running_example =
    main_running toy memory store none "acme" "guid-0001" office started agent file kept
      started-main

-- A page asks for a token for Alice, and hands it to the agent.
with_token : World memory
with_token = (issue_join_token memory "weekly-1" "alice-at-weekly" started).1

abbrev token : JoinToken
token = new_token memory "weekly-1" "alice-at-weekly" started

abbrev answer : BindDeviceDto
answer = record {
  join_token = token.join_token;
  device_id = "guid-0001";
  signature = toy.sign agent.key (binding_material toy agent token);
}

with_token-issue_join_token :
    issue_join_token memory "weekly-1" "alice-at-weekly" started ≡ (ok token, with_token)
unfolding started with_token main enroll_async initialize toy memory list_table list_redis find many
    first insert change without get del live bits bits_from frame unframe token_text parse_token
    office serve answer_device D.enroll D.enroll_new log now random_uuid find_device create_device
    create_audit_event issue_join_token redis_set find_participant
with_token-issue_join_token = refl

abbrev macbook : Device
macbook = D.new_device (enrollment toy agent "Alice Baker") 1000000 1000001

with_token-IsKnown : IsKnown toy memory agent with_token
unfolding started with_token main enroll_async initialize toy memory list_table list_redis find many
    first insert change without get del live bits bits_from frame unframe token_text parse_token
    office serve answer_device D.enroll D.enroll_new log now random_uuid find_device create_device
    create_audit_event issue_join_token redis_set find_participant
with_token-IsKnown = record {
  row = macbook;
  enrolled = refl;
  on_duty = refl;
  same_key = refl;
  same_flag = refl;
}

answer-handle_bind : handle_bind toy agent (some token) ≡ signed answer
unfolding handle_bind agent toy
answer-handle_bind = refl

agent_bound_example :
    (bind_device memory "weekly-1" token.join_token "guid-0001" answer.signature with_token).0
    ≡ ok (bound_patch macbook "guid-0001" 1000006 alice)
unfolding bind_device with_token-IsKnown agent started with_token main enroll_async initialize toy
    memory list_table list_redis find many first insert change without get del live bits bits_from
    frame unframe token_text parse_token office serve answer_device D.enroll D.enroll_new log now
    random_uuid find_device create_device create_audit_event issue_join_token redis_set
    find_participant
agent_bound_example =
    agent_bound toy memory agent "weekly-1" "alice-at-weekly" started with_token with_token token
      answer alice weekly toy-Accepts with_token-issue_join_token refl (omega arith)
      with_token-IsKnown answer-handle_bind (omega arith) refl refl refl refl

-- The meeting is challenged when Alice is bound, and the agent answers.
abbrev challenge : StoredChallenge
challenge = new_challenge memory started "weekly-1" weekly alice "guid-0001"

challenged : World memory
challenged = (send_challenge memory "weekly-1" weekly alice "guid-0001" started).1

abbrev issued : IssueResult
issued = record {
  participant_id = "alice-at-weekly";
  display_name = "Alice Baker";
  outcome = challenge_sent challenge.payload.challenge_id;
}

challenged-send_challenge :
    send_challenge memory "weekly-1" weekly alice "guid-0001" started ≡ (ok issued, challenged)
unfolding challenged send_challenge random_base64 on_gateway started main enroll_async initialize
    toy memory list_table list_redis find many first insert change without get live del bits
    bits_from frame unframe challenge_text parse_challenge office serve answer_device D.enroll
    D.enroll_new log now random_uuid find_device create_device create_audit_event redis_set
    emit_challenge_to_device
challenged-send_challenge = refl

challenged-IsKnown : IsKnown toy memory agent challenged
unfolding challenged send_challenge random_base64 on_gateway started main enroll_async initialize
    toy memory list_table list_redis find many first insert change without get live del bits
    bits_from frame unframe challenge_text parse_challenge office serve answer_device D.enroll
    D.enroll_new log now random_uuid find_device create_device create_audit_event redis_set
    emit_challenge_to_device
challenged-IsKnown = record {
  row = macbook;
  enrolled = refl;
  on_duty = refl;
  same_key = refl;
  same_flag = refl;
}

challenged-CanRecord : CanRecord memory challenged challenge
unfolding challenged send_challenge random_base64 on_gateway started main enroll_async initialize
    toy memory list_table list_redis find many first insert change without get live del bits
    bits_from frame unframe challenge_text parse_challenge office serve answer_device D.enroll
    D.enroll_new log now random_uuid find_device create_device create_audit_event redis_set
    emit_challenge_to_device
challenged-CanRecord = record {
  row = alice;
  present = refl;
  tenant_known = refl;
  meeting_known = refl;
  event_free = refl;
}

abbrev trusted : VerifyResult
trusted = record {
  valid = true;
  status = verified;
  reason = "Enrolled device, valid signature, hardware-backed key";
}

challenged_ready : challenged.gateway.has_challenge_service ≡ true
unfolding C.get challenged send_challenge random_base64 on_gateway started main enroll_async
    initialize toy memory list_table list_redis find many first insert change without get live del
    bits bits_from frame unframe challenge_text parse_challenge office serve answer_device D.enroll
    D.enroll_new log now random_uuid find_device create_device create_audit_event redis_set
    emit_challenge_to_device
challenged_ready = refl

agent_verified_example :
    (y : ChallengePayload) × (e : SocketEvent) × (challenged.gateway.outbox
      ≡ started.gateway.outbox ++ (emit (some "socket1") (challenge_issue y) ∷ []))
    × (on_challenge toy agent y ≡ some e)
    × ((answer_socket memory e challenged).0 ≡ ok (challenge_result (result trusted)))
unfolding C.get agent challenged-IsKnown challenged send_challenge random_base64 on_gateway started
    main enroll_async initialize toy memory list_table list_redis find many first insert change
    without get live del bits bits_from frame unframe challenge_text parse_challenge office serve
    answer_device D.enroll D.enroll_new log now random_uuid find_device create_device
    create_audit_event redis_set emit_challenge_to_device
agent_verified_example =
    agent_verified toy memory agent "weekly-1" weekly alice started challenged challenged issued
      challenged-send_challenge refl (omega arith) challenged-IsKnown "socket1" toy-Accepts refl
      refl refl refl refl refl challenged_ready (omega arith) (omega arith) challenged-CanRecord

abbrev signature : String
signature = toy.sign agent.key (challenge_material toy agent challenge.payload)

answered : World memory
answered =
    (verify_response memory challenge.payload.challenge_id "guid-0001" signature challenged).1

answered-verify_response :
    verify_response memory challenge.payload.challenge_id "guid-0001" signature challenged
    ≡ (ok trusted, answered)
unfolding answered agent challenged send_challenge random_base64 on_gateway started main
    enroll_async initialize toy memory list_table list_redis find many first insert change without
    get live del bits bits_from value frame unframe challenge_text parse_challenge office serve
    answer_device D.enroll D.enroll_new log now random_uuid find_device create_device
    create_audit_event redis_set emit_challenge_to_device verify_response check_device judge settle
    evaluate D.find_by_id redis_get redis_del json_parse update_participant emit_meeting_update
    challenge_material signed_material join_lines
answered-verify_response = refl

agent_foreign_example : (weekly.tenant_id ≡ agent.tenant_id) × (alice.user_id ≡ agent.user_id)
unfolding agent challenged-IsKnown toy started main enroll_async initialize memory list_table
    list_redis find many first insert change without bits bits_from office serve answer_device
    D.enroll D.enroll_new log now random_uuid find_device create_device create_audit_event
agent_foreign_example =
    agent_foreign toy memory agent "weekly-1" weekly alice started challenged challenged issued
      challenged-send_challenge refl (omega arith) challenged-IsKnown trusted answered toy-Commits
      (ground arith) (ground arith) answered-verify_response refl
