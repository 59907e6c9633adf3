-- ===== src/Examples/Challenges.antt =====
-- Challenges of the small hub: one is sent, answered in time, answered by the wrong device, and
-- answered too late.
use Prim.Native.String
use troofai_mvp.Prelude.{
  suc, String, ◌≡◌, refl, none, some, true, false, List, [], ◌∷◌, arith, ◌==◌, ◌↔◌,
}
use troofai_mvp.Prelude.Text.{join_lines}
use troofai_mvp.Schema.{verified, failed}
use troofai_mvp.Platform.{StoredChallenge}
use troofai_mvp.Exec.{ok}
use troofai_mvp.World.{
  World, now, random_uuid, random_base64, redis_set, redis_get, redis_del, on_gateway, json_parse,
  find_device, find_meeting, participants_of, update_participant, create_audit_event,
}
use troofai_mvp.Device.{find_by_id}
use troofai_mvp.Gateway.{emit_challenge_to_device, emit_meeting_update}
use troofai_mvp.Policy.{evaluate}
use troofai_mvp.Policy.Rules.{
  spec_table, first_match, IsTrusted, evaluate-first_match, evaluate-eq-verified_iff,
}
use troofai_mvp.Audit.{log}
use troofai_mvp.Challenge.{
  VerifyResult, IssueResult, challenge_sent, not_bound, refused, signed_material, send_challenge,
  verify_response, check_device, judge, settle, issue_challenge, issue_all, issue_one, fail_unbound,
  policy_input,
}
use troofai_mvp.Challenge.Sent.{new_challenge}
use troofai_mvp.Challenge.Verdict.{Holds}
use troofai_mvp.Challenge.Soundness.{IsProven, verify_response_sound, verify_response_once}
use troofai_mvp.Challenge.Effects.{IsRecorded, verify_response_effect}
use troofai_mvp.Challenge.Honest.{CanRecord, verify_response_complete}
use troofai_mvp.Challenge.Race.{after_fetch, after_fetch_replayed}
use troofai_mvp.Challenge.Round.{round_verified, round_expired}
use troofai_mvp.Challenge.Delivered.{Reports}
use troofai_mvp.Challenge.Issuing.{UnboundFailed, attending, issue_challenge_ok}
use troofai_mvp.Memory.{memory, challenge_text, parse_challenge}
use troofai_mvp.Memory.Rows.{list_table, find, many, first, insert, change, without}
use troofai_mvp.Memory.Entries.{list_redis, get, del, live}
use troofai_mvp.Memory.Texts.{bits, value, bits_from, frame, unframe}
use troofai_mvp.Examples.{hub, laptop, phone, standup, ana}

unfoldable challenge : StoredChallenge
unfolding hub
challenge = new_challenge memory hub "standup" standup ana "laptop"

good_signature : String
good_signature = String.◌++◌ "pem" (signed_material challenge)

-- The state in which the challenge waits for its response.
waiting : World memory
waiting = (send_challenge memory "standup" standup ana "laptop" hub).1

abbrev issued : IssueResult
issued = record { participant_id = "ana"; display_name = "Ana"; outcome = challenge_sent "uuid" }

waiting-send_challenge :
    send_challenge memory "standup" standup ana "laptop" hub ≡ (ok issued, waiting)
unfolding waiting memory list_table list_redis find many first insert change without get live del
    bits value bits_from frame unframe challenge_text parse_challenge hub challenge signed_material
    join_lines send_challenge verify_response check_device judge settle evaluate log find_by_id now
    random_uuid random_base64 redis_set redis_get redis_del json_parse on_gateway find_device
    find_meeting participants_of update_participant create_audit_event issue_challenge issue_all
    issue_one fail_unbound emit_challenge_to_device emit_meeting_update
waiting-send_challenge = refl

waiting-Holds : Holds memory waiting "uuid" challenge
unfolding waiting memory list_table list_redis find many first insert change without get live del
    bits value bits_from frame unframe challenge_text parse_challenge hub challenge signed_material
    join_lines send_challenge verify_response check_device judge settle evaluate log find_by_id now
    random_uuid random_base64 redis_set redis_get redis_del json_parse on_gateway find_device
    find_meeting participants_of update_participant create_audit_event issue_challenge issue_all
    issue_one fail_unbound emit_challenge_to_device emit_meeting_update
waiting-Holds = record { json = challenge_text challenge; stored = refl; parsed = refl }

answered : World memory
answered = (verify_response memory "uuid" "laptop" good_signature waiting).1

abbrev trusted : VerifyResult
trusted = record {
  valid = true;
  status = verified;
  reason = "Enrolled device, valid signature, hardware-backed key";
}

answered-verify_response :
    verify_response memory "uuid" "laptop" good_signature waiting ≡ (ok trusted, answered)
unfolding answered good_signature waiting memory list_table list_redis find many first insert change
    without get live del bits value bits_from frame unframe challenge_text parse_challenge hub
    challenge signed_material join_lines send_challenge verify_response check_device judge settle
    evaluate log find_by_id now random_uuid random_base64 redis_set redis_get redis_del json_parse
    on_gateway find_device find_meeting participants_of update_participant create_audit_event
    issue_challenge issue_all issue_one fail_unbound emit_challenge_to_device emit_meeting_update
answered-verify_response = refl

waiting-find : memory.devices.find_unique "laptop" waiting.devices ≡ some laptop
unfolding waiting memory list_table list_redis find many first insert change without get live del
    bits value bits_from frame unframe challenge_text parse_challenge hub challenge signed_material
    join_lines send_challenge verify_response check_device judge settle evaluate log find_by_id now
    random_uuid random_base64 redis_set redis_get redis_del json_parse on_gateway find_device
    find_meeting participants_of update_participant create_audit_event issue_challenge issue_all
    issue_one fail_unbound emit_challenge_to_device emit_meeting_update
waiting-find = refl

waiting-CanRecord : CanRecord memory waiting challenge
unfolding waiting memory list_table list_redis find many first insert change without get live del
    bits value bits_from frame unframe challenge_text parse_challenge hub challenge signed_material
    join_lines send_challenge verify_response check_device judge settle evaluate log find_by_id now
    random_uuid random_base64 redis_set redis_get redis_del json_parse on_gateway find_device
    find_meeting participants_of update_participant create_audit_event issue_challenge issue_all
    issue_one fail_unbound emit_challenge_to_device emit_meeting_update
waiting-CanRecord = record {
  row = ana;
  present = refl;
  tenant_known = refl;
  meeting_known = refl;
  event_free = refl;
}

verify_response_sound_example : IsProven memory waiting "uuid" "laptop" good_signature
verify_response_sound_example =
    verify_response_sound memory "uuid" "laptop" good_signature waiting answered trusted
      answered-verify_response refl

addressed : (challenge.device_id == "laptop") ≡ true
unfolding challenge hub
addressed = refl

verify_response_once_example : verify_response memory "uuid" "phone" "again" answered ≡ (
  ok (refused "Challenge expired or not found"),
  record answered { readings = suc answered.readings },
)
unfolding answered
verify_response_once_example =
    verify_response_once memory "uuid" "laptop" good_signature "phone" "again" challenge laptop
      waiting waiting-Holds addressed waiting-find

verify_response_complete_example :
    (verify_response memory "uuid" "laptop" good_signature waiting).0 ≡ ok trusted
unfolding good_signature waiting memory list_table list_redis find many first insert change without
    get live del bits value bits_from frame unframe challenge_text parse_challenge hub challenge
    signed_material join_lines send_challenge verify_response check_device judge settle evaluate log
    find_by_id now random_uuid random_base64 redis_set redis_get redis_del json_parse on_gateway
    find_device find_meeting participants_of update_participant create_audit_event issue_challenge
    issue_all issue_one fail_unbound emit_challenge_to_device emit_meeting_update
verify_response_complete_example =
    verify_response_complete memory "uuid" "laptop" good_signature challenge laptop waiting
      waiting-Holds addressed waiting-find refl refl refl (omega arith) waiting-CanRecord

verify_response_effect_example : IsRecorded memory waiting answered challenge trusted
verify_response_effect_example =
    verify_response_effect memory "uuid" "laptop" good_signature challenge laptop waiting answered
      trusted waiting-Holds addressed waiting-find answered-verify_response

ghost_answered : World memory
ghost_answered = (verify_response memory "uuid" "ghost" good_signature waiting).1

ghost_answered-verify_response :
    verify_response memory "uuid" "ghost" good_signature waiting
    ≡ (ok (refused "Device ID mismatch"), ghost_answered)
unfolding ghost_answered waiting memory list_table list_redis find many first insert change without
    get live del bits value bits_from frame unframe challenge_text parse_challenge hub challenge
    signed_material join_lines send_challenge verify_response check_device judge settle evaluate log
    find_by_id now random_uuid random_base64 redis_set redis_get redis_del json_parse on_gateway
    find_device find_meeting participants_of update_participant create_audit_event issue_challenge
    issue_all issue_one fail_unbound emit_challenge_to_device emit_meeting_update
ghost_answered-verify_response = refl

ghost_missing : memory.devices.find_unique "ghost" waiting.devices ≡ none
unfolding waiting memory list_table list_redis find many first insert change without get live del
    bits value bits_from frame unframe challenge_text parse_challenge hub challenge signed_material
    join_lines send_challenge verify_response check_device judge settle evaluate log find_by_id now
    random_uuid random_base64 redis_set redis_get redis_del json_parse on_gateway find_device
    find_meeting participants_of update_participant create_audit_event issue_challenge issue_all
    issue_one fail_unbound emit_challenge_to_device emit_meeting_update
ghost_missing = refl

-- Six readings of the clock later.
soon : World memory
soon = record waiting { readings = 10 }

soon-CanRecord : CanRecord memory soon challenge
unfolding soon waiting memory list_table list_redis find many first insert change without get live
    del bits value bits_from frame unframe challenge_text parse_challenge hub challenge
    signed_material join_lines send_challenge verify_response check_device judge settle evaluate log
    find_by_id now random_uuid random_base64 redis_set redis_get redis_del json_parse on_gateway
    find_device find_meeting participants_of update_participant create_audit_event issue_challenge
    issue_all issue_one fail_unbound emit_challenge_to_device emit_meeting_update
soon-CanRecord = record {
  row = ana;
  present = refl;
  tenant_known = refl;
  meeting_known = refl;
  event_free = refl;
}

round_verified_example : (verify_response memory "uuid" "laptop" good_signature soon).0 ≡ ok trusted
unfolding soon good_signature waiting memory list_table list_redis find many first insert change
    without get live del bits value bits_from frame unframe challenge_text parse_challenge hub
    challenge signed_material join_lines send_challenge verify_response check_device judge settle
    evaluate log find_by_id now random_uuid random_base64 redis_set redis_get redis_del json_parse
    on_gateway find_device find_meeting participants_of update_participant create_audit_event
    issue_challenge issue_all issue_one fail_unbound emit_challenge_to_device emit_meeting_update
round_verified_example =
    round_verified memory "standup" standup ana "laptop" hub waiting soon issued
      waiting-send_challenge refl (omega arith) laptop good_signature (omega arith) refl refl
      (omega arith) refl soon-CanRecord

-- Twelve seconds later, when Redis still has the challenge.
late : World memory
late = record waiting { readings = 12000 }

late_answered : World memory
late_answered = (verify_response memory "uuid" "laptop" good_signature late).1

abbrev expired : VerifyResult
expired = record { valid = true; status = failed; reason = "Challenge response expired" }

late_answered-verify_response :
    verify_response memory "uuid" "laptop" good_signature late ≡ (ok expired, late_answered)
unfolding late late_answered good_signature waiting memory list_table list_redis find many first
    insert change without get live del bits value bits_from frame unframe challenge_text
    parse_challenge hub challenge signed_material join_lines send_challenge verify_response
    check_device judge settle evaluate log find_by_id now random_uuid random_base64 redis_set
    redis_get redis_del json_parse on_gateway find_device find_meeting participants_of
    update_participant create_audit_event issue_challenge issue_all issue_one fail_unbound
    emit_challenge_to_device emit_meeting_update
late_answered-verify_response = refl

round_expired_example : expired.status ≡ failed
unfolding late late_answered good_signature waiting memory list_table list_redis find many first
    insert change without get live del bits value bits_from frame unframe challenge_text
    parse_challenge hub challenge signed_material join_lines send_challenge verify_response
    check_device judge settle evaluate log find_by_id now random_uuid random_base64 redis_set
    redis_get redis_del json_parse on_gateway find_device find_meeting participants_of
    update_participant create_audit_event issue_challenge issue_all issue_one fail_unbound
    emit_challenge_to_device emit_meeting_update
round_expired_example =
    round_expired memory "standup" standup ana "laptop" hub waiting late issued
      waiting-send_challenge refl (omega arith) "laptop" good_signature late_answered expired
      (omega arith) late_answered-verify_response

after_issuing : World memory
after_issuing = (issue_challenge memory "standup" hub).1

abbrev results : List IssueResult
results =
    issued
    ∷ record {
      participant_id = "ben";
      display_name = "Ben";
      outcome = not_bound "No device binding";
    }
    ∷ []

after_issuing-issue_challenge : issue_challenge memory "standup" hub ≡ (ok results, after_issuing)
unfolding after_issuing memory list_table list_redis find many first insert change without get live
    del bits value bits_from frame unframe challenge_text parse_challenge hub challenge
    signed_material join_lines send_challenge verify_response check_device judge settle evaluate log
    find_by_id now random_uuid random_base64 redis_set redis_get redis_del json_parse on_gateway
    find_device find_meeting participants_of update_participant create_audit_event issue_challenge
    issue_all issue_one fail_unbound emit_challenge_to_device emit_meeting_update
after_issuing-issue_challenge = refl

hub-find_meeting : memory.meetings.find_unique "standup" hub.meetings ≡ some standup
unfolding memory list_table find hub
hub-find_meeting = refl

issue_challenge_ok_example :
    Reports hub.gateway after_issuing.gateway "standup" (attending memory hub "standup") results
    × UnboundFailed memory after_issuing (attending memory hub "standup")
issue_challenge_ok_example =
    issue_challenge_ok memory "standup" standup hub after_issuing results hub-find_meeting
      after_issuing-issue_challenge

-- Two calls have fetched the challenge, and the first has been judged.
raced : World memory
raced =
    (after_fetch memory "uuid" "laptop" good_signature (some (challenge_text challenge))
      (record waiting { readings = 6 })).1

raced-CanRecord : CanRecord memory raced challenge
unfolding raced good_signature waiting memory list_table list_redis find many first insert change
    without get live del bits value bits_from frame unframe challenge_text parse_challenge hub
    challenge signed_material join_lines send_challenge verify_response check_device judge settle
    evaluate log find_by_id now random_uuid random_base64 redis_set redis_get redis_del json_parse
    on_gateway find_device find_meeting participants_of update_participant create_audit_event
    issue_challenge issue_all issue_one fail_unbound emit_challenge_to_device emit_meeting_update
    after_fetch
raced-CanRecord = record {
  row = record ana {
    trust_status = verified;
    status_reason = some "Enrolled device, valid signature, hardware-backed key";
    last_challenge_at = some 1000008;
  };
  present = refl;
  tenant_known = refl;
  meeting_known = refl;
  event_free = refl;
}

after_fetch_replayed_example :
    (after_fetch memory "uuid" "laptop" good_signature (some (challenge_text challenge)) raced).0
    ≡ ok trusted
unfolding raced good_signature waiting memory list_table list_redis find many first insert change
    without get live del bits value bits_from frame unframe challenge_text parse_challenge hub
    challenge signed_material join_lines send_challenge verify_response check_device judge settle
    evaluate log find_by_id now random_uuid random_base64 redis_set redis_get redis_del json_parse
    on_gateway find_device find_meeting participants_of update_participant create_audit_event
    issue_challenge issue_all issue_one fail_unbound emit_challenge_to_device emit_meeting_update
    after_fetch
after_fetch_replayed_example =
    after_fetch_replayed memory "uuid" "laptop" good_signature (some (challenge_text challenge))
      (challenge_text challenge) challenge laptop raced refl refl refl addressed refl refl refl refl
      (omega arith) raced-CanRecord

evaluate-first_match_example :
    (evaluate 1000000 (policy_input phone true false)).status
    ≡ first_match spec_table 1000000 (policy_input phone true false)
evaluate-first_match_example = evaluate-first_match 1000000 (policy_input phone true false)

evaluate-eq-verified_iff_example :
    ((evaluate 1000000 (policy_input laptop true false)).status ≡ verified)
    ↔ IsTrusted 1000000 (policy_input laptop true false)
evaluate-eq-verified_iff_example = evaluate-eq-verified_iff 1000000 (policy_input laptop true false)
