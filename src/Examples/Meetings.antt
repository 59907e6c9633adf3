-- ===== src/Examples/Meetings.antt =====
-- Join tokens of the small hub: one is issued and bound, one is bound by a revoked device, and one
-- is issued for a meeting that does not exist.
use Prim.Native.String
use troofai_mvp.Prelude.{suc, String, ◌≡◌, refl, some, arith}
use troofai_mvp.Prelude.Text.{join_lines}
use troofai_mvp.Schema.{Device, MeetingParticipant}
use troofai_mvp.Platform.{StoredToken}
use troofai_mvp.Exec.{ok, thrown, bad_request, type_error}
use troofai_mvp.World.{
  World, now, random_uuid, redis_set, redis_get, redis_del, json_parse, find_device, find_meeting,
  find_participant, update_participant, create_audit_event,
}
use troofai_mvp.Audit.{log}
use troofai_mvp.Meeting.{
  JoinToken, bind_material, bound_patch, token_key, issue_join_token, complete_binding, bind_device,
}
use troofai_mvp.Meeting.Race.{after_token}
use troofai_mvp.Meeting.Replays.{after_token_replayed}
use troofai_mvp.Meeting.Binding.{IsAccepted, IsBoundBy}
use troofai_mvp.Meeting.Guarantees.{
  bind_device_sound, bind_device_once, bind_device_complete, bind_device_partial,
}
use troofai_mvp.Meeting.Tokens.{new_token, issue_join_token_expired}
use troofai_mvp.Memory.{memory, token_text, parse_token}
use troofai_mvp.Memory.Rows.{list_table, find, many, first, insert, change, without}
use troofai_mvp.Memory.Entries.{list_redis, get, del, live}
use troofai_mvp.Memory.Texts.{bits, value, bits_from, frame, unframe}
use troofai_mvp.Examples.{hub, laptop, phone, standup, ben}

-- What Redis holds of a token for Ben in the stand-up meeting, and in one that does not exist.
abbrev token : StoredToken
token = record {
  meeting_id = "standup";
  participant_id = "ben";
  expires_at = "00001110111011011111";
}

abbrev stray_token : StoredToken
stray_token = record token { meeting_id = "retro" }

-- The states in which the tokens have been issued.
pub with_token : World memory
with_token = (issue_join_token memory "standup" "ben" hub).1

with_stray_token : World memory
with_stray_token = (issue_join_token memory "retro" "ben" hub).1

-- Ben's phone is revoked.
phone_signature : String
phone_signature = String.◌++◌ "pem2" (bind_material "uuid" "standup" "ben" "phone" token.expires_at)

stray_signature : String
stray_signature = String.◌++◌ "pem" (bind_material "uuid" "retro" "ben" "laptop" token.expires_at)

phone-IsAccepted : IsAccepted memory with_token "standup" "uuid" "phone" phone_signature token phone
unfolding with_token phone_signature memory list_table list_redis find many first insert change
    without get live del bits value bits_from frame unframe token_text parse_token hub bind_material
    join_lines issue_join_token bind_device complete_binding log now random_uuid redis_set redis_get
    redis_del json_parse find_device find_meeting find_participant update_participant
    create_audit_event
phone-IsAccepted = record {
  json = token_text token;
  stored = refl;
  parsed = refl;
  same_meeting = refl;
  enrolled = refl;
  signed = refl;
}

laptop-IsAccepted :
    IsAccepted memory with_stray_token "retro" "uuid" "laptop" stray_signature stray_token laptop
unfolding with_stray_token stray_signature memory list_table list_redis find many first insert
    change without get live del bits value bits_from frame unframe token_text parse_token hub
    bind_material join_lines issue_join_token bind_device complete_binding log now random_uuid
    redis_set redis_get redis_del json_parse find_device find_meeting find_participant
    update_participant create_audit_event
laptop-IsAccepted = record {
  json = token_text stray_token;
  stored = refl;
  parsed = refl;
  same_meeting = refl;
  enrolled = refl;
  signed = refl;
}

bound_world : World memory
bound_world = (bind_device memory "standup" "uuid" "phone" phone_signature with_token).1

abbrev bound_ben : MeetingParticipant
bound_ben = bound_patch phone "phone" 1000003 ben

bound_world-bind_device :
    bind_device memory "standup" "uuid" "phone" phone_signature with_token
    ≡ (ok bound_ben, bound_world)
unfolding bound_world with_token phone_signature memory list_table list_redis find many first insert
    change without get live del bits value bits_from frame unframe token_text parse_token hub
    bind_material join_lines issue_join_token bind_device complete_binding log now random_uuid
    redis_set redis_get redis_del json_parse find_device find_meeting find_participant
    update_participant create_audit_event
bound_world-bind_device = refl

bind_device_sound_example :
    (t : StoredToken) × (d : Device) × IsAccepted memory with_token "standup" "uuid" "phone"
      phone_signature t d
    × IsBoundBy memory
        (record with_token { readings = suc with_token.readings })
        bound_world
        "standup"
        "uuid"
        "phone"
        t
        d
        bound_ben
bind_device_sound_example =
    bind_device_sound memory "standup" "uuid" "phone" phone_signature with_token bound_world
      bound_ben bound_world-bind_device

bind_device_once_example : bind_device memory "standup" "uuid" "laptop" "again" bound_world ≡ (
  thrown (bad_request "Join token expired or invalid"),
  record bound_world { readings = suc bound_world.readings },
)
unfolding bound_world
bind_device_once_example =
    bind_device_once memory "standup" "uuid" "phone" phone_signature "standup" "laptop" "again"
      token phone with_token phone-IsAccepted

pub refused_world : World memory
refused_world = (bind_device memory "standup" "uuid" "laptop" "forged" with_token).1

pub refused_world-bind_device :
    bind_device memory "standup" "uuid" "laptop" "forged" with_token
    ≡ (thrown (bad_request "Invalid binding signature"), refused_world)
unfolding refused_world with_token memory list_table list_redis find many first insert change
    without get live del bits value bits_from frame unframe token_text parse_token hub bind_material
    join_lines issue_join_token bind_device complete_binding log now random_uuid redis_set redis_get
    redis_del json_parse find_device find_meeting find_participant update_participant
    create_audit_event
refused_world-bind_device = refl

bind_device_complete_example :
    (bind_device memory "standup" "uuid" "phone" phone_signature with_token).0 ≡ ok bound_ben
unfolding with_token memory list_table list_redis find many first insert change without get live del
    bits value bits_from frame unframe token_text parse_token hub bind_material join_lines
    issue_join_token now random_uuid redis_set find_participant
bind_device_complete_example =
    bind_device_complete memory "standup" "uuid" "phone" phone_signature token phone ben standup
      with_token phone-IsAccepted refl refl refl refl

bind_device_partial_example :
    let (result, w) = bind_device memory "retro" "uuid" "laptop" stray_signature with_stray_token in
    (result ≡ thrown type_error)
    × (memory.participants.find_unique "ben" w.participants
        ≡ some (bound_patch laptop "laptop" 1000003 ben))
    × (w.redis ≡ memory.redis.del (token_key "uuid") with_stray_token.redis)
    × (w.audit_events ≡ with_stray_token.audit_events)
unfolding with_stray_token memory list_table list_redis find many first insert change without get
    live del bits value bits_from frame unframe token_text parse_token hub bind_material join_lines
    issue_join_token now random_uuid redis_set find_participant
bind_device_partial_example =
    bind_device_partial memory "retro" "uuid" "laptop" stray_signature stray_token laptop ben
      with_stray_token laptop-IsAccepted refl refl

issued_token : JoinToken
issued_token = new_token memory "standup" "ben" hub

with_token-issue_join_token :
    issue_join_token memory "standup" "ben" hub ≡ (ok issued_token, with_token)
unfolding with_token issued_token memory list_table list_redis find many first insert change without
    get live del bits value bits_from frame unframe token_text parse_token hub bind_material
    join_lines issue_join_token bind_device complete_binding log now random_uuid redis_set redis_get
    redis_del json_parse find_device find_meeting find_participant update_participant
    create_audit_event
with_token-issue_join_token = refl

-- Thirty seconds later.
stale_token : World memory
stale_token = record with_token { readings = 40000 }

issue_join_token_expired_example :
    bind_device memory "standup" issued_token.join_token "phone" phone_signature stale_token ≡ (
      thrown (bad_request "Join token expired or invalid"),
      record stale_token { readings = suc stale_token.readings },
    )
unfolding stale_token with_token issued_token memory list_table list_redis find many first insert
    change without get live del bits value bits_from frame unframe token_text parse_token hub
    bind_material join_lines issue_join_token find_participant now random_uuid redis_set
issue_join_token_expired_example =
    issue_join_token_expired memory "standup" "ben" hub with_token stale_token issued_token
      with_token-issue_join_token refl (omega arith) "standup" "phone" phone_signature (omega arith)

-- The laptop's binding has read the same token before the phone's was completed.
laptop_signature : String
laptop_signature =
    String.◌++◌ "pem" (bind_material "uuid" "standup" "ben" "laptop" token.expires_at)

after_token_replayed_example :
    (after_token memory "standup" "uuid" "laptop" laptop_signature
      (some (token_text token))
      bound_world).0
    ≡ ok (bound_patch laptop "laptop" (memory.clock bound_world.readings) bound_ben)
unfolding laptop_signature bound_world phone_signature with_token memory list_table list_redis find
    many first insert change without get live del bits value bits_from frame unframe token_text
    parse_token hub bind_material join_lines issue_join_token bind_device complete_binding log now
    random_uuid redis_set redis_get redis_del json_parse find_device find_meeting find_participant
    update_participant create_audit_event
after_token_replayed_example =
    after_token_replayed memory "standup" "uuid" "laptop" laptop_signature (some (token_text token))
      (token_text token) token laptop bound_ben standup bound_world refl refl refl refl refl refl
      refl refl refl refl
