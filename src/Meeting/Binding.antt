-- ===== src/Meeting/Binding.antt =====
-- `bindDevice` of services/hub-api/src/meeting/meeting.service.ts: its checks, and how it ends.

use troofai_mvp.Prelude.{
  ℕ, suc, String, ◌≡◌, refl, sym, ◌∙◌, ap, Bool, true, false, some, arith, ◌==◌, Option-cases,
  Bool-cases, inl, inr, if◌then◌else◌,
}
use troofai_mvp.Schema.{Device, MeetingParticipant, verified}
use troofai_mvp.Platform.{Platform, StoredToken}
use troofai_mvp.Exec.{
  Result, Exception, ok, thrown, bad_request, syntax_error, record_missing, type_error,
}
use troofai_mvp.World.{
  World, truthy, now, json_parse, redis_get, redis_del, find_device, find_meeting, signature_valid,
}
use troofai_mvp.World.Calls.{update_participant_cases, update_participant_found}
use troofai_mvp.Audit.Entry.{log_cases}
use troofai_mvp.Meeting.{
  token_key, bind_material, bound_reason, bound_patch, bound_event, complete_binding, bind_device,
}

-- The row that a binding is meant to leave of a participant's, field by field.
abbrev pub good_reason : Bool → String
good_reason true = "Device bound and enrolled (hardware-backed)"
good_reason false = "Device bound and enrolled"

abbrev pub bound_row : MeetingParticipant → String → Bool → ℕ → MeetingParticipant
bound_row r device_id hardware_bound t = record {
  id = r.id;
  meeting_id = r.meeting_id;
  user_id = r.user_id;
  device_id = some device_id;
  display_name = r.display_name;
  trust_status = verified;
  status_reason = some (good_reason hardware_bound);
  joined_at = r.joined_at;
  bound_at = some t;
  last_challenge_at = r.last_challenge_at;
}

good_reason_lem : (b : Bool) → bound_reason b ≡ good_reason b
good_reason_lem true = refl
good_reason_lem false = refl

pub bound_patch_lem :
    (d : Device) (device_id : String) (t : ℕ) (r : MeetingParticipant)
    → bound_patch d device_id t r ≡ bound_row r device_id d.hardware_bound t
bound_patch_lem d device_id t r =
    ap
      (λ s. record r {
        device_id = some device_id;
        bound_at = some t;
        trust_status = verified;
        status_reason = some s;
      })
      (good_reason_lem d.hardware_bound)

module _ (p : Platform) where
  -- What `bindDevice` checks, and all that it checks.
  pub record IsAccepted (w : World p) (meeting_id join_token device_id signature : String)
      (token : StoredToken) (device : Device) : Type 0 where
    pub json : String
    pub stored :
        truthy (p.redis.get (p.clock w.readings) (token_key join_token) w.redis) ≡ some json
    pub parsed : p.token_json.parse json ≡ some token
    pub same_meeting : (token.meeting_id == meeting_id) ≡ true
    pub enrolled : p.devices.find_unique device_id w.devices ≡ some device
    pub signed :
        signature_valid p device.public_key_pem
          (bind_material join_token meeting_id token.participant_id device_id token.expires_at)
          signature
        ≡ true

  pub bind_device-complete_binding :
      (mid tok dev sig : String) (token : StoredToken) (d : Device) (w : World p)
      → IsAccepted w mid tok dev sig token d
      → bind_device p mid tok dev sig w
        ≡ complete_binding p mid tok token d dev (record w { readings = suc w.readings })
  unfolding bind_device redis_get json_parse find_device
  bind_device-complete_binding mid tok dev sig token d w a =
      ground (arith, a.stored, a.parsed, a.same_meeting, a.enrolled, a.signed)

  -- How a call ends: refused with the state unchanged but for the clock, or accepted.
  pub data Outcome (w : World p) (mid tok dev sig : String) : Type 0 where
    refuses :
        (x : Exception)
        → bind_device p mid tok dev sig w ≡ (thrown x, record w { readings = suc w.readings })
        → Outcome w mid tok dev sig
    accepts :
        (token : StoredToken) (d : Device)
        → IsAccepted w mid tok dev sig token d
        → Outcome w mid tok dev sig

  pub bind_device-Outcome : (mid tok dev sig : String) (w : World p) → Outcome w mid tok dev sig
  unfolding bind_device redis_get json_parse find_device
  bind_device-Outcome mid tok dev sig w =
      elim (Option-cases (truthy (p.redis.get (p.clock w.readings) (token_key tok) w.redis))) [
        | inl missing ↦
            refuses (bad_request "Join token expired or invalid") (ground (arith, missing))
        | inr (json, stored) ↦ elim (Option-cases (p.token_json.parse json)) [
          | inl broken ↦ refuses syntax_error (ground (arith, stored, broken))
          | inr (token, parsed) ↦ elim (Bool-cases (token.meeting_id == mid)) [
            | inr other ↦
                refuses (bad_request "Meeting ID mismatch") (ground (arith, stored, parsed, other))
            | inl same ↦ elim (Option-cases (p.devices.find_unique dev w.devices)) [
              | inl gone ↦
                  refuses (bad_request "Device not found — not enrolled")
                    (ground (arith, stored, parsed, same, gone))
              | inr (d, enrolled) ↦
                  elim (Bool-cases (
                    signature_valid p d.public_key_pem
                      (bind_material tok mid token.participant_id dev token.expires_at) sig)) [
                        | inr forged ↦
                            refuses (bad_request "Invalid binding signature")
                              (ground (arith, stored, parsed, same, enrolled, forged))
                        | inl signed ↦ accepts token d (record {
                          json = json;
                          stored = stored;
                          parsed = parsed;
                          same_meeting = same;
                          enrolled = enrolled;
                          signed = signed;
                        })
                      ]
            ]
          ]
        ]
      ]

  -- What a completed binding has done.
  pub record IsBoundBy (w w' : World p) (meeting_id join_token device_id : String)
      (token : StoredToken) (device : Device) (row : MeetingParticipant) : Type 0 where
    pub before : MeetingParticipant
    pub found : p.participants.find_unique token.participant_id w.participants ≡ some before
    pub bound : row ≡ bound_row before device_id device.hardware_bound (p.clock w.readings)
    pub stored :
        (j : String)
        → p.participants.find_unique j w'.participants ≡ (
            if token.participant_id == j
            then some row
            else p.participants.find_unique j w.participants)
    pub token_used : w'.redis ≡ p.redis.del (token_key join_token) w.redis
    pub devices_kept : w'.devices ≡ w.devices

  -- How a call of `complete_binding` ends: with the row, or with an exception that is no
  -- BadRequestException. The token is deleted either way.
  pub data Completion (w : World p) (mid tok dev : String) (token : StoredToken) (d : Device)
      : Type 0 where
    returns :
        (r : MeetingParticipant) (rows : p.participants.Rows) (w' : World p)
        → p.participants.update token.participant_id
            (bound_patch d dev (p.clock w.readings))
            w.participants
          ≡ some (r, rows)
        → w'.participants ≡ rows
        → w'.redis ≡ p.redis.del (token_key tok) w.redis
        → w'.devices ≡ w.devices
        → complete_binding p mid tok token d dev w ≡ (ok r, w')
        → Completion w mid tok dev token d
    throws :
        (x : Exception) (w' : World p)
        → ((reason : String) → x ≡ bad_request reason → ⊥)
        → w'.redis ≡ p.redis.del (token_key tok) w.redis
        → complete_binding p mid tok token d dev w ≡ (thrown x, w')
        → Completion w mid tok dev token d

  pub complete_binding-Completion :
      (mid tok : String) (token : StoredToken) (d : Device) (dev : String) (w : World p)
      → Completion w mid tok dev token d
  unfolding complete_binding redis_del now find_meeting
  complete_binding-Completion mid tok token d dev w =
      let w' = (complete_binding p mid tok token d dev w).1 in
      elim (update_participant_cases p
        (record w { redis = p.redis.del (token_key tok) w.redis; readings = suc w.readings })
        token.participant_id (bound_patch d dev (p.clock w.readings))) [
          | inr missing ↦
              throws record_missing w' (λ reason e. cc e) (ground (arith, missing))
                (ground (arith, missing))
          | inl (r, rows, updated, call) ↦
              elim (Option-cases (p.meetings.find_unique mid w.meetings)) [
                | inl gone ↦
                    throws type_error w' (λ reason e. cc e) (ground (arith, call, gone))
                      (ground (arith, call, gone))
                | inr (m, there) ↦
                    elim (log_cases p
                      (record w {
                        redis = p.redis.del (token_key tok) w.redis;
                        readings = suc w.readings;
                        participants = rows;
                      })
                      (bound_event m.tenant_id mid token d dev)) [
                        | inr (x, kind, refused) ↦
                            throws x w' (λ reason e. ground (arith, kind, e))
                              (ground (arith, call, there, refused))
                              (ground (arith, call, there, refused))
                        | inl (_, _, call') ↦
                            returns r rows w' updated (ground (arith, call, there, call'))
                              (ground (arith, call, there, call'))
                              (ground (arith, call, there, call'))
                              (ground (arith, call, there, call'))
                      ]
              ]
        ]

  pub complete_binding_ok :
      (mid tok : String) (token : StoredToken) (d : Device) (dev : String) (w w' : World p)
      (row : MeetingParticipant)
      → complete_binding p mid tok token d dev w ≡ (ok row, w')
      → IsBoundBy w w' mid tok dev token d row
  complete_binding_ok mid tok token d dev w w' row e =
      go (complete_binding-Completion mid tok token d dev w)
    where
      go : Completion w mid tok dev token d → IsBoundBy w w' mid tok dev token d row
      go (throws x v _ _ done) = absurd (ground (arith, done, e))
      go (returns r rows v updated stored used kept done) =
          let same : r ≡ row = ground (arith, done, e) in
          let after : v ≡ w' =
            ap (λ (q : Result MeetingParticipant × World p). q.1) (sym done ∙ e) in
          let (old, present, patched) =
            update_participant_found p _ _ w.participants r rows updated in
          record {
            before = old;
            found = present;
            bound = sym same ∙ patched ∙ bound_patch_lem d dev (p.clock w.readings) old;
            stored = λ j.
                ap (p.participants.find_unique j)
                  (ap (λ (v : World p). v.participants) (sym after) ∙ stored)
                ∙ p.participants.find-update token.participant_id j
                    (bound_patch d dev (p.clock w.readings)) row w.participants rows (λ _. refl)
                    (rw (← same) updated);
            token_used = rw (← after) used;
            devices_kept = rw (← after) kept;
          }
