-- ===== src/Challenge/Effects.antt =====
-- `verifyResponse` of services/hub-api/src/challenge/challenge.service.ts: what is left in the tables.
use troofai_mvp.Prelude.{
  suc, String, ◌≡◌, refl, sym, ◌∙◌, Bool, true, none, some, arith, ◌==◌, if◌then◌else◌,
}
use troofai_mvp.Schema.{Device, MeetingParticipant, AuditEvent}
use troofai_mvp.Platform.{Platform, StoredChallenge}
use troofai_mvp.Exec.{ok}
use troofai_mvp.World.{World}
use troofai_mvp.World.Calls.{update_participant_found}
use troofai_mvp.Gateway.{emit_meeting_update}
use troofai_mvp.Audit.{new_event}
use troofai_mvp.Policy.{PolicyResult}
use troofai_mvp.Challenge.{VerifyResult, verify_response, verdict_patch, verdict_event, is_verified}
use troofai_mvp.Challenge.Settled.{Settled, settle_ok}
use troofai_mvp.Challenge.Verdict.{Holds, is_signed, policy_at, at_verdict, verify_response-settle}

module _ (p : Platform) where
  -- The effects of a judged response to the challenge `c`, from `w` to `w'`, answered with `r`.
  pub record IsRecorded (w w' : World p) (c : StoredChallenge) (r : VerifyResult) : Type 0 where
    pub before : MeetingParticipant
    pub found : p.participants.find_unique c.payload.participant_id w.participants ≡ some before
    pub marked :
        (j : String)
        → p.participants.find_unique j w'.participants ≡ (
            if c.payload.participant_id == j
            then some (record before {
              trust_status = r.status;
              status_reason = some r.reason;
              last_challenge_at = some (p.clock (suc (suc (suc w.readings))));
            })
            else p.participants.find_unique j w.participants)
    pub event : AuditEvent
    pub logged :
        (j : String)
        → p.audit_events.find_unique j w'.audit_events
          ≡ (if event.id == j then some event else p.audit_events.find_unique j w.audit_events)
    pub event_kind :
        event.event_type ≡ (if is_verified r.status then "CHALLENGE_PASSED" else "CHALLENGE_FAILED")
    pub event_tenant : event.tenant_id ≡ c.tenant_id
    pub event_actor : event.actor ≡ c.user_id
    pub announced :
        w'.gateway
        ≡ emit_meeting_update c.payload.meeting_id
            (record {
              meeting_id = none;
              participant_id = c.payload.participant_id;
              trust_status = r.status;
              reason = r.reason;
            })
            w.gateway
    pub devices_kept : w'.devices ≡ w.devices
    pub tenants_kept : w'.tenants ≡ w.tenants
    pub meetings_kept : w'.meetings ≡ w.meetings

  -- If Redis holds the challenge, the named device is the one that it was sent to and is enrolled,
  -- and the response is answered, then the participant's row carries the answer's status and reason
  -- and the time, every other row is unchanged, one event is logged, CHALLENGE_PASSED for VERIFIED
  -- and CHALLENGE_FAILED for any other status, for the challenge's tenant and user, and the meeting
  -- is sent the status; devices, tenants and meetings are unchanged.
  pub verify_response_effect :
      (cid did sig : String) (c : StoredChallenge) (d : Device) (w w' : World p) (r : VerifyResult)
      → Holds p w cid c
      → (c.device_id == did) ≡ true
      → p.devices.find_unique did w.devices ≡ some d
      → verify_response p cid did sig w ≡ (ok r, w')
      → IsRecorded w w' c r
  verify_response_effect cid did sig c d w w' r h same found e =
      let (result, s) =
        settle_ok p cid did c d _ _ (at_verdict p w cid) w' r
          (sym (verify_response-settle p cid did sig c d w h same found) ∙ e) in
      let (old, there, patched) =
        update_participant_found p _ _ w.participants s.row s.rows s.updated in
      recorded (is_signed p c d sig) (policy_at p w c d sig) result s old there patched
    where
      recorded :
          (b : Bool) (policy : PolicyResult)
          → r ≡ record { valid = b; status = policy.status; reason = policy.reason }
          → (s : Settled p (at_verdict p w cid) w' cid did c d b policy)
          → (old : MeetingParticipant)
          → p.participants.find_unique c.payload.participant_id w.participants ≡ some old
          → s.row ≡ verdict_patch policy (p.clock (suc (suc (suc w.readings)))) old
          → IsRecorded w w' c r
      recorded b policy result s old there patched = record {
        before = old;
        found = there;
        marked = λ j. ground (
          arith,
          s.after,
          result,
          patched,
          p.participants.find-update c.payload.participant_id j _ s.row w.participants s.rows
              (λ _. refl) s.updated,
        );
        event =
            new_event p
              (record (at_verdict p w cid) {
                readings = suc (suc (suc (suc w.readings)));
                participants = s.rows;
              })
              (verdict_event cid did c d b policy);
        logged = λ j.
            ground
              (arith, s.after, p.audit_events.find-create _ w.audit_events s.events j s.written);
        event_kind = rw result refl;
        event_tenant = refl;
        event_actor = refl;
        announced = rw (result, s.after) refl;
        devices_kept = rw s.after refl;
        tenants_kept = rw s.after refl;
        meetings_kept = rw s.after refl;
      }
