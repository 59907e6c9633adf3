-- ===== src/Challenge/Honest.antt =====
-- `verifyResponse` of services/hub-api/src/challenge/challenge.service.ts for an honest device.
use troofai_mvp.Prelude.{suc, String, ◌≡◌, ◌∙◌, ap, Bool, true, false, none, some, arith, ◌==◌}
use troofai_mvp.Schema.{Device, MeetingParticipant, active, verified}
use troofai_mvp.Platform.{Platform, StoredChallenge}
use troofai_mvp.Exec.{Result, ok}
use troofai_mvp.World.{World, has_tenant, has_meeting, truthy, now, on_gateway, update_participant}
use troofai_mvp.Audit.{new_event, log}
use troofai_mvp.Policy.{PolicyResult, evaluate, verified_reason}
use troofai_mvp.Policy.Rules.{IsFresh}
use troofai_mvp.Challenge.{
  VerifyResult, settle, signed_material, verify_response, verdict_patch, verdict_event,
}
use troofai_mvp.Challenge.Verdict.{
  Holds, is_late, is_signed, policy_at, at_verdict, verify_response-settle,
}

module _ (p : Platform) where
  -- The database can take the verdict: the participant's row, the tenant and the meeting are there,
  -- and the id that the event will get is not taken.
  pub record CanRecord (w : World p) (c : StoredChallenge) : Type 0 where
    pub row : MeetingParticipant
    pub present : p.participants.find_unique c.payload.participant_id w.participants ≡ some row
    pub tenant_known : has_tenant p w c.tenant_id ≡ true
    pub meeting_known : has_meeting p w (truthy (some c.payload.meeting_id)) ≡ true
    pub event_free : p.audit_events.find_unique (p.uuid w.draws) w.audit_events ≡ none

  pub settle_runs :
      (cid did : String) (c : StoredChallenge) (d : Device) (b : Bool) (policy : PolicyResult)
      (w : World p)
      → CanRecord w c
      → (settle p cid did c d b policy w).0
        ≡ ok (record { valid = b; status = policy.status; reason = policy.reason })
  unfolding settle now on_gateway update_participant log
  settle_runs cid did c d b policy w can =
      let (rows, updated) =
        p.participants.update_found c.payload.participant_id
          (verdict_patch policy (p.clock w.readings)) can.row w.participants can.present in
      let (events, written) =
        p.audit_events.create_fresh
          (new_event p (record w { readings = suc w.readings; participants = rows })
            (verdict_event cid did c d b policy))
          w.audit_events can.event_free in
      ground (arith, updated, written, can.tenant_known, can.meeting_known)

  honest_policy :
      (c : StoredChallenge) (d : Device) (sig : String) (w : World p)
      → d.status ≡ active
      → is_late p w c ≡ false
      → is_signed p c d sig ≡ true
      → IsFresh (p.clock (suc (suc w.readings))) d.last_heartbeat
      → policy_at p w c d sig
        ≡ record { status = verified; reason = verified_reason d.hardware_bound }
  unfolding evaluate
  honest_policy c d sig w on_duty in_time signed fresh = ground arith

  -- The response of an honest device is answered VERIFIED: if Redis holds the challenge, the named
  -- device is the one that it was sent to and is enrolled and active, its key verifies the
  -- signature over the signing text, the challenge has not expired, the last heartbeat is absent or
  -- at most 5 minutes old, and the database can record the verdict, then the call returns, with a
  -- valid signature, VERIFIED and a reason, which names a hardware-backed key if the device has one.
  pub verify_response_complete :
      (cid did sig : String) (c : StoredChallenge) (d : Device) (w : World p)
      → Holds p w cid c
      → (c.device_id == did) ≡ true
      → p.devices.find_unique did w.devices ≡ some d
      → d.status ≡ active
      → is_late p w c ≡ false
      → p.rsa_verify d.public_key_pem (signed_material c) sig ≡ some true
      → IsFresh (p.clock (suc (suc w.readings))) d.last_heartbeat
      → CanRecord w c
      → (verify_response p cid did sig w).0
        ≡ ok (record { valid = true; status = verified; reason = verified_reason d.hardware_bound })
  verify_response_complete cid did sig c d w h same found on_duty in_time signed fresh can =
      let valid : is_signed p c d sig ≡ true = ground (arith, signed) in
      ap (λ (x : Result VerifyResult × World p). x.0)
        (verify_response-settle p cid did sig c d w h same found)
      ∙ settle_runs cid did c d _ _ (at_verdict p w cid) (record {
        row = can.row;
        present = can.present;
        tenant_known = can.tenant_known;
        meeting_known = can.meeting_known;
        event_free = can.event_free;
      })
      ∙ ground (arith, valid, honest_policy c d sig w on_duty in_time valid fresh)
