-- ===== src/Challenge/Race.antt =====
-- `verifyResponse` of services/hub-api/src/challenge/challenge.service.ts cut at its first await, for
-- another call to run in between.
use troofai_mvp.Prelude.{
  suc, String, ◌≡◌, refl, ◌∙◌, ap, true, false, Option, none, some, arith, ◌==◌,
}
use troofai_mvp.Schema.{Device, active, verified}
use troofai_mvp.Platform.{Platform, StoredChallenge}
use troofai_mvp.Exec.{Result, ok, pure, ◌>>=◌}
use troofai_mvp.World.{
  Hub, World, truthy, now, json_parse, redis_get, redis_del, find_device, signature_valid,
}
use troofai_mvp.Device.{find_by_id}
use troofai_mvp.Policy.{PolicyResult, evaluate, verified_reason}
use troofai_mvp.Policy.Rules.{IsFresh}
use troofai_mvp.Challenge.{
  VerifyResult, refused, signed_material, challenge_key, is_after, policy_input, settle, judge,
  check_device, verify_response,
}
use troofai_mvp.Challenge.Honest.{CanRecord, settle_runs}

module _ (p : Platform) where
  -- The rest of `verifyResponse` once Redis has answered.
  unfoldable pub after_fetch : String → String → String → Option String → Hub p VerifyResult
  after_fetch challenge_id device_id signature found = elim (truthy found) [
    | none ↦ pure (refused "Challenge expired or not found")
    | some json ↦ do
      challenge ← json_parse p p.challenge_json json
      check_device p challenge_id device_id signature challenge
  ]

  verify_response-after_fetch :
      (cid did sig : String) (w : World p)
      → verify_response p cid did sig w
        ≡ (redis_get p (challenge_key cid) >>= after_fetch cid did sig) w
  unfolding verify_response after_fetch
  verify_response-after_fetch cid did sig w = refl

  -- What the policy engine says when the rest runs from `v`.
  abbrev policy_from : World p → StoredChallenge → Device → String → PolicyResult
  policy_from v c d sig = evaluate (p.clock (suc v.readings)) (
      policy_input d (signature_valid p d.public_key_pem (signed_material c) sig)
        (is_after p (p.clock v.readings) c.payload.expires_at))

  after_fetch-settle :
      (cid did sig : String) (found : Option String) (json : String) (c : StoredChallenge)
      (d : Device) (v : World p)
      → truthy found ≡ some json
      → p.challenge_json.parse json ≡ some c
      → (c.device_id == did) ≡ true
      → p.devices.find_unique did v.devices ≡ some d
      → after_fetch cid did sig found v
        ≡ settle p cid did c d
            (signature_valid p d.public_key_pem (signed_material c) sig)
            (policy_from v c d sig)
            (record v {
              redis = p.redis.del (challenge_key cid) v.redis;
              readings = suc (suc v.readings);
            })
  unfolding after_fetch json_parse check_device now find_by_id find_device judge redis_del
  after_fetch-settle cid did sig found json c d v fetched parsed same there =
      ground (arith, fetched, parsed, same, there)

  verified_policy :
      (c : StoredChallenge) (d : Device) (sig : String) (v : World p)
      → d.status ≡ active
      → is_after p (p.clock v.readings) c.payload.expires_at ≡ false
      → signature_valid p d.public_key_pem (signed_material c) sig ≡ true
      → IsFresh (p.clock (suc v.readings)) d.last_heartbeat
      → policy_from v c d sig
        ≡ record { status = verified; reason = verified_reason d.hardware_bound }
  unfolding evaluate
  verified_policy c d sig v on_duty in_time signed fresh = ground arith

  -- The deletion does not stop a response that has fetched the challenge before: if Redis answered
  -- a call with the challenge, and the call goes on in a state in which Redis holds it no longer
  -- (another response has been judged in between), then with an honest device the call is answered
  -- VERIFIED all the same. The device is the one that the challenge was sent to, enrolled and
  -- active, with a valid signature, in time, its heartbeat absent or at most 5 minutes old, and the
  -- database can record the verdict.
  pub after_fetch_replayed :
      (cid did sig : String) (found : Option String) (json : String) (c : StoredChallenge)
      (d : Device) (v : World p)
      → truthy found ≡ some json
      → p.challenge_json.parse json ≡ some c
      → p.redis.get (p.clock v.readings) (challenge_key cid) v.redis ≡ none
      → (c.device_id == did) ≡ true
      → p.devices.find_unique did v.devices ≡ some d
      → d.status ≡ active
      → is_after p (p.clock v.readings) c.payload.expires_at ≡ false
      → p.rsa_verify d.public_key_pem (signed_material c) sig ≡ some true
      → IsFresh (p.clock (suc v.readings)) d.last_heartbeat
      → CanRecord p v c
      → (after_fetch cid did sig found v).0
        ≡ ok (record { valid = true; status = verified; reason = verified_reason d.hardware_bound })
  after_fetch_replayed cid did sig found json c d v fetched parsed gone same there on_duty in_time
        signed fresh can =
      let valid : signature_valid p d.public_key_pem (signed_material c) sig ≡ true =
        ground (arith, signed) in
      ap (λ (x : Result VerifyResult × World p). x.0)
        (after_fetch-settle cid did sig found json c d v fetched parsed same there)
      ∙ settle_runs p cid did c d _ _
          (record v {
            redis = p.redis.del (challenge_key cid) v.redis;
            readings = suc (suc v.readings);
          })
          (record {
            row = can.row;
            present = can.present;
            tenant_known = can.tenant_known;
            meeting_known = can.meeting_known;
            event_free = can.event_free;
          })
      ∙ ground (arith, valid, verified_policy c d sig v on_duty in_time valid fresh)
