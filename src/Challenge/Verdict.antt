-- ===== src/Challenge/Verdict.antt =====
-- The four ways in which `verifyResponse` returns, with the state that each leaves.
use troofai_mvp.Prelude.{
  suc, String, ◌≡◌, Bool, true, false, none, some, arith, ◌==◌, Option-cases, Bool-cases, inl, inr,
}
use troofai_mvp.Schema.{Device}
use troofai_mvp.Platform.{Platform, StoredChallenge}
use troofai_mvp.Exec.{ok}
use troofai_mvp.World.{
  World, truthy, now, json_parse, redis_get, redis_del, find_device, signature_valid,
}
use troofai_mvp.Device.{find_by_id}
use troofai_mvp.Policy.{PolicyResult, evaluate}
use troofai_mvp.Challenge.{
  VerifyResult, refused, signed_material, challenge_key, is_after, policy_input, settle, judge,
  check_device, verify_response,
}
use troofai_mvp.Challenge.Settled.{Settled, settle_ok}

module _ (p : Platform) where
  -- Redis holds the challenge, at the first reading of the clock.
  pub record Holds (w : World p) (challenge_id : String) (c : StoredChallenge) : Type 0 where
    pub json : String
    pub stored :
        truthy (p.redis.get (p.clock w.readings) (challenge_key challenge_id) w.redis) ≡ some json
    pub parsed : p.challenge_json.parse json ≡ some c

  -- Whether the challenge has expired, at the second reading.
  abbrev pub is_late : World p → StoredChallenge → Bool
  is_late w c = is_after p (p.clock (suc w.readings)) c.payload.expires_at

  -- Whether the device's key signed the challenge.
  abbrev pub is_signed : StoredChallenge → Device → String → Bool
  is_signed c d signature = signature_valid p d.public_key_pem (signed_material c) signature

  -- What the policy engine says, at the third reading.
  abbrev pub policy_at : World p → StoredChallenge → Device → String → PolicyResult
  policy_at w c d signature =
      evaluate (p.clock (suc (suc w.readings)))
        (policy_input d (is_signed c d signature) (is_late w c))

  -- The state in which the policy engine has been asked: the challenge is gone.
  abbrev pub at_verdict : World p → String → World p
  at_verdict w challenge_id = record w {
    redis = p.redis.del (challenge_key challenge_id) w.redis;
    readings = suc (suc (suc w.readings));
  }

  pub data Verdict (w w' : World p) (challenge_id device_id signature : String) (r : VerifyResult)
      : Type 0 where
    absent :
        truthy (p.redis.get (p.clock w.readings) (challenge_key challenge_id) w.redis) ≡ none
        → r ≡ refused "Challenge expired or not found"
        → w' ≡ record w { readings = suc w.readings }
        → Verdict w w' challenge_id device_id signature r
    mismatch :
        (c : StoredChallenge)
        → Holds w challenge_id c
        → (c.device_id == device_id) ≡ false
        → r ≡ refused "Device ID mismatch"
        → w' ≡ record w { readings = suc (suc w.readings) }
        → Verdict w w' challenge_id device_id signature r
    unenrolled :
        (c : StoredChallenge)
        → Holds w challenge_id c
        → p.devices.find_unique device_id w.devices ≡ none
        → r ≡ refused "Device not found"
        → w' ≡ record w { readings = suc (suc w.readings) }
        → Verdict w w' challenge_id device_id signature r
    judged :
        (c : StoredChallenge) (d : Device)
        → Holds w challenge_id c
        → (c.device_id == device_id) ≡ true
        → p.devices.find_unique device_id w.devices ≡ some d
        → r ≡ record {
          valid = is_signed c d signature;
          status = (policy_at w c d signature).status;
          reason = (policy_at w c d signature).reason;
        }
        → Settled p
            (at_verdict w challenge_id)
            w'
            challenge_id
            device_id
            c
            d
            (is_signed c d signature)
            (policy_at w c d signature)
        → Verdict w w' challenge_id device_id signature r

  judge_ok :
      (cid did sig : String) (c : StoredChallenge) (d : Device) (w w' : World p) (r : VerifyResult)
      → Holds w cid c
      → (c.device_id == did) ≡ true
      → p.devices.find_unique did w.devices ≡ some d
      → judge p cid did sig c (is_late w c) d (record w { readings = suc (suc w.readings) })
        ≡ (ok r, w')
      → Verdict w w' cid did sig r
  unfolding judge redis_del now
  judge_ok cid did sig c d w w' r h same found e =
      let (result, settled) = settle_ok p cid did c d _ _ (at_verdict w cid) w' r e in
      judged c d h same found result settled

  check_device_ok :
      (cid did sig : String) (c : StoredChallenge) (w w' : World p) (r : VerifyResult)
      → Holds w cid c
      → check_device p cid did sig c (record w { readings = suc w.readings }) ≡ (ok r, w')
      → Verdict w w' cid did sig r
  unfolding check_device now find_by_id find_device
  check_device_ok cid did sig c w w' r h e = elim (Bool-cases (c.device_id == did)) [
    | inr other ↦ mismatch c h other (ground (arith, other)) (ground (arith, other))
    | inl same ↦ elim (Option-cases (p.devices.find_unique did w.devices)) [
      | inl missing ↦
          unenrolled c h missing (ground (arith, same, missing)) (ground (arith, same, missing))
      | inr (d, found) ↦ judge_ok cid did sig c d w w' r h same found (ground (arith, same, found))
    ]
  ]

  -- Whenever a response is answered, one of four things holds. Redis held no challenge; or the
  -- challenge was for another device; or the named device is not enrolled: then the answer is the
  -- refusal with that reason, and only the clock has moved. Or the challenge was judged: then the
  -- answer is whether the signature is valid and what the policy engine says, the challenge is
  -- deleted, and the participant's row, the event and the announcement have been written.
  pub verify_response_ok :
      (cid did sig : String) (w w' : World p) (r : VerifyResult)
      → verify_response p cid did sig w ≡ (ok r, w')
      → Verdict w w' cid did sig r
  unfolding verify_response redis_get json_parse
  verify_response_ok cid did sig w w' r e =
      elim (Option-cases (truthy (p.redis.get (p.clock w.readings) (challenge_key cid) w.redis))) [
        | inl missing ↦ absent missing (ground (arith, missing)) (ground (arith, missing))
        | inr (json, stored) ↦ elim (Option-cases (p.challenge_json.parse json)) [
          | inl broken ↦ absurd (ground (arith, stored, broken))
          | inr (c, parsed) ↦
              check_device_ok cid did sig c w w' r
                (record { json = json; stored = stored; parsed = parsed })
                (ground (arith, stored, parsed))
        ]
      ]

  -- A response from the device that the challenge was sent to comes down to its verdict.
  pub verify_response-settle :
      (cid did sig : String) (c : StoredChallenge) (d : Device) (w : World p)
      → Holds w cid c
      → (c.device_id == did) ≡ true
      → p.devices.find_unique did w.devices ≡ some d
      → verify_response p cid did sig w
        ≡ settle p cid did c d (is_signed c d sig) (policy_at w c d sig) (at_verdict w cid)
  unfolding verify_response redis_get json_parse check_device now find_by_id find_device judge
      redis_del
  verify_response-settle cid did sig c d w h same found =
      ground (arith, h.stored, h.parsed, same, found)
