-- ===== src/Challenge/Soundness.antt =====
-- `verifyResponse` of services/hub-api/src/challenge/challenge.service.ts: VERIFIED answers, repeated
-- responses, and refusals.
use troofai_mvp.Prelude.{
  ℕ, suc, String, ◌≡◌, refl, sym, ◌∙◌, ap, Bool, true, false, none, some, arith, ◌==◌, eq_refl, inl,
  inr,
}
use troofai_mvp.Schema.{Device, active, verified, failed}
use troofai_mvp.Platform.{Platform, StoredChallenge}
use troofai_mvp.Exec.{Result, ok}
use troofai_mvp.World.{World, now, on_gateway, redis_get}
use troofai_mvp.World.Calls.{update_participant_cases}
use troofai_mvp.Audit.Entry.{log_cases}
use troofai_mvp.Policy.{PolicyResult}
use troofai_mvp.Policy.Rules.{IsFresh, verified-IsTrusted}
use troofai_mvp.Challenge.{
  VerifyResult, refused, signed_material, challenge_key, settle, verify_response, verdict_patch,
  verdict_event,
}
use troofai_mvp.Challenge.Verdict.{
  Holds, is_late, is_signed, at_verdict, Verdict, absent, mismatch, unenrolled, judged,
  verify_response_ok, verify_response-settle,
}

module _ (p : Platform) where
  -- What a VERIFIED answer to a response proves of the state that the response met.
  pub record IsProven (w : World p) (challenge_id device_id signature : String) : Type 0 where
    pub challenge : StoredChallenge
    pub device : Device
    pub held : Holds p w challenge_id challenge
    pub addressed : (challenge.device_id == device_id) ≡ true
    pub enrolled : p.devices.find_unique device_id w.devices ≡ some device
    pub unrevoked : device.status ≡ active
    pub in_time : is_late p w challenge ≡ false
    pub signed :
        p.rsa_verify device.public_key_pem (signed_material challenge) signature ≡ some true
    pub fresh : IsFresh (p.clock (suc (suc w.readings))) device.last_heartbeat

  signed_of_valid :
      (c : StoredChallenge) (d : Device) (sig : String)
      → is_signed p c d sig ≡ true
      → p.rsa_verify d.public_key_pem (signed_material c) sig ≡ some true
  signed_of_valid c d sig h = ground arith

  -- If a response is answered with VERIFIED, then Redis held the challenge, the response came in
  -- the name of the device that the challenge was sent to, that device is enrolled and active, its
  -- stored public key verifies the signature over the challenge's signing text, the challenge had
  -- not expired, and the device's last heartbeat is absent or at most 5 minutes old.
  pub verify_response_sound :
      (cid did sig : String) (w w' : World p) (r : VerifyResult)
      → verify_response p cid did sig w ≡ (ok r, w')
      → r.status ≡ verified
      → IsProven w cid did sig
  verify_response_sound cid did sig w w' r e v = go (verify_response_ok p cid did sig w w' r e)
    where
      go : Verdict p w w' cid did sig r → IsProven w cid did sig
      go (absent _ same _) = absurd (ground arith)
      go (mismatch _ _ _ same _) = absurd (ground arith)
      go (unenrolled _ _ _ same _) = absurd (ground arith)
      go (judged c d h same found result _) =
          let trusted =
            verified-IsTrusted _ _ (sym (ap (λ (x : VerifyResult). x.status) result) ∙ v) in
          record {
            challenge = c;
            device = d;
            held = h;
            addressed = same;
            enrolled = found;
            unrevoked = trusted.enrolled;
            in_time = trusted.in_time;
            signed = signed_of_valid c d sig trusted.signed;
            fresh = trusted.fresh;
          }

  redis-settle :
      (cid did : String) (c : StoredChallenge) (d : Device) (is_valid : Bool)
      (policy : PolicyResult) (w : World p)
      → (settle p cid did c d is_valid policy w).1.redis ≡ w.redis
  unfolding settle now on_gateway
  redis-settle cid did c d is_valid policy w =
      elim (update_participant_cases p (record w { readings = suc w.readings })
        c.payload.participant_id (verdict_patch policy (p.clock w.readings))) [
          | inr missing ↦ ground (arith, missing)
          | inl (row, rows, _, call) ↦
              elim (log_cases p (record w { readings = suc w.readings; participants = rows })
                (verdict_event cid did c d is_valid policy)) [
                  | inr (_, _, refused) ↦ ground (arith, call, refused)
                  | inl (events, _, call') ↦ ground (arith, call, call')
                ]
        ]

  redis-verify_response :
      (cid did sig : String) (c : StoredChallenge) (d : Device) (w : World p)
      → Holds p w cid c
      → (c.device_id == did) ≡ true
      → p.devices.find_unique did w.devices ≡ some d
      → (verify_response p cid did sig w).1.redis ≡ p.redis.del (challenge_key cid) w.redis
  redis-verify_response cid did sig c d w h same found =
      ap (λ (x : Result VerifyResult × World p). x.1.redis)
        (verify_response-settle p cid did sig c d w h same found)
      ∙ redis-settle cid did c d _ _ (at_verdict p w cid)

  absent_response :
      (cid did sig : String) (w : World p)
      → ((now : ℕ) → p.redis.get now (challenge_key cid) w.redis ≡ none)
      → verify_response p cid did sig w
        ≡ (ok (refused "Challenge expired or not found"), record w { readings = suc w.readings })
  unfolding verify_response redis_get
  absent_response cid did sig w gone = ground (arith, gone (p.clock w.readings))

  -- A challenge is judged once. If Redis holds the challenge, it was sent to the named device and
  -- that device is enrolled, then after the response, however it ends (a failed check and an
  -- exception included), a second response to the same challenge, from any device and with any
  -- signature, is refused as expired or not found and changes nothing but the clock.
  pub verify_response_once :
      (cid did sig did' sig' : String) (c : StoredChallenge) (d : Device) (w : World p)
      → Holds p w cid c
      → (c.device_id == did) ≡ true
      → p.devices.find_unique did w.devices ≡ some d
      → let w' = (verify_response p cid did sig w).1 in
        verify_response p cid did' sig' w'
        ≡ (ok (refused "Challenge expired or not found"), record w' { readings = suc w'.readings })
  verify_response_once cid did sig did' sig' c d w h same found =
      absent_response cid did' sig' (verify_response p cid did sig w).1 λ t.
        ap (p.redis.get t (challenge_key cid))
          (redis-verify_response cid did sig c d w h same found)
        ∙ p.redis.get-del t (challenge_key cid) (challenge_key cid) w.redis
        ∙ rw (eq_refl (challenge_key cid)) refl

  -- A refused response (no challenge, another device's challenge, or a device that is not
  -- enrolled) changes nothing but the clock: in particular the challenge stays good for the device
  -- that it was sent to.
  pub refused_harmless :
      (cid did sig : String) (w w' : World p) (r : VerifyResult)
      → verify_response p cid did sig w ≡ (ok r, w')
      → ((c : StoredChallenge) (d : Device)
          → Holds p w cid c
          → (c.device_id == did) ≡ true
          → p.devices.find_unique did w.devices ≡ some d
          → ⊥)
      → (r.valid ≡ false) × (r.status ≡ failed) × (record w' { readings = w.readings } ≡ w)
  refused_harmless cid did sig w w' r e unfit = go (verify_response_ok p cid did sig w w' r e)
    where
      go :
          Verdict p w w' cid did sig r
          → (r.valid ≡ false) × (r.status ≡ failed) × (record w' { readings = w.readings } ≡ w)
      go (absent _ same after) = (ground arith, ground arith, rw after refl)
      go (mismatch _ _ _ same after) = (ground arith, ground arith, rw after refl)
      go (unenrolled _ _ _ same after) = (ground arith, ground arith, rw after refl)
      go (judged c d h same found _ _) = absurd (unfit c d h same found)
