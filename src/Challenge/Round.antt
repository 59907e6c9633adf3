-- ===== src/Challenge/Round.antt =====
-- A whole round: a challenge is sent, and a response to it is handled at some later time.
use troofai_mvp.Prelude.{
  suc, ◌+◌, ◌≤◌, ◌<◌, String, ◌≡◌, refl, ◌∙◌, ap, true, none, some, arith, eq_refl, ltb,
  if◌then◌else◌,
}
use troofai_mvp.Schema.{Device, Meeting, MeetingParticipant, active, verified, failed}
use troofai_mvp.Platform.{Platform, StoredChallenge}
use troofai_mvp.Platform.Time.{clock_mono}
use troofai_mvp.Exec.{ok}
use troofai_mvp.World.{World}
use troofai_mvp.Policy.{verified_reason}
use troofai_mvp.Policy.Rules.{IsFresh, expired-failed}
use troofai_mvp.Challenge.{
  IssueResult, VerifyResult, challenge_key, signed_material, send_challenge, verify_response,
}
use troofai_mvp.Challenge.Verdict.{
  Holds, is_late, Verdict, absent, mismatch, unenrolled, judged, verify_response_ok,
}
use troofai_mvp.Challenge.Sent.{new_challenge, redis_with, redis_with_deadline}
use troofai_mvp.Challenge.Honest.{CanRecord, verify_response_complete}
use troofai_mvp.Challenge.Sent.{send_challenge_ok}

module _ (p : Platform) (mid : String) (m : Meeting) (r : MeetingParticipant) (dev : String)
    (w w1 w2 : World p) (x : IssueResult) (sent : send_challenge p mid m r dev w ≡ (ok x, w1))
    (redis_kept : w2.redis ≡ w1.redis) (later : w1.readings ≤ w2.readings) where
  abbrev c : StoredChallenge
  c = new_challenge p w mid m r dev

  same_redis : w2.redis ≡ redis_with p w c
  same_redis =
      redis_kept ∙ ap (λ (v : World p). v.redis) (send_challenge_ok p mid m r dev w w1 x sent).after

  after_storing : p.clock (suc (suc w.readings)) ≤ p.clock w2.readings
  after_storing = clock_mono p (suc (suc w.readings)) w2.readings (
      omega (
        arith,
        ap (λ (v : World p). v.readings) (send_challenge_ok p mid m r dev w w1 x sent).after,
      ))

  held_json : p.redis.get (p.clock w2.readings) (challenge_key (p.uuid w.draws)) w2.redis ≡ (
      if ltb (p.clock w2.readings) (p.clock (suc (suc w.readings)) + 15000)
      then some (p.challenge_json.stringify c)
      else none)
  held_json =
      ap (p.redis.get (p.clock w2.readings) (challenge_key (p.uuid w.draws))) same_redis
      ∙ redis_with_deadline p w c (p.clock w2.readings) after_storing

  late_eq : is_late p w2 c ≡ ltb (p.clock (suc w.readings) + 10000) (p.clock (suc w2.readings))
  late_eq = ground (arith, p.from_iso-to_iso (p.clock (suc w.readings) + 10000))

  held_in_time :
      p.clock (suc w2.readings) ≤ p.clock (suc w.readings) + 10000 → Holds p w2 (p.uuid w.draws) c
  held_in_time h = record {
    json = p.challenge_json.stringify c;
    stored = ground (
      arith,
      held_json,
      p.clock_forward w2.readings,
      p.clock_forward (suc w.readings),
      p.challenge_json.stringify_nonempty c,
    );
    parsed = p.challenge_json.parse-stringify c;
  }

  -- A whole round ends well: a challenge was sent to a device, the response is handled later, Redis
  -- being as it was left, at most 10 seconds after the expiry was computed, the very end of the 10
  -- seconds included (the code refuses only what is later than the expiry); if the device is
  -- enrolled and active with an absent heartbeat or one of at most 5 minutes, its key verifies
  -- the signature over the signing text of the challenge that was sent, and the database can
  -- record the verdict, then the response is answered with a valid signature and VERIFIED.
  pub round_verified :
      (d : Device) (sig : String)
      → p.clock (suc w2.readings) ≤ p.clock (suc w.readings) + 10000
      → p.devices.find_unique dev w2.devices ≡ some d
      → d.status ≡ active
      → IsFresh (p.clock (suc (suc w2.readings))) d.last_heartbeat
      → p.rsa_verify d.public_key_pem (signed_material c) sig ≡ some true
      → CanRecord p w2 c
      → (verify_response p (p.uuid w.draws) dev sig w2).0
        ≡ ok (record { valid = true; status = verified; reason = verified_reason d.hardware_bound })
  round_verified d sig in_time found on_duty fresh signed can =
      verify_response_complete p (p.uuid w.draws) dev sig c d w2 (held_in_time in_time)
        (eq_refl dev) found on_duty (late_eq ∙ ground arith) signed fresh can

  pub held_same : (c' : StoredChallenge) → Holds p w2 (p.uuid w.draws) c' → c' ≡ c
  held_same c' h = ground (arith, held_json, h.stored, h.parsed, p.challenge_json.parse-stringify c)

  -- A round that is too late never ends well: if the response is handled more than 10 seconds after
  -- the expiry was computed, then whatever the device and the signature, an answer is FAILED.
  pub round_expired :
      (did sig : String) (w3 : World p) (a : VerifyResult)
      → p.clock (suc w.readings) + 10000 < p.clock (suc w2.readings)
      → verify_response p (p.uuid w.draws) did sig w2 ≡ (ok a, w3)
      → a.status ≡ failed
  round_expired did sig w3 a over e = go (verify_response_ok p (p.uuid w.draws) did sig w2 w3 a e)
    where
      go : Verdict p w2 w3 (p.uuid w.draws) did sig a → a.status ≡ failed
      go (absent _ same _) = rw same refl
      go (mismatch _ _ _ same _) = rw same refl
      go (unenrolled _ _ _ same _) = rw same refl
      go (judged c' d h same found result _) =
          ap (λ (y : VerifyResult). y.status) result
          ∙ expired-failed _ _ (ap (is_late p w2) (held_same c' h) ∙ late_eq ∙ ground arith)
