-- ===== src/Meeting/Tokens.antt =====
-- A join token from `issueJoinToken` to `bindDevice`.
use troofai_mvp.Prelude.{
  suc, ◌+◌, ◌≤◌, ◌<◌, String, ◌≡◌, refl, sym, ◌∙◌, ap, true, none, some, arith, eq_refl, ltb,
  if◌then◌else◌, Option-cases, inl, inr,
}
use troofai_mvp.Schema.{Device}
use troofai_mvp.Platform.{Platform, StoredToken}
use troofai_mvp.Platform.Time.{clock_mono}
use troofai_mvp.Exec.{ok, thrown, bad_request}
use troofai_mvp.World.{
  World, signature_valid, now, random_uuid, redis_set, redis_get, find_participant,
}
use troofai_mvp.Meeting.{JoinToken, token_key, bind_material, issue_join_token, bind_device}
use troofai_mvp.Meeting.Binding.{IsAccepted}

module _ (p : Platform) (mid pid : String) where
  -- The token that a call at the state `w` makes.
  abbrev pub new_token : World p → JoinToken
  new_token w = record {
    join_token = p.uuid w.draws;
    meeting_id = mid;
    participant_id = pid;
    expires_at = p.to_iso (p.clock w.readings + 30000);
  }

  -- What Redis holds of it.
  abbrev pub stored_token : World p → StoredToken
  stored_token w = record {
    meeting_id = mid;
    participant_id = pid;
    expires_at = p.to_iso (p.clock w.readings + 30000);
  }

  -- The state after the call.
  abbrev pub issued_at : World p → World p
  issued_at w = record w {
    redis =
        p.redis.set_ex (p.clock (suc w.readings)) (token_key (p.uuid w.draws))
          (p.token_json.stringify (stored_token w)) 30 w.redis;
    readings = suc (suc w.readings);
    draws = suc w.draws;
  }

  pub issue_join_token_ok :
      (w w' : World p) (t : JoinToken)
      → issue_join_token p mid pid w ≡ (ok t, w')
      → (t ≡ new_token w) × (w' ≡ issued_at w)
  unfolding issue_join_token find_participant random_uuid now redis_set
  issue_join_token_ok w w' t e =
      elim (Option-cases (p.participants.find_unique pid w.participants)) [
        | inl missing ↦ absurd (ground (arith, missing))
        | inr (r, there) ↦ (ground (arith, there), ground (arith, there))
      ]

module _ (p : Platform) (mid pid : String) (w w1 w2 : World p) (t : JoinToken)
    (issued : issue_join_token p mid pid w ≡ (ok t, w1)) (redis_kept : w2.redis ≡ w1.redis)
    (later : w1.readings ≤ w2.readings) where
  after_storing : p.clock (suc w.readings) ≤ p.clock w2.readings
  after_storing = clock_mono p (suc w.readings) w2.readings (
      omega
        (arith, ap (λ (v : World p). v.readings) (issue_join_token_ok p mid pid w w1 t issued).1))

  held_token : p.redis.get (p.clock w2.readings) (token_key t.join_token) w2.redis ≡ (
      if ltb (p.clock w2.readings) (p.clock (suc w.readings) + 30000)
      then some (p.token_json.stringify (stored_token p mid pid w))
      else none)
  held_token =
      let (made, after) = issue_join_token_ok p mid pid w w1 t issued in
      rw (made, redis_kept, after)
        (p.redis.get-set_ex (p.clock (suc w.readings)) (p.clock w2.readings)
            (token_key (p.uuid w.draws)) (token_key (p.uuid w.draws))
            (p.token_json.stringify (stored_token p mid pid w)) 30 w.redis after_storing
          ∙ rw (eq_refl (token_key (p.uuid w.draws))) refl)

  -- A token that has been issued is good for 30 seconds from the time that it was stored: if Redis is
  -- as it was left, the named device is enrolled, and its key verifies the signature over the
  -- token, the meeting, the participant, the device and the expiry that the call returned, then
  -- all checks of a binding in that meeting pass.
  pub issue_join_token-IsAccepted :
      (d : Device) (dev sig : String)
      → p.clock w2.readings < p.clock (suc w.readings) + 30000
      → p.devices.find_unique dev w2.devices ≡ some d
      → signature_valid p d.public_key_pem (bind_material t.join_token mid pid dev t.expires_at) sig
        ≡ true
      → IsAccepted p w2 mid t.join_token dev sig (stored_token p mid pid w) d
  issue_join_token-IsAccepted d dev sig in_time found signed = record {
    json = p.token_json.stringify (stored_token p mid pid w);
    stored =
        ground
          (arith, held_token, in_time, p.token_json.stringify_nonempty (stored_token p mid pid w));
    parsed = p.token_json.parse-stringify (stored_token p mid pid w);
    same_meeting = eq_refl mid;
    enrolled = found;
    signed =
        ap
          (λ (x : JoinToken).
            signature_valid p d.public_key_pem (bind_material t.join_token mid pid dev x.expires_at)
              sig)
          (sym (issue_join_token_ok p mid pid w w1 t issued).0)
        ∙ signed;
  }

  -- After 30 seconds the token is refused as expired, whatever the meeting, the device and the
  -- signature, and nothing but the clock changes.
  pub issue_join_token_expired :
      (mid' dev sig : String)
      → p.clock (suc w.readings) + 30000 ≤ p.clock w2.readings
      → bind_device p mid' t.join_token dev sig w2 ≡ (
        thrown (bad_request "Join token expired or invalid"),
        record w2 { readings = suc w2.readings },
      )
  unfolding bind_device redis_get
  issue_join_token_expired mid' dev sig over = ground (arith, held_token, over)
