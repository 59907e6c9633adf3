-- ===== src/Integrity/Challenges.antt =====
-- `verifyResponse` and `issueChallenge` of services/hub-api against the integrity of the state.
use troofai_mvp.Prelude.{
  ℕ, String, ◌≡◌, refl, Bool, not, Option, none, some, arith, ◌==◌, Bool-cases, inl, inr,
  Option-cases, if◌then◌else◌,
}
use troofai_mvp.Schema.{Device}
use troofai_mvp.Platform.{Platform, StoredChallenge}
use troofai_mvp.Exec.{ok, pure, ◌>>=◌}
use troofai_mvp.World.{World, Hub, truthy, now, redis_get, json_parse, update_participant}
use troofai_mvp.Device.{find_by_id}
use troofai_mvp.Policy.{PolicyResult}
use troofai_mvp.Challenge.{
  VerifyResult, refused, challenge_key, is_after, verdict_patch, settle, judge, check_device,
  verify_response,
}
use troofai_mvp.Challenge.Race.{after_fetch}
use troofai_mvp.Integrity.{IsSound, Extends, Keeps, Keeps-bind, HasDevice}
use troofai_mvp.Integrity.Quiet.{Keeps-now, Keeps-redis_get, Keeps-json_parse}
use troofai_mvp.Integrity.Rows.{HasDevice-Extends}
use troofai_mvp.Integrity.Updates.{Keeps-update_participant}
use troofai_mvp.Integrity.Services.{keeps_rules, Keeps-log, Keeps-find_device, Keeps-pure}

module _ (p : Platform) where
  pub Keeps-verdict :
      (id : String) (policy : PolicyResult) (t : ℕ) (w : World p)
      → HasDevice p w id
      → Keeps p (update_participant p id (verdict_patch policy t)) w
  Keeps-verdict id policy t w has =
      Keeps-update_participant p id (verdict_patch policy t) w (λ r. refl)
        (λ r. record { meeting = refl; user = refl; name = refl; joined = refl; bound = λ b. b })
        (λ s r found l. record {
          meeting = l.meeting;
          device = l.device;
          trusted = λ _. ground (arith, has.found, found, has.bound);
        })

  Keeps-settle :
      (cid did : String) (c : StoredChallenge) (d : Device) (b : Bool) (policy : PolicyResult)
      (w : World p)
      → HasDevice p w c.payload.participant_id
      → Keeps p (settle p cid did c d b policy) w
  unfolding settle
  Keeps-settle cid did c d b policy w has =
      search (keeps_rules, Keeps-log, Keeps-verdict, HasDevice-Extends) depth 12

  Keeps-judge :
      (cid did sig : String) (c : StoredChallenge) (late : Bool) (d : Device) (w : World p)
      → HasDevice p w c.payload.participant_id
      → Keeps p (judge p cid did sig c late d) w
  unfolding judge
  Keeps-judge cid did sig c late d w has =
      search (keeps_rules, Keeps-settle, HasDevice-Extends) depth 12

  pub Keeps-find_by_id : (id : String) (w : World p) → Keeps p (find_by_id p id) w
  unfolding find_by_id
  Keeps-find_by_id id w = Keeps-find_device p id w

  -- `check_device` after it has asked for the device, and after it has read the clock.
  abbrev found_device :
      String → String → String → StoredChallenge → ℕ → Option Device → Hub p VerifyResult
  found_device cid did sig c t none = pure (refused "Device not found")
  found_device cid did sig c t (some d) =
      judge p cid did sig c (is_after p t c.payload.expires_at) d

  abbrev checked : String → String → String → StoredChallenge → ℕ → Hub p VerifyResult
  checked cid did sig c t =
      if not (c.device_id == did)
      then pure (refused "Device ID mismatch")
      else (find_by_id p did >>= found_device cid did sig c t)

  Keeps-found_device :
      (cid did sig : String) (c : StoredChallenge) (t : ℕ) (o : Option Device) (v : World p)
      → HasDevice p v c.payload.participant_id
      → Keeps p (found_device cid did sig c t o) v
  Keeps-found_device cid did sig c t none v h = Keeps-pure p (refused "Device not found") v
  Keeps-found_device cid did sig c t (some d) v h =
      Keeps-judge cid did sig c (is_after p t c.payload.expires_at) d v h

  Keeps-checked :
      (cid did sig : String) (c : StoredChallenge) (t : ℕ) (v : World p)
      → HasDevice p v c.payload.participant_id
      → Keeps p (checked cid did sig c t) v
  Keeps-checked cid did sig c t v h = elim (Bool-cases (c.device_id == did)) [
    | inr other ↦ rw other (Keeps-pure p (refused "Device ID mismatch") v)
    | inl same ↦ rw same (
        Keeps-bind p (find_by_id p did) (found_device cid did sig c t) v (Keeps-find_by_id did v)
          λ o u _ x.
            Keeps-found_device cid did sig c t o u
              (HasDevice-Extends p v u x c.payload.participant_id h))
  ]

  Keeps-check_device :
      (cid did sig : String) (c : StoredChallenge) (w : World p)
      → HasDevice p w c.payload.participant_id
      → Keeps p (check_device p cid did sig c) w
  unfolding check_device
  Keeps-check_device cid did sig c w has =
      Keeps-bind p (now p) (checked cid did sig c) w (Keeps-now p w) λ t v _ x.
        Keeps-checked cid did sig c t v (HasDevice-Extends p w v x c.payload.participant_id has)

  of_truthy : (o : Option String) (s : String) → truthy o ≡ some s → o ≡ some s
  of_truthy none s h = absurd (ground arith)
  of_truthy (some a) s h = ground arith

  -- What Redis holds in a sound state is a challenge for a participant with a device.
  pub held_HasDevice :
      (cid : String) (found : Option String) (json : String) (c : StoredChallenge)
      (w u v t : World p)
      → IsSound p w
      → redis_get p (challenge_key cid) w ≡ (ok found, u)
      → truthy found ≡ some json
      → json_parse p p.challenge_json json v ≡ (ok c, t)
      → HasDevice p w c.payload.participant_id
  unfolding redis_get json_parse
  held_HasDevice cid found json c w u v t s fetched there parsed =
      s.challenges (p.clock w.readings) cid json c (omega arith)
        (ground (arith, fetched, of_truthy found json there))
        (elim (Option-cases (p.challenge_json.parse json)) [
          | inl broken ↦ absurd (ground (arith, broken, parsed))
          | inr (c', whole) ↦ ground (arith, whole, parsed)
        ])

  -- `verify_response` after Redis has answered.
  abbrev fetched : String → String → String → Option String → Hub p VerifyResult
  fetched cid did sig none = pure (refused "Challenge expired or not found")
  fetched cid did sig (some json) =
      json_parse p p.challenge_json json >>= check_device p cid did sig

  Keeps-fetched :
      (cid did sig : String) (found o : Option String) (w u v : World p)
      → IsSound p w
      → truthy found ≡ o
      → redis_get p (challenge_key cid) w ≡ (ok found, u)
      → Extends p w v
      → Keeps p (fetched cid did sig o) v
  Keeps-fetched cid did sig found none w u v s e h x =
      Keeps-pure p (refused "Challenge expired or not found") v
  Keeps-fetched cid did sig found (some json) w u v s e h x =
      Keeps-bind p (json_parse p p.challenge_json json) (check_device p cid did sig) v
        (Keeps-json_parse p p.challenge_json json v)
        λ c t parsed y. Keeps-check_device cid did sig c t (
          HasDevice-Extends p v t y c.payload.participant_id (
            HasDevice-Extends p w v x c.payload.participant_id
              (held_HasDevice cid found json c w u v t s h e parsed)))

  -- The rest of a response may run later than Redis has answered.
  pub Keeps-after_fetch :
      (cid did sig : String) (found : Option String) (w u v : World p)
      → IsSound p w
      → redis_get p (challenge_key cid) w ≡ (ok found, u)
      → Extends p w v
      → Keeps p (after_fetch p cid did sig found) v
  unfolding after_fetch
  Keeps-after_fetch cid did sig found w u v s h x = record {
    at = (Keeps-fetched cid did sig found (truthy found) w u v s refl h x).at;
  }

  pub Keeps-verify_response :
      (cid did sig : String) (w : World p) → Keeps p (verify_response p cid did sig) w
  unfolding verify_response after_fetch
  Keeps-verify_response cid did sig w = record {
    at = λ s.
        (Keeps-bind p (redis_get p (challenge_key cid)) (after_fetch p cid did sig) w
            (Keeps-redis_get p (challenge_key cid) w)
            λ found v h x. Keeps-after_fetch cid did sig found w v v s h x).at
          s;
  }
