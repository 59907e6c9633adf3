-- ===== src/Interleaving/Challenges.antt =====
-- The handlers of challenge.service.ts keep the state sound, whatever overtakes them.
use troofai_mvp.Prelude.{
  ℕ, String, ◌≡◌, refl, Bool, true, false, not, Option, none, some, ◌==◌, if◌then◌else◌,
}
use troofai_mvp.Schema.{Device}
use troofai_mvp.Platform.{Platform, StoredChallenge}
use troofai_mvp.Exec.{ok}
use troofai_mvp.World.{World, truthy, redis_get, json_parse}
use troofai_mvp.Device.{find_by_id}
use troofai_mvp.Policy.{PolicyResult}
use troofai_mvp.Challenge as C
use troofai_mvp.Integrity.{IsSound, Extends, Extends-trans, HasDevice}
use troofai_mvp.Integrity.Quiet.{Keeps-now, Keeps-redis_get, Keeps-json_parse}
use troofai_mvp.Integrity.Rows.{HasDevice-Extends}
use troofai_mvp.Integrity.Services.{keeps_rules, Keeps-log}
use troofai_mvp.Integrity.Challenges.{Keeps-verdict, Keeps-find_by_id, held_HasDevice}
use troofai_mvp.Interleaving.{Thread, call, return, ◌>>=◌}
use troofai_mvp.Interleaving.Handlers.{
  settle_steps, judge_steps, check_device_steps, verify_response_steps,
}
use troofai_mvp.Interleaving.Safety.{
  Guarded, Guarded-return, Guarded-call, Guarded-step, Guarded-bind,
}

pub ruleset guarded_rules = (Guarded-step, Guarded-bind, Guarded-call, Guarded-return)

module _ (p : Platform) where
  Guarded-settle :
      (cid did : String) (c : StoredChallenge) (d : Device) (b : Bool) (policy : PolicyResult)
      (w : World p)
      → HasDevice p w c.payload.participant_id
      → Guarded p (settle_steps p cid did c d b policy) w
  unfolding settle_steps
  Guarded-settle cid did c d b policy w has =
      search (guarded_rules, keeps_rules, Keeps-log, Keeps-verdict, HasDevice-Extends) depth 20

  Guarded-judge :
      (cid did sig : String) (c : StoredChallenge) (late : Bool) (d : Device) (w : World p)
      → HasDevice p w c.payload.participant_id
      → Guarded p (judge_steps p cid did sig c late d) w
  unfolding judge_steps
  Guarded-judge cid did sig c late d w has =
      search (guarded_rules, keeps_rules, Guarded-settle, HasDevice-Extends) depth 20

  -- `check_device_steps` after it has read the clock, and after it has asked for the device.
  abbrev found_device_steps :
      String → String → String → StoredChallenge → ℕ → Option Device → Thread p C.VerifyResult
  found_device_steps cid did sig c t none = return (C.refused "Device not found")
  found_device_steps cid did sig c t (some d) =
      judge_steps p cid did sig c (C.is_after p t c.payload.expires_at) d

  Guarded-found_device :
      (cid did sig : String) (c : StoredChallenge) (t : ℕ) (o : Option Device) (w : World p)
      → HasDevice p w c.payload.participant_id
      → Guarded p (found_device_steps cid did sig c t o) w
  Guarded-found_device cid did sig c t none w has = Guarded-return p _ w
  Guarded-found_device cid did sig c t (some d) w has = Guarded-judge cid did sig c _ d w has

  Guarded-checked :
      (cid did sig : String) (c : StoredChallenge) (t : ℕ) (other : Bool) (w : World p)
      → HasDevice p w c.payload.participant_id
      → Guarded p
          (if other
            then return (C.refused "Device ID mismatch")
            else (call (find_by_id p did) >>= found_device_steps cid did sig c t))
          w
  Guarded-checked cid did sig c t true w has = Guarded-return p _ w
  Guarded-checked cid did sig c t false w has =
      Guarded-step p _ (found_device_steps cid did sig c t) w (λ u _. Keeps-find_by_id p did u)
        λ o u v x _ _ y.
          Guarded-found_device cid did sig c t o v
            (HasDevice-Extends p w v (Extends-trans p w u v x y) c.payload.participant_id has)

  Guarded-check_device :
      (cid did sig : String) (c : StoredChallenge) (w : World p)
      → HasDevice p w c.payload.participant_id
      → Guarded p (check_device_steps p cid did sig c) w
  unfolding check_device_steps
  Guarded-check_device cid did sig c w has =
      Guarded-step p _ _ w (λ u _. Keeps-now p u)
        λ t u v x _ _ y.
          Guarded-checked cid did sig c t (not (c.device_id == did)) v
            (HasDevice-Extends p w v (Extends-trans p w u v x y) c.payload.participant_id has)

  -- `verify_response_steps` after Redis has answered.
  abbrev fetched_steps : String → String → String → Option String → Thread p C.VerifyResult
  fetched_steps cid did sig none = return (C.refused "Challenge expired or not found")
  fetched_steps cid did sig (some json) =
      call (json_parse p p.challenge_json json) >>= check_device_steps p cid did sig

  Guarded-fetched :
      (cid did sig : String) (found o : Option String) (u v : World p)
      → IsSound p u
      → truthy found ≡ o
      → redis_get p (C.challenge_key cid) u ≡ (ok found, v)
      → Extends p u v
      → Guarded p (fetched_steps cid did sig o) v
  Guarded-fetched cid did sig found none u v s e h x = Guarded-return p _ v
  Guarded-fetched cid did sig found (some json) u v s e h x =
      Guarded-step p _ (check_device_steps p cid did sig) v
        (λ w _. Keeps-json_parse p p.challenge_json json w)
        λ c w t y _ parsed z. Guarded-check_device cid did sig c t (
          HasDevice-Extends p u t (Extends-trans p u v t x (Extends-trans p v w t y z))
            c.payload.participant_id (held_HasDevice p cid found json c u v w t s h e parsed))

  pub Guarded-verify_response :
      (cid did sig : String) (w : World p) → Guarded p (verify_response_steps p cid did sig) w
  unfolding verify_response_steps
  Guarded-verify_response cid did sig w =
      Guarded-step p _ _ w (λ u _. Keeps-redis_get p (C.challenge_key cid) u)
        λ found u v _ s e x. record {
          at = (Guarded-fetched cid did sig found (truthy found) u v s refl e x).at;
        }
