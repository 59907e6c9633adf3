-- ===== src/Integrity/Quiet.antt =====
-- Calls of services/hub-api that write no row: the clock, the random sources, reads, and Redis.
use Prim.Native.Char.{code}
use text.Mathlib.TextLemmas.{cons-append, head-eq_of_cons-eq}
use mathlib.Core.Path.{subst}
use troofai_mvp.Prelude.{
  ℕ, suc, ◌≤◌, String, ◌≡◌, sym, ◌∙◌, ap, false, Option, none, some, arith, ◌==◌, ==_of_ne,
  Bool-cases, inl, inr,
}
use troofai_mvp.Platform.{Platform, StoredChallenge, Codec}
use troofai_mvp.Platform.Time.{clock_mono}
use troofai_mvp.Exec.{Result, ok, thrown, Exception, or_throw}
use troofai_mvp.Gateway.{Gateway}
use troofai_mvp.World.{
  World, now, random_uuid, random_base64, random_hex, json_parse, redis_set, redis_get, redis_del,
  on_gateway,
}
use troofai_mvp.Challenge.{challenge_key}
use troofai_mvp.Meeting.{token_key}
use troofai_mvp.Integrity.{IsSound, Extends, Extends-refl, Keeps, HasDevice}

module _ (p : Platform) where
  -- Redis holds no challenge that it has not held.
  pub IsNoMore : World p → ℕ → p.redis.Db → Type 0
  IsNoMore w n db =
      (t : ℕ) (id json : String)
      → p.clock n ≤ t
      → p.redis.get t (challenge_key id) db ≡ some json
      → p.redis.get t (challenge_key id) w.redis ≡ some json

  -- A state that differs in the clock, the random sources, the gateway and entries that have gone.
  pub quiet :
      (w : World p) (db : p.redis.Db) (g : Gateway) (n d : ℕ)
      → w.readings ≤ n
      → IsNoMore w n db
      → IsSound p w
      → IsSound p (record w { redis = db; gateway = g; readings = n; draws = d })
        × Extends p w (record w { redis = db; gateway = g; readings = n; draws = d })
  unfolding IsNoMore
  quiet w db g n d later less s = (
    record {
      devices = s.devices;
      meetings = s.meetings;
      participants = λ k r h.
          let l = s.participants k r h in
          record { meeting = l.meeting; device = l.device; trusted = l.trusted };
      events = s.events;
      challenges = λ t id json c after held parsed.
          let before : p.clock w.readings ≤ t =
            omega (arith, clock_mono p w.readings n later, after) in
          let b = s.challenges t id json c before (less t id json after held) parsed in
          record { row = b.row; found = b.found; bound = b.bound };
    },
    record {
      clock = later;
      tenants = λ k r h. h;
      meetings = λ k r h. h;
      events = λ k r h. h;
      devices = λ k r h. (Extends-refl p w).devices k r h;
      participants = λ k r h. (Extends-refl p w).participants k r h;
    },
  )

  same_redis : (w : World p) (n : ℕ) → IsNoMore w n w.redis
  unfolding IsNoMore
  same_redis w n t id json after held = held

  pub Keeps-now : (w : World p) → Keeps p (now p) w
  unfolding now
  Keeps-now w = record {
    at =
        quiet w w.redis w.gateway (suc w.readings) w.draws (omega arith)
          (same_redis w (suc w.readings));
  }

  pub Keeps-random_uuid : (w : World p) → Keeps p (random_uuid p) w
  unfolding random_uuid
  Keeps-random_uuid w = record {
    at = quiet w w.redis w.gateway w.readings (suc w.draws) (omega arith) (same_redis w w.readings);
  }

  pub Keeps-random_base64 : (n : ℕ) (w : World p) → Keeps p (random_base64 p n) w
  unfolding random_base64
  Keeps-random_base64 n w = record {
    at = quiet w w.redis w.gateway w.readings (suc w.draws) (omega arith) (same_redis w w.readings);
  }

  pub Keeps-random_hex : (n : ℕ) (w : World p) → Keeps p (random_hex p n) w
  unfolding random_hex
  Keeps-random_hex n w = record {
    at = quiet w w.redis w.gateway w.readings (suc w.draws) (omega arith) (same_redis w w.readings);
  }

  pub Keeps-redis_get : (k : String) (w : World p) → Keeps p (redis_get p k) w
  unfolding redis_get
  Keeps-redis_get k w = record {
    at =
        quiet w w.redis w.gateway (suc w.readings) w.draws (omega arith)
          (same_redis w (suc w.readings));
  }

  pub Keeps-on_gateway : (f : Gateway → Gateway) (w : World p) → Keeps p (on_gateway p f) w
  unfolding on_gateway
  Keeps-on_gateway f w = record {
    at = quiet w w.redis (f w.gateway) w.readings w.draws (omega arith) (same_redis w w.readings);
  }

  -- An action that leaves the state alone.
  pub Keeps-same : {A : Type 0} (r : Result A) (w : World p) → Keeps p (λ v. (r, v)) w
  Keeps-same r w = record { at = λ s. (s, Extends-refl p w) }

  pub Keeps-or_throw :
      {A : Type 0} (x : Exception) (o : Option A) (w : World p) → Keeps p (or_throw x o) w
  Keeps-or_throw x none w = Keeps-same (thrown x) w
  Keeps-or_throw x (some a) w = Keeps-same (ok a) w

  pub Keeps-json_parse :
      {A : Type 0} (codec : Codec A) (s : String) (w : World p) → Keeps p (json_parse p codec s) w
  unfolding json_parse
  Keeps-json_parse codec s w = Keeps-or_throw _ (codec.parse s) w

  pub Keeps-redis_del : (k : String) (w : World p) → Keeps p (redis_del p k) w
  unfolding redis_del IsNoMore
  Keeps-redis_del k w = record {
    at =
        quiet w (p.redis.del k w.redis) w.gateway w.readings w.draws (omega arith)
          (λ t id json after held.
            ground (arith, held, p.redis.get-del t k (challenge_key id) w.redis));
  }

  -- The keys of tokens are not the keys of challenges.
  token-ne-challenge : (a b : String) → (token_key a == challenge_key b) ≡ false
  token-ne-challenge a b = ==_of_ne _ _ λ e.
      let first : 106 ≡ 99 =
        ap code (head-eq_of_cons-eq (sym (cons-append _ _ _) ∙ e ∙ cons-append _ _ _)) in
      omega (arith, first)

  -- An entry under the key of a token.
  pub Keeps-set_token :
      (id json : String) (n : ℕ) (w : World p)
      → Keeps p (redis_set p (token_key id) json (some (suc n))) w
  unfolding redis_set IsNoMore
  Keeps-set_token id json n w = record {
    at =
        quiet w (p.redis.set_ex (p.clock w.readings) (token_key id) json (suc n) w.redis) w.gateway
          (suc w.readings) w.draws (omega arith)
          (λ t cid j after held. ground (
            arith,
            held,
            token-ne-challenge id cid,
            p.clock_forward w.readings,
            p.redis.get-set_ex (p.clock w.readings) t (token_key id) (challenge_key cid) json
                (suc n) w.redis (omega (arith, p.clock_forward w.readings, after)),
          ));
  }

  -- An entry that is a challenge for a participant with a device.
  pub Keeps-set_challenge :
      (id : String) (c : StoredChallenge) (n : ℕ) (w : World p)
      → HasDevice p w c.payload.participant_id
      → Keeps p (redis_set p (challenge_key id) (p.challenge_json.stringify c) (some (suc n))) w
  unfolding redis_set
  Keeps-set_challenge id c n w has = record {
    at = λ s. (
      record {
        devices = s.devices;
        meetings = s.meetings;
        participants = λ k r h.
            let l = s.participants k r h in
            record { meeting = l.meeting; device = l.device; trusted = l.trusted };
        events = s.events;
        challenges = λ t cid json x after held parsed.
            let b = owner s t cid json x after held parsed in
            record { row = b.row; found = b.found; bound = b.bound };
      },
      record {
        clock = omega arith;
        tenants = λ k r h. h;
        meetings = λ k r h. h;
        events = λ k r h. h;
        devices = λ k r h. (Extends-refl p w).devices k r h;
        participants = λ k r h. (Extends-refl p w).participants k r h;
      },
    );
  }
    where
      owner :
          IsSound p w
          → (t : ℕ) (cid json : String) (x : StoredChallenge) → p.clock (suc w.readings) ≤ t
          → p.redis.get t (challenge_key cid) (
              p.redis.set_ex
                (p.clock w.readings)
                (challenge_key id)
                (p.challenge_json.stringify c)
                (suc n)
                w.redis)
            ≡ some json
          → p.challenge_json.parse json ≡ some x
          → HasDevice p w x.payload.participant_id
      owner s t cid json x after held parsed =
          let before : p.clock w.readings ≤ t = omega (arith, p.clock_forward w.readings, after) in
          let law =
            p.redis.get-set_ex (p.clock w.readings) t (challenge_key id) (challenge_key cid)
              (p.challenge_json.stringify c) (suc n) w.redis before in
          elim (Bool-cases (challenge_key id == challenge_key cid)) [
            | inr other ↦ s.challenges t cid json x before (ground (arith, held, law, other)) parsed
            | inl same ↦
                let e : c ≡ x =
                  ground (arith, held, law, same, parsed, p.challenge_json.parse-stringify c) in
                subst (λ (y : StoredChallenge). HasDevice p w y.payload.participant_id) e has
          ]
