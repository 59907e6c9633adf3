-- ===== src/Challenge/Sent.antt =====
-- A challenge that has been sent: what Redis holds of it and for how long, and what the device gets.
use troofai_mvp.Prelude.{
  ℕ, suc, ◌+◌, ◌≤◌, String, ◌≡◌, refl, ◌∙◌, none, some, arith, ltb, eq_refl, inl, inr,
  if◌then◌else◌,
}
use troofai_mvp.Schema.{Meeting, MeetingParticipant}
use troofai_mvp.Platform.{Platform, StoredChallenge}
use troofai_mvp.Exec.{ok}
use troofai_mvp.World.{World, now, random_uuid, random_base64, redis_set, on_gateway}
use troofai_mvp.Gateway.{emit_challenge_to_device}
use troofai_mvp.Audit.Entry.{log_cases}
use troofai_mvp.Challenge.{
  IssueResult, challenge_sent, challenge_key, new_payload, sent_event, send_challenge,
}

module _ (p : Platform) where
  -- The challenge that a call at the state `w` makes.
  abbrev pub new_challenge :
      World p → String → Meeting → MeetingParticipant → String → StoredChallenge
  new_challenge w meeting_id meeting participant device_id = record {
    payload =
        new_payload p (p.uuid w.draws) (p.random_base64 32 (suc w.draws)) meeting_id participant.id
          (p.clock w.readings) (p.clock (suc w.readings));
    tenant_id = meeting.tenant_id;
    device_id = device_id;
    user_id = participant.user_id;
  }

  -- Redis after the call: it got the entry at the third reading of the clock.
  abbrev pub redis_with : World p → StoredChallenge → p.redis.Db
  redis_with w c =
      p.redis.set_ex (p.clock (suc (suc w.readings))) (challenge_key c.payload.challenge_id)
        (p.challenge_json.stringify c) 15 w.redis

  pub record Sent (w w' : World p) (meeting_id : String) (meeting : Meeting)
      (participant : MeetingParticipant) (device_id : String) (r : IssueResult) : Type 0 where
    pub answered : r.outcome ≡ challenge_sent (p.uuid w.draws)
    pub named : r.participant_id ≡ participant.id
    pub events : p.audit_events.Rows
    pub after : w' ≡ record w {
      audit_events = events;
      redis = redis_with w (new_challenge w meeting_id meeting participant device_id);
      gateway =
          emit_challenge_to_device device_id
            (new_challenge w meeting_id meeting participant device_id).payload
            w.gateway;
      readings = suc (suc (suc (suc w.readings)));
      draws = suc (suc (suc w.draws));
    }

  -- A challenge that was sent is in Redis under its id, went to the socket of the device, and
  -- nothing else changed but the audit log: participants keep their status until the answer.
  pub send_challenge_ok :
      (mid : String) (m : Meeting) (r : MeetingParticipant) (dev : String) (w w' : World p)
      (x : IssueResult)
      → send_challenge p mid m r dev w ≡ (ok x, w')
      → Sent w w' mid m r dev x
  unfolding send_challenge now random_uuid random_base64 redis_set on_gateway
  send_challenge_ok mid m r dev w w' x e =
      elim (log_cases p
        (record w {
          redis = redis_with w (new_challenge w mid m r dev);
          gateway = emit_challenge_to_device dev (new_challenge w mid m r dev).payload w.gateway;
          readings = suc (suc (suc w.readings));
          draws = suc (suc w.draws);
        })
        (sent_event (p.uuid w.draws) mid m r dev)) [
          | inr (_, _, refused) ↦ absurd (ground (arith, refused))
          | inl (rows, _, call) ↦ record {
            answered = ground (arith, call);
            named = ground (arith, call);
            events = rows;
            after = ground (arith, call);
          }
        ]

  -- At any later time Redis returns the challenge if less than 15 seconds have passed since it was
  -- stored, and nothing after that.
  pub redis_with_deadline :
      (w : World p) (c : StoredChallenge) (later : ℕ)
      → p.clock (suc (suc w.readings)) ≤ later
      → p.redis.get later (challenge_key c.payload.challenge_id) (redis_with w c) ≡ (
          if ltb later (p.clock (suc (suc w.readings)) + 15000)
          then some (p.challenge_json.stringify c)
          else none)
  redis_with_deadline w c later h =
      p.redis.get-set_ex (p.clock (suc (suc w.readings))) later
        (challenge_key c.payload.challenge_id) (challenge_key c.payload.challenge_id)
        (p.challenge_json.stringify c) 15 w.redis h
      ∙ rw (eq_refl (challenge_key c.payload.challenge_id)) refl
