-- ===== src/Agent/Rounds.antt =====
-- A challenge that the hub sends and the agent answers: Services/ChallengeSigningService.cs and
-- WebSocketService.cs of the agent, challenge.service.ts of the hub.
use troofai_mvp.Prelude.{
  suc, ◌+◌, ◌≤◌, String, ◌≡◌, refl, ◌∙◌, ap, true, some, arith, All, sym, [], ◌∷◌, ◌++◌,
}
use troofai_mvp.Prelude.Text.{IsOneLine, has_chars}
use troofai_mvp.Schema.{Meeting, MeetingParticipant, verified}
use troofai_mvp.Platform.{Platform, ChallengePayload, StoredChallenge}
use troofai_mvp.Collections.{get}
use troofai_mvp.Gateway.{challenge_issue, emit}
use troofai_mvp.Exec.{ok}
use troofai_mvp.World.{World}
use troofai_mvp.Policy.{verified_reason}
use troofai_mvp.Policy.Rules.{IsFresh}
use troofai_mvp.Challenge.{
  IssueResult, VerifyResult, signed_material, send_challenge, verify_response,
}
use troofai_mvp.Challenge.Sent.{new_challenge, send_challenge_ok}
use troofai_mvp.Challenge.Delivered.{outbox-emit_challenge_to_device}
use troofai_mvp.Challenge.Honest.{CanRecord}
use troofai_mvp.Challenge.Signing.{signed_fields, signed_material_injective}
use troofai_mvp.Challenge.Round.{held_same, round_verified}
use troofai_mvp.Challenge.Soundness.{verify_response_sound}
use troofai_mvp.Events.{result, handle_challenge_response}
use troofai_mvp.Api.Requests.{SocketEvent, challenge_response, challenge_result, answer_socket}
use troofai_mvp.Agent.{Rsa, Agent, challenge_material, on_challenge}
use troofai_mvp.Agent.Keys.{IsKnown}

module _ (rsa : Rsa) (p : Platform) where
  -- The hub's check accepts what a key signs.
  abbrev pub Accepts : Type 0
  Accepts =
      (k : rsa.Key) (text : String)
      → p.rsa_verify (rsa.public_key_pem k) text (rsa.sign k text) ≡ some true

  -- A signature is of one text only.
  abbrev pub Commits : Type 0
  Commits =
      (k : rsa.Key) (text other : String)
      → p.rsa_verify (rsa.public_key_pem k) other (rsa.sign k text) ≡ some true
      → other ≡ text

  -- The challenge that the agent's text is the text of.
  abbrev own_challenge : Agent rsa → StoredChallenge → StoredChallenge
  own_challenge agent c = record c {
    tenant_id = agent.tenant_id;
    device_id = agent.device_id;
    user_id = agent.user_id;
  }

  own_challenge-signed :
      (agent : Agent rsa) (c : StoredChallenge)
      → signed_material (own_challenge agent c) ≡ challenge_material rsa agent c.payload
  unfolding signed_material challenge_material
  own_challenge-signed agent c = refl

  response_answered :
      (cid did sig : String) (a : VerifyResult) (v : World p)
      → v.gateway.has_challenge_service ≡ true
      → (verify_response p cid did sig v).0 ≡ ok a
      → (answer_socket p (challenge_response cid did sig) v).0 ≡ ok (challenge_result (result a))
  unfolding answer_socket handle_challenge_response
  response_answered cid did sig a v up e = ground (arith, up, e)

  module _ (agent : Agent rsa) (mid : String) (m : Meeting) (r : MeetingParticipant)
      (w w1 w2 : World p) (x : IssueResult)
      (sent : send_challenge p mid m r agent.device_id w ≡ (ok x, w1))
      (redis_kept : w2.redis ≡ w1.redis) (later : w1.readings ≤ w2.readings)
      (known : IsKnown rsa p agent w2) where
    abbrev c : StoredChallenge
    c = new_challenge p w mid m r agent.device_id

    same_text :
        m.tenant_id ≡ agent.tenant_id
        → r.user_id ≡ agent.user_id
        → signed_material c ≡ challenge_material rsa agent c.payload
    unfolding signed_material challenge_material
    same_text tenant user = rw (tenant, user) refl

    answers_printable :
        has_chars 8 (p.uuid w.draws) ≡ true
        → has_chars 8 mid ≡ true
        → has_chars 8 r.id ≡ true
        → on_challenge rsa agent c.payload
          ≡ some (
              challenge_response
                (p.uuid w.draws)
                agent.device_id
                (rsa.sign agent.key (challenge_material rsa agent c.payload)))
    unfolding on_challenge
    answers_printable a b d = ground (arith, a, b, d)

    -- A whole round with the agent ends well: when the hub sends a challenge to the agent's device, and the
    -- device has a socket, then exactly one message goes out, to that socket; it is a challenge to which
    -- the agent has an answer; and if the hub handles this answer later, Redis being as it was left,
    -- at most 10 seconds after the expiry was computed (at the very end of them too), then the reply is
    -- a valid signature and VERIFIED. The device is enrolled and active under the agent's key with an
    -- absent heartbeat or one of at most 5 minutes, the meeting is of the agent's tenant, the participant
    -- is the agent's user, the ids of the challenge, the meeting and the participant have 8
    -- characters or more, the gateway has its challenge service and the database can record the verdict.
    pub agent_verified :
        (socket : String)
        → Accepts
        → m.tenant_id ≡ agent.tenant_id
        → r.user_id ≡ agent.user_id
        → has_chars 8 (p.uuid w.draws) ≡ true
        → has_chars 8 mid ≡ true
        → has_chars 8 r.id ≡ true
        → get agent.device_id w.gateway.device_sockets ≡ some socket
        → w2.gateway.has_challenge_service ≡ true
        → p.clock (suc w2.readings) ≤ p.clock (suc w.readings) + 10000
        → IsFresh (p.clock (suc (suc w2.readings))) known.row.last_heartbeat
        → CanRecord p w2 c
        → (y : ChallengePayload) × (e : SocketEvent) × (w1.gateway.outbox
            ≡ w.gateway.outbox ++ (emit (some socket) (challenge_issue y) ∷ []))
          × (on_challenge rsa agent y ≡ some e)
          × ((answer_socket p e w2).0
              ≡ ok (
                  challenge_result (
                    result (record {
                      valid = true;
                      status = verified;
                      reason = verified_reason agent.hardware_bound;
                    }))))
    agent_verified socket accepts tenant user id_shown meeting_shown member_shown connected up
          in_time fresh can =
        let verdict =
          round_verified p mid m r agent.device_id w w1 w2 x sent redis_kept later known.row
            (rsa.sign agent.key (challenge_material rsa agent c.payload)) in_time known.enrolled
            known.on_duty fresh (rw (known.same_key, same_text tenant user) (accepts agent.key _))
            can in
        (
          c.payload,
          _,
          ap (λ (v : World p). v.gateway.outbox)
                (send_challenge_ok p mid m r agent.device_id w w1 x sent).after
              ∙ outbox-emit_challenge_to_device agent.device_id socket c.payload w.gateway
                  connected,
          answers_printable id_shown meeting_shown member_shown,
          response_answered (p.uuid w.draws) agent.device_id _ _ w2 up (
              verdict
              ∙ ap
                  (λ b. ok (record { valid = true; status = verified; reason = verified_reason b }))
                  known.same_flag),
        )

    -- The agent passes for nobody else: if a signature is of one text only and no field of the challenge
    -- holds a newline, then a VERIFIED answer to what the agent signs for a challenge to its device
    -- means that the meeting is of the agent's tenant and the participant is the agent's user.
    pub agent_foreign :
        (a : VerifyResult) (w3 : World p)
        → Commits
        → All IsOneLine (signed_fields c)
        → All IsOneLine (signed_fields (own_challenge agent c))
        → verify_response p
            (p.uuid w.draws)
            agent.device_id
            (rsa.sign agent.key (challenge_material rsa agent c.payload))
            w2
          ≡ (ok a, w3)
        → a.status ≡ verified
        → (m.tenant_id ≡ agent.tenant_id) × (r.user_id ≡ agent.user_id)
    agent_foreign a w3 commits lines own_lines e good =
        let proven = verify_response_sound p (p.uuid w.draws) agent.device_id _ w2 w3 a e good in
        let held =
          held_same p mid m r agent.device_id w w1 w2 x sent redis_kept later proven.challenge
            proven.held in
        let row : known.row ≡ proven.device = ground (arith, known.enrolled, proven.enrolled) in
        let text =
          commits agent.key (challenge_material rsa agent c.payload)
            (signed_material proven.challenge) (rw (← known.same_key, row) proven.signed) in
        let same =
          signed_material_injective c (own_challenge agent c) lines own_lines
            (ap signed_material (sym held) ∙ text ∙ sym (own_challenge-signed agent c)) in
        (
          ap (λ (y : StoredChallenge). y.tenant_id) same,
          ap (λ (y : StoredChallenge). y.user_id) same,
        )
