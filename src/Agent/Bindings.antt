-- ===== src/Agent/Bindings.antt =====
-- A join token that a page hands to the agent: Services/BindingService.cs of the agent, meeting.service.ts
-- of the hub.
use troofai_mvp.Prelude.{suc, ◌+◌, ◌≤◌, ◌<◌, String, ◌≡◌, refl, ap, true, false, none, some, arith}
use troofai_mvp.Schema.{Meeting, MeetingParticipant}
use troofai_mvp.Platform.{Platform}
use troofai_mvp.Exec.{ok}
use troofai_mvp.World.{World, has_tenant, signature_valid}
use troofai_mvp.Meeting.{JoinToken, bind_material, issue_join_token, bind_device}
use troofai_mvp.Meeting.Tokens.{
  new_token, stored_token, issue_join_token_ok, issue_join_token-IsAccepted,
}
use troofai_mvp.Meeting.Binding.{bound_row}
use troofai_mvp.Meeting.Guarantees.{bind_device_complete}
use troofai_mvp.Api.{BindDeviceDto}
use troofai_mvp.ZoomMeeting.{signed}
use troofai_mvp.Agent.{Rsa, Agent, binding_material, handle_bind}
use troofai_mvp.Agent.Keys.{IsKnown}
use troofai_mvp.Agent.Rounds.{Accepts}

module _ (rsa : Rsa) (p : Platform) (agent : Agent rsa) where
  -- What the agent signs is what the hub checks.
  binding_material_lem :
      (t : JoinToken)
      → binding_material rsa agent t
        ≡ bind_material t.join_token t.meeting_id t.participant_id agent.device_id t.expires_at
  unfolding binding_material bind_material
  binding_material_lem t = refl

  answer_of :
      (t : JoinToken) (dto : BindDeviceDto)
      → handle_bind rsa agent (some t) ≡ signed dto
      → dto ≡ record {
        join_token = t.join_token;
        device_id = agent.device_id;
        signature = rsa.sign agent.key (binding_material rsa agent t);
      }
  unfolding handle_bind
  answer_of t dto e = ground (arith, e)

  signature_valid-sign :
      (mid pid pem : String) (w : World p) (t : JoinToken)
      → Accepts rsa p
      → t ≡ new_token p mid pid w
      → pem ≡ rsa.public_key_pem agent.key
      → signature_valid p pem
          (bind_material t.join_token mid pid agent.device_id t.expires_at)
          (rsa.sign agent.key (binding_material rsa agent t))
        ≡ true
  signature_valid-sign mid pid pem w t accepts made key =
      let checked =
        accepts agent.key (bind_material t.join_token mid pid agent.device_id t.expires_at) in
      let text : binding_material rsa agent t
          ≡ bind_material t.join_token mid pid agent.device_id t.expires_at =
        rw made (binding_material_lem (new_token p mid pid w)) in
      rw (key, text) (ap (λ o. elim o [ none ↦ false | some b ↦ b ]) checked)

  -- A join token that the hub has issued and the agent has signed binds: if the answer of the agent
  -- comes back within 30 seconds of the token's being stored, Redis being as it was left, the
  -- agent's device is enrolled with the agent's key, the participant, the meeting and its tenant
  -- are in the database and the id of the event is free, then the participant's row is returned as
  -- VERIFIED with the agent's device.
  pub agent_bound :
      (mid pid : String) (w w1 w2 : World p) (t : JoinToken) (dto : BindDeviceDto)
      (row : MeetingParticipant) (m : Meeting)
      → Accepts rsa p
      → issue_join_token p mid pid w ≡ (ok t, w1)
      → w2.redis ≡ w1.redis
      → w1.readings ≤ w2.readings
      → (known : IsKnown rsa p agent w2) → handle_bind rsa agent (some t) ≡ signed dto
      → p.clock w2.readings < p.clock (suc w.readings) + 30000
      → p.participants.find_unique pid w2.participants ≡ some row
      → p.meetings.find_unique mid w2.meetings ≡ some m
      → has_tenant p w2 m.tenant_id ≡ true
      → p.audit_events.find_unique (p.uuid w2.draws) w2.audit_events ≡ none
      → (bind_device p mid dto.join_token dto.device_id dto.signature w2).0
        ≡ ok (bound_row row agent.device_id known.row.hardware_bound (p.clock (suc w2.readings)))
  agent_bound mid pid w w1 w2 t dto row m accepts issued redis_kept later known answered in_time
        present there tenant free =
      rw (answer_of t dto answered) (
        bind_device_complete p mid t.join_token agent.device_id
          (rsa.sign agent.key (binding_material rsa agent t)) (stored_token p mid pid w) known.row
          row m w2
          (issue_join_token-IsAccepted p mid pid w w1 w2 t issued redis_kept later known.row
            agent.device_id _ in_time known.enrolled
            (signature_valid-sign mid pid known.row.public_key_pem w t accepts
              (issue_join_token_ok p mid pid w w1 t issued).0 known.same_key))
          present there tenant free)
