-- ===== src/Meeting/Guarantees.antt =====
-- `bindDevice` of services/hub-api/src/meeting/meeting.service.ts, from its callers' side.
use troofai_mvp.Prelude.{ℕ, suc, String, ◌≡◌, refl, sym, ◌∙◌, ap, true, none, some, arith, eq_refl}
use troofai_mvp.Schema.{Device, Meeting, MeetingParticipant}
use troofai_mvp.Platform.{Platform, StoredToken}
use troofai_mvp.Exec.{Result, ok, thrown, bad_request, type_error}
use troofai_mvp.World.{
  World, has_tenant, now, redis_get, redis_del, find_meeting, update_participant,
}
use troofai_mvp.Audit.{new_event, log}
use troofai_mvp.Meeting.{token_key, bound_patch, bound_event, complete_binding, bind_device}
use troofai_mvp.Meeting.Binding.{
  IsAccepted, IsBoundBy, Outcome, refuses, accepts, bind_device-Outcome,
  bind_device-complete_binding, complete_binding_ok, Completion, returns, throws,
  complete_binding-Completion, bound_row, bound_patch_lem,
}

module _ (p : Platform) (mid tok dev sig : String) where
  -- If `bindDevice` returns a row, then Redis held the join token, the token was issued for the
  -- meeting, the device is enrolled and its stored public key verifies the signature over the token,
  -- the meeting, the token's participant, the device and the token's expiry; the row is the one
  -- that the token's participant had, with the device, the time, VERIFIED and the reason set; it is
  -- stored, every other participant and every device is unchanged, and the token is deleted.
  pub bind_device_sound :
      (w w' : World p) (row : MeetingParticipant)
      → bind_device p mid tok dev sig w ≡ (ok row, w')
      → (token : StoredToken) × (d : Device) × IsAccepted p w mid tok dev sig token d
        × IsBoundBy p (record w { readings = suc w.readings }) w' mid tok dev token d row
  bind_device_sound w w' row e = go (bind_device-Outcome p mid tok dev sig w)
    where
      go :
          Outcome p w mid tok dev sig
          → (token : StoredToken) × (d : Device) × IsAccepted p w mid tok dev sig token d
            × IsBoundBy p (record w { readings = suc w.readings }) w' mid tok dev token d row
      go (refuses x refused) = absurd (ground (arith, refused))
      go (accepts token d a) = (
        token,
        d,
        a,
        complete_binding_ok p mid tok token d dev (record w { readings = suc w.readings }) w' row
            (sym (bind_device-complete_binding p mid tok dev sig token d w a) ∙ e),
      )

  complete_binding-ne-bad_request :
      (token : StoredToken) (d : Device) (w w' : World p) (reason : String)
      → complete_binding p mid tok token d dev w ≡ (thrown (bad_request reason), w')
      → ⊥
  complete_binding-ne-bad_request token d w w' reason e =
      go (complete_binding-Completion p mid tok token d dev w)
    where
      go : Completion p w mid tok dev token d → ⊥
      go (returns r rows v _ _ _ _ done) = ground (arith, done, e)
      go (throws x v other _ done) = other reason (ground (arith, done, e))

  -- A refusal changes nothing but the clock: if the call throws a BadRequestException, the tables,
  -- Redis and the gateway are as they were, so a token that was refused can still be used.
  pub bind_device_refused :
      (w w' : World p) (reason : String)
      → bind_device p mid tok dev sig w ≡ (thrown (bad_request reason), w')
      → w' ≡ record w { readings = suc w.readings }
  bind_device_refused w w' reason e = go (bind_device-Outcome p mid tok dev sig w)
    where
      go : Outcome p w mid tok dev sig → w' ≡ record w { readings = suc w.readings }
      go (refuses x refused) =
          ap (λ (q : Result MeetingParticipant × World p). q.1) (sym e ∙ refused)
      go (accepts token d a) = absurd (
          complete_binding-ne-bad_request token d (record w { readings = suc w.readings }) w' reason
            (sym (bind_device-complete_binding p mid tok dev sig token d w a) ∙ e))

  redis-complete_binding :
      (token : StoredToken) (d : Device) (w : World p)
      → (complete_binding p mid tok token d dev w).1.redis ≡ p.redis.del (token_key tok) w.redis
  redis-complete_binding token d w = go (complete_binding-Completion p mid tok token d dev w)
    where
      go :
          Completion p w mid tok dev token d
          → (complete_binding p mid tok token d dev w).1.redis ≡ p.redis.del (token_key tok) w.redis
      go (returns r rows v _ _ used _ done) = rw done used
      go (throws x v _ used done) = rw done used

  token_gone :
      (mid' dev' sig' : String) (w : World p)
      → ((now : ℕ) → p.redis.get now (token_key tok) w.redis ≡ none)
      → bind_device p mid' tok dev' sig' w ≡ (
        thrown (bad_request "Join token expired or invalid"),
        record w { readings = suc w.readings },
      )
  unfolding bind_device redis_get
  token_gone mid' dev' sig' w gone = ground (arith, gone (p.clock w.readings))

  -- A join token is used once: after a call whose checks have passed, however it ends, a second call
  -- with the same token, for any meeting and device and with any signature, is refused as expired or
  -- invalid and changes nothing but the clock.
  pub bind_device_once :
      (mid' dev' sig' : String) (token : StoredToken) (d : Device) (w : World p)
      → IsAccepted p w mid tok dev sig token d
      → let w' = (bind_device p mid tok dev sig w).1 in
        bind_device p mid' tok dev' sig' w' ≡ (
          thrown (bad_request "Join token expired or invalid"),
          record w' { readings = suc w'.readings },
        )
  bind_device_once mid' dev' sig' token d w a =
      token_gone mid' dev' sig' (bind_device p mid tok dev sig w).1 λ t.
        ap (λ (q : Result MeetingParticipant × World p). p.redis.get t (token_key tok) q.1.redis)
          (bind_device-complete_binding p mid tok dev sig token d w a)
        ∙ ap (p.redis.get t (token_key tok))
            (redis-complete_binding token d (record w { readings = suc w.readings }))
        ∙ p.redis.get-del t (token_key tok) (token_key tok) w.redis
        ∙ rw (eq_refl (token_key tok)) refl

  -- Once accepted, a binding returns if the database has what it needs.
  pub complete_binding_runs :
      (token : StoredToken) (d : Device) (row : MeetingParticipant) (m : Meeting) (w : World p)
      → p.participants.find_unique token.participant_id w.participants ≡ some row
      → p.meetings.find_unique mid w.meetings ≡ some m
      → has_tenant p w m.tenant_id ≡ true
      → p.audit_events.find_unique (p.uuid w.draws) w.audit_events ≡ none
      → (complete_binding p mid tok token d dev w).0
        ≡ ok (bound_patch d dev (p.clock w.readings) row)
  unfolding complete_binding redis_del now find_meeting update_participant log
  complete_binding_runs token d row m w present there tenant free =
      let (rows, updated) =
        p.participants.update_found token.participant_id (bound_patch d dev (p.clock w.readings))
          row w.participants present in
      let (events, written) =
        p.audit_events.create_fresh
          (new_event p
            (record w {
              redis = p.redis.del (token_key tok) w.redis;
              readings = suc w.readings;
              participants = rows;
            })
            (bound_event m.tenant_id mid token d dev))
          w.audit_events free in
      ground (arith, updated, written, there, tenant)

  -- The checks are all that is asked: if they pass, the token's participant, the meeting and its
  -- tenant are in the database and the id of the event is free, then the participant's row is
  -- returned as VERIFIED with the device, the time and the reason, and its other fields as they
  -- were. Neither the status of the device, nor its user, nor the
  -- meeting of the participant is looked at: a revoked device, a device of another user, and a
  -- participant of another meeting are bound just as well.
  pub bind_device_complete :
      (token : StoredToken) (d : Device) (row : MeetingParticipant) (m : Meeting) (w : World p)
      → IsAccepted p w mid tok dev sig token d
      → p.participants.find_unique token.participant_id w.participants ≡ some row
      → p.meetings.find_unique mid w.meetings ≡ some m
      → has_tenant p w m.tenant_id ≡ true
      → p.audit_events.find_unique (p.uuid w.draws) w.audit_events ≡ none
      → (bind_device p mid tok dev sig w).0
        ≡ ok (bound_row row dev d.hardware_bound (p.clock (suc w.readings)))
  bind_device_complete token d row m w a present there tenant free =
      ap (λ (q : Result MeetingParticipant × World p). q.0)
        (bind_device-complete_binding p mid tok dev sig token d w a)
      ∙ complete_binding_runs token d row m (record w { readings = suc w.readings }) present there
          tenant free
      ∙ ap ok (bound_patch_lem d dev (p.clock (suc w.readings)) row)

  -- A token of a meeting that does not exist binds halfway: if the checks pass and the participant
  -- is there but the meeting is not, the call throws a TypeError after the token has been deleted
  -- and the participant's row has been set to VERIFIED with the device, the time and the reason,
  -- and no event is logged.
  pub bind_device_partial :
      (token : StoredToken) (d : Device) (row : MeetingParticipant) (w : World p)
      → IsAccepted p w mid tok dev sig token d
      → p.participants.find_unique token.participant_id w.participants ≡ some row
      → p.meetings.find_unique mid w.meetings ≡ none
      → let (result, w') = bind_device p mid tok dev sig w in
        (result ≡ thrown type_error)
        × (p.participants.find_unique token.participant_id w'.participants
            ≡ some (bound_row row dev d.hardware_bound (p.clock (suc w.readings))))
        × (w'.redis ≡ p.redis.del (token_key tok) w.redis)
        × (w'.audit_events ≡ w.audit_events)
  unfolding complete_binding redis_del now find_meeting update_participant
  bind_device_partial token d row w a present gone =
      let (rows, updated) =
        p.participants.update_found token.participant_id
          (bound_patch d dev (p.clock (suc w.readings))) row w.participants present in
      rw (bind_device-complete_binding p mid tok dev sig token d w a) (
        ground (arith, updated, gone),
        ground (
          arith,
          updated,
          gone,
          eq_refl token.participant_id,
          p.participants.find-update token.participant_id token.participant_id
              (bound_patch d dev (p.clock (suc w.readings)))
              (bound_patch d dev (p.clock (suc w.readings)) row) w.participants rows (λ _. refl)
              updated,
        )
            ∙ ap some (bound_patch_lem d dev (p.clock (suc w.readings)) row),
        ground (arith, updated, gone),
        ground (arith, updated, gone),
      )
