-- ===== src/Challenge/Settled.antt =====
-- The effects of `settle`: what follows a verdict in `verifyResponse`.
use troofai_mvp.Prelude.{suc, String, ◌≡◌, Bool, some, arith, inl, inr}
use troofai_mvp.Schema.{Device, MeetingParticipant}
use troofai_mvp.Platform.{Platform, StoredChallenge}
use troofai_mvp.Exec.{ok}
use troofai_mvp.World.{World, now, on_gateway}
use troofai_mvp.World.Calls.{update_participant_cases}
use troofai_mvp.Gateway.{emit_meeting_update}
use troofai_mvp.Audit.{new_event}
use troofai_mvp.Audit.Entry.{log_cases}
use troofai_mvp.Policy.{PolicyResult}
use troofai_mvp.Challenge.{VerifyResult, settle, verdict_patch, verdict_event, verdict_update}

module _ (p : Platform) where
  -- The effects of a response that reached a verdict: the participant's row carries it, one event
  -- is logged, and the meeting is told.
  pub record Settled (w w' : World p) (challenge_id device_id : String) (c : StoredChallenge)
      (d : Device) (is_valid : Bool) (policy : PolicyResult) : Type 0 where
    pub row : MeetingParticipant
    pub rows : p.participants.Rows
    pub events : p.audit_events.Rows
    pub updated :
        p.participants.update c.payload.participant_id
          (verdict_patch policy (p.clock w.readings))
          w.participants
        ≡ some (row, rows)
    pub written :
        p.audit_events.create
          (new_event p
            (record w { readings = suc w.readings; participants = rows })
            (verdict_event challenge_id device_id c d is_valid policy))
          w.audit_events
        ≡ some events
    pub after : w' ≡ record w {
      participants = rows;
      audit_events = events;
      gateway = emit_meeting_update c.payload.meeting_id (verdict_update c policy) w.gateway;
      readings = suc (suc w.readings);
      draws = suc w.draws;
    }

  pub settle_ok :
      (cid did : String) (c : StoredChallenge) (d : Device) (is_valid : Bool)
      (policy : PolicyResult) (w w' : World p) (r : VerifyResult)
      → settle p cid did c d is_valid policy w ≡ (ok r, w')
      → (r ≡ record { valid = is_valid; status = policy.status; reason = policy.reason })
        × Settled w w' cid did c d is_valid policy
  unfolding settle now on_gateway
  settle_ok cid did c d is_valid policy w w' r e =
      elim (update_participant_cases p (record w { readings = suc w.readings })
        c.payload.participant_id (verdict_patch policy (p.clock w.readings))) [
          | inr missing ↦ absurd (ground (arith, missing))
          | inl (row, rows, updated, call) ↦
              elim (log_cases p (record w { readings = suc w.readings; participants = rows })
                (verdict_event cid did c d is_valid policy)) [
                  | inr (_, _, refused) ↦ absurd (ground (arith, call, refused))
                  | inl (events, written, call') ↦ (
                    ground (arith, call, call'),
                    record {
                      row = row;
                      rows = rows;
                      events = events;
                      updated = updated;
                      written = written;
                      after = ground (arith, call, call');
                    },
                  )
                ]
        ]
