-- ===== src/Events.antt =====
-- The two handlers of services/hub-api/src/gateway/events.gateway.ts that call other services.
pub mod Heartbeats
use troofai_mvp.Prelude.{String, Bool, true, false}
use troofai_mvp.Platform.{Platform}
use troofai_mvp.Exec.{Result, ok, thrown, pure, ◌>>=◌}
use troofai_mvp.Gateway.{Reply, heartbeat_ack, service_not_ready}
use troofai_mvp.World.{Hub, World}
use troofai_mvp.Device.{heartbeat}
use troofai_mvp.Challenge.{VerifyResult, verify_response}

-- What the handler of a response answers.
pub data ChallengeReply : Type 0 where
  not_ready : ChallengeReply
  result : VerifyResult → ChallengeReply

module _ (p : Platform) where
  -- A `catch` that only logs: the state is what the call left.
  abbrev pub caught : {A : Type 0} → Result A × World p → Result Reply × World p
  caught (ok a, w) = (ok heartbeat_ack, w)
  caught (thrown x, w) = (ok heartbeat_ack, w)

  unfoldable pub handle_heartbeat : String → Hub p Reply
  handle_heartbeat device_id w = caught (heartbeat p device_id w)

  unfoldable pub handle_challenge_response : String → String → String → Hub p ChallengeReply
  handle_challenge_response challenge_id device_id signature w =
      elim w.gateway.has_challenge_service [
        | true ↦
            (do answer ← verify_response p challenge_id device_id signature; pure (result answer)) w
        | false ↦ (ok not_ready, w)
      ]
