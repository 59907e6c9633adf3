-- ===== src/Events/Heartbeats.antt =====
-- A heartbeat over the socket.
use troofai_mvp.Prelude.{String, ◌≡◌, refl, ap, ◌∙◌, ◌==◌, if◌then◌else◌}
use troofai_mvp.Platform.{Platform}
use troofai_mvp.Exec.{Result, ok, thrown}
use troofai_mvp.World.{World}
use troofai_mvp.Gateway.{heartbeat_ack}
use troofai_mvp.Device.{heartbeat}
use troofai_mvp.Device.Enrollment.{beaten, heartbeat_effect}
use troofai_mvp.Events.{caught, handle_heartbeat}

module _ (p : Platform) where
  caught_ack :
      {A : Type 0} (x : Result A × World p)
      → ((caught p x).0 ≡ ok heartbeat_ack) × ((caught p x).1 ≡ x.1)
  caught_ack (ok a, w) = (refl, refl)
  caught_ack (thrown e, w) = (refl, refl)

  -- A heartbeat over the socket is always acknowledged, also for a device that is not enrolled; the
  -- row of the device, if there is one, has its heartbeat set to now, and no other row changes.
  pub handle_heartbeat_effect :
      (device_id j : String) (w : World p)
      → let (answer, w') = handle_heartbeat p device_id w in
        (answer ≡ ok heartbeat_ack)
        × (p.devices.find_unique j w'.devices ≡ (
            if device_id == j
            then beaten p (p.clock w.readings) (p.devices.find_unique device_id w.devices)
            else p.devices.find_unique j w.devices))
  unfolding handle_heartbeat
  handle_heartbeat_effect device_id j w =
      let (answer, kept) = heartbeat_effect p device_id j w in
      let (acked, same) = caught_ack (heartbeat p device_id w) in
      (acked, ap (λ (v : World p). p.devices.find_unique j v.devices) same ∙ kept)
