-- ===== src/Integrity/Bindings.antt =====
-- `bindDevice` and `verifyResponse` of services/hub-api against the integrity of the state.
use troofai_mvp.Prelude.{ℕ, String, ◌≡◌, refl, true, Option, none, some, arith}
use troofai_mvp.Schema.{Device}
use troofai_mvp.Platform.{Platform, StoredToken}
use troofai_mvp.Exec.{Exception, ok, or_throw}
use troofai_mvp.World.{World, is_some, find_device, update_participant}
use troofai_mvp.Meeting.{complete_binding, bind_device, bound_patch}
use troofai_mvp.Meeting.Race.{after_token}
use troofai_mvp.Integrity.{Keeps}
use troofai_mvp.Integrity.Rows.{has_device-Extends}
use troofai_mvp.Integrity.Updates.{Keeps-update_participant}
use troofai_mvp.Integrity.Services.{keeps_rules, Keeps-log}

module _ (p : Platform) where
  pub Keeps-bound :
      (id dev : String) (d : Device) (t : ℕ) (w : World p)
      → is_some (p.devices.find_unique dev w.devices) ≡ true
      → Keeps p (update_participant p id (bound_patch d dev t)) w
  Keeps-bound id dev d t w has =
      Keeps-update_participant p id (bound_patch d dev t) w (λ r. refl)
        (λ r. record { meeting = refl; user = refl; name = refl; joined = refl; bound = λ _. refl })
        (λ s r found l. record {
          meeting = l.meeting;
          device = λ x e. ground (arith, has, e);
          trusted = λ _. refl;
        })

  Keeps-complete_binding :
      (mid tok : String) (token : StoredToken) (d : Device) (dev : String) (w : World p)
      → is_some (p.devices.find_unique dev w.devices) ≡ true
      → Keeps p (complete_binding p mid tok token d dev) w
  unfolding complete_binding
  Keeps-complete_binding mid tok token d dev w has =
      search (keeps_rules, Keeps-log, Keeps-bound, has_device-Extends) depth 14

  device_there :
      (dev : String) (x : Exception) (found : Option Device) (d : Device) (u v w : World p)
      → find_device p dev u ≡ (ok found, v)
      → or_throw {S = World p} x found v ≡ (ok d, w)
      → is_some (p.devices.find_unique dev w.devices) ≡ true
  unfolding find_device
  device_there dev x none d u v w e e' = absurd (ground arith)
  device_there dev x (some a) d u v w e e' = ground arith

  pub Keeps-bind_device :
      (mid tok dev sig : String) (w : World p) → Keeps p (bind_device p mid tok dev sig) w
  unfolding bind_device
  Keeps-bind_device mid tok dev sig w =
      search (keeps_rules, Keeps-complete_binding, device_there, has_device-Extends) depth 16

  -- The rest of a binding may run later than Redis has answered.
  pub Keeps-after_token :
      (mid tok dev sig : String) (stored : Option String) (w : World p)
      → Keeps p (after_token p mid tok dev sig stored) w
  unfolding after_token
  Keeps-after_token mid tok dev sig stored w =
      search (keeps_rules, Keeps-complete_binding, device_there, has_device-Extends) depth 16
