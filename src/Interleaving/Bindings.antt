-- ===== src/Interleaving/Bindings.antt =====
-- The handlers of meeting.service.ts, device.service.ts and tenant.controller.ts keep the state sound,
-- whatever overtakes them.
use troofai_mvp.Prelude.{ℕ, String, ◌≡◌, refl, true, Option, none, some, arith}
use troofai_mvp.Schema.{Tenant, Device, MeetingParticipant}
use troofai_mvp.Platform.{Platform, StoredToken}
use troofai_mvp.Exec.{Exception, ok, bad_request, or_throw}
use troofai_mvp.World.{
  World, is_some, truthy, signature_valid, find_device, update_device, create_participant,
}
use troofai_mvp.Auth.{demo_name, new_demo_tenant}
use troofai_mvp.Device.{EnrollDeviceDto, re_enroll_patch, beat_patch}
use troofai_mvp.Meeting.{
  CreateMeetingDto, AddParticipantDto, token_key, bind_material, require, new_participant,
}
use troofai_mvp.Integrity.{Extends-trans, Keeps}
use troofai_mvp.Integrity.Quiet.{Keeps-redis_get, Keeps-or_throw, Keeps-json_parse}
use troofai_mvp.Integrity.Rows.{has_device-Extends}
use troofai_mvp.Integrity.Updates.{Keeps-update_device}
use troofai_mvp.Integrity.Writes.{Keeps-create_participant}
use troofai_mvp.Integrity.Services.{
  keeps_rules, Keeps-log, Keeps-require, Keeps-find_device, Keeps-find_tenant_by_name,
  Keeps-new_demo_tenant,
}
use troofai_mvp.Integrity.Bindings.{Keeps-bound}
use troofai_mvp.Interleaving.{Thread, call, return, ◌>>=◌, ◌>>◌}
use troofai_mvp.Interleaving.Services.{
  ensure_demo_tenant_steps, get_demo_tenant_steps, re_enroll_steps, enroll_new_steps, enroll_steps,
  heartbeat_steps, create_steps, add_participant_steps, issue_join_token_steps,
  complete_binding_steps, bind_device_steps,
}
use troofai_mvp.Interleaving.Safety.{Guarded, Guarded-return, Guarded-call, Guarded-step}
use troofai_mvp.Interleaving.Challenges.{guarded_rules}

module _ (p : Platform) where
  Guarded-ensure_demo_tenant : (w : World p) → Guarded p (ensure_demo_tenant_steps p) w
  unfolding ensure_demo_tenant_steps
  Guarded-ensure_demo_tenant w =
      Guarded-step p _ _ w (λ u _. Keeps-find_tenant_by_name p demo_name u) λ o u v _ _ _ _. go o v
    where
      go :
          (o : Option Tenant) (v : World p)
          → Guarded p (elim o [ none ↦ call (new_demo_tenant p) | some t ↦ return t ]) v
      go none v = Guarded-call p _ v (λ u _. Keeps-new_demo_tenant p u)
      go (some t) v = Guarded-return p t v

  pub Guarded-get_demo_tenant : (w : World p) → Guarded p (get_demo_tenant_steps p) w
  unfolding get_demo_tenant_steps
  Guarded-get_demo_tenant w = search (guarded_rules, Guarded-ensure_demo_tenant)

  Keeps-re_enrolled :
      (dto : EnrollDeviceDto) (t : ℕ) (w : World p)
      → Keeps p (update_device p dto.device_id (re_enroll_patch dto t)) w
  Keeps-re_enrolled dto t w =
      Keeps-update_device p dto.device_id (re_enroll_patch dto t) w (λ d. refl)
        (λ d. record { tenant = refl; user = refl; name = refl; enrolled = refl })

  Keeps-beaten : (id : String) (t : ℕ) (w : World p) → Keeps p (update_device p id (beat_patch t)) w
  Keeps-beaten id t w =
      Keeps-update_device p id (beat_patch t) w (λ d. refl)
        (λ d. record { tenant = refl; user = refl; name = refl; enrolled = refl })

  pub Guarded-enroll : (dto : EnrollDeviceDto) (w : World p) → Guarded p (enroll_steps p dto) w
  unfolding enroll_steps enroll_new_steps re_enroll_steps
  Guarded-enroll dto w =
      Guarded-step p _ _ w (λ u _. Keeps-find_device p dto.device_id u) λ o u v _ _ _ _. go o v
    where
      go :
          (o : Option Device) (v : World p)
          → Guarded p (elim o [ none ↦ enroll_new_steps p dto | some _ ↦ re_enroll_steps p dto ]) v
      go none v = search (guarded_rules, keeps_rules, Keeps-log) depth 20
      go (some _) v = search (guarded_rules, keeps_rules, Keeps-log, Keeps-re_enrolled) depth 20

  pub Guarded-heartbeat : (id : String) (w : World p) → Guarded p (heartbeat_steps p id) w
  unfolding heartbeat_steps
  Guarded-heartbeat id w = search (guarded_rules, keeps_rules, Keeps-beaten) depth 12

  pub Guarded-create : (dto : CreateMeetingDto) (w : World p) → Guarded p (create_steps p dto) w
  unfolding create_steps
  Guarded-create dto w = search (guarded_rules, keeps_rules, Keeps-log) depth 20

  Keeps-joined :
      (mid : String) (dto : AddParticipantDto) (id : String) (t : ℕ) (w : World p)
      → Keeps p (create_participant p (new_participant mid dto id t)) w
  Keeps-joined mid dto id t w =
      Keeps-create_participant p (new_participant mid dto id t) w refl (λ e. ground arith)

  pub Guarded-add_participant :
      (mid : String) (dto : AddParticipantDto) (w : World p)
      → Guarded p (add_participant_steps p mid dto) w
  unfolding add_participant_steps
  Guarded-add_participant mid dto w =
      search (guarded_rules, keeps_rules, Keeps-log, Keeps-joined) depth 30

  pub Guarded-issue_join_token :
      (mid pid : String) (w : World p) → Guarded p (issue_join_token_steps p mid pid) w
  unfolding issue_join_token_steps
  Guarded-issue_join_token mid pid w = search (guarded_rules, keeps_rules) depth 30

  Guarded-complete_binding :
      (mid tok : String) (token : StoredToken) (d : Device) (dev : String) (w : World p)
      → is_some (p.devices.find_unique dev w.devices) ≡ true
      → Guarded p (complete_binding_steps p mid tok token d dev) w
  unfolding complete_binding_steps
  Guarded-complete_binding mid tok token d dev w has =
      search (guarded_rules, keeps_rules, Keeps-log, Keeps-bound, has_device-Extends) depth 30

  -- A device that was found is there ever after.
  device_found :
      (dev : String) (x : Exception) (found : Option Device) (d : Device) (u v t w : World p)
      → find_device p dev u ≡ (ok found, v)
      → or_throw {S = World p} x found t ≡ (ok d, w)
      → is_some (p.devices.find_unique dev u.devices) ≡ true
  unfolding find_device
  device_found dev x none d u v t w e e' = absurd (ground arith)
  device_found dev x (some a) d u v t w e e' = ground arith

  -- `bind_device_steps` once the token has been accepted.
  abbrev accepted_steps :
      String → String → String → String → StoredToken → Thread p MeetingParticipant
  accepted_steps mid tok dev sig token = do
    found ← call (find_device p dev)
    device ← call (or_throw (bad_request "Device not found — not enrolled") found)
    let material = bind_material tok mid token.participant_id dev token.expires_at
    call (
        require p (signature_valid p device.public_key_pem material sig)
          (bad_request "Invalid binding signature"))
    complete_binding_steps p mid tok token device dev

  Guarded-accepted :
      (mid tok dev sig : String) (token : StoredToken) (w : World p)
      → Guarded p (accepted_steps mid tok dev sig token) w
  Guarded-accepted mid tok dev sig token w =
      Guarded-step p _ _ w (λ u _. Keeps-find_device p dev u)
        λ found u v x _ e y.
          Guarded-step p _ _ v (λ t _. Keeps-or_throw p _ found t)
            λ d t z x' _ e' y'.
              Guarded-step p _ _ z (λ q _. Keeps-require p _ _ q)
                λ _ q r x'' _ _ y''. Guarded-complete_binding mid tok token d dev r (
                  has_device-Extends p u r
                    (Extends-trans p u v r y (
                      Extends-trans p v z r (Extends-trans p v t z x' y')
                        (Extends-trans p z q r x'' y'')))
                    dev (device_found dev _ found d u v t z e e'))

  pub Guarded-bind_device :
      (mid tok dev sig : String) (w : World p) → Guarded p (bind_device_steps p mid tok dev sig) w
  unfolding bind_device_steps
  Guarded-bind_device mid tok dev sig w =
      Guarded-step p _ _ w (λ u _. Keeps-redis_get p (token_key tok) u)
        λ stored _ v1 _ _ _ _.
          Guarded-step p _ _ v1 (λ u _. Keeps-or_throw p _ (truthy stored) u)
            λ json _ v2 _ _ _ _.
              Guarded-step p _ _ v2 (λ u _. Keeps-json_parse p p.token_json json u)
                λ token _ v3 _ _ _ _.
                  Guarded-step p _ _ v3 (λ u _. Keeps-require p _ _ u)
                    λ _ _ v4 _ _ _ _. Guarded-accepted mid tok dev sig token v4
