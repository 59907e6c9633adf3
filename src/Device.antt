-- ===== src/Device.antt =====
-- services/hub-api/src/device/device.service.ts and device.dto.ts.
pub mod Enrollment
use troofai_mvp.Prelude.{ℕ, String, Bool, false, Option, none, some, List, [], ◌∷◌, ◌==◌}
use troofai_mvp.Schema.{Device, active, Detail, text, flag, undefined}
use troofai_mvp.Platform.{Platform}
use troofai_mvp.Platform.Order.{desc}
use troofai_mvp.Exec.{ok, pure, ◌>>=◌, ◌>>◌}
use troofai_mvp.World.{Hub, truthy, now, find_device, create_device, update_device}
use troofai_mvp.Audit.{AuditLogInput, log}

pub record EnrollDeviceDto : Type 0 where
  pub tenant_id : String
  pub device_id : String
  pub user_id : String
  pub display_name : String
  pub public_key_pem : String
  pub key_algorithm : Option String
  pub hardware_bound : Option Bool

-- `x || d` on texts
abbrev pub or_default : Option String → String → String
or_default x d = elim (truthy x) [ none ↦ d | some s ↦ s ]

-- `x ?? false`
abbrev pub or_false : Option Bool → Bool
or_false none = false
or_false (some b) = b

abbrev flag_detail : Option Bool → Detail
flag_detail none = undefined
flag_detail (some b) = flag b

abbrev text_detail : Option String → Detail
text_detail none = undefined
text_detail (some s) = text s

-- What a re-enrollment writes: the public key is replaced, whoever asks.
abbrev pub re_enroll_patch : EnrollDeviceDto → ℕ → Device → Device
re_enroll_patch dto beat d = record d {
  public_key_pem = dto.public_key_pem;
  key_algorithm = or_default dto.key_algorithm "RSA-2048";
  hardware_bound = or_false dto.hardware_bound;
  status = active;
  last_heartbeat = some beat;
}

abbrev pub re_enroll_event : EnrollDeviceDto → AuditLogInput
re_enroll_event dto = record {
  tenant_id = dto.tenant_id;
  meeting_id = none;
  event_type = "DEVICE_RE_ENROLLED";
  actor = dto.user_id;
  details =
      ("device_id", text dto.device_id)
      ∷ ("hardware_bound", flag_detail dto.hardware_bound)
      ∷ ("key_algorithm", text_detail dto.key_algorithm)
      ∷ [];
}

-- The row of a device that is enrolled for the first time.
abbrev pub new_device : EnrollDeviceDto → ℕ → ℕ → Device
new_device dto beat enrolled_at = record {
  id = dto.device_id;
  tenant_id = dto.tenant_id;
  user_id = dto.user_id;
  display_name = dto.display_name;
  public_key_pem = dto.public_key_pem;
  key_algorithm = or_default dto.key_algorithm "RSA-2048";
  hardware_bound = or_false dto.hardware_bound;
  status = active;
  last_heartbeat = some beat;
  enrolled_at = enrolled_at;
}

abbrev pub enroll_event : EnrollDeviceDto → AuditLogInput
enroll_event dto = record {
  tenant_id = dto.tenant_id;
  meeting_id = none;
  event_type = "DEVICE_ENROLLED";
  actor = dto.user_id;
  details =
      ("device_id", text dto.device_id)
      ∷ ("display_name", text dto.display_name)
      ∷ ("hardware_bound", flag_detail dto.hardware_bound)
      ∷ ("key_algorithm", text_detail dto.key_algorithm)
      ∷ [];
}

abbrev pub beat_patch : ℕ → Device → Device
beat_patch beat d = record d { last_heartbeat = some beat }

module _ (p : Platform) where
  unfoldable pub re_enroll : EnrollDeviceDto → Hub p Device
  re_enroll dto = do
    beat ← now p
    device ← update_device p dto.device_id (re_enroll_patch dto beat)
    log p (re_enroll_event dto)
    pure device

  unfoldable pub enroll_new : EnrollDeviceDto → Hub p Device
  enroll_new dto = do
    beat ← now p
    enrolled_at ← now p
    device ← create_device p (new_device dto beat enrolled_at)
    log p (enroll_event dto)
    pure device

  unfoldable pub enroll : EnrollDeviceDto → Hub p Device
  enroll dto = do
    existing ← find_device p dto.device_id
    elim existing [ none ↦ enroll_new dto | some _ ↦ re_enroll dto ]

  unfoldable pub heartbeat : String → Hub p Device
  heartbeat device_id = do beat ← now p; update_device p device_id (beat_patch beat)

  unfoldable pub find_by_id : String → Hub p (Option Device)
  find_by_id id = find_device p id

  unfoldable pub find_by_tenant : String → Hub p (List Device)
  find_by_tenant tenant_id w = (
    ok (p.devices.find_ordered (λ d. d.tenant_id == tenant_id) desc (λ d. d.enrolled_at) w.devices),
    w,
  )
