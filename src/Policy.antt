-- ===== src/Policy.antt =====
-- services/hub-api/src/policy/policy.service.ts. `Date.now()` is an argument. A time is in
-- milliseconds; the age of a heartbeat that lies ahead of the clock is 0 here and negative there,
-- and neither is stale.
pub mod Rules
use troofai_mvp.Prelude.{
  ℕ, ◌+◌, ◌-◌, ◌/◌, ◌*◌, String, Bool, true, false, not, Option, none, some, ltb, if◌then◌else◌,
}
use troofai_mvp.Prelude.Text.{show}
use Prim.Native.String
use troofai_mvp.Schema.{
  DeviceStatus, active, revoked, TrustStatus, verified, stale, unknown, failed,
}

pub record PolicyDevice : Type 0 where
  pub status : DeviceStatus
  pub last_heartbeat : Option ℕ
  pub hardware_bound : Bool

pub record PolicyInput : Type 0 where
  pub device : PolicyDevice
  pub signature_valid : Bool
  pub challenge_expired : Bool
  pub has_meeting_binding : Bool

pub record PolicyResult : Type 0 where
  pub status : TrustStatus
  pub reason : String

abbrev pub heartbeat_stale_ms : ℕ
heartbeat_stale_ms = 5 * 60 * 1000

abbrev pub is_active : DeviceStatus → Bool
is_active active = true
is_active revoked = false

-- `ageMs > this.HEARTBEAT_STALE_MS`, false without a heartbeat
abbrev pub is_stale : ℕ → Option ℕ → Bool
is_stale now none = false
is_stale now (some beat) = ltb heartbeat_stale_ms (now - beat)

-- `Math.round(ageMs / 1000)`
abbrev pub age_seconds : ℕ → Option ℕ → ℕ
age_seconds now none = 0
age_seconds now (some beat) = (now - beat + 500) / 1000

infixr 65 ◌+s◌
abbrev ◌+s◌ : String → String → String
a +s b = String.◌++◌ a b

abbrev pub stale_reason : ℕ → String
stale_reason seconds = "Device heartbeat stale (" +s show seconds +s "s ago)"

abbrev pub verified_reason : Bool → String
verified_reason hardware_bound =
    "Enrolled device, valid signature" +s (if hardware_bound then ", hardware-backed key" else "")

abbrev verdict : TrustStatus → String → PolicyResult
verdict s r = record { status = s; reason = r }

unfoldable pub evaluate : ℕ → PolicyInput → PolicyResult
evaluate now input =
    if not (is_active input.device.status)
    then verdict failed "Device has been revoked"
    else if input.challenge_expired
    then verdict failed "Challenge response expired"
    else if not input.signature_valid
    then verdict failed "Invalid signature — key mismatch or tampering"
    else if not input.has_meeting_binding
    then verdict unknown "No meeting-presence binding"
    else if is_stale now input.device.last_heartbeat
    then verdict stale (stale_reason (age_seconds now input.device.last_heartbeat))
    else verdict verified (verified_reason input.device.hardware_bound)
