-- ===== src/World.antt =====
-- The state that the hub's services share, and the calls that they make of it: the Prisma client
-- over schema.prisma and its migration (services/hub-api/prisma), the Redis service
-- (services/hub-api/src/redis/redis.service.ts), the clock and the random sources.
pub mod Calls
use troofai_mvp.Prelude.{
  ℕ, zero, suc, String, Bool, true, false, Option, none, some, List, ◌==◌, map, if◌then◌else◌,
}
use troofai_mvp.Schema.{Tenant, Device, Meeting, MeetingParticipant, AuditEvent}
use troofai_mvp.Platform.{Platform, Codec}
use troofai_mvp.Exec.{
  Exec, ok, thrown, unique_violated, foreign_key_violated, record_missing, syntax_error, or_throw,
}
use troofai_mvp.Gateway.{Gateway}

pub record World (p : Platform) : Type 0 where
  pub tenants : p.tenants.Rows
  pub devices : p.devices.Rows
  pub meetings : p.meetings.Rows
  pub participants : p.participants.Rows
  pub audit_events : p.audit_events.Rows
  pub redis : p.redis.Db
  pub gateway : Gateway
  -- how often the clock and the random sources have been read
  pub readings : ℕ
  pub draws : ℕ

-- A text that JavaScript takes for true: `null`, `undefined` and "" count as absent.
abbrev pub truthy : Option String → Option String
truthy none = none
truthy (some s) = if s == "" then none else some s

abbrev pub is_some {ℓ} : {A : Type ℓ} → Option A → Bool
is_some none = false
is_some (some a) = true

module _ (p : Platform) where
  abbrev pub Hub : Type 0 → Type 0
  Hub A = Exec (World p) A

  -- Date.now(), new Date()
  unfoldable pub now : Hub ℕ
  now w = (ok (p.clock w.readings), record w { readings = suc w.readings })

  unfoldable pub random_uuid : Hub String
  random_uuid w = (ok (p.uuid w.draws), record w { draws = suc w.draws })

  -- randomBytes(n).toString('base64')
  unfoldable pub random_base64 : ℕ → Hub String
  random_base64 n w = (ok (p.random_base64 n w.draws), record w { draws = suc w.draws })

  -- randomBytes(n).toString('hex')
  unfoldable pub random_hex : ℕ → Hub String
  random_hex n w = (ok (p.random_hex n w.draws), record w { draws = suc w.draws })

  unfoldable pub json_parse : {A : Type 0} → Codec A → String → Hub A
  json_parse codec s = or_throw syntax_error (codec.parse s)

  -- RedisService.set: `if (ttlSeconds)` is false without a time to live, and at 0
  unfoldable pub redis_set : String → String → Option ℕ → Hub (Unit {0})
  redis_set key value none w = (ok tt, record w { redis = p.redis.set key value w.redis })
  redis_set key value (some zero) w = (ok tt, record w { redis = p.redis.set key value w.redis })
  redis_set key value (some (suc n)) w = (
    ok tt,
    record w {
      redis = p.redis.set_ex (p.clock w.readings) key value (suc n) w.redis;
      readings = suc w.readings;
    },
  )

  -- RedisService.get
  unfoldable pub redis_get : String → Hub (Option String)
  redis_get key w =
      (ok (p.redis.get (p.clock w.readings) key w.redis), record w { readings = suc w.readings })

  -- RedisService.del
  unfoldable pub redis_del : String → Hub (Unit {0})
  redis_del key w = (ok tt, record w { redis = p.redis.del key w.redis })

  -- The check of a signature, where an exception counts as no.
  abbrev pub signature_valid : String → String → String → Bool
  signature_valid pem material signature = elim (p.rsa_verify pem material signature) [
    | none ↦ false
    | some b ↦ b
  ]

  -- gateway methods, which neither wait nor throw
  unfoldable pub on_gateway : (Gateway → Gateway) → Hub (Unit {0})
  on_gateway f w = (ok tt, record w { gateway = f w.gateway })

  unfoldable pub find_device : String → Hub (Option Device)
  find_device id w = (ok (p.devices.find_unique id w.devices), w)

  unfoldable pub find_meeting : String → Hub (Option Meeting)
  find_meeting id w = (ok (p.meetings.find_unique id w.meetings), w)

  unfoldable pub find_participant : String → Hub (Option MeetingParticipant)
  find_participant id w = (ok (p.participants.find_unique id w.participants), w)

  unfoldable pub find_tenant_by_key : String → Hub (Option Tenant)
  find_tenant_by_key key w = (ok (p.tenants.find_first (λ t. t.api_key == key) w.tenants), w)

  unfoldable pub find_tenant_by_name : String → Hub (Option Tenant)
  find_tenant_by_name name w = (ok (p.tenants.find_first (λ t. t.name == name) w.tenants), w)

  abbrev store_devices : Option (Device × p.devices.Rows) → Hub Device
  store_devices none w = (thrown record_missing, w)
  store_devices (some (r, rows)) w = (ok r, record w { devices = rows })

  unfoldable pub update_device : String → (Device → Device) → Hub Device
  update_device id f w = store_devices (p.devices.update id f w.devices) w

  abbrev store_participants :
      Option (MeetingParticipant × p.participants.Rows) → Hub MeetingParticipant
  store_participants none w = (thrown record_missing, w)
  store_participants (some (r, rows)) w = (ok r, record w { participants = rows })

  unfoldable pub update_participant :
      String → (MeetingParticipant → MeetingParticipant) → Hub MeetingParticipant
  update_participant id f w = store_participants (p.participants.update id f w.participants) w

  -- the foreign keys of migration.sql
  abbrev pub has_tenant : World p → String → Bool
  has_tenant w id = is_some (p.tenants.find_unique id w.tenants)

  abbrev pub has_meeting : World p → Option String → Bool
  has_meeting w none = true
  has_meeting w (some id) = is_some (p.meetings.find_unique id w.meetings)

  abbrev committed : {A R : Type 0} → Option R → Bool → (R → World p) → A → Hub A
  committed none linked put a w = (thrown unique_violated, w)
  committed (some rows) false put a w = (thrown foreign_key_violated, w)
  committed (some rows) true put a w = (ok a, put rows)

  -- the API key is unique
  unfoldable pub create_tenant : Tenant → Hub Tenant
  create_tenant r w =
      if is_some (p.tenants.find_first (λ t. t.api_key == r.api_key) w.tenants)
      then (thrown unique_violated, w)
      else committed (p.tenants.create r w.tenants) true (λ rows. record w { tenants = rows }) r w

  unfoldable pub create_device : Device → Hub Device
  create_device r w =
      committed (p.devices.create r w.devices) (has_tenant w r.tenant_id)
        (λ rows. record w { devices = rows }) r w

  unfoldable pub create_meeting : Meeting → Hub Meeting
  create_meeting r w =
      committed (p.meetings.create r w.meetings) (has_tenant w r.tenant_id)
        (λ rows. record w { meetings = rows }) r w

  -- a new participant has no device
  unfoldable pub create_participant : MeetingParticipant → Hub MeetingParticipant
  create_participant r w =
      committed (p.participants.create r w.participants) (has_meeting w (some r.meeting_id))
        (λ rows. record w { participants = rows }) r w

  abbrev pub both : Bool → Bool → Bool
  both true b = b
  both false b = false

  unfoldable pub create_audit_event : AuditEvent → Hub AuditEvent
  create_audit_event r w =
      committed (p.audit_events.create r w.audit_events)
        (both (has_tenant w r.tenant_id) (has_meeting w r.meeting_id))
        (λ rows. record w { audit_events = rows }) r w

  abbrev pub device_of : World p → MeetingParticipant → Option Device
  device_of w r = elim r.device_id [ none ↦ none | some id ↦ p.devices.find_unique id w.devices ]

  -- findMany({ where: { meetingId }, include: { device: true } })
  unfoldable pub participants_of : String → Hub (List (MeetingParticipant × Option Device))
  participants_of meeting_id w = (
    ok (
        map (λ r. (r, device_of w r))
          (p.participants.find_many (λ r. r.meeting_id == meeting_id) w.participants)),
    w,
  )
