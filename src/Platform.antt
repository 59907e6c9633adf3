-- ===== src/Platform.antt =====
-- What the hub's code calls and does not implement: PostgreSQL behind the Prisma client, Redis
-- behind ioredis, the clock, the random sources and the RSA check of Node. Each is a record of
-- operations with the documented behaviour that the code relies on. `Memory` is one that runs.
pub mod Order
mod Database
mod KeyValue
pub mod Time
pub use Database.{Table, KeepsId}
pub use KeyValue.{Redis}
use troofai_mvp.Prelude.{ℕ, String, ◌≡◌, Bool, false, Option, some, ◌≤◌, suc, ◌==◌}
use troofai_mvp.Schema.{Tenant, Device, Meeting, MeetingParticipant, AuditEvent}

-- `JSON.stringify` and `JSON.parse` on one shape of object. `none` is a `SyntaxError`.
pub record Codec (A : Type 0) : Type 0 where
  pub stringify : A → String
  pub parse : String → Option A
  pub parse-stringify : (a : A) → parse (stringify a) ≡ some a
  pub stringify_nonempty : (a : A) → (stringify a == "") ≡ false

-- What the hub sends to a device, and what it stores of it.
pub record ChallengePayload : Type 0 where
  pub challenge_id : String
  pub nonce : String
  pub meeting_id : String
  pub participant_id : String
  pub issued_at : String
  pub expires_at : String

pub record StoredChallenge : Type 0 where
  pub payload : ChallengePayload
  pub tenant_id : String
  pub device_id : String
  pub user_id : String

pub record StoredToken : Type 0 where
  pub meeting_id : String
  pub participant_id : String
  pub expires_at : String

pub record Platform : Type 1 where
  pub tenants : Table Tenant (λ r. r.id)
  pub devices : Table Device (λ r. r.id)
  pub meetings : Table Meeting (λ r. r.id)
  pub participants : Table MeetingParticipant (λ r. r.id)
  pub audit_events : Table AuditEvent (λ r. r.id)
  pub redis : Redis
  -- the n-th reading of the clock, in milliseconds
  pub clock : ℕ → ℕ
  pub clock_forward : (n : ℕ) → clock n ≤ clock (suc n)
  -- the n-th value of `randomUUID()`, and of `randomBytes(k)` in a text encoding
  pub uuid : ℕ → String
  pub random_base64 : ℕ → ℕ → String
  pub random_hex : ℕ → ℕ → String
  -- `new Date(t).toISOString()` and `new Date(s)`; `none` is an invalid date
  pub to_iso : ℕ → String
  pub from_iso : String → Option ℕ
  pub from_iso-to_iso : (t : ℕ) → from_iso (to_iso t) ≡ some t
  pub challenge_json : Codec StoredChallenge
  pub token_json : Codec StoredToken
  -- `createVerify('SHA256').update(text).verify(pem, Buffer.from(signature, 'base64'))`; `none` is
  -- an exception, as for a malformed key
  pub rsa_verify : String → String → String → Option Bool
