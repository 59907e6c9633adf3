-- ===== src/Schema.antt =====
-- The tables of services/hub-api/prisma/schema.prisma. A date is a number of milliseconds since
-- the epoch, and a nullable column is an `Option`.
use troofai_mvp.Prelude.{ℕ, String, Bool, Option, List}

pub data DeviceStatus : Type 0 where
  active revoked : DeviceStatus

pub data TrustStatus : Type 0 where
  verified unverified stale unknown external failed : TrustStatus

pub record Tenant : Type 0 where
  pub id : String
  pub name : String
  pub api_key : String
  pub created_at : ℕ

pub record Device : Type 0 where
  pub id : String
  pub tenant_id : String
  pub user_id : String
  pub display_name : String
  pub public_key_pem : String
  pub key_algorithm : String
  pub hardware_bound : Bool
  pub status : DeviceStatus
  pub last_heartbeat : Option ℕ
  pub enrolled_at : ℕ

pub record Meeting : Type 0 where
  pub id : String
  pub tenant_id : String
  pub name : String
  pub created_at : ℕ
  pub ended_at : Option ℕ

pub record MeetingParticipant : Type 0 where
  pub id : String
  pub meeting_id : String
  pub user_id : String
  pub device_id : Option String
  pub display_name : String
  pub trust_status : TrustStatus
  pub status_reason : Option String
  pub joined_at : ℕ
  pub bound_at : Option ℕ
  pub last_challenge_at : Option ℕ

-- A value of an audit event's `details`. `undefined` is what an optional field of a request holds
-- when the request leaves it out.
pub data Detail : Type 0 where
  text : String → Detail
  flag : Bool → Detail
  status : TrustStatus → Detail
  undefined : Detail

pub record AuditEvent : Type 0 where
  pub id : String
  pub tenant_id : String
  pub meeting_id : Option String
  pub event_type : String
  pub actor : String
  pub details : List (String × Detail)
  pub created_at : ℕ
