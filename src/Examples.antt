-- ===== src/Examples.antt =====
-- A small hub, on which the other examples run: one tenant, two devices, a meeting with two
-- participants, one of them without a device.
pub mod Challenges
pub mod Meetings
pub mod Devices
pub mod Sockets
pub mod Reports
pub mod Access
pub mod Demo
pub mod Polls
pub mod Runs
pub mod Zoom
pub mod Progress
pub mod Agents
pub mod Schedules
pub mod Pages
use troofai_mvp.Prelude.{ℕ, String, Option, none, some, [], ◌∷◌, true, false}
use troofai_mvp.Schema.{Tenant, Device, Meeting, MeetingParticipant, active, revoked, unknown}
use troofai_mvp.Gateway.{Gateway}
use troofai_mvp.World.{World}
use troofai_mvp.Memory.{memory}
use troofai_mvp.Memory.Rows.{list_table}
use troofai_mvp.Memory.Entries.{list_redis}

abbrev pub acme : Tenant
acme = record { id = "acme"; name = "Acme"; api_key = "key"; created_at = 0 }

abbrev pub laptop : Device
laptop = record {
  id = "laptop";
  tenant_id = "acme";
  user_id = "ana";
  display_name = "Ana's laptop";
  public_key_pem = "pem";
  key_algorithm = "RSA-2048";
  hardware_bound = true;
  status = active;
  last_heartbeat = some 900000;
  enrolled_at = 0;
}

abbrev pub phone : Device
phone = record laptop {
  id = "phone";
  user_id = "ben";
  display_name = "Ben's phone";
  public_key_pem = "pem2";
  hardware_bound = false;
  status = revoked;
}

abbrev pub standup : Meeting
standup = record {
  id = "standup";
  tenant_id = "acme";
  name = "Standup";
  created_at = 0;
  ended_at = none;
}

abbrev pub ana : MeetingParticipant
ana = record {
  id = "ana";
  meeting_id = "standup";
  user_id = "ana";
  device_id = some "laptop";
  display_name = "Ana";
  trust_status = unknown;
  status_reason = none;
  joined_at = 0;
  bound_at = some 0;
  last_challenge_at = none;
}

abbrev pub ben : MeetingParticipant
ben = record ana {
  id = "ben";
  user_id = "ben";
  device_id = none;
  display_name = "Ben";
  bound_at = none;
}

abbrev pub sockets : Gateway
sockets = record {
  device_sockets = ("laptop", "socket1") ∷ ("phone", "socket1") ∷ [];
  meeting_sockets = ("standup", "socket1" ∷ "socket2" ∷ []) ∷ [];
  has_server = true;
  has_challenge_service = true;
  outbox = [];
}

unfoldable pub hub : World memory
unfolding memory list_table list_redis
hub = record {
  tenants = acme ∷ [];
  devices = laptop ∷ phone ∷ [];
  meetings = standup ∷ [];
  participants = ana ∷ ben ∷ [];
  audit_events = [];
  redis = [];
  gateway = sockets;
  readings = 0;
  draws = 0;
}
