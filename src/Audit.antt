-- ===== src/Audit.antt =====
-- services/hub-api/src/audit/audit.service.ts. The log lines that it prints are left out.
pub mod Entry
pub mod Trail
use troofai_mvp.Prelude.{ℕ, String, Bool, false, Option, none, some, List, ◌==◌, take}
use troofai_mvp.Schema.{AuditEvent, Detail}
use troofai_mvp.Platform.{Platform}
use troofai_mvp.Platform.Order.{asc, desc}
use troofai_mvp.Exec.{ok, ◌>>=◌}
use troofai_mvp.World.{Hub, World, truthy, now, random_uuid, create_audit_event}

pub record AuditLogInput : Type 0 where
  pub tenant_id : String
  pub meeting_id : Option String
  pub event_type : String
  pub actor : String
  pub details : List (String × Detail)

module _ (p : Platform) where
  -- The row that `log` writes; the database gives it its id and its time.
  abbrev pub new_event : World p → AuditLogInput → AuditEvent
  new_event w input = record {
    id = p.uuid w.draws;
    tenant_id = input.tenant_id;
    meeting_id = truthy input.meeting_id;
    event_type = input.event_type;
    actor = input.actor;
    details = input.details;
    created_at = p.clock w.readings;
  }

  -- `log`. The database gives the event its id and its time.
  unfoldable pub log : AuditLogInput → Hub p AuditEvent
  unfolding now random_uuid create_audit_event
  log input = do
    id ← random_uuid p
    created_at ← now p
    create_audit_event p (record {
      id = id;
      tenant_id = input.tenant_id;
      meeting_id = truthy input.meeting_id;
      event_type = input.event_type;
      actor = input.actor;
      details = input.details;
      created_at = created_at;
    })

  -- `where: { meetingId }` on the nullable column
  abbrev pub is_about : String → Option String → Bool
  is_about meeting_id none = false
  is_about meeting_id (some id) = id == meeting_id

  -- The events of a meeting, the oldest first.
  unfoldable pub get_by_meeting : String → Hub p (List AuditEvent)
  get_by_meeting meeting_id w = (
    ok (
        p.audit_events.find_ordered (λ e. is_about meeting_id e.meeting_id) asc (λ e. e.created_at)
          w.audit_events),
    w,
  )

  -- The newest events of a tenant: 100 unless the caller says how many.
  unfoldable pub get_by_tenant : String → Option ℕ → Hub p (List AuditEvent)
  get_by_tenant tenant_id limit w = (
    ok (
        take (elim limit [ none ↦ 100 | some n ↦ n ])
          (p.audit_events.find_ordered (λ e. e.tenant_id == tenant_id) desc (λ e. e.created_at)
            w.audit_events)),
    w,
  )
