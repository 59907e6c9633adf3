-- ===== src/HubPages/Trail.antt =====
-- What apps/web/src/app/audit/page.tsx shows of the hub's audit log.
use mathlib.Core.Path.{subst}
use troofai_mvp.Prelude.{
  String, ◌≡◌, refl, Option, some, List, [], ◌∷◌, All, All-append, take, Option-cases, inl, inr,
}
use troofai_mvp.Schema.{AuditEvent}
use troofai_mvp.Platform.{Platform}
use troofai_mvp.Platform.Order.{desc, IsOrdered, All-Perm}
use troofai_mvp.Collections.Sorting.{in_order-Perm, in_order-IsOrdered}
use troofai_mvp.Exec.{ok}
use troofai_mvp.World.{World, truthy}
use troofai_mvp.Auth.{DemoTenant}
use troofai_mvp.Audit.Trail.{get_by_meeting_lem}
use troofai_mvp.Meeting.Reads.{MeetingSummary, list_by_tenant}
use troofai_mvp.Api.{list_request, list_meetings, answer_meeting}
use troofai_mvp.Api.Requests.{meetings, demo_tenant, tenant_shown, serve}
use troofai_mvp.HubPages.{all_events, fetch_audit, meetings_of}

module _ (p : Platform) where
  -- A stored event of a meeting.
  pub record IsOfMeeting (w : World p) (e : AuditEvent) : Type 0 where
    pub mid : String
    pub of_meeting : e.meeting_id ≡ some mid
    pub stored : p.audit_events.find_unique e.id w.audit_events ≡ some e

  of_entries :
      (mid : String) (w : World p) (es : List AuditEvent)
      → All
          (λ e.
            (p.audit_events.find_unique e.id w.audit_events ≡ some e) × (e.meeting_id ≡ some mid))
          es
      → All (IsOfMeeting w) es
  of_entries mid w [] h = tt
  of_entries mid w (e ∷ es) ((stored, about), h) =
      (record { mid = mid; of_meeting = about; stored = stored }, of_entries mid w es h)

  all_events_lem :
      (ms : List MeetingSummary) (w : World p)
      → ((all_events p ms w).1 ≡ w) × All (IsOfMeeting w) (all_events p ms w).0
  unfolding all_events serve
  all_events_lem [] w = (refl, tt)
  all_events_lem (m ∷ ms) w =
      let (es, reads, ordered, entries, complete) = get_by_meeting_lem p m.meeting.id w in
      let (same, rest) = all_events_lem ms w in
      rw reads (
        (
          same,
          All-append (IsOfMeeting w) es (all_events p ms w).0 (of_entries m.meeting.id w es entries)
              rest,
        ))

  list_quiet : (t : Option String) (w : World p) → (serve p (meetings (list_request t)) w).1 ≡ w
  unfolding serve answer_meeting list_by_tenant list_meetings
  list_quiet t w = elim (Option-cases (truthy t)) [
    | inl e ↦ rw (e, list_meetings) refl
    | inr (id, e) ↦ rw (e, list_meetings) refl
  ]

  -- If the hub answers the audit page with its demo tenant, the page shows stored events, the newest
  -- first, each of which is of a meeting: an event without a meeting, such as an enrollment, is not shown.
  pub fetch_audit_shown :
      (mock : List AuditEvent) (w v : World p) (tenant : DemoTenant)
      → serve p demo_tenant w ≡ (ok (tenant_shown tenant), v)
      → IsOrdered desc (λ e. e.created_at) (fetch_audit p mock w).0.rows
        × All (IsOfMeeting v) (fetch_audit p mock w).0.rows
  unfolding fetch_audit
  fetch_audit_shown mock w v tenant e =
      let listed = serve p (meetings (list_request (some tenant.tenant_id))) v in
      let ms = take 10 (meetings_of listed.0) in
      let events = (all_events p ms listed.1).0 in
      let shown : All (IsOfMeeting v) events =
        subst (λ u. All (IsOfMeeting u) events) (list_quiet (some tenant.tenant_id) v)
          (all_events_lem ms listed.1).1 in
      rw (e, fetch_audit)
        (
          in_order-IsOrdered desc (λ x. x.created_at) events,
          All-Perm (IsOfMeeting v) (in_order-Perm desc (λ x. x.created_at) events) shown,
        )
