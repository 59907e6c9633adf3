-- ===== src/HubPages.antt =====
-- Pages of apps/web/src/app that read the hub when they open: devices/page.tsx, meetings/page.tsx and
-- audit/page.tsx. The hub answers by `serve`; where it fails the page shows demo data, a parameter. The
-- markup is left out.
pub mod Trail
use troofai_mvp.Prelude.{
  ℕ, String, Bool, true, false, Option, none, some, List, [], ◌++◌, ◌∷◌, count, length, take, ltb,
  if◌then◌else◌,
}
use troofai_mvp.Schema.{Device, AuditEvent}
use troofai_mvp.Platform.{Platform}
use troofai_mvp.Platform.Order.{desc}
use troofai_mvp.Collections.Sorting.{in_order}
use troofai_mvp.Exec.{Result, ok, thrown}
use troofai_mvp.World.{World}
use troofai_mvp.Challenge.{is_verified}
use troofai_mvp.Stats.{Doubles, is_failed}
use troofai_mvp.Meeting.Reads.{MeetingSummary}
use troofai_mvp.Api.{list_request, listed, devices_request, devices_listed}
use troofai_mvp.Api.Requests.{
  Response, demo_tenant, meetings, devices, audit, tenant_shown, meetings_answered,
  devices_answered, audit_shown, serve,
}

-- The state of such a page: the tenant, the rows that it shows, and whether it still loads.
pub record ListPage (Row : Type 0) : Type 0 where
  pub tenant_id : String
  pub rows : List Row
  pub loading : Bool

abbrev pub loaded : {Row : Type 0} → String → List Row → ListPage Row
loaded tenant_id rows = record { tenant_id = tenant_id; rows = rows; loading = false }

-- MOCK_TENANT_ID
abbrev pub mock_tenant_id : String
mock_tenant_id = "demo-tenant-00a1b2c3"

-- `Array.isArray(data) ? data : []`
abbrev pub devices_of : Result Response → List Device
devices_of (ok (devices_answered (devices_listed ds))) = ds
devices_of _ = []

-- The hub's answers to these two routes are lists.
abbrev pub meetings_of : Result Response → List MeetingSummary
meetings_of (ok (meetings_answered (listed ms))) = ms
meetings_of _ = []

abbrev pub events_of : Result Response → List AuditEvent
events_of (ok (audit_shown es)) = es
events_of _ = []

-- `new Date(b.createdAt).getTime() - new Date(a.createdAt).getTime()`
abbrev pub newest_first : List AuditEvent → List AuditEvent
newest_first = in_order desc (λ e. e.created_at)

-- A row of the table of meetings: who is verified, who failed, how many there are.
abbrev pub verified_in : MeetingSummary → ℕ
verified_in m = count (λ r. is_verified r.trust_status) m.participants

abbrev pub failed_in : MeetingSummary → ℕ
failed_in m = count (λ r. is_failed r.trust_status) m.participants

module _ (p : Platform) where
  -- The tenant, or an answer that is not `ok`.
  abbrev pub with_tenant :
      {Row : Type 0}
      → List Row
      → (String → World p → ListPage Row × World p)
      → Result Response × World p
      → ListPage Row × World p
  with_tenant mock rest (ok (tenant_shown tenant), w) = rest tenant.tenant_id w
  with_tenant mock rest (ok r, w) = (loaded mock_tenant_id mock, w)
  with_tenant mock rest (thrown e, w) = (loaded mock_tenant_id mock, w)

  unfoldable pub fetch_devices : List Device → World p → ListPage Device × World p
  fetch_devices mock w =
      with_tenant mock
        (λ t v.
          let (answer, u) = serve p (devices (devices_request (some t))) v in
          (loaded t (devices_of answer), u))
        (serve p demo_tenant w)

  unfoldable pub fetch_meetings : List MeetingSummary → World p → ListPage MeetingSummary × World p
  fetch_meetings mock w =
      with_tenant mock
        (λ t v.
          let (answer, u) = serve p (meetings (list_request (some t))) v in
          (loaded t (meetings_of answer), u))
        (serve p demo_tenant w)

  -- The loop over the meetings: their events, one meeting after the other.
  unfoldable pub all_events : List MeetingSummary → World p → List AuditEvent × World p
  all_events [] w = ([], w)
  all_events (m ∷ ms) w =
      let (answer, v) = serve p (audit m.meeting.id) w in
      let (rest, u) = all_events ms v in (events_of answer ++ rest, u)

  -- The events of the first ten meetings of the list.
  unfoldable pub fetch_audit : List AuditEvent → World p → ListPage AuditEvent × World p
  fetch_audit mock w =
      with_tenant (newest_first mock)
        (λ t v.
          let (answer, u) = serve p (meetings (list_request (some t))) v in
          let (events, x) = all_events (take 10 (meetings_of answer)) u in
          (loaded t (newest_first events), x))
        (serve p demo_tenant w)

-- The share of a meeting's participants that are verified, in percent.
module _ (f : Doubles) where
  abbrev pub trust_score : MeetingSummary → ℕ
  trust_score m =
      if ltb 0 (length m.participants)
      then f.round (
          f.multiply (f.divide (f.of_ℕ (verified_in m)) (f.of_ℕ (length m.participants)))
            (f.of_ℕ 100))
      else 0
