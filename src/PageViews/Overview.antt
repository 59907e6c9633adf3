-- ===== src/PageViews/Overview.antt =====
-- apps/web/src/app/dashboard/page.tsx: how it shows what it holds, and its demo data.
use Prim.Native.String
use troofai_mvp.Prelude.{
  ℕ, ◌-◌, String, Bool, true, false, Option, none, some, List, [], ◌∷◌, ◌++◌, map, take, length,
  ltb, eqb, if◌then◌else◌, ◌==◌,
}
use troofai_mvp.Prelude.Text.{initials, show}
use troofai_mvp.Stats.{Doubles}
use troofai_mvp.Dashboard.{State, Mock, time_ago}
use troofai_mvp.PageViews.Rows.{Attendee, attendee, with_status, score_of}

-- The statistics as the page reads them.
pub record DeviceCounts : Type 0 where
  pub total : ℕ
  pub active : ℕ
  pub hardware_bound : ℕ

pub record ParticipantCounts : Type 0 where
  pub total : ℕ
  pub verified : ℕ
  pub failed : ℕ
  pub verified_rate : ℕ

pub record ShownStats : Type 0 where
  pub devices : DeviceCounts
  pub meetings : ℕ
  pub participants : ParticipantCounts
  pub audit_events : ℕ
  pub threats_detected : ℕ

-- A meeting and a device as the page reads them; a date is in milliseconds.
pub record RecentMeeting : Type 0 where
  pub id : String
  pub name : String
  pub created_at : ℕ
  pub participants : List Attendee
  pub participant_count : ℕ

pub record RecentDevice : Type 0 where
  pub id : String
  pub user_id : String
  pub display_name : String
  pub hardware_bound : Bool
  pub status : String
  pub last_heartbeat : ℕ
  pub enrolled_at : ℕ

-- MOCK_STATS, MOCK_MEETINGS and MOCK_DEVICES at a time that is later than their ages.
abbrev pub mock_stats : ShownStats
mock_stats = record {
  devices = record { total = 3; active = 2; hardware_bound = 2 };
  meetings = 7;
  participants = record { total = 12; verified = 10; failed = 2; verified_rate = 83 };
  audit_events = 34;
  threats_detected = 2;
}

unfoldable pub mock_meetings : ℕ → List RecentMeeting
mock_meetings now =
    (record {
      id = "mtg-001";
      name = "Board Sync — Q2 Forecast";
      created_at = now - 1320000;
      participants =
          attendee "p1" "Alice Baker" "VERIFIED" "alice@troofai.com" none
          ∷ attendee "p2" "Bob Chen" "VERIFIED" "bob@troofai.com" none
          ∷ attendee "p3" "Alice Baker" "FAILED" "alice.baker.external@gmail.com" none
          ∷ [];
      participant_count = 3;
    })
    ∷ (record {
      id = "mtg-002";
      name = "Engineering Stand-up";
      created_at = now - 10800000;
      participants =
          attendee "p4" "Alice Baker" "VERIFIED" "alice@troofai.com" none
          ∷ attendee "p5" "Carlos Rivera" "VERIFIED" "carlos@troofai.com" none
          ∷ attendee "p6" "Dana Kim" "VERIFIED" "dana@troofai.com" none
          ∷ attendee "p7" "Eve Novak" "PENDING" "eve@troofai.com" none
          ∷ [];
      participant_count = 4;
    })
    ∷ (record {
      id = "mtg-003";
      name = "Investor Update Call";
      created_at = now - 93600000;
      participants =
          attendee "p8" "Alice Baker" "VERIFIED" "alice@troofai.com" none
          ∷ attendee "p9" "Frank Walsh" "VERIFIED" "frank@troofai.com" none
          ∷ attendee "p10" "Grace Liu" "VERIFIED" "grace@troofai.com" none
          ∷ attendee "p11" "Bob Chen" "VERIFIED" "bob@troofai.com" none
          ∷ attendee "p12" "Alice Baker" "FAILED" "alice.b@proton.me" none
          ∷ [];
      participant_count = 5;
    })
    ∷ []

unfoldable pub mock_devices : ℕ → List RecentDevice
mock_devices now =
    (record {
      id = "dev-001";
      user_id = "alice@troofai.com";
      display_name = "Alice Baker";
      hardware_bound = true;
      status = "ACTIVE";
      last_heartbeat = now - 45000;
      enrolled_at = now - 1036800000;
    })
    ∷ (record {
      id = "dev-002";
      user_id = "bob@troofai.com";
      display_name = "Bob Chen";
      hardware_bound = true;
      status = "ACTIVE";
      last_heartbeat = now - 120000;
      enrolled_at = now - 691200000;
    })
    ∷ (record {
      id = "dev-003";
      user_id = "carlos@troofai.com";
      display_name = "Carlos Rivera";
      hardware_bound = false;
      status = "INACTIVE";
      last_heartbeat = now - 172800000;
      enrolled_at = now - 259200000;
    })
    ∷ []

abbrev pub mock_answers : ℕ → Mock ShownStats RecentMeeting RecentDevice
mock_answers now = record {
  tenant_id = "demo-tenant-00a1b2c3";
  stats = mock_stats;
  meetings = mock_meetings now;
  devices = mock_devices now;
}

abbrev Page : Type 0
Page = State ShownStats RecentMeeting RecentDevice

-- `x || 0` of a statistic that may not be there yet
abbrev stat : (ShownStats → ℕ) → Page → ℕ
stat f page = elim page.stats [ none ↦ 0 | some s ↦ f s ]

abbrev pub threat_count : Page → ℕ
threat_count page = stat (λ s. s.threats_detected) page

abbrev plural : ℕ → String
plural n = if eqb n 1 then "" else "s"

abbrev more : ℕ → String
more n = if ltb 1 n then "s" else ""

-- The banner, if there is a threat.
abbrev pub threat_banner : Page → Option String
threat_banner page =
    let n = threat_count page in
    if ltb 0 n
    then some (String.◌++◌ (show n) (String.◌++◌ " Unverified Participant" (more n)))
    else none

-- The four numbers in the middle, each with the line below it.
abbrev pub devices_card : Page → ℕ × String
devices_card page = (
  stat (λ s. s.devices.total) page,
  String.◌++◌ (show (stat (λ s. s.devices.hardware_bound) page)) " TPM-backed",
)

abbrev pub rate_card : Page → ℕ × String
rate_card page = (
  stat (λ s. s.participants.verified_rate) page,
  String.◌++◌ (show (stat (λ s. s.participants.verified) page))
      (String.◌++◌ " of " (show (stat (λ s. s.participants.total) page))),
)

abbrev pub meetings_card : Page → ℕ × String
meetings_card page = (
  stat (λ s. s.meetings) page,
  String.◌++◌ (show (stat (λ s. s.audit_events) page)) " audit events",
)

-- A badge, by its style and its text, for each sort of participant that there is.
abbrev badge : String → String → ℕ → List (String × String)
badge class mark n = if ltb 0 n then (class, String.◌++◌ mark (show n)) ∷ [] else []

abbrev pub pending_of : List Attendee → ℕ
pending_of rs = length rs - with_status "VERIFIED" rs - with_status "FAILED" rs

abbrev pub badges_of : List Attendee → List (String × String)
badges_of rs =
    badge "verified" "✓ " (with_status "VERIFIED" rs)
    ++ (badge "failed" "✗ " (with_status "FAILED" rs) ++ badge "pending" "? " (pending_of rs))

-- The item of a meeting: its score with a style, and the badges.
pub record MeetingItem : Type 0 where
  pub score : ℕ
  pub score_class : String
  pub name : String
  pub meta : String
  pub badges : List (String × String)

abbrev pub score_class : ℕ → String
score_class score = if eqb score 100 then "perfect" else if ltb 0 score then "partial" else "none"

abbrev pub meeting_item : Doubles → ℕ → RecentMeeting → MeetingItem
meeting_item f now m =
    let total = length m.participants in
    let score = score_of f (with_status "VERIFIED" m.participants) total in
    record {
      score = score;
      score_class = score_class score;
      name = m.name;
      meta = String.◌++◌ (show total) (
          String.◌++◌ " participant"
            (String.◌++◌ (plural total) (String.◌++◌ " · " (time_ago (now - m.created_at)))));
      badges = badges_of m.participants;
    }

-- The item of a device.
pub record DeviceItem : Type 0 where
  pub avatar : String
  pub name : String
  pub email : String
  pub key_class : String
  pub key : String
  pub status_class : String
  pub status : String

abbrev pub device_item : RecentDevice → DeviceItem
device_item d = record {
  avatar = initials d.display_name;
  name = d.display_name;
  email = d.user_id;
  key_class = if d.hardware_bound then "hw" else "sw";
  key = if d.hardware_bound then "🔒 TPM" else "🔑 SW";
  status_class = if d.status == "ACTIVE" then "verified" else "failed";
  status = if d.status == "ACTIVE" then "● Active" else "○ Inactive";
}

-- The first five of each list.
abbrev pub meeting_items : Doubles → ℕ → Page → List MeetingItem
meeting_items f now page = map (meeting_item f now) (take 5 page.meetings)

abbrev pub device_items : Page → List DeviceItem
device_items page = map device_item (take 5 page.devices)
