-- ===== src/PageViews/Rows.antt =====
-- apps/web/src/app/devices/page.tsx and meetings/page.tsx: how they show a row, and their demo data.
use Prim.Native.String
use troofai_mvp.Prelude.{
  ℕ, ◌-◌, String, Bool, true, false, Option, none, some, List, [], ◌∷◌, count, length, leb, ltb,
  eqb, if◌then◌else◌, ◌==◌,
}
use troofai_mvp.Prelude.Text.{initials, show}
use troofai_mvp.Stats.{Doubles}
use troofai_mvp.Dashboard.{time_ago}
use troofai_mvp.ZoomMeeting.{short}

-- A device as the page reads it; a date is in milliseconds.
pub record FleetDevice : Type 0 where
  pub id : String
  pub user_id : String
  pub display_name : String
  pub hardware_bound : Bool
  pub status : String
  pub key_algorithm : String
  pub last_heartbeat : Option ℕ
  pub enrolled_at : ℕ

-- The row of a device, but for the date of its enrollment.
pub record DeviceRow : Type 0 where
  pub avatar : String
  pub name : String
  pub email : String
  pub id : String
  pub key_class : String
  pub key_type : String
  pub algorithm : String
  pub status_class : String
  pub status : String
  pub heartbeat : String

-- `timeAgo`, which is the same here as on the dashboard, of a date that has passed.
abbrev pub age_text : ℕ → ℕ → String
age_text now t = time_ago (now - t)

abbrev pub device_row : ℕ → FleetDevice → DeviceRow
device_row now d = record {
  avatar = initials d.display_name;
  name = d.display_name;
  email = d.user_id;
  id = short d.id;
  key_class = if d.hardware_bound then "hw" else "sw";
  key_type = if d.hardware_bound then "🔒 Hardware (TPM)" else "🔑 Software";
  algorithm = d.key_algorithm;
  status_class = if d.status == "ACTIVE" then "active" else "inactive";
  status = if d.status == "ACTIVE" then "● Active" else "○ Revoked";
  heartbeat = elim d.last_heartbeat [ none ↦ "Never" | some t ↦ age_text now t ];
}

-- The title of the table.
abbrev plural : ℕ → String
plural n = if eqb n 1 then "" else "s"

abbrev pub fleet_title : List FleetDevice → String
fleet_title ds =
    String.◌++◌ (show (length ds)) (String.◌++◌ " Enrolled Device" (plural (length ds)))

-- MOCK_DEVICES of devices/page.tsx at a time that is later than their ages.
unfoldable pub mock_fleet : ℕ → List FleetDevice
mock_fleet now =
    (record {
      id = "c7a1e3f0-9b2d-4f8e-a1c3-d5e7f9012345";
      user_id = "alice@troofai.com";
      display_name = "Alice Baker";
      hardware_bound = true;
      status = "ACTIVE";
      key_algorithm = "RSA-2048";
      last_heartbeat = some (now - 45000);
      enrolled_at = now - 1036800000;
    })
    ∷ (record {
      id = "b8d2f4a1-0c3e-5a9f-b2d4-e6f8a0123456";
      user_id = "bob@troofai.com";
      display_name = "Bob Chen";
      hardware_bound = true;
      status = "ACTIVE";
      key_algorithm = "RSA-2048";
      last_heartbeat = some (now - 120000);
      enrolled_at = now - 691200000;
    })
    ∷ (record {
      id = "a9e3f5b2-1d4f-6b0a-c3e5-f7a9b1234567";
      user_id = "carlos@troofai.com";
      display_name = "Carlos Rivera";
      hardware_bound = false;
      status = "INACTIVE";
      key_algorithm = "RSA-2048";
      last_heartbeat = some (now - 172800000);
      enrolled_at = now - 259200000;
    })
    ∷ []

-- A participant of a meeting as the pages read it: the device is there on meetings/page.tsx only.
pub record Attendee : Type 0 where
  pub id : String
  pub display_name : String
  pub trust_status : String
  pub user_id : String
  pub device_id : Option String

-- A meeting as the page reads it.
pub record PastMeeting : Type 0 where
  pub id : String
  pub name : String
  pub created_at : ℕ
  pub ended_at : Option ℕ
  pub participants : List Attendee
  pub participant_count : ℕ

abbrev pub with_status : String → List Attendee → ℕ
with_status s = count (λ a. a.trust_status == s)

-- `total > 0 ? Math.round((verified / total) * 100) : 0`
abbrev pub score_of : Doubles → ℕ → ℕ → ℕ
score_of f verified total =
    if ltb 0 total
    then f.round (f.multiply (f.divide (f.of_ℕ verified) (f.of_ℕ total)) (f.of_ℕ 100))
    else 0

-- The row of a meeting, but for its date and its link.
pub record MeetingRow : Type 0 where
  pub name : String
  pub id : String
  pub total : ℕ
  pub verified : String
  pub failed : String
  pub score : ℕ
  pub color : String

abbrev tally : String → ℕ → String
tally mark n = if ltb 0 n then String.◌++◌ mark (show n) else "0"

abbrev pub meeting_row : Doubles → PastMeeting → MeetingRow
meeting_row f m =
    let score = score_of f (with_status "VERIFIED" m.participants) (length m.participants) in
    record {
      name = m.name;
      id = short m.id;
      total = length m.participants;
      verified = tally "✓ " (with_status "VERIFIED" m.participants);
      failed = tally "✗ " (with_status "FAILED" m.participants);
      score = score;
      color = if leb 50 score then "var(--verified)" else "var(--failed)";
    }

abbrev pub attendee : String → String → String → String → Option String → Attendee
attendee id name status user_id device_id = record {
  id = id;
  display_name = name;
  trust_status = status;
  user_id = user_id;
  device_id = device_id;
}

-- MOCK_MEETINGS of meetings/page.tsx at a time that is later than their ages.
unfoldable pub mock_past_meetings : ℕ → List PastMeeting
mock_past_meetings now =
    (record {
      id = "mtg-a1b2c3d4-e5f6-7890";
      name = "Board Sync — Q2 Forecast";
      created_at = now - 1320000;
      ended_at = none;
      participants =
          attendee "p1" "Alice Baker" "VERIFIED" "alice@troofai.com" (some "dev-001")
          ∷ attendee "p2" "Bob Chen" "VERIFIED" "bob@troofai.com" (some "dev-002")
          ∷ attendee "p3" "Alice Baker" "FAILED" "alice.baker.external@gmail.com" none
          ∷ [];
      participant_count = 3;
    })
    ∷ (record {
      id = "mtg-b2c3d4e5-f6a7-8901";
      name = "Engineering Stand-up";
      created_at = now - 10800000;
      ended_at = some (now - 9000000);
      participants =
          attendee "p4" "Alice Baker" "VERIFIED" "alice@troofai.com" (some "dev-001")
          ∷ attendee "p5" "Carlos Rivera" "VERIFIED" "carlos@troofai.com" (some "dev-003")
          ∷ attendee "p6" "Dana Kim" "VERIFIED" "dana@troofai.com" (some "dev-004")
          ∷ attendee "p7" "Eve Novak" "VERIFIED" "eve@troofai.com" (some "dev-005")
          ∷ [];
      participant_count = 4;
    })
    ∷ (record {
      id = "mtg-c3d4e5f6-a7b8-9012";
      name = "Investor Update Call";
      created_at = now - 93600000;
      ended_at = some (now - 90000000);
      participants =
          attendee "p8" "Alice Baker" "VERIFIED" "alice@troofai.com" (some "dev-001")
          ∷ attendee "p9" "Frank Walsh" "VERIFIED" "frank@troofai.com" (some "dev-006")
          ∷ attendee "p10" "Grace Liu" "VERIFIED" "grace@troofai.com" (some "dev-007")
          ∷ attendee "p11" "Bob Chen" "VERIFIED" "bob@troofai.com" (some "dev-002")
          ∷ attendee "p12" "Alice Baker" "FAILED" "alice.b@proton.me" none
          ∷ [];
      participant_count = 5;
    })
    ∷ []
