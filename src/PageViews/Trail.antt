-- ===== src/PageViews/Trail.antt =====
-- apps/web/src/app/audit/page.tsx: how it shows an event, and its demo data.
use Prim.Native.String
use troofai_mvp.Prelude.{
  ℕ, ◌-◌, String, Bool, true, false, Option, none, some, List, [], ◌∷◌, if◌then◌else◌,
}
use troofai_mvp.Prelude.Text.{includes, spaced}
use troofai_mvp.World.{truthy}
use troofai_mvp.ZoomMeeting.{short}

-- `formatEventType` and `getEventColor`
abbrev pub format_event_type : String → String
format_event_type type = spaced type

abbrev pub event_color : String → String
event_color t =
    if includes t "PASSED"
    then "var(--verified)"
    else if includes t "BOUND"
    then "var(--verified)"
    else if includes t "ENROLLED"
    then "var(--verified)"
    else if includes t "HEARTBEAT"
    then "var(--verified)"
    else if includes t "FAILED"
    then "var(--failed)"
    else if includes t "NO_DEVICE"
    then "var(--failed)"
    else "var(--text-muted)"

-- An event as the page reads it: of the details only these fields. A date is in milliseconds.
pub record ShownDetails : Type 0 where
  pub display_name : Option String
  pub device_id : Option String
  pub hardware_bound : Option Bool
  pub reason : Option String

pub record ShownEvent : Type 0 where
  pub id : String
  pub event_type : String
  pub actor : String
  pub details : ShownDetails
  pub created_at : ℕ
  pub meeting_id : Option String

-- The row of an event, but for its date.
pub record EventRow : Type 0 where
  pub color : String
  pub type : String
  pub actor : String
  pub reason : Option String
  pub name : Option String
  pub device : Option String
  pub device_tag : Option String
  pub meeting : String

-- The name is shown where there is no reason, the tag only beside a device.
abbrev pub name_shown : ShownDetails → Option String
name_shown d = elim (truthy d.reason) [ some _ ↦ none | none ↦ truthy d.display_name ]

abbrev pub device_tag : ShownDetails → Option String
device_tag d = elim (truthy d.device_id) [
  | none ↦ none
  | some _ ↦ elim d.hardware_bound [ none ↦ none | some b ↦ some (if b then "TPM" else "SW") ]
]

abbrev device_shown : ShownDetails → Option String
device_shown d = elim (truthy d.device_id) [
  | none ↦ none
  | some id ↦ some (String.◌++◌ "Device: " (short id))
]

abbrev meeting_shown : Option String → String
meeting_shown id = elim (truthy id) [ none ↦ "—" | some m ↦ short m ]

unfoldable pub event_row : ShownEvent → EventRow
event_row e = record {
  color = event_color e.event_type;
  type = format_event_type e.event_type;
  actor = e.actor;
  reason = truthy e.details.reason;
  name = name_shown e.details;
  device = device_shown e.details;
  device_tag = device_tag e.details;
  meeting = meeting_shown e.meeting_id;
}

abbrev details_of : String → Option String → Option Bool → Option String → ShownDetails
details_of name device bound reason = record {
  display_name = some name;
  device_id = device;
  hardware_bound = bound;
  reason = reason;
}

abbrev demo_event : String → String → String → ShownDetails → ℕ → Option String → ShownEvent
demo_event id type actor details created_at meeting_id = record {
  id = id;
  event_type = type;
  actor = actor;
  details = details;
  created_at = created_at;
  meeting_id = meeting_id;
}

-- MOCK_EVENTS at a time that is later than their ages.
unfoldable pub mock_events : ℕ → List ShownEvent
mock_events now =
    let alice = details_of "Alice Baker" (some "c7a1e3f0-9b2d-4f8e") (some true) none in
    let bob = details_of "Bob Chen" (some "b8d2f4a1-0c3e-5a9f") (some true) none in
    let carlos = details_of "Carlos Rivera" (some "a9e3f5b2-1d4f-6b0a") (some false) none in
    let named : String → ShownDetails = λ name. details_of name none none none in
    let refused =
      details_of "Alice Baker" none none (some "No enrolled device found for this user") in
    let beat = details_of "Alice Baker" (some "c7a1e3f0-9b2d-4f8e") none none in
    let alice_id : String = "alice@troofai.com" in
    let bob_id : String = "bob@troofai.com" in
    let outsider : String = "alice.baker.external@gmail.com" in
    let board : Option String = some "mtg-a1b2c3d4" in
    demo_event "ae-01" "DEVICE_ENROLLED" alice_id alice (now - 1036800000) none
    ∷ demo_event "ae-02" "DEVICE_ENROLLED" bob_id bob (now - 691200000) none
    ∷ demo_event "ae-03" "DEVICE_ENROLLED" "carlos@troofai.com" carlos (now - 259200000) none
    ∷ demo_event "ae-04" "PARTICIPANT_JOINED" alice_id (named "Alice Baker") (now - 1440000) board
    ∷ demo_event "ae-05" "PARTICIPANT_JOINED" bob_id (named "Bob Chen") (now - 1380000) board
    ∷ demo_event "ae-06" "PARTICIPANT_JOINED" outsider (named "Alice Baker") (now - 1350000) board
    ∷ demo_event "ae-07" "MEETING_BINDING_BOUND" alice_id alice (now - 1410000) board
    ∷ demo_event "ae-08" "MEETING_BINDING_BOUND" bob_id bob (now - 1368000) board
    ∷ demo_event "ae-09" "CHALLENGE_PASSED" alice_id alice (now - 1320000) board
    ∷ demo_event "ae-10" "CHALLENGE_PASSED" bob_id bob (now - 1290000) board
    ∷ demo_event "ae-11" "CHALLENGE_FAILED_NO_DEVICE" outsider refused (now - 1260000) board
    ∷ demo_event "ae-12" "HEARTBEAT_RECEIVED" alice_id beat (now - 45000) none
    ∷ []
