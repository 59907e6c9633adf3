-- ===== src/PageViews/Zoom.antt =====
-- apps/web/src/app/zoom-meeting/page.tsx: how it shows a participant, and when its button works.
use Prim.Native.String
use troofai_mvp.Prelude.{
  String, Bool, true, false, Option, none, some, not, ltb, if◌then◌else◌, ◌==◌,
}
use troofai_mvp.Prelude.Text.{first_chars, includes, initials, show}
use troofai_mvp.Schema.{Device, MeetingParticipant}
use troofai_mvp.ZoomMeeting.{Page, Phase, live, short, failed_count}
use troofai_mvp.PageViews.{status_text}

-- `getStatusClass`, `getStatusLabel` and `getEventTypeClass`
abbrev pub status_class : String → String
status_class s =
    if s == "VERIFIED"
    then "verified"
    else if s == "FAILED"
    then "failed"
    else if s == "STALE"
    then "stale"
    else "unknown"

abbrev pub status_label : String → String
status_label s =
    if s == "VERIFIED"
    then "✓ Verified"
    else if s == "FAILED"
    then "✗ Failed"
    else if s == "STALE"
    then "⚠ Stale"
    else "? Pending"

abbrev pub event_class : String → String
event_class t =
    if includes t "PASSED"
    then "passed"
    else if includes t "BOUND"
    then "passed"
    else if includes t "ENROLLED"
    then "passed"
    else if includes t "FAILED"
    then "failed"
    else if includes t "NO_DEVICE"
    then "failed"
    else "info"

-- What is said of the device that the hub sends along with a participant.
abbrev pub device_line : Option Device → Option String
device_line none = none
device_line (some d) = some (String.◌++◌ "Device: " (short d.id))

abbrev pub has_tpm_tag : Option Device → Bool
has_tpm_tag none = false
has_tpm_tag (some d) = d.hardware_bound

abbrev pub avatar_class : Option Device → String
avatar_class none = "external"
avatar_class (some _) = "enrolled"

-- "No enrolled device detected"
abbrev pub warns : Option Device → String → Bool
warns none s = not (s == "VERIFIED")
warns (some _) s = false

-- A card in the middle of the page.
pub record Card : Type 0 where
  pub class : String
  pub avatar_class : String
  pub avatar : String
  pub name : String
  pub email : String
  pub device_line : Option String
  pub tpm_tag : Bool
  pub warning : Bool
  pub badge : String

unfoldable pub card : MeetingParticipant × Option Device → Card
card (r, d) = record {
  class = status_class (status_text r.trust_status);
  avatar_class = avatar_class d;
  avatar = first_chars 2 (initials r.display_name);
  name = r.display_name;
  email = r.user_id;
  device_line = device_line d;
  tpm_tag = has_tpm_tag d;
  warning = warns d (status_text r.trust_status);
  badge = status_label (status_text r.trust_status);
}

-- A line of the panel on the right.
pub record PanelLine : Type 0 where
  pub class : String
  pub avatar_class : String
  pub avatar : String
  pub name : String
  pub email : String
  pub badge : String
  pub tpm_tag : Bool

unfoldable pub panel_line : MeetingParticipant × Option Device → PanelLine
panel_line (r, d) = record {
  class = status_class (status_text r.trust_status);
  avatar_class = avatar_class d;
  avatar = first_chars 2 (initials r.display_name);
  name = r.display_name;
  email = r.user_id;
  badge = status_label (status_text r.trust_status);
  tpm_tag = has_tpm_tag d;
}

-- The threat banner.
abbrev pub threat_line : Page → Option String
threat_line page =
    if ltb 0 (failed_count page)
    then some (String.◌++◌ (show (failed_count page)) " Unverified")
    else none

abbrev is_live : Phase → Bool
is_live live = true
is_live _ = false

-- Whether "Verify All Participants" is disabled.
abbrev pub button_disabled : Page → Bool
button_disabled page = if page.challenging then true else not (is_live page.phase)
