-- ===== src/DemoMeeting.antt =====
-- apps/web/src/app/demo-meeting/page.tsx: the state of the simulated meeting and its button. A time
-- is the ISO text that the page makes of the clock, and an argument here.
pub mod Rounds
use Prim.Native.String
use troofai_mvp.Prelude.{
  ℕ, suc, String, Bool, true, false, Option, none, some, List, [], ◌∷◌, ◌++◌, ◌==◌, map,
  if◌then◌else◌,
}
use troofai_mvp.Prelude.Text.{show}
use troofai_mvp.Schema.{Detail, text, flag}

pub record DemoDevice : Type 0 where
  pub id : String
  pub hardware_bound : Bool
  pub user_id : String

pub record Participant : Type 0 where
  pub id : String
  pub user_id : String
  pub display_name : String
  pub device_id : Option String
  pub trust_status : String
  pub status_reason : Option String
  pub joined_at : String
  pub bound_at : Option String
  pub last_challenge_at : Option String
  pub device : Option DemoDevice

pub record PageEvent : Type 0 where
  pub id : String
  pub event_type : String
  pub actor : String
  pub details : List (String × Detail)
  pub created_at : String

pub record Page : Type 0 where
  pub participants : List Participant
  pub audit_events : List PageEvent
  pub challenging : Bool
  pub challenge_count : ℕ

abbrev pub get_status_class : String → String
get_status_class status =
    if status == "VERIFIED"
    then "verified"
    else if status == "FAILED"
    then "failed"
    else if status == "STALE"
    then "stale"
    else "unknown"

abbrev pub get_status_label : String → String
get_status_label status =
    if status == "VERIFIED"
    then "✓ Verified"
    else if status == "FAILED"
    then "✗ Failed"
    else if status == "STALE"
    then "⚠ Stale"
    else if status == "UNKNOWN"
    then "? Unknown"
    else if status == "PENDING"
    then "⏳ Pending"
    else status

abbrev alice : String
alice = "alice@troofai.com"

abbrev bob : String
bob = "bob@troofai.com"

abbrev fake_alice : String
fake_alice = "alice.baker.external@gmail.com"

abbrev pub enrolled_participant : String → String → String → String → String → Participant
enrolled_participant id user_id display_name device_id now = record {
  id = id;
  user_id = user_id;
  display_name = display_name;
  device_id = some device_id;
  trust_status = "PENDING";
  status_reason = none;
  joined_at = now;
  bound_at = some now;
  last_challenge_at = none;
  device = some (record { id = device_id; hardware_bound = true; user_id = user_id });
}

-- INITIAL_PARTICIPANTS
abbrev pub initial_participants : String → List Participant
initial_participants now =
    enrolled_participant "p-alice-real" alice "Alice Baker" "dev-c7a1e3f0" now
    ∷ enrolled_participant "p-bob" bob "Bob Chen" "dev-b8d2f4a1" now
    ∷ record (enrolled_participant "p-alice-fake" fake_alice "Alice Baker" "" now) {
      device_id = none;
      bound_at = none;
      device = none;
    }
    ∷ []

abbrev page_event : String → String → String → List (String × Detail) → String → PageEvent
page_event id event_type actor details created_at = record {
  id = id;
  event_type = event_type;
  actor = actor;
  details = details;
  created_at = created_at;
}

abbrev bound_details : String → String → List (String × Detail)
bound_details display_name device_id =
    ("display_name", text display_name)
    ∷ ("device_id", text device_id)
    ∷ ("hardware_bound", flag true)
    ∷ []

abbrev named : String → List (String × Detail)
named display_name = ("display_name", text display_name) ∷ []

abbrev pub initial_events : String → List PageEvent
initial_events now =
    page_event "init-1" "PARTICIPANT_JOINED" alice (named "Alice Baker") now
    ∷ page_event "init-2" "PARTICIPANT_JOINED" bob (named "Bob Chen") now
    ∷ page_event "init-3" "PARTICIPANT_JOINED" fake_alice (named "Alice Baker") now
    ∷ page_event "init-4" "MEETING_BINDING_BOUND" alice (bound_details "Alice Baker" "c7a1e3f0") now
    ∷ page_event "init-5" "MEETING_BINDING_BOUND" bob (bound_details "Bob Chen" "b8d2f4a1") now
    ∷ []

abbrev pub initial_page : String → Page
initial_page now = record {
  participants = initial_participants now;
  audit_events = initial_events now;
  challenging = false;
  challenge_count = 0;
}

-- `setParticipants(prev => prev.map(p => p.id === id ? { ...p, ... } : p))`
abbrev pub on_id : String → (Participant → Participant) → List Participant → List Participant
on_id id f = map (λ r. if r.id == id then f r else r)

abbrev pub pass : String → Participant → Participant
pass t r = record r { trust_status = "VERIFIED"; last_challenge_at = some t }

abbrev pub fail : String → Participant → Participant
fail t r = record r {
  trust_status = "FAILED";
  last_challenge_at = some t;
  status_reason = some "No enrolled device found";
}

abbrev ch_id : ℕ → String → String
ch_id count suffix = String.◌++◌ "ch-" (String.◌++◌ (show count) suffix)

-- The four events of a round.
abbrev pub round_events : ℕ → String → String → String → String → List PageEvent
round_events count t1 t2 t3 t4 =
    page_event (ch_id count "-issue") "CHALLENGE_ISSUED" "system" (named "All participants") t1
    ∷ page_event (ch_id count "-alice") "CHALLENGE_PASSED" alice
        (bound_details "Alice Baker" "c7a1e3f0") t2
    ∷ page_event (ch_id count "-bob") "CHALLENGE_PASSED" bob (bound_details "Bob Chen" "b8d2f4a1")
        t3
    ∷ page_event (ch_id count "-fake") "CHALLENGE_FAILED_NO_DEVICE" fake_alice
        (("display_name", text "Alice Baker")
          ∷ ("reason", text "No enrolled device found for this user")
          ∷ [])
        t4
    ∷ []

-- `triggerChallenge`, from the click to the end of its last wait.
unfoldable pub trigger_challenge : String → String → String → String → Page → Page
trigger_challenge t1 t2 t3 t4 page = record {
  participants =
      on_id "p-alice-fake" (fail t4)
        (on_id "p-bob" (pass t3) (on_id "p-alice-real" (pass t2) page.participants));
  audit_events = page.audit_events ++ round_events (suc page.challenge_count) t1 t2 t3 t4;
  challenging = false;
  challenge_count = suc page.challenge_count;
}
