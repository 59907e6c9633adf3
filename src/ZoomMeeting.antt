-- ===== src/ZoomMeeting.antt =====
-- apps/web/src/app/zoom-meeting/page.tsx: the set-up of a meeting, the polling, and the button that
-- starts a challenge. The page and the hub are one state, the hub answers by `serve`, and the agent on
-- the user's machine is a parameter. The markup and the formatting of times are left out.
pub mod Proceeds
pub mod Opened
pub mod Setup
pub mod Display
use Prim.Native.String
use troofai_mvp.Prelude.{
  ℕ, String, Bool, true, false, Option, none, some, List, [], ◌∷◌, ◌++◌, count, ◌==◌, if◌then◌else◌,
}
use troofai_mvp.Prelude.Text.{first_chars}
use troofai_mvp.Schema.{Device, MeetingParticipant, AuditEvent, TrustStatus, unknown}
use troofai_mvp.Platform.{Platform}
use troofai_mvp.Exec.{Exec, Exception, Result, ok, thrown, type_error, pure, throw, ◌>>=◌, ◌>>◌}
use troofai_mvp.World.{World, truthy}
use troofai_mvp.Auth.{DemoTenant}
use troofai_mvp.Meeting.{JoinToken}
use troofai_mvp.Challenge.{is_verified}
use troofai_mvp.Stats.{is_failed}
use troofai_mvp.Api.{
  BindDeviceDto, created, joined, token_issued, shown, create_request, join_request, token_request,
  bind_request, get_request,
}
use troofai_mvp.Api.Requests.{
  Request, Response, demo_tenant, meetings, challenges, audit, tenant_shown, meetings_answered,
  audit_shown, serve,
}

-- One of the DEMO_PARTICIPANTS.
pub record DemoParticipant : Type 0 where
  pub user_id : String
  pub display_name : String
  pub is_enrolled : Bool

abbrev pub demo_participants : List DemoParticipant
demo_participants =
    (record { user_id = "alice@troofai.com"; display_name = "Alice Baker"; is_enrolled = true })
    ∷ (record { user_id = "ahmad@troofai.com"; display_name = "Ahmad Baker"; is_enrolled = false })
    ∷ (record {
      user_id = "alice.baker.external@gmail.com";
      display_name = "Alice Baker (External)";
      is_enrolled = false;
    })
    ∷ []

pub data Phase : Type 0 where
  setup ready live : Phase

-- The state of the page.
pub record Page : Type 0 where
  pub meeting_id : Option String
  pub tenant_id : Option String
  pub participants : List (MeetingParticipant × Option Device)
  pub audit_events : List AuditEvent
  pub challenging : Bool
  pub phase : Phase
  pub setup_log : List String

abbrev pub first_page : Page
first_page = record {
  meeting_id = none;
  tenant_id = none;
  participants = [];
  audit_events = [];
  challenging = false;
  phase = setup;
  setup_log = [];
}

-- What the agent's `/bind` gives back: nothing, a body without the fields, or a signed token.
pub data AgentAnswer : Type 0 where
  unreachable declined : AgentAnswer
  signed : BindDeviceDto → AgentAnswer

abbrev pub is_unknown : TrustStatus → Bool
is_unknown unknown = true
is_unknown _ = false

-- The counts above the list of participants.
abbrev pub verified_count : Page → ℕ
verified_count page = count (λ e. is_verified e.0.trust_status) page.participants

abbrev pub failed_count : Page → ℕ
failed_count page = count (λ e. is_failed e.0.trust_status) page.participants

abbrev pub unknown_count : Page → ℕ
unknown_count page = count (λ e. is_unknown e.0.trust_status) page.participants

abbrev pub go_live : Page → Page
go_live page = record page { phase = live }

-- What `td.tenant_id.slice(0, 8)` and its like print: `id.slice(0, 8)...`
abbrev pub short : String → String
short id = String.◌++◌ (first_chars 8 id) "..."

abbrev pub line : String → String → String
line a b = String.◌++◌ a b

abbrev pub bound_line : String → String
bound_line participant_id = line "🔒 Device bound (TPM) for " (short participant_id)

abbrev pub skipped_line : String → String
skipped_line participant_id =
    line "⚠ Agent not reachable — skipping bind for " (short participant_id)

abbrev pub ready_line : String
ready_line = "✓ Meeting ready — click \"Go Live\" to start verification"

-- The name of the meeting, by the number in the address of the page.
abbrev pub meeting_name : String → String
meeting_name zoom_number = elim (truthy (some zoom_number)) [
  | none ↦ "TroofAI Demo Meeting"
  | some n ↦ line "Zoom " n
]

-- The page and the hub that it calls.
pub record Session (p : Platform) : Type 0 where
  pub page : Page
  pub hub : World p

module _ (p : Platform) where
  abbrev pub OnPage : Type 0 → Type 0
  OnPage A = Exec (Session p) A

  -- `setPage`, as each of the setters does it
  abbrev pub on_page : (Page → Page) → OnPage (Unit {0})
  on_page f s = (ok tt, record s { page = f s.page })

  abbrev pub add_log : String → OnPage (Unit {0})
  add_log message = on_page λ page. record page { setup_log = page.setup_log ++ message ∷ [] }

  -- `fetch` of the hub: an error of the hub is an answer too, and throws nothing.
  unfoldable pub ask : Request → OnPage (Result Response)
  ask r s = let (answer, w) = serve p r s.hub in (ok answer, record s { hub = w })

  -- `td.tenant_id.slice`, `md.meeting.id` and `pd.participant.id`, which throw where the body has no
  -- such field
  abbrev pub tenant_of : Result Response → OnPage DemoTenant
  tenant_of (ok (tenant_shown tenant)) = pure tenant
  tenant_of _ = throw type_error

  abbrev pub meeting_of : Result Response → OnPage String
  meeting_of (ok (meetings_answered (created answer))) = pure answer.value.id
  meeting_of _ = throw type_error

  abbrev pub participant_of : Result Response → OnPage String
  participant_of (ok (meetings_answered (joined answer))) = pure answer.value.id
  participant_of _ = throw type_error

  -- The body of a join token, without its fields if the hub has refused it.
  abbrev pub token_of : Result Response → Option JoinToken
  token_of (ok (meetings_answered (token_issued token))) = some token
  token_of _ = none

  -- `if (p.isEnrolled) enrolledParticipantIds.push(pd.participant.id)`
  unfoldable pub enrolled_id : Bool → Result Response → OnPage (List String)
  enrolled_id true answer = do id ← participant_of answer; pure (id ∷ [])
  enrolled_id false answer = pure []

  -- The first loop of the set-up: everyone joins, and the ids of the enrolled are kept.
  unfoldable pub join_all : String → List DemoParticipant → OnPage (List String)
  join_all meeting_id [] = pure []
  join_all meeting_id (person ∷ rest) = do
    answer ← ask (
        meetings (
          join_request meeting_id
            (record { user_id = person.user_id; display_name = person.display_name })))
    add_log (line "+ " (line person.display_name (line " (" (line person.user_id ")"))))
    enrolled ← enrolled_id person.is_enrolled answer
    others ← join_all meeting_id rest
    pure (enrolled ++ others)

  -- What the page does with the agent's answer. Whether the hub accepts the binding is not looked at; a
  -- body without the fields does not pass the hub's validation, and changes nothing.
  unfoldable pub bind_with : AgentAnswer → String → String → OnPage (Unit {0})
  bind_with unreachable meeting_id participant_id = add_log (skipped_line participant_id)
  bind_with declined meeting_id participant_id = add_log (bound_line participant_id)
  bind_with (signed dto) meeting_id participant_id = do
    ask (meetings (bind_request meeting_id dto))
    add_log (bound_line participant_id)

  -- The second loop, over the enrolled.
  unfoldable pub bind_all :
      (Option JoinToken → AgentAnswer) → String → List String → OnPage (Unit {0})
  bind_all agent meeting_id [] = pure tt
  bind_all agent meeting_id (participant_id ∷ rest) = do
    answer ← ask (meetings (token_request meeting_id (record { participant_id = participant_id })))
    bind_with (agent (token_of answer)) meeting_id participant_id
    bind_all agent meeting_id rest

  -- The set-up inside its `try`, up to the end of the bindings: the id of the meeting.
  unfoldable pub open_meeting : (Option JoinToken → AgentAnswer) → String → OnPage String
  open_meeting agent zoom_number = do
    add_log "Connecting to TroofAI Hub..."
    answer ← ask demo_tenant
    tenant ← tenant_of answer
    on_page λ page. record page { tenant_id = some tenant.tenant_id }
    add_log (line "Tenant: " (short tenant.tenant_id))
    add_log "Creating verified meeting session..."
    reply ← ask (
        meetings (
          create_request
            (record { tenant_id = tenant.tenant_id; name = meeting_name zoom_number })))
    meeting_id ← meeting_of reply
    add_log (line "Meeting: " (short meeting_id))
    enrolled ← join_all meeting_id demo_participants
    bind_all agent meeting_id enrolled
    pure meeting_id

  unfoldable pub set_up_steps : (Option JoinToken → AgentAnswer) → String → OnPage (Unit {0})
  set_up_steps agent zoom_number = do
    meeting_id ← open_meeting agent zoom_number
    on_page λ page. record page { meeting_id = some meeting_id; phase = ready }
    add_log ready_line

  -- The `catch`: the message of the exception is a parameter.
  abbrev pub reported : (Exception → String) → Result (Unit {0}) × Session p → Session p
  reported message (ok a, s) = s
  reported message (thrown e, s) = (add_log (line "Error: " (message e)) s).1

  unfoldable pub set_up :
      (Option JoinToken → AgentAnswer) → (Exception → String) → String → Session p → Session p
  set_up agent message zoom_number s = reported message (set_up_steps agent zoom_number s)

  -- What `fetchData` makes of the two answers. A meeting that is not there is an empty body, which
  -- throws, and the `catch` leaves the page.
  abbrev pub show : Result Response → Result Response → Page → Page
  show (ok (meetings_answered (shown (some details)))) (ok (audit_shown events)) page =
      record page { participants = details.participants; audit_events = events }
  show _ _ page = page

  unfoldable pub fetch_data : Session p → Session p
  fetch_data s = elim (truthy s.page.meeting_id) [
    | none ↦ s
    | some meeting_id ↦
        let (details, w) = serve p (meetings (get_request meeting_id)) s.hub in
        let (events, w') = serve p (audit meeting_id) w in
        record { page = show details events s.page; hub = w' }
  ]

  -- The button, to the end of its timer of two seconds.
  unfoldable pub trigger_challenge : Session p → Session p
  trigger_challenge s = elim (truthy s.page.meeting_id) [
    | none ↦ s
    | some meeting_id ↦
        let w = (serve p (challenges meeting_id) s.hub).1 in
        let after = fetch_data (record { page = record s.page { challenging = true }; hub = w }) in
        record after { page = record after.page { challenging = false } }
  ]
