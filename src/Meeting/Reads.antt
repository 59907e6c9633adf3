-- ===== src/Meeting/Reads.antt =====
-- The methods of services/hub-api/src/meeting/meeting.service.ts that only read.
use troofai_mvp.Prelude.{ℕ, String, Option, none, some, List, map, ◌==◌, take}
use troofai_mvp.Schema.{Device, Meeting, MeetingParticipant, TrustStatus}
use troofai_mvp.Platform.{Platform}
use troofai_mvp.Platform.Order.{asc, desc}
use troofai_mvp.Exec.{ok, pure, ◌>>=◌}
use troofai_mvp.World.{World, Hub, find_meeting, device_of}

-- What the list of meetings shows of a participant, and of a meeting with its `_count`.
pub record ParticipantSummary : Type 0 where
  pub id : String
  pub display_name : String
  pub trust_status : TrustStatus
  pub user_id : String
  pub device_id : Option String

pub record MeetingSummary : Type 0 where
  pub meeting : Meeting
  pub participants : List ParticipantSummary
  pub participant_count : ℕ

-- A meeting with its participants and their devices.
pub record MeetingDetails : Type 0 where
  pub meeting : Meeting
  pub participants : List (MeetingParticipant × Option Device)

abbrev pub summary_of : MeetingParticipant → ParticipantSummary
summary_of r = record {
  id = r.id;
  display_name = r.display_name;
  trust_status = r.trust_status;
  user_id = r.user_id;
  device_id = r.device_id;
}

module _ (p : Platform) where
  -- The participants of a meeting by the time they joined, each with its device.
  unfoldable pub get_participants : String → Hub p (List (MeetingParticipant × Option Device))
  get_participants meeting_id w = (
    ok (
        map (λ r. (r, device_of p w r))
          (p.participants.find_ordered (λ r. r.meeting_id == meeting_id) asc (λ r. r.joined_at)
            w.participants)),
    w,
  )

  unfoldable pub get_meeting : String → Hub p (Option MeetingDetails)
  get_meeting id = do
    found ← find_meeting p id
    elim found [
      | none ↦ pure none
      | some meeting ↦ do
        participants ← get_participants id
        pure (some (record { meeting = meeting; participants = participants }))
    ]

  abbrev pub summarise : World p → Meeting → MeetingSummary
  summarise w m = record {
    meeting = m;
    participants =
        map summary_of (p.participants.find_many (λ r. r.meeting_id == m.id) w.participants);
    participant_count = p.participants.number (λ r. r.meeting_id == m.id) w.participants;
  }

  -- The newest 50 meetings of a tenant.
  unfoldable pub list_by_tenant : String → Hub p (List MeetingSummary)
  list_by_tenant tenant_id w = (
    ok (
        map (summarise w) (
          take 50 (
            p.meetings.find_ordered (λ m. m.tenant_id == tenant_id) desc (λ m. m.created_at)
              w.meetings))),
    w,
  )
