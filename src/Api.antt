-- ===== src/Api.antt =====
-- The controllers of services/hub-api/src (challenge.controller.ts, meeting.controller.ts,
-- device.controller.ts, audit.controller.ts, with the bodies of meeting.dto.ts), and what reaches the
-- hub from outside: a request of a client, or an event of a socket.
pub mod Requests
pub mod Serving
pub mod Reachable
use troofai_mvp.Prelude.{ℕ, String, Bool, true, Option, none, some, List, []}
use troofai_mvp.Schema.{Device, DeviceStatus, Meeting, MeetingParticipant}
use troofai_mvp.Platform.{Platform}
use troofai_mvp.Exec.{pure, ◌>>=◌}
use troofai_mvp.World.{Hub, truthy}
use troofai_mvp.Device.{EnrollDeviceDto, enroll, find_by_id, find_by_tenant}
use troofai_mvp.Meeting.{
  CreateMeetingDto, AddParticipantDto, JoinToken, create, add_participant, issue_join_token,
  bind_device,
}
use troofai_mvp.Meeting.Reads.{
  MeetingDetails, MeetingSummary, get_meeting, get_participants, list_by_tenant,
}
use troofai_mvp.Challenge.{IssueResult, issue_challenge}

pub record RequestJoinTokenDto : Type 0 where
  pub participant_id : String

pub record BindDeviceDto : Type 0 where
  pub join_token : String
  pub device_id : String
  pub signature : String

-- `{ success: true, … }`
pub record Success (A : Type 0) : Type 0 where
  pub success : Bool
  pub value : A

-- What an enrollment answers.
pub record Enrolled : Type 0 where
  pub success : Bool
  pub device_id : String
  pub status : DeviceStatus
  pub enrolled_at : ℕ

abbrev pub succeeded : {A : Type 0} → A → Success A
succeeded a = record { success = true; value = a }

abbrev pub enrolled : Device → Enrolled
enrolled device = record {
  success = true;
  device_id = device.id;
  status = device.status;
  enrolled_at = device.enrolled_at;
}

-- The routes of `MeetingController`, and what they answer.
pub data MeetingRequest : Type 0 where
  create_request : CreateMeetingDto → MeetingRequest
  list_request : Option String → MeetingRequest
  get_request : String → MeetingRequest
  join_request : String → AddParticipantDto → MeetingRequest
  attendance_request : String → MeetingRequest
  token_request : String → RequestJoinTokenDto → MeetingRequest
  bind_request : String → BindDeviceDto → MeetingRequest

pub data MeetingAnswer : Type 0 where
  created : Success Meeting → MeetingAnswer
  listed : List MeetingSummary → MeetingAnswer
  shown : Option MeetingDetails → MeetingAnswer
  joined : Success MeetingParticipant → MeetingAnswer
  attendance : List (MeetingParticipant × Option Device) → MeetingAnswer
  token_issued : JoinToken → MeetingAnswer
  bound : Success MeetingParticipant → MeetingAnswer

-- The routes of `DeviceController`, and what they answer.
pub data DeviceRequest : Type 0 where
  enroll_request : EnrollDeviceDto → DeviceRequest
  devices_request : Option String → DeviceRequest
  device_request : String → DeviceRequest

pub data DeviceAnswer : Type 0 where
  device_enrolled : Enrolled → DeviceAnswer
  devices_listed : List Device → DeviceAnswer
  device_shown : Option Device → DeviceAnswer

module _ (p : Platform) where
  unfoldable pub trigger_challenge : String → Hub p (Success (List IssueResult))
  trigger_challenge meeting_id = do results ← issue_challenge p meeting_id; pure (succeeded results)

  -- Without a tenant, the empty list.
  unfoldable pub list_meetings : Option String → Hub p (List MeetingSummary)
  list_meetings tenant_id = elim (truthy tenant_id) [ none ↦ pure [] | some t ↦ list_by_tenant p t ]

  unfoldable pub list_devices : Option String → Hub p (List Device)
  list_devices tenant_id = elim (truthy tenant_id) [ none ↦ pure [] | some t ↦ find_by_tenant p t ]

  unfoldable pub answer_meeting : MeetingRequest → Hub p MeetingAnswer
  answer_meeting (create_request dto) = do
    meeting ← create p dto
    pure (created (succeeded meeting))
  answer_meeting (list_request tenant_id) = do
    meetings ← list_meetings tenant_id
    pure (listed meetings)
  answer_meeting (get_request id) = do meeting ← get_meeting p id; pure (shown meeting)
  answer_meeting (join_request meeting_id dto) = do
    participant ← add_participant p meeting_id dto
    pure (joined (succeeded participant))
  answer_meeting (attendance_request meeting_id) = do
    participants ← get_participants p meeting_id
    pure (attendance participants)
  answer_meeting (token_request meeting_id dto) = do
    token ← issue_join_token p meeting_id dto.participant_id
    pure (token_issued token)
  answer_meeting (bind_request meeting_id dto) = do
    participant ← bind_device p meeting_id dto.join_token dto.device_id dto.signature
    pure (bound (succeeded participant))

  unfoldable pub answer_device : DeviceRequest → Hub p DeviceAnswer
  answer_device (enroll_request dto) = do
    device ← enroll p dto
    pure (device_enrolled (enrolled device))
  answer_device (devices_request tenant_id) = do
    devices ← list_devices tenant_id
    pure (devices_listed devices)
  answer_device (device_request id) = do device ← find_by_id p id; pure (device_shown device)
