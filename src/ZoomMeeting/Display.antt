-- ===== src/ZoomMeeting/Display.antt =====
-- What apps/web/src/app/zoom-meeting/page.tsx shows, against what the hub holds.
use troofai_mvp.Prelude.{
  suc, String, ◌≡◌, refl, true, false, Option, some, List, [], ◌∷◌, ◌++◌, ◌==◌, map,
}
use troofai_mvp.Schema.{Device, Meeting, MeetingParticipant, AuditEvent}
use troofai_mvp.Platform.Order.{asc}
use troofai_mvp.Platform.{Platform}
use troofai_mvp.Exec.{ok, thrown, bad_request}
use troofai_mvp.World.{World, truthy, find_meeting, device_of}
use troofai_mvp.Audit.{is_about, get_by_meeting}
use troofai_mvp.Meeting.{bind_device}
use troofai_mvp.Meeting.Guarantees.{bind_device_refused}
use troofai_mvp.Meeting.Reads.{get_meeting, get_participants}
use troofai_mvp.Integrity.{IsSound}
use troofai_mvp.Api.{BindDeviceDto, answer_meeting, get_request, shown}
use troofai_mvp.Api.Requests.{meetings, challenges, audit, meetings_answered, audit_shown, serve}
use troofai_mvp.Api.Serving.{Keeps-serve}
use troofai_mvp.ZoomMeeting.{
  Session, signed, bound_line, ask, bind_with, fetch_data, trigger_challenge,
}

module _ (p : Platform) where
  -- A binding that the hub refuses with a BadRequestException is logged as a device that was bound: the
  -- hub's state is as it was but for the clock, and the page's log has the line of a success.
  pub bind_with_refused :
      (mid pid why : String) (dto : BindDeviceDto) (s : Session p) (w : World p)
      → bind_device p mid dto.join_token dto.device_id dto.signature s.hub
        ≡ (thrown (bad_request why), w)
      → bind_with p (signed dto) mid pid s ≡ (
        ok tt,
        record {
          page = record s.page { setup_log = s.page.setup_log ++ bound_line pid ∷ [] };
          hub = record s.hub { readings = suc s.hub.readings };
        },
      )
  unfolding bind_with ask serve answer_meeting
  bind_with_refused mid pid why dto s w e =
      let clock =
        bind_device_refused p mid dto.join_token dto.device_id dto.signature s.hub w why e in
      rw (e, clock) refl

  -- The page shows what the hub holds of its meeting.
  pub record Shows (mid : String) (s : Session p) : Type 0 where
    pub participants : get_participants p mid s.hub ≡ (ok s.page.participants, s.hub)
    pub trail : get_by_meeting p mid s.hub ≡ (ok s.page.audit_events, s.hub)

  -- The participants and the events that the hub holds of a meeting.
  attending : String → World p → List (MeetingParticipant × Option Device)
  attending mid w =
      map (λ r. (r, device_of p w r))
        (p.participants.find_ordered (λ r. r.meeting_id == mid) asc (λ r. r.joined_at)
          w.participants)

  trail_of : String → World p → List AuditEvent
  trail_of mid w =
      p.audit_events.find_ordered (λ e. is_about p mid e.meeting_id) asc (λ e. e.created_at)
        w.audit_events

  serve-get_request :
      (mid : String) (m : Meeting) (w : World p)
      → p.meetings.find_unique mid w.meetings ≡ some m
      → serve p (meetings (get_request mid)) w ≡ (
        ok (
            meetings_answered
              (shown (some (record { meeting = m; participants = attending mid w })))),
        w,
      )
  unfolding serve answer_meeting get_meeting find_meeting get_participants attending
  serve-get_request mid m w there = rw (there, get_meeting) refl

  serve-audit :
      (mid : String) (w : World p) → serve p (audit mid) w ≡ (ok (audit_shown (trail_of mid w)), w)
  unfolding serve get_by_meeting trail_of
  serve-audit mid w = refl

  fetch_data_lem :
      (mid : String) (m : Meeting) (s : Session p)
      → truthy s.page.meeting_id ≡ some mid
      → p.meetings.find_unique mid s.hub.meetings ≡ some m
      → fetch_data p s ≡ record {
        page = record s.page {
          participants = attending mid s.hub;
          audit_events = trail_of mid s.hub;
        };
        hub = s.hub;
      }
  unfolding fetch_data
  fetch_data_lem mid m s on_it there =
      rw (on_it, fetch_data, serve-get_request mid m s.hub there, serve-audit mid s.hub) refl

  -- The button on the page of a meeting that is stored in a hub whose state is sound: when its timer is
  -- over, the page shows the participants and the audit trail that the hub then holds of the meeting, and
  -- no challenge is under way.
  pub trigger_challenge-Shows :
      (mid : String) (m : Meeting) (s : Session p)
      → IsSound p s.hub
      → truthy s.page.meeting_id ≡ some mid
      → p.meetings.find_unique mid s.hub.meetings ≡ some m
      → Shows mid (trigger_challenge p s) × ((trigger_challenge p s).page.challenging ≡ false)
  unfolding trigger_challenge attending trail_of get_participants get_by_meeting
  trigger_challenge-Shows mid m s sound on_it there =
      let w = (serve p (challenges mid) s.hub).1 in
      let pressed : Session p = record { page = record s.page { challenging = true }; hub = w } in
      let (later, x) = (Keeps-serve p (challenges mid) s.hub).at sound in
      let still : p.meetings.find_unique mid w.meetings ≡ some m = x.meetings mid m there in
      let same : trigger_challenge p s ≡ record {
        page = record s.page {
          participants = attending mid w;
          audit_events = trail_of mid w;
          challenging = false;
        };
        hub = w;
      } =
        rw (on_it, trigger_challenge, fetch_data_lem mid m pressed on_it still) refl in
      rw same (record { participants = refl; trail = refl }, refl)
