-- ===== src/ZoomMeeting/Setup.antt =====
-- The set-up of apps/web/src/app/zoom-meeting/page.tsx against the hub that it calls.
use troofai_mvp.Prelude.{String, ◌≡◌, refl, ◌∙◌, Option, none, some, List, [], ◌∷◌, ◌++◌}
use troofai_mvp.Platform.{Platform}
use troofai_mvp.Exec.{Exception, Result, ok, thrown, continue, ◌>>◌}
use troofai_mvp.World.{World}
use troofai_mvp.Meeting.{JoinToken}
use troofai_mvp.Integrity.{IsSound}
use troofai_mvp.Api.Requests.{Reachable, here}
use troofai_mvp.ZoomMeeting.{
  Page, setup, ready, Session, OnPage, AgentAnswer, line, ready_line, meeting_name,
  demo_participants, on_page, add_log, open_meeting, set_up_steps, reported, set_up,
}
use troofai_mvp.ZoomMeeting.Proceeds.{Proceeds-open_meeting}
use troofai_mvp.ZoomMeeting.Opened.{IsHeld, AllJoined, open_meeting-IsHeld}

module _ (p : Platform) where
  -- The last line of the log.
  abbrev EndsIn : List String → String → Type 0
  EndsIn log message = (before : List String) × (log ≡ before ++ message ∷ [])

  -- How the set-up leaves the page and the hub.
  pub data Outcome (message : Exception → String) (zoom : String) (page : Page) (hub : World p)
      : Type 0 where
    is_ready :
        (mid : String)
        → page.phase ≡ ready
        → page.meeting_id ≡ some mid
        → EndsIn page.setup_log ready_line
        → IsHeld p hub mid (meeting_name zoom)
        → AllJoined p hub mid demo_participants
        → Outcome message zoom page hub
    has_failed :
        (e : Exception)
        → page.phase ≡ setup
        → page.meeting_id ≡ none
        → EndsIn page.setup_log (line "Error: " (message e))
        → Outcome message zoom page hub

  -- The set-up of a page that has no meeting yet, on a hub whose references all lead somewhere, ends in
  -- one of two ways, whatever the agent answers. Either it is ready, with the id of a meeting that the
  -- hub holds under the name made of the Zoom number, of which each of the demo's enrolled people is a
  -- participant under the user and the name of the demo; or, after an exception, it is still in its
  -- first phase, without a meeting and with the exception in the log. In both the hub has done nothing
  -- but serve requests.
  pub set_up-Outcome :
      (agent : Option JoinToken → AgentAnswer) (message : Exception → String) (zoom : String)
      (s : Session p)
      → IsSound p s.hub
      → s.page.phase ≡ setup
      → s.page.meeting_id ≡ none
      → let after = set_up p agent message zoom s in
        Outcome message zoom after.page after.hub × Reachable p s.hub after.hub
  unfolding set_up set_up_steps
  set_up-Outcome agent message zoom s sound first empty =
      let n = Proceeds-open_meeting p agent zoom s in
      go (open_meeting p agent zoom s).0 (open_meeting p agent zoom s).1 refl
        (n.hub s.hub (here s.hub)) (n.phase ∙ first) (n.meeting ∙ empty)
    where
      rest : String → OnPage p (Unit {0})
      rest mid =
          on_page p (λ page. record page { meeting_id = some mid; phase = ready })
          >> add_log p ready_line

      go :
          (r : Result String) (t : Session p)
          → open_meeting p agent zoom s ≡ (r, t)
          → Reachable p s.hub t.hub
          → t.page.phase ≡ setup
          → t.page.meeting_id ≡ none
          → let after = reported p message (continue r rest t) in
            Outcome message zoom after.page after.hub × Reachable p s.hub after.hub
      go (ok mid) t e h k l =
          let (held, there) = open_meeting-IsHeld p agent zoom mid s t sound e in
          (is_ready mid refl refl (t.page.setup_log, refl) held there, h)
      go (thrown e) t _ h k l = (has_failed e k l (t.page.setup_log, refl), h)
