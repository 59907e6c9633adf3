-- ===== src/Examples/Zoom.antt =====
-- The page of a Zoom meeting on a hub that runs.
use troofai_mvp.Prelude.{suc, String, ◌≡◌, refl, Option, none, some, [], ◌∷◌}
use troofai_mvp.Exec.{Exception, ok}
use troofai_mvp.Meeting.{JoinToken}
use troofai_mvp.Api.{BindDeviceDto}
use troofai_mvp.Api.Requests.{Reachable}
use troofai_mvp.ZoomMeeting.{
  Session, AgentAnswer, unreachable, signed, first_page, bound_line, set_up, bind_with,
}
use troofai_mvp.ZoomMeeting.Setup.{Outcome, set_up-Outcome}
use troofai_mvp.ZoomMeeting.Display.{bind_with_refused}
use troofai_mvp.Memory.{memory}
use troofai_mvp.Examples.Meetings.{with_token, refused_world, refused_world-bind_device}
use troofai_mvp.Api.Reachable.{fresh-IsSound}
use troofai_mvp.Examples.Runs.{fresh, fresh-IsFresh, state3}

abbrev opened : Session memory
opened = record { page = first_page; hub = fresh }

abbrev message : Exception → String
message e = "failed"

-- An agent that signs nothing that the hub would accept.
abbrev forger : Option JoinToken → AgentAnswer
forger none = unreachable
forger (some token) =
    signed (record { join_token = token.join_token; device_id = "laptop"; signature = "forged" })

set_up-Outcome_example :
    let after = set_up memory forger message "" opened in
    Outcome memory message "" after.page after.hub × Reachable memory fresh after.hub
set_up-Outcome_example =
    set_up-Outcome memory forger message "" opened (fresh-IsSound memory fresh fresh-IsFresh) refl
      refl

abbrev forged : BindDeviceDto
forged = record { join_token = "uuid"; device_id = "laptop"; signature = "forged" }

abbrev bound_page : Session memory
bound_page = record { page = first_page; hub = with_token }

bind_with_refused_example : bind_with memory (signed forged) "standup" "ben" bound_page ≡ (
  ok tt,
  record {
    page = record first_page { setup_log = bound_line "ben" ∷ [] };
    hub = record with_token { readings = suc with_token.readings };
  },
)
bind_with_refused_example =
    bind_with_refused memory "standup" "ben" "Invalid binding signature" forged bound_page
      refused_world refused_world-bind_device

abbrev on_meeting : Session memory
on_meeting = record { page = record first_page { meeting_id = some "uuid11" }; hub = state3 }
