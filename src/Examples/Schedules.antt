-- ===== src/Examples/Schedules.antt =====
-- Orders of calls: a participant is bound while a second binding with the same token is under way.
use troofai_mvp.Prelude.{String, ◌≡◌, refl, some, Option, All, List, [], ◌∷◌}
use mathlib.Core.List.{Memᴰ}
use troofai_mvp.Schema.{Tenant, Device, MeetingParticipant, AuditEvent}
use troofai_mvp.Exec.{ok}
use troofai_mvp.World.{World, redis_get}
use troofai_mvp.Audit.{get_by_meeting}
use troofai_mvp.Meeting.Reads.{get_participants}
use troofai_mvp.PageViews.Zoom.{card}
use troofai_mvp.PageViews.Honest.{IsBacked, card-IsBacked}
use troofai_mvp.Meeting.{token_key}
use troofai_mvp.Api.{bind_request}
use troofai_mvp.Api.Requests.{Request, Response, meetings, serve}
use troofai_mvp.Integrity.{IsSound, Extends}
use troofai_mvp.Interleaving.{Thread, done}
use troofai_mvp.Interleaving.Services.{bind_device_steps}
use troofai_mvp.Interleaving.Requests.{serve_steps, answer_meeting_steps}
use troofai_mvp.Interleaving.Schedule.{
  Server, server, start_of, Leads, idle, arrives, advances, Leads-serve, Leads-IsSound,
  Leads-Extends, Leads-verified, Leads-get_by_meeting,
}
use troofai_mvp.Memory.{memory}
use troofai_mvp.Examples.Runs.{
  fresh, fresh-IsFresh, state1, state2, state3, state4, state5, state6, binding, member,
  state6_member, opening, state3_event, opening_meeting,
}

-- A server in the state `w` that comes from another one, with some handlers.
ReachedFrom : Server memory → World memory → Type 1
ReachedFrom s w = (ts : List (Thread memory Response)) × Leads memory s (server memory w ts)

next :
    (s : Server memory) (w : World memory) (r : Request)
    → ReachedFrom s w
    → ReachedFrom s (serve memory r w).1
unfolding ReachedFrom
next s w r (ts, l) = (done (serve memory r w).0 ∷ ts, Leads-serve memory s w ts r l)

state3_reached : ReachedFrom (start_of memory fresh) state3
unfolding ReachedFrom state3 state2 state1
state3_reached = next _ _ _ (next _ _ _ (next _ _ _ ([], idle _)))

abbrev again : Request
again = meetings (bind_request "uuid11" binding)

-- The second binding arrives before the first one is served, and reads the token after it.
late : World memory
late = (redis_get memory (token_key "uuid111") state6).1

late_after : (s : Server memory) → ReachedFrom s state3 → ReachedFrom s late
unfolding ReachedFrom late state6 state5 state4 serve_steps answer_meeting_steps bind_device_steps
late_after s r =
    let (ts, l) = next _ _ _ (next _ _ _ r) in
    (
      _,
      advances s state6 (done (serve memory again state5).0 ∷ []) ts
          (redis_get memory (token_key "uuid111")) _
          (Leads-serve memory s state5 (serve_steps memory again ∷ ts) again
            (arrives s state5 ts again l)),
    )

meeting_held : Server memory
unfolding ReachedFrom state3_reached
meeting_held = server memory state3 state3_reached.0

all_bound : Server memory
unfolding ReachedFrom
all_bound = server memory late (late_after (start_of memory fresh) state3_reached).0

all_bound_led : Leads memory (start_of memory fresh) all_bound
unfolding ReachedFrom all_bound
all_bound_led = (late_after (start_of memory fresh) state3_reached).1

Leads-IsSound_example : IsSound memory late
unfolding all_bound
Leads-IsSound_example = Leads-IsSound memory fresh all_bound fresh-IsFresh all_bound_led

meeting_held_led : Leads memory (start_of memory fresh) meeting_held
unfolding ReachedFrom meeting_held state3_reached
meeting_held_led = state3_reached.1

-- The same, from when the meeting is held.
then_bound : ReachedFrom meeting_held late
unfolding ReachedFrom meeting_held
then_bound = late_after meeting_held (state3_reached.0, idle meeting_held)

bound_later : Server memory
unfolding ReachedFrom
bound_later = server memory late then_bound.0

bound_later_led : Leads memory meeting_held bound_later
unfolding ReachedFrom bound_later
bound_later_led = then_bound.1

Leads-Extends_example : Extends memory state3 late
unfolding meeting_held bound_later
Leads-Extends_example =
    Leads-Extends memory fresh meeting_held bound_later fresh-IsFresh meeting_held_led
      bound_later_led

late_member : memory.participants.find_unique "uuid101" late.participants ≡ some member
unfolding late redis_get
late_member = state6_member

Leads-verified_example :
    (id : String) × (d : Device) × (t : Tenant) × (member.device_id ≡ some id)
    × (memory.devices.find_unique id late.devices ≡ some d)
    × (memory.tenants.find_unique d.tenant_id late.tenants ≡ some t)
unfolding all_bound
Leads-verified_example =
    Leads-verified memory fresh all_bound "uuid101" member fresh-IsFresh all_bound_led late_member
      refl

Leads-get_by_meeting_example :
    (es : List AuditEvent) × (get_by_meeting memory "uuid11" late ≡ (ok es, late)) × Memᴰ opening es
unfolding meeting_held bound_later
Leads-get_by_meeting_example =
    Leads-get_by_meeting memory fresh meeting_held bound_later "uuid11" "uuid001" opening
      fresh-IsFresh meeting_held_led bound_later_led state3_event opening_meeting

card-IsBacked_example :
    (es : List (MeetingParticipant × Option Device)) × (get_participants memory "uuid11" late
      ≡ (ok es, late))
    × All (λ e. (card e).badge ≡ "✓ Verified" → IsBacked memory late e) es
unfolding all_bound
card-IsBacked_example = card-IsBacked memory fresh all_bound "uuid11" fresh-IsFresh all_bound_led
