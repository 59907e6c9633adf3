-- ===== src/ZoomMeeting/Proceeds.antt =====
-- Steps of apps/web/src/app/zoom-meeting/page.tsx that change the hub by requests only.
use troofai_mvp.Prelude.{String, ◌≡◌, refl, ◌∙◌, Bool, true, false, Option, some, List, [], ◌∷◌}
use troofai_mvp.Platform.{Platform}
use troofai_mvp.Exec.{Exception, Result, ok, thrown, type_error, pure, throw, continue, ◌>>=◌}
use troofai_mvp.World.{World}
use troofai_mvp.Meeting.{JoinToken}
use troofai_mvp.Api.{created, joined}
use troofai_mvp.Api.Requests.{Request, Response, tenant_shown, meetings_answered, Reachable, served}
use troofai_mvp.ZoomMeeting.{
  Session, OnPage, DemoParticipant, AgentAnswer, unreachable, declined, signed, on_page, add_log,
  ask, tenant_of, meeting_of, participant_of, enrolled_id, join_all, bind_with, bind_all,
  open_meeting,
}

module _ (p : Platform) where
  -- An action of the page that changes the hub by requests only, and leaves the phase and the meeting.
  pub record Proceeds {A : Type 0} (m : OnPage p A) (s : Session p) : Type 0 where
    pub hub : (v : World p) → Reachable p v s.hub → Reachable p v (m s).1.hub
    pub phase : (m s).1.page.phase ≡ s.page.phase
    pub meeting : (m s).1.page.meeting_id ≡ s.page.meeting_id

  Proceeds-pure : {A : Type 0} (a : A) (s : Session p) → Proceeds (pure a) s
  Proceeds-pure a s = record { hub = λ v h. h; phase = refl; meeting = refl }

  Proceeds-throw : {A : Type 0} (e : Exception) (s : Session p) → Proceeds (throw {A = A} e) s
  Proceeds-throw e s = record { hub = λ v h. h; phase = refl; meeting = refl }

  Proceeds-bind :
      {A B : Type 0} (m : OnPage p A) (f : A → OnPage p B) (s : Session p)
      → Proceeds m s
      → ((a : A) (t : Session p) → Proceeds (f a) t)
      → Proceeds (m >>= f) s
  Proceeds-bind {A} {B} m f s km kf =
      let n = go (m s).0 (m s).1 km.hub km.phase km.meeting in
      record { hub = n.hub; phase = n.phase; meeting = n.meeting }
    where
      go :
          (r : Result A) (t : Session p)
          → ((v : World p) → Reachable p v s.hub → Reachable p v t.hub)
          → t.page.phase ≡ s.page.phase
          → t.page.meeting_id ≡ s.page.meeting_id
          → Proceeds (λ _. continue r f t) s
      go (thrown e) t h k l = record { hub = h; phase = k; meeting = l }
      go (ok a) t h k l =
          let n = kf a t in
          record { hub = λ v x. n.hub v (h v x); phase = n.phase ∙ k; meeting = n.meeting ∙ l }

  pub Proceeds-ask : (r : Request) (s : Session p) → Proceeds (ask p r) s
  unfolding ask
  Proceeds-ask r s = record { hub = λ v h. served v s.hub r h; phase = refl; meeting = refl }

  pub Proceeds-add_log : (message : String) (s : Session p) → Proceeds (add_log p message) s
  Proceeds-add_log message s = record { hub = λ v h. h; phase = refl; meeting = refl }

  pub Proceeds-tenant_of : (r : Result Response) (s : Session p) → Proceeds (tenant_of p r) s
  Proceeds-tenant_of (thrown e) s = Proceeds-throw type_error s
  Proceeds-tenant_of (ok (tenant_shown tenant)) s = Proceeds-pure tenant s
  Proceeds-tenant_of (ok r) s = Proceeds-throw type_error s

  Proceeds-meeting_of : (r : Result Response) (s : Session p) → Proceeds (meeting_of p r) s
  Proceeds-meeting_of (ok (meetings_answered (created answer))) s = Proceeds-pure answer.value.id s
  Proceeds-meeting_of (ok (meetings_answered r)) s = Proceeds-throw type_error s
  Proceeds-meeting_of (ok r) s = Proceeds-throw type_error s
  Proceeds-meeting_of (thrown e) s = Proceeds-throw type_error s

  Proceeds-participant_of : (r : Result Response) (s : Session p) → Proceeds (participant_of p r) s
  Proceeds-participant_of (ok (meetings_answered (joined answer))) s =
      Proceeds-pure answer.value.id s
  Proceeds-participant_of (ok (meetings_answered r)) s = Proceeds-throw type_error s
  Proceeds-participant_of (ok r) s = Proceeds-throw type_error s
  Proceeds-participant_of (thrown e) s = Proceeds-throw type_error s

  pub Proceeds-set_tenant :
      (t : String) (s : Session p)
      → Proceeds (on_page p (λ page. record page { tenant_id = some t })) s
  Proceeds-set_tenant t s = record { hub = λ v h. h; phase = refl; meeting = refl }

ruleset proceeds_rules = (
  Proceeds-bind, Proceeds-pure, Proceeds-throw, Proceeds-ask, Proceeds-add_log, Proceeds-tenant_of,
  Proceeds-meeting_of, Proceeds-participant_of, Proceeds-set_tenant,
)

module _ (p : Platform) where
  pub Proceeds-enrolled_id :
      (b : Bool) (r : Result Response) (s : Session p) → Proceeds p (enrolled_id p b r) s
  unfolding enrolled_id
  Proceeds-enrolled_id true r s = search proceeds_rules
  Proceeds-enrolled_id false r s = Proceeds-pure p [] s

  pub Proceeds-join_all :
      (mid : String) (people : List DemoParticipant) (s : Session p)
      → Proceeds p (join_all p mid people) s
  unfolding join_all
  Proceeds-join_all mid [] s = Proceeds-pure p [] s
  Proceeds-join_all mid (x ∷ people) s =
      let later : (t : Session p) → Proceeds p (join_all p mid people) t =
        λ t. Proceeds-join_all mid people t in
      search (proceeds_rules, Proceeds-enrolled_id, later) depth 12

  pub Proceeds-bind_with :
      (a : AgentAnswer) (mid pid : String) (s : Session p) → Proceeds p (bind_with p a mid pid) s
  unfolding bind_with
  Proceeds-bind_with unreachable mid pid s = search proceeds_rules
  Proceeds-bind_with declined mid pid s = search proceeds_rules
  Proceeds-bind_with (signed dto) mid pid s = search proceeds_rules

  pub Proceeds-bind_all :
      (agent : Option JoinToken → AgentAnswer) (mid : String) (ids : List String) (s : Session p)
      → Proceeds p (bind_all p agent mid ids) s
  unfolding bind_all
  Proceeds-bind_all agent mid [] s = Proceeds-pure p tt s
  Proceeds-bind_all agent mid (id ∷ ids) s =
      let later : (t : Session p) → Proceeds p (bind_all p agent mid ids) t =
        λ t. Proceeds-bind_all agent mid ids t in
      search (proceeds_rules, Proceeds-bind_with, later)

  pub Proceeds-open_meeting :
      (agent : Option JoinToken → AgentAnswer) (zoom : String) (s : Session p)
      → Proceeds p (open_meeting p agent zoom) s
  unfolding open_meeting
  Proceeds-open_meeting agent zoom s =
      search (proceeds_rules, Proceeds-join_all, Proceeds-bind_all) depth 20
