-- ===== src/ZoomMeeting/Opened.antt =====
-- What the requests of the set-up of apps/web/src/app/zoom-meeting/page.tsx leave in the hub: the meeting
-- and its participants.
use troofai_mvp.Prelude.{
  suc, String, ◌≡◌, refl, sym, ◌∙◌, ap, subst, subst₂, Bool, true, false, Option, none, some, List,
  [], ◌∷◌, ◌++◌, arith, eq_refl, All, inl, inr,
}
use troofai_mvp.Schema.{Meeting, MeetingParticipant}
use troofai_mvp.Platform.{Platform}
use troofai_mvp.Exec.{Result, ok, thrown, >>=-eq-ok, ◌>>=◌, ◌>>◌, pure}
use troofai_mvp.World.{World, now, random_uuid, find_meeting}
use troofai_mvp.World.Calls.{create_meeting_cases, create_participant_cases}
use troofai_mvp.Audit.Entry.{log_cases}
use troofai_mvp.Meeting.{
  CreateMeetingDto, AddParticipantDto, JoinToken, new_meeting, new_participant, created_event,
  joined_event, create, add_participant,
}
use troofai_mvp.Integrity.{IsSound, Extends}
use troofai_mvp.Api.{succeeded, created, joined, create_request, join_request, answer_meeting}
use troofai_mvp.Api.Requests.{Response, meetings_answered, meetings, demo_tenant, serve, here}
use troofai_mvp.Api.Reachable.{reachable}
use troofai_mvp.ZoomMeeting.{
  Session, OnPage, line, add_log, tenant_of, DemoParticipant, AgentAnswer, meeting_name,
  demo_participants, ask, meeting_of, enrolled_id, join_all, bind_all, open_meeting,
}
use troofai_mvp.ZoomMeeting.Proceeds.{
  Proceeds, Proceeds-tenant_of, Proceeds-ask, Proceeds-join_all, Proceeds-bind_all,
}

module _ (p : Platform) where
  -- The meeting is in the database, under the name.
  pub record IsHeld (w : World p) (mid name : String) : Type 0 where
    pub meeting : Meeting
    pub found : p.meetings.find_unique mid w.meetings ≡ some meeting
    pub named : meeting.name ≡ name

  -- Somebody is a participant of the meeting.
  pub record IsJoined (w : World p) (mid user_id display_name : String) : Type 0 where
    pub id : String
    pub row : MeetingParticipant
    pub found : p.participants.find_unique id w.participants ≡ some row
    pub of_meeting : row.meeting_id ≡ mid
    pub user : row.user_id ≡ user_id
    pub name : row.display_name ≡ display_name

  Extends-IsHeld :
      (v w : World p) (mid name : String) → Extends p v w → IsHeld v mid name → IsHeld w mid name
  Extends-IsHeld v w mid name x h = record {
    meeting = h.meeting;
    found = x.meetings mid h.meeting h.found;
    named = h.named;
  }

  Extends-IsJoined :
      (v w : World p) (mid user name : String)
      → Extends p v w
      → IsJoined v mid user name
      → IsJoined w mid user name
  Extends-IsJoined v w mid user name x h =
      let (r, there, same) = x.participants h.id h.row h.found in
      record {
        id = h.id;
        row = r;
        found = there;
        of_meeting = same.meeting ∙ h.of_meeting;
        user = same.user ∙ h.user;
        name = same.name ∙ h.name;
      }

  create-IsHeld :
      (dto : CreateMeetingDto) (w w' : World p) (m : Meeting)
      → create p dto w ≡ (ok m, w')
      → IsHeld w' m.id dto.name
  unfolding create now random_uuid
  create-IsHeld dto w w' m e =
      let row = new_meeting dto (p.uuid w.draws) (p.clock w.readings) in
      let v : World p = record w { draws = suc w.draws; readings = suc w.readings } in
      elim (create_meeting_cases p v row) [
        | inr (_, refused) ↦ absurd (ground (arith, refused))
        | inl (rows, stored, _, call) ↦
            elim (log_cases p (record v { meetings = rows }) (created_event dto row.id)) [
              | inr (_, _, refused) ↦ absurd (ground (arith, call, refused))
              | inl (_, _, call') ↦
                  let same : row ≡ m = ground (arith, call, call') in
                  record {
                    meeting = row;
                    found =
                        ap (p.meetings.find_unique m.id) (ground (arith, call, call'))
                        ∙ p.meetings.find-create row w.meetings rows m.id stored
                        ∙ rw (← same) (rw (eq_refl row.id) refl);
                    named = refl;
                  }
            ]
      ]

  add_participant-IsJoined :
      (mid : String) (dto : AddParticipantDto) (w w' : World p) (r : MeetingParticipant)
      → add_participant p mid dto w ≡ (ok r, w')
      → IsJoined w' mid dto.user_id dto.display_name
  unfolding add_participant now random_uuid find_meeting
  add_participant-IsJoined mid dto w w' r e = go (p.meetings.find_unique mid w.meetings) refl
    where
      v : World p
      v = record w { draws = suc w.draws; readings = suc w.readings }

      row : MeetingParticipant
      row = new_participant mid dto (p.uuid w.draws) (p.clock w.readings)

      go :
          (o : Option Meeting)
          → p.meetings.find_unique mid w.meetings ≡ o
          → IsJoined w' mid dto.user_id dto.display_name
      go none gone = absurd (ground (arith, gone))
      go (some m) there = elim (create_participant_cases p v row) [
        | inr (_, refused) ↦ absurd (ground (arith, there, refused))
        | inl (rows, stored, _, call) ↦
            elim (log_cases p (record v { participants = rows }) (joined_event m mid dto row.id)) [
              | inr (_, _, refused) ↦ absurd (ground (arith, there, call, refused))
              | inl (_, _, call') ↦ record {
                id = row.id;
                row = row;
                found =
                    ap (p.participants.find_unique row.id) (ground (arith, there, call, call'))
                    ∙ p.participants.find-create row w.participants rows row.id stored
                    ∙ rw (eq_refl row.id) refl;
                of_meeting = refl;
                user = refl;
                name = refl;
              }
            ]
      ]

  -- A meeting that the page has an id of is held.
  ask-IsHeld :
      (dto : CreateMeetingDto) (s t t' : Session p) (reply : Result Response) (mid : String)
      → ask p (meetings (create_request dto)) s ≡ (ok reply, t)
      → meeting_of p reply t ≡ (ok mid, t')
      → IsHeld t.hub mid dto.name × (t' ≡ t)
  unfolding ask serve answer_meeting
  ask-IsHeld dto s t t' reply mid e k = go (create p dto s.hub) refl
    where
      go :
          (x : Result Meeting × World p)
          → create p dto s.hub ≡ x
          → IsHeld t.hub mid dto.name × (t' ≡ t)
      go (thrown x, v) c = absurd (ground (arith, c, e, k))
      go (ok m, v) c =
          let answer : ok (meetings_answered (created (succeeded m))) ≡ reply =
            ground (arith, c, e) in
          let state : v ≡ t.hub = ground (arith, c, e) in
          let named : m.id ≡ mid = ground (arith, answer, k) in
          (
            subst₂ (λ a b. IsHeld a b dto.name) state named (create-IsHeld dto s.hub v m c),
            ground (arith, answer, k),
          )

  -- Somebody whose id the page keeps has joined.
  ask-IsJoined :
      (mid : String) (dto : AddParticipantDto) (b : Bool) (s t u v : Session p)
      (reply : Result Response) (ids : List String)
      → ask p (meetings (join_request mid dto)) s ≡ (ok reply, t)
      → enrolled_id p b reply u ≡ (ok ids, v)
      → (u ≡ v) × (b ≡ true → IsJoined t.hub mid dto.user_id dto.display_name)
  unfolding ask serve answer_meeting enrolled_id
  ask-IsJoined mid dto false s t u v reply ids e k = (ground (arith, k), λ h. absurd (cc h))
  ask-IsJoined mid dto true s t u v reply ids e k = go (add_participant p mid dto s.hub) refl
    where
      go :
          (x : Result MeetingParticipant × World p)
          → add_participant p mid dto s.hub ≡ x
          → (u ≡ v) × (true ≡ true → IsJoined t.hub mid dto.user_id dto.display_name)
      go (thrown x, z) c = absurd (ground (arith, c, e, k))
      go (ok r, z) c =
          let answer : ok (meetings_answered (joined (succeeded r))) ≡ reply =
            ground (arith, c, e) in
          let state : z ≡ t.hub = ground (arith, c, e) in
          (
            ground (arith, answer, k),
            λ _.
                subst (λ a. IsJoined a mid dto.user_id dto.display_name) state
                  (add_participant-IsJoined mid dto s.hub z r c),
          )

  abbrev pub AllJoined : World p → String → List DemoParticipant → Type 0
  AllJoined w mid = All (λ x. x.is_enrolled ≡ true → IsJoined w mid x.user_id x.display_name)

  Extends-AllJoined :
      (v w : World p) (mid : String) (people : List DemoParticipant)
      → Extends p v w
      → AllJoined v mid people
      → AllJoined w mid people
  Extends-AllJoined v w mid [] x h = tt
  Extends-AllJoined v w mid (d ∷ ds) x h = (
    λ b. Extends-IsJoined v w mid d.user_id d.display_name x (h.0 b),
    Extends-AllJoined v w mid ds x h.1,
  )

  -- An action of the page that changes the hub by requests only extends its state.
  extended :
      {A : Type 0} (m : OnPage p A) (s t : Session p) (a : A)
      → Proceeds p m s
      → m s ≡ (ok a, t)
      → IsSound p s.hub
      → IsSound p t.hub × Extends p s.hub t.hub
  extended {A} m s t a n e sound =
      subst (λ (z : World p). IsSound p z × Extends p s.hub z)
        (ap (λ (q : Result A × Session p). q.1.hub) e)
        (reachable p s.hub (m s).1.hub sound (n.hub s.hub (here s.hub)))

  -- A sequence that returns is two calls that return.
  on_return :
      {A B Q : Type 0} (m : OnPage p A) (f : A → OnPage p B) (s t : Session p) (b : B)
      → (m >>= f) s ≡ (ok b, t)
      → ((a : A) (u : Session p) → m s ≡ (ok a, u) → f a u ≡ (ok b, t) → Q)
      → Q
  on_return m f s t b e k = let (a, u, first, rest) = >>=-eq-ok m f s t b e in k a u first rest

  -- When the first loop ends, each enrolled person has joined.
  join_all-AllJoined :
      (mid : String) (people : List DemoParticipant) (s t : Session p) (ids : List String)
      → IsSound p s.hub
      → join_all p mid people s ≡ (ok ids, t)
      → AllJoined t.hub mid people
  unfolding join_all
  join_all-AllJoined mid [] s t ids sound e = tt
  join_all-AllJoined mid (x ∷ people) s t ids sound e =
      on_return (ask p _) _ s t ids e λ answer s1 e1 k1.
        let s2 : Session p =
          (add_log p (line "+ " (line x.display_name (line " (" (line x.user_id ")")))) s1).1 in
        on_return (enrolled_id p x.is_enrolled answer)
          (λ enrolled. join_all p mid people >>= λ others. pure (enrolled ++ others)) s2 t ids k1
          λ en s3 e3 k3.
            on_return (join_all p mid people) (λ others. pure (en ++ others)) s3 t ids k3
              λ others s4 e4 k4.
                let (same, has) = ask-IsJoined mid _ x.is_enrolled s s1 s2 s3 answer en e1 e3 in
                let hubs : s1.hub ≡ s3.hub = ap (λ (q : Session p). q.hub) same in
                let (sound1, _) = extended (ask p _) s s1 answer (Proceeds-ask p _ s) e1 sound in
                let sound3 : IsSound p s3.hub = subst (IsSound p) hubs sound1 in
                let (_, later) =
                  extended (join_all p mid people) s3 s4 others (Proceeds-join_all p mid people s3)
                    e4 sound3 in
                let last : s4.hub ≡ t.hub =
                  ap (λ (q : Result (List String) × Session p). q.1.hub) k4 in
                (
                  λ b.
                      subst (λ z. IsJoined z mid x.user_id x.display_name) last
                        (Extends-IsJoined s3.hub s4.hub mid x.user_id x.display_name later
                          (subst (λ z. IsJoined z mid x.user_id x.display_name) hubs (has b))),
                  subst (λ z. AllJoined z mid people) last
                      (join_all-AllJoined mid people s3 s4 others sound3 e4),
                )

  -- The state and the rest of the set-up once the meeting is there.
  filled :
      (agent : Option JoinToken → AgentAnswer) (id name mid : String) (s t : Session p)
      → IsSound p s.hub
      → IsHeld s.hub id name
      → (join_all p id demo_participants >>= λ enrolled. bind_all p agent id enrolled >> pure id) s
        ≡ (ok mid, t)
      → IsHeld t.hub mid name × AllJoined t.hub mid demo_participants
  filled agent id name mid s t sound held e =
      on_return (join_all p id demo_participants)
        (λ enrolled. bind_all p agent id enrolled >> pure id) s t mid e
        λ ids s1 e1 k1.
          on_return (bind_all p agent id ids) (λ _. pure id) s1 t mid k1
            λ done s2 e2 k2.
              let (sound1, x1) =
                extended (join_all p id demo_participants) s s1 ids
                  (Proceeds-join_all p id demo_participants s) e1 sound in
              let (_, x2) =
                extended (bind_all p agent id ids) s1 s2 done (Proceeds-bind_all p agent id ids s1)
                  e2 sound1 in
              let last : s2.hub ≡ t.hub = ap (λ (q : Result String × Session p). q.1.hub) k2 in
              let named : id ≡ mid = ground (arith, k2) in
              (
                subst₂ (λ z i. IsHeld z i name) last named
                    (Extends-IsHeld s1.hub s2.hub id name x2
                      (Extends-IsHeld s.hub s1.hub id name x1 held)),
                subst₂ (λ z i. AllJoined z i demo_participants) last named
                    (Extends-AllJoined s1.hub s2.hub id demo_participants x2
                      (join_all-AllJoined id demo_participants s s1 ids sound e1)),
              )

  -- When the meeting has been opened, it is held under the name of the Zoom meeting and each enrolled
  -- person has joined.
  pub open_meeting-IsHeld :
      (agent : Option JoinToken → AgentAnswer) (zoom mid : String) (s t : Session p)
      → IsSound p s.hub
      → open_meeting p agent zoom s ≡ (ok mid, t)
      → IsHeld t.hub mid (meeting_name zoom) × AllJoined t.hub mid demo_participants
  unfolding open_meeting
  open_meeting-IsHeld agent zoom mid s t sound e =
      on_return (ask p demo_tenant) _ (add_log p "Connecting to TroofAI Hub..." s).1 t mid e
        λ answer s1 e1 k1. on_return (tenant_of p answer) _ s1 t mid k1 λ tenant s2 e2 k2.
          on_return (ask p _) _ _ t mid k2 λ reply s3 e3 k3.
            on_return (meeting_of p reply) _ s3 t mid k3 λ id s4 e4 k4.
              let (held, same) = ask-IsHeld _ _ s3 s4 reply id e3 e4 in
              let (sound1, _) =
                extended (ask p demo_tenant) _ s1 answer (Proceeds-ask p _ _) e1 sound in
              let (sound2, _) =
                extended (tenant_of p answer) s1 s2 tenant (Proceeds-tenant_of p answer s1) e2
                  sound1 in
              let (sound3, _) = extended (ask p _) _ s3 reply (Proceeds-ask p _ _) e3 sound2 in
              filled agent id (meeting_name zoom) mid _ t
                (subst (λ (z : Session p). IsSound p z.hub) (sym same) sound3)
                (subst (λ (z : Session p). IsHeld z.hub id (meeting_name zoom)) (sym same) held) k4
