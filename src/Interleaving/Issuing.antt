-- ===== src/Interleaving/Issuing.antt =====
-- `issueChallenge` of challenge.service.ts keeps the state sound, whatever overtakes it.
use troofai_mvp.Prelude.{
  String, ◌≡◌, refl, Option, none, some, List, [], ◌∷◌, ◌==◌, All, map, arith,
}
use troofai_mvp.Schema.{Device, Meeting, MeetingParticipant}
use troofai_mvp.Platform.{Platform, ChallengePayload}
use troofai_mvp.Exec.{ok}
use troofai_mvp.World.{World, truthy, participants_of, device_of, redis_set, on_gateway}
use troofai_mvp.Audit.{log}
use troofai_mvp.Gateway.{emit_challenge_to_device}
use troofai_mvp.Challenge as C
use troofai_mvp.Integrity.{Extends-refl, Extends-trans, Keeps, HasDevice}
use troofai_mvp.Integrity.Quiet.{
  Keeps-now, Keeps-random_uuid, Keeps-random_base64, Keeps-set_challenge,
}
use troofai_mvp.Integrity.Rows.{HasDevice-Extends}
use troofai_mvp.Integrity.Services.{keeps_rules, Keeps-log, Keeps-find_meeting}
use troofai_mvp.Integrity.Issuing.{
  Keeps-unbound, IsListed, IsListed-Extends, is_some-truthy, listed,
}
use troofai_mvp.Interleaving.{Thread, call, return, ◌>>=◌, ◌>>◌}
use troofai_mvp.Interleaving.Handlers.{
  fail_unbound_steps, send_challenge_steps, issue_one_steps, issue_all_steps, issue_challenge_steps,
}
use troofai_mvp.Interleaving.Safety.{Guarded, Guarded-return, Guarded-step, Guarded-bind}
use troofai_mvp.Interleaving.Challenges.{guarded_rules}

module _ (p : Platform) where
  Guarded-fail_unbound :
      (mid : String) (m : Meeting) (r : MeetingParticipant) (w : World p)
      → Guarded p (fail_unbound_steps p mid m r) w
  unfolding fail_unbound_steps
  Guarded-fail_unbound mid m r w =
      search (guarded_rules, keeps_rules, Keeps-log, Keeps-unbound) depth 20

  -- What `send_challenge_steps` does once Redis has the challenge.
  abbrev told_steps :
      String
      → Meeting
      → MeetingParticipant
      → String
      → String
      → ChallengePayload
      → Thread p C.IssueResult
  told_steps mid m r dev cid payload =
      call (on_gateway p (emit_challenge_to_device dev payload))
      >> (call (log p (C.sent_event cid mid m r dev))
          >> return (record {
            participant_id = r.id;
            display_name = r.display_name;
            outcome = C.challenge_sent cid;
          }))

  Guarded-told :
      (mid : String) (m : Meeting) (r : MeetingParticipant) (dev cid : String)
      (payload : ChallengePayload) (w : World p)
      → Guarded p (told_steps mid m r dev cid payload) w
  Guarded-told mid m r dev cid payload w = search (guarded_rules, keeps_rules, Keeps-log) depth 12

  Guarded-stored :
      (mid : String) (m : Meeting) (r : MeetingParticipant) (dev cid : String)
      (payload : ChallengePayload) (w : World p)
      → payload.participant_id ≡ r.id
      → HasDevice p w r.id
      → Guarded p
          (call (
              redis_set p
                (C.challenge_key cid)
                (p.challenge_json.stringify (record {
                  payload = payload;
                  tenant_id = m.tenant_id;
                  device_id = dev;
                  user_id = r.user_id;
                }))
                (some 15))
            >> told_steps mid m r dev cid payload)
          w
  Guarded-stored mid m r dev cid payload w same has =
      Guarded-step p _ (λ _. told_steps mid m r dev cid payload) w
        (λ u x.
          Keeps-set_challenge p cid _ 14 u
            (HasDevice-Extends p w u x payload.participant_id (rw same has)))
        λ _ u v _ _ _ _. Guarded-told mid m r dev cid payload v

  Guarded-send_challenge :
      (mid : String) (m : Meeting) (r : MeetingParticipant) (dev : String) (w : World p)
      → HasDevice p w r.id
      → Guarded p (send_challenge_steps p mid m r dev) w
  unfolding send_challenge_steps
  Guarded-send_challenge mid m r dev w has =
      Guarded-step p _ _ w (λ u _. Keeps-random_uuid p u)
        λ cid u1 v1 x1 _ _ y1.
          Guarded-step p _ _ v1 (λ u _. Keeps-random_base64 p 32 u)
            λ nonce u2 v2 x2 _ _ y2.
              Guarded-step p _ _ v2 (λ u _. Keeps-now p u)
                λ issued u3 v3 x3 _ _ y3.
                  Guarded-step p _ _ v3 (λ u _. Keeps-now p u)
                    λ expires u4 v4 x4 _ _ y4.
                      Guarded-stored mid m r dev cid
                        (C.new_payload p cid nonce mid r.id issued expires) v4 refl
                        (HasDevice-Extends p w v4
                          (Extends-trans p w v1 v4 (Extends-trans p w u1 v1 x1 y1) (
                            Extends-trans p v1 v2 v4 (Extends-trans p v1 u2 v2 x2 y2) (
                              Extends-trans p v2 v3 v4 (Extends-trans p v2 u3 v3 x3 y3)
                                (Extends-trans p v3 u4 v4 x4 y4))))
                          r.id has)

  Guarded-issue_one :
      (mid : String) (m : Meeting) (e : MeetingParticipant × Option Device) (w : World p)
      → IsListed p w e
      → Guarded p (issue_one_steps p mid m e) w
  unfolding issue_one_steps IsListed
  Guarded-issue_one mid m (r, d) w h = go (truthy r.device_id) d refl
    where
      go :
          (id : Option String) (d : Option Device)
          → truthy r.device_id ≡ id
          → Guarded p
              (elim id [
                | none ↦ fail_unbound_steps p mid m r
                | some dev ↦ elim d [
                  | none ↦ fail_unbound_steps p mid m r
                  | some _ ↦ send_challenge_steps p mid m r dev
                ]
              ])
              w
      go none d e = Guarded-fail_unbound mid m r w
      go (some dev) none e = Guarded-fail_unbound mid m r w
      go (some dev) (some _) e =
          Guarded-send_challenge mid m r dev w (h (is_some-truthy p r.device_id dev e))

  Guarded-issue_all :
      (mid : String) (m : Meeting) (es : List (MeetingParticipant × Option Device)) (w : World p)
      → All (IsListed p w) es
      → Guarded p (issue_all_steps p mid m es) w
  unfolding issue_all_steps
  Guarded-issue_all mid m [] w h = Guarded-return p [] w
  Guarded-issue_all mid m (e ∷ es) w h =
      Guarded-bind p _ _ w (Guarded-issue_one mid m e w h.0) λ answer v x.
        Guarded-bind p _ _ v (Guarded-issue_all mid m es v (IsListed-Extends p w v es x h.1))
          λ answers u _. Guarded-return p (answer ∷ answers) u

  -- `issue_challenge_steps` after it has asked for the meeting.
  abbrev found_meeting_steps : String → Option Meeting → Thread p (List C.IssueResult)
  found_meeting_steps mid none = return []
  found_meeting_steps mid (some m) = call (participants_of p mid) >>= issue_all_steps p mid m

  Keeps-participants_of : (mid : String) (w : World p) → Keeps p (participants_of p mid) w
  unfolding participants_of
  Keeps-participants_of mid w = record { at = λ s. (s, Extends-refl p w) }

  participants_of-IsListed :
      (mid : String) (es : List (MeetingParticipant × Option Device)) (u v : World p)
      → participants_of p mid u ≡ (ok es, v)
      → All (IsListed p v) es
  unfolding participants_of
  participants_of-IsListed mid es u v e =
      let all =
        listed p u (p.participants.find_many (λ r. r.meeting_id == mid) u.participants) _
          (p.participants.find_many_sound (λ r. r.meeting_id == mid) u.participants) in
      let rows : map (λ r. (r, device_of p u r))
            (p.participants.find_many (λ r. r.meeting_id == mid) u.participants)
          ≡ es =
        ground (arith, e) in
      let state : u ≡ v = ground (arith, e) in rw (← rows, ← state) all

  Guarded-found_meeting :
      (mid : String) (o : Option Meeting) (w : World p) → Guarded p (found_meeting_steps mid o) w
  Guarded-found_meeting mid none w = Guarded-return p [] w
  Guarded-found_meeting mid (some m) w =
      Guarded-step p _ (issue_all_steps p mid m) w (λ u _. Keeps-participants_of mid u)
        λ es u v x s e y. Guarded-issue_all mid m es v (participants_of-IsListed mid es u v e)

  pub Guarded-issue_challenge :
      (mid : String) (w : World p) → Guarded p (issue_challenge_steps p mid) w
  unfolding issue_challenge_steps
  Guarded-issue_challenge mid w =
      Guarded-step p _ (found_meeting_steps mid) w (λ u _. Keeps-find_meeting p mid u)
        λ o u v _ _ _ _. Guarded-found_meeting mid o v
