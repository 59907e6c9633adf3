-- ===== src/Integrity/Issuing.antt =====
-- `issueChallenge` of services/hub-api against the integrity of the state.
use troofai_mvp.Prelude.{
  ℕ, Option-cases, inl, inr, String, ◌≡◌, refl, true, Option, none, some, List, [], ◌∷◌, map, arith,
  ◌==◌, All,
}
use troofai_mvp.Schema.{Device, Meeting, MeetingParticipant}
use troofai_mvp.Platform.{Platform, ChallengePayload, StoredChallenge}
use troofai_mvp.Exec.{pure, ◌>>=◌, ◌>>◌}
use troofai_mvp.Audit.{log}
use troofai_mvp.Gateway.{emit_challenge_to_device}
use troofai_mvp.World.{
  World, Hub, redis_set, on_gateway, truthy, is_some, device_of, find_meeting, participants_of,
  update_participant,
}
use troofai_mvp.Challenge.{
  IssueResult, challenge_sent, sent_event, new_payload, challenge_key, unbound_patch, fail_unbound,
  send_challenge, issue_one, issue_all, issue_challenge,
}
use troofai_mvp.Integrity.{Extends, Keeps, Keeps-bind, HasDevice}
use troofai_mvp.Integrity.Quiet.{Keeps-random_base64, Keeps-set_challenge}
use troofai_mvp.Integrity.Rows.{HasDevice-Extends}
use troofai_mvp.Integrity.Updates.{Keeps-update_participant}
use troofai_mvp.Integrity.Services.{keeps_rules, Keeps-log, Keeps-find_meeting, Keeps-pure}

module _ (p : Platform) where
  pub Keeps-unbound :
      (id : String) (t : ℕ) (w : World p) → Keeps p (update_participant p id (unbound_patch t)) w
  Keeps-unbound id t w =
      Keeps-update_participant p id (unbound_patch t) w (λ r. refl)
        (λ r. record { meeting = refl; user = refl; name = refl; joined = refl; bound = λ b. b })
        (λ s r found l. record {
          meeting = l.meeting;
          device = l.device;
          trusted = λ v. absurd (ground arith);
        })

  Keeps-fail_unbound :
      (mid : String) (m : Meeting) (r : MeetingParticipant) (w : World p)
      → Keeps p (fail_unbound p mid m r) w
  unfolding fail_unbound
  Keeps-fail_unbound mid m r w = search (keeps_rules, Keeps-log, Keeps-unbound) depth 12

  -- What `send_challenge` stores, and what it does then.
  abbrev held : String → Meeting → MeetingParticipant → String → ChallengePayload → StoredChallenge
  held mid m r dev payload = record {
    payload = payload;
    tenant_id = m.tenant_id;
    device_id = dev;
    user_id = r.user_id;
  }

  abbrev told :
      String → Meeting → MeetingParticipant → String → String → ChallengePayload → Hub p IssueResult
  told mid m r dev cid payload =
      on_gateway p (emit_challenge_to_device dev payload)
      >> (log p (sent_event cid mid m r dev)
          >> pure (record {
            participant_id = r.id;
            display_name = r.display_name;
            outcome = challenge_sent cid;
          }))

  Keeps-told :
      (mid : String) (m : Meeting) (r : MeetingParticipant) (dev cid : String)
      (payload : ChallengePayload) (w : World p)
      → Keeps p (told mid m r dev cid payload) w
  Keeps-told mid m r dev cid payload w = search (keeps_rules, Keeps-log)

  Keeps-stored :
      (mid : String) (m : Meeting) (r : MeetingParticipant) (dev cid nonce : String)
      (issued expires : ℕ) (w : World p)
      → HasDevice p w r.id
      → Keeps p
          (redis_set p
              (challenge_key cid)
              (p.challenge_json.stringify
                (held mid m r dev (new_payload p cid nonce mid r.id issued expires)))
              (some 15)
            >> told mid m r dev cid (new_payload p cid nonce mid r.id issued expires))
          w
  Keeps-stored mid m r dev cid nonce issued expires w has =
      let payload = new_payload p cid nonce mid r.id issued expires in
      Keeps-bind p _ (λ _. told mid m r dev cid payload) w
        (Keeps-set_challenge p cid (held mid m r dev payload) 14 w has)
        λ _ v _ _. Keeps-told mid m r dev cid payload v

  Keeps-send_challenge :
      (mid : String) (m : Meeting) (r : MeetingParticipant) (dev : String) (w : World p)
      → HasDevice p w r.id
      → Keeps p (send_challenge p mid m r dev) w
  unfolding send_challenge
  Keeps-send_challenge mid m r dev w has =
      search (keeps_rules, Keeps-random_base64, Keeps-stored, HasDevice-Extends) depth 16

  -- The row of a list is in the table, with a device if it had one.
  unfoldable pub IsListed : World p → MeetingParticipant × Option Device → Type 0
  IsListed w e = is_some e.0.device_id ≡ true → HasDevice p w e.0.id

  pub IsListed-Extends :
      (v w : World p) (es : List (MeetingParticipant × Option Device))
      → Extends p v w
      → All (IsListed v) es
      → All (IsListed w) es
  unfolding IsListed
  IsListed-Extends v w [] x h = tt
  IsListed-Extends v w (e ∷ es) x h =
      (λ b. HasDevice-Extends p v w x e.0.id (h.0 b), IsListed-Extends v w es x h.1)

  pub is_some-truthy : (o : Option String) (s : String) → truthy o ≡ some s → is_some o ≡ true
  is_some-truthy none s h = absurd (ground arith)
  is_some-truthy (some a) s h = refl

  Keeps-issue_one :
      (mid : String) (m : Meeting) (e : MeetingParticipant × Option Device) (w : World p)
      → IsListed w e
      → Keeps p (issue_one p mid m e) w
  unfolding issue_one IsListed
  Keeps-issue_one mid m (r, none) w h = elim (Option-cases (truthy r.device_id)) [
    | inl e ↦ rw (e, issue_one) (Keeps-fail_unbound mid m r w)
    | inr (dev, e) ↦ rw (e, issue_one) (Keeps-fail_unbound mid m r w)
  ]
  Keeps-issue_one mid m (r, some d) w h = elim (Option-cases (truthy r.device_id)) [
    | inl e ↦ rw (e, issue_one) (Keeps-fail_unbound mid m r w)
    | inr (dev, e) ↦
        rw (e, issue_one)
          (Keeps-send_challenge mid m r dev w (h (is_some-truthy r.device_id dev e)))
  ]

  Keeps-issue_all :
      (mid : String) (m : Meeting) (es : List (MeetingParticipant × Option Device)) (w : World p)
      → All (IsListed w) es
      → Keeps p (issue_all p mid m es) w
  unfolding issue_all
  Keeps-issue_all mid m [] w h = Keeps-pure p [] w
  Keeps-issue_all mid m (e ∷ es) w h =
      Keeps-bind p (issue_one p mid m e)
        (λ result. issue_all p mid m es >>= λ results. pure (result ∷ results)) w
        (Keeps-issue_one mid m e w h.0)
        λ result v _ x.
          Keeps-bind p (issue_all p mid m es) (λ results. pure (result ∷ results)) v
            (Keeps-issue_all mid m es v (IsListed-Extends w v es x h.1))
            λ results u _ _. Keeps-pure p (result ∷ results) u

  pub listed :
      (w : World p) (rs : List MeetingParticipant) (q : MeetingParticipant → Type 0)
      → All (λ r. (p.participants.find_unique r.id w.participants ≡ some r) × q r) rs
      → All (IsListed w) (map (λ r. (r, device_of p w r)) rs)
  unfolding IsListed
  listed w [] q h = tt
  listed w (r ∷ rs) q h = (λ b. record { row = r; found = h.0.0; bound = b }, listed w rs q h.1)

  -- The rest of `issueChallenge`, by the meeting that was found.
  abbrev found_meeting : String → Option Meeting → Hub p (List IssueResult)
  found_meeting mid none = pure []
  found_meeting mid (some m) = participants_of p mid >>= issue_all p mid m

  Keeps-found_meeting :
      (mid : String) (o : Option Meeting) (w : World p) → Keeps p (found_meeting mid o) w
  unfolding participants_of
  Keeps-found_meeting mid none w = Keeps-pure p [] w
  Keeps-found_meeting mid (some m) w = record {
    at =
        (Keeps-issue_all mid m _ w (
          listed w (p.participants.find_many (λ r. r.meeting_id == mid) w.participants) _
            (p.participants.find_many_sound (λ r. r.meeting_id == mid) w.participants))).at;
  }

  pub Keeps-issue_challenge : (mid : String) (w : World p) → Keeps p (issue_challenge p mid) w
  unfolding issue_challenge
  Keeps-issue_challenge mid w =
      Keeps-bind p (find_meeting p mid) (found_meeting mid) w (Keeps-find_meeting p mid w)
        λ o v _ _. Keeps-found_meeting mid o v
