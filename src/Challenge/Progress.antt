-- ===== src/Challenge/Progress.antt =====
-- The loop of `issueChallenge` (services/hub-api/src/challenge/challenge.service.ts): calls that return,
-- and leave a state in which the next one does.
use troofai_mvp.Prelude.{
  ℕ, suc, ◌≤◌, String, ◌≡◌, ◌≢◌, refl, true, false, Option, none, some, List, [], ◌∷◌, map, arith,
  ◌==◌, ==_of_ne, All, Bool-cases, Option-cases, inl, inr, if◌then◌else◌,
}
use troofai_mvp.Schema.{Device, Meeting, MeetingParticipant, AuditEvent}
use troofai_mvp.Platform.{Platform, KeepsId}
use troofai_mvp.Exec.{ok, pure, ◌>>=◌}
use troofai_mvp.Gateway.{Gateway}
use troofai_mvp.World.{
  World, Hub, is_some, truthy, now, random_uuid, random_base64, redis_set, on_gateway, has_tenant,
  has_meeting, update_participant, create_audit_event, find_meeting, participants_of, device_of,
}
use troofai_mvp.Audit.{AuditLogInput, new_event, log}
use troofai_mvp.Audit.Entry.{logged}
use troofai_mvp.Challenge.{
  IssueResult, unbound_patch, fail_unbound, send_challenge, issue_one, issue_all, issue_challenge,
}

module _ (p : Platform) where
  -- No audit event has an id that `randomUUID` has still to draw, and it draws no id twice.
  pub record HasFreshIds (w : World p) : Type 0 where
    pub distinct : (i j : ℕ) → i ≢ j → p.uuid i ≢ p.uuid j
    pub unused : (n : ℕ) → w.draws ≤ n → p.audit_events.find_unique (p.uuid n) w.audit_events ≡ none

  module _ (start : World p) (mid : String) (m : Meeting) where
    record IsReady (w : World p) : Type 0 where
      tenant : has_tenant p w m.tenant_id ≡ true
      meeting : has_meeting p w (some mid) ≡ true
      ids : HasFreshIds w
      rows :
          (id : String)
          → is_some (p.participants.find_unique id start.participants) ≡ true
          → is_some (p.participants.find_unique id w.participants) ≡ true

    -- The action returns, and leaves a state that is ready.
    record Goes {A : Type 0} (f : Hub p A) (w : World p) : Type 0 where
      at : IsReady w → (a : A) × (v : World p) × (f w ≡ (ok a, v)) × IsReady v

    Goes-pure : {A : Type 0} (a : A) (w : World p) → Goes (pure a) w
    Goes-pure a w = record { at = λ r. (a, w, refl, r) }

    Goes-bind :
        {A B : Type 0} (f : Hub p A) (g : A → Hub p B) (w : World p)
        → Goes f w
        → ((a : A) (v : World p) → Goes (g a) v)
        → Goes (f >>= g) w
    Goes-bind f g w h k = record {
      at = λ r.
          let (a, v, e, r') = h.at r in let (b, u, e', r'') = (k a v).at r' in (b, u, rw e e', r'');
    }

    -- What a call leaves that writes no row.
    quiet :
        (w : World p) (db : p.redis.Db) (g : Gateway) (n d : ℕ)
        → w.draws ≤ d
        → IsReady w
        → IsReady (record w { redis = db; gateway = g; readings = n; draws = d })
    quiet w db g n d more r = record {
      tenant = r.tenant;
      meeting = r.meeting;
      ids = record {
        distinct = r.ids.distinct;
        unused = λ k h. r.ids.unused k (omega (arith, more, h));
      };
      rows = r.rows;
    }

    Goes-now : (w : World p) → Goes (now p) w
    unfolding now
    Goes-now w = record {
      at = λ r. (_, _, refl, quiet w w.redis w.gateway (suc w.readings) w.draws (omega arith) r);
    }

    Goes-random_uuid : (w : World p) → Goes (random_uuid p) w
    unfolding random_uuid
    Goes-random_uuid w = record {
      at = λ r. (_, _, refl, quiet w w.redis w.gateway w.readings (suc w.draws) (omega arith) r);
    }

    Goes-random_base64 : (n : ℕ) (w : World p) → Goes (random_base64 p n) w
    unfolding random_base64
    Goes-random_base64 n w = record {
      at = λ r. (_, _, refl, quiet w w.redis w.gateway w.readings (suc w.draws) (omega arith) r);
    }

    Goes-on_gateway : (f : Gateway → Gateway) (w : World p) → Goes (on_gateway p f) w
    unfolding on_gateway
    Goes-on_gateway f w = record {
      at = λ r. (_, _, refl, quiet w w.redis (f w.gateway) w.readings w.draws (omega arith) r);
    }

    Goes-redis_set : (k v : String) (n : ℕ) (w : World p) → Goes (redis_set p k v (some (suc n))) w
    unfolding redis_set
    Goes-redis_set k v n w = record {
      at = λ r. (
        _,
        _,
        refl,
        quiet w (p.redis.set_ex (p.clock w.readings) k v (suc n) w.redis) w.gateway (suc w.readings)
            w.draws (omega arith) r,
      );
    }

    there : {A : Type 0} (o : Option A) → is_some o ≡ true → (a : A) × (o ≡ some a)
    there none h = absurd (cc h)
    there (some a) h = (a, refl)

    is_some-update :
        (id j : String) (a : MeetingParticipant) (o : Option MeetingParticipant)
        → is_some o ≡ true
        → is_some (if id == j then some a else o) ≡ true
    is_some-update id j a o h = ground (arith, h)

    Goes-update_participant :
        (id : String) (f : MeetingParticipant → MeetingParticipant) (w : World p)
        → KeepsId (λ r. r.id) f
        → is_some (p.participants.find_unique id start.participants) ≡ true
        → Goes (update_participant p id f) w
    unfolding update_participant
    Goes-update_participant id f w keeps listed = record {
      at = λ r.
          let (row, found) =
            there (p.participants.find_unique id w.participants) (r.rows id listed) in
          let (rows, done) = p.participants.update_found id f row w.participants found in
          (
            f row,
            record w { participants = rows },
            rw done refl,
            record {
              tenant = r.tenant;
              meeting = r.meeting;
              ids = record { distinct = r.ids.distinct; unused = r.ids.unused };
              rows = λ j h.
                  rw (p.participants.find-update id j f (f row) w.participants rows keeps done) (
                    is_some-update id j (f row) (p.participants.find_unique j w.participants)
                      (r.rows j h));
            },
          );
    }

    meeting_known :
        (w : World p)
        → has_meeting p w (some mid) ≡ true
        → has_meeting p w (truthy (some mid)) ≡ true
    meeting_known w h = elim (Bool-cases (mid == "")) [
      | inl empty ↦ rw empty refl
      | inr full ↦ rw full h
    ]

    still_unused :
        (w : World p) (event : AuditEvent) (rows : p.audit_events.Rows) (n : ℕ)
        → HasFreshIds w
        → event.id ≡ p.uuid w.draws
        → p.audit_events.create event w.audit_events ≡ some rows
        → suc w.draws ≤ n
        → p.audit_events.find_unique (p.uuid n) rows ≡ none
    still_unused w event rows n h e done later =
        let other : (event.id == p.uuid n) ≡ false = rw e (
          ==_of_ne (p.uuid w.draws) (p.uuid n)
            (h.distinct w.draws n (λ q. omega (arith, q, later)))) in
        rw (p.audit_events.find-create event w.audit_events rows (p.uuid n) done, other)
          (h.unused n (omega (arith, later)))

    Goes-log :
        (input : AuditLogInput) (w : World p)
        → input.tenant_id ≡ m.tenant_id
        → input.meeting_id ≡ some mid
        → Goes (log p input) w
    unfolding log now random_uuid create_audit_event
    Goes-log input w of_tenant of_meeting = record {
      at = λ r.
          let event = new_event p w input in
          let (rows, done) =
            p.audit_events.create_fresh event w.audit_events (r.ids.unused w.draws (omega arith)) in
          let known : has_tenant p w input.tenant_id ≡ true = rw of_tenant r.tenant in
          let held : has_meeting p w (truthy input.meeting_id) ≡ true =
            rw of_meeting (meeting_known w r.meeting) in
          (
            event,
            logged p w rows,
            ground (arith, done, known, held),
            record {
              tenant = r.tenant;
              meeting = r.meeting;
              ids = record {
                distinct = r.ids.distinct;
                unused = λ n h. still_unused w event rows n r.ids refl done h;
              };
              rows = r.rows;
            },
          );
    }

  ruleset goes_rules = (
    Goes-bind, Goes-pure, Goes-now, Goes-random_uuid, Goes-random_base64, Goes-on_gateway,
    Goes-redis_set, Goes-log,
  )

  module _ (start : World p) (mid : String) (m : Meeting) where
    Goes-fail_unbound :
        (r : MeetingParticipant) (w : World p)
        → is_some (p.participants.find_unique r.id start.participants) ≡ true
        → Goes start mid m (fail_unbound p mid m r) w
    unfolding fail_unbound
    Goes-fail_unbound r w listed = search (goes_rules, patched) depth 12
      where
        patched :
            (t : ℕ) (v : World p) → Goes start mid m (update_participant p r.id (unbound_patch t)) v
        patched t v =
            Goes-update_participant start mid m r.id (unbound_patch t) v (λ x. refl) listed

    Goes-send_challenge :
        (r : MeetingParticipant) (dev : String) (w : World p)
        → Goes start mid m (send_challenge p mid m r dev) w
    unfolding send_challenge
    Goes-send_challenge r dev w = search goes_rules depth 16

    Goes-issue_one :
        (e : MeetingParticipant × Option Device) (w : World p)
        → is_some (p.participants.find_unique e.0.id start.participants) ≡ true
        → Goes start mid m (issue_one p mid m e) w
    unfolding issue_one
    Goes-issue_one (r, none) w listed = elim (Option-cases (truthy r.device_id)) [
      | inl e ↦ rw (e, issue_one) (Goes-fail_unbound r w listed)
      | inr (dev, e) ↦ rw (e, issue_one) (Goes-fail_unbound r w listed)
    ]
    Goes-issue_one (r, some d) w listed = elim (Option-cases (truthy r.device_id)) [
      | inl e ↦ rw (e, issue_one) (Goes-fail_unbound r w listed)
      | inr (dev, e) ↦ rw (e, issue_one) (Goes-send_challenge r dev w)
    ]

    Goes-issue_all :
        (es : List (MeetingParticipant × Option Device)) (w : World p)
        → All (λ e. is_some (p.participants.find_unique e.0.id start.participants) ≡ true) es
        → Goes start mid m (issue_all p mid m es) w
    unfolding issue_all
    Goes-issue_all [] w h = Goes-pure start mid m [] w
    Goes-issue_all (e ∷ es) w h =
        let first : (v : World p) → Goes start mid m (issue_one p mid m e) v =
          λ v. Goes-issue_one e v h.0 in
        let later : (v : World p) → Goes start mid m (issue_all p mid m es) v =
          λ v. Goes-issue_all es v h.1 in
        search (goes_rules, first, later)

    listed :
        (rs : List MeetingParticipant) (q : MeetingParticipant → Type 0)
        → All (λ r. (p.participants.find_unique r.id start.participants ≡ some r) × q r) rs
        → All
            (λ (e : MeetingParticipant × Option Device).
              is_some (p.participants.find_unique e.0.id start.participants) ≡ true)
            (map (λ r. (r, device_of p start r)) rs)
    listed [] q h = tt
    listed (r ∷ rs) q h = (rw h.0.0 refl, listed rs q h.1)

  -- `issueChallenge` returns: if no audit event has an id that is still to be drawn, none is drawn twice,
  -- and the tenant of the meeting exists, then for a meeting that exists the loop runs to its end and
  -- the call returns the results, in a state where the ids to be drawn are unused again.
  pub issue_challenge_returns :
      (mid : String) (m : Meeting) (w : World p)
      → HasFreshIds w
      → p.meetings.find_unique mid w.meetings ≡ some m
      → has_tenant p w m.tenant_id ≡ true
      → (results : List IssueResult) × (v : World p) × (issue_challenge p mid w ≡ (ok results, v))
        × HasFreshIds v
  unfolding issue_challenge find_meeting participants_of
  issue_challenge_returns mid m w fresh there known =
      let (results, v, e, r) =
        (Goes-issue_all w mid m _ w (
            listed w mid m (p.participants.find_many (λ r. r.meeting_id == mid) w.participants) _
              (p.participants.find_many_sound (λ r. r.meeting_id == mid) w.participants))).at
          (record { tenant = known; meeting = rw there refl; ids = fresh; rows = λ id h. h }) in
      (results, v, rw (there, issue_challenge) e, r.ids)
