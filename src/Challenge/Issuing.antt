-- ===== src/Challenge/Issuing.antt =====
-- The loop of `issueChallenge` over a meeting's participants.
use troofai_mvp.Prelude.{
  suc, String, ◌≡◌, refl, ◌∙◌, ap, subst₂, true, false, not, keep, Option, none, some, List, [],
  ◌∷◌, map, arith, ◌==◌, eq_refl, All, Option-cases, Bool-cases, inl, inr, if◌then◌else◌,
}
use troofai_mvp.Schema.{Device, Meeting, MeetingParticipant, failed}
use troofai_mvp.Platform.{Platform}
use troofai_mvp.Exec.{Result, ok, >>=-eq-ok}
use troofai_mvp.World.{World, truthy, device_of, now, on_gateway, find_meeting, participants_of}
use troofai_mvp.World.Calls.{update_participant_cases, update_participant_found}
use troofai_mvp.Gateway.{emit_meeting_update, emit_challenge_to_device}
use troofai_mvp.Audit.Entry.{log_cases}
use troofai_mvp.Challenge.{
  IssueResult, not_bound, fail_unbound, send_challenge, issue_one, issue_all, issue_challenge,
  unbound_patch, unbound_event, unbound_update,
}
use troofai_mvp.Collections.{get}
use troofai_mvp.Challenge.Sent.{new_challenge, send_challenge_ok}
use troofai_mvp.Challenge.Delivered.{
  is_bound, Grows, Grows-refl, Grows-trans, Grows-emit_meeting_update,
  Grows-emit_challenge_to_device, emitted_now, IsReported, Reports, IsReported-mono, Reports-mono,
}

module _ (p : Platform) where
  -- What the round of an unbound participant does.
  pub record Failed (w w' : World p) (mid : String) (r : MeetingParticipant) (x : IssueResult)
      : Type 0 where
    pub answered : x.outcome ≡ not_bound "No device binding"
    pub named : x.participant_id ≡ r.id
    pub before : MeetingParticipant
    pub rows : p.participants.Rows
    pub found : p.participants.find_unique r.id w.participants ≡ some before
    pub updated :
        p.participants.update r.id (unbound_patch (p.clock w.readings)) w.participants
        ≡ some (unbound_patch (p.clock w.readings) before, rows)
    pub stored : w'.participants ≡ rows
    pub announced : w'.gateway ≡ emit_meeting_update mid (unbound_update r) w.gateway
    pub redis_kept : w'.redis ≡ w.redis

  pub fail_unbound_ok :
      (mid : String) (m : Meeting) (r : MeetingParticipant) (w w' : World p) (x : IssueResult)
      → fail_unbound p mid m r w ≡ (ok x, w')
      → Failed w w' mid r x
  unfolding fail_unbound now on_gateway
  fail_unbound_ok mid m r w w' x e =
      elim (update_participant_cases p (record w { readings = suc w.readings }) r.id
        (unbound_patch (p.clock w.readings))) [
          | inr missing ↦ absurd (ground (arith, missing))
          | inl (row, rows, updated, call) ↦
              elim (log_cases p (record w { readings = suc w.readings; participants = rows })
                (unbound_event mid m r)) [
                  | inr (_, _, refused) ↦ absurd (ground (arith, call, refused))
                  | inl (_, _, call') ↦
                      let (old, there, patched) =
                        update_participant_found p _ _ w.participants row rows updated in
                      record {
                        answered = ground (arith, call, call');
                        named = ground (arith, call, call');
                        before = old;
                        rows = rows;
                        found = there;
                        updated = updated ∙ ap (λ z. some (z, rows)) patched;
                        stored = ground (arith, call, call');
                        announced = ground (arith, call, call');
                        redis_kept = ground (arith, call, call');
                      }
                ]
        ]

  -- The row of `j` is there and FAILED.
  pub record IsFailedAt (w : World p) (j : String) : Type 0 where
    pub row : MeetingParticipant
    pub found : p.participants.find_unique j w.participants ≡ some row
    pub status : row.trust_status ≡ failed

  find-Failed :
      (mid : String) (r : MeetingParticipant) (w w' : World p) (x : IssueResult) (j : String)
      → (f : Failed w w' mid r x)
      → p.participants.find_unique j w'.participants ≡ (
          if r.id == j
          then some (unbound_patch (p.clock w.readings) f.before)
          else p.participants.find_unique j w.participants)
  find-Failed mid r w w' x j f =
      ap (p.participants.find_unique j) f.stored
      ∙ p.participants.find-update r.id j (unbound_patch (p.clock w.readings)) _ w.participants
          f.rows (λ _. refl) f.updated

  Failed-IsFailedAt :
      (mid : String) (r : MeetingParticipant) (w w' : World p) (x : IssueResult)
      → Failed w w' mid r x
      → IsFailedAt w' r.id
  Failed-IsFailedAt mid r w w' x f = record {
    row = unbound_patch (p.clock w.readings) f.before;
    found = find-Failed mid r w w' x r.id f ∙ rw (eq_refl r.id) refl;
    status = refl;
  }

  Failed-keeps :
      (mid : String) (r : MeetingParticipant) (w w' : World p) (x : IssueResult) (j : String)
      → Failed w w' mid r x
      → IsFailedAt w j
      → IsFailedAt w' j
  Failed-keeps mid r w w' x j f h = elim (Bool-cases (r.id == j)) [
    | inl hit ↦ record {
      row = unbound_patch (p.clock w.readings) f.before;
      found = find-Failed mid r w w' x j f ∙ rw hit refl;
      status = refl;
    }
    | inr miss ↦ record {
      row = h.row;
      found = find-Failed mid r w w' x j f ∙ rw miss h.found;
      status = h.status;
    }
  ]

  -- What one round of the loop says and keeps.
  record Issued (w w' : World p) (mid : String) (r : MeetingParticipant) (d : Option Device)
      (x : IssueResult) : Type 0 where
    named : x.participant_id ≡ r.id
    sent : IsReported w.gateway w'.gateway mid (r, d) x.outcome
    grows : Grows w.gateway w'.gateway
    keeps : (j : String) → IsFailedAt w j → IsFailedAt w' j
    fails : is_bound (r, d) ≡ false → IsFailedAt w' r.id

  Issued-fail_unbound :
      (mid : String) (m : Meeting) (r : MeetingParticipant) (d : Option Device) (w w' : World p)
      (x : IssueResult)
      → is_bound (r, d) ≡ false
      → fail_unbound p mid m r w ≡ (ok x, w')
      → Issued w w' mid r d x
  Issued-fail_unbound mid m r d w w' x unbound e =
      let f = fail_unbound_ok mid m r w w' x e in
      record {
        named = f.named;
        sent = rw f.answered unbound;
        grows = rw f.announced (Grows-emit_meeting_update mid _ w.gateway);
        keeps = λ j. Failed-keeps mid r w w' x j f;
        fails = λ _. Failed-IsFailedAt mid r w w' x f;
      }

  Issued-send_challenge :
      (mid : String) (m : Meeting) (r : MeetingParticipant) (d : Option Device) (dev : String)
      (w w' : World p) (x : IssueResult)
      → truthy r.device_id ≡ some dev
      → is_bound (r, d) ≡ true
      → send_challenge p mid m r dev w ≡ (ok x, w')
      → Issued w w' mid r d x
  Issued-send_challenge mid m r d dev w w' x given bound e =
      let s = send_challenge_ok p mid m r dev w w' x e in
      let payload = (new_challenge p w mid m r dev).payload in
      let after : w'.gateway ≡ emit_challenge_to_device dev payload w.gateway =
        ap (λ (v : World p). v.gateway) s.after in
      record {
        named = s.named;
        sent = rw s.answered (
          bound,
          record {
            payload = payload;
            for_whom = refl;
            of_meeting = refl;
            under_id = refl;
            emitted = λ dev' socket given' there.
                let same : dev ≡ dev' = ground (arith, given, given') in
                rw after (
                  emitted_now dev socket payload w.gateway
                    (ap (λ z. get z w.gateway.device_sockets) same ∙ there));
          },
        );
        grows = rw after (Grows-emit_challenge_to_device dev payload w.gateway);
        keeps = λ j h. record {
          row = h.row;
          found =
              ap (λ (v : World p). p.participants.find_unique j v.participants) s.after ∙ h.found;
          status = h.status;
        };
        fails = λ unbound. absurd (ground (arith, bound, unbound));
      }

  issue_one_ok :
      (mid : String) (m : Meeting) (r : MeetingParticipant) (d : Option Device) (w w' : World p)
      (x : IssueResult)
      → issue_one p mid m (r, d) w ≡ (ok x, w')
      → Issued w w' mid r d x
  unfolding issue_one
  issue_one_ok mid m r d w w' x e = elim (Option-cases (truthy r.device_id)) [
    | inl missing ↦
        Issued-fail_unbound mid m r d w w' x (ground (arith, missing)) (ground (arith, missing))
    | inr (dev, given) ↦ elim (Option-cases d) [
      | inl gone ↦
          Issued-fail_unbound mid m r d w w' x (ground (arith, given, gone))
            (ground (arith, given, gone))
      | inr (device, there) ↦
          Issued-send_challenge mid m r d dev w w' x given (ground (arith, given, there))
            (ground (arith, given, there))
    ]
  ]

  -- Every participant without a device stands as FAILED.
  abbrev pub UnboundFailed : World p → List (MeetingParticipant × Option Device) → Type 0
  UnboundFailed w es = All (λ e. IsFailedAt w e.0.id) (keep (λ e. not (is_bound e)) es)

  abbrev Loop :
      String
      → List (MeetingParticipant × Option Device)
      → World p
      → List IssueResult
      → World p
      → Type 0
  Loop mid es w xs w' =
      Reports w.gateway w'.gateway mid es xs
      × UnboundFailed w' es
      × ((j : String) → IsFailedAt w j → IsFailedAt w' j)
      × Grows w.gateway w'.gateway

  Loop-cons :
      {mid : String} {r : MeetingParticipant} {d : Option Device} {w w1 w2 : World p}
      {x : IssueResult} (es : List (MeetingParticipant × Option Device)) (ys : List IssueResult)
      → Issued w w1 mid r d x
      → Loop mid es w1 ys w2
      → Loop mid ((r, d) ∷ es) w (x ∷ ys) w2
  Loop-cons {mid} {r} {d} {w} {w1} {w2} {x} es ys i l = (
    (
      i.named,
      IsReported-mono w.gateway w.gateway w1.gateway w2.gateway mid (r, d) x.outcome
          (Grows-refl w.gateway) l.3 i.sent,
      Reports-mono w.gateway w1.gateway w2.gateway mid es ys i.grows l.0,
    ),
    elim (Bool-cases (is_bound (r, d))) [
      | inl bound ↦ rw bound l.1
      | inr unbound ↦ rw unbound (l.2 r.id (i.fails unbound), l.1)
    ],
    λ j h. l.2 j (i.keeps j h),
    Grows-trans w.gateway w1.gateway w2.gateway i.grows l.3,
  )

  issue_all_ok :
      (mid : String) (m : Meeting) (es : List (MeetingParticipant × Option Device)) (w w' : World p)
      (xs : List IssueResult)
      → issue_all p mid m es w ≡ (ok xs, w')
      → Loop mid es w xs w'
  unfolding issue_all
  issue_all_ok mid m [] w w' xs e =
      let same : [] ≡ xs = ground arith in
      subst₂ (Loop mid [] w) same (ap (λ (q : Result (List IssueResult) × World p). q.1) e)
        (tt, tt, (λ j h. h), Grows-refl w.gateway)
  issue_all_ok mid m ((r, d) ∷ es) w w' xs e =
      let (x, w1, first, rest) = >>=-eq-ok (issue_one p mid m (r, d)) _ w w' xs e in
      let (ys, w2, later, done) = >>=-eq-ok (issue_all p mid m es) _ w1 w' xs rest in
      let same : x ∷ ys ≡ xs = ground (arith, done) in
      subst₂ (Loop mid ((r, d) ∷ es) w) same
        (ap (λ (q : Result (List IssueResult) × World p). q.1) done)
        (Loop-cons es ys (issue_one_ok mid m r d w w1 x first)
          (issue_all_ok mid m es w1 w2 ys later))

  -- The participants of a meeting, each with its device.
  abbrev pub attending : World p → String → List (MeetingParticipant × Option Device)
  attending w mid =
      map (λ r. (r, device_of p w r))
        (p.participants.find_many (λ r. r.meeting_id == mid) w.participants)

  -- When challenges have been issued for a meeting that exists, there is one result for each of its
  -- participants, in the database's order. Of a participant that has a device it says that a
  -- challenge was sent, with its id, and a challenge of that id, for that participant and that
  -- meeting, is among the messages emitted to the device's socket, if the device has one. Of a
  -- participant without a device it says so, and that participant stands as FAILED.
  pub issue_challenge_ok :
      (mid : String) (m : Meeting) (w w' : World p) (xs : List IssueResult)
      → p.meetings.find_unique mid w.meetings ≡ some m
      → issue_challenge p mid w ≡ (ok xs, w')
      → Reports w.gateway w'.gateway mid (attending w mid) xs × UnboundFailed w' (attending w mid)
  unfolding issue_challenge find_meeting participants_of
  issue_challenge_ok mid m w w' xs there e =
      let l = issue_all_ok mid m (attending w mid) w w' xs (ground (arith, there)) in (l.0, l.1)

  -- For a meeting that does not exist the call returns no results and changes nothing.
  pub issue_challenge_missing :
      (mid : String) (w : World p)
      → p.meetings.find_unique mid w.meetings ≡ none
      → issue_challenge p mid w ≡ (ok [], w)
  unfolding issue_challenge find_meeting
  issue_challenge_missing mid w gone = ground (arith, gone)
