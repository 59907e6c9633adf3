-- ===== src/Interleaving/Alone.antt =====
-- A handler that nothing overtakes, against the handler as one function of the state.
use troofai_mvp.Prelude.{
  ℕ, String, ◌≡◌, refl, ◌∙◌, ap, Bool, true, false, Option, none, some, List, [], ◌∷◌, ◌==◌, not,
  if◌then◌else◌,
}
use troofai_mvp.Platform.{Platform, StoredChallenge}
use troofai_mvp.Exec.{Result, ok, thrown, continue}
use troofai_mvp.Exec as E
use troofai_mvp.World.{World, Hub, truthy, json_parse, participants_of}
use troofai_mvp.Policy.{PolicyResult}
use troofai_mvp.Device.{find_by_id}
use troofai_mvp.Schema.{Device, Meeting, MeetingParticipant}
use troofai_mvp.Challenge as C
use troofai_mvp.Interleaving.{Thread, done, step, call, return, run, ◌>>=◌}
use troofai_mvp.Interleaving.Handlers.{
  fail_unbound_steps, send_challenge_steps, issue_one_steps, issue_all_steps, issue_challenge_steps,
  settle_steps, judge_steps, check_device_steps, verify_response_steps,
}

module _ (p : Platform) where
  -- The calls of the thread are those of the handler, in its order.
  pub record Runs {A : Type 0} (t : Thread p A) (m : Hub p A) : Type 0 where
    pub at : (w : World p) → run t w ≡ m w

  pub Runs-call : {A : Type 0} (m : Hub p A) → Runs (call m) m
  Runs-call m = record { at = λ w. refl }

  pub Runs-return : {A : Type 0} (a : A) → Runs (return a) (E.pure a)
  Runs-return a = record { at = λ w. refl }

  run-bind :
      {A B : Type 0} (t : Thread p A) (f : A → Thread p B) (w : World p)
      → run (t >>= f) w ≡ continue (run t w).0 (λ a. run (f a)) (run t w).1
  run-bind (done (ok a)) f w = refl
  run-bind (done (thrown e)) f w = refl
  run-bind (step m k) f w = run-bind (k (m w).0) f (m w).1

  pub Runs-bind :
      {A B : Type 0} (t : Thread p A) (m : Hub p A) (f : A → Thread p B) (g : A → Hub p B)
      → Runs t m
      → ((a : A) → Runs (f a) (g a))
      → Runs (t >>= f) (E.◌>>=◌ m g)
  Runs-bind {A} {B} t m f g h k = record {
    at = λ w.
        run-bind t f w
        ∙ ap (λ (x : Result A × World p). continue x.0 (λ a. run (f a)) x.1) (h.at w)
        ∙ go (m w).0 (m w).1;
  }
    where
      go : (r : Result A) (v : World p) → continue r (λ a. run (f a)) v ≡ continue r g v
      go (ok a) v = (k a).at v
      go (thrown e) v = refl

pub ruleset runs_rules = (Runs-bind, Runs-call, Runs-return)

module _ (p : Platform) where
  Runs-fail_unbound :
      (mid : String) (m : Meeting) (r : MeetingParticipant)
      → Runs p (fail_unbound_steps p mid m r) (C.fail_unbound p mid m r)
  unfolding fail_unbound_steps C.fail_unbound
  Runs-fail_unbound mid m r = search runs_rules depth 12

  Runs-send_challenge :
      (mid : String) (m : Meeting) (r : MeetingParticipant) (dev : String)
      → Runs p (send_challenge_steps p mid m r dev) (C.send_challenge p mid m r dev)
  unfolding send_challenge_steps C.send_challenge
  Runs-send_challenge mid m r dev = search runs_rules depth 20

  Runs-issue_one :
      (mid : String) (m : Meeting) (e : MeetingParticipant × Option Device)
      → Runs p (issue_one_steps p mid m e) (C.issue_one p mid m e)
  unfolding issue_one_steps C.issue_one
  Runs-issue_one mid m (r, d) = go (truthy r.device_id) d
    where
      go :
          (id : Option String) (d : Option Device)
          → Runs p
              (elim id [
                | none ↦ fail_unbound_steps p mid m r
                | some dev ↦ elim d [
                  | none ↦ fail_unbound_steps p mid m r
                  | some _ ↦ send_challenge_steps p mid m r dev
                ]
              ])
              (elim id [
                | none ↦ C.fail_unbound p mid m r
                | some dev ↦ elim d [
                  | none ↦ C.fail_unbound p mid m r
                  | some _ ↦ C.send_challenge p mid m r dev
                ]
              ])
      go none d = Runs-fail_unbound mid m r
      go (some dev) none = Runs-fail_unbound mid m r
      go (some dev) (some _) = Runs-send_challenge mid m r dev

  Runs-issue_all :
      (mid : String) (m : Meeting) (es : List (MeetingParticipant × Option Device))
      → Runs p (issue_all_steps p mid m es) (C.issue_all p mid m es)
  unfolding issue_all_steps C.issue_all
  Runs-issue_all mid m [] = Runs-return p []
  Runs-issue_all mid m (e ∷ es) = Runs-bind p _ _ _ _ (Runs-issue_one mid m e) λ answer.
      Runs-bind p _ _ _ _ (Runs-issue_all mid m es) λ answers. Runs-return p (answer ∷ answers)

  pub Runs-issue_challenge :
      (mid : String) → Runs p (issue_challenge_steps p mid) (C.issue_challenge p mid)
  unfolding issue_challenge_steps C.issue_challenge
  Runs-issue_challenge mid = Runs-bind p _ _ _ _ (Runs-call p _) go
    where
      go :
          (o : Option Meeting)
          → Runs p {A = List C.IssueResult}
              (elim o [
                | none ↦ return []
                | some m ↦ call (participants_of p mid) >>= issue_all_steps p mid m
              ])
              (elim o [
                | none ↦ E.pure []
                | some m ↦ E.◌>>=◌ (participants_of p mid) (C.issue_all p mid m)
              ])
      go none = Runs-return p []
      go (some m) = Runs-bind p _ _ _ _ (Runs-call p _) (Runs-issue_all mid m)

  Runs-settle :
      (cid did : String) (c : StoredChallenge) (d : Device) (b : Bool) (policy : PolicyResult)
      → Runs p (settle_steps p cid did c d b policy) (C.settle p cid did c d b policy)
  unfolding settle_steps C.settle
  Runs-settle cid did c d b policy = search runs_rules depth 12

  Runs-judge :
      (cid did sig : String) (c : StoredChallenge) (late : Bool) (d : Device)
      → Runs p (judge_steps p cid did sig c late d) (C.judge p cid did sig c late d)
  unfolding judge_steps C.judge
  Runs-judge cid did sig c late d = search (runs_rules, Runs-settle) depth 12

  Runs-check_device :
      (cid did sig : String) (c : StoredChallenge)
      → Runs p (check_device_steps p cid did sig c) (C.check_device p cid did sig c)
  unfolding check_device_steps C.check_device
  Runs-check_device cid did sig c =
      Runs-bind p _ _ _ _ (Runs-call p _) (λ t. gated t (not (c.device_id == did)))
    where
      found :
          (t : ℕ) (o : Option Device)
          → Runs p
              (elim o [
                | none ↦ return (C.refused "Device not found")
                | some d ↦ judge_steps p cid did sig c (C.is_after p t c.payload.expires_at) d
              ])
              (elim o [
                | none ↦ E.pure (C.refused "Device not found")
                | some d ↦ C.judge p cid did sig c (C.is_after p t c.payload.expires_at) d
              ])
      found t none = Runs-return p _
      found t (some d) = Runs-judge cid did sig c (C.is_after p t c.payload.expires_at) d

      gated :
          (t : ℕ) (b : Bool)
          → Runs p
              (if b
                then return (C.refused "Device ID mismatch")
                else (call (find_by_id p did) >>= λ o. elim o [
                  | none ↦ return (C.refused "Device not found")
                  | some d ↦ judge_steps p cid did sig c (C.is_after p t c.payload.expires_at) d
                ]))
              (if b
                then E.pure (C.refused "Device ID mismatch")
                else (E.◌>>=◌ (find_by_id p did) λ o. elim o [
                  | none ↦ E.pure (C.refused "Device not found")
                  | some d ↦ C.judge p cid did sig c (C.is_after p t c.payload.expires_at) d
                ]))
      gated t true = Runs-return p _
      gated t false = Runs-bind p _ _ _ _ (Runs-call p _) (found t)

  pub Runs-verify_response :
      (cid did sig : String)
      → Runs p (verify_response_steps p cid did sig) (C.verify_response p cid did sig)
  unfolding verify_response_steps C.verify_response
  Runs-verify_response cid did sig =
      Runs-bind p _ _ _ _ (Runs-call p _) (λ found. go (truthy found))
    where
      go :
          (o : Option String)
          → Runs p
              (elim o [
                | none ↦ return (C.refused "Challenge expired or not found")
                | some json ↦
                    call (json_parse p p.challenge_json json) >>= check_device_steps p cid did sig
              ])
              (elim o [
                | none ↦ E.pure (C.refused "Challenge expired or not found")
                | some json ↦
                    E.◌>>=◌ (json_parse p p.challenge_json json) (C.check_device p cid did sig)
              ])
      go none = Runs-return p _
      go (some json) = Runs-bind p _ _ _ _ (Runs-call p _) (Runs-check_device cid did sig)
