-- ===== src/DemoMeeting/Rounds.antt =====
-- The rounds of apps/web/src/app/demo-meeting/page.tsx, and who has a device in them.
use troofai_mvp.Prelude.{
  String, ◌≡◌, refl, true, false, List, [], ◌∷◌, ◌==◌, eq_iff, All, arith, Bool-cases, inl, inr,
  ◌+◌, length, length-append,
}
use troofai_mvp.World.{is_some}
use troofai_mvp.DemoMeeting.{Participant, Page, on_id, pass, fail, trigger_challenge}

-- Who is VERIFIED has a device, and so have the two that the simulation lets pass.
pub record IsGenuine (r : Participant) : Type 0 where
  pub trusted : r.trust_status ≡ "VERIFIED" → is_some r.device ≡ true
  pub alice : r.id ≡ "p-alice-real" → is_some r.device ≡ true
  pub bob : r.id ≡ "p-bob" → is_some r.device ≡ true

pub distinct_texts : (s t : String) → (s == t) ≡ false → s ≡ t → ⊥
distinct_texts s t h e = ground (arith, eq_iff s t)

module _ (id : String) (f : Participant → Participant)
    (able : (r : Participant) → r.id ≡ id → IsGenuine r → IsGenuine (f r)) where
  on_id-IsGenuine : (rs : List Participant) → All IsGenuine rs → All IsGenuine (on_id id f rs)
  on_id-IsGenuine [] h = tt
  on_id-IsGenuine (r ∷ rs) h = elim (Bool-cases (r.id == id)) [
    | inl hit ↦ rw hit (able r (ground (arith, hit, eq_iff r.id id)) h.0, on_id-IsGenuine rs h.1)
    | inr miss ↦ rw miss (h.0, on_id-IsGenuine rs h.1)
  ]

pass_alice :
    (t : String) (r : Participant) → r.id ≡ "p-alice-real" → IsGenuine r → IsGenuine (pass t r)
pass_alice t r e h = record { trusted = λ _. h.alice e; alice = h.alice; bob = h.bob }

pass_bob : (t : String) (r : Participant) → r.id ≡ "p-bob" → IsGenuine r → IsGenuine (pass t r)
pass_bob t r e h = record { trusted = λ _. h.bob e; alice = h.alice; bob = h.bob }

fail_fake :
    (t : String) (r : Participant) → r.id ≡ "p-alice-fake" → IsGenuine r → IsGenuine (fail t r)
fail_fake t r e h = record {
  trusted = λ v. absurd (distinct_texts "FAILED" "VERIFIED" refl v);
  alice = h.alice;
  bob = h.bob;
}

-- A round keeps the meeting genuine: if every VERIFIED participant has a device, and so have the two
-- whose answers the simulation makes up, then after a round this still holds; and the round has
-- logged four events.
pub trigger_challenge-IsGenuine :
    (t1 t2 t3 t4 : String) (page : Page)
    → All IsGenuine page.participants
    → let after = trigger_challenge t1 t2 t3 t4 page in
      All IsGenuine after.participants × (length after.audit_events ≡ length page.audit_events + 4)
unfolding trigger_challenge
trigger_challenge-IsGenuine t1 t2 t3 t4 page h = (
  on_id-IsGenuine "p-alice-fake" (fail t4) (fail_fake t4) _ (
      on_id-IsGenuine "p-bob" (pass t3) (pass_bob t3) _
        (on_id-IsGenuine "p-alice-real" (pass t2) (pass_alice t2) page.participants h)),
  length-append page.audit_events _,
)
