-- ===== src/Examples/Demo.antt =====
-- The first round of the simulated meeting.
use troofai_mvp.Prelude.{◌≡◌, refl, All, length}
use troofai_mvp.DemoMeeting.{initial_page, trigger_challenge}
use troofai_mvp.DemoMeeting.Rounds.{IsGenuine, distinct_texts, trigger_challenge-IsGenuine}

initial_page-IsGenuine : All IsGenuine (initial_page "t0").participants
initial_page-IsGenuine = (
  record { trusted = λ _. refl; alice = λ _. refl; bob = λ _. refl },
  (
    record { trusted = λ _. refl; alice = λ _. refl; bob = λ _. refl },
    (
      record {
        trusted = λ e. absurd (distinct_texts "PENDING" "VERIFIED" refl e);
        alice = λ e. absurd (distinct_texts "p-alice-fake" "p-alice-real" refl e);
        bob = λ e. absurd (distinct_texts "p-alice-fake" "p-bob" refl e);
      },
      tt,
    ),
  ),
)

trigger_challenge-IsGenuine_example :
    let page = trigger_challenge "t1" "t2" "t3" "t4" (initial_page "t0") in
    All IsGenuine page.participants × (length page.audit_events ≡ 9)
trigger_challenge-IsGenuine_example =
    trigger_challenge-IsGenuine "t1" "t2" "t3" "t4" (initial_page "t0") initial_page-IsGenuine
