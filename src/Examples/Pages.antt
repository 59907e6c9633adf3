-- ===== src/Examples/Pages.antt =====
-- What the pages show of the small hub, and of their demo data.
use troofai_mvp.Prelude.{ℕ, ◌≡◌, refl, ◌+◌, List, [], ◌∷◌}
use troofai_mvp.PageViews.Rows.{with_status}
use troofai_mvp.PageViews.Overview.{RecentMeeting, mock_stats, mock_meetings}

-- The demo meetings of the dashboard have nine verified participants where its numbers say ten.
abbrev verified_in_all : List RecentMeeting → ℕ
verified_in_all [] = 0
verified_in_all (m ∷ ms) = with_status "VERIFIED" m.participants + verified_in_all ms

demo_verified : verified_in_all (mock_meetings 0) ≡ 9
unfolding mock_meetings
demo_verified = refl

demo_number : mock_stats.participants.verified ≡ 10
demo_number = refl
