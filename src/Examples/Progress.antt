-- ===== src/Examples/Progress.antt =====
-- The loop of `issueChallenge` on the small hub.
use text.Mathlib.TextLemmas.{append_cancel_left}
use troofai_mvp.Prelude.{◌≡◌, refl, sym, ◌∙◌, ap, some, true, List}
use troofai_mvp.Exec.{ok}
use troofai_mvp.World.{World, has_tenant}
use troofai_mvp.Challenge.{IssueResult, issue_challenge}
use troofai_mvp.Challenge.Progress.{HasFreshIds, issue_challenge_returns}
use troofai_mvp.Memory.{memory}
use troofai_mvp.Memory.Rows.{list_table, find}
use troofai_mvp.Memory.Entries.{list_redis}
use troofai_mvp.Memory.Texts.{bits, value, value-bits}
use troofai_mvp.Examples.{hub, standup}

hub-HasFreshIds : HasFreshIds memory hub
unfolding memory list_table list_redis find hub
hub-HasFreshIds = record {
  distinct = λ i j other same. other (
      sym (value-bits i)
      ∙ ap value (append_cancel_left "uuid" (bits i) (bits j) same)
      ∙ value-bits j);
  unused = λ n h. refl;
}

hub_meeting : memory.meetings.find_unique "standup" hub.meetings ≡ some standup
unfolding memory list_table list_redis find hub
hub_meeting = refl

hub_tenant : has_tenant memory hub standup.tenant_id ≡ true
unfolding memory list_table list_redis find hub
hub_tenant = refl

issue_challenge_returns_example :
    (results : List IssueResult) × (v : World memory) × (issue_challenge memory "standup" hub
      ≡ (ok results, v))
    × HasFreshIds memory v
issue_challenge_returns_example =
    issue_challenge_returns memory "standup" standup hub hub-HasFreshIds hub_meeting hub_tenant
