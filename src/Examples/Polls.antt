-- ===== src/Examples/Polls.antt =====
-- A poll of the dashboard that fails after it has received the statistics.
use troofai_mvp.Prelude.{ℕ, String, ◌≡◌, true, false, none, [], ◌∷◌}
use troofai_mvp.Dashboard.{State, Mock, tenant, bad_devices, fetch_all}
use troofai_mvp.Dashboard.Polling.{IsDemo, fetch_all-IsHonest}

abbrev mock : Mock ℕ String String
mock = record {
  tenant_id = "demo-tenant-00a1b2c3";
  stats = 83;
  meetings = "mtg-001" ∷ [];
  devices = "dev-001" ∷ [];
}

abbrev state : State ℕ String String
state = record {
  tenant_id = "acme";
  stats = none;
  meetings = [];
  devices = [];
  loading = true;
  using_mock = false;
}

fetch_all-IsHonest_example :
    let after = fetch_all ℕ String String mock (tenant "acme" (bad_devices 7 none)) state in
    (after.loading ≡ false) × ((false ≡ false) × IsDemo ℕ String String mock after)
unfolding fetch_all
fetch_all-IsHonest_example =
    fetch_all-IsHonest ℕ String String mock (tenant "acme" (bad_devices 7 none)) state
