-- ===== src/Dashboard.antt =====
-- apps/web/src/app/dashboard/page.tsx: what the page holds, a round of its polling, and the age of a
-- date in words. What the hub's answers contain is a parameter.
pub mod Polling
use Prim.Native.String
use troofai_mvp.Prelude.{
  ℕ, ◌-◌, ◌/◌, String, Bool, true, false, Option, none, some, List, [], ltb, if◌then◌else◌,
}
use troofai_mvp.Prelude.Text.{show}

abbrev unit_ago : ℕ → String → String
unit_ago n unit = String.◌++◌ (show n) unit

-- `timeAgo`, of an age in milliseconds that is not negative
unfoldable pub time_ago : ℕ → String
time_ago age =
    let seconds = age / 1000 in
    if ltb seconds 60
    then unit_ago seconds "s ago"
    else if ltb seconds 3600
    then unit_ago (seconds / 60) "m ago"
    else if ltb seconds 86400
    then unit_ago (seconds / 3600) "h ago"
    else unit_ago (seconds / 86400) "d ago"

module _ (Stats Meeting Device : Type 0) where
  pub record State : Type 0 where
    pub tenant_id : String
    pub stats : Option Stats
    pub meetings : List Meeting
    pub devices : List Device
    pub loading : Bool
    pub using_mock : Bool

  -- MOCK_TENANT_ID, MOCK_STATS, MOCK_MEETINGS, MOCK_DEVICES
  pub record Mock : Type 0 where
    pub tenant_id : String
    pub stats : Stats
    pub meetings : List Meeting
    pub devices : List Device

  -- The outcome of the three requests that run together: an answer that is not JSON throws when it is
  -- read. A list is `none` where the answer is JSON but no array.
  pub data Answers : Type 0 where
    unreachable : Answers
    bad_stats : Answers
    bad_meetings : Stats → Answers
    bad_devices : Stats → Option (List Meeting) → Answers
    complete : Stats → Option (List Meeting) → Option (List Device) → Answers

  -- The outcome of the first request: an error, or the tenant's id.
  pub data Tenant : Type 0 where
    hub_down : Tenant
    tenant : String → Answers → Tenant

  -- `Array.isArray(data) ? data : []`
  abbrev pub as_list : {A : Type 0} → Option (List A) → List A
  as_list none = []
  as_list (some xs) = xs

  -- the `catch`
  abbrev pub fall_back : Mock → State → State
  fall_back mock s = record s {
    tenant_id = mock.tenant_id;
    stats = some mock.stats;
    meetings = mock.meetings;
    devices = mock.devices;
    using_mock = true;
  }

  abbrev pub receive : Mock → Answers → State → State
  receive mock unreachable s = fall_back mock s
  receive mock bad_stats s = fall_back mock s
  receive mock (bad_meetings stats) s = fall_back mock (record s { stats = some stats })
  receive mock (bad_devices stats ms) s =
      fall_back mock (record s { stats = some stats; meetings = as_list ms })
  receive mock (complete stats ms ds) s = record s {
    stats = some stats;
    meetings = as_list ms;
    devices = as_list ds;
    using_mock = false;
  }

  abbrev pub receive_tenant : Mock → Tenant → State → State
  receive_tenant mock hub_down s = fall_back mock s
  receive_tenant mock (tenant id answers) s = receive mock answers (record s { tenant_id = id })

  -- A run of `fetchAll` that is not cancelled.
  unfoldable pub fetch_all : Mock → Tenant → State → State
  fetch_all mock answer s = record (receive_tenant mock answer s) { loading = false }
