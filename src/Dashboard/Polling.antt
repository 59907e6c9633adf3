-- ===== src/Dashboard/Polling.antt =====
-- The hub's data and the demo data in the state of apps/web/src/app/dashboard/page.tsx.
use troofai_mvp.Prelude.{◌≡◌, refl, String, Bool, true, false, Option, none, some, List, []}
use troofai_mvp.Dashboard.{
  State, Mock, unreachable, bad_stats, bad_meetings, bad_devices, complete, Tenant, hub_down,
  tenant, as_list, fetch_all,
}

module _ (Stats Meeting Device : Type 0) where
  as_list_lem :
      {A : Type 0} (o : Option (List A))
      → as_list Stats Meeting Device o ≡ elim o [ none ↦ [] | some xs ↦ xs ]
  as_list_lem none = refl
  as_list_lem (some xs) = refl

  -- The page shows the demo data.
  pub record IsDemo (mock : Mock Stats Meeting Device) (s : State Stats Meeting Device)
      : Type 0 where
    pub tenant_id : s.tenant_id ≡ mock.tenant_id
    pub stats : s.stats ≡ some mock.stats
    pub meetings : s.meetings ≡ mock.meetings
    pub devices : s.devices ≡ mock.devices

  -- The answer is complete, and the page shows it: a list that is no array is shown as empty.
  pub record IsFromHub (answer : Tenant Stats Meeting Device) (s : State Stats Meeting Device)
      : Type 0 where
    pub id : String
    pub numbers : Stats
    pub ms : Option (List Meeting)
    pub ds : Option (List Device)
    pub answered : answer ≡ tenant id (complete numbers ms ds)
    pub tenant_id : s.tenant_id ≡ id
    pub stats : s.stats ≡ some numbers
    pub meetings : s.meetings ≡ elim ms [ none ↦ [] | some xs ↦ xs ]
    pub devices : s.devices ≡ elim ds [ none ↦ [] | some xs ↦ xs ]

  -- All that the hub was asked has been answered.
  abbrev pub is_complete : Tenant Stats Meeting Device → Bool
  is_complete (tenant _ (complete _ _ _)) = true
  is_complete _ = false

  abbrev pub IsHonest :
      Mock Stats Meeting Device
      → Tenant Stats Meeting Device
      → State Stats Meeting Device
      → Bool
      → Type 0
  IsHonest mock answer s true = (is_complete answer ≡ false) × IsDemo mock s
  IsHonest mock answer s false = IsFromHub answer s

  -- After a run of the polling that was not cancelled, whatever the hub answered and however far it
  -- got, the page is no longer loading. If it says that it shows demo data, then some request was
  -- not answered and all that it shows is demo data: nothing that was received before a failure
  -- stays. If it does not say so, then every request was answered, and the tenant, the numbers, the
  -- meetings and the devices that it shows are those of the answers, an answer that is no array
  -- being shown as an empty list.
  pub fetch_all-IsHonest :
      (mock : Mock Stats Meeting Device) (answer : Tenant Stats Meeting Device)
      (s : State Stats Meeting Device)
      → let after = fetch_all Stats Meeting Device mock answer s in
        (after.loading ≡ false) × IsHonest mock answer after after.using_mock
  unfolding fetch_all
  fetch_all-IsHonest mock hub_down s =
      (refl, (refl, record { tenant_id = refl; stats = refl; meetings = refl; devices = refl }))
  fetch_all-IsHonest mock (tenant id unreachable) s =
      (refl, (refl, record { tenant_id = refl; stats = refl; meetings = refl; devices = refl }))
  fetch_all-IsHonest mock (tenant id bad_stats) s =
      (refl, (refl, record { tenant_id = refl; stats = refl; meetings = refl; devices = refl }))
  fetch_all-IsHonest mock (tenant id (bad_meetings _)) s =
      (refl, (refl, record { tenant_id = refl; stats = refl; meetings = refl; devices = refl }))
  fetch_all-IsHonest mock (tenant id (bad_devices _ _)) s =
      (refl, (refl, record { tenant_id = refl; stats = refl; meetings = refl; devices = refl }))
  fetch_all-IsHonest mock (tenant id (complete stats ms ds)) s = (
    refl,
    record {
      id = id;
      numbers = stats;
      ms = ms;
      ds = ds;
      answered = refl;
      tenant_id = refl;
      stats = refl;
      meetings = as_list_lem ms;
      devices = as_list_lem ds;
    },
  )
