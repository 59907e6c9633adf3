-- ===== src/Auth.antt =====
-- services/hub-api/src/auth: the API key guard, the demo tenant and its controller.
pub mod Tenants
use Prim.Native.String
use troofai_mvp.Prelude.{String, Bool, true, Option, none, some}
use troofai_mvp.Schema.{Tenant}
use troofai_mvp.Platform.{Platform}
use troofai_mvp.Exec.{unauthorized, pure, or_throw, ◌>>=◌}
use troofai_mvp.World.{
  Hub, truthy, now, random_uuid, random_hex, find_tenant_by_key, find_tenant_by_name, create_tenant,
}

-- What the controller answers.
pub record DemoTenant : Type 0 where
  pub tenant_id : String
  pub name : String
  pub api_key : String

abbrev pub demo_name : String
demo_name = "TroofAI Demo"

module _ (p : Platform) where
  -- `canActivate` on the `x-api-key` header: the answer, and the tenant attached to the request.
  unfoldable pub can_activate : Option String → Hub p (Bool × Tenant)
  can_activate header = do
    api_key ← or_throw (unauthorized "Missing API key") (truthy header)
    found ← find_tenant_by_key p api_key
    tenant ← or_throw (unauthorized "Invalid API key") found
    pure (true, tenant)

  unfoldable pub new_demo_tenant : Hub p Tenant
  new_demo_tenant = do
    secret ← random_hex p 16
    id ← random_uuid p
    created_at ← now p
    create_tenant p (record {
      id = id;
      name = demo_name;
      api_key = String.◌++◌ "troofai-demo-" secret;
      created_at = created_at;
    })

  unfoldable pub ensure_demo_tenant : Hub p Tenant
  ensure_demo_tenant = do
    existing ← find_tenant_by_name p demo_name
    elim existing [ none ↦ new_demo_tenant | some tenant ↦ pure tenant ]

  unfoldable pub get_demo_tenant : Hub p DemoTenant
  get_demo_tenant = do
    tenant ← ensure_demo_tenant
    pure (record { tenant_id = tenant.id; name = tenant.name; api_key = tenant.api_key })
