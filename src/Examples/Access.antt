-- ===== src/Examples/Access.antt =====
-- Requests, the demo tenant, heartbeats and signatures of the small hub.
use troofai_mvp.Prelude.{◌≡◌, refl, some, true, arith}
use troofai_mvp.Schema.{Tenant}
use troofai_mvp.Platform.{StoredChallenge}
use troofai_mvp.Exec.{ok}
use troofai_mvp.World.{
  World, truthy, now, random_uuid, random_hex, find_tenant_by_key, find_tenant_by_name,
  create_tenant,
}
use troofai_mvp.Auth.{can_activate, ensure_demo_tenant, new_demo_tenant}
use troofai_mvp.Auth.Tenants.{can_activate_sound}
use troofai_mvp.Challenge.Signing.{signed_material_injective}
use troofai_mvp.Memory.{memory}
use troofai_mvp.Memory.Rows.{list_table, find, many, first, insert, without}
use troofai_mvp.Memory.Texts.{bits, bits_from}
use troofai_mvp.Examples.{hub, acme}

hub-can_activate : can_activate memory (some "key") hub ≡ (ok (true, acme), hub)
unfolding can_activate find_tenant_by_key hub memory list_table many first without
hub-can_activate = refl

can_activate_sound_example :
    (true ≡ true)
    × (truthy (some "key") ≡ some acme.api_key)
    × (memory.tenants.find_unique "acme" hub.tenants ≡ some acme)
    × (hub ≡ hub)
can_activate_sound_example =
    can_activate_sound memory (some "key") true acme hub hub hub-can_activate

with_demo : World memory
with_demo = (ensure_demo_tenant memory hub).1

abbrev demo : Tenant
demo = record {
  id = "uuid1";
  name = "TroofAI Demo";
  api_key = "troofai-demo-hex";
  created_at = 1000000;
}

with_demo-ensure_demo_tenant : ensure_demo_tenant memory hub ≡ (ok demo, with_demo)
unfolding with_demo ensure_demo_tenant new_demo_tenant find_tenant_by_name create_tenant now
    random_uuid random_hex hub memory list_table many first without find insert bits bits_from
with_demo-ensure_demo_tenant = refl

abbrev sample : StoredChallenge
sample = record {
  payload = record {
    challenge_id = "c1";
    nonce = "n1";
    meeting_id = "standup";
    participant_id = "ana";
    issued_at = "0";
    expires_at = "1";
  };
  tenant_id = "acme";
  device_id = "laptop";
  user_id = "ana";
}

signed_material_injective_example : sample ≡ sample
signed_material_injective_example =
    signed_material_injective sample sample (ground arith) (ground arith) refl
