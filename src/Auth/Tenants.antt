-- ===== src/Auth/Tenants.antt =====
-- The guard and the demo tenant of services/hub-api/src/auth against the table of tenants.
use Prim.Native.String
use troofai_mvp.Prelude.{
  suc, String, ◌≡◌, refl, ◌∙◌, ap, Bool, true, Option, none, some, arith, ◌==◌, eq_refl,
  Option-cases, Bool-cases, inl, inr, eq_iff,
}
use troofai_mvp.Schema.{Tenant}
use troofai_mvp.Platform.{Platform}
use troofai_mvp.Exec.{ok}
use troofai_mvp.World.{
  World, truthy, now, random_uuid, random_hex, find_tenant_by_key, find_tenant_by_name,
  create_tenant,
}
use troofai_mvp.Auth.{can_activate, new_demo_tenant, ensure_demo_tenant, demo_name}

module _ (p : Platform) where
  -- A request that passes the guard carried a key that is not empty, the tenant attached to it is
  -- stored and has that key, and the guard has changed nothing.
  pub can_activate_sound :
      (header : Option String) (b : Bool) (t : Tenant) (w w' : World p)
      → can_activate p header w ≡ (ok (b, t), w')
      → (b ≡ true)
        × (truthy header ≡ some t.api_key)
        × (p.tenants.find_unique t.id w.tenants ≡ some t)
        × (w' ≡ w)
  unfolding can_activate find_tenant_by_key
  can_activate_sound header b t w w' e = elim (Option-cases (truthy header)) [
    | inl missing ↦ absurd (ground (arith, missing))
    | inr (key, given) ↦
        elim (Option-cases (p.tenants.find_first (λ r. r.api_key == key) w.tenants)) [
          | inl stranger ↦ absurd (ground (arith, given, stranger))
          | inr (r, found) ↦
              let same : r ≡ t = ground (arith, given, found) in
              let (stored, has_key) =
                p.tenants.find_first_sound (λ r. r.api_key == key) r w.tenants found in
              (
                ground (arith, given, found),
                given ∙ ap some (ground (arith, same, has_key, eq_iff r.api_key key)),
                rw (← same) stored,
                ground (arith, given, found),
              )
        ]
  ]

  abbrev is_demo : Tenant → Bool
  is_demo r = r.name == demo_name

  -- A demo tenant that has just been stored where there was none is the one that is found.
  found_after_create :
      (t : Tenant) (old new : p.tenants.Rows)
      → t.name ≡ demo_name
      → p.tenants.find_first is_demo old ≡ none
      → p.tenants.create t old ≡ some new
      → p.tenants.find_first is_demo new ≡ some t
  found_after_create t old new named absent created =
      elim (Option-cases (p.tenants.find_first is_demo new)) [
        | inl missed ↦
            let stored = p.tenants.find-create t old new t.id created in
            let demo : is_demo t ≡ true = ap (λ n. n == demo_name) named ∙ eq_refl demo_name in
            let other =
              p.tenants.find_first_complete is_demo t.id t new missed
                (stored ∙ rw (eq_refl t.id) refl) in
            absurd (ground (arith, demo, other))
        | inr (r, found) ↦
            let (there, demo) = p.tenants.find_first_sound is_demo r new found in
            let stored = p.tenants.find-create t old new r.id created in
            elim (Bool-cases (t.id == r.id)) [
              | inl hit ↦ ground (arith, found, there, stored, hit)
              | inr miss ↦
                  let before : p.tenants.find_unique r.id old ≡ some r =
                    ground (arith, there, stored, miss) in
                  absurd (
                    ground
                      (arith, demo, p.tenants.find_first_complete is_demo r.id r old absent before))
            ]
      ]

  -- When the demo tenant has been ensured, ensuring it again returns the same tenant and changes
  -- nothing: there is only ever one.
  pub ensure_demo_tenant_once :
      (t : Tenant) (w w' : World p)
      → ensure_demo_tenant p w ≡ (ok t, w')
      → ensure_demo_tenant p w' ≡ (ok t, w')
  unfolding ensure_demo_tenant find_tenant_by_name new_demo_tenant now random_uuid random_hex
      create_tenant
  ensure_demo_tenant_once t w w' e =
      elim (Option-cases (p.tenants.find_first (λ r. r.name == demo_name) w.tenants)) [
        | inr (r, there) ↦ ground (arith, there)
        | inl absent ↦
            let row : Tenant = record {
              id = p.uuid (suc w.draws);
              name = demo_name;
              api_key = String.◌++◌ "troofai-demo-" (p.random_hex 16 w.draws);
              created_at = p.clock w.readings;
            } in
            elim (Option-cases (p.tenants.create row w.tenants)) [
              | inl taken ↦ absurd (ground (arith, absent, taken))
              | inr (rows, created) ↦
                  let same : t ≡ row = ground (arith, absent, created) in
                  let stored : w'.tenants ≡ rows = ground (arith, absent, created) in
                  let found = found_after_create row w.tenants rows refl absent created in
                  ground (arith, found, stored, same)
            ]
      ]
