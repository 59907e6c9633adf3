-- ===== src/Audit/Entry.antt =====
-- How a call of `log` of services/hub-api/src/audit/audit.service.ts ends.
use troofai_mvp.Prelude.{suc, ◌≡◌, refl, Bool, some, Option-cases, Bool-cases, arith, ◌⊎◌, inl, inr}
use troofai_mvp.Platform.{Platform}
use troofai_mvp.Exec.{Exception, ok, thrown, unique_violated, foreign_key_violated}
use troofai_mvp.World.{World, has_tenant, has_meeting, both, truthy}
use troofai_mvp.Audit.{AuditLogInput, new_event, log}

module _ (p : Platform) (w : World p) where
  -- The state after a `log` that has written.
  abbrev pub logged : p.audit_events.Rows → World p
  logged rows = record w { audit_events = rows; readings = suc w.readings; draws = suc w.draws }

  -- The foreign keys of the row.
  abbrev is_linked : AuditLogInput → Bool
  is_linked input =
      both p (has_tenant p w input.tenant_id) (has_meeting p w (truthy input.meeting_id))

  pub log_cases :
      (input : AuditLogInput)
      → ((rows : p.audit_events.Rows) × (p.audit_events.create (new_event p w input) w.audit_events
            ≡ some rows)
          × (log p input w ≡ (ok (new_event p w input), logged rows)))
        ⊎ ((x : Exception) × ((x ≡ unique_violated) ⊎ (x ≡ foreign_key_violated))
            × (log p input w ≡ (thrown x, logged w.audit_events)))
  unfolding log
  log_cases input =
      elim (Option-cases (p.audit_events.create (new_event p w input) w.audit_events)) [
        | inl taken ↦ inr (unique_violated, inl refl, rw taken)
        | inr (rows, done) ↦ elim (Bool-cases (is_linked input)) [
          | inl linked ↦ inl (rows, done, ground (arith, done, linked))
          | inr loose ↦ inr (foreign_key_violated, inr refl, ground (arith, done, loose))
        ]
      ]
