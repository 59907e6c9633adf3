-- ===== src/World/Calls.antt =====
-- How the calls of the database in services/hub-api end.
use troofai_mvp.Prelude.{
  true, arith, ◌≡◌, String, ◌⊎◌, inl, inr, some, Option-cases, Bool-cases, ◌==◌,
}
use troofai_mvp.Schema.{Tenant, Meeting, MeetingParticipant, Device, AuditEvent}
use troofai_mvp.Platform.{Platform}
use troofai_mvp.Exec.{Exception, ok, thrown, record_missing, unique_violated, foreign_key_violated}
use troofai_mvp.World.{
  World, is_some, has_tenant, has_meeting, update_participant, update_device, create_tenant,
  create_device, create_meeting, create_participant, create_audit_event,
}

module _ (p : Platform) (w : World p) where
  pub update_participant_cases :
      (id : String) (f : MeetingParticipant → MeetingParticipant)
      → ((r : MeetingParticipant) × (rows : p.participants.Rows) × (p.participants.update id f
              w.participants
            ≡ some (r, rows))
          × (update_participant p id f w ≡ (ok r, record w { participants = rows })))
        ⊎ (update_participant p id f w ≡ (thrown record_missing, w))
  unfolding update_participant
  update_participant_cases id f = elim (Option-cases (p.participants.update id f w.participants)) [
    | inl missing ↦ inr (rw missing)
    | inr (a, done) ↦ inl (a.0, a.1, done, rw done)
  ]

  pub update_device_cases :
      (id : String) (f : Device → Device)
      → ((r : Device) × (rows : p.devices.Rows) × (p.devices.update id f w.devices ≡ some (r, rows))
          × (update_device p id f w ≡ (ok r, record w { devices = rows })))
        ⊎ (update_device p id f w ≡ (thrown record_missing, w))
  unfolding update_device
  update_device_cases id f = elim (Option-cases (p.devices.update id f w.devices)) [
    | inl missing ↦ inr (rw missing)
    | inr (a, done) ↦ inl (a.0, a.1, done, rw done)
  ]

module _ (p : Platform) where
  -- A row that was updated was there, and has been patched.
  pub update_participant_found :
      (id : String) (f : MeetingParticipant → MeetingParticipant) (t : p.participants.Rows)
      (r : MeetingParticipant) (t' : p.participants.Rows)
      → p.participants.update id f t ≡ some (r, t')
      → (old : MeetingParticipant) × (p.participants.find_unique id t ≡ some old) × (r ≡ f old)
  update_participant_found id f t r t' e = elim (Option-cases (p.participants.find_unique id t)) [
    | inl missing ↦ absurd (ground (arith, p.participants.update_missing id f t missing))
    | inr (old, there) ↦
        let (t'', done) = p.participants.update_found id f old t there in
        (old, there, ground (arith, done))
  ]

module _ (p : Platform) (w : World p) where
  pub create_tenant_cases :
      (r : Tenant)
      → ((rows : p.tenants.Rows) × (p.tenants.create r w.tenants ≡ some rows)
          × (create_tenant p r w ≡ (ok r, record w { tenants = rows })))
        ⊎ ((x : Exception) × (create_tenant p r w ≡ (thrown x, w)))
  unfolding create_tenant
  create_tenant_cases r =
      elim (Bool-cases (is_some (p.tenants.find_first (λ t. t.api_key == r.api_key) w.tenants))) [
        | inl used ↦ inr (unique_violated, ground (arith, used))
        | inr unused ↦ elim (Option-cases (p.tenants.create r w.tenants)) [
          | inl taken ↦ inr (unique_violated, ground (arith, unused, taken))
          | inr (rows, done) ↦ inl (rows, done, ground (arith, unused, done))
        ]
      ]

  pub create_device_cases :
      (r : Device)
      → ((rows : p.devices.Rows) × (p.devices.create r w.devices ≡ some rows)
          × (has_tenant p w r.tenant_id ≡ true)
          × (create_device p r w ≡ (ok r, record w { devices = rows })))
        ⊎ ((x : Exception) × (create_device p r w ≡ (thrown x, w)))
  unfolding create_device
  create_device_cases r = elim (Option-cases (p.devices.create r w.devices)) [
    | inl taken ↦ inr (unique_violated, rw taken)
    | inr (rows, done) ↦ elim (Bool-cases (has_tenant p w r.tenant_id)) [
      | inl known ↦ inl (rows, done, known, ground (arith, done, known))
      | inr stray ↦ inr (foreign_key_violated, ground (arith, done, stray))
    ]
  ]

  pub create_meeting_cases :
      (r : Meeting)
      → ((rows : p.meetings.Rows) × (p.meetings.create r w.meetings ≡ some rows)
          × (has_tenant p w r.tenant_id ≡ true)
          × (create_meeting p r w ≡ (ok r, record w { meetings = rows })))
        ⊎ ((x : Exception) × (create_meeting p r w ≡ (thrown x, w)))
  unfolding create_meeting
  create_meeting_cases r = elim (Option-cases (p.meetings.create r w.meetings)) [
    | inl taken ↦ inr (unique_violated, rw taken)
    | inr (rows, done) ↦ elim (Bool-cases (has_tenant p w r.tenant_id)) [
      | inl known ↦ inl (rows, done, known, ground (arith, done, known))
      | inr stray ↦ inr (foreign_key_violated, ground (arith, done, stray))
    ]
  ]

  pub create_participant_cases :
      (r : MeetingParticipant)
      → ((rows : p.participants.Rows) × (p.participants.create r w.participants ≡ some rows)
          × (has_meeting p w (some r.meeting_id) ≡ true)
          × (create_participant p r w ≡ (ok r, record w { participants = rows })))
        ⊎ ((x : Exception) × (create_participant p r w ≡ (thrown x, w)))
  unfolding create_participant
  create_participant_cases r = elim (Option-cases (p.participants.create r w.participants)) [
    | inl taken ↦ inr (unique_violated, rw taken)
    | inr (rows, done) ↦ elim (Bool-cases (has_meeting p w (some r.meeting_id))) [
      | inl known ↦ inl (rows, done, known, ground (arith, done, known))
      | inr stray ↦ inr (foreign_key_violated, ground (arith, done, stray))
    ]
  ]

  pub create_audit_event_cases :
      (r : AuditEvent)
      → ((rows : p.audit_events.Rows) × (p.audit_events.create r w.audit_events ≡ some rows)
          × (has_tenant p w r.tenant_id ≡ true)
          × (has_meeting p w r.meeting_id ≡ true)
          × (create_audit_event p r w ≡ (ok r, record w { audit_events = rows })))
        ⊎ ((x : Exception) × (create_audit_event p r w ≡ (thrown x, w)))
  unfolding create_audit_event
  create_audit_event_cases r = elim (Option-cases (p.audit_events.create r w.audit_events)) [
    | inl taken ↦ inr (unique_violated, rw taken)
    | inr (rows, done) ↦ elim (Bool-cases (has_tenant p w r.tenant_id)) [
      | inr stray ↦ inr (foreign_key_violated, ground (arith, done, stray))
      | inl known ↦ elim (Bool-cases (has_meeting p w r.meeting_id)) [
        | inl there ↦ inl (rows, done, known, there, ground (arith, done, known, there))
        | inr loose ↦ inr (foreign_key_violated, ground (arith, done, known, loose))
      ]
    ]
  ]
