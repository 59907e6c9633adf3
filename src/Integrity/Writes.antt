-- ===== src/Integrity/Writes.antt =====
-- A created row: what the calls of services/hub-api that create leave of a state.
use mathlib.Core.Path.{subst}
use troofai_mvp.Prelude.{
  String, ◌≡◌, refl, sym, true, none, some, arith, ◌==◌, eq_iff, Bool-cases, inl, inr, ◌⊎◌,
}
use troofai_mvp.Schema.{Tenant, Device, Meeting, MeetingParticipant, AuditEvent, verified}
use troofai_mvp.Platform.{Platform, Table}
use troofai_mvp.Exec.{Result, ok, thrown}
use troofai_mvp.World.{
  World, Hub, create_tenant, create_device, create_meeting, create_participant, create_audit_event,
}
use troofai_mvp.World.Calls.{
  create_tenant_cases, create_device_cases, create_meeting_cases, create_participant_cases,
  create_audit_event_cases,
}
use troofai_mvp.Integrity.{IsSound, Extends, Extends-refl, Keeps, IsLinked}
use troofai_mvp.Integrity.Rows.{grow}

pub eq_text : (a b : String) → (a == b) ≡ true → a ≡ b
eq_text a b h = ground (arith, eq_iff a b)

module _ {Row : Type 0} {id : Row → String} (T : Table Row id) where
  find-create_old :
      (r x : Row) (k : String) (t t' : T.Rows)
      → T.create r t ≡ some t'
      → T.find_unique k t ≡ some x
      → T.find_unique k t' ≡ some x
  find-create_old r x k t t' done old = elim (Bool-cases (id r == k)) [
    | inl hit ↦ absurd (ground (arith, T.create_taken r t t' done, eq_iff (id r) k, hit, old))
    | inr miss ↦ ground (arith, T.find-create r t t' k done, miss, old)
  ]

  find-create_new :
      (r x : Row) (k : String) (t t' : T.Rows)
      → T.create r t ≡ some t'
      → T.find_unique k t' ≡ some x
      → (T.find_unique k t ≡ some x) ⊎ (r ≡ x)
  find-create_new r x k t t' done found = elim (Bool-cases (id r == k)) [
    | inl hit ↦ inr (ground (arith, T.find-create r t t' k done, hit, found))
    | inr miss ↦ inl (ground (arith, T.find-create r t t' k done, miss, found))
  ]

module _ (p : Platform) where
  -- An action whose result is known.
  pub Keeps-call :
      {A : Type 0} (m : Hub p A) (w v : World p) (r : Result A)
      → m w ≡ (r, v)
      → (IsSound p w → IsSound p v × Extends p w v)
      → Keeps p m w
  Keeps-call {A} m w v r e k = record {
    at = λ s. subst (λ (q : Result A × World p). IsSound p q.1 × Extends p w q.1) (sym e) (k s);
  }

  pub Keeps-create_tenant : (r : Tenant) (w : World p) → Keeps p (create_tenant p r) w
  Keeps-create_tenant r w = elim (create_tenant_cases p w r) [
    | inr (x, call) ↦
        Keeps-call (create_tenant p r) w w (thrown x) call (λ s. (s, Extends-refl p w))
    | inl (rows, done, call) ↦
        Keeps-call (create_tenant p r) w (record w { tenants = rows }) (ok r) call
          λ s.
            grow p w (record w { tenants = rows }) s
              (record {
                clock = omega arith;
                tenants = λ k x h. find-create_old p.tenants r x k w.tenants rows done h;
                meetings = λ k x h. h;
                events = λ k x h. h;
                devices = (Extends-refl p w).devices;
                participants = (Extends-refl p w).participants;
              })
              refl (λ k x h. inl h) (λ k x h. inl h) (λ k x h. inl h) (λ k x h. inl h) (omega arith)
  ]

  pub Keeps-create_device : (r : Device) (w : World p) → Keeps p (create_device p r) w
  Keeps-create_device r w = elim (create_device_cases p w r) [
    | inr (x, call) ↦
        Keeps-call (create_device p r) w w (thrown x) call (λ s. (s, Extends-refl p w))
    | inl (rows, done, linked, call) ↦
        Keeps-call (create_device p r) w (record w { devices = rows }) (ok r) call
          λ s.
            grow p w (record w { devices = rows }) s
              (record {
                clock = omega arith;
                tenants = λ k x h. h;
                meetings = λ k x h. h;
                events = λ k x h. h;
                devices = λ k x h. (
                  x,
                  find-create_old p.devices r x k w.devices rows done h,
                  record { tenant = refl; user = refl; name = refl; enrolled = refl },
                );
                participants = (Extends-refl p w).participants;
              })
              refl
              (λ k x h. elim (find-create_new p.devices r x k w.devices rows done h) [
                | inl old ↦ inl old
                | inr new ↦ inr (rw (← new) linked)
              ])
              (λ k x h. inl h) (λ k x h. inl h) (λ k x h. inl h) (omega arith)
  ]

  pub Keeps-create_meeting : (r : Meeting) (w : World p) → Keeps p (create_meeting p r) w
  Keeps-create_meeting r w = elim (create_meeting_cases p w r) [
    | inr (x, call) ↦
        Keeps-call (create_meeting p r) w w (thrown x) call (λ s. (s, Extends-refl p w))
    | inl (rows, done, linked, call) ↦
        Keeps-call (create_meeting p r) w (record w { meetings = rows }) (ok r) call
          λ s.
            grow p w (record w { meetings = rows }) s
              (record {
                clock = omega arith;
                tenants = λ k x h. h;
                meetings = λ k x h. find-create_old p.meetings r x k w.meetings rows done h;
                events = λ k x h. h;
                devices = (Extends-refl p w).devices;
                participants = (Extends-refl p w).participants;
              })
              refl (λ k x h. inl h)
              (λ k x h. elim (find-create_new p.meetings r x k w.meetings rows done h) [
                | inl old ↦ inl old
                | inr new ↦ inr (rw (← new) linked)
              ])
              (λ k x h. inl h) (λ k x h. inl h) (omega arith)
  ]

  -- A new participant has no device, and is not VERIFIED.
  pub Keeps-create_participant :
      (r : MeetingParticipant) (w : World p)
      → r.device_id ≡ none
      → (r.trust_status ≡ verified → ⊥)
      → Keeps p (create_participant p r) w
  Keeps-create_participant r w free new_comer = elim (create_participant_cases p w r) [
    | inr (x, call) ↦
        Keeps-call (create_participant p r) w w (thrown x) call (λ s. (s, Extends-refl p w))
    | inl (rows, done, linked, call) ↦
        Keeps-call (create_participant p r) w (record w { participants = rows }) (ok r) call
          λ s.
            grow p w (record w { participants = rows }) s
              (record {
                clock = omega arith;
                tenants = λ k x h. h;
                meetings = λ k x h. h;
                events = λ k x h. h;
                devices = (Extends-refl p w).devices;
                participants = λ k x h. (
                  x,
                  find-create_old p.participants r x k w.participants rows done h,
                  record {
                    meeting = refl;
                    user = refl;
                    name = refl;
                    joined = refl;
                    bound = λ b. b;
                  },
                );
              })
              refl (λ k x h. inl h) (λ k x h. inl h)
              (λ k x h. elim (find-create_new p.participants r x k w.participants rows done h) [
                | inl old ↦ inl old
                | inr new ↦ inr (
                    subst (IsLinked p (record w { participants = rows })) new (record {
                      meeting = linked;
                      device = λ d e. absurd (ground (arith, free, e));
                      trusted = λ v. absurd (new_comer v);
                    }))
              ])
              (λ k x h. inl h) (omega arith)
  ]

  pub Keeps-create_audit_event : (r : AuditEvent) (w : World p) → Keeps p (create_audit_event p r) w
  Keeps-create_audit_event r w = elim (create_audit_event_cases p w r) [
    | inr (x, call) ↦
        Keeps-call (create_audit_event p r) w w (thrown x) call (λ s. (s, Extends-refl p w))
    | inl (rows, done, tenant, meeting, call) ↦
        Keeps-call (create_audit_event p r) w (record w { audit_events = rows }) (ok r) call
          λ s.
            grow p w (record w { audit_events = rows }) s
              (record {
                clock = omega arith;
                tenants = λ k x h. h;
                meetings = λ k x h. h;
                events = λ k x h. find-create_old p.audit_events r x k w.audit_events rows done h;
                devices = (Extends-refl p w).devices;
                participants = (Extends-refl p w).participants;
              })
              refl (λ k x h. inl h) (λ k x h. inl h) (λ k x h. inl h)
              (λ k x h. elim (find-create_new p.audit_events r x k w.audit_events rows done h) [
                | inl old ↦ inl old
                | inr new ↦ inr (rw (← new) tenant, rw (← new) meeting)
              ])
              (omega arith)
  ]
