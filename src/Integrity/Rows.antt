-- ===== src/Integrity/Rows.antt =====
-- Calls of services/hub-api that write a row.
use troofai_mvp.Prelude.{◌≤◌, String, ◌≡◌, refl, ap, true, Option, none, some, arith, inl, inr, ◌⊎◌}
use troofai_mvp.Schema.{Device, Meeting, MeetingParticipant, AuditEvent}
use troofai_mvp.Platform.{Platform}
use troofai_mvp.World.{World, is_some, has_tenant, has_meeting}
use troofai_mvp.Integrity.{IsSound, Extends, HasDevice, IsLinked}

is_some-some {ℓ} : {A : Type ℓ} (o : Option A) (a : A) → o ≡ some a → is_some o ≡ true
is_some-some o a e = ap is_some e

some_of_is_some {ℓ} : {A : Type ℓ} (o : Option A) → is_some o ≡ true → (a : A) × (o ≡ some a)
some_of_is_some none h = absurd (ground arith)
some_of_is_some (some a) h = (a, refl)

module _ (p : Platform) where
  -- References that led somewhere still do.
  pub has_tenant-Extends :
      (v w : World p)
      → Extends p v w
      → (id : String) → has_tenant p v id ≡ true
      → has_tenant p w id ≡ true
  has_tenant-Extends v w x id h =
      let (t, e) = some_of_is_some (p.tenants.find_unique id v.tenants) h in
      ap is_some (x.tenants id t e)

  pub has_meeting-Extends :
      (v w : World p)
      → Extends p v w
      → (id : Option String) → has_meeting p v id ≡ true
      → has_meeting p w id ≡ true
  has_meeting-Extends v w x none h = refl
  has_meeting-Extends v w x (some id) h =
      let (m, e) = some_of_is_some (p.meetings.find_unique id v.meetings) h in
      ap is_some (x.meetings id m e)

  pub has_device-Extends :
      (v w : World p)
      → Extends p v w
      → (id : String) → is_some (p.devices.find_unique id v.devices) ≡ true
      → is_some (p.devices.find_unique id w.devices) ≡ true
  has_device-Extends v w x id h =
      let (d, e) = some_of_is_some (p.devices.find_unique id v.devices) h in
      let (d', e', _) = x.devices id d e in ap is_some e'

  pub HasDevice-Extends :
      (v w : World p) → Extends p v w → (id : String) → HasDevice p v id → HasDevice p w id
  HasDevice-Extends v w x id h =
      let (r, found, s) = x.participants id h.row h.found in
      record { row = r; found = found; bound = s.bound h.bound }

  pub IsLinked-Extends :
      (v w : World p) → Extends p v w → (r : MeetingParticipant) → IsLinked p v r → IsLinked p w r
  IsLinked-Extends v w x r l = record {
    meeting = has_meeting-Extends v w x (some r.meeting_id) l.meeting;
    device = λ id e. has_device-Extends v w x id (l.device id e);
    trusted = l.trusted;
  }

  -- A later state is sound if its new rows are linked and it holds no new challenge.
  pub grow :
      (v w : World p)
      → IsSound p v
      → Extends p v w
      → w.redis ≡ v.redis
      → ((k : String) (d : Device)
          → p.devices.find_unique k w.devices ≡ some d
          → (p.devices.find_unique k v.devices ≡ some d) ⊎ (has_tenant p w d.tenant_id ≡ true))
      → ((k : String) (m : Meeting)
          → p.meetings.find_unique k w.meetings ≡ some m
          → (p.meetings.find_unique k v.meetings ≡ some m) ⊎ (has_tenant p w m.tenant_id ≡ true))
      → ((k : String) (r : MeetingParticipant)
          → p.participants.find_unique k w.participants ≡ some r
          → (p.participants.find_unique k v.participants ≡ some r) ⊎ IsLinked p w r)
      → ((k : String) (e : AuditEvent)
          → p.audit_events.find_unique k w.audit_events ≡ some e
          → (p.audit_events.find_unique k v.audit_events ≡ some e)
            ⊎ ((has_tenant p w e.tenant_id ≡ true) × (has_meeting p w e.meeting_id ≡ true)))
      → p.clock v.readings ≤ p.clock w.readings
      → IsSound p w × Extends p v w
  grow v w s x redis ds ms rs es later = (
    record {
      devices = λ k d h. elim (ds k d h) [
        | inl old ↦ has_tenant-Extends v w x d.tenant_id (s.devices k d old)
        | inr new ↦ new
      ];
      meetings = λ k m h. elim (ms k m h) [
        | inl old ↦ has_tenant-Extends v w x m.tenant_id (s.meetings k m old)
        | inr new ↦ new
      ];
      participants = λ k r h. elim (rs k r h) [
        | inl old ↦ IsLinked-Extends v w x r (s.participants k r old)
        | inr new ↦ new
      ];
      events = λ k e h. elim (es k e h) [
        | inl old ↦
            let (t, m) = s.events k e old in
            (has_tenant-Extends v w x e.tenant_id t, has_meeting-Extends v w x e.meeting_id m)
        | inr new ↦ new
      ];
      challenges = λ t id json c after held parsed.
          HasDevice-Extends v w x c.payload.participant_id
            (s.challenges t id json c (omega (arith, later, after)) (rw (← redis) held) parsed);
    },
    x,
  )
