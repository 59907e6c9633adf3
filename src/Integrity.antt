-- ===== src/Integrity.antt =====
-- The state of services/hub-api as a whole: the references between its tables and the entries of Redis,
-- what never changes from one state to a later one, and rules for sequences of calls.
pub mod Quiet
pub mod Rows
pub mod Writes
pub mod Updates
pub mod Services
pub mod Bindings
pub mod Challenges
pub mod Issuing
use troofai_mvp.Prelude.{ℕ, ◌≤◌, String, ◌≡◌, refl, ◌∙◌, Bool, true, false, Option, some, arith}
use troofai_mvp.Schema.{Tenant, Device, Meeting, MeetingParticipant, AuditEvent, verified}
use troofai_mvp.Platform.{Platform, StoredChallenge}
use troofai_mvp.Exec.{Result, ok, thrown, Exception, continue, ◌>>=◌}
use troofai_mvp.World.{World, Hub, is_some, has_tenant, has_meeting}
use troofai_mvp.Challenge.{challenge_key}

-- What stays of a device: its owner, its name and its date.
pub record IsSameDevice (d d' : Device) : Type 0 where
  pub tenant : d'.tenant_id ≡ d.tenant_id
  pub user : d'.user_id ≡ d.user_id
  pub name : d'.display_name ≡ d.display_name
  pub enrolled : d'.enrolled_at ≡ d.enrolled_at

-- What stays of a participant: its meeting, its user, its name, its date, and that it has a device.
pub record IsSameParticipant (r r' : MeetingParticipant) : Type 0 where
  pub meeting : r'.meeting_id ≡ r.meeting_id
  pub user : r'.user_id ≡ r.user_id
  pub name : r'.display_name ≡ r.display_name
  pub joined : r'.joined_at ≡ r.joined_at
  pub bound : is_some r.device_id ≡ true → is_some r'.device_id ≡ true

module _ (p : Platform) where
  -- A state and a later one: no row has gone, tenants, meetings and events are what they were, and of a
  -- device and a participant has stayed what stays.
  pub record Extends (w w' : World p) : Type 0 where
    pub clock : w.readings ≤ w'.readings
    pub tenants :
        (k : String) (r : Tenant)
        → p.tenants.find_unique k w.tenants ≡ some r
        → p.tenants.find_unique k w'.tenants ≡ some r
    pub meetings :
        (k : String) (r : Meeting)
        → p.meetings.find_unique k w.meetings ≡ some r
        → p.meetings.find_unique k w'.meetings ≡ some r
    pub events :
        (k : String) (r : AuditEvent)
        → p.audit_events.find_unique k w.audit_events ≡ some r
        → p.audit_events.find_unique k w'.audit_events ≡ some r
    pub devices :
        (k : String) (d : Device)
        → p.devices.find_unique k w.devices ≡ some d
        → (d' : Device) × (p.devices.find_unique k w'.devices ≡ some d') × IsSameDevice d d'
    pub participants :
        (k : String) (r : MeetingParticipant)
        → p.participants.find_unique k w.participants ≡ some r
        → (r' : MeetingParticipant) × (p.participants.find_unique k w'.participants ≡ some r')
          × IsSameParticipant r r'

  -- A participant's row refers to a meeting and a device that are there, and VERIFIED is only who has
  -- a device.
  pub record IsLinked (w : World p) (r : MeetingParticipant) : Type 0 where
    pub meeting : has_meeting p w (some r.meeting_id) ≡ true
    pub device :
        (id : String) → r.device_id ≡ some id → is_some (p.devices.find_unique id w.devices) ≡ true
    pub trusted : r.trust_status ≡ verified → is_some r.device_id ≡ true

  -- A participant that is there and has a device.
  pub record HasDevice (w : World p) (id : String) : Type 0 where
    pub row : MeetingParticipant
    pub found : p.participants.find_unique id w.participants ≡ some row
    pub bound : is_some row.device_id ≡ true

  -- Every reference leads somewhere, and a challenge is held only for a participant with a device.
  pub record IsSound (w : World p) : Type 0 where
    pub devices :
        (k : String) (d : Device)
        → p.devices.find_unique k w.devices ≡ some d
        → has_tenant p w d.tenant_id ≡ true
    pub meetings :
        (k : String) (m : Meeting)
        → p.meetings.find_unique k w.meetings ≡ some m
        → has_tenant p w m.tenant_id ≡ true
    pub participants :
        (k : String) (r : MeetingParticipant)
        → p.participants.find_unique k w.participants ≡ some r
        → IsLinked w r
    pub events :
        (k : String) (e : AuditEvent)
        → p.audit_events.find_unique k w.audit_events ≡ some e
        → (has_tenant p w e.tenant_id ≡ true) × (has_meeting p w e.meeting_id ≡ true)
    pub challenges :
        (t : ℕ) (id json : String) (c : StoredChallenge)
        → p.clock w.readings ≤ t
        → p.redis.get t (challenge_key id) w.redis ≡ some json
        → p.challenge_json.parse json ≡ some c
        → HasDevice w c.payload.participant_id

  -- An action keeps a state sound and extends it, whether it returns or throws.
  pub record Keeps {A : Type 0} (m : Hub p A) (w : World p) : Type 0 where
    pub at : IsSound w → IsSound (m w).1 × Extends w (m w).1

  pub Extends-refl : (w : World p) → Extends w w
  Extends-refl w = record {
    clock = omega arith;
    tenants = λ k r h. h;
    meetings = λ k r h. h;
    events = λ k r h. h;
    devices = λ k d h. (d, h, record { tenant = refl; user = refl; name = refl; enrolled = refl });
    participants = λ k r h.
        (r, h, record { meeting = refl; user = refl; name = refl; joined = refl; bound = λ b. b });
  }

  pub Extends-trans : (u v w : World p) → Extends u v → Extends v w → Extends u w
  Extends-trans u v w e f = record {
    clock = omega (arith, e.clock, f.clock);
    tenants = λ k r h. f.tenants k r (e.tenants k r h);
    meetings = λ k r h. f.meetings k r (e.meetings k r h);
    events = λ k r h. f.events k r (e.events k r h);
    devices = λ k d h.
        let (d', h', s) = e.devices k d h in
        let (d'', h'', s') = f.devices k d' h' in
        (
          d'',
          h'',
          record {
            tenant = s'.tenant ∙ s.tenant;
            user = s'.user ∙ s.user;
            name = s'.name ∙ s.name;
            enrolled = s'.enrolled ∙ s.enrolled;
          },
        );
    participants = λ k r h.
        let (r', h', s) = e.participants k r h in
        let (r'', h'', s') = f.participants k r' h' in
        (
          r'',
          h'',
          record {
            meeting = s'.meeting ∙ s.meeting;
            user = s'.user ∙ s.user;
            name = s'.name ∙ s.name;
            joined = s'.joined ∙ s.joined;
            bound = λ b. s'.bound (s.bound b);
          },
        );
  }

  -- The rest of a sequence runs in the state that its first call has left, if that returned.
  pub Keeps-bind :
      {A B : Type 0} (m : Hub p A) (f : A → Hub p B) (w : World p)
      → Keeps m w
      → ((a : A) (v : World p) → m w ≡ (ok a, v) → Extends w v → Keeps (f a) v)
      → Keeps (m >>= f) w
  Keeps-bind {A} {B} m f w km kf = record { at = λ s. go (m w).0 (m w).1 refl (km.at s) }
    where
      go :
          (r : Result A) (v : World p)
          → m w ≡ (r, v)
          → IsSound v × Extends w v
          → IsSound (continue r f v).1 × Extends w (continue r f v).1
      go (thrown x) v e k = k
      go (ok a) v e (s, x) =
          let (s', x') = (kf a v e x).at s in (s', Extends-trans w v (f a v).1 x x')
