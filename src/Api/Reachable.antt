-- ===== src/Api/Reachable.antt =====
-- What holds in every state that services/hub-api comes to.
use troofai_mvp.Prelude.{ℕ, String, ◌≡◌, refl, true, Option, none, some, List, arith}
use mathlib.Core.List.{Memᴰ}
use troofai_mvp.Schema.{Tenant, Device, MeetingParticipant, AuditEvent, verified}
use troofai_mvp.Platform.{Platform}
use troofai_mvp.World.{World, is_some, redis_get}
use troofai_mvp.Exec.{ok}
use troofai_mvp.Challenge.{challenge_key}
use troofai_mvp.Audit.{get_by_meeting}
use troofai_mvp.Audit.Trail.{get_by_meeting_lem}
use troofai_mvp.Integrity.{IsSound, Extends, Extends-refl, Extends-trans}
use troofai_mvp.Integrity.Quiet.{Keeps-redis_get}
use troofai_mvp.Integrity.Bindings.{Keeps-after_token}
use troofai_mvp.Meeting.{token_key}
use troofai_mvp.Integrity.Challenges.{Keeps-after_fetch}
use troofai_mvp.Api.Requests.{Reachable, here, served, overtaken, overtaken_binding}
use troofai_mvp.Api.Serving.{Keeps-serve}

there : {A : Type 0} (o : Option A) → is_some o ≡ true → (a : A) × (o ≡ some a)
there none h = absurd (cc h)
there (some a) h = (a, refl)

module _ (p : Platform) where
  -- A hub that has stored nothing yet.
  pub record IsFresh (w : World p) : Type 0 where
    pub devices : (k : String) → p.devices.find_unique k w.devices ≡ none
    pub meetings : (k : String) → p.meetings.find_unique k w.meetings ≡ none
    pub participants : (k : String) → p.participants.find_unique k w.participants ≡ none
    pub events : (k : String) → p.audit_events.find_unique k w.audit_events ≡ none
    pub redis : (t : ℕ) (k : String) → p.redis.get t k w.redis ≡ none

  pub fresh-IsSound : (w : World p) → IsFresh w → IsSound p w
  fresh-IsSound w f = record {
    devices = λ k d e. absurd (ground (arith, e, f.devices k));
    meetings = λ k d e. absurd (ground (arith, e, f.meetings k));
    participants = λ k d e. absurd (ground (arith, e, f.participants k));
    events = λ k d e. absurd (ground (arith, e, f.events k));
    challenges =
        λ t id json c after e parsed. absurd (ground (arith, e, f.redis t (challenge_key id)));
  }

  fetched_IsSound :
      (k : String) (found : Option String) (w u : World p)
      → redis_get p k w ≡ (ok found, u)
      → IsSound p w
      → IsSound p u × Extends p w u
  fetched_IsSound k found w u e s = rw e at ((Keeps-redis_get p k w).at s)

  -- From a state whose references all lead somewhere, every state that is reached is such a state and
  -- extends it.
  pub reachable : (v w : World p) → IsSound p v → Reachable p v w → IsSound p w × Extends p v w
  reachable v w s (here _) = (s, Extends-refl p v)
  reachable v w s (served _ u r h) =
      let (s', x) = reachable v u s h in
      let (s'', y) = (Keeps-serve p r u).at s' in (s'', Extends-trans p v u _ x y)
  reachable v w s (overtaken _ t u u' cid did sig found h fetched k) =
      let (at_t, x) = reachable v t s h in
      let (at_u, y) = fetched_IsSound (challenge_key cid) found t u fetched at_t in
      let (later, z) = reachable u u' at_u k in
      let (at_w, last) =
        (Keeps-after_fetch p cid did sig found t u u' at_t fetched (Extends-trans p t u u' y z)).at
          later in
      (at_w, Extends-trans p v t _ x (Extends-trans p t u _ y (Extends-trans p u u' _ z last)))
  reachable v w s (overtaken_binding _ t u u' mid tok dev sig stored h fetched k) =
      let (at_t, x) = reachable v t s h in
      let (at_u, y) = fetched_IsSound (token_key tok) stored t u fetched at_t in
      let (later, z) = reachable u u' at_u k in
      let (at_w, last) = (Keeps-after_token p mid tok dev sig stored u').at later in
      (at_w, Extends-trans p v t _ x (Extends-trans p t u _ y (Extends-trans p u u' _ z last)))

  -- In every state that the hub comes to from a start without devices, meetings, participants, audit
  -- events and entries of Redis, whatever is requested and whichever responses and bindings are
  -- overtaken after they have read Redis: devices and meetings belong to a tenant that exists,
  -- participants to a meeting that exists, the device of a participant exists, events name a tenant and,
  -- if any, a meeting that exist, only a participant with a device is VERIFIED, and a challenge in Redis
  -- is for a participant with a device.
  pub Reachable-IsSound : (start w : World p) → IsFresh start → Reachable p start w → IsSound p w
  Reachable-IsSound start w f h = (reachable start w (fresh-IsSound start f) h).0

  -- Between two states that the hub comes to, one after the other, from a start without devices,
  -- meetings, participants, audit events and entries of Redis, nothing stored is undone: the clock does
  -- not go back, tenants, meetings and audit events stay as they are, a device keeps its tenant, user,
  -- name and date, a participant keeps its meeting, user, name and date, and one that has a device keeps
  -- having one.
  pub Reachable-Extends :
      (start v w : World p) → IsFresh start → Reachable p start v → Reachable p v w → Extends p v w
  Reachable-Extends start v w f h k = (reachable v w (Reachable-IsSound start v f h) k).1

  -- In a sound state a VERIFIED participant has a device, of a tenant.
  pub verified-device :
      (w : World p) (id : String) (r : MeetingParticipant)
      → IsSound p w
      → p.participants.find_unique id w.participants ≡ some r
      → r.trust_status ≡ verified
      → (device_id : String) × (d : Device) × (t : Tenant) × (r.device_id ≡ some device_id)
        × (p.devices.find_unique device_id w.devices ≡ some d)
        × (p.tenants.find_unique d.tenant_id w.tenants ≡ some t)
  verified-device w id r s found v =
      let l = s.participants id r found in
      let (device_id, has) = there r.device_id (l.trusted v) in
      let (d, stored) =
        there (p.devices.find_unique device_id w.devices) (l.device device_id has) in
      let (t, owner) =
        there (p.tenants.find_unique d.tenant_id w.tenants) (s.devices device_id d stored) in
      (device_id, d, t, has, stored, owner)

  -- In every state that the hub comes to from a start without devices, meetings, participants, audit
  -- events and entries of Redis, a participant whose status is VERIFIED has a device that is stored, of
  -- a tenant that is stored.
  pub verified_bound :
      (start w : World p) (id : String) (r : MeetingParticipant)
      → IsFresh start
      → Reachable p start w
      → p.participants.find_unique id w.participants ≡ some r
      → r.trust_status ≡ verified
      → (device_id : String) × (d : Device) × (t : Tenant) × (r.device_id ≡ some device_id)
        × (p.devices.find_unique device_id w.devices ≡ some d)
        × (p.tenants.find_unique d.tenant_id w.tenants ≡ some t)
  verified_bound start w id r f h found v =
      verified-device w id r (Reachable-IsSound start w f h) found v

  -- An audit event of a meeting that is stored in a state of the hub is in the meeting's audit trail in
  -- every later state, if the hub has started without devices, meetings, participants, audit events and
  -- entries of Redis.
  pub trail_kept :
      (start v w : World p) (mid k : String) (e : AuditEvent)
      → IsFresh start
      → Reachable p start v
      → Reachable p v w
      → p.audit_events.find_unique k v.audit_events ≡ some e
      → e.meeting_id ≡ some mid
      → (es : List AuditEvent) × (get_by_meeting p mid w ≡ (ok es, w)) × Memᴰ e es
  trail_kept start v w mid k e f h later stored of_mid =
      let (es, reads, ordered, sound, complete) = get_by_meeting_lem p mid w in
      let kept = (Reachable-Extends start v w f h later).events k e stored in
      (es, reads, complete k e kept of_mid)
