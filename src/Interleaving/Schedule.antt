-- ===== src/Interleaving/Schedule.antt =====
-- The hub with any number of handlers under way, and what holds in every order of their calls.
use troofai_mvp.Prelude.{String, ◌≡◌, some, List, [], ◌∷◌, ◌++◌, All}
use mathlib.Core.List.{Memᴰ}
use troofai_mvp.Schema.{Tenant, Device, MeetingParticipant, AuditEvent, verified}
use troofai_mvp.Platform.{Platform}
use troofai_mvp.Exec.{Result, ok}
use troofai_mvp.World.{World, Hub}
use troofai_mvp.Audit.{get_by_meeting}
use troofai_mvp.Audit.Trail.{get_by_meeting_lem}
use troofai_mvp.Integrity.{IsSound, Extends, Extends-refl, Extends-trans}
use troofai_mvp.Api.Requests.{Request, Response, serve}
use troofai_mvp.Api.Reachable.{IsFresh, fresh-IsSound, verified-device}
use troofai_mvp.Interleaving.{Thread, done, step, run}
use troofai_mvp.Interleaving.Requests.{serve_steps}
use troofai_mvp.Interleaving.Served.{run-serve_steps}
use troofai_mvp.Interleaving.Safety.{Guarded, Safe, Safe-Extends}
use troofai_mvp.Interleaving.Serving.{Guarded-serve}

module _ (p : Platform) where
  -- The state, and what is left of the handlers that have begun.
  pub record Server : Type 1 where
    pub state : World p
    pub under_way : List (Thread p Response)

  abbrev pub server : World p → List (Thread p Response) → Server
  server w ts = record { state = w; under_way = ts }

  -- One server comes from another when requests arrive and handlers make their next call, in any order.
  pub data Leads : Server → Server → Type 1 where
    idle : (s : Server) → Leads s s
    arrives :
        (s : Server) (w : World p) (ts : List (Thread p Response)) (r : Request)
        → Leads s (server w ts)
        → Leads s (server w (serve_steps p r ∷ ts))
    advances :
        {X : Type 0} (s : Server) (w : World p) (before after : List (Thread p Response))
        (m : Hub p X) (k : Result X → Thread p Response)
        → Leads s (server w (before ++ step m k ∷ after))
        → Leads s (server (m w).1 (before ++ k (m w).0 ∷ after))

  -- The state is sound, and the handlers under way will keep it so.
  record IsSafe (s : Server) : Type 1 where
    sound : IsSound p s.state
    handlers : All (λ t. Guarded p t s.state) s.under_way

  All-Extends :
      (w v : World p) (ts : List (Thread p Response))
      → Extends p w v
      → All (λ t. Guarded p t w) ts
      → All (λ t. Guarded p t v) ts
  All-Extends w v [] x h = tt
  All-Extends w v (t ∷ ts) x h =
      (record { at = Safe-Extends p t w v x h.0.at }, All-Extends w v ts x h.1)

  -- One handler makes a call.
  advanced :
      {X : Type 0} (w : World p) (before after : List (Thread p Response)) (m : Hub p X)
      (k : Result X → Thread p Response)
      → IsSound p w
      → All (λ t. Guarded p t w) (before ++ step m k ∷ after)
      → (IsSound p (m w).1 × Extends p w (m w).1)
        × All (λ t. Guarded p t (m w).1) (before ++ k (m w).0 ∷ after)
  unfolding Safe
  advanced w [] after m k s h =
      let (kept, later) = h.0.at w (Extends-refl p w) s in
      (kept, (record { at = later }, All-Extends w (m w).1 after kept.1 h.1))
  advanced w (t ∷ before) after m k s h =
      let (kept, later) = advanced w before after m k s h.1 in
      (kept, (record { at = Safe-Extends p t w (m w).1 kept.1 h.0.at }, later))

  leads : (s t : Server) → Leads s t → IsSafe s → IsSafe t × Extends p s.state t.state
  leads s t (idle _) h = (h, Extends-refl p s.state)
  leads s t (arrives _ w ts r l) h =
      let (safe, x) = leads s (server w ts) l h in
      (record { sound = safe.sound; handlers = (Guarded-serve p r w, safe.handlers) }, x)
  leads s t (advances _ w before after m k l) h =
      let (safe, x) = leads s (server w (before ++ step m k ∷ after)) l h in
      let ((sound, y), handlers) = advanced w before after m k safe.sound safe.handlers in
      (record { sound = sound; handlers = handlers }, Extends-trans p s.state w (m w).1 x y)

  -- A handler under way can be brought to its end.
  finished :
      (s : Server) (before after : List (Thread p Response)) (t : Thread p Response) (w : World p)
      → Leads s (server w (before ++ t ∷ after))
      → Leads s (server (run t w).1 (before ++ done (run t w).0 ∷ after))
  finished s before after (done r) w l = l
  finished s before after (step m k) w l =
      finished s before after (k (m w).0) (m w).1 (advances s w before after m k l)

  -- To serve a request whole is one of the orders: whatever is under way, a request can arrive and be
  -- brought to its end with the answer and the state of `serve`, the other handlers waiting.
  pub Leads-serve :
      (s : Server) (w : World p) (ts : List (Thread p Response)) (r : Request)
      → Leads s (server w ts)
      → Leads s (server (serve p r w).1 (done (serve p r w).0 ∷ ts))
  Leads-serve s w ts r l =
      rw (← run-serve_steps p r w) (finished s [] ts (serve_steps p r) w (arrives s w ts r l))

  -- The hub in the beginning.
  abbrev pub start_of : World p → Server
  start_of w = server w []

  at_all : (start : World p) (s : Server) → IsFresh p start → Leads (start_of start) s → IsSafe s
  at_all start s f l =
      (leads (start_of start) s l (record { sound = fresh-IsSound p start f; handlers = tt })).0

  -- In every order of the calls of any number of requests, from a start without devices, meetings,
  -- participants, audit events and entries of Redis, each state on the way is sound: devices and meetings
  -- belong to a tenant that exists, participants to a meeting that exists, the device of a
  -- participant exists, events name a tenant and, if any, a meeting that exist, only a participant
  -- with a device is VERIFIED, and a challenge in Redis is for a participant with a device.
  pub Leads-IsSound :
      (start : World p) (s : Server)
      → IsFresh p start
      → Leads (start_of start) s
      → IsSound p s.state
  Leads-IsSound start s f l = (at_all start s f l).sound

  -- In every order of the calls of any number of requests, from a start without devices, meetings,
  -- participants, audit events and entries of Redis, nothing stored is undone from one state to a later
  -- one: the clock does not go back, tenants, meetings and audit events stay as they are, a device keeps
  -- its tenant, user, name and date, a participant keeps its meeting, user, name and date, and one
  -- that has a device keeps having one.
  pub Leads-Extends :
      (start : World p) (s t : Server)
      → IsFresh p start
      → Leads (start_of start) s
      → Leads s t
      → Extends p s.state t.state
  Leads-Extends start s t f l k = (leads s t k (at_all start s f l)).1

  -- In every order of the calls of any number of requests, from a start without devices, meetings,
  -- participants, audit events and entries of Redis, a participant whose status is VERIFIED has a device
  -- that is stored, of a tenant that is stored.
  pub Leads-verified :
      (start : World p) (s : Server) (id : String) (r : MeetingParticipant)
      → IsFresh p start
      → Leads (start_of start) s
      → p.participants.find_unique id s.state.participants ≡ some r
      → r.trust_status ≡ verified
      → (device_id : String) × (d : Device) × (t : Tenant) × (r.device_id ≡ some device_id)
        × (p.devices.find_unique device_id s.state.devices ≡ some d)
        × (p.tenants.find_unique d.tenant_id s.state.tenants ≡ some t)
  Leads-verified start s id r f l found v =
      verified-device p s.state id r (Leads-IsSound start s f l) found v

  -- In every order of the calls of any number of requests, from a start without devices, meetings,
  -- participants, audit events and entries of Redis, an audit event of a meeting that is stored in one
  -- state is in the meeting's audit trail in every later state.
  pub Leads-get_by_meeting :
      (start : World p) (s t : Server) (mid k : String) (e : AuditEvent)
      → IsFresh p start
      → Leads (start_of start) s
      → Leads s t
      → p.audit_events.find_unique k s.state.audit_events ≡ some e
      → e.meeting_id ≡ some mid
      → (es : List AuditEvent) × (get_by_meeting p mid t.state ≡ (ok es, t.state)) × Memᴰ e es
  Leads-get_by_meeting start s t mid k e f l later stored of_mid =
      let (es, reads, ordered, sound, complete) = get_by_meeting_lem p mid t.state in
      let kept = (Leads-Extends start s t f l later).events k e stored in
      (es, reads, complete k e kept of_mid)
