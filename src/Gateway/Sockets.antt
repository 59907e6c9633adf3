-- ===== src/Gateway/Sockets.antt =====
-- The order of the socket tables of services/hub-api/src/gateway/events.gateway.ts.
use troofai_mvp.Prelude.{
  String, ◌≡◌, refl, false, List, [], ◌∷◌, arith, ◌==◌, All, Bool-cases, inl, inr,
}
use troofai_mvp.Collections.{get, set, keys, contains, add, drop}
use troofai_mvp.Collections.Laws.{IsDistinct, set-IsDistinct, add-IsDistinct, drop-IsDistinct}
use troofai_mvp.Gateway.{
  Gateway, forget_device, keep_watched, leave_meetings, or_empty, handle_disconnect,
  handle_device_connect, handle_meeting_subscribe,
}

-- The watchers of a meeting: at least one, and none twice.
abbrev pub IsWatched : String × List String → Type 0
IsWatched (_, []) = ⊥
IsWatched (_, s ∷ ss) = IsDistinct (s ∷ ss)

-- The tables of a `Map` and of `Set`s: no key and no watcher twice, no meeting without a watcher.
pub record IsOrderly (g : Gateway) : Type 0 where
  pub devices : IsDistinct (keys g.device_sockets)
  pub meetings : IsDistinct (keys g.meeting_sockets)
  pub watched : All IsWatched g.meeting_sockets

contains-keys-forget :
    (client k : String) (m : List (String × String))
    → contains k (keys m) ≡ false
    → contains k (keys (forget_device client m)) ≡ false
unfolding contains forget_device
contains-keys-forget client k [] h = refl
contains-keys-forget client k ((d, s) ∷ m) h = ground (arith, contains-keys-forget client k m)

forget_device-IsDistinct :
    (client : String) (m : List (String × String))
    → IsDistinct (keys m)
    → IsDistinct (keys (forget_device client m))
unfolding forget_device
forget_device-IsDistinct client [] h = tt
forget_device-IsDistinct client ((d, s) ∷ m) h =
    ground (arith, forget_device-IsDistinct client m h.1, contains-keys-forget client d m h.0)

contains-keys-keep :
    (k meeting : String) (left : List String) (m : List (String × List String))
    → (meeting == k) ≡ false
    → contains k (keys m) ≡ false
    → contains k (keys (keep_watched meeting left m)) ≡ false
unfolding contains
contains-keys-keep k meeting [] m h g = g
contains-keys-keep k meeting (s ∷ ss) m h g = ground arith

pub contains-keys-leave :
    (client k : String) (m : List (String × List String))
    → contains k (keys m) ≡ false
    → contains k (keys (leave_meetings client m)) ≡ false
unfolding contains leave_meetings
contains-keys-leave client k [] h = refl
contains-keys-leave client k ((d, ss) ∷ m) h =
    contains-keys-keep k d (drop client ss) (leave_meetings client m) (ground arith)
      (contains-keys-leave client k m (ground arith))

keep_watched-IsDistinct :
    (meeting : String) (left : List String) (m : List (String × List String))
    → contains meeting (keys m) ≡ false
    → IsDistinct (keys m)
    → IsDistinct (keys (keep_watched meeting left m))
keep_watched-IsDistinct meeting [] m h g = g
keep_watched-IsDistinct meeting (s ∷ ss) m h g = (h, g)

leave_meetings-IsDistinct :
    (client : String) (m : List (String × List String))
    → IsDistinct (keys m)
    → IsDistinct (keys (leave_meetings client m))
unfolding leave_meetings
leave_meetings-IsDistinct client [] h = tt
leave_meetings-IsDistinct client ((d, ss) ∷ m) h =
    keep_watched-IsDistinct d (drop client ss) (leave_meetings client m)
      (contains-keys-leave client d m h.0) (leave_meetings-IsDistinct client m h.1)

keep_watched-IsWatched :
    (meeting : String) (left : List String) (m : List (String × List String))
    → IsDistinct left
    → All IsWatched m
    → All IsWatched (keep_watched meeting left m)
keep_watched-IsWatched meeting [] m h g = g
keep_watched-IsWatched meeting (s ∷ ss) m h g = (h, g)

pub IsWatched-IsDistinct :
    (meeting : String) (ss : List String) → IsWatched (meeting, ss) → IsDistinct ss
IsWatched-IsDistinct meeting [] h = absurd h
IsWatched-IsDistinct meeting (s ∷ ss) h = h

leave_meetings-IsWatched :
    (client : String) (m : List (String × List String))
    → All IsWatched m
    → All IsWatched (leave_meetings client m)
unfolding leave_meetings
leave_meetings-IsWatched client [] h = tt
leave_meetings-IsWatched client ((d, ss) ∷ m) h =
    keep_watched-IsWatched d (drop client ss) (leave_meetings client m)
      (drop-IsDistinct client ss (IsWatched-IsDistinct d ss h.0))
      (leave_meetings-IsWatched client m h.1)

set-IsWatched :
    (k : String) (ss : List String) (m : List (String × List String))
    → IsWatched (k, ss)
    → All IsWatched m
    → All IsWatched (set k ss m)
unfolding set
set-IsWatched k ss [] h a = (h, tt)
set-IsWatched k ss ((j, ts) ∷ m) h a = ground (arith, set-IsWatched k ss m h a.1)

pub get-IsWatched :
    (k : String) (m : List (String × List String))
    → All IsWatched m
    → IsDistinct (or_empty (get k m))
unfolding get
get-IsWatched k [] h = tt
get-IsWatched k ((j, ss) ∷ m) h =
    ground (arith, get-IsWatched k m h.1, IsWatched-IsDistinct j ss h.0)

IsWatched-add : (k x : String) (ss : List String) → IsDistinct ss → IsWatched (k, add x ss)
unfolding add contains
IsWatched-add k x [] h = (refl, tt)
IsWatched-add k x (s ∷ ss) h = elim (Bool-cases (s == x)) [
  | inl hit ↦ rw hit h
  | inr miss ↦ rw miss (ground (arith, add-IsDistinct x (s ∷ ss) h, miss))
]

-- The events that change the tables.
pub data SocketEvent : Type 0 where
  disconnects : String → SocketEvent
  connects subscribes : String → String → SocketEvent

unfoldable pub handle : SocketEvent → Gateway → Gateway
handle (disconnects client) g = handle_disconnect client g
handle (connects client device) g = (handle_device_connect client device g).1
handle (subscribes client meeting) g = (handle_meeting_subscribe client meeting g).1

-- Every event keeps the tables in order: no device and no meeting has two entries, no socket watches
-- a meeting twice, and there is no entry for a meeting that nobody watches.
pub handle-IsOrderly : (e : SocketEvent) (g : Gateway) → IsOrderly g → IsOrderly (handle e g)
unfolding handle handle_disconnect handle_device_connect handle_meeting_subscribe
handle-IsOrderly (disconnects client) g o = record {
  devices = forget_device-IsDistinct client g.device_sockets o.devices;
  meetings = leave_meetings-IsDistinct client g.meeting_sockets o.meetings;
  watched = leave_meetings-IsWatched client g.meeting_sockets o.watched;
}
handle-IsOrderly (connects client device) g o = record {
  devices = set-IsDistinct device client g.device_sockets o.devices;
  meetings = o.meetings;
  watched = o.watched;
}
handle-IsOrderly (subscribes client meeting) g o = record {
  devices = o.devices;
  meetings = set-IsDistinct meeting _ g.meeting_sockets o.meetings;
  watched =
      set-IsWatched meeting _ g.meeting_sockets
        (IsWatched-add meeting client _ (get-IsWatched meeting g.meeting_sockets o.watched))
        o.watched;
}
