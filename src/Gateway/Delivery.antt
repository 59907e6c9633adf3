-- ===== src/Gateway/Delivery.antt =====
-- Who watches a meeting, which sockets devices have, and whom an emission of
-- services/hub-api/src/gateway/events.gateway.ts reaches.
use troofai_mvp.Prelude.{
  ℕ, ◌+◌, ◌-◌, String, ◌≡◌, refl, Bool, true, false, ◌&&◌, ◌||◌, none, some, List, [], ◌∷◌, ◌++◌,
  map, arith, ◌==◌, eq_iff, count, All, if◌then◌else◌,
}
use troofai_mvp.Platform.{ChallengePayload}
use troofai_mvp.Collections.{get, keys, contains, add, drop}
use troofai_mvp.Collections.Laws.{IsDistinct, contains-drop, contains-add, get-set, get_absent}
use troofai_mvp.Gateway.{
  own_or, Gateway, Emission, Message, StatusUpdate, status_update, challenge_issue, emit, broadcast,
  or_empty, forget_device, keep_watched, leave_meetings, handle_disconnect, handle_device_connect,
  handle_meeting_subscribe, emit_challenge_to_device, emit_meeting_update,
}
use troofai_mvp.Gateway.Sockets.{
  IsOrderly, IsWatched, IsWatched-IsDistinct, contains-keys-leave, get-IsWatched,
}

-- Whether a socket watches a meeting.
abbrev pub watches : String → String → List (String × List String) → Bool
watches y mid m = contains y (or_empty (get mid m))

watches-keep :
    (y mid meeting : String) (left : List String) (m : List (String × List String))
    → contains meeting (keys m) ≡ false
    → watches y mid (keep_watched meeting left m)
      ≡ (if meeting == mid then contains y left else watches y mid m)
unfolding get contains
watches-keep y mid meeting [] m h = ground (arith, eq_iff meeting mid, get_absent meeting m h)
watches-keep y mid meeting (s ∷ ss) m h = ground (arith, eq_iff meeting mid)

watches-leave :
    (client y mid : String) (m : List (String × List String))
    → IsDistinct (keys m)
    → All IsWatched m
    → watches y mid (leave_meetings client m) ≡ (if client == y then false else watches y mid m)
unfolding leave_meetings get contains
watches-leave client y mid [] h a = ground arith
watches-leave client y mid ((d, ss) ∷ m) h a = ground (
  arith,
  watches-keep y mid d (drop client ss) (leave_meetings client m)
      (contains-keys-leave client d m h.0),
  watches-leave client y mid m h.1 a.1,
  contains-drop client y ss (IsWatched-IsDistinct d ss a.0),
)

-- The entries of a socket among the devices.
abbrev pub device_entries : String → Gateway → ℕ
device_entries client g = count (λ e. e.1 == client) g.device_sockets

entries-forget :
    (client other : String) (m : List (String × String))
    → count (λ e. e.1 == other) (forget_device client m)
      ≡ (if client == other then count (λ e. e.1 == other) m - 1 else count (λ e. e.1 == other) m)
unfolding forget_device
entries-forget client other [] = ground arith
entries-forget client other ((d, s) ∷ m) =
    ground
      (arith, entries-forget client other m, eq_iff s client, eq_iff s other, eq_iff client other)

-- A disconnect forgets one device of the socket and no more: a socket that has registered n devices
-- keeps n - 1 of them, and every other socket keeps all of its devices.
pub device_entries-disconnect :
    (client other : String) (g : Gateway)
    → device_entries other (handle_disconnect client g)
      ≡ (if client == other then device_entries other g - 1 else device_entries other g)
unfolding handle_disconnect
device_entries-disconnect client other g = entries-forget client other g.device_sockets

-- After a disconnect the socket watches no meeting, and every other socket watches what it watched.
pub watches-disconnect :
    (client y mid : String) (g : Gateway)
    → IsOrderly g
    → watches y mid (handle_disconnect client g).meeting_sockets
      ≡ (if client == y then false else watches y mid g.meeting_sockets)
unfolding handle_disconnect
watches-disconnect client y mid g o =
    watches-leave client y mid g.meeting_sockets o.meetings o.watched

-- After a subscription the socket watches the meeting, and nothing else has changed.
pub watches-subscribe :
    (client meeting y mid : String) (g : Gateway)
    → watches y mid (handle_meeting_subscribe client meeting g).1.meeting_sockets
      ≡ ((meeting == mid && client == y) || watches y mid g.meeting_sockets)
unfolding handle_meeting_subscribe
watches-subscribe client meeting y mid g = ground (
  arith,
  get-set meeting mid (add client (or_empty (get meeting g.meeting_sockets))) g.meeting_sockets,
  contains-add client y (or_empty (get meeting g.meeting_sockets)),
  eq_iff meeting mid,
)

-- Whether a client gets an emission: it is sent to it, or to all.
abbrev pub reaches : String → Emission → Bool
reaches y e = elim e.target [ none ↦ true | some s ↦ s == y ]

reached-append :
    (y : String) (xs ys : List Emission)
    → count (reaches y) (xs ++ ys) ≡ count (reaches y) xs + count (reaches y) ys
reached-append y [] ys = omega arith
reached-append y (x ∷ xs) ys = ground (arith, reached-append y xs ys)

reached_watchers :
    (y : String) (message : Message) (ss : List String)
    → IsDistinct ss
    → count (reaches y) (map (λ s. emit (some s) message) ss) ≡ (if contains y ss then 1 else 0)
unfolding contains
reached_watchers y message [] h = refl
reached_watchers y message (s ∷ ss) h =
    ground (arith, reached_watchers y message ss h.1, eq_iff s y)

-- An update of a meeting reaches a client that watches the meeting twice, once by its subscription
-- and once by the broadcast, and every other client once.
pub emit_meeting_update_reach :
    (y mid : String) (u : StatusUpdate) (g : Gateway)
    → IsOrderly g
    → g.has_server ≡ true
    → count (reaches y) (emit_meeting_update mid u g).outbox
      ≡ count (reaches y) g.outbox + (if watches y mid g.meeting_sockets then 2 else 1)
unfolding emit_meeting_update
emit_meeting_update_reach y mid u g o up =
    let watchers = or_empty (get mid g.meeting_sockets) in
    let private = map (λ s. emit (some s) (status_update u)) watchers in
    let public =
      broadcast g.has_server
        (status_update (record u { meeting_id = some (own_or mid u.meeting_id) })) in
    let reached : count (reaches y) public ≡ 1 = rw up refl in
    ground (
      arith,
      reached-append y g.outbox (private ++ public),
      reached-append y private public,
      reached_watchers y (status_update u) watchers (get-IsWatched mid g.meeting_sockets o.watched),
      reached,
    )

-- A challenge goes to the socket that registered the device last, and to no other; for a device
-- that is not registered nothing is sent.
pub emit_challenge_to_device_reach :
    (client device asked : String) (c : ChallengePayload) (g : Gateway)
    → (emit_challenge_to_device asked c (handle_device_connect client device g).1).outbox ≡ (
        if device == asked
        then g.outbox ++ emit (some client) (challenge_issue c) ∷ []
        else (emit_challenge_to_device asked c g).outbox)
unfolding emit_challenge_to_device handle_device_connect
emit_challenge_to_device_reach client device asked c g =
    ground (arith, get-set device asked client g.device_sockets)
