-- ===== src/Challenge/Delivered.antt =====
-- What `issueChallenge` of services/hub-api/src/challenge/challenge.service.ts puts on the sockets, through
-- services/hub-api/src/gateway/events.gateway.ts.
use mathlib.Core.List.{Memᴰ}
use mathlib.Core.List.Memᴰ
use troofai_mvp.Prelude.{
  String, ◌≡◌, refl, ◌∙◌, Bool, true, false, Option, none, some, List, [], ◌∷◌, ◌++◌, ap, arith,
}
use troofai_mvp.Schema.{Device, MeetingParticipant}
use troofai_mvp.Platform.{ChallengePayload}
use troofai_mvp.Collections.{get}
use troofai_mvp.Gateway.{
  Gateway, Emission, StatusUpdate, challenge_issue, emit, emit_challenge_to_device,
  emit_meeting_update,
}
use troofai_mvp.World.{truthy, is_some}
use troofai_mvp.Challenge.{IssueResult, IssueStatus, not_bound, challenge_sent}

-- `!participant.deviceId || !participant.device` is false
abbrev pub is_bound : MeetingParticipant × Option Device → Bool
is_bound (r, d) = elim (truthy r.device_id) [ none ↦ false | some _ ↦ is_some d ]

-- The sockets are as they were, and what was emitted stays emitted.
pub record Grows (g g' : Gateway) : Type 0 where
  pub sockets : g'.device_sockets ≡ g.device_sockets
  pub mail : (e : Emission) → Memᴰ e g.outbox → Memᴰ e g'.outbox

pub Grows-refl : (g : Gateway) → Grows g g
Grows-refl g = record { sockets = refl; mail = λ e h. h }

pub Grows-trans : (f g h : Gateway) → Grows f g → Grows g h → Grows f h
Grows-trans f g h k l = record {
  sockets = l.sockets ∙ k.sockets;
  mail = λ e x. l.mail e (k.mail e x);
}

pub Grows-emit_meeting_update :
    (mid : String) (u : StatusUpdate) (g : Gateway) → Grows g (emit_meeting_update mid u g)
unfolding emit_meeting_update
Grows-emit_meeting_update mid u g = record { sockets = refl; mail = λ e h. Memᴰ.append_left _ h }

pub Grows-emit_challenge_to_device :
    (dev : String) (y : ChallengePayload) (g : Gateway) → Grows g (emit_challenge_to_device dev y g)
unfolding emit_challenge_to_device
Grows-emit_challenge_to_device dev y g = go (get dev g.device_sockets)
  where
    go :
        (o : Option String)
        → Grows g (elim o [
          | none ↦ g
          | some socket ↦ record g {
            outbox = g.outbox ++ (emit (some socket) (challenge_issue y) ∷ []);
          }
        ])
    go none = Grows-refl g
    go (some socket) = record { sockets = refl; mail = λ e h. Memᴰ.append_left _ h }

-- A challenge of the meeting for the participant, under the id, went to the socket of the participant's
-- device, if the device has one.
pub record IsDelivered (before after : Gateway) (mid : String) (r : MeetingParticipant)
    (id : String) : Type 0 where
  pub payload : ChallengePayload
  pub for_whom : payload.participant_id ≡ r.id
  pub of_meeting : payload.meeting_id ≡ mid
  pub under_id : payload.challenge_id ≡ id
  pub emitted :
      (dev socket : String)
      → truthy r.device_id ≡ some dev
      → get dev before.device_sockets ≡ some socket
      → Memᴰ (emit (some socket) (challenge_issue payload)) after.outbox

pub outbox-emit_challenge_to_device :
    (dev socket : String) (y : ChallengePayload) (g : Gateway)
    → get dev g.device_sockets ≡ some socket
    → (emit_challenge_to_device dev y g).outbox
      ≡ g.outbox ++ (emit (some socket) (challenge_issue y) ∷ [])
unfolding emit_challenge_to_device
outbox-emit_challenge_to_device dev socket y g there = ground (arith, there)

pub emitted_now :
    (dev socket : String) (y : ChallengePayload) (g : Gateway)
    → get dev g.device_sockets ≡ some socket
    → Memᴰ (emit (some socket) (challenge_issue y)) (emit_challenge_to_device dev y g).outbox
emitted_now dev socket y g there =
    rw (outbox-emit_challenge_to_device dev socket y g there)
      (Memᴰ.append_right g.outbox (Memᴰ.head refl))

-- A result says that a challenge was sent, and one was, or the participant has no device.
abbrev pub IsReported :
    Gateway → Gateway → String → MeetingParticipant × Option Device → IssueStatus → Type 0
IsReported g g' mid e (not_bound _) = is_bound e ≡ false
IsReported g g' mid e (challenge_sent id) = (is_bound e ≡ true) × IsDelivered g g' mid e.0 id

-- One result for each participant in order, each true.
abbrev pub Reports :
    Gateway
    → Gateway
    → String
    → List (MeetingParticipant × Option Device)
    → List IssueResult
    → Type 0
Reports g g' mid [] [] = Unit
Reports g g' mid (e ∷ es) (x ∷ xs) =
    (x.participant_id ≡ e.0.id) × IsReported g g' mid e x.outcome × Reports g g' mid es xs
Reports g g' mid _ _ = ⊥

-- A true result stays true when more is emitted, and was so from an earlier state with the same sockets.
pub IsReported-mono :
    (f g h k : Gateway) (mid : String) (e : MeetingParticipant × Option Device) (s : IssueStatus)
    → Grows f g
    → Grows h k
    → IsReported g h mid e s
    → IsReported f k mid e s
IsReported-mono f g h k mid e (not_bound _) a b r = r
IsReported-mono f g h k mid e (challenge_sent id) a b (bound, d) = (
  bound,
  record {
    payload = d.payload;
    for_whom = d.for_whom;
    of_meeting = d.of_meeting;
    under_id = d.under_id;
    emitted = λ dev socket given there.
        b.mail _ (d.emitted dev socket given (ap (get dev) a.sockets ∙ there));
  },
)

pub Reports-mono :
    (f g h : Gateway) (mid : String) (es : List (MeetingParticipant × Option Device))
    (xs : List IssueResult)
    → Grows f g
    → Reports g h mid es xs
    → Reports f h mid es xs
Reports-mono f g h mid [] [] a r = r
Reports-mono f g h mid (e ∷ es) (x ∷ xs) a r = (
  r.0,
  IsReported-mono f g h h mid e x.outcome a (Grows-refl h) r.1,
  Reports-mono f g h mid es xs a r.2,
)
Reports-mono f g h mid [] (x ∷ xs) a r = r
Reports-mono f g h mid (e ∷ es) [] a r = r
