-- ===== src/PageViews/Honest.antt =====
-- What the pages of apps/web/src/app show, against what the hub (services/hub-api) holds and logs.
use Prim.Native.String
use troofai_mvp.Prelude.{
  ◌+◌, ◌≤◌, String, ◌≡◌, refl, Bool, true, false, Option, none, some, List, [], ◌∷◌, map, arith,
  All, length, ◌==◌, Bool-cases, inl, inr, eq_iff,
}
use troofai_mvp.Schema.{
  Device, MeetingParticipant, TrustStatus, verified, unverified, stale, unknown, external, failed,
}
use troofai_mvp.Platform.{Platform}
use troofai_mvp.Platform.Order.{asc, All-Perm}
use troofai_mvp.Exec.{ok}
use troofai_mvp.ZoomMeeting.{short}
use troofai_mvp.World.{World, device_of, is_some}
use troofai_mvp.Meeting.Reads.{get_participants}
use troofai_mvp.Integrity.{IsSound, IsLinked}
use troofai_mvp.Api.Reachable.{IsFresh}
use troofai_mvp.Interleaving.Schedule.{Server, start_of, Leads, Leads-IsSound}
use troofai_mvp.PageViews.{status_text}
use troofai_mvp.PageViews.Zoom.{card, status_label}
use troofai_mvp.PageViews.Rows.{Attendee, with_status}
use troofai_mvp.PageViews.Overview.{pending_of}

not_both : (s : String) → (s == "VERIFIED") ≡ true → (s == "FAILED") ≡ false
not_both s h = rw ((eq_iff s "VERIFIED").0 h) refl

-- Nobody is verified and failed.
disjoint : (rs : List Attendee) → with_status "VERIFIED" rs + with_status "FAILED" rs ≤ length rs
disjoint [] = omega arith
disjoint (r ∷ rs) =
    let more = disjoint rs in
    elim (Bool-cases (r.trust_status == "VERIFIED")) [
      | inl good ↦ ground (arith, more, good, not_both r.trust_status good)
      | inr other ↦ ground (arith, more, other)
    ]

-- The badges of a meeting on the dashboard miss nobody: whoever is neither verified nor failed is pending,
-- so the three numbers add up to the number of participants.
pub pending_of_lem :
    (rs : List Attendee)
    → with_status "VERIFIED" rs + with_status "FAILED" rs + pending_of rs ≡ length rs
pending_of_lem rs = let enough = disjoint rs in omega arith

shown_device : (o : Option Device) → is_some o ≡ true → (d : Device) × (o ≡ some d)
shown_device none h = absurd (cc h)
shown_device (some d) h = (d, refl)

other_label : (s : String) → (s == "✓ Verified") ≡ false → s ≡ "✓ Verified" → ⊥
other_label s h e = ground (arith, h, (eq_iff s "✓ Verified").1 e)

verified_badge : (s : TrustStatus) → status_label (status_text s) ≡ "✓ Verified" → s ≡ verified
verified_badge verified e = refl
verified_badge unverified e = absurd (other_label _ refl e)
verified_badge stale e = absurd (other_label _ refl e)
verified_badge unknown e = absurd (other_label _ refl e)
verified_badge external e = absurd (other_label _ refl e)
verified_badge failed e = absurd (other_label _ refl e)

module _ (p : Platform) where
  -- A participant of a sound state that is VERIFIED has a device to show.
  linked_device :
      (w : World p) (r : MeetingParticipant)
      → IsLinked p w r
      → r.trust_status ≡ verified
      → is_some (device_of p w r) ≡ true
  linked_device w r l v = go r.device_id refl
    where
      go :
          (o : Option String)
          → r.device_id ≡ o
          → is_some (elim o [ none ↦ none | some id ↦ p.devices.find_unique id w.devices ]) ≡ true
      go none e = absurd (ground (arith, l.trusted v, e))
      go (some id) e = l.device id e

  IsLinked-rows :
      (w : World p) (sound : IsSound p w) (rs : List MeetingParticipant)
      (q : MeetingParticipant → Type 0)
      → All (λ r. (p.participants.find_unique r.id w.participants ≡ some r) × q r) rs
      → All (IsLinked p w) rs
  IsLinked-rows w sound [] q h = tt
  IsLinked-rows w sound (r ∷ rs) q h =
      (sound.participants r.id r h.0.0, IsLinked-rows w sound rs q h.1)

  -- What a card of a VERIFIED participant shows.
  pub record IsBacked (w : World p) (e : MeetingParticipant × Option Device) : Type 0 where
    pub device : Device
    pub sent_along : e.1 ≡ some device
    pub named : (card e).device_line ≡ some (String.◌++◌ "Device: " (short device.id))
    pub no_warning : (card e).warning ≡ false

  IsBacked-card :
      (w : World p) (r : MeetingParticipant)
      → IsLinked p w r
      → (card (r, device_of p w r)).badge ≡ "✓ Verified"
      → IsBacked w (r, device_of p w r)
  unfolding card
  IsBacked-card w r l e =
      let (d, there) =
        shown_device (device_of p w r) (linked_device w r l (verified_badge r.trust_status e)) in
      record { device = d; sent_along = there; named = rw there refl; no_warning = rw there refl }

  map-IsBacked :
      (w : World p) (rs : List MeetingParticipant)
      → All (IsLinked p w) rs
      → All (λ e. (card e).badge ≡ "✓ Verified" → IsBacked w e) (map (λ r. (r, device_of p w r)) rs)
  map-IsBacked w [] h = tt
  map-IsBacked w (r ∷ rs) h = (IsBacked-card w r h.0, map-IsBacked w rs h.1)

  -- In every order of the calls of any number of requests, from a start without devices, meetings,
  -- participants, audit events and entries of Redis, the Zoom page never shows "Verified" for nothing:
  -- of the participants that the hub sends it, each one whose card has that badge comes with a
  -- device, and the card names that device and has no warning.
  pub card-IsBacked :
      (start : World p) (s : Server p) (mid : String)
      → IsFresh p start
      → Leads p (start_of p start) s
      → (es : List (MeetingParticipant × Option Device)) × (get_participants p mid s.state
          ≡ (ok es, s.state))
        × All (λ e. (card e).badge ≡ "✓ Verified" → IsBacked s.state e) es
  unfolding get_participants
  card-IsBacked start s mid f l =
      let w = s.state in
      let sound = Leads-IsSound p start s f l in
      let about : MeetingParticipant → Bool = λ r. r.meeting_id == mid in
      let stored = p.participants.find_many_sound about w.participants in
      let ordered =
        All-Perm _ (p.participants.find_ordered-Perm about asc (λ r. r.joined_at) w.participants)
          stored in
      (_, refl, map-IsBacked w _ (IsLinked-rows w sound _ _ ordered))
