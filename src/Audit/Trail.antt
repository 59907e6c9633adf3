-- ===== src/Audit/Trail.antt =====
-- `getByMeeting` of services/hub-api/src/audit/audit.service.ts over the life of the hub.
use mathlib.Core.List.{Memᴰ}
use troofai_mvp.Prelude.{
  String, ◌≡◌, refl, true, Option, none, some, List, [], ◌∷◌, Bool, arith, eq_iff, All, eq_refl,
}
use troofai_mvp.Schema.{AuditEvent}
use troofai_mvp.Platform.{Platform}
use troofai_mvp.Platform.Order.{asc, IsOrdered, mem-Perm, All-Perm}
use troofai_mvp.Exec.{ok}
use troofai_mvp.World.{World}
use troofai_mvp.Audit.{is_about, get_by_meeting}

module _ (p : Platform) where
  about_iff : (mid : String) (o : Option String) → is_about p mid o ≡ true → o ≡ some mid
  about_iff mid none h = absurd (ground arith)
  about_iff mid (some id) h = ground (arith, eq_iff id mid)

  is_about_self : (mid : String) (o : Option String) → o ≡ some mid → is_about p mid o ≡ true
  is_about_self mid o e = rw e (eq_refl mid)

  -- What a row of the answer is: stored, and of the meeting.
  abbrev Entry : World p → String → AuditEvent → Type 0
  Entry w mid e =
      (p.audit_events.find_unique e.id w.audit_events ≡ some e) × (e.meeting_id ≡ some mid)

  entries :
      (mid : String) (w : World p) (es : List AuditEvent)
      → All
          (λ e.
            (p.audit_events.find_unique e.id w.audit_events ≡ some e)
            × (is_about p mid e.meeting_id ≡ true))
          es
      → All (Entry w mid) es
  entries mid w [] h = tt
  entries mid w (e ∷ es) ((stored, about), h) =
      ((stored, about_iff mid e.meeting_id about), entries mid w es h)

  -- The audit trail of a meeting is read without a change of the state: it lists the events of the
  -- meeting that are stored, all of them and no others, by the time they were created.
  pub get_by_meeting_lem :
      (mid : String) (w : World p)
      → (es : List AuditEvent) × (get_by_meeting p mid w ≡ (ok es, w))
        × IsOrdered asc (λ e. e.created_at) es
        × All (Entry w mid) es
        × ((k : String) (e : AuditEvent)
            → p.audit_events.find_unique k w.audit_events ≡ some e
            → e.meeting_id ≡ some mid
            → Memᴰ e es)
  unfolding get_by_meeting
  get_by_meeting_lem mid w =
      let about : AuditEvent → Bool = λ e. is_about p mid e.meeting_id in
      let same = p.audit_events.find_ordered-Perm about asc (λ e. e.created_at) w.audit_events in
      (
        p.audit_events.find_ordered about asc (λ e. e.created_at) w.audit_events,
        refl,
        p.audit_events.find_ordered-IsOrdered about asc (λ e. e.created_at) w.audit_events,
        All-Perm (Entry w mid) same
            (entries mid w _ (p.audit_events.find_many_sound about w.audit_events)),
        λ k e stored of_mid. mem-Perm same (
            p.audit_events.find_many_complete about k e w.audit_events stored
              (is_about_self mid e.meeting_id of_mid)),
      )
