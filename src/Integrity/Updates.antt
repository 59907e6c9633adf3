-- ===== src/Integrity/Updates.antt =====
-- A changed row: what the calls of services/hub-api that update leave of a state.
use mathlib.Core.Path.{subst}
use troofai_mvp.Prelude.{
  String, ◌≡◌, refl, sym, ◌∙◌, ap, some, arith, ◌==◌, eq_iff, Bool-cases, inl, inr, ◌⊎◌,
  Option-cases,
}
use troofai_mvp.Schema.{Device, MeetingParticipant}
use troofai_mvp.Platform.{Platform, Table, KeepsId}
use troofai_mvp.Exec.{ok}
use troofai_mvp.World.{World, update_device, update_participant}
use troofai_mvp.World.Calls.{update_device_cases, update_participant_cases}
use troofai_mvp.Integrity.{
  IsSound, Extends, Extends-refl, Keeps, IsLinked, IsSameDevice, IsSameParticipant,
}
use troofai_mvp.Integrity.Rows.{grow, IsLinked-Extends}
use troofai_mvp.Integrity.Writes.{Keeps-call, eq_text}

module _ {Row : Type 0} {id : Row → String} (T : Table Row id) where
  find-update_old :
      (f : Row → Row) (j k : String) (x : Row) (t : T.Rows) (r : Row) (t' : T.Rows)
      → KeepsId id f
      → T.update j f t ≡ some (r, t')
      → T.find_unique k t ≡ some x
      → (T.find_unique k t' ≡ some x) ⊎ (T.find_unique k t' ≡ some (f x))
  find-update_old f j k x t r t' keeps done old = elim (Bool-cases (j == k)) [
    | inr miss ↦ inl (ground (arith, T.find-update j k f r t t' keeps done, miss, old))
    | inl hit ↦
        let e : j ≡ k = ground (arith, eq_iff j k, hit) in
        let (t'', again) = T.update_found j f x t (ap (λ i. T.find_unique i t) e ∙ old) in
        inr (ground (arith, T.find-update j k f r t t' keeps done, hit, done, again))
  ]

  find-update_new :
      (f : Row → Row) (j k : String) (y : Row) (t : T.Rows) (r : Row) (t' : T.Rows)
      → KeepsId id f
      → T.update j f t ≡ some (r, t')
      → T.find_unique k t' ≡ some y
      → (T.find_unique k t ≡ some y) ⊎ ((x : Row) × (T.find_unique k t ≡ some x) × (f x ≡ y))
  find-update_new f j k y t r t' keeps done new = elim (Bool-cases (j == k)) [
    | inr miss ↦ inl (ground (arith, T.find-update j k f r t t' keeps done, miss, new))
    | inl hit ↦ elim (Option-cases (T.find_unique j t)) [
      | inl missing ↦ absurd (ground (arith, T.update_missing j f t missing, done))
      | inr (x, old) ↦
          let e : j ≡ k = ground (arith, eq_iff j k, hit) in
          let (t'', again) = T.update_found j f x t old in
          inr (
            x,
            ap (λ i. T.find_unique i t) (sym e) ∙ old,
            ground (arith, T.find-update j k f r t t' keeps done, hit, done, again, new),
          )
    ]
  ]

module _ (p : Platform) where
  -- A change of a device that leaves its id, its owner, its name and its date alone.
  pub Keeps-update_device :
      (id : String) (f : Device → Device) (w : World p)
      → KeepsId (λ (d : Device). d.id) f
      → ((d : Device) → IsSameDevice d (f d))
      → Keeps p (update_device p id f) w
  Keeps-update_device id f w keeps same = elim (update_device_cases p w id f) [
    | inr call ↦ Keeps-call p (update_device p id f) w w _ call (λ s. (s, Extends-refl p w))
    | inl (r, rows, done, call) ↦
        Keeps-call p (update_device p id f) w (record w { devices = rows }) (ok r) call
          λ s.
            grow p w (record w { devices = rows }) s
              (record {
                clock = omega arith;
                tenants = λ k x h. h;
                meetings = λ k x h. h;
                events = λ k x h. h;
                devices = λ k x h.
                    elim (find-update_old p.devices f id k x w.devices r rows keeps done h) [
                      | inl old ↦ (
                        x,
                        old,
                        record { tenant = refl; user = refl; name = refl; enrolled = refl },
                      )
                      | inr new ↦ (f x, new, same x)
                    ];
                participants = (Extends-refl p w).participants;
              })
              refl
              (λ k y h. elim (find-update_new p.devices f id k y w.devices r rows keeps done h) [
                | inl old ↦ inl old
                | inr (x, old, e) ↦ inr (rw (← e, (same x).tenant) (s.devices k x old))
              ])
              (λ k x h. inl h) (λ k x h. inl h) (λ k x h. inl h) (omega arith)
  ]

  -- A change of a participant that leaves what stays, and whose result is linked if the row was.
  pub Keeps-update_participant :
      (id : String) (f : MeetingParticipant → MeetingParticipant) (w : World p)
      → KeepsId (λ (r : MeetingParticipant). r.id) f
      → ((r : MeetingParticipant) → IsSameParticipant r (f r))
      → (IsSound p w
          → (r : MeetingParticipant) → p.participants.find_unique id w.participants ≡ some r
          → IsLinked p w r
          → IsLinked p w (f r))
      → Keeps p (update_participant p id f) w
  Keeps-update_participant id f w keeps same linked = elim (update_participant_cases p w id f) [
    | inr call ↦ Keeps-call p (update_participant p id f) w w _ call (λ s. (s, Extends-refl p w))
    | inl (r, rows, done, call) ↦
        Keeps-call p (update_participant p id f) w (record w { participants = rows }) (ok r) call
          λ s.
            let x : Extends p w (record w { participants = rows }) = record {
              clock = omega arith;
              tenants = λ k x h. h;
              meetings = λ k x h. h;
              events = λ k x h. h;
              devices = (Extends-refl p w).devices;
              participants = λ k x h.
                  elim (find-update_old p.participants f id k x w.participants r rows keeps done
                    h) [
                      | inl old ↦ (
                        x,
                        old,
                        record {
                          meeting = refl;
                          user = refl;
                          name = refl;
                          joined = refl;
                          bound = λ b. b;
                        },
                      )
                      | inr new ↦ (f x, new, same x)
                    ];
            } in
            grow p w (record w { participants = rows }) s x refl (λ k x h. inl h) (λ k x h. inl h)
              (λ k y h. elim (Bool-cases (id == k)) [
                | inr miss ↦ inl (
                    ground (
                      arith,
                      p.participants.find-update id k f r w.participants rows keeps done,
                      miss,
                      h,
                    ))
                | inl hit ↦
                    elim (find-update_new p.participants f id k y w.participants r rows keeps done
                      h) [
                        | inl old ↦ inl old
                        | inr (z, old, e) ↦
                            let there : p.participants.find_unique id w.participants ≡ some z =
                              ap (λ i. p.participants.find_unique i w.participants)
                                (eq_text id k hit)
                              ∙ old in
                            inr (
                              subst (IsLinked p (record w { participants = rows })) e (
                                IsLinked-Extends p w (record w { participants = rows }) x (f z)
                                  (linked s z there (s.participants k z old))))
                      ]
              ])
              (λ k x h. inl h) (omega arith)
  ]
