-- ===== src/Device/Enrollment.antt =====
-- Enrollment and re-enrollment of a device, and its heartbeat.
use mathlib.Core.Path.{ap₂}
use troofai_mvp.Prelude.{
  suc, String, ◌≡◌, refl, sym, ◌∙◌, ap, Bool, false, Option, none, some, arith, ◌==◌, eq_refl,
  eq_iff, ℕ, Option-cases, inl, inr, if◌then◌else◌,
}
use troofai_mvp.Schema.{Device, active}
use troofai_mvp.Platform.{Platform}
use troofai_mvp.Exec.{ok, thrown, record_missing}
use troofai_mvp.World.{World, now, find_device, update_device}
use troofai_mvp.World.Calls.{update_device_cases, create_device_cases}
use troofai_mvp.Audit.Entry.{log_cases}
use troofai_mvp.Device.{
  EnrollDeviceDto, re_enroll, enroll_new, enroll, heartbeat, re_enroll_event, enroll_event,
  or_default, or_false, re_enroll_patch, new_device, find_by_id, beat_patch,
}

-- The algorithm and the flag that a request stands for.
abbrev pub algorithm_of : Option String → String
algorithm_of none = "RSA-2048"
algorithm_of (some s) = if s == "" then "RSA-2048" else s

abbrev pub backed : Option Bool → Bool
backed none = false
backed (some b) = b

algorithm_of_lem : (o : Option String) → or_default o "RSA-2048" ≡ algorithm_of o
algorithm_of_lem none = refl
algorithm_of_lem (some s) = ground arith

backed_lem : (o : Option Bool) → or_false o ≡ backed o
backed_lem none = refl
backed_lem (some b) = refl

module _ (p : Platform) where
  -- What enrollment is meant to return, field by field: the row that the request describes if the
  -- id was free, and else the old row with the key, its algorithm, the hardware flag, the status
  -- and the heartbeat replaced.
  abbrev pub enrolled_row : World p → EnrollDeviceDto → Option Device → Device
  enrolled_row w dto none = record {
    id = dto.device_id;
    tenant_id = dto.tenant_id;
    user_id = dto.user_id;
    display_name = dto.display_name;
    public_key_pem = dto.public_key_pem;
    key_algorithm = algorithm_of dto.key_algorithm;
    hardware_bound = backed dto.hardware_bound;
    status = active;
    last_heartbeat = some (p.clock w.readings);
    enrolled_at = p.clock (suc w.readings);
  }
  enrolled_row w dto (some old) = record {
    id = old.id;
    tenant_id = old.tenant_id;
    user_id = old.user_id;
    display_name = old.display_name;
    public_key_pem = dto.public_key_pem;
    key_algorithm = algorithm_of dto.key_algorithm;
    hardware_bound = backed dto.hardware_bound;
    status = active;
    last_heartbeat = some (p.clock w.readings);
    enrolled_at = old.enrolled_at;
  }

  new_device_lem :
      (w : World p) (dto : EnrollDeviceDto)
      → new_device dto (p.clock w.readings) (p.clock (suc w.readings)) ≡ enrolled_row w dto none
  new_device_lem w dto =
      ap₂ (λ a b. record (enrolled_row w dto none) { key_algorithm = a; hardware_bound = b })
        (algorithm_of_lem dto.key_algorithm) (backed_lem dto.hardware_bound)

  re_enroll_patch_lem :
      (w : World p) (dto : EnrollDeviceDto) (old : Device)
      → re_enroll_patch dto (p.clock w.readings) old ≡ enrolled_row w dto (some old)
  re_enroll_patch_lem w dto old =
      ap₂ (λ a b. record (enrolled_row w dto (some old)) { key_algorithm = a; hardware_bound = b })
        (algorithm_of_lem dto.key_algorithm) (backed_lem dto.hardware_bound)

  re_enroll_ok :
      (dto : EnrollDeviceDto) (old : Device) (w w' : World p) (d : Device)
      → p.devices.find_unique dto.device_id w.devices ≡ some old
      → re_enroll p dto w ≡ (ok d, w')
      → (d ≡ re_enroll_patch dto (p.clock w.readings) old)
        × ((j : String)
            → p.devices.find_unique j w'.devices
              ≡ (if dto.device_id == j then some d else p.devices.find_unique j w.devices))
  unfolding re_enroll now
  re_enroll_ok dto old w w' d there e =
      elim (update_device_cases p (record w { readings = suc w.readings }) dto.device_id
        (re_enroll_patch dto (p.clock w.readings))) [
          | inr missing ↦ absurd (ground (arith, missing))
          | inl (r, rows, updated, call) ↦
              elim (log_cases p (record w { readings = suc w.readings; devices = rows })
                (re_enroll_event dto)) [
                  | inr (_, _, refused) ↦ absurd (ground (arith, call, refused))
                  | inl (_, _, call') ↦
                      let same : r ≡ d = ground (arith, call, call') in
                      let (rows', done) =
                        p.devices.update_found dto.device_id
                          (re_enroll_patch dto (p.clock w.readings)) old w.devices there in
                      (
                        ground (arith, updated, done, same),
                        λ j.
                            ap (p.devices.find_unique j) (ground (arith, call, call'))
                            ∙ p.devices.find-update dto.device_id j
                                (re_enroll_patch dto (p.clock w.readings)) d w.devices rows
                                (λ _. refl) (rw (← same) updated),
                      )
                ]
        ]

  enroll_new_ok :
      (dto : EnrollDeviceDto) (w w' : World p) (d : Device)
      → enroll_new p dto w ≡ (ok d, w')
      → (d ≡ new_device dto (p.clock w.readings) (p.clock (suc w.readings)))
        × ((j : String)
            → p.devices.find_unique j w'.devices
              ≡ (if dto.device_id == j then some d else p.devices.find_unique j w.devices))
  unfolding enroll_new now
  enroll_new_ok dto w w' d e =
      let row = new_device dto (p.clock w.readings) (p.clock (suc w.readings)) in
      elim (create_device_cases p (record w { readings = suc (suc w.readings) }) row) [
        | inr (_, refused) ↦ absurd (ground (arith, refused))
        | inl (rows, created, _, call) ↦
            elim (log_cases p (record w { readings = suc (suc w.readings); devices = rows })
              (enroll_event dto)) [
                | inr (_, _, refused) ↦ absurd (ground (arith, call, refused))
                | inl (_, _, call') ↦
                    let same : row ≡ d = ground (arith, call, call') in
                    (
                      sym same,
                      λ j.
                          ap (p.devices.find_unique j) (ground (arith, call, call'))
                          ∙ p.devices.find-create row w.devices rows j created
                          ∙ ap
                              (λ z.
                                if dto.device_id == j
                                then some z
                                else p.devices.find_unique j w.devices)
                              same,
                    )
              ]
      ]

  -- When an enrollment returns, the device is active, with a heartbeat of now, the key of the
  -- request, RSA-2048 where it names no algorithm, and hardware-backed only if it says so. Under a
  -- new id the row is the request's. Under an id that is taken the row keeps its tenant, its user,
  -- its name and its date, whoever made the request. The row is stored, and no other row changes.
  pub enroll_ok :
      (dto : EnrollDeviceDto) (w w' : World p) (d : Device)
      → enroll p dto w ≡ (ok d, w')
      → (d ≡ enrolled_row w dto (p.devices.find_unique dto.device_id w.devices))
        × ((j : String)
            → p.devices.find_unique j w'.devices
              ≡ (if dto.device_id == j then some d else p.devices.find_unique j w.devices))
  unfolding enroll find_device
  enroll_ok dto w w' d e = elim (Option-cases (p.devices.find_unique dto.device_id w.devices)) [
    | inl free ↦
        let (row, stored) = enroll_new_ok dto w w' d (ground (arith, free)) in
        (row ∙ new_device_lem w dto ∙ sym (ap (enrolled_row w dto) free), stored)
    | inr (old, there) ↦
        let (row, stored) = re_enroll_ok dto old w w' d there (ground (arith, there)) in
        (row ∙ re_enroll_patch_lem w dto old ∙ sym (ap (enrolled_row w dto) there), stored)
  ]

  -- A device that has just been enrolled is found by its id.
  pub find_by_id-enroll :
      (dto : EnrollDeviceDto) (w w' : World p) (d : Device)
      → enroll p dto w ≡ (ok d, w')
      → find_by_id p dto.device_id w' ≡ (ok (some d), w')
  unfolding find_by_id find_device
  find_by_id-enroll dto w w' d e =
      ap (λ o. (ok o, w'))
        ((enroll_ok dto w w' d e).1 dto.device_id ∙ rw (eq_refl dto.device_id) refl)

  -- A row as a heartbeat leaves it, if it is there.
  abbrev pub beaten : ℕ → Option Device → Option Device
  beaten t none = none
  beaten t (some d) = some (beat_patch t d)

  -- A heartbeat of a device that is not enrolled throws and leaves every row alone; that of an
  -- enrolled device returns its row with the heartbeat set to now, stores it, and leaves every
  -- other row alone.
  pub heartbeat_effect :
      (device_id j : String) (w : World p)
      → let (result, w') = heartbeat p device_id w in
        (result ≡ elim (p.devices.find_unique device_id w.devices) [
          | none ↦ thrown record_missing
          | some d ↦ ok (beat_patch (p.clock w.readings) d)
        ])
        × (p.devices.find_unique j w'.devices ≡ (
            if device_id == j
            then beaten (p.clock w.readings) (p.devices.find_unique device_id w.devices)
            else p.devices.find_unique j w.devices))
  unfolding heartbeat now update_device
  heartbeat_effect device_id j w =
      let patch = beat_patch (p.clock w.readings) in
      elim (Option-cases (p.devices.find_unique device_id w.devices)) [
        | inl missing ↦
            let none_updated = p.devices.update_missing device_id patch w.devices missing in
            (
              ground (arith, missing, none_updated),
              ground (arith, missing, none_updated, eq_iff device_id j),
            )
        | inr (d, there) ↦
            let (rows, updated) = p.devices.update_found device_id patch d w.devices there in
            (
              ground (arith, there, updated),
              ground (
                arith,
                there,
                updated,
                p.devices.find-update device_id j patch (patch d) w.devices rows (λ _. refl)
                    updated,
              ),
            )
      ]
