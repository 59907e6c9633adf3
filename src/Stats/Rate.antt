-- ===== src/Stats/Rate.antt =====
-- The numbers of a report of services/hub-api/src/stats/stats.controller.ts.
use troofai_mvp.Prelude.{
  ℕ, ◌≤◌, String, ◌≡◌, refl, ap, true, Option, arith, ltb, if◌then◌else◌, Bool-cases, inl, inr,
}
use troofai_mvp.Platform.{Platform}
use troofai_mvp.World.{World}
use troofai_mvp.Challenge.{is_verified}
use troofai_mvp.Stats.{Doubles, StatsReport, verified_rate, get_stats}

module _ (p : Platform) (f : Doubles) where
  rate_bounded : (v t : ℕ) → v ≤ t → verified_rate p f v t ≤ 100
  unfolding verified_rate
  rate_bounded v t h = elim (Bool-cases (ltb 0 t)) [
    | inr none_there ↦ rw none_there (omega arith)
    | inl there ↦ rw there (
        omega (
          arith,
          f.round_mono (f.multiply (f.divide (f.of_ℕ v) (f.of_ℕ t)) (f.of_ℕ 100))
              (f.multiply (f.of_ℕ 1) (f.of_ℕ 100))
              (f.multiply_mono (f.divide (f.of_ℕ v) (f.of_ℕ t)) (f.of_ℕ 1) (f.of_ℕ 100)
                (f.divide-Le v t h (ground arith))),
          ap f.round (f.multiply_one 100),
          f.round-of_ℕ 100,
        ))
  ]

  -- If all participants are verified the rate is 100, and 0 if there are none.
  pub verified_rate_full : (t : ℕ) → verified_rate p f t t ≡ (if ltb 0 t then 100 else 0)
  unfolding verified_rate
  verified_rate_full t = elim (Bool-cases (ltb 0 t)) [
    | inr none_there ↦ rw none_there refl
    | inl there ↦
        rw (there, f.divide_self t (ground arith), f.multiply_one 100, f.round-of_ℕ 100) refl
  ]

  -- A report whose numbers agree with one another.
  pub record IsConsistent (r : StatsReport) : Type 0 where
    pub active : r.devices_active ≤ r.devices_total
    pub hardware_bound : r.devices_hardware_bound ≤ r.devices_total
    pub verified : r.participants_verified ≤ r.participants_total
    pub failed : r.participants_failed ≤ r.participants_total
    pub rate : r.verified_rate ≤ 100
    pub threats : r.threats_detected ≡ r.participants_failed

  -- In every report the active and the hardware-bound devices are at most the devices, the verified
  -- and the failed participants at most the participants, the rate at most 100, and the threats
  -- are the failed participants.
  pub get_stats-IsConsistent :
      (tenant_id : Option String) (w : World p) → IsConsistent (get_stats p f tenant_id w)
  unfolding get_stats
  get_stats-IsConsistent tenant_id w =
      let verified_le =
        p.participants.number_mono (λ r. is_verified r.trust_status) (λ r. true) w.participants
          (λ r h. refl) in
      record {
        active = p.devices.number_mono _ _ w.devices (λ d h. ground arith);
        hardware_bound = p.devices.number_mono _ _ w.devices (λ d h. ground arith);
        verified = verified_le;
        failed = p.participants.number_mono _ _ w.participants (λ r h. refl);
        rate = rate_bounded _ _ verified_le;
        threats = refl;
      }

  -- The participants of a report are those of all tenants: the numbers of participants are the same
  -- for any two tenants, and so is the rate.
  pub get_stats_unscoped :
      (a b : Option String) (w : World p)
      → let r = get_stats p f a w in
        let s = get_stats p f b w in
        (r.participants_total ≡ s.participants_total)
        × (r.participants_verified ≡ s.participants_verified)
        × (r.participants_failed ≡ s.participants_failed)
        × (r.verified_rate ≡ s.verified_rate)
        × (r.threats_detected ≡ s.threats_detected)
  unfolding get_stats
  get_stats_unscoped a b w = (refl, refl, refl, refl, refl)
