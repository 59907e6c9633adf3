-- ===== src/Stats.antt =====
-- services/hub-api/src/stats/stats.controller.ts. Numbers of JavaScript are doubles: the division,
-- the product and the rounding of the rate are operations of a record.
pub mod Rate
use troofai_mvp.Prelude.{
  ℕ, ◌≤◌, ◌<◌, String, ◌≡◌, Bool, true, false, ◌&&◌, Option, none, some, ◌==◌, ltb, if◌then◌else◌,
}
use troofai_mvp.Schema.{TrustStatus, failed}
use troofai_mvp.Platform.{Platform}
use troofai_mvp.Policy.{is_active}
use troofai_mvp.Challenge.{is_verified}
use troofai_mvp.World.{World, truthy}

-- Doubles, with what IEEE 754 says of integers below 2^53: they and their products with 100 are
-- exact, and every operation is monotone.
pub record Doubles : Type 1 where
  pub Double : Type 0
  pub of_ℕ : ℕ → Double
  pub divide : Double → Double → Double
  pub multiply : Double → Double → Double
  -- `Math.round` of a number that is not negative
  pub round : Double → ℕ
  pub Le : Double → Double → Type 0
  pub divide-Le : (a b : ℕ) → a ≤ b → 0 < b → Le (divide (of_ℕ a) (of_ℕ b)) (of_ℕ 1)
  pub divide_self : (b : ℕ) → 0 < b → divide (of_ℕ b) (of_ℕ b) ≡ of_ℕ 1
  pub divide_zero : (b : ℕ) → 0 < b → divide (of_ℕ 0) (of_ℕ b) ≡ of_ℕ 0
  pub multiply_mono : (x y z : Double) → Le x y → Le (multiply x z) (multiply y z)
  pub multiply_one : (n : ℕ) → multiply (of_ℕ 1) (of_ℕ n) ≡ of_ℕ n
  pub multiply_zero : (n : ℕ) → multiply (of_ℕ 0) (of_ℕ n) ≡ of_ℕ 0
  pub round_mono : (x y : Double) → Le x y → round x ≤ round y
  pub round-of_ℕ : (n : ℕ) → round (of_ℕ n) ≡ n

pub record StatsReport : Type 0 where
  pub devices_total : ℕ
  pub devices_active : ℕ
  pub devices_hardware_bound : ℕ
  pub meetings_total : ℕ
  pub participants_total : ℕ
  pub participants_verified : ℕ
  pub participants_failed : ℕ
  pub verified_rate : ℕ
  pub audit_events : ℕ
  pub threats_detected : ℕ

abbrev pub is_failed : TrustStatus → Bool
is_failed failed = true
is_failed _ = false

-- `tenantId ? { tenantId } : {}`
abbrev pub in_tenant : Option String → String → Bool
in_tenant tenant_id id = elim (truthy tenant_id) [ none ↦ true | some t ↦ id == t ]

module _ (p : Platform) (f : Doubles) where
  unfoldable pub verified_rate : ℕ → ℕ → ℕ
  verified_rate verified total =
      if ltb 0 total
      then f.round (f.multiply (f.divide (f.of_ℕ verified) (f.of_ℕ total)) (f.of_ℕ 100))
      else 0

  unfoldable pub get_stats : Option String → World p → StatsReport
  get_stats tenant_id w =
      let total_participants = p.participants.number (λ r. true) w.participants in
      let verified_participants =
        p.participants.number (λ r. is_verified r.trust_status) w.participants in
      let failed_participants =
        p.participants.number (λ r. is_failed r.trust_status) w.participants in
      record {
        devices_total = p.devices.number (λ d. in_tenant tenant_id d.tenant_id) w.devices;
        devices_active =
            p.devices.number (λ d. in_tenant tenant_id d.tenant_id && is_active d.status) w.devices;
        devices_hardware_bound =
            p.devices.number (λ d. in_tenant tenant_id d.tenant_id && d.hardware_bound) w.devices;
        meetings_total = p.meetings.number (λ m. in_tenant tenant_id m.tenant_id) w.meetings;
        participants_total = total_participants;
        participants_verified = verified_participants;
        participants_failed = failed_participants;
        verified_rate = verified_rate verified_participants total_participants;
        audit_events = p.audit_events.number (λ e. in_tenant tenant_id e.tenant_id) w.audit_events;
        threats_detected = failed_participants;
      }
