-- ===== src/Integrity/Services.antt =====
-- The methods of the services of services/hub-api against the integrity of the state.
use troofai_mvp.Prelude.{ℕ, String, refl, Bool, true, false, Option, none, some, arith}
use troofai_mvp.Schema.{Tenant, Device}
use troofai_mvp.Platform.{Platform}
use troofai_mvp.Exec.{ok, thrown, Exception, pure, throw}
use troofai_mvp.World.{
  World, find_device, find_meeting, find_participant, find_tenant_by_name, update_device,
  create_participant,
}
use troofai_mvp.Audit.{AuditLogInput, log}
use troofai_mvp.Auth.{demo_name, ensure_demo_tenant, new_demo_tenant, get_demo_tenant}
use troofai_mvp.Device.{
  EnrollDeviceDto, enroll, re_enroll, enroll_new, heartbeat, re_enroll_patch, beat_patch,
}
use troofai_mvp.Meeting.{
  CreateMeetingDto, AddParticipantDto, create, add_participant, issue_join_token, require,
  new_participant,
}
use troofai_mvp.Integrity.{
  IsSound, Extends, Extends-refl, Extends-trans, Keeps, Keeps-bind, HasDevice, IsLinked,
}
use troofai_mvp.Integrity.Quiet.{
  Keeps-now, Keeps-random_uuid, Keeps-random_hex, Keeps-redis_get, Keeps-on_gateway, Keeps-same,
  Keeps-or_throw, Keeps-json_parse, Keeps-redis_del, Keeps-set_token,
}
use troofai_mvp.Integrity.Writes.{
  Keeps-create_tenant, Keeps-create_device, Keeps-create_meeting, Keeps-create_participant,
  Keeps-create_audit_event,
}
use troofai_mvp.Integrity.Updates.{Keeps-update_device}

module _ (p : Platform) where
  pub Keeps-pure : {A : Type 0} (a : A) (w : World p) → Keeps p (pure a) w
  Keeps-pure a w = Keeps-same p (ok a) w

  pub Keeps-throw : {A : Type 0} (x : Exception) (w : World p) → Keeps p (throw {A = A} x) w
  Keeps-throw x w = Keeps-same p (thrown x) w

  pub Keeps-find_device : (id : String) (w : World p) → Keeps p (find_device p id) w
  unfolding find_device
  Keeps-find_device id w = record { at = λ s. (s, Extends-refl p w) }

  pub Keeps-find_meeting : (id : String) (w : World p) → Keeps p (find_meeting p id) w
  unfolding find_meeting
  Keeps-find_meeting id w = record { at = λ s. (s, Extends-refl p w) }

  pub Keeps-find_participant : (id : String) (w : World p) → Keeps p (find_participant p id) w
  unfolding find_participant
  Keeps-find_participant id w = record { at = λ s. (s, Extends-refl p w) }

  pub Keeps-find_tenant_by_name :
      (name : String) (w : World p) → Keeps p (find_tenant_by_name p name) w
  unfolding find_tenant_by_name
  Keeps-find_tenant_by_name name w = record { at = λ s. (s, Extends-refl p w) }

  pub Keeps-require : (b : Bool) (x : Exception) (w : World p) → Keeps p (require p b x) w
  Keeps-require true x w = Keeps-same p (ok tt) w
  Keeps-require false x w = Keeps-same p (thrown x) w

pub ruleset keeps_rules = (
  Keeps-bind, Keeps-pure, Keeps-throw, Keeps-now, Keeps-random_uuid, Keeps-random_hex,
  Keeps-redis_get, Keeps-redis_del, Keeps-on_gateway, Keeps-or_throw, Keeps-json_parse,
  Keeps-set_token, Keeps-find_device, Keeps-find_meeting, Keeps-find_participant,
  Keeps-find_tenant_by_name, Keeps-require, Keeps-create_tenant, Keeps-create_device,
  Keeps-create_meeting, Keeps-create_audit_event,
)

module _ (p : Platform) where
  pub Keeps-log : (input : AuditLogInput) (w : World p) → Keeps p (log p input) w
  unfolding log
  Keeps-log input w = search keeps_rules

  pub Keeps-new_demo_tenant : (w : World p) → Keeps p (new_demo_tenant p) w
  unfolding new_demo_tenant
  Keeps-new_demo_tenant w = search keeps_rules

  demo_rest :
      (found : Option Tenant) (w : World p)
      → Keeps p (elim found [ none ↦ new_demo_tenant p | some tenant ↦ pure tenant ]) w
  demo_rest none w = Keeps-new_demo_tenant w
  demo_rest (some tenant) w = Keeps-pure p tenant w

  Keeps-ensure_demo_tenant : (w : World p) → Keeps p (ensure_demo_tenant p) w
  unfolding ensure_demo_tenant
  Keeps-ensure_demo_tenant w =
      Keeps-bind p (find_tenant_by_name p demo_name)
        (λ found. elim found [ none ↦ new_demo_tenant p | some tenant ↦ pure tenant ]) w
        (Keeps-find_tenant_by_name p demo_name w) (λ found v _ _. demo_rest found v)

  pub Keeps-get_demo_tenant : (w : World p) → Keeps p (get_demo_tenant p) w
  unfolding get_demo_tenant
  Keeps-get_demo_tenant w = search (keeps_rules, Keeps-ensure_demo_tenant)

  Keeps-re_enroll : (dto : EnrollDeviceDto) (w : World p) → Keeps p (re_enroll p dto) w
  unfolding re_enroll
  Keeps-re_enroll dto w = search (keeps_rules, Keeps-log, patched)
    where
      patched :
          (t : ℕ) (v : World p) → Keeps p (update_device p dto.device_id (re_enroll_patch dto t)) v
      patched t v =
          Keeps-update_device p dto.device_id (re_enroll_patch dto t) v (λ d. refl)
            (λ d. record { tenant = refl; user = refl; name = refl; enrolled = refl })

  Keeps-enroll_new : (dto : EnrollDeviceDto) (w : World p) → Keeps p (enroll_new p dto) w
  unfolding enroll_new
  Keeps-enroll_new dto w = search (keeps_rules, Keeps-log)

  pub Keeps-enroll : (dto : EnrollDeviceDto) (w : World p) → Keeps p (enroll p dto) w
  unfolding enroll
  Keeps-enroll dto w =
      Keeps-bind p (find_device p dto.device_id)
        (λ found. elim found [ none ↦ enroll_new p dto | some _ ↦ re_enroll p dto ]) w
        (Keeps-find_device p dto.device_id w) (λ found v _ _. rest found v)
    where
      rest :
          (found : Option Device) (v : World p)
          → Keeps p (elim found [ none ↦ enroll_new p dto | some _ ↦ re_enroll p dto ]) v
      rest none v = Keeps-enroll_new dto v
      rest (some _) v = Keeps-re_enroll dto v

  pub Keeps-heartbeat : (id : String) (w : World p) → Keeps p (heartbeat p id) w
  unfolding heartbeat
  Keeps-heartbeat id w = search (keeps_rules, patched)
    where
      patched : (t : ℕ) (v : World p) → Keeps p (update_device p id (beat_patch t)) v
      patched t v =
          Keeps-update_device p id (beat_patch t) v (λ d. refl)
            (λ d. record { tenant = refl; user = refl; name = refl; enrolled = refl })

  pub Keeps-create : (dto : CreateMeetingDto) (w : World p) → Keeps p (create p dto) w
  unfolding create
  Keeps-create dto w = search (keeps_rules, Keeps-log)

  pub Keeps-add_participant :
      (mid : String) (dto : AddParticipantDto) (w : World p) → Keeps p (add_participant p mid dto) w
  unfolding add_participant
  Keeps-add_participant mid dto w = search (keeps_rules, Keeps-log, joined) depth 12
    where
      joined :
          (id : String) (t : ℕ) (v : World p)
          → Keeps p (create_participant p (new_participant mid dto id t)) v
      joined id t v =
          Keeps-create_participant p (new_participant mid dto id t) v refl (λ e. ground arith)

  pub Keeps-issue_join_token :
      (mid pid : String) (w : World p) → Keeps p (issue_join_token p mid pid) w
  unfolding issue_join_token
  Keeps-issue_join_token mid pid w = search keeps_rules depth 12
