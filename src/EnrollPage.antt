-- ===== src/EnrollPage.antt =====
-- apps/web/src/app/enrollment/page.tsx: the state of the form and `startEnrollment`, from the click to
-- its last wait. The random id and the date are parameters; the markup is left out.
use Prim.Native.String
use troofai_mvp.Prelude.{ℕ, zero, suc, String, Bool, true, Option, none, some}
use troofai_mvp.Prelude.Text.{first_chars}
use troofai_mvp.World.{truthy}

pub record ShownDevice : Type 0 where
  pub id : String
  pub user_id : String
  pub display_name : String
  pub hardware_bound : Bool
  pub status : String
  pub key_algorithm : String
  pub enrolled_at : String

pub data Step : Type 0 where
  form binding success : Step

pub record EnrollPage : Type 0 where
  pub step : Step
  pub employee_email : String
  pub employee_name : String
  pub bind_phase : ℕ
  pub enrolled_device : Option ShownDevice

abbrev pub first_page : EnrollPage
first_page = record {
  step = form;
  employee_email = "";
  employee_name = "";
  bind_phase = 0;
  enrolled_device = none;
}

-- The loop over the delays: `setBindPhase(i + 1)`, n times from i.
unfoldable pub pass_phases : ℕ → ℕ → EnrollPage → EnrollPage
pass_phases zero i page = page
pass_phases (suc n) i page = pass_phases n (suc i) (record page { bind_phase = suc i })

abbrev pub mock_device : String → String → EnrollPage → ShownDevice
mock_device uuid iso page = record {
  id = String.◌++◌ "dev-" (first_chars 8 uuid);
  user_id = page.employee_email;
  display_name = page.employee_name;
  hardware_bound = true;
  status = "ACTIVE";
  key_algorithm = "RSA-2048";
  enrolled_at = iso;
}

abbrev pub enroll_both : String → String → Option String → Option String → EnrollPage → EnrollPage
enroll_both uuid iso (some email) (some name) page =
    let bound = pass_phases 6 0 (record page { step = binding; bind_phase = 0 }) in
    record bound { enrolled_device = some (mock_device uuid iso bound); step = success }
enroll_both uuid iso _ _ page = page

-- Nothing happens while a field is empty.
unfoldable pub start_enrollment : String → String → EnrollPage → EnrollPage
start_enrollment uuid iso page =
    enroll_both uuid iso (truthy (some page.employee_email)) (truthy (some page.employee_name)) page
