-- ===== src/Examples/Devices.antt =====
-- Devices of the small hub: the phone is enrolled again, and the laptop beats.
use troofai_mvp.Prelude.{String, ◌≡◌, refl, none, some, false, ◌==◌, if◌then◌else◌}
use troofai_mvp.Schema.{Device}
use troofai_mvp.Exec.{ok}
use troofai_mvp.World.{World, now, random_uuid, find_device, update_device, create_audit_event}
use troofai_mvp.Audit.{log}
use troofai_mvp.Device.{EnrollDeviceDto, enroll, re_enroll, re_enroll_patch}
use troofai_mvp.Device.Enrollment.{enrolled_row, enroll_ok}
use troofai_mvp.Memory.{memory}
use troofai_mvp.Memory.Rows.{list_table, find, many, insert, change, without}
use troofai_mvp.Memory.Entries.{list_redis}
use troofai_mvp.Memory.Texts.{bits, bits_from}
use troofai_mvp.Examples.{hub, phone}

-- A request in the name of another user, for the phone, which is revoked.
abbrev request : EnrollDeviceDto
request = record {
  tenant_id = "acme";
  device_id = "phone";
  user_id = "eve";
  display_name = "Eve's phone";
  public_key_pem = "eve-pem";
  key_algorithm = none;
  hardware_bound = some false;
}

abbrev taken_over : Device
taken_over = re_enroll_patch request 1000000 phone

enrolled : World memory
enrolled = (enroll memory request hub).1

enrolled-enroll : enroll memory request hub ≡ (ok taken_over, enrolled)
unfolding enrolled enroll re_enroll hub memory list_table list_redis find insert change without many
    bits bits_from log now random_uuid find_device update_device create_audit_event
enrolled-enroll = refl

enroll_ok_example :
    (taken_over ≡ enrolled_row memory hub request (memory.devices.find_unique "phone" hub.devices))
    × ((j : String)
        → memory.devices.find_unique j enrolled.devices
          ≡ (if "phone" == j then some taken_over else memory.devices.find_unique j hub.devices))
enroll_ok_example = enroll_ok memory request hub enrolled taken_over enrolled-enroll
