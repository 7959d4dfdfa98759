-- ===== src/Tests/Sample.antt =====
-- A sample device: feature identifiers, blank structs, and a transport with scripted answers.
use abrek_mouse.Prelude.{ℕ, ◌+◌, ◌-◌, ◌*◌, true, false, List, [], ◌∷◌, ◌++◌, length, replicate}
use abrek_mouse.Hidpp.Features.{FeatureIds}
use abrek_mouse.Hidpp.Header.{Header, DpiInfo, DeviceInfo, Device}
use abrek_mouse.Hidpp.Records.{FirmwareRecord, PairingSlot}
use abrek_mouse.Hidpp.Transport.State.{Transport, Round, reading, report, wrote}

abbrev pub sample_ids : FeatureIds
sample_ids = record {
  root = 0x0000;
  feature_set = 0x0001;
  feature_info = 0x0002;
  device_fw_version = 0x0003;
  device_unit_id = 0x0004;
  device_name = 0x0005;
  device_groups = 0x0006;
  device_friendly_name = 0x0007;
  keep_alive = 0x0008;
  wireless_status = 0x0009;
  device_activity = 0x000A;
  keyboard_info = 0x000B;
  mouse_info = 0x000C;
  sensor_info = 0x000D;
  gesture = 0x000E;
  battery_status = 0x1000;
  unified_battery = 0x1004;
  centurion_battery_soc = 0x1005;
  battery_voltage = 0x1001;
  adjustable_dpi = 0x2201;
  extended_adjustable_dpi = 0x2202;
  report_rate = 0x8060;
  extended_adjustable_report_rate = 0x8061;
  smart_shift = 0x2110;
  onboard_profiles = 0x8100;
  led_control = 0x1300;
  backlight = 0x1981;
  backlight2 = 0x1982;
  backlight3 = 0x1983;
  illumination = 0x1990;
  wireless_device_status = 0x1D4B;
  change_host = 0x1814;
  brightness_control = 0x8040;
  reprog_controls_v4 = 0x1B04;
}

abbrev pub sample_dpi : DpiInfo
sample_dpi = record {
  extended = false;
  supports_y = false;
  supports_lift_off_distance = false;
  dpi_default = 0;
  dpi_current = 0;
  dpi_current_y = 0;
  lift_off_distance = 0;
  dpi_levels = [];
  dpi_min = 0;
  dpi_max = 0;
}

abbrev sample_info : DeviceInfo
sample_info = record {
  protocol_version = 0;
  target = 0;
  name = [];
  device_kind = 0;
  friendly_name = [];
  unit_id = [];
  transport_flags = 0;
  model_id = [];
  serial = [];
  bluetooth_id = [];
  bluetooth_le_id = [];
  wireless_pid = [];
  usb_id = [];
  firmware_records = [];
  firmware_name = [];
  firmware_major = 0;
  firmware_minor = 0;
  firmware_build = 0;
  firmware_version = 0;
}

abbrev sample_firmware : FirmwareRecord
sample_firmware = record {
  level = 0;
  name = [];
  major = 0;
  minor = 0;
  build = 0;
  transport_flags = 0;
  model_id = [];
  extras_hex = [];
}

abbrev pub sample_slot : PairingSlot
sample_slot = record {
  slot = 0;
  occupied = false;
  pid = 0;
  connection_type = 0;
  name = [];
  serial = [];
}

abbrev sample_device : Device
sample_device = record {
  hidraw_path = [];
  vendor_id = 0x046d;
  product_id = 0;
  device_index = 0xFF;
  info = sample_info;
  features = [];
  feature_metadata = [];
  connected = false;
}

abbrev pub sample_header : Header
sample_header = record {
  ids = sample_ids;
  blank_dpi = sample_dpi;
  blank_info = sample_info;
  blank_firmware = sample_firmware;
  blank_slot = sample_slot;
  blank_device = sample_device;
  default_target = 0xFF;
}

-- A long report of device 1: feature index, function and software id, and the payload.
abbrev pub long : ℕ → ℕ → List ℕ → List ℕ
long index call payload = 0x11 ∷ 1 ∷ index ∷ call ∷ (payload ++ replicate (16 - length payload) 0)

abbrev pub hear : List ℕ → Round
hear d = reading (report d ∷ [])

-- A transport that writes 20 bytes at a time, hears `rounds`, and has cached that the profiles
-- (0x8100) stand at index 9 and the DPI (0x2201) at index 7.
abbrev pub sample : List Round → Transport
sample rounds = record {
  is_open = true;
  vendor_id = 0x046d;
  product_id = 0xc52b;
  device_index = 1;
  next_sw_id = 1;
  feature_indices = (1 * 65536 + 0x8100, 9) ∷ (1 * 65536 + 0x2201, 7) ∷ [];
  feature_sets = [];
  feature_metadata_sets = [];
  pending_notifications = [];
  onboard_profiles_disabled_by_us = false;
  writes = replicate 8 (replicate 4 (wrote 20));
  rounds = rounds;
  sent = [];
  budget_checks = [];
}

-- Profiles are off; no extended DPI feature; 800 dpi now; the levels 800 and 1600; the setter's
-- echo.
abbrev pub dpi_script : List Round
dpi_script =
    hear (long 9 0x21 (2 ∷ []))
    ∷ hear (long 0 0x02 [])
    ∷ hear (long 7 0x23 (0 ∷ 0x03 ∷ 0x20 ∷ 0x03 ∷ 0x20 ∷ []))
    ∷ hear (long 7 0x14 (0 ∷ 0x03 ∷ 0x20 ∷ 0x06 ∷ 0x40 ∷ []))
    ∷ hear (long 7 0x35 (0 ∷ 0x06 ∷ 0x40 ∷ []))
    ∷ []
