-- ===== src/Hidpp/Features.antt =====
-- HID++ 2.0 features: the identifiers, their names, and a device's table from feature to dynamic
-- index (src/logitech_hidpp.cpp). The enumeration `hidpp_feature_index` and its values stand in a
-- header outside the modelled sources, so the values are a parameter.
use abrek_mouse.Prelude.{
  ℕ, Bool, true, false, ◌||◌, Option, none, some, List, [], ◌∷◌, ◌==◌, if◌then◌else◌,
}
use Prim.Native.String.{String}

pub record FeatureIds : Type 0 where
  pub root : ℕ
  pub feature_set : ℕ
  pub feature_info : ℕ
  pub device_fw_version : ℕ
  pub device_unit_id : ℕ
  pub device_name : ℕ
  pub device_groups : ℕ
  pub device_friendly_name : ℕ
  pub keep_alive : ℕ
  pub wireless_status : ℕ
  pub device_activity : ℕ
  pub keyboard_info : ℕ
  pub mouse_info : ℕ
  pub sensor_info : ℕ
  pub gesture : ℕ
  pub battery_status : ℕ
  pub unified_battery : ℕ
  pub centurion_battery_soc : ℕ
  pub battery_voltage : ℕ
  pub adjustable_dpi : ℕ
  pub extended_adjustable_dpi : ℕ
  pub report_rate : ℕ
  pub extended_adjustable_report_rate : ℕ
  pub smart_shift : ℕ
  pub onboard_profiles : ℕ
  pub led_control : ℕ
  pub backlight : ℕ
  pub backlight2 : ℕ
  pub backlight3 : ℕ
  pub illumination : ℕ
  pub wireless_device_status : ℕ
  pub change_host : ℕ
  pub brightness_control : ℕ
  pub reprog_controls_v4 : ℕ

-- The cases of the switch, in its order.
feature_names : FeatureIds → List (ℕ × String)
feature_names i =
    (i.root, "root")
    ∷ (i.feature_set, "feature_set")
    ∷ (i.feature_info, "feature_info")
    ∷ (i.device_fw_version, "device_fw_version")
    ∷ (i.device_unit_id, "device_unit_id")
    ∷ (i.device_name, "device_name")
    ∷ (i.device_groups, "device_groups")
    ∷ (i.device_friendly_name, "device_friendly_name")
    ∷ (i.keep_alive, "keep_alive")
    ∷ (i.wireless_status, "wireless_status")
    ∷ (i.device_activity, "device_activity")
    ∷ (i.keyboard_info, "keyboard_info")
    ∷ (i.mouse_info, "mouse_info")
    ∷ (i.sensor_info, "sensor_info")
    ∷ (i.gesture, "gesture")
    ∷ (i.battery_status, "battery_status")
    ∷ (i.unified_battery, "unified_battery")
    ∷ (i.centurion_battery_soc, "centurion_battery_soc")
    ∷ (i.battery_voltage, "battery_voltage")
    ∷ (i.adjustable_dpi, "adjustable_dpi")
    ∷ (i.extended_adjustable_dpi, "extended_adjustable_dpi")
    ∷ (i.report_rate, "report_rate")
    ∷ (i.extended_adjustable_report_rate, "extended_adjustable_report_rate")
    ∷ (i.smart_shift, "smart_shift")
    ∷ (i.onboard_profiles, "onboard_profiles")
    ∷ (i.led_control, "led_control")
    ∷ (i.backlight, "backlight")
    ∷ (i.backlight2, "backlight2")
    ∷ (i.backlight3, "backlight3")
    ∷ (i.illumination, "illumination")
    ∷ (i.wireless_device_status, "wireless_device_status")
    ∷ []

name_in : List (ℕ × String) → ℕ → String
name_in [] f = "unknown"
name_in ((g, name) ∷ rest) f = if g == f then name else name_in rest f

pub hidpp_feature_name : FeatureIds → ℕ → String
unfolding feature_names name_in
hidpp_feature_name ids f = name_in (feature_names ids) f

-- The table of a device: feature identifiers with their dynamic indices, in discovery order.
unfoldable pub feature_index : List (ℕ × ℕ) → ℕ → Option ℕ
feature_index [] f = none
feature_index ((g, i) ∷ rest) f = if g == f then some i else feature_index rest f

unfoldable pub feature_id : List (ℕ × ℕ) → ℕ → Option ℕ
feature_id [] i = none
feature_id ((g, j) ∷ rest) i = if j == i then some g else feature_id rest i

unfoldable pub has_feature : List (ℕ × ℕ) → ℕ → Bool
has_feature [] f = false
has_feature ((g, i) ∷ rest) f = g == f || has_feature rest f

-- `supports_feature` of a device.
unfoldable pub supports_feature : List (ℕ × ℕ) → ℕ → Bool
supports_feature features f = elim (feature_index features f) [ none ↦ false | some i ↦ true ]
