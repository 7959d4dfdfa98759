-- ===== src/Hidpp/Event.antt =====
-- Classification of notifications (src/logitech_hidpp.cpp, classify_hidpp_notification). The
-- defaults of a fresh event stand in a header outside the modelled sources: `blank`.
pub mod Classes
use abrek_mouse.Prelude.{
  ℕ, zero, suc, ◌+◌, ◌-◌, ◌*◌, ◌/◌, ◌%◌, ◌^◌, ◌≤◌, ◌<◌, min, max, ◌≡◌, refl, sym, ap, ◌∙◌, ◌≢◌, ◌↔◌,
  ◌⊎◌, inl, inr, Bool, true, false, not, ◌&&◌, ◌||◌, Option, none, some, List, [], ◌∷◌, ◌++◌, map,
  append-nil, append_assoc, arith, ltb, leb, ◌==◌, if◌then◌else◌, ltb→lt, lt→ltb, leb→le, ==_iff,
  tests, Bool-cases, Option-cases, length, get_or, take, drop, replicate, length-append,
  length-take, length-drop, length-replicate, take-append-drop, take-length, All, any_of, find_if,
  dec_lt,
}
use abrek_mouse.Hidpp.Bytes.{
  IsByte, IsU16, at, bit, hi_byte, lo_byte, be16, read_be16, bounded_string, bytes_to_hex,
  at-IsByte,
}
use Prim.Native.String.{String}
use abrek_mouse.Hidpp.Battery.{BatteryInfo}
use abrek_mouse.Hidpp.Battery.{
  battery_info_from_voltage, parse_unified_battery, parse_battery_status_feature,
  parse_battery_charge, parse_legacy_battery_status, parse_centurion_battery,
}
use abrek_mouse.Hidpp.Notification.{
  Kind, hidpp10, hidpp20, legacy_battery, legacy_illumination, Notification,
}
use abrek_mouse.Hidpp.Features.{FeatureIds, feature_id, hidpp_feature_name}

pub data EventKind : Type 0 where
  battery connection illumination generic unhandled : EventKind

pub record Event : Type 0 where
  pub kind : EventKind
  pub device_index : ℕ
  pub feature_id : ℕ
  pub feature_name : String
  pub battery_info : Option BatteryInfo
  pub connected : Bool
  pub payload : List ℕ

-- The feature that a notification belongs to on a device with the table `features`.
unfoldable pub notification_feature_id : List (ℕ × ℕ) → Notification → Option ℕ
notification_feature_id features n = if n.feature_index == 0 then none else elim n.type [
  | hidpp20 ↦ feature_id features n.feature_index
  | legacy_battery ↦ some n.sub_id
  | legacy_illumination ↦ some n.sub_id
  | hidpp10 ↦ some n.sub_id
]

classify_legacy_battery : Event → Notification → Event
classify_legacy_battery e n = record e {
  kind = battery;
  feature_id = n.sub_id;
  feature_name = if n.sub_id == 0x0D then "battery_charge" else "battery_status";
  battery_info =
      if n.sub_id == 0x0D
      then parse_battery_charge n.payload
      else parse_legacy_battery_status n.payload;
}

abbrev connection_event : Event → String → Bool → Event
connection_event e name up = record e { kind = connection; feature_name = name; connected = up }

abbrev is_nil : List ℕ → Bool
is_nil [] = true
is_nil (x ∷ l) = false

-- Link notifications; all other sub-ids are dropped.
classify_hidpp10 : Event → Notification → Event
classify_hidpp10 e0 n =
    let e : Event = record e0 { feature_id = n.sub_id } in
    if n.sub_id == 0x40
    then connection_event e "connect_disconnect" false
    else if n.sub_id == 0x41
    then connection_event e "dj_pairing" (is_nil n.payload || not (bit (at n.payload 0) 6))
    else if n.sub_id == 0x42
    then connection_event e "connected" (not (bit n.address 0))
    else if n.sub_id == 0x4B
    then connection_event e "power" true
    else record e { kind = unhandled }

abbrev battery_event : Event → Option BatteryInfo → Event
battery_event e info = record e { kind = battery; battery_info = info }

-- The switch over the feature of a HID++ 2.0 notification.
classify_feature : FeatureIds → Event → ℕ → List ℕ → Event
classify_feature ids e f payload =
    if f == ids.battery_status
    then battery_event e (parse_battery_status_feature payload)
    else if f == ids.unified_battery
    then battery_event e (parse_unified_battery payload)
    else if f == ids.centurion_battery_soc
    then battery_event e (parse_centurion_battery payload)
    else if f == ids.battery_voltage
    then record e {
      kind = battery;
      battery_info =
          if leb 3 (length payload)
          then some (battery_info_from_voltage (read_be16 payload) (at payload 2))
          else e.battery_info;
    }
    else if f == ids.wireless_device_status
    then record e { kind = connection; connected = true }
    else if f == ids.led_control
        || f == ids.backlight
        || f == ids.backlight2
        || f == ids.backlight3
        || f == ids.illumination
    then record e { kind = illumination }
    else record e { kind = generic }

classify_hidpp20 : FeatureIds → List (ℕ × ℕ) → Event → Notification → Event
unfolding classify_feature
classify_hidpp20 ids features e n = elim (notification_feature_id features n) [
  | none ↦ record e { kind = unhandled }
  | some f ↦
      classify_feature ids (record e { feature_id = f; feature_name = hidpp_feature_name ids f }) f
        n.payload
]

unfoldable pub classify_hidpp_notification :
    FeatureIds → Event → List (ℕ × ℕ) → Notification → Event
unfolding classify_legacy_battery classify_hidpp10 classify_hidpp20
classify_hidpp_notification ids blank features n =
    let e : Event = record blank { device_index = n.device_index; payload = n.payload } in
    elim n.type [
      | legacy_battery ↦ classify_legacy_battery e n
      | legacy_illumination ↦ record e {
        kind = illumination;
        feature_id = n.sub_id;
        feature_name = "illumination";
      }
      | hidpp10 ↦ classify_hidpp10 e n
      | hidpp20 ↦ classify_hidpp20 ids features e n
    ]
