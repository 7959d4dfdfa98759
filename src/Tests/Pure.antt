-- ===== src/Tests/Pure.antt =====
-- The theorems on the codecs and tables, run on concrete bytes.
use abrek_mouse.Prelude.{
  ℕ, ◌≤◌, ◌<◌, ◌≡◌, refl, ◌≢◌, ◌↔◌, ◌⊎◌, true, false, none, some, List, [], ◌∷◌, ◌++◌, arith,
  length, drop, replicate, length-replicate, All,
}
use abrek_mouse.Hidpp.Bytes.{IsByte, at}
use abrek_mouse.Tests.Sample.{sample_ids}
use abrek_mouse.Hidpp.Packet.{
  Packet, IsWire, is_hidpp_error, normalize_function_id, short_to_bytes, short_from_bytes,
  long_to_bytes, long_from_bytes, very_long_to_bytes, very_long_from_bytes,
}
use abrek_mouse.Hidpp.Packet.RoundTrip.{from_bytes-to_bytes, to_bytes-from_bytes}
use abrek_mouse.Hidpp.Dpi.{decode_dpi_levels}
use abrek_mouse.Hidpp.Dpi.Levels.{IsDpi, decode_dpi_levels_bounds}
use abrek_mouse.Hidpp.Dpi.Ranges.{Entry, level, range, encode, meaning, decode_dpi_levels-encode}
use abrek_mouse.Hidpp.Battery.{
  BatteryInfo, parse_unified_battery, parse_battery_status_feature, parse_battery_charge,
  parse_legacy_battery_status, parse_centurion_battery, battery_info_from_voltage,
}
use abrek_mouse.Hidpp.Battery.Bounds.{Answers, parsers-Answers, battery_info_from_voltage_mono}
use abrek_mouse.Hidpp.Notification.{
  Notification, hidpp20, notification_from_bytes, is_report_size, is_report_id, hidpp10,
}
use abrek_mouse.Hidpp.Notification.Accept.{
  Shape, notification_from_bytes-Shape, error-ne-notification,
}
use abrek_mouse.Hidpp.Event.{Event, unhandled, classify_hidpp_notification}
use abrek_mouse.Hidpp.Event.Classes.{IsFree, classify-unhandled}

-- A packet with the report `id`, for feature 7, with `n` parameter bytes 5.
abbrev packet : ℕ → ℕ → Packet
packet id n = record {
  report_id = id;
  device_index = 1;
  feature_index = 7;
  function_id = 2;
  software_id = 3;
  params = replicate n 5;
}

packet-IsWire : (id n : ℕ) → IsWire id n (packet id n)
packet-IsWire id n = record {
  reported = refl;
  function_fits = omega arith;
  software_fits = omega arith;
  filled = let five : ℕ = 5 in length-replicate n five;
}

from_bytes-to_bytes_example :
    (short_from_bytes (short_to_bytes (packet 0x10 3)) ≡ some (packet 0x10 3))
    × (long_from_bytes (long_to_bytes (packet 0x11 16)) ≡ some (packet 0x11 16))
    × (very_long_from_bytes (very_long_to_bytes (packet 0x12 60)) ≡ some (packet 0x12 60))
from_bytes-to_bytes_example =
    from_bytes-to_bytes (packet 0x10 3) (packet 0x11 16) (packet 0x12 60) (packet-IsWire 0x10 3)
      (packet-IsWire 0x11 16) (packet-IsWire 0x12 60)

abbrev short_bytes : List ℕ
short_bytes = 0x10 ∷ 1 ∷ 7 ∷ 0x23 ∷ 5 ∷ 5 ∷ 5 ∷ []

short_bytes-IsByte : All IsByte short_bytes
short_bytes-IsByte = (
  omega arith,
  (omega arith, (omega arith, (omega arith, (omega arith, (omega arith, (omega arith, tt)))))),
)

to_bytes-from_bytes_example :
    (short_to_bytes (packet 0x10 3) ≡ short_bytes) × IsWire 0x10 3 (packet 0x10 3)
unfolding short_from_bytes normalize_function_id
to_bytes-from_bytes_example =
    to_bytes-from_bytes short_bytes (packet 0x10 3) short_bytes-IsByte refl

abbrev dpi_bytes : List ℕ
dpi_bytes = 0x03 ∷ 0x20 ∷ 0xE0 ∷ 0x32 ∷ 0x06 ∷ 0x40 ∷ 0 ∷ 0 ∷ []

decode_dpi_levels_bounds_example :
    All IsDpi (decode_dpi_levels dpi_bytes) × (length (decode_dpi_levels dpi_bytes) ≤ 2052)
decode_dpi_levels_bounds_example = decode_dpi_levels_bounds dpi_bytes

-- 800, and from there in steps of 300 up to 1600.
abbrev entries : List Entry
entries = level 800 ∷ range 300 1600 ∷ []

decode_dpi_levels-encode_example :
    decode_dpi_levels (encode entries ++ 0 ∷ 0 ∷ 9 ∷ []) ≡ meaning [] entries
decode_dpi_levels-encode_example =
    decode_dpi_levels-encode entries (9 ∷ [])
      ((omega arith, omega arith), ((omega arith, omega arith, omega arith), tt))
      (omega arith, (ground arith, tt))

parsers-Answers_example :
    Answers (55 ∷ 8 ∷ 0 ∷ []) (parse_unified_battery (55 ∷ 8 ∷ 0 ∷ []))
    × Answers (55 ∷ 8 ∷ 0 ∷ []) (parse_battery_status_feature (55 ∷ 8 ∷ 0 ∷ []))
    × Answers (55 ∷ 8 ∷ 0 ∷ []) (parse_battery_charge (55 ∷ 8 ∷ 0 ∷ []))
    × Answers (55 ∷ 8 ∷ 0 ∷ []) (parse_legacy_battery_status (55 ∷ 8 ∷ 0 ∷ []))
    × Answers (55 ∷ 8 ∷ 0 ∷ []) (parse_centurion_battery (55 ∷ 8 ∷ 0 ∷ []))
parsers-Answers_example = parsers-Answers (55 ∷ 8 ∷ 0 ∷ [])

battery_info_from_voltage_mono_example :
    ((battery_info_from_voltage 3700 0).level ≤ (battery_info_from_voltage 3900 0x80).level)
    × ((battery_info_from_voltage 3900 0x80).level ≤ 100)
battery_info_from_voltage_mono_example =
    battery_info_from_voltage_mono 3700 3900 0 0x80 (omega arith)

abbrev notified_bytes : List ℕ
notified_bytes = 0x11 ∷ 1 ∷ 8 ∷ 0x00 ∷ 55 ∷ 8 ∷ 0 ∷ replicate 13 0

notified_bytes-IsByte : All IsByte notified_bytes
notified_bytes-IsByte = (
  omega arith,
  (
    omega arith,
    (
      omega arith,
      (
        omega arith,
        (
          omega arith,
          (
            omega arith,
            (
              omega arith,
              (
                omega arith,
                (
                  omega arith,
                  (
                    omega arith,
                    (
                      omega arith,
                      (
                        omega arith,
                        (
                          omega arith,
                          (
                            omega arith,
                            (
                              omega arith,
                              (
                                omega arith,
                                (omega arith, (omega arith, (omega arith, (omega arith, tt)))),
                              ),
                            ),
                          ),
                        ),
                      ),
                    ),
                  ),
                ),
              ),
            ),
          ),
        ),
      ),
    ),
  ),
)

abbrev notified : Notification
notified = record {
  report_id = 0x11;
  device_index = 1;
  sub_id = 8;
  address = 0;
  feature_index = 8;
  type = hidpp20;
  payload = 55 ∷ 8 ∷ 0 ∷ replicate 13 0;
}

notification_from_bytes-Shape_example :
    (is_report_size (length notified_bytes) ≡ true)
    × (is_report_id (at notified_bytes 0) ≡ true)
    × (0 < notified.sub_id)
    × (notified.sub_id < 128)
    × (notified.sub_id ≡ at notified_bytes 2)
    × (notified.device_index ≡ at notified_bytes 1)
    × (notified.payload ≡ drop 4 notified_bytes)
    × (notified.report_id ≡ at notified_bytes 0)
    × (notified.address ≡ at notified_bytes 3)
    × (notified.feature_index ≡ at notified_bytes 2)
    × Shape notified.type notified_bytes
unfolding notification_from_bytes
notification_from_bytes-Shape_example =
    notification_from_bytes-Shape notified_bytes notified notified_bytes-IsByte refl

error-ne-notification_example :
    notification_from_bytes (0x10 ∷ 1 ∷ 0x8F ∷ 7 ∷ 0x23 ∷ 5 ∷ 0 ∷ []) ≡ none
unfolding is_hidpp_error
error-ne-notification_example = error-ne-notification (0x10 ∷ 1 ∷ 0x8F ∷ 7 ∷ 0x23 ∷ 5 ∷ 0 ∷ []) refl

abbrev blank_event : Event
blank_event = record {
  kind = unhandled;
  device_index = 0;
  feature_id = 0;
  feature_name = "";
  battery_info = none;
  connected = false;
  payload = [];
}

-- Index 8 is the unified battery.
abbrev table : List (ℕ × ℕ)
table = (0x1004, 8) ∷ []

abbrev reading_of : BatteryInfo
reading_of = record { level = 55; charging = false; online = true }

classify-unhandled_example :
    ((classify_hidpp_notification sample_ids blank_event table notified).kind ≡ unhandled) ↔ (
      ((notified.type ≡ hidpp10)
        × (notified.sub_id ≢ 0x40)
        × (notified.sub_id ≢ 0x41)
        × (notified.sub_id ≢ 0x42)
        × (notified.sub_id ≢ 0x4B))
      ⊎ ((notified.type ≡ hidpp20)
          × ((notified.feature_index ≡ 0) ⊎ IsFree table notified.feature_index)))
classify-unhandled_example = classify-unhandled sample_ids blank_event table notified
