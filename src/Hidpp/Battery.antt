-- ===== src/Hidpp/Battery.antt =====
-- Battery payloads (src/logitech_hidpp.cpp, the battery parsers). A level is a percentage, and 255
-- stands for a level that the device did not report.
pub mod Bounds
use abrek_mouse.Prelude.{
  ℕ, zero, suc, ◌+◌, ◌-◌, ◌*◌, ◌/◌, ◌%◌, ◌^◌, ◌≤◌, ◌<◌, min, max, ◌≡◌, refl, sym, ap, ◌∙◌, ◌≢◌, ◌↔◌,
  ◌⊎◌, inl, inr, Bool, true, false, not, ◌&&◌, ◌||◌, Option, none, some, List, [], ◌∷◌, ◌++◌, map,
  append-nil, append_assoc, arith, ltb, leb, ◌==◌, if◌then◌else◌, ltb→lt, lt→ltb, leb→le, ==_iff,
  tests, Bool-cases, Option-cases, length, get_or, take, drop, replicate, length-append,
  length-take, length-drop, length-replicate, take-append-drop, take-length, All, any_of, find_if,
  dec_lt,
}
use abrek_mouse.Hidpp.Bytes.{
  IsByte, IsU16, at, bit, hi_byte, lo_byte, be16, read_be16, bounded_string, bytes_to_hex,
  at-IsByte,
}

-- The defaults that the parsers rely on are `charging = false` and `online = true`.
pub record BatteryInfo : Type 0 where
  pub level : ℕ
  pub charging : Bool
  pub online : Bool

unfoldable pub battery_voltage_charging : ℕ → Bool
battery_voltage_charging flags = bit flags 7 && flags % 8 == 0

abbrev pub voltage_curve : List (ℕ × ℕ)
voltage_curve =
    (3500, 0)
    ∷ (3579, 2)
    ∷ (3646, 5)
    ∷ (3671, 10)
    ∷ (3717, 20)
    ∷ (3751, 30)
    ∷ (3778, 40)
    ∷ (3811, 50)
    ∷ (3859, 60)
    ∷ (3922, 70)
    ∷ (3989, 80)
    ∷ (4067, 90)
    ∷ (4186, 100)
    ∷ []

-- `lround` of the interpolated percentage: the nearest whole number, halves upwards. On all 65536
-- voltages this is the value that the source's double arithmetic gives.
unfoldable pub interpolate : ℕ × ℕ → ℕ × ℕ → ℕ → ℕ
interpolate (lo_v, lo_p) (hi_v, hi_p) v =
    (2 * (lo_p * (hi_v - lo_v) + (hi_p - lo_p) * (v - lo_v)) + (hi_v - lo_v)) / (2 * (hi_v - lo_v))

-- The loop over the curve: the first segment whose upper end is not below the voltage.
unfoldable pub curve_level : ℕ × ℕ → List (ℕ × ℕ) → ℕ → ℕ
curve_level lo [] v = 0
curve_level lo (hi ∷ rest) v = if leb v hi.0 then interpolate lo hi v else curve_level hi rest v

unfoldable pub battery_info_from_voltage : ℕ → ℕ → BatteryInfo
unfolding curve_level interpolate battery_voltage_charging
battery_info_from_voltage voltage flags = record {
  level =
      if leb 4186 voltage
      then 100
      else if ltb 3500 voltage
      then curve_level (3500, 0) (drop 1 voltage_curve) voltage
      else 0;
  charging = battery_voltage_charging flags;
  online = true;
}

-- The coarse bucket of UNIFIED_BATTERY.
abbrev coarse_level : ℕ → ℕ
coarse_level level =
    if level == 8
    then 90
    else if level == 4
    then 50
    else if level == 2
    then 20
    else if level == 1
    then 5
    else 255

abbrev status_charging : ℕ → Bool
status_charging status = status == 1 || status == 2 || status == 4

abbrev status_online : ℕ → Bool
status_online status = not (status == 5) && not (status == 6) && not (status == 0xFF)

unfoldable pub parse_unified_battery : List ℕ → Option BatteryInfo
parse_unified_battery d =
    let discharge = at d 0 in
    let level = at d 1 in
    let status = at d 2 in
    if ltb (length d) 3
    then none
    else some (record {
      level =
          if discharge == 0 && level == 0 && status == 0xFF
          then 255
          else if leb discharge 100 && not (discharge == 0)
          then discharge
          else coarse_level level;
      charging = status_charging status;
      online = status_online status;
    })

unfoldable pub parse_battery_status_feature : List ℕ → Option BatteryInfo
parse_battery_status_feature d =
    if ltb (length d) 3
    then none
    else some (record {
      level = if at d 0 == 0 || ltb 100 (at d 0) then 255 else at d 0;
      charging = status_charging (at d 2);
      online = status_online (at d 2);
    })

-- HID++ 1.0 register 0x0D; the high nibble 0x50 of byte 2 means recharging.
unfoldable pub parse_battery_charge : List ℕ → Option BatteryInfo
parse_battery_charge d =
    if ltb (length d) 3
    then none
    else some (record {
      level = if leb (at d 0) 100 then at d 0 else 255;
      charging = at d 2 / 16 == 5;
      online = true;
    })

-- HID++ 1.0 register 0x07; bits 0 and 5 of byte 1 together mean charging.
unfoldable pub parse_legacy_battery_status : List ℕ → Option BatteryInfo
parse_legacy_battery_status d =
    if ltb (length d) 3
    then none
    else some (record {
      level =
          if at d 0 == 7
          then 90
          else if at d 0 == 5
          then 50
          else if at d 0 == 3
          then 20
          else if at d 0 == 1
          then 5
          else 255;
      charging = bit (at d 1) 0 && bit (at d 1) 5;
      online = true;
    })

unfoldable pub parse_centurion_battery : List ℕ → Option BatteryInfo
parse_centurion_battery d =
    if ltb (length d) 3
    then none
    else some (record {
      level = if leb (at d 0) 100 then at d 0 else 255;
      charging = at d 2 == 1 || at d 2 == 2;
      online = true;
    })
