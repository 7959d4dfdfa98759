-- ===== src/Hidpp/Notification.antt =====
-- Reports that a device sends unasked (src/logitech_hidpp.cpp, hidpp_notification::from_bytes).
pub mod Accept
use abrek_mouse.Prelude.{
  ℕ, zero, suc, ◌+◌, ◌-◌, ◌*◌, ◌/◌, ◌%◌, ◌^◌, ◌≤◌, ◌<◌, min, max, ◌≡◌, refl, sym, ap, ◌∙◌, ◌≢◌, ◌↔◌,
  ◌⊎◌, inl, inr, Bool, true, false, not, ◌&&◌, ◌||◌, Option, none, some, List, [], ◌∷◌, ◌++◌, map,
  append-nil, append_assoc, arith, ltb, leb, ◌==◌, if◌then◌else◌, ltb→lt, lt→ltb, leb→le, ==_iff,
  tests, Bool-cases, Option-cases, length, get_or, take, drop, replicate, length-append,
  length-take, length-drop, length-replicate, take-append-drop, take-length, All, any_of, find_if,
  dec_lt,
}
use abrek_mouse.Hidpp.Bytes.{
  IsByte, IsU16, at, bit, hi_byte, lo_byte, be16, read_be16, bounded_string, bytes_to_hex,
  at-IsByte,
}

pub data Kind : Type 0 where
  hidpp10 hidpp20 legacy_battery legacy_illumination : Kind

pub record Notification : Type 0 where
  pub report_id : ℕ
  pub device_index : ℕ
  pub sub_id : ℕ
  pub address : ℕ
  pub feature_index : ℕ
  pub type : Kind
  pub payload : List ℕ

abbrev pub is_report_size : ℕ → Bool
is_report_size n = n == 7 || n == 20 || n == 64

abbrev pub is_report_id : ℕ → Bool
is_report_id r = r == 0x10 || r == 0x11 || r == 0x12

abbrev is_hidpp10 : List ℕ → Bool
is_hidpp10 d = leb 0x40 (at d 2)

abbrev is_legacy_battery : List ℕ → Bool
is_legacy_battery d = (at d 2 == 0x07 || at d 2 == 0x0D) && length d == 7 && at d 6 == 0

abbrev is_legacy_illumination : List ℕ → Bool
is_legacy_illumination d = at d 2 == 0x17 && length d == 7

-- A HID++ 2.0 notification carries the software id 0.
abbrev is_hidpp20 : List ℕ → Bool
is_hidpp20 d = ltb (at d 2) 0x40 && at d 3 % 16 == 0

pub kind_of : List ℕ → Kind
kind_of d =
    if is_legacy_battery d
    then legacy_battery
    else if is_legacy_illumination d
    then legacy_illumination
    else if is_hidpp20 d
    then hidpp20
    else hidpp10

unfoldable pub notification_from_bytes : List ℕ → Option Notification
unfolding kind_of
notification_from_bytes d =
    if not (is_report_size (length d))
    then none
    else if not (is_report_id (at d 0))
    then none
    else if bit (at d 2) 7
    then none
    else if not (is_hidpp10 d)
        && not (is_legacy_battery d)
        && not (is_legacy_illumination d)
        && not (is_hidpp20 d)
    then none
    else if at d 2 == 0
    then none
    else some (record {
      report_id = at d 0;
      device_index = at d 1;
      sub_id = at d 2;
      address = at d 3;
      feature_index = at d 2;
      type = kind_of d;
      payload = drop 4 d;
    })
