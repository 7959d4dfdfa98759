-- ===== src/Hidpp/Records.antt =====
-- Replies that carry a record: feature metadata, firmware records and receiver pairing slots
-- (src/logitech_hidpp.cpp). The defaults of a fresh record stand in a header outside the modelled
-- sources, so each parser takes the `blank` record that it fills.
pub mod Pairing
use abrek_mouse.Prelude.{
  ℕ, zero, suc, ◌+◌, ◌-◌, ◌*◌, ◌/◌, ◌%◌, ◌^◌, ◌≤◌, ◌<◌, min, max, ◌≡◌, refl, sym, ap, ◌∙◌, ◌≢◌, ◌↔◌,
  ◌⊎◌, inl, inr, Bool, true, false, not, ◌&&◌, ◌||◌, Option, none, some, List, [], ◌∷◌, ◌++◌, map,
  append-nil, append_assoc, arith, ltb, leb, ◌==◌, if◌then◌else◌, ltb→lt, lt→ltb, leb→le, ==_iff,
  tests, Bool-cases, Option-cases, length, get_or, take, drop, replicate, length-append,
  length-take, length-drop, length-replicate, take-append-drop, take-length, All, any_of, find_if,
  dec_lt,
}
use abrek_mouse.Hidpp.Bytes.{
  IsByte, IsU16, at, bit, hi_byte, lo_byte, be16, read_be16, bounded_string, bytes_to_hex,
  at-IsByte,
}

pub record Metadata : Type 0 where
  pub feature_id : ℕ
  pub index : ℕ
  pub flags : ℕ
  pub version : ℕ

unfoldable pub parse_feature_metadata : ℕ → List ℕ → Option Metadata
parse_feature_metadata index d =
    if ltb (length d) 4
    then none
    else if read_be16 d == 0
    then none
    else some (record { feature_id = read_be16 d; index = index; flags = at d 2; version = at d 3 })

pub record FirmwareRecord : Type 0 where
  pub level : ℕ
  pub name : List ℕ
  pub major : ℕ
  pub minor : ℕ
  pub build : ℕ
  pub transport_flags : ℕ
  pub model_id : List ℕ
  pub extras_hex : List ℕ

abbrev is_nil : List ℕ → Bool
is_nil [] = true
is_nil (x ∷ l) = false

-- Name, version, flags and model are read as far as the payload goes; a hardware record of level 2
-- may be just its level and revision.
unfoldable pub parse_firmware_record : FirmwareRecord → List ℕ → Option FirmwareRecord
parse_firmware_record blank d =
    let n = length d in
    let level = at d 0 % 16 in
    let full = leb 8 n in
    let compact = not full && level == 2 && leb 2 n in
    let extras = if full then 8 else 1 in
    if is_nil d
    then none
    else some (record {
      level = level;
      name = if leb 4 n then bounded_string (take 3 (drop 1 d)) else blank.name;
      major = if full then at d 4 else if compact then at d 1 else blank.major;
      minor = if full then at d 5 else blank.minor;
      build = if full then read_be16 (drop 6 d) else blank.build;
      transport_flags = if leb 9 n then at d 8 else blank.transport_flags;
      model_id = if leb 15 n then bytes_to_hex (take 6 (drop 9 d)) else blank.model_id;
      extras_hex = if ltb extras n then bytes_to_hex (drop extras d) else blank.extras_hex;
    })

pub record PairingSlot : Type 0 where
  pub slot : ℕ
  pub occupied : Bool
  pub pid : ℕ
  pub connection_type : ℕ
  pub name : List ℕ
  pub serial : List ℕ

-- A Bolt receiver stores the product id low byte first, the others high byte first.
unfoldable pub parse_receiver_pairing : PairingSlot → List ℕ → ℕ → Bool → Option PairingSlot
parse_receiver_pairing blank d slot true =
    if slot == 0
    then none
    else if ltb (length d) 4
    then none
    else some (record blank {
      slot = slot;
      occupied = not (at d 1 == 0) || not (at d 2 == 0) || not (at d 3 == 0);
      pid = be16 (at d 3) (at d 2);
      connection_type = 3;
      serial = if leb 8 (length d) then bytes_to_hex (take 4 (drop 4 d)) else blank.serial;
    })
parse_receiver_pairing blank d slot false =
    if slot == 0
    then none
    else if ltb (length d) 8
    then none
    else some (record blank {
      slot = slot;
      occupied = not (at d 3 == 0) || not (at d 4 == 0);
      pid = be16 (at d 3) (at d 4);
      connection_type = 1;
    })
