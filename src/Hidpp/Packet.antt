-- ===== src/Hidpp/Packet.antt =====
-- The three HID++ report layouts: 7, 20 and 64 bytes behind one four-byte head
-- (src/logitech_hidpp.cpp, the hidpp_*_packet classes). The C++ structs differ in the size of
-- `params` alone, so one record serves and the size is `HasParams`.
pub mod RoundTrip
use abrek_mouse.Prelude.{
  ℕ, zero, suc, ◌+◌, ◌-◌, ◌*◌, ◌/◌, ◌%◌, ◌^◌, ◌≤◌, ◌<◌, min, max, ◌≡◌, refl, sym, ap, ◌∙◌, ◌≢◌, ◌↔◌,
  ◌⊎◌, inl, inr, Bool, true, false, not, ◌&&◌, ◌||◌, Option, none, some, List, [], ◌∷◌, ◌++◌, map,
  append-nil, append_assoc, arith, ltb, leb, ◌==◌, if◌then◌else◌, ltb→lt, lt→ltb, leb→le, ==_iff,
  tests, Bool-cases, Option-cases, length, get_or, take, drop, replicate, length-append,
  length-take, length-drop, length-replicate, take-append-drop, take-length, All, any_of, find_if,
  dec_lt,
}
use abrek_mouse.Hidpp.Bytes.{
  IsByte, IsU16, at, bit, hi_byte, lo_byte, be16, read_be16, bounded_string, bytes_to_hex,
  at-IsByte,
}

pub record Packet : Type 0 where
  pub report_id : ℕ
  pub device_index : ℕ
  pub feature_index : ℕ
  pub function_id : ℕ
  pub software_id : ℕ
  pub params : List ℕ

-- Both spellings of a function, 0x1 and 0x10, name the same one.
unfoldable pub normalize_function_id : ℕ → ℕ
normalize_function_id f = if leb f 15 then f else f / 16 % 16

-- `(function << 4) | (software & 0x0F)` cast to a byte; the two fields share no bit.
abbrev pub address_byte : ℕ → ℕ → ℕ
address_byte f sw = (normalize_function_id f * 16) % 256 + sw % 16

abbrev head_bytes : Packet → List ℕ
head_bytes p =
    p.report_id ∷ p.device_index ∷ p.feature_index ∷ address_byte p.function_id p.software_id ∷ []

-- The fields that all three layouts share.
abbrev parse_head : List ℕ → ℕ → Packet
parse_head d n = record {
  report_id = at d 0;
  device_index = at d 1;
  feature_index = at d 2;
  function_id = at d 3 / 16;
  software_id = at d 3 % 16;
  params = take n (drop 4 d);
}

unfoldable pub short_to_bytes : Packet → List ℕ
short_to_bytes p = head_bytes p ++ take 3 p.params

unfoldable pub short_from_bytes : List ℕ → Option Packet
short_from_bytes d =
    if length d == 7 then (if at d 0 == 0x10 then some (parse_head d 3) else none) else none

unfoldable pub long_to_bytes : Packet → List ℕ
long_to_bytes p = head_bytes p ++ take 16 p.params

unfoldable pub long_from_bytes : List ℕ → Option Packet
long_from_bytes d =
    if length d == 20 then (if at d 0 == 0x11 then some (parse_head d 16) else none) else none

unfoldable pub very_long_to_bytes : Packet → List ℕ
very_long_to_bytes p = head_bytes p ++ take 60 p.params

unfoldable pub very_long_from_bytes : List ℕ → Option Packet
very_long_from_bytes d =
    if length d == 64 then (if at d 0 == 0x12 then some (parse_head d 60) else none) else none

-- A report that answers a request by an error: sub-id 0xFF (2.0) or 0x8F (1.0).
unfoldable pub is_hidpp_error : List ℕ → Bool
is_hidpp_error d =
    leb 4 (length d)
    && (at d 0 == 0x10 || at d 0 == 0x11 || at d 0 == 0x12)
    && (at d 2 == 0xFF || at d 2 == 0x8F)

-- A packet whose fields fit the wire: four-bit function and software id, `n` parameter bytes.
pub record IsWire (id n : ℕ) (p : Packet) : Type 0 where
  pub reported : p.report_id ≡ id
  pub function_fits : p.function_id < 16
  pub software_fits : p.software_id < 16
  pub filled : length p.params ≡ n
