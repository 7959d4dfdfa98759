-- ===== src/Hidpp/Transport/Request.antt =====
-- HID++ 2.0 requests: `send_feature_request`, the three `send_*` forms over packets, and the
-- resolution of a feature to its dynamic index, which is cached for each target.
use abrek_mouse.Prelude.{
  ℕ, ◌+◌, ◌-◌, ◌*◌, ◌/◌, ◌%◌, Bool, true, false, not, ◌&&◌, ◌||◌, Option, none, some, List, [], ◌∷◌,
  ◌++◌, ltb, leb, ◌==◌, if◌then◌else◌, length, drop, replicate,
}
use abrek_mouse.Hidpp.Bytes.{at, hi_byte, lo_byte}
use abrek_mouse.Hidpp.Packet.{
  Packet, normalize_function_id, is_hidpp_error, short_to_bytes, short_from_bytes, long_to_bytes,
  long_from_bytes, very_long_to_bytes, very_long_from_bytes,
}
use abrek_mouse.Hidpp.Notification.{is_report_size}
use abrek_mouse.Hidpp.Transport.Monad.{M}
use abrek_mouse.Hidpp.Transport.State.{
  Transport, Verdict, answer, refuse, keep, ignore, await, write_packet, next_sw_id, target_of,
  cache_key, find, assign,
}

-- HIDPP_SHORT_PAYLOAD_MAX, the parameter bytes of a long report.
abbrev pub payload_max : ℕ
payload_max = 16

-- The long frame of a feature call, zero-filled to 20 bytes.
unfoldable pub feature_frame : ℕ → ℕ → ℕ → ℕ → List ℕ → List ℕ
feature_frame device index wire_function id params =
    0x11
    ∷ device
    ∷ index
    ∷ (wire_function * 16 % 256 + id % 16)
    ∷ (params ++ replicate (payload_max - length params) 0)

-- An error of this very request ends it. Reports of another size are skipped; reports that do not
-- echo device, feature, function and software id may be notifications.
unfoldable pub judge_feature : ℕ → ℕ → ℕ → ℕ → List ℕ → Verdict (List ℕ)
judge_feature device index wire_function id d =
    if is_hidpp_error d
    then (if leb 4 (length d) && at d 1 == device && at d 3 % 16 == id then refuse else ignore)
    else if not (is_report_size (length d))
    then ignore
    else if not (at d 1 == device)
        || not (at d 2 == index)
        || not (at d 3 / 16 == wire_function)
        || not (at d 3 % 16 == id)
    then keep
    else answer (drop 4 d)

-- The waiting half of a request: after a failed write nothing is read.
abbrev pub after_write :
    {A : Type 0} → (List ℕ → Verdict A) → Bool × Transport → Option A × Transport
after_write judge (true, t) = await judge t
after_write judge (false, t) = (none, t)

unfoldable pub send_feature_request : ℕ → ℕ → List ℕ → ℕ → M (Option (List ℕ))
send_feature_request index function_id params target t =
    let device = target_of t target in
    let wire = normalize_function_id function_id in
    let (id, t') = next_sw_id t in
    let run : Option (List ℕ) × Transport =
      after_write (judge_feature device index wire (id % 16))
        (write_packet (feature_frame device index wire id params) t') in
    if ltb payload_max (length params) then (none, t) else run

-- The request that the three packet forms send.
abbrev pub packet_request : ℕ → ℕ → ℕ → ℕ → ℕ → List ℕ → Packet
packet_request report device index function_id id params = record {
  report_id = report;
  device_index = device;
  feature_index = index;
  function_id = normalize_function_id function_id;
  software_id = id;
  params = params;
}

unfoldable pub judge_packet : (List ℕ → Option Packet) → Packet → List ℕ → Verdict Packet
judge_packet from_bytes req d =
    if is_hidpp_error d
    then (if leb 4 (length d) && at d 1 == req.device_index && at d 3 % 16 == req.software_id
        then refuse
        else ignore)
    else elim (from_bytes d) [
      | none ↦ keep
      | some rsp ↦
          if rsp.feature_index == req.feature_index
            && rsp.function_id == req.function_id
            && rsp.software_id == req.software_id
            && rsp.device_index == req.device_index
          then answer rsp
          else keep
    ]

-- `params` has the size of the report's parameter array.
unfoldable pub send_short : ℕ → ℕ → List ℕ → ℕ → M (Option Packet)
send_short index function_id params target t =
    let device = target_of t target in
    let (id, t') = next_sw_id t in
    let req = packet_request 0x10 device index function_id id params in
    after_write (judge_packet short_from_bytes req) (write_packet (short_to_bytes req) t')

unfoldable pub send_long : ℕ → ℕ → List ℕ → ℕ → M (Option Packet)
send_long index function_id params target t =
    let device = target_of t target in
    let (id, t') = next_sw_id t in
    let req = packet_request 0x11 device index function_id id params in
    after_write (judge_packet long_from_bytes req) (write_packet (long_to_bytes req) t')

unfoldable pub send_very_long : ℕ → ℕ → List ℕ → ℕ → M (Option Packet)
send_very_long index function_id params target t =
    let device = target_of t target in
    let (id, t') = next_sw_id t in
    let req = packet_request 0x12 device index function_id id params in
    after_write (judge_packet very_long_from_bytes req) (write_packet (very_long_to_bytes req) t')

-- The reply of ROOT.GetFeature: no reply, an empty one and index 0 all mean "not supported".
unfoldable pub root_reply : Option (List ℕ) → Option ℕ
root_reply none = none
root_reply (some []) = none
root_reply (some (b ∷ d)) = if b == 0 then none else some b

-- A resolved index is cached under the target and the feature.
abbrev pub store_index : ℕ → Option ℕ × Transport → Option ℕ × Transport
store_index key (none, t) = (none, t)
store_index key (some i, t) =
    (some i, record t { feature_indices = assign key i t.feature_indices })

unfoldable pub resolve_feature_index : ℕ → ℕ → M (Option ℕ)
resolve_feature_index feature target t =
    let key = cache_key (target_of t target) feature in
    let cached = find key t.feature_indices in
    let (reply, t') =
      send_feature_request 0 0 (hi_byte feature ∷ lo_byte feature ∷ 0 ∷ []) target t in
    let asked = store_index key (root_reply reply, t') in
    if feature == 0 then (some 0, t) else elim cached [ some i ↦ (some i, t) | none ↦ asked ]

-- The forms of `send_short` and `send_long` that take a feature instead of an index.
send_short_feature : ℕ → ℕ → List ℕ → ℕ → M (Option Packet)
send_short_feature feature function_id params target t =
    let (index, t') = resolve_feature_index feature target t in
    elim index [ none ↦ (none, t') | some i ↦ send_short i function_id params target t' ]

send_long_feature : ℕ → ℕ → List ℕ → ℕ → M (Option Packet)
send_long_feature feature function_id params target t =
    let (index, t') = resolve_feature_index feature target t in
    elim index [ none ↦ (none, t') | some i ↦ send_long i function_id params target t' ]

unfoldable pub feature_request : ℕ → ℕ → List ℕ → ℕ → M (Option (List ℕ))
feature_request feature function_id params target t =
    let device = target_of t target in
    let (index, t') = resolve_feature_index feature device t in
    if feature == 0 || ltb payload_max (length params) then (none, t) else elim index [
      | none ↦ (none, t')
      | some i ↦ send_feature_request i function_id params device t'
    ]
