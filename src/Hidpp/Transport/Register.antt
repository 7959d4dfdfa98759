-- ===== src/Hidpp/Transport/Register.antt =====
-- HID++ 1.0 register access: `read_register`, `write_register`, `probe_hidpp10`.
use abrek_mouse.Prelude.{
  ℕ, ◌-◌, ◌/◌, ◌%◌, Bool, true, false, not, ◌&&◌, ◌||◌, Option, none, some, List, [], ◌∷◌, ◌++◌,
  ltb, leb, ◌==◌, if◌then◌else◌, length, drop, replicate,
}
use abrek_mouse.Hidpp.Bytes.{at, hi_byte, lo_byte}
use Prim.Native.Nat.{bit_or}
use abrek_mouse.Hidpp.Packet.{is_hidpp_error}
use abrek_mouse.Hidpp.Transport.Monad.{M}
use abrek_mouse.Hidpp.Transport.State.{Verdict, answer, refuse, ignore, write_packet, target_of}
use abrek_mouse.Hidpp.Transport.Request.{after_write}

-- Receiver information (0x..B5) echoes the sub-register in its first payload byte.
unfoldable pub judge_register : ℕ → ℕ → ℕ → List ℕ → List ℕ → Verdict (List ℕ)
judge_register target hi lo params d =
    let echoed : Bool = elim params [
      | [] ↦ true
      | p ∷ ps ↦ not (lo == 0xB5) || (leb 5 (length d) && at d 4 == p)
    ] in
    if is_hidpp_error d
    then (if leb 2 (length d) && at d 1 == target then refuse else ignore)
    else if not (length d == 7 || length d == 20)
        || not (at d 1 == target)
        || not (at d 2 == hi)
        || not (at d 3 == lo)
    then ignore
    else if not echoed
    then ignore
    else answer (drop 4 d)

unfoldable pub read_register : ℕ → List ℕ → ℕ → M (Option (List ℕ))
read_register register_id params target t =
    let device = target_of t target in
    let request_id = bit_or 0x8100 register_id % 65536 in
    let frame =
      0x10
      ∷ device
      ∷ hi_byte request_id
      ∷ lo_byte request_id
      ∷ (params ++ replicate (3 - length params) 0) in
    let run =
      after_write (judge_register device (hi_byte request_id) (lo_byte request_id) params)
        (write_packet frame t) in
    if ltb 0x02FF register_id || ltb 3 (length params) then (none, t) else run

abbrev pub register_uses_long_report : ℕ → Bool
register_uses_long_report request_id = request_id / 256 == 0x82

-- A register write is not acknowledged: it has succeeded when the frame is written.
unfoldable pub write_register : ℕ → List ℕ → ℕ → M Bool
write_register register_id value target t =
    let device = target_of t target in
    let request_id = bit_or 0x8000 register_id % 65536 in
    let long = ltb 3 (length value) || register_uses_long_report request_id in
    let frame =
      (if long then 0x11 else 0x10)
      ∷ device
      ∷ hi_byte request_id
      ∷ lo_byte request_id
      ∷ (value ++ replicate ((if long then 16 else 3) - length value) 0) in
    if ltb 0x02FF register_id || ltb 16 (length value) then (false, t) else write_packet frame t

unfoldable pub judge_ping : ℕ → List ℕ → Verdict Bool
judge_ping target d =
    if not (length d == 7 || length d == 20) || not (at d 1 == target)
    then ignore
    else if at d 2 == 0x81 && at d 3 == 0x00
    then answer true
    else if at d 2 == 0x8F && at d 3 == 0x00
    then answer true
    else ignore

abbrev answered : Option Bool → Bool
answered none = false
answered (some b) = b

unfoldable pub probe_hidpp10 : ℕ → M Bool
probe_hidpp10 target t =
    let device = target_of t target in
    let (reply, t') =
      after_write (judge_ping device)
        (write_packet (0x10 ∷ device ∷ 0x81 ∷ 0x00 ∷ 0 ∷ 0 ∷ 0 ∷ []) t) in
    (answered reply, t')
