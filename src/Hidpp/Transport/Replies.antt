-- ===== src/Hidpp/Transport/Replies.antt =====
-- What the replies of the other requests are: registers, the ping, and the packet forms.
use abrek_mouse.Prelude.{
  ℕ, ◌-◌, ◌%◌, ◌≡◌, refl, ap, ◌∙◌, ◌≢◌, ◌⊎◌, inl, inr, Bool, true, false, ◌||◌, Option, some, List,
  [], ◌∷◌, ◌++◌, arith, ltb, if◌then◌else◌, Bool-cases, length, drop, replicate,
}
use abrek_mouse.Hidpp.Bytes.{at, hi_byte, lo_byte}
use abrek_mouse.Hidpp.Packet.{
  Packet, is_hidpp_error, short_to_bytes, short_from_bytes, long_to_bytes, long_from_bytes,
  very_long_to_bytes, very_long_from_bytes,
}
use abrek_mouse.Hidpp.Transport.State.{
  Transport, Verdict, answer, write_packet, next_sw_id, target_of,
}
use abrek_mouse.Hidpp.Transport.Request.{
  after_write, judge_packet, packet_request, send_short, send_long, send_very_long,
}
use abrek_mouse.Hidpp.Transport.Register.{judge_register, read_register}
use abrek_mouse.Hidpp.Transport.Waiting.{Heard, wait-answer}
use abrek_mouse.Hidpp.Transport.Answers.{write_packet_lem, await_lem}
use Prim.Native.Nat.{bit_or}

-- The reply `a` was judged from a report of the wait, behind the frame that was written last.
abbrev pub Replied :
    {A : Type 0} → (List ℕ → Verdict A) → List ℕ → Transport → A → Option A × Transport → Type 0
Replied judge frame t a result =
    ((r : List ℕ) × Heard r t.rounds × (judge r ≡ answer a)) × (result.1.sent ≡ frame ∷ t.sent)

after_write-Replied :
    {A : Type 0} (judge : List ℕ → Verdict A) (frame : List ℕ) (t : Transport) (a : A)
    (written : Bool × Transport)
    → written.1.sent ≡ (if written.0 then frame ∷ t.sent else t.sent)
    → written.1.rounds ≡ t.rounds
    → (after_write judge written).0 ≡ some a
    → Replied judge frame t a (after_write judge written)
after_write-Replied judge frame t a (false, u) s rs e = cc
after_write-Replied judge frame t a (true, u) s rs e =
    let (r, j, heard) =
      wait-answer judge u.pending_notifications u.rounds a (cc (await_lem judge u).0) in
    ((r, rw rs at heard, j), (await_lem judge u).1 ∙ s)

run-Replied :
    {A : Type 0} (judge : List ℕ → Verdict A) (frame : List ℕ) (t : Transport) (a : A)
    → (after_write judge (write_packet frame t)).0 ≡ some a
    → Replied judge frame t a (after_write judge (write_packet frame t))
run-Replied judge frame t a e =
    let w = write_packet_lem frame t in
    after_write-Replied judge frame t a (write_packet frame t) w.0 w.1 e

-- The frame of a register read.
abbrev pub register_frame : Transport → ℕ → List ℕ → ℕ → List ℕ
register_frame t register_id params target =
    0x10
    ∷ target_of t target
    ∷ hi_byte (bit_or 0x8100 register_id % 65536)
    ∷ lo_byte (bit_or 0x8100 register_id % 65536)
    ∷ (params ++ replicate (3 - length params) 0)

-- What a register's answer looks like; the receiver's information register also echoes the
-- sub-register.
abbrev pub EchoesRegister : ℕ → ℕ → List ℕ → List ℕ → List ℕ → Type 0
EchoesRegister device request params d r =
    (is_hidpp_error r ≡ false)
    × ((length r ≡ 7) ⊎ (length r ≡ 20))
    × (at r 1 ≡ device)
    × (at r 2 ≡ hi_byte request)
    × (at r 3 ≡ lo_byte request)
    × (d ≡ drop 4 r)
    × ((lo_byte request ≢ 0xB5) ⊎ (params ≡ []) ⊎ (at r 4 ≡ at params 0))

judge_register-answer :
    (device request : ℕ) (params r d : List ℕ)
    → judge_register device (hi_byte request) (lo_byte request) params r ≡ answer d
    → EchoesRegister device request params d r
unfolding judge_register
judge_register-answer device request [] r d e = ground arith
judge_register-answer device request (p ∷ ps) r d e = ground arith

-- The payload `d` was heard from the register, behind the frame written last.
abbrev pub IsRead : ℕ → List ℕ → ℕ → Transport → List ℕ → Transport → Type 0
IsRead register_id params target t d u =
    ((r : List ℕ) × Heard r t.rounds
      × EchoesRegister (target_of t target) (bit_or 0x8100 register_id % 65536) params d r)
    × (u.sent ≡ register_frame t register_id params target ∷ t.sent)

-- A register that is read gives the payload of a report that was read in the wait, that is no
-- error, has the size of a short or long report, and echoes the device, the request and, for the
-- information register, the sub-register; and the request's frame is the one written last.
pub read_register-EchoesRegister :
    (register_id : ℕ) (params : List ℕ) (target : ℕ) (t : Transport) (d : List ℕ)
    → (read_register register_id params target t).0 ≡ some d
    → IsRead register_id params target t d (read_register register_id params target t).1
unfolding read_register
read_register-EchoesRegister register_id params target t d e =
    let request = bit_or 0x8100 register_id % 65536 in
    let judge = judge_register (target_of t target) (hi_byte request) (lo_byte request) params in
    let frame = register_frame t register_id params target in
    elim (Bool-cases (ltb 0x02FF register_id || ltb 3 (length params))) [
      | inl out ↦ cc (rw out at e)
      | inr fits ↦
          let ((r, heard, j), sent) = run-Replied judge frame t d (rw fits at e) in
          rw fits
            ((r, heard, judge_register-answer (target_of t target) request params r d j), sent)
    ]

-- The request is the packet's own.
abbrev pub EchoesPacket : (List ℕ → Option Packet) → Packet → Packet → List ℕ → Type 0
EchoesPacket from_bytes req rsp r =
    (is_hidpp_error r ≡ false)
    × (from_bytes r ≡ some rsp)
    × (rsp.device_index ≡ req.device_index)
    × (rsp.feature_index ≡ req.feature_index)
    × (rsp.function_id ≡ req.function_id)
    × (rsp.software_id ≡ req.software_id)

judge_packet-answer :
    (from_bytes : List ℕ → Option Packet) (req rsp : Packet) (r : List ℕ)
    → judge_packet from_bytes req r ≡ answer rsp
    → EchoesPacket from_bytes req rsp r
unfolding judge_packet
judge_packet-answer from_bytes req rsp r e = ground arith

-- What a packet request that is answered by `rsp` has heard and written.
abbrev pub IsExchange :
    (List ℕ → Option Packet) → (Packet → List ℕ) → Packet → Transport → Packet → Transport → Type 0
IsExchange from_bytes to_bytes req t rsp u =
    ((r : List ℕ) × Heard r t.rounds × EchoesPacket from_bytes req rsp r)
    × (u.sent ≡ to_bytes req ∷ t.sent)

exchange :
    (from_bytes : List ℕ → Option Packet) (to_bytes : Packet → List ℕ) (req rsp : Packet)
    (t u : Transport)
    → u.rounds ≡ t.rounds
    → u.sent ≡ t.sent
    → (after_write (judge_packet from_bytes req) (write_packet (to_bytes req) u)).0 ≡ some rsp
    → IsExchange from_bytes to_bytes req t rsp
        (after_write (judge_packet from_bytes req) (write_packet (to_bytes req) u)).1
exchange from_bytes to_bytes req rsp t u rs s e =
    let ((r, heard, j), sent) = run-Replied (judge_packet from_bytes req) (to_bytes req) u rsp e in
    (
      (r, rw rs at heard, judge_packet-answer from_bytes req rsp r j),
      sent ∙ ap (λ l. to_bytes req ∷ l) s,
    )

-- The request of the three packet forms from the state `t`.
abbrev pub request_of : Transport → ℕ → ℕ → ℕ → List ℕ → ℕ → Packet
request_of t report index function params target =
    packet_request report (target_of t target) index function (t.next_sw_id % 16) params

-- The reply to a short packet request is parsed from a short report that was read in the wait and
-- is no error, and it carries the device, the feature index, the function and the software id of
-- the request, whose bytes are the frame written last.
pub send_short-IsExchange :
    (index function : ℕ) (params : List ℕ) (target : ℕ) (t : Transport) (rsp : Packet)
    → (send_short index function params target t).0 ≡ some rsp
    → IsExchange short_from_bytes short_to_bytes
        (request_of t 0x10 index function params target)
        t
        rsp
        (send_short index function params target t).1
unfolding send_short next_sw_id
send_short-IsExchange index function params target t rsp e =
    exchange short_from_bytes short_to_bytes (request_of t 0x10 index function params target) rsp t
      (next_sw_id t).1 refl refl e

-- The reply to a long packet request is parsed from a long report that was read in the wait and
-- is no error, and it carries the device, the feature index, the function and the software id of
-- the request, whose bytes are the frame written last.
pub send_long-IsExchange :
    (index function : ℕ) (params : List ℕ) (target : ℕ) (t : Transport) (rsp : Packet)
    → (send_long index function params target t).0 ≡ some rsp
    → IsExchange long_from_bytes long_to_bytes
        (request_of t 0x11 index function params target)
        t
        rsp
        (send_long index function params target t).1
unfolding send_long next_sw_id
send_long-IsExchange index function params target t rsp e =
    exchange long_from_bytes long_to_bytes (request_of t 0x11 index function params target) rsp t
      (next_sw_id t).1 refl refl e

-- The reply to a very long packet request is parsed from a very long report that was read in the wait and
-- is no error, and it carries the device, the feature index, the function and the software id of
-- the request, whose bytes are the frame written last.
pub send_very_long-IsExchange :
    (index function : ℕ) (params : List ℕ) (target : ℕ) (t : Transport) (rsp : Packet)
    → (send_very_long index function params target t).0 ≡ some rsp
    → IsExchange very_long_from_bytes very_long_to_bytes
        (request_of t 0x12 index function params target)
        t
        rsp
        (send_very_long index function params target t).1
unfolding send_very_long next_sw_id
send_very_long-IsExchange index function params target t rsp e =
    exchange very_long_from_bytes very_long_to_bytes
      (request_of t 0x12 index function params target) rsp t (next_sw_id t).1 refl refl e
