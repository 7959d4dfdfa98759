-- ===== src/Hidpp/Transport/Answers.antt =====
-- What the answer to a request is.
use abrek_mouse.Prelude.{
  ℕ, ◌/◌, ◌%◌, ◌≤◌, ◌<◌, ◌≡◌, refl, ◌∙◌, ◌≢◌, ◌⊎◌, inl, inr, Bool, true, false, Option, none, some,
  List, [], ◌∷◌, ◌++◌, arith, if◌then◌else◌, length, drop, All, dec_lt, All-mono,
}
use abrek_mouse.Hidpp.Bytes.{at}
use abrek_mouse.Hidpp.Packet.{is_hidpp_error, normalize_function_id}
use abrek_mouse.Hidpp.Notification.{Notification, notification_from_bytes, hidpp20, is_report_size}
use abrek_mouse.Hidpp.Notification.Accept.{hidpp20_lem}
use abrek_mouse.Hidpp.Transport.State.{
  Transport, Round, elapsed, reading, received, timed_out, read_packet, Verdict, answer, keep,
  ignore, wait, await, stash, next_sw_id, write_packet, target_of, IoEvent,
}
use abrek_mouse.Hidpp.Transport.Request.{
  judge_feature, send_feature_request, feature_frame, after_write, payload_max,
}
use abrek_mouse.Hidpp.Transport.Waiting.{
  Heard, wait-answer, after_answer, after_timeout, after_keep, after_ignore,
}

-- The frame that a request writes from the state `t`.
abbrev pub frame_of : Transport → ℕ → ℕ → List ℕ → ℕ → List ℕ
frame_of t index function params target =
    feature_frame (target_of t target) index (normalize_function_id function) (t.next_sw_id % 16)
      params

abbrev pub judge_of : Transport → ℕ → ℕ → ℕ → List ℕ → Verdict (List ℕ)
judge_of t index function target =
    judge_feature (target_of t target) index (normalize_function_id function)
      (t.next_sw_id % 16 % 16)

-- The state after the software id is taken and the frame is written.
abbrev pub issued : Transport → ℕ → ℕ → List ℕ → ℕ → Bool × Transport
issued t index function params target =
    write_packet (frame_of t index function params target) (next_sw_id t).1

pub request-long :
    (index function : ℕ) (params : List ℕ) (target : ℕ) (t : Transport)
    → payload_max < length params
    → send_feature_request index function params target t ≡ (none, t)
unfolding send_feature_request
request-long index function params target t h = ground arith

pub request-run :
    (index function : ℕ) (params : List ℕ) (target : ℕ) (t : Transport)
    → length params ≤ payload_max
    → send_feature_request index function params target t
      ≡ after_write (judge_of t index function target) (issued t index function params target)
unfolding send_feature_request
request-run index function params target t h = unfold next_sw_id in ground arith

-- A write changes the trace only when it succeeds, and no notification or round.
pub write_packet_lem :
    (frame : List ℕ) (t : Transport)
    → ((write_packet frame t).1.sent
        ≡ (if (write_packet frame t).0 then frame ∷ t.sent else t.sent))
      × ((write_packet frame t).1.rounds ≡ t.rounds)
      × ((write_packet frame t).1.pending_notifications ≡ t.pending_notifications)
      × ((write_packet frame t).1.next_sw_id ≡ t.next_sw_id)
      × ((write_packet frame t).1.device_index ≡ t.device_index)
      × ((write_packet frame t).1.product_id ≡ t.product_id)
unfolding write_packet
write_packet_lem frame t = ground arith

judge_feature-answer :
    (device index wire id : ℕ) (r d : List ℕ)
    → judge_feature device index wire id r ≡ answer d
    → (d ≡ drop 4 r)
      × (is_hidpp_error r ≡ false)
      × (is_report_size (length r) ≡ true)
      × (at r 1 ≡ device)
      × (at r 2 ≡ index)
      × (at r 3 / 16 ≡ wire)
      × (at r 3 % 16 ≡ id)
unfolding judge_feature
judge_feature-answer device index wire id r d e = ground arith

-- Waiting changes neither the trace nor the counters.
pub await_lem :
    {A : Type 0} (judge : List ℕ → Verdict A) (t : Transport)
    → ((await judge t).0 ≡ (wait judge t.pending_notifications t.rounds).reply)
      × ((await judge t).1.sent ≡ t.sent)
      × ((await judge t).1.next_sw_id ≡ t.next_sw_id)
      × ((await judge t).1.device_index ≡ t.device_index)
      × ((await judge t).1.product_id ≡ t.product_id)
      × ((await judge t).1.pending_notifications
          ≡ (wait judge t.pending_notifications t.rounds).pending)
      × ((await judge t).1.rounds ≡ (wait judge t.pending_notifications t.rounds).rest)
unfolding await
await_lem judge t = (refl, refl, refl, refl, refl, refl, refl)

abbrev pub Echoes : Transport → ℕ → ℕ → ℕ → List ℕ → Type 0
Echoes t index function target r =
    (is_hidpp_error r ≡ false)
    × (is_report_size (length r) ≡ true)
    × (at r 1 ≡ target_of t target)
    × (at r 2 ≡ index)
    × (at r 3 / 16 ≡ normalize_function_id function)
    × (at r 3 % 16 ≡ t.next_sw_id % 16)

abbrev pub Sound : Transport → ℕ → ℕ → List ℕ → ℕ → List ℕ → Option (List ℕ) × Transport → Type 0
Sound t index function params target d result =
    ((r : List ℕ) × Heard r t.rounds × (d ≡ drop 4 r) × Echoes t index function target r)
    × (result.1.sent ≡ frame_of t index function params target ∷ t.sent)

after_write-Sound :
    (index function : ℕ) (params : List ℕ) (target : ℕ) (t : Transport) (d : List ℕ)
    → (written : Bool × Transport)
    → written.1.sent
      ≡ (if written.0 then frame_of t index function params target ∷ t.sent else t.sent)
    → written.1.rounds ≡ t.rounds
    → (after_write (judge_of t index function target) written).0 ≡ some d
    → Sound t index function params target d
        (after_write (judge_of t index function target) written)
after_write-Sound index function params target t d (false, u) s r e = cc
after_write-Sound index function params target t d (true, u) s r e =
    let judge = judge_of t index function target in
    let (x, j, heard) =
      wait-answer judge u.pending_notifications u.rounds d (cc (await_lem judge u).0) in
    let (payload, clean, size, device, feature, call, id) =
      judge_feature-answer (target_of t target) index (normalize_function_id function)
        (t.next_sw_id % 16 % 16) x d j in
    (
      (x, rw r at heard, payload, (clean, size, device, feature, call, omega arith)),
      (await_lem judge u).1 ∙ s,
    )

-- A reply carries the payload of a report that was read in the wait, that is no error, and that
-- echoes the device, the feature index, the function and the software id of the request; and then
-- the request's frame is the one written last.
pub send_feature_request-Sound :
    (index function : ℕ) (params : List ℕ) (target : ℕ) (t : Transport) (d : List ℕ)
    → (send_feature_request index function params target t).0 ≡ some d
    → Sound t index function params target d (send_feature_request index function params target t)
send_feature_request-Sound index function params target t d e =
    elim (dec_lt payload_max (length params)) [
      | yes long ↦ cc (e, request-long index function params target t long)
      | no short ↦
          let run = request-run index function params target t (omega arith) in
          let w = write_packet_lem (frame_of t index function params target) (next_sw_id t).1 in
          rw run (
            after_write-Sound index function params target t d
              (issued t index function params target) (unfold next_sw_id in w.0)
              (unfold next_sw_id in w.1) (rw run at e))
    ]

-- A round that brings no end to the wait: a timeout, or a report that is skipped or kept.
abbrev pub IsNoise : {A : Type 0} → (List ℕ → Verdict A) → Round → Type 0
IsNoise judge elapsed = ⊥
IsNoise judge (reading es) =
    (read_packet es ≡ timed_out)
    ⊎ ((r : List ℕ) × (read_packet es ≡ received r) × ((judge r ≡ keep) ⊎ (judge r ≡ ignore)))

wait-noise :
    {A : Type 0} (judge : List ℕ → Verdict A) (pending : List Notification) (noise : List Round)
    (es : List IoEvent) (r : List ℕ) (a : A) (later : List Round)
    → All (IsNoise judge) noise
    → read_packet es ≡ received r
    → judge r ≡ answer a
    → ((wait judge pending (noise ++ reading es ∷ later)).reply ≡ some a)
      × ((wait judge pending (noise ++ reading es ∷ later)).rest ≡ later)
wait-noise judge pending [] es r a later quiet e j =
    rw (after_answer judge pending es later r a e j) (refl, refl)
wait-noise judge pending (elapsed ∷ noise) es r a later quiet e j = absurd quiet.0
wait-noise judge pending (reading x ∷ noise) es r a later (inl q, quiet) e j =
    rw (after_timeout judge pending x (noise ++ reading es ∷ later) q)
      (wait-noise judge pending noise es r a later quiet e j)
wait-noise judge pending (reading x ∷ noise) es r a later (inr (y, q, inl k), quiet) e j =
    rw (after_keep judge pending x (noise ++ reading es ∷ later) y q k)
      (wait-noise judge (stash pending y) noise es r a later quiet e j)
wait-noise judge pending (reading x ∷ noise) es r a later (inr (y, q, inr i), quiet) e j =
    rw (after_ignore judge pending x (noise ++ reading es ∷ later) y q i)
      (wait-noise judge pending noise es r a later quiet e j)

after_write-true :
    {A : Type 0} (judge : List ℕ → Verdict A) (w : Bool × Transport)
    → w.0 ≡ true
    → after_write judge w ≡ await judge w.1
after_write-true judge (true, t) e = refl
after_write-true judge (false, t) e = cc

-- A report that is no answer to the request: an error report that is too short, for another device
-- or another software id, or a report of another size, device, feature, function or id.
abbrev pub IsForeign : Transport → ℕ → ℕ → ℕ → List ℕ → Type 0
IsForeign t index function target r =
    ((is_hidpp_error r ≡ true)
      × ((length r < 4) ⊎ (at r 1 ≢ target_of t target) ⊎ (at r 3 % 16 ≢ t.next_sw_id % 16)))
    ⊎ ((is_hidpp_error r ≡ false)
        × ((is_report_size (length r) ≡ false)
            ⊎ (at r 1 ≢ target_of t target)
            ⊎ (at r 2 ≢ index)
            ⊎ (at r 3 / 16 ≢ normalize_function_id function)
            ⊎ (at r 3 % 16 ≢ t.next_sw_id % 16)))

-- A round of the wait that brings nothing, or a report that is no answer.
abbrev pub IsQuiet : Transport → ℕ → ℕ → ℕ → Round → Type 0
IsQuiet t index function target elapsed = ⊥
IsQuiet t index function target (reading es) =
    (read_packet es ≡ timed_out)
    ⊎ ((r : List ℕ) × (read_packet es ≡ received r) × IsForeign t index function target r)

judge_of-foreign :
    (index function target : ℕ) (t : Transport) (r : List ℕ)
    → IsForeign t index function target r
    → (judge_of t index function target r ≡ keep) ⊎ (judge_of t index function target r ≡ ignore)
unfolding judge_feature
judge_of-foreign index function target t r h = ground arith

judge_of-echo :
    (index function target : ℕ) (t : Transport) (r : List ℕ)
    → Echoes t index function target r
    → judge_of t index function target r ≡ answer (drop 4 r)
unfolding judge_feature
judge_of-echo index function target t r h = ground arith

IsQuiet-IsNoise :
    (index function target : ℕ) (t : Transport) (x : Round)
    → IsQuiet t index function target x
    → IsNoise (judge_of t index function target) x
IsQuiet-IsNoise index function target t elapsed h = h
IsQuiet-IsNoise index function target t (reading es) (inl h) = inl h
IsQuiet-IsNoise index function target t (reading es) (inr (r, e, h)) =
    inr (r, e, judge_of-foreign index function target t r h)

-- If the parameters fit, the frame is written, and the rounds before the deadline bring nothing, or
-- reports that are no answer, until a report of one of the three sizes that is no error and echoes
-- the device, the feature index, the function and the software id of the request, then the request
-- returns that report's bytes behind the four of its header, and leaves unread what comes after it.
pub send_feature_request_complete :
    (index function : ℕ) (params : List ℕ) (target : ℕ) (t : Transport) (noise later : List Round)
    (es : List IoEvent) (r : List ℕ)
    → length params ≤ payload_max
    → (issued t index function params target).0 ≡ true
    → t.rounds ≡ noise ++ reading es ∷ later
    → All (IsQuiet t index function target) noise
    → read_packet es ≡ received r
    → Echoes t index function target r
    → ((send_feature_request index function params target t).0 ≡ some (drop 4 r))
      × ((send_feature_request index function params target t).1.rounds ≡ later)
send_feature_request_complete index function params target t noise later es r h ok rs quiet e j =
    let judge = judge_of t index function target in
    let written = issued t index function params target in
    let w = write_packet_lem (frame_of t index function params target) (next_sw_id t).1 in
    let heard : written.1.rounds ≡ noise ++ reading es ∷ later = rw w.1 (unfold next_sw_id in rs) in
    let run = request-run index function params target t h ∙ after_write-true judge written ok in
    let (reply, _, _, _, _, _, rest) = await_lem judge written.1 in
    let goal =
      wait-noise judge written.1.pending_notifications noise es r (drop 4 r) later
        (All-mono (IsQuiet t index function target) (IsNoise judge)
          (IsQuiet-IsNoise index function target t) noise quiet)
        e (judge_of-echo index function target t r j) in
    rw run (reply ∙ rw heard goal.0, rest ∙ rw heard goal.1)

-- A HID++ 2.0 notification is never taken for the answer to a request: it carries the software id
-- 0, and a request carries one of 1..15.
answer-ne-hidpp20 :
    (device index wire id : ℕ) (r d : List ℕ) (n : Notification)
    → 0 < id
    → judge_feature device index wire id r ≡ answer d
    → notification_from_bytes r ≡ some n
    → n.type ≢ hidpp20
answer-ne-hidpp20 device index wire id r d n positive e m same =
    let (_, _, _, _, _, _, call) = judge_feature-answer device index wire id r d e in
    let zero_id = hidpp20_lem r n m same in omega arith
