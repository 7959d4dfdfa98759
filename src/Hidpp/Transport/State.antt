-- ===== src/Hidpp/Transport/State.antt =====
-- The transport object, and the kernel and device behind it as a script of what they do next.
-- The two mutexes serialise the methods, so a method is a function on this state.
use abrek_mouse.Prelude.{
  ℕ, zero, suc, ◌+◌, ◌-◌, ◌*◌, ◌%◌, Bool, true, false, not, ◌||◌, Option, none, some, List, [], ◌∷◌,
  ◌++◌, ltb, ◌==◌, if◌then◌else◌, length, take, drop,
}
use abrek_mouse.Hidpp.Notification.{Notification, notification_from_bytes}
use abrek_mouse.Hidpp.Records.{Metadata}

-- One turn of the loop of `read_packet`: what `poll` and `read` give, or the deadline.
pub data IoEvent : Type 0 where
  expired poll_timeout poll_error interrupted would_block end_of_file hard_error : IoEvent
  report : List ℕ → IoEvent

pub data ReadResult : Type 0 where
  received : List ℕ → ReadResult
  timed_out died : ReadResult

-- A read fills the 64-byte buffer of the callers; reading nothing is the end of the file.
read_report : List ℕ → ReadResult
read_report [] = died
read_report (b ∷ d) = received (take 64 (b ∷ d))

-- A script that ends has no further event before the deadline.
unfoldable pub read_packet : List IoEvent → ReadResult
unfolding read_report
read_packet [] = timed_out
read_packet (expired ∷ es) = timed_out
read_packet (poll_timeout ∷ es) = timed_out
read_packet (poll_error ∷ es) = died
read_packet (interrupted ∷ es) = read_packet es
read_packet (would_block ∷ es) = read_packet es
read_packet (end_of_file ∷ es) = died
read_packet (hard_error ∷ es) = died
read_packet (report d ∷ es) = read_report d

-- One turn of the loop of `write_packet`. `busy` is EAGAIN with POLLOUT in time, and `stuck` any
-- other end of that branch; `refused` is a hard error.
pub data WriteEvent : Type 0 where
  wrote : ℕ → WriteEvent
  write_interrupted busy stuck refused : WriteEvent

-- `left` bytes are still to be written.
unfoldable pub write_loop : List WriteEvent → ℕ → Bool
write_loop es zero = true
write_loop [] (suc left) = false
write_loop (wrote n ∷ es) (suc left) =
    let rest = write_loop es (suc left - n) in if n == 0 then false else rest
write_loop (write_interrupted ∷ es) (suc left) = write_loop es (suc left)
write_loop (busy ∷ es) (suc left) = write_loop es (suc left)
write_loop (stuck ∷ es) (suc left) = false
write_loop (refused ∷ es) (suc left) = false

-- One turn of a loop that waits for a reply: the deadline has passed, or a packet is read.
pub data Round : Type 0 where
  elapsed : Round
  reading : List IoEvent → Round

pub record Transport : Type 0 where
  pub is_open : Bool
  pub vendor_id : ℕ
  pub product_id : ℕ
  pub device_index : ℕ
  pub next_sw_id : ℕ
  pub feature_indices : List (ℕ × ℕ)
  pub feature_sets : List (ℕ × List (ℕ × ℕ))
  pub feature_metadata_sets : List (ℕ × List Metadata)
  pub pending_notifications : List Notification
  pub onboard_profiles_disabled_by_us : Bool
  -- What the kernel and the device will do, and the frames written so far, the last one first.
  pub writes : List (List WriteEvent)
  pub rounds : List Round
  pub sent : List (List ℕ)
  -- The answers of the clock to the checks of a method's own time budget.
  pub budget_checks : List Bool

-- A map is an association list, the latest assignment first.
unfoldable pub find {ℓ} : {A : Type ℓ} → ℕ → List (ℕ × A) → Option A
find k [] = none
find k ((j, a) ∷ m) = if j == k then some a else find k m

abbrev pub assign {ℓ} : {A : Type ℓ} → ℕ → A → List (ℕ × A) → List (ℕ × A)
assign k a m = (k, a) ∷ m

-- 0xFF as a target stands for the transport's own device index.
abbrev pub target_of : Transport → ℕ → ℕ
target_of t target = if target == 0xFF then t.device_index else target

-- The key of the index cache, `(target << 16) | feature_id`; the fields share no bit.
abbrev pub cache_key : ℕ → ℕ → ℕ
cache_key target feature = target * 65536 + feature

unfoldable pub set_device_index : ℕ → Transport → Transport
set_device_index idx t = record t {
  feature_indices = [];
  feature_sets = [];
  feature_metadata_sets = [];
  pending_notifications = [];
  device_index = idx;
}

unfoldable pub clear_feature_cache : Transport → Transport
clear_feature_cache t = record t {
  feature_indices = [];
  feature_sets = [];
  feature_metadata_sets = [];
  pending_notifications = [];
}

-- The software ids 1..15 in turn; 0 marks a notification.
unfoldable pub next_sw_id : Transport → ℕ × Transport
next_sw_id t =
    let next = (t.next_sw_id + 1) % 16 in
    (t.next_sw_id % 16, record t { next_sw_id = if next == 0 then 1 else next })

abbrev pub next_write : List (List WriteEvent) → List WriteEvent
next_write [] = []
next_write (w ∷ ws) = w

-- A frame counts as sent when all its bytes are written.
unfoldable pub write_packet : List ℕ → Transport → Bool × Transport
write_packet frame t =
    let done = write_loop (next_write t.writes) (length frame) in
    if length frame == 0 || not t.is_open then (false, t) else (
      done,
      record t { writes = drop 1 t.writes; sent = if done then frame ∷ t.sent else t.sent },
    )

-- At most 16 notifications that arrive while a reply is awaited are kept for later.
unfoldable pub stash : List Notification → List ℕ → List Notification
stash pending d = elim (notification_from_bytes d) [
  | none ↦ pending
  | some n ↦ if ltb (length pending) 16 then pending ++ n ∷ [] else pending
]

-- `steady_clock::now() >= deadline` for the budget of a whole enumeration; a script that ends has
-- time left.
abbrev pub next_check : List Bool → Bool
next_check [] = false
next_check (b ∷ bs) = b

unfoldable pub budget_spent : Transport → Bool × Transport
budget_spent t = (next_check t.budget_checks, record t { budget_checks = drop 1 t.budget_checks })

-- What a waiting loop makes of a packet: its reply, a refusal, noise to keep if it is a
-- notification, or noise.
pub data Verdict (A : Type 0) : Type 0 where
  answer : A → Verdict A
  refuse keep ignore : Verdict A

pub record Waited (A : Type 0) : Type 0 where
  pub reply : Option A
  pub rest : List Round
  pub pending : List Notification
  pub alive : Bool

-- The loop `while (now < deadline)` around `read_packet`, which every request runs. It ends at the
-- deadline, at a dead file descriptor, at a refusal and at the reply.
unfoldable pub wait :
    {A : Type 0} → (List ℕ → Verdict A) → List Notification → List Round → Waited A
wait judge pending [] = record { reply = none; rest = []; pending = pending; alive = true }
wait judge pending (elapsed ∷ rs) = record {
  reply = none;
  rest = rs;
  pending = pending;
  alive = true;
}
wait judge pending (reading es ∷ rs) = elim (read_packet es) [
  | timed_out ↦ wait judge pending rs
  | died ↦ record { reply = none; rest = rs; pending = pending; alive = false }
  | received d ↦ elim (judge d) [
    | answer a ↦ record { reply = some a; rest = rs; pending = pending; alive = true }
    | refuse ↦ record { reply = none; rest = rs; pending = pending; alive = true }
    | keep ↦ wait judge (stash pending d) rs
    | ignore ↦ wait judge pending rs
  ]
]

-- A loop run on the transport. A dead descriptor is closed.
unfoldable pub await : {A : Type 0} → (List ℕ → Verdict A) → Transport → Option A × Transport
await judge t =
    let w = wait judge t.pending_notifications t.rounds in
    (w.reply, record t { rounds = w.rest; pending_notifications = w.pending; is_open = w.alive })
