-- ===== src/Hidpp/Transport/Notify.antt =====
-- Notifications read from the transport: `receive_notification` and `drain_notifications`, and the
-- delivery of the classified events.
use abrek_mouse.Prelude.{
  ℕ, zero, suc, ◌-◌, Bool, true, false, not, ◌||◌, Option, none, some, List, [], ◌∷◌, ◌++◌, leb,
  ◌==◌, if◌then◌else◌, length, take, drop,
}
use abrek_mouse.Hidpp.Notification.{Notification, notification_from_bytes}
use abrek_mouse.Hidpp.Features.{FeatureIds}
use abrek_mouse.Hidpp.Event.{Event, unhandled, classify_hidpp_notification}
use abrek_mouse.Hidpp.Event.{battery, connection, illumination, generic}
use abrek_mouse.Hidpp.Transport.Monad.{M}
use abrek_mouse.Hidpp.Transport.State.{
  Round, elapsed, reading, received, timed_out, died, read_packet,
}

pub record ReadOne : Type 0 where
  pub got : Option Notification
  pub rest : List Round
  pub alive : Bool

-- The loop of `read_one`: a failed read ends it, a report that is no notification is passed over.
unfoldable pub read_one : List Round → ReadOne
read_one [] = record { got = none; rest = []; alive = true }
read_one (elapsed ∷ rs) = record { got = none; rest = rs; alive = true }
read_one (reading es ∷ rs) = elim (read_packet es) [
  | timed_out ↦ record { got = none; rest = rs; alive = true }
  | died ↦ record { got = none; rest = rs; alive = false }
  | received d ↦ elim (notification_from_bytes d) [
    | some n ↦ record { got = some n; rest = rs; alive = true }
    | none ↦ read_one rs
  ]
]

unfoldable pub receive_notification : M (Option Notification)
receive_notification t =
    let r = read_one t.rounds in
    if not t.is_open then (none, t) else (r.got, record t { rounds = r.rest; is_open = r.alive })

-- The loop of `drain_notifications` over live packets: at most `k` more.
unfoldable pub read_live : ℕ → List Round → List Notification × List Round × Bool
read_live zero rs = ([], rs, true)
read_live (suc k) rs = elim (read_one rs).got [
  | none ↦ ([], (read_one rs).rest, (read_one rs).alive)
  | some n ↦ let (ns, rest, alive) = read_live k (read_one rs).rest in (n ∷ ns, rest, alive)
]

-- The stash first, oldest first, then live packets up to the bound.
unfoldable pub drain_notifications : ℕ → M (List Notification)
drain_notifications max_count t =
    let old = take max_count t.pending_notifications in
    let kept = record t { pending_notifications = drop max_count t.pending_notifications } in
    let (live, rest, alive) = read_live (max_count - length old) t.rounds in
    if max_count == 0 || not t.is_open
    then ([], t)
    else if leb max_count (length old)
    then (old, kept)
    else (old ++ live, record kept { rounds = rest; is_open = alive })

-- The events that are handed on: all but the unhandled ones.
unfoldable pub deliver : FeatureIds → Event → List (ℕ × ℕ) → List Notification → List Event
deliver ids blank features [] = []
deliver ids blank features (n ∷ ns) =
    let event = classify_hidpp_notification ids blank features n in
    let more = deliver ids blank features ns in
    elim event.kind [
      | unhandled ↦ more
      | battery ↦ event ∷ more
      | connection ↦ event ∷ more
      | illumination ↦ event ∷ more
      | generic ↦ event ∷ more
    ]

-- The events given to the callback, and their number.
unfoldable pub drain_hidpp_notifications :
    FeatureIds → Event → List (ℕ × ℕ) → ℕ → M (List Event × ℕ)
drain_hidpp_notifications ids blank features max_count t =
    let (ns, t') = drain_notifications max_count t in
    let events = deliver ids blank features ns in ((events, length events), t')
