-- ===== src/Hidpp/Transport/Drain.antt =====
-- The order in which notifications leave the transport.
use abrek_mouse.Prelude.{
  ℕ, zero, suc, ◌-◌, ◌<◌, ◌≡◌, refl, sym, ap, ◌⊎◌, inl, inr, true, false, none, some, List, [], ◌∷◌,
  ◌++◌, append-nil, arith, leb, ◌==◌, Bool-cases, length, take, drop,
}
use abrek_mouse.Hidpp.Notification.{Notification, notification_from_bytes}
use abrek_mouse.Hidpp.Transport.State.{
  Transport, Round, elapsed, reading, received, timed_out, died, read_packet,
}
use abrek_mouse.Hidpp.Transport.Notify.{ReadOne, read_live, read_one, drain_notifications}

-- The notifications that the reads of the rounds give, up to the first read that fails: reports
-- that are no notification are passed over.
abbrev pub live : List Round → List Notification
live [] = []
live (elapsed ∷ rs) = []
live (reading es ∷ rs) = elim (read_packet es) [
  | timed_out ↦ []
  | died ↦ []
  | received d ↦ elim (notification_from_bytes d) [ none ↦ live rs | some n ↦ n ∷ live rs ]
]

Follows : List Notification → ReadOne → Type 0
Follows ns r =
    ((r.got ≡ none) × (ns ≡ [])) ⊎ ((n : Notification) × (r.got ≡ some n) × (ns ≡ n ∷ live r.rest))

live-read_one : (rs : List Round) → Follows (live rs) (read_one rs)
unfolding read_one Follows
live-read_one [] = inl (refl, refl)
live-read_one (elapsed ∷ rs) = inl (refl, refl)
live-read_one (reading es ∷ rs) =
    let next = live-read_one rs in
    elim (read_packet es)
      as (λ r.
        Follows
          (elim r [
            | timed_out ↦ []
            | died ↦ []
            | received d ↦ elim (notification_from_bytes d) [
              | none ↦ live rs
              | some n ↦ n ∷ live rs
            ]
          ])
          (elim r [
            | timed_out ↦ record { got = none; rest = rs; alive = true }
            | died ↦ record { got = none; rest = rs; alive = false }
            | received d ↦ elim (notification_from_bytes d) [
              | some n ↦ record { got = some n; rest = rs; alive = true }
              | none ↦ read_one rs
            ]
          ])) [
            | timed_out ↦ inl (refl, refl)
            | died ↦ inl (refl, refl)
            | received d ↦
                elim (notification_from_bytes d)
                  as (λ o.
                    Follows (elim o [ none ↦ live rs | some n ↦ n ∷ live rs ])
                      (elim o [
                        | some n ↦ record { got = some n; rest = rs; alive = true }
                        | none ↦ read_one rs
                      ])) [ none ↦ next | some n ↦ inr (n, refl, refl) ]
          ]

read_live-take : (k : ℕ) (rs : List Round) → (read_live k rs).0 ≡ take k (live rs)
unfolding read_live Follows
read_live-take zero rs = refl
read_live-take (suc k) rs = elim (live-read_one rs) [
  | inl (e, ends) ↦ rw (e, read_live, ends) refl
  | inr (n, e, more) ↦ rw (e, read_live, more) (ap (◌∷◌ n) (read_live-take k (read_one rs).rest))
]

take-append :
    {A : Type 0} (k : ℕ) (xs ys : List A)
    → take k (xs ++ ys) ≡ take k xs ++ take (k - length (take k xs)) ys
take-append zero xs ys = refl
take-append (suc k) [] ys = let e : suc k - 0 ≡ suc k = omega arith in rw e refl
take-append (suc k) (x ∷ xs) ys =
    let e : suc k - suc (length (take k xs)) ≡ k - length (take k xs) = omega arith in
    rw e (ap (◌∷◌ x) (take-append k xs ys))

-- What a drain returns from an open transport: the front of the stash and the live notifications as
-- one queue; what is left of the stash stays.
abbrev pub Drained : ℕ → Transport → List Notification × Transport → Type 0
Drained max_count t result =
    (result.0 ≡ take max_count (t.pending_notifications ++ live t.rounds))
    × (result.1.pending_notifications ≡ drop max_count t.pending_notifications)
    × (result.1.sent ≡ t.sent)

-- A drain of an open transport with a positive bound returns the first notifications, as many as the
-- bound allows, of the queue that the stash makes with the notifications in the reports to be read
-- behind it, in their order and up to the first read that fails; the rest of the stash stays, and
-- nothing is written.
pub drain_notifications-Drained :
    (max_count : ℕ) (t : Transport)
    → 0 < max_count
    → t.is_open ≡ true
    → Drained max_count t (drain_notifications max_count t)
unfolding drain_notifications
drain_notifications-Drained max_count t some_room op =
    let old = take max_count t.pending_notifications in
    let room = max_count - length old in
    let positive : (max_count == 0) ≡ false = ground arith in
    let queue = take-append max_count t.pending_notifications (live t.rounds) in
    elim (Bool-cases (leb max_count (length old))) [
      | inl e ↦
          let full : room ≡ 0 = ground arith in
          rw (positive, op, e) (rw queue (rw full (sym (append-nil old))), refl, refl)
      | inr e ↦
          rw (positive, op, e)
            (rw queue (ap (λ l. old ++ l) (read_live-take room t.rounds)), refl, refl)
    ]
