-- ===== src/Hidpp/Transport/Waiting.antt =====
-- The waiting loop that every request runs.
use abrek_mouse.Prelude.{
  ℕ, ◌≤◌, ◌≡◌, refl, ◌∙◌, ◌⊎◌, inl, inr, Bool, true, false, none, some, List, [], ◌∷◌, arith,
  Option-cases, length, length-append,
}
use abrek_mouse.Hidpp.Notification.{Notification, notification_from_bytes}
use abrek_mouse.Hidpp.Transport.State.{
  Round, elapsed, reading, received, timed_out, died, read_packet, ReadResult, Verdict, answer,
  refuse, keep, ignore, wait, stash, IoEvent,
}

-- The report `r` is read in one of the rounds.
abbrev pub Heard : List ℕ → List Round → Type 0
Heard r [] = ⊥
Heard r (elapsed ∷ rs) = Heard r rs
Heard r (reading es ∷ rs) = (read_packet es ≡ received r) ⊎ Heard r rs

Read-cases : (x : ReadResult) → (x ≡ timed_out) ⊎ (x ≡ died) ⊎ ((r : List ℕ) × (x ≡ received r))
Read-cases timed_out = inl refl
Read-cases died = inr (inl refl)
Read-cases (received r) = inr (inr (r, refl))

Verdict-cases :
    {A : Type 0} (v : Verdict A)
    → (v ≡ refuse) ⊎ (v ≡ keep) ⊎ (v ≡ ignore) ⊎ ((a : A) × (v ≡ answer a))
Verdict-cases refuse = inl refl
Verdict-cases keep = inr (inl refl)
Verdict-cases ignore = inr (inr (inl refl))
Verdict-cases (answer a) = inr (inr (inr (a, refl)))

-- The loop behind one round, as an equation for each thing that a round can bring.
module _ {A : Type 0} (judge : List ℕ → Verdict A) (pending : List Notification) (es : List IoEvent)
    (rs : List Round) where
  pub after_timeout :
      read_packet es ≡ timed_out → wait judge pending (reading es ∷ rs) ≡ wait judge pending rs
  unfolding wait
  after_timeout e = rw (e, wait)

  pub after_death :
      read_packet es ≡ died
      → wait judge pending (reading es ∷ rs)
        ≡ record { reply = none; rest = rs; pending = pending; alive = false }
  unfolding wait
  after_death e = rw (e, wait)

  pub after_refusal :
      (r : List ℕ)
      → read_packet es ≡ received r
      → judge r ≡ refuse
      → wait judge pending (reading es ∷ rs)
        ≡ record { reply = none; rest = rs; pending = pending; alive = true }
  unfolding wait
  after_refusal r e j = rw (e, wait) (rw j)

  pub after_keep :
      (r : List ℕ)
      → read_packet es ≡ received r
      → judge r ≡ keep
      → wait judge pending (reading es ∷ rs) ≡ wait judge (stash pending r) rs
  unfolding wait
  after_keep r e j = rw (e, wait) (rw j)

  pub after_ignore :
      (r : List ℕ)
      → read_packet es ≡ received r
      → judge r ≡ ignore
      → wait judge pending (reading es ∷ rs) ≡ wait judge pending rs
  unfolding wait
  after_ignore r e j = rw (e, wait) (rw j)

  pub after_answer :
      (r : List ℕ) (a : A)
      → read_packet es ≡ received r
      → judge r ≡ answer a
      → wait judge pending (reading es ∷ rs)
        ≡ record { reply = some a; rest = rs; pending = pending; alive = true }
  unfolding wait
  after_answer r a e j = rw (e, wait) (rw j)

-- What one round does: nothing, a report that may be kept, an end without a reply, or the reply.
abbrev Turn :
    {A : Type 0} → (List ℕ → Verdict A) → List Notification → List IoEvent → List Round → Type 0
Turn {A} judge pending es rs =
    (wait judge pending (reading es ∷ rs) ≡ wait judge pending rs)
    ⊎ ((r : List ℕ) × (wait judge pending (reading es ∷ rs) ≡ wait judge (stash pending r) rs))
    ⊎ ((b : Bool) × (wait judge pending (reading es ∷ rs)
          ≡ record { reply = none; rest = rs; pending = pending; alive = b }))
    ⊎ ((r : List ℕ) × (a : A) × (read_packet es ≡ received r)
        × (judge r ≡ answer a)
        × (wait judge pending (reading es ∷ rs)
            ≡ record { reply = some a; rest = rs; pending = pending; alive = true }))

turn :
    {A : Type 0} (judge : List ℕ → Verdict A) (pending : List Notification) (es : List IoEvent)
    (rs : List Round)
    → Turn judge pending es rs
turn judge pending es rs = elim (Read-cases (read_packet es)) [
  | inl e ↦ inl (after_timeout judge pending es rs e)
  | inr (inl e) ↦ inr (inr (inl (false, after_death judge pending es rs e)))
  | inr (inr (r, e)) ↦ elim (Verdict-cases (judge r)) [
    | inl j ↦ inr (inr (inl (true, after_refusal judge pending es rs r e j)))
    | inr (inl j) ↦ inr (inl (r, after_keep judge pending es rs r e j))
    | inr (inr (inl j)) ↦ inl (after_ignore judge pending es rs r e j)
    | inr (inr (inr (a, j))) ↦
        inr (inr (inr (r, a, e, j, after_answer judge pending es rs r a e j)))
  ]
]

abbrev Found : {A : Type 0} → (List ℕ → Verdict A) → List Round → A → Type 0
Found judge rs a = (r : List ℕ) × (judge r ≡ answer a) × Heard r rs

pub wait-answer :
    {A : Type 0} (judge : List ℕ → Verdict A) (pending : List Notification) (rs : List Round)
    (a : A)
    → (wait judge pending rs).reply ≡ some a
    → Found judge rs a
wait-answer judge pending [] a h = unfold wait in cc
wait-answer judge pending (elapsed ∷ rs) a h = unfold wait in cc
wait-answer judge pending (reading es ∷ rs) a h = elim (turn judge pending es rs) [
  | inl e ↦ let (r, j, m) = wait-answer judge pending rs a (rw e at h) in (r, j, inr m)
  | inr (inl (x, e)) ↦
      let (r, j, m) = wait-answer judge (stash pending x) rs a (rw e at h) in (r, j, inr m)
  | inr (inr (inl (b, e))) ↦ cc (rw e at h)
  | inr (inr (inr (r, b, e, j, w))) ↦ (r, j ∙ cc (rw w at h), inl e)
]

stash_bound :
    (pending : List Notification) (r : List ℕ) → length pending ≤ 16 → length (stash pending r) ≤ 16
unfolding stash
stash_bound pending r h = elim (Option-cases (notification_from_bytes r)) [
  | inl e ↦ rw (e, stash) h
  | inr (n, e) ↦ rw (e, stash) (ground (arith, length-append pending (n ∷ [])))
]

pub wait_bound :
    {A : Type 0} (judge : List ℕ → Verdict A) (pending : List Notification) (rs : List Round)
    → length pending ≤ 16
    → length (wait judge pending rs).pending ≤ 16
wait_bound judge pending [] h = unfold wait in h
wait_bound judge pending (elapsed ∷ rs) h = unfold wait in h
wait_bound judge pending (reading es ∷ rs) h = elim (turn judge pending es rs) [
  | inl e ↦ rw e (wait_bound judge pending rs h)
  | inr (inl (x, e)) ↦ rw e (wait_bound judge (stash pending x) rs (stash_bound pending x h))
  | inr (inr (inl (b, e))) ↦ rw e h
  | inr (inr (inr (r, b, e, j, w))) ↦ rw w h
]
