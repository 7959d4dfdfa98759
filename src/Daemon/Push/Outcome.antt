-- ===== src/Daemon/Push/Outcome.antt =====
-- Which pushes reach the live configuration (daemon/daemon.cpp, `push_config`).
use abrek_mouse.Daemon.Push.{
  Push, Event, take_entry, save_done, apply_done, accept, push_config, run,
}
use abrek_mouse.Daemon.Push.Target.{succeeds, target, IsIdle, IsIdle-applied, run-target}
use abrek_mouse.Prelude.{
  ℕ, ◌≡◌, refl, sym, ap, ◌∙◌, ◌≢◌, inl, inr, Bool, true, Option, none, some, List, [], ◌∷◌, arith,
  ◌==◌, ==_iff, Bool-cases, All, Text, text_eq, text_eq_sound,
}

module _ {C : Type 0} (parse : Text → Option C) (to_json : C → Text) (hash : Text → ℕ) where
  -- The stored hash is that of the applied configuration.
  abbrev pub HashOk : Push C → Type 0
  HashOk s = s.config_hash ≡ hash (to_json s.applied)

  -- A run of the other threads in which every step succeeds and nothing is left to do.
  abbrev pub Settles : List Event → Push C → Type 0
  Settles es s = All (λ e. succeeds e ≡ true) es × IsIdle (run parse to_json hash es s)

  Settles-applied :
      (es : List Event) (s : Push C)
      → Settles es s
      → (run parse to_json hash es s).applied ≡ target s
  Settles-applied es s (ok, idle) =
      sym (IsIdle-applied (run parse to_json hash es s) idle)
      ∙ run-target parse to_json hash es s ok

  schedule : List C → List Event
  schedule [] = apply_done ∷ []
  schedule (c ∷ q) = take_entry ∷ save_done ∷ schedule q

  schedule-Settles :
      (r p : Bool) (a : C) (h : ℕ) (m : Option C) (q : List C) (d : Option C)
      → Settles (schedule q) (record {
        running = r;
        has_path = p;
        applied = a;
        config_hash = h;
        armed = m;
        queue = q;
        saving = none;
        disk = d;
      })
  unfolding schedule run
  schedule-Settles r p a h none [] d = ((refl, tt), (refl, refl, refl))
  schedule-Settles r p a h (some c) [] d = ((refl, tt), (refl, refl, refl))
  schedule-Settles r p a h m (c ∷ q) d =
      let (ok, idle) = schedule-Settles r p a h (some c) q (some c) in ((refl, (refl, ok)), idle)

  can_settle_from :
      (r p : Bool) (a : C) (h : ℕ) (m : Option C) (q : List C) (v d : Option C)
      → (es : List Event) × Settles es (record {
        running = r;
        has_path = p;
        applied = a;
        config_hash = h;
        armed = m;
        queue = q;
        saving = v;
        disk = d;
      })
  unfolding run
  can_settle_from r p a h m q none d = (schedule q, schedule-Settles r p a h m q d)
  can_settle_from r p a h m q (some c) d =
      let (ok, idle) = schedule-Settles r p a h (some c) q (some c) in
      (save_done ∷ schedule q, ((refl, ok), idle))

  -- From every state the other threads can finish.
  can_settle : (s : Push C) → (es : List Event) × Settles es s
  can_settle s =
      can_settle_from s.running s.has_path s.applied s.config_hash s.armed s.queue s.saving s.disk

  idle_writer :
      (s : Push C) (m : Option C)
      → s.queue ≡ []
      → s.saving ≡ none
      → s.armed ≡ m
      → target s ≡ elim m [ none ↦ s.applied | some p ↦ p ]
  idle_writer s none q v e = simp (q, v, e)
  idle_writer s (some p) q v e = simp (q, v, e)

  -- An accepted configuration is the newest one, up to its text, if the worker was idle.
  accept-target :
      (m : Option C) (cfg : C) (s : Push C)
      → s.armed ≡ m
      → HashOk s
      → (hash (to_json cfg) ≡ hash (to_json s.applied) → to_json cfg ≡ to_json s.applied)
      → s.queue ≡ []
      → s.saving ≡ none
      → to_json (target (accept parse to_json hash m cfg s).0) ≡ to_json cfg
  unfolding accept
  accept-target (some pending) cfg s e ok same q v =
      elim (Bool-cases (text_eq (to_json cfg) (to_json pending))) [
        | inl b ↦ rw b (
            ap to_json (idle_writer s (some pending) q v e)
            ∙ sym (text_eq_sound (to_json cfg) (to_json pending) b))
        | inr b ↦ rw b refl
      ]
  accept-target none cfg s e ok same q v = elim (Bool-cases (hash (to_json cfg) == s.config_hash)) [
    | inl b ↦ rw b (
        ap to_json (idle_writer s none q v e)
        ∙ sym (same ((==_iff (hash (to_json cfg)) s.config_hash).0 b ∙ ok)))
    | inr b ↦ elim (Bool-cases (text_eq (to_json cfg) (to_json s.applied))) [
      | inl t ↦
          rw (b, t)
            (ap to_json (idle_writer s none q v e)
              ∙ sym (text_eq_sound (to_json cfg) (to_json s.applied) t))
      | inr t ↦ rw (b, t) refl
    ]
  ]

  -- A push is taken exactly by a daemon that runs with a path, for a text that can be read; then it
  -- goes through the tests.
  push_config-accept :
      (t : Text) (cfg : C) (s : Push C)
      → s.running ≡ true
      → s.has_path ≡ true
      → parse t ≡ some cfg
      → push_config parse to_json hash t s ≡ accept parse to_json hash s.armed cfg s
  unfolding push_config
  push_config-accept t cfg s r p e = simp (r, p, e)

  accept-true : (m : Option C) (cfg : C) (s : Push C) → (accept parse to_json hash m cfg s).1 ≡ true
  unfolding accept
  accept-true (some pending) cfg s = ground arith
  accept-true none cfg s = ground arith

  -- A configuration pushed while no other is queued or being saved is accepted and reaches the
  -- daemon: the save worker and the main loop can finish, and whenever they have, with every step
  -- succeeding, the applied configuration has the text of the pushed one. The daemon runs with a
  -- path, the stored hash is that of the applied configuration, and the hash of the pushed text is
  -- another unless the texts are equal.
  pub push_config-applied :
      (t : Text) (cfg : C) (s : Push C)
      → s.running ≡ true
      → s.has_path ≡ true
      → parse t ≡ some cfg
      → HashOk s
      → (hash (to_json cfg) ≡ hash (to_json s.applied) → to_json cfg ≡ to_json s.applied)
      → s.queue ≡ []
      → s.saving ≡ none
      → (es : List Event) → Settles es (push_config parse to_json hash t s).0
      → ((push_config parse to_json hash t s).1 ≡ true)
        × ((ds : List Event) × Settles ds (push_config parse to_json hash t s).0)
        × (to_json (run parse to_json hash es (push_config parse to_json hash t s).0).applied
            ≡ to_json cfg)
  push_config-applied t cfg s r p e ok same q v es settles =
      let taken = push_config-accept t cfg s r p e in
      (
        ap (λ o. o.1) taken ∙ accept-true s.armed cfg s,
        can_settle (push_config parse to_json hash t s).0,
        ap to_json (Settles-applied es (push_config parse to_json hash t s).0 settles)
            ∙ ap (λ o. to_json (target o.0)) taken
            ∙ accept-target s.armed cfg s refl ok same q v,
      )

  accept-revert :
      (m : Option C) (cfg : C) (s : Push C)
      → m ≡ none
      → HashOk s
      → to_json cfg ≡ to_json s.applied
      → accept parse to_json hash m cfg s ≡ (s, true)
  unfolding accept
  accept-revert none cfg s e ok same =
      rw ((==_iff (hash (to_json cfg)) s.config_hash).1 (ap hash same ∙ sym ok))
  accept-revert (some pending) cfg s e ok same = cc

  -- A revert is lost: while another configuration is queued or being saved and none is armed, a push
  -- of the applied configuration is accepted but changes nothing, so whenever the worker and the
  -- loop have finished, with every step succeeding, the other configuration is applied.
  pub push_config_lost_revert :
      (t : Text) (cfg : C) (s : Push C)
      → s.running ≡ true
      → s.has_path ≡ true
      → parse t ≡ some cfg
      → HashOk s
      → s.armed ≡ none
      → to_json cfg ≡ to_json s.applied
      → to_json (target s) ≢ to_json s.applied
      → (es : List Event) → Settles es (push_config parse to_json hash t s).0
      → (push_config parse to_json hash t s ≡ (s, true))
        × ((run parse to_json hash es (push_config parse to_json hash t s).0).applied ≡ target s)
        × (to_json (run parse to_json hash es (push_config parse to_json hash t s).0).applied
            ≢ to_json cfg)
  push_config_lost_revert t cfg s r p e ok a same other es settles =
      let skipped : push_config parse to_json hash t s ≡ (s, true) =
        push_config-accept t cfg s r p e ∙ accept-revert s.armed cfg s a ok same in
      let applied : (run parse to_json hash es (push_config parse to_json hash t s).0).applied
          ≡ target s =
        Settles-applied es (push_config parse to_json hash t s).0 settles
        ∙ ap (λ o. target o.0) skipped in
      (skipped, applied, λ wrong. other (sym (ap to_json applied) ∙ wrong ∙ same))
