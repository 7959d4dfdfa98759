-- ===== src/Daemon/Push/Target.antt =====
-- What a pushed configuration comes to (daemon/daemon.cpp): the abstract state of the three threads
-- is the configuration that is applied once they have nothing left to do.
use abrek_mouse.Daemon.Push.{
  Push, Event, take_entry, save_done, save_throws, apply_done, apply_throws, take_front,
  finish_save, apply_armed, step, run,
}
use abrek_mouse.Prelude.{
  ℕ, ◌≡◌, refl, ◌∙◌, Bool, true, false, Option, none, some, List, [], ◌∷◌, All, Text,
}

-- The steps that succeed.
abbrev pub succeeds : Event → Bool
succeeds take_entry = true
succeeds save_done = true
succeeds save_throws = false
succeeds apply_done = true
succeeds (apply_throws assigned) = false

module _ {C : Type 0} where
  abbrev pub last_or : C → List C → C
  last_or d [] = d
  last_or d (c ∷ cs) = last_or c cs

  abbrev pub get_or_else : C → Option C → C
  get_or_else d none = d
  get_or_else d (some c) = c

  -- The abstract state: the newest of the queued, the saving, the armed and the applied.
  abbrev pub target : Push C → C
  target s = last_or (get_or_else (get_or_else s.applied s.armed) s.saving) s.queue

  -- Nothing is queued, being saved or armed.
  abbrev pub IsIdle : Push C → Type 0
  IsIdle s = (s.queue ≡ []) × (s.saving ≡ none) × (s.armed ≡ none)

  pub IsIdle-applied : (s : Push C) → IsIdle s → target s ≡ s.applied
  IsIdle-applied s (q, v, a) = simp (q, v, a)

  last_or_any : (c d e : C) (cs : List C) → last_or d (c ∷ cs) ≡ last_or e (c ∷ cs)
  last_or_any c d e cs = refl

module _ {C : Type 0} (parse : Text → Option C) (to_json : C → Text) (hash : Text → ℕ) where
  -- The steps of the worker and of the loop stutter: they leave the abstract state as it is.
  take_front-target :
      (v : Option C) (q : List C) (s : Push C)
      → s.saving ≡ v
      → s.queue ≡ q
      → target (take_front parse to_json hash v q s) ≡ target s
  unfolding take_front
  take_front-target (some c) q s e f = refl
  take_front-target none [] s e f = refl
  take_front-target none (c ∷ q) s e f = simp (e, f)

  finish_save-target :
      (v : Option C) (s : Push C)
      → s.saving ≡ v
      → target (finish_save parse to_json hash true v s) ≡ target s
  unfolding finish_save
  finish_save-target none s e = refl
  finish_save-target (some c) s e = simp (e)

  apply_armed-target :
      (v : Option C) (s : Push C)
      → s.armed ≡ v
      → target (apply_armed parse to_json hash v s) ≡ target s
  unfolding apply_armed
  apply_armed-target none s e = refl
  apply_armed-target (some c) s e = simp (e)

  step-target :
      (e : Event) (s : Push C) → succeeds e ≡ true → target (step parse to_json hash e s) ≡ target s
  unfolding step
  step-target take_entry s h = take_front-target s.saving s.queue s refl refl
  step-target save_done s h = finish_save-target s.saving s refl
  step-target save_throws s h = cc
  step-target apply_done s h = apply_armed-target s.armed s refl
  step-target (apply_throws assigned) s h = cc

  pub run-target :
      (es : List Event) (s : Push C)
      → All (λ e. succeeds e ≡ true) es
      → target (run parse to_json hash es s) ≡ target s
  unfolding run
  run-target [] s h = refl
  run-target (e ∷ es) s (p, h) = run-target es (step parse to_json hash e s) h ∙ step-target e s p
