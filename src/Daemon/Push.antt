-- ===== src/Daemon/Push.antt =====
-- The path of a pushed configuration (daemon/daemon.cpp): `push_config` on the IPC thread, the save
-- worker, and the slot that the main loop applies. A push is one step, and so is each lock scope of
-- the other two threads. The reader of a
-- pushed text, the writer of a configuration and the hash of a text are parameters.
pub mod Target
pub mod Outcome
use abrek_mouse.Prelude.{
  ℕ, zero, suc, ◌+◌, ◌-◌, ◌*◌, ◌/◌, ◌%◌, ◌^◌, ◌≤◌, ◌<◌, min, max, ◌≡◌, refl, sym, ap, ◌∙◌, ◌≢◌, ◌↔◌,
  ◌⊎◌, inl, inr, Bool, true, false, not, ◌&&◌, ◌||◌, Option, none, some, List, [], ◌∷◌, ◌++◌, map,
  append-nil, append_assoc, arith, ltb, leb, ◌==◌, if◌then◌else◌, ltb→lt, lt→ltb, leb→le, ==_iff,
  tests, Bool-cases, Option-cases, length, get_or, take, drop, replicate, length-append,
  length-take, length-drop, length-replicate, take-append-drop, take-length, All, any_of, find_if,
  dec_lt, Text, codes, text_eq, text_eq_sound, text_eq_refl, is_empty, is_digit, to_lower, ℤ, pos,
  negsuc, ltz, Mem, All-mono, All-zip, All-append, append-All, Mem-append,
}

-- The shared state: `applied` is `config_`, `armed` is `push_cfg_` while `push_cfg_pending_` is set,
-- `saving` is the entry that the worker has popped, `disk` what was saved last.
pub record Push (C : Type 0) : Type 0 where
  pub running : Bool
  pub has_path : Bool
  pub applied : C
  pub config_hash : ℕ
  pub armed : Option C
  pub queue : List C
  pub saving : Option C
  pub disk : Option C

-- The steps of the two other threads; an `apply_config` that throws may have assigned `config_`.
pub data Event : Type 0 where
  take_entry : Event
  save_done : Event
  save_throws : Event
  apply_done : Event
  apply_throws : Bool → Event

module _ {C : Type 0} (parse : Text → Option C) (to_json : C → Text) (hash : Text → ℕ) where
  -- The last scope of `push_config`: the backlog is dropped.
  unfoldable pub enqueue : C → Push C → Push C
  enqueue cfg s = record s { queue = cfg ∷ [] }

  -- The tests against the armed configuration, or against the applied one if none is armed.
  unfoldable pub accept : Option C → C → Push C → Push C × Bool
  unfolding enqueue text_eq
  accept (some pending) cfg s =
      if text_eq (to_json cfg) (to_json pending) then (s, true) else (enqueue cfg s, true)
  accept none cfg s =
      let new_json = to_json cfg in
      let new_hash = hash new_json in
      if new_hash == s.config_hash
      then (s, true)
      else if text_eq new_json (to_json s.applied)
      then (record s { config_hash = new_hash }, true)
      else (enqueue cfg s, true)

  -- `push_config`: the state behind it and whether the push was accepted.
  unfoldable pub push_config : Text → Push C → Push C × Bool
  unfolding accept
  push_config t s =
      if not s.running || not s.has_path
      then (s, false)
      else elim (parse t) [ none ↦ (s, false) | some cfg ↦ accept s.armed cfg s ]

  -- `apply_new_config`, of which the configuration and its hash are kept.
  unfoldable pub apply_config : C → Push C → Push C
  apply_config cfg s = record s { applied = cfg; config_hash = hash (to_json cfg) }

  -- The pop of `save_worker`.
  unfoldable pub take_front : Option C → List C → Push C → Push C
  take_front (some c) q s = s
  take_front none [] s = s
  take_front none (c ∷ q) s = record s { queue = q; saving = some c }

  -- Its write, and the arming behind a write that succeeds.
  unfoldable pub finish_save : Bool → Option C → Push C → Push C
  finish_save ok none s = s
  finish_save true (some c) s = record s { saving = none; disk = some c; armed = some c }
  finish_save false (some c) s = record s { saving = none }

  -- The first scope of `run_loop`.
  unfoldable pub apply_armed : Option C → Push C → Push C
  unfolding apply_config
  apply_armed none s = s
  apply_armed (some c) s = record (apply_config c s) { armed = none }

  unfoldable pub apply_fails : Bool → Option C → Push C → Push C
  unfolding apply_config
  apply_fails assigned none s = s
  apply_fails true (some c) s = record (apply_config c s) { armed = none }
  apply_fails false (some c) s = record s { armed = none }

  unfoldable pub step : Event → Push C → Push C
  unfolding take_front finish_save apply_armed apply_fails
  step take_entry s = take_front s.saving s.queue s
  step save_done s = finish_save true s.saving s
  step save_throws s = finish_save false s.saving s
  step apply_done s = apply_armed s.armed s
  step (apply_throws assigned) s = apply_fails assigned s.armed s

  unfoldable pub run : List Event → Push C → Push C
  unfolding step
  run [] s = s
  run (e ∷ es) s = run es (step e s)
