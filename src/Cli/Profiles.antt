-- ===== src/Cli/Profiles.antt =====
-- The commands on the list of profiles (cli/main.cpp): `set`, `create`, `delete`, `duplicate` and
-- `rename`. The fresh acceleration settings are a parameter. Whether a save or a push succeeds is given by an outcome.
pub mod Names
pub mod Invariant
use abrek_mouse.Config.Numbers.{Numbers}
use abrek_mouse.Config.Accel.{Profile, Limits}
use abrek_mouse.Config.Migrate.{save_config}
use abrek_mouse.Config.Model.{max_name_len, max_profiles, DeviceConfig, DeviceProfile, AppConfig}
use abrek_mouse.Prelude.{
  ℕ, zero, suc, ◌+◌, ◌-◌, ◌*◌, ◌/◌, ◌%◌, ◌^◌, ◌≤◌, ◌<◌, min, max, ◌≡◌, refl, sym, ap, ◌∙◌, ◌≢◌, ◌↔◌,
  ◌⊎◌, inl, inr, Bool, true, false, not, ◌&&◌, ◌||◌, Option, none, some, List, [], ◌∷◌, ◌++◌, map,
  append-nil, append_assoc, arith, ltb, leb, ◌==◌, if◌then◌else◌, ltb→lt, lt→ltb, leb→le, ==_iff,
  tests, Bool-cases, Option-cases, length, get_or, take, drop, replicate, length-append,
  length-take, length-drop, length-replicate, take-append-drop, take-length, All, any_of, find_if,
  dec_lt, Text, codes, text_eq, text_eq_sound, text_eq_refl, is_empty, is_digit, to_lower, ℤ, pos,
  negsuc, ltz, Mem, All-mono, All-zip, All-append, append-All, Mem-append,
}

-- What the calls outside the tool come to: `save_config` returns, `--no-daemon` was given, the
-- daemon applies the pushed configuration.
pub record Outcome : Type 0 where
  pub saves : Bool
  pub no_daemon : Bool
  pub applies : Bool

module _ {P : Type 0} where
  -- Some profile has the name.
  unfoldable pub has_name : Text → List (DeviceProfile P) → Bool
  unfolding text_eq
  has_name n [] = false
  has_name n (p ∷ ps) = text_eq p.name n || has_name n ps

  -- The first profile of the name.
  unfoldable pub find_name : Text → List (DeviceProfile P) → Option (DeviceProfile P)
  unfolding text_eq
  find_name n [] = none
  find_name n (p ∷ ps) = let rest = find_name n ps in if text_eq p.name n then some p else rest

  -- `remove_if` and `erase`.
  unfoldable pub remove_named : Text → List (DeviceProfile P) → List (DeviceProfile P)
  unfolding text_eq
  remove_named n [] = []
  remove_named n (p ∷ ps) =
      let rest = remove_named n ps in if text_eq p.name n then rest else p ∷ rest

  -- The loop of `cmd_rename`, which stops at the first profile of the old name.
  unfoldable pub rename_first : Text → Text → List (DeviceProfile P) → List (DeviceProfile P)
  unfolding text_eq
  rename_first old new [] = []
  rename_first old new (p ∷ ps) =
      let rest = rename_first old new ps in
      if text_eq p.name old then record p { name = new } ∷ ps else p ∷ rest

  unfoldable pub with_profiles : List (DeviceProfile P) → AppConfig P → AppConfig P
  with_profiles ps c = record c { profiles = ps }

  unfoldable pub with_active : Text → AppConfig P → AppConfig P
  with_active n c = record c { active_profile = n }

  -- The name that `cmd_delete` leaves active.
  unfoldable pub active_after : Text → Text → List (DeviceProfile P) → Text
  unfolding text_eq
  active_after name active [] = []
  active_after name active (p ∷ ps) = if text_eq active name then p.name else active

  -- The tests of a new name: not empty, not too long, not taken.
  unfoldable pub is_new : Text → List (DeviceProfile P) → Bool
  unfolding has_name
  is_new name ps =
      if is_empty name
      then false
      else if ltb max_name_len (length name)
      then false
      else not (has_name name ps)

  -- The profile that `cmd_create` adds.
  unfoldable pub new_profile : P → Text → DeviceProfile P
  new_profile fresh n = record {
    name = n;
    device_id = [];
    match_app = [];
    dev_cfg = record { dpi = pos 800; polling_rate = pos 1000; disable = false };
    prof = fresh;
  }

  -- The copy that `cmd_duplicate` makes.
  unfoldable pub copy_of : Text → DeviceProfile P → DeviceProfile P
  copy_of n p = record p { name = n; device_id = [] }

module _ (N : Numbers) (L : Limits N) where
  -- The configuration in memory and the one in the file.
  pub record Session : Type 0 where
    pub cfg : AppConfig (Profile N)
    pub disk : AppConfig (Profile N)

  -- `safe_save` and `daemon_apply_if_enabled`, by which the commands end.
  unfoldable pub save_and_apply : Outcome → Session → Session × ℕ
  unfolding save_config
  save_and_apply o s = if not o.saves then (s, 1) else (
    record s { disk = save_config N L s.cfg },
    (if o.no_daemon then 0 else if o.applies then 0 else 1),
  )

  -- `cmd_set`.
  unfoldable pub cmd_set : Text → Outcome → Session → Session × ℕ
  unfolding has_name save_and_apply with_active
  cmd_set name o s =
      if has_name name s.cfg.profiles
      then save_and_apply o (record s { cfg = with_active name s.cfg })
      else (s, 1)

  -- `cmd_delete`.
  unfoldable pub cmd_delete : Text → Outcome → Session → Session × ℕ
  unfolding has_name remove_named active_after save_and_apply with_active with_profiles
  cmd_delete name o s =
      if not (has_name name s.cfg.profiles)
      then (s, 1)
      else (let left = remove_named name s.cfg.profiles in
          let active = active_after name s.cfg.active_profile left in
          save_and_apply o (record s { cfg = with_active active (with_profiles left s.cfg) }))

  -- `push_back` of a profile, below the bound on their number.
  unfoldable pub add_profile : DeviceProfile (Profile N) → Outcome → Session → Session × ℕ
  unfolding save_and_apply with_profiles
  add_profile p o s =
      if leb max_profiles (length s.cfg.profiles)
      then (s, 1)
      else save_and_apply o (record s { cfg = with_profiles (s.cfg.profiles ++ p ∷ []) s.cfg })

  -- `cmd_create`.
  unfoldable pub cmd_create : Profile N → Text → Outcome → Session → Session × ℕ
  unfolding is_new new_profile add_profile
  cmd_create fresh name o s =
      if is_new name s.cfg.profiles then add_profile (new_profile fresh name) o s else (s, 1)

  -- `cmd_duplicate`.
  unfoldable pub cmd_duplicate : Text → Text → Outcome → Session → Session × ℕ
  unfolding is_new find_name copy_of add_profile
  cmd_duplicate src dst o s =
      if is_new dst s.cfg.profiles
      then (elim (find_name src s.cfg.profiles) [
        | none ↦ (s, 1)
        | some p ↦ add_profile (copy_of dst p) o s
      ])
      else (s, 1)

  -- `cmd_rename`: the active name moves with its profile.
  unfoldable pub cmd_rename : Text → Text → Outcome → Session → Session × ℕ
  unfolding is_new has_name rename_first save_and_apply with_active with_profiles
  cmd_rename old new o s =
      if not (is_new new s.cfg.profiles)
      then (s, 1)
      else if not (has_name old s.cfg.profiles)
      then (s, 1)
      else (let active = if text_eq s.cfg.active_profile old then new else s.cfg.active_profile in
          let renamed = rename_first old new s.cfg.profiles in
          save_and_apply o (record s { cfg = with_active active (with_profiles renamed s.cfg) }))

-- One command line.
pub data Command : Type 0 where
  set_active : Text → Command
  create : Text → Command
  delete : Text → Command
  duplicate : Text → Text → Command
  rename : Text → Text → Command

module _ (N : Numbers) (L : Limits N) (fresh : Profile N) where
  unfoldable pub run_command : Command → Outcome → Session N L → Session N L × ℕ
  unfolding cmd_set cmd_create cmd_delete cmd_duplicate cmd_rename
  run_command (set_active n) = cmd_set N L n
  run_command (create n) = cmd_create N L fresh n
  run_command (delete n) = cmd_delete N L n
  run_command (duplicate src dst) = cmd_duplicate N L src dst
  run_command (rename old new) = cmd_rename N L old new
