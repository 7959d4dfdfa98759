-- ===== src/Config/Migrate.antt =====
-- The migrations of a stored configuration (src/config.cpp): `migrate_lookup_gain` and
-- `migrate_config`, and what `save_config` writes.
pub mod Outcome
pub mod Stamp
use abrek_mouse.Config.Numbers.{Numbers}
use abrek_mouse.Config.Model.{DeviceProfile, AppConfig, rawaccel_version}
use abrek_mouse.Config.Accel.{AccelArgs, Profile, Limits, is_lookup}
use abrek_mouse.Config.Sanitize.{sanitize_device_config, sanitize_profile, half, zero_double}
use abrek_mouse.Config.Version.{version_lt}
use abrek_mouse.Prelude.{
  ℕ, zero, suc, ◌+◌, ◌-◌, ◌*◌, ◌/◌, ◌%◌, ◌^◌, ◌≤◌, ◌<◌, min, max, ◌≡◌, refl, sym, ap, ◌∙◌, ◌≢◌, ◌↔◌,
  ◌⊎◌, inl, inr, Bool, true, false, not, ◌&&◌, ◌||◌, Option, none, some, List, [], ◌∷◌, ◌++◌, map,
  append-nil, append_assoc, arith, ltb, leb, ◌==◌, if◌then◌else◌, ltb→lt, lt→ltb, leb→le, ==_iff,
  tests, Bool-cases, Option-cases, length, get_or, take, drop, replicate, length-append,
  length-take, length-drop, length-replicate, take-append-drop, take-length, All, any_of, find_if,
  dec_lt, Text, codes, text_eq, text_eq_sound, text_eq_refl, is_empty, is_digit, to_lower, ℤ, pos,
  negsuc, ltz, Mem, All-mono, All-zip, All-append, append-All, Mem-append,
}

module _ (N : Numbers) where
  -- One stored y, which was a gain and becomes a speed, if the product stays finite as a float.
  unfoldable pub rescale : N.Float → N.Float → N.Float
  rescale x y =
      let product = N.multiply (N.widen y) (N.widen x) in
      if not (N.less (zero_double N) (N.widen x))
      then y
      else if N.is_finite product && N.is_finite_float (N.narrow product)
      then N.narrow product
      else y

  -- The loop over `n` points.
  unfoldable pub rescale_points : ℕ → List N.Float → List N.Float
  unfolding rescale
  rescale_points zero d = d
  rescale_points (suc n) [] = []
  rescale_points (suc n) (x ∷ []) = x ∷ []
  rescale_points (suc n) (x ∷ y ∷ d) = x ∷ rescale x y ∷ rescale_points n d

  -- The λ `fix`.
  unfoldable pub fix : AccelArgs N → AccelArgs N
  unfolding rescale_points
  fix a =
      if not (is_lookup a.mode) || not a.gain
      then a
      else record a { lut = rescale_points (half a.lut_length) a.lut }

  unfoldable pub fix_profile : DeviceProfile (Profile N) → DeviceProfile (Profile N)
  unfolding fix
  fix_profile dp = record dp {
    prof = record dp.prof { accel_x = fix dp.prof.accel_x; accel_y = fix dp.prof.accel_y };
  }

  -- `migrate_lookup_gain`.
  unfoldable pub migrate_lookup_gain : AppConfig (Profile N) → AppConfig (Profile N)
  unfolding fix_profile
  migrate_lookup_gain c = record c { profiles = map fix_profile c.profiles }

  module _ (L : Limits N) where
    unfoldable pub sanitize_device_profile : DeviceProfile (Profile N) → DeviceProfile (Profile N)
    unfolding sanitize_device_config sanitize_profile
    sanitize_device_profile dp = record dp {
      dev_cfg = sanitize_device_config dp.dev_cfg;
      prof = sanitize_profile N L dp.prof;
    }

    unfoldable pub sanitize_all : AppConfig (Profile N) → AppConfig (Profile N)
    unfolding sanitize_device_profile
    sanitize_all c = record c { profiles = map sanitize_device_profile c.profiles }

    -- `migrate_config`: the configuration behind it and whether it was migrated.
    unfoldable pub migrate_config : AppConfig (Profile N) → AppConfig (Profile N) × Bool
    migrate_config c =
        if text_eq c.version rawaccel_version
        then (c, false)
        else (let m1 = is_empty c.version in
            let m2 = if version_lt c.version (codes "0.3.0") then true else m1 in
            let old = is_empty c.version || version_lt c.version (codes "0.4.0") in
            let c' = if old then migrate_lookup_gain c else c in
            let m3 = if old then true else m2 in
            if m3
            then (record (sanitize_all c') { version = rawaccel_version }, true)
            else (c', false))

-- The version that `app_config_to_json_obj` writes: the current one over an older one or none.
unfoldable pub stamped_version : Text → Text
stamped_version v = if is_empty v || version_lt v rawaccel_version then rawaccel_version else v

-- What `save_config` writes to the file: a copy with every profile clamped, under the version that is
-- stamped on it.
module _ (N : Numbers) (L : Limits N) where
  unfoldable pub save_config : AppConfig (Profile N) → AppConfig (Profile N)
  unfolding sanitize_all stamped_version
  save_config c = record (sanitize_all N L c) { version = stamped_version c.version }
