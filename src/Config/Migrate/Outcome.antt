-- ===== src/Config/Migrate/Outcome.antt =====
-- What `migrate_config` (src/config.cpp) does, by the stored version alone.
use abrek_mouse.Config.Numbers.{Numbers}
use abrek_mouse.Config.Model.{AppConfig, rawaccel_version}
use abrek_mouse.Config.Accel.{Profile, Limits}
use abrek_mouse.Config.Migrate.{migrate_lookup_gain, sanitize_all, migrate_config}
use abrek_mouse.Config.Version.{component, version_lt}
use abrek_mouse.Config.Version.Order.{version_lt_trans}
use abrek_mouse.Prelude.{
  ◌≡◌, refl, ◌∙◌, inl, inr, Bool, true, false, ◌||◌, [], ◌∷◌, if◌then◌else◌, Bool-cases, Text,
  codes, text_eq, text_eq_refl, is_empty,
}

or_true : (b : Bool) → (b || true) ≡ true
or_true true = refl
or_true false = refl

third_before_fourth : version_lt (codes "0.3.0") (codes "0.4.0") ≡ true
unfolding version_lt component
third_before_fourth = refl

empty_is_old : version_lt [] (codes "0.4.0") ≡ true
unfolding version_lt component
empty_is_old = refl

is_empty-old : (v : Text) → is_empty v ≡ true → version_lt v (codes "0.4.0") ≡ true
is_empty-old [] h = empty_is_old
is_empty-old (c ∷ v) h = cc

-- A version that is not older than 0.4.0 is not older than 0.3.0 and not empty.
not_old :
    (v : Text)
    → version_lt v (codes "0.4.0") ≡ false
    → (is_empty v ≡ false) × (version_lt v (codes "0.3.0") ≡ false)
not_old v h = (
  elim (Bool-cases (is_empty v)) [ inl e ↦ absurd (cc (is_empty-old v e)) | inr e ↦ e ],
  elim (Bool-cases (version_lt v (codes "0.3.0"))) [
    | inl e ↦ absurd (cc (version_lt_trans v (codes "0.3.0") (codes "0.4.0") e third_before_fourth))
    | inr e ↦ e
  ],
)

module _ (N : Numbers) (L : Limits N) where
  -- The migration as one decision.
  abbrev pub migrated : AppConfig (Profile N) → AppConfig (Profile N)
  migrated c = record (sanitize_all N L (migrate_lookup_gain N c)) { version = rawaccel_version }

  abbrev pub by_version : AppConfig (Profile N) → AppConfig (Profile N) × Bool
  by_version c =
      if text_eq c.version rawaccel_version
      then (c, false)
      else if version_lt c.version (codes "0.4.0")
      then (migrated c, true)
      else (c, false)

  migrate_config-by_version : (c : AppConfig (Profile N)) → migrate_config N L c ≡ by_version c
  unfolding migrate_config
  migrate_config-by_version c = elim (Bool-cases (text_eq c.version rawaccel_version)) [
    | inl e ↦ simp e
    | inr e ↦ elim (Bool-cases (version_lt c.version (codes "0.4.0"))) [
      | inl old ↦ simp (e, old, or_true)
      | inr new ↦ let (filled, third) = not_old c.version new in simp (e, new, filled, third)
    ]
  ]

  by_version_settles :
      (c : AppConfig (Profile N)) → by_version (by_version c).0 ≡ ((by_version c).0, false)
  by_version_settles c = elim (Bool-cases (text_eq c.version rawaccel_version)) [
    | inl e ↦ simp e
    | inr e ↦ elim (Bool-cases (version_lt c.version (codes "0.4.0"))) [
      | inl old ↦ simp (e, old, text_eq_refl)
      | inr new ↦ simp (e, new)
    ]
  ]

  -- What the migration does is decided by the stored version alone: the current version is left
  -- alone; a version older than 0.4.0, an empty or unreadable one included, has its tables rescaled,
  -- every value clamped and the current version stored; any other stays as it is, its version too.
  -- A second migration changes nothing and reports so.
  pub migrate_config_lem :
      (c : AppConfig (Profile N))
      → (migrate_config N L c ≡ by_version c)
        × (migrate_config N L (migrate_config N L c).0 ≡ ((migrate_config N L c).0, false))
  migrate_config_lem c = (
    migrate_config-by_version c,
    rw (migrate_config-by_version c)
        (migrate_config-by_version (by_version c).0 ∙ by_version_settles c),
  )
