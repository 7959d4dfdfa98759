-- ===== src/Config/Migrate/Stamp.antt =====
-- A configuration that was written is not migrated when it is read (src/config.cpp).
use abrek_mouse.Config.Numbers.{Numbers}
use abrek_mouse.Config.Model.{AppConfig, rawaccel_version}
use abrek_mouse.Config.Accel.{Profile, Limits}
use abrek_mouse.Config.Migrate.{migrate_config, stamped_version}
use abrek_mouse.Config.Migrate.Outcome.{by_version, migrate_config_lem}
use abrek_mouse.Config.Version.{component, version_lt}
use abrek_mouse.Config.Version.Order.{version_lt_trans}
use abrek_mouse.Prelude.{
  ◌≡◌, refl, ◌∙◌, inl, inr, true, false, ◌||◌, arith, Bool-cases, Text, codes, text_eq, is_empty,
}

fourth_before_current : version_lt (codes "0.4.0") rawaccel_version ≡ true
unfolding version_lt component
fourth_before_current = refl

current_not_old : version_lt rawaccel_version (codes "0.4.0") ≡ false
unfolding version_lt component
current_not_old = refl

-- What is written is never older than 0.4.0, where the meaning of the tables changed.
stamped_not_old : (v : Text) → version_lt (stamped_version v) (codes "0.4.0") ≡ false
unfolding stamped_version
stamped_not_old v = elim (Bool-cases (is_empty v || version_lt v rawaccel_version)) [
  | inl e ↦ rw e current_not_old
  | inr e ↦ rw e (elim (Bool-cases (version_lt v (codes "0.4.0"))) [
    | inl old ↦ absurd (
        let older = version_lt_trans v (codes "0.4.0") rawaccel_version old fourth_before_current in
        ground (arith, older))
    | inr new ↦ new
  ])
]

module _ (N : Numbers) (L : Limits N) where
  settled :
      (c : AppConfig (Profile N))
      → version_lt c.version (codes "0.4.0") ≡ false
      → by_version N L c ≡ (c, false)
  settled c h = elim (Bool-cases (text_eq c.version rawaccel_version)) [
    | inl e ↦ simp e
    | inr e ↦ simp (e, h)
  ]

  -- A configuration that is written and read again is not migrated: whatever version it was stored
  -- with, under the version that is written, its tables are not rescaled and nothing else changes.
  pub migrate_config-stamped_version :
      (c : AppConfig (Profile N))
      → migrate_config N L (record c { version = stamped_version c.version })
        ≡ (record c { version = stamped_version c.version }, false)
  migrate_config-stamped_version c =
      (migrate_config_lem N L (record c { version = stamped_version c.version })).0
      ∙ settled (record c { version = stamped_version c.version }) (stamped_not_old c.version)
