-- ===== src/Tests/Cli.antt =====
-- The theorem on the profile commands, run on two profiles.
use abrek_mouse.Config.Accel.{Profile}
use abrek_mouse.Tests.Settings.{fixed, limits, profile}
use abrek_mouse.Config.Model.{DeviceProfile, AppConfig}
use abrek_mouse.Cli.Profiles.{Outcome, Session, delete, run_command, has_name}
use abrek_mouse.Cli.Profiles.Invariant.{IsValid, IsValidSession, Saved, run_command-IsValid}
use abrek_mouse.Prelude.{◌≡◌, refl, inr, true, false, [], ◌∷◌, arith, Text, codes, pos}

abbrev named : Text → DeviceProfile (Profile fixed)
named n = record {
  name = n;
  device_id = [];
  match_app = [];
  dev_cfg = record { dpi = pos 800; polling_rate = pos 1000; disable = false };
  prof = profile;
}

abbrev two_profiles : AppConfig (Profile fixed)
two_profiles = record {
  version = codes "1.2.8";
  active_profile = codes "game";
  use_raw_input = true;
  profiles = named (codes "desk") ∷ named (codes "game") ∷ [];
}

abbrev session : Session fixed limits
session = record { cfg = two_profiles; disk = two_profiles }

abbrev all_well : Outcome
all_well = record { saves = true; no_daemon = false; applies = true }

two_profiles-IsValid : IsValid fixed limits two_profiles
unfolding has_name
two_profiles-IsValid = record {
  distinct = (refl, (refl, tt));
  named = ((omega arith, omega arith), ((omega arith, omega arith), tt));
  bounded = omega arith;
  active = inr refl;
}

deleted_active :
    (run_command fixed limits profile
      (delete (codes "game"))
      all_well
      session).0.disk.active_profile
    ≡ codes "desk"
unfolding run_command
deleted_active = refl

run_command-IsValid_example :
    IsValidSession fixed limits
      (run_command fixed limits profile (delete (codes "game")) all_well session).0
    × Saved fixed limits session
        (run_command fixed limits profile (delete (codes "game")) all_well session)
run_command-IsValid_example =
    run_command-IsValid fixed limits profile (delete (codes "game")) all_well session
      (two_profiles-IsValid, two_profiles-IsValid)
