-- ===== src/Tests/Settings.antt =====
-- The theorems on migration and clamping, with numbers that are multiples of 1/10000.
use abrek_mouse.Config.Numbers.{Numbers, Order}
use abrek_mouse.Config.Model.{AppConfig}
use abrek_mouse.Config.Accel.{AccelArgs, Profile, Limits, classic, lookup, in_cap}
use mathlib.Core.List.{Perm}
use abrek_mouse.Config.Sanitize.{sanitize_accel_args, sort_from, sort_lut_data}
use abrek_mouse.Config.Sanitize.Points.{flatten}
use abrek_mouse.Config.Sanitize.Insertion.{Point}
use abrek_mouse.Config.Sanitize.Sorted.{Ascends, sort_lut_data-Ascends}
use abrek_mouse.Config.Sanitize.Table.{FloatOk}
use abrek_mouse.Config.Sanitize.Range.{LimitsOk, InRange, sanitize_accel_args-InRange}
use abrek_mouse.Config.Migrate.{migrate_config, rescale_points, stamped_version}
use abrek_mouse.Config.Migrate.Stamp.{migrate_config-stamped_version}
use abrek_mouse.Config.Migrate.Outcome.{by_version, migrate_config_lem}
use abrek_mouse.Prelude.{
  ℕ, ◌+◌, ◌*◌, ◌/◌, ◌%◌, ◌^◌, ◌≡◌, refl, true, false, List, [], ◌∷◌, ◌++◌, arith, ltb, leb, ◌==◌,
  codes, pos,
}

abbrev pub fixed : Numbers
fixed = record {
  Double = ℕ;
  Float = ℕ;
  literal = λ m k. m * 10000 / 10 ^ k;
  less = ltb;
  less_or_equal = leb;
  is_zero = λ x. x == 0;
  is_finite = λ x. true;
  add = λ x y. x + y;
  multiply = λ x y. x * y / 10000;
  fmod = λ x y. x % y;
  float_zero = 0;
  float_max = 1000000000;
  float_lowest = 0;
  less_float = ltb;
  is_finite_float = λ x. true;
  widen = λ x. x;
  narrow = λ x. x;
}

ltb_irrefl : (x : ℕ) → ltb x x ≡ false
ltb_irrefl x = ground arith

ltb_cotrans : (x y z : ℕ) → true ≡ true → ltb x y ≡ true → ltb z y ≡ false → ltb x z ≡ true
ltb_cotrans x y z f h k = ground arith

fixed-Order : Order fixed
fixed-Order = record {
  less_irrefl = ltb_irrefl;
  less_cotrans = ltb_cotrans;
  literal_finite = λ m k. refl;
}

fixed-FloatOk : FloatOk fixed
fixed-FloatOk = record {
  zero_entry = (refl, refl, refl);
  max_entry = (refl, refl, refl);
  lowest_entry = (refl, refl, refl);
}

abbrev pub limits : Limits fixed
limits = record {
  scale_max = 1000000;
  exp_power_max = 1000000;
  cap_x_max = 1000000;
  cap_y_max = 1000000;
  output_offset_max = 1000000;
  limit_max = 1000000;
  accel_max = 1000000;
  decay_rate_max = 1000000;
  motivity_max = 1000000;
  gamma_max = 1000000;
  sync_speed_max = 1000000;
  smooth_max = 1000000;
  speed_max = 1000000;
  natural_decay_rate_min = 10;
}

limits-LimitsOk : LimitsOk fixed limits
limits-LimitsOk = record {
  scale = (refl, refl);
  exp_power = (refl, refl);
  cap_x = (refl, refl);
  cap_y = (refl, refl);
  output_offset = (refl, refl);
  limit = (refl, refl);
  accel = (refl, refl);
  decay_rate = (refl, refl);
  motivity = (refl, refl);
  gamma = (refl, refl);
  sync_speed = (refl, refl);
  smooth = (refl, refl);
  natural = (refl, refl);
  natural_floor = refl;
  exponents = refl;
}

-- A scale that is too small, a breakpoint below the offset, and two points out of order.
abbrev args : AccelArgs fixed
args = record {
  mode = classic;
  gain = true;
  input_offset = 50000;
  output_offset = 0;
  acceleration = 50;
  decay_rate = 1000;
  gamma = 10000;
  motivity = 15000;
  exponent_classic = 20000;
  scale = 1;
  exponent_power = 500;
  limit = 15000;
  sync_speed = 50000;
  smooth = 5000;
  cap_x = 20000;
  cap_y = 15000;
  cap_mode_val = in_cap;
  lut_length = pos 4;
  lut = 90000 ∷ 2 ∷ 10000 ∷ 1 ∷ [];
}

sorted_points : sort_from fixed 2 1 (9 ∷ 1 ∷ 5 ∷ 2 ∷ 7 ∷ 3 ∷ []) ≡ 5 ∷ 2 ∷ 7 ∷ 3 ∷ 9 ∷ 1 ∷ []
unfolding sort_from
sorted_points = refl

raised_breakpoint : (sanitize_accel_args fixed limits args).cap_x ≡ 50000
unfolding sanitize_accel_args
raised_breakpoint = refl

sanitize_accel_args-InRange_example : InRange fixed limits (sanitize_accel_args fixed limits args)
sanitize_accel_args-InRange_example =
    sanitize_accel_args-InRange fixed fixed-Order fixed-FloatOk limits limits-LimitsOk args

abbrev pub profile : Profile fixed
profile = record {
  name = codes "desk";
  raw_passthrough = false;
  domain_weight_x = 10000;
  domain_weight_y = 10000;
  range_weight_x = 10000;
  range_weight_y = 10000;
  accel_x = record args { mode = lookup };
  accel_y = args;
  speed_processor_args = record {
    whole = true;
    lp_norm = 20000;
    input_speed_smooth_halflife = 0;
    scale_smooth_halflife = 0;
    output_speed_smooth_halflife = 0;
  };
  output_dpi = 10000000;
  yx_output_dpi_ratio = 10000;
  lr_output_dpi_ratio = 10000;
  ud_output_dpi_ratio = 10000;
  degrees_rotation = 0;
  degrees_snap = 0;
  speed_min = 0;
  speed_max = 0;
}

abbrev stored : AppConfig (Profile fixed)
stored = record {
  version = codes "0.3.2";
  active_profile = codes "desk";
  use_raw_input = true;
  profiles =
      record {
        name = codes "desk";
        device_id = [];
        match_app = [];
        dev_cfg = record { dpi = pos 800; polling_rate = pos 1000; disable = false };
        prof = profile;
      }
      ∷ [];
}

rescaled_point : rescale_points fixed 1 (20000 ∷ 30000 ∷ []) ≡ 20000 ∷ 60000 ∷ []
unfolding rescale_points
rescaled_point = refl

migrate_config_lem_example :
    (migrate_config fixed limits stored ≡ by_version fixed limits stored)
    × (migrate_config fixed limits (migrate_config fixed limits stored).0
        ≡ ((migrate_config fixed limits stored).0, false))
migrate_config_lem_example = migrate_config_lem fixed limits stored

migrate_config-stamped_version_example :
    migrate_config fixed limits (record stored { version = stamped_version stored.version })
    ≡ (record stored { version = stamped_version stored.version }, false)
migrate_config-stamped_version_example = migrate_config-stamped_version fixed limits stored

ltb_asym : (x y : ℕ) → ltb x y ≡ true → ltb y x ≡ false
ltb_asym x y h = ground arith

abbrev two_points : List (Point fixed)
two_points = (90000, 2) ∷ (10000, 1) ∷ []

args_table : args.lut ≡ flatten two_points
unfolding flatten
args_table = refl

sort_lut_data-Ascends_example :
    (sorted : List (Point fixed)) × (sort_lut_data fixed args
      ≡ record args { lut = flatten (sorted ++ []) })
    × Ascends fixed sorted
    × Perm sorted two_points
sort_lut_data-Ascends_example =
    sort_lut_data-Ascends fixed ltb_asym args two_points args_table (omega arith)
