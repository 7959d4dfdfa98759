-- ===== src/Config/Accel.antt =====
-- The acceleration settings (include/rawaccel-base.hpp): `accel_args`, `speed_args`, `profile`, and
-- the names of modes (src/config.cpp).
use abrek_mouse.Config.Numbers.{Numbers}
use abrek_mouse.Prelude.{ℕ, Bool, true, false, List, if◌then◌else◌, Text, codes, text_eq, ℤ}

-- `accel_mode`.
pub data Mode : Type 0 where
  classic jump natural synchronous power lookup noaccel : Mode

-- `cap_mode`.
pub data CapMode : Type 0 where
  io in_cap out_cap : CapMode

unfoldable pub mode_to_str : Mode → Text
mode_to_str classic = codes "classic"
mode_to_str power = codes "power"
mode_to_str natural = codes "natural"
mode_to_str jump = codes "jump"
mode_to_str synchronous = codes "synchronous"
mode_to_str lookup = codes "lookup"
mode_to_str noaccel = codes "noaccel"

unfoldable pub str_to_mode : Text → Mode
unfolding text_eq
str_to_mode s =
    if text_eq s (codes "classic")
    then classic
    else if text_eq s (codes "power")
    then power
    else if text_eq s (codes "natural")
    then natural
    else if text_eq s (codes "jump")
    then jump
    else if text_eq s (codes "synchronous")
    then synchronous
    else if text_eq s (codes "lookup")
    then lookup
    else noaccel

unfoldable pub cap_to_str : CapMode → Text
cap_to_str io = codes "io"
cap_to_str in_cap = codes "in"
cap_to_str out_cap = codes "out"

unfoldable pub str_to_cap : Text → CapMode
unfolding text_eq
str_to_cap s =
    if text_eq s (codes "io") then io else if text_eq s (codes "in") then in_cap else out_cap

abbrev pub is_natural : Mode → Bool
is_natural natural = true
is_natural m = false

abbrev pub is_classic : Mode → Bool
is_classic classic = true
is_classic m = false

abbrev pub is_lookup : Mode → Bool
is_lookup lookup = true
is_lookup m = false

abbrev pub is_out : CapMode → Bool
is_out out_cap = true
is_out m = false

-- `LUT_RAW_DATA_CAPACITY`.
abbrev pub lut_raw_data_capacity : ℕ
lut_raw_data_capacity = 514

-- `accel_args`; `lut` is the array `data`, of which the first `length` entries count.
pub record AccelArgs (N : Numbers) : Type 0 where
  pub mode : Mode
  pub gain : Bool
  pub input_offset : N.Double
  pub output_offset : N.Double
  pub acceleration : N.Double
  pub decay_rate : N.Double
  pub gamma : N.Double
  pub motivity : N.Double
  pub exponent_classic : N.Double
  pub scale : N.Double
  pub exponent_power : N.Double
  pub limit : N.Double
  pub sync_speed : N.Double
  pub smooth : N.Double
  pub cap_x : N.Double
  pub cap_y : N.Double
  pub cap_mode_val : CapMode
  pub lut_length : ℤ
  pub lut : List N.Float

-- `speed_args`.
pub record SpeedArgs (N : Numbers) : Type 0 where
  pub whole : Bool
  pub lp_norm : N.Double
  pub input_speed_smooth_halflife : N.Double
  pub scale_smooth_halflife : N.Double
  pub output_speed_smooth_halflife : N.Double

-- `profile`.
pub record Profile (N : Numbers) : Type 0 where
  pub name : Text
  pub raw_passthrough : Bool
  pub domain_weight_x : N.Double
  pub domain_weight_y : N.Double
  pub range_weight_x : N.Double
  pub range_weight_y : N.Double
  pub accel_x : AccelArgs N
  pub accel_y : AccelArgs N
  pub speed_processor_args : SpeedArgs N
  pub output_dpi : N.Double
  pub yx_output_dpi_ratio : N.Double
  pub lr_output_dpi_ratio : N.Double
  pub ud_output_dpi_ratio : N.Double
  pub degrees_rotation : N.Double
  pub degrees_snap : N.Double
  pub speed_min : N.Double
  pub speed_max : N.Double

-- The ceilings and the floor that the header config.hpp gives, which is not among the sources.
pub record Limits (N : Numbers) : Type 0 where
  pub scale_max : N.Double
  pub exp_power_max : N.Double
  pub cap_x_max : N.Double
  pub cap_y_max : N.Double
  pub output_offset_max : N.Double
  pub limit_max : N.Double
  pub accel_max : N.Double
  pub decay_rate_max : N.Double
  pub motivity_max : N.Double
  pub gamma_max : N.Double
  pub sync_speed_max : N.Double
  pub smooth_max : N.Double
  pub speed_max : N.Double
  pub natural_decay_rate_min : N.Double
