-- ===== src/Config/Sanitize.antt =====
-- The clamping of values (src/config.cpp): `sanitize_device_config`, `sort_lut_data`,
-- `sanitize_accel_args` and `sanitize_profile`.
pub mod Clamp
pub mod Table
pub mod Range
pub mod Points
pub mod Insertion
pub mod Sorted
use abrek_mouse.Config.Numbers.{Numbers}
use abrek_mouse.Config.Model.{DeviceConfig, poll_rate_min, poll_rate_max}
use abrek_mouse.Config.Accel.{
  AccelArgs, Limits, is_natural, is_classic, is_out, lut_raw_data_capacity, Profile, SpeedArgs,
}
use abrek_mouse.Prelude.{
  ℕ, zero, suc, ◌+◌, ◌-◌, ◌*◌, ◌/◌, ◌%◌, ◌^◌, ◌≤◌, ◌<◌, min, max, ◌≡◌, refl, sym, ap, ◌∙◌, ◌≢◌, ◌↔◌,
  ◌⊎◌, inl, inr, Bool, true, false, not, ◌&&◌, ◌||◌, Option, none, some, List, [], ◌∷◌, ◌++◌, map,
  append-nil, append_assoc, arith, ltb, leb, ◌==◌, if◌then◌else◌, ltb→lt, lt→ltb, leb→le, ==_iff,
  tests, Bool-cases, Option-cases, length, get_or, take, drop, replicate, length-append,
  length-take, length-drop, length-replicate, take-append-drop, take-length, All, any_of, find_if,
  dec_lt, Text, codes, text_eq, text_eq_sound, text_eq_refl, is_empty, is_digit, to_lower, ℤ, pos,
  negsuc, ltz, Mem, All-mono, All-zip, All-append, append-All, Mem-append,
}

-- `if (x < lo) x = lo` and `if (x > hi) x = hi` on integers.
abbrev pub int_at_least : ℤ → ℤ → ℤ
int_at_least lo x = if ltz x lo then lo else x

abbrev pub int_at_most : ℤ → ℤ → ℤ
int_at_most hi x = if ltz hi x then hi else x

unfoldable pub sanitize_device_config : DeviceConfig → DeviceConfig
sanitize_device_config dc = record dc {
  dpi = int_at_most (pos 32000) (int_at_least (pos 1) dc.dpi);
  polling_rate = int_at_most (pos poll_rate_max) (int_at_least (pos poll_rate_min) dc.polling_rate);
}

-- An array write; one out of bounds changes nothing here, and none is out of bounds in the source.
unfoldable pub set {ℓ} : {A : Type ℓ} → List A → ℕ → A → List A
set [] i v = []
set (x ∷ xs) zero v = v ∷ xs
set (x ∷ xs) (suc i) v = x ∷ set xs i v

-- `length / 2` as a number of rounds.
abbrev pub half : ℤ → ℕ
half (pos n) = n / 2
half (negsuc n) = 0

abbrev pub rounds : ℤ → ℕ
rounds (pos n) = n
rounds (negsuc n) = 0

module _ (N : Numbers) where
  abbrev pub zero_double : N.Double
  zero_double = N.literal 0 0

  abbrev pub one_double : N.Double
  one_double = N.literal 1 0

  -- `if (x < lo) x = lo` and `if (x > hi) x = hi`.
  unfoldable pub at_least : N.Double → N.Double → N.Double
  at_least lo x = if N.less x lo then lo else x

  unfoldable pub at_most : N.Double → N.Double → N.Double
  at_most hi x = if N.less hi x then hi else x

  unfoldable pub finite_or : N.Double → N.Double → N.Double
  finite_or v d = if N.is_finite v then v else d

  -- The `while` loop of the insertion sort: the number of places left of the key that are still to
  -- compare, the array, and at last the place of the key.
  unfoldable pub shift : ℕ → N.Float → List N.Float → List N.Float × ℕ
  unfolding set
  shift zero kx d = (d, 0)
  shift (suc j) kx d =
      let moved =
        set (set d ((j + 1) * 2) (get_or d (j * 2) N.float_zero)) ((j + 1) * 2 + 1)
          (get_or d (j * 2 + 1) N.float_zero) in
      let rest = shift j kx moved in
      if N.less_float kx (get_or d (j * 2) N.float_zero) then rest else (d, suc j)

  -- One round of the outer loop, at the point `i`.
  unfoldable pub insert_point : ℕ → List N.Float → List N.Float
  unfolding shift
  insert_point i d =
      let kx = get_or d (i * 2) N.float_zero in
      let ky = get_or d (i * 2 + 1) N.float_zero in
      let (d', place) = shift i kx d in set (set d' (place * 2) kx) (place * 2 + 1) ky

  -- The outer loop, with `k` rounds left from the point `i`.
  unfoldable pub sort_from : ℕ → ℕ → List N.Float → List N.Float
  unfolding insert_point
  sort_from zero i d = d
  sort_from (suc k) i d = sort_from k (i + 1) (insert_point i d)

  -- `sort_lut_data`.
  unfoldable pub sort_lut_data : AccelArgs N → AccelArgs N
  unfolding sort_from
  sort_lut_data a = record a { lut = sort_from (half a.lut_length - 1) 1 a.lut }

  -- A value that goes into the table.
  unfoldable pub clean_float : N.Float → N.Float
  clean_float v =
      let v1 = if N.is_finite_float v then v else N.float_zero in
      let v2 = if N.less_float N.float_max v1 then N.float_max else v1 in
      if N.less_float v2 N.float_lowest then N.float_lowest else v2

  -- The loop that cleans the first `n` entries.
  unfoldable pub clean_first : ℕ → List N.Float → List N.Float
  unfolding clean_float
  clean_first zero d = d
  clean_first (suc n) [] = []
  clean_first (suc n) (v ∷ d) = clean_float v ∷ clean_first n d

  -- `sanitize_accel_args`, up to the table: its length, its entries, their order.
  unfoldable pub sanitize_lut : AccelArgs N → AccelArgs N
  unfolding clean_first sort_lut_data
  sanitize_lut a =
      let length = int_at_most (pos lut_raw_data_capacity) (int_at_least (pos 0) a.lut_length) in
      sort_lut_data (record a { lut_length = length; lut = clean_first (rounds length) a.lut })

  -- The replacement of values that are not finite.
  unfoldable pub sanitize_finite : AccelArgs N → AccelArgs N
  unfolding finite_or at_least at_most
  sanitize_finite a = record a {
    acceleration = finite_or a.acceleration zero_double;
    scale = finite_or a.scale zero_double;
    decay_rate = finite_or a.decay_rate zero_double;
    exponent_classic =
        at_most (N.literal 10 0)
          (at_least one_double (finite_or a.exponent_classic (N.literal 2 0)));
    exponent_power = finite_or a.exponent_power one_double;
    input_offset = finite_or a.input_offset zero_double;
    output_offset = finite_or a.output_offset zero_double;
    limit = finite_or a.limit zero_double;
    sync_speed = finite_or a.sync_speed one_double;
    smooth = finite_or a.smooth zero_double;
    motivity = finite_or a.motivity zero_double;
    gamma = finite_or a.gamma zero_double;
    cap_x = finite_or a.cap_x zero_double;
    cap_y = finite_or a.cap_y zero_double;
  }

  module _ (L : Limits N) where
    -- The test for a cap at a negative acceleration, and the floors.
    unfoldable pub sanitize_floors : AccelArgs N → AccelArgs N
    unfolding at_least
    sanitize_floors a = record a {
      scale = at_least (N.literal 1 2) a.scale;
      decay_rate =
          (let d = at_least zero_double a.decay_rate in
            if (is_natural a.mode && N.less zero_double d) && N.less d L.natural_decay_rate_min
            then L.natural_decay_rate_min
            else d);
      exponent_power = at_least (N.literal 1 4) a.exponent_power;
      input_offset = at_least zero_double a.input_offset;
      output_offset = at_least zero_double a.output_offset;
      limit = at_least zero_double a.limit;
      sync_speed = at_least (N.literal 1 4) a.sync_speed;
      smooth = at_least zero_double a.smooth;
      motivity = at_least zero_double a.motivity;
      gamma = at_least zero_double a.gamma;
      cap_x = at_least zero_double a.cap_x;
      cap_y = at_least zero_double (
          if N.less a.acceleration zero_double && N.less zero_double a.cap_y
          then zero_double
          else a.cap_y);
    }

    -- The breakpoint of the classic curve is not below the offset.
    unfoldable pub sanitize_breakpoint : AccelArgs N → AccelArgs N
    sanitize_breakpoint a = record a {
      cap_x =
          if (is_classic a.mode && not (is_out a.cap_mode_val)) && N.less a.cap_x a.input_offset
          then a.input_offset
          else a.cap_x;
    }

    -- The ceilings.
    unfoldable pub sanitize_ceilings : AccelArgs N → AccelArgs N
    unfolding at_most
    sanitize_ceilings a = record a {
      scale = at_most L.scale_max a.scale;
      exponent_power = at_most L.exp_power_max a.exponent_power;
      input_offset = at_most L.cap_x_max a.input_offset;
      cap_x = at_most L.cap_x_max a.cap_x;
      cap_y = at_most L.cap_y_max a.cap_y;
      output_offset = at_most L.output_offset_max a.output_offset;
      limit = at_most L.limit_max a.limit;
      acceleration = at_most L.accel_max a.acceleration;
      decay_rate = at_most L.decay_rate_max a.decay_rate;
      motivity = at_most L.motivity_max a.motivity;
      gamma = at_most L.gamma_max a.gamma;
      sync_speed = at_most L.sync_speed_max a.sync_speed;
      smooth = at_most L.smooth_max a.smooth;
    }

    unfoldable pub sanitize_accel_args : AccelArgs N → AccelArgs N
    unfolding sanitize_lut sanitize_finite sanitize_floors sanitize_breakpoint sanitize_ceilings
    sanitize_accel_args a =
        sanitize_ceilings (sanitize_breakpoint (sanitize_floors (sanitize_finite (sanitize_lut a))))

    -- A rotation in [0, 360).
    unfoldable pub normalize_rotation : N.Double → N.Double
    normalize_rotation r =
        let r1 = N.fmod r (N.literal 360 0) in
        let r2 = if N.less r1 zero_double then N.add r1 (N.literal 360 0) else r1 in
        let r3 = if N.is_zero r2 then zero_double else r2 in
        if N.less_or_equal (N.literal 360 0) r3 then zero_double else r3

    -- The output DPI: 0 stands for no normalization.
    unfoldable pub clamp_output_dpi : N.Double → N.Double
    unfolding at_least at_most
    clamp_output_dpi d =
        let d1 = at_least zero_double d in
        let d2 = if N.less zero_double d1 && N.less d1 one_double then one_double else d1 in
        at_most (N.literal 32000 0) d2

    -- A bound on the speed that is set is not below the lower bound.
    unfoldable pub raise_speed_max : N.Double → N.Double → N.Double
    raise_speed_max lo hi = if N.less zero_double hi && N.less hi lo then lo else hi

    unfoldable pub clamp_speed_max : N.Double → N.Double → N.Double
    unfolding at_least at_most raise_speed_max
    clamp_speed_max lo hi =
        let lo1 = at_least zero_double lo in
        let hi1 = raise_speed_max lo1 (at_least zero_double hi) in
        raise_speed_max (at_most L.speed_max lo1) (at_most L.speed_max hi1)

    unfoldable pub clamp_ratio : N.Double → N.Double
    unfolding at_least at_most finite_or
    clamp_ratio r = at_most (N.literal 100 0) (at_least (N.literal 1 2) (finite_or r one_double))

    unfoldable pub clamp_weight : N.Double → N.Double
    unfolding at_least at_most finite_or
    clamp_weight w = at_most (N.literal 1000000 0) (at_least zero_double (finite_or w one_double))

    -- `SMOOTH_HALFLIFE_MAX` is 10000.
    unfoldable pub clamp_halflife : N.Double → N.Double
    unfolding at_least at_most finite_or
    clamp_halflife h = at_most (N.literal 10000 0) (at_least zero_double (finite_or h zero_double))

    unfoldable pub sanitize_speed_args : SpeedArgs N → SpeedArgs N
    unfolding finite_or clamp_halflife
    sanitize_speed_args s = record s {
      lp_norm =
          (let norm = finite_or s.lp_norm (N.literal 2 0) in
            if N.less_or_equal norm zero_double then N.literal 2 0 else norm);
      input_speed_smooth_halflife = clamp_halflife s.input_speed_smooth_halflife;
      scale_smooth_halflife = clamp_halflife s.scale_smooth_halflife;
      output_speed_smooth_halflife = clamp_halflife s.output_speed_smooth_halflife;
    }

    -- `sanitize_profile`; `NORMALIZED_DPI` is 1000.
    unfoldable pub sanitize_profile : Profile N → Profile N
    unfolding finite_or at_least at_most normalize_rotation clamp_output_dpi clamp_speed_max
        clamp_ratio clamp_weight sanitize_speed_args sanitize_accel_args sort_lut_data
    sanitize_profile p = record p {
      degrees_rotation = normalize_rotation (finite_or p.degrees_rotation zero_double);
      degrees_snap =
          at_most (N.literal 45 0) (at_least zero_double (finite_or p.degrees_snap zero_double));
      output_dpi = clamp_output_dpi (finite_or p.output_dpi (N.literal 1000 0));
      lr_output_dpi_ratio = clamp_ratio p.lr_output_dpi_ratio;
      ud_output_dpi_ratio = clamp_ratio p.ud_output_dpi_ratio;
      yx_output_dpi_ratio = clamp_ratio p.yx_output_dpi_ratio;
      speed_min = at_most L.speed_max (at_least zero_double (finite_or p.speed_min zero_double));
      speed_max =
          clamp_speed_max (finite_or p.speed_min zero_double) (finite_or p.speed_max zero_double);
      speed_processor_args = sanitize_speed_args p.speed_processor_args;
      domain_weight_x = clamp_weight p.domain_weight_x;
      domain_weight_y = clamp_weight p.domain_weight_y;
      range_weight_x = clamp_weight p.range_weight_x;
      range_weight_y = clamp_weight p.range_weight_y;
      accel_x = sort_lut_data (sanitize_accel_args p.accel_x);
      accel_y = sort_lut_data (sanitize_accel_args p.accel_y);
    }
