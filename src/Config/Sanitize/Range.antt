-- ===== src/Config/Sanitize/Range.antt =====
-- `sanitize_accel_args` (src/config.cpp) puts every number in its range.
use abrek_mouse.Config.Numbers.{Numbers, Order}
use abrek_mouse.Config.Accel.{
  AccelArgs, Limits, is_natural, is_classic, is_out, lut_raw_data_capacity,
}
use abrek_mouse.Config.Sanitize.{
  rounds, at_least, at_most, finite_or, zero_double, one_double, int_at_least, int_at_most,
  sanitize_accel_args,
}
use abrek_mouse.Config.Sanitize.Table.{IsEntry, FloatOk, table_entries}
use abrek_mouse.Config.Sanitize.Clamp.{
  Between, finite_or-is_finite, choice_is_finite, choice_ge, at_least-is_finite, at_least_ge,
  at_most-is_finite, at_most_le, at_most_ge, at_most-Between, clamp-Between, at_most_mono,
}
use abrek_mouse.Prelude.{
  ℕ, ◌≤◌, ◌≡◌, refl, ◌⊎◌, inl, inr, Bool, true, false, not, ◌&&◌, arith, ltb, if◌then◌else◌,
  Bool-cases, take, All, ℤ, pos, negsuc,
}

module _ (N : Numbers) (L : Limits N) where
  -- A finite ceiling that is not below the floor.
  abbrev pub IsCeiling : N.Double → N.Double → Type 0
  IsCeiling lo hi = (N.is_finite hi ≡ true) × (N.less hi lo ≡ false)

  -- What the header's constants satisfy.
  pub record LimitsOk : Type 0 where
    pub scale : IsCeiling (N.literal 1 2) L.scale_max
    pub exp_power : IsCeiling (N.literal 1 4) L.exp_power_max
    pub cap_x : IsCeiling (zero_double N) L.cap_x_max
    pub cap_y : IsCeiling (zero_double N) L.cap_y_max
    pub output_offset : IsCeiling (zero_double N) L.output_offset_max
    pub limit : IsCeiling (zero_double N) L.limit_max
    pub accel : IsCeiling (zero_double N) L.accel_max
    pub decay_rate : IsCeiling (zero_double N) L.decay_rate_max
    pub motivity : IsCeiling (zero_double N) L.motivity_max
    pub gamma : IsCeiling (zero_double N) L.gamma_max
    pub sync_speed : IsCeiling (N.literal 1 4) L.sync_speed_max
    pub smooth : IsCeiling (zero_double N) L.smooth_max
    pub natural : IsCeiling (zero_double N) L.natural_decay_rate_min
    pub natural_floor : N.less L.decay_rate_max L.natural_decay_rate_min ≡ false
    pub exponents : N.less (N.literal 10 0) (one_double N) ≡ false

  -- Every number is finite and in its range; the breakpoint of a classic curve with an input cap is
  -- not below the offset; no output cap is set at a negative acceleration; the decay rate of a natural
  -- curve is off or not below its own floor; the table has a length that fits the array, and the
  -- entries that it counts are finite floats.
  pub record InRange (a : AccelArgs N) : Type 0 where
    pub scale : Between N (N.literal 1 2) L.scale_max a.scale
    pub exponent_classic : Between N (one_double N) (N.literal 10 0) a.exponent_classic
    pub exponent_power : Between N (N.literal 1 4) L.exp_power_max a.exponent_power
    pub input_offset : Between N (zero_double N) L.cap_x_max a.input_offset
    pub output_offset : Between N (zero_double N) L.output_offset_max a.output_offset
    pub limit : Between N (zero_double N) L.limit_max a.limit
    pub acceleration :
        (N.is_finite a.acceleration ≡ true) × (N.less L.accel_max a.acceleration ≡ false)
    pub decay_rate : Between N (zero_double N) L.decay_rate_max a.decay_rate
    pub motivity : Between N (zero_double N) L.motivity_max a.motivity
    pub gamma : Between N (zero_double N) L.gamma_max a.gamma
    pub sync_speed : Between N (N.literal 1 4) L.sync_speed_max a.sync_speed
    pub smooth : Between N (zero_double N) L.smooth_max a.smooth
    pub cap_x : Between N (zero_double N) L.cap_x_max a.cap_x
    pub cap_y : Between N (zero_double N) L.cap_y_max a.cap_y
    pub breakpoint :
        ((is_classic a.mode && not (is_out a.cap_mode_val)) ≡ false)
        ⊎ (N.less a.cap_x a.input_offset ≡ false)
    pub no_cap :
        (N.less a.acceleration (zero_double N) ≡ false) ⊎ (N.less (zero_double N) a.cap_y ≡ false)
    pub natural_floor :
        (is_natural a.mode ≡ false)
        ⊎ (N.less (zero_double N) a.decay_rate ≡ false)
        ⊎ (N.less a.decay_rate L.natural_decay_rate_min ≡ false)
    pub entries : All (IsEntry N) (take (rounds a.lut_length) a.lut)
    pub table : (n : ℕ) × (a.lut_length ≡ pos n) × (n ≤ lut_raw_data_capacity)

int_clamp : (x : ℤ) → (n : ℕ) × (int_at_most (pos 514) (int_at_least (pos 0) x) ≡ pos n) × (n ≤ 514)
int_clamp (pos n) = elim (Bool-cases (ltb 514 n)) [
  | inl e ↦ (514, ground arith, omega arith)
  | inr e ↦ (n, ground arith, ground arith)
]
int_clamp (negsuc n) = (0, refl, omega arith)

module _ (N : Numbers) (O : Order N) (F : FloatOk N) (L : Limits N) (K : LimitsOk N L) where
  finite_literal : (m k : ℕ) → N.is_finite (N.literal m k) ≡ true
  finite_literal m k = O.literal_finite m k

  clamped :
      (m k i j : ℕ) (hi v : N.Double)
      → IsCeiling N L (N.literal m k) hi
      → Between N
          (N.literal m k)
          hi
          (at_most N hi (at_least N (N.literal m k) (finite_or N v (N.literal i j))))
  clamped m k i j hi v (f, o) =
      clamp-Between N O (N.literal m k) hi v (N.literal i j) (finite_literal m k) f
        (finite_literal i j) o

  at_zero :
      (v : N.Double)
      → N.is_finite (at_least N (zero_double N) (finite_or N v (zero_double N))) ≡ true
  at_zero v =
      at_least-is_finite N O (zero_double N) (finite_or N v (zero_double N)) (finite_literal 0 0)
        (finite_or-is_finite N O v (zero_double N) (finite_literal 0 0))

  at_zero_ge :
      (v : N.Double)
      → N.less (at_least N (zero_double N) (finite_or N v (zero_double N))) (zero_double N) ≡ false
  at_zero_ge v = at_least_ge N O (zero_double N) (finite_or N v (zero_double N))

  -- A ceiling above a choice of two numbers that are finite and not below 0.
  chosen :
      (b : Bool) (hi x y : N.Double)
      → IsCeiling N L (zero_double N) hi
      → (N.is_finite x ≡ true) × (N.less x (zero_double N) ≡ false)
      → (N.is_finite y ≡ true) × (N.less y (zero_double N) ≡ false)
      → Between N (zero_double N) hi (at_most N hi (if b then x else y))
  chosen b hi x y (f, o) (fx, gx) (fy, gy) =
      at_most-Between N O (zero_double N) hi (if b then x else y) f o
        (choice_is_finite N O b x y fx fy) (choice_ge N O b x y (zero_double N) gx gy)

  -- The raised breakpoint is not below the offset, and the common ceiling keeps it so.
  raised :
      (b : Bool) (hi x y : N.Double)
      → N.is_finite x ≡ true
      → N.is_finite y ≡ true
      → (b ≡ false)
        ⊎ (N.less (at_most N hi (if b && N.less x y then y else x)) (at_most N hi y) ≡ false)
  raised false hi x y fx fy = inl refl
  raised true hi x y fx fy = inr (elim (Bool-cases (N.less x y)) [
    | inl e ↦ rw e (at_most_mono N O hi y y fy (O.less_irrefl y))
    | inr e ↦ rw e (at_most_mono N O hi x y fx e)
  ])

  -- A number that is not above 0 stays so under the floor 0 and a ceiling.
  stays_off :
      (hi v : N.Double)
      → IsCeiling N L (zero_double N) hi
      → N.less (zero_double N) v ≡ false
      → N.less (zero_double N) (at_most N hi (at_least N (zero_double N) v)) ≡ false
  unfolding at_most at_least
  stays_off hi v (f, o) h = elim (Bool-cases (N.less v (zero_double N))) [
    | inl e ↦ rw e (rw o (O.less_irrefl (zero_double N)))
    | inr e ↦ elim (Bool-cases (N.less hi v)) [
      | inl e' ↦ absurd (cc (O.less_cotrans hi v (zero_double N) (finite_literal 0 0) e' h))
      | inr e' ↦ rw e (rw e' h)
    ]
  ]

  cap_off :
      (acc v : N.Double)
      → (N.less (at_most N L.accel_max acc) (zero_double N) ≡ false)
        ⊎ (N.less (zero_double N) (
              at_most N L.cap_y_max (
                at_least N (zero_double N) (
                  if N.less acc (zero_double N) && N.less (zero_double N) v
                  then zero_double N
                  else v)))
            ≡ false)
  cap_off acc v = elim (Bool-cases (N.less acc (zero_double N))) [
    | inr e ↦ inl (at_most_ge N O (zero_double N) L.accel_max acc K.accel.1 e)
    | inl e ↦ inr (
        stays_off L.cap_y_max
          (if N.less acc (zero_double N) && N.less (zero_double N) v then zero_double N else v)
          K.cap_y
          (elim (Bool-cases (N.less (zero_double N) v)) [
            | inl p ↦ rw (e, p) (O.less_irrefl (zero_double N))
            | inr p ↦ rw (e, p) p
          ]))
  ]

  -- The floor of a natural curve's decay rate holds behind the ceiling.
  kept_floor :
      (b : Bool) (d : N.Double)
      → (b ≡ false)
        ⊎ (N.less (zero_double N) (
              at_most N L.decay_rate_max (
                if (b && N.less (zero_double N) d) && N.less d L.natural_decay_rate_min
                then L.natural_decay_rate_min
                else d))
            ≡ false)
        ⊎ (N.less
              (at_most N L.decay_rate_max (
                if (b && N.less (zero_double N) d) && N.less d L.natural_decay_rate_min
                then L.natural_decay_rate_min
                else d))
              L.natural_decay_rate_min
            ≡ false)
  kept_floor false d = inl refl
  kept_floor true d = elim (Bool-cases (N.less (zero_double N) d)) [
    | inr e ↦ rw e (
        inr (
          inl (
            unfold at_most in
            elim (Bool-cases (N.less L.decay_rate_max d)) [
              | inl g ↦
                  let wrong =
                    O.less_cotrans L.decay_rate_max d (zero_double N) (finite_literal 0 0) g e in
                  absurd (cc (wrong, K.decay_rate.1))
              | inr g ↦ rw g e
            ])))
    | inl e ↦ rw e (elim (Bool-cases (N.less d L.natural_decay_rate_min)) [
      | inl g ↦ rw g (
          inr (
            inr (
              at_most_ge N O L.natural_decay_rate_min L.decay_rate_max L.natural_decay_rate_min
                K.natural_floor (O.less_irrefl L.natural_decay_rate_min))))
      | inr g ↦
          rw g (
            inr
              (inr (at_most_ge N O L.natural_decay_rate_min L.decay_rate_max d K.natural_floor g)))
    ])
  ]

  -- Whatever the settings, `sanitize_accel_args` puts every number in its range, the entries of the
  -- lookup table that its length counts included, if the ceilings of the header are finite and not
  -- below the floors, and 0 and the bounds of a float are finite floats within these bounds.
  pub sanitize_accel_args-InRange : (a : AccelArgs N) → InRange N L (sanitize_accel_args N L a)
  unfolding sanitize_accel_args
  sanitize_accel_args-InRange a = record {
    scale = clamped 1 2 0 0 L.scale_max a.scale K.scale;
    exponent_classic =
        clamped 1 0 2 0 (N.literal 10 0) a.exponent_classic (finite_literal 10 0, K.exponents);
    exponent_power = clamped 1 4 1 0 L.exp_power_max a.exponent_power K.exp_power;
    input_offset = clamped 0 0 0 0 L.cap_x_max a.input_offset K.cap_x;
    output_offset = clamped 0 0 0 0 L.output_offset_max a.output_offset K.output_offset;
    limit = clamped 0 0 0 0 L.limit_max a.limit K.limit;
    acceleration = (
      at_most-is_finite N O L.accel_max (finite_or N a.acceleration (zero_double N)) K.accel.0
          (finite_or-is_finite N O a.acceleration (zero_double N) (finite_literal 0 0)),
      at_most_le N O L.accel_max (finite_or N a.acceleration (zero_double N)),
    );
    decay_rate =
        (let d = at_least N (zero_double N) (finite_or N a.decay_rate (zero_double N)) in
          chosen
            ((is_natural a.mode && N.less (zero_double N) d) && N.less d L.natural_decay_rate_min)
            L.decay_rate_max L.natural_decay_rate_min d K.decay_rate K.natural
            (at_zero a.decay_rate, at_zero_ge a.decay_rate));
    motivity = clamped 0 0 0 0 L.motivity_max a.motivity K.motivity;
    gamma = clamped 0 0 0 0 L.gamma_max a.gamma K.gamma;
    sync_speed = clamped 1 4 1 0 L.sync_speed_max a.sync_speed K.sync_speed;
    smooth = clamped 0 0 0 0 L.smooth_max a.smooth K.smooth;
    cap_x =
        (let x = at_least N (zero_double N) (finite_or N a.cap_x (zero_double N)) in
          let y = at_least N (zero_double N) (finite_or N a.input_offset (zero_double N)) in
          chosen ((is_classic a.mode && not (is_out a.cap_mode_val)) && N.less x y) L.cap_x_max y x
            K.cap_x (at_zero a.input_offset, at_zero_ge a.input_offset)
            (at_zero a.cap_x, at_zero_ge a.cap_x));
    cap_y =
        (let v = finite_or N a.cap_y (zero_double N) in
          let kept =
            if N.less (finite_or N a.acceleration (zero_double N)) (zero_double N)
              && N.less (zero_double N) v
            then zero_double N
            else v in
          at_most-Between N O (zero_double N) L.cap_y_max (at_least N (zero_double N) kept)
            K.cap_y.0 K.cap_y.1
            (at_least-is_finite N O (zero_double N) kept (finite_literal 0 0) (
              choice_is_finite N O
                (N.less (finite_or N a.acceleration (zero_double N)) (zero_double N)
                  && N.less (zero_double N) v)
                (zero_double N) v (finite_literal 0 0)
                (finite_or-is_finite N O a.cap_y (zero_double N) (finite_literal 0 0))))
            (at_least_ge N O (zero_double N) kept));
    breakpoint =
        raised (is_classic a.mode && not (is_out a.cap_mode_val)) L.cap_x_max
          (at_least N (zero_double N) (finite_or N a.cap_x (zero_double N)))
          (at_least N (zero_double N) (finite_or N a.input_offset (zero_double N)))
          (at_zero a.cap_x) (at_zero a.input_offset);
    no_cap =
        cap_off (finite_or N a.acceleration (zero_double N)) (finite_or N a.cap_y (zero_double N));
    natural_floor =
        kept_floor (is_natural a.mode)
          (at_least N (zero_double N) (finite_or N a.decay_rate (zero_double N)));
    entries = table_entries N F (int_at_most (pos 514) (int_at_least (pos 0) a.lut_length)) a.lut;
    table = int_clamp a.lut_length;
  }
