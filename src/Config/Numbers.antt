-- ===== src/Config/Numbers.antt =====
-- The floating-point numbers of src/config.cpp, as an interface: no laws of rounding are assumed.
use abrek_mouse.Prelude.{ℕ, ◌≡◌, Bool, true, false}

-- `double` and `float` with the operations that the configuration uses. `literal m k` is the number
-- m / 10^k.
pub record Numbers : Type 1 where
  pub Double : Type 0
  pub Float : Type 0
  pub literal : ℕ → ℕ → Double
  pub less : Double → Double → Bool
  pub less_or_equal : Double → Double → Bool
  pub is_zero : Double → Bool
  pub is_finite : Double → Bool
  pub add : Double → Double → Double
  pub multiply : Double → Double → Double
  pub fmod : Double → Double → Double
  pub float_zero : Float
  pub float_max : Float
  pub float_lowest : Float
  pub less_float : Float → Float → Bool
  pub is_finite_float : Float → Bool
  pub widen : Float → Double
  pub narrow : Double → Float

-- What the clamps rely on: no number is below itself, and `less` splits the finite numbers.
pub record Order (N : Numbers) : Type 0 where
  pub less_irrefl : (x : N.Double) → N.less x x ≡ false
  pub less_cotrans :
      (x y z : N.Double)
      → N.is_finite z ≡ true
      → N.less x y ≡ true
      → N.less z y ≡ false
      → N.less x z ≡ true
  pub literal_finite : (m k : ℕ) → N.is_finite (N.literal m k) ≡ true
