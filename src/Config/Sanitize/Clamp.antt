-- ===== src/Config/Sanitize/Clamp.antt =====
-- The single clamps of src/config.cpp on finite numbers.
use abrek_mouse.Config.Numbers.{Numbers, Order}
use abrek_mouse.Config.Sanitize.{at_least, at_most, finite_or}
use abrek_mouse.Prelude.{◌≡◌, inl, inr, Bool, true, false, if◌then◌else◌, Bool-cases}

module _ (N : Numbers) where
  -- A finite number from `lo` to `hi`.
  abbrev pub Between : N.Double → N.Double → N.Double → Type 0
  Between lo hi x = (N.is_finite x ≡ true) × (N.less x lo ≡ false) × (N.less hi x ≡ false)

module _ (N : Numbers) (O : Order N) where
  pub finite_or-is_finite :
      (v d : N.Double) → N.is_finite d ≡ true → N.is_finite (finite_or N v d) ≡ true
  unfolding finite_or
  finite_or-is_finite v d h = elim (Bool-cases (N.is_finite v)) [ inl e ↦ rw e e | inr e ↦ rw e h ]

  -- A choice between two numbers that are finite and not below a bound.
  pub choice_is_finite :
      (b : Bool) (x y : N.Double)
      → N.is_finite x ≡ true
      → N.is_finite y ≡ true
      → N.is_finite (if b then x else y) ≡ true
  choice_is_finite true x y h k = h
  choice_is_finite false x y h k = k

  pub choice_ge :
      (b : Bool) (x y lo : N.Double)
      → N.less x lo ≡ false
      → N.less y lo ≡ false
      → N.less (if b then x else y) lo ≡ false
  choice_ge true x y lo h k = h
  choice_ge false x y lo h k = k

  pub at_least-is_finite :
      (lo x : N.Double)
      → N.is_finite lo ≡ true
      → N.is_finite x ≡ true
      → N.is_finite (at_least N lo x) ≡ true
  unfolding at_least
  at_least-is_finite lo x h k = choice_is_finite (N.less x lo) lo x h k

  pub at_least_ge : (lo x : N.Double) → N.less (at_least N lo x) lo ≡ false
  unfolding at_least
  at_least_ge lo x = elim (Bool-cases (N.less x lo)) [
    | inl e ↦ rw e (O.less_irrefl lo)
    | inr e ↦ rw e e
  ]

  pub at_most-is_finite :
      (hi x : N.Double)
      → N.is_finite hi ≡ true
      → N.is_finite x ≡ true
      → N.is_finite (at_most N hi x) ≡ true
  unfolding at_most
  at_most-is_finite hi x h k = choice_is_finite (N.less hi x) hi x h k

  pub at_most_le : (hi x : N.Double) → N.less hi (at_most N hi x) ≡ false
  unfolding at_most
  at_most_le hi x = elim (Bool-cases (N.less hi x)) [
    | inl e ↦ rw e (O.less_irrefl hi)
    | inr e ↦ rw e e
  ]

  pub at_most_ge :
      (lo hi x : N.Double)
      → N.less hi lo ≡ false
      → N.less x lo ≡ false
      → N.less (at_most N hi x) lo ≡ false
  unfolding at_most
  at_most_ge lo hi x h k = choice_ge (N.less hi x) hi x lo h k

  -- A ceiling on a finite number that is not below `lo`.
  pub at_most-Between :
      (lo hi x : N.Double)
      → N.is_finite hi ≡ true
      → N.less hi lo ≡ false
      → N.is_finite x ≡ true
      → N.less x lo ≡ false
      → Between N lo hi (at_most N hi x)
  at_most-Between lo hi x h o f g =
      (at_most-is_finite hi x h f, at_most_ge lo hi x o g, at_most_le hi x)

  -- A floor and a ceiling on a number that was made finite.
  pub clamp-Between :
      (lo hi v d : N.Double)
      → N.is_finite lo ≡ true
      → N.is_finite hi ≡ true
      → N.is_finite d ≡ true
      → N.less hi lo ≡ false
      → Between N lo hi (at_most N hi (at_least N lo (finite_or N v d)))
  clamp-Between lo hi v d l h f o =
      at_most-Between lo hi (at_least N lo (finite_or N v d)) h o
        (at_least-is_finite lo (finite_or N v d) l (finite_or-is_finite v d f))
        (at_least_ge lo (finite_or N v d))

  -- Ceilings keep the order of two finite numbers.
  pub at_most_mono :
      (hi x y : N.Double)
      → N.is_finite x ≡ true
      → N.less x y ≡ false
      → N.less (at_most N hi x) (at_most N hi y) ≡ false
  unfolding at_most
  at_most_mono hi x y f h = elim (Bool-cases (N.less hi x)) [
    | inl e ↦ elim (Bool-cases (N.less hi y)) [
      | inl e' ↦ rw (e, e') (O.less_irrefl hi)
      | inr e' ↦ rw (e, e') e'
    ]
    | inr e ↦ elim (Bool-cases (N.less hi y)) [
      | inl e' ↦ absurd (cc (O.less_cotrans hi y x f e' h))
      | inr e' ↦ rw (e, e') h
    ]
  ]
