-- ===== src/Config/Sanitize/Points.antt =====
-- The lookup table of src/config.cpp as a list of points: reads and writes of the array at a point.
use abrek_mouse.Config.Sanitize.{set}
use abrek_mouse.Prelude.{
  ℕ, suc, ◌+◌, ◌*◌, ◌≡◌, refl, sym, ap, ◌∙◌, List, [], ◌∷◌, ◌++◌, arith, length, get_or,
}

module _ {ℓ} {A : Type ℓ} where
  -- The array that holds the points one behind the other.
  unfoldable pub flatten : List (A × A) → List A
  flatten [] = []
  flatten ((x, y) ∷ ps) = x ∷ y ∷ flatten ps

  -- `xs` in reverse, before `ys`.
  abbrev pub rev_onto : List (A × A) → List (A × A) → List (A × A)
  rev_onto [] ys = ys
  rev_onto (x ∷ xs) ys = rev_onto xs (x ∷ ys)

  flatten-rev_onto :
      (xs ys zs : List (A × A))
      → flatten (rev_onto xs (ys ++ zs)) ≡ flatten (rev_onto xs ys) ++ flatten zs
  unfolding flatten
  flatten-rev_onto [] [] zs = refl
  flatten-rev_onto [] ((x, y) ∷ ys) zs = ap (λ t. x ∷ y ∷ t) (flatten-rev_onto [] ys zs)
  flatten-rev_onto (x ∷ xs) ys zs = flatten-rev_onto xs (x ∷ ys) zs

  length-flatten-rev_onto :
      (xs ys : List (A × A))
      → length (flatten (rev_onto xs ys)) ≡ length xs * 2 + length (flatten ys)
  unfolding flatten
  length-flatten-rev_onto [] ys = omega arith
  length-flatten-rev_onto ((x, y) ∷ xs) ys = omega (arith, length-flatten-rev_onto xs ((x, y) ∷ ys))

  get_or-append :
      (xs ys : List A) (i : ℕ) (d : A) → get_or (xs ++ ys) (length xs + i) d ≡ get_or ys i d
  get_or-append [] ys i d = let e : 0 + i ≡ i = omega arith in rw e refl
  get_or-append (x ∷ xs) ys i d =
      let e : suc (length xs) + i ≡ suc (length xs + i) = omega arith in
      rw e (get_or-append xs ys i d)

  set-append :
      (xs ys : List A) (i : ℕ) (v : A) → set (xs ++ ys) (length xs + i) v ≡ xs ++ set ys i v
  unfolding set
  set-append [] ys i v = let e : 0 + i ≡ i = omega arith in rw e refl
  set-append (x ∷ xs) ys i v =
      let e : suc (length xs) + i ≡ suc (length xs + i) = omega arith in
      rw e (ap (◌∷◌ x) (set-append xs ys i v))

  -- The array splits before the point that stands behind `xs`.
  before : List (A × A) → List A
  before xs = flatten (rev_onto xs [])

  splits : (xs ys : List (A × A)) → flatten (rev_onto xs ys) ≡ before xs ++ flatten ys
  unfolding before
  splits xs ys = flatten-rev_onto xs [] ys

  length-before : (xs : List (A × A)) → length (before xs) ≡ length xs * 2
  unfolding before flatten
  length-before xs = omega (arith, length-flatten-rev_onto xs [])

  pub get_or-flatten :
      (xs ys : List (A × A)) (i j : ℕ) (d : A)
      → j ≡ length xs * 2 + i
      → get_or (flatten (rev_onto xs ys)) j d ≡ get_or (flatten ys) i d
  get_or-flatten xs ys i j d e =
      let place : j ≡ length (before xs) + i = omega (arith, length-before xs) in
      rw (splits xs ys) (rw place (get_or-append (before xs) (flatten ys) i d))

  pub set-flatten :
      (xs ys : List (A × A)) (i j : ℕ) (v : A) (zs : List (A × A))
      → j ≡ length xs * 2 + i
      → set (flatten ys) i v ≡ flatten zs
      → set (flatten (rev_onto xs ys)) j v ≡ flatten (rev_onto xs zs)
  set-flatten xs ys i j v zs e h =
      let place : j ≡ length (before xs) + i = omega (arith, length-before xs) in
      rw (splits xs ys) (
        rw place (
          set-append (before xs) (flatten ys) i v
          ∙ ap (λ t. before xs ++ t) h
          ∙ sym (splits xs zs)))
