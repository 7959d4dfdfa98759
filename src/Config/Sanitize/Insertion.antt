-- ===== src/Config/Sanitize/Insertion.antt =====
-- The loops of `sort_lut_data` (src/config.cpp) are an insertion sort on a list of points.
use abrek_mouse.Config.Numbers.{Numbers}
use abrek_mouse.Config.Sanitize.{set, shift, insert_point, sort_from}
use abrek_mouse.Config.Sanitize.Points.{flatten, rev_onto, get_or-flatten, set-flatten}
use abrek_mouse.Prelude.{
  ℕ, zero, suc, ◌+◌, ◌*◌, ◌≤◌, ◌≡◌, refl, ap, ◌∙◌, inl, inr, List, [], ◌∷◌, ◌++◌, arith,
  if◌then◌else◌, Bool-cases, length, get_or, take, drop,
}

module _ (N : Numbers) where
  abbrev pub Point : Type 0
  Point = N.Float × N.Float

  -- Where the inner loop stops: the points left of the key, from the right, and those it has moved.
  place_of : N.Float → List Point → List Point → List Point × List Point
  place_of kx [] t = ([], t)
  place_of kx (r ∷ rs) t =
      let rest = place_of kx rs (r ∷ t) in if N.less_float kx r.0 then rest else (r ∷ rs, t)

  -- Insertion into a list that descends.
  unfoldable pub insert_rev : Point → List Point → List Point
  insert_rev k [] = k ∷ []
  insert_rev k (r ∷ rs) =
      let rest = insert_rev k rs in if N.less_float k.0 r.0 then r ∷ rest else k ∷ r ∷ rs

  unfoldable pub insert_all : List Point → List Point → List Point
  insert_all rs [] = rs
  insert_all rs (k ∷ ks) = insert_all (insert_rev k rs) ks

  place_of-insert_rev :
      (k : Point) (rs t u : List Point)
      → rev_onto (place_of k.0 rs t).0 (k ∷ ((place_of k.0 rs t).1 ++ u))
        ≡ rev_onto (insert_rev k rs) (t ++ u)
  unfolding place_of insert_rev
  place_of-insert_rev k [] t u = refl
  place_of-insert_rev k (r ∷ rs) t u = elim (Bool-cases (N.less_float k.0 r.0)) [
    | inl e ↦ rw e (place_of-insert_rev k rs (r ∷ t) u)
    | inr e ↦ rw e refl
  ]

  -- One move of a point to the right.
  moved :
      (rs x : List Point) (r h : Point)
      → set
          (set (flatten (rev_onto rs (r ∷ h ∷ x))) ((length rs + 1) * 2) r.0)
          ((length rs + 1) * 2 + 1)
          r.1
        ≡ flatten (rev_onto rs (r ∷ r ∷ x))
  moved rs x (rx, ry) (hx, hy) =
      ap (λ d. set d ((length rs + 1) * 2 + 1) ry)
        (set-flatten rs ((rx, ry) ∷ (hx, hy) ∷ x) 2 ((length rs + 1) * 2) rx
          ((rx, ry) ∷ (rx, hy) ∷ x) (omega arith) (unfold set in unfold flatten in refl))
      ∙ set-flatten rs ((rx, ry) ∷ (rx, hy) ∷ x) 3 ((length rs + 1) * 2 + 1) ry
          ((rx, ry) ∷ (rx, ry) ∷ x) (omega arith) (unfold set in unfold flatten in refl)

  point_x :
      (rs x : List Point) (r : Point) (d : N.Float)
      → get_or (flatten (rev_onto rs (r ∷ x))) (length rs * 2) d ≡ r.0
  point_x rs x (rx, ry) d =
      get_or-flatten rs ((rx, ry) ∷ x) 0 (length rs * 2) d (omega arith) ∙ unfold flatten in refl

  point_y :
      (rs x : List Point) (r : Point) (d : N.Float)
      → get_or (flatten (rev_onto rs (r ∷ x))) (length rs * 2 + 1) d ≡ r.1
  point_y rs x (rx, ry) d =
      get_or-flatten rs ((rx, ry) ∷ x) 1 (length rs * 2 + 1) d (omega arith)
      ∙ unfold flatten in refl

  put_point :
      (rs x : List Point) (k h : Point)
      → set (set (flatten (rev_onto rs (h ∷ x))) (length rs * 2) k.0) (length rs * 2 + 1) k.1
        ≡ flatten (rev_onto rs (k ∷ x))
  put_point rs x (kx, ky) (hx, hy) =
      ap (λ d. set d (length rs * 2 + 1) ky)
        (set-flatten rs ((hx, hy) ∷ x) 0 (length rs * 2) kx ((kx, hy) ∷ x) (omega arith)
          (unfold set in unfold flatten in refl))
      ∙ set-flatten rs ((kx, hy) ∷ x) 1 (length rs * 2 + 1) ky ((kx, ky) ∷ x) (omega arith)
          (unfold set in unfold flatten in refl)

  -- The inner loop from the point behind `rs`, which it may overwrite.
  shift-place_of :
      (kx : N.Float) (rs t u : List Point) (h : Point)
      → (h' : Point) × (shift N (length rs) kx (flatten (rev_onto rs (h ∷ (t ++ u)))) ≡ (
        flatten (rev_onto (place_of kx rs t).0 (h' ∷ ((place_of kx rs t).1 ++ u))),
        length (place_of kx rs t).0,
      ))
  unfolding shift place_of
  shift-place_of kx [] t u h = (h, refl)
  shift-place_of kx (r ∷ rs) t u h =
      let x = point_x rs (h ∷ (t ++ u)) r N.float_zero in
      let y = point_y rs (h ∷ (t ++ u)) r N.float_zero in
      elim (Bool-cases (N.less_float kx r.0)) [
        | inl e ↦
            let (h', rest) = shift-place_of kx rs (r ∷ t) u r in
            (h', rw x (rw y (rw e (rw (moved rs (t ++ u) r h) rest))))
        | inr e ↦ (h, rw x (rw e refl))
      ]

  -- One round of the outer loop.
  insert_point-insert_rev :
      (rs u : List Point) (k : Point)
      → insert_point N (length rs) (flatten (rev_onto rs (k ∷ u)))
        ≡ flatten (rev_onto (insert_rev k rs) u)
  unfolding insert_point
  insert_point-insert_rev rs u k =
      let (h', e) = shift-place_of k.0 rs [] u k in
      rw (point_x rs u k N.float_zero) (
        rw (point_y rs u k N.float_zero) (
          rw e (
            put_point (place_of k.0 rs []).0 ((place_of k.0 rs []).1 ++ u) k h'
            ∙ ap flatten (place_of-insert_rev k rs [] u))))

  length-insert_rev : (k : Point) (rs : List Point) → length (insert_rev k rs) ≡ length rs + 1
  unfolding insert_rev
  length-insert_rev k [] = omega arith
  length-insert_rev k (r ∷ rs) = elim (Bool-cases (N.less_float k.0 r.0)) [
    | inl e ↦ rw e (omega (arith, length-insert_rev k rs))
    | inr e ↦ rw e (omega arith)
  ]

  -- The outer loop.
  pub sort_from-insert_all :
      (m : ℕ) (rs u : List Point)
      → m ≤ length u
      → sort_from N m (length rs) (flatten (rev_onto rs u))
        ≡ flatten (rev_onto (insert_all rs (take m u)) (drop m u))
  unfolding sort_from insert_all
  sort_from-insert_all zero rs u le = refl
  sort_from-insert_all (suc m) rs [] le = absurd (omega arith)
  sort_from-insert_all (suc m) rs (k ∷ u) le =
      rw (insert_point-insert_rev rs u k)
        (rw (← length-insert_rev k rs) (sort_from-insert_all m (insert_rev k rs) u (omega arith)))
