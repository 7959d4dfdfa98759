-- ===== src/Config/Sanitize/Sorted.antt =====
-- `sort_lut_data` (src/config.cpp) sorts the points of a lookup table.
use mathlib.Core.List.{Perm, perm_middle}
use mathlib.Core.List.Perm
use abrek_mouse.Config.Numbers.{Numbers}
use abrek_mouse.Config.Accel.{AccelArgs}
use abrek_mouse.Config.Sanitize.{half, sort_from, sort_lut_data}
use abrek_mouse.Config.Sanitize.Insertion.{Point, insert_rev, insert_all, sort_from-insert_all}
use abrek_mouse.Config.Sanitize.Points.{flatten, rev_onto}
use abrek_mouse.Prelude.{
  ℕ, zero, suc, ◌-◌, ◌≤◌, ◌≡◌, refl, sym, ap, ◌∙◌, inl, inr, true, false, List, [], ◌∷◌, ◌++◌,
  append-nil, append_assoc, arith, Bool-cases, length, take, drop,
}

module _ (N : Numbers) where
  -- The reference insertion permutes.
  insert_rev-perm : (k : Point N) (rs : List (Point N)) → Perm (insert_rev N k rs) (k ∷ rs)
  unfolding insert_rev
  insert_rev-perm k [] = Perm.rfl
  insert_rev-perm k (r ∷ rs) = elim (Bool-cases (N.less_float k.0 r.0)) [
    | inl e ↦ rw e (Perm.trans (Perm.cons r (insert_rev-perm k rs)) (Perm.swap k r rs))
    | inr e ↦ rw e Perm.rfl
  ]

  insert_all-perm : (rs ks : List (Point N)) → Perm (insert_all N rs ks) (rs ++ ks)
  unfolding insert_all
  insert_all-perm rs [] = rw (append-nil rs) Perm.rfl
  insert_all-perm rs (k ∷ ks) =
      Perm.trans (insert_all-perm (insert_rev N k rs) ks)
        (Perm.trans (Perm.append_right ks (insert_rev-perm k rs)) (Perm.symm (perm_middle rs ks)))

  rev_onto-perm : (rs t : List (Point N)) → Perm (rev_onto rs t) (rs ++ t)
  rev_onto-perm [] t = Perm.rfl
  rev_onto-perm (r ∷ rs) t = Perm.trans (rev_onto-perm rs (r ∷ t)) (perm_middle rs t)

  -- No point is left of one with a smaller speed, read from the right and from the left.
  abbrev NotBelow : List (Point N) → Point N → Type 0
  NotBelow [] r = Unit
  NotBelow (s ∷ rs) r = N.less_float r.0 s.0 ≡ false

  abbrev Descends : List (Point N) → Type 0
  Descends [] = Unit
  Descends (r ∷ rs) = NotBelow rs r × Descends rs

  abbrev NotAbove : Point N → List (Point N) → Type 0
  NotAbove r [] = Unit
  NotAbove r (t ∷ ts) = N.less_float t.0 r.0 ≡ false

  abbrev pub Ascends : List (Point N) → Type 0
  Ascends [] = Unit
  Ascends (t ∷ ts) = NotAbove t ts × Ascends ts

  rev_onto-Ascends :
      (rs : List (Point N)) (r : Point N) (t : List (Point N))
      → Descends (r ∷ rs)
      → Ascends (r ∷ t)
      → Ascends (rev_onto rs (r ∷ t))
  rev_onto-Ascends [] r t d a = a
  rev_onto-Ascends (s ∷ rs) r t (b, d) a = rev_onto-Ascends rs s (r ∷ t) d (b, a)

  module _ (asym : (a b : N.Float) → N.less_float a b ≡ true → N.less_float b a ≡ false) where
    insert_rev-NotBelow :
        (k r : Point N) (rs : List (Point N))
        → N.less_float k.0 r.0 ≡ true
        → NotBelow rs r
        → NotBelow (insert_rev N k rs) r
    unfolding insert_rev
    insert_rev-NotBelow k r [] lt b = asym k.0 r.0 lt
    insert_rev-NotBelow k r (s ∷ rs) lt b = elim (Bool-cases (N.less_float k.0 s.0)) [
      | inl e ↦ rw e b
      | inr e ↦ rw e (asym k.0 r.0 lt)
    ]

    insert_rev-Descends :
        (k : Point N) (rs : List (Point N)) → Descends rs → Descends (insert_rev N k rs)
    unfolding insert_rev
    insert_rev-Descends k [] d = (tt, tt)
    insert_rev-Descends k (r ∷ rs) (b, d) = elim (Bool-cases (N.less_float k.0 r.0)) [
      | inl e ↦ rw e (insert_rev-NotBelow k r rs e b, insert_rev-Descends k rs d)
      | inr e ↦ rw e (e, (b, d))
    ]

    insert_all-Descends : (rs ks : List (Point N)) → Descends rs → Descends (insert_all N rs ks)
    unfolding insert_all
    insert_all-Descends rs [] d = d
    insert_all-Descends rs (k ∷ ks) d =
        insert_all-Descends (insert_rev N k rs) ks (insert_rev-Descends k rs d)

    all_ascend : (rs : List (Point N)) → Descends rs → Ascends (rev_onto rs [])
    all_ascend [] d = tt
    all_ascend (r ∷ rs) d = rev_onto-Ascends rs r [] d (tt, tt)

    rev_onto-append : (rs t : List (Point N)) → rev_onto rs t ≡ rev_onto rs [] ++ t
    rev_onto-append [] t = refl
    rev_onto-append (r ∷ rs) t =
        rev_onto-append rs (r ∷ t)
        ∙ sym (append_assoc (rev_onto rs []) (r ∷ []) t)
        ∙ ap (λ u. u ++ t) (sym (rev_onto-append rs (r ∷ [])))

    -- The outer loop on an array of points: the first `n` of them are sorted, the others stay.
    sorted_from_one :
        (n : ℕ) (ps : List (Point N))
        → n ≤ length ps
        → (sorted : List (Point N)) × (sort_from N (n - 1) 1 (flatten ps)
            ≡ flatten (sorted ++ drop n ps))
          × Ascends sorted
          × Perm sorted (take n ps)
    unfolding sort_from flatten insert_all
    sorted_from_one zero ps le = ([], refl, tt, Perm.rfl)
    sorted_from_one (suc n) [] le = absurd (omega arith)
    sorted_from_one (suc n) (p ∷ ps) le =
        let all = insert_all N (p ∷ []) (take n ps) in
        let rounds : suc n - 1 ≡ n = omega arith in
        (
          rev_onto all [],
          rw rounds (
              sort_from-insert_all N n (p ∷ []) ps (omega arith)
              ∙ ap flatten (rev_onto-append all (drop n ps))),
          all_ascend all (insert_all-Descends (p ∷ []) (take n ps) (tt, tt)),
          Perm.trans (rev_onto-perm all [])
              (rw (append-nil all) (insert_all-perm (p ∷ []) (take n ps))),
        )

    -- The sorting of a lookup table that holds the points `ps`, where no value is both below and
    -- above another: of the points that the length counts, the result has each as often as before,
    -- none with a smaller speed than the one before it; the points behind them and every other
    -- setting stay.
    pub sort_lut_data-Ascends :
        (a : AccelArgs N) (ps : List (Point N))
        → a.lut ≡ flatten ps
        → half a.lut_length ≤ length ps
        → (sorted : List (Point N)) × (sort_lut_data N a
            ≡ record a { lut = flatten (sorted ++ drop (half a.lut_length) ps) })
          × Ascends sorted
          × Perm sorted (take (half a.lut_length) ps)
    unfolding sort_lut_data
    sort_lut_data-Ascends a ps e le =
        let (sorted, table, ascends, perm) = sorted_from_one (half a.lut_length) ps le in
        (sorted, rw e (rw table refl), ascends, perm)
