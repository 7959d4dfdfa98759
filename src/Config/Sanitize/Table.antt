-- ===== src/Config/Sanitize/Table.antt =====
-- The entries of a lookup table behind `sanitize_accel_args` (src/config.cpp).
use abrek_mouse.Config.Numbers.{Numbers}
use abrek_mouse.Config.Sanitize.{
  set, half, rounds, shift, insert_point, sort_from, clean_float, clean_first,
}
use abrek_mouse.Prelude.{
  ℕ, zero, suc, ◌+◌, ◌-◌, ◌*◌, ◌/◌, ◌≤◌, ◌<◌, ◌≡◌, inl, inr, true, false, List, [], ◌∷◌, arith,
  Bool-cases, get_or, take, All, ℤ, pos, negsuc,
}

module _ (N : Numbers) where
  -- A finite number that a float can hold.
  abbrev pub IsEntry : N.Float → Type 0
  IsEntry v =
      (N.is_finite_float v ≡ true)
      × (N.less_float N.float_max v ≡ false)
      × (N.less_float v N.float_lowest ≡ false)

  -- What the constants of the type satisfy.
  pub record FloatOk : Type 0 where
    pub zero_entry : IsEntry N.float_zero
    pub max_entry : IsEntry N.float_max
    pub lowest_entry : IsEntry N.float_lowest

-- Reads and writes among the first `n` numbers.
set-take :
    {A : Type 0} (P : A → Type 0) (n i : ℕ) (d : List A) (v : A)
    → P v
    → All P (take n d)
    → All P (take n (set d i v))
unfolding set
set-take P zero i d v p h = tt
set-take P (suc n) i [] v p h = tt
set-take P (suc n) zero (x ∷ d) v p (q, h) = (p, h)
set-take P (suc n) (suc i) (x ∷ d) v p (q, h) = (q, set-take P n i d v p h)

get_or-take :
    {A : Type 0} (P : A → Type 0) (n i : ℕ) (d : List A) (z : A)
    → i < n
    → P z
    → All P (take n d)
    → P (get_or d i z)
get_or-take P zero i d z lt p h = absurd (omega arith)
get_or-take P (suc n) i [] z lt p h = p
get_or-take P (suc n) zero (x ∷ d) z lt p (q, h) = q
get_or-take P (suc n) (suc i) (x ∷ d) z lt p (q, h) = get_or-take P n i d z (omega arith) p h

module _ (N : Numbers) (K : FloatOk N) where
  clean_float-IsEntry : (v : N.Float) → IsEntry N (clean_float N v)
  unfolding clean_float
  clean_float-IsEntry v = elim (Bool-cases (N.is_finite_float v)) [
    | inl f ↦ rw f (elim (Bool-cases (N.less_float N.float_max v)) [
      | inl e ↦ rw (e, K.max_entry.2) K.max_entry
      | inr e ↦ rw e (elim (Bool-cases (N.less_float v N.float_lowest)) [
        | inl g ↦ rw g K.lowest_entry
        | inr g ↦ rw g (f, e, g)
      ])
    ])
    | inr f ↦ rw (f, K.zero_entry.1, K.zero_entry.2) K.zero_entry
  ]

  abbrev Clean : ℕ → List N.Float → Type 0
  Clean n d = All (IsEntry N) (take n d)

  clean_first-Clean : (n : ℕ) (d : List N.Float) → Clean n (clean_first N n d)
  unfolding clean_first
  clean_first-Clean zero d = tt
  clean_first-Clean (suc n) [] = tt
  clean_first-Clean (suc n) (v ∷ d) = (clean_float-IsEntry v, clean_first-Clean n d)

  read : (n i : ℕ) (d : List N.Float) → i < n → Clean n d → IsEntry N (get_or d i N.float_zero)
  read n i d lt h = get_or-take (IsEntry N) n i d N.float_zero lt K.zero_entry h

  write : (n i : ℕ) (d : List N.Float) (v : N.Float) → IsEntry N v → Clean n d → Clean n (set d i v)
  write n i d v p h = set-take (IsEntry N) n i d v p h

  -- The sorting only moves entries.
  shift-Clean :
      (n j : ℕ) (kx : N.Float) (d : List N.Float)
      → j * 2 ≤ n
      → Clean n d
      → Clean n (shift N j kx d).0
  unfolding shift
  shift-Clean n zero kx d le h = h
  shift-Clean n (suc j) kx d le h =
      let x = get_or d (j * 2) N.float_zero in
      let y = get_or d (j * 2 + 1) N.float_zero in
      let first = write n ((j + 1) * 2) d x (read n (j * 2) d (omega arith) h) h in
      let moved =
        write n ((j + 1) * 2 + 1) (set d ((j + 1) * 2) x) y (read n (j * 2 + 1) d (omega arith) h)
          first in
      let rest =
        shift-Clean n j kx (set (set d ((j + 1) * 2) x) ((j + 1) * 2 + 1) y) (omega arith) moved in
      elim (Bool-cases (N.less_float kx x)) [ inl e ↦ rw e rest | inr e ↦ rw e h ]

  insert_point-Clean :
      (n i : ℕ) (d : List N.Float) → i * 2 + 2 ≤ n → Clean n d → Clean n (insert_point N i d)
  unfolding insert_point
  insert_point-Clean n i d le h =
      let kx = get_or d (i * 2) N.float_zero in
      let ky = get_or d (i * 2 + 1) N.float_zero in
      let (d', place) = shift N i kx d in
      let shifted = shift-Clean n i kx d (omega arith) h in
      write n (place * 2 + 1) (set d' (place * 2) kx) ky (read n (i * 2 + 1) d (omega arith) h)
        (write n (place * 2) d' kx (read n (i * 2) d (omega arith) h) shifted)

  sort_from-Clean :
      (n k i : ℕ) (d : List N.Float)
      → (0 < k → (i + k) * 2 ≤ n)
      → Clean n d
      → Clean n (sort_from N k i d)
  unfolding sort_from
  sort_from-Clean n zero i d le h = h
  sort_from-Clean n (suc k) i d le h =
      let bound = le (omega arith) in
      sort_from-Clean n k (i + 1) (insert_point N i d) (λ more. omega (arith, bound))
        (insert_point-Clean n i d (omega (arith, bound)) h)

  -- The table of the length `l`, cleaned and sorted.
  pub table_entries :
      (l : ℤ) (d : List N.Float)
      → All (IsEntry N) (take (rounds l) (sort_from N (half l - 1) 1 (clean_first N (rounds l) d)))
  table_entries (pos n) d =
      sort_from-Clean n (n / 2 - 1) 1 (clean_first N n d) (λ more. omega (arith, more))
        (clean_first-Clean n d)
  table_entries (negsuc n) d = tt
