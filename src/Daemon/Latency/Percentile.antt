-- ===== src/Daemon/Latency/Percentile.antt =====
-- The bucket that `percentile` of daemon/lat_stats.hpp picks.
use abrek_mouse.Daemon.Latency.{
  snapshot_percentile, snapshot_and_reset, copy, first_bucket, Micros, LatStats, at_bucket,
  percentile, midpoint, range_us, tail_estimate, zero_us, target_of,
}
use abrek_mouse.Daemon.Latency.Counting.{total}
use abrek_mouse.Prelude.{
  ℕ, suc, ◌+◌, ◌-◌, ◌%◌, ◌^◌, ◌≤◌, ◌<◌, ◌≡◌, refl, ap, ◌⊎◌, inl, inr, true, false, Option, none,
  some, List, [], ◌∷◌, arith, ltb, leb, ◌==◌, if◌then◌else◌, Bool-cases, length, take,
}

-- The first bucket where the running sum reaches the target, or none.
abbrev IsFirst : ℕ → ℕ → ℕ → List ℕ → Option ℕ → Type 0
IsFirst target i cum hist none = cum + total hist < target
IsFirst target i cum hist (some j) =
    (k : ℕ) × (j ≡ i + k)
    × (k < length hist)
    × (cum + total (take k hist) < target)
    × (target ≤ cum + total (take (suc k) hist))

next-IsFirst :
    (target i cum h : ℕ) (hist : List ℕ) (r : Option ℕ)
    → IsFirst target (i + 1) (cum + h) hist r
    → IsFirst target i cum (h ∷ hist) r
next-IsFirst target i cum h hist none f = omega (arith, f)
next-IsFirst target i cum h hist (some j) (k, e, lt, low, high) =
    (suc k, omega (arith, e), omega (arith, lt), omega (arith, low), omega (arith, high))

first_bucket-IsFirst :
    (target i cum : ℕ) (hist : List ℕ)
    → cum < target
    → cum + total hist < 2 ^ 64
    → IsFirst target i cum hist (first_bucket target i cum hist)
unfolding first_bucket
first_bucket-IsFirst target i cum [] lt fits = omega arith
first_bucket-IsFirst target i cum (h ∷ hist) lt fits =
    let wrap : (cum + h) % 2 ^ 64 ≡ cum + h = omega arith in
    rw wrap (elim (Bool-cases (leb target (cum + h))) [
      | inl e ↦ rw e (0, omega arith, omega arith, omega (arith, lt), ground (arith, e))
      | inr e ↦ rw e (
          next-IsFirst target i cum h hist (first_bucket target (i + 1) (cum + h) hist)
            (first_bucket-IsFirst target (i + 1) (cum + h) hist (ground arith) (omega arith)))
    ])

module _ (M : Micros) where
  -- The estimate for a rank behind the buckets: `behind` of the `over` samples there.
  abbrev pub estimate : ℕ → LatStats M → M.Double
  estimate behind s =
      let frac = M.divide (M.from_count behind) (M.from_count s.over) in
      let frac' = if M.less (M.literal 1 0) frac then M.literal 1 0 else frac in
      M.add (range_us M) (M.multiply frac' (M.subtract s.max_us (range_us M)))

  -- The answer for a rank.
  abbrev pub Ranked : ℕ → LatStats M → M.Double → Type 0
  Ranked target s v =
      ((i : ℕ) × (v ≡ midpoint M i)
        × (i < length s.hist)
        × (total (take i s.hist) < target)
        × (target ≤ total (take (suc i) s.hist)))
      ⊎ ((total s.hist < target) × (v ≡ estimate (target - total s.hist) s))

  at_bucket-Ranked :
      (target : ℕ) (s : LatStats M) (r : Option ℕ)
      → total s.hist + s.over ≡ s.count
      → s.count < 2 ^ 64
      → target ≤ s.count
      → IsFirst target 0 0 s.hist r
      → Ranked target s (at_bucket M target s.count s.over s.max_us r)
  unfolding at_bucket tail_estimate
  at_bucket-Ranked target s none sum fits le f =
      let some_over : ltb 0 s.over ≡ true = ground (arith, sum, le, f) in
      let ranged : (s.count + 2 ^ 64 - s.over) % 2 ^ 64 ≡ total s.hist = omega (arith, sum, fits) in
      let behind : ltb (total s.hist) target ≡ true = ground (arith, f) in
      inr (omega (arith, f), rw some_over (rw (ranged, tail_estimate) (rw behind refl)))
  at_bucket-Ranked target s (some j) sum fits le (k, e, lt, low, high) =
      let here : j ≡ k = omega (arith, e) in
      inl (k, ap (midpoint M) here, omega (arith, lt), omega (arith, low), omega (arith, high))

  -- For statistics whose counters have not wrapped, a percentage that is a number above 0 and below
  -- 100, and a rank from 1 to the count: the percentile is the midpoint of the bucket that holds the
  -- sample of this rank, or, when the buckets hold fewer samples, the interpolation between the
  -- range and the maximum by the rank behind the buckets. The
  -- snapshot that is taken gives the same percentile.
  pub percentile-Ranked :
      (pct : M.Double) (s : LatStats M)
      → total s.hist + s.over ≡ s.count
      → s.count < 2 ^ 64
      → M.is_nan pct ≡ false
      → M.less_or_equal pct (zero_us M) ≡ false
      → M.less_or_equal (M.literal 100 0) pct ≡ false
      → 0 < target_of M s.count pct
      → target_of M s.count pct ≤ s.count
      → Ranked (target_of M s.count pct) s (percentile M pct s)
        × (snapshot_percentile M pct (snapshot_and_reset M s).0 ≡ percentile M pct s)
  unfolding percentile snapshot_percentile snapshot_and_reset copy
  percentile-Ranked pct s sum fits nan low high first last =
      let t = target_of M s.count pct in
      let counted : (s.count == 0) ≡ false = ground (arith, first, last) in
      let bucket = first_bucket-IsFirst t 0 0 s.hist first (omega (arith, sum, fits)) in
      (
        rw counted (
            rw nan (
              rw low
                (rw high (at_bucket-Ranked t s (first_bucket t 0 0 s.hist) sum fits last bucket)))),
        refl,
      )
