-- ===== src/Daemon/Latency.antt =====
-- The latency histogram of a device (daemon/lat_stats.hpp): `lat_stats` and its `snapshot`.
pub mod Counting
pub mod Percentile
use abrek_mouse.Prelude.{
  ℕ, zero, suc, ◌+◌, ◌-◌, ◌*◌, ◌/◌, ◌%◌, ◌^◌, ◌≤◌, ◌<◌, min, max, ◌≡◌, refl, sym, ap, ◌∙◌, ◌≢◌, ◌↔◌,
  ◌⊎◌, inl, inr, Bool, true, false, not, ◌&&◌, ◌||◌, Option, none, some, List, [], ◌∷◌, ◌++◌, map,
  append-nil, append_assoc, arith, ltb, leb, ◌==◌, if◌then◌else◌, ltb→lt, lt→ltb, leb→le, ==_iff,
  tests, Bool-cases, Option-cases, length, get_or, take, drop, replicate, length-append,
  length-take, length-drop, length-replicate, take-append-drop, take-length, All, any_of, find_if,
  dec_lt, Text, codes, text_eq, text_eq_sound, text_eq_refl, is_empty, is_digit, to_lower, ℤ, pos,
  negsuc, ltz, Mem, All-mono, All-zip, All-append, append-All, Mem-append,
}

-- `double` and its conversions as far as the histogram uses them, without laws of rounding.
-- `literal m k` is the number m / 10^k, `truncate` the cast to an int, `to_count` the one to an
-- unsigned 64-bit integer, and `from_count` the way back.
pub record Micros : Type 1 where
  pub Double : Type 0
  pub literal : ℕ → ℕ → Double
  pub less : Double → Double → Bool
  pub less_or_equal : Double → Double → Bool
  pub is_finite : Double → Bool
  pub is_nan : Double → Bool
  pub add : Double → Double → Double
  pub subtract : Double → Double → Double
  pub multiply : Double → Double → Double
  pub divide : Double → Double → Double
  pub ceil : Double → Double
  pub truncate : Double → ℤ
  pub to_count : Double → ℕ
  pub from_count : ℕ → Double

abbrev pub buckets : ℕ
buckets = 1000

-- The next value of an unsigned 64-bit counter.
abbrev pub next_count : ℕ → ℕ
next_count n = (n + 1) % 2 ^ 64

-- `hist[b]++`.
unfoldable pub bump : ℕ → List ℕ → List ℕ
bump b [] = []
bump zero (h ∷ hist) = next_count h ∷ hist
bump (suc b) (h ∷ hist) = h ∷ bump b hist

-- An int as an index: `if (b < 0) b = 0`.
abbrev pub index : ℤ → ℕ
index (pos n) = n
index (negsuc n) = 0

-- The loop of the percentile from the bucket `i` with the sum `cum` before it: the first bucket
-- where the running sum, an unsigned 64-bit number, reaches the target.
unfoldable pub first_bucket : ℕ → ℕ → ℕ → List ℕ → Option ℕ
first_bucket target i cum [] = none
first_bucket target i cum (h ∷ hist) =
    let rest = first_bucket target (i + 1) ((cum + h) % 2 ^ 64) hist in
    if leb target ((cum + h) % 2 ^ 64) then some i else rest

module _ (M : Micros) where
  abbrev pub bucket_us : M.Double
  bucket_us = M.literal 5 1

  abbrev pub range_us : M.Double
  range_us = M.multiply (M.from_count buckets) bucket_us

  abbrev pub zero_us : M.Double
  zero_us = M.literal 0 0

  -- `lat_stats`, and `snapshot`.
  pub record LatStats : Type 0 where
    pub count : ℕ
    pub sum_us : M.Double
    pub min_us : M.Double
    pub max_us : M.Double
    pub hist : List ℕ
    pub over : ℕ

  pub record Snapshot : Type 0 where
    pub count : ℕ
    pub sum_us : M.Double
    pub min_us : M.Double
    pub max_us : M.Double
    pub hist : List ℕ
    pub over : ℕ

  abbrev pub empty_stats : LatStats
  empty_stats = record {
    count = 0;
    sum_us = zero_us;
    min_us = M.literal 1000000000 0;
    max_us = zero_us;
    hist = replicate buckets 0;
    over = 0;
  }

  -- The bucket of a sample.
  abbrev pub bucket_of : M.Double → ℕ
  bucket_of x = index (M.truncate (M.divide x bucket_us))

  -- `if (lat_us < 0) lat_us = 0`.
  abbrev pub non_negative : M.Double → M.Double
  non_negative x = if M.less x zero_us then zero_us else x

  -- The part of `record` under the lock.
  unfoldable pub add_sample : M.Double → LatStats → LatStats
  unfolding bump
  add_sample x s =
      let ranged = M.less x range_us in
      record {
        count = next_count s.count;
        sum_us = M.add s.sum_us x;
        min_us = if M.less x s.min_us then x else s.min_us;
        max_us = if M.less s.max_us x then x else s.max_us;
        hist = if ranged then bump (bucket_of x) s.hist else s.hist;
        over = if ranged then s.over else next_count s.over;
      }

  -- `record`.
  unfoldable pub record_sample : M.Double → LatStats → LatStats
  unfolding add_sample
  record_sample x s = if M.is_finite x then add_sample (non_negative x) s else s

  -- `avg_us`.
  unfoldable pub avg_us : LatStats → M.Double
  avg_us s = if ltb 0 s.count then M.divide s.sum_us (M.from_count s.count) else zero_us

  -- The bucket's midpoint.
  abbrev pub midpoint : ℕ → M.Double
  midpoint i = M.multiply (M.add (M.from_count i) (M.literal 5 1)) bucket_us

  -- The estimate among the samples behind the histogram. `count - over` is unsigned.
  unfoldable pub tail_estimate : ℕ → ℕ → ℕ → M.Double → M.Double
  tail_estimate target count over max_us =
      let in_range = (count + 2 ^ 64 - over) % 2 ^ 64 in
      let pos = if ltb in_range target then M.from_count (target - in_range) else zero_us in
      let frac = M.divide pos (M.from_count over) in
      let one_us = M.literal 1 0 in
      let frac' = if M.less one_us frac then one_us else frac in
      M.add range_us (M.multiply frac' (M.subtract max_us range_us))

  -- `ceil(count * pct / 100)` as a count.
  abbrev pub target_of : ℕ → M.Double → ℕ
  target_of count pct =
      M.to_count (M.ceil (M.divide (M.multiply (M.from_count count) pct) (M.literal 100 0)))

  -- What is returned behind the loop, or in it.
  unfoldable pub at_bucket : ℕ → ℕ → ℕ → M.Double → Option ℕ → M.Double
  unfolding tail_estimate
  at_bucket target count over max_us (some i) = midpoint i
  at_bucket target count over max_us none =
      if ltb 0 over then tail_estimate target count over max_us else max_us

  -- `percentile`.
  unfoldable pub percentile : M.Double → LatStats → M.Double
  unfolding first_bucket at_bucket
  percentile pct s =
      if s.count == 0
      then zero_us
      else if M.is_nan pct
      then zero_us
      else if M.less_or_equal pct zero_us
      then zero_us
      else if M.less_or_equal (M.literal 100 0) pct
      then s.max_us
      else let target = target_of s.count pct in
        at_bucket target s.count s.over s.max_us (first_bucket target 0 0 s.hist)

  -- `snapshot::percentile`.
  unfoldable pub snapshot_percentile : M.Double → Snapshot → M.Double
  unfolding first_bucket at_bucket
  snapshot_percentile pct s =
      if s.count == 0
      then zero_us
      else if M.is_nan pct
      then zero_us
      else if M.less_or_equal pct zero_us
      then zero_us
      else if M.less_or_equal (M.literal 100 0) pct
      then s.max_us
      else let target = target_of s.count pct in
        at_bucket target s.count s.over s.max_us (first_bucket target 0 0 s.hist)

  -- `reset`.
  unfoldable pub reset : LatStats → LatStats
  reset s = empty_stats

  -- `copy`.
  unfoldable pub copy : LatStats → Snapshot
  copy s = record {
    count = s.count;
    sum_us = s.sum_us;
    min_us = s.min_us;
    max_us = s.max_us;
    hist = s.hist;
    over = s.over;
  }

  -- `snapshot_and_reset`.
  unfoldable pub snapshot_and_reset : LatStats → Snapshot × LatStats
  unfolding copy reset
  snapshot_and_reset s = (copy s, empty_stats)

  -- The move constructor, and the move assignment between two objects: what they leave in the
  -- target and in the source.
  unfoldable pub move_construct : LatStats → LatStats × LatStats
  move_construct o = (o, empty_stats)

  unfoldable pub move_assign : LatStats → LatStats → LatStats × LatStats
  move_assign s o = (o, empty_stats)

  -- The calls on one device's statistics.
  pub data Call : Type 0 where
    record_call : M.Double → Call
    reset_call : Call
    snapshot_call : Call

  abbrev pub step : Call → LatStats → LatStats
  step (record_call x) s = record_sample x s
  step reset_call s = reset s
  step snapshot_call s = (snapshot_and_reset s).1

  abbrev pub run : List Call → LatStats → LatStats
  run [] s = s
  run (c ∷ cs) s = run cs (step c s)
