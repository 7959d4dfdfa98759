-- ===== src/Tests/Latency.antt =====
-- The theorems on the latency histogram, with numbers that are multiples of 1/10000.
use abrek_mouse.Daemon.Latency.{
  snapshot_percentile, snapshot_and_reset, Micros, LatStats, Call, record_call, snapshot_call,
  bucket_of, zero_us, range_us, buckets, empty_stats, midpoint, percentile, run,
}
use abrek_mouse.Daemon.Latency.Counting.{Balanced, run_counts}
use abrek_mouse.Daemon.Latency.Percentile.{Ranked, percentile-Ranked}
use abrek_mouse.Prelude.{
  ℕ, ◌+◌, ◌-◌, ◌*◌, ◌/◌, ◌%◌, ◌^◌, ◌<◌, max, ◌≡◌, refl, true, false, List, [], ◌∷◌, arith, ltb, leb,
  pos,
}

abbrev micros : Micros
micros = record {
  Double = ℕ;
  literal = λ m k. m * 10000 / 10 ^ k;
  less = ltb;
  less_or_equal = leb;
  is_finite = λ x. true;
  is_nan = λ x. false;
  add = λ x y. x + y;
  subtract = λ x y. x - y;
  multiply = λ x y. x * y / 10000;
  divide = λ x y. x * 10000 / max y 1;
  ceil = λ x. (x + 9999) / 10000 * 10000;
  truncate = λ x. pos (x / 10000);
  to_count = λ x. x / 10000;
  from_count = λ n. n * 10000;
}

bucket_below :
    (x : ℕ)
    → ltb x (zero_us micros) ≡ false
    → ltb x (range_us micros) ≡ true
    → bucket_of micros x < buckets
bucket_below x h k = ground (arith, k)

-- A sample before the snapshot, and two behind it: 0.7 and 900 microseconds.
abbrev calls : List (Call micros)
calls = record_call 30000 ∷ snapshot_call ∷ record_call 7000 ∷ record_call 9000000 ∷ []

run_counts_example :
    Balanced micros (run micros calls (empty_stats micros))
    × ((run micros calls (empty_stats micros)).count ≡ 2 % 2 ^ 64)
run_counts_example = run_counts micros refl bucket_below calls

-- Two samples in the bucket 1, one in the bucket 2, and one behind a short histogram.
abbrev stats : LatStats micros
stats = record {
  count = 4;
  sum_us = 9030000;
  min_us = 7000;
  max_us = 9000000;
  hist = 0 ∷ 2 ∷ 1 ∷ 0 ∷ [];
  over = 1;
}

median : percentile micros 500000 stats ≡ midpoint micros 1
unfolding percentile
median = refl

percentile-Ranked_example :
    Ranked micros 2 stats (percentile micros 500000 stats)
    × (snapshot_percentile micros 500000 (snapshot_and_reset micros stats).0
        ≡ percentile micros 500000 stats)
percentile-Ranked_example =
    percentile-Ranked micros 500000 stats refl (omega arith) refl refl refl (omega arith)
      (omega arith)
