-- ===== src/Daemon/Latency/Counting.antt =====
-- Each sample of daemon/lat_stats.hpp is counted once.
use abrek_mouse.Daemon.Latency.{
  Micros, buckets, bump, range_us, zero_us, LatStats, empty_stats, bucket_of, non_negative,
  add_sample, record_sample, reset, snapshot_and_reset, Call, record_call, reset_call,
  snapshot_call, step, run,
}
use abrek_mouse.Prelude.{
  ℕ, zero, suc, ◌+◌, ◌%◌, ◌^◌, ◌<◌, ◌≡◌, refl, ◌∙◌, inl, inr, true, false, List, [], ◌∷◌, arith,
  if◌then◌else◌, Bool-cases, length, replicate, length-replicate,
}
use abrek_mouse.Prelude.{
  ℕ, zero, suc, ◌+◌, ◌%◌, ◌^◌, ◌<◌, ◌≡◌, refl, ◌∙◌, inl, inr, true, false, List, [], ◌∷◌, arith,
  if◌then◌else◌, Bool-cases, length, replicate, length-replicate,
}

-- The sum of the buckets.
abbrev pub total : List ℕ → ℕ
total [] = 0
total (h ∷ hist) = h + total hist

length-bump : (b : ℕ) (hist : List ℕ) → length (bump b hist) ≡ length hist
unfolding bump
length-bump b [] = refl
length-bump zero (h ∷ hist) = refl
length-bump (suc b) (h ∷ hist) = omega (arith, length-bump b hist)

total-bump :
    (b : ℕ) (hist : List ℕ) (n : ℕ)
    → b < length hist
    → (total (bump b hist) + n) % 2 ^ 64 ≡ (total hist + n + 1) % 2 ^ 64
unfolding bump
total-bump b [] n lt = absurd (omega arith)
total-bump zero (h ∷ hist) n lt = omega arith
total-bump (suc b) (h ∷ hist) n lt = omega (arith, total-bump b hist (h + n) (omega arith))

total-replicate : (n : ℕ) → total (replicate n 0) ≡ 0
total-replicate zero = refl
total-replicate (suc n) = omega (arith, total-replicate n)

module _ (M : Micros) where
  -- Each counted sample is in a bucket or behind the buckets, up to the wrap of the counters.
  pub record Balanced (s : LatStats M) : Type 0 where
    pub size : length s.hist ≡ buckets
    pub balance : (total s.hist + s.over) % 2 ^ 64 ≡ s.count

  empty_stats-Balanced : Balanced (empty_stats M)
  empty_stats-Balanced = record {
    size = length-replicate {A = ℕ} buckets 0;
    balance = rw (total-replicate buckets) refl;
  }

  -- The number of finite samples since the statistics were last emptied.
  abbrev pub finite_samples : List (Call M) → ℕ → ℕ
  finite_samples [] n = n
  finite_samples (record_call x ∷ cs) n = finite_samples cs (if M.is_finite x then n + 1 else n)
  finite_samples (reset_call ∷ cs) n = finite_samples cs 0
  finite_samples (snapshot_call ∷ cs) n = finite_samples cs 0

  module _ (zero_not_below : M.less (zero_us M) (zero_us M) ≡ false)
      (bucket_below : (x : M.Double)
        → M.less x (zero_us M) ≡ false
        → M.less x (range_us M) ≡ true
        → bucket_of M x < buckets) where
    non_negative_lem : (x : M.Double) → M.less (non_negative M x) (zero_us M) ≡ false
    non_negative_lem x = elim (Bool-cases (M.less x (zero_us M))) [
      | inl e ↦ rw e zero_not_below
      | inr e ↦ rw e e
    ]

    add_sample-Balanced :
        (x : M.Double) (s : LatStats M)
        → M.less x (zero_us M) ≡ false
        → Balanced s
        → Balanced (add_sample M x s)
    unfolding add_sample
    add_sample-Balanced x s h b = elim (Bool-cases (M.less x (range_us M))) [
      | inl e ↦
          let inside : bucket_of M x < length s.hist = rw b.size (bucket_below x h e) in
          record {
            size = rw e (length-bump (bucket_of M x) s.hist ∙ b.size);
            balance =
                rw e (omega (arith, total-bump (bucket_of M x) s.hist s.over inside, b.balance));
          }
      | inr e ↦ record { size = rw e b.size; balance = rw e (omega (arith, b.balance)) }
    ]

    step-Balanced : (c : Call M) (s : LatStats M) → Balanced s → Balanced (step M c s)
    unfolding record_sample reset snapshot_and_reset
    step-Balanced (record_call x) s b = elim (Bool-cases (M.is_finite x)) [
      | inl e ↦ rw e (add_sample-Balanced (non_negative M x) s (non_negative_lem x) b)
      | inr e ↦ rw e b
    ]
    step-Balanced reset_call s b = empty_stats-Balanced
    step-Balanced snapshot_call s b = empty_stats-Balanced

    run-Balanced : (cs : List (Call M)) (s : LatStats M) → Balanced s → Balanced (run M cs s)
    run-Balanced [] s b = b
    run-Balanced (c ∷ cs) s b = run-Balanced cs (step M c s) (step-Balanced c s b)

    record_sample-count :
        (x : M.Double) (s : LatStats M) (n : ℕ)
        → s.count ≡ n % 2 ^ 64
        → (record_sample M x s).count ≡ (if M.is_finite x then n + 1 else n) % 2 ^ 64
    unfolding record_sample add_sample
    record_sample-count x s n e = elim (Bool-cases (M.is_finite x)) [
      | inl f ↦ rw f (omega (arith, e))
      | inr f ↦ rw f e
    ]

    run-count :
        (cs : List (Call M)) (s : LatStats M) (n : ℕ)
        → s.count ≡ n % 2 ^ 64
        → (run M cs s).count ≡ finite_samples cs n % 2 ^ 64
    unfolding reset snapshot_and_reset
    run-count [] s n e = e
    run-count (record_call x ∷ cs) s n e =
        run-count cs (record_sample M x s) (if M.is_finite x then n + 1 else n)
          (record_sample-count x s n e)
    run-count (reset_call ∷ cs) s n e = run-count cs (empty_stats M) 0 refl
    run-count (snapshot_call ∷ cs) s n e = run-count cs (empty_stats M) 0 refl

    -- After any calls on new statistics, where 0 is not below 0 and a number from 0 to below the
    -- range has its bucket among the thousand: the buckets are still a thousand, and `count`, as
    -- well as the sum of the buckets and of `over`, is the number of finite samples since the
    -- statistics were last emptied, up to the wrap at 2^64.
    pub run_counts :
        (cs : List (Call M))
        → Balanced (run M cs (empty_stats M))
          × ((run M cs (empty_stats M)).count ≡ finite_samples cs 0 % 2 ^ 64)
    run_counts cs =
        (run-Balanced cs (empty_stats M) empty_stats-Balanced, run-count cs (empty_stats M) 0 refl)
