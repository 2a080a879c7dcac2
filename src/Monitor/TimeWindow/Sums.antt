-- ===== src/Monitor/TimeWindow/Sums.antt =====
-- The statistics of a window, against sums over its counters.
use cubetran_core.Prelude.{
  Bool-cases, List, [], ap, arith, false, if◌then◌else◌, inl, inr, list_eq, ltb, max, nat_eq,
  option_eq, pair_eq, refl, sym, true, ℕ, ◌+◌, ◌/◌, ◌==◌, ◌∙◌, ◌∷◌, ◌≡◌, ◌≤◌,
}
use cubetran_core.Monitor.TimeWindow.{
  Scan, Statistics, TimeWindowCounter, TimedCounter, averages, avg_by_time, elapsed_secs, no_scan,
  refresh_window, scan_all, scan_step, statistics, statistics_of,
}
use cubetran_core.Monitor.TimeWindow.Peak.{
  OldestFirst, drop-OldestFirst, no_scan-IsPeak, peak, peak_total, total_at,
}

pub total_value : List TimedCounter → ℕ
total_value [] = 0
total_value (c ∷ counters) = c.value + total_value counters

pub total_count : List TimedCounter → ℕ
total_count [] = 0
total_count (c ∷ counters) = c.count + total_count counters

pub largest_value : List TimedCounter → ℕ
largest_value [] = 0
largest_value (c ∷ counters) = max c.value (largest_value counters)

scan_step-adds :
    (now : ℕ) (scan : Scan) (c : TimedCounter)
    → ((scan_step now scan c).statistics.sum ≡ scan.statistics.sum + c.value)
      × ((scan_step now scan c).statistics.count ≡ scan.statistics.count + c.count)
      × ((scan_step now scan c).statistics.max_value ≡ max scan.statistics.max_value c.value)
      × ((scan_step now scan c).statistics.avg_by_count ≡ scan.statistics.avg_by_count)
      × ((scan_step now scan c).statistics.avg_by_sec ≡ scan.statistics.avg_by_sec)
unfolding scan_step
scan_step-adds now scan c = elim (Bool-cases (scan.current_elapsed_secs == elapsed_secs now c)) [
  | inl same ↦ rw same (refl, refl, refl, refl, refl)
  | inr other ↦ rw other (refl, refl, refl, refl, refl)
]

scan_all-adds :
    (now : ℕ) (scan : Scan) (counters : List TimedCounter)
    → let s = (scan_all now scan counters).statistics in
      (s.sum ≡ scan.statistics.sum + total_value counters)
      × (s.count ≡ scan.statistics.count + total_count counters)
      × (s.max_value ≡ max scan.statistics.max_value (largest_value counters))
      × (s.avg_by_count ≡ scan.statistics.avg_by_count)
      × (s.avg_by_sec ≡ scan.statistics.avg_by_sec)
unfolding scan_all total_value total_count largest_value
scan_all-adds now scan [] = (omega arith, omega arith, omega arith, refl, refl)
scan_all-adds now scan (c ∷ counters) =
    let (s, n, m, a, b) = scan_step-adds now scan c in
    let (s', n', m', a', b') = scan_all-adds now (scan_step now scan c) counters in
    (omega (arith, s, s'), omega (arith, n, n'), omega (arith, m, m'), a' ∙ a, b' ∙ b)

-- the seconds that an average is over: those since the oldest counter, and one at least
abbrev pub age : ℕ → List TimedCounter → ℕ
age now [] = 1
age now (c ∷ counters) = max (elapsed_secs now c) 1

-- What is promised of the statistics of these counters.
pub record AreStatistics (now : ℕ) (counters : List TimedCounter) (s : Statistics) : Type 0 where
  pub sums : s.sum ≡ total_value counters
  pub counts : s.count ≡ total_count counters
  pub largest : s.max_value ≡ largest_value counters
  pub no_second_more : (sec : ℕ) → total_at now sec counters ≤ s.max_by_sec
  pub some_second : (sec : ℕ) × (s.max_by_sec ≡ total_at now sec counters)
  pub average :
      s.avg_by_count
      ≡ (if ltb 0 (total_count counters) then total_value counters / total_count counters else 0)
  pub average_by_sec :
      s.avg_by_sec
      ≡ (if ltb 0 (total_count counters) then total_value counters / age now counters else 0)

avg_by_time_lem :
    (now : ℕ) (counters : List TimedCounter) (sum before : ℕ)
    → ltb 0 (total_count counters) ≡ true
    → avg_by_time now counters sum before ≡ sum / age now counters
unfolding avg_by_time total_count
avg_by_time_lem now [] sum before h = cc
avg_by_time_lem now (c ∷ counters) sum before h = refl

averages_lem :
    (now : ℕ) (counters : List TimedCounter) (s : Statistics)
    → s.sum ≡ total_value counters
    → s.count ≡ total_count counters
    → s.avg_by_count ≡ 0
    → s.avg_by_sec ≡ 0
    → s.max_value ≡ largest_value counters
    → ((sec : ℕ) → total_at now sec counters ≤ s.max_by_sec)
    → (sec : ℕ) × (s.max_by_sec ≡ total_at now sec counters)
    → AreStatistics now counters (averages now counters s)
unfolding averages
averages_lem now counters s sum count a b most no_more reached = elim (Bool-cases (ltb 0 s.count)) [
  | inl counted ↦
      let counted' : ltb 0 (total_count counters) ≡ true = sym (ap (ltb 0) count) ∙ counted in
      rw counted (record {
        sums = sum;
        counts = count;
        largest = most;
        no_second_more = no_more;
        some_second = reached;
        average = rw (counted', sum, count) refl;
        average_by_sec = rw counted' (
            avg_by_time_lem now counters s.sum s.avg_by_sec counted'
            ∙ ap (λ n. n / age now counters) sum);
      })
  | inr empty ↦
      let empty' : ltb 0 (total_count counters) ≡ false = sym (ap (ltb 0) count) ∙ empty in
      rw empty (record {
        sums = sum;
        counts = count;
        largest = most;
        no_second_more = no_more;
        some_second = reached;
        average = rw (empty', a) refl;
        average_by_sec = rw (empty', b) refl;
      })
]

-- When the counters are in the order of their times, the statistics are those of the counters in the
-- refreshed window: the sum of their values, the sum of their counts, the largest value, and the
-- largest sum over the counters of one and the same second of age. If the counts are not all 0, the
-- averages are the sum of the values by the sum of the counts, and by the seconds since the oldest
-- counter, but one at least; otherwise they are 0.
pub statistics-AreStatistics :
    (now : ℕ) (window : TimeWindowCounter)
    → OldestFirst window.counters
    → AreStatistics now (refresh_window now window).counters (statistics now window)
unfolding statistics statistics_of
statistics-AreStatistics now window first =
    let counters = (refresh_window now window).counters in
    let scan = scan_all now no_scan counters in
    let p = no_scan-IsPeak now counters (drop-OldestFirst _ window.counters first) in
    let (sum, count, most, a, b) = scan_all-adds now no_scan counters in
    averages_lem now counters (record scan.statistics { max_by_sec = peak scan })
      (omega (arith, sum)) (omega (arith, count)) a b (omega (arith, most))
      (λ sec. omega (arith, p.bounds sec)) (peak_total now counters (peak scan) p)
