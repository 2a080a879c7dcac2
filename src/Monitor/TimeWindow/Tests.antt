-- ===== src/Monitor/TimeWindow/Tests.antt =====
-- The theorems on the time window at concrete inputs.
use cubetran_core.Prelude.{
  All, List, [], arith, length, list_eq, nat_eq, option_eq, pair_eq, refl, ℕ, ◌*◌, ◌++◌, ◌∷◌, ◌≡◌,
  ◌≤◌,
}
use cubetran_core.Monitor.TimeWindow.{
  TimeWindowCounter, TimedCounter, add, refresh_window, statistics,
}
use cubetran_core.Monitor.TimeWindow.Laws.{BeginsInside, IsOutdated, add_lem, refresh_window_lem}
use cubetran_core.Monitor.TimeWindow.Sums.{AreStatistics, statistics-AreStatistics}

abbrev second : ℕ
second = 1000000000

abbrev made : ℕ → ℕ → TimedCounter
made secs value = record { timestamp = secs * second; value = value; count = 2 }

abbrev window : TimeWindowCounter
window = record {
  time_window_secs = 10;
  max_sub_count = 3;
  counters = made 0 5 ∷ made 12 7 ∷ made 12 9 ∷ made 14 1 ∷ [];
}

add_lem_example :
    ((add window (15 * second) 4 2).counters ≡ made 12 7 ∷ made 12 9 ∷ made 14 1 ∷ made 15 4 ∷ [])
    × (length (add window (15 * second) 4 2).counters ≤ 4)
add_lem_example = add_lem window (15 * second) 4 2

refresh_window_lem_example :
    (dropped : List TimedCounter) × (window.counters
      ≡ dropped ++ (refresh_window (15 * second) window).counters)
    × All (IsOutdated (15 * second) 10) dropped
    × BeginsInside (15 * second) 10 (refresh_window (15 * second) window).counters
refresh_window_lem_example = refresh_window_lem (15 * second) window

statistics-AreStatistics_example :
    AreStatistics
      (15 * second)
      (refresh_window (15 * second) window).counters
      (statistics (15 * second) window)
statistics-AreStatistics_example = statistics-AreStatistics (15 * second) window (
  (omega arith, (omega arith, (omega arith, tt))),
  ((omega arith, (omega arith, tt)), ((omega arith, tt), (tt, tt))),
)

two_in_a_second : (statistics (15 * second) window).max_by_sec ≡ 16
unfolding statistics
two_in_a_second = refl
