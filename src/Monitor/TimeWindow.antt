-- ===== src/Monitor/TimeWindow.antt =====
-- dt-common/src/monitor/time_window_counter.rs and counter.rs. Instants are nanoseconds on a clock that
-- does not go back; one call reads the clock once, at `now`. `usize` sums are not bounded.
pub mod Laws
pub mod Peak
pub mod Sums
mod Tests
use cubetran_core.Prelude.{
  List, [], drop, if◌then◌else◌, leb, length, list_eq, ltb, max, nat_eq, option_eq, pair_eq, suc, ℕ,
  ◌++◌, ◌+◌, ◌-◌, ◌/◌, ◌==◌, ◌∷◌,
}

pub record TimedCounter : Type 0 where
  pub timestamp : ℕ
  pub value : ℕ
  pub count : ℕ

pub record TimeWindowCounter : Type 0 where
  pub time_window_secs : ℕ
  pub max_sub_count : ℕ
  pub counters : List TimedCounter

pub record Statistics : Type 0 where
  pub sum : ℕ
  pub max_value : ℕ
  pub max_by_sec : ℕ
  pub count : ℕ
  pub avg_by_count : ℕ
  pub avg_by_sec : ℕ

-- `timestamp.elapsed().as_secs()`
unfoldable pub elapsed_secs : ℕ → TimedCounter → ℕ
elapsed_secs now counter = (now - counter.timestamp) / 1000000000

-- `while self.counters.len() > self.max_sub_count`
trim : ℕ → List TimedCounter → List TimedCounter
trim max_sub_count [] = []
trim max_sub_count (counter ∷ counters) =
    let rest = trim max_sub_count counters in
    if ltb max_sub_count (length (counter ∷ counters)) then rest else counter ∷ counters

unfoldable pub add : TimeWindowCounter → ℕ → ℕ → ℕ → TimeWindowCounter
unfolding trim
add window now value count = record window {
  counters =
      trim window.max_sub_count window.counters
      ++ record { timestamp = now; value = value; count = count } ∷ [];
}

outdate_count : ℕ → ℕ → List TimedCounter → ℕ
unfolding elapsed_secs
outdate_count now time_window_secs [] = 0
outdate_count now time_window_secs (counter ∷ counters) =
    let rest = outdate_count now time_window_secs counters in
    if leb time_window_secs (elapsed_secs now counter) then suc rest else 0

unfoldable pub refresh_window : ℕ → TimeWindowCounter → TimeWindowCounter
unfolding outdate_count
refresh_window now window = record window {
  counters = drop (outdate_count now window.time_window_secs window.counters) window.counters;
}

-- the loop's state: the statistics, `sum_in_current_sec` and `current_elapsed_secs`
pub record Scan : Type 0 where
  pub statistics : Statistics
  pub sum_in_current_sec : ℕ
  pub current_elapsed_secs : ℕ

scan_step : ℕ → Scan → TimedCounter → Scan
unfolding elapsed_secs
scan_step now scan counter =
    let s = scan.statistics in
    let s' = record s {
      sum = s.sum + counter.value;
      count = s.count + counter.count;
      max_value = max s.max_value counter.value;
    } in
    if scan.current_elapsed_secs == elapsed_secs now counter
    then record scan {
      statistics = s';
      sum_in_current_sec = scan.sum_in_current_sec + counter.value;
    }
    else record {
      statistics = record s' { max_by_sec = max s.max_by_sec scan.sum_in_current_sec };
      sum_in_current_sec = counter.value;
      current_elapsed_secs = elapsed_secs now counter;
    }

pub scan_all : ℕ → Scan → List TimedCounter → Scan
unfolding scan_step
scan_all now scan [] = scan
scan_all now scan (counter ∷ counters) = scan_all now (scan_step now scan counter) counters

avg_by_time : ℕ → List TimedCounter → ℕ → ℕ → ℕ
unfolding elapsed_secs
avg_by_time now [] sum before = before
avg_by_time now (first_counter ∷ counters) sum before = sum / max (elapsed_secs now first_counter) 1

averages : ℕ → List TimedCounter → Statistics → Statistics
unfolding avg_by_time
averages now counters s =
    if ltb 0 s.count
    then record s {
      avg_by_count = s.sum / s.count;
      avg_by_sec = avg_by_time now counters s.sum s.avg_by_sec;
    }
    else s

abbrev pub no_statistics : Statistics
no_statistics = record {
  sum = 0;
  max_value = 0;
  max_by_sec = 0;
  count = 0;
  avg_by_count = 0;
  avg_by_sec = 0;
}

abbrev pub no_scan : Scan
no_scan = record { statistics = no_statistics; sum_in_current_sec = 0; current_elapsed_secs = 0 }

-- the statistics of the counters that are left
statistics_of : ℕ → List TimedCounter → Statistics
unfolding scan_all averages
statistics_of now counters =
    let scan = scan_all now no_scan counters in
    let s = scan.statistics in
    averages now counters (record s { max_by_sec = max s.max_by_sec scan.sum_in_current_sec })

unfoldable pub statistics : ℕ → TimeWindowCounter → Statistics
unfolding refresh_window statistics_of
statistics now window = statistics_of now (refresh_window now window).counters
