-- ===== src/Monitor/TimeWindow/Laws.antt =====
-- The window of a counter, and its statistics.
use cubetran_core.Prelude.{
  All, Bool-cases, List, [], ap, arith, drop, inl, inr, leb, leb→le, length, length-append, list_eq,
  ltb, nat_eq, option_eq, pair_eq, refl, suc, ℕ, ◌++◌, ◌+◌, ◌-◌, ◌<◌, ◌∷◌, ◌≡◌, ◌≤◌,
}
use cubetran_core.Monitor.TimeWindow.{
  TimeWindowCounter, TimedCounter, add, elapsed_secs, outdate_count, refresh_window, trim,
}

trim-le : (most : ℕ) (counters : List TimedCounter) → length (trim most counters) ≤ most
unfolding trim
trim-le most [] = omega arith
trim-le most (c ∷ counters) = elim (Bool-cases (ltb most (length (c ∷ counters)))) [
  | inl more ↦ rw (more, trim) (trim-le most counters)
  | inr few ↦ rw (few, trim) (ground arith)
]

trim-drop :
    (most : ℕ) (counters : List TimedCounter)
    → trim most counters ≡ drop (length counters - most) counters
unfolding trim
trim-drop most [] = let nothing : 0 - most ≡ 0 = omega arith in rw nothing refl
trim-drop most (c ∷ counters) = elim (Bool-cases (ltb most (length (c ∷ counters)))) [
  | inl more ↦
      let one_more : suc (length counters) - most ≡ suc (length counters - most) = ground arith in
      rw (more, trim, one_more) (trim-drop most counters)
  | inr few ↦
      let none_over : suc (length counters) - most ≡ 0 = ground arith in
      rw (few, trim, none_over) refl
]

-- Adding a counter drops as many of the oldest ones as there are above `max_sub_count`, and no more,
-- and puts the new one at the end; so there may be one more than `max_sub_count` after it.
pub add_lem :
    (window : TimeWindowCounter) (now value count : ℕ)
    → ((add window now value count).counters
        ≡ drop (length window.counters - window.max_sub_count) window.counters
          ++ record { timestamp = now; value = value; count = count } ∷ [])
      × (length (add window now value count).counters ≤ window.max_sub_count + 1)
unfolding add
add_lem window now value count = (
  rw (trim-drop window.max_sub_count window.counters) refl,
  omega (
    arith,
    length-append (trim window.max_sub_count window.counters)
        (record { timestamp = now; value = value; count = count } ∷ []),
    trim-le window.max_sub_count window.counters,
  ),
)

-- outside the window
abbrev pub IsOutdated : ℕ → ℕ → TimedCounter → Type 0
IsOutdated now time_window_secs c = time_window_secs ≤ elapsed_secs now c

abbrev pub BeginsInside : ℕ → ℕ → List TimedCounter → Type 0
BeginsInside now time_window_secs [] = Unit
BeginsInside now time_window_secs (c ∷ counters) = elapsed_secs now c < time_window_secs

outdate_count-cuts :
    (now time_window_secs : ℕ) (counters : List TimedCounter)
    → (dropped : List TimedCounter) × (counters
        ≡ dropped ++ drop (outdate_count now time_window_secs counters) counters)
      × All (IsOutdated now time_window_secs) dropped
      × BeginsInside now time_window_secs
          (drop (outdate_count now time_window_secs counters) counters)
unfolding outdate_count
outdate_count-cuts now secs [] = ([], refl, tt, tt)
outdate_count-cuts now secs (c ∷ counters) = elim (Bool-cases (leb secs (elapsed_secs now c))) [
  | inl old ↦
      let (dropped, same, outdated, inside) = outdate_count-cuts now secs counters in
      rw (old, outdate_count)
        (c ∷ dropped, ap (◌∷◌ c) same, (leb→le secs (elapsed_secs now c) old, outdated), inside)
  | inr new ↦ rw (new, outdate_count) ([], refl, tt, ground arith)
]

-- Refreshing drops the counters at the front that are outside the window, and no other: all that it
-- drops are outside, and what is left begins inside, if anything is left.
pub refresh_window_lem :
    (now : ℕ) (window : TimeWindowCounter)
    → (dropped : List TimedCounter) × (window.counters
        ≡ dropped ++ (refresh_window now window).counters)
      × All (IsOutdated now window.time_window_secs) dropped
      × BeginsInside now window.time_window_secs (refresh_window now window).counters
unfolding refresh_window
refresh_window_lem now window = outdate_count-cuts now window.time_window_secs window.counters
