-- ===== src/Monitor/TimeWindow/Peak.antt =====
-- The loop of `statistics`: its largest sum by second, where the counters stand in the order of their
-- times.
use cubetran_core.Prelude.{
  ==_iff, All, Bool-cases, List, [], ap, arith, drop, false, if◌then◌else◌, inl, inr, list_eq, ltb,
  max, nat_eq, option_eq, pair_eq, refl, subst, suc, sym, true, zero, ℕ, ◌+◌, ◌<◌, ◌==◌, ◌∙◌, ◌∷◌,
  ◌≡◌, ◌≤◌, ◌⊎◌,
}
use cubetran_core.Monitor.TimeWindow.{
  Scan, TimedCounter, elapsed_secs, no_scan, scan_all, scan_step,
}

-- `value`, if `secs` is the second that is asked for
unfoldable pub when_at : ℕ → ℕ → ℕ → ℕ
when_at sec secs value = if secs == sec then value else 0

when_at-hit : (sec secs value : ℕ) → (secs == sec) ≡ true → when_at sec secs value ≡ value
unfolding when_at
when_at-hit sec secs value h = rw h refl

when_at-miss : (sec secs value : ℕ) → (secs == sec) ≡ false → when_at sec secs value ≡ 0
unfolding when_at
when_at-miss sec secs value h = rw h refl

-- the values of the counters that are `sec` seconds old
unfoldable pub total_at : ℕ → ℕ → List TimedCounter → ℕ
total_at now sec [] = 0
total_at now sec (c ∷ counters) =
    when_at sec (elapsed_secs now c) c.value + total_at now sec counters

-- the oldest counter first
abbrev pub OldestFirst : List TimedCounter → Type 0
OldestFirst [] = Unit
OldestFirst (c ∷ counters) = All (λ d. c.timestamp ≤ d.timestamp) counters × OldestFirst counters

pub drop-OldestFirst :
    (n : ℕ) (counters : List TimedCounter) → OldestFirst counters → OldestFirst (drop n counters)
drop-OldestFirst zero counters h = h
drop-OldestFirst (suc n) [] h = tt
drop-OldestFirst (suc n) (c ∷ counters) (first, h) = drop-OldestFirst n counters h

-- the counters are no older than `secs` seconds, and the oldest come first
abbrev Aging : ℕ → ℕ → List TimedCounter → Type 0
Aging now secs [] = Unit
Aging now secs (c ∷ counters) =
    (elapsed_secs now c ≤ secs) × Aging now (elapsed_secs now c) counters

elapsed_secs-≤ :
    (now : ℕ) (c d : TimedCounter)
    → c.timestamp ≤ d.timestamp
    → elapsed_secs now d ≤ elapsed_secs now c
unfolding elapsed_secs
elapsed_secs-≤ now c d h = omega arith

OldestFirst-Aging :
    (now : ℕ) (c : TimedCounter) (counters : List TimedCounter)
    → OldestFirst (c ∷ counters)
    → Aging now (elapsed_secs now c) counters
OldestFirst-Aging now c [] h = tt
OldestFirst-Aging now c (d ∷ counters) ((first, _), h) =
    (elapsed_secs-≤ now c d first, OldestFirst-Aging now d counters h)

-- nothing is older than the oldest
total_at-older :
    (now secs sec : ℕ) (counters : List TimedCounter)
    → Aging now secs counters
    → secs < sec
    → total_at now sec counters ≡ 0
unfolding total_at
total_at-older now secs sec [] h lt = refl
total_at-older now secs sec (c ∷ counters) (young, h) lt = omega (
  arith,
  when_at-miss sec (elapsed_secs now c) c.value (ground arith),
  total_at-older now (elapsed_secs now c) sec counters h (omega arith),
)

-- what the loop has for a second, with what is to come
abbrev pub pending : ℕ → Scan → List TimedCounter → ℕ → ℕ
pending now scan counters sec =
    when_at sec scan.current_elapsed_secs scan.sum_in_current_sec + total_at now sec counters

abbrev pub peak : Scan → ℕ
peak scan = max scan.statistics.max_by_sec scan.sum_in_current_sec

-- The loop ends with the largest of what it had and of the sums of the seconds.
pub record IsPeak (now : ℕ) (scan : Scan) (counters : List TimedCounter) (most : ℕ) : Type 0 where
  pub had : scan.statistics.max_by_sec ≤ most
  pub bounds : (sec : ℕ) → pending now scan counters sec ≤ most
  pub attained :
      (most ≡ scan.statistics.max_by_sec) ⊎ ((sec : ℕ) × (most ≡ pending now scan counters sec))

-- A new second begins only when nothing more is to come for the last one, or nothing has come for it.
abbrev IsNew : ℕ → Scan → TimedCounter → List TimedCounter → Type 0
IsNew now scan c counters =
    (scan.sum_in_current_sec ≡ 0) ⊎ (Aging now scan.current_elapsed_secs (c ∷ counters))

same_pending :
    (now : ℕ) (scan : Scan) (c : TimedCounter) (counters : List TimedCounter) (sec : ℕ)
    → (scan.current_elapsed_secs == elapsed_secs now c) ≡ true
    → when_at sec scan.current_elapsed_secs (scan.sum_in_current_sec + c.value)
        + total_at now sec counters
      ≡ pending now scan (c ∷ counters) sec
unfolding total_at when_at
same_pending now scan c counters sec same =
    rw (sym ((==_iff scan.current_elapsed_secs (elapsed_secs now c)).0 same)) (ground arith)

same_step :
    (now : ℕ) (scan : Scan) (c : TimedCounter) (counters : List TimedCounter) (most : ℕ)
    → (scan.current_elapsed_secs == elapsed_secs now c) ≡ true
    → IsPeak now (scan_step now scan c) counters most
    → IsPeak now scan (c ∷ counters) most
unfolding scan_step
same_step now scan c counters most same = rw same λ p. record {
  had = p.had;
  bounds = λ sec. rw (sym (same_pending now scan c counters sec same)) (p.bounds sec);
  attained = elim p.attained [
    | inl e ↦ inl e
    | inr (sec, e) ↦ inr (sec, e ∙ same_pending now scan c counters sec same)
  ];
}

nothing_left :
    (now : ℕ) (scan : Scan) (c : TimedCounter) (counters : List TimedCounter)
    → (scan.current_elapsed_secs == elapsed_secs now c) ≡ false
    → IsNew now scan c counters
    → (scan.sum_in_current_sec ≡ 0) ⊎ (total_at now scan.current_elapsed_secs (c ∷ counters) ≡ 0)
nothing_left now scan c counters other (inl none_yet) = inl none_yet
nothing_left now scan c counters other (inr (young, h)) = inr (
    total_at-older now (elapsed_secs now c) scan.current_elapsed_secs (c ∷ counters)
      (omega arith, h) (ground arith))

other_step :
    (now : ℕ) (scan : Scan) (c : TimedCounter) (counters : List TimedCounter) (most : ℕ)
    → (scan.current_elapsed_secs == elapsed_secs now c) ≡ false
    → (scan.sum_in_current_sec ≡ 0) ⊎ (total_at now scan.current_elapsed_secs (c ∷ counters) ≡ 0)
    → IsPeak now (scan_step now scan c) counters most
    → IsPeak now scan (c ∷ counters) most
unfolding scan_step total_at
other_step now scan c counters most other left = rw other λ p. record {
  had = omega (arith, p.had);
  bounds = λ sec. elim (Bool-cases (scan.current_elapsed_secs == sec)) [
    | inl hit ↦ elim left [
      | inl nothing ↦ omega (arith, at_hit sec hit, at_same sec hit, p.bounds sec)
      | inr nothing ↦ omega (arith, at_hit sec hit, at_same sec hit, p.had)
    ]
    | inr miss ↦ omega (arith, at_miss sec miss, p.bounds sec)
  ];
  attained = elim p.attained [
    | inl e ↦ elim (Bool-cases (ltb scan.statistics.max_by_sec scan.sum_in_current_sec)) [
      | inl more ↦ elim left [
        | inl nothing ↦ absurd (ground arith)
        | inr nothing ↦ inr (
          scan.current_elapsed_secs,
          ground (arith, at_hit scan.current_elapsed_secs (ground arith)),
        )
      ]
      | inr fewer ↦ inl (ground arith)
    ]
    | inr (sec, e) ↦ elim (Bool-cases (scan.current_elapsed_secs == sec)) [
      | inl hit ↦ elim left [
        | inl nothing ↦ inr (sec, omega (arith, at_hit sec hit))
        | inr nothing ↦ inr (sec, omega (arith, at_hit sec hit, at_same sec hit, p.had))
      ]
      | inr miss ↦ inr (sec, omega (arith, at_miss sec miss))
    ]
  ];
}
  where
    at_hit :
        (sec : ℕ)
        → (scan.current_elapsed_secs == sec) ≡ true
        → when_at sec scan.current_elapsed_secs scan.sum_in_current_sec ≡ scan.sum_in_current_sec
    at_hit sec = when_at-hit sec scan.current_elapsed_secs scan.sum_in_current_sec

    at_miss :
        (sec : ℕ)
        → (scan.current_elapsed_secs == sec) ≡ false
        → when_at sec scan.current_elapsed_secs scan.sum_in_current_sec ≡ 0
    at_miss sec = when_at-miss sec scan.current_elapsed_secs scan.sum_in_current_sec

    at_same :
        (sec : ℕ)
        → (scan.current_elapsed_secs == sec) ≡ true
        → total_at now scan.current_elapsed_secs (c ∷ counters) ≡ total_at now sec (c ∷ counters)
    at_same sec hit =
        ap (λ s. total_at now s (c ∷ counters)) ((==_iff scan.current_elapsed_secs sec).0 hit)

scan_step-IsPeak :
    (now : ℕ) (scan : Scan) (c : TimedCounter) (counters : List TimedCounter) (most : ℕ)
    → IsNew now scan c counters
    → IsPeak now (scan_step now scan c) counters most
    → IsPeak now scan (c ∷ counters) most
scan_step-IsPeak now scan c counters most new =
    elim (Bool-cases (scan.current_elapsed_secs == elapsed_secs now c)) [
      | inl same ↦ same_step now scan c counters most same
      | inr other ↦
          other_step now scan c counters most other (nothing_left now scan c counters other new)
    ]

current_secs :
    (now : ℕ) (scan : Scan) (c : TimedCounter)
    → (scan_step now scan c).current_elapsed_secs ≡ elapsed_secs now c
unfolding scan_step
current_secs now scan c = elim (Bool-cases (scan.current_elapsed_secs == elapsed_secs now c)) [
  | inl same ↦ rw same ((==_iff scan.current_elapsed_secs (elapsed_secs now c)).0 same)
  | inr other ↦ rw other refl
]

scan_all-IsPeak :
    (now : ℕ) (scan : Scan) (counters : List TimedCounter)
    → Aging now scan.current_elapsed_secs counters
    → IsPeak now scan counters (peak (scan_all now scan counters))
unfolding scan_all total_at
scan_all-IsPeak now scan [] h = record {
  had = omega arith;
  bounds = λ sec. elim (Bool-cases (scan.current_elapsed_secs == sec)) [
    | inl hit ↦ omega (arith, when_at-hit sec scan.current_elapsed_secs scan.sum_in_current_sec hit)
    | inr miss ↦
        omega (arith, when_at-miss sec scan.current_elapsed_secs scan.sum_in_current_sec miss)
  ];
  attained = elim (Bool-cases (ltb scan.statistics.max_by_sec scan.sum_in_current_sec)) [
    | inl more ↦
        let sec = scan.current_elapsed_secs in
        inr (sec, ground (arith, when_at-hit sec sec scan.sum_in_current_sec (ground arith)))
    | inr fewer ↦ inl (ground arith)
  ];
}
scan_all-IsPeak now scan (c ∷ counters) (young, h) =
    scan_step-IsPeak now scan c counters _ (inr (young, h)) (
      scan_all-IsPeak now (scan_step now scan c) counters
        (subst (λ secs. Aging now secs counters) (sym (current_secs now scan c)) h))

pub no_scan-IsPeak :
    (now : ℕ) (counters : List TimedCounter)
    → OldestFirst counters
    → IsPeak now no_scan counters (peak (scan_all now no_scan counters))
unfolding scan_all
no_scan-IsPeak now [] h = scan_all-IsPeak now no_scan [] tt
no_scan-IsPeak now (c ∷ counters) h = scan_step-IsPeak now no_scan c counters _ (inl refl) (
    scan_all-IsPeak now (scan_step now no_scan c) counters (
      subst (λ secs. Aging now secs counters) (sym (current_secs now no_scan c))
        (OldestFirst-Aging now c counters h)))

pub when_at-nothing : (sec secs : ℕ) → when_at sec secs 0 ≡ 0
unfolding when_at
when_at-nothing sec secs = ground arith

pub peak_total :
    (now : ℕ) (counters : List TimedCounter) (most : ℕ)
    → IsPeak now no_scan counters most
    → (sec : ℕ) × (most ≡ total_at now sec counters)
peak_total now counters most p = elim p.attained [
  | inl e ↦ (0, omega (arith, e, p.bounds 0))
  | inr (sec, e) ↦ (sec, omega (arith, e, when_at-nothing sec 0))
]
