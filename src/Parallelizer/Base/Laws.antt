-- ===== src/Parallelizer/Base/Laws.antt =====
-- Draining loses no item, keeps the order, and does not mix kinds or origins.
use cubetran_core.Prelude.{
  All, All-append, Bool, Bool-cases, List, [], and-true, append_assoc, arith, err, false, inl, inr,
  length, list_beq_sound, list_eq, nat_eq, ok, option_eq, pair_eq, pipeline_error, refl, subst, sym,
  true, ℕ, ◌++◌, ◌+◌, ◌∷◌, ◌≟◌, ◌≡◌, ◌≤◌,
}
use cubetran_core.Meta.DtData.{DtItem, get_data_count, get_data_size, is_ddl}
use cubetran_core.Parallelizer.Base.{
  Counter, Drained, Limiter, bool_eq, drain, drain_loop, joins, no_count, permits, pop,
}

unfoldable pub sizes : List DtItem → ℕ
sizes [] = 0
sizes (item ∷ items) = get_data_size item.dt_data + sizes items

abbrev pub Alike : DtItem → DtItem → Type 0
Alike a b = (is_ddl a.dt_data ≡ is_ddl b.dt_data) × (a.data_origin_node ≡ b.data_origin_node)

-- all items are of the kind and the origin of the first
abbrev pub AllAlike : List DtItem → Type 0
AllAlike [] = Unit
AllAlike (first ∷ rest) = All (Alike first) rest

bool_eq_sound : (a b : Bool) → bool_eq a b ≡ true → a ≡ b
unfolding bool_eq
bool_eq_sound true b h = sym h
bool_eq_sound false true h = cc
bool_eq_sound false false h = refl

AllAlike-snoc :
    (items : List DtItem) (item : DtItem)
    → AllAlike items
    → joins items item ≡ true
    → AllAlike (items ++ item ∷ [])
unfolding joins
AllAlike-snoc [] item a j = tt
AllAlike-snoc (first ∷ rest) item a j =
    let (p, q) =
      and-true (bool_eq (is_ddl first.dt_data) (is_ddl item.dt_data))
        (first.data_origin_node ≟ item.data_origin_node) j in
    All-append (Alike first) rest (item ∷ []) a
      ((bool_eq_sound _ _ p, list_beq_sound first.data_origin_node item.data_origin_node q), tt)

pub record IsDrained (before : List DtItem) (d : Drained) : Type 0 where
  pub whole : d.items ++ (d.poped_data ++ d.queue) ≡ before
  pub alike : AllAlike d.items
  pub at_most_one : length d.poped_data ≤ 1

counted : Counter → DtItem → Counter
counted counter item = record {
  value = counter.value + get_data_size item.dt_data;
  count = counter.count + get_data_count item.dt_data;
}

pop-permitted :
    (limiter : Limiter) (n : ℕ) (item : DtItem) (queue : List DtItem) (counter : Counter)
    → permits limiter n ≡ true
    → pop limiter n (item ∷ queue) counter ≡ ok (item, queue, counted counter item)
unfolding pop counted
pop-permitted limiter n item queue counter h = rw h

pop-denied :
    (limiter : Limiter) (n : ℕ) (item : DtItem) (queue : List DtItem) (counter : Counter)
    → permits limiter n ≡ false
    → pop limiter n (item ∷ queue) counter ≡ err pipeline_error
unfolding pop
pop-denied limiter n item queue counter h = rw h

drain_loop-IsDrained :
    (limiter : Limiter) (n : ℕ) (items : List DtItem) (counter : Counter) (queue : List DtItem)
    → AllAlike items
    → IsDrained (items ++ queue) (drain_loop limiter n items counter queue)
unfolding drain_loop
drain_loop-IsDrained limiter n items counter [] a = record {
  whole = refl;
  alike = a;
  at_most_one = omega arith;
}
drain_loop-IsDrained limiter n items counter (next ∷ queue) a =
    elim (Bool-cases (permits limiter n)) [
      | inr denied ↦
          rw (pop-denied limiter n next queue counter denied, drain_loop)
            (record { whole = refl; alike = a; at_most_one = omega arith })
      | inl allowed ↦ elim (Bool-cases (joins items next)) [
        | inr apart ↦
            rw (pop-permitted limiter n next queue counter allowed, apart, drain_loop)
              (record { whole = refl; alike = a; at_most_one = omega arith })
        | inl together ↦
            rw (pop-permitted limiter n next queue counter allowed, together, drain_loop)
              (subst
                (λ before.
                  IsDrained before
                    (drain_loop limiter (n + 1) (items ++ next ∷ []) (counted counter next) queue))
                (append_assoc items (next ∷ []) queue)
                (drain_loop-IsDrained limiter (n + 1) (items ++ next ∷ []) (counted counter next)
                  queue (AllAlike-snoc items next a together)))
      ]
    ]

-- A drain loses no item and keeps the order: its batch, what it puts aside and what stays in the queue
-- are, in this order, what was put aside before and what was in the queue. The items of the batch are
-- of one kind (ddl or not) and one origin, if the items put aside before were, and at most one item is
-- put aside.
pub drain-IsDrained :
    (limiter : Limiter) (poped_data queue : List DtItem)
    → AllAlike poped_data
    → IsDrained (poped_data ++ queue) (drain limiter poped_data queue)
unfolding drain
drain-IsDrained limiter poped_data queue a =
    drain_loop-IsDrained limiter 0 poped_data no_count queue a
