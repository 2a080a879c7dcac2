-- ===== src/Parallelizer/Base.antt =====
-- dt-parallelizer/src/base_parallelizer.rs: draining the queue into a batch. The queue is the list of
-- the items that the drain's pops meet before the queue is found empty; `DtQueue` has its byte count.
-- The rate limiter, a third-party object, is the parameter: whether its n-th `try_wait` succeeds.
pub mod Laws
use cubetran_core.Prelude.{
  Bool, List, Option, Result, [], err, false, if◌then◌else◌, leb, length, list_eq, nat_eq, none,
  not, ok, option_eq, pair_eq, pipeline_error, some, true, ℕ, ◌&&◌, ◌++◌, ◌+◌, ◌∷◌, ◌≟◌,
}
use cubetran_core.Meta.DtData.{DtItem, get_data_count, get_data_size, is_ddl}

-- `None`, or the answers of `try_wait`
abbrev pub Limiter : Type 0
Limiter = Option (ℕ → Bool)

-- monitor/counter.rs, without the time stamp
pub record Counter : Type 0 where
  pub value : ℕ
  pub count : ℕ

pub record Drained : Type 0 where
  pub items : List DtItem
  pub poped_data : List DtItem
  pub queue : List DtItem
  pub counter : Counter

permits : Limiter → ℕ → Bool
permits none n = true
permits (some try_wait) n = try_wait n

-- `pop`, the n-th of a drain: an item, what is left of the queue, and the counter with it added
unfoldable pub pop : Limiter → ℕ → List DtItem → Counter → Result (DtItem × List DtItem × Counter)
unfolding permits
pop limiter n [] counter = err pipeline_error
pop limiter n (item ∷ queue) counter =
    if permits limiter n
    then ok (
      item,
      queue,
      record {
        value = counter.value + get_data_size item.dt_data;
        count = counter.count + get_data_count item.dt_data;
      },
    )
    else err pipeline_error

bool_eq : Bool → Bool → Bool
bool_eq true b = b
bool_eq false b = not b

-- ddls and dmls are drained separately, and so are the items of different origins
pub joins : List DtItem → DtItem → Bool
unfolding bool_eq
joins [] item = true
joins (first ∷ rest) item =
    bool_eq (is_ddl first.dt_data) (is_ddl item.dt_data)
    && first.data_origin_node ≟ item.data_origin_node

-- the `while` loop of `drain`
drain_loop : Limiter → ℕ → List DtItem → Counter → List DtItem → Drained
drain_loop limiter n items counter [] = record {
  items = items;
  poped_data = [];
  queue = [];
  counter = counter;
}
drain_loop limiter n items counter (next ∷ queue) = elim (pop limiter n (next ∷ queue) counter) [
  | err _ ↦ record { items = items; poped_data = []; queue = next ∷ queue; counter = counter }
  | ok (item, rest, counter') ↦
      if joins items item
      then drain_loop limiter (n + 1) (items ++ item ∷ []) counter' queue
      else record { items = items; poped_data = item ∷ []; queue = rest; counter = counter' }
]

abbrev pub no_count : Counter
no_count = record { value = 0; count = 0 }

-- what was put aside by the last drain comes first
unfoldable pub drain : Limiter → List DtItem → List DtItem → Drained
unfolding drain_loop pop joins
drain limiter poped_data queue = drain_loop limiter 0 poped_data no_count queue

drain_count_loop : Limiter → ℕ → ℕ → List DtItem → Counter → List DtItem → Drained
drain_count_loop limiter max_count n items counter [] = record {
  items = items;
  poped_data = [];
  queue = [];
  counter = counter;
}
drain_count_loop limiter max_count n items counter (next ∷ queue) =
    elim (pop limiter n (next ∷ queue) counter) [
      | err _ ↦ record { items = items; poped_data = []; queue = next ∷ queue; counter = counter }
      | ok (item, rest, counter') ↦
          let items' = items ++ item ∷ [] in
          let more = drain_count_loop limiter max_count (n + 1) items' counter' queue in
          if leb max_count (length items')
          then record { items = items'; poped_data = []; queue = rest; counter = counter' }
          else more
    ]

unfoldable pub drain_by_count : Limiter → ℕ → List DtItem → Drained
unfolding drain_count_loop pop
drain_by_count limiter max_count queue = drain_count_loop limiter max_count 0 [] no_count queue
