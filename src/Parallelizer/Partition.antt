-- ===== src/Parallelizer/Partition.antt =====
-- dt-parallelizer/src/rdb_partitioner.rs and partition_parallelizer.rs: a batch split by the hash of
-- each row's partition column. The table's metadata and the hasher are parameters.
pub mod Laws
pub mod Keys
use cubetran_core.Prelude.{
  Bool, List, Option, Result, Text, [], err, false, if◌then◌else◌, leb, list_eq, lookup, ltb,
  nat_eq, none, not, ok, option_eq, pair_eq, panic, replicate, some, suc, true, unwrap, values,
  zero, ℕ, ◌%◌, ◌&&◌, ◌++◌, ◌+◌, ◌>>=◌, ◌>>◌, ◌∷◌,
}
use cubetran_core.Meta.ColValue.{ColValue, hash_code}
use cubetran_core.Meta.RowData.{ColValues, RdbTbMeta, RowData, RowType, key_image, row_type_eq}
use cubetran_core.Meta.DtData.{DtData, DtItem}
use cubetran_core.Parallelizer.Merger.{is_nil, values_eq}
use cubetran_core.Parallelizer.Base.{Counter, Limiter, no_count, pop}
use cubetran_core.Parallelizer.Sinks.{SinkCall, sink_dml}

-- `sub_datas[partition].push(row_data)`
push_into {ℓ} : {A : Type ℓ} → ℕ → A → List (List A) → Result (List (List A))
push_into i item [] = err panic
push_into zero item (sub ∷ subs) = ok ((sub ++ item ∷ []) ∷ subs)
push_into (suc i) item (sub ∷ subs) = do rest ← push_into i item subs; ok (sub ∷ rest)

-- as `usize` on a 64-bit target; a `u64` is kept
pub index_of : (ColValue → ℕ) → ℕ → Option ColValue → ℕ
index_of hasher partition_count none = 0
index_of hasher partition_count (some v) = hash_code hasher v % partition_count

unfoldable pub get_partition_index :
    (ColValue → ℕ) → (Text → Text → Result RdbTbMeta) → RowData → ℕ → Result ℕ
unfolding index_of key_image
get_partition_index hasher get_tb_meta row partition_count =
    if leb partition_count 1 then ok 0 else do
      col_values ← unwrap (key_image row)
      tb_meta ← get_tb_meta row.schema row.tb
      ok (index_of hasher partition_count (lookup tb_meta.partition_col col_values))

pub partition_rows :
    (ColValue → ℕ)
    → (Text → Text → Result RdbTbMeta)
    → ℕ
    → List RowData
    → List (List RowData)
    → Result (List (List RowData))
unfolding get_partition_index push_into
partition_rows hasher get_tb_meta partition_count [] sub_datas = ok sub_datas
partition_rows hasher get_tb_meta partition_count (row ∷ rows) sub_datas = do
  index ← get_partition_index hasher get_tb_meta row partition_count
  sub_datas' ← push_into index row sub_datas
  partition_rows hasher get_tb_meta partition_count rows sub_datas'

unfoldable pub partition :
    (ColValue → ℕ)
    → (Text → Text → Result RdbTbMeta)
    → List RowData
    → ℕ
    → Result (List (List RowData))
unfolding partition_rows
partition hasher get_tb_meta rows partition_count =
    if leb partition_count 1
    then ok (rows ∷ [])
    else partition_rows hasher get_tb_meta partition_count rows (replicate partition_count [])

-- A column that differs. The message for the debug log, whose arguments are evaluated only if that
-- log is on, unwraps the value before the change and the one after it.
differing : Bool → Option ColValue → Option ColValue → Result Bool
differing false before after = ok false
differing true before after = do _ ← unwrap before; _ ← unwrap after; ok false

-- the columns of one key: whether none has changed
unchanged : Bool → List Text → ColValues → ColValues → Result Bool
unfolding values_eq differing
unchanged log_debug [] before after = ok true
unchanged log_debug (col ∷ cols) before after =
    let rest = unchanged log_debug cols before after in
    if values_eq (lookup col before) (lookup col after)
    then rest
    else differing log_debug (lookup col before) (lookup col after)

all_unchanged : Bool → List (List Text) → ColValues → ColValues → Result Bool
unfolding unchanged
all_unchanged log_debug [] before after = ok true
all_unchanged log_debug (key_cols ∷ keys) before after = do
  kept ← unchanged log_debug key_cols before after
  if kept then all_unchanged log_debug keys before after else ok false

unfoldable pub can_be_partitioned : Bool → (Text → Text → Result RdbTbMeta) → RowData → Result Bool
unfolding all_unchanged values_eq row_type_eq is_nil
can_be_partitioned log_debug get_tb_meta row =
    if not (row_type_eq row.row_type RowType.update) then ok true else do
      tb_meta ← get_tb_meta row.schema row.tb
      before ← unwrap row.before
      after ← unwrap row.after
      kept ← all_unchanged log_debug (values tb_meta.key_map) before after
      if not kept
          then ok false
          else if is_nil tb_meta.key_map
              && not (
                  values_eq (lookup tb_meta.partition_col before)
                    (lookup tb_meta.partition_col after))
          then ok false
          else ok true

-- the items of a batch, and what is left of the queue
pub record Taken : Type 0 where
  pub items : List DtItem
  pub queue : List DtItem
  pub counter : Counter

-- `partition_parallelizer.rs`: what the loop does with a popped item. It goes on (`true`) or breaks.
goes_on : Bool → (Text → Text → Result RdbTbMeta) → ℕ → RowData → Result Bool
unfolding can_be_partitioned
goes_on log_debug get_tb_meta parallel_size row =
    if ltb 1 parallel_size then can_be_partitioned log_debug get_tb_meta row else ok true

judge :
    Bool
    → (Text → Text → Result RdbTbMeta)
    → ℕ
    → DtItem
    → DtData
    → List DtItem
    → Result (List DtItem × Bool)
unfolding goes_on
judge log_debug get_tb_meta parallel_size item (DtData.dml row) items = do
  goes ← goes_on log_debug get_tb_meta parallel_size row
  ok (items ++ item ∷ [], goes)
judge log_debug get_tb_meta parallel_size item (DtData.commit xid) items =
    ok (items ++ item ∷ [], true)
judge log_debug get_tb_meta parallel_size item _ items = ok (items, true)

partition_drain_loop :
    Bool
    → (Text → Text → Result RdbTbMeta)
    → Limiter
    → ℕ
    → ℕ
    → List DtItem
    → Counter
    → List DtItem
    → Result Taken
unfolding judge
partition_drain_loop log_debug get_tb_meta limiter parallel_size n items counter [] =
    ok (record { items = items; queue = []; counter = counter })
partition_drain_loop log_debug get_tb_meta limiter parallel_size n items counter (next ∷ queue) =
    elim (pop limiter n (next ∷ queue) counter) [
      | err _ ↦ ok (record { items = items; queue = next ∷ queue; counter = counter })
      | ok (item, rest, counter') ↦ do
        (items', goes) ← judge log_debug get_tb_meta parallel_size item item.dt_data items
        let more =
            partition_drain_loop log_debug get_tb_meta limiter parallel_size (n + 1) items' counter'
              queue
        if goes then more else ok (record { items = items'; queue = rest; counter = counter' })
    ]

unfoldable pub partition_drain :
    Bool → (Text → Text → Result RdbTbMeta) → Limiter → ℕ → List DtItem → Result Taken
unfolding partition_drain_loop pop
partition_drain log_debug get_tb_meta limiter parallel_size queue =
    partition_drain_loop log_debug get_tb_meta limiter parallel_size 0 [] no_count queue

unfoldable pub partition_sink_dml :
    (ColValue → ℕ)
    → (Text → Text → Result RdbTbMeta)
    → List RowData
    → ℕ
    → ℕ
    → Result (List (SinkCall RowData))
unfolding partition sink_dml
partition_sink_dml hasher get_tb_meta rows sinker_count parallel_size = do
  sub_datas ← partition hasher get_tb_meta rows parallel_size
  sink_dml sub_datas sinker_count parallel_size false
