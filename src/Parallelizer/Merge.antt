-- ===== src/Parallelizer/Merge.antt =====
-- dt-parallelizer/src/merge_parallelizer.rs: a merged batch is sunk in three passes, the deletes of
-- every table, then the inserts, then the unmerged rows; a pass begins when all tasks of the pass
-- before have ended. A task is the list of the calls that it makes on its sinker, one after the other,
-- and the tasks of a pass, which run concurrently, are listed in the order in which they are started.
-- The merger is an object with a method `merge`, a parameter; so is the metadata.
pub mod Laws
pub mod Passes
use cubetran_core.Prelude.{
  Bool, List, Option, Result, Text, [], drop, err, false, if◌then◌else◌, length, list_eq, ltb, max,
  min, nat_eq, none, not, ok, option_eq, pair_eq, panic, some, suc, take, true, unexpected, zero, ℕ,
  ◌++◌, ◌+◌, ◌-◌, ◌/◌, ◌==◌, ◌>>=◌, ◌>>◌, ◌||◌, ◌∷◌,
}
use cubetran_core.Meta.RowData.{RdbTbMeta, RowData, RowType, row_type_eq}
use cubetran_core.Parallelizer.Merger.{TbMergedData, is_nil, merge}
use cubetran_core.Parallelizer.Sinks.{SinkCall, pick_sinker, sink_dml}

pub data MergeType : Type 0 where
  insert : MergeType
  delete : MergeType
  unmerged : MergeType

abbrev pub Task : Type 0
Task = List (SinkCall RowData)

batch_size_of : ℕ → ℕ → ℕ → Result ℕ
batch_size_of len parallel_size batch_size =
    if parallel_size == 0 then err panic else ok (max (len / parallel_size) (max batch_size 1))

-- `while i < data.len()`, with the number of the tasks started before. With fuel for each row left it
-- does not run out (the error `unexpected`), since `batch_size` is not 0.
pub chunk_loop : ℕ → ℕ → ℕ → ℕ → ℕ → ℕ → List RowData → Result (List Task)
chunk_loop zero sinker_count parallel_size batch_size started i rows =
    if ltb i (length rows) then err unexpected else ok []
chunk_loop (suc fuel) sinker_count parallel_size batch_size started i rows =
    if not (ltb i (length rows)) then ok [] else do
      let sub_size = min batch_size (length rows - i)
      sinker ← pick_sinker sinker_count parallel_size started
      rest ←
          chunk_loop fuel sinker_count parallel_size batch_size (started + 1) (i + batch_size) rows
      ok (
          (record { sinker = sinker; sub_data = take sub_size (drop i rows); batch = true } ∷ [])
          ∷ rest)

-- for Delete / Update, the safest way is serial
unmerged_call : ℕ → RowType → List RowData → SinkCall RowData
unfolding row_type_eq
unmerged_call sinker type run = record {
  sinker = sinker;
  sub_data = run;
  batch = row_type_eq type RowType.insert;
}

-- the loop of `sink_unmerged_rows`: `run` is `data[start..i]`, and `type` the type of its first row
pub runs : ℕ → RowType → List RowData → List RowData → Task
unfolding unmerged_call
runs sinker type run [] = unmerged_call sinker type run ∷ []
runs sinker type run (row ∷ rows) =
    let longer = runs sinker type (run ++ row ∷ []) rows in
    let next = runs sinker row.row_type (row ∷ []) rows in
    if row_type_eq row.row_type type then longer else unmerged_call sinker type run ∷ next

unfoldable pub sink_unmerged_rows : ℕ → List RowData → Task
unfolding runs
sink_unmerged_rows sinker [] = []
sink_unmerged_rows sinker (row ∷ rows) = runs sinker row.row_type (row ∷ []) rows

abbrev pub part_of : MergeType → TbMergedData → List RowData
part_of delete merged = merged.delete_rows
part_of insert merged = merged.insert_rows
part_of unmerged merged = merged.unmerged_rows

-- the tasks for the rows of one table, by `merge_type`
pub tasks_of : MergeType → ℕ → ℕ → ℕ → ℕ → List RowData → Result (List Task)
unfolding chunk_loop sink_unmerged_rows
tasks_of unmerged sinker_count parallel_size batch_size started rows = do
  sinker ← pick_sinker sinker_count parallel_size started
  ok (sink_unmerged_rows sinker rows ∷ [])
tasks_of _ sinker_count parallel_size batch_size started rows =
    chunk_loop (length rows) sinker_count parallel_size batch_size started 0 rows

pub sink_tb : MergeType → ℕ → ℕ → ℕ → ℕ → List RowData → Result (List Task)
unfolding tasks_of batch_size_of is_nil
sink_tb merge_type sinker_count parallel_size batch_size started rows =
    if is_nil rows then ok [] else do
      size ← batch_size_of (length rows) parallel_size batch_size
      tasks_of merge_type sinker_count parallel_size size started rows

-- the loop over the tables
pub sink_tbs : MergeType → ℕ → ℕ → ℕ → ℕ → List TbMergedData → Result (List Task)
unfolding sink_tb
sink_tbs merge_type sinker_count parallel_size batch_size started [] = ok []
sink_tbs merge_type sinker_count parallel_size batch_size started (merged ∷ tb_merged_datas) = do
  tasks ←
      sink_tb merge_type sinker_count parallel_size batch_size started (part_of merge_type merged)
  rest ←
      sink_tbs merge_type sinker_count parallel_size batch_size (started + length tasks)
        tb_merged_datas
  ok (tasks ++ rest)

unfoldable pub sink_dml_internal : MergeType → ℕ → ℕ → ℕ → List TbMergedData → Result (List Task)
unfolding sink_tbs
sink_dml_internal merge_type sinker_count parallel_size batch_size tb_merged_datas =
    sink_tbs merge_type sinker_count parallel_size batch_size 0 tb_merged_datas

-- the check for foreign keys, without a metadata manager and with one
any_fk_row : (Text → Text → Result RdbTbMeta) → List RowData → Result Bool
unfolding is_nil
any_fk_row get_tb_meta [] = ok false
any_fk_row get_tb_meta (row ∷ rows) = do
  tb_meta ← get_tb_meta row.schema row.tb
  if not (is_nil tb_meta.foreign_keys) || not (is_nil tb_meta.ref_by_foreign_keys)
      then ok true
      else any_fk_row get_tb_meta rows

unfoldable pub any_fk_tb : Option (Text → Text → Result RdbTbMeta) → List RowData → Result Bool
unfolding any_fk_row
any_fk_tb none rows = ok false
any_fk_tb (some get_tb_meta) rows = any_fk_row get_tb_meta rows

-- The passes that a batch is sunk in: each has its tasks.
unfoldable pub merge_sink_dml :
    Option (Text → Text → Result RdbTbMeta)
    → (List RowData → Result (List TbMergedData))
    → ℕ
    → ℕ
    → ℕ
    → List RowData
    → Result (List (List Task))
unfolding any_fk_tb sink_dml sink_dml_internal
merge_sink_dml meta_manager merge sinker_count parallel_size batch_size rows = do
  fk ← any_fk_tb meta_manager rows
  if fk then (do calls ← sink_dml (rows ∷ []) sinker_count 1 false; ok ((calls ∷ []) ∷ [])) else (do
    merged ← merge rows
    deletes ← sink_dml_internal delete sinker_count parallel_size batch_size merged
    inserts ← sink_dml_internal insert sinker_count parallel_size batch_size merged
    others ← sink_dml_internal unmerged sinker_count parallel_size batch_size merged
    ok (deletes ∷ inserts ∷ others ∷ []))
