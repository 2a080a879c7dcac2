-- ===== src/Parallelizer/Check.antt =====
-- dt-parallelizer/src/check_parallelizer.rs: for each table, first the rows to be checked in batches,
-- then those to be checked one by one; each call of the base parallelizer ends before the next begins.
-- The merger is a parameter.
use cubetran_core.Prelude.{
  Bool, List, Result, [], ap, ap₂, concat, false, list_eq, map, nat_eq, ok, option_eq, pair_eq,
  refl, true, ℕ, ◌++◌, ◌<◌, ◌>>=◌, ◌∙◌, ◌∷◌, ◌≡◌, ◌≤◌,
}
use cubetran_core.Meta.RowData.{RowData}
use cubetran_core.Parallelizer.Merger.{TbMergedData, merge}
use cubetran_core.Parallelizer.Snapshot.{partition}
use cubetran_core.Parallelizer.Snapshot.Laws.{partition_lem}
use cubetran_core.Parallelizer.Sinks.{SinkCall, sink_dml, sink_from-total, sub_datas_of}

-- one call of the base parallelizer, on the parts of `rows`
sink_parts : ℕ → ℕ → Bool → List RowData → Result (List (SinkCall RowData))
unfolding partition sink_dml
sink_parts sinker_count parallel_size batch rows = do
  sub_datas ← partition rows parallel_size
  sink_dml sub_datas sinker_count parallel_size batch

pub check_tables : ℕ → ℕ → List TbMergedData → Result (List (List (SinkCall RowData)))
unfolding sink_parts
check_tables sinker_count parallel_size [] = ok []
check_tables sinker_count parallel_size (merged ∷ merged_datas) = do
  batches ← sink_parts sinker_count parallel_size true merged.insert_rows
  singles ← sink_parts sinker_count parallel_size false merged.unmerged_rows
  rest ← check_tables sinker_count parallel_size merged_datas
  ok (batches ∷ singles ∷ rest)

unfoldable pub check_sink_dml :
    (List RowData → Result (List TbMergedData))
    → ℕ
    → ℕ
    → List RowData
    → Result (List (List (SinkCall RowData)))
unfolding check_tables
check_sink_dml merge sinker_count parallel_size rows = do
  merged_datas ← merge rows
  check_tables sinker_count parallel_size merged_datas

-- the rows that the calls are given
abbrev pub checked : List (List (SinkCall RowData)) → List RowData
checked calls = concat (map (λ cs. concat (sub_datas_of cs)) calls)

-- the rows of the tables that are checked, in this order
pub to_check : List TbMergedData → List RowData
to_check [] = []
to_check (merged ∷ merged_datas) =
    merged.insert_rows ++ (merged.unmerged_rows ++ to_check merged_datas)

sink_parts-total :
    (sinker_count parallel_size : ℕ) (batch : Bool) (rows : List RowData)
    → 0 < parallel_size
    → parallel_size ≤ sinker_count
    → (calls : List (SinkCall RowData)) × (sink_parts sinker_count parallel_size batch rows
        ≡ ok calls)
      × (concat (sub_datas_of calls) ≡ rows)
unfolding sink_parts sink_dml
sink_parts-total sinker_count parallel_size batch rows p q =
    let (subs, cuts, whole, _, _) = partition_lem rows parallel_size in
    let (calls, returns, same, _) = sink_from-total sinker_count parallel_size batch 0 subs p q in
    (calls, rw cuts returns, ap concat same ∙ whole)

-- Checking merged tables returns, when there are at least as many sinkers as the parallel size, which
-- is not 0: every insert and every unmerged row of every table is given to a sinker, once and in order.
pub check_tables-total :
    (sinker_count parallel_size : ℕ) (merged_datas : List TbMergedData)
    → 0 < parallel_size
    → parallel_size ≤ sinker_count
    → (calls : List (List (SinkCall RowData))) × (check_tables sinker_count parallel_size
          merged_datas
        ≡ ok calls)
      × (checked calls ≡ to_check merged_datas)
unfolding check_tables to_check
check_tables-total sinker_count parallel_size [] p q = ([], refl, refl)
check_tables-total sinker_count parallel_size (merged ∷ merged_datas) p q =
    let (batches, returns, same) =
      sink_parts-total sinker_count parallel_size true merged.insert_rows p q in
    let (singles, returns', same') =
      sink_parts-total sinker_count parallel_size false merged.unmerged_rows p q in
    let (rest, returns'', same'') =
      check_tables-total sinker_count parallel_size merged_datas p q in
    (
      batches ∷ singles ∷ rest,
      rw (returns, returns', returns''),
      ap₂ ◌++◌ same (ap₂ ◌++◌ same' same''),
    )
