-- ===== src/Parallelizer/Merge/Passes.antt =====
-- The passes that a batch is sunk in.
use cubetran_core.Prelude.{
  All, All-append, Bool-cases, List, Result, [], ap, append-nil, append_assoc, arith, concat, inl,
  inr, length, list_eq, map, max, nat_eq, ok, option_eq, pair_eq, refl, true, ℕ, ◌%◌, ◌++◌, ◌+◌,
  ◌/◌, ◌<◌, ◌==◌, ◌∙◌, ◌∷◌, ◌≡◌, ◌≤◌,
}
use native.Mathlib.Nat.{mod-lt}
use cubetran_core.Meta.RowData.{RowData, RowType, row_type_eq}
use cubetran_core.Parallelizer.Merger.{TbMergedData, is_nil}
use cubetran_core.Parallelizer.Sinks.{SinkCall, pick_lem, sub_datas_of}
use cubetran_core.Parallelizer.Merge.{
  MergeType, Task, batch_size_of, part_of, runs, sink_dml_internal, sink_tb, sink_tbs,
  sink_unmerged_rows, tasks_of, unmerged_call,
}
use cubetran_core.Parallelizer.Merge.Laws.{
  IsChunk, chunk_loop-total, rows_of, rows_of-append, rows_of_task,
}

row_type_eq_sound : (a b : RowType) → row_type_eq a b ≡ true → a ≡ b
unfolding row_type_eq
row_type_eq_sound RowType.insert RowType.insert h = refl
row_type_eq_sound RowType.update RowType.update h = refl
row_type_eq_sound RowType.delete RowType.delete h = refl
row_type_eq_sound RowType.insert RowType.update h = cc
row_type_eq_sound RowType.insert RowType.delete h = cc
row_type_eq_sound RowType.update RowType.insert h = cc
row_type_eq_sound RowType.update RowType.delete h = cc
row_type_eq_sound RowType.delete RowType.insert h = cc
row_type_eq_sound RowType.delete RowType.update h = cc

-- The rows of a call on unmerged rows are of one type, and only inserts are sunk in a batch.
abbrev pub IsRun : SinkCall RowData → Type 0
IsRun call =
    (type : RowType) × All (λ row. row.row_type ≡ type) call.sub_data
    × (call.batch ≡ true → type ≡ RowType.insert)

-- What is promised of each call of a pass.
abbrev pub IsCall : MergeType → ℕ → SinkCall RowData → Type 0
IsCall MergeType.unmerged parallel_size call = (call.sinker < parallel_size) × IsRun call
IsCall _ parallel_size call = (call.sinker < parallel_size) × (call.batch ≡ true)

runs-IsRun :
    (parallel_size sinker : ℕ) (type : RowType) (run rows : List RowData)
    → sinker < parallel_size
    → All (λ row. row.row_type ≡ type) run
    → (rows_of_task (runs sinker type run rows) ≡ run ++ rows)
      × All (IsCall MergeType.unmerged parallel_size) (runs sinker type run rows)
unfolding runs unmerged_call sub_datas_of
runs-IsRun parallel_size sinker type run [] below a =
    (refl, ((below, (type, a, row_type_eq_sound type RowType.insert)), tt))
runs-IsRun parallel_size sinker type run (row ∷ rows) below a =
    elim (Bool-cases (row_type_eq row.row_type type)) [
      | inl alike ↦
          let (whole, calls) = runs-IsRun parallel_size sinker type (run ++ row ∷ []) rows below (
            All-append (λ row. row.row_type ≡ type) run (row ∷ []) a
              (row_type_eq_sound row.row_type type alike, tt)) in
          rw (alike, runs) (whole ∙ append_assoc run (row ∷ []) rows, calls)
      | inr other ↦
          let (whole, calls) =
            runs-IsRun parallel_size sinker row.row_type (row ∷ []) rows below (refl, tt) in
          rw (other, runs)
            (
              ap (λ xs. run ++ xs) whole,
              ((below, (type, a, row_type_eq_sound type RowType.insert)), calls),
            )
    ]

module _ (sinker_count parallel_size : ℕ) (positive : 0 < parallel_size)
    (enough : parallel_size ≤ sinker_count) where
  -- The tasks sink these rows, in order.
  abbrev pub Sunk : MergeType → List RowData → Result (List Task) → Type 0
  Sunk merge_type rows result =
      (tasks : List Task) × (result ≡ ok tasks)
      × (rows_of tasks ≡ rows)
      × All (All (IsCall merge_type parallel_size)) tasks

  IsChunk-IsCall :
      (batch_size : ℕ) (task : Task)
      → All (IsChunk parallel_size batch_size) task
      → All (λ call. (call.sinker < parallel_size) × (call.batch ≡ true)) task
  IsChunk-IsCall batch_size [] c = tt
  IsChunk-IsCall batch_size (call ∷ task) c = ((c.0.0, c.0.1), IsChunk-IsCall batch_size task c.1)

  IsChunk-IsTask :
      (batch_size : ℕ) (tasks : List Task)
      → All (All (IsChunk parallel_size batch_size)) tasks
      → All (All (λ call. (call.sinker < parallel_size) × (call.batch ≡ true))) tasks
  IsChunk-IsTask batch_size [] c = tt
  IsChunk-IsTask batch_size (task ∷ tasks) c =
      (IsChunk-IsCall batch_size task c.0, IsChunk-IsTask batch_size tasks c.1)

  tasks_of-Sunk :
      (merge_type : MergeType) (batch_size started : ℕ) (rows : List RowData)
      → 0 < batch_size
      → Sunk merge_type rows
          (tasks_of merge_type sinker_count parallel_size batch_size started rows)
  unfolding tasks_of sink_unmerged_rows rows_of sub_datas_of
  tasks_of-Sunk MergeType.insert batch_size started rows p =
      let (tasks, returns, whole, chunks) =
        chunk_loop-total sinker_count parallel_size positive enough (length rows) batch_size started
          0 rows p (omega arith) in
      (tasks, returns, whole, IsChunk-IsTask batch_size tasks chunks)
  tasks_of-Sunk MergeType.delete batch_size started rows p =
      let (tasks, returns, whole, chunks) =
        chunk_loop-total sinker_count parallel_size positive enough (length rows) batch_size started
          0 rows p (omega arith) in
      (tasks, returns, whole, IsChunk-IsTask batch_size tasks chunks)
  tasks_of-Sunk MergeType.unmerged batch_size started [] p =
      ([] ∷ [], rw (pick_lem sinker_count parallel_size started positive enough), refl, (tt, tt))
  tasks_of-Sunk MergeType.unmerged batch_size started (row ∷ rows) p =
      let (whole, calls) =
        runs-IsRun parallel_size (started % parallel_size) row.row_type (row ∷ []) rows
          (mod-lt started positive) (refl, tt) in
      (
        runs (started % parallel_size) row.row_type (row ∷ []) rows ∷ [],
        rw (pick_lem sinker_count parallel_size started positive enough),
        append-nil (rows_of_task (runs (started % parallel_size) row.row_type (row ∷ []) rows))
            ∙ whole,
        (calls, tt),
      )

  sink_tb-Sunk :
      (merge_type : MergeType) (batch_size started : ℕ) (rows : List RowData)
      → Sunk merge_type rows (sink_tb merge_type sinker_count parallel_size batch_size started rows)
  unfolding sink_tb batch_size_of is_nil rows_of
  sink_tb-Sunk merge_type batch_size started [] = ([], refl, refl, tt)
  sink_tb-Sunk merge_type batch_size started (row ∷ rows) = elim (Bool-cases (parallel_size == 0)) [
    | inl none_at_all ↦ absurd (ground arith)
    | inr some_left ↦ rw some_left (
        tasks_of-Sunk merge_type (max (length (row ∷ rows) / parallel_size) (max batch_size 1))
          started (row ∷ rows) (omega arith))
  ]

  sink_tbs-Sunk :
      (merge_type : MergeType) (batch_size started : ℕ) (results : List TbMergedData)
      → Sunk merge_type
          (concat (map (part_of merge_type) results))
          (sink_tbs merge_type sinker_count parallel_size batch_size started results)
  unfolding sink_tbs rows_of
  sink_tbs-Sunk merge_type batch_size started [] = ([], refl, refl, tt)
  sink_tbs-Sunk merge_type batch_size started (merged ∷ results) =
      let (tasks, returns, whole, calls) =
        sink_tb-Sunk merge_type batch_size started (part_of merge_type merged) in
      let (rest, returns', whole', calls') =
        sink_tbs-Sunk merge_type batch_size (started + length tasks) results in
      (
        tasks ++ rest,
        rw (returns, returns'),
        rows_of-append tasks rest
            ∙ ap (λ xs. xs ++ rows_of rest) whole
            ∙ ap (λ xs. part_of merge_type merged ++ xs) whole',
        All-append (All (IsCall merge_type parallel_size)) tasks rest calls calls',
      )

  -- A pass over the merged tables returns, when there are sinkers and at least as many as the parallel
  -- size: its tasks, in the order in which they are started, sink exactly the rows of the pass, in
  -- their order, on sinkers within the parallel size. Deletes and inserts are sunk in batches. The rows
  -- of a call on unmerged rows are of one type, and such a call is a batch only if they are inserts.
  pub sink_dml_internal-Sunk :
      (merge_type : MergeType) (batch_size : ℕ) (results : List TbMergedData)
      → Sunk merge_type
          (concat (map (part_of merge_type) results))
          (sink_dml_internal merge_type sinker_count parallel_size batch_size results)
  unfolding sink_dml_internal
  sink_dml_internal-Sunk merge_type batch_size results =
      sink_tbs-Sunk merge_type batch_size 0 results
