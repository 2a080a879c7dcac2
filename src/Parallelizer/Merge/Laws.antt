-- ===== src/Parallelizer/Merge/Laws.antt =====
-- The tasks of a pass.
use cubetran_core.Prelude.{
  All, Bool-cases, List, [], ap, append-nil, append_assoc, arith, concat, drop, drop-add, drop-all,
  inl, inr, length, length-drop, length-take, list_eq, ltb, min, nat_eq, ok, option_eq, pair_eq,
  refl, suc, sym, take, take-append-drop, take-min, true, zero, ℕ, ◌%◌, ◌++◌, ◌+◌, ◌-◌, ◌<◌, ◌∙◌,
  ◌∷◌, ◌≡◌, ◌≤◌,
}
use native.Mathlib.Nat.{mod-lt}
use cubetran_core.Meta.RowData.{RowData}
use cubetran_core.Parallelizer.Sinks.{SinkCall, pick_lem, sub_datas_of}
use cubetran_core.Parallelizer.Merge.{Task, chunk_loop}

-- the rows that a task sinks, in order, and those of all tasks
abbrev pub rows_of_task : Task → List RowData
rows_of_task task = concat (sub_datas_of task)

unfoldable pub rows_of : List Task → List RowData
rows_of [] = []
rows_of (task ∷ tasks) = rows_of_task task ++ rows_of tasks

pub rows_of-append : (xs ys : List Task) → rows_of (xs ++ ys) ≡ rows_of xs ++ rows_of ys
unfolding rows_of
rows_of-append [] ys = refl
rows_of-append (x ∷ xs) ys =
    ap (λ zs. rows_of_task x ++ zs) (rows_of-append xs ys)
    ∙ sym (append_assoc (rows_of_task x) (rows_of xs) (rows_of ys))

-- the calls of one chunk
abbrev pub IsChunk : ℕ → ℕ → SinkCall RowData → Type 0
IsChunk parallel_size batch_size call =
    (call.sinker < parallel_size) × (call.batch ≡ true) × (length call.sub_data ≤ batch_size)

chunk-append-drop :
    (batch_size i : ℕ) (rows : List RowData)
    → take (min batch_size (length rows - i)) (drop i rows) ++ drop (i + batch_size) rows
      ≡ drop i rows
chunk-append-drop batch_size i rows =
    ap (λ n. take (min batch_size n) (drop i rows) ++ drop (i + batch_size) rows)
      (sym (length-drop i rows))
    ∙ ap (λ xs. xs ++ drop (i + batch_size) rows) (take-min batch_size (drop i rows))
    ∙ ap (λ xs. take batch_size (drop i rows) ++ xs) (drop-add i batch_size rows)
    ∙ take-append-drop batch_size (drop i rows)

module _ (sinker_count parallel_size : ℕ) (positive : 0 < parallel_size)
    (enough : parallel_size ≤ sinker_count) where
  pub chunk_loop-total :
      (fuel batch_size started i : ℕ) (rows : List RowData)
      → 0 < batch_size
      → length rows ≤ i + fuel
      → (tasks : List Task) × (chunk_loop fuel sinker_count parallel_size batch_size started i rows
          ≡ ok tasks)
        × (rows_of tasks ≡ drop i rows)
        × All (All (IsChunk parallel_size batch_size)) tasks
  unfolding chunk_loop rows_of sub_datas_of
  chunk_loop-total zero batch_size started i rows p f = elim (Bool-cases (ltb i (length rows))) [
    | inl more ↦ absurd (ground arith)
    | inr done ↦ ([], rw done, sym (drop-all i rows (omega arith)), tt)
  ]
  chunk_loop-total (suc fuel) batch_size started i rows p f =
      elim (Bool-cases (ltb i (length rows))) [
        | inr done ↦ ([], rw done, sym (drop-all i rows (ground arith)), tt)
        | inl more ↦
            let (tasks, returns, whole, chunks) =
              chunk_loop-total fuel batch_size (started + 1) (i + batch_size) rows p
                (omega arith) in
            let sub = take (min batch_size (length rows - i)) (drop i rows) in
            (
              (record { sinker = started % parallel_size; sub_data = sub; batch = true } ∷ [])
                  ∷ tasks,
              rw (more, pick_lem sinker_count parallel_size started positive enough, returns),
              ap (λ xs. (sub ++ []) ++ xs) whole
                  ∙ ap (λ xs. xs ++ drop (i + batch_size) rows) (append-nil sub)
                  ∙ chunk-append-drop batch_size i rows,
              (
                (
                  (
                    mod-lt started positive,
                    refl,
                    omega (arith, length-take (min batch_size (length rows - i)) (drop i rows)),
                  ),
                  tt,
                ),
                chunks,
              ),
            )
      ]
