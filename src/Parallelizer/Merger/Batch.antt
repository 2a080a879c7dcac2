-- ===== src/Parallelizer/Merger/Batch.antt =====
-- `merge`: merging a batch and sinking the result has the effect of sinking the batch's rows one after
-- the other.
use cubetran_core.Prelude.{
  All, Bool-cases, List, Map, Result, Text, [], ap, beq_refl, fun_ext, inl, inr, insert,
  list_beq_sound, list_eq, lookup, lookup-insert, nat_eq, ok, option_eq, pair_eq, refl, subst, sym,
  values, ℕ, ◌∙◌, ◌∷◌, ◌≟◌, ◌≡◌,
}
use cubetran_core.Meta.ColValue.{ColValue, eq}
use cubetran_core.Meta.ColValue.Equality.{value_eq}
use cubetran_core.Meta.RowData.{RdbTbMeta, RowData}
use cubetran_core.Parallelizer.Merger.{
  DrainOrders, RdbTbMergedData, TbMergedData, drain_merged, drained, empty_merged, full_tb, merge,
  merge_rows, or_new,
}
use cubetran_core.Parallelizer.Merger.Writes.{All-insert, Distinct, apply_writes, insert-Distinct}
use cubetran_core.Parallelizer.Merger.Orders.{
  AreOrders, IsReordered-Distinct, IsReordered-lookup, IsReordered-nil, IsReordered-sym,
}
use cubetran_core.Parallelizer.Merger.Keys.{sink_row, sink_rows}
use cubetran_core.Parallelizer.Merger.Step.{IsMerged, IsWhole, empty_merged-IsMerged, sink_merged}
use cubetran_core.Parallelizer.Merger.Refine.{merge_row_data-Sinks}
use cubetran_core.Parallelizer.Merger.Passes.{
  Db, FitsAll, ids_of, sink_merged_tables, sink_pass-at, sink_rows-drained, sink_serial, sink_to,
}

module _ (hasher : ColValue → ℕ) (get_tb_meta : Text → Text → Result RdbTbMeta)
    (meta_of : Text → RdbTbMeta) where
  -- The table's metadata can be read, and the row has the images and the key that it needs.
  pub record IsKnown (row : RowData) : Type 0 where
    pub known : get_tb_meta row.schema row.tb ≡ ok (meta_of (full_tb row))
    pub whole : IsWhole (ids_of meta_of (full_tb row)) row.row_type row

  -- the database that the merged data of every table stands for
  merged_db : Map Text RdbTbMergedData → Db → Db
  merged_db tables db tb =
      sink_merged hasher (ids_of meta_of tb) (or_new (lookup tb tables)) (db tb)

  record AllMerged (tables : Map Text RdbTbMergedData) : Type 0 where
    merged : All (λ e. IsMerged hasher (ids_of meta_of e.0) e.1) tables
    distinct : Distinct tables

  or_new-IsMerged :
      (tables : Map Text RdbTbMergedData) (tb : Text)
      → All (λ e. IsMerged hasher (ids_of meta_of e.0) e.1) tables
      → IsMerged hasher (ids_of meta_of tb) (or_new (lookup tb tables))
  unfolding or_new
  or_new-IsMerged [] tb d = empty_merged-IsMerged hasher (ids_of meta_of tb)
  or_new-IsMerged ((other, m) ∷ tables) tb d = elim (Bool-cases (other ≟ tb)) [
    | inl hit ↦
        rw hit (subst (λ x. IsMerged hasher (ids_of meta_of x) m) (list_beq_sound other tb hit) d.0)
    | inr miss ↦ rw miss (or_new-IsMerged tables tb d.1)
  ]

  -- The database after one more row.
  merged_db-insert :
      (tables : Map Text RdbTbMergedData) (db : Db) (row : RowData) (m : RdbTbMergedData)
      → sink_merged hasher (ids_of meta_of (full_tb row)) m (db (full_tb row))
        ≡ sink_row (ids_of meta_of (full_tb row)) (merged_db tables db (full_tb row)) row
      → merged_db (insert (full_tb row) m tables) db ≡ sink_to meta_of (merged_db tables db) row
  unfolding merged_db sink_to or_new
  merged_db-insert tables db row m h = fun_ext λ tb. elim (Bool-cases (full_tb row ≟ tb)) [
    | inl hit ↦
        subst
          (λ x.
            merged_db (insert (full_tb row) m tables) db x
            ≡ sink_to meta_of (merged_db tables db) row x)
          (list_beq_sound (full_tb row) tb hit)
          (rw (lookup-insert (full_tb row) (full_tb row) m tables, beq_refl (full_tb row)) h)
    | inr miss ↦ rw (lookup-insert (full_tb row) tb m tables, miss)
  ]

  merge_rows-refines :
      (db : Db) (tables : Map Text RdbTbMergedData) (rows : List RowData)
      → AllMerged tables
      → All IsKnown rows
      → FitsAll meta_of (merged_db tables db) rows
      → (after : Map Text RdbTbMergedData) × (merge_rows hasher get_tb_meta tables rows ≡ ok after)
        × AllMerged after
        × (merged_db after db ≡ sink_serial meta_of (merged_db tables db) rows)
  unfolding merge_rows sink_serial sink_merged merged_db
  merge_rows-refines db tables [] v k f = (tables, refl, v, refl)
  merge_rows-refines db tables (row ∷ rows) v k f =
      let tb = full_tb row in
      let (m, returns, m_merged, sinks) =
        merge_row_data-Sinks hasher (meta_of tb) get_tb_meta (or_new (lookup tb tables)) row
          k.0.known k.0.whole (or_new-IsMerged tables tb v.merged) in
      let step = merged_db-insert tables db row m (sinks (db tb) f.0) in
      let (after, rest, v', eq) =
        merge_rows-refines db (insert (full_tb row) m tables) rows
          (record {
            merged =
                All-insert (λ e. IsMerged hasher (ids_of meta_of e.0) e.1) tables tb m m_merged
                  v.merged;
            distinct = insert-Distinct tables tb m v.distinct;
          })
          k.1 (subst (λ d. FitsAll meta_of d rows) (sym step) f.1) in
      (after, rw returns rest, v', eq ∙ ap (λ d. sink_serial meta_of d rows) step)

  merged_db-nil : (db : Db) → merged_db [] db ≡ db
  unfolding merged_db or_new sink_merged sink_rows apply_writes
  merged_db-nil db = refl

  sink_merged_tables-drained :
      (orders : DrainOrders) (tables : Map Text RdbTbMergedData) (db : Db)
      → AllMerged tables
      → AreOrders orders
      → sink_merged_tables meta_of (drain_merged orders (orders.tables tables)) db
        ≡ merged_db tables db
  unfolding merged_db sink_merged_tables drained
  sink_merged_tables-drained orders tables db v o = fun_ext λ tb.
      let cs = ids_of meta_of tb in
      let m = or_new (lookup tb tables) in
      let back = IsReordered-sym (o.tables tables) in
      let distinct = IsReordered-Distinct back v.distinct in
      let same = IsReordered-lookup tb (o.tables tables) distinct in
      let at =
        λ (part : TbMergedData → List RowData) (d : Db)
            (e : part (drained orders tb empty_merged) ≡ []).
          sink_pass-at meta_of orders part (orders.tables tables) d tb e distinct
          ∙ ap (λ x. sink_rows cs (d tb) (part (drained orders tb (or_new x)))) same in
      let no_rows : values (orders.rows []) ≡ [] = ap values (IsReordered-nil (o.rows []) refl) in
      at (λ x. x.unmerged_rows) _ refl
      ∙ ap (λ t. sink_rows cs t (drained orders tb m).unmerged_rows)
          (at (λ x. x.insert_rows) _ no_rows)
      ∙ ap
          (λ t.
            sink_rows cs (sink_rows cs t (drained orders tb m).insert_rows)
              (drained orders tb m).unmerged_rows)
          (at (λ x. x.delete_rows) db no_rows)
      ∙ sink_rows-drained hasher cs orders tb m (db tb) o (or_new-IsMerged tables tb v.merged)

  -- Merging a batch of rows returns, whatever the orders are in which the maps are drained. Sinking
  -- what it returns, first the deletes of every table, then
  -- the inserts, then the unmerged rows in their order, leaves every table as sinking the rows one
  -- after the other does. Each row's table must be known, its images and key columns must be there
  -- with neither a float nor a document in the key, and an update must find the row that it replaces.
  pub merge_refines :
      (orders : DrainOrders) (db : Db) (rows : List RowData)
      → AreOrders orders
      → All IsKnown rows
      → FitsAll meta_of db rows
      → (results : List TbMergedData) × (merge orders hasher get_tb_meta rows ≡ ok results)
        × (sink_merged_tables meta_of results db ≡ sink_serial meta_of db rows)
  unfolding merge
  merge_refines orders db rows o known fits =
      let (tables, returns, v, eq) =
        merge_rows-refines db [] rows (record { merged = tt; distinct = tt }) known
          (subst (λ d. FitsAll meta_of d rows) (sym (merged_db-nil db)) fits) in
      (
        drain_merged orders (orders.tables tables),
        rw returns,
        sink_merged_tables-drained orders tables db v o
            ∙ eq
            ∙ ap (λ d. sink_serial meta_of d rows) (merged_db-nil db),
      )
