-- ===== src/Parallelizer/Merger/Passes.antt =====
-- A target database, and what sinking the merged tables in three passes (the deletes of every table,
-- then the inserts, then the unmerged rows) does to each of its tables.
use cubetran_core.Prelude.{
  All, Bool-cases, List, Map, Text, [], ap, beq-false, if◌then◌else◌, inl, inr, list_beq_sound,
  list_eq, lookup, nat_eq, none, option_eq, pair_eq, refl, some, sym, values, ℕ, ◌∙◌, ◌∷◌, ◌≟◌, ◌≡◌,
  ◌≢◌,
}
use cubetran_core.Meta.ColValue.{ColValue}
use cubetran_core.Meta.ColValue.Equality.{value_eq}
use cubetran_core.Meta.RowData.{RdbTbMeta, RowData}
use cubetran_core.Parallelizer.Merger.{
  DrainOrders, RdbTbMergedData, TbMergedData, drain_merged, drained, empty_merged, full_tb, or_new,
}
use cubetran_core.Parallelizer.Merger.Writes.{Distinct, apply_writes, write}
use cubetran_core.Parallelizer.Merger.Orders.{
  AreOrders, IsReordered-All, IsReordered-Distinct, IsReordered-map_values, IsReordered-sym,
  reordered_writes,
}
use cubetran_core.Parallelizer.Merger.Buffers.{Distinct-map_values, map_values}
use cubetran_core.Parallelizer.Merger.Keys.{Table, image, key_of, sink_row, sink_rows}
use cubetran_core.Parallelizer.Merger.Step.{
  IsDelete, IsInsert, IsMerged, delete_write, deletes-IsHashed, insert_write, inserts-IsHashed,
  key_hash, sink_merged,
}
use cubetran_core.Parallelizer.Merger.Buffered.{Fits}
use cubetran_core.Parallelizer.Merger.Cases.{sink_row-delete, sink_row-insert}

-- The target: a table for each full name.
abbrev pub Db : Type 0
Db = Text → Table

module _ (meta_of : Text → RdbTbMeta) where
  abbrev pub ids_of : Text → List Text
  ids_of tb = (meta_of tb).id_cols

  unfoldable pub sink_to : Db → RowData → Db
  sink_to db row tb = if full_tb row ≟ tb then sink_row (ids_of tb) (db tb) row else db tb

  -- the rows sunk one after the other
  unfoldable pub sink_serial : Db → List RowData → Db
  sink_serial db [] = db
  sink_serial db (row ∷ rows) = sink_serial (sink_to db row) rows

  -- Each update finds the row that it replaces.
  abbrev pub FitsAll : Db → List RowData → Type 0
  FitsAll db [] = Unit
  FitsAll db (row ∷ rows) =
      Fits (ids_of (full_tb row)) (db (full_tb row)) row × FitsAll (sink_to db row) rows

  abbrev pass_one : (TbMergedData → List RowData) → TbMergedData → Db → Db
  pass_one part merged db tb =
      if merged.tb ≟ tb then sink_rows (ids_of tb) (db tb) (part merged) else db tb

  -- one of the three passes over the merged tables
  pub sink_pass : (TbMergedData → List RowData) → List TbMergedData → Db → Db
  sink_pass part [] db = db
  sink_pass part (merged ∷ rest) db = sink_pass part rest (pass_one part merged db)

  unfoldable pub sink_merged_tables : List TbMergedData → Db → Db
  sink_merged_tables results db =
      sink_pass (λ m. m.unmerged_rows) results
        (sink_pass (λ m. m.insert_rows) results (sink_pass (λ m. m.delete_rows) results db))

  sink_pass-absent :
      (orders : DrainOrders) (part : TbMergedData → List RowData)
      (tables : Map Text RdbTbMergedData) (db : Db) (tb : Text)
      → All (λ e. tb ≢ e.0) tables
      → sink_pass part (drain_merged orders tables) db tb ≡ db tb
  unfolding sink_pass drain_merged
  sink_pass-absent orders part [] db tb n = refl
  sink_pass-absent orders part ((other, m) ∷ tables) db tb n =
      sink_pass-absent orders part tables (pass_one part (drained orders other m) db) tb n.1
      ∙ rw (beq-false other tb (λ e. n.0 (sym e)))

  pub sink_pass-at :
      (orders : DrainOrders) (part : TbMergedData → List RowData)
      (tables : Map Text RdbTbMergedData) (db : Db) (tb : Text)
      → part (drained orders tb empty_merged) ≡ []
      → Distinct tables
      → sink_pass part (drain_merged orders tables) db tb
        ≡ sink_rows (ids_of tb) (db tb) (part (drained orders tb (or_new (lookup tb tables))))
  unfolding sink_pass drain_merged or_new sink_rows
  sink_pass-at orders part [] db tb none_new d = sym (ap (sink_rows (ids_of tb) (db tb)) none_new)
  sink_pass-at orders part ((other, m) ∷ tables) db tb none_new d = elim (Bool-cases (other ≟ tb)) [
    | inl hit ↦
        let here = list_beq_sound other tb hit in
        sink_pass-absent orders part tables (pass_one part (drained orders other m) db) tb
          (rw here at d.0)
        ∙ rw hit (ap (λ x. sink_rows (ids_of tb) (db tb) (part (drained orders x m))) here)
    | inr apart ↦
        sink_pass-at orders part tables (pass_one part (drained orders other m) db) tb none_new d.1
        ∙ rw apart
  ]

-- Sinking the vectors that the buffers are drained into is what `sink_merged` says.
module _ (hasher : ColValue → ℕ) (cs : List Text) where
  sink_rows-deletes :
      (m : Map ℕ RowData) (t : Table)
      → All (IsDelete hasher cs) m
      → sink_rows cs t (values m) ≡ apply_writes (map_values (delete_write hasher cs) m) t
  unfolding sink_rows apply_writes
  sink_rows-deletes [] t d = refl
  sink_rows-deletes ((h, row) ∷ m) t d =
      ap (λ u. sink_rows cs u (values m)) (sink_row-delete cs t row d.0.type)
      ∙ sink_rows-deletes m (write (key_of cs (image row.before)) none t) d.1

  sink_rows-inserts :
      (m : Map ℕ RowData) (t : Table)
      → All (IsInsert hasher cs) m
      → sink_rows cs t (values m) ≡ apply_writes (map_values (insert_write hasher cs) m) t
  unfolding sink_rows apply_writes
  sink_rows-inserts [] t d = refl
  sink_rows-inserts ((h, row) ∷ m) t d =
      ap (λ u. sink_rows cs u (values m)) (sink_row-insert cs t row d.0.type)
      ∙ sink_rows-inserts m (write (key_of cs (image row.after)) (some (image row.after)) t) d.1

  deletes-drained :
      (orders : DrainOrders) (m : RdbTbMergedData) (t : Table)
      → AreOrders orders
      → IsMerged hasher cs m
      → sink_rows cs t (values (orders.rows m.delete_rows))
        ≡ apply_writes (map_values (delete_write hasher cs) m.delete_rows) t
  deletes-drained orders m t o v =
      let back = IsReordered-sym (o.rows m.delete_rows) in
      let deletes = IsReordered-All (IsDelete hasher cs) back v.deletes in
      sink_rows-deletes (orders.rows m.delete_rows) t deletes
      ∙ reordered_writes (key_hash hasher cs) t
          (IsReordered-map_values (delete_write hasher cs) (o.rows m.delete_rows))
          (deletes-IsHashed hasher cs (orders.rows m.delete_rows) deletes)
          (Distinct-map_values (delete_write hasher cs) (orders.rows m.delete_rows)
            (IsReordered-Distinct back v.deletes_distinct))

  inserts-drained :
      (orders : DrainOrders) (m : RdbTbMergedData) (t : Table)
      → AreOrders orders
      → IsMerged hasher cs m
      → sink_rows cs t (values (orders.rows m.insert_rows))
        ≡ apply_writes (map_values (insert_write hasher cs) m.insert_rows) t
  inserts-drained orders m t o v =
      let back = IsReordered-sym (o.rows m.insert_rows) in
      let inserts = IsReordered-All (IsInsert hasher cs) back v.inserts in
      sink_rows-inserts (orders.rows m.insert_rows) t inserts
      ∙ reordered_writes (key_hash hasher cs) t
          (IsReordered-map_values (insert_write hasher cs) (o.rows m.insert_rows))
          (inserts-IsHashed hasher cs (orders.rows m.insert_rows) inserts)
          (Distinct-map_values (insert_write hasher cs) (orders.rows m.insert_rows)
            (IsReordered-Distinct back v.inserts_distinct))

  pub sink_rows-drained :
      (orders : DrainOrders) (tb : Text) (m : RdbTbMergedData) (t : Table)
      → AreOrders orders
      → IsMerged hasher cs m
      → sink_rows cs
          (sink_rows cs
            (sink_rows cs t (drained orders tb m).delete_rows)
            (drained orders tb m).insert_rows)
          (drained orders tb m).unmerged_rows
        ≡ sink_merged hasher cs m t
  unfolding drained sink_merged
  sink_rows-drained orders tb m t o v =
      ap (λ u. sink_rows cs (sink_rows cs u (values (orders.rows m.insert_rows))) m.unmerged_rows)
        (deletes-drained orders m t o v)
      ∙ ap (λ u. sink_rows cs u m.unmerged_rows)
          (inserts-drained orders m
            (apply_writes (map_values (delete_write hasher cs) m.delete_rows) t) o v)
