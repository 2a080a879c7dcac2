-- ===== src/Parallelizer/Merger/Buffered.antt =====
-- The buffers of the merged data as writes to the table: inserting into a buffer, or removing from it,
-- is one more write.
use cubetran_core.Prelude.{
  List, Map, Option, Result, Text, ap, false, insert, list_eq, nat_eq, none, ok, option_eq, pair_eq,
  refl, remove, some, sym, ℕ, ◌∙◌, ◌≡◌,
}
use cubetran_core.Meta.ColValue.{ColValue}
use cubetran_core.Meta.ColValue.Equality.{value_eq}
use cubetran_core.Meta.RowData.{ColValues, RdbTbMeta, RowData, RowType}
use cubetran_core.Parallelizer.Merger.{RdbTbMergedData, check_collision, unmerge}
use cubetran_core.Parallelizer.Merger.Writes.{
  Distinct, apply_writes, apply_writes-insert, apply_writes-remove, write,
}
use cubetran_core.Parallelizer.Merger.Buffers.{
  Distinct-map_values, map_values, map_values-insert, map_values-remove,
}
use cubetran_core.Parallelizer.Merger.Keys.{IsExactKey, Key, Table, image, key_of, sink_row}
use cubetran_core.Parallelizer.Merger.Step.{
  HasKey, IsMerged, delete_write, deletes-IsHashed, insert_write, inserts-IsHashed, key_hash,
  sink_merged, sink_merged-unmerge, unmerge-IsMerged,
}
use cubetran_core.Parallelizer.Merger.Collision.{
  deletes-SameAt, ids, inserts-SameAt, key_image-delete, key_image-insert,
}

pub HasKey-image :
    (ids : List Text) (o : Option ColValues)
    → HasKey ids o
    → (o ≡ some (image o)) × IsExactKey (key_of ids (image o))
HasKey-image ids o k = (k.found ∙ ap (λ o. some (image o)) (sym k.found), rw k.found k.exact)

abbrev pub FitsAs : RowType → List Text → Table → RowData → Type 0
FitsAs RowType.update cs t row = (old : ColValues) × (t (key_of cs (image row.before)) ≡ some old)
FitsAs _ _ t row = Unit

-- The row that an update replaces is there.
abbrev pub Fits : List Text → Table → RowData → Type 0
Fits ids t row = FitsAs row.row_type ids t row

module _ (hasher : ColValue → ℕ) (tb_meta : RdbTbMeta) where
  -- The call returns, keeps the merged data well formed, and its data sinks one row more.
  abbrev pub Sinks : RdbTbMergedData → RowData → Result RdbTbMergedData → Type 0
  Sinks m row result =
      (m' : RdbTbMergedData) × (result ≡ ok m')
      × IsMerged hasher tb_meta.id_cols m'
      × ((t : Table)
          → Fits tb_meta.id_cols (sink_merged hasher tb_meta.id_cols m t) row
          → sink_merged hasher tb_meta.id_cols m' t
            ≡ sink_row tb_meta.id_cols (sink_merged hasher tb_meta.id_cols m t) row)

  pub unmerge-Sinks :
      (m : RdbTbMergedData) (row : RowData)
      → IsMerged hasher tb_meta.id_cols m
      → Sinks m row (ok (unmerge m row))
  unmerge-Sinks m row v = (
    unmerge m row,
    refl,
    unmerge-IsMerged hasher tb_meta.id_cols m row v,
    λ t _. sink_merged-unmerge hasher tb_meta.id_cols m row t,
  )

  abbrev pub key_at : Option ColValues → Key
  key_at o = key_of tb_meta.id_cols (image o)

  abbrev pub inserts_of : RdbTbMergedData → Map ℕ (Key × Option ColValues)
  inserts_of m = map_values (insert_write hasher tb_meta.id_cols) m.insert_rows

  abbrev pub deletes_of : RdbTbMergedData → Map ℕ (Key × Option ColValues)
  deletes_of m = map_values (delete_write hasher tb_meta.id_cols) m.delete_rows

  inserts_of-Distinct :
      (m : RdbTbMergedData) → IsMerged hasher tb_meta.id_cols m → Distinct (inserts_of m)
  inserts_of-Distinct m v =
      Distinct-map_values (insert_write hasher tb_meta.id_cols) m.insert_rows v.inserts_distinct

  deletes_of-Distinct :
      (m : RdbTbMergedData) → IsMerged hasher tb_meta.id_cols m → Distinct (deletes_of m)
  deletes_of-Distinct m v =
      Distinct-map_values (delete_write hasher tb_meta.id_cols) m.delete_rows v.deletes_distinct

  -- A write to a buffer is a write to its table.
  pub insert_to_deletes :
      (m : RdbTbMergedData) (row : RowData) (hash : ℕ) (t : Table)
      → IsMerged hasher tb_meta.id_cols m
      → HasKey tb_meta.id_cols row.before
      → row.row_type ≡ RowType.delete
      → key_hash hasher tb_meta.id_cols (key_at row.before) ≡ ok hash
      → check_collision m.delete_rows tb_meta row hash ≡ ok false
      → apply_writes
          (map_values (delete_write hasher tb_meta.id_cols) (insert hash row m.delete_rows))
          t
        ≡ write (key_at row.before) none (apply_writes (deletes_of m) t)
  insert_to_deletes m row hash t v k ty kh c =
      let (found, exact) = HasKey-image tb_meta.id_cols row.before k in
      ap (λ x. apply_writes x t)
        (map_values-insert (delete_write hasher tb_meta.id_cols) hash row m.delete_rows)
      ∙ apply_writes-insert (key_hash hasher tb_meta.id_cols) (deletes_of m) hash
          (key_at row.before) none t kh
          (deletes-IsHashed hasher tb_meta.id_cols m.delete_rows v.deletes)
          (deletes_of-Distinct m v)
          (deletes-SameAt hasher tb_meta m.delete_rows row hash (image row.before) v.deletes
            (key_image-delete row ty ∙ found) exact c)

  pub insert_to_inserts :
      (m : RdbTbMergedData) (row : RowData) (hash : ℕ) (t : Table)
      → IsMerged hasher tb_meta.id_cols m
      → HasKey tb_meta.id_cols row.after
      → row.row_type ≡ RowType.insert
      → key_hash hasher tb_meta.id_cols (key_at row.after) ≡ ok hash
      → check_collision m.insert_rows tb_meta row hash ≡ ok false
      → apply_writes
          (map_values (insert_write hasher tb_meta.id_cols) (insert hash row m.insert_rows))
          t
        ≡ write (key_at row.after) (some (image row.after)) (apply_writes (inserts_of m) t)
  insert_to_inserts m row hash t v k ty kh c =
      let (found, exact) = HasKey-image tb_meta.id_cols row.after k in
      ap (λ x. apply_writes x t)
        (map_values-insert (insert_write hasher tb_meta.id_cols) hash row m.insert_rows)
      ∙ apply_writes-insert (key_hash hasher tb_meta.id_cols) (inserts_of m) hash (key_at row.after)
          (some (image row.after)) t kh
          (inserts-IsHashed hasher tb_meta.id_cols m.insert_rows v.inserts)
          (inserts_of-Distinct m v)
          (inserts-SameAt hasher tb_meta m.insert_rows row hash (image row.after) v.inserts
            (key_image-insert row ty ∙ found) exact c)

  pub remove_from_inserts :
      (m : RdbTbMergedData) (row : RowData) (hash : ℕ) (t : Table)
      → IsMerged hasher tb_meta.id_cols m
      → HasKey tb_meta.id_cols row.before
      → row.row_type ≡ RowType.delete
      → key_hash hasher tb_meta.id_cols (key_at row.before) ≡ ok hash
      → check_collision m.insert_rows tb_meta row hash ≡ ok false
      → apply_writes
          (map_values (insert_write hasher tb_meta.id_cols) (remove hash m.insert_rows))
          (write (key_at row.before) none t)
        ≡ write (key_at row.before) none (apply_writes (inserts_of m) t)
  remove_from_inserts m row hash t v k ty kh c =
      let (found, exact) = HasKey-image tb_meta.id_cols row.before k in
      ap (λ x. apply_writes x (write (key_at row.before) none t))
        (map_values-remove (insert_write hasher tb_meta.id_cols) hash m.insert_rows)
      ∙ apply_writes-remove (key_hash hasher tb_meta.id_cols) (inserts_of m) hash
          (key_at row.before) none t kh
          (inserts-IsHashed hasher tb_meta.id_cols m.insert_rows v.inserts)
          (inserts_of-Distinct m v)
          (inserts-SameAt hasher tb_meta m.insert_rows row hash (image row.before) v.inserts
            (key_image-delete row ty ∙ found) exact c)
