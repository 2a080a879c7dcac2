-- ===== src/Parallelizer/Merger/Cases.antt =====
-- The three cases of `merge_row_data`: each returns merged data whose sinking amounts to sinking one
-- row more.
use cubetran_core.Prelude.{
  Bool, List, Text, [], ap, false, insert, list_eq, nat_eq, none, ok, option_eq, pair_eq, refl,
  remove, some, sym, true, ℕ, ◌∙◌, ◌≡◌,
}
use cubetran_core.Meta.ColValue.{ColValue}
use cubetran_core.Meta.ColValue.Equality.{value_eq}
use cubetran_core.Meta.RowData.{RdbTbMeta, RowData, RowType}
use cubetran_core.Parallelizer.Merger.{RdbTbMergedData, check_collision, merge_delete, merge_insert}
use cubetran_core.Parallelizer.Merger.Writes.{
  All-insert, All-remove, apply_writes, insert-Distinct, remove-Distinct, write,
}
use cubetran_core.Parallelizer.Merger.Buffers.{map_values}
use cubetran_core.Parallelizer.Merger.Keys.{Table, image, key_of, sink_row, sink_rows, sink_typed}
use cubetran_core.Parallelizer.Merger.Step.{
  HasKey, IsDelete, IsInsert, IsMerged, insert_write, key_hash, merged_table, sink_merged,
}
use cubetran_core.Parallelizer.Merger.Collision.{
  deletes-total, inserts-total, key_image-delete, key_image-insert,
}
use cubetran_core.Parallelizer.Merger.Buffered.{
  HasKey-image, Sinks, deletes_of, insert_to_deletes, insert_to_inserts, remove_from_inserts,
  unmerge-Sinks,
}

pub sink_row-delete :
    (cs : List Text) (t : Table) (row : RowData)
    → row.row_type ≡ RowType.delete
    → sink_row cs t row ≡ write (key_of cs (image row.before)) none t
unfolding sink_row
sink_row-delete cs t row ty = ap (λ k. sink_typed k cs t (image row.before) (image row.after)) ty

pub sink_row-insert :
    (cs : List Text) (t : Table) (row : RowData)
    → row.row_type ≡ RowType.insert
    → sink_row cs t row ≡ write (key_of cs (image row.after)) (some (image row.after)) t
unfolding sink_row
sink_row-insert cs t row ty = ap (λ k. sink_typed k cs t (image row.before) (image row.after)) ty

module _ (hasher : ColValue → ℕ) (tb_meta : RdbTbMeta) (m : RdbTbMergedData) where
  abbrev pub cs : List Text
  cs = tb_meta.id_cols

  -- No row is unmerged yet: what the merged data sinks is its deletes and its inserts.
  pub sink_merged-nil :
      (t : Table) → m.unmerged_rows ≡ [] → sink_merged hasher cs m t ≡ merged_table hasher cs m t
  unfolding sink_merged sink_rows
  sink_merged-nil t nil = ap (sink_rows cs (merged_table hasher cs m t)) nil

  module _ (v : IsMerged hasher cs m) (nil : m.unmerged_rows ≡ []) (row : RowData) (hash : ℕ) where
    delete_writes :
        row.row_type ≡ RowType.delete
        → HasKey cs row.before
        → key_hash hasher cs (key_of cs (image row.before)) ≡ ok hash
        → check_collision m.insert_rows tb_meta row hash ≡ ok false
        → check_collision m.delete_rows tb_meta row hash ≡ ok false
        → Sinks hasher tb_meta m row (
            ok (record m {
              insert_rows = remove hash m.insert_rows;
              delete_rows = insert hash row m.delete_rows;
            }))
    unfolding sink_merged sink_rows
    delete_writes ty k kh ci cd = (
      _,
      refl,
      record {
        deletes =
            All-insert (IsDelete hasher cs) m.delete_rows hash row
              (record { type = ty; whole = k; hashed = kh }) v.deletes;
        inserts = All-remove (IsInsert hasher cs) m.insert_rows hash v.inserts;
        deletes_distinct = insert-Distinct m.delete_rows hash row v.deletes_distinct;
        inserts_distinct = remove-Distinct m.insert_rows hash v.inserts_distinct;
      },
      λ t _.
          ap (sink_rows cs _) nil
          ∙ ap (apply_writes (map_values (insert_write hasher cs) (remove hash m.insert_rows)))
              (insert_to_deletes hasher tb_meta m row hash t v k ty kh cd)
          ∙ remove_from_inserts hasher tb_meta m row hash
              (apply_writes (deletes_of hasher tb_meta m) t) v k ty kh ci
          ∙ sym (sink_row-delete cs (merged_table hasher cs m t) row ty)
          ∙ ap (λ x. sink_row cs x row) (sym (sink_merged-nil t nil)),
    )

    delete_split :
        (a b : Bool)
        → check_collision m.insert_rows tb_meta row hash ≡ ok a
        → check_collision m.delete_rows tb_meta row hash ≡ ok b
        → row.row_type ≡ RowType.delete
        → HasKey cs row.before
        → key_hash hasher cs (key_of cs (image row.before)) ≡ ok hash
        → Sinks hasher tb_meta m row (merge_delete tb_meta m row hash)
    unfolding merge_delete
    delete_split true b p q ty k kh = rw p (unmerge-Sinks hasher tb_meta m row v)
    delete_split false true p q ty k kh = rw (p, q) (unmerge-Sinks hasher tb_meta m row v)
    delete_split false false p q ty k kh = rw (p, q) (delete_writes ty k kh p q)

    -- A delete.
    pub merge_delete-Sinks :
        row.row_type ≡ RowType.delete
        → HasKey cs row.before
        → key_hash hasher cs (key_of cs (image row.before)) ≡ ok hash
        → Sinks hasher tb_meta m row (merge_delete tb_meta m row hash)
    merge_delete-Sinks ty k kh =
        let (found, _) = HasKey-image cs row.before k in
        let image_found = key_image-delete row ty ∙ found in
        let (a, p) = inserts-total hasher tb_meta m.insert_rows row hash _ v.inserts image_found in
        let (b, q) = deletes-total hasher tb_meta m.delete_rows row hash _ v.deletes image_found in
        delete_split a b p q ty k kh

    insert_writes :
        row.row_type ≡ RowType.insert
        → HasKey cs row.after
        → key_hash hasher cs (key_of cs (image row.after)) ≡ ok hash
        → check_collision m.insert_rows tb_meta row hash ≡ ok false
        → Sinks hasher tb_meta m row (ok (record m { insert_rows = insert hash row m.insert_rows }))
    unfolding sink_merged sink_rows
    insert_writes ty k kh ci = (
      _,
      refl,
      record {
        deletes = v.deletes;
        inserts =
            All-insert (IsInsert hasher cs) m.insert_rows hash row
              (record { type = ty; whole = k; hashed = kh }) v.inserts;
        deletes_distinct = v.deletes_distinct;
        inserts_distinct = insert-Distinct m.insert_rows hash row v.inserts_distinct;
      },
      λ t _.
          ap (sink_rows cs _) nil
          ∙ insert_to_inserts hasher tb_meta m row hash
              (apply_writes (deletes_of hasher tb_meta m) t) v k ty kh ci
          ∙ sym (sink_row-insert cs (merged_table hasher cs m t) row ty)
          ∙ ap (λ x. sink_row cs x row) (sym (sink_merged-nil t nil)),
    )

    insert_split :
        (a : Bool)
        → check_collision m.insert_rows tb_meta row hash ≡ ok a
        → row.row_type ≡ RowType.insert
        → HasKey cs row.after
        → key_hash hasher cs (key_of cs (image row.after)) ≡ ok hash
        → Sinks hasher tb_meta m row (merge_insert tb_meta m row hash)
    unfolding merge_insert
    insert_split true p ty k kh = rw p (unmerge-Sinks hasher tb_meta m row v)
    insert_split false p ty k kh = rw p (insert_writes ty k kh p)

    -- An insert.
    pub merge_insert-Sinks :
        row.row_type ≡ RowType.insert
        → HasKey cs row.after
        → key_hash hasher cs (key_of cs (image row.after)) ≡ ok hash
        → Sinks hasher tb_meta m row (merge_insert tb_meta m row hash)
    merge_insert-Sinks ty k kh =
        let (found, _) = HasKey-image cs row.after k in
        let (a, p) =
          inserts-total hasher tb_meta m.insert_rows row hash _ v.inserts
            (key_image-insert row ty ∙ found) in
        insert_split a p ty k kh
