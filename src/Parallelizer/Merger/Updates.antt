-- ===== src/Parallelizer/Merger/Updates.antt =====
-- An update, which is split into a delete and an insert where its key stays.
use cubetran_core.Prelude.{
  Bool, Bool-cases, List, Text, [], ap, false, if◌then◌else◌, inl, inr, insert, list_eq, nat_eq,
  none, ok, option_eq, pair_eq, refl, some, subst, sym, true, ℕ, ◌∙◌, ◌≡◌,
}
use cubetran_core.Meta.ColValue.{ColValue}
use cubetran_core.Meta.ColValue.Equality.{value_eq}
use cubetran_core.Meta.RowData
use cubetran_core.Meta.RowData.{
  ColValues, RdbTbMeta, RowData, RowType, key_image, split_update_row_data,
}
use cubetran_core.Parallelizer.Merger.{
  RdbTbMergedData, check_collision, check_uk_changed, cols_differ, is_nil, merge_split,
  merge_update, merger_hash_code, rejoin, unmerge,
}
use cubetran_core.Parallelizer.Merger.Writes.{
  All-insert, apply_writes, insert-Distinct, write, write_over,
}
use cubetran_core.Parallelizer.Merger.Buffers.{map_values}
use cubetran_core.Parallelizer.Merger.Keys.{
  Table, cols_differ-false, hash_cols-eq-hash_key, image, key_of, sink_row, sink_rows, sink_typed,
}
use cubetran_core.Parallelizer.Merger.Step.{
  HasKey, IsDelete, IsInsert, IsMerged, delete_write, insert_write, key_hash, merged_table,
  sink_merged, sink_merged-unmerge, unmerge-IsMerged,
}
use cubetran_core.Parallelizer.Merger.Buffered.{
  FitsAs, HasKey-image, Sinks, deletes_of, insert_to_deletes, insert_to_inserts, inserts_of,
  unmerge-Sinks,
}
use cubetran_core.Meta.RowData.{split_update_row_data}
use cubetran_core.Parallelizer.Merger.Collision.{
  deletes-total, inserts-total, key_image-delete, key_image-insert,
}
use cubetran_core.Parallelizer.Merger.Cases.{sink_merged-nil}

-- the update as it is unmerged after it has been split
rejoined : RowData → RowData
rejoined row = rejoin (split_update_row_data row).0 (split_update_row_data row).1

module _ (hasher : ColValue → ℕ) (tb_meta : RdbTbMeta) where
  pub merger_hash_code-key :
      (row : RowData) (cols : ColValues)
      → key_image row ≡ some cols
      → merger_hash_code hasher row tb_meta ≡ (
          if is_nil tb_meta.key_map
          then ok 0
          else key_hash hasher tb_meta.id_cols (key_of tb_meta.id_cols cols))
  unfolding merger_hash_code RowData.get_hash_code
  merger_hash_code-key row cols p =
      ap (λ h. if is_nil tb_meta.key_map then ok 0 else h)
        (rw p (hash_cols-eq-hash_key hasher cols tb_meta.id_cols 1))

  check_uk_changed-eq :
      (row : RowData)
      → HasKey tb_meta.id_cols row.before
      → HasKey tb_meta.id_cols row.after
      → check_uk_changed tb_meta row
        ≡ ok (cols_differ tb_meta.id_cols (image row.before) (image row.after))
  unfolding check_uk_changed
  check_uk_changed-eq row b a = rw (b.found, a.found)

  sink_row-rejoined :
      (row : RowData) (t : Table)
      → row.row_type ≡ RowType.update
      → sink_row tb_meta.id_cols t (rejoined row) ≡ sink_row tb_meta.id_cols t row
  unfolding rejoined rejoin split_update_row_data sink_row
  sink_row-rejoined row t ty =
      ap (λ k. sink_typed k tb_meta.id_cols t (image row.before) (image row.after)) (sym ty)

  sink_row-update :
      (row : RowData) (t : Table) (old : ColValues)
      → row.row_type ≡ RowType.update
      → t (key_of tb_meta.id_cols (image row.before)) ≡ some old
      → sink_row tb_meta.id_cols t row
        ≡ write
            (key_of tb_meta.id_cols (image row.after))
            (some (image row.after))
            (write (key_of tb_meta.id_cols (image row.before)) none t)
  unfolding sink_row
  sink_row-update row t old ty found =
      ap (λ k. sink_typed k tb_meta.id_cols t (image row.before) (image row.after)) ty
      ∙ rw (found, sink_typed)

module _ (hasher : ColValue → ℕ) (tb_meta : RdbTbMeta) (m : RdbTbMergedData)
    (v : IsMerged hasher tb_meta.id_cols m) (nil : m.unmerged_rows ≡ []) (row : RowData) (hash : ℕ)
    (ty : row.row_type ≡ RowType.update) (kb : HasKey tb_meta.id_cols row.before)
    (ka : HasKey tb_meta.id_cols row.after)
    (kh : key_hash hasher tb_meta.id_cols (key_of tb_meta.id_cols (image row.before)) ≡ ok hash)
    (same : key_of tb_meta.id_cols (image row.before)
      ≡ key_of tb_meta.id_cols (image row.after)) where
  abbrev ids : List Text
  ids = tb_meta.id_cols

  del : RowData
  del = (split_update_row_data row).0

  ins : RowData
  ins = (split_update_row_data row).1

  after_hash : key_hash hasher ids (key_of ids (image row.after)) ≡ ok hash
  after_hash = rw same at kh

  unmerge-rejoined : Sinks hasher tb_meta m row (ok (unmerge m (rejoined row)))
  unmerge-rejoined = (
    _,
    refl,
    unmerge-IsMerged hasher ids m (rejoined row) v,
    λ t _.
        sink_merged-unmerge hasher ids m (rejoined row) t
        ∙ sink_row-rejoined hasher tb_meta row (sink_merged hasher ids m t) ty,
  )

  -- The delete goes to the one buffer and the insert to the other, and the table is written once.
  update_tables :
      (t : Table) (old : ColValues)
      → merged_table hasher ids m t (key_of ids (image row.before)) ≡ some old
      → check_collision m.insert_rows tb_meta ins hash ≡ ok false
      → check_collision m.delete_rows tb_meta del hash ≡ ok false
      → apply_writes
          (map_values (insert_write hasher ids) (insert hash ins m.insert_rows))
          (apply_writes (map_values (delete_write hasher ids) (insert hash del m.delete_rows)) t)
        ≡ sink_row ids (merged_table hasher ids m t) row
  unfolding del ins split_update_row_data
  update_tables t old found ci cd =
      let start = apply_writes (deletes_of hasher tb_meta m) t in
      let before = key_of ids (image row.before) in
      ap (apply_writes (map_values (insert_write hasher ids) (insert hash ins m.insert_rows)))
        (insert_to_deletes hasher tb_meta m del hash t v kb refl kh cd)
      ∙ insert_to_inserts hasher tb_meta m ins hash (write before none start) v ka refl after_hash
          ci
      ∙ ap
          (λ k.
            write k (some (image row.after))
              (apply_writes (inserts_of hasher tb_meta m) (write before none start)))
          (sym same)
      ∙ write_over (inserts_of hasher tb_meta m) before (some (image row.after)) none start
      ∙ ap (λ k. write k (some (image row.after)) (write before none (merged_table hasher ids m t)))
          same
      ∙ sym (sink_row-update hasher tb_meta row (merged_table hasher ids m t) old ty found)

  update_writes :
      check_collision m.insert_rows tb_meta ins hash ≡ ok false
      → check_collision m.delete_rows tb_meta del hash ≡ ok false
      → Sinks hasher tb_meta m row (
          ok (record m {
            delete_rows = insert hash del m.delete_rows;
            insert_rows = insert hash ins m.insert_rows;
          }))
  unfolding sink_merged sink_rows del ins split_update_row_data
  update_writes ci cd = (
    _,
    refl,
    record {
      deletes =
          All-insert (IsDelete hasher ids) m.delete_rows hash del
            (record { type = refl; whole = kb; hashed = kh }) v.deletes;
      inserts =
          All-insert (IsInsert hasher ids) m.insert_rows hash ins
            (record { type = refl; whole = ka; hashed = after_hash }) v.inserts;
      deletes_distinct = insert-Distinct m.delete_rows hash del v.deletes_distinct;
      inserts_distinct = insert-Distinct m.insert_rows hash ins v.inserts_distinct;
    },
    λ t fit.
        let none_unmerged = sink_merged-nil hasher tb_meta m t nil in
        let (old, found) = subst (λ k. FitsAs k ids (sink_merged hasher ids m t) row) ty fit in
        ap (sink_rows ids _) nil
        ∙ update_tables t old
            (subst (λ x. x (key_of ids (image row.before)) ≡ some old) none_unmerged found) ci cd
        ∙ ap (λ x. sink_row ids x row) (sym none_unmerged),
  )

  update_split :
      (a b : Bool)
      → check_collision m.insert_rows tb_meta ins hash ≡ ok a
      → check_collision m.delete_rows tb_meta del hash ≡ ok b
      → merger_hash_code hasher ins tb_meta ≡ ok hash
      → Sinks hasher tb_meta m row (merge_split hasher tb_meta m (split_update_row_data row) hash)
  unfolding merge_split rejoined del ins
  update_split true b p q h = rw (h, p) unmerge-rejoined
  update_split false true p q h = rw (h, p, q) unmerge-rejoined
  update_split false false p q h = rw (h, p, q) (update_writes p q)

  ins_hash : is_nil tb_meta.key_map ≡ false → merger_hash_code hasher ins tb_meta ≡ ok hash
  unfolding ins split_update_row_data
  ins_hash keyed =
      merger_hash_code-key hasher tb_meta ins (image row.after)
        (key_image-insert ins refl ∙ (HasKey-image ids row.after ka).0)
      ∙ rw keyed after_hash

  -- An update that keeps its key.
  update_kept-Sinks :
      is_nil tb_meta.key_map ≡ false
      → Sinks hasher tb_meta m row (merge_split hasher tb_meta m (split_update_row_data row) hash)
  unfolding split_update_row_data ins del
  update_kept-Sinks keyed =
      let ins_image = key_image-insert ins refl ∙ (HasKey-image ids row.after ka).0 in
      let del_image = key_image-delete del refl ∙ (HasKey-image ids row.before kb).0 in
      let (a, p) = inserts-total hasher tb_meta m.insert_rows ins hash _ v.inserts ins_image in
      let (b, q) = deletes-total hasher tb_meta m.delete_rows del hash _ v.deletes del_image in
      update_split a b p q (ins_hash keyed)

module _ (hasher : ColValue → ℕ) (tb_meta : RdbTbMeta) (m : RdbTbMergedData)
    (v : IsMerged hasher tb_meta.id_cols m) (nil : m.unmerged_rows ≡ []) (row : RowData)
    (hash : ℕ) where
  -- An update.
  pub merge_update-Sinks :
      row.row_type ≡ RowType.update
      → HasKey tb_meta.id_cols row.before
      → HasKey tb_meta.id_cols row.after
      → key_hash hasher tb_meta.id_cols (key_of tb_meta.id_cols (image row.before)) ≡ ok hash
      → is_nil tb_meta.key_map ≡ false
      → Sinks hasher tb_meta m row (merge_update hasher tb_meta m row hash)
  unfolding merge_update
  merge_update-Sinks ty kb ka kh keyed =
      let changed = cols_differ tb_meta.id_cols (image row.before) (image row.after) in
      elim (Bool-cases changed) [
        | inl yes_changed ↦
            rw (check_uk_changed-eq hasher tb_meta row kb ka, yes_changed)
              (unmerge-Sinks hasher tb_meta m row v)
        | inr kept ↦
            rw (check_uk_changed-eq hasher tb_meta row kb ka, kept)
              (update_kept-Sinks hasher tb_meta m v nil row hash ty kb ka kh
                (cols_differ-false tb_meta.id_cols (image row.before) (image row.after)
                  (HasKey-image tb_meta.id_cols row.before kb).1 kept)
                keyed)
      ]
