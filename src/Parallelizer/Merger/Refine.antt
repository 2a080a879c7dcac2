-- ===== src/Parallelizer/Merger/Refine.antt =====
-- One call of `merge_row_data`, on every branch.
use cubetran_core.Prelude.{
  Bool-cases, List, Result, Text, [], arith, false, if◌then◌else◌, inl, inr, list_eq, nat_eq, none,
  ok, option_eq, pair_eq, refl, some, subst, sym, true, ℕ, ◌%◌, ◌*◌, ◌+◌, ◌==◌, ◌^◌, ◌∙◌, ◌∷◌, ◌≡◌,
}
use cubetran_core.Meta.ColValue.{ColValue, hash_code}
use cubetran_core.Meta.ColValue.Equality.{value_eq}
use cubetran_core.Meta.RowData.{ColValues, RdbTbMeta, RowData, RowType, key_image}
use cubetran_core.Parallelizer.Merger.{
  RdbTbMergedData, is_nil, merge_row_data, merge_typed, unmerge,
}
use cubetran_core.Parallelizer.Merger.Keys.{IsExactKey, Key, hash_key, image, key_of}
use cubetran_core.Parallelizer.Merger.Step.{IsMerged, IsWhole, key_hash}
use cubetran_core.Parallelizer.Merger.Buffered.{Sinks, unmerge-Sinks}
use cubetran_core.Parallelizer.Merger.Collision.{
  key_image-delete, key_image-insert, key_image-update,
}
use cubetran_core.Parallelizer.Merger.Cases.{merge_delete-Sinks, merge_insert-Sinks}
use cubetran_core.Parallelizer.Merger.Updates.{merge_update-Sinks, merger_hash_code-key}

hash_key-total :
    (hasher : ColValue → ℕ) (key : Key) (start : ℕ)
    → IsExactKey key
    → (hash : ℕ) × (hash_key hasher key start ≡ ok hash)
unfolding hash_key
hash_key-total hasher [] start e = (start, refl)
hash_key-total hasher (none ∷ key) start e = absurd e
hash_key-total hasher (some v ∷ key) start e = elim (Bool-cases (hash_code hasher v == 0)) [
  | inl null ↦ (0, rw (null, hash_key))
  | inr other ↦
      rw (other, hash_key)
        (hash_key-total hasher key ((31 * start + hash_code hasher v) % 2 ^ 128) e.1)
]

is_nil-true {ℓ} : {A : Type ℓ} (xs : List A) → is_nil xs ≡ true → xs ≡ []
unfolding is_nil
is_nil-true [] h = refl
is_nil-true (x ∷ xs) h = cc

module _ (hasher : ColValue → ℕ) (tb_meta : RdbTbMeta) where
  -- the key's image, whatever the type of the row
  whole_image :
      (type : RowType) (row : RowData)
      → row.row_type ≡ type
      → IsWhole tb_meta.id_cols type row
      → (cols : ColValues) × (key_image row ≡ some cols) × IsExactKey (key_of tb_meta.id_cols cols)
  unfolding key_image
  whole_image RowType.insert row ty w = (w.cols, ground arith, w.exact)
  whole_image RowType.delete row ty w = (w.cols, ground arith, w.exact)
  whole_image RowType.update row ty w = (w.0.cols, key_image-update row ty ∙ w.0.found, w.0.exact)

  merge_typed-Sinks :
      (type : RowType) (m : RdbTbMergedData) (row : RowData) (hash : ℕ) (cols : ColValues)
      → row.row_type ≡ type
      → IsWhole tb_meta.id_cols type row
      → key_image row ≡ some cols
      → key_hash hasher tb_meta.id_cols (key_of tb_meta.id_cols cols) ≡ ok hash
      → IsMerged hasher tb_meta.id_cols m
      → m.unmerged_rows ≡ []
      → is_nil tb_meta.key_map ≡ false
      → Sinks hasher tb_meta m row (merge_typed type hasher tb_meta m row hash)
  unfolding merge_typed
  merge_typed-Sinks RowType.insert m row hash cols ty w p kh v nil keyed =
      merge_insert-Sinks hasher tb_meta m v nil row hash ty w (
        subst (λ o. key_hash hasher tb_meta.id_cols (key_of tb_meta.id_cols (image o)) ≡ ok hash)
          (sym p ∙ key_image-insert row ty) kh)
  merge_typed-Sinks RowType.delete m row hash cols ty w p kh v nil keyed =
      merge_delete-Sinks hasher tb_meta m v nil row hash ty w (
        subst (λ o. key_hash hasher tb_meta.id_cols (key_of tb_meta.id_cols (image o)) ≡ ok hash)
          (sym p ∙ key_image-delete row ty) kh)
  merge_typed-Sinks RowType.update m row hash cols ty w p kh v nil keyed =
      merge_update-Sinks hasher tb_meta m v nil row hash ty w.0 w.1
        (subst (λ o. key_hash hasher tb_meta.id_cols (key_of tb_meta.id_cols (image o)) ≡ ok hash)
          (sym p ∙ key_image-update row ty) kh)
        keyed

  -- the hash is 0, or the row is merged by its type
  merge_hashed-Sinks :
      (m : RdbTbMergedData) (row : RowData) (hash : ℕ) (cols : ColValues)
      → IsWhole tb_meta.id_cols row.row_type row
      → key_image row ≡ some cols
      → key_hash hasher tb_meta.id_cols (key_of tb_meta.id_cols cols) ≡ ok hash
      → IsMerged hasher tb_meta.id_cols m
      → m.unmerged_rows ≡ []
      → is_nil tb_meta.key_map ≡ false
      → Sinks hasher tb_meta m row (
          if hash == 0
          then ok (unmerge m row)
          else merge_typed row.row_type hasher tb_meta m row hash)
  merge_hashed-Sinks m row hash cols w p kh v nil keyed = elim (Bool-cases (hash == 0)) [
    | inl zero_hash ↦ rw zero_hash (unmerge-Sinks hasher tb_meta m row v)
    | inr other ↦ rw other (merge_typed-Sinks row.row_type m row hash cols refl w p kh v nil keyed)
  ]

  -- One call of `merge_row_data` on a row of the table returns, if the table's metadata can be read, the
  -- images and key columns of the row are there with neither a float nor a document in the key, and the merged data is well
  -- formed. It keeps the merged data well formed, and sinking the new data is sinking the old data and
  -- then the row, on every target table where an update finds the row that it replaces.
  pub merge_row_data-Sinks :
      (get_tb_meta : Text → Text → Result RdbTbMeta) (m : RdbTbMergedData) (row : RowData)
      → get_tb_meta row.schema row.tb ≡ ok tb_meta
      → IsWhole tb_meta.id_cols row.row_type row
      → IsMerged hasher tb_meta.id_cols m
      → Sinks hasher tb_meta m row (merge_row_data hasher get_tb_meta m row)
  unfolding merge_row_data
  merge_row_data-Sinks get_tb_meta m row known w v = elim (Bool-cases (is_nil m.unmerged_rows)) [
    | inr some_left ↦ rw some_left (unmerge-Sinks hasher tb_meta m row v)
    | inl none_left ↦
        let (cols, p, exact) = whole_image row.row_type row refl w in
        let (hash, kh) = hash_key-total hasher (key_of tb_meta.id_cols cols) 1 exact in
        let hash_eq = merger_hash_code-key hasher tb_meta row cols p in
        elim (Bool-cases (is_nil tb_meta.key_map)) [
          | inl no_key ↦
              rw (none_left, known, hash_eq, no_key) (unmerge-Sinks hasher tb_meta m row v)
          | inr keyed ↦
              rw (none_left, known, hash_eq, keyed, kh)
                (merge_hashed-Sinks m row hash cols w p kh v (is_nil-true m.unmerged_rows none_left)
                  keyed)
        ]
  ]
