-- ===== src/Parallelizer/Merger/Step.antt =====
-- One call of `merge_row_data`: the merged data is kept well formed, and sinking it does what sinking
-- the rows one after the other does.

use cubetran_core.Prelude.{
  All, List, Map, Option, Result, Text, [], list_eq, nat_eq, none, ok, option_eq, pair_eq, some, ℕ,
  ◌∷◌, ◌≡◌,
}
use cubetran_core.Meta.ColValue.{ColValue}
use cubetran_core.Meta.ColValue.Equality.{value_eq}
use cubetran_core.Meta.RowData.{ColValues, RowData, RowType}
use cubetran_core.Parallelizer.Merger.{RdbTbMergedData, empty_merged, unmerge}
use cubetran_core.Parallelizer.Merger.Writes.{Distinct, IsHashed, apply_writes}
use cubetran_core.Parallelizer.Merger.Buffers.{map_values}
use cubetran_core.Parallelizer.Merger.Keys.{
  IsExactKey, Key, Table, hash_key, image, key_of, sink_row, sink_rows, sink_rows-append,
}

-- The image is there, and its key columns are there and hold no floats and no documents.
pub record HasKey (ids : List Text) (o : Option ColValues) : Type 0 where
  pub cols : ColValues
  pub found : o ≡ some cols
  pub exact : IsExactKey (key_of ids cols)

-- A row change has the images that its type calls for.
abbrev pub IsWhole : List Text → RowType → RowData → Type 0
IsWhole ids RowType.insert row = HasKey ids row.after
IsWhole ids RowType.delete row = HasKey ids row.before
IsWhole ids RowType.update row = HasKey ids row.before × HasKey ids row.after

module _ (hasher : ColValue → ℕ) (ids : List Text) where
  abbrev pub key_hash : Key → Result ℕ
  key_hash key = hash_key hasher key 1

  -- an entry of `delete_rows` or `insert_rows`, under the hash of its key
  pub record IsDelete (e : ℕ × RowData) : Type 0 where
    pub type : e.1.row_type ≡ RowType.delete
    pub whole : HasKey ids e.1.before
    pub hashed : key_hash (key_of ids (image e.1.before)) ≡ ok e.0

  pub record IsInsert (e : ℕ × RowData) : Type 0 where
    pub type : e.1.row_type ≡ RowType.insert
    pub whole : HasKey ids e.1.after
    pub hashed : key_hash (key_of ids (image e.1.after)) ≡ ok e.0

  pub record IsMerged (m : RdbTbMergedData) : Type 0 where
    pub deletes : All IsDelete m.delete_rows
    pub inserts : All IsInsert m.insert_rows
    pub deletes_distinct : Distinct m.delete_rows
    pub inserts_distinct : Distinct m.insert_rows

  pub empty_merged-IsMerged : IsMerged empty_merged
  empty_merged-IsMerged = record {
    deletes = tt;
    inserts = tt;
    deletes_distinct = tt;
    inserts_distinct = tt;
  }

  abbrev pub delete_write : RowData → Key × Option ColValues
  delete_write row = (key_of ids (image row.before), none)

  abbrev pub insert_write : RowData → Key × Option ColValues
  insert_write row = (key_of ids (image row.after), some (image row.after))

  -- the table after the deletes and the inserts
  abbrev pub merged_table : RdbTbMergedData → Table → Table
  merged_table m t =
      apply_writes (map_values insert_write m.insert_rows)
        (apply_writes (map_values delete_write m.delete_rows) t)

  -- ... and after the unmerged rows
  unfoldable pub sink_merged : RdbTbMergedData → Table → Table
  sink_merged m t = sink_rows ids (merged_table m t) m.unmerged_rows

  pub sink_merged-unmerge :
      (m : RdbTbMergedData) (row : RowData) (t : Table)
      → sink_merged (unmerge m row) t ≡ sink_row ids (sink_merged m t) row
  unfolding sink_merged unmerge sink_rows
  sink_merged-unmerge m row t = sink_rows-append ids (merged_table m t) m.unmerged_rows (row ∷ [])

  pub unmerge-IsMerged :
      (m : RdbTbMergedData) (row : RowData) → IsMerged m → IsMerged (unmerge m row)
  unfolding unmerge
  unmerge-IsMerged m row v = record {
    deletes = v.deletes;
    inserts = v.inserts;
    deletes_distinct = v.deletes_distinct;
    inserts_distinct = v.inserts_distinct;
  }

  pub deletes-IsHashed :
      (m : Map ℕ RowData) → All IsDelete m → IsHashed key_hash (map_values delete_write m)
  deletes-IsHashed [] d = tt
  deletes-IsHashed ((h, row) ∷ m) d = (d.0.hashed, deletes-IsHashed m d.1)

  pub inserts-IsHashed :
      (m : Map ℕ RowData) → All IsInsert m → IsHashed key_hash (map_values insert_write m)
  inserts-IsHashed [] d = tt
  inserts-IsHashed ((h, row) ∷ m) d = (d.0.hashed, inserts-IsHashed m d.1)
