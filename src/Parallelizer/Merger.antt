-- ===== src/Parallelizer/Merger.antt =====
-- dt-parallelizer/src/rdb_merger.rs: the rows of a batch, merged table by table into deletes and
-- inserts that can be sunk in batches, and the rows that have to be sunk one after the other.
-- The metadata of a table, which the source reads from the database through `RdbMetaManager`, is the
-- parameter `get_tb_meta`, and the hasher of values is the parameter `hasher`.
pub mod Writes
pub mod Undo
pub mod Buffers
pub mod Orders
pub mod Keys
pub mod Step
mod Collision
pub mod Buffered
mod Cases
mod Updates
pub mod Refine
pub mod Passes
pub mod Batch
use cubetran_core.Prelude.{
  Bool, List, Map, Option, Result, Text, [], false, if◌then◌else◌, insert, list_eq, lookup, nat_eq,
  none, not, ok, option_eq, pair_eq, remove, some, true, unwrap, values, ℕ, ◌++◌, ◌==◌, ◌>>=◌, ◌>>◌,
  ◌∷◌,
}
use cubetran_core.Meta.ColValue.{ColValue, eq}
use cubetran_core.Meta.RowData
use cubetran_core.Meta.RowData.{
  ColValues, RdbTbMeta, RowData, RowType, key_image, split_update_row_data,
}

pub record RdbTbMergedData : Type 0 where
  pub delete_rows : Map ℕ RowData
  pub insert_rows : Map ℕ RowData
  pub unmerged_rows : List RowData

pub record TbMergedData : Type 0 where
  pub tb : Text
  pub delete_rows : List RowData
  pub insert_rows : List RowData
  pub unmerged_rows : List RowData

abbrev pub empty_merged : RdbTbMergedData
empty_merged = record { delete_rows = []; insert_rows = []; unmerged_rows = [] }

-- `!=` on `Option<&ColValue>`
unfoldable pub values_eq : Option ColValue → Option ColValue → Bool
values_eq none none = true
values_eq (some a) (some b) = eq a b
values_eq _ _ = false

-- whether some column of `cols` differs between two images
pub cols_differ : List Text → ColValues → ColValues → Bool
unfolding values_eq
cols_differ [] a b = false
cols_differ (col ∷ cols) a b =
    if values_eq (lookup col a) (lookup col b) then cols_differ cols a b else true

pub check_uk_changed : RdbTbMeta → RowData → Result Bool
unfolding cols_differ
check_uk_changed tb_meta row = do
  before ← unwrap row.before
  after ← unwrap row.after
  ok (cols_differ tb_meta.id_cols before after)

-- the row in the buffer under the same hash, if there is one, is another row
collides : RdbTbMeta → RowData → Option RowData → Result Bool
unfolding cols_differ key_image
collides tb_meta row none = ok false
collides tb_meta row (some exist) = do
  cols ← unwrap (key_image row)
  exist_cols ← unwrap (key_image exist)
  ok (cols_differ tb_meta.id_cols cols exist_cols)

pub check_collision : Map ℕ RowData → RdbTbMeta → RowData → ℕ → Result Bool
unfolding collides
check_collision buffer tb_meta row hash = collides tb_meta row (lookup hash buffer)

-- `||` of two checks: the second is made only if the first says no
either : Result Bool → Result Bool → Result Bool
either first second = do hit ← first; if hit then ok true else second

unfoldable pub is_nil {ℓ} : {A : Type ℓ} → List A → Bool
is_nil [] = true
is_nil _ = false

pub merger_hash_code : (ColValue → ℕ) → RowData → RdbTbMeta → Result ℕ
unfolding is_nil
merger_hash_code hasher row tb_meta =
    if is_nil tb_meta.key_map then ok 0 else RowData.get_hash_code hasher row tb_meta

pub unmerge : RdbTbMergedData → RowData → RdbTbMergedData
unmerge merged row = record merged { unmerged_rows = merged.unmerged_rows ++ row ∷ [] }

-- the update put together again from its two halves
pub rejoin : RowData → RowData → RowData
unfolding RowData.new
rejoin del ins = RowData.new del.schema del.tb RowType.update del.before ins.after

pub merge_delete : RdbTbMeta → RdbTbMergedData → RowData → ℕ → Result RdbTbMergedData
unfolding either check_collision unmerge
merge_delete tb_meta merged row hash = do
  collision ←
      either (check_collision merged.insert_rows tb_meta row hash)
        (check_collision merged.delete_rows tb_meta row hash)
  if collision
      then ok (unmerge merged row)
      else ok (record merged {
        insert_rows = remove hash merged.insert_rows;
        delete_rows = insert hash row merged.delete_rows;
      })

-- an update that keeps its unique key, split into the delete and the insert
pub merge_split :
    (ColValue → ℕ) → RdbTbMeta → RdbTbMergedData → RowData × RowData → ℕ → Result RdbTbMergedData
unfolding merger_hash_code either check_collision unmerge rejoin
merge_split hasher tb_meta merged (del, ins) hash = do
  insert_hash ← merger_hash_code hasher ins tb_meta
  collision ←
      either (check_collision merged.insert_rows tb_meta ins insert_hash)
        (check_collision merged.delete_rows tb_meta del hash)
  if collision
      then ok (unmerge merged (rejoin del ins))
      else ok (record merged {
        delete_rows = insert hash del merged.delete_rows;
        insert_rows = insert insert_hash ins merged.insert_rows;
      })

pub merge_update :
    (ColValue → ℕ) → RdbTbMeta → RdbTbMergedData → RowData → ℕ → Result RdbTbMergedData
unfolding check_uk_changed unmerge merge_split split_update_row_data
merge_update hasher tb_meta merged row hash = do
  changed ← check_uk_changed tb_meta row
  if changed
      then ok (unmerge merged row)
      else merge_split hasher tb_meta merged (split_update_row_data row) hash

pub merge_insert : RdbTbMeta → RdbTbMergedData → RowData → ℕ → Result RdbTbMergedData
unfolding check_collision unmerge
merge_insert tb_meta merged row hash = do
  collision ← check_collision merged.insert_rows tb_meta row hash
  if collision
      then ok (unmerge merged row)
      else ok (record merged { insert_rows = insert hash row merged.insert_rows })

-- `match row_data.row_type`
pub merge_typed :
    RowType → (ColValue → ℕ) → RdbTbMeta → RdbTbMergedData → RowData → ℕ → Result RdbTbMergedData
unfolding merge_delete merge_update merge_insert
merge_typed RowType.delete hasher tb_meta merged row hash = merge_delete tb_meta merged row hash
merge_typed RowType.update hasher tb_meta merged row hash =
    merge_update hasher tb_meta merged row hash
merge_typed RowType.insert hasher tb_meta merged row hash = merge_insert tb_meta merged row hash

-- Once a row is unmerged, all rows of its table that follow are.
unfoldable pub merge_row_data :
    (ColValue → ℕ)
    → (Text → Text → Result RdbTbMeta)
    → RdbTbMergedData
    → RowData
    → Result RdbTbMergedData
unfolding is_nil unmerge merger_hash_code merge_typed
merge_row_data hasher get_tb_meta merged row =
    if not (is_nil merged.unmerged_rows) then ok (unmerge merged row) else do
      tb_meta ← get_tb_meta row.schema row.tb
      hash ← merger_hash_code hasher row tb_meta
      if hash == 0
          then ok (unmerge merged row)
          else merge_typed row.row_type hasher tb_meta merged row hash

-- format!("{}.{}", row_data.schema, row_data.tb)
unfoldable pub full_tb : RowData → Text
full_tb row = row.schema ++ b'.' ∷ row.tb

pub or_new : Option RdbTbMergedData → RdbTbMergedData
or_new none = empty_merged
or_new (some merged) = merged

-- the first loop of `merge`, over `tb_data_map`
unfoldable pub merge_rows :
    (ColValue → ℕ)
    → (Text → Text → Result RdbTbMeta)
    → Map Text RdbTbMergedData
    → List RowData
    → Result (Map Text RdbTbMergedData)
unfolding merge_row_data full_tb or_new
merge_rows hasher get_tb_meta tb_data_map [] = ok tb_data_map
merge_rows hasher get_tb_meta tb_data_map (row ∷ data_rest) = do
  merged ← merge_row_data hasher get_tb_meta (or_new (lookup (full_tb row) tb_data_map)) row
  merge_rows hasher get_tb_meta (insert (full_tb row) merged tb_data_map) data_rest

-- `HashMap::drain` and `HashMap::into_values` give the entries in an order of their own: the orders are
-- parameters.
pub record DrainOrders : Type 0 where
  pub tables : Map Text RdbTbMergedData → Map Text RdbTbMergedData
  pub rows : Map ℕ RowData → Map ℕ RowData

-- the vectors that a table's buffers are drained into
unfoldable pub drained : DrainOrders → Text → RdbTbMergedData → TbMergedData
drained orders tb merged = record {
  tb = tb;
  delete_rows = values (orders.rows merged.delete_rows);
  insert_rows = values (orders.rows merged.insert_rows);
  unmerged_rows = merged.unmerged_rows;
}

-- the second loop of `merge`, over the entries in the order in which they are drained
unfoldable pub drain_merged : DrainOrders → Map Text RdbTbMergedData → List TbMergedData
unfolding drained
drain_merged orders [] = []
drain_merged orders ((tb, merged) ∷ rest) = drained orders tb merged ∷ drain_merged orders rest

unfoldable pub merge :
    DrainOrders
    → (ColValue → ℕ)
    → (Text → Text → Result RdbTbMeta)
    → List RowData
    → Result (List TbMergedData)
unfolding merge_rows drain_merged
merge orders hasher get_tb_meta rows = do
  tb_data_map ← merge_rows hasher get_tb_meta [] rows
  ok (drain_merged orders (orders.tables tb_data_map))
