-- ===== src/Parallelizer/MongoMerger.antt =====
-- dt-parallelizer/src/mongo_merger.rs: the rows of a batch, merged by the documents' keys up to the
-- first row without a key. `MongoKey`, the key of a BSON document, is the parameter `K`, with
-- `MongoKey::from_doc` as `from_doc`.
pub mod Laws
use cubetran_core.Prelude.{
  Eq, List, Map, Option, Result, Text, [], insert, list_eq, lookup, nat_eq, none, ok, option_eq,
  pair_eq, remove, some, unwrap, values, ◌>>=◌, ◌>>◌, ◌∷◌,
}
use cubetran_core.Meta.ColValue.{ColValue, Document}
use cubetran_core.Meta.RowData
use cubetran_core.Meta.RowData.{RowData, RowType}
use cubetran_core.Parallelizer.Merger.{TbMergedData, full_tb}
use cubetran_core.Parallelizer.Table.{split_by}

-- MongoConstants::DOC
abbrev pub doc : Text
doc = b'd' ∷ b'o' ∷ b'c' ∷ []

module _ {K : Type 0} ⦃e : Eq K⦄ (from_doc : Document → Option K) where
  -- the insert and the delete buffer
  pub record Buffers : Type 0 where
    pub insert_map : Map K RowData
    pub delete_map : Map K RowData

  pub doc_key : Option ColValue → Option K
  doc_key (some (ColValue.mongo_doc v)) = from_doc v
  doc_key _ = none

  -- an update whose `after` has no document (but a diff) has no key
  update_key : Option ColValue → Option ColValue → Option K
  unfolding doc_key
  update_key before none = none
  update_key before (some v) = doc_key before

  key_by_type : RowType → RowData → Result (Option K)
  unfolding doc_key update_key
  key_by_type RowType.insert row = do after ← unwrap row.after; ok (doc_key (lookup doc after))
  key_by_type RowType.delete row = do before ← unwrap row.before; ok (doc_key (lookup doc before))
  key_by_type RowType.update row = do
    before ← unwrap row.before
    after ← unwrap row.after
    ok (update_key (lookup doc before) (lookup doc after))

  unfoldable pub get_hash_key : RowData → Result (Option K)
  unfolding key_by_type
  get_hash_key row = key_by_type row.row_type row

  put_by_type : RowType → Buffers → K → RowData → Result Buffers
  put_by_type RowType.insert m id row = ok (record m { insert_map = insert id row m.insert_map })
  put_by_type RowType.delete m id row =
      ok (record { insert_map = remove id m.insert_map; delete_map = insert id row m.delete_map })
  put_by_type RowType.update m id row = do
    before ← unwrap row.before
    after ← unwrap row.after
    ok (record {
      insert_map =
          insert id (RowData.new row.schema row.tb RowType.insert none (some after)) m.insert_map;
      delete_map =
          insert id (RowData.new row.schema row.tb RowType.delete (some before) none) m.delete_map;
    })

  pub put : Buffers → K → RowData → Result Buffers
  unfolding put_by_type
  put m id row = put_by_type row.row_type m id row

  -- the loop, with what is left of the data
  pub merge_loop : Buffers → List RowData → Result (Buffers × List RowData)
  unfolding get_hash_key put
  merge_loop m [] = ok (m, [])
  merge_loop m (row ∷ rows) = do
    key ← get_hash_key row
    elim key [ none ↦ ok (m, row ∷ rows) | some id ↦ do m' ← put m id row; merge_loop m' rows ]

  unfoldable pub merge_mongo_rows :
      List RowData → Result (List RowData × List RowData × List RowData)
  unfolding merge_loop
  merge_mongo_rows rows = do
    (m, rest) ← merge_loop (record { insert_map = []; delete_map = [] }) rows
    ok (values m.insert_map, values m.delete_map, rest)

  merge_mongo_tables : Map Text (List RowData) → Result (List TbMergedData)
  unfolding merge_mongo_rows
  merge_mongo_tables [] = ok []
  merge_mongo_tables ((tb, rows) ∷ tables) = do
    (inserts, deletes, rest) ← merge_mongo_rows rows
    results ← merge_mongo_tables tables
    ok (
        record { tb = tb; delete_rows = deletes; insert_rows = inserts; unmerged_rows = rest }
        ∷ results)

  unfoldable pub merge_mongo : List RowData → Result (List TbMergedData)
  unfolding merge_mongo_tables full_tb
  merge_mongo rows = merge_mongo_tables (split_by (λ row. some (full_tb row)) [] rows)
