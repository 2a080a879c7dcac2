-- ===== src/Meta/RowData.antt =====
-- dt-common/src/meta/row_type.rs, rdb_tb_meta.rs and row_data.rs: a row change and the table it is
-- about. A column map is an association list. `col_origin_type_map`, `cols` and the foreign keys'
-- contents are left out of the table's description: the modelled code asks only whether there are
-- foreign keys.
pub mod Laws
use cubetran_core.Prelude.{
  Bool, List, Map, Option, Result, Text, [], false, list_eq, lookup, nat_eq, none, ok, pair_eq,
  some, true, unwrap, ℕ, ◌%◌, ◌*◌, ◌+◌, ◌==◌, ◌>>=◌, ◌>>◌, ◌^◌, ◌∷◌,
}
use cubetran_core.Meta.ColValue.{ColValue, get_malloc_size, hash_code}

pub data RowType : Type 0 where
  insert : RowType
  update : RowType
  delete : RowType

unfoldable pub row_type_eq : RowType → RowType → Bool
row_type_eq insert insert = true
row_type_eq update update = true
row_type_eq delete delete = true
row_type_eq _ _ = false

-- HashMap<String, ColValue>
abbrev pub ColValues : Type 0
ColValues = Map Text ColValue

pub record RowData : Type 0 where
  pub schema : Text
  pub tb : Text
  pub row_type : RowType
  pub before : Option ColValues
  pub after : Option ColValues
  pub data_size : ℕ

pub record RdbTbMeta : Type 0 where
  pub schema : Text
  pub tb : Text
  pub key_map : Map Text (List Text)
  pub order_col : Option Text
  pub partition_col : Text
  pub id_cols : List Text
  pub foreign_keys : List Text
  pub ref_by_foreign_keys : List Text

unfoldable pub size_of_cols : ColValues → ℕ
size_of_cols [] = 0
size_of_cols ((col, v) ∷ cols) = get_malloc_size v + size_of_cols cols

unfoldable pub size_of_image : Option ColValues → ℕ
unfolding size_of_cols
size_of_image none = 0
size_of_image (some cols) = size_of_cols cols

-- the size of both images; other fields are ignored
unfoldable pub get_data_malloc_size : RowData → ℕ
unfolding size_of_image
get_data_malloc_size row = size_of_image row.before + size_of_image row.after

unfoldable pub refresh_data_size : RowData → RowData
unfolding get_data_malloc_size
refresh_data_size row = record row { data_size = get_data_malloc_size row }

unfoldable pub new : Text → Text → RowType → Option ColValues → Option ColValues → RowData
unfolding refresh_data_size
new schema tb row_type before after = refresh_data_size (record {
  schema = schema;
  tb = tb;
  row_type = row_type;
  before = before;
  after = after;
  data_size = 0;
})

unfoldable pub reverse_type : RowType → RowType
reverse_type insert = delete
reverse_type update = update
reverse_type delete = insert

unfoldable pub reverse : RowData → RowData
unfolding reverse_type
reverse row = record row {
  row_type = reverse_type row.row_type;
  before = row.after;
  after = row.before;
}

unfoldable pub split_update_row_data : RowData → RowData × RowData
unfolding new
split_update_row_data row =
    (new row.schema row.tb delete row.before none, new row.schema row.tb insert none row.after)

unfoldable pub build_insert_row_data : ColValues → RdbTbMeta → RowData
unfolding new
build_insert_row_data after tb_meta = new tb_meta.schema tb_meta.tb insert none (some after)

-- the image that identifies the row: `after` of an insert, `before` of the others
unfoldable pub key_image : RowData → Option ColValues
key_image row = elim row.row_type [ insert ↦ row.after | _ ↦ row.before ]

-- One round multiplies by 31 in a `u128`, and a NULL (whose hash is 0) ends it with 0.
unfoldable pub hash_cols : (ColValue → ℕ) → ColValues → List Text → ℕ → Result ℕ
hash_cols hasher cols [] hash = ok hash
hash_cols hasher cols (col ∷ rest) hash = do
  v ← unwrap (lookup col cols)
  let col_hash = hash_code hasher v
  elim (col_hash == 0) [
    | true ↦ ok 0
    | false ↦ hash_cols hasher cols rest ((31 * hash + col_hash) % 2 ^ 128)
  ]

unfoldable pub get_hash_code : (ColValue → ℕ) → RowData → RdbTbMeta → Result ℕ
unfolding hash_cols key_image
get_hash_code hasher row tb_meta = do
  cols ← unwrap (key_image row)
  hash_cols hasher cols tb_meta.id_cols 1
