-- ===== src/Meta/RowData/Laws.antt =====
-- Reversing and splitting a row change.
use cubetran_core.Prelude.{arith, list_eq, nat_eq, option_eq, pair_eq, refl, ◌+◌, ◌≡◌, ◌≢◌}
use cubetran_core.Meta.RowData.{
  RowData, RowType, get_data_malloc_size, key_image, reverse, reverse_type, split_update_row_data,
}

reverse_type-reverse_type : (t : RowType) → reverse_type (reverse_type t) ≡ t
unfolding reverse_type
reverse_type-reverse_type RowType.insert = refl
reverse_type-reverse_type _ = refl

pub reverse-reverse : (row : RowData) → reverse (reverse row) ≡ row
unfolding reverse
reverse-reverse row = λ i. record row { row_type = reverse_type-reverse_type row.row_type i }

-- Reversing an insert or a delete keeps the image that identifies the row: the row that an insert
-- wrote is the row that its reverse deletes.
pub key_image-reverse :
    (row : RowData) → row.row_type ≢ RowType.update → key_image (reverse row) ≡ key_image row
unfolding key_image reverse
key_image-reverse row h = ground arith

-- Splitting an update keeps the images and the table, and the two parts' sizes add up to the size
-- of the whole.
pub split_sizes :
    (row : RowData)
    → let (d, i) = split_update_row_data row in
      (d.data_size + i.data_size ≡ get_data_malloc_size row)
      × (d.before ≡ row.before)
      × (i.after ≡ row.after)
      × (d.row_type ≡ RowType.delete)
      × (i.row_type ≡ RowType.insert)
unfolding split_update_row_data
split_sizes row = (omega arith, refl, refl, refl, refl)
