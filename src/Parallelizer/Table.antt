-- ===== src/Parallelizer/Table.antt =====
-- dt-parallelizer/src/table_parallelizer.rs: a batch split by table. `None` of the table's name is an
-- item that `partition_raw` passes over.
pub mod Laws
pub mod Names
use cubetran_core.Prelude.{
  Eq, List, Map, Option, Result, Text, [], false, insert, list_eq, lookup, nat_eq, none, option_eq,
  pair_eq, some, values, ℕ, ◌++◌, ◌∷◌,
}
use cubetran_core.Meta.RowData.{RowData}
use cubetran_core.Meta.DtData.{DtData, DtItem}
use cubetran_core.Parallelizer.Merger.{full_tb}
use cubetran_core.Parallelizer.Sinks.{SinkCall, sink_dml, sink_raw}

module _ {ℓ} {A : Type ℓ} where
  pub or_empty : Option (List A) → List A
  or_empty none = []
  or_empty (some sub_data) = sub_data

module _ {ℓ} {K : Type ℓ} {A : Type ℓ} ⦃e : Eq K⦄ where
  -- `get_mut` and `push`, or `insert` of a new vector
  push_to : K → A → Map K (List A) → Map K (List A)
  unfolding or_empty
  push_to tb item sub_data_map =
      insert tb (or_empty (lookup tb sub_data_map) ++ item ∷ []) sub_data_map

  push_if : Option K → A → Map K (List A) → Map K (List A)
  unfolding push_to
  push_if none item sub_data_map = sub_data_map
  push_if (some tb) item sub_data_map = push_to tb item sub_data_map

  -- the loop over the items, each with the key of its table
  pub split_by : (A → Option K) → Map K (List A) → List A → Map K (List A)
  unfolding push_if
  split_by tb_of sub_data_map [] = sub_data_map
  split_by tb_of sub_data_map (item ∷ items) =
      split_by tb_of (push_if (tb_of item) item sub_data_map) items

-- `if let DtData::Dml { row_data } = &item.dt_data`
pub tb_of_item : DtItem → Option Text
unfolding full_tb
tb_of_item item = elim item.dt_data [ DtData.dml row ↦ some (full_tb row) | _ ↦ none ]

unfoldable pub partition_dml : List RowData → List (List RowData)
unfolding split_by full_tb
partition_dml rows = values (split_by (λ row. some (full_tb row)) [] rows)

unfoldable pub partition_raw : List DtItem → List (List DtItem)
unfolding split_by tb_of_item
partition_raw items = values (split_by tb_of_item [] items)

unfoldable pub table_sink_dml : List RowData → ℕ → ℕ → Result (List (SinkCall RowData))
unfolding partition_dml sink_dml
table_sink_dml rows sinker_count parallel_size =
    sink_dml (partition_dml rows) sinker_count parallel_size false

unfoldable pub table_sink_raw : List DtItem → ℕ → ℕ → Result (List (SinkCall DtItem))
unfolding partition_raw sink_raw
table_sink_raw items sinker_count parallel_size =
    sink_raw (partition_raw items) sinker_count parallel_size false
