-- ===== src/Parallelizer/Tests.antt =====
-- The theorems on the foxlake and the check parallelizer at concrete inputs.
use cubetran_core.Parallelizer.MongoMerger.{Buffers, doc}
use cubetran_core.Prelude.{
  All, List, Option, [], arith, concat, get_elem?, list_eq, nat_eq, none, ok, option_eq, pair_eq,
  some, ℕ, ◌<◌, ◌∷◌, ◌≡◌,
}
use cubetran_core.Meta.ColValue.{ColValue, Document}
use cubetran_core.Meta.RowData.{RowData, RowType}
use cubetran_core.Meta.DtData.{DtData, DtItem, Position}
use cubetran_core.Parallelizer.Merger.{TbMergedData}
use cubetran_core.Parallelizer.Sinks.{SinkCall}
use cubetran_core.Parallelizer.Foxlake.{IsPiece, partition_by_size, partition_by_size-cuts}
use cubetran_core.Parallelizer.Check.{check_tables, check_tables-total, checked, to_check}

abbrev sized : ℕ → RowData
sized n = record {
  schema = [];
  tb = [];
  row_type = RowType.insert;
  before = none;
  after = some [];
  data_size = n;
}

abbrev sized_item : ℕ → DtItem
sized_item n = record {
  dt_data = DtData.dml (sized n);
  position = Position.nowhere;
  data_origin_node = [];
}

abbrev three_items : List DtItem
three_items = sized_item 4 ∷ sized_item 5 ∷ sized_item 20 ∷ []

partition_by_size-cuts_example :
    (concat (partition_by_size three_items 2 10) ≡ three_items)
    × (1 < 2 → All (IsPiece 10) (partition_by_size three_items 2 10))
partition_by_size-cuts_example = partition_by_size-cuts three_items 2 10

abbrev one_table : List TbMergedData
one_table =
    record {
      tb = [];
      delete_rows = [];
      insert_rows = sized 1 ∷ sized 2 ∷ [];
      unmerged_rows = sized 3 ∷ [];
    }
    ∷ []

check_tables-total_example :
    (calls : List (List (SinkCall RowData))) × (check_tables 3 2 one_table ≡ ok calls)
    × (checked calls ≡ to_check one_table)
check_tables-total_example = check_tables-total 3 2 one_table (omega arith) (omega arith)

abbrev first_code : Document → Option ℕ
first_code v = get_elem? v.text 0

abbrev seven : Document
seven = record { text = 7 ∷ []; compared = some (7 ∷ []) }

abbrev document : RowType → RowData
document type = record {
  schema = [];
  tb = [];
  row_type = type;
  before = some ((doc, ColValue.mongo_doc seven) ∷ []);
  after = some ((doc, ColValue.mongo_doc seven) ∷ []);
  data_size = 0;
}

abbrev documents : List RowData
documents = document RowType.insert ∷ document RowType.update ∷ document RowType.delete ∷ []

abbrev no_buffers : Buffers first_code
no_buffers = record { insert_map = []; delete_map = [] }
