-- ===== src/Tests.antt =====
-- The theorems at concrete inputs.
use cubetran_core.Meta.ColValue.Equality.{is_exact, value_eq}
use cubetran_core.Meta.DtData.{DtData, DtItem, Position, get_data_size}
use cubetran_core.Meta.DtQueue.{DtQueue, bytes, item_size, pop, push}
use cubetran_core.Meta.DtQueue.Sequential.{IsValid, pop_lem, push_lem}
use cubetran_core.Meta.DtQueue.Interleaving.{
  IsCovered, Reach, Reach-IsCovered, Shared, announce, count_lost, enqueue, here, load_bytes, next,
  refuse, see_room, start,
}
use cubetran_core.Meta.RowData.Laws.{key_image-reverse, reverse-reverse, split_sizes}
use cubetran_core.Parallelizer.Sinks.{SinkCall, sink_from, sink_from-total, sub_datas_of}
use cubetran_core.Parallelizer.Base.{drain}
use cubetran_core.Parallelizer.Base.Laws.{IsDrained, drain-IsDrained}
use cubetran_core.Parallelizer.Merger.Refine.{merge_row_data-Sinks}
use cubetran_core.Parallelizer.Merger.Orders.{AreOrders, IsReordered, IsReordered-refl}
use cubetran_core.Parallelizer.Merger.Undo.{sink_row-reverse}
use cubetran_core.Parallelizer.Merger.Keys.{sink_row}
use cubetran_core.Parallelizer.Merger.Writes.{write}
use cubetran_core.Parallelizer.Snapshot.{partition}
use cubetran_core.Parallelizer.Snapshot.Laws.{partition_lem}
use cubetran_core.Parallelizer.Merger.Buffered.{Sinks}
use cubetran_core.Parallelizer.Table.{partition_dml, partition_raw, tb_of_item}
use cubetran_core.Parallelizer.Table.Laws.{IsSplit, partition_raw-IsSplit}
use cubetran_core.Parallelizer.Table.Names.{names_of, partition_dml-IsSplit}
use cubetran_core.Parallelizer.Partition.{
  can_be_partitioned, get_partition_index, index_of, partition as partition_by_hash,
}
use cubetran_core.Parallelizer.Partition.Laws.{partition-keeps}
use cubetran_core.Parallelizer.Partition.Keys.{can_be_partitioned-index}
use cubetran_core.Parallelizer.Merge.{MergeType, sink_dml_internal}
use cubetran_core.Parallelizer.Merge.Passes.{Sunk, sink_dml_internal-Sunk}
use cubetran_core.Prelude.{
  All, List, Map, Option, Result, Text, [], arith, beq_refl, concat, false, get_or, keep, length,
  list_eq, ltb_ℤ, nat_eq, none, ok, option_eq, pair_eq, pos, refl, some, true, ℕ, ◌++◌, ◌+ℤ◌, ◌+◌,
  ◌<◌, ◌==◌, ◌∷◌, ◌≡◌, ◌≤◌,
}
use cubetran_core.Meta.ColValue.{ColValue, eq, hash_code}
use cubetran_core.Meta.RowData.{
  RdbTbMeta, RowData, RowType, get_data_malloc_size, key_image, reverse, split_update_row_data,
}
use cubetran_core.Parallelizer.Merger.{
  DrainOrders, TbMergedData, empty_merged, full_tb, merge, merge_row_data,
}
use cubetran_core.Parallelizer.Merger.Keys.{sink_row}
use cubetran_core.Parallelizer.Merger.Step.{HasKey, empty_merged-IsMerged}
use cubetran_core.Parallelizer.Merger.Passes.{Db, FitsAll, sink_merged_tables, sink_serial, sink_to}
use cubetran_core.Parallelizer.Merger.Batch.{IsKnown, merge_refines}

abbrev id_col : Text
id_col = b'i' ∷ b'd' ∷ []

abbrev name_col : Text
name_col = b'n' ∷ []

abbrev users : RdbTbMeta
users = record {
  schema = b's' ∷ [];
  tb = b't' ∷ [];
  key_map = (b'p' ∷ [], id_col ∷ []) ∷ [];
  order_col = some id_col;
  partition_col = id_col;
  id_cols = id_col ∷ [];
  foreign_keys = [];
  ref_by_foreign_keys = [];
}

abbrev user : ℕ → ℕ → Map Text ColValue
user id name = (id_col, ColValue.unsigned_long id) ∷ (name_col, ColValue.string (name ∷ [])) ∷ []

abbrev change : RowType → Option (Map Text ColValue) → Option (Map Text ColValue) → RowData
change type before after = record {
  schema = b's' ∷ [];
  tb = b't' ∷ [];
  row_type = type;
  before = before;
  after = after;
  data_size = 10;
}

abbrev batch : List RowData
batch =
    change RowType.insert none (some (user 1 97))
    ∷ change RowType.update (some (user 1 97)) (some (user 1 98))
    ∷ change RowType.delete (some (user 2 99)) none
    ∷ []

abbrev id_hash : ColValue → ℕ
id_hash (ColValue.unsigned_long n) = n + 1
id_hash _ = 0

abbrev get_users : Text → Text → Result RdbTbMeta
get_users schema tb = ok users

abbrev users_of : Text → RdbTbMeta
users_of tb = users

abbrev no_users : Db
no_users tb key = none

user-HasKey : (id name : ℕ) → HasKey (id_col ∷ []) (some (user id name))
unfolding is_exact
user-HasKey id name = record { cols = user id name; found = refl; exact = (refl, tt) }

batch-IsKnown : All (IsKnown id_hash get_users users_of) batch
batch-IsKnown = (
  record { known = refl; whole = user-HasKey 1 97 },
  (
    record { known = refl; whole = (user-HasKey 1 97, user-HasKey 1 98) },
    (record { known = refl; whole = user-HasKey 2 99 }, tt),
  ),
)

batch-FitsAll : FitsAll users_of no_users batch
unfolding sink_to sink_row full_tb write
batch-FitsAll = (tt, ((user 1 97, rw (beq_refl (ColValue.unsigned_long 1))), (tt, tt)))

-- the first two entries the other way round
abbrev backward {ℓ} : {A : Type ℓ} → List A → List A
backward [] = []
backward (a ∷ []) = a ∷ []
backward (a ∷ b ∷ l) = b ∷ a ∷ l

backward-IsReordered {ℓ} : {A : Type ℓ} (l : List A) → IsReordered (backward l) l
backward-IsReordered [] = IsReordered.nil
backward-IsReordered (a ∷ []) = IsReordered-refl (a ∷ [])
backward-IsReordered (a ∷ b ∷ l) = IsReordered.swap refl refl

abbrev backwards : DrainOrders
backwards = record { tables = backward; rows = backward }

backwards-AreOrders : AreOrders backwards
backwards-AreOrders = record { tables = backward-IsReordered; rows = backward-IsReordered }

merge_refines_example :
    (results : List TbMergedData) × (merge backwards id_hash get_users batch ≡ ok results)
    × (sink_merged_tables users_of results no_users ≡ sink_serial users_of no_users batch)
merge_refines_example =
    merge_refines id_hash get_users users_of backwards no_users batch backwards-AreOrders
      batch-IsKnown batch-FitsAll

abbrev item : ℕ → DtItem
item n = record {
  dt_data = DtData.dml (change RowType.insert none (some (user n 97)));
  position = Position.nowhere;
  data_origin_node = [];
}

abbrev statement : DtItem
statement = record (item 0) { dt_data = DtData.ddl (record { default_schema = []; query = [] }) }

abbrev one_item : DtQueue
one_item = record {
  items = item 1 ∷ [];
  capacity = 2;
  check_memory = true;
  max_bytes = pos 15;
  cur_bytes = pos 10;
}

abbrev two_items : DtQueue
two_items = record one_item { items = item 1 ∷ item 2 ∷ []; cur_bytes = pos 20 }

abbrev one_left : DtQueue
one_left = record one_item { items = item 2 ∷ [] }

two_items-IsValid : IsValid two_items
unfolding get_data_size bytes
two_items-IsValid = record { bounded = omega arith; exact = λ _. refl }

one_item-IsValid : IsValid one_item
unfolding get_data_size bytes
one_item-IsValid = record { bounded = omega arith; exact = λ _. refl }

push_lem_example :
    IsValid two_items
    × (two_items.items ≡ one_item.items ++ item 2 ∷ [])
    × (one_item.check_memory ≡ true → ltb_ℤ one_item.max_bytes (pos 10) ≡ false)
unfolding push get_data_size bytes
push_lem_example = push_lem one_item two_items (item 2) one_item-IsValid refl

pop_lem_example : IsValid one_left × (two_items.items ≡ item 1 ∷ one_left.items)
unfolding pop get_data_size bytes
pop_lem_example = pop_lem two_items one_left (item 1) two_items-IsValid refl

abbrev one_refused : Shared
one_refused = record start {
  queue = item 1 ∷ [];
  cur_bytes = pos (item_size (item 1)) +ℤ pos (item_size (item 2));
  refused = item 2 ∷ [];
}

-- two pushes see room for one item
refuse_one : Reach 1 (pos 15) start one_refused
unfolding start ◌+ℤ◌ get_data_size
refuse_one =
    let a₁ = next here (see_room (item 1) (omega arith) refl) in
    let b₁ = next a₁ (see_room (item 2) (omega arith) refl) in
    let a₂ = next b₁ (load_bytes (item 2 ∷ []) [] (item 1) refl refl refl) in
    let b₂ = next a₂ (load_bytes [] [] (item 2) refl refl refl) in
    let a₃ = next b₂ (announce (item 2 ∷ []) [] (item 1) refl refl) in
    let b₃ = next a₃ (announce [] [] (item 2) refl refl) in
    let a₄ = next b₃ (enqueue (item 2 ∷ []) [] (item 1) refl (omega arith) refl) in
    next a₄ (refuse [] [] (item 2) refl (omega arith) refl)

Reach-IsCovered_example : IsCovered one_refused
Reach-IsCovered_example = Reach-IsCovered 1 (pos 15) refuse_one

key_image-reverse_example :
    key_image (reverse (change RowType.insert none (some (user 1 97))))
    ≡ key_image (change RowType.insert none (some (user 1 97)))
key_image-reverse_example = key_image-reverse (change RowType.insert none (some (user 1 97))) cc

sink_from-total_example :
    (calls : List (SinkCall ℕ)) × (sink_from 3 2 true 0 ((5 ∷ []) ∷ (6 ∷ []) ∷ (7 ∷ []) ∷ [])
      ≡ ok calls)
    × (sub_datas_of calls ≡ (5 ∷ []) ∷ (6 ∷ []) ∷ (7 ∷ []) ∷ [])
    × All (λ call. (call.sinker < 2) × (call.batch ≡ true)) calls
sink_from-total_example =
    sink_from-total 3 2 true 0 ((5 ∷ []) ∷ (6 ∷ []) ∷ (7 ∷ []) ∷ []) (omega arith) (omega arith)

drain-IsDrained_example :
    IsDrained
      (item 1 ∷ item 2 ∷ statement ∷ [])
      (drain none (item 1 ∷ []) (item 2 ∷ statement ∷ []))
drain-IsDrained_example = drain-IsDrained none (item 1 ∷ []) (item 2 ∷ statement ∷ []) tt

partition_lem_example :
    (subs : List (List ℕ)) × (partition (4 ∷ 5 ∷ 6 ∷ []) 2 ≡ ok subs)
    × (concat subs ≡ 4 ∷ 5 ∷ 6 ∷ [])
    × (length subs ≡ 2)
    × (1 < 2 → All (λ sub. length sub ≤ 2) subs)
partition_lem_example = partition_lem (4 ∷ 5 ∷ 6 ∷ []) 2

merge_row_data-Sinks_example :
    Sinks id_hash users empty_merged (change RowType.insert none (some (user 1 97))) (
      merge_row_data id_hash get_users empty_merged (change RowType.insert none (some (user 1 97))))
merge_row_data-Sinks_example =
    merge_row_data-Sinks id_hash users get_users empty_merged
      (change RowType.insert none (some (user 1 97))) refl (user-HasKey 1 97)
      (empty_merged-IsMerged id_hash (id_col ∷ []))

sink_row-reverse_example :
    (full_tb (reverse (change RowType.insert none (some (user 1 97))))
      ≡ full_tb (change RowType.insert none (some (user 1 97))))
    × (sink_row
          (id_col ∷ [])
          (sink_row (id_col ∷ []) (λ key. none) (change RowType.insert none (some (user 1 97))))
          (reverse (change RowType.insert none (some (user 1 97))))
        ≡ (λ key. none))
sink_row-reverse_example =
    sink_row-reverse (id_col ∷ []) (λ key. none) (change RowType.insert none (some (user 1 97)))
      refl

reverse-reverse_example :
    reverse (reverse (change RowType.insert none (some (user 1 97))))
    ≡ change RowType.insert none (some (user 1 97))
reverse-reverse_example = reverse-reverse (change RowType.insert none (some (user 1 97)))

split_sizes_example :
    let row = change RowType.update (some (user 1 97)) (some (user 1 98)) in
    let (d, i) = split_update_row_data row in
    (d.data_size + i.data_size ≡ get_data_malloc_size row)
    × (d.before ≡ row.before)
    × (i.after ≡ row.after)
    × (d.row_type ≡ RowType.delete)
    × (i.row_type ≡ RowType.insert)
split_sizes_example = split_sizes (change RowType.update (some (user 1 97)) (some (user 1 98)))

count_lost_example :
    (t : Shared) × Reach 2 (pos 15) start t
    × (t.queue ≡ item 1 ∷ [])
    × (t.cur_bytes ≡ pos 0)
    × (t.roomy ≡ [])
    × (t.allowed ≡ [])
    × (t.announced ≡ [])
    × (t.settling ≡ [])
unfolding get_data_size bytes
count_lost_example = count_lost 2 (pos 15) (item 1) (item 2) (omega arith) refl refl

partition_dml-IsSplit_example : IsSplit (λ row. some (names_of row)) batch (partition_dml batch)
partition_dml-IsSplit_example =
    partition_dml-IsSplit batch
      ((λ e. omega arith, tt), ((λ e. omega arith, tt), ((λ e. omega arith, tt), tt)))

partition_raw-IsSplit_example :
    IsSplit tb_of_item
      (item 1 ∷ statement ∷ item 2 ∷ [])
      (partition_raw (item 1 ∷ statement ∷ item 2 ∷ []))
partition_raw-IsSplit_example = partition_raw-IsSplit (item 1 ∷ statement ∷ item 2 ∷ [])

abbrev by_type : RowData → ℕ
by_type row = elim row.row_type [ RowType.delete ↦ 1 | _ ↦ 0 ]

batch_indices : All (λ row. get_partition_index id_hash get_users row 2 ≡ ok (by_type row)) batch
unfolding get_partition_index hash_code key_image
batch_indices = (refl, (refl, (refl, tt)))

partition-keeps_example :
    (subs : List (List RowData)) × (partition_by_hash id_hash get_users batch 2 ≡ ok subs)
    × (length subs ≡ 2)
    × ((i : ℕ) → get_or subs i [] ≡ keep (λ row. by_type row == i) batch)
partition-keeps_example =
    partition-keeps id_hash get_users by_type 2 batch (omega arith) batch_indices

abbrev update : RowData
update = change RowType.update (some (user 1 97)) (some (user 1 98))

update_fits : can_be_partitioned false get_users update ≡ ok true
unfolding can_be_partitioned eq
update_fits = refl

can_be_partitioned-index_example :
    index_of id_hash 2 (some (ColValue.unsigned_long 1))
    ≡ index_of id_hash 2 (some (ColValue.unsigned_long 1))
unfolding is_exact
can_be_partitioned-index_example =
    can_be_partitioned-index id_hash get_users false update users (user 1 97) (user 1 98) 2 refl
      refl refl refl (λ _. refl) refl update_fits

abbrev merged_users : TbMergedData
merged_users = record {
  tb = b's' ∷ b'.' ∷ b't' ∷ [];
  delete_rows = [];
  insert_rows = change RowType.insert none (some (user 1 97)) ∷ [];
  unmerged_rows = update ∷ change RowType.delete (some (user 2 99)) none ∷ [];
}

sink_dml_internal-Sunk_example :
    Sunk 3 2
      (omega arith)
      (omega arith)
      MergeType.unmerged
      (update ∷ change RowType.delete (some (user 2 99)) none ∷ [])
      (sink_dml_internal MergeType.unmerged 3 2 10 (merged_users ∷ []))
sink_dml_internal-Sunk_example =
    sink_dml_internal-Sunk 3 2 (omega arith) (omega arith) MergeType.unmerged 10 (merged_users ∷ [])
