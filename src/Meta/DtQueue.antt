-- ===== src/Meta/DtQueue.antt =====
-- dt-common/src/meta/dt_queue.rs: the bounded queue with a limit on the bytes that it holds.
-- `push` and `pop` are the calls made one at a time; a call that the code makes wait returns `none`.
-- `DtQueue/Interleaving` has the atomic steps of calls that overlap.
pub mod Sequential
pub mod Interleaving
use cubetran_core.Prelude.{
  Bool, List, Option, [], false, if◌then◌else◌, leb, length, list_eq, ltb_ℤ, nat_eq, none, pair_eq,
  pos, some, true, ℕ, ℤ, ◌++◌, ◌+ℤ◌, ◌+◌, ◌-ℤ◌, ◌∷◌,
}
use cubetran_core.Meta.DtData.{DtItem, get_data_size}

pub record DtQueue : Type 0 where
  pub items : List DtItem
  pub capacity : ℕ
  pub check_memory : Bool
  pub max_bytes : ℤ
  pub cur_bytes : ℤ

abbrev pub item_size : DtItem → ℕ
item_size item = get_data_size item.dt_data

-- the bytes of the items
unfoldable pub bytes : List DtItem → ℕ
bytes [] = 0
bytes (item ∷ items) = item_size item + bytes items

unfoldable pub new : ℕ → ℤ → DtQueue
new capacity max_bytes = record {
  items = [];
  capacity = capacity;
  check_memory = ltb_ℤ (pos 0) max_bytes;
  max_bytes = max_bytes;
  cur_bytes = pos 0;
}

unfoldable pub is_full : DtQueue → Bool
is_full q = leb q.capacity (length q.items)

unfoldable pub is_empty : List DtItem → Bool
is_empty [] = true
is_empty _ = false

-- `none`: the queue is full, or holds more bytes than the limit, and the call waits
unfoldable pub push : DtQueue → DtItem → Option DtQueue
unfolding is_full ◌+ℤ◌
push q item =
    if is_full q
    then none
    else if q.check_memory
    then (if ltb_ℤ q.max_bytes q.cur_bytes
        then none
        else some (record q {
          items = q.items ++ item ∷ [];
          cur_bytes = q.cur_bytes +ℤ pos (item_size item);
        }))
    else some (record q { items = q.items ++ item ∷ [] })

abbrev settle : DtQueue → DtItem → List DtItem → ℤ
settle q item rest =
    if q.check_memory
    then (if is_empty rest then pos 0 else q.cur_bytes -ℤ pos (item_size item))
    else q.cur_bytes

-- `none`: the queue is empty (`PopError`)
pop_from : DtQueue → List DtItem → Option (DtItem × DtQueue)
pop_from q [] = none
pop_from q (item ∷ rest) = some (item, record q { items = rest; cur_bytes = settle q item rest })

unfoldable pub pop : DtQueue → Option (DtItem × DtQueue)
unfolding pop_from is_empty ◌-ℤ◌
pop q = pop_from q q.items
