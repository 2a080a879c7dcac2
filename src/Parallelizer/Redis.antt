-- ===== src/Parallelizer/Redis.antt =====
-- dt-parallelizer/src/redis_parallelizer.rs, with the slots of an entry (redis_entry.rs) and the keys
-- of a command (redis_object.rs). A sinker is its id; the calls of the sinkers, which run
-- concurrently, are listed in the order in which they are started.

pub mod Routing
pub mod Index
pub mod Calls
pub mod Refused
mod Tests
use cubetran_core.Prelude.{
  Bool, List, Map, Result, Text, [], all, err, false, if◌then◌else◌, insert, length, list_eq,
  lookup, map, nat_eq, ok, option_eq, pair_eq, panic, redis_cmd_error, replicate, suc, true, unwrap,
  zero, ℕ, ◌++◌, ◌+◌, ◌==◌, ◌>>=◌, ◌>>◌, ◌∷◌,
}
use cubetran_core.Meta.DtData.{DtData, DtItem, RedisEntry}
use cubetran_core.Redis.Encoder.{RedisCmd}
use cubetran_core.Redis.KeyParser.{KeyParser, calc_slot, parse_key_from_argv}
use cubetran_core.Parallelizer.Sinks.{SinkCall, sink_raw}

pub record RedisParallelizer : Type 0 where
  pub slot_node_map : Map ℕ Text
  pub node_sinker_index_map : Map Text ℕ
  pub key_parser : KeyParser

-- Two functions of the standard library are parameters: `to_uppercase` and `from_utf8_lossy`.
module _ (to_uppercase from_utf8_lossy : Text → Text) where
  unfoldable pub parse_keys : KeyParser → RedisCmd → Result RedisCmd
  parse_keys parser cmd = do
    (name, group, keys, keys_indexes) ←
        parse_key_from_argv to_uppercase parser (map from_utf8_lossy cmd.args)
    ok (record cmd { name = name; group = group; keys = keys; key_indexes = keys_indexes })

  abbrev pub with_keys : KeyParser → RedisCmd → List Text → Result RedisCmd
  with_keys parser cmd [] = parse_keys parser cmd
  with_keys parser cmd (key ∷ keys) = ok cmd

  -- The slots, and the entry, whose command may have been given its keys.
  unfoldable pub cal_slots : KeyParser → RedisEntry → Result (List ℕ × RedisEntry)
  cal_slots parser entry = if entry.is_base then ok (calc_slot entry.key ∷ [], entry) else do
    cmd ← with_keys parser entry.cmd entry.cmd.keys
    ok (map calc_slot cmd.keys, record entry { cmd = cmd })

  -- the slots of an item; an item that is not an entry has none
  unfoldable pub slots_of : KeyParser → DtItem → Result (List ℕ × DtItem)
  slots_of parser item = slots_in item.dt_data
    where
      slots_in : DtData → Result (List ℕ × DtItem)
      slots_in (DtData.redis entry) = do
        (slots, entry') ← cal_slots parser entry
        ok (slots, record item { dt_data = DtData.redis entry' })
      slots_in _ = ok ([], item)

-- `slots[i] != slots[0]` for no i
unfoldable pub same_slots : List ℕ → Bool
same_slots [] = true
same_slots (slot ∷ slots) = all (λ s. s == slot) slots

module _ {ℓ} {A : Type ℓ} where
  -- `node_datas[i].push(a)`
  unfoldable pub push_at : ℕ → A → List (List A) → Result (List (List A))
  push_at i a [] = err panic
  push_at zero a (d ∷ ds) = ok ((d ++ a ∷ []) ∷ ds)
  push_at (suc i) a (d ∷ ds) = do ds' ← push_at i a ds; ok (d ∷ ds')

  unfoldable pub push_all : A → List (List A) → List (List A)
  push_all a [] = []
  push_all a (d ∷ ds) = (d ++ a ∷ []) ∷ push_all a ds

-- the sinker of the node that has the slot
unfoldable pub sinker_of : Map ℕ Text → Map Text ℕ → ℕ → Result ℕ
sinker_of slot_node_map index_map slot = do
  node ← unwrap (lookup slot slot_node_map)
  unwrap (lookup node index_map)

unfoldable pub place :
    Map ℕ Text → Map Text ℕ → List ℕ → DtItem → List (List DtItem) → Result (List (List DtItem))
place slot_node_map index_map [] item node_datas = ok (push_all item node_datas)
place slot_node_map index_map (slot ∷ slots) item node_datas = do
  i ← sinker_of slot_node_map index_map slot
  push_at i item node_datas

-- the id of each sinker to its index, from the `i`th on
unfoldable pub index_sinkers : ℕ → List Text → Map Text ℕ → Map Text ℕ
index_sinkers i [] index_map = index_map
index_sinkers i (id ∷ ids) index_map = index_sinkers (i + 1) ids (insert id i index_map)

-- sinker `i` is given the `i`th list
unfoldable pub calls_from : ℕ → List (List DtItem) → List (SinkCall DtItem)
calls_from i [] = []
calls_from i (node_data ∷ node_datas) =
    record { sinker = i; sub_data = node_data; batch = false } ∷ calls_from (i + 1) node_datas

abbrev pub known_sinkers : Map Text ℕ → List Text → Map Text ℕ
known_sinkers [] sinkers = index_sinkers 0 sinkers []
known_sinkers (e ∷ m) sinkers = e ∷ m

module _ (to_uppercase from_utf8_lossy : Text → Text) where
  unfoldable pub route_items :
      RedisParallelizer
      → Map Text ℕ
      → List DtItem
      → List (List DtItem)
      → Result (List (List DtItem))
  route_items p index_map [] node_datas = ok node_datas
  route_items p index_map (item ∷ items) node_datas = do
    (slots, item') ← slots_of to_uppercase from_utf8_lossy p.key_parser item
    node_datas' ←
        if same_slots slots
        then place p.slot_node_map index_map slots item' node_datas
        else err redis_cmd_error
    route_items p index_map items node_datas'

  abbrev pub sink_cluster :
      RedisParallelizer
      → List DtItem
      → List Text
      → Result (RedisParallelizer × List (SinkCall DtItem))
  sink_cluster p items sinkers = do
    let index_map = known_sinkers p.node_sinker_index_map sinkers
    node_datas ← route_items p index_map items (replicate (length sinkers) [])
    ok (record p { node_sinker_index_map = index_map }, calls_from 0 node_datas)

  abbrev pub sink_single :
      RedisParallelizer
      → List DtItem
      → List Text
      → Result (RedisParallelizer × List (SinkCall DtItem))
  sink_single p items sinkers = do
    calls ← sink_raw (items ∷ []) (length sinkers) 1 false
    ok (p, calls)

  -- The parallelizer afterwards, and the calls; without a cluster, the first sinker gets everything.
  unfoldable pub redis_sink_raw :
      RedisParallelizer
      → List DtItem
      → List Text
      → Result (RedisParallelizer × List (SinkCall DtItem))
  redis_sink_raw p items sinkers = elim p.slot_node_map [
    | [] ↦ sink_single p items sinkers
    | _ ↦ sink_cluster p items sinkers
  ]
