-- ===== src/Parallelizer/Redis/Tests.antt =====
-- The theorems on the redis parallelizer at concrete inputs.
use cubetran_core.Prelude.{
  Error, List, Text, [], ap, codes, err, false, get_elem?, inl, length, list_eq, nat_eq, ok,
  option_eq, pair_eq, refl, some, true, ℕ, ◌++◌, ◌==◌, ◌∷◌, ◌≟◌, ◌≡◌, ◌≢◌,
}
use cubetran_core.Meta.DtData.{DtData, DtItem, Position, RedisEntry}
use cubetran_core.Redis.KeyParser.{KeyParser, calc_slot, hash_tag, slot_of, up_to_close}
use cubetran_core.Redis.Crc.{crc16, crc16_from, crc16_step}
use cubetran_core.Parallelizer.Redis.{
  RedisParallelizer, cal_slots, calls_from, index_sinkers, place, push_at, redis_sink_raw,
  route_items, same_slots, sinker_of, slots_of,
}
use cubetran_core.Parallelizer.Redis.Calls.{call_to, redis_sink_raw-calls}
use cubetran_core.Parallelizer.Redis.Index.{IsIndex, items_on}
use cubetran_core.Parallelizer.Redis.Refused.{redis_sink_raw_slots}
use cubetran_core.Parallelizer.Sinks.{SinkCall}

abbrev as_is : Text → Text
as_is t = t

abbrev parser : KeyParser
parser = record { container_cmds = []; cmd_metas = [] }

-- the slot of "a" is 15495 and that of "b" is 3300
abbrev two_nodes : RedisParallelizer
two_nodes = record {
  slot_node_map = (15495, codes "x") ∷ (3300, codes "y") ∷ [];
  node_sinker_index_map = [];
  key_parser = parser;
}

abbrev entry_on : List Text → RedisEntry
entry_on keys = record {
  is_base = false;
  key = [];
  raw_bytes = [];
  cmd = record { args = []; name = []; group = []; keys = keys; key_indexes = [] };
  data_size = 1;
}

abbrev cmd_on : List Text → DtItem
cmd_on keys = record {
  dt_data = DtData.redis (entry_on keys);
  position = Position.nowhere;
  data_origin_node = [];
}

abbrev batch : List DtItem
batch = cmd_on (codes "a" ∷ []) ∷ cmd_on (codes "b" ∷ []) ∷ cmd_on (codes "a" ∷ codes "a" ∷ []) ∷ []

abbrev sinkers : List Text
sinkers = codes "y" ∷ codes "x" ∷ []

abbrev indexed : RedisParallelizer
indexed = record two_nodes { node_sinker_index_map = (codes "y", 0) ∷ (codes "x", 1) ∷ [] }

abbrev calls : List (SinkCall DtItem)
calls =
    record { sinker = 0; sub_data = cmd_on (codes "b" ∷ []) ∷ []; batch = false }
    ∷ record {
      sinker = 1;
      sub_data = cmd_on (codes "a" ∷ []) ∷ cmd_on (codes "a" ∷ codes "a" ∷ []) ∷ [];
      batch = false;
    }
    ∷ []

slot_a : calc_slot (codes "a") ≡ 15495
unfolding calc_slot hash_tag slot_of crc16 crc16_from crc16_step
slot_a = refl

run : redis_sink_raw as_is as_is two_nodes batch sinkers ≡ ok (indexed, calls)
unfolding redis_sink_raw route_items slots_of cal_slots place push_at sinker_of same_slots
    index_sinkers calls_from calc_slot hash_tag up_to_close slot_of crc16 crc16_from crc16_step
run = refl

x_is_not_y : codes "x" ≢ codes "y"
x_is_not_y = λ e. let h : false ≡ true = ap (λ (t : Text). t ≟ codes "y") e in cc

redis_sink_raw-calls_example :
    (length calls ≡ length sinkers)
    × IsIndex sinkers indexed.node_sinker_index_map
    × ((j : ℕ) (id : Text)
        → get_elem? sinkers j ≡ some id
        → get_elem? calls j ≡ some (call_to j (items_on as_is as_is two_nodes id batch)))
redis_sink_raw-calls_example =
    redis_sink_raw-calls as_is as_is two_nodes batch sinkers indexed calls (λ e. cc)
      ((x_is_not_y, tt), (tt, tt)) (inl refl) run

different : calc_slot (codes "a") ≢ calc_slot (codes "b")
unfolding calc_slot hash_tag slot_of crc16 crc16_from crc16_step
different = λ e. let h : (15495 == 3300) ≡ true = ap (λ s. s == 3300) e in cc

redis_sink_raw_slots_example :
    (e : Error) × (redis_sink_raw as_is as_is two_nodes
        (batch ++ cmd_on (codes "a" ∷ codes "b" ∷ []) ∷ [])
        sinkers
      ≡ err e)
redis_sink_raw_slots_example =
    redis_sink_raw_slots as_is as_is two_nodes batch [] (cmd_on (codes "a" ∷ codes "b" ∷ []))
      (entry_on (codes "a" ∷ codes "b" ∷ []))
      (record {
        args = [];
        name = [];
        group = [];
        keys = codes "a" ∷ codes "b" ∷ [];
        key_indexes = [];
      })
      0 1 (codes "a") (codes "b") sinkers (λ e. cc) refl refl refl refl refl different
