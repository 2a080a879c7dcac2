-- ===== src/Redis/Tests.antt =====
-- The redis theorems at concrete inputs.
use cubetran_core.Prelude.{
  List, Text, [], arith, codes, dec_lt, get_elem?, get_or, length, list_eq, map, nat_eq, negsuc, ok,
  option_eq, pair_eq, pos, refl, some, ℕ, ◌*◌, ◌++◌, ◌+ℤ◌, ◌+◌, ◌-ℤ◌, ◌-◌, ◌∷◌, ◌≡◌, ◌≢◌, ◌≤◌,
}
use cubetran_core.Redis.Encoder.{RedisCmd, encode, write_arg, write_args, write_length}
use cubetran_core.Redis.Resp.{
  RedisRespReader, and_then, bulk, decode, decode_on, done, failed, int, is_crlf, none_left, okay,
  out_of_fuel, parse_integer, read_array, read_items, read_line, read_status, read_typed,
  read_until,
}
use cubetran_core.Redis.Resp.Lines.{reader}
use cubetran_core.Redis.Resp.RoundTrip.{args_of, decode-encode}
use cubetran_core.Redis.Resp.Accounting.{decode-read_len, decode_total}
use cubetran_core.Redis.Decimal.{
  below-Acc, decimal, decimal_from, following, is_utf8, lt_wf, parse_digits, parse_i64, to_string,
  utf8_from,
}
use cubetran_core.Redis.KeyParser.{
  KeyParser, KeySpec, begin_of, calc_slot, cmd_meta_of, cmd_name_of, find_all, find_keys,
  find_range, hash_tag, parse_key_from_argv, push_key, push_range, slot_of, up_to_close,
}
use cubetran_core.Redis.KeyParser.Laws.{parse_key_from_argv-keys}
use cubetran_core.Redis.KeyParser.Slots.{calc_slot-tag, calc_slot-≤}
use cubetran_core.Redis.Crc.{crc16, crc16_from, crc16_step, crc16_table, crc16_table_lem, divide}

abbrev set_cmd : RedisCmd
set_cmd = record {
  args = codes "SET" ∷ codes "k" ∷ [] ∷ [];
  name = [];
  group = [];
  keys = [];
  key_indexes = [];
}

written : encode set_cmd ≡ codes "*3\r\n$3\r\nSET\r\n$1\r\nk\r\n$0\r\n\r\n"
unfolding encode write_args write_arg write_length to_string decimal decimal_from lt_wf below-Acc
    dec_lt
written = refl

decode-encode_example :
    args_of (decode (reader 5 (encode set_cmd ++ codes "+OK")))
    ≡ some (set_cmd.args, reader (5 + length (encode set_cmd)) (codes "+OK"))
decode-encode_example =
    decode-encode 5 set_cmd (codes "+OK") (omega arith)
      (omega arith, (omega arith, (omega arith, tt)))

nested : RedisRespReader
nested = reader 0 (codes "*2\r\n*1\r\n:7\r\n+OK\r\nrest")

nested_read :
    decode nested
    ≡ done
        (bulk (and_then (bulk (and_then (int (pos 7)) none_left)) (and_then okay none_left)))
        (reader 17 (codes "rest"))
unfolding nested decode decode_on read_line read_typed read_until read_array read_items
    parse_integer is_utf8 utf8_from following parse_i64 parse_digits read_status is_crlf
nested_read = refl

decode_total_example : decode nested ≢ failed out_of_fuel
decode_total_example = decode_total nested

decode-read_len_example : (17 + 4 ≡ 0 + length nested.input) × (4 ≤ length nested.input)
unfolding nested
decode-read_len_example = decode-read_len nested _ (reader 17 (codes "rest")) nested_read

abbrev get_spec : KeySpec
get_spec = record {
  begin_search_type = codes "index";
  begin_search_index = pos 1;
  begin_search_keyword = [];
  begin_search_start_from = pos 0;
  find_keys_type = codes "range";
  find_keys_range_last_key = negsuc 0;
  find_keys_range_key_step = 2;
  find_keys_range_limit = pos 0;
  find_keys_keynum_index = pos 0;
  find_keys_keynum_first_key = pos 0;
  find_keys_keynum_key_step = 0;
}

abbrev parser : KeyParser
parser = record {
  container_cmds = [];
  cmd_metas =
      (
        codes "MSET",
        record { name = codes "MSET"; group = codes "string"; key_spec = get_spec ∷ [] },
      )
      ∷ [];
}

abbrev same_text : Text → Text
same_text t = t

abbrev mset : List Text
mset = codes "MSET" ∷ codes "a" ∷ codes "1" ∷ codes "b" ∷ codes "2" ∷ []

mset_keys :
    parse_key_from_argv same_text parser mset
    ≡ ok (codes "MSET", codes "string", codes "a" ∷ codes "b" ∷ [], 2 ∷ 4 ∷ [])
unfolding parse_key_from_argv cmd_name_of cmd_meta_of find_all begin_of find_keys find_range
    push_range push_key ◌+ℤ◌ ◌-ℤ◌
mset_keys = refl

parse_key_from_argv-keys_example :
    map (λ i. get_elem? mset (i - 1)) (2 ∷ 4 ∷ []) ≡ map some (codes "a" ∷ codes "b" ∷ [])
parse_key_from_argv-keys_example =
    parse_key_from_argv-keys same_text parser mset (codes "MSET") (codes "string")
      (codes "a" ∷ codes "b" ∷ []) (2 ∷ 4 ∷ []) mset_keys

calc_slot-≤_example : calc_slot (codes "somekey") ≤ 16383
calc_slot-≤_example = calc_slot-≤ (codes "somekey")

-- the slots that the comment in `calc_slot` gives
somekey : calc_slot (codes "somekey") ≡ 11058
unfolding calc_slot hash_tag slot_of crc16 crc16_from crc16_step
somekey = refl

foo : calc_slot (codes "foo{hash_tag}") ≡ 2515
unfolding calc_slot hash_tag up_to_close slot_of crc16 crc16_from crc16_step
foo = refl

abbrev tag : List ℕ
tag = 123 ∷ 104 ∷ 116 ∷ []

calc_slot-tag_example :
    (calc_slot (codes "foo{{ht}x") ≡ calc_slot (codes "bar{{ht}"))
    × (calc_slot (codes "foo{{ht}x") ≡ slot_of (codes "{ht"))
    × (calc_slot (codes "foo{}x") ≡ slot_of (codes "foo{}x"))
    × (calc_slot (codes "ht") ≡ slot_of (codes "ht"))
calc_slot-tag_example =
    calc_slot-tag (codes "foo") tag (codes "x") (codes "bar") [] (codes "ht") (λ e. cc)
      (λ e. omega arith, (λ e. omega arith, (λ e. omega arith, tt)))
      (λ e. omega arith, (λ e. omega arith, (λ e. omega arith, tt)))
      (λ e. omega arith, (λ e. omega arith, (λ e. omega arith, tt)))
      (λ e. omega arith, (λ e. omega arith, tt))

crc16_table_lem_example : get_or crc16_table 255 0 ≡ divide 8 (255 * 256)
crc16_table_lem_example = crc16_table_lem 255 (omega arith)
