-- ===== src/Meta/ColValue/ToString.antt =====
-- ColValue::to_option_string of dt-common/src/meta/col_value.rs, and binary_to_str of
-- dt-common/src/utils/sql_util.rs. How std prints the two kinds of float, `String::from_utf8` and
-- `hex::encode` are parameters.
use cubetran_core.Prelude.{
  Bool, List, Option, Text, [], codes, false, list_eq, nat_eq, negsuc, none, option_eq, pair_eq,
  pos, some, true, ℕ, ℤ, ◌++◌, ◌+◌, ◌∷◌,
}
use cubetran_core.Redis.Decimal.{to_string}
use cubetran_core.Meta.ColValue.{
  ColValue, bit, blob, bool, date, date_time, decimal, double, enum, enum2, float, json, json2,
  json3, long, long_long, mongo_doc, raw_string, set, set2, short, string, time, timestamp, tiny,
  unsigned_long, unsigned_long_long, unsigned_short, unsigned_tiny, year,
}

-- i8 .. i64: `negsuc n` is - (n + 1), and '-' is 45
abbrev int_to_string : ℤ → Text
int_to_string (pos n) = to_string n
int_to_string (negsuc n) = 45 ∷ to_string (n + 1)

-- `{:?}` of a Vec<u8>, after its first element
abbrev debug_rest : List ℕ → Text
debug_rest [] = codes "]"
debug_rest (b ∷ rest) = codes ", " ++ to_string b ++ debug_rest rest

abbrev debug_bytes : List ℕ → Text
debug_bytes [] = codes "[]"
debug_bytes (b ∷ rest) = codes "[" ++ to_string b ++ debug_rest rest

pub record Printers : Type 0 where
  pub f32_to_string : ℕ → Text
  pub f64_to_string : ℕ → Text
  pub from_utf8 : List ℕ → Option Text
  pub hex_encode : List ℕ → Text

unfoldable pub binary_to_str : Printers → List ℕ → Text × Bool
binary_to_str printers v = or_hex (printers.from_utf8 v)
  where
    or_hex : Option Text → Text × Bool
    or_hex (some str) = (str, false)
    or_hex none = (printers.hex_encode v, true)

unfoldable pub to_option_string : Printers → ColValue → Option Text
unfolding binary_to_str
to_option_string printers (tiny v) = some (int_to_string v)
to_option_string printers (unsigned_tiny v) = some (to_string v)
to_option_string printers (short v) = some (int_to_string v)
to_option_string printers (unsigned_short v) = some (to_string v)
to_option_string printers (long v) = some (int_to_string v)
to_option_string printers (unsigned_long v) = some (to_string v)
to_option_string printers (long_long v) = some (int_to_string v)
to_option_string printers (unsigned_long_long v) = some (to_string v)
to_option_string printers (float v) = some (printers.f32_to_string v)
to_option_string printers (double v) = some (printers.f64_to_string v)
to_option_string printers (decimal v) = some v
to_option_string printers (time v) = some v
to_option_string printers (date v) = some v
to_option_string printers (date_time v) = some v
to_option_string printers (timestamp v) = some v
to_option_string printers (year v) = some (to_string v)
to_option_string printers (string v) = some v
to_option_string printers (raw_string v) = some (binary_to_str printers v).0
to_option_string printers (bit v) = some (to_string v)
to_option_string printers (set v) = some (to_string v)
to_option_string printers (set2 v) = some v
to_option_string printers (enum v) = some (to_string v)
to_option_string printers (enum2 v) = some v
to_option_string printers (json v) = some (debug_bytes v)
to_option_string printers (json2 v) = some v
to_option_string printers (json3 v) = some v.text
to_option_string printers (blob v) = some (binary_to_str printers v).0
to_option_string printers (mongo_doc v) = some v.text
to_option_string printers (bool true) = some (codes "true")
to_option_string printers (bool false) = some (codes "false")
to_option_string printers ColValue.none = none
