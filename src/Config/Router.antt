-- ===== src/Config/Router.antt =====
-- dt-connector/src/rdb_router.rs: the target table, columns and topic of a source table.
pub mod Reverse
use cubetran_core.Prelude.{
  Eq, List, Map, Option, Result, Text, [], codes, err, insert, list_eq, lookup, map, nat_eq, none,
  ok, option_eq, pair_eq, panic, some, unwrap, values, ℕ, ◌>>=◌, ◌>>◌, ◌∷◌,
}
use cubetran_core.Meta.RowData.{RowData}
use cubetran_core.Meta.ColValue.{ColValue}
use cubetran_core.Config.SqlUtil.{DbType, get_escape_pairs, unescape}
use cubetran_core.Config.TokenParser.{parse_config}

abbrev pub SchemaTb : Type 0
SchemaTb = Text × Text

pub record RdbRouter : Type 0 where
  pub schema_map : Map Text Text
  pub tb_map : Map SchemaTb SchemaTb
  pub col_map : Map SchemaTb (Map Text Text)
  pub topic_map : Map SchemaTb Text

abbrev pub or_same {ℓ} : {A : Type ℓ} → Option A → A → A
or_same none a = a
or_same (some b) a = b

unfoldable pub get_schema_map : RdbRouter → Text → Text
get_schema_map r schema = or_same (lookup schema r.schema_map) schema

unfoldable pub get_tb_map : RdbRouter → Text → Text → SchemaTb
get_tb_map r schema tb = elim (lookup {K = SchemaTb} (schema, tb) r.tb_map) [
  | some dst ↦ dst
  | none ↦ elim (lookup schema r.schema_map) [
    | some dst_schema ↦ (dst_schema, tb)
    | none ↦ (schema, tb)
  ]
]

unfoldable pub get_col_map : RdbRouter → Text → Text → Option (Map Text Text)
get_col_map r schema tb = lookup {K = SchemaTb} (schema, tb) r.col_map

-- the topic of the table, of its schema, or of everything
unfoldable pub get_topic : RdbRouter → Text → Text → Result Text
get_topic r schema tb = elim (lookup {K = SchemaTb} (schema, tb) r.topic_map) [
  | some topic ↦ ok topic
  | none ↦ elim (lookup {K = SchemaTb} (schema, codes "*") r.topic_map) [
    | some topic ↦ ok topic
    | none ↦ unwrap (lookup {K = SchemaTb} (codes "*", codes "*") r.topic_map)
  ]
]

-- Each value to its key, on top of `acc`.
unfoldable pub reverse_onto {ℓ} : {K : Type ℓ} ⦃e : Eq K⦄ → Map K K → Map K K → Map K K
reverse_onto [] acc = acc
reverse_onto ((src, dst) ∷ m) acc = reverse_onto m (insert dst src acc)

-- `tb_map.get(src_schema_tb).unwrap()`
unfoldable pub reverse_cols :
    Map SchemaTb SchemaTb
    → Map SchemaTb (Map Text Text)
    → Map SchemaTb (Map Text Text)
    → Result (Map SchemaTb (Map Text Text))
reverse_cols tb_map [] acc = ok acc
reverse_cols tb_map ((src_tb, col_map) ∷ m) acc = do
  dst_tb ← unwrap (lookup src_tb tb_map)
  reverse_cols tb_map m (insert dst_tb (reverse_onto col_map []) acc)

unfoldable pub reverse : RdbRouter → Result RdbRouter
reverse r = do
  col_map ← reverse_cols r.tb_map r.col_map []
  ok (record {
    schema_map = reverse_onto r.schema_map [];
    tb_map = reverse_onto r.tb_map [];
    col_map = col_map;
    topic_map = r.topic_map;
  })

-- the values under the names of the target's columns
unfoldable pub route_cols :
    Map Text Text → Map Text ColValue → Map Text ColValue → Map Text ColValue
route_cols col_map [] acc = acc
route_cols col_map ((col, value) ∷ values) acc =
    route_cols col_map values (insert (or_same (lookup col col_map) col) value acc)

abbrev route_image : Map Text Text → Option (Map Text ColValue) → Option (Map Text ColValue)
route_image col_map none = none
route_image col_map (some values) = some (route_cols col_map values [])

unfoldable pub route_row : RdbRouter → RowData → RowData
route_row r row =
    let dst = get_tb_map r row.schema row.tb in
    let routed = record row { schema = dst.0; tb = dst.1 } in
    elim (get_col_map r row.schema row.tb) [
      | none ↦ routed
      | some col_map ↦ record routed {
        before = route_image col_map row.before;
        after = route_image col_map row.after;
      }
    ]

-- the tokens two, three or four at a time; an index past the end panics
unfoldable pub schema_pairs : List Text → Map Text Text → Result (Map Text Text)
schema_pairs [] m = ok m
schema_pairs (src ∷ dst ∷ tokens) m = schema_pairs tokens (insert src dst m)
schema_pairs _ m = err panic

unfoldable pub tb_pairs : List Text → Map SchemaTb SchemaTb → Result (Map SchemaTb SchemaTb)
tb_pairs [] m = ok m
tb_pairs (s ∷ t ∷ ds ∷ dt ∷ tokens) m = tb_pairs tokens (insert (s, t) (ds, dt) m)
tb_pairs _ m = err panic

unfoldable pub topic_triples : List Text → Map SchemaTb Text → Result (Map SchemaTb Text)
topic_triples [] m = ok m
topic_triples (s ∷ t ∷ topic ∷ tokens) m = topic_triples tokens (insert (s, t) topic m)
topic_triples _ m = err panic

abbrev unescape_all : List (ℕ × ℕ) → Text → Text
unescape_all [] token = token
unescape_all (pair ∷ pairs) token = unescape_all pairs (unescape token pair)

unfoldable pub router_tokens : Text → DbType → Result (List Text)
router_tokens config_str db_type = do
  tokens ← parse_config config_str db_type (codes ",.:")
  ok (map (unescape_all (get_escape_pairs db_type)) tokens)

unfoldable pub parse_schema_map : Text → DbType → Result (Map Text Text)
parse_schema_map config_str db_type = do
  tokens ← router_tokens config_str db_type
  schema_pairs tokens []

unfoldable pub parse_tb_map : Text → DbType → Result (Map SchemaTb SchemaTb)
parse_tb_map config_str db_type = do tokens ← router_tokens config_str db_type; tb_pairs tokens []

unfoldable pub parse_topic_map : Text → DbType → Result (Map SchemaTb Text)
parse_topic_map config_str db_type = do
  tokens ← router_tokens config_str db_type
  topic_triples tokens []
