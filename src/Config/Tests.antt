-- ===== src/Config/Tests.antt =====
-- The theorems on configurations at concrete inputs.
use cubetran_core.Prelude.{
  Bool, List, Option, Text, [], ap, arith, codes, err, false, list_eq, nat_eq, ok, option_eq,
  pair_eq, panic, refl, some, true, unexpected, ◌++◌, ◌∷◌, ◌≟◌, ◌≡◌, ◌≢◌,
}
use cubetran_core.Config.TokenParser.{parse, trim}
use cubetran_core.Config.TokenParser.Ends.{parse_total}
use cubetran_core.Config.TokenParser.Trailing.{parse_trailing}
use cubetran_core.Config.TokenParser.RoundTrip.{Token, escaped, joined, parse-joined, plain}
use cubetran_core.Config.SqlUtil.{DbType, escape, get_escape_pairs, is_escaped}
use cubetran_core.Config.Filter.{
  RdbFilter, contain_schema, contain_tb, decide_tb, filter_ddl, filter_event, filter_tb, match_all,
  match_token, regex_of,
}
use cubetran_core.Config.Filter.Cache.{
  Query, answers, cached_answers, fresh_answers, of_event, of_tb,
}
use cubetran_core.Config.Router.{RdbRouter, get_tb_map, reverse, reverse_cols, reverse_onto}
use cubetran_core.Meta.RowData.{RowType}
use cubetran_core.Config.Router.Reverse.{by_schema, get_tb_map-reverse, reverse_panics}

-- db_1 and `a.b`, with the delimiters , and .
db_1_Token : Token (codes ",.") 96 96 (codes "db_1")
unfolding trim
db_1_Token = plain 100 (codes "b_1") (refl, (refl, (refl, (refl, tt)))) (λ e. omega arith) refl

a_b_Token : Token (codes ",.") 96 96 (codes "`a.b`")
unfolding trim
a_b_Token =
    escaped (codes "a.b") (λ e. omega arith, (λ e. omega arith, (λ e. omega arith, tt))) refl

parse-joined_example :
    parse (joined 46 (codes "db_1") (codes "`a.b`" ∷ [])) (codes ",.") ((96, 96) ∷ [])
    ≡ ok (codes "db_1" ∷ codes "`a.b`" ∷ [])
parse-joined_example =
    parse-joined (codes ",.") 96 96 46 (codes "db_1") (codes "`a.b`" ∷ []) refl db_1_Token
      (a_b_Token, tt)

parse_total_example : parse (codes "a,`b") (codes ",") ((96, 96) ∷ []) ≢ err unexpected
parse_total_example = parse_total (codes "a,`b") (codes ",") ((96, 96) ∷ [])

parse_trailing_example :
    parse (joined 46 (codes "db_1") (codes "`a.b`" ∷ []) ++ codes ".") (codes ",.") ((96, 96) ∷ [])
    ≡ err panic
parse_trailing_example =
    parse_trailing (codes ",.") 96 96 46 (codes "db_1") (codes "`a.b`" ∷ []) refl db_1_Token
      (a_b_Token, tt)

-- the patterns that are compared as they stand
abbrev literal : Text → Option (Text → Bool)
literal pattern = some λ item. pattern ≟ 94 ∷ (item ++ 36 ∷ [])

abbrev orders_only : RdbFilter
orders_only = record {
  db_type = DbType.mysql;
  do_schemas = [];
  ignore_schemas = [];
  do_tbs = (codes "db", codes "orders") ∷ [];
  ignore_tbs = [];
  ignore_cols = [];
  do_events = codes "insert" ∷ [];
  do_structures = [];
  do_ddls = [];
  ignore_cmds = [];
  cache = [];
}

abbrev queries : List Query
queries =
    of_tb (codes "db") (codes "orders")
    ∷ of_event (codes "db") (codes "users") RowType.insert
    ∷ of_event (codes "db") (codes "orders") RowType.delete
    ∷ of_event (codes "db") (codes "orders") RowType.insert
    ∷ []

asked : answers literal orders_only queries ≡ ok (false ∷ true ∷ true ∷ false ∷ [])
unfolding answers filter_tb filter_event filter_ddl decide_tb contain_tb contain_schema match_token
    match_all regex_of get_escape_pairs is_escaped escape
asked = refl

cached_answers_example :
    answers literal (record orders_only { cache = [] }) queries
    ≡ fresh_answers literal orders_only queries
cached_answers_example = cached_answers literal orders_only queries

abbrev a_to_x : RdbRouter
a_to_x = record {
  schema_map = (codes "b", codes "y") ∷ [];
  tb_map = ((codes "a", codes "t"), (codes "x", codes "u")) ∷ [];
  col_map = [];
  topic_map = [];
}

abbrev x_to_a : RdbRouter
x_to_a = record {
  schema_map = (codes "y", codes "b") ∷ [];
  tb_map = ((codes "x", codes "u"), (codes "a", codes "t")) ∷ [];
  col_map = [];
  topic_map = [];
}

reversed : reverse a_to_x ≡ ok x_to_a
unfolding reverse reverse_cols reverse_onto
reversed = refl

abbrev Target : Type 0
Target = Text × Text

abbrev x_u : Target
x_u = (codes "x", codes "u")

abbrev y_v : Target
y_v = (codes "y", codes "v")

not_there : x_u ≢ y_v
not_there = λ e. let h : false ≡ true = ap (λ (p : Target). p ≟ y_v) e in cc

get_tb_map-reverse_example :
    get_tb_map x_to_a
      (get_tb_map a_to_x (codes "b") (codes "v")).0
      (get_tb_map a_to_x (codes "b") (codes "v")).1
    ≡ (codes "b", codes "v")
get_tb_map-reverse_example =
    get_tb_map-reverse a_to_x x_to_a (codes "b") (codes "v") reversed
      (by_schema (codes "y") refl refl (λ e. not_there e, tt) (λ e. refl, tt))

reverse_panics_example :
    reverse (record a_to_x { col_map = ((codes "b", codes "v"), []) ∷ [] }) ≡ err panic
reverse_panics_example =
    reverse_panics (record a_to_x { col_map = ((codes "b", codes "v"), []) ∷ [] }) [] []
      (codes "b", codes "v") [] refl refl
