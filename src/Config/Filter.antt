-- ===== src/Config/Filter.antt =====
-- dt-common/src/rdb_filter.rs: which changes of which tables a task leaves out. A set is a list; the
-- code goes through it in an order that is not fixed.
pub mod Cache
use mathlib.Core.Bool.{◌||◌, ◌&&◌}
use cubetran_core.Prelude.{
  Bool, Eq, List, Map, Option, Result, Text, [], codes, contains, err, false, if◌then◌else◌, insert,
  keep, length, list_eq, lookup, nat_eq, none, not, ok, option_eq, pair_eq, panic, some, true, ℕ,
  ◌&&◌, ◌++◌, ◌==◌, ◌>>=◌, ◌>>◌, ◌||◌, ◌∷◌, ◌≟◌,
}
use cubetran_core.Meta.RowData.{RowType}
use cubetran_core.Config.SqlUtil.{DbType, escape, get_escape_pairs, is_escaped}
use cubetran_core.Config.TokenParser.{parse_config}

pub record RdbFilter : Type 0 where
  pub db_type : DbType
  pub do_schemas : List Text
  pub ignore_schemas : List Text
  pub do_tbs : List (Text × Text)
  pub ignore_tbs : List (Text × Text)
  pub ignore_cols : Map (Text × Text) (List Text)
  pub do_events : List Text
  pub do_structures : List Text
  pub do_ddls : List Text
  pub ignore_cmds : List Text
  pub cache : Map (Text × Text) Bool

-- HashSet::insert, and a set from its items
unfoldable pub set_insert {ℓ} : {A : Type ℓ} ⦃e : Eq A⦄ → A → List A → List A
set_insert a set = if contains set a then set else a ∷ set

abbrev to_set {ℓ} : {A : Type ℓ} ⦃e : Eq A⦄ → List A → List A
to_set [] = []
to_set (a ∷ items) = set_insert a (to_set items)

abbrev star : Text
star = 42 ∷ []

-- `set.len() == 1 && set.contains("*")`
unfoldable pub match_all : List Text → Bool
match_all set = length set == 1 && contains set star

-- str::replace, of a character by a text
abbrev replace : ℕ → Text → Text → Text
replace c by [] = []
replace c by (x ∷ s) = let rest = replace c by s in if x == c then by ++ rest else x ∷ rest

unfoldable pub regex_of : Text → Text
regex_of pattern =
    let dots = replace 46 (92 ∷ 46 ∷ []) pattern in
    let stars = replace 42 (46 ∷ 42 ∷ []) dots in
    let marks = replace 63 (46 ∷ 63 ∷ []) stars in 94 ∷ (marks ++ 36 ∷ [])

-- `||` on tests that may panic
abbrev pub or_else : Result Bool → Result Bool → Result Bool
or_else m n = m >>= λ b. if b then ok true else n

abbrev row_type_name : RowType → Text
row_type_name RowType.insert = codes "insert"
row_type_name RowType.update = codes "update"
row_type_name RowType.delete = codes "delete"

abbrev is_nil : Text → Bool
is_nil [] = true
is_nil _ = false

abbrev schemas_of : List (Text × Text) → List Text
schemas_of [] = []
schemas_of ((d, t) ∷ set) = d ∷ schemas_of set

abbrev remember : RdbFilter → Text → Text → Bool → RdbFilter
remember f schema tb filter = record f { cache = insert (schema, tb) filter f.cache }

-- The library of regular expressions is the parameter: what a pattern compiles to, or nothing.
module _ (regex : Text → Option (Text → Bool)) where
  abbrev matches : Option (Text → Bool) → Text → Result Bool
  matches none item = err panic
  matches (some compiled) item = ok (compiled item)

  -- a pattern between escapes is compared, any other is a regular expression
  unfoldable pub match_token : Text → Text → List (ℕ × ℕ) → Result Bool
  match_token pattern item [] = matches (regex (regex_of pattern)) item
  match_token pattern item (pair ∷ pairs) =
      let rest = match_token pattern item pairs in
      if is_escaped pattern pair then ok (pattern ≟ escape item pair) else rest

  unfoldable pub contain_tb : List (Text × Text) → Text → Text → List (ℕ × ℕ) → Result Bool
  contain_tb [] schema tb pairs = ok false
  contain_tb ((s, t) ∷ set) schema tb pairs = do
    same_schema ← match_token s schema pairs
    same_tb ← if same_schema then match_token t tb pairs else ok false
    let rest = contain_tb set schema tb pairs
    if same_tb then ok true else rest

  unfoldable pub contain_schema : List Text → Text → List (ℕ × ℕ) → Result Bool
  contain_schema [] item pairs = ok false
  contain_schema (s ∷ set) item pairs = do
    same ← match_token s item pairs
    let rest = contain_schema set item pairs
    if same then ok true else rest

  unfoldable pub filter_schema : RdbFilter → Text → Result Bool
  filter_schema f schema = do
    let pairs = get_escape_pairs f.db_type
    filter ←
        or_else (contain_tb f.ignore_tbs schema star pairs)
          (contain_schema f.ignore_schemas schema pairs)
    let keeps =
        or_else (contain_schema f.do_schemas schema pairs)
          (contain_schema (schemas_of f.do_tbs) schema pairs)
    if filter then ok true else (keeps >>= λ keep. ok (not keep))

  -- what `filter_tb` computes for a table that the cache does not have
  unfoldable pub decide_tb : RdbFilter → Text → Text → Result Bool
  decide_tb f schema tb = do
    let pairs = get_escape_pairs f.db_type
    filter ←
        or_else (contain_tb f.ignore_tbs schema tb pairs)
          (contain_schema f.ignore_schemas schema pairs)
    keep ← or_else (contain_tb f.do_tbs schema tb pairs) (contain_schema f.do_schemas schema pairs)
    ok (filter || not keep)

  abbrev filter_uncached : Option Bool → RdbFilter → Text → Text → Result (Bool × RdbFilter)
  filter_uncached (some filter) f schema tb = ok (filter, f)
  filter_uncached none f schema tb = do
    filter ← decide_tb f schema tb
    ok (filter, remember f schema tb filter)

  -- The filter comes back with its cache.
  unfoldable pub filter_tb : RdbFilter → Text → Text → Result (Bool × RdbFilter)
  filter_tb f schema tb = filter_uncached (lookup (schema, tb) f.cache) f schema tb

  unfoldable pub filter_event : RdbFilter → Text → Text → RowType → Result (Bool × RdbFilter)
  filter_event f schema tb row_type =
      if not (match_all f.do_events) && not (contains f.do_events (row_type_name row_type))
      then ok (true, f)
      else filter_tb f schema tb

  -- the type of a statement is its name
  unfoldable pub filter_ddl : RdbFilter → Text → Text → Text → Result (Bool × RdbFilter)
  filter_ddl f schema tb ddl_type =
      if not (match_all f.do_ddls) && not (contains f.do_ddls ddl_type)
      then ok (true, f)
      else if is_nil tb
      then (filter_schema f schema >>= λ filter. ok (filter, f))
      else filter_tb f schema tb

unfoldable pub filter_all_ddl : RdbFilter → Bool
filter_all_ddl f = elim f.do_ddls [ [] ↦ true | _ ↦ false ]

unfoldable pub filter_structure : RdbFilter → Text → Bool
filter_structure f structure_type =
    not (match_all f.do_structures) && not (contains f.do_structures structure_type)

unfoldable pub filter_cmd : RdbFilter → Text → Bool
filter_cmd f cmd = contains f.ignore_cmds cmd

unfoldable pub get_ignore_cols : RdbFilter → Text → Text → Option (List Text)
get_ignore_cols f schema tb = lookup (schema, tb) f.ignore_cols

unfoldable pub add_ignore_tb : RdbFilter → Text → Text → RdbFilter
add_ignore_tb f schema tb = record f { ignore_tbs = set_insert (schema, tb) f.ignore_tbs }

unfoldable pub add_do_tb : RdbFilter → Text → Text → RdbFilter
add_do_tb f schema tb = record f { do_tbs = set_insert (schema, tb) f.do_tbs }

-- `tokens[i + 1]` is out of range when a token is left alone
unfoldable pub pair_tokens : List Text → Result (List (Text × Text))
pair_tokens [] = ok []
pair_tokens (s ∷ []) = err panic
pair_tokens (s ∷ t ∷ tokens) = do rest ← pair_tokens tokens; ok ((s, t) ∷ rest)

unfoldable pub filter_delimiters : Text
filter_delimiters = codes ",."

unfoldable pub parse_pair_tokens : Text → DbType → Result (List (Text × Text))
parse_pair_tokens config_str db_type = do
  tokens ← parse_config config_str db_type filter_delimiters
  pairs ← pair_tokens tokens
  ok (to_set pairs)

unfoldable pub parse_single_tokens : Text → DbType → Result (List Text)
parse_single_tokens config_str db_type = do
  tokens ← parse_config config_str db_type filter_delimiters
  ok (to_set tokens)
