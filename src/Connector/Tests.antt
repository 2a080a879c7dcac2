-- ===== src/Connector/Tests.antt =====
-- The theorems on the connectors at concrete inputs.
use cubetran_core.Prelude.{
  All, List, Map, Option, Text, [], ap, arith, codes, err, false, if◌then◌else◌, list_eq, lookup,
  nat_eq, none, ok, option_eq, pair_eq, panic, pos, refl, some, true, ℕ, ◌<◌, ◌↔◌, ◌∷◌, ◌≟◌, ◌≡◌,
  ◌≢◌, ◌≤◌,
}
use cubetran_core.Meta.DtData.{Position}
use cubetran_core.Connector.Resumer.{
  SnapshotResumer, from_log, get_resume_value, load_lines, load_resume_line, or_else_value, slice,
  snapshot_load,
}
use cubetran_core.Connector.Resumer.Latest.{get_resume_value-latest, latest}
use cubetran_core.Connector.Batches.{call_batch_fn, call_batch_fn_lem, call_batches, rows_of_calls}
use cubetran_core.Config.TokenParser.{trim}
use cubetran_core.Connector.Checker.{
  DiffColValue, SameIn, compare_cols, compare_row_data, compare_row_data_lem, reported,
}
use cubetran_core.Meta.ColValue.{ColValue, eq, long, string}
use cubetran_core.Meta.ColValue.ToString.{Printers, to_option_string}
use cubetran_core.Meta.RowData.{RowData, RowType}

abbrev five : List ℕ
five = 1 ∷ 2 ∷ 3 ∷ 4 ∷ 5 ∷ []

calls_of_two : call_batch_fn 2 five ≡ (0, 2) ∷ (2, 2) ∷ (4, 1) ∷ []
unfolding call_batch_fn call_batches
calls_of_two = refl

no_calls : call_batch_fn 0 five ≡ []
unfolding call_batch_fn call_batches
no_calls = refl

call_batch_fn_lem_example :
    (rows_of_calls five (call_batch_fn 2 five) ≡ five)
    × All (λ (call : ℕ × ℕ). (0 < call.1) × (call.1 ≤ 2)) (call_batch_fn 2 five)
call_batch_fn_lem_example = call_batch_fn_lem 2 five (omega arith)

-- what "{1}" and "{2}" say
abbrev said : Text → Option Position
said text =
    if text ≟ codes "{1}"
    then some (Position.rdb_snapshot [] (codes "s") (codes "t") (codes "c") (codes "1"))
    else if text ≟ codes "{2}"
    then some (Position.rdb_snapshot [] (codes "s") (codes "t") (codes "c") (codes "2"))
    else none

abbrev lines : List Text
lines =
    codes "now | current_position | {1}"
    ∷ codes "now | checkpoint_position | {2}"
    ∷ codes "now | current_position | {2}"
    ∷ []

abbrev resumed : SnapshotResumer
resumed = record {
  current_tb_positions = ((codes "s", (codes "t", codes "c")), codes "2") ∷ [];
  checkpoint_tb_positions = ((codes "s", (codes "t", codes "c")), codes "2") ∷ [];
  finished_tbs = [];
}

read :
    load_lines said
      (record { current_tb_positions = []; checkpoint_tb_positions = []; finished_tbs = [] })
      lines
    ≡ ok resumed
unfolding load_lines load_resume_line from_log slice snapshot_load trim
read = refl

get_resume_value-latest_example :
    (get_resume_value resumed (codes "s") (codes "t") (codes "c") true
      ≡ latest said false (codes "s", (codes "t", codes "c")) lines none)
    × (get_resume_value resumed (codes "s") (codes "t") (codes "c") false
        ≡ or_else_value
            (latest said true (codes "s", (codes "t", codes "c")) lines none)
            (latest said false (codes "s", (codes "t", codes "c")) lines none))
get_resume_value-latest_example =
    get_resume_value-latest said lines resumed (codes "s") (codes "t") (codes "c") read

-- a line whose last closing brace stands before its first opening one
broken : load_lines said resumed (codes "} | {" ∷ []) ≡ err panic
unfolding load_lines load_resume_line from_log slice trim
broken = refl

abbrev printers : Printers
printers = record {
  f32_to_string = λ _. [];
  f64_to_string = λ _. [];
  from_utf8 = some;
  hex_encode = λ bytes. bytes;
}

abbrev user : Text → RowData
user name = record {
  schema = codes "s";
  tb = codes "t";
  row_type = RowType.insert;
  before = none;
  after = some ((codes "id", long (pos 1)) ∷ (codes "name", string name) ∷ []);
  data_size = 0;
}

other_name :
    compare_row_data printers (user (codes "a")) (user (codes "b"))
    ≡ ok ((codes "name", record { src = some (codes "a"); dst = some (codes "b") }) ∷ [])
unfolding compare_row_data compare_cols eq to_option_string
other_name = refl

id_is_not_name : codes "id" ≢ codes "name"
id_is_not_name = λ e. let h : false ≡ true = ap (λ (t : Text). t ≟ codes "name") e in cc

abbrev cols : Text → Map Text ColValue
cols name = (codes "id", long (pos 1)) ∷ (codes "name", string name) ∷ []

compare_row_data_lem_example :
    (diffs : Map Text DiffColValue) × (compare_row_data printers
        (user (codes "a"))
        (user (codes "b"))
      ≡ ok diffs)
    × ((diffs ≡ []) ↔ All (SameIn printers (cols (codes "b"))) (cols (codes "a")))
    × ((col : Text)
        → lookup col diffs
          ≡ reported printers (lookup col (cols (codes "a"))) (lookup col (cols (codes "b"))))
compare_row_data_lem_example =
    compare_row_data_lem printers (user (codes "a")) (user (codes "b")) (cols (codes "a"))
      (cols (codes "b")) refl refl ((id_is_not_name, tt), (tt, tt))
