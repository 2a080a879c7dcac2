-- ===== src/Connector/Resumer.antt =====
-- dt-connector/src/extractor/resumer, and `from_log` of dt-common/src/meta/position.rs. The lines of the
-- files that are read are the input; what JSON says of a position is a parameter.
pub mod Latest
use mathlib.Core.Bool.{◌||◌, ◌&&◌}
use cubetran_core.Prelude.{
  Bool, List, Map, Option, Result, Text, [], codes, contains, drop, err, false, if◌then◌else◌,
  insert, list_eq, lookup, ltb, nat_eq, none, ok, option_eq, pair_eq, panic, some, suc, take, true,
  ℕ, ◌&&◌, ◌++◌, ◌+◌, ◌-◌, ◌==◌, ◌>>=◌, ◌>>◌, ◌||◌, ◌∷◌,
}
use cubetran_core.Meta.DtData.{Position}
use cubetran_core.Config.TokenParser.{trim}

-- str::contains, of a text
abbrev is_prefix : Text → Text → Bool
is_prefix [] s = true
is_prefix (c ∷ p) [] = false
is_prefix (c ∷ p) (d ∷ s) = c == d && is_prefix p s

abbrev pub contains_text : Text → Text → Bool
contains_text [] p = is_prefix p []
contains_text (c ∷ s) p = is_prefix p (c ∷ s) || contains_text s p

-- str::find and str::rfind, of a character
abbrev find : ℕ → Text → Option ℕ
find c [] = none
find c (x ∷ s) =
    let later = find c s in
    if x == c then some 0 else elim later [ none ↦ none | some i ↦ some (suc i) ]

abbrev rfind : ℕ → Text → Option ℕ
rfind c [] = none
rfind c (x ∷ s) = elim (rfind c s) [
  | some i ↦ some (suc i)
  | none ↦ if x == c then some 0 else none
]

-- `&log[left..=right]`, which panics when `left` is past the end of the slice
unfoldable pub slice : Text → ℕ → ℕ → Result Text
slice log left right =
    if ltb (right + 1) left then err panic else ok (take (right + 1 - left) (drop left log))

abbrev pub or_nowhere : Option Position → Position
or_nowhere none = Position.nowhere
or_nowhere (some position) = position

abbrev read_slice : (Text → Option Position) → Text → Option ℕ → Option ℕ → Result Position
read_slice from_str log (some left) (some right) = do
  position_log ← slice log left right
  ok (or_nowhere (from_str position_log))
read_slice from_str log _ _ = ok Position.nowhere

unfoldable pub from_log : (Text → Option Position) → Text → Result Position
from_log from_str log = elim (trim log) [
  | [] ↦ ok Position.nowhere
  | _ ↦ read_slice from_str log (find 123 log) (rfind 125 log)
]

abbrev pub current_position_log_flag : Text
current_position_log_flag = codes "| current_position |"

abbrev pub is_current : Text → Bool
is_current line = contains_text line current_position_log_flag

abbrev pub DbTbCol : Type 0
DbTbCol = Text × (Text × Text)

pub record CdcResumer : Type 0 where
  pub current_position : Position
  pub checkpoint_position : Position

abbrev is_nowhere : Position → Bool
is_nowhere Position.nowhere = true
is_nowhere _ = false

unfoldable pub cdc_load : CdcResumer → Bool → Position → CdcResumer
cdc_load me current position =
    if is_nowhere position
    then me
    else if current
    then record me { current_position = position }
    else record me { checkpoint_position = position }

pub record SnapshotResumer : Type 0 where
  pub current_tb_positions : Map DbTbCol Text
  pub checkpoint_tb_positions : Map DbTbCol Text
  pub finished_tbs : List (Text × Text)

abbrev put_position : SnapshotResumer → Bool → DbTbCol → Text → SnapshotResumer
put_position me true key value = record me {
  current_tb_positions = insert key value me.current_tb_positions;
}
put_position me false key value = record me {
  checkpoint_tb_positions = insert key value me.checkpoint_tb_positions;
}

-- a line that has been read: whether it has the flag, and its position
unfoldable pub snapshot_load : SnapshotResumer → Bool → Position → SnapshotResumer
snapshot_load me current (Position.rdb_snapshot db_type schema tb order_col value) =
    put_position me current (schema, (tb, order_col)) value
snapshot_load me current (Position.foxlake_s3 schema tb s3_meta_file) =
    put_position me current (schema, (tb, [])) s3_meta_file
snapshot_load me current (Position.rdb_snapshot_finished db_type schema tb) = record me {
  finished_tbs = (schema, tb) ∷ me.finished_tbs;
}
snapshot_load me current _ = me

module _ (from_str : Text → Option Position) where
  unfoldable pub cdc_load_resume_line : CdcResumer → Text → Result CdcResumer
  cdc_load_resume_line me line = do
    position ← from_log from_str line
    ok (cdc_load me (is_current line) position)

  unfoldable pub load_resume_line : SnapshotResumer → Text → Result SnapshotResumer
  load_resume_line me line = do
    position ← from_log from_str line
    ok (snapshot_load me (is_current line) position)

  -- the lines of the files, in the order in which they are read
  unfoldable pub load_lines : SnapshotResumer → List Text → Result SnapshotResumer
  load_lines me [] = ok me
  load_lines me (line ∷ lines) = do me' ← load_resume_line me line; load_lines me' lines

  unfoldable pub cdc_load_lines : CdcResumer → List Text → Result CdcResumer
  cdc_load_lines me [] = ok me
  cdc_load_lines me (line ∷ lines) = do me' ← cdc_load_resume_line me line; cdc_load_lines me' lines

  -- `from_config`, over the lines of the files: of the configuration file, `none` if it does not open,
  -- and of the log of positions, if the task resumes from it
  abbrev cdc_load_config : Option (List Text) → Result CdcResumer
  cdc_load_config none =
      ok (record { current_position = Position.nowhere; checkpoint_position = Position.nowhere })
  cdc_load_config (some lines) = do
    me ←
        cdc_load_lines
          (record { current_position = Position.nowhere; checkpoint_position = Position.nowhere })
          lines
    ok (record me { current_position = me.checkpoint_position })

  unfoldable pub cdc_from_config : Option (List Text) → List Text → Result CdcResumer
  cdc_from_config config_lines log_lines = do
    me ← cdc_load_config config_lines
    cdc_load_lines me log_lines

  -- the lines of the configuration file, of the log of positions and of the finished tables
  unfoldable pub snapshot_from_config : List Text → List Text → List Text → Result SnapshotResumer
  snapshot_from_config config_lines position_lines finished_lines =
      load_lines
        (record { current_tb_positions = []; checkpoint_tb_positions = []; finished_tbs = [] })
        (config_lines ++ (position_lines ++ finished_lines))

unfoldable pub check_finished : SnapshotResumer → Text → Text → Bool
check_finished me schema tb = contains me.finished_tbs (schema, tb)

abbrev pub or_else_value : Option Text → Option Text → Option Text
or_else_value (some v) o = some v
or_else_value none o = o

unfoldable pub get_resume_value : SnapshotResumer → Text → Text → Text → Bool → Option Text
get_resume_value me schema tb col checkpoint =
    let key : DbTbCol = (schema, (tb, col)) in
    if checkpoint
    then lookup key me.checkpoint_tb_positions
    else or_else_value (lookup key me.current_tb_positions) (lookup key me.checkpoint_tb_positions)
