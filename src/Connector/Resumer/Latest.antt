-- ===== src/Connector/Resumer/Latest.antt =====
-- What the snapshot resumer has after it has read its lines.
use cubetran_core.Prelude.{
  Bool, IfOk, List, Map, Option, Result, Text, [], ap, ap₂, err, err-IfOk, false, from-IfOk,
  if◌then◌else◌, insert, list_eq, lookup, lookup-insert, map-IfOk, nat_eq, none, ok, ok-IfOk,
  option_eq, pair_eq, refl, some, sym, true, ◌>>=◌, ◌∙◌, ◌∷◌, ◌≟◌, ◌≡◌,
}
use cubetran_core.Meta.DtData.{Position}
use cubetran_core.Connector.Resumer.{
  DbTbCol, SnapshotResumer, from_log, get_resume_value, is_current, load_lines, load_resume_line,
  or_else_value, put_position, snapshot_load,
}

-- The value that a position has for a table's column. A file of foxlake stands under no column.
unfoldable pub value_at : DbTbCol → Position → Option Text
value_at key (Position.rdb_snapshot db_type schema tb order_col value) =
    if ◌≟◌ {A = DbTbCol} (schema, (tb, order_col)) key then some value else none
value_at key (Position.foxlake_s3 schema tb s3_meta_file) =
    if ◌≟◌ {A = DbTbCol} (schema, (tb, [])) key then some s3_meta_file else none
value_at key _ = none

-- the same of a line that has the flag of a current position, or has not
abbrev pub flagged : Bool → Bool → Option Text → Option Text
flagged true true o = o
flagged false false o = o
flagged _ _ o = none

abbrev pub positions_of : SnapshotResumer → Bool → Map DbTbCol Text
positions_of me true = me.current_tb_positions
positions_of me false = me.checkpoint_tb_positions

inserted :
    (k key : DbTbCol) (v : Text) (m : Map DbTbCol Text)
    → lookup key (insert k v m) ≡ or_else_value (if k ≟ key then some v else none) (lookup key m)
inserted k key v m = lookup-insert k key v m ∙ chosen (k ≟ key)
  where
    chosen :
        (b : Bool)
        → (if b then some v else lookup key m)
          ≡ or_else_value (if b then some v else none) (lookup key m)
    chosen true = refl
    chosen false = refl

put_position_lem :
    (me : SnapshotResumer) (flag current : Bool) (k key : DbTbCol) (v : Text)
    → lookup key (positions_of (put_position me current k v) flag)
      ≡ or_else_value
          (flagged flag current (if k ≟ key then some v else none))
          (lookup key (positions_of me flag))
put_position_lem me true true k key v = inserted k key v me.current_tb_positions
put_position_lem me true false k key v = refl
put_position_lem me false true k key v = refl
put_position_lem me false false k key v = inserted k key v me.checkpoint_tb_positions

no_value : (flag current : Bool) (o : Option Text) → o ≡ or_else_value (flagged flag current none) o
no_value true true o = refl
no_value true false o = refl
no_value false true o = refl
no_value false false o = refl

finished_lem :
    (me : SnapshotResumer) (flag current : Bool) (key : DbTbCol) (tbs : List (Text × Text))
    → lookup key (positions_of (record me { finished_tbs = tbs }) flag)
      ≡ or_else_value (flagged flag current none) (lookup key (positions_of me flag))
finished_lem me true current key tbs = no_value true current _
finished_lem me false current key tbs = no_value false current _

snapshot_load_lem :
    (me : SnapshotResumer) (flag current : Bool) (key : DbTbCol) (position : Position)
    → lookup key (positions_of (snapshot_load me current position) flag)
      ≡ or_else_value
          (flagged flag current (value_at key position))
          (lookup key (positions_of me flag))
unfolding snapshot_load value_at
snapshot_load_lem me flag current key (Position.rdb_snapshot d s t c v) =
    put_position_lem me flag current (s, (t, c)) key v
snapshot_load_lem me flag current key (Position.foxlake_s3 s t f) =
    put_position_lem me flag current (s, (t, [])) key f
snapshot_load_lem me flag current key (Position.rdb_snapshot_finished d s t) =
    finished_lem me flag current key ((s, t) ∷ me.finished_tbs)
snapshot_load_lem me flag current key Position.nowhere = no_value flag current _
snapshot_load_lem me flag current key (Position.kafka a b c) = no_value flag current _
snapshot_load_lem me flag current key (Position.mysql_cdc a b c d e) = no_value flag current _
snapshot_load_lem me flag current key (Position.pg_cdc a b) = no_value flag current _
snapshot_load_lem me flag current key (Position.mongo_cdc a b c) = no_value flag current _
snapshot_load_lem me flag current key (Position.redis_repl a b c d e) = no_value flag current _

module _ (from_str : Text → Option Position) where
  abbrev line_value : Bool → DbTbCol → Text → Result Position → Option Text
  line_value flag key line (err e) = none
  line_value flag key line (ok position) = flagged flag (is_current line) (value_at key position)

  -- the value of the last line that has one for the key, or `o`
  unfoldable pub latest : Bool → DbTbCol → List Text → Option Text → Option Text
  latest flag key [] o = o
  latest flag key (line ∷ lines) o =
      latest flag key lines (or_else_value (line_value flag key line (from_log from_str line)) o)

  Loaded : SnapshotResumer → List Text → SnapshotResumer → Type 0
  Loaded me lines me' =
      (flag : Bool) (key : DbTbCol)
      → lookup key (positions_of me' flag)
        ≡ latest flag key lines (lookup key (positions_of me flag))

  load_lines-Loaded :
      (me : SnapshotResumer) (lines : List Text)
      → IfOk (Loaded me lines) (load_lines from_str me lines)
  unfolding load_lines load_resume_line Loaded latest
  load_lines-Loaded me [] = ok-IfOk (Loaded me []) me (λ flag key. refl)
  load_lines-Loaded me (line ∷ lines) =
      read (from_log from_str line) refl (λ me'. load_lines-Loaded me' lines)
    where
      read :
          (m : Result Position)
          → from_log from_str line ≡ m
          → ((me' : SnapshotResumer) → IfOk (Loaded me' lines) (load_lines from_str me' lines))
          → IfOk (Loaded me (line ∷ lines)) (
              m >>= (λ position. ok (snapshot_load me (is_current line) position)) >>= λ me'.
              load_lines from_str me' lines)
      read (err e) found more = err-IfOk (Loaded me (line ∷ lines)) e
      read (ok position) found more =
          let me' = snapshot_load me (is_current line) position in
          map-IfOk (Loaded me' lines) (Loaded me (line ∷ lines)) (load_lines from_str me' lines)
            (λ me'' loaded flag key.
              loaded flag key
              ∙ ap (latest flag key lines) (
                  snapshot_load_lem me flag (is_current line) key position
                  ∙ ap
                      (λ r.
                        or_else_value (line_value flag key line r)
                          (lookup key (positions_of me flag)))
                      (sym found)))
            (more me')

  at_checkpoint :
      (me : SnapshotResumer) (schema tb col : Text)
      → get_resume_value me schema tb col true
        ≡ lookup {K = DbTbCol} (schema, (tb, col)) me.checkpoint_tb_positions
  unfolding get_resume_value
  at_checkpoint me schema tb col = refl

  or_else_at :
      (me : SnapshotResumer) (schema tb col : Text)
      → get_resume_value me schema tb col false
        ≡ or_else_value
            (lookup {K = DbTbCol} (schema, (tb, col)) me.current_tb_positions)
            (lookup {K = DbTbCol} (schema, (tb, col)) me.checkpoint_tb_positions)
  unfolding get_resume_value
  or_else_at me schema tb col = refl

  -- Where a table's snapshot is taken up again, when the lines have been read by an empty resumer. Asked
  -- for the checkpoint, as it is by an extractor that reads in parallel, at the value of the last line
  -- without the flag of a current position for the table's column. Otherwise at the value of the last
  -- line with the flag, and if there is none, at that of the last line without it.
  pub get_resume_value-latest :
      (lines : List Text) (me' : SnapshotResumer) (schema tb col : Text)
      → load_lines from_str
          (record { current_tb_positions = []; checkpoint_tb_positions = []; finished_tbs = [] })
          lines
        ≡ ok me'
      → (get_resume_value me' schema tb col true ≡ latest false (schema, (tb, col)) lines none)
        × (get_resume_value me' schema tb col false
            ≡ or_else_value
                (latest true (schema, (tb, col)) lines none)
                (latest false (schema, (tb, col)) lines none))
  unfolding Loaded
  get_resume_value-latest lines me' schema tb col e =
      let empty : SnapshotResumer = record {
        current_tb_positions = [];
        checkpoint_tb_positions = [];
        finished_tbs = [];
      } in
      let loaded =
        from-IfOk (Loaded empty lines) (load_lines from_str empty lines) e
          (load_lines-Loaded empty lines) in
      (
        at_checkpoint me' schema tb col ∙ loaded false (schema, (tb, col)),
        or_else_at me' schema tb col
            ∙ ap₂ or_else_value (loaded true (schema, (tb, col)))
                (loaded false (schema, (tb, col))),
      )
