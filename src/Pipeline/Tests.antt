-- ===== src/Pipeline/Tests.antt =====
-- The pipeline's theorems at concrete inputs.
use cubetran_core.Prelude.{
  List, [], false, list_eq, nat_eq, none, ok, option_eq, pair_eq, refl, some, true, ℕ, ◌∷◌, ◌≡◌,
}
use cubetran_core.Meta.RowData.{RowData, RowType}
use cubetran_core.Meta.DtData.{DtData, DtItem, Position, Syncer}
use cubetran_core.Pipeline.{
  Sinking, fetch_ddl, fetch_dml, fetch_raw, get_sink_method, is_none, sink_batch, start,
}
use cubetran_core.Pipeline.Finish.{committed_by, last_committed, or_keep, start-last}
use cubetran_core.Pipeline.Fetch.{
  ddl_commits, ddls_in, dml_commits, dml_receives, fetch_ddl_lem, fetch_dml_lem, fetch_raw_lem,
  last_or, raw_commits, raw_receives, rows_in,
}

abbrev lsn : ℕ → Position
lsn n = Position.pg_cdc (n ∷ []) []

abbrev row : RowData
row = record {
  schema = [];
  tb = [];
  row_type = RowType.insert;
  before = none;
  after = some [];
  data_size = 0;
}

abbrev at : ℕ → DtData → DtItem
at n d = record { dt_data = d; position = lsn n; data_origin_node = [] }

abbrev transaction : List DtItem
transaction =
    at 1 DtData.begin ∷ at 2 (DtData.dml row) ∷ at 3 (DtData.commit []) ∷ at 4 (DtData.dml row) ∷ []

abbrev always : Sinking
always = record {
  sink_raw = λ _. ok tt;
  sink_struct = λ _. ok tt;
  sink_dml = λ _. ok tt;
  sink_ddl = λ _. ok tt;
  refresh_meta = λ _. ok tt;
  process = none;
}

abbrev fresh : Syncer
fresh = record { received_position = Position.nowhere; committed_position = Position.nowhere }

fetch_raw_lem_example :
    fetch_raw transaction
    ≡ (last_or raw_receives none transaction, last_or raw_commits none transaction)
fetch_raw_lem_example = fetch_raw_lem transaction

fetch_dml_lem_example : fetch_dml transaction ≡ (
  rows_in transaction,
  (last_or dml_receives none transaction, last_or dml_commits none transaction),
)
fetch_dml_lem_example = fetch_dml_lem transaction

fetch_ddl_lem_example : fetch_ddl transaction ≡ (
  ddls_in transaction,
  (last_or ddl_commits none transaction, last_or ddl_commits none transaction),
)
fetch_ddl_lem_example = fetch_ddl_lem transaction

sunk_transaction : sink_batch false always transaction ≡ ok (2, (some (lsn 4), some (lsn 3)))
unfolding sink_batch
sunk_transaction = refl

commits_three : last_committed false always ((transaction, true) ∷ []) Position.nowhere ≡ lsn 3
unfolding last_committed get_sink_method or_keep committed_by fetch_dml
commits_three = refl

start-last_example :
    (start false always ((transaction, true) ∷ []) fresh).0.syncer.committed_position
    ≡ last_committed false always ((transaction, true) ∷ []) Position.nowhere
unfolding is_none
start-last_example =
    start-last false always ((transaction, true) ∷ []) fresh
      (((2, (some (lsn 4), some (lsn 3))), sunk_transaction), tt) (rw commits_three refl)
