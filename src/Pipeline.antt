-- ===== src/Pipeline.antt =====
-- dt-pipeline/src/base_pipeline.rs: what a pipeline does with the batches that it drains. The
-- parallelizer with its sinkers and the lua processor are parameters (`Sinking`); whether the interval
-- between checkpoints is over is told with each batch. The monitor is not modelled.
pub mod Fetch
pub mod Checkpoint
pub mod Finish
mod Tests
use cubetran_core.Prelude.{
  Bool, List, Option, Result, [], err, false, if◌then◌else◌, length, list_eq, nat_eq, none, not, ok,
  option_eq, pair_eq, some, true, ℕ, ◌&&◌, ◌++◌, ◌>>=◌, ◌>>◌, ◌∷◌,
}
use cubetran_core.Meta.RowData.{RowData}
use cubetran_core.Meta.DtData.{DdlData, DtData, DtItem, Position, StructData, Syncer}

-- the positions that a batch moves the pipeline to: received, and committed
abbrev pub Positions : Type 0
Positions = Option Position × Option Position

-- one turn of `fetch_raw`'s loop. The test for a `ping` only continues a loop that goes on anyway.
raw_step : DtData → Position → Positions → Positions
raw_step (DtData.commit xid) position (received, committed) = (some position, some position)
raw_step (DtData.ddl d) position (received, committed) = (some position, some position)
raw_step (DtData.redis entry) position (received, committed) = (some position, some position)
raw_step DtData.begin position (received, committed) = (received, committed)
raw_step _ position (received, committed) = (some position, committed)

fetch_raw_loop : Positions → List DtItem → Positions
unfolding raw_step
fetch_raw_loop positions [] = positions
fetch_raw_loop positions (item ∷ items) =
    fetch_raw_loop (raw_step item.dt_data item.position positions) items

unfoldable pub fetch_raw : List DtItem → Positions
unfolding fetch_raw_loop
fetch_raw items = fetch_raw_loop (none, none) items

dml_step : DtData → Position → List RowData × Positions → List RowData × Positions
dml_step (DtData.commit xid) position (rows, (received, committed)) =
    (rows, (some position, some position))
dml_step (DtData.dml row) position (rows, (received, committed)) =
    (rows ++ row ∷ [], (some position, committed))
dml_step _ position fetched = fetched

fetch_dml_loop : List RowData × Positions → List DtItem → List RowData × Positions
unfolding dml_step
fetch_dml_loop fetched [] = fetched
fetch_dml_loop fetched (item ∷ items) =
    fetch_dml_loop (dml_step item.dt_data item.position fetched) items

unfoldable pub fetch_dml : List DtItem → List RowData × Positions
unfolding fetch_dml_loop
fetch_dml items = fetch_dml_loop ([], (none, none)) items

ddl_step : DtData → Position → List DdlData × Positions → List DdlData × Positions
ddl_step (DtData.commit xid) position (ddls, (received, committed)) =
    (ddls, (some position, some position))
ddl_step (DtData.ddl d) position (ddls, (received, committed)) =
    (ddls ++ d ∷ [], (some position, some position))
ddl_step _ position fetched = fetched

fetch_ddl_loop : List DdlData × Positions → List DtItem → List DdlData × Positions
unfolding ddl_step
fetch_ddl_loop fetched [] = fetched
fetch_ddl_loop fetched (item ∷ items) =
    fetch_ddl_loop (ddl_step item.dt_data item.position fetched) items

unfoldable pub fetch_ddl : List DtItem → List DdlData × Positions
unfolding fetch_ddl_loop
fetch_ddl items = fetch_ddl_loop ([], (none, none)) items

-- the loop of `sink_struct`
fetch_struct : List DtItem → List StructData
fetch_struct [] = []
fetch_struct (item ∷ items) = elim item.dt_data [
  | DtData.struct d ↦ d ∷ fetch_struct items
  | _ ↦ fetch_struct items
]

pub data SinkMethod : Type 0 where
  raw : SinkMethod
  ddl : SinkMethod
  dml : SinkMethod
  struct : SinkMethod

-- the first item that is neither `Begin` nor `Commit` decides; the flag says whether the sinker is one
-- of the three of foxlake
unfoldable pub get_sink_method : Bool → List DtItem → SinkMethod
get_sink_method is_foxlake [] = SinkMethod.raw
get_sink_method is_foxlake (item ∷ items) = elim item.dt_data [
  | DtData.struct d ↦ SinkMethod.struct
  | DtData.ddl d ↦ SinkMethod.ddl
  | DtData.dml row ↦ if is_foxlake then SinkMethod.raw else SinkMethod.dml
  | DtData.redis entry ↦ SinkMethod.raw
  | DtData.foxlake meta ↦ SinkMethod.raw
  | DtData.begin ↦ get_sink_method is_foxlake items
  | DtData.commit xid ↦ get_sink_method is_foxlake items
]

abbrev pub Done : Type 0
Done = Unit

-- the calls of the parallelizer, of the sinkers (`refresh_meta` on all of them) and of lua
pub record Sinking : Type 0 where
  pub sink_raw : List DtItem → Result Done
  pub sink_struct : List StructData → Result Done
  pub sink_dml : List RowData → Result Done
  pub sink_ddl : List DdlData → Result Done
  pub refresh_meta : List DdlData → Result Done
  pub process : Option (List RowData → Result (List RowData))

-- the number of items sunk, and the positions
abbrev pub Sunk : Type 0
Sunk = ℕ × Positions

unfoldable pub pipeline_sink_raw : Sinking → List DtItem → Result Sunk
unfolding fetch_raw
pipeline_sink_raw sinking [] = ok (0, fetch_raw [])
pipeline_sink_raw sinking (item ∷ items) = do
  _ ← sinking.sink_raw (item ∷ items)
  ok (length (item ∷ items), fetch_raw (item ∷ items))

-- The count is that of a vector that has been drained.
unfoldable pub pipeline_sink_struct : Sinking → List DtItem → Result Sunk
unfolding fetch_struct
pipeline_sink_struct sinking items = do
  _ ← sinking.sink_struct (fetch_struct items)
  ok (0, (none, none))

processed : Option (List RowData → Result (List RowData)) → List RowData → Result (List RowData)
processed none rows = ok rows
processed (some process) rows = process rows

sink_rows_if_any : Sinking → List RowData → Result Done
unfolding processed
sink_rows_if_any sinking [] = ok tt
sink_rows_if_any sinking (row ∷ rows) = do
  rows' ← processed sinking.process (row ∷ rows)
  sinking.sink_dml rows'

unfoldable pub pipeline_sink_dml : Sinking → List DtItem → Result Sunk
unfolding fetch_dml sink_rows_if_any
pipeline_sink_dml sinking items = do
  let (rows, positions) = fetch_dml items
  _ ← sink_rows_if_any sinking rows
  ok (length rows, positions)

sink_ddls_if_any : Sinking → List DdlData → Result Done
sink_ddls_if_any sinking [] = ok tt
sink_ddls_if_any sinking (d ∷ ddls) = do
  _ ← sinking.sink_ddl (d ∷ ddls)
  sinking.refresh_meta (d ∷ ddls)

unfoldable pub pipeline_sink_ddl : Sinking → List DtItem → Result Sunk
unfolding fetch_ddl sink_ddls_if_any
pipeline_sink_ddl sinking items = do
  let (ddls, positions) = fetch_ddl items
  _ ← sink_ddls_if_any sinking ddls
  ok (length ddls, positions)

sink_by : SinkMethod → Sinking → List DtItem → Result Sunk
unfolding pipeline_sink_raw pipeline_sink_struct pipeline_sink_dml pipeline_sink_ddl
sink_by SinkMethod.ddl sinking items = pipeline_sink_ddl sinking items
sink_by SinkMethod.dml sinking items = pipeline_sink_dml sinking items
sink_by SinkMethod.raw sinking items = pipeline_sink_raw sinking items
sink_by SinkMethod.struct sinking items = pipeline_sink_struct sinking items

unfoldable pub sink_batch : Bool → Sinking → List DtItem → Result Sunk
unfolding get_sink_method sink_by
sink_batch is_foxlake sinking items = sink_by (get_sink_method is_foxlake items) sinking items

-- the variables of `start`'s loop
pub record Progress : Type 0 where
  pub syncer : Syncer
  pub last_received_position : Position
  pub last_commit_position : Position

unfoldable pub is_none : Position → Bool
is_none Position.nowhere = true
is_none _ = false

-- `due`: there is no earlier checkpoint, or the interval is over
unfoldable pub record_checkpoint : Bool → Progress → Progress
unfolding is_none
record_checkpoint due p =
    if due && not (is_none p.last_commit_position)
    then record p { syncer = record p.syncer { committed_position = p.last_commit_position } }
    else p

pub receive : Option Position → Progress → Progress
receive none p = p
receive (some position) p = record p {
  syncer = record p.syncer { received_position = position };
  last_received_position = position;
}

pub commit_to : Option Position → Progress → Progress
commit_to none p = p
commit_to (some position) p = record p { last_commit_position = position }

-- one turn of the loop, on the items drained
unfoldable pub turn : Bool → Sinking → List DtItem × Bool → Progress → Result Progress
unfolding sink_batch receive commit_to record_checkpoint
turn is_foxlake sinking (items, due) p = do
  (count, (received, committed)) ← sink_batch is_foxlake sinking items
  ok (record_checkpoint due (commit_to committed (receive received p)))

-- The loop until the pipeline is shut down or sinking fails; then the syncer stays as it is.
pub turns : Bool → Sinking → List (List DtItem × Bool) → Progress → Progress × Result Done
unfolding turn record_checkpoint
turns is_foxlake sinking [] p = (record_checkpoint true p, ok tt)
turns is_foxlake sinking (batch ∷ batches) p = elim (turn is_foxlake sinking batch p) [
  | err e ↦ (p, err e)
  | ok p' ↦ turns is_foxlake sinking batches p'
]

unfoldable pub start : Bool → Sinking → List (List DtItem × Bool) → Syncer → Progress × Result Done
unfolding turns
start is_foxlake sinking batches syncer = turns is_foxlake sinking batches (record {
  syncer = syncer;
  last_received_position = Position.nowhere;
  last_commit_position = Position.nowhere;
})
