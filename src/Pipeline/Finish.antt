-- ===== src/Pipeline/Finish.antt =====
-- The checkpoint reaches the end of what was sunk.
use cubetran_core.Prelude.{
  All, Bool, List, Option, Result, [], ap, err, false, list_eq, nat_eq, none, ok, ok_inj, option_eq,
  pair_eq, refl, some, sym, ◌>>=◌, ◌∙◌, ◌∷◌, ◌≡◌,
}
use cubetran_core.Meta.DtData.{DtItem, Position, Syncer}
use cubetran_core.Pipeline.{
  Done, Progress, SinkMethod, Sinking, Sunk, commit_to, fetch_ddl, fetch_dml, fetch_raw,
  fetch_struct, get_sink_method, is_none, pipeline_sink_ddl, pipeline_sink_dml, pipeline_sink_raw,
  pipeline_sink_struct, receive, record_checkpoint, sink_batch, sink_by, sink_ddls_if_any,
  sink_rows_if_any, start, turns,
}
use cubetran_core.Pipeline.Checkpoint.{committed_after, committed_after-ok, last-record_checkpoint}

unfoldable pub or_keep : Option Position → Position → Position
or_keep none q = q
or_keep (some position) q = position

-- the position that a batch commits, by the method that it is sunk with
unfoldable pub committed_by : SinkMethod → List DtItem → Option Position
committed_by SinkMethod.raw items = (fetch_raw items).1
committed_by SinkMethod.ddl items = (fetch_ddl items).1.1
committed_by SinkMethod.dml items = (fetch_dml items).1.1
committed_by SinkMethod.struct items = none

after_done : (done : Result Done) (x y : Sunk) → (do _ ← done; ok x) ≡ ok y → x ≡ y
after_done (err e) x y h = cc
after_done (ok d) x y h = ok_inj h

module _ (is_foxlake : Bool) (sinking : Sinking) where
  -- the last position that is committed by these batches, or `q`
  unfoldable pub last_committed : List (List DtItem × Bool) → Position → Position
  last_committed [] q = q
  last_committed (batch ∷ batches) q =
      last_committed batches (or_keep (committed_by (get_sink_method is_foxlake batch.0) batch.0) q)

  sink_by-committed_by :
      (method : SinkMethod) (items : List DtItem) (sunk : Sunk)
      → sink_by method sinking items ≡ ok sunk
      → committed_by method items ≡ sunk.1.1
  unfolding sink_by committed_by pipeline_sink_raw pipeline_sink_struct pipeline_sink_dml
      pipeline_sink_ddl
  sink_by-committed_by SinkMethod.raw [] sunk h = ap (λ s. s.1.1) (ok_inj h)
  sink_by-committed_by SinkMethod.raw (item ∷ items) sunk h =
      ap (λ s. s.1.1) (after_done (sinking.sink_raw (item ∷ items)) _ sunk h)
  sink_by-committed_by SinkMethod.struct items sunk h =
      ap (λ s. s.1.1) (after_done (sinking.sink_struct (fetch_struct items)) _ sunk h)
  sink_by-committed_by SinkMethod.dml items sunk h =
      ap (λ s. s.1.1) (after_done (sink_rows_if_any sinking (fetch_dml items).0) _ sunk h)
  sink_by-committed_by SinkMethod.ddl items sunk h =
      ap (λ s. s.1.1) (after_done (sink_ddls_if_any sinking (fetch_ddl items).0) _ sunk h)

  last-commit_to :
      (r c : Option Position) (p : Progress)
      → (commit_to c (receive r p)).last_commit_position ≡ or_keep c p.last_commit_position
  unfolding commit_to receive or_keep
  last-commit_to none none p = refl
  last-commit_to (some x) none p = refl
  last-commit_to none (some y) p = refl
  last-commit_to (some x) (some y) p = refl

  last-turn :
      (due : Bool) (r c : Option Position) (p : Progress)
      → (record_checkpoint due (commit_to c (receive r p))).last_commit_position
        ≡ or_keep c p.last_commit_position
  last-turn due r c p =
      last-record_checkpoint is_foxlake sinking due (commit_to c (receive r p))
      ∙ last-commit_to r c p

  turns-last :
      (batches : List (List DtItem × Bool)) (p : Progress)
      → All (λ batch. (sunk : Sunk) × (sink_batch is_foxlake sinking batch.0 ≡ ok sunk)) batches
      → is_none (last_committed batches p.last_commit_position) ≡ false
      → committed_after is_foxlake sinking batches p ≡ last_committed batches p.last_commit_position
  unfolding last_committed record_checkpoint turns
  turns-last [] p a n = rw (n, committed_after, turns, record_checkpoint) refl
  turns-last ((items, due) ∷ batches) p a n =
      let (sunk, h) = a.0 in
      let p' = record_checkpoint due (commit_to sunk.1.1 (receive sunk.1.0 p)) in
      let method = get_sink_method is_foxlake items in
      let same =
        last-turn due sunk.1.0 sunk.1.1 p
        ∙ ap (λ c. or_keep c p.last_commit_position)
            (sym (sink_by-committed_by method items sunk h)) in
      committed_after-ok is_foxlake sinking items due batches p sunk.0 sunk.1.0 sunk.1.1 h
      ∙ turns-last batches p' a.1 (ap (λ q. is_none (last_committed batches q)) same ∙ n)
      ∙ ap (last_committed batches) same

  -- When every batch is sunk and the pipeline is shut down, the committed position is the last one that
  -- a batch commits, unless that is the position `None`.
  pub start-last :
      (batches : List (List DtItem × Bool)) (syncer : Syncer)
      → All (λ batch. (sunk : Sunk) × (sink_batch is_foxlake sinking batch.0 ≡ ok sunk)) batches
      → is_none (last_committed batches Position.nowhere) ≡ false
      → (start is_foxlake sinking batches syncer).0.syncer.committed_position
        ≡ last_committed batches Position.nowhere
  unfolding start
  start-last batches syncer a n =
      turns-last batches
        (record {
          syncer = syncer;
          last_received_position = Position.nowhere;
          last_commit_position = Position.nowhere;
        })
        a n
