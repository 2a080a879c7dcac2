-- ===== src/Pipeline/Checkpoint.antt =====
-- The checkpoint: the position from which a restarted task goes on.
use cubetran_core.Prelude.{
  Bool, Bool-cases, List, Option, [], false, inl, inr, list_eq, nat_eq, ok, option_eq, pair_eq,
  refl, some, true, ℕ, ◌∷◌, ◌≡◌, ◌⊎◌,
}
use cubetran_core.Meta.DtData.{DtItem, Position}
use cubetran_core.Pipeline.{
  Progress, Sinking, Sunk, commit_to, is_none, receive, record_checkpoint, sink_batch, turn, turns,
}

module _ (is_foxlake : Bool) (sinking : Sinking) where
  -- `q` is the position that a batch commits, and this batch and all batches before it were sunk.
  abbrev pub Posted : List (List DtItem × Bool) → Position → Type 0
  Posted [] q = ⊥
  Posted (batch ∷ batches) q =
      (sunk : Sunk) × (sink_batch is_foxlake sinking batch.0 ≡ ok sunk)
      × ((sunk.1.1 ≡ some q) ⊎ Posted batches q)

  -- `q` is what the loop's state already had.
  abbrev Kept : Progress → Position → Type 0
  Kept p q =
      (q ≡ p.syncer.committed_position)
      ⊎ ((q ≡ p.last_commit_position) × (is_none p.last_commit_position ≡ false))

  pub last-record_checkpoint :
      (due : Bool) (p : Progress)
      → (record_checkpoint due p).last_commit_position ≡ p.last_commit_position
  unfolding record_checkpoint
  last-record_checkpoint false p = refl
  last-record_checkpoint true p = elim (Bool-cases (is_none p.last_commit_position)) [
    | inl nothing ↦ rw nothing refl
    | inr something ↦ rw something refl
  ]

  turn-ok :
      (items : List DtItem) (due : Bool) (p : Progress) (n : ℕ) (r c : Option Position)
      → sink_batch is_foxlake sinking items ≡ ok (n, (r, c))
      → turn is_foxlake sinking (items, due) p
        ≡ ok (record_checkpoint due (commit_to c (receive r p)))
  unfolding turn
  turn-ok items due p n r c h = rw h

  -- the position that is committed in the end
  abbrev pub committed_after : List (List DtItem × Bool) → Progress → Position
  committed_after batches p = (turns is_foxlake sinking batches p).0.syncer.committed_position

  pub committed_after-ok :
      (items : List DtItem) (due : Bool) (batches : List (List DtItem × Bool)) (p : Progress)
      (n : ℕ) (r c : Option Position)
      → sink_batch is_foxlake sinking items ≡ ok (n, (r, c))
      → committed_after ((items, due) ∷ batches) p
        ≡ committed_after batches (record_checkpoint due (commit_to c (receive r p)))
  unfolding turns
  committed_after-ok items due batches p n r c h =
      rw (turn-ok items due p n r c h, turns, committed_after) refl
