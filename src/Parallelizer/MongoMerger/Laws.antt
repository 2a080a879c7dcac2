-- ===== src/Parallelizer/MongoMerger/Laws.antt =====
-- Merging by the documents' keys.
use cubetran_core.Prelude.{
  All, Eq, List, Option, [], if◌then◌else◌, list_eq, lookup, map, nat_eq, none, ok, option_eq,
  pair_eq, some, ◌++◌, ◌>>=◌, ◌∷◌, ◌≟◌, ◌≡◌,
}
use cubetran_core.Meta.ColValue.{Document}
use cubetran_core.Meta.RowData
use cubetran_core.Meta.RowData.{ColValues, RowData, RowType}
use cubetran_core.Parallelizer.MongoMerger.{Buffers, get_hash_key}

module _ {K : Type 0} ⦃e : Eq K⦄ (from_doc : Document → Option K) where
  -- a collection, by its keys
  abbrev pub Collection : Type 0
  Collection = K → Option ColValues

  abbrev inserted : Option RowData → Option ColValues → Option ColValues
  inserted none before = before
  inserted (some row) before = row.after

  abbrev deleted : Option RowData → Option ColValues → Option ColValues
  deleted none before = before
  deleted (some row) before = none

  -- the collection after the deletes of the buffers and then their inserts
  pub view : Buffers from_doc → Collection → Collection
  view m t k = inserted (lookup k m.insert_map) (deleted (lookup k m.delete_map) (t k))

  abbrev image_of : RowType → RowData → Option ColValues
  image_of RowType.delete row = none
  image_of _ row = row.after

  -- what one row does to the document with its key
  pub effect : K → RowData → Collection → Collection
  effect id row t k = if id ≟ k then image_of row.row_type row else t k

  -- the effects of rows with their keys, one after the other
  pub effects : List (K × RowData) → Collection → Collection
  effects [] t = t
  effects ((id, row) ∷ rows) t = effects rows (effect id row t)

  abbrev pub HasNoKey : List RowData → Type 0
  HasNoKey [] = Unit
  HasNoKey (row ∷ rows) = get_hash_key from_doc row ≡ ok none

  -- What the loop promises of the rows that it has merged, and of those that are left.
  abbrev pub IsLoop :
      Buffers from_doc
      → List RowData
      → Buffers from_doc
      → List RowData
      → List (K × RowData)
      → Type 0
  IsLoop m rows m' rest merged =
      (rows ≡ map (λ x. x.1) merged ++ rest)
      × All (λ x. get_hash_key from_doc x.1 ≡ ok (some x.0)) merged
      × HasNoKey rest
      × ((t : Collection) → view m' t ≡ effects merged (view m t))
