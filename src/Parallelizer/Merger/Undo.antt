-- ===== src/Parallelizer/Merger/Undo.antt =====
-- What the reverse of a row change does to a table that the change was sunk to: RowData::reverse of
-- dt-common/src/meta/row_data.rs, which the SQL sinker uses to write statements that undo changes.
use cubetran_core.Prelude.{
  Bool-cases, Eq, List, Text, ap, false, fun_ext, inl, inr, list_eq, nat_eq, none, option_eq,
  pair_eq, refl, some, sym, true, ◌∙◌, ◌≟◌, ◌≡◌, ◌⊎◌,
}
use cubetran_core.Meta.ColValue.Equality.{same, value_eq}
use cubetran_core.Meta.RowData.{ColValues, RowData, RowType, new, reverse, reverse_type}
use cubetran_core.Parallelizer.Merger.{full_tb}
use cubetran_core.Parallelizer.Merger.Writes.{write}
use cubetran_core.Parallelizer.Merger.Keys.{Table, image, key_of, sink_row, sink_typed}

module _ {ℓ} {K V : Type ℓ} ⦃e : Eq K⦄ where
  write_at : (k : K) (v : V) (t : K → V) → write k v t k ≡ v
  unfolding write
  write_at k v t = rw ((e.beq_iff k k).1 refl) refl

  write_back : (k : K) (v w : V) (t : K → V) → t k ≡ v → write k v (write k w t) ≡ t
  unfolding write
  write_back k v w t h = fun_ext λ j. elim (Bool-cases (k ≟ j)) [
    | inl same ↦ rw same (sym h ∙ ap t ((e.beq_iff k j).0 same))
    | inr other ↦ rw other refl
  ]

  -- an entry that was moved from `k` to `l` is moved back
  move_back :
      (k l : K) (old new gone : V) (t : K → V)
      → t k ≡ old
      → (l ≡ k) ⊎ (t l ≡ gone)
      → write k old (write l gone (write l new (write k gone t))) ≡ t
  unfolding write
  move_back k l old new gone t h free = fun_ext λ j. elim (Bool-cases (k ≟ j)) [
    | inl same ↦ rw same (sym h ∙ ap t ((e.beq_iff k j).0 same))
    | inr other ↦ rw other (elim (Bool-cases (l ≟ j)) [
      | inl hit ↦ rw hit (was_free j other ((e.beq_iff l j).0 hit) free)
      | inr miss ↦ rw miss refl
    ])
  ]
    where
      was_free : (j : K) → (k ≟ j) ≡ false → l ≡ j → (l ≡ k) ⊎ (t l ≡ gone) → gone ≡ t j
      was_free j other at (inl same) =
          let hit : (k ≟ j) ≡ true = (e.beq_iff k j).1 (sym same ∙ at) in cc
      was_free j other at (inr none_there) = sym none_there ∙ ap t at

-- The change is one of this table: what it deletes or replaces is there as its image before, and where
-- it puts its image after there is nothing, unless it is what it replaces.
abbrev pub IsChangeAs : RowType → List Text → Table → ColValues → ColValues → Type 0
IsChangeAs RowType.insert ids t before after = t (key_of ids after) ≡ none
IsChangeAs RowType.delete ids t before after = t (key_of ids before) ≡ some before
IsChangeAs RowType.update ids t before after =
    (t (key_of ids before) ≡ some before)
    × ((key_of ids after ≡ key_of ids before) ⊎ (t (key_of ids after) ≡ none))

abbrev pub IsChange : List Text → Table → RowData → Type 0
IsChange ids t row = IsChangeAs row.row_type ids t (image row.before) (image row.after)

-- an update of a row that is there
updated :
    (ids : List Text) (t : Table) (before after old : ColValues)
    → t (key_of ids before) ≡ some old
    → sink_typed RowType.update ids t before after
      ≡ write (key_of ids after) (some after) (write (key_of ids before) none t)
updated ids t before after old h = rw (h, sink_typed) refl

undone :
    (type : RowType) (ids : List Text) (t : Table) (before after : ColValues)
    → IsChangeAs type ids t before after
    → sink_typed (reverse_type type) ids (sink_typed type ids t before after) after before ≡ t
unfolding reverse_type
undone RowType.insert ids t before after h = write_back (key_of ids after) none (some after) t h
undone RowType.delete ids t before after h = write_back (key_of ids before) (some before) none t h
undone RowType.update ids t before after (there, free) =
    let there_now = write (key_of ids after) (some after) (write (key_of ids before) none t) in
    ap (λ u. sink_typed RowType.update ids u after before) (updated ids t before after before there)
    ∙ updated ids there_now after before after
        (write_at (key_of ids after) (some after) (write (key_of ids before) none t))
    ∙ move_back (key_of ids before) (key_of ids after) (some before) (some after) none t there free

-- When a change is one of the table (what it deletes or replaces is there as its image before, and
-- there is nothing under the key of its image after, unless the key is that of the image before),
-- sinking it and then its reverse leaves the table as it was. The reverse is of the same table.
pub sink_row-reverse :
    (ids : List Text) (t : Table) (row : RowData)
    → IsChange ids t row
    → (full_tb (reverse row) ≡ full_tb row) × (sink_row ids (sink_row ids t row) (reverse row) ≡ t)
unfolding sink_row reverse full_tb
sink_row-reverse ids t row h =
    (refl, undone row.row_type ids t (image row.before) (image row.after) h)
