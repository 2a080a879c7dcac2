-- ===== src/Parallelizer/Merger/Collision.antt =====
-- What a collision check that passes says of the buffer, and that the checks never fail.
use cubetran_core.Prelude.{
  All, Bool, List, Map, Option, Text, ap, arith, false, list_eq, lookup, nat_eq, none, ok, ok_inj,
  option_eq, pair_eq, refl, some, sym, ℕ, ◌∙◌, ◌≡◌,
}
use cubetran_core.Meta.ColValue.{ColValue}
use cubetran_core.Meta.ColValue.Equality.{value_eq}
use cubetran_core.Meta.RowData.{ColValues, RdbTbMeta, RowData, RowType, key_image}
use cubetran_core.Parallelizer.Merger.{check_collision, collides, cols_differ}
use cubetran_core.Parallelizer.Merger.Writes.{SameAt}
use cubetran_core.Parallelizer.Merger.Buffers.{All-lookup, lookup-map_values, map_values}
use cubetran_core.Parallelizer.Merger.Keys.{IsExactKey, Key, cols_differ-false, image, key_of}
use cubetran_core.Parallelizer.Merger.Step.{
  IsDelete, IsInsert, delete_write, insert_write, key_hash,
}

pub key_image-insert : (row : RowData) → row.row_type ≡ RowType.insert → key_image row ≡ row.after
unfolding key_image
key_image-insert row p = ground arith

pub key_image-update : (row : RowData) → row.row_type ≡ RowType.update → key_image row ≡ row.before
unfolding key_image
key_image-update row p = ground arith

pub key_image-delete : (row : RowData) → row.row_type ≡ RowType.delete → key_image row ≡ row.before
unfolding key_image
key_image-delete row p = ground arith

module _ (hasher : ColValue → ℕ) (tb_meta : RdbTbMeta) where
  abbrev pub ids : List Text
  ids = tb_meta.id_cols

  collides_lem :
      (row exist : RowData) (cols exist_cols : ColValues) (b : Bool)
      → key_image row ≡ some cols
      → key_image exist ≡ some exist_cols
      → collides tb_meta row (some exist) ≡ ok b
      → cols_differ ids cols exist_cols ≡ b
  unfolding collides
  collides_lem row exist cols exist_cols b p q h = ok_inj (rw (p, q) at h)

  pub inserts-SameAt :
      (m : Map ℕ RowData) (row : RowData) (hash : ℕ) (cols : ColValues)
      → All (IsInsert hasher ids) m
      → key_image row ≡ some cols
      → IsExactKey (key_of ids cols)
      → check_collision m tb_meta row hash ≡ ok false
      → SameAt (key_hash hasher ids) hash (key_of ids cols) (map_values (insert_write hasher ids) m)
  unfolding check_collision
  inserts-SameAt m row hash cols d p x h l w e =
      let (exist, at, q) = lookup-map_values (insert_write hasher ids) hash m e in
      let entry = All-lookup (IsInsert hasher ids) hash m exist d at in
      let same =
        collides_lem row exist cols entry.whole.cols false p
          (key_image-insert exist entry.type ∙ entry.whole.found) (rw at at h) in
      ap (λ (x : Key × Option ColValues). x.0) q
      ∙ ap (λ o. key_of ids (image o)) entry.whole.found
      ∙ sym (cols_differ-false ids cols entry.whole.cols x same)

  pub deletes-SameAt :
      (m : Map ℕ RowData) (row : RowData) (hash : ℕ) (cols : ColValues)
      → All (IsDelete hasher ids) m
      → key_image row ≡ some cols
      → IsExactKey (key_of ids cols)
      → check_collision m tb_meta row hash ≡ ok false
      → SameAt (key_hash hasher ids) hash (key_of ids cols) (map_values (delete_write hasher ids) m)
  unfolding check_collision
  deletes-SameAt m row hash cols d p x h l w e =
      let (exist, at, q) = lookup-map_values (delete_write hasher ids) hash m e in
      let entry = All-lookup (IsDelete hasher ids) hash m exist d at in
      let same =
        collides_lem row exist cols entry.whole.cols false p
          (key_image-delete exist entry.type ∙ entry.whole.found) (rw at at h) in
      ap (λ (x : Key × Option ColValues). x.0) q
      ∙ ap (λ o. key_of ids (image o)) entry.whole.found
      ∙ sym (cols_differ-false ids cols entry.whole.cols x same)

  -- A check never fails on rows that have their images.
  collides-total :
      (row : RowData) (exist : Option RowData) (cols : ColValues)
      → key_image row ≡ some cols
      → ((e : RowData) → exist ≡ some e → (c : ColValues) × (key_image e ≡ some c))
      → (b : Bool) × (collides tb_meta row exist ≡ ok b)
  unfolding collides
  collides-total row none cols p w = (false, refl)
  collides-total row (some exist) cols p w =
      let (exist_cols, q) = w exist refl in (cols_differ ids cols exist_cols, rw (p, q))

  pub inserts-total :
      (m : Map ℕ RowData) (row : RowData) (hash : ℕ) (cols : ColValues)
      → All (IsInsert hasher ids) m
      → key_image row ≡ some cols
      → (b : Bool) × (check_collision m tb_meta row hash ≡ ok b)
  unfolding check_collision
  inserts-total m row hash cols d p = collides-total row (lookup hash m) cols p λ exist at.
      let entry = All-lookup (IsInsert hasher ids) hash m exist d at in
      (entry.whole.cols, key_image-insert exist entry.type ∙ entry.whole.found)

  pub deletes-total :
      (m : Map ℕ RowData) (row : RowData) (hash : ℕ) (cols : ColValues)
      → All (IsDelete hasher ids) m
      → key_image row ≡ some cols
      → (b : Bool) × (check_collision m tb_meta row hash ≡ ok b)
  unfolding check_collision
  deletes-total m row hash cols d p = collides-total row (lookup hash m) cols p λ exist at.
      let entry = All-lookup (IsDelete hasher ids) hash m exist d at in
      (entry.whole.cols, key_image-delete exist entry.type ∙ entry.whole.found)
