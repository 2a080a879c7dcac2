-- ===== src/Parallelizer/Snapshot.antt =====
-- dt-parallelizer/src/snapshot_parallelizer.rs: a batch cut into consecutive pieces of equal size.
pub mod Laws
use cubetran_core.Prelude.{
  List, Result, [], err, if◌then◌else◌, leb, length, list_eq, nat_eq, ok, option_eq, pair_eq, panic,
  replicate, suc, zero, ℕ, ◌++◌, ◌+◌, ◌/◌, ◌>>=◌, ◌>>◌, ◌∷◌,
}

module _ {ℓ} {A : Type ℓ} where
  -- `sub_datas[i].push(item)`, with the length of `sub_datas[i]` after it; an index out of range panics
  push_at : ℕ → A → List (List A) → Result (List (List A) × ℕ)
  push_at i item [] = err panic
  push_at zero item (sub ∷ subs) = ok ((sub ++ item ∷ []) ∷ subs, length sub + 1)
  push_at (suc i) item (sub ∷ subs) = do (rest, len) ← push_at i item subs; ok (sub ∷ rest, len)

  -- the loop over the items, filling the piece `i`
  fill : ℕ → ℕ → List A → List (List A) → Result (List (List A))
  unfolding push_at
  fill avg_size i [] subs = ok subs
  fill avg_size i (item ∷ rest) subs = do
    (subs', len) ← push_at i item subs
    fill avg_size (if leb avg_size len then i + 1 else i) rest subs'

  unfoldable pub partition : List A → ℕ → Result (List (List A))
  unfolding fill
  partition items parallel_size =
      if leb parallel_size 1
      then ok (items ∷ [])
      else let avg_size = length items / parallel_size + 1 in
        fill avg_size 0 items (replicate parallel_size [])
