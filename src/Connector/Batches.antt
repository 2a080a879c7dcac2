-- ===== src/Connector/Batches.antt =====
-- dt-connector/src/sinker/base_sinker.rs: the loop of `call_batch_fn` and `sync_call_batch_fn`, which
-- calls a function with the start and the size of each batch. A batch is the rows that it is about.

use cubetran_core.Prelude.{
  All, Bool-cases, List, [], all, ap, arith, drop, drop-add, drop-all, if◌then◌else◌, inl, inr,
  length, list_eq, ltb, nat_eq, option_eq, pair_eq, suc, sym, take, take-append-drop, zero, ℕ, ◌++◌,
  ◌+◌, ◌-◌, ◌<◌, ◌==◌, ◌∙◌, ◌∷◌, ◌≡◌, ◌≤◌,
}

-- `min(self.batch_size, all_count - sinked_count)`
abbrev pub next_batch : ℕ → ℕ → ℕ → ℕ
next_batch batch_size all_count sinked_count =
    if ltb (all_count - sinked_count) batch_size then all_count - sinked_count else batch_size

module _ {ℓ} {A : Type ℓ} where
  -- The loop with fuel; no fuel is left only if the rows are all sunk. The calls, in order.
  unfoldable pub call_batches : ℕ → ℕ → List A → ℕ → List (ℕ × ℕ)
  call_batches zero batch_size rows sinked_count = []
  call_batches (suc fuel) batch_size rows sinked_count =
      let size = next_batch batch_size (length rows) sinked_count in
      let rest = call_batches fuel batch_size rows (sinked_count + size) in
      if size == 0 then [] else (sinked_count, size) ∷ rest

  unfoldable pub call_batch_fn : ℕ → List A → List (ℕ × ℕ)
  call_batch_fn batch_size rows = call_batches (length rows) batch_size rows 0

  -- the rows of a call, `data[start..start + size]`
  unfoldable pub rows_of_calls : List A → List (ℕ × ℕ) → List A
  rows_of_calls rows [] = []
  rows_of_calls rows ((start, size) ∷ calls) =
      take size (drop start rows) ++ rows_of_calls rows calls

  call_batches-drop :
      (fuel batch_size : ℕ) (rows : List A) (sinked_count : ℕ)
      → 0 < batch_size
      → length rows - sinked_count ≤ fuel
      → (rows_of_calls rows (call_batches fuel batch_size rows sinked_count)
          ≡ drop sinked_count rows)
        × All
            (λ (call : ℕ × ℕ). (0 < call.1) × (call.1 ≤ batch_size))
            (call_batches fuel batch_size rows sinked_count)
  unfolding call_batches rows_of_calls
  call_batches-drop zero batch_size rows k some_size enough =
      (sym (drop-all k rows (omega arith)), tt)
  call_batches-drop (suc fuel) batch_size rows k some_size enough =
      elim (Bool-cases (next_batch batch_size (length rows) k == 0)) [
        | inl over ↦
            let reached : length rows ≤ k = ground arith in
            rw over (sym (drop-all k rows reached), tt)
        | inr more ↦
            let size = next_batch batch_size (length rows) k in
            let bound : (0 < size) × (size ≤ batch_size) = (ground arith, ground arith) in
            let (same, all) =
              call_batches-drop fuel batch_size rows (k + size) some_size (ground arith) in
            rw more (
              ap (λ t. take size (drop k rows) ++ t) (same ∙ drop-add k size rows)
                  ∙ take-append-drop size (drop k rows),
              (bound, all),
            )
      ]

  -- With a batch size that is not 0, the batches taken together are the rows, each once and in order;
  -- no batch is empty or larger than the batch size.
  pub call_batch_fn_lem :
      (batch_size : ℕ) (rows : List A)
      → 0 < batch_size
      → (rows_of_calls rows (call_batch_fn batch_size rows) ≡ rows)
        × All
            (λ (call : ℕ × ℕ). (0 < call.1) × (call.1 ≤ batch_size))
            (call_batch_fn batch_size rows)
  unfolding call_batch_fn
  call_batch_fn_lem batch_size rows some_size =
      call_batches-drop (length rows) batch_size rows 0 some_size (omega arith)
