-- ===== src/Parallelizer/Sinks.antt =====
-- dt-parallelizer/src/base_parallelizer.rs, `sink_dml`, `sink_ddl` and `sink_raw`, and
-- dt-parallelizer/src/serial_parallelizer.rs: which sinker gets which part of a batch. The calls of the
-- sinkers, which run concurrently, are listed in the order in which they are started.
use native.Mathlib.Nat.{mod-lt}
use cubetran_core.Prelude.{
  All, Bool, List, Result, [], ap, arith, err, false, if◌then◌else◌, list_eq, ltb, nat_eq, ok,
  option_eq, pair_eq, panic, refl, ℕ, ◌%◌, ◌+◌, ◌<◌, ◌==◌, ◌>>=◌, ◌∷◌, ◌≡◌, ◌≤◌,
}
use cubetran_core.Meta.RowData.{RowData}
use cubetran_core.Meta.DtData.{DdlData, DtItem}

pub record SinkCall {ℓ} (A : Type ℓ) : Type ℓ where
  pub sinker : ℕ
  pub sub_data : List A
  pub batch : Bool

-- `sinkers[i % parallel_size]`: a remainder by zero and an index out of range panic
unfoldable pub pick_sinker : ℕ → ℕ → ℕ → Result ℕ
pick_sinker sinker_count parallel_size i =
    if parallel_size == 0
    then err panic
    else if ltb (i % parallel_size) sinker_count
    then ok (i % parallel_size)
    else err panic

pub pick_lem :
    (sinker_count parallel_size i : ℕ)
    → 0 < parallel_size
    → parallel_size ≤ sinker_count
    → pick_sinker sinker_count parallel_size i ≡ ok (i % parallel_size)
unfolding pick_sinker
pick_lem sinker_count parallel_size i p q = ground (arith, mod-lt i p)

module _ {ℓ} {A : Type ℓ} where
  -- the loop, from the `i`th part on
  unfoldable pub sink_from : ℕ → ℕ → Bool → ℕ → List (List A) → Result (List (SinkCall A))
  unfolding pick_sinker
  sink_from sinker_count parallel_size batch i [] = ok []
  sink_from sinker_count parallel_size batch i (sub_data ∷ sub_datas) = do
    sinker ← pick_sinker sinker_count parallel_size i
    calls ← sink_from sinker_count parallel_size batch (i + 1) sub_datas
    ok (record { sinker = sinker; sub_data = sub_data; batch = batch } ∷ calls)

  -- the rows that the calls are given, in order
  unfoldable pub sub_datas_of : List (SinkCall A) → List (List A)
  sub_datas_of [] = []
  sub_datas_of (call ∷ calls) = call.sub_data ∷ sub_datas_of calls

  -- When the parallel size is not 0 and there are at least as many sinkers, sinking returns: every part
  -- is sunk once and in order, by one of the first `parallel_size` sinkers and with the flag given.
  pub sink_from-total :
      (sinker_count parallel_size : ℕ) (batch : Bool) (i : ℕ) (sub_datas : List (List A))
      → 0 < parallel_size
      → parallel_size ≤ sinker_count
      → (calls : List (SinkCall A)) × (sink_from sinker_count parallel_size batch i sub_datas
          ≡ ok calls)
        × (sub_datas_of calls ≡ sub_datas)
        × All (λ call. (call.sinker < parallel_size) × (call.batch ≡ batch)) calls
  unfolding sink_from sub_datas_of
  sink_from-total sinker_count parallel_size batch i [] p q = ([], refl, refl, tt)
  sink_from-total sinker_count parallel_size batch i (sub ∷ subs) p q =
      let (calls, returns, same, bound) =
        sink_from-total sinker_count parallel_size batch (i + 1) subs p q in
      let below = mod-lt i p in
      (
        record { sinker = i % parallel_size; sub_data = sub; batch = batch } ∷ calls,
        rw (pick_lem sinker_count parallel_size i p q, returns),
        ap (◌∷◌ sub) same,
        ((below, refl), bound),
      )

unfoldable pub sink_dml : List (List RowData) → ℕ → ℕ → Bool → Result (List (SinkCall RowData))
unfolding sink_from
sink_dml sub_datas sinker_count parallel_size batch =
    sink_from sinker_count parallel_size batch 0 sub_datas

unfoldable pub sink_ddl : List (List DdlData) → ℕ → ℕ → Bool → Result (List (SinkCall DdlData))
unfolding sink_from
sink_ddl sub_datas sinker_count parallel_size batch =
    sink_from sinker_count parallel_size batch 0 sub_datas

unfoldable pub sink_raw : List (List DtItem) → ℕ → ℕ → Bool → Result (List (SinkCall DtItem))
unfolding sink_from
sink_raw sub_datas sinker_count parallel_size batch =
    sink_from sinker_count parallel_size batch 0 sub_datas

-- serial_parallelizer.rs: the whole batch goes to the first sinker
unfoldable pub serial_sink_dml : List RowData → ℕ → Result (List (SinkCall RowData))
unfolding sink_dml
serial_sink_dml rows sinker_count = sink_dml (rows ∷ []) sinker_count 1 false

unfoldable pub serial_sink_ddl : List DdlData → ℕ → Result (List (SinkCall DdlData))
unfolding sink_ddl
serial_sink_ddl ddls sinker_count = sink_ddl (ddls ∷ []) sinker_count 1 false

unfoldable pub serial_sink_raw : List DtItem → ℕ → Result (List (SinkCall DtItem))
unfolding sink_raw
serial_sink_raw items sinker_count = sink_raw (items ∷ []) sinker_count 1 false
