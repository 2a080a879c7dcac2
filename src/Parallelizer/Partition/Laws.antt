-- ===== src/Parallelizer/Partition/Laws.antt =====
-- Partitioning a batch by the hash of the partition columns.
use cubetran_core.Prelude.{
  All, Bool-cases, List, Option, Result, Text, [], ap, append-nil, append_assoc, arith, err, get_or,
  if◌then◌else◌, inl, inr, keep, keep-false, keep-true, leb, length, length-replicate, list_eq,
  lookup, nat_eq, none, ok, ok_inj, option_eq, pair_eq, refl, replicate, some, subst, suc, sym,
  unwrap, zero, ℕ, ◌++◌, ◌<◌, ◌==◌, ◌>>=◌, ◌∙◌, ◌∷◌, ◌≡◌,
}
use native.Mathlib.Nat.{mod-lt}
use cubetran_core.Meta.ColValue.{ColValue, hash_code}
use cubetran_core.Meta.ColValue.Equality.{value_eq}
use cubetran_core.Meta.RowData.{ColValues, RdbTbMeta, RowData, key_image}
use cubetran_core.Parallelizer.Partition.{
  get_partition_index, index_of, partition, partition_rows, push_into,
}

get_or-replicate {ℓ} : {A : Type ℓ} (n i : ℕ) → get_or {A = List A} (replicate n []) i [] ≡ []
get_or-replicate zero i = refl
get_or-replicate (suc n) zero = refl
get_or-replicate (suc n) (suc i) = get_or-replicate n i

module _ {ℓ} {A : Type ℓ} where
  -- What `push_into` does: item `i`'s part is longer by the item, the others are kept.
  abbrev IsPushed : ℕ → A → List (List A) → List (List A) → Type ℓ
  IsPushed i item subs subs' =
      (length subs' ≡ length subs)
      × ((j : ℕ)
          → get_or subs' j []
            ≡ (if i == j then get_or subs j [] ++ item ∷ [] else get_or subs j []))

  push_into-IsPushed :
      (i : ℕ) (item : A) (subs : List (List A))
      → i < length subs
      → (subs' : List (List A)) × (push_into i item subs ≡ ok subs') × IsPushed i item subs subs'
  unfolding push_into
  push_into-IsPushed i item [] h = absurd (omega arith)
  push_into-IsPushed zero item (sub ∷ subs) h =
      ((sub ++ item ∷ []) ∷ subs, refl, (refl, elim [ zero ↦ ground arith | suc j ↦ ground arith ]))
  push_into-IsPushed (suc i) item (sub ∷ subs) h =
      let (rest, returns, (len, at)) = push_into-IsPushed i item subs (omega arith) in
      (
        sub ∷ rest,
        rw returns,
        (ap suc len, elim [ zero ↦ ground arith | suc j ↦ ground (arith, at j) ]),
      )

module _ (hasher : ColValue → ℕ) (get_tb_meta : Text → Text → Result RdbTbMeta) where
  -- the rows of one part
  abbrev pub of_index : (RowData → ℕ) → ℕ → List RowData → List RowData
  of_index index i rows = keep (λ row. index row == i) rows

  index_of-lt : (o : Option ColValue) (count : ℕ) → 0 < count → index_of hasher count o < count
  unfolding index_of
  index_of-lt none count h = h
  index_of-lt (some v) count h = mod-lt (hash_code hasher v) h

  index_chain-lt :
      (o : Option ColValues) (r : Result RdbTbMeta) (count i : ℕ)
      → 0 < count
      → (do
        col_values ← unwrap o
        tb_meta ← r
        ok (index_of hasher count (lookup tb_meta.partition_col col_values)))
        ≡ ok i
      → i < count
  index_chain-lt none r count i h e = cc
  index_chain-lt (some cols) (err x) count i h e = cc
  index_chain-lt (some cols) (ok tb_meta) count i h e =
      subst (λ n. n < count) (ok_inj e) (index_of-lt (lookup tb_meta.partition_col cols) count h)

  get_partition_index-lt :
      (row : RowData) (count i : ℕ)
      → 0 < count
      → get_partition_index hasher get_tb_meta row count ≡ ok i
      → i < count
  unfolding get_partition_index
  get_partition_index-lt row count i h e = elim (Bool-cases (leb count 1)) [
    | inl one ↦ subst (λ n. n < count) (ok_inj (rw one at e)) h
    | inr many ↦
        index_chain-lt (key_image row) (get_tb_meta row.schema row.tb) count i h (rw many at e)
  ]

  partition_rows-keeps :
      (index : RowData → ℕ) (count : ℕ) (rows : List RowData) (subs : List (List RowData))
      → 0 < count
      → length subs ≡ count
      → All (λ row. get_partition_index hasher get_tb_meta row count ≡ ok (index row)) rows
      → (subs' : List (List RowData)) × (partition_rows hasher get_tb_meta count rows subs
          ≡ ok subs')
        × (length subs' ≡ count)
        × ((i : ℕ) → get_or subs' i [] ≡ get_or subs i [] ++ of_index index i rows)
  unfolding partition_rows
  partition_rows-keeps index count [] subs h len k =
      (subs, refl, len, λ i. sym (append-nil (get_or subs i [])))
  partition_rows-keeps index count (row ∷ rows) subs h len k =
      let below = get_partition_index-lt row count (index row) h k.0 in
      let (pushed, pushes, (len', at)) =
        push_into-IsPushed (index row) row subs (omega (arith, len)) in
      let (subs', returns, len'', at') =
        partition_rows-keeps index count rows pushed h (len' ∙ len) k.1 in
      (
        subs',
        rw (k.0, pushes) returns,
        len'',
        λ i.
            at' i
            ∙ ap (λ xs. xs ++ of_index index i rows) (at i)
            ∙ elim (Bool-cases (index row == i)) [
              | inl hit ↦
                  rw hit (append_assoc (get_or subs i []) (row ∷ []) (of_index index i rows))
                  ∙ ap (λ xs. get_or subs i [] ++ xs)
                      (sym (keep-true (λ r. index r == i) row rows hit))
              | inr miss ↦ rw miss (
                  ap (λ xs. get_or subs i [] ++ xs)
                    (sym (keep-false (λ r. index r == i) row rows miss)))
            ],
      )

  -- Partitioning a batch over several sinkers returns, if the index of every row can be computed:
  -- there is one part for each sinker, and it has exactly the rows with its index, in their order.
  pub partition-keeps :
      (index : RowData → ℕ) (count : ℕ) (rows : List RowData)
      → 1 < count
      → All (λ row. get_partition_index hasher get_tb_meta row count ≡ ok (index row)) rows
      → (subs : List (List RowData)) × (partition hasher get_tb_meta rows count ≡ ok subs)
        × (length subs ≡ count)
        × ((i : ℕ) → get_or subs i [] ≡ of_index index i rows)
  unfolding partition
  partition-keeps index count rows h k =
      let (subs, returns, len, at) =
        partition_rows-keeps index count rows (replicate count []) (omega arith)
          (length-replicate {A = List RowData} count []) k in
      (
        subs,
        elim (Bool-cases (leb count 1)) [
          | inl one ↦ absurd (ground arith)
          | inr many ↦ rw many returns
        ],
        len,
        λ i. at i ∙ ap (λ xs. xs ++ of_index index i rows) (get_or-replicate {A = RowData} count i),
      )
