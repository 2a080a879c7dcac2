-- ===== src/Parallelizer/Foxlake.antt =====
-- dt-parallelizer/src/foxlake_parallelizer.rs, `partition`: a batch cut into pieces by size. The piece
-- `sub_datas[i]` is always the last one; the pieces before it are `full`.
use cubetran_core.Prelude.{
  All, All-append, Bool-cases, List, [], ap, append-nil, append_assoc, arith, concat, concat-append,
  if◌then◌else◌, inl, inr, leb, length, list_eq, ltb, nat_eq, option_eq, pair_eq, refl, ℕ, ◌++◌,
  ◌+◌, ◌<◌, ◌∙◌, ◌∷◌, ◌≡◌, ◌≤◌, ◌⊎◌,
}
use cubetran_core.Meta.DtData.{DtItem, get_data_size}
use cubetran_core.Parallelizer.Base.Laws.{sizes}

-- the loop over the items, with `sub_data_size`
fill_by_size : ℕ → List (List DtItem) → List DtItem → ℕ → List DtItem → List (List DtItem)
fill_by_size limit full cur size [] = full ++ cur ∷ []
fill_by_size limit full cur size (item ∷ items) =
    let item_size = get_data_size item.dt_data in
    let begins = ltb limit (size + item_size) in
    fill_by_size limit (if begins then full ++ cur ∷ [] else full)
      (if begins then item ∷ [] else cur ++ item ∷ [])
      (if begins then item_size else size + item_size) items

unfoldable pub partition_by_size : List DtItem → ℕ → ℕ → List (List DtItem)
unfolding fill_by_size
partition_by_size items parallel_size sinker_batch_memory_bytes =
    if leb parallel_size 1 then items ∷ [] else fill_by_size sinker_batch_memory_bytes [] [] 0 items

sizes-append : (xs ys : List DtItem) → sizes (xs ++ ys) ≡ sizes xs + sizes ys
unfolding sizes
sizes-append [] ys = omega arith
sizes-append (x ∷ xs) ys = omega (arith, sizes-append xs ys)

-- a piece within the limit, or a single item
abbrev pub IsPiece : ℕ → List DtItem → Type 0
IsPiece limit piece = (sizes piece ≤ limit) ⊎ (length piece ≤ 1)

fill_by_size-cuts :
    (limit : ℕ) (full : List (List DtItem)) (cur : List DtItem) (size : ℕ) (items : List DtItem)
    → All (IsPiece limit) full
    → IsPiece limit cur
    → size ≡ sizes cur
    → (concat (fill_by_size limit full cur size items) ≡ concat full ++ (cur ++ items))
      × All (IsPiece limit) (fill_by_size limit full cur size items)
unfolding fill_by_size sizes
fill_by_size-cuts limit full cur size [] f c e =
    (concat-append full (cur ∷ []), All-append (IsPiece limit) full (cur ∷ []) f (c, tt))
fill_by_size-cuts limit full cur size (item ∷ items) f c e =
    elim (Bool-cases (ltb limit (size + get_data_size item.dt_data))) [
      | inl begins ↦
          let (whole, pieces) =
            fill_by_size-cuts limit (full ++ cur ∷ []) (item ∷ []) (get_data_size item.dt_data)
              items (All-append (IsPiece limit) full (cur ∷ []) f (c, tt)) (inr (omega arith))
              (omega arith) in
          rw (begins, fill_by_size)
            (
              whole
                  ∙ ap (λ xs. xs ++ item ∷ items) (concat-append full (cur ∷ []))
                  ∙ simp (append_assoc, append-nil),
              pieces,
            )
      | inr goes_on ↦
          let longer = sizes-append cur (item ∷ []) in
          let (whole, pieces) =
            fill_by_size-cuts limit full (cur ++ item ∷ []) (size + get_data_size item.dt_data)
              items f (inl (ground (arith, longer))) (omega (arith, longer)) in
          rw (goes_on, fill_by_size)
            (whole ∙ ap (λ xs. concat full ++ xs) (append_assoc cur (item ∷ []) items), pieces)
    ]

-- Cutting a batch by size loses no item and keeps the order. With several sinkers, every piece is
-- within the limit on its bytes or has one item at most.
pub partition_by_size-cuts :
    (items : List DtItem) (parallel_size limit : ℕ)
    → (concat (partition_by_size items parallel_size limit) ≡ items)
      × (1 < parallel_size → All (IsPiece limit) (partition_by_size items parallel_size limit))
unfolding partition_by_size sizes
partition_by_size-cuts items parallel_size limit = elim (Bool-cases (leb parallel_size 1)) [
  | inl one ↦ rw one (append-nil items, λ many. absurd (ground arith))
  | inr many ↦
      let (whole, pieces) = fill_by_size-cuts limit [] [] 0 items tt (inl (omega arith)) refl in
      rw many (whole, λ _. pieces)
]
