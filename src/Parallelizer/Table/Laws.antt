-- ===== src/Parallelizer/Table/Laws.antt =====
-- Splitting a batch by table.
use cubetran_core.Prelude.{
  Bool-cases, Eq, List, Map, Option, [], ap, append_assoc, if◌then◌else◌, inl, inr, keep,
  keep-false, keep-true, list_eq, lookup, lookup-insert, nat_eq, none, option_eq, pair_eq, refl,
  some, sym, values, ◌++◌, ◌∙◌, ◌∷◌, ◌≟◌, ◌≡◌,
}
use cubetran_core.Meta.DtData.{DtItem}
use cubetran_core.Parallelizer.Merger.Writes.{Distinct, insert-Distinct}
use cubetran_core.Parallelizer.Table.{
  or_empty, partition_raw, push_if, push_to, split_by, tb_of_item,
}

module _ {ℓ} {A : Type ℓ} where
  -- a table's entry after more items
  pub extend : Option (List A) → List A → Option (List A)
  extend o [] = o
  extend o (item ∷ items) = some (or_empty o ++ item ∷ items)

  -- the entry of a table with these items: none, if there are none
  pub entry : List A → Option (List A)
  entry items = extend none items

  extend-some :
      (o : Option (List A)) (item : A) (items : List A)
      → extend (some (or_empty o ++ item ∷ [])) items ≡ extend o (item ∷ items)
  unfolding extend or_empty
  extend-some o item [] = refl
  extend-some o item (x ∷ items) = ap some (append_assoc (or_empty o) (item ∷ []) (x ∷ items))

module _ {ℓ} {K A : Type ℓ} ⦃e : Eq K⦄ where
  -- the items of one table
  abbrev pub of_tb : (A → Option K) → K → List A → List A
  of_tb tb_of tb items = keep (λ item. tb_of item ≟ some tb) items

  push_if-lookup :
      (o : Option K) (item : A) (m : Map K (List A)) (tb : K)
      → lookup tb (push_if o item m)
        ≡ (if o ≟ some tb then some (or_empty (lookup tb m) ++ item ∷ []) else lookup tb m)
  unfolding push_if push_to
  push_if-lookup none item m tb = refl
  push_if-lookup (some other) item m tb = elim (Bool-cases (other ≟ tb)) [
    | inl hit ↦
        rw (lookup-insert other tb (or_empty (lookup other m) ++ item ∷ []) m, hit)
          (ap (λ x. some (or_empty (lookup x m) ++ item ∷ [])) ((e.beq_iff other tb).0 hit))
    | inr miss ↦ rw (lookup-insert other tb (or_empty (lookup other m) ++ item ∷ []) m, miss)
  ]

  split_by-lookup :
      (tb_of : A → Option K) (m : Map K (List A)) (items : List A) (tb : K)
      → lookup tb (split_by tb_of m items) ≡ extend (lookup tb m) (of_tb tb_of tb items)
  unfolding split_by extend
  split_by-lookup tb_of m [] tb = refl
  split_by-lookup tb_of m (item ∷ items) tb =
      split_by-lookup tb_of (push_if (tb_of item) item m) items tb
      ∙ elim (Bool-cases (tb_of item ≟ some tb)) [
        | inl hit ↦
            rw (push_if-lookup (tb_of item) item m tb, hit)
              (extend-some (lookup tb m) item (of_tb tb_of tb items))
            ∙ ap (extend (lookup tb m)) (sym (keep-true (λ i. tb_of i ≟ some tb) item items hit))
        | inr miss ↦
            rw (push_if-lookup (tb_of item) item m tb, miss)
              (ap (extend (lookup tb m))
                (sym (keep-false (λ i. tb_of i ≟ some tb) item items miss)))
      ]

  push_if-Distinct :
      (o : Option K) (item : A) (m : Map K (List A)) → Distinct m → Distinct (push_if o item m)
  unfolding push_if push_to
  push_if-Distinct none item m d = d
  push_if-Distinct (some tb) item m d = insert-Distinct m tb (or_empty (lookup tb m) ++ item ∷ []) d

  split_by-Distinct :
      (tb_of : A → Option K) (m : Map K (List A)) (items : List A)
      → Distinct m
      → Distinct (split_by tb_of m items)
  unfolding split_by
  split_by-Distinct tb_of m [] d = d
  split_by-Distinct tb_of m (item ∷ items) d =
      split_by-Distinct tb_of (push_if (tb_of item) item m) items
        (push_if-Distinct (tb_of item) item m d)

  -- The parts are the entries of a map from the tables: for each table that has items, these items
  -- in their order.
  abbrev pub IsSplit : (A → Option K) → List A → List (List A) → Type ℓ
  IsSplit tb_of items subs =
      (m : Map K (List A)) × (subs ≡ values m)
      × Distinct m
      × ((tb : K) → lookup tb m ≡ entry (of_tb tb_of tb items))

  pub split_by-IsSplit :
      (tb_of : A → Option K) (items : List A)
      → IsSplit tb_of items (values (split_by tb_of [] items))
  unfolding entry
  split_by-IsSplit tb_of items = (
    split_by tb_of [] items,
    refl,
    split_by-Distinct tb_of [] items tt,
    split_by-lookup tb_of [] items,
  )

-- Splitting items by table gives one part for each table that has rows in the batch, with all its
-- rows in their order; items that are no rows are in no part.
pub partition_raw-IsSplit : (items : List DtItem) → IsSplit tb_of_item items (partition_raw items)
unfolding partition_raw
partition_raw-IsSplit items = split_by-IsSplit tb_of_item items
