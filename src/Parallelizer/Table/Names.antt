-- ===== src/Parallelizer/Table/Names.antt =====
-- Splitting rows by the schema and the table, where the code goes by the two names joined by a '.'.
use cubetran_core.Prelude.{
  All, Bool-cases, List, Map, Text, [], ap, ap₂, inl, inr, insert, list_eq, lookup, nat_eq,
  option_eq, pair_eq, refl, some, true, values, ◌++◌, ◌∙◌, ◌∷◌, ◌≟◌, ◌≡◌, ◌≢◌,
}
use cubetran_core.Meta.RowData.{RowData}
use cubetran_core.Parallelizer.Merger.{full_tb}
use cubetran_core.Parallelizer.Table.{or_empty, partition_dml, push_if, push_to, split_by}
use cubetran_core.Parallelizer.Table.Laws.{IsSplit, split_by-IsSplit}

-- no '.'
abbrev pub NoDot : Text → Type 0
NoDot = All (λ c. c ≢ 46)

abbrev pub SchemaTb : Type 0
SchemaTb = Text × Text

abbrev joined : SchemaTb → Text
joined (schema, tb) = schema ++ 46 ∷ tb

abbrev pub names_of : RowData → SchemaTb
names_of row = (row.schema, row.tb)

joined_inj :
    (schema schema' tb tb' : Text)
    → NoDot schema
    → NoDot schema'
    → schema ++ 46 ∷ tb ≡ schema' ++ 46 ∷ tb'
    → (schema ≡ schema') × (tb ≡ tb')
joined_inj [] [] tb tb' h h' e = (refl, cc)
joined_inj [] (c ∷ schema') tb tb' h (dot, h') e = let first : c ≡ 46 = cc in absurd (dot first)
joined_inj (c ∷ schema) [] tb tb' (dot, h) h' e = let first : c ≡ 46 = cc in absurd (dot first)
joined_inj (c ∷ schema) (c' ∷ schema') tb tb' (_, h) (_, h') e =
    let first : c ≡ c' = cc in
    let rest : schema ++ 46 ∷ tb ≡ schema' ++ 46 ∷ tb' = cc in
    let (s, t) = joined_inj schema schema' tb tb' h h' rest in (ap₂ ◌∷◌ first s, t)

joined-≟ :
    (k k' : SchemaTb) → NoDot k.0 → NoDot k'.0 → (joined k ≟ joined k') ≡ (◌≟◌ {A = SchemaTb} k k')
joined-≟ (s, t) (s', t') h h' = elim (Bool-cases (◌≟◌ {A = SchemaTb} (s, t) (s', t'))) [
  | inl same ↦
      let e : ◌≡◌ {A = SchemaTb} (s, t) (s', t') = (pair_eq.beq_iff (s, t) (s', t')).0 same in
      rw same ((list_eq.beq_iff (joined (s, t)) (joined (s', t'))).1 (ap joined e))
  | inr other ↦ rw other (elim (Bool-cases (joined (s, t) ≟ joined (s', t'))) [
    | inl same ↦
        let (es, et) = joined_inj s s' t t' h h' ((list_eq.beq_iff _ _).0 same) in
        let e : (◌≟◌ {A = SchemaTb} (s, t) (s', t')) ≡ true =
          (pair_eq.beq_iff (s, t) (s', t')).1 (λ i. (es i, et i)) in
        cc
    | inr differ ↦ differ
  ])
]

module _ {V : Type 0} where
  -- the same map with the names joined
  rename : Map SchemaTb V → Map Text V
  rename [] = []
  rename ((k, v) ∷ m) = (joined k, v) ∷ rename m

  AreDotless : Map SchemaTb V → Type 0
  AreDotless = All (λ (p : SchemaTb × V). NoDot p.0.0)

  values-rename : (m : Map SchemaTb V) → values (rename m) ≡ values m
  unfolding rename
  values-rename [] = refl
  values-rename ((k, v) ∷ m) = ap (◌∷◌ v) (values-rename m)

  lookup-rename :
      (k : SchemaTb) (m : Map SchemaTb V)
      → NoDot k.0
      → AreDotless m
      → lookup (joined k) (rename m) ≡ lookup k m
  unfolding rename AreDotless
  lookup-rename k [] h d = refl
  lookup-rename k ((k', v) ∷ m) h (d, ds) = rw (joined-≟ k' k d h, lookup-rename k m h ds) refl

  insert-rename :
      (k : SchemaTb) (v : V) (m : Map SchemaTb V)
      → NoDot k.0
      → AreDotless m
      → insert (joined k) v (rename m) ≡ rename (insert k v m)
  unfolding rename AreDotless
  insert-rename k v [] h d = refl
  insert-rename k v ((k', w) ∷ m) h (d, ds) = rw (joined-≟ k' k d h) (elim (Bool-cases (k' ≟ k)) [
    | inl same ↦ rw same refl
    | inr other ↦ rw other (ap (◌∷◌ (joined k', w)) (insert-rename k v m h ds))
  ])

  insert-AreDotless :
      (k : SchemaTb) (v : V) (m : Map SchemaTb V)
      → NoDot k.0
      → AreDotless m
      → AreDotless (insert k v m)
  unfolding AreDotless
  insert-AreDotless k v [] h d = (h, tt)
  insert-AreDotless k v ((k', w) ∷ m) h (d, ds) = elim (Bool-cases (k' ≟ k)) [
    | inl same ↦ rw same (h, ds)
    | inr other ↦ rw other (d, insert-AreDotless k v m h ds)
  ]

split_by-rename :
    (m : Map SchemaTb (List RowData)) (rows : List RowData)
    → AreDotless m
    → All (λ row. NoDot row.schema) rows
    → split_by (λ row. some (full_tb row)) (rename m) rows
      ≡ rename (split_by (λ row. some (names_of row)) m rows)
unfolding split_by push_if push_to full_tb
split_by-rename m [] d h = refl
split_by-rename m (row ∷ rows) d (dotless, h) =
    let k = names_of row in
    let v = or_empty (lookup k m) ++ row ∷ [] in
    ap
      (λ o.
        split_by (λ r. some (full_tb r)) (insert (joined k) (or_empty o ++ row ∷ []) (rename m))
          rows)
      (lookup-rename k m dotless d)
    ∙ ap (λ m'. split_by (λ r. some (full_tb r)) m' rows) (insert-rename k v m dotless d)
    ∙ split_by-rename (insert k v m) rows (insert-AreDotless k v m dotless d) h

-- When no schema of the batch has a '.' in its name, splitting rows by table gives one part for each
-- table, of a schema and a name, that has rows in the batch, with all its rows in their order.
pub partition_dml-IsSplit :
    (rows : List RowData)
    → All (λ row. NoDot row.schema) rows
    → IsSplit (λ row. some (names_of row)) rows (partition_dml rows)
unfolding partition_dml rename AreDotless
partition_dml-IsSplit rows h =
    rw (split_by-rename [] rows tt h, values-rename (split_by (λ row. some (names_of row)) [] rows))
      (split_by-IsSplit (λ row. some (names_of row)) rows)
