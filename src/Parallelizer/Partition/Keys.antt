-- ===== src/Parallelizer/Partition/Keys.antt =====
-- The rows that may be partitioned keep their part.
use cubetran_core.Prelude.{
  Bool, Bool-cases, List, Option, Result, Text, [], any, ap, contains, err, false, if◌then◌else◌,
  inl, inr, list_beq_sound, list_eq, lookup, nat_eq, none, not, ok, option_eq, pair_eq, refl, some,
  subst, true, values, ℕ, ◌&&◌, ◌>>=◌, ◌∙◌, ◌∷◌, ◌≟◌, ◌≡◌,
}
use cubetran_core.Meta.ColValue.{ColValue}
use cubetran_core.Meta.ColValue.Equality.{eq_sound, is_exact, value_eq}
use cubetran_core.Meta.RowData.{ColValues, RdbTbMeta, RowData, RowType, row_type_eq}
use cubetran_core.Parallelizer.Merger.{is_nil, values_eq}
use cubetran_core.Parallelizer.Partition.{
  all_unchanged, can_be_partitioned, differing, index_of, unchanged,
}

-- a value that is there and is neither a float nor a document, or no value
abbrev pub IsExactValue : Option ColValue → Type 0
IsExactValue none = Unit
IsExactValue (some v) = is_exact v ≡ true

same_value : (a b : Option ColValue) → IsExactValue a → values_eq a b ≡ true → a ≡ b
unfolding values_eq
same_value none none e h = refl
same_value none (some b) e h = cc
same_value (some a) none e h = cc
same_value (some a) (some b) e h = ap some (eq_sound a b e h)

differing-false : (log : Bool) (a b : Option ColValue) → (differing log a b ≡ ok true) → ⊥
unfolding differing
differing-false false a b h = cc
differing-false true none b h = cc
differing-false true (some a) none h = cc
differing-false true (some a) (some b) h = cc

unchanged_sound :
    (log : Bool) (cols : List Text) (before after : ColValues) (col : Text)
    → unchanged log cols before after ≡ ok true
    → contains cols col ≡ true
    → values_eq (lookup col before) (lookup col after) ≡ true
unfolding unchanged
unchanged_sound log [] before after col h c = cc
unchanged_sound log (x ∷ cols) before after col h c =
    elim (Bool-cases (values_eq (lookup x before) (lookup x after))) [
      | inr differs ↦
          absurd (differing-false log (lookup x before) (lookup x after) (rw differs at h))
      | inl equal ↦ elim (Bool-cases (x ≟ col)) [
        | inl hit ↦
            subst (λ c. values_eq (lookup c before) (lookup c after) ≡ true)
              (list_beq_sound x col hit) equal
        | inr miss ↦ unchanged_sound log cols before after col (rw equal at h) (rw miss at c)
      ]
    ]

go_on :
    (kept : Result Bool) (rest : Result Bool)
    → (do b ← kept; if b then rest else ok false) ≡ ok true
    → (kept ≡ ok true) × (rest ≡ ok true)
go_on (err x) rest h = cc
go_on (ok true) rest h = (refl, h)
go_on (ok false) rest h = cc

all_unchanged_sound :
    (log : Bool) (keys : List (List Text)) (before after : ColValues) (col : Text)
    → all_unchanged log keys before after ≡ ok true
    → any (λ cols. contains cols col) keys ≡ true
    → values_eq (lookup col before) (lookup col after) ≡ true
unfolding all_unchanged
all_unchanged_sound log [] before after col h c = cc
all_unchanged_sound log (cols ∷ keys) before after col h c =
    let (here, rest) =
      go_on (unchanged log cols before after) (all_unchanged log keys before after) h in
    elim (Bool-cases (contains cols col)) [
      | inl hit ↦ unchanged_sound log cols before after col here hit
      | inr miss ↦ all_unchanged_sound log keys before after col rest (rw miss at c)
    ]

-- the partition column is one of the key columns, if the table has keys
abbrev pub HasPartitionCol : RdbTbMeta → Type 0
HasPartitionCol tb_meta =
    is_nil tb_meta.key_map ≡ false
    → any (λ cols. contains cols tb_meta.partition_col) (values tb_meta.key_map) ≡ true

last_check :
    (kept : Bool) (nil : Bool) (equal : Bool)
    → (if not kept then ok false else if nil && not equal then ok false else ok true) ≡ ok true
    → (kept ≡ true) × (nil ≡ true → equal ≡ true)
last_check true true true h = (refl, λ _. refl)
last_check true true false h = cc
last_check true false equal h = (refl, λ n. cc)
last_check false nil equal h = cc

partition_col_kept :
    (log : Bool) (tb_meta : RdbTbMeta) (before after : ColValues) (kept : Result Bool)
    → all_unchanged log (values tb_meta.key_map) before after ≡ kept
    → (do
      k ← kept
      if not k
          then ok false
          else if is_nil tb_meta.key_map
              && not (
                  values_eq
                    (lookup tb_meta.partition_col before)
                    (lookup tb_meta.partition_col after))
          then ok false
          else ok true)
      ≡ ok true
    → HasPartitionCol tb_meta
    → values_eq (lookup tb_meta.partition_col before) (lookup tb_meta.partition_col after) ≡ true
partition_col_kept log tb_meta before after (err x) e h c = cc
partition_col_kept log tb_meta before after (ok k) e h c =
    let equal =
      values_eq (lookup tb_meta.partition_col before) (lookup tb_meta.partition_col after) in
    let (is_kept, if_nil) = last_check k (is_nil tb_meta.key_map) equal h in
    elim (Bool-cases (is_nil tb_meta.key_map)) [
      | inl nil ↦ if_nil nil
      | inr keyed ↦
          all_unchanged_sound log (values tb_meta.key_map) before after tb_meta.partition_col
            (e ∙ ap ok is_kept) (c keyed)
    ]

-- An update that may be partitioned does not change the part of its row, if the partition column is
-- one of the key columns of the table (when it has keys) and holds neither a float nor a document: the row's earlier and
-- later changes are in one part.
pub can_be_partitioned-index :
    (hasher : ColValue → ℕ) (get_tb_meta : Text → Text → Result RdbTbMeta) (log : Bool)
    (row : RowData) (tb_meta : RdbTbMeta) (before after : ColValues) (count : ℕ)
    → row.row_type ≡ RowType.update
    → get_tb_meta row.schema row.tb ≡ ok tb_meta
    → row.before ≡ some before
    → row.after ≡ some after
    → HasPartitionCol tb_meta
    → IsExactValue (lookup tb_meta.partition_col before)
    → can_be_partitioned log get_tb_meta row ≡ ok true
    → index_of hasher count (lookup tb_meta.partition_col before)
      ≡ index_of hasher count (lookup tb_meta.partition_col after)
unfolding can_be_partitioned row_type_eq
can_be_partitioned-index hasher get_tb_meta log row tb_meta before after count ty known b a c e h =
    ap (index_of hasher count) (
      same_value _ _ e (
        partition_col_kept log tb_meta before after
          (all_unchanged log (values tb_meta.key_map) before after) refl (rw (ty, known, b, a) at h)
          c))
