-- ===== src/Parallelizer/Merger/Keys.antt =====
-- What the merger's tests mean: the key of a row (the values of its table's `id_cols`), the hash as a
-- function of the key, and a row change as a write to a table that is a function from keys to rows.
use cubetran_core.Prelude.{
  Bool, List, Option, Result, Text, [], ap, ap₂, arith, err, false, if◌then◌else◌, list_eq, lookup,
  nat_eq, none, ok, option_eq, pair_eq, panic, refl, some, true, unwrap, ℕ, ◌%◌, ◌*◌, ◌++◌, ◌+◌,
  ◌==◌, ◌>>=◌, ◌^◌, ◌∷◌, ◌≡◌,
}
use cubetran_core.Meta.ColValue.{ColValue, hash_code}
use cubetran_core.Meta.ColValue.Equality.{eq_sound, is_exact, value_eq}
use cubetran_core.Meta.RowData.{ColValues, RowData, RowType, hash_cols}
use cubetran_core.Parallelizer.Merger.{cols_differ, values_eq}
use cubetran_core.Parallelizer.Merger.Writes.{write}

abbrev pub Key : Type 0
Key = List (Option ColValue)

abbrev pub key_of : List Text → ColValues → Key
key_of [] cols = []
key_of (id ∷ ids) cols = lookup id cols ∷ key_of ids cols

-- every key column is there and holds neither a float nor a document
abbrev pub IsExactKey : Key → Type 0
IsExactKey [] = Unit
IsExactKey (none ∷ key) = ⊥
IsExactKey (some v ∷ key) = (is_exact v ≡ true) × IsExactKey key

unfoldable pub hash_key : (ColValue → ℕ) → Key → ℕ → Result ℕ
hash_key hasher [] hash = ok hash
hash_key hasher (none ∷ key) hash = err panic
hash_key hasher (some v ∷ key) hash =
    let col_hash = hash_code hasher v in
    elim (col_hash == 0) [
      | true ↦ ok 0
      | false ↦ hash_key hasher key ((31 * hash + col_hash) % 2 ^ 128)
    ]

hash_step :
    (hasher : ColValue → ℕ) (o : Option ColValue) (key : Key) (hash : ℕ) (rest : ℕ → Result ℕ)
    → ((h : ℕ) → rest h ≡ hash_key hasher key h)
    → (unwrap o >>= λ v. elim (hash_code hasher v == 0) [
      | true ↦ ok 0
      | false ↦ rest ((31 * hash + hash_code hasher v) % 2 ^ 128)
    ])
      ≡ hash_key hasher (o ∷ key) hash
unfolding hash_key
hash_step hasher none key hash rest ih = refl
hash_step hasher (some v) key hash rest ih =
    ground (arith, ih ((31 * hash + hash_code hasher v) % 2 ^ 128))

pub hash_cols-eq-hash_key :
    (hasher : ColValue → ℕ) (cols : ColValues) (ids : List Text) (hash : ℕ)
    → hash_cols hasher cols ids hash ≡ hash_key hasher (key_of ids cols) hash
unfolding hash_cols hash_key
hash_cols-eq-hash_key hasher cols [] hash = refl
hash_cols-eq-hash_key hasher cols (id ∷ ids) hash =
    hash_step hasher (lookup id cols) (key_of ids cols) hash (hash_cols hasher cols ids)
      (hash_cols-eq-hash_key hasher cols ids)

values_eq_sound :
    (o p : Option ColValue) (key : Key) → IsExactKey (o ∷ key) → values_eq o p ≡ true → o ≡ p
unfolding values_eq
values_eq_sound none p key e h = absurd e
values_eq_sound (some a) none key e h = cc
values_eq_sound (some a) (some b) key e h = ap some (eq_sound a b e.0 h)

IsExactKey-tail : (o : Option ColValue) (key : Key) → IsExactKey (o ∷ key) → IsExactKey key
IsExactKey-tail none key e = absurd e
IsExactKey-tail (some v) key e = e.1

same_column :
    (o p : Option ColValue) (rest : Bool)
    → (if values_eq o p then rest else true) ≡ false
    → (values_eq o p ≡ true) × (rest ≡ false)
same_column o p rest h = ground arith

-- Two images whose key columns do not differ have one key.
pub cols_differ-false :
    (ids : List Text) (a b : ColValues)
    → IsExactKey (key_of ids a)
    → cols_differ ids a b ≡ false
    → key_of ids a ≡ key_of ids b
unfolding cols_differ
cols_differ-false [] a b e h = refl
cols_differ-false (id ∷ ids) a b e h =
    let (p, q) = same_column (lookup id a) (lookup id b) (cols_differ ids a b) h in
    ap₂ ◌∷◌ (values_eq_sound (lookup id a) (lookup id b) (key_of ids a) e p)
      (cols_differ-false ids a b (IsExactKey-tail (lookup id a) (key_of ids a) e) q)

-- A table, by its keys.
abbrev pub Table : Type 0
Table = Key → Option ColValues

abbrev pub image : Option ColValues → ColValues
image none = []
image (some cols) = cols

-- What a target table becomes when one change is sunk: an insert writes its row whether or not there
-- was one (the sinkers replace on conflict), an update replaces the row under its old key if there is
-- one, a delete removes the row under its key.
abbrev pub sink_typed : RowType → List Text → Table → ColValues → ColValues → Table
sink_typed RowType.insert ids t before after = write (key_of ids after) (some after) t
sink_typed RowType.delete ids t before after = write (key_of ids before) none t
sink_typed RowType.update ids t before after = elim (t (key_of ids before)) [
  | none ↦ t
  | some _ ↦ write (key_of ids after) (some after) (write (key_of ids before) none t)
]

unfoldable pub sink_row : List Text → Table → RowData → Table
sink_row ids t row = sink_typed row.row_type ids t (image row.before) (image row.after)

unfoldable pub sink_rows : List Text → Table → List RowData → Table
sink_rows ids t [] = t
sink_rows ids t (row ∷ rows) = sink_rows ids (sink_row ids t row) rows

pub sink_rows-append :
    (ids : List Text) (t : Table) (xs ys : List RowData)
    → sink_rows ids t (xs ++ ys) ≡ sink_rows ids (sink_rows ids t xs) ys
unfolding sink_rows
sink_rows-append ids t [] ys = refl
sink_rows-append ids t (x ∷ xs) ys = sink_rows-append ids (sink_row ids t x) xs ys
