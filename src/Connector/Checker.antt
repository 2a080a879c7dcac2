-- ===== src/Connector/Checker.antt =====
-- dt-connector/src/sinker/base_checker.rs: how the rows that were extracted are compared with those of
-- the target, column by column.
use cubetran_core.Prelude.{
  All, Bool, Bool-cases, Map, Option, Result, Text, [], ap, arith, beq-false, false, if◌then◌else◌,
  inl, inr, insert, list_eq, lookup, lookup-insert, nat_eq, none, ok, option_eq, pair_eq, refl,
  some, some_inj, sym, true, unwrap, ◌>>=◌, ◌↔◌, ◌∙◌, ◌∷◌, ◌≟◌, ◌≡◌, ◌≢◌,
}
use cubetran_core.Meta.ColValue.{ColValue, eq}
use cubetran_core.Meta.ColValue.ToString.{Printers, to_option_string}
use cubetran_core.Parallelizer.Merger.Writes.{Distinct}
use cubetran_core.Meta.RowData.{RowData}

pub record DiffColValue : Type 0 where
  pub src : Option Text
  pub dst : Option Text

module _ (printers : Printers) where
  abbrev differs : ColValue → Option ColValue → Option DiffColValue
  differs v none = some (record { src = to_option_string printers v; dst = none })
  differs v (some w) =
      if eq v w
      then none
      else some (record { src = to_option_string printers v; dst = to_option_string printers w })

  abbrev put_diff : Text → Option DiffColValue → Map Text DiffColValue → Map Text DiffColValue
  put_diff col none diffs = diffs
  put_diff col (some d) diffs = insert col d diffs

  -- the loop over the source's columns, on top of `diffs`
  unfoldable pub compare_cols :
      Map Text ColValue → Map Text ColValue → Map Text DiffColValue → Map Text DiffColValue
  compare_cols [] dst diffs = diffs
  compare_cols ((col, v) ∷ src) dst diffs =
      compare_cols src dst (put_diff col (differs v (lookup col dst)) diffs)

  unfoldable pub compare_row_data : RowData → RowData → Result (Map Text DiffColValue)
  compare_row_data src_row dst_row = do
    src ← unwrap src_row.after
    dst ← unwrap dst_row.after
    ok (compare_cols src dst [])

  -- the target has the column, with a value that is equal to this one
  unfoldable pub SameIn : Map Text ColValue → Text × ColValue → Type 0
  SameIn dst (col, v) = (w : ColValue) × (lookup col dst ≡ some w) × (eq v w ≡ true)

  insert-≢ :
      (col : Text) (d : DiffColValue) (diffs : Map Text DiffColValue) → insert col d diffs ≢ []
  insert-≢ col d [] = λ e. cc
  insert-≢ col d ((k, x) ∷ diffs) = split (k ≟ col)
    where
      split : (b : Bool) → (if b then (col, d) ∷ diffs else (k, x) ∷ insert col d diffs) ≢ []
      split true = λ e. cc
      split false = λ e. cc

  compare_cols-≢ :
      (src dst : Map Text ColValue) (diffs : Map Text DiffColValue)
      → diffs ≢ []
      → compare_cols src dst diffs ≢ []
  unfolding compare_cols
  compare_cols-≢ [] dst diffs h = h
  compare_cols-≢ ((col, v) ∷ src) dst diffs h =
      compare_cols-≢ src dst _ (put (differs v (lookup col dst)))
    where
      put : (o : Option DiffColValue) → put_diff col o diffs ≢ []
      put none = h
      put (some d) = insert-≢ col d diffs

  differs_none :
      (v : ColValue) (o : Option ColValue)
      → (differs v o ≡ none) ↔ ((w : ColValue) × (o ≡ some w) × (eq v w ≡ true))
  differs_none v none = (λ e. absurd cc, λ (w, e, same). absurd cc)
  differs_none v (some w) =
      (λ e. (w, refl, equal (eq v w) e), λ (w', e, same). none_of (eq v w) (rw (some_inj e) same))
    where
      said : DiffColValue
      said = record { src = to_option_string printers v; dst = to_option_string printers w }

      equal : (b : Bool) → (if b then none else some said) ≡ none → b ≡ true
      equal true e = refl
      equal false e = absurd cc

      none_of : (b : Bool) → b ≡ true → (if b then none else some said) ≡ none
      none_of true e = refl
      none_of false e = absurd cc

  -- a column's outcome, put on top of nothing, leaves nothing reported only if it is no difference
  put_diff-empty :
      (col : Text) (o : Option DiffColValue) (src dst : Map Text ColValue)
      → compare_cols src dst (put_diff col o []) ≡ []
      → (o ≡ none) × (compare_cols src dst [] ≡ [])
  put_diff-empty col none src dst e = (refl, e)
  put_diff-empty col (some d) src dst e = absurd (compare_cols-≢ src dst _ (insert-≢ col d []) e)

  compare_cols_lem :
      (src dst : Map Text ColValue) → (compare_cols src dst [] ≡ []) ↔ All (SameIn dst) src
  unfolding compare_cols SameIn
  compare_cols_lem [] dst = (λ e. tt, λ h. refl)
  compare_cols_lem ((col, v) ∷ src) dst = (
    λ e.
        let h = put_diff-empty col (differs v (lookup col dst)) src dst e in
        ((differs_none v (lookup col dst)).0 h.0, (compare_cols_lem src dst).0 h.1),
    λ (same, rest).
        rw ((differs_none v (lookup col dst)).1 same) ((compare_cols_lem src dst).1 rest),
  )

  -- what is to be reported of a column, from its value at the source, if it is there, and the target
  abbrev pub reported : Option ColValue → Option ColValue → Option DiffColValue
  reported none o = none
  reported (some v) none = some (record { src = to_option_string printers v; dst = none })
  reported (some v) (some w) =
      if eq v w
      then none
      else some (record { src = to_option_string printers v; dst = to_option_string printers w })

  abbrev or_before : Option DiffColValue → Option DiffColValue → Option DiffColValue
  or_before none before = before
  or_before (some d) before = some d

  differs-reported : (v : ColValue) (o : Option ColValue) → differs v o ≡ reported (some v) o
  differs-reported v none = refl
  differs-reported v (some w) = refl

  lookup-put_diff :
      (col k : Text) (o : Option DiffColValue) (diffs : Map Text DiffColValue)
      → lookup col (put_diff k o diffs)
        ≡ (if k ≟ col then or_before o (lookup col diffs) else lookup col diffs)
  lookup-put_diff col k none diffs = ground arith
  lookup-put_diff col k (some d) diffs = lookup-insert k col d diffs

  lookup-absent :
      (col : Text) (src : Map Text ColValue)
      → All (λ (p : Text × ColValue). col ≢ p.0) src
      → lookup col src ≡ none
  lookup-absent col [] h = refl
  lookup-absent col ((k, v) ∷ src) (other, h) =
      rw (beq-false k col (λ e. other (sym e))) (lookup-absent col src h)

  compare_cols-reported :
      (src dst : Map Text ColValue) (diffs : Map Text DiffColValue) (col : Text)
      → Distinct src
      → lookup col (compare_cols src dst diffs)
        ≡ or_before (reported (lookup col src) (lookup col dst)) (lookup col diffs)
  unfolding compare_cols
  compare_cols-reported [] dst diffs col d = refl
  compare_cols-reported ((k, v) ∷ src) dst diffs col (fresh, d) =
      compare_cols-reported src dst (put_diff k (differs v (lookup k dst)) diffs) col d
      ∙ ap (or_before (reported (lookup col src) (lookup col dst)))
          (lookup-put_diff col k (differs v (lookup k dst)) diffs)
      ∙ elim (Bool-cases (k ≟ col)) [
        | inl same ↦
            let here : k ≡ col = (list_eq.beq_iff k col).0 same in
            let nowhere_else : lookup col src ≡ none =
              ap (λ c. lookup c src) (sym here) ∙ lookup-absent k src fresh in
            rw (same, nowhere_else)
              (ap (λ o. or_before o (lookup col diffs))
                (differs-reported v (lookup k dst)
                  ∙ ap (λ c. reported (some v) (lookup c dst)) here))
        | inr other ↦ rw other refl
      ]

  or_before-none : (o : Option DiffColValue) → or_before o none ≡ o
  or_before-none none = refl
  or_before-none (some d) = refl

  -- Two rows that both have an after image, where the source's has no column twice, are compared
  -- without an error, whatever they hold. No column is reported exactly if the target's image has every
  -- column of the source's, with an equal value. What is reported are the columns of the source's image
  -- that the target's lacks or has with another value, each with the text of the source's value and
  -- that of the target's, if there is one.
  pub compare_row_data_lem :
      (src_row dst_row : RowData) (src dst : Map Text ColValue)
      → src_row.after ≡ some src
      → dst_row.after ≡ some dst
      → Distinct src
      → (diffs : Map Text DiffColValue) × (compare_row_data src_row dst_row ≡ ok diffs)
        × ((diffs ≡ []) ↔ All (SameIn dst) src)
        × ((col : Text) → lookup col diffs ≡ reported (lookup col src) (lookup col dst))
  unfolding compare_row_data
  compare_row_data_lem src_row dst_row src dst e e' distinct =
      rw (e, e')
        (
          compare_cols src dst [],
          refl,
          compare_cols_lem src dst,
          λ col.
              compare_cols-reported src dst [] col distinct
              ∙ or_before-none (reported (lookup col src) (lookup col dst)),
        )
