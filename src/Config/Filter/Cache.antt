-- ===== src/Config/Filter/Cache.antt =====
-- The cache of the filter gives the answers that are computed without it.

use cubetran_core.Prelude.{
  Bool, Bool-cases, List, Option, Result, Text, [], ap, ap₂, contains, err, false, if◌then◌else◌,
  inl, inr, insert, list_eq, lookup, lookup-insert, nat_eq, none, not, ok, ok_inj, option_eq,
  pair_eq, refl, some, some_inj, subst, sym, true, ◌&&◌, ◌>>=◌, ◌∙◌, ◌∷◌, ◌≟◌, ◌≡◌,
}
use cubetran_core.Meta.RowData.{RowType}
use cubetran_core.Config.Filter.{
  RdbFilter, decide_tb, filter_ddl, filter_event, filter_schema, filter_tb, filter_uncached, is_nil,
  match_all, remember, row_type_name,
}

-- one call, of a table or of a change of a row of it
pub data Query : Type 0 where
  of_tb : Text → Text → Query
  of_event : Text → Text → RowType → Query
  of_ddl : Text → Text → Text → Query

module _ (regex : Text → Option (Text → Bool)) where
  -- What the cache has of a table is what would be computed for it.
  unfoldable pub Coherent : RdbFilter → Type 0
  Coherent f =
      (schema tb : Text) (filter : Bool)
      → lookup (schema, tb) f.cache ≡ some filter
      → decide_tb regex f schema tb ≡ ok filter

  abbrev pub ask : RdbFilter → Query → Result (Bool × RdbFilter)
  ask f (of_tb schema tb) = filter_tb regex f schema tb
  ask f (of_event schema tb row_type) = filter_event regex f schema tb row_type
  ask f (of_ddl schema tb ddl_type) = filter_ddl regex f schema tb ddl_type

  -- the answers to a row of calls
  unfoldable pub answers : RdbFilter → List Query → Result (List Bool)
  answers f [] = ok []
  answers f (q ∷ qs) = do (filter, f') ← ask f q; rest ← answers f' qs; ok (filter ∷ rest)

  -- the same, each call on a filter whose cache is empty
  abbrev pub forgotten : RdbFilter → RdbFilter
  forgotten f = record f { cache = [] }

  unfoldable pub fresh_answers : RdbFilter → List Query → Result (List Bool)
  fresh_answers f [] = ok []
  fresh_answers f (q ∷ qs) = do
    (filter, f') ← ask (forgotten f) q
    rest ← fresh_answers f qs
    ok (filter ∷ rest)

  -- A reply agrees with the one without the cache, and the filter that comes back is coherent, with
  -- the same rules.
  Agrees : RdbFilter → Result (Bool × RdbFilter) → Result (Bool × RdbFilter) → Type 0
  Agrees f (err e) (err e') = e ≡ e'
  Agrees f (ok (filter, f')) (ok (filter', f'')) =
      (filter ≡ filter') × (forgotten f' ≡ forgotten f) × Coherent f'
  Agrees f _ _ = ⊥

  remember-Coherent :
      (f : RdbFilter) (schema tb : Text) (filter : Bool)
      → Coherent f
      → decide_tb regex f schema tb ≡ ok filter
      → Coherent (remember f schema tb filter)
  unfolding Coherent decide_tb
  remember-Coherent f schema tb filter h e schema' tb' filter' found =
      here (schema, tb) (schema', tb') refl refl
    where
      same_rules :
          decide_tb regex (remember f schema tb filter) schema' tb' ≡ decide_tb regex f schema' tb'
      same_rules = refl

      here :
          (k j : Text × Text)
          → k ≡ (schema, tb)
          → j ≡ (schema', tb')
          → decide_tb regex f schema' tb' ≡ ok filter'
      here k j ek ej =
          let look : (if k ≟ j then some filter else lookup j f.cache) ≡ some filter' =
            sym (lookup-insert k j filter f.cache)
            ∙ ap₂ (λ a b. lookup b (insert a filter f.cache)) ek ej
            ∙ found in
          elim (Bool-cases (k ≟ j)) [
            | inl same ↦
                let chosen : some filter ≡ some filter' = rw same at look in
                let keys : k ≡ j = (pair_eq.beq_iff k j).0 same in
                subst (λ (p : Text × Text). decide_tb regex f p.0 p.1 ≡ ok filter)
                  (sym ek ∙ keys ∙ ej) e
                ∙ ap ok (some_inj chosen)
            | inr other ↦
                let old : lookup j f.cache ≡ some filter' = rw other at look in
                h schema' tb' filter' (ap (λ (p : Text × Text). lookup p f.cache) (sym ej) ∙ old)
          ]

  filter_tb-Agrees :
      (f : RdbFilter) (schema tb : Text)
      → Coherent f
      → Agrees f (filter_tb regex f schema tb) (filter_tb regex (forgotten f) schema tb)
  unfolding filter_tb decide_tb
  filter_tb-Agrees f schema tb h = cached (lookup (schema, tb) f.cache) refl
    where
      decided :
          (m : Result Bool)
          → decide_tb regex f schema tb ≡ m
          → Agrees f
              (m >>= λ filter. ok (filter, remember f schema tb filter))
              (m >>= λ filter. ok (filter, remember (forgotten f) schema tb filter))
      decided (err x) e = unfold Agrees in refl
      decided (ok filter) e =
          unfold Agrees in (refl, refl, remember-Coherent f schema tb filter h e)

      known :
          (filter : Bool) (m : Result Bool)
          → m ≡ ok filter
          → Agrees f
              (ok (filter, f))
              (m >>= λ filter. ok (filter, remember (forgotten f) schema tb filter))
      known filter (err x) e = absurd cc
      known filter (ok filter') e = unfold Agrees in (sym (ok_inj e), refl, h)

      cached :
          (o : Option Bool)
          → lookup (schema, tb) f.cache ≡ o
          → Agrees f
              (filter_uncached regex o f schema tb)
              (filter_uncached regex none (forgotten f) schema tb)
      cached none e = decided (decide_tb regex f schema tb) refl
      cached (some filter) e =
          known filter (decide_tb regex f schema tb) (unfold Coherent in h schema tb filter e)

  if_Agrees :
      (f : RdbFilter) (b : Bool) (x y x' y' : Result (Bool × RdbFilter))
      → Agrees f x x'
      → Agrees f y y'
      → Agrees f (if b then x else y) (if b then x' else y')
  if_Agrees f true x y x' y' hx hy = hx
  if_Agrees f false x y x' y' hx hy = hy

  filter_event-Agrees :
      (f : RdbFilter) (schema tb : Text) (row_type : RowType)
      → Coherent f
      → Agrees f
          (filter_event regex f schema tb row_type)
          (filter_event regex (forgotten f) schema tb row_type)
  unfolding filter_event Agrees
  filter_event-Agrees f schema tb row_type h =
      if_Agrees f
        (not (match_all f.do_events) && not (contains f.do_events (row_type_name row_type)))
        (ok (true, f)) (filter_tb regex f schema tb) (ok (true, forgotten f))
        (filter_tb regex (forgotten f) schema tb) (refl, refl, h) (filter_tb-Agrees f schema tb h)

  filter_ddl-Agrees :
      (f : RdbFilter) (schema tb ddl_type : Text)
      → Coherent f
      → Agrees f
          (filter_ddl regex f schema tb ddl_type)
          (filter_ddl regex (forgotten f) schema tb ddl_type)
  unfolding filter_ddl filter_schema
  filter_ddl-Agrees f schema tb ddl_type h =
      if_Agrees f (not (match_all f.do_ddls) && not (contains f.do_ddls ddl_type)) _ _ _ _
        (unfold Agrees in (refl, refl, h))
        (if_Agrees f (is_nil tb) _ _ _ _ (of_schema (filter_schema regex f schema))
          (filter_tb-Agrees f schema tb h))
    where
      of_schema :
          (m : Result Bool)
          → Agrees f (m >>= λ filter. ok (filter, f)) (m >>= λ filter. ok (filter, forgotten f))
      of_schema (err e) = unfold Agrees in refl
      of_schema (ok filter) = unfold Agrees in (refl, refl, h)

  ask-Agrees : (f : RdbFilter) (q : Query) → Coherent f → Agrees f (ask f q) (ask (forgotten f) q)
  ask-Agrees f (of_tb schema tb) h = filter_tb-Agrees f schema tb h
  ask-Agrees f (of_event schema tb row_type) h = filter_event-Agrees f schema tb row_type h
  ask-Agrees f (of_ddl schema tb ddl_type) h = filter_ddl-Agrees f schema tb ddl_type h

  fresh_answers-forgotten :
      (f : RdbFilter) (qs : List Query) → fresh_answers f qs ≡ fresh_answers (forgotten f) qs
  unfolding fresh_answers
  fresh_answers-forgotten f [] = refl
  fresh_answers-forgotten f (q ∷ qs) = rw (fresh_answers-forgotten f qs) refl

  fresh_same :
      (f g : RdbFilter) (qs : List Query)
      → forgotten f ≡ forgotten g
      → fresh_answers f qs ≡ fresh_answers g qs
  fresh_same f g qs e =
      fresh_answers-forgotten f qs
      ∙ ap (λ h. fresh_answers h qs) e
      ∙ sym (fresh_answers-forgotten g qs)

  answers-fresh : (f : RdbFilter) (qs : List Query) → Coherent f → answers f qs ≡ fresh_answers f qs
  unfolding answers fresh_answers Agrees
  answers-fresh f [] h = refl
  answers-fresh f (q ∷ qs) h =
      both (ask f q) (ask (forgotten f) q) (ask-Agrees f q h) (λ g. answers-fresh g qs)
    where
      both :
          (m m' : Result (Bool × RdbFilter))
          → Agrees f m m'
          → ((g : RdbFilter) → Coherent g → answers g qs ≡ fresh_answers g qs)
          → (m >>= λ (filter, f'). answers f' qs >>= λ rest. ok (filter ∷ rest))
            ≡ (m' >>= λ (filter, f'). fresh_answers f qs >>= λ rest. ok (filter ∷ rest))
      both (err e) (err e') same more = ap err (unfold Agrees in same)
      both (err e) (ok r) same more = absurd (unfold Agrees in same)
      both (ok r) (err e) same more = absurd (unfold Agrees in same)
      both (ok (filter, f')) (ok (filter', f'')) (same, rules, coherent) more =
          ap₂ (λ b rest. rest >>= λ bs. ok (b ∷ bs)) same
            (more f' coherent ∙ fresh_same f' f qs rules)

  -- Starting with an empty cache, the filter answers any row of calls (of tables, of changes of rows,
  -- of statements) as it would if it never remembered anything, panics on a pattern that does not
  -- compile included.
  pub cached_answers :
      (f : RdbFilter) (qs : List Query) → answers (forgotten f) qs ≡ fresh_answers f qs
  cached_answers f qs = answers-fresh (forgotten f) qs nothing ∙ fresh_same (forgotten f) f qs refl
    where
      nothing : Coherent (forgotten f)
      nothing = unfold Coherent in λ schema tb filter e. absurd cc
