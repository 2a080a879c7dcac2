-- ===== src/Config/Router/Reverse.antt =====
-- Routing back: what `reverse` makes of a router, and when it panics.
use cubetran_core.Prelude.{
  All, Bool-cases, Eq, IfOk, Map, Option-cases, Result, Text, [], ap, beq-false, err, err-IfOk,
  false, from-IfOk, if◌then◌else◌, inl, inr, insert, list_eq, lookup, lookup-insert, nat_eq, none,
  ok, ok-IfOk, option_eq, pair_eq, panic, refl, some, some_inj, true, ◌++◌, ◌>>=◌, ◌∙◌, ◌∷◌, ◌≟◌,
  ◌≡◌, ◌≢◌, ◌⊎◌,
}
use cubetran_core.Config.Router.{
  RdbRouter, SchemaTb, get_tb_map, reverse, reverse_cols, reverse_onto,
}

module _ {ℓ} {K : Type ℓ} ⦃e : Eq K⦄ where
  -- nothing but `k` is mapped to `v`
  abbrev pub OnlyFrom : K → K → Map K K → Type ℓ
  OnlyFrom k v = All (λ (p : K × K). p.1 ≡ v → p.0 ≡ k)

  -- nothing is mapped to `v`
  abbrev pub NotTo : K → Map K K → Type ℓ
  NotTo v = All (λ (p : K × K). p.1 ≢ v)

  reverse_onto_kept :
      (m acc : Map K K) (k v : K)
      → lookup v acc ≡ some k
      → OnlyFrom k v m
      → lookup v (reverse_onto m acc) ≡ some k
  unfolding reverse_onto
  reverse_onto_kept [] acc k v found h = found
  reverse_onto_kept ((src, dst) ∷ m) acc k v found (one, h) =
      reverse_onto_kept m (insert dst src acc) k v
        (lookup-insert dst v src acc ∙ chosen (Bool-cases (dst ≟ v))) h
    where
      chosen :
          ((dst ≟ v) ≡ true) ⊎ ((dst ≟ v) ≡ false)
          → (if dst ≟ v then some src else lookup v acc) ≡ some k
      chosen (inl same) = rw same (ap some (one ((e.beq_iff dst v).0 same)))
      chosen (inr other) = rw other found

  reverse_onto_found :
      (m acc : Map K K) (k v : K)
      → lookup k m ≡ some v
      → OnlyFrom k v m
      → lookup v (reverse_onto m acc) ≡ some k
  unfolding reverse_onto
  reverse_onto_found [] acc k v found h = absurd cc
  reverse_onto_found ((src, dst) ∷ m) acc k v found (one, h) = elim (Bool-cases (src ≟ k)) [
    | inl same ↦
        let value : some dst ≡ some v = rw same at found in
        reverse_onto_kept m (insert dst src acc) k v
          (lookup-insert dst v src acc
            ∙ rw ((e.beq_iff dst v).1 (some_inj value)) (ap some ((e.beq_iff src k).0 same)))
          h
    | inr other ↦ reverse_onto_found m (insert dst src acc) k v (rw other at found) h
  ]

  reverse_onto_missing :
      (m acc : Map K K) (v : K) → NotTo v m → lookup v (reverse_onto m acc) ≡ lookup v acc
  unfolding reverse_onto
  reverse_onto_missing [] acc v h = refl
  reverse_onto_missing ((src, dst) ∷ m) acc v (other, h) =
      reverse_onto_missing m (insert dst src acc) v h
      ∙ lookup-insert dst v src acc
      ∙ rw (beq-false dst v other) refl

-- How the table is routed, and that the maps themselves send nothing else to the target.
pub data Unambiguous (r : RdbRouter) (schema tb : Text) : Type 0 where
  by_table :
      (dst : SchemaTb)
      → lookup {K = SchemaTb} (schema, tb) r.tb_map ≡ some dst
      → OnlyFrom {K = SchemaTb} (schema, tb) dst r.tb_map
      → Unambiguous r schema tb
  by_schema :
      (dst_schema : Text)
      → lookup {K = SchemaTb} (schema, tb) r.tb_map ≡ none
      → lookup schema r.schema_map ≡ some dst_schema
      → NotTo {K = SchemaTb} (dst_schema, tb) r.tb_map
      → OnlyFrom schema dst_schema r.schema_map
      → Unambiguous r schema tb
  by_name :
      lookup {K = SchemaTb} (schema, tb) r.tb_map ≡ none
      → lookup schema r.schema_map ≡ none
      → NotTo {K = SchemaTb} (schema, tb) r.tb_map
      → NotTo schema r.schema_map
      → Unambiguous r schema tb

-- the maps of the reversed router
Reversed : RdbRouter → RdbRouter → Type 0
Reversed r r' =
    (r'.tb_map ≡ reverse_onto r.tb_map []) × (r'.schema_map ≡ reverse_onto r.schema_map [])

reverse-Reversed : (r : RdbRouter) → IfOk (Reversed r) (reverse r)
unfolding reverse Reversed
reverse-Reversed r = built (reverse_cols r.tb_map r.col_map [])
  where
    built :
        (m : Result (Map SchemaTb (Map Text Text)))
        → IfOk (Reversed r) (
            m >>= λ col_map. ok (record {
              schema_map = reverse_onto r.schema_map [];
              tb_map = reverse_onto r.tb_map [];
              col_map = col_map;
              topic_map = r.topic_map;
            }))
    built (err x) = err-IfOk (Reversed r) x
    built (ok col_map) = ok-IfOk (Reversed r) _ (refl, refl)

by_table_map :
    (r : RdbRouter) (src dst : SchemaTb)
    → lookup src r.tb_map ≡ some dst
    → get_tb_map r src.0 src.1 ≡ dst
unfolding get_tb_map
by_table_map r src dst found = rw (found, get_tb_map) refl

by_schema_map :
    (r : RdbRouter) (src : SchemaTb) (dst_schema : Text)
    → lookup src r.tb_map ≡ none
    → lookup src.0 r.schema_map ≡ some dst_schema
    → get_tb_map r src.0 src.1 ≡ (dst_schema, src.1)
unfolding get_tb_map
by_schema_map r src dst_schema no_tb found = rw (no_tb, found, get_tb_map) refl

by_no_map :
    (r : RdbRouter) (src : SchemaTb)
    → lookup src r.tb_map ≡ none
    → lookup src.0 r.schema_map ≡ none
    → get_tb_map r src.0 src.1 ≡ src
unfolding get_tb_map
by_no_map r src no_tb no_schema = rw (no_tb, no_schema, get_tb_map) refl

-- routed there, and from there
via :
    (r r' : RdbRouter) (src dst : SchemaTb)
    → get_tb_map r src.0 src.1 ≡ dst
    → get_tb_map r' dst.0 dst.1 ≡ src
    → get_tb_map r' (get_tb_map r src.0 src.1).0 (get_tb_map r src.0 src.1).1 ≡ src
via r r' src dst there back = ap (λ (d : SchemaTb). get_tb_map r' d.0 d.1) there ∙ back

there_and_back :
    (r r' : RdbRouter) (schema tb : Text)
    → Reversed r r'
    → Unambiguous r schema tb
    → get_tb_map r' (get_tb_map r schema tb).0 (get_tb_map r schema tb).1 ≡ (schema, tb)
unfolding Reversed
there_and_back r r' schema tb (tbs, schemas) (by_table dst found only) =
    via r r' (schema, tb) dst (by_table_map r (schema, tb) dst found)
      (by_table_map r' dst (schema, tb)
        (ap (lookup dst) tbs ∙ reverse_onto_found r.tb_map [] (schema, tb) dst found only))
there_and_back r r' schema tb (tbs, schemas) (by_schema dst no_tb found not_to only) =
    via r r' (schema, tb) (dst, tb) (by_schema_map r (schema, tb) dst no_tb found)
      (by_schema_map r' (dst, tb) schema
        (ap (lookup {K = SchemaTb} (dst, tb)) tbs
          ∙ reverse_onto_missing r.tb_map [] (dst, tb) not_to)
        (ap (lookup dst) schemas ∙ reverse_onto_found r.schema_map [] schema dst found only))
there_and_back r r' schema tb (tbs, schemas) (by_name no_tb no_schema not_to not_to') =
    via r r' (schema, tb) (schema, tb) (by_no_map r (schema, tb) no_tb no_schema)
      (by_no_map r' (schema, tb)
        (ap (lookup {K = SchemaTb} (schema, tb)) tbs
          ∙ reverse_onto_missing r.tb_map [] (schema, tb) not_to)
        (ap (lookup schema) schemas ∙ reverse_onto_missing r.schema_map [] schema not_to'))

-- The reversed router routes a table's target back to the table in each of three cases: the map of
-- tables has the table, and maps no other table to its target; or the map of tables has not got it
-- and maps no table to its target, and the map of schemas has its schema, and maps no other schema to
-- the target's; or neither map has it, no table is mapped to it and no schema to its schema.
pub get_tb_map-reverse :
    (r r' : RdbRouter) (schema tb : Text)
    → reverse r ≡ ok r'
    → Unambiguous r schema tb
    → get_tb_map r' (get_tb_map r schema tb).0 (get_tb_map r schema tb).1 ≡ (schema, tb)
get_tb_map-reverse r r' schema tb e h =
    there_and_back r r' schema tb (from-IfOk (Reversed r) (reverse r) e (reverse-Reversed r)) h

reverse_cols_panics :
    (tb_map : Map SchemaTb SchemaTb) (front back : Map SchemaTb (Map Text Text)) (tb : SchemaTb)
    (cols : Map Text Text) (acc : Map SchemaTb (Map Text Text))
    → lookup tb tb_map ≡ none
    → reverse_cols tb_map (front ++ (tb, cols) ∷ back) acc ≡ err panic
unfolding reverse_cols
reverse_cols_panics tb_map [] back tb cols acc h = rw h refl
reverse_cols_panics tb_map ((tb', cols') ∷ front) back tb cols acc h =
    elim (Option-cases (lookup tb' tb_map)) [
      | inl missing ↦ rw missing refl
      | inr (dst, found) ↦ rw found (reverse_cols_panics tb_map front back tb cols _ h)
    ]

-- A router that renames columns of a table which its map of tables does not have cannot be reversed:
-- `reverse` panics, whatever the other maps hold.
pub reverse_panics :
    (r : RdbRouter) (front back : Map SchemaTb (Map Text Text)) (tb : SchemaTb)
    (cols : Map Text Text)
    → r.col_map ≡ front ++ (tb, cols) ∷ back
    → lookup tb r.tb_map ≡ none
    → reverse r ≡ err panic
unfolding reverse
reverse_panics r front back tb cols e h =
    rw (e, reverse_cols_panics r.tb_map front back tb cols [] h) refl
