-- ===== src/Pipeline/Fetch.antt =====
-- What the three `fetch` functions read off a batch.
use cubetran_core.Prelude.{
  Bool, List, Option, [], ap, append-nil, append_assoc, concat, false, if◌then◌else◌, list_eq, map,
  nat_eq, none, option_eq, pair_eq, refl, some, true, ◌++◌, ◌∙◌, ◌∷◌, ◌≡◌,
}
use cubetran_core.Meta.RowData.{RowData}
use cubetran_core.Meta.DtData.{DdlData, DtData, DtItem, Position}
use cubetran_core.Pipeline.{
  ddl_step, dml_step, fetch_ddl, fetch_ddl_loop, fetch_dml, fetch_dml_loop, fetch_raw,
  fetch_raw_loop, raw_step,
}

-- the position of the last item that passes the test, or `o` if there is none
pub last_or : (DtData → Bool) → Option Position → List DtItem → Option Position
last_or p o [] = o
last_or p o (item ∷ items) = last_or p (if p item.dt_data then some item.position else o) items

-- the items that end a transaction, and those that are received, in each of the three
pub raw_commits : DtData → Bool
raw_commits (DtData.commit xid) = true
raw_commits (DtData.ddl d) = true
raw_commits (DtData.redis entry) = true
raw_commits _ = false

pub raw_receives : DtData → Bool
raw_receives DtData.begin = false
raw_receives _ = true

pub dml_commits : DtData → Bool
dml_commits (DtData.commit xid) = true
dml_commits _ = false

pub dml_receives : DtData → Bool
dml_receives (DtData.commit xid) = true
dml_receives (DtData.dml row) = true
dml_receives _ = false

pub ddl_commits : DtData → Bool
ddl_commits (DtData.commit xid) = true
ddl_commits (DtData.ddl d) = true
ddl_commits _ = false

pub row_of : DtData → List RowData
row_of (DtData.dml row) = row ∷ []
row_of _ = []

pub ddl_of : DtData → List DdlData
ddl_of (DtData.ddl d) = d ∷ []
ddl_of _ = []

-- the rows, and the DDLs, of a batch
pub rows_in : List DtItem → List RowData
rows_in items = concat (map (λ item. row_of item.dt_data) items)

pub ddls_in : List DtItem → List DdlData
ddls_in items = concat (map (λ item. ddl_of item.dt_data) items)

-- the position moves, if the item passes the test
abbrev moved : (DtData → Bool) → DtData → Position → Option Position → Option Position
moved p d q o = if p d then some q else o

raw_step_lem :
    (d : DtData) (q : Position) (r c : Option Position)
    → raw_step d q (r, c) ≡ (moved raw_receives d q r, moved raw_commits d q c)
unfolding raw_step raw_receives raw_commits
raw_step_lem (DtData.struct x) q r c = refl
raw_step_lem (DtData.ddl x) q r c = refl
raw_step_lem (DtData.dml x) q r c = refl
raw_step_lem DtData.begin q r c = refl
raw_step_lem (DtData.commit x) q r c = refl
raw_step_lem (DtData.redis x) q r c = refl
raw_step_lem (DtData.foxlake x) q r c = refl

fetch_raw_loop_lem :
    (r c : Option Position) (items : List DtItem)
    → fetch_raw_loop (r, c) items ≡ (last_or raw_receives r items, last_or raw_commits c items)
unfolding fetch_raw_loop last_or
fetch_raw_loop_lem r c [] = refl
fetch_raw_loop_lem r c (item ∷ items) =
    ap (λ p. fetch_raw_loop p items) (raw_step_lem item.dt_data item.position r c)
    ∙ fetch_raw_loop_lem (moved raw_receives item.dt_data item.position r)
        (moved raw_commits item.dt_data item.position c) items

-- A raw batch is received up to its last item other than a `Begin`, and committed up to its last
-- `Commit`, DDL or redis item.
pub fetch_raw_lem :
    (items : List DtItem)
    → fetch_raw items ≡ (last_or raw_receives none items, last_or raw_commits none items)
unfolding fetch_raw
fetch_raw_lem items = fetch_raw_loop_lem none none items

dml_step_lem :
    (d : DtData) (q : Position) (rows : List RowData) (r c : Option Position)
    → dml_step d q (rows, (r, c))
      ≡ (rows ++ row_of d, (moved dml_receives d q r, moved dml_commits d q c))
unfolding dml_step dml_receives dml_commits row_of
dml_step_lem (DtData.commit x) q rows r c = rw (append-nil rows)
dml_step_lem (DtData.dml x) q rows r c = refl
dml_step_lem (DtData.struct x) q rows r c = rw (append-nil rows)
dml_step_lem (DtData.ddl x) q rows r c = rw (append-nil rows)
dml_step_lem DtData.begin q rows r c = rw (append-nil rows)
dml_step_lem (DtData.redis x) q rows r c = rw (append-nil rows)
dml_step_lem (DtData.foxlake x) q rows r c = rw (append-nil rows)

fetch_dml_loop_lem :
    (rows : List RowData) (r c : Option Position) (items : List DtItem)
    → fetch_dml_loop (rows, (r, c)) items
      ≡ (rows ++ rows_in items, (last_or dml_receives r items, last_or dml_commits c items))
unfolding fetch_dml_loop last_or rows_in
fetch_dml_loop_lem rows r c [] = rw (append-nil rows)
fetch_dml_loop_lem rows r c (item ∷ items) =
    ap (λ p. fetch_dml_loop p items) (dml_step_lem item.dt_data item.position rows r c)
    ∙ fetch_dml_loop_lem (rows ++ row_of item.dt_data)
        (moved dml_receives item.dt_data item.position r)
        (moved dml_commits item.dt_data item.position c) items
    ∙ rw (append_assoc rows (row_of item.dt_data) (rows_in items))

-- A batch of rows has its rows in their order; it is received up to its last row or `Commit`, and
-- committed up to its last `Commit`: a transaction that has not ended is not committed.
pub fetch_dml_lem :
    (items : List DtItem)
    → fetch_dml items
      ≡ (rows_in items, (last_or dml_receives none items, last_or dml_commits none items))
unfolding fetch_dml
fetch_dml_lem items = fetch_dml_loop_lem [] none none items

ddl_step_lem :
    (d : DtData) (q : Position) (ddls : List DdlData) (r c : Option Position)
    → ddl_step d q (ddls, (r, c))
      ≡ (ddls ++ ddl_of d, (moved ddl_commits d q r, moved ddl_commits d q c))
unfolding ddl_step ddl_commits ddl_of
ddl_step_lem (DtData.commit x) q ddls r c = rw (append-nil ddls)
ddl_step_lem (DtData.ddl x) q ddls r c = refl
ddl_step_lem (DtData.struct x) q ddls r c = rw (append-nil ddls)
ddl_step_lem (DtData.dml x) q ddls r c = rw (append-nil ddls)
ddl_step_lem DtData.begin q ddls r c = rw (append-nil ddls)
ddl_step_lem (DtData.redis x) q ddls r c = rw (append-nil ddls)
ddl_step_lem (DtData.foxlake x) q ddls r c = rw (append-nil ddls)

fetch_ddl_loop_lem :
    (ddls : List DdlData) (r c : Option Position) (items : List DtItem)
    → fetch_ddl_loop (ddls, (r, c)) items
      ≡ (ddls ++ ddls_in items, (last_or ddl_commits r items, last_or ddl_commits c items))
unfolding fetch_ddl_loop last_or ddls_in
fetch_ddl_loop_lem ddls r c [] = rw (append-nil ddls)
fetch_ddl_loop_lem ddls r c (item ∷ items) =
    ap (λ p. fetch_ddl_loop p items) (ddl_step_lem item.dt_data item.position ddls r c)
    ∙ fetch_ddl_loop_lem (ddls ++ ddl_of item.dt_data)
        (moved ddl_commits item.dt_data item.position r)
        (moved ddl_commits item.dt_data item.position c) items
    ∙ rw (append_assoc ddls (ddl_of item.dt_data) (ddls_in items))

-- A batch of DDLs has its DDLs in their order, and is received and committed up to its last DDL or
-- `Commit`.
pub fetch_ddl_lem :
    (items : List DtItem)
    → fetch_ddl items
      ≡ (ddls_in items, (last_or ddl_commits none items, last_or ddl_commits none items))
unfolding fetch_ddl
fetch_ddl_lem items = fetch_ddl_loop_lem [] none none items
