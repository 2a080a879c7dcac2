-- ===== src/Parallelizer/Redis/Index.antt =====
-- The map from the ids of the sinkers to their indexes, and the items for the node with an id.
use cubetran_core.Prelude.{
  ==_iff, All, Bool, Bool-cases, List, Map, Option-cases, Result, Text, [], ap, ap₂, arith,
  beq-false, err, get_elem?, if◌then◌else◌, inl, inr, insert, length, list_eq, lookup,
  lookup-insert, nat_eq, ok, option_eq, pair_eq, refl, some, some_inj, suc, sym, true, unwrap, zero,
  ℕ, ◌+◌, ◌<◌, ◌==◌, ◌↔◌, ◌∙◌, ◌∷◌, ◌≟◌, ◌≡◌, ◌≢◌, ◌⊎◌,
}
use cubetran_core.Meta.DtData.{DtItem}
use cubetran_core.Parallelizer.Redis.{
  RedisParallelizer, index_sinkers, known_sinkers, sinker_of, slots_of,
}
use cubetran_core.Parallelizer.Redis.Routing.{finds, is_for, items_for}

abbrev pub AreDifferent : List Text → Type 0
AreDifferent [] = Unit
AreDifferent (id ∷ ids) = All (λ other. other ≢ id) ids × AreDifferent ids

-- The map has an index for an id exactly if the sinker with that index has that id.
abbrev pub IsIndex : List Text → Map Text ℕ → Type 0
IsIndex ids m = (id : Text) (j : ℕ) → (lookup id m ≡ some j) ↔ (get_elem? ids j ≡ some id)

pub get_elem?-< : (ids : List Text) (j : ℕ) (id : Text) → get_elem? ids j ≡ some id → j < length ids
get_elem?-< [] j id h = cc
get_elem?-< (x ∷ ids) zero id h = omega arith
get_elem?-< (x ∷ ids) (suc j) id h = let lt = get_elem?-< ids j id h in omega (arith, lt)

-- Where an id stands: found before, or `i` places on.
index_sinkers-back :
    (i : ℕ) (ids : List Text) (m : Map Text ℕ) (id : Text) (j : ℕ)
    → lookup id (index_sinkers i ids m) ≡ some j
    → (lookup id m ≡ some j) ⊎ ((k : ℕ) × (j ≡ i + k) × (get_elem? ids k ≡ some id))
unfolding index_sinkers
index_sinkers-back i [] m id j h = inl h
index_sinkers-back i (x ∷ ids) m id j h =
    elim (index_sinkers-back (i + 1) ids (insert x i m) id j h) [
      | inl before ↦
          let l : (if x ≟ id then some i else lookup id m) ≡ some j =
            sym (lookup-insert x id i m) ∙ before in
          elim (Bool-cases (x ≟ id)) [
            | inl same ↦
                let here : some i ≡ some j = rw same at l in
                inr (0, omega (arith, some_inj here), ap some ((list_eq.beq_iff x id).0 same))
            | inr other ↦ inl (rw other at l)
          ]
      | inr (k, e, found) ↦ inr (suc k, omega (arith, e), found)
    ]

index_sinkers-other :
    (i : ℕ) (ids : List Text) (m : Map Text ℕ) (id : Text)
    → All (λ other. other ≢ id) ids
    → lookup id (index_sinkers i ids m) ≡ lookup id m
unfolding index_sinkers
index_sinkers-other i [] m id h = refl
index_sinkers-other i (x ∷ ids) m id (other, h) =
    index_sinkers-other (i + 1) ids (insert x i m) id h
    ∙ lookup-insert x id i m
    ∙ rw (beq-false x id other) refl

index_sinkers-there :
    (i : ℕ) (ids : List Text) (m : Map Text ℕ) (id : Text) (k : ℕ)
    → AreDifferent ids
    → get_elem? ids k ≡ some id
    → lookup id (index_sinkers i ids m) ≡ some (i + k)
unfolding index_sinkers
index_sinkers-there i [] m id k h found = cc
index_sinkers-there i (x ∷ ids) m id zero (others, h) found =
    let here : i ≡ i + 0 = omega arith in
    rw (sym (some_inj found)) (
      index_sinkers-other (i + 1) ids (insert x i m) x others
      ∙ lookup-insert x x i m
      ∙ rw ((list_eq.beq_iff x x).1 refl) (ap some here))
index_sinkers-there i (x ∷ ids) m id (suc k) (others, h) found =
    let here : i + 1 + k ≡ i + suc k = omega arith in
    index_sinkers-there (i + 1) ids (insert x i m) id k h found ∙ ap some here

pub known_sinkers-IsIndex :
    (m : Map Text ℕ) (sinkers : List Text)
    → AreDifferent sinkers
    → (m ≡ []) ⊎ IsIndex sinkers m
    → IsIndex sinkers (known_sinkers m sinkers)
known_sinkers-IsIndex [] sinkers h before = λ id j. (
  λ found. elim (index_sinkers-back 0 sinkers [] id j found) [
    | inl missing ↦ cc
    | inr (k, e, at') ↦ let same : j ≡ k = omega (arith, e) in rw same at'
  ],
  λ at.
      let from_0 : 0 + j ≡ j = omega arith in
      index_sinkers-there 0 sinkers [] id j h at ∙ ap some from_0,
)
known_sinkers-IsIndex (e ∷ m) sinkers h (inl empty) = cc
known_sinkers-IsIndex (e ∷ m) sinkers h (inr right) = right

-- whether the first slot is on the node, or there is none
unfoldable pub is_on : Map ℕ Text → List ℕ → Text → Bool
is_on slot_node_map [] id = true
is_on slot_node_map (slot ∷ slots) id = lookup slot slot_node_map ≟ some id

found_at :
    (m : Map Text ℕ) (sinkers : List Text) (j : ℕ) (id node : Text)
    → IsIndex sinkers m
    → get_elem? sinkers j ≡ some id
    → finds (unwrap (lookup node m)) j ≡ (node ≟ id)
found_at m sinkers j id node right at = elim (Bool-cases (node ≟ id)) [
  | inl same ↦
      let there : lookup node m ≡ some j =
        ap (λ n. lookup n m) ((list_eq.beq_iff node id).0 same) ∙ (right id j).1 at in
      rw (same, there) ((==_iff j j).1 refl)
  | inr other ↦ rw other (elim (Option-cases (lookup node m)) [
    | inl missing ↦ rw missing refl
    | inr (k, there) ↦ rw there (elim (Bool-cases (k == j)) [
      | inl hit ↦
          let its : get_elem? sinkers j ≡ some node =
            (right node j).0 (there ∙ ap some ((==_iff k j).0 hit)) in
          let equal : (node ≟ id) ≡ true = (list_eq.beq_iff node id).1 (some_inj (sym its ∙ at)) in
          cc
      | inr miss ↦ miss
    ])
  ])
]

is_for-is_on :
    (slot_node_map : Map ℕ Text) (m : Map Text ℕ) (sinkers : List Text) (slots : List ℕ) (j : ℕ)
    (id : Text)
    → IsIndex sinkers m
    → get_elem? sinkers j ≡ some id
    → is_for slot_node_map m slots j ≡ is_on slot_node_map slots id
unfolding is_for is_on sinker_of
is_for-is_on slot_node_map m sinkers [] j id right at = refl
is_for-is_on slot_node_map m sinkers (slot ∷ slots) j id right at =
    elim (Option-cases (lookup slot slot_node_map)) [
      | inl missing ↦ rw missing refl
      | inr (node, on) ↦ rw on (found_at m sinkers j id node right at)
    ]

chosen :
    (r : Result (List ℕ × DtItem)) (f g : List ℕ → Bool) (rest rest' : List DtItem)
    → ((slots : List ℕ) → f slots ≡ g slots)
    → rest ≡ rest'
    → ◌≡◌ {A = List DtItem}
        (elim r [ err e ↦ rest | ok (slots, item) ↦ if f slots then item ∷ rest else rest ])
        (elim r [ err e ↦ rest' | ok (slots, item) ↦ if g slots then item ∷ rest' else rest' ])
chosen (err e) f g rest rest' same same_rest = same_rest
chosen (ok (slots, item)) f g rest rest' same same_rest =
    ap₂ (λ (b : Bool) (l : List DtItem). if b then item ∷ l else l) (same slots) same_rest

module _ (to_uppercase from_utf8_lossy : Text → Text) (p : RedisParallelizer) where
  -- the items for the node with this id, each with the keys that its command was given, in order
  unfoldable pub items_on : Text → List DtItem → List DtItem
  items_on id [] = []
  items_on id (item ∷ items) =
      let rest = items_on id items in
      elim (slots_of to_uppercase from_utf8_lossy p.key_parser item) [
        | err e ↦ rest
        | ok (slots, item') ↦ if is_on p.slot_node_map slots id then item' ∷ rest else rest
      ]

  pub items_for-items_on :
      (m : Map Text ℕ) (sinkers : List Text)
      → IsIndex sinkers m
      → (j : ℕ) (id : Text) → get_elem? sinkers j ≡ some id
      → (items : List DtItem)
      → items_for to_uppercase from_utf8_lossy p m j items ≡ items_on id items
  unfolding items_for items_on
  items_for-items_on m sinkers right j id at [] = refl
  items_for-items_on m sinkers right j id at (item ∷ items) =
      chosen (slots_of to_uppercase from_utf8_lossy p.key_parser item)
        (λ slots. is_for p.slot_node_map m slots j) (λ slots. is_on p.slot_node_map slots id) _ _
        (λ slots. is_for-is_on p.slot_node_map m sinkers slots j id right at)
        (items_for-items_on m sinkers right j id at items)
