-- ===== src/Parallelizer/Redis/Routing.antt =====
-- Which items of a batch each sinker of a redis cluster is given.
use cubetran_core.Prelude.{
  Bool, IfOk, List, Map, Result, Text, [], ap, append-nil, append_assoc, arith, bind-IfOk, err,
  err-IfOk, false, get_or, if-IfOk, if◌then◌else◌, length, list_eq, map-IfOk, nat_eq, ok, ok-IfOk,
  option_eq, pair_eq, panic, redis_cmd_error, refl, self-IfOk, suc, sym, true, zero, ℕ, ◌++◌, ◌<◌,
  ◌==◌, ◌>>=◌, ◌∙◌, ◌∷◌, ◌≡◌,
}
use cubetran_core.Meta.DtData.{DtItem}
use cubetran_core.Parallelizer.Redis.{
  RedisParallelizer, place, push_all, push_at, route_items, same_slots, sinker_of, slots_of,
}

module _ {ℓ} {A : Type ℓ} where
  -- Every list is as before, with `a` at its end if it is one of those that get it.
  Adds : A → (ℕ → Bool) → List (List A) → List (List A) → Type ℓ
  Adds a gets ds ds' =
      (length ds' ≡ length ds)
      × ((j : ℕ)
          → j < length ds
          → get_or ds' j [] ≡ get_or ds j [] ++ (if gets j then a ∷ [] else []))

  push_at-Adds :
      (i : ℕ) (a : A) (ds : List (List A)) → IfOk (Adds a (λ j. i == j) ds) (push_at i a ds)
  unfolding push_at Adds
  push_at-Adds i a [] = err-IfOk (Adds a (λ j. i == j) []) panic
  push_at-Adds zero a (d ∷ ds) = ok-IfOk (Adds a (λ j. 0 == j) (d ∷ ds)) _ (refl, at)
    where
      at :
          (j : ℕ)
          → j < suc (length ds)
          → get_or ((d ++ a ∷ []) ∷ ds) j []
            ≡ get_or (d ∷ ds) j [] ++ (if 0 == j then a ∷ [] else [])
      at zero lt = refl
      at (suc j) lt =
          let other : false ≡ (0 == suc j) = ground arith in
          sym (append-nil (get_or ds j []))
          ∙ ap (λ b. get_or ds j [] ++ (if b then a ∷ [] else [])) other
  push_at-Adds (suc i) a (d ∷ ds) =
      bind-IfOk (Adds a (λ j. i == j) ds) (Adds a (λ j. suc i == j) (d ∷ ds)) (push_at i a ds) _
        (push_at-Adds i a ds)
        λ ds' (len, same). ok-IfOk (Adds a (λ j. suc i == j) (d ∷ ds)) _ (ap suc len, at ds' same)
    where
      at :
          (ds' : List (List A))
          → ((j : ℕ)
              → j < length ds
              → get_or ds' j [] ≡ get_or ds j [] ++ (if i == j then a ∷ [] else []))
          → (j : ℕ) → j < suc (length ds)
          → get_or (d ∷ ds') j [] ≡ get_or (d ∷ ds) j [] ++ (if suc i == j then a ∷ [] else [])
      at ds' same zero lt =
          let other : false ≡ (suc i == 0) = ground arith in
          sym (append-nil d) ∙ ap (λ b. d ++ (if b then a ∷ [] else [])) other
      at ds' same (suc j) lt =
          same j (omega arith)
          ∙ ap (λ b. get_or ds j [] ++ (if b then a ∷ [] else [])) (ground arith)

  push_all-Adds : (a : A) (ds : List (List A)) → Adds a (λ j. true) ds (push_all a ds)
  unfolding push_all Adds
  push_all-Adds a [] = (refl, λ j lt. absurd (omega arith))
  push_all-Adds a (d ∷ ds) = let (len, same) = push_all-Adds a ds in (ap suc len, at same)
    where
      at :
          ((j : ℕ) → j < length ds → get_or (push_all a ds) j [] ≡ get_or ds j [] ++ a ∷ [])
          → (j : ℕ) → j < suc (length ds)
          → get_or ((d ++ a ∷ []) ∷ push_all a ds) j [] ≡ get_or (d ∷ ds) j [] ++ a ∷ []
      at same zero lt = refl
      at same (suc j) lt = same j (omega arith)

-- The items that are for sinker `j`: a slot's node has one sinker, and what has no slot is for all.
abbrev pub finds : Result ℕ → ℕ → Bool
finds (err e) j = false
finds (ok i) j = i == j

unfoldable pub is_for : Map ℕ Text → Map Text ℕ → List ℕ → ℕ → Bool
is_for slot_node_map index_map [] j = true
is_for slot_node_map index_map (slot ∷ slots) j = finds (sinker_of slot_node_map index_map slot) j

place-Adds :
    (slot_node_map : Map ℕ Text) (index_map : Map Text ℕ) (slots : List ℕ) (item : DtItem)
    (ds : List (List DtItem))
    → IfOk
        (Adds item (is_for slot_node_map index_map slots) ds)
        (place slot_node_map index_map slots item ds)
unfolding place is_for
place-Adds slot_node_map index_map [] item ds =
    ok-IfOk (Adds item (λ j. true) ds) _ (push_all-Adds item ds)
place-Adds slot_node_map index_map (slot ∷ slots) item ds =
    found (sinker_of slot_node_map index_map slot)
  where
    found : (r : Result ℕ) → IfOk (Adds item (finds r) ds) (r >>= λ i. push_at i item ds)
    found (err e) = err-IfOk (Adds item (λ j. false) ds) e
    found (ok i) = push_at-Adds i item ds

module _ (to_uppercase from_utf8_lossy : Text → Text) (p : RedisParallelizer)
    (index_map : Map Text ℕ) where
  -- the items for sinker `j`, each with the keys that its command was given, in order
  unfoldable pub items_for : ℕ → List DtItem → List DtItem
  items_for j [] = []
  items_for j (item ∷ items) =
      let rest = items_for j items in
      elim (slots_of to_uppercase from_utf8_lossy p.key_parser item) [
        | err e ↦ rest
        | ok (slots, item') ↦
            if is_for p.slot_node_map index_map slots j then item' ∷ rest else rest
      ]

  unfoldable pub Routed : List DtItem → List (List DtItem) → List (List DtItem) → Type 0
  Routed items ds ds' =
      (length ds' ≡ length ds)
      × ((j : ℕ) → j < length ds → get_or ds' j [] ≡ get_or ds j [] ++ items_for j items)

  step_Routed :
      (item item' : DtItem) (slots : List ℕ) (items : List DtItem)
      (ds ds' ds'' : List (List DtItem))
      → slots_of to_uppercase from_utf8_lossy p.key_parser item ≡ ok (slots, item')
      → Adds item' (is_for p.slot_node_map index_map slots) ds ds'
      → Routed items ds' ds''
      → Routed (item ∷ items) ds ds''
  unfolding Adds Routed
  step_Routed item item' slots items ds ds' ds'' e (len, adds) (len', routed) = (len' ∙ len, at)
    where
      split :
          (b : Bool) (rest : List DtItem)
          → (if b then item' ∷ [] else []) ++ rest ≡ (if b then item' ∷ rest else rest)
      split true rest = refl
      split false rest = refl

      here :
          (j : ℕ)
          → items_for j (item ∷ items) ≡ (
              if is_for p.slot_node_map index_map slots j
              then item' ∷ items_for j items
              else items_for j items)
      here j = unfold items_for in rw (e, items_for) refl

      at : (j : ℕ) → j < length ds → get_or ds'' j [] ≡ get_or ds j [] ++ items_for j (item ∷ items)
      at j lt =
          routed j (omega arith)
          ∙ ap (λ d. d ++ items_for j items) (adds j lt)
          ∙ append_assoc (get_or ds j [])
              (if is_for p.slot_node_map index_map slots j then item' ∷ [] else [])
              (items_for j items)
          ∙ ap (λ d. get_or ds j [] ++ d)
              (split ((is_for p.slot_node_map index_map slots j)) (items_for j items)
                ∙ sym (here j))

  pub route_items-Routed :
      (items : List DtItem) (ds : List (List DtItem))
      → IfOk (Routed items ds) (route_items to_uppercase from_utf8_lossy p index_map items ds)
  unfolding route_items Routed items_for
  route_items-Routed [] ds =
      ok-IfOk (Routed [] ds) ds (refl, λ j lt. sym (append-nil (get_or ds j [])))
  route_items-Routed (item ∷ items) ds =
      bind-IfOk (λ r. slots_of to_uppercase from_utf8_lossy p.key_parser item ≡ ok r)
        (Routed (item ∷ items) ds) (slots_of to_uppercase from_utf8_lossy p.key_parser item) _
        (self-IfOk (slots_of to_uppercase from_utf8_lossy p.key_parser item))
        λ (slots, item') e.
          bind-IfOk (Adds item' (is_for p.slot_node_map index_map slots) ds)
            (Routed (item ∷ items) ds)
            (if same_slots slots
              then place p.slot_node_map index_map slots item' ds
              else err redis_cmd_error)
            _
            (if-IfOk (Adds item' (is_for p.slot_node_map index_map slots) ds) (same_slots slots) _ _
              (place-Adds p.slot_node_map index_map slots item' ds)
              (err-IfOk (Adds item' (is_for p.slot_node_map index_map slots) ds) redis_cmd_error))
            λ ds' adds.
              map-IfOk (Routed items ds') (Routed (item ∷ items) ds)
                (route_items to_uppercase from_utf8_lossy p index_map items ds')
                (λ ds'' routed. step_Routed item item' slots items ds ds' ds'' e adds routed)
                (route_items-Routed items ds')
