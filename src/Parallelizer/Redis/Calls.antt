-- ===== src/Parallelizer/Redis/Calls.antt =====
-- What the sinkers of a redis cluster are called with.
use cubetran_core.Prelude.{
  IfOk, List, Map, Text, [], ap, ap₂, arith, bind-IfOk, false, from-IfOk, get_elem?, get_or, length,
  length-replicate, list_eq, map, nat_eq, ok, ok-IfOk, option_eq, pair_eq, refl, replicate, some,
  subst, suc, sym, zero, ℕ, ◌++◌, ◌+◌, ◌<◌, ◌∙◌, ◌∷◌, ◌≡◌, ◌≢◌, ◌⊎◌,
}
use cubetran_core.Meta.DtData.{DtItem}
use cubetran_core.Parallelizer.Redis.{
  RedisParallelizer, calls_from, known_sinkers, redis_sink_raw, route_items, sink_cluster,
  sink_single,
}
use cubetran_core.Parallelizer.Redis.Index.{
  AreDifferent, IsIndex, get_elem?-<, items_for-items_on, items_on, known_sinkers-IsIndex,
}
use cubetran_core.Parallelizer.Redis.Routing.{Routed, items_for, route_items-Routed}
use cubetran_core.Parallelizer.Sinks.{SinkCall}

unfoldable pub call_to : ℕ → List DtItem → SinkCall DtItem
call_to i node_data = record { sinker = i; sub_data = node_data; batch = false }

length-calls_from : (i : ℕ) (ds : List (List DtItem)) → length (calls_from i ds) ≡ length ds
unfolding calls_from
length-calls_from i [] = refl
length-calls_from i (d ∷ ds) = ap suc (length-calls_from (i + 1) ds)

calls_from_at :
    (i : ℕ) (ds : List (List DtItem)) (j : ℕ)
    → j < length ds
    → get_elem? (calls_from i ds) j ≡ some (call_to (i + j) (get_or ds j []))
unfolding calls_from call_to
calls_from_at i [] j lt = absurd (omega arith)
calls_from_at i (d ∷ ds) zero lt =
    let same : i ≡ i + 0 = omega arith in ap (λ k. some (call_to k d)) same
calls_from_at i (d ∷ ds) (suc j) lt =
    let same : i + 1 + j ≡ i + suc j = omega arith in
    calls_from_at (i + 1) ds j (omega arith) ∙ ap (λ k. some (call_to k (get_or ds j []))) same

get_or-replicate : (n j : ℕ) → get_or {A = List DtItem} (replicate n []) j [] ≡ []
get_or-replicate zero j = refl
get_or-replicate (suc n) zero = refl
get_or-replicate (suc n) (suc j) = get_or-replicate n j

module _ (to_uppercase from_utf8_lossy : Text → Text) (p : RedisParallelizer) where
  unfoldable pub Called :
      List DtItem → List Text → RedisParallelizer × List (SinkCall DtItem) → Type 0
  Called items sinkers (p', calls) =
      (length calls ≡ length sinkers)
      × (p'.node_sinker_index_map ≡ known_sinkers p.node_sinker_index_map sinkers)
      × ((j : ℕ)
          → j < length sinkers
          → get_elem? calls j
            ≡ some (
                call_to j
                  (items_for to_uppercase from_utf8_lossy p p'.node_sinker_index_map j items)))

  calls_from-Called :
      (items : List DtItem) (sinkers : List Text) (index_map : Map Text ℕ) (ds : List (List DtItem))
      → index_map ≡ known_sinkers p.node_sinker_index_map sinkers
      → Routed to_uppercase from_utf8_lossy p index_map items (replicate (length sinkers) []) ds
      → Called items sinkers (record p { node_sinker_index_map = index_map }, calls_from 0 ds)
  unfolding Called Routed
  calls_from-Called items sinkers index_map ds known (len, routed) =
      let size : length ds ≡ length sinkers = len ∙ length-replicate (length sinkers) [] in
      (
        length-calls_from 0 ds ∙ size,
        known,
        λ j lt.
            calls_from_at 0 ds j (omega arith)
            ∙ ap₂ (λ k d. some (call_to k d)) (omega arith)
                (routed j (omega (arith, len))
                  ∙ ap (λ d. d ++ items_for to_uppercase from_utf8_lossy p index_map j items)
                      (get_or-replicate (length sinkers) j)),
      )

  sink_cluster-Called :
      (items : List DtItem) (sinkers : List Text)
      → IfOk (Called items sinkers) (sink_cluster to_uppercase from_utf8_lossy p items sinkers)
  unfolding Called Routed
  sink_cluster-Called items sinkers =
      let empty = replicate (length sinkers) [] in
      let index_map = known_sinkers p.node_sinker_index_map sinkers in
      bind-IfOk (Routed to_uppercase from_utf8_lossy p index_map items empty) (Called items sinkers)
        (route_items to_uppercase from_utf8_lossy p index_map items empty) _
        (route_items-Routed to_uppercase from_utf8_lossy p index_map items empty)
        λ ds routed.
          ok-IfOk (Called items sinkers) _
            (calls_from-Called items sinkers index_map ds refl routed)

  cluster-Called :
      (m : Map ℕ Text) (items : List DtItem) (sinkers : List Text)
      → m ≢ []
      → IfOk (Called items sinkers) (elim m [
        | [] ↦ sink_single to_uppercase from_utf8_lossy p items sinkers
        | _ ↦ sink_cluster to_uppercase from_utf8_lossy p items sinkers
      ])
  cluster-Called [] items sinkers full = absurd (full refl)
  cluster-Called (e ∷ m) items sinkers full = sink_cluster-Called items sinkers

  -- When a batch is sunk to a cluster, by sinkers with different ids, and no batch has been sunk before
  -- or the map from the ids to the sinkers' indexes is right, each sinker is called once: it is given,
  -- in the order of the batch, the items whose first key's slot is on the node with the sinker's id,
  -- and the items that have no key, which every sinker is given. Afterwards the map is right: it has
  -- an index for an id exactly if the sinker with that index has that id.
  pub redis_sink_raw-calls :
      (items : List DtItem) (sinkers : List Text) (p' : RedisParallelizer)
      (calls : List (SinkCall DtItem))
      → p.slot_node_map ≢ []
      → AreDifferent sinkers
      → (p.node_sinker_index_map ≡ []) ⊎ IsIndex sinkers p.node_sinker_index_map
      → redis_sink_raw to_uppercase from_utf8_lossy p items sinkers ≡ ok (p', calls)
      → (length calls ≡ length sinkers)
        × IsIndex sinkers p'.node_sinker_index_map
        × ((j : ℕ) (id : Text)
            → get_elem? sinkers j ≡ some id
            → get_elem? calls j
              ≡ some (call_to j (items_on to_uppercase from_utf8_lossy p id items)))
  unfolding redis_sink_raw Called
  redis_sink_raw-calls items sinkers p' calls full different before e =
      let (len, map, at) =
        from-IfOk (Called items sinkers)
          (redis_sink_raw to_uppercase from_utf8_lossy p items sinkers) e
          (cluster-Called p.slot_node_map items sinkers full) in
      let right : IsIndex sinkers p'.node_sinker_index_map =
        subst (IsIndex sinkers) (sym map)
          (known_sinkers-IsIndex p.node_sinker_index_map sinkers different before) in
      (
        len,
        right,
        λ j id found.
            at j (get_elem?-< sinkers j id found)
            ∙ ap (λ given. some (call_to j given))
                (items_for-items_on to_uppercase from_utf8_lossy p p'.node_sinker_index_map sinkers
                  right j id found items),
      )
