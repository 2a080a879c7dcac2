-- ===== src/Parallelizer/Redis/Refused.antt =====
-- When nothing is sunk to a redis cluster.
use cubetran_core.Prelude.{
  ==_iff, All, All-middle, Bool, Error, IfOk, List, Map, Result, Text, [], all, and-true, ap,
  bind-IfOk, err, err-IfOk, false, from-IfOk, get_elem?, if◌then◌else◌, length, list_eq, map,
  map-IfOk, nat_eq, ok, ok-IfOk, ok_inj, option_eq, pair_eq, redis_cmd_error, refl, replicate,
  self-IfOk, some, some_inj, subst, suc, sym, true, zero, ℕ, ◌++◌, ◌==◌, ◌∙◌, ◌∷◌, ◌≡◌, ◌≢◌,
}
use cubetran_core.Meta.DtData.{DtData, DtItem, RedisEntry}
use cubetran_core.Redis.Encoder.{RedisCmd}
use cubetran_core.Redis.KeyParser.{KeyParser, calc_slot}
use cubetran_core.Parallelizer.Redis.{
  RedisParallelizer, cal_slots, known_sinkers, place, redis_sink_raw, route_items, same_slots,
  sink_cluster, sink_single, slots_of, with_keys,
}
use cubetran_core.Parallelizer.Sinks.{SinkCall}

map_at :
    (keys : List Text) (i : ℕ) (key : Text)
    → get_elem? keys i ≡ some key
    → get_elem? (map calc_slot keys) i ≡ some (calc_slot key)
map_at [] i key h = cc
map_at (k ∷ keys) zero key h = rw (some_inj h) refl
map_at (k ∷ keys) (suc i) key h = map_at keys i key h

all_at :
    (slot : ℕ) (slots : List ℕ) (i s : ℕ)
    → all (λ x. x == slot) slots ≡ true
    → get_elem? slots i ≡ some s
    → s ≡ slot
all_at slot [] i s h at = cc
all_at slot (x ∷ slots) zero s h at =
    sym (some_inj at) ∙ (==_iff x slot).0 (and-true (x == slot) _ h).0
all_at slot (x ∷ slots) (suc i) s h at = all_at slot slots i s (and-true (x == slot) _ h).1 at

-- the slots that are the same are equal
same_slots_at :
    (slots : List ℕ) (i j a b : ℕ)
    → same_slots slots ≡ true
    → get_elem? slots i ≡ some a
    → get_elem? slots j ≡ some b
    → a ≡ b
unfolding same_slots
same_slots_at [] i j a b h at_i at_j = cc
same_slots_at (x ∷ slots) i j a b h at_i at_j = first i a at_i ∙ sym (first j b at_j)
  where
    first : (i s : ℕ) → get_elem? (x ∷ slots) i ≡ some s → s ≡ x
    first zero s at = sym (some_inj at)
    first (suc i) s at = all_at x slots i s h at

slots_of_entry :
    (to_uppercase from_utf8_lossy : Text → Text) (parser : KeyParser) (item : DtItem)
    (entry : RedisEntry) (cmd : RedisCmd)
    → item.dt_data ≡ DtData.redis entry
    → entry.is_base ≡ false
    → with_keys to_uppercase from_utf8_lossy parser entry.cmd entry.cmd.keys ≡ ok cmd
    → slots_of to_uppercase from_utf8_lossy parser item
      ≡ ok (
        map calc_slot cmd.keys,
        record item { dt_data = DtData.redis (record entry { cmd = cmd }) },
      )
unfolding slots_of cal_slots
slots_of_entry to_uppercase from_utf8_lossy parser item entry cmd is_entry is_cmd keys =
    rw (is_entry, is_cmd, keys) refl

module _ (to_uppercase from_utf8_lossy : Text → Text) (p : RedisParallelizer) where
  -- Every key of the item is in one slot, that of its first key.
  unfoldable pub OneSlot : DtItem → Type 0
  OneSlot item =
      (slots : List ℕ) (item' : DtItem)
      → slots_of to_uppercase from_utf8_lossy p.key_parser item ≡ ok (slots, item')
      → same_slots slots ≡ true

  route_items-OneSlot :
      (index_map : Map Text ℕ) (items : List DtItem) (ds : List (List DtItem))
      → IfOk
          (λ _. All OneSlot items)
          (route_items to_uppercase from_utf8_lossy p index_map items ds)
  unfolding route_items
  route_items-OneSlot index_map [] ds = ok-IfOk (λ _. All OneSlot []) ds tt
  route_items-OneSlot index_map (item ∷ items) ds =
      bind-IfOk (λ r. slots_of to_uppercase from_utf8_lossy p.key_parser item ≡ ok r)
        (λ _. All OneSlot (item ∷ items)) (slots_of to_uppercase from_utf8_lossy p.key_parser item)
        _ (self-IfOk (slots_of to_uppercase from_utf8_lossy p.key_parser item))
        λ (slots, item') e.
          bind-IfOk (λ _. same_slots slots ≡ true) (λ _. All OneSlot (item ∷ items))
            (if same_slots slots
              then place p.slot_node_map index_map slots item' ds
              else err redis_cmd_error)
            _ (tested (same_slots slots) (place p.slot_node_map index_map slots item' ds))
            λ ds' same.
              map-IfOk (λ _. All OneSlot items) (λ _. All OneSlot (item ∷ items))
                (route_items to_uppercase from_utf8_lossy p index_map items ds')
                (λ _ rest. (one slots item' e same, rest)) (route_items-OneSlot index_map items ds')
    where
      tested :
          (b : Bool) (m : Result (List (List DtItem)))
          → IfOk (λ _. b ≡ true) (if b then m else err redis_cmd_error)
      tested true (err e) = err-IfOk (λ _. true ≡ true) e
      tested true (ok a) = ok-IfOk (λ _. true ≡ true) a refl
      tested false m = err-IfOk (λ _. false ≡ true) redis_cmd_error

      one :
          (slots : List ℕ) (item' : DtItem)
          → slots_of to_uppercase from_utf8_lossy p.key_parser item ≡ ok (slots, item')
          → same_slots slots ≡ true
          → OneSlot item
      one slots item' e same =
          unfold OneSlot in
          λ slots' item'' e'.
            subst (λ s. same_slots s ≡ true)
              (ap (λ (r : List ℕ × DtItem). r.0) (ok_inj (sym e ∙ e'))) same

  pub cluster-OneSlot :
      (m : Map ℕ Text) (items : List DtItem) (sinkers : List Text)
      → m ≢ []
      → IfOk
          (λ _. All OneSlot items)
          (elim m [
            | [] ↦ sink_single to_uppercase from_utf8_lossy p items sinkers
            | _ ↦ sink_cluster to_uppercase from_utf8_lossy p items sinkers
          ])
  cluster-OneSlot [] items sinkers full = absurd (full refl)
  cluster-OneSlot (e ∷ m) items sinkers full =
      let index_map = known_sinkers p.node_sinker_index_map sinkers in
      let empty = replicate (length sinkers) [] in
      bind-IfOk (λ _. All OneSlot items) (λ _. All OneSlot items)
        (route_items to_uppercase from_utf8_lossy p index_map items empty) _
        (route_items-OneSlot index_map items empty) λ ds one. ok-IfOk (λ _. All OneSlot items) _ one

  -- A batch for a cluster that holds a command two of whose keys have different slots is an error, and
  -- no sinker is called, whatever the rest of the batch is. The keys are those that the command came
  -- with, or those that are found in it.
  pub redis_sink_raw_slots :
      (front back : List DtItem) (item : DtItem) (entry : RedisEntry) (cmd : RedisCmd) (i j : ℕ)
      (a b : Text) (sinkers : List Text)
      → p.slot_node_map ≢ []
      → item.dt_data ≡ DtData.redis entry
      → entry.is_base ≡ false
      → with_keys to_uppercase from_utf8_lossy p.key_parser entry.cmd entry.cmd.keys ≡ ok cmd
      → get_elem? cmd.keys i ≡ some a
      → get_elem? cmd.keys j ≡ some b
      → calc_slot a ≢ calc_slot b
      → (e : Error) × (redis_sink_raw to_uppercase from_utf8_lossy p (front ++ item ∷ back) sinkers
          ≡ err e)
  unfolding redis_sink_raw
  redis_sink_raw_slots front back item entry cmd i j a b sinkers full is_entry is_cmd keys at_i at_j
        different =
      refused (redis_sink_raw to_uppercase from_utf8_lossy p (front ++ item ∷ back) sinkers)
        (cluster-OneSlot p.slot_node_map (front ++ item ∷ back) sinkers full)
    where
      one_slot : OneSlot item → calc_slot a ≡ calc_slot b
      one_slot one =
          unfold OneSlot in
          same_slots_at (map calc_slot cmd.keys) i j (calc_slot a) (calc_slot b)
            (one _ _ (
              slots_of_entry to_uppercase from_utf8_lossy p.key_parser item entry cmd is_entry
                is_cmd keys))
            (map_at cmd.keys i a at_i) (map_at cmd.keys j b at_j)

      refused :
          (m : Result (RedisParallelizer × List (SinkCall DtItem)))
          → IfOk (λ _. All OneSlot (front ++ item ∷ back)) m
          → (e : Error) × (m ≡ err e)
      refused (err x) h = (x, refl)
      refused (ok a) h =
          let one =
            All-middle OneSlot item front back
              (from-IfOk (λ _. All OneSlot (front ++ item ∷ back)) (ok a) refl h) in
          absurd (different (one_slot one))
