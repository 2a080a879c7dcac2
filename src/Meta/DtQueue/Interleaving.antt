-- ===== src/Meta/DtQueue/Interleaving.antt =====
-- dt-common/src/meta/dt_queue.rs with calls that overlap: each atomic operation of `push` and `pop`
-- is a step, where the queue has a limit on its bytes. An item to be pushed is `roomy` when `is_full`
-- was false, `allowed` when the bytes that were loaded did not exceed the limit, and `announced` between
-- `fetch_add` and `ConcurrentQueue::push`, which is an error on a queue that has become full: then the
-- item is `refused`. A turn of a loop that waits changes nothing and is no step. Between
-- `ConcurrentQueue::pop` and the update of `cur_bytes` an item is `taken`, then `resetting` (the popper
-- saw the queue empty) or `settling`.
use cubetran_core.Prelude.{
  +ℤ_parts, -ℤ_parts, List, [], ap, arith, false, length, list_eq, ltb_ℤ, nat_eq, neg_part,
  option_eq, pair_eq, pos, pos_part, refl, true, ℕ, ℤ, ◌++◌, ◌+ℤ◌, ◌+◌, ◌-ℤ◌, ◌<◌, ◌∷◌, ◌≡◌, ◌≤◌,
}
use cubetran_core.Meta.DtData.{DtItem}
use cubetran_core.Meta.DtQueue.{bytes, is_empty, item_size}
use cubetran_core.Meta.DtQueue.Sequential.{bytes-append, bytes-snoc}

pub record Shared : Type 0 where
  pub queue : List DtItem
  pub cur_bytes : ℤ
  pub roomy : List DtItem
  pub allowed : List DtItem
  pub announced : List DtItem
  pub refused : List DtItem
  pub taken : List DtItem
  pub resetting : List DtItem
  pub settling : List DtItem

unfoldable pub start : Shared
start = record {
  queue = [];
  cur_bytes = pos 0;
  roomy = [];
  allowed = [];
  announced = [];
  refused = [];
  taken = [];
  resetting = [];
  settling = [];
}

module _ (capacity : ℕ) (max_bytes : ℤ) where
  -- One atomic operation, from `s` to `t`.
  pub data Step (s t : Shared) : Type 0 where
    see_room :
        (item : DtItem)
        → length s.queue < capacity
        → t ≡ record s { roomy = item ∷ s.roomy }
        → Step s t
    load_bytes :
        (xs ys : List DtItem) (item : DtItem)
        → s.roomy ≡ xs ++ item ∷ ys
        → ltb_ℤ max_bytes s.cur_bytes ≡ false
        → t ≡ record s { roomy = xs ++ ys; allowed = item ∷ s.allowed }
        → Step s t
    announce :
        (xs ys : List DtItem) (item : DtItem)
        → s.allowed ≡ xs ++ item ∷ ys
        → t ≡ record s {
          cur_bytes = s.cur_bytes +ℤ pos (item_size item);
          allowed = xs ++ ys;
          announced = item ∷ s.announced;
        }
        → Step s t
    enqueue :
        (xs ys : List DtItem) (item : DtItem)
        → s.announced ≡ xs ++ item ∷ ys
        → length s.queue < capacity
        → t ≡ record s { queue = s.queue ++ item ∷ []; announced = xs ++ ys }
        → Step s t
    refuse :
        (xs ys : List DtItem) (item : DtItem)
        → s.announced ≡ xs ++ item ∷ ys
        → capacity ≤ length s.queue
        → t ≡ record s { announced = xs ++ ys; refused = item ∷ s.refused }
        → Step s t
    take :
        (item : DtItem) (rest : List DtItem)
        → s.queue ≡ item ∷ rest
        → t ≡ record s { queue = rest; taken = item ∷ s.taken }
        → Step s t
    see_empty :
        (xs ys : List DtItem) (item : DtItem)
        → s.taken ≡ xs ++ item ∷ ys
        → is_empty s.queue ≡ true
        → t ≡ record s { taken = xs ++ ys; resetting = item ∷ s.resetting }
        → Step s t
    see_more :
        (xs ys : List DtItem) (item : DtItem)
        → s.taken ≡ xs ++ item ∷ ys
        → is_empty s.queue ≡ false
        → t ≡ record s { taken = xs ++ ys; settling = item ∷ s.settling }
        → Step s t
    reset :
        (item : DtItem) (rest : List DtItem)
        → s.resetting ≡ item ∷ rest
        → t ≡ record s { cur_bytes = pos 0; resetting = rest }
        → Step s t
    subtract :
        (xs ys : List DtItem) (item : DtItem)
        → s.settling ≡ xs ++ item ∷ ys
        → t ≡ record s { cur_bytes = s.cur_bytes -ℤ pos (item_size item); settling = xs ++ ys }
        → Step s t

  pub data Reach (s : Shared) : Shared → Type 0 where
    here : Reach s s
    next : {t u : Shared} → Reach s t → Step t u → Reach s u

-- the bytes of every item that the queue holds or that a call has counted and not yet given back
pub in_flight : Shared → ℕ
in_flight s =
    bytes s.queue + bytes s.announced + bytes s.taken + bytes s.resetting + bytes s.settling

abbrev pub IsCovered : Shared → Type 0
IsCovered s = pos_part s.cur_bytes ≤ in_flight s + bytes s.refused + neg_part s.cur_bytes

bytes-pick :
    (xs ys : List DtItem) (item : DtItem)
    → bytes (xs ++ item ∷ ys) ≡ item_size item + bytes (xs ++ ys)
unfolding bytes
bytes-pick xs ys item = omega (arith, bytes-append xs (item ∷ ys), bytes-append xs ys)

module _ (capacity : ℕ) (max_bytes : ℤ) where
  Step-IsCovered : {s t : Shared} → Step capacity max_bytes s t → IsCovered s → IsCovered t
  unfolding in_flight bytes
  Step-IsCovered {s} (see_room item g e) c = rw e c
  Step-IsCovered {s} (load_bytes xs ys item p g e) c = rw e c
  Step-IsCovered {s} (refuse xs ys item p g e) c =
      rw e (omega (arith, ap bytes p, bytes-pick xs ys item))
  Step-IsCovered {s} (announce xs ys item p e) c =
      rw e (omega (arith, +ℤ_parts s.cur_bytes (pos (item_size item))))
  Step-IsCovered {s} (enqueue xs ys item p g e) c =
      rw e (omega (arith, ap bytes p, bytes-pick xs ys item, bytes-snoc s.queue item))
  Step-IsCovered {s} (take item rest p e) c = rw e (omega (arith, ap bytes p))
  Step-IsCovered {s} (see_empty xs ys item p g e) c =
      rw e (omega (arith, ap bytes p, bytes-pick xs ys item))
  Step-IsCovered {s} (see_more xs ys item p g e) c =
      rw e (omega (arith, ap bytes p, bytes-pick xs ys item))
  Step-IsCovered {s} (reset item rest p e) c = rw e (omega (arith, ap bytes p))
  Step-IsCovered {s} (subtract xs ys item p e) c = rw e (
      omega (arith, ap bytes p, bytes-pick xs ys item, -ℤ_parts s.cur_bytes (pos (item_size item))))

  -- However pushes and pops overlap, and whichever pushes fail on a queue that has become full, the byte
  -- count never exceeds the bytes of the items that are in the queue, that a call has in its hands,
  -- or whose push has failed.
  pub Reach-IsCovered : {t : Shared} → Reach capacity max_bytes start t → IsCovered t
  unfolding start
  Reach-IsCovered here = omega arith
  Reach-IsCovered (next r s) = Step-IsCovered s (Reach-IsCovered r)

  -- When the capacity is not 0 and the limit is neither negative nor below the bytes of `b`, overlapping
  -- calls can reach a state in which the queue holds the item `a`, no push and no subtraction is
  -- under way, and the byte count is 0.
  pub count_lost :
      (a b : DtItem)
      → 0 < capacity
      → ltb_ℤ max_bytes (pos (item_size b)) ≡ false
      → ltb_ℤ max_bytes (pos 0) ≡ false
      → (t : Shared) × Reach capacity max_bytes start t
        × (t.queue ≡ a ∷ [])
        × (t.cur_bytes ≡ pos 0)
        × (t.roomy ≡ [])
        × (t.allowed ≡ [])
        × (t.announced ≡ [])
        × (t.settling ≡ [])
  unfolding start is_empty ◌+ℤ◌
  count_lost a b room small idle =
      let a₁ = next here (see_room a room refl) in
      let b₁ = next a₁ (see_room b room refl) in
      let b₂ = next b₁ (load_bytes [] (a ∷ []) b refl idle refl) in
      let b₃ = next b₂ (announce [] [] b refl refl) in
      let b₄ = next b₃ (enqueue [] [] b refl room refl) in
      let a₂ = next b₄ (load_bytes [] [] a refl (ground arith) refl) in
      let a₃ = next a₂ (announce [] [] a refl refl) in
      let b₅ = next a₃ (take b [] refl refl) in
      let b₆ = next b₅ (see_empty [] [] b refl refl refl) in
      let b₇ = next b₆ (reset b [] refl refl) in
      (_, next b₇ (enqueue [] [] a refl room refl), refl, refl, refl, refl, refl, refl)
