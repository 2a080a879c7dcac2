-- ===== src/Meta/DtQueue/Sequential.antt =====
-- The queue under calls made one at a time: it is a bounded FIFO, and its byte count is exact.
use cubetran_core.Prelude.{
  List, [], ap, arith, false, length, length-append, list_eq, ltb_ℤ, nat_eq, none, pair_eq, pos,
  refl, some, true, ℕ, ℤ, ◌++◌, ◌+◌, ◌∷◌, ◌≡◌, ◌≤◌,
}
use cubetran_core.Meta.DtData.{DtItem}
use cubetran_core.Meta.DtQueue.{DtQueue, bytes, item_size, new, pop, pop_from, push}

pub record IsValid (q : DtQueue) : Type 0 where
  pub bounded : length q.items ≤ q.capacity
  pub exact : q.check_memory ≡ true → q.cur_bytes ≡ pos (bytes q.items)

pub new-IsValid : (capacity : ℕ) (max_bytes : ℤ) → IsValid (new capacity max_bytes)
unfolding new bytes
new-IsValid capacity max_bytes = record { bounded = omega arith; exact = λ _. refl }

pub bytes-append : (xs ys : List DtItem) → bytes (xs ++ ys) ≡ bytes xs + bytes ys
unfolding bytes
bytes-append [] ys = omega arith
bytes-append (x ∷ xs) ys = omega (arith, bytes-append xs ys)

pub bytes-snoc : (xs : List DtItem) (x : DtItem) → bytes (xs ++ x ∷ []) ≡ bytes xs + item_size x
unfolding bytes
bytes-snoc [] x = omega arith
bytes-snoc (y ∷ xs) x = omega (arith, bytes-snoc xs x)

-- A push that does not wait adds the item at the end and keeps the queue valid (within its
-- capacity, with an exact byte count). With a memory limit, the bytes that were in the queue before
-- did not exceed it.
pub push_lem :
    (q q' : DtQueue) (item : DtItem)
    → IsValid q
    → push q item ≡ some q'
    → IsValid q'
      × (q'.items ≡ q.items ++ item ∷ [])
      × (q.check_memory ≡ true → ltb_ℤ q.max_bytes (pos (bytes q.items)) ≡ false)
unfolding push
push_lem q q' item v h = (
  ground (arith, bytes-snoc q.items item, length-append q.items (item ∷ []), v.exact),
  ground arith,
  ground (arith, v.exact),
)

pop_from_lem :
    (q q' : DtQueue) (item : DtItem) (items : List DtItem)
    → q.items ≡ items
    → IsValid q
    → pop_from q items ≡ some (item, q')
    → IsValid q' × (items ≡ item ∷ q'.items)
unfolding pop bytes
pop_from_lem q q' item [] e v h = cc
pop_from_lem q q' item (x ∷ []) e v h = ground (arith, v.exact)
pop_from_lem q q' item (x ∷ y ∷ r) e v h =
    ground (arith, v.exact, ap bytes e, ap (length {A = DtItem}) e)

-- A pop returns the oldest item, leaves the others in their order, and keeps the queue valid.
pub pop_lem :
    (q q' : DtQueue) (item : DtItem)
    → IsValid q
    → pop q ≡ some (item, q')
    → IsValid q' × (q.items ≡ item ∷ q'.items)
unfolding pop
pop_lem q q' item v h = pop_from_lem q q' item q.items refl v h

pop_from-eq-none : (q : DtQueue) (items : List DtItem) → pop_from q items ≡ none → items ≡ []
unfolding pop
pop_from-eq-none q [] h = refl
pop_from-eq-none q (x ∷ r) h = cc

-- A pop fails only on an empty queue.
pub pop-eq-none : (q : DtQueue) → pop q ≡ none → q.items ≡ []
unfolding pop
pop-eq-none q h = pop_from-eq-none q q.items h
