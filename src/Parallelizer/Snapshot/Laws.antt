-- ===== src/Parallelizer/Snapshot/Laws.antt =====
-- Cutting a batch into pieces.
use native.Mathlib.Nat.{div-add-mod', mod-lt}
use cubetran_core.Prelude.{
  All, All-append, Bool-cases, List, [], ap, append-nil, append_assoc, arith, concat, concat-append,
  inl, inr, leb, length, length-append, length-replicate, list_eq, max, nat_eq, ok, option_eq,
  pair_eq, refl, replicate, subst, suc, sym, true, zero, ℕ, ◌*◌, ◌++◌, ◌+◌, ◌/◌, ◌<◌, ◌∙◌, ◌∷◌, ◌≡◌,
  ◌≤◌,
}
use cubetran_core.Parallelizer.Snapshot.{fill, partition, push_at}

capacity : (len n : ℕ) → 0 < n → len < (len / n + 1) * n
capacity len n h = omega (arith, div-add-mod' len n, mod-lt len h)

concat-replicate {ℓ} : (A : Type ℓ) (k : ℕ) → concat {A = A} (replicate k []) ≡ []
concat-replicate A zero = refl
concat-replicate A (suc k) = concat-replicate A k

All-replicate {ℓ} :
    (A : Type ℓ) (avg_size k : ℕ) → All (λ (sub : List A). length sub ≤ avg_size) (replicate k [])
All-replicate A avg_size zero = tt
All-replicate A avg_size (suc k) = (omega arith, All-replicate A avg_size k)

module _ {ℓ} {A : Type ℓ} where
  push_at-middle :
      (full : List (List A)) (cur : List A) (rest : List (List A)) (item : A)
      → push_at (length full) item (full ++ cur ∷ rest)
        ≡ ok (full ++ (cur ++ item ∷ []) ∷ rest, length cur + 1)
  unfolding push_at
  push_at-middle [] cur rest item = refl
  push_at-middle (x ∷ full) cur rest item = rw (push_at-middle full cur rest item)

  -- What is promised of the pieces.
  pub record AreCut (avg_size : ℕ) (items : List A) (subs : List (List A)) : Type ℓ where
    pub whole : concat subs ≡ items
    pub bounded : All (λ sub. length sub ≤ avg_size) subs

  concat-middle :
      (full : List (List A)) (cur : List A) (k : ℕ)
      → concat (full ++ cur ∷ replicate k []) ≡ concat full ++ cur
  concat-middle full cur k =
      concat-append full (cur ∷ replicate k [])
      ∙ ap (λ xs. concat full ++ (cur ++ xs)) (concat-replicate A k)
      ∙ ap (λ xs. concat full ++ xs) (append-nil cur)

  abbrev Filled : ℕ → List A → List (List A) → List A → ℕ → Type ℓ
  Filled avg_size items full cur k =
      (subs : List (List A)) × (fill avg_size (length full) items (full ++ cur ∷ replicate k [])
        ≡ ok subs)
      × AreCut avg_size (concat full ++ (cur ++ items)) subs
      × (length subs ≡ length full + 1 + k)

  -- The piece is full with this item: the next piece is begun.
  filled :
      (avg_size : ℕ) (item : A) (items : List A) (full : List (List A)) (cur : List A) (k : ℕ)
      → All (λ (sub : List A). length sub ≤ avg_size) full
      → length cur < avg_size
      → length (item ∷ items) + length cur < avg_size * suc k
      → leb avg_size (length cur + 1) ≡ true
      → ((full : List (List A)) (cur : List A) (k : ℕ)
          → All (λ (sub : List A). length sub ≤ avg_size) full
          → length cur < avg_size
          → length items + length cur < avg_size * suc k
          → Filled avg_size items full cur k)
      → Filled avg_size (item ∷ items) full cur k
  unfolding fill
  filled avg_size item items full cur zero d c room done next = absurd (ground arith)
  filled avg_size item items full cur (suc k) d c room done next =
      let piece = cur ++ item ∷ [] in
      let (subs, returns, cut, count) =
        next (full ++ piece ∷ []) [] k
          (All-append (λ (sub : List A). length sub ≤ avg_size) full (piece ∷ []) d
            (omega (arith, length-append cur (item ∷ [])), tt))
          (omega arith) (ground arith) in
      (
        subs,
        rw (push_at-middle full cur (replicate (suc k) []) item, done)
            (ap (λ n. fill avg_size n items (full ++ piece ∷ [] ∷ replicate k []))
                (sym (length-append full (piece ∷ [])))
              ∙ ap (λ l. fill avg_size (length (full ++ piece ∷ [])) items l)
                  (sym (append_assoc full (piece ∷ []) ([] ∷ replicate k [])))
              ∙ returns),
        subst (λ xs. AreCut avg_size xs subs) (simp (concat-append, append_assoc, append-nil)) cut,
        omega (arith, length-append full (piece ∷ [])),
      )

  -- `full` are the pieces that are filled, `cur` is being filled, and `k` are still empty.
  fill-AreCut :
      (avg_size : ℕ) (items : List A) (full : List (List A)) (cur : List A) (k : ℕ)
      → All (λ (sub : List A). length sub ≤ avg_size) full
      → length cur < avg_size
      → length items + length cur < avg_size * suc k
      → (subs : List (List A)) × (fill avg_size (length full) items (full ++ cur ∷ replicate k [])
          ≡ ok subs)
        × AreCut avg_size (concat full ++ (cur ++ items)) subs
        × (length subs ≡ length full + 1 + k)
  unfolding fill
  fill-AreCut avg_size [] full cur k d c room = (
    _,
    refl,
    record {
      whole = concat-middle full cur k ∙ ap (λ xs. concat full ++ xs) (sym (append-nil cur));
      bounded =
          All-append (λ (sub : List A). length sub ≤ avg_size) full (cur ∷ replicate k []) d
            (omega arith, All-replicate A avg_size k);
    },
    omega (arith, length-append full (cur ∷ replicate k []), length-replicate {A = List A} k []),
  )
  fill-AreCut avg_size (item ∷ items) full cur k d c room =
      let added = length-append cur (item ∷ []) in
      elim (Bool-cases (leb avg_size (length cur + 1))) [
        | inr more ↦
            let (subs, returns, cut, count) =
              fill-AreCut avg_size items full (cur ++ item ∷ []) k d (ground (arith, added))
                (omega (arith, added)) in
            (
              subs,
              rw (push_at-middle full cur (replicate k []) item, more) returns,
              subst (λ xs. AreCut avg_size (concat full ++ xs) subs)
                  (append_assoc cur (item ∷ []) items) cut,
              count,
            )
        | inl done ↦
            filled avg_size item items full cur k d c room done (fill-AreCut avg_size items)
      ]

  -- Cutting a batch returns for every number of parallel sinkers: no index is out of range, the pieces
  -- in their order are the batch, there is a piece for each sinker (one if there is at most one), and
  -- with several sinkers no piece is longer than the average size.
  pub partition_lem :
      (items : List A) (parallel_size : ℕ)
      → (subs : List (List A)) × (partition items parallel_size ≡ ok subs)
        × (concat subs ≡ items)
        × (length subs ≡ max 1 parallel_size)
        × (1 < parallel_size → All (λ sub. length sub ≤ length items / parallel_size + 1) subs)
  unfolding partition
  partition_lem items zero =
      (items ∷ [], refl, append-nil items, refl, λ many. absurd (omega arith))
  partition_lem items (suc n) = elim (Bool-cases (leb (suc n) 1)) [
    | inl one ↦ (items ∷ [], rw one, append-nil items, ground arith, λ many. absurd (ground arith))
    | inr many ↦
        let avg_size = length items / suc n + 1 in
        let (subs, returns, cut, count) =
          fill-AreCut avg_size items [] [] n tt (omega arith)
            (omega (arith, capacity (length items) (suc n))) in
        (subs, rw many returns, cut.whole, omega arith, λ _. cut.bounded)
  ]
