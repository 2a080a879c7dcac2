-- ===== src/Parallelizer/Merger/Writes.antt =====
-- Writes to a table (a function from keys to rows), collected in a map from the key's hash. The
-- laws by which a later write of a key can be moved to the end, replace an earlier one, or cancel it.
use mathlib.Core.Bool.{false≢true}
use cubetran_core.Prelude.{
  ==_iff, All, Bool-cases, Eq, Map, Result, [], ap, arith, fun_ext, if◌then◌else◌, inl, inr, insert,
  list_eq, lookup, nat_eq, ok, option_eq, pair_eq, refl, remove, some, sym, ℕ, ◌==◌, ◌∙◌, ◌∷◌, ◌≟◌,
  ◌≡◌, ◌≢◌,
}

unfoldable pub write {ℓ} : {K V : Type ℓ} ⦃e : Eq K⦄ → K → V → (K → V) → K → V
write k v t j = if k ≟ j then v else t j

-- the writes of a drained map, in the map's order
unfoldable pub apply_writes {ℓ} : {K V : Type ℓ} ⦃e : Eq K⦄ → Map ℕ (K × V) → (K → V) → K → V
apply_writes [] t = t
apply_writes ((h, (k, v)) ∷ m) t = apply_writes m (write k v t)

-- no key occurs twice
abbrev pub Distinct {ℓ κ} : {K : Type ℓ} {A : Type κ} → Map K A → Type (ℓ ⊔ κ)
Distinct [] = Unit
Distinct ((h, a) ∷ m) = All (λ e. h ≢ e.0) m × Distinct m

module _ {ℓ} {K V : Type ℓ} ⦃e : Eq K⦄ where
  write_twice : (k : K) (v w : V) (t : K → V) → write k v (write k w t) ≡ write k v t
  unfolding write
  write_twice k v w t = fun_ext λ j. ground arith

  pub write_comm :
      (k l : K) (v w : V) (t : K → V) → k ≢ l → write k v (write l w t) ≡ write l w (write k v t)
  unfolding write
  write_comm k l v w t n = fun_ext λ j. ground (arith, e.beq_iff k j, e.beq_iff l j)

  pub apply_writes-local :
      (m : Map ℕ (K × V)) (t u : K → V) (j : K)
      → t j ≡ u j
      → apply_writes m t j ≡ apply_writes m u j
  unfolding apply_writes write
  apply_writes-local [] t u j h = h
  apply_writes-local ((i, (k, v)) ∷ m) t u j h =
      apply_writes-local m (write k v t) (write k v u) j (ground arith)

  apply_writes-write :
      (m : Map ℕ (K × V)) (k : K) (v : V) (t : K → V)
      → All (λ e. k ≢ e.1.0) m
      → apply_writes m (write k v t) ≡ write k v (apply_writes m t)
  unfolding apply_writes
  apply_writes-write [] k v t n = refl
  apply_writes-write ((h, (l, w)) ∷ m) k v t n =
      ap (apply_writes m) (sym (write_comm k l v w t n.0))
      ∙ apply_writes-write m k v (write l w t) n.1

remove_fresh {ℓ} : {A : Type ℓ} (m : Map ℕ A) (h : ℕ) → All (λ e. h ≢ e.0) m → remove h m ≡ m
remove_fresh [] h n = refl
remove_fresh ((i, a) ∷ m) h n = ground (arith, remove_fresh m h)

module _ {ℓ} {K V : Type ℓ} ⦃e : Eq K⦄ where
  -- What is written last at a key hides whatever was done to it before.
  pub write_over :
      (m : Map ℕ (K × V)) (k : K) (v w : V) (t : K → V)
      → write k v (apply_writes m (write k w t)) ≡ write k v (write k w (apply_writes m t))
  unfolding write
  write_over m k v w t = fun_ext λ j. elim (Bool-cases (k ≟ j)) [
    | inl here ↦ rw here
    | inr there ↦ rw there (apply_writes-local m _ t j (rw there))
  ]

same_hash {ℓ} :
    {K : Type ℓ} (hash : K → Result ℕ) {i h : ℕ} {k l : K}
    → hash l ≡ ok i
    → hash k ≡ ok h
    → l ≡ k
    → i ≡ h
same_hash hash q p r = cc (p, q, ap hash r)

-- `hash` is a function of the key, so keys whose hashes differ are different.
module _ {ℓ} {K V : Type ℓ} ⦃e : Eq K⦄ (hash : K → Result ℕ) where
  abbrev pub IsHashed : Map ℕ (K × V) → Type 0
  IsHashed m = All (λ e. hash e.1.0 ≡ ok e.0) m

  -- an entry with this hash, if there is one, has this key
  abbrev pub SameAt : ℕ → K → Map ℕ (K × V) → Type ℓ
  SameAt h k m = (l : K) (w : V) → lookup h m ≡ some (l, w) → l ≡ k

  pub keys_differ :
      (m : Map ℕ (K × V)) {h : ℕ} {k : K}
      → hash k ≡ ok h
      → IsHashed m
      → All (λ e. h ≢ e.0) m
      → All (λ e. k ≢ e.1.0) m
  keys_differ [] p q d = tt
  keys_differ ((i, (l, w)) ∷ m) p q d = (λ s. d.0 (cc (p, q.0, ap hash s)), keys_differ m p q.1 d.1)

  -- The entry at hand has the hash of the write: a write of its key can be made after it.
  replace_entry :
      (m : Map ℕ (K × V)) {i h : ℕ} {k l : K} (v w : V) (t : K → V)
      → i ≡ h
      → l ≡ k
      → hash k ≡ ok h
      → IsHashed m
      → All (λ e. i ≢ e.0) m
      → apply_writes m (write k v t) ≡ write k v (apply_writes m (write l w t))
  replace_entry m {k = k} v w t same key p q d =
      ap (apply_writes m) (rw key (sym (write_twice k v w t)))
      ∙ apply_writes-write m k v (write _ w t) (keys_differ m p q (rw same at d))

  pub apply_writes-insert :
      (m : Map ℕ (K × V)) (h : ℕ) (k : K) (v : V) (t : K → V)
      → hash k ≡ ok h
      → IsHashed m
      → Distinct m
      → SameAt h k m
      → apply_writes (insert h (k, v) m) t ≡ write k v (apply_writes m t)
  unfolding apply_writes
  apply_writes-insert [] h k v t p q d s = refl
  apply_writes-insert ((i, (l, w)) ∷ m) h k v t p q d s = elim (Bool-cases (i == h)) [
    | inl same ↦
        rw same (replace_entry m v w t ((==_iff i h).0 same) (s l w (rw same refl)) p q.1 d.0)
    | inr other ↦
        rw other
          (apply_writes-insert m h k v (write l w t) p q.1 d.1 (λ l' w' f. s l' w' (rw other f)))
  ]

  pub apply_writes-remove :
      (m : Map ℕ (K × V)) (h : ℕ) (k : K) (v : V) (t : K → V)
      → hash k ≡ ok h
      → IsHashed m
      → Distinct m
      → SameAt h k m
      → apply_writes (remove h m) (write k v t) ≡ write k v (apply_writes m t)
  unfolding apply_writes
  apply_writes-remove [] h k v t p q d s = refl
  apply_writes-remove ((i, (l, w)) ∷ m) h k v t p q d s = elim (Bool-cases (i == h)) [
    | inl same ↦
        let at_h = (==_iff i h).0 same in
        rw (same, remove_fresh m h (rw at_h at d.0))
          (replace_entry m v w t at_h (s l w (rw same refl)) p q.1 d.0)
    | inr other ↦
        let apart : l ≢ k = λ r. false≢true (sym other ∙ (==_iff i h).1 (same_hash hash q.0 p r)) in
        rw other (
          ap (apply_writes (remove h m)) (write_comm l k w v t apart)
          ∙ apply_writes-remove m h k v (write l w t) p q.1 d.1 (λ l' w' f. s l' w' (rw other f)))
  ]

module _ {ℓ κ} {K : Type ℓ} {A : Type κ} ⦃e : Eq K⦄ where
  All-ne-insert :
      (m : Map K A) (h i : K) (a : A)
      → i ≢ h
      → All (λ x. i ≢ x.0) m
      → All (λ x. i ≢ x.0) (insert h a m)
  All-ne-insert [] h i a n d = (n, tt)
  All-ne-insert ((j, b) ∷ m) h i a n d = elim (Bool-cases (j ≟ h)) [
    | inl same ↦ rw same (n, d.1)
    | inr other ↦ rw other (d.0, All-ne-insert m h i a n d.1)
  ]

  pub insert-Distinct : (m : Map K A) (h : K) (a : A) → Distinct m → Distinct (insert h a m)
  insert-Distinct [] h a d = (tt, tt)
  insert-Distinct ((j, b) ∷ m) h a d = elim (Bool-cases (j ≟ h)) [
    | inl same ↦ rw same (rw ((e.beq_iff j h).0 same) at d.0, d.1)
    | inr other ↦ rw other (
      All-ne-insert m h j a (λ r. false≢true (sym other ∙ (e.beq_iff j h).1 r)) d.0,
      insert-Distinct m h a d.1,
    )
  ]

module _ {ℓ} {A : Type ℓ} where
  pub All-remove : (P : ℕ × A → Type 0) (m : Map ℕ A) (h : ℕ) → All P m → All P (remove h m)
  All-remove P [] h d = tt
  All-remove P ((j, b) ∷ m) h d = elim (Bool-cases (j == h)) [
    | inl same ↦ rw same (All-remove P m h d.1)
    | inr other ↦ rw other (d.0, All-remove P m h d.1)
  ]

  pub remove-Distinct : (m : Map ℕ A) (h : ℕ) → Distinct m → Distinct (remove h m)
  remove-Distinct [] h d = tt
  remove-Distinct ((j, b) ∷ m) h d = elim (Bool-cases (j == h)) [
    | inl same ↦ rw same (remove-Distinct m h d.1)
    | inr other ↦ rw other (All-remove _ m h d.0, remove-Distinct m h d.1)
  ]

module _ {ℓ} {K A : Type 0} ⦃e : Eq K⦄ where
  pub All-insert :
      (P : K × A → Type ℓ) (m : Map K A) (h : K) (a : A) → P (h, a) → All P m → All P (insert h a m)
  All-insert P [] h a p d = (p, tt)
  All-insert P ((j, b) ∷ m) h a p d = elim (Bool-cases (j ≟ h)) [
    | inl same ↦ rw same (p, d.1)
    | inr other ↦ rw other (d.0, All-insert P m h a p d.1)
  ]
