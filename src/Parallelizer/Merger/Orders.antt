-- ===== src/Parallelizer/Merger/Orders.antt =====
-- Maps that are drained in any order: a reordered map has the same entries, and its writes have the
-- same effect.
use cubetran_core.Prelude.{
  All, Eq, List, Map, Result, Text, [], ap, arith, if◌then◌else◌, list_eq, lookup, nat_eq,
  option_eq, pair_eq, refl, some, subst, sym, ℕ, ◌∙◌, ◌∷◌, ◌≟◌, ◌≡◌, ◌≢◌,
}
use cubetran_core.Meta.RowData.{RowData}
use cubetran_core.Parallelizer.Merger.{DrainOrders, RdbTbMergedData}
use cubetran_core.Parallelizer.Merger.Writes.{
  Distinct, IsHashed, apply_writes, keys_differ, write, write_comm,
}
use cubetran_core.Parallelizer.Merger.Buffers.{map_values}

-- The two lists have the same elements, in any order.
pub data IsReordered {ℓ} {A : Type ℓ} : List A → List A → Type ℓ where
  nil : IsReordered [] []
  cons : {a b : A} {l₁ l₂ : List A} → a ≡ b → IsReordered l₁ l₂ → IsReordered (a ∷ l₁) (b ∷ l₂)
  swap : {a b a' b' : A} {l : List A} → a ≡ b' → b ≡ a' → IsReordered (a ∷ b ∷ l) (a' ∷ b' ∷ l)
  trans : {l₁ l₂ l₃ : List A} → IsReordered l₁ l₂ → IsReordered l₂ l₃ → IsReordered l₁ l₃

pub IsReordered-sym {ℓ} : {A : Type ℓ} {l m : List A} → IsReordered l m → IsReordered m l
IsReordered-sym IsReordered.nil = IsReordered.nil
IsReordered-sym (IsReordered.cons e d) = IsReordered.cons (sym e) (IsReordered-sym d)
IsReordered-sym (IsReordered.swap e e') = IsReordered.swap (sym e') (sym e)
IsReordered-sym (IsReordered.trans d d') =
    IsReordered.trans (IsReordered-sym d') (IsReordered-sym d)

pub IsReordered-refl {ℓ} : {A : Type ℓ} (l : List A) → IsReordered l l
IsReordered-refl [] = IsReordered.nil
IsReordered-refl (x ∷ l) = IsReordered.cons refl (IsReordered-refl l)

module _ {ℓ κ} {A : Type ℓ} (P : A → Type κ) where
  pub IsReordered-All : {l m : List A} → IsReordered l m → All P l → All P m
  IsReordered-All IsReordered.nil h = tt
  IsReordered-All (IsReordered.cons e d) (p, h) = (subst P e p, IsReordered-All d h)
  IsReordered-All (IsReordered.swap e e') (p, (p', h)) = (subst P e' p', (subst P e p, h))
  IsReordered-All (IsReordered.trans d d') h = IsReordered-All d' (IsReordered-All d h)

pub IsReordered-nil {ℓ} : {A : Type ℓ} {l m : List A} → IsReordered l m → m ≡ [] → l ≡ []
IsReordered-nil IsReordered.nil h = refl
IsReordered-nil (IsReordered.cons e d) h = cc
IsReordered-nil (IsReordered.swap e e') h = cc
IsReordered-nil (IsReordered.trans d d') h = IsReordered-nil d (IsReordered-nil d' h)

module _ {K V : Type 0} ⦃e : Eq K⦄ where
  pub IsReordered-Distinct : {l m : Map K V} → IsReordered l m → Distinct l → Distinct m
  IsReordered-Distinct IsReordered.nil h = tt
  IsReordered-Distinct (IsReordered.cons {a = a} {l₂ = l₂} e d) (n, h) =
      subst (λ x. Distinct (x ∷ l₂)) e
        (IsReordered-All (λ p. a.0 ≢ p.0) d n, IsReordered-Distinct d h)
  IsReordered-Distinct (IsReordered.swap {a = a} {b = b} {b' = b'} {l = l} e e')
        ((n, n'), (n'', h)) =
      subst (λ x. Distinct (x ∷ b' ∷ l)) e'
        (subst (λ y. Distinct (b ∷ y ∷ l)) e (((λ s. n (sym s)), n''), (n', h)))
  IsReordered-Distinct (IsReordered.trans d d') h =
      IsReordered-Distinct d' (IsReordered-Distinct d h)

  pub IsReordered-lookup :
      (k : K) {l m : Map K V} → IsReordered l m → Distinct l → lookup k l ≡ lookup k m
  IsReordered-lookup k IsReordered.nil h = refl
  IsReordered-lookup k (IsReordered.cons {a = a} {l₁ = l₁} {l₂ = l₂} e' d) (n, h) =
      subst (λ x. lookup k (a ∷ l₁) ≡ lookup k (x ∷ l₂)) e'
        (ap (λ o. if a.0 ≟ k then some a.1 else o) (IsReordered-lookup k d h))
  IsReordered-lookup k (IsReordered.swap {a = a} {b = b} {b' = b'} {l = l} p p') ((n, n'), h) =
      subst (λ x. lookup k (a ∷ b ∷ l) ≡ lookup k (x ∷ b' ∷ l)) p'
        (subst (λ y. lookup k (a ∷ b ∷ l) ≡ lookup k (b ∷ y ∷ l)) p
          (ground (arith, e.beq_iff a.0 k, e.beq_iff b.0 k)))
  IsReordered-lookup k (IsReordered.trans d d') h =
      IsReordered-lookup k d h ∙ IsReordered-lookup k d' (IsReordered-Distinct d h)

  -- writes to different keys
  abbrev DifferentKeys : Map ℕ (K × V) → Type 0
  DifferentKeys [] = Unit
  DifferentKeys (p ∷ m) = All (λ (q : ℕ × (K × V)). p.1.0 ≢ q.1.0) m × DifferentKeys m

  IsReordered-DifferentKeys :
      {l m : Map ℕ (K × V)} → IsReordered l m → DifferentKeys l → DifferentKeys m
  IsReordered-DifferentKeys IsReordered.nil h = tt
  IsReordered-DifferentKeys (IsReordered.cons {a = a} {l₂ = l₂} e d) (n, h) =
      subst (λ x. DifferentKeys (x ∷ l₂)) e
        (IsReordered-All (λ q. a.1.0 ≢ q.1.0) d n, IsReordered-DifferentKeys d h)
  IsReordered-DifferentKeys (IsReordered.swap {a = a} {b = b} {b' = b'} {l = l} e e')
        ((n, n'), (n'', h)) =
      subst (λ x. DifferentKeys (x ∷ b' ∷ l)) e'
        (subst (λ y. DifferentKeys (b ∷ y ∷ l)) e (((λ s. n (sym s)), n''), (n', h)))
  IsReordered-DifferentKeys (IsReordered.trans d d') h =
      IsReordered-DifferentKeys d' (IsReordered-DifferentKeys d h)

  IsReordered-writes :
      {l m : Map ℕ (K × V)} (t : K → V)
      → IsReordered l m
      → DifferentKeys l
      → apply_writes l t ≡ apply_writes m t
  unfolding apply_writes
  IsReordered-writes t IsReordered.nil h = refl
  IsReordered-writes t (IsReordered.cons {a = a} {l₁ = l₁} {l₂ = l₂} e d) (n, h) =
      subst (λ x. apply_writes (a ∷ l₁) t ≡ apply_writes (x ∷ l₂) t) e
        (IsReordered-writes (write a.1.0 a.1.1 t) d h)
  IsReordered-writes t (IsReordered.swap {a = a} {b = b} {b' = b'} {l = l} e e') ((n, n'), h) =
      subst (λ x. apply_writes (a ∷ b ∷ l) t ≡ apply_writes (x ∷ b' ∷ l) t) e'
        (subst (λ y. apply_writes (a ∷ b ∷ l) t ≡ apply_writes (b ∷ y ∷ l) t) e
          (ap (apply_writes l) (sym (write_comm a.1.0 b.1.0 a.1.1 b.1.1 t n))))
  IsReordered-writes t (IsReordered.trans d d') h =
      IsReordered-writes t d h ∙ IsReordered-writes t d' (IsReordered-DifferentKeys d h)

  IsHashed-DifferentKeys :
      (hash : K → Result ℕ) (m : Map ℕ (K × V)) → IsHashed hash m → Distinct m → DifferentKeys m
  IsHashed-DifferentKeys hash [] q d = tt
  IsHashed-DifferentKeys hash ((h, (k, v)) ∷ m) q d =
      (keys_differ hash m q.0 q.1 d.0, IsHashed-DifferentKeys hash m q.1 d.1)

  -- the writes of a reordered map
  pub reordered_writes :
      (hash : K → Result ℕ) {l m : Map ℕ (K × V)} (t : K → V)
      → IsReordered l m
      → IsHashed hash l
      → Distinct l
      → apply_writes l t ≡ apply_writes m t
  reordered_writes hash t p q d = IsReordered-writes t p (IsHashed-DifferentKeys hash _ q d)

pub IsReordered-map_values {ℓ κ} :
    {A : Type ℓ} {B : Type κ} (f : A → B) {l m : Map ℕ A}
    → IsReordered l m
    → IsReordered (map_values f l) (map_values f m)
IsReordered-map_values f IsReordered.nil = IsReordered.nil
IsReordered-map_values f (IsReordered.cons e d) =
    IsReordered.cons (ap (λ p. (p.0, f p.1)) e) (IsReordered-map_values f d)
IsReordered-map_values f (IsReordered.swap e e') =
    IsReordered.swap (ap (λ p. (p.0, f p.1)) e) (ap (λ p. (p.0, f p.1)) e')
IsReordered-map_values f (IsReordered.trans d d') =
    IsReordered.trans (IsReordered-map_values f d) (IsReordered-map_values f d')

-- The orders lose no entry and make none up.
pub record AreOrders (orders : DrainOrders) : Type 0 where
  pub tables : (m : Map Text RdbTbMergedData) → IsReordered (orders.tables m) m
  pub rows : (m : Map ℕ RowData) → IsReordered (orders.rows m) m
