-- ===== src/Parallelizer/Merger/Buffers.antt =====
-- Maps from hashes, and the same maps with a function applied to their values.
use cubetran_core.Prelude.{
  ==_iff, All, Bool-cases, Map, [], arith, inl, inr, insert, list_eq, lookup, nat_eq, option_eq,
  pair_eq, refl, remove, some, some_inj, subst, sym, ℕ, ◌==◌, ◌∷◌, ◌≡◌, ◌≢◌,
}
use cubetran_core.Parallelizer.Merger.Writes.{Distinct}

module _ {ℓ κ} {A : Type ℓ} {B : Type κ} (f : A → B) where
  abbrev pub map_values : Map ℕ A → Map ℕ B
  map_values [] = []
  map_values ((h, a) ∷ m) = (h, f a) ∷ map_values m

  pub map_values-insert :
      (h : ℕ) (a : A) (m : Map ℕ A) → map_values (insert h a m) ≡ insert h (f a) (map_values m)
  map_values-insert h a [] = refl
  map_values-insert h a ((i, b) ∷ m) = ground (arith, map_values-insert h a m)

  pub map_values-remove : (h : ℕ) (m : Map ℕ A) → map_values (remove h m) ≡ remove h (map_values m)
  map_values-remove h [] = refl
  map_values-remove h ((i, b) ∷ m) = ground (arith, map_values-remove h m)

  pub lookup-map_values :
      (h : ℕ) (m : Map ℕ A) {b : B}
      → lookup h (map_values m) ≡ some b
      → (a : A) × (lookup h m ≡ some a) × (b ≡ f a)
  lookup-map_values h [] e = cc
  lookup-map_values h ((i, x) ∷ m) e = elim (Bool-cases (i == h)) [
    | inl same ↦ (x, rw same, some_inj (sym (rw same at e)))
    | inr other ↦ let (a, p, q) = lookup-map_values h m (rw other at e) in (a, rw other p, q)
  ]

  pub Distinct-map_values : (m : Map ℕ A) → Distinct m → Distinct (map_values m)
  Distinct-map_values [] d = tt
  Distinct-map_values ((i, b) ∷ m) d = (All-map_values m d.0, Distinct-map_values m d.1)
    where
      All-map_values : (m : Map ℕ A) → All (λ e. i ≢ e.0) m → All (λ e. i ≢ e.0) (map_values m)
      All-map_values [] n = tt
      All-map_values (x ∷ m) n = (n.0, All-map_values m n.1)

pub All-lookup {ℓ} :
    {A : Type ℓ} (P : ℕ × A → Type 0) (h : ℕ) (m : Map ℕ A) (a : A)
    → All P m
    → lookup h m ≡ some a
    → P (h, a)
All-lookup P h [] a d e = cc
All-lookup P h ((i, b) ∷ m) a d e = elim (Bool-cases (i == h)) [
  | inl same ↦
      subst (λ j. P (j, a)) ((==_iff i h).0 same)
        (subst (λ x. P (i, x)) (some_inj (rw same at e)) d.0)
  | inr other ↦ All-lookup P h m a d.1 (rw other at e)
]
