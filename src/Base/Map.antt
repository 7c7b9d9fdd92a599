-- ===== src/Base/Map.antt =====
-- `HashMap` as an association list with the newest entry first, over keys with an equality.
use mathlib.Core.Bool.{Bool, true, false}
use mathlib.Core.Logic.{◌⊎◌, inl, inr}
use mathlib.Core.List.{List, [], ◌∷◌}
use mathlib.Core.Option.{Option, none, some}
use mathlib.Core.Path.{◌≡◌, refl}
use Prim.Native.Nat.{suc, ◌≤◌}
use native.Mathlib.Omega.{arith}
use zkmips_zkvm_impl_in_rust.Base.Tests.{Eq, ◌==◌, if◌then◌else◌}
use zkmips_zkvm_impl_in_rust.Base.Lists.{length, All}

module _ {ℓ κ} {K : Type ℓ} {V : Type κ} ⦃e : Eq K⦄ where
  unfoldable pub lookup : K → List (K × V) → Option V
  lookup k [] = none
  lookup k ((key, value) ∷ rest) =
      let later = lookup k rest in if key == k then some value else later

  unfoldable pub remove : K → List (K × V) → List (K × V)
  remove k [] = []
  remove k ((j, v) ∷ m) = let rest = remove k m in if j == k then rest else (j, v) ∷ rest

  unfoldable pub insert : K → V → List (K × V) → List (K × V)
  insert k v m = (k, v) ∷ remove k m

  unfoldable pub contains_key : K → List (K × V) → Bool
  contains_key k m = elim (lookup k m) [ some v ↦ true | none ↦ false ]

  -- No key stands twice.
  abbrev pub Distinct : List (K × V) → Type κ
  Distinct [] = Unit
  Distinct ((k, v) ∷ m) = (lookup k m ≡ none) × Distinct m

  pub lookup-remove :
      (k j : K) (m : List (K × V)) → lookup j (remove k m) ≡ (if k == j then none else lookup j m)
  unfolding lookup remove
  lookup-remove k j [] = ground arith
  lookup-remove k j ((i, v) ∷ m) =
      ground (arith, e.beq_iff k j, e.beq_iff i k, e.beq_iff i j, lookup-remove k j m)

  pub lookup-insert :
      (k j : K) (value : V) (m : List (K × V))
      → lookup j (insert k value m) ≡ (if k == j then some value else lookup j m)
  unfolding lookup insert
  lookup-insert k j value m = ground (arith, lookup-remove k j m)

  pub contains_key-insert :
      (k j : K) (value : V) (m : List (K × V))
      → contains_key j (insert k value m) ≡ (if k == j then true else contains_key j m)
  unfolding contains_key
  contains_key-insert k j value m = ground (arith, lookup-insert k j value m)

  -- What is found after an insertion is what was inserted, or was there under another key.
  pub lookup-insert_cases :
      (k j : K) (value w : V) (m : List (K × V))
      → lookup j (insert k value m) ≡ some w
      → ((k ≡ j) × (value ≡ w)) ⊎ (((k == j) ≡ false) × (lookup j m ≡ some w))
  lookup-insert_cases k j value w m h = go (k == j) refl
    where
      go :
          (b : Bool)
          → (k == j) ≡ b
          → ((k ≡ j) × (value ≡ w)) ⊎ (((k == j) ≡ false) × (lookup j m ≡ some w))
      go true q = inl ((e.beq_iff k j).0 q, cc (h, rw q at (lookup-insert k j value m)))
      go false q = inr (q, cc (h, rw q at (lookup-insert k j value m)))

  pub lookup-insert_self :
      (k : K) (value : V) (m : List (K × V)) → lookup k (insert k value m) ≡ some value
  lookup-insert_self k value m = ground (arith, lookup-insert k k value m, e.beq_iff k k)

  pub lookup-remove_self : (k : K) (m : List (K × V)) → lookup k (remove k m) ≡ none
  lookup-remove_self k m = ground (arith, lookup-remove k k m, e.beq_iff k k)

  pub remove_absent : (k : K) (m : List (K × V)) → lookup k m ≡ none → remove k m ≡ m
  unfolding lookup remove
  remove_absent k [] h = refl
  remove_absent k ((j, v) ∷ m) h = ground (arith, remove_absent k m)

  pub length-remove-le : (k : K) (m : List (K × V)) → length (remove k m) ≤ length m
  unfolding remove
  length-remove-le k [] = omega arith
  length-remove-le k ((j, v) ∷ m) = ground (arith, length-remove-le k m)

  pub length-remove-lt :
      (k : K) (m : List (K × V)) (v : V)
      → lookup k m ≡ some v
      → suc (length (remove k m)) ≤ length m
  unfolding lookup remove
  length-remove-lt k [] v h = cc
  length-remove-lt k ((j, w) ∷ m) v h = ground (arith, length-remove-le k m, length-remove-lt k m v)

  pub remove-Distinct : (k : K) (m : List (K × V)) → Distinct m → Distinct (remove k m)
  unfolding remove
  remove-Distinct k [] d = tt
  remove-Distinct k ((j, v) ∷ m) d = ground (arith, remove-Distinct k m d.1, lookup-remove k j m)

  pub insert-Distinct : (k : K) (v : V) (m : List (K × V)) → Distinct m → Distinct (insert k v m)
  unfolding insert
  insert-Distinct k v m d = (lookup-remove_self k m, remove-Distinct k m d)

  -- Removing a key that stands once takes one entry.
  pub length-remove :
      (k : K) (m : List (K × V)) (v : V)
      → Distinct m
      → lookup k m ≡ some v
      → length m ≡ suc (length (remove k m))
  unfolding lookup remove
  length-remove k [] v d h = cc
  length-remove k ((j, w) ∷ m) v d h =
      ground (arith, e.beq_iff j k, remove_of_eq j k w m d.0, length-remove k m v d.1)
    where
      remove_of_eq :
          (j k : K) (w : V) (m : List (K × V)) → lookup j m ≡ none → (j ≡ k) → remove k m ≡ m
      remove_of_eq j k w m h q = remove_absent k m (rw q at h)

  -- A predicate of every value survives the operations.
  pub All-remove {μ} :
      (P : K × V → Type μ) (k : K) (m : List (K × V)) → All P m → All P (remove k m)
  unfolding remove
  All-remove P k [] h = tt
  All-remove P k ((j, v) ∷ m) h = ground (arith, All-remove P k m h.1)

  pub All-lookup {μ} :
      (P : V → Type μ) (k : K) (m : List (K × V)) (v : V)
      → All (λ x. P x.1) m
      → lookup k m ≡ some v
      → P v
  unfolding lookup
  All-lookup P k [] v h f = cc
  All-lookup P k ((j, w) ∷ m) v h f = ground (arith, All-lookup P k m v h.1)
