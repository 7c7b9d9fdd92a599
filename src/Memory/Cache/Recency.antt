-- ===== src/Memory/Cache/Recency.antt =====
-- The invariant of the cache: the deque holds each cached key once, and nothing else.
use zkmips_zkvm_impl_in_rust.Base.{
  ℕ, suc, ◌≤◌, ◌≡◌, refl, ap, true, false, ◌||◌, List, [], ◌∷◌, none, some, Eq, ◌==◌, if◌then◌else◌,
  length, arith, inl, inr, ◌⊎◌,
}
use Prim.Native.Nat.{max}
use zkmips_zkvm_impl_in_rust.Base.Map
use zkmips_zkvm_impl_in_rust.Memory.Cache.{LruCache, new, pop_back, listed, unlist}

module _ {ℓ} {K : Type ℓ} ⦃e : Eq K⦄ where
  abbrev pub Once : List K → Type 0
  Once [] = Unit {0}
  Once (k ∷ l) = (listed k l ≡ false) × Once l

  listed_of_eq : (j k : K) (l : List K) → (j == k) ≡ true → listed j l ≡ listed k l
  listed_of_eq j k l q = ap (λ x. listed x l) ((e.beq_iff j k).0 q)

  pub listed-unlist :
      (k j : K) (l : List K)
      → Once l
      → listed j (unlist k l) ≡ (if k == j then false else listed j l)
  unfolding listed unlist
  listed-unlist k j [] o = ground arith
  listed-unlist k j (i ∷ l) o =
      ground (arith, e.beq_iff k j, e.beq_iff i k, e.beq_iff i j, listed-unlist k j l o.1, o.0)

  pub unlist-Once : (k : K) (l : List K) → Once l → Once (unlist k l)
  unfolding unlist
  unlist-Once k [] o = tt
  unlist-Once k (i ∷ l) o =
      ground (arith, unlist-Once k l o.1, listed-unlist k i l o.1, e.beq_iff i k, e.beq_iff k i)

  pub length-unlist :
      (k : K) (l : List K) → listed k l ≡ true → suc (length (unlist k l)) ≡ length l
  unfolding listed unlist
  length-unlist k [] h = cc
  length-unlist k (i ∷ l) h = ground (arith, length-unlist k l)

  -- What `pop_back` splits off.
  pub record Popped (l rest : List K) (k : K) : Type ℓ where
    pub members : (j : K) → listed j l ≡ (listed j rest || k == j)
    pub longer : length l ≡ suc (length rest)
    pub kept : Once l → Once rest × (listed k rest ≡ false)

  pub beq_sym : (a b : K) → (a == b) ≡ (b == a)
  beq_sym a b = ground (arith, e.beq_iff a b, e.beq_iff b a)

  pub pop_back-cases :
      (l : List K)
      → ((l ≡ []) × (pop_back l ≡ none))
        ⊎ ((k : K) × (rest : List K) × (pop_back l ≡ some (k, rest)) × Popped l rest k)
  unfolding pop_back listed
  pop_back-cases [] = inl (refl, refl)
  pop_back-cases (x ∷ l) = elim (pop_back-cases l) [
    | inl (empty, e') ↦ inr (
      x,
      [],
      ground arith,
      record { members = λ j. ground arith; longer = ground arith; kept = λ o. (tt, refl) },
    )
    | inr (k, rest, e', p) ↦ inr (
      k,
      x ∷ rest,
      ground arith,
      record {
        members = λ j. ground (arith, p.members j);
        longer = ground (arith, p.longer);
        kept = λ o. ground (arith, p.kept o.1, p.members x, beq_sym k x);
      },
    )
  ]

module _ {ℓ} {K V : Type ℓ} ⦃e : Eq K⦄ where
  pub record IsValid (c : LruCache K V) : Type ℓ where
    pub distinct : Map.Distinct c.cache
    pub once : Once c.lru
    pub agree : (k : K) → listed k c.lru ≡ Map.contains_key k c.cache
    pub sized : length c.lru ≡ length c.cache
    pub bounded : length c.cache ≤ max 1 c.capacity

  pub new-IsValid : (capacity : ℕ) → IsValid (new {K = K} {V = V} capacity)
  unfolding new listed Map.contains_key Map.lookup
  new-IsValid capacity = record {
    distinct = tt;
    once = tt;
    agree = λ k. refl;
    sized = refl;
    bounded = omega arith;
  }
