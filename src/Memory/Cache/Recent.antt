-- ===== src/Memory/Cache/Recent.antt =====
-- A cache as the list of its entries, the most recently used first, and the calls of the cache of
-- src/memory/mod.rs.
use zkmips_zkvm_impl_in_rust.Base.{
  ℕ, ◌≡◌, refl, true, false, List, [], ◌∷◌, Option, none, some, leb, Eq, ◌==◌, if◌then◌else◌,
  length, arith, Bool-cases, inl, inr,
}
use zkmips_zkvm_impl_in_rust.Base.Map
use zkmips_zkvm_impl_in_rust.Memory.Cache.{LruCache, pop_back, listed, unlist, get, insert, remove}
use zkmips_zkvm_impl_in_rust.Memory.Cache.Recency.{Once}

-- What is asked of a cache: a lookup, a lookup that caches the value on a miss, as the memory
-- manager's read does, or to drop a key.
pub data Call {ℓ} (K V : Type ℓ) : Type ℓ where
  getting : K → Call K V
  reading : K → V → Call K V
  removing : K → Call K V

module _ {ℓ} {K V : Type ℓ} where
  unfoldable pub keys : List (K × V) → List K
  keys [] = []
  keys ((k, v) ∷ l) = k ∷ keys l

  -- All but the last entry.
  unfoldable pub shorten : List (K × V) → List (K × V)
  shorten [] = []
  shorten (x ∷ l) = elim l [ [] ↦ [] | y ∷ r ↦ x ∷ shorten l ]

  -- The list with room for one more.
  unfoldable pub shortened : ℕ → List (K × V) → List (K × V)
  unfolding shorten
  shortened n l = if leb n (length l) then shorten l else l

  pub keys-length : (l : List (K × V)) → length (keys l) ≡ length l
  unfolding keys
  keys-length [] = refl
  keys-length ((k, v) ∷ l) = ground (arith, keys-length l)

module _ {ℓ} {K : Type ℓ} ⦃e : Eq K⦄ where
  apart_of :
      (i k j : K) (l : List K)
      → listed i l ≡ false
      → listed k l ≡ true
      → (k == j) ≡ true
      → (i == j) ≡ false
  apart_of i k j l fresh there same = elim (Bool-cases (i == j)) [
    | inr apart ↦ apart
    | inl i_is_j ↦ absurd (cc (fresh, there, (e.beq_iff k j).0 same, (e.beq_iff i j).0 i_is_j))
  ]

module _ {ℓ} {K V : Type ℓ} ⦃e : Eq K⦄ where
  unfoldable pub answer : Call K V → LruCache K V → Option V × LruCache K V
  unfolding get insert remove
  answer (getting k) c = get k c
  answer (reading k x) c =
      let (hit, d) = get k c in elim hit [ some v ↦ (some v, d) | none ↦ (none, insert k x d) ]
  answer (removing k) c = (none, remove k c)

  unfoldable pub answers : List (Call K V) → LruCache K V → List (Option V) × LruCache K V
  answers [] c = ([], c)
  answers (call ∷ calls) c =
      let (a, d) = answer call c in let (rest, r) = answers calls d in (a ∷ rest, r)

  -- The entry comes to the front, if there is one.
  unfoldable pub touch : K → List (K × V) → Option V × List (K × V)
  touch k l = elim (Map.lookup k l) [
    | some v ↦ (some v, (k, v) ∷ Map.remove k l)
    | none ↦ (none, l)
  ]

  -- The same calls on a list of at most so many entries.
  unfoldable pub recent : ℕ → Call K V → List (K × V) → Option V × List (K × V)
  unfolding touch shortened
  recent n (getting k) l = touch k l
  recent n (reading k x) l = elim (Map.lookup k l) [
    | some v ↦ (some v, (k, v) ∷ Map.remove k l)
    | none ↦ (none, (k, x) ∷ shortened n l)
  ]
  recent n (removing k) l = (none, Map.remove k l)

  unfoldable pub recents : ℕ → List (Call K V) → List (K × V) → List (Option V) × List (K × V)
  recents n [] l = ([], l)
  recents n (call ∷ calls) l =
      let (a, m) = recent n call l in let (rest, r) = recents n calls m in (a ∷ rest, r)

  pub listed-keys : (k : K) (l : List (K × V)) → listed k (keys l) ≡ Map.contains_key k l
  unfolding listed keys Map.contains_key Map.lookup
  listed-keys k [] = refl
  listed-keys k ((j, v) ∷ l) = ground (arith, listed-keys k l)

  pub keys-remove :
      (k : K) (l : List (K × V)) → Once (keys l) → keys (Map.remove k l) ≡ unlist k (keys l)
  unfolding keys Map.remove unlist Map.contains_key
  keys-remove k [] o = refl
  keys-remove k ((j, v) ∷ l) o = elim (Bool-cases (j == k)) [
    | inl same ↦
        let gone = Map.remove_absent k l (ground (arith, listed-keys j l, o.0, e.beq_iff j k)) in
        ground (arith, gone)
    | inr apart ↦ ground (arith, keys-remove k l o.1)
  ]

  -- The entry at the back of a list that is not empty.
  pub record Last (l : List (K × V)) (k : K) : Type ℓ where
    pub popped : pop_back (keys l) ≡ some (k, keys (shorten l))
    pub among : listed k (keys l) ≡ true
    pub others :
        Once (keys l)
        → (j : K) → Map.lookup j (shorten l) ≡ (if k == j then none else Map.lookup j l)

  pub last : (x : K × V) (l : List (K × V)) → (k : K) × Last (x ∷ l) k
  unfolding pop_back keys shorten listed Map.lookup
  last (i, v) [] = (
    i,
    record { popped = refl; among = ground (arith, e.beq_iff i i); others = λ o j. ground arith },
  )
  last (i, v) (y ∷ l) =
      let (k, q) = last y l in
      (
        k,
        record {
          popped = ground (arith, q.popped);
          among = ground (arith, q.among);
          others = λ o j. elim (Bool-cases (k == j)) [
            | inl same ↦
                ground (arith, q.others o.1 j, apart_of i k j (keys (y ∷ l)) o.0 q.among same)
            | inr other ↦ ground (arith, q.others o.1 j)
          ];
        },
      )
