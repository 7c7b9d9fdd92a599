-- ===== src/Memory/Cache.antt =====
-- src/memory/mod.rs: `LRUCache`, over any keys with an equality. The front of the deque is the head
-- of the list.
pub mod Recency
pub mod Methods
pub mod Recent
pub mod Refines
use zkmips_zkvm_impl_in_rust.Base.{
  ℕ, Bool, true, false, List, [], ◌∷◌, Option, none, some, leb, Eq, ◌==◌, if◌then◌else◌, length,
}
use zkmips_zkvm_impl_in_rust.Base.Map

pub record LruCache {ℓ} (K V : Type ℓ) : Type ℓ where
  pub capacity : ℕ
  pub cache : List (K × V)
  pub lru : List K

module _ {ℓ} {K V : Type ℓ} where
  unfoldable pub new : ℕ → LruCache K V
  new capacity = record { capacity = capacity; cache = []; lru = [] }

module _ {ℓ} {K : Type ℓ} where
  -- `lru.pop_back()`: the last key and the others.
  unfoldable pub pop_back : List K → Option (K × List K)
  pop_back [] = none
  pop_back (k ∷ l) = elim (pop_back l) [
    | none ↦ some (k, [])
    | some (last, rest) ↦ some (last, k ∷ rest)
  ]

module _ {ℓ} {K : Type ℓ} ⦃e : Eq K⦄ where
  -- `lru.iter().position(..)` finds the key.
  unfoldable pub listed : K → List K → Bool
  listed k [] = false
  listed k (j ∷ l) = if j == k then true else listed k l

  -- `lru.remove(pos)` at the first position of the key.
  unfoldable pub unlist : K → List K → List K
  unlist k [] = []
  unlist k (j ∷ l) = if j == k then l else j ∷ unlist k l

module _ {ℓ} {K V : Type ℓ} ⦃e : Eq K⦄ where
  unfoldable pub get : K → LruCache K V → Option V × LruCache K V
  get key c =
      if listed key c.lru
      then (Map.lookup key c.cache, record c { lru = key ∷ unlist key c.lru })
      else (none, c)

  -- What `insert` drops to make room.
  unfoldable pub make_room : LruCache K V → LruCache K V
  unfolding pop_back
  make_room c =
      if leb c.capacity (length c.cache)
      then elim (pop_back c.lru) [
        | none ↦ c
        | some (lru_key, rest) ↦ record c { cache = Map.remove lru_key c.cache; lru = rest }
      ]
      else c

  unfoldable pub insert : K → V → LruCache K V → LruCache K V
  insert key value c =
      let c' : LruCache K V = make_room c in
      record c' { cache = Map.insert key value c'.cache; lru = key ∷ c'.lru }

  unfoldable pub remove : K → LruCache K V → LruCache K V
  unfolding listed unlist
  remove key c = record c {
    cache = Map.remove key c.cache;
    lru = if listed key c.lru then unlist key c.lru else c.lru;
  }
