-- ===== src/Memory/Cache/Methods.antt =====
-- What the methods of the cache do, on caches that keep the invariant.
use zkmips_zkvm_impl_in_rust.Base.{
  ◌<◌, ◌≡◌, refl, ap, ◌∙◌, true, false, List, ◌∷◌, none, some, leb, Eq, ◌==◌, if◌then◌else◌, length,
  arith, Bool-cases, inl, inr, Option-cases,
}
use Prim.Native.Nat.{max}
use zkmips_zkvm_impl_in_rust.Base.Map
use zkmips_zkvm_impl_in_rust.Memory.Cache.{LruCache, listed, unlist, get, make_room, insert, remove}
use zkmips_zkvm_impl_in_rust.Memory.Cache.Recency.{
  Once, IsValid, Popped, listed-unlist, unlist-Once, length-unlist, pop_back-cases,
}

module _ {ℓ} {K V : Type ℓ} ⦃e : Eq K⦄ where
  touched-IsValid :
      (k : K) (c : LruCache K V)
      → IsValid c
      → listed k c.lru ≡ true
      → IsValid (record c { lru = k ∷ unlist k c.lru })
  unfolding listed
  touched-IsValid k c v h = record {
    distinct = v.distinct;
    once =
        (ground (arith, listed-unlist k k c.lru v.once, e.beq_iff k k), unlist-Once k c.lru v.once);
    agree =
        λ j. ground (arith, listed-unlist k j c.lru v.once, v.agree j, v.agree k, e.beq_iff k j);
    sized = omega (arith, length-unlist k c.lru h, v.sized);
    bounded = v.bounded;
  }

  -- A lookup gives the value cached for the key, or nothing. It does not change what is cached,
  -- and keeps the invariant.
  pub get_lem :
      (k : K) (c : LruCache K V)
      → IsValid c
      → ((get k c).0 ≡ Map.lookup k c.cache) × ((get k c).1.cache ≡ c.cache) × IsValid (get k c).1
  unfolding get Map.contains_key
  get_lem k c v = elim (Bool-cases (listed k c.lru)) [
    | inl hit ↦ rw (hit, get) (refl, refl, touched-IsValid k c v hit)
    | inr miss ↦ rw (miss, get) (ground (arith, v.agree k), refl, v)
  ]

  -- The cache with room for one more.
  record HasRoom (c d : LruCache K V) : Type ℓ where
    distinct : Map.Distinct d.cache
    once : Once d.lru
    agree : (k : K) → listed k d.lru ≡ Map.contains_key k d.cache
    sized : length d.lru ≡ length d.cache
    free : length d.cache < max 1 c.capacity
    same_capacity : d.capacity ≡ c.capacity
    fewer : (k : K) → listed k c.lru ≡ false → listed k d.lru ≡ false

  cached_of_listed :
      (k : K) (c : LruCache K V)
      → IsValid c
      → listed k c.lru ≡ true
      → (x : V) × (Map.lookup k c.cache ≡ some x)
  unfolding Map.contains_key
  cached_of_listed k c v h = elim (Option-cases (Map.lookup k c.cache)) [
    | inl absent ↦ absurd (ground (arith, v.agree k))
    | inr (x, q) ↦ (x, q)
  ]

  -- The cache without the key at the back of the deque.
  Popped-HasRoom :
      (c : LruCache K V) (v : IsValid c) (k : K) (rest : List K)
      → Popped c.lru rest k
      → HasRoom c (record c { cache = Map.remove k c.cache; lru = rest })
  unfolding Map.contains_key
  Popped-HasRoom c v k rest p =
      let (once, fresh) = p.kept v.once in
      let (x, found) = cached_of_listed k c v (ground (arith, p.members k, e.beq_iff k k)) in
      let shorter = Map.length-remove k c.cache x v.distinct found in
      record {
        distinct = Map.remove-Distinct k c.cache v.distinct;
        once = once;
        agree = λ j.
            ground
              (arith, p.members j, v.agree j, Map.lookup-remove k j c.cache, e.beq_iff k j, fresh);
        sized = omega (arith, p.longer, v.sized, shorter);
        free = omega (arith, v.bounded, shorter);
        same_capacity = refl;
        fewer = λ j h. ground (arith, p.members j);
      }

  make_room-HasRoom : (c : LruCache K V) → IsValid c → HasRoom c (make_room c)
  unfolding make_room
  make_room-HasRoom c v = elim (Bool-cases (leb c.capacity (length c.cache))) [
    | inr free ↦
        rw (free, make_room)
          (record {
            distinct = v.distinct;
            once = v.once;
            agree = v.agree;
            sized = v.sized;
            free = ground arith;
            same_capacity = refl;
            fewer = λ k h. h;
          })
    | inl full ↦ elim (pop_back-cases c.lru) [
      | inl (empty, q) ↦
          rw (full, q, make_room)
            (record {
              distinct = v.distinct;
              once = v.once;
              agree = v.agree;
              sized = v.sized;
              free = ground (arith, v.sized, ap length empty);
              same_capacity = refl;
              fewer = λ k h. h;
            })
      | inr (k, rest, q, p) ↦ rw (full, q, make_room) (Popped-HasRoom c v k rest p)
    ]
  ]

  inserted-IsValid :
      (k : K) (x : V) (c d : LruCache K V)
      → HasRoom c d
      → listed k d.lru ≡ false
      → IsValid (record d { cache = Map.insert k x d.cache; lru = k ∷ d.lru })
  unfolding Map.insert Map.contains_key listed Map.lookup
  inserted-IsValid k x c d r fresh =
      let same = Map.remove_absent k d.cache (ground (arith, r.agree k)) in
      record {
        distinct = Map.insert-Distinct k x d.cache r.distinct;
        once = (fresh, r.once);
        agree = λ j. ground (arith, r.agree j, same, r.same_capacity);
        sized = ground (arith, r.sized, same);
        bounded = ground (arith, r.free, same, r.same_capacity);
      }

  -- In a cache that keeps the invariant, caching a value under a key that is not cached keeps it,
  -- so that the cache holds at most as many values as its capacity, or one if that is zero. The
  -- value is there to be looked up.
  pub insert_lem :
      (k : K) (x : V) (c : LruCache K V)
      → IsValid c
      → Map.lookup k c.cache ≡ none
      → IsValid (insert k x c)
        × ((get k (insert k x c)).0 ≡ some x)
        × ((insert k x c).capacity ≡ c.capacity)
  unfolding insert get Map.contains_key
  insert_lem k x c v absent =
      let r = make_room-HasRoom c v in
      let fresh = r.fewer k (ground (arith, v.agree k)) in
      let w = inserted-IsValid k x c (make_room c) r fresh in
      (
        w,
        (get_lem k (insert k x c) w).0 ∙ Map.lookup-insert_self k x (make_room c).cache,
        r.same_capacity,
      )

  -- Dropping a key keeps the invariant; it is not cached afterwards, and the others are as before.
  pub remove_lem :
      (k j : K) (c : LruCache K V)
      → IsValid c
      → IsValid (remove k c)
        × (Map.lookup j (remove k c).cache ≡ (if k == j then none else Map.lookup j c.cache))
  unfolding remove Map.contains_key
  remove_lem k j c v = (
    elim (Bool-cases (listed k c.lru)) [
      | inl there ↦
          let (x, found) = cached_of_listed k c v there in
          rw (there, remove)
            (record {
              distinct = Map.remove-Distinct k c.cache v.distinct;
              once = unlist-Once k c.lru v.once;
              agree = λ i.
                  ground (
                    arith,
                    listed-unlist k i c.lru v.once,
                    v.agree i,
                    Map.lookup-remove k i c.cache,
                  );
              sized = omega (
                arith,
                length-unlist k c.lru there,
                v.sized,
                Map.length-remove k c.cache x v.distinct found,
              );
              bounded = omega (arith, v.bounded, Map.length-remove-le k c.cache);
            })
      | inr gone ↦
          let same = Map.remove_absent k c.cache (ground (arith, v.agree k)) in
          rw (gone, same, remove) v
    ],
    Map.lookup-remove k j c.cache,
  )
