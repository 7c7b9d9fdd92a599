-- ===== src/Memory/Cache/Refines.antt =====
-- The cache of src/memory/mod.rs does what the list of its entries does.
use zkmips_zkvm_impl_in_rust.Base.{
  ℕ, ◌≤◌, ◌≡◌, refl, ap, sym, subst, ◌∙◌, true, false, List, [], ◌∷◌, none, some, leb, Eq, ◌==◌,
  if◌then◌else◌, length, arith, Bool-cases, inl, inr, Option-cases,
}
use Prim.Native.Nat.{max}
use zkmips_zkvm_impl_in_rust.Base.Map
use zkmips_zkvm_impl_in_rust.Memory.Cache.{
  LruCache, new, pop_back, listed, unlist, get, make_room, insert, remove,
}
use zkmips_zkvm_impl_in_rust.Memory.Cache.Recency.{Once, IsValid, new-IsValid}
use zkmips_zkvm_impl_in_rust.Memory.Cache.Methods.{get_lem, insert_lem, remove_lem}
use zkmips_zkvm_impl_in_rust.Memory.Cache.Recent.{
  Call, getting, reading, removing, keys, shorten, shortened, answer, answers, touch, recent,
  recents, keys-length, listed-keys, keys-remove, last,
}

module _ {ℓ} {K V : Type ℓ} ⦃e : Eq K⦄ where
  pub record Same (c : LruCache K V) (l : List (K × V)) : Type ℓ where
    pub valid : IsValid c
    pub order : c.lru ≡ keys l
    pub found : (k : K) → Map.lookup k c.cache ≡ Map.lookup k l

  empty-Same : (capacity : ℕ) → Same (new capacity) []
  unfolding new keys
  empty-Same capacity = record { valid = new-IsValid capacity; order = refl; found = λ k. refl }

  Same-length : (c : LruCache K V) (l : List (K × V)) → Same c l → length c.cache ≡ length l
  Same-length c l s = sym s.valid.sized ∙ ap length s.order ∙ keys-length l

  keys-Once : (c : LruCache K V) (l : List (K × V)) → Same c l → Once (keys l)
  keys-Once c l s = subst Once s.order s.valid.once

  listed-Same :
      (k : K) (c : LruCache K V) (l : List (K × V))
      → Same c l
      → listed k c.lru ≡ Map.contains_key k l
  listed-Same k c l s = ap (listed k) s.order ∙ listed-keys k l

  found_there :
      (k : K) (v : V) (c : LruCache K V) (l : List (K × V))
      → Same c l
      → Map.lookup k l ≡ some v
      → ((get k c).0 ≡ some v) × Same (get k c).1 ((k, v) ∷ Map.remove k l)
  unfolding Map.contains_key Map.lookup keys get unlist
  found_there k v c l s there =
      let (value, kept, valid) = get_lem k c s.valid in
      let hit : listed k c.lru ≡ true = ground (arith, listed-Same k c l s) in
      let front : (get k c).1.lru ≡ k ∷ unlist k c.lru = rw (hit, get) refl in
      (
        value ∙ s.found k ∙ there,
        record {
          valid = valid;
          order =
              front
              ∙ ap (λ x. k ∷ x) (ap (unlist k) s.order ∙ sym (keys-remove k l (keys-Once c l s)));
          found = λ j.
              ground
                (arith, ap (Map.lookup j) kept, s.found j, Map.lookup-remove k j l, e.beq_iff k j);
        },
      )

  not_there :
      (k : K) (c : LruCache K V) (l : List (K × V))
      → Same c l
      → Map.lookup k l ≡ none
      → get k c ≡ (none, c)
  unfolding Map.contains_key get
  not_there k c l s absent =
      let miss : listed k c.lru ≡ false = ground (arith, listed-Same k c l s) in rw miss refl

  touch-Same :
      (k : K) (c : LruCache K V) (l : List (K × V))
      → Same c l
      → ((get k c).0 ≡ (touch k l).0) × Same (get k c).1 (touch k l).1
  unfolding touch
  touch-Same k c l s = elim (Option-cases (Map.lookup k l)) [
    | inl absent ↦ rw (not_there k c l s absent, absent, touch) (refl, s)
    | inr (v, there) ↦ rw (there, touch) (found_there k v c l s there)
  ]

  removing-Same :
      (k : K) (c : LruCache K V) (l : List (K × V)) → Same c l → Same (remove k c) (Map.remove k l)
  unfolding remove Map.contains_key
  removing-Same k c l s = record {
    valid = (remove_lem k k c s.valid).0;
    order = elim (Bool-cases (listed k c.lru)) [
      | inl there ↦ rw there (ap (unlist k) s.order ∙ sym (keys-remove k l (keys-Once c l s)))
      | inr gone ↦
          rw gone
            (s.order ∙ ap keys (sym (Map.remove_absent k l (ground (arith, listed-Same k c l s)))))
    ];
    found = λ j. (remove_lem k j c s.valid).1 ∙ ground (arith, s.found j, Map.lookup-remove k j l);
  }

  -- What `make_room` leaves of a full cache.
  drop_last :
      (c : LruCache K V) (l : List (K × V))
      → Same c l
      → leb c.capacity (length c.cache) ≡ true
      → ((make_room c).lru ≡ keys (shorten l))
        × ((k : K) → Map.lookup k (make_room c).cache ≡ Map.lookup k (shorten l))
  unfolding keys pop_back shorten make_room Map.lookup
  drop_last c [] s full =
      let none_left : pop_back c.lru ≡ none = ap pop_back s.order in
      rw (full, none_left, make_room) (s.order, s.found)
  drop_last c (x ∷ l) s full =
      let (k, z) = last x l in
      let popped : pop_back c.lru ≡ some (k, keys (shorten (x ∷ l))) =
        ap pop_back s.order ∙ z.popped in
      rw (full, popped, make_room)
        (
          refl,
          λ j.
              Map.lookup-remove k j c.cache
              ∙ ap (λ y. if k == j then none else y) (s.found j)
              ∙ sym (z.others (keys-Once c (x ∷ l) s) j),
        )

  make_room-Same :
      (c : LruCache K V) (l : List (K × V))
      → Same c l
      → ((make_room c).lru ≡ keys (shortened c.capacity l))
        × ((k : K) → Map.lookup k (make_room c).cache ≡ Map.lookup k (shortened c.capacity l))
  unfolding shortened make_room keys Map.lookup
  make_room-Same c l s = elim (Bool-cases (leb c.capacity (length l))) [
    | inr free ↦
        let few : leb c.capacity (length c.cache) ≡ false = rw (Same-length c l s) free in
        rw (few, make_room, free, shortened) (s.order, s.found)
    | inl full ↦
        let many : leb c.capacity (length c.cache) ≡ true = rw (Same-length c l s) full in
        rw (full, shortened) (drop_last c l s many)
  ]

  insert-Same :
      (k : K) (x : V) (c : LruCache K V) (l : List (K × V))
      → Same c l
      → Map.lookup k l ≡ none
      → Same (insert k x c) ((k, x) ∷ shortened c.capacity l)
  unfolding insert keys Map.lookup
  insert-Same k x c l s absent =
      let (order, found) = make_room-Same c l s in
      record {
        valid = (insert_lem k x c s.valid (s.found k ∙ absent)).0;
        order = ap (λ r. k ∷ r) order;
        found = λ j. ground (arith, found j, Map.lookup-insert k j x (make_room c).cache);
      }

  get-capacity : (k : K) (c : LruCache K V) → (get k c).1.capacity ≡ c.capacity
  unfolding get
  get-capacity k c = ground arith

  reading_missed :
      (k : K) (x : V) (c : LruCache K V) (l : List (K × V))
      → Same c l
      → Map.lookup k l ≡ none
      → answer (reading k x) c ≡ (none, insert k x c)
  unfolding answer
  reading_missed k x c l s absent =
      rw (not_there k c l s absent, answer)
        (ap (λ r. (none, insert k x r.1)) (not_there k c l s absent))

  reading_found :
      (k : K) (x v : V) (c : LruCache K V)
      → (get k c).0 ≡ some v
      → answer (reading k x) c ≡ (some v, (get k c).1)
  unfolding answer
  reading_found k x v c value = rw (value, answer) refl

  answer-recent :
      (n : ℕ) (call : Call K V) (c : LruCache K V) (l : List (K × V))
      → Same c l
      → c.capacity ≡ n
      → ((answer call c).0 ≡ (recent n call l).0)
        × Same (answer call c).1 (recent n call l).1
        × ((answer call c).1.capacity ≡ n)
  unfolding answer recent
  answer-recent n (getting k) c l s q =
      let (value, same) = touch-Same k c l s in (value, same, get-capacity k c ∙ q)
  answer-recent n (reading k x) c l s q = elim (Option-cases (Map.lookup k l)) [
    | inl absent ↦
        let caches = insert-Same k x c l s absent in
        let (valid, back, capacity) = insert_lem k x c s.valid (s.found k ∙ absent) in
        rw (reading_missed k x c l s absent, absent, recent)
          (refl, subst (λ m. Same (insert k x c) ((k, x) ∷ shortened m l)) q caches, capacity ∙ q)
    | inr (v, there) ↦
        let (value, same) = found_there k v c l s there in
        rw (reading_found k x v c value, there, recent) (refl, same, get-capacity k c ∙ q)
  ]
  answer-recent n (removing k) c l s q = (refl, removing-Same k c l s, q)

  answers-recents :
      (n : ℕ) (calls : List (Call K V)) (c : LruCache K V) (l : List (K × V))
      → Same c l
      → c.capacity ≡ n
      → ((answers calls c).0 ≡ (recents n calls l).0)
        × Same (answers calls c).1 (recents n calls l).1
        × ((answers calls c).1.capacity ≡ n)
  unfolding answers recents
  answers-recents n [] c l s q = (refl, s, q)
  answers-recents n (call ∷ calls) c l s q =
      let (value, same, kept) = answer-recent n call c l s q in
      let (values, later, capacity) =
        answers-recents n calls (answer call c).1 (recent n call l).1 same kept in
      (ground (arith, value, values), later, capacity)

  -- A cache answers every sequence of lookups, lookups that insert the value where they miss, and
  -- removals, from an empty cache of any capacity on, as the list of
  -- its entries does in which a value that is read or cached comes to the front and the last one is
  -- dropped when there is no room. Its deque holds the keys of that list in that order, and it
  -- never holds more than its capacity, or than one value if that is zero.
  pub new-answers :
      (n : ℕ) (calls : List (Call K V))
      → ((answers calls (new n)).0 ≡ (recents n calls []).0)
        × ((answers calls (new n)).1.lru ≡ keys (recents n calls []).1)
        × (length (answers calls (new n)).1.cache ≤ max 1 n)
  unfolding new
  new-answers n calls =
      let (values, same, kept) = answers-recents n calls (new n) [] (empty-Same n) refl in
      (
        values,
        same.order,
        subst (λ m. length (answers calls (new n)).1.cache ≤ max 1 m) kept same.valid.bounded,
      )
