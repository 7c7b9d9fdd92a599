-- ===== src/State/Trie/Refines.antt =====
-- src/state/trie.rs: what is in the trie, as a function of the key.
use zkmips_zkvm_impl_in_rust.Base.{
  ℕ, ◌≡◌, ◌≢◌, refl, ap, sym, ◌∙◌, Bool, true, false, List, [], ◌∷◌, Option, none, some, Outcome,
  ok, err, panic, Exec, pure, ◌>>=◌, ◌==◌, bytes_eq, if◌then◌else◌, map,
}
use zkmips_zkvm_impl_in_rust.Base.Keeps.{bind-ok}
use zkmips_zkvm_impl_in_rust.State.Trie
use zkmips_zkvm_impl_in_rust.State.Trie.{TrieError, TrieLibrary, MerklePatriciaTrie, map_err}

abbrev pub Contents : Type 0
Contents = List ℕ → Option (List ℕ)

abbrev pub is_some : {A : Type 0} → Option A → Bool
is_some (some a) = true
is_some none = false

-- What can be read in a database at a root.
abbrev pub ReadsAs : {Db View : Type 0} → TrieLibrary Db View → Db → List ℕ → Contents → Type 0
ReadsAs {View = View} library db root f =
    (view : View) × (library.new_with_root db root ≡ ok view)
    × ((k : List ℕ) → library.get view k ≡ ok (f k))

-- What is relied on: every root of a database has contents, none at the root of the empty trie, and
-- `insert` and `remove` give the root of a trie with one key more or less, which can be read.
pub record IsTrie {Db View : Type 0} (library : TrieLibrary Db View) : Type 0 where
  pub contents : Db → List ℕ → Contents
  pub contents-empty : (db : Db) (k : List ℕ) → contents db library.empty_root k ≡ none
  pub insert-contents :
      (k v root r : List ℕ) (db n : Db)
      → library.insert k v root db ≡ (ok (tt, r), n)
      → ReadsAs library n r (contents n r)
        × ((j : List ℕ) → contents n r j ≡ (if k == j then some v else contents db root j))
  pub remove-contents :
      (k root r : List ℕ) (b : Bool) (db n : Db)
      → library.remove k root db ≡ (ok (b, r), n)
      → ReadsAs library n r (contents n r)
        × (b ≡ is_some (contents db root k))
        × ((j : List ℕ) → contents n r j ≡ (if k == j then none else contents db root j))

-- Nothing is read of an empty database, whatever root it is looked at with.
pub record EmptyReads {Db View : Type 0} (library : TrieLibrary Db View) : Type 0 where
  pub get-empty :
      (root : List ℕ) (view : View) (k v : List ℕ)
      → library.new_with_root library.new root ≡ ok view
      → library.get view k ≢ ok (some v)

pub data Op : Type 0 where
  insert : List ℕ → List ℕ → Op
  delete : List ℕ → Op

-- The contents behind an operation, whatever they were before it.
unfoldable pub left_by : Op → Contents
left_by (insert k v) j = if k == j then some v else none
left_by (delete k) j = none

-- The contents behind the last of the operations.
unfoldable pub last_left : Contents → List Op → Contents
last_left f [] = f
last_left f (op ∷ ops) = last_left (left_by op) ops

abbrev pub is_insert : Op → Bool
is_insert (insert k v) = true
is_insert (delete k) = false

module _ {Db View : Type 0} (library : TrieLibrary Db View) where
  -- An insertion answers nothing, which counts as true.
  abbrev pub inserted :
      Outcome TrieError Unit × MerklePatriciaTrie Db
      → Outcome TrieError Bool × MerklePatriciaTrie Db
  inserted (ok _, t) = (ok true, t)
  inserted (err e, t) = (err e, t)
  inserted (panic, t) = (panic, t)

  unfoldable pub apply : Op → Exec TrieError (MerklePatriciaTrie Db) Bool
  apply (insert k v) trie = inserted (Trie.insert library k v trie)
  apply (delete k) trie = Trie.delete library k trie

  unfoldable pub run : List Op → Exec TrieError (MerklePatriciaTrie Db) (List Bool)
  unfolding apply
  run [] = pure []
  run (op ∷ ops) = do b ← apply op; bs ← run ops; pure (b ∷ bs)

  -- The trie has these contents.
  abbrev pub Holds : MerklePatriciaTrie Db → Contents → Type 0
  Holds t f = (k : List ℕ) → Trie.get library t k ≡ ok (f k)

none_either : (b : Bool) (x : Option (List ℕ)) → x ≡ none → (if b then none else x) ≡ none
none_either true x e = refl
none_either false x e = e

module _ {Db View : Type 0} {library : TrieLibrary Db View} (laws : IsTrie library) where
  get_at :
      (db : Db) (root : List ℕ) (f g : Contents)
      → ReadsAs library db root f
      → ((k : List ℕ) → f k ≡ g k)
      → Holds library (record { db = db; root = some root }) g
  unfolding Trie.get
  get_at db root f g (view, opens, reads) same k = rw (opens, reads k) (ap ok (same k))

  rooted-insert :
      (k v : List ℕ) (t u : MerklePatriciaTrie Db) (x : Unit)
      (r : Outcome (List ℕ) (Unit × List ℕ) × Db)
      → library.insert k v library.empty_root t.db ≡ r
      → Trie.rooted library t r ≡ (ok x, u)
      → Holds library u (left_by (insert k v))
  unfolding left_by
  rooted-insert k v t u x (ok (y, root), db) q e =
      let (reads, same) = laws.insert-contents k v library.empty_root root t.db db q in
      let at_end : record { db = db; root = some root } ≡ u = cc in
      λ j. rw (← at_end) (
        get_at db root (laws.contents db root) (left_by (insert k v)) reads
          (λ i.
            same i
            ∙ ap (λ (c : Option (List ℕ)). if k == i then some v else c)
                (laws.contents-empty t.db i))
          j)
  rooted-insert k v t u x (err y, db) q e = absurd cc
  rooted-insert k v t u x (panic, db) q e = absurd cc

  rooted-remove :
      (k : List ℕ) (t u : MerklePatriciaTrie Db) (b : Bool)
      (r : Outcome (List ℕ) (Bool × List ℕ) × Db)
      → library.remove k library.empty_root t.db ≡ r
      → Trie.rooted library t r ≡ (ok b, u)
      → (b ≡ false) × Holds library u (left_by (delete k))
  unfolding left_by
  rooted-remove k t u b (ok (c, root), db) q e =
      let (reads, answer, same) = laws.remove-contents k library.empty_root root c t.db db q in
      let at_end : record { db = db; root = some root } ≡ u = cc in
      let answered : c ≡ b = cc in
      (
        sym answered ∙ answer ∙ ap is_some (laws.contents-empty t.db k),
        λ j. rw (← at_end) (
            get_at db root (laws.contents db root) (left_by (delete k)) reads
              (λ i. same i ∙ none_either (k == i) _ (laws.contents-empty t.db i)) j),
      )
  rooted-remove k t u b (err y, db) q e = absurd cc
  rooted-remove k t u b (panic, db) q e = absurd cc

  pub insert-Holds :
      (k v : List ℕ) (t u : MerklePatriciaTrie Db)
      → Trie.insert library k v t ≡ (ok tt, u)
      → Holds library u (left_by (insert k v))
  unfolding Trie.insert
  insert-Holds k v t u e = rooted-insert k v t u tt _ refl e

  apply-Holds :
      (op : Op) (t u : MerklePatriciaTrie Db) (b : Bool)
      → apply library op t ≡ (ok b, u)
      → (b ≡ is_insert op) × Holds library u (left_by op)
  unfolding apply Trie.delete
  apply-Holds (insert k v) t u b e = go (Trie.insert library k v t) refl e
    where
      go :
          (r : Outcome TrieError Unit × MerklePatriciaTrie Db)
          → Trie.insert library k v t ≡ r
          → inserted library r ≡ (ok b, u)
          → (b ≡ true) × Holds library u (left_by (insert k v))
      go (ok y, w) q f = let w_is_u : w ≡ u = cc in (cc, insert-Holds k v t u (rw w_is_u at q))
      go (err y, w) q f = absurd cc
      go (panic, w) q f = absurd cc
  apply-Holds (delete k) t u b e = rooted-remove k t u b _ refl e

  run-Holds :
      (ops : List Op) (t u : MerklePatriciaTrie Db) (f : Contents) (bs : List Bool)
      → Holds library t f
      → run library ops t ≡ (ok bs, u)
      → (bs ≡ map is_insert ops) × Holds library u (last_left f ops)
  unfolding run last_left
  run-Holds [] t u f bs h e = let q : t ≡ u = cc in (cc, λ k. rw (← q) (h k))
  run-Holds (op ∷ ops) t u f bs h e =
      let (b, t1, e1, q1) = bind-ok (apply library op) _ t bs u e in
      let (cs, t2, e2, q2) = bind-ok (run library ops) _ t1 bs u q1 in
      let (p, h1) = apply-Holds op t t1 b e1 in
      let (ps, h2) = run-Holds ops t1 t2 (left_by op) cs h1 e2 in
      let el : b ∷ cs ≡ bs = cc in
      let tu : t2 ≡ u = cc in
      (sym el ∙ ap (λ x. x ∷ cs) p ∙ ap (λ l. is_insert op ∷ l) ps, λ k. rw (← tu) (h2 k))

  -- Of insertions and deletions in a new trie, none of which fails, only the last one leaves a trace:
  -- each works on an empty trie. So every deletion answers that the key was not there, and what is
  -- read afterwards is the last insertion alone if it comes last, and nothing if a deletion does.
  pub run-get :
      (ops : List Op) (bs : List Bool) (t : MerklePatriciaTrie Db)
      → run library ops (Trie.new library) ≡ (ok bs, t)
      → (bs ≡ map is_insert ops) × Holds library t (last_left (λ k. none) ops)
  unfolding Trie.new Trie.get
  run-get ops bs t e = run-Holds ops (Trie.new library) t (λ k. none) bs (λ k. refl) e
