-- ===== src/State/Trie.antt =====
-- src/state/trie.rs: `MerklePatriciaTrie`. The crate patricia_trie is a parameter: its database, a
-- view of the database at a root, and what its calls are relied on for. Keys, values and hashes are
-- lists of bytes.
pub mod Refines
pub mod Table
mod Tests
use zkmips_zkvm_impl_in_rust.Base.{
  ℕ, Bool, true, false, List, [], ◌∷◌, Option, none, some, Outcome, ok, err, panic, Exec, map,
}

pub data TrieError : Type 0 where
  database_error : List ℕ → TrieError
  invalid_node : List ℕ → TrieError
  invalid_proof : List ℕ → TrieError

abbrev pub map_err : {E G A : Type 0} → (E → G) → Outcome E A → Outcome G A
map_err f (ok a) = ok a
map_err f (err e) = err (f e)
map_err f panic = panic

-- `TrieDB` and `TrieDBMut`; an error is its string. A `TrieDBMut` is a database and the root of a trie
-- in it: it starts at the root of the empty trie where it is given none, and its `insert` and
-- `remove` answer the root behind them too, for `root`.
pub record TrieLibrary (Db View : Type 0) : Type 0 where
  pub new : Db
  pub new_with_root : Db → List ℕ → Outcome (List ℕ) View
  pub get : View → List ℕ → Outcome (List ℕ) (Option (List ℕ))
  pub get_proof : View → List ℕ → Outcome (List ℕ) (List (List ℕ))
  pub verify_proof : View → List ℕ → List (List ℕ) → Outcome (List ℕ) Bool
  pub iter : View → List (Outcome (List ℕ) (List ℕ × List ℕ))
  pub empty_root : List ℕ
  pub insert : List ℕ → List ℕ → List ℕ → Exec (List ℕ) Db (Unit × List ℕ)
  pub remove : List ℕ → List ℕ → Exec (List ℕ) Db (Bool × List ℕ)

pub record MerklePatriciaTrie (Db : Type 0) : Type 0 where
  pub db : Db
  pub root : Option (List ℕ)

module _ {Db View : Type 0} (library : TrieLibrary Db View) where
  unfoldable pub new : MerklePatriciaTrie Db
  new = record { db = library.new; root = none }

  unfoldable pub from_root : List ℕ → Outcome TrieError (MerklePatriciaTrie Db)
  unfolding new
  from_root root = ok (record new { root = some root })

  abbrev pub opened :
      {A : Type 0} → Outcome (List ℕ) View → (View → Outcome TrieError A) → Outcome TrieError A
  opened (ok view) read = read view
  opened (err e) read = err (database_error e)
  opened panic read = panic

  -- What every read does: `without` where there is no root, and `read` of the view at the root.
  abbrev pub at_root :
      {A : Type 0} → Db → Option (List ℕ) → A → (View → Outcome TrieError A) → Outcome TrieError A
  at_root db none without read = ok without
  at_root db (some root) without read = opened (library.new_with_root db root) read

  unfoldable pub get : MerklePatriciaTrie Db → List ℕ → Outcome TrieError (Option (List ℕ))
  get trie key =
      at_root trie.db trie.root none (λ view. map_err database_error (library.get view key))

  -- The root is taken anew where the library has done its part.
  abbrev pub rooted :
      {A : Type 0}
      → MerklePatriciaTrie Db
      → Outcome (List ℕ) (A × List ℕ) × Db
      → Outcome TrieError A × MerklePatriciaTrie Db
  rooted trie (ok (a, root), db) = (ok a, record { db = db; root = some root })
  rooted trie (err e, db) = (err (database_error e), record trie { db = db })
  rooted trie (panic, db) = (panic, record trie { db = db })

  -- `TrieDBMut::new(&mut self.db)` is given no root.
  unfoldable pub insert : List ℕ → List ℕ → Exec TrieError (MerklePatriciaTrie Db) Unit
  insert key value trie = rooted trie (library.insert key value library.empty_root trie.db)

  unfoldable pub delete : List ℕ → Exec TrieError (MerklePatriciaTrie Db) Bool
  delete key trie = rooted trie (library.remove key library.empty_root trie.db)

  -- "No root hash"
  abbrev pub no_root_hash : List ℕ
  no_root_hash = 78 ∷ 111 ∷ 32 ∷ 114 ∷ 111 ∷ 111 ∷ 116 ∷ 32 ∷ 104 ∷ 97 ∷ 115 ∷ 104 ∷ []

  unfoldable pub root_hash : MerklePatriciaTrie Db → Outcome TrieError (List ℕ)
  root_hash trie = elim trie.root [ some root ↦ ok root | none ↦ err (invalid_node no_root_hash) ]

  unfoldable pub get_proof : MerklePatriciaTrie Db → List ℕ → Outcome TrieError (List (List ℕ))
  get_proof trie key =
      at_root trie.db trie.root [] (λ view. map_err database_error (library.get_proof view key))

  unfoldable pub verify_proof :
      MerklePatriciaTrie Db → List ℕ → List (List ℕ) → Outcome TrieError Bool
  verify_proof trie key proof =
      at_root trie.db trie.root false
        (λ view. map_err invalid_proof (library.verify_proof view key proof))

  unfoldable pub iter :
      MerklePatriciaTrie Db → Outcome TrieError (List (Outcome TrieError (List ℕ × List ℕ)))
  iter trie =
      at_root trie.db trie.root [] (λ view. ok (map (map_err database_error) (library.iter view)))
