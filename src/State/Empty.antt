-- ===== src/State/Empty.antt =====
-- src/state/mod.rs: a manager with an empty database and no account in its cache, and what its reads
-- bring it to.
use zkmips_zkvm_impl_in_rust.Base.{
  bytes_eq, ℕ, false, ◌≡◌, ◌≢◌, refl, List, [], Option, none, some, Outcome, ok, err, panic, Exec,
  done,
}
use zkmips_zkvm_impl_in_rust.Base.Map.{lookup}
use zkmips_zkvm_impl_in_rust.State.{StateError, trie_error, Account, Services, StateManager}
use zkmips_zkvm_impl_in_rust.Base.Method.{Method, pure, next}
use zkmips_zkvm_impl_in_rust.State.Calls.{on_storage, on_snapshots, of_trie, reading, cached_or}
use zkmips_zkvm_impl_in_rust.State.Reads.{
  get_account, read_account, decoded, get_storage, read_storage, stored, cache_storage, get_code,
  read_code, cache_code,
}
use zkmips_zkvm_impl_in_rust.State.Rules.{Safe, Stays, Stays-bind}
use zkmips_zkvm_impl_in_rust.State.Trie
use zkmips_zkvm_impl_in_rust.State.Trie.Refines.{EmptyReads}
use zkmips_zkvm_impl_in_rust.State.Trie.{TrieLibrary, MerklePatriciaTrie, map_err, opened}

module _ {Db View S N : Type 0} (library : TrieLibrary Db View) (services : Services Db S N) where
  -- An empty database, and no account in the cache.
  pub record Idle (m : StateManager Db S N) : Type 0 where
    pub is_empty : m.trie.db ≡ library.new
    pub uncached : m.cached_accounts ≡ []

module _ {Db View S N : Type 0} {library : TrieLibrary Db View} (services : Services Db S N)
    (reads : EmptyReads library) where
  pub reads_nothing :
      (t : MerklePatriciaTrie Db) (k v : List ℕ)
      → t.db ≡ library.new
      → Trie.get library t k ≢ ok (some v)
  unfolding Trie.get
  reads_nothing t k v h = go t.root h
    where
      go_view :
          (root : List ℕ) (o : Outcome (List ℕ) View)
          → library.new_with_root library.new root ≡ o
          → opened library o (λ view. map_err Trie.database_error (library.get view k))
            ≢ ok (some v)
      go_view root (ok view) e q = go_get (library.get view k) refl q
        where
          go_get :
              (r : Outcome (List ℕ) (Option (List ℕ)))
              → library.get view k ≡ r
              → map_err Trie.database_error r ≢ ok (some v)
          go_get (ok x) p q = reads.get-empty root view k v e (cc)
          go_get (err x) p q = cc
          go_get panic p q = cc
      go_view root (err x) e q = cc
      go_view root panic e q = cc

      go :
          (root : Option (List ℕ))
          → t.db ≡ library.new
          → Trie.at_root library t.db root none
              (λ view. map_err Trie.database_error (library.get view k))
            ≢ ok (some v)
      go none h q = cc
      go (some root) h q = go_view root (library.new_with_root library.new root) refl (rw h at q)

  -- Any state of the parts but an empty database and an empty cache of accounts.
  abbrev pub KeepsIdle : {A : Type 0} → Method StateError (StateManager Db S N) A → Type 0
  KeepsIdle f = Stays (Idle library services) f

  pub on_storage-Idle : {A : Type 0} (f : Exec StateError S A) → KeepsIdle (on_storage f)
  on_storage-Idle f = record { at = λ m p. record { is_empty = p.is_empty; uncached = p.uncached } }

  pub on_snapshots-Idle : {A : Type 0} (f : Exec StateError N A) → KeepsIdle (on_snapshots f)
  on_snapshots-Idle f = record {
    at = λ m p. record { is_empty = p.is_empty; uncached = p.uncached };
  }

  pub of_trie-Idle :
      {A : Type 0} (f : MerklePatriciaTrie Db → Outcome Trie.TrieError A) → KeepsIdle (of_trie f)
  of_trie-Idle f = record { at = λ m p. p }

  pub reading-Idle :
      {A : Type 0} (f : StateManager Db S N → Outcome StateError A) → KeepsIdle (reading f)
  reading-Idle f = record { at = λ m p. p }

  pub pure-Idle : {A : Type 0} (a : A) → KeepsIdle (pure a)
  pure-Idle a = record { at = λ m p. p }

  -- An account that is not in the cache is not in the trie either.
  pub read_account-Idle : (a : List ℕ) (n : ℕ) → KeepsIdle (read_account library services false a n)
  unfolding read_account decoded
  read_account-Idle a n = record {
    at = λ m p. go m p (Trie.get library m.trie a) (λ v. reads_nothing m.trie a v p.is_empty);
  }
    where
      go :
          (m : StateManager Db S N)
          → Idle library services m
          → (r : Outcome Trie.TrieError (Option (List ℕ))) → ((v : List ℕ) → r ≢ ok (some v))
          → Safe
              (Idle library services)
              (next (done (map_err trie_error r, m)) (decoded library services a n))
      go m p (ok none) h = p
      go m p (ok (some v)) h = absurd (h v refl)
      go m p (err e) h = p
      go m p panic h = p

  pub value_or-Idle :
      {A : Type 0} (f : Method StateError (StateManager Db S N) (Option A))
      → KeepsIdle f
      → (x : Option A) (m : StateManager Db S N) → Idle library services m
      → Safe (Idle library services) (cached_or x f m)
  value_or-Idle f k (some a) m p = p
  value_or-Idle f k none m p = k.at m p

  pub get_account-Idle : (a : List ℕ) (n : ℕ) → KeepsIdle (get_account library services false a n)
  unfolding get_account
  get_account-Idle a n = record { at = λ m p. value_or-Idle _ (read_account-Idle a n) _ m p }

  pub cache_storage-Idle :
      (k : List ℕ × List ℕ) (n : ℕ) (v : Option (List ℕ))
      → KeepsIdle (cache_storage library services k n v)
  unfolding cache_storage
  cache_storage-Idle k n none = record { at = λ m p. p }
  cache_storage-Idle k n (some v) = record {
    at = λ m p. record { is_empty = p.is_empty; uncached = p.uncached };
  }

  pub stored-Idle :
      (a key : List ℕ) (n : ℕ) (o : Option Account) → KeepsIdle (stored library services a key n o)
  unfolding stored
  stored-Idle a key n none = pure-Idle none
  stored-Idle a key n (some account) =
      Stays-bind _ (on_storage-Idle _)
        (λ v. Stays-bind _ (cache_storage-Idle (a, key) n v) (λ _. pure-Idle v))

  pub get_storage-Idle : (a key : List ℕ) (n : ℕ) → KeepsIdle (get_storage library services a key n)
  unfolding get_storage read_storage
  get_storage-Idle a key n = record {
    at = λ m p. value_or-Idle _ (Stays-bind _ (get_account-Idle a n) (stored-Idle a key n)) _ m p;
  }

  pub cache_code-Idle :
      (k : List ℕ) (v : Option (List ℕ)) → KeepsIdle (cache_code library services k v)
  unfolding cache_code
  cache_code-Idle k none = record { at = λ m p. p }
  cache_code-Idle k (some v) = record {
    at = λ m p. record { is_empty = p.is_empty; uncached = p.uncached };
  }

  pub get_code-Idle : (k : List ℕ) → KeepsIdle (get_code library services k)
  unfolding get_code read_code
  get_code-Idle k = record {
    at = λ m p.
        value_or-Idle _
          (Stays-bind _ (on_storage-Idle (services.get_code k))
            (λ v. Stays-bind _ (cache_code-Idle k v) (λ _. pure-Idle v)))
          (lookup k m.cached_code) m p;
  }
