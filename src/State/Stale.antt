-- ===== src/State/Stale.antt =====
-- src/state/mod.rs: the cache of storage after an update, and the accounts after a revert.
use zkmips_zkvm_impl_in_rust.Base.{
  ℕ, Bool, true, false, ◌≤◌, ◌≡◌, ◌≢◌, refl, ap, sym, List, [], ◌∷◌, Option, none, some, Outcome,
  ok, Exec, done, bytes_eq, pair_eq, arith,
}
use zkmips_zkvm_impl_in_rust.Base.Map.{lookup}
use zkmips_zkvm_impl_in_rust.State.{StateError, Account, AccountUpdate, Services, StateManager}
use zkmips_zkvm_impl_in_rust.Base.Method.{Method, pure}
use zkmips_zkvm_impl_in_rust.State.Calls.{
  on_storage, on_snapshots, of_trie, on_trie, or_invalid, cached, cached_or,
}
use zkmips_zkvm_impl_in_rust.State.Reads.{
  get_account, read_account, decoded, cache_account, get_storage,
}
use zkmips_zkvm_impl_in_rust.State.Updates.{
  update_account, write_account, new_storage_root, new_code_hash, account_or_new, cleared,
  revert_to_snapshot,
}
use zkmips_zkvm_impl_in_rust.State.Rules.{method-ok, Stays, Stays-bind, Stays-lift, Safe, Safe-done}
use zkmips_zkvm_impl_in_rust.State.Coherence.{account_of, account_of-some, get_account-Coherent}
use zkmips_zkvm_impl_in_rust.State.Empty.{reads_nothing}
use zkmips_zkvm_impl_in_rust.State.Trie.Refines.{EmptyReads}
use zkmips_zkvm_impl_in_rust.State.Trie
use zkmips_zkvm_impl_in_rust.State.Trie.{TrieError, TrieLibrary, MerklePatriciaTrie, map_err}

module _ {Db View S N : Type 0} (library : TrieLibrary Db View) (services : Services Db S N)
    (c : List ((List ℕ × List ℕ) × (List ℕ × ℕ))) where
  -- The cached storage is this.
  abbrev Same : StateManager Db S N → Type 0
  Same m = m.cached_storage ≡ c

  pure-Same : {A : Type 0} (x : A) → Stays {E = StateError} Same (pure x)
  pure-Same x = record { at = λ m p. p }

  on_storage-Same : {A : Type 0} (f : Exec StateError S A) → Stays Same (on_storage f)
  on_storage-Same f = record { at = λ m p. p }

  of_trie-Same :
      {A : Type 0} (f : MerklePatriciaTrie Db → Outcome TrieError A) → Stays Same (of_trie f)
  of_trie-Same f = record { at = λ m p. p }

  cache_account-Same :
      (a : List ℕ) (account : Account) (n : ℕ)
      → Stays Same (cache_account library services a account n)
  unfolding cache_account
  cache_account-Same a account n = record { at = λ m p. p }

  decoded-Same :
      (a : List ℕ) (n : ℕ) (o : Option (List ℕ)) → Stays Same (decoded library services a n o)
  unfolding decoded
  decoded-Same a n none = pure-Same none
  decoded-Same a n (some bytes) =
      Stays-bind _ (Stays-lift _ (or_invalid (services.deserialize bytes)))
        (λ account. Stays-bind _ (cache_account-Same a account n) (λ _. pure-Same (some account)))

  read_account-Same :
      (held : Bool) (a : List ℕ) (n : ℕ) → Stays Same (read_account library services held a n)
  unfolding read_account
  read_account-Same true a n = record { at = λ m p. tt }
  read_account-Same false a n =
      Stays-bind _ (of_trie-Same (λ t. Trie.get library t a)) (λ o. decoded-Same a n o)

  value_or-Same :
      {A : Type 0} (f : Method StateError (StateManager Db S N) (Option A))
      → Stays Same f
      → (x : Option A) (m : StateManager Db S N) → Same m
      → Safe Same (cached_or x f m)
  value_or-Same f k (some a) m p = p
  value_or-Same f k none m p = k.at m p

  get_account-Same :
      (held : Bool) (a : List ℕ) (n : ℕ) → Stays Same (get_account library services held a n)
  unfolding get_account
  get_account-Same held a n = record {
    at = λ m p. value_or-Same _ (read_account-Same held a n) _ m p;
  }

  new_storage_root-Same :
      (a : List ℕ) (l : List (List ℕ × List ℕ)) (root : List ℕ)
      → Stays Same (new_storage_root library services a l root)
  unfolding new_storage_root
  new_storage_root-Same a [] root = pure-Same root
  new_storage_root-Same a (x ∷ l) root = on_storage-Same (services.update_storage a (x ∷ l) root)

  new_code_hash-Same :
      (code : Option (List ℕ)) (hash : List ℕ)
      → Stays Same (new_code_hash library services code hash)
  unfolding new_code_hash
  new_code_hash-Same none hash = pure-Same hash
  new_code_hash-Same (some code) hash =
      Stays-bind _ (on_storage-Same (services.store_code (services.blake3 code) code))
        (λ _. pure-Same (services.blake3 code))

  on_trie-Same :
      {A : Type 0} (f : Exec TrieError (MerklePatriciaTrie Db) A) → Stays Same (on_trie f)
  on_trie-Same f = record { at = λ m p. p }

  write_account-Same :
      (a : List ℕ) (update : AccountUpdate) (n : ℕ) (old : Account)
      → Stays Same (write_account library services a update n old)
  unfolding write_account
  write_account-Same a update n old =
      Stays-bind _ (new_storage_root-Same a update.storage old.storage_root) (λ root.
        Stays-bind _ (new_code_hash-Same update.code old.code_hash) (λ hash.
          Stays-bind _ (Stays-lift _ (or_invalid (services.serialize _))) (λ bytes.
            Stays-bind _ (on_trie-Same (Trie.insert library a bytes))
              (λ _. cache_account-Same a _ n))))

  update_account-Same :
      (held : Bool) (a : List ℕ) (update : AccountUpdate) (n : ℕ)
      → Stays Same (update_account library services held a update n)
  unfolding update_account
  update_account-Same held a update n =
      Stays-bind _ (get_account-Same held a n)
        (λ o. write_account-Same a update n (account_or_new library services n o))

module _ {Db View S N : Type 0} (library : TrieLibrary Db View) (services : Services Db S N) where
  -- A value of the storage in the cache is still what `get_storage` answers after the account was
  -- updated, whatever the update has written to that key, for every block up to the one it is cached for.
  pub get_storage_stale :
      (held : Bool) (a key : List ℕ) (update : AccountUpdate) (n k last : ℕ) (v : List ℕ)
      (r : Outcome StateError Unit) (m t : StateManager Db S N)
      → lookup (a, key) m.cached_storage ≡ some (v, last)
      → k ≤ last
      → update_account library services held a update n m ≡ done (r, t)
      → get_storage library services a key k t ≡ done (ok (some v), t)
  unfolding get_storage cached
  get_storage_stale held a key update n k last v r m t l le e =
      let same : t.cached_storage ≡ m.cached_storage =
        Safe-done _ _ r t e
          ((update_account-Same library services m.cached_storage held a update n).at m refl) in
      let q : cached (lookup (a, key) t.cached_storage) k ≡ some v = rw (same, l) (ground arith) in
      rw q refl

  revert_to_snapshot-empties :
      (n : ℕ) (m t : StateManager Db S N)
      → revert_to_snapshot library services n m ≡ done (ok tt, t)
      → (t.trie.db ≡ library.new) × (t.cached_accounts ≡ [])
  unfolding revert_to_snapshot Trie.from_root Trie.new
  revert_to_snapshot-empties n m t e =
      let (root, m1, e1, q1) = method-ok (on_snapshots (services.get_snapshot n)) _ m tt t e in
      let ct : cleared library services (record { db = library.new; root = some root }) m1 ≡ t =
        cc in
      (ap (λ x. x.trie.db) (sym ct), ap (λ x. x.cached_accounts) (sym ct))

  lookup-nothing : (b : List ℕ) → lookup {V = Account × ℕ} b [] ≡ none
  unfolding lookup
  lookup-nothing b = refl

  -- After a revert to any snapshot no account is found: the trie that it makes has the root of the
  -- snapshot and an empty database.
  pub revert_to_snapshot_empty :
      (reads : EmptyReads library) (n k : ℕ) (m t u : StateManager Db S N) (a : List ℕ)
      (account : Account)
      → revert_to_snapshot library services n m ≡ done (ok tt, t)
      → get_account library services false a k t ≢ done (ok (some account), u)
  revert_to_snapshot_empty reads n k m t u a account e q =
      let (is_new, cache) = revert_to_snapshot-empties n m t e in
      let (v, ev, et, hv) =
        get_account-Coherent library services a k t
          (λ b x j l. absurd (cc (cache, l, lookup-nothing b))) in
      let found : account_of library services (Trie.get library t.trie a) ≡ ok (some account) =
        cc in
      let (bytes, eb) =
        account_of-some library services (Trie.get library t.trie a) account found in
      reads_nothing services reads t.trie a bytes is_new eb
