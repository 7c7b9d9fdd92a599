-- ===== src/State/Reads.antt =====
-- src/state/mod.rs: `StateManager::new` and the reads through the cache. `held` says whether the caller
-- holds the write lock of the trie, as `update_state` does.
use zkmips_zkvm_impl_in_rust.Base.{
  ℕ, Bool, true, false, List, [], Option, none, some, ok, bytes_eq, nat_eq, pair_eq, done,
}
use zkmips_zkvm_impl_in_rust.Base.Map.{lookup, insert}
use zkmips_zkvm_impl_in_rust.State.{Account, Services, StateManager}
use zkmips_zkvm_impl_in_rust.Base.Method.{pure, lift, forever, ◌>>=◌}
use zkmips_zkvm_impl_in_rust.State.Trie
use zkmips_zkvm_impl_in_rust.State.Trie.{TrieError, TrieLibrary, MerklePatriciaTrie, map_err}
use zkmips_zkvm_impl_in_rust.State.Calls.{Op, on_storage, of_trie, or_invalid, cached, cached_or}

module _ {Db View S N : Type 0} (library : TrieLibrary Db View) (services : Services Db S N) where
  abbrev Run : Type 0 → Type 0
  Run A = Op Db S N A

  unfoldable pub new : S → N → StateManager Db S N
  new storage snapshots = record {
    trie = Trie.new library;
    storage = storage;
    snapshots = snapshots;
    cached_accounts = [];
    cached_storage = [];
    cached_code = [];
    pending_updates = [];
  }

  unfoldable pub cache_account : List ℕ → Account → ℕ → Run Unit
  cache_account address account block_number m = done (
    ok tt,
    record m { cached_accounts = insert address (account, block_number) m.cached_accounts },
  )

  -- What `get_account` does with the bytes of the trie.
  unfoldable pub decoded : List ℕ → ℕ → Option (List ℕ) → Run (Option Account)
  unfolding cache_account
  decoded address block_number none = pure none
  decoded address block_number (some account_bytes) = do
    account ← lift (or_invalid (services.deserialize account_bytes))
    _ ← cache_account address account block_number
    pure (some account)

  unfoldable pub read_account : Bool → List ℕ → ℕ → Run (Option Account)
  unfolding decoded
  read_account true address block_number = forever
  read_account false address block_number = do
    account_bytes ← of_trie (λ t. Trie.get library t address)
    decoded address block_number account_bytes

  unfoldable pub get_account : Bool → List ℕ → ℕ → Run (Option Account)
  unfolding cached read_account
  get_account held address block_number m =
      cached_or (cached (lookup address m.cached_accounts) block_number)
        (read_account held address block_number) m

  unfoldable pub cache_storage : List ℕ × List ℕ → ℕ → Option (List ℕ) → Run Unit
  cache_storage key block_number none m = done (ok tt, m)
  cache_storage key block_number (some value) m =
      done (ok tt, record m { cached_storage = insert key (value, block_number) m.cached_storage })

  -- What `get_storage` does once it has the account.
  unfoldable pub stored : List ℕ → List ℕ → ℕ → Option Account → Run (Option (List ℕ))
  unfolding cache_storage
  stored address key block_number none = pure none
  stored address key block_number (some account) = do
    value ← on_storage (services.get_storage address key account.storage_root)
    _ ← cache_storage (address, key) block_number value
    pure value

  unfoldable pub read_storage : List ℕ → List ℕ → ℕ → Run (Option (List ℕ))
  unfolding get_account stored
  read_storage address key block_number = do
    account ← get_account false address block_number
    stored address key block_number account

  unfoldable pub get_storage : List ℕ → List ℕ → ℕ → Run (Option (List ℕ))
  unfolding cached read_storage
  get_storage address key block_number m =
      cached_or (cached (lookup (address, key) m.cached_storage) block_number)
        (read_storage address key block_number) m

  unfoldable pub cache_code : List ℕ → Option (List ℕ) → Run Unit
  cache_code code_hash none m = done (ok tt, m)
  cache_code code_hash (some code) m =
      done (ok tt, record m { cached_code = insert code_hash code m.cached_code })

  unfoldable pub read_code : List ℕ → Run (Option (List ℕ))
  unfolding cache_code
  read_code code_hash = do
    code ← on_storage (services.get_code code_hash)
    _ ← cache_code code_hash code
    pure code

  unfoldable pub get_code : List ℕ → Run (Option (List ℕ))
  unfolding read_code
  get_code code_hash m = cached_or (lookup code_hash m.cached_code) (read_code code_hash) m
