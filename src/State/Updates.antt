-- ===== src/State/Updates.antt =====
-- src/state/mod.rs: the updates, the snapshots and the transactions of `StateManager`.
use zkmips_zkvm_impl_in_rust.Base.{
  ℕ, Bool, true, List, [], ◌∷◌, Option, none, some, Outcome, ok, bytes_eq, nat_eq, pair_eq, done,
}
use zkmips_zkvm_impl_in_rust.Base.Map.{insert}
use zkmips_zkvm_impl_in_rust.State.{
  StateError, trie_error, Account, AccountUpdate, StateUpdate, Services, StateManager,
}
use zkmips_zkvm_impl_in_rust.Base.Method.{pure, lift, ◌>>=◌}
use zkmips_zkvm_impl_in_rust.State.Trie
use zkmips_zkvm_impl_in_rust.State.Trie.{TrieError, TrieLibrary, MerklePatriciaTrie, map_err}
use zkmips_zkvm_impl_in_rust.State.Calls.{
  Op, on_storage, on_snapshots, on_trie, of_trie, reading, or_invalid, future, first_error,
}
use zkmips_zkvm_impl_in_rust.State.Reads.{get_account, cache_account}

module _ {Db View S N : Type 0} (library : TrieLibrary Db View) (services : Services Db S N) where
  abbrev Run : Type 0 → Type 0
  Run A = Op Db S N A

  unfoldable pub account_or_new : ℕ → Option Account → Account
  account_or_new block_number (some account) = account
  account_or_new block_number none = record {
    nonce = 0;
    balance = [];
    pub_key_hash = services.default_pub_key_hash;
    storage_root = services.default_hash;
    code_hash = services.default_hash;
    last_modified_block = block_number;
  }

  abbrev pub set_or : {A : Type 0} → Option A → A → A
  set_or (some a) b = a
  set_or none b = b

  unfoldable pub add_balances : List (ℕ × ℕ) → List (ℕ × ℕ) → List (ℕ × ℕ)
  add_balances [] balance = balance
  add_balances ((token_id, amount) ∷ rest) balance =
      add_balances rest (insert token_id amount balance)

  unfoldable pub new_storage_root : List ℕ → List (List ℕ × List ℕ) → List ℕ → Run (List ℕ)
  new_storage_root address [] storage_root = pure storage_root
  new_storage_root address (entry ∷ entries) storage_root =
      on_storage (services.update_storage address (entry ∷ entries) storage_root)

  unfoldable pub new_code_hash : Option (List ℕ) → List ℕ → Run (List ℕ)
  new_code_hash none code_hash = pure code_hash
  new_code_hash (some code) code_hash = do
    _ ← on_storage (services.store_code (services.blake3 code) code)
    pure (services.blake3 code)

  -- The account that is written, given its roots.
  unfoldable pub updated_account : AccountUpdate → ℕ → List ℕ → List ℕ → Account → Account
  unfolding add_balances
  updated_account update block_number storage_root code_hash account = record {
    nonce = set_or update.nonce account.nonce;
    balance = add_balances update.balance account.balance;
    pub_key_hash = set_or update.pub_key_hash account.pub_key_hash;
    storage_root = storage_root;
    code_hash = code_hash;
    last_modified_block = block_number;
  }

  -- What `update_account` does once it has the account.
  unfoldable pub write_account : List ℕ → AccountUpdate → ℕ → Account → Run Unit
  unfolding cache_account new_storage_root new_code_hash updated_account
  write_account address update block_number account = do
    storage_root ← new_storage_root address update.storage account.storage_root
    code_hash ← new_code_hash update.code account.code_hash
    let written = updated_account update block_number storage_root code_hash account
    account_bytes ← lift (or_invalid (services.serialize written))
    _ ← on_trie (Trie.insert library address account_bytes)
    cache_account library services address written block_number

  unfoldable pub update_account : Bool → List ℕ → AccountUpdate → ℕ → Run Unit
  unfolding get_account account_or_new write_account
  update_account held address update block_number = do
    found ← get_account library services held address block_number
    write_account address update block_number (account_or_new block_number found)

  unfoldable pub update_accounts :
      List (List ℕ × AccountUpdate) → ℕ → Run (List (Outcome StateError Unit))
  unfolding update_account
  update_accounts [] block_number = pure []
  update_accounts ((address, update) ∷ rest) block_number = do
    r ← future (update_account true address update block_number)
    rs ← update_accounts rest block_number
    pure (r ∷ rs)

  unfoldable pub update_state : StateUpdate → Run (List ℕ)
  unfolding update_accounts first_error
  update_state update = do
    results ← update_accounts update.accounts update.block_number
    _ ← lift (first_error results)
    witness ← reading (λ m. services.generate_witness m.trie update.block_number)
    proof ← lift (services.generate_proof witness)
    root ← of_trie (Trie.root_hash library)
    _ ← on_snapshots (services.create_snapshot update.block_number root update.timestamp proof)
    of_trie (Trie.root_hash library)

  abbrev pub cleared : MerklePatriciaTrie Db → StateManager Db S N → StateManager Db S N
  cleared trie m = record m {
    trie = trie;
    cached_accounts = [];
    cached_storage = [];
    cached_code = [];
  }

  unfoldable pub revert_to_snapshot : ℕ → Run Unit
  revert_to_snapshot block_number = do
    root_hash ← on_snapshots (services.get_snapshot block_number)
    trie ← lift (map_err trie_error (Trie.from_root library root_hash))
    (λ m. done (ok tt, cleared trie m))

  unfoldable pub begin_transaction : Run Unit
  begin_transaction m = done (ok tt, record m { pending_updates = [] })

  unfoldable pub rollback_transaction : Run Unit
  rollback_transaction m = done (ok tt, record m { pending_updates = [] })

  -- The update that `commit_transaction` makes.
  abbrev pub pending_update : ℕ → ℕ → StateManager Db S N → StateUpdate
  pending_update block_number now m = record {
    block_number = block_number;
    accounts = m.pending_updates;
    timestamp = now;
    metadata = [];
    zk_proof = none;
  }

  unfoldable pub commit_transaction : ℕ → Run (List ℕ)
  unfolding update_state
  commit_transaction now = do
    block_number ← on_snapshots services.get_latest_block_number
    root_hash ← (λ m. update_state (pending_update block_number now m) m)
    (λ m. done (ok root_hash, record m { pending_updates = [] }))
