-- ===== src/State/Tests.antt =====
-- The theorems on the state manager at work, with numbered tables for the trie's database and
-- nothing behind the storage and the snapshots.
use zkmips_zkvm_impl_in_rust.Base.{
  ℕ, ◌≡◌, ◌≢◌, refl, true, false, List, [], ◌∷◌, Option, none, some, ok, done, blocked, nat_eq,
  bytes_eq, pair_eq, ◌==◌, Bool-cases, inl, inr, arith,
}
use zkmips_zkvm_impl_in_rust.Base.Map
use zkmips_zkvm_impl_in_rust.State.{Account, AccountUpdate, StateUpdate, Services, StateManager}
use zkmips_zkvm_impl_in_rust.State.Calls.{cached}
use zkmips_zkvm_impl_in_rust.State.Reads.{
  new, get_account, read_account, decoded, cache_account, get_storage,
}
use zkmips_zkvm_impl_in_rust.State.Updates.{
  update_account, write_account, new_storage_root, new_code_hash, updated_account, add_balances,
  account_or_new, update_state, revert_to_snapshot, begin_transaction,
}
use zkmips_zkvm_impl_in_rust.State.Trie
use zkmips_zkvm_impl_in_rust.State.Trie.{MerklePatriciaTrie}
use zkmips_zkvm_impl_in_rust.State.Trie.Table.{Tables, table_library, table-EmptyReads}
use zkmips_zkvm_impl_in_rust.State.Coherence.{account_of, Coherent, get_account-Coherent}
use zkmips_zkvm_impl_in_rust.State.Stale.{get_storage_stale, revert_to_snapshot_empty}
use zkmips_zkvm_impl_in_rust.State.Runs.{begins, perform, Reachable, start, step}
use zkmips_zkvm_impl_in_rust.State.Idle.{update_state_never_returns}

-- An account without balances and hashes is its nonce and its block.
abbrev packed : ℕ → List (ℕ × ℕ) → List ℕ → List ℕ → List ℕ → ℕ → Option (List ℕ)
packed nonce [] [] [] [] block = some (nonce ∷ block ∷ [])
packed nonce (x ∷ l) p s c block = none
packed nonce [] (x ∷ p) s c block = none
packed nonce [] [] (x ∷ s) c block = none
packed nonce [] [] [] (x ∷ c) block = none

abbrev plain : ℕ → ℕ → Account
plain nonce block = record {
  nonce = nonce;
  balance = [];
  pub_key_hash = [];
  storage_root = [];
  code_hash = [];
  last_modified_block = block;
}

abbrev serialize : Account → Option (List ℕ)
serialize a =
    packed a.nonce a.balance a.pub_key_hash a.storage_root a.code_hash a.last_modified_block

abbrev deserialize : List ℕ → Option Account
deserialize (nonce ∷ block ∷ []) = some (plain nonce block)
deserialize _ = none

abbrev services : Services Tables Unit Unit
services = record {
  serialize = serialize;
  deserialize = deserialize;
  blake3 = λ l. l;
  default_hash = [];
  default_pub_key_hash = [];
  get_storage = λ a k r s. (ok none, s);
  get_code = λ h s. (ok none, s);
  update_storage = λ a l r s. (ok [], s);
  store_code = λ h c s. (ok tt, s);
  get_proof = λ a k r s. (ok [], s);
  verify_proof = λ a k p r s. ok true;
  get_snapshot = λ n s. (ok (9 ∷ []), s);
  create_snapshot = λ n r t p s. (ok tt, s);
  get_latest_block_number = λ s. (ok 0, s);
  generate_witness = λ t n. ok [];
  generate_proof = λ w. ok [];
}

abbrev Manager : Type 0
Manager = StateManager Tables Unit Unit

abbrev fresh : Manager
fresh = record {
  trie = record { db = []; root = none };
  storage = tt;
  snapshots = tt;
  cached_accounts = [];
  cached_storage = [];
  cached_code = [];
  pending_updates = [];
}

abbrev nonce_update : AccountUpdate
nonce_update = record {
  nonce = some 4;
  balance = [];
  pub_key_hash = none;
  storage = [];
  code = none;
  metadata = [];
}

abbrev address : List ℕ
address = 1 ∷ []

abbrev written : Manager
written = record fresh {
  trie = record { db = ((address, (4 ∷ 7 ∷ [])) ∷ []) ∷ []; root = some (1 ∷ []) };
  cached_accounts = (address, (plain 4 7, 7)) ∷ [];
}

written-Coherent : Coherent table_library services written
unfolding Map.lookup account_of Trie.get
written-Coherent b account k l = elim (Bool-cases (address == b)) [
  | inl same ↦ let it : plain 4 7 ≡ account = ground arith in rw (← it) (ground arith)
  | inr apart ↦ absurd (ground arith)
]

get_account-Coherent_example :
    (t : Manager) × (get_account table_library services false address 5 written
      ≡ done (account_of table_library services (Trie.get table_library written.trie address), t))
    × (t.trie ≡ written.trie)
    × Coherent table_library services t
get_account-Coherent_example =
    get_account-Coherent table_library services address 5 written written-Coherent

-- A value of the storage that was read at block 7.
abbrev read_once : Manager
read_once = record fresh { cached_storage = ((address, (3 ∷ [])), ((8 ∷ []), 7)) ∷ [] }

abbrev storage_update : AccountUpdate
storage_update = record nonce_update { storage = ((3 ∷ []), (9 ∷ [])) ∷ [] }

abbrev written_over : Manager
written_over = record written { cached_storage = read_once.cached_storage }

get_storage_stale_example :
    get_storage table_library services address (3 ∷ []) 7 written_over
    ≡ done (ok (some (8 ∷ [])), written_over)
unfolding update_account get_account cached read_account decoded cache_account write_account
    new_storage_root new_code_hash updated_account add_balances account_or_new Trie.get Trie.insert
    Map.lookup Map.insert Map.remove
get_storage_stale_example =
    get_storage_stale table_library services false address (3 ∷ []) storage_update 7 7 7 (8 ∷ [])
      (ok tt) read_once written_over refl (omega arith) refl

abbrev reverted : Manager
reverted = record fresh { trie = record { db = []; root = some (9 ∷ []) } }

revert_to_snapshot_empty_example :
    get_account table_library services false address 8 reverted
    ≢ done (ok (some (plain 4 7)), reverted)
unfolding revert_to_snapshot Trie.from_root Trie.new
revert_to_snapshot_empty_example =
    revert_to_snapshot_empty table_library services table-EmptyReads 3 8 written reverted reverted
      address (plain 4 7) refl

abbrev first_update : StateUpdate
first_update = record {
  block_number = 7;
  accounts = (address, nonce_update) ∷ [];
  timestamp = 0;
  metadata = [];
  zk_proof = none;
}

fresh-Reachable : Reachable table_library services fresh
unfolding new Trie.new perform begin_transaction
fresh-Reachable = step fresh fresh begins (start tt tt) refl

update_state_never_returns_example :
    update_state table_library services first_update fresh ≡ blocked
update_state_never_returns_example =
    update_state_never_returns services table-EmptyReads fresh first_update address nonce_update []
      fresh-Reachable refl
