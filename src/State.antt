-- ===== src/State.antt =====
-- src/state: the data of the state manager, and what it calls that stands elsewhere. Addresses,
-- hashes and byte strings are lists of bytes, numbers of blocks and of tokens are numbers.
pub mod Trie
pub mod Calls
pub mod Reads
pub mod Updates
pub mod Proofs
pub mod Rules
pub mod Runs
pub mod Empty
pub mod Idle
pub mod Coherence
pub mod Written
pub mod Stale
mod Tests
use zkmips_zkvm_impl_in_rust.Base.{ℕ, Bool, List, Option, Outcome, Exec}
use zkmips_zkvm_impl_in_rust.State.Trie.{TrieError, MerklePatriciaTrie}

pub data StateError : Type 0 where
  trie_error : TrieError → StateError
  invalid_state : StateError
  storage_error concurrency_error proof_verification_error snapshot_error : List ℕ → StateError
  circuit_error witness_error verification_error : List ℕ → StateError

pub record Account : Type 0 where
  pub nonce : ℕ
  pub balance : List (ℕ × ℕ)
  pub pub_key_hash : List ℕ
  pub storage_root : List ℕ
  pub code_hash : List ℕ
  pub last_modified_block : ℕ

pub record AccountUpdate : Type 0 where
  pub nonce : Option ℕ
  pub balance : List (ℕ × ℕ)
  pub pub_key_hash : Option (List ℕ)
  pub storage : List (List ℕ × List ℕ)
  pub code : Option (List ℕ)
  pub metadata : List (List ℕ × List ℕ)

pub record StateUpdate : Type 0 where
  pub block_number : ℕ
  pub accounts : List (List ℕ × AccountUpdate)
  pub timestamp : ℕ
  pub metadata : List (List ℕ × List ℕ)
  pub zk_proof : Option (List ℕ)

pub record StateProof : Type 0 where
  pub account_proof : List (List ℕ)
  pub storage_proofs : List (List (List ℕ))

-- bincode, Blake3, and the modules of src/state that the repository does not have: `StorageManager`
-- with its state `S`, `SnapshotManager` with its state `N`, the circuit and its witness.
pub record Services (Db S N : Type 0) : Type 0 where
  pub serialize : Account → Option (List ℕ)
  pub deserialize : List ℕ → Option Account
  pub blake3 : List ℕ → List ℕ
  pub default_hash : List ℕ
  pub default_pub_key_hash : List ℕ
  pub get_storage : List ℕ → List ℕ → List ℕ → Exec StateError S (Option (List ℕ))
  pub get_code : List ℕ → Exec StateError S (Option (List ℕ))
  pub update_storage : List ℕ → List (List ℕ × List ℕ) → List ℕ → Exec StateError S (List ℕ)
  pub store_code : List ℕ → List ℕ → Exec StateError S Unit
  pub get_proof : List ℕ → List ℕ → List ℕ → Exec StateError S (List (List ℕ))
  pub verify_proof : List ℕ → List ℕ → List (List ℕ) → List ℕ → S → Outcome StateError Bool
  pub get_snapshot : ℕ → Exec StateError N (List ℕ)
  pub create_snapshot : ℕ → List ℕ → ℕ → List ℕ → Exec StateError N Unit
  pub get_latest_block_number : Exec StateError N ℕ
  pub generate_witness : MerklePatriciaTrie Db → ℕ → Outcome StateError (List ℕ)
  pub generate_proof : List ℕ → Outcome StateError (List ℕ)

-- The manager with its cache, whose entries have the number of the block that was asked for.
pub record StateManager (Db S N : Type 0) : Type 0 where
  pub trie : MerklePatriciaTrie Db
  pub storage : S
  pub snapshots : N
  pub cached_accounts : List (List ℕ × (Account × ℕ))
  pub cached_storage : List ((List ℕ × List ℕ) × (List ℕ × ℕ))
  pub cached_code : List (List ℕ × List ℕ)
  pub pending_updates : List (List ℕ × AccountUpdate)
