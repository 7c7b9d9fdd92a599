-- ===== src/State/Proofs.antt =====
-- src/state/mod.rs: the proofs of `StateManager`.
use zkmips_zkvm_impl_in_rust.Base.{
  ℕ, Bool, true, false, List, [], ◌∷◌, Option, none, some, Outcome, ◌&&◌, bytes_eq, nat_eq, pair_eq,
}
use zkmips_zkvm_impl_in_rust.State.{StateError, trie_error, StateProof, Services}
use zkmips_zkvm_impl_in_rust.Base.Method.{pure, lift, ◌>>=◌}
use zkmips_zkvm_impl_in_rust.State.Trie
use zkmips_zkvm_impl_in_rust.State.Trie.{TrieError, TrieLibrary, MerklePatriciaTrie, map_err}
use zkmips_zkvm_impl_in_rust.State.Calls.{
  Op, on_storage, of_trie, reading, or_invalid, future, first_error,
}

module _ {Db View S N : Type 0} (library : TrieLibrary Db View) (services : Services Db S N) where
  abbrev Run : Type 0 → Type 0
  Run A = Op Db S N A

  unfoldable pub storage_proofs :
      List ℕ → List ℕ → List (List ℕ) → Run (List (Outcome StateError (List (List ℕ))))
  storage_proofs address storage_root [] = pure []
  storage_proofs address storage_root (key ∷ keys) = do
    r ← future (on_storage (services.get_proof address key storage_root))
    rs ← storage_proofs address storage_root keys
    pure (r ∷ rs)

  unfoldable pub proofs_of : List ℕ → List (List ℕ) → Option (List ℕ) → Run (List (List (List ℕ)))
  unfolding storage_proofs first_error
  proofs_of address storage_keys none = pure []
  proofs_of address storage_keys (some account_bytes) = do
    account ← lift (or_invalid (services.deserialize account_bytes))
    results ← storage_proofs address account.storage_root storage_keys
    lift (first_error results)

  unfoldable pub get_proof : List ℕ → List (List ℕ) → Run StateProof
  unfolding proofs_of
  get_proof address storage_keys = do
    account_proof ← of_trie (λ t. Trie.get_proof library t address)
    account_bytes ← of_trie (λ t. Trie.get library t address)
    proofs ← proofs_of address storage_keys account_bytes
    pure (record { account_proof = account_proof; storage_proofs = proofs })

  -- The storage proofs of the keys, each against its own; what is longer is not looked at.
  unfoldable pub verify_each :
      List ℕ → List ℕ → S → List (List ℕ) → List (List (List ℕ)) → List (Outcome StateError Bool)
  verify_each address storage_root s (key ∷ keys) (proof ∷ proofs) =
      services.verify_proof address key proof storage_root s
      ∷ verify_each address storage_root s keys proofs
  verify_each address storage_root s [] proofs = []
  verify_each address storage_root s (key ∷ keys) [] = []

  abbrev pub all_true : List Bool → Bool
  all_true [] = true
  all_true (b ∷ bs) = b && all_true bs

  unfoldable pub verify_storage :
      List ℕ → List (List ℕ) → List (List (List ℕ)) → Option (List ℕ) → Run Bool
  unfolding verify_each first_error
  verify_storage address storage_keys proofs none = pure true
  verify_storage address storage_keys proofs (some account_bytes) = do
    account ← lift (or_invalid (services.deserialize account_bytes))
    results ←
        reading (λ m.
          first_error (verify_each address account.storage_root m.storage storage_keys proofs))
    pure (all_true results)

  unfoldable pub verify_rest :
      List ℕ → List (List ℕ) → StateProof → MerklePatriciaTrie Db → Bool → Run Bool
  unfolding verify_storage
  verify_rest address storage_keys proof trie false = pure false
  verify_rest address storage_keys proof trie true = do
    account_bytes ← lift (map_err trie_error (Trie.get library trie address))
    verify_storage address storage_keys proof.storage_proofs account_bytes

  unfoldable pub verify_proof : List ℕ → List (List ℕ) → StateProof → List ℕ → Run Bool
  unfolding verify_rest
  verify_proof address storage_keys proof root_hash = do
    trie ← lift (map_err trie_error (Trie.from_root library root_hash))
    is_valid ←
        lift (map_err trie_error (Trie.verify_proof library trie address proof.account_proof))
    verify_rest address storage_keys proof trie is_valid
