-- ===== src/State/Idle.antt =====
-- src/state/mod.rs: a manager that `new` has made, and what its methods can bring it to.
use zkmips_zkvm_impl_in_rust.Base.{
  bytes_eq, ℕ, Bool, true, false, ◌≡◌, refl, subst, List, [], ◌∷◌, Option, none, some, Outcome, ok,
  err, panic, Attempt, done, blocked,
}
use zkmips_zkvm_impl_in_rust.Base.Map.{lookup}
use zkmips_zkvm_impl_in_rust.State.{
  StateError, trie_error, Account, AccountUpdate, StateUpdate, StateProof, Services, StateManager,
}
use zkmips_zkvm_impl_in_rust.Base.Method.{Method}
use zkmips_zkvm_impl_in_rust.State.Calls.{or_invalid, future, first_error, cached, collected}
use zkmips_zkvm_impl_in_rust.State.Reads.{new, get_account, read_account}
use zkmips_zkvm_impl_in_rust.State.Updates.{
  update_account, update_accounts, update_state, revert_to_snapshot, begin_transaction,
  rollback_transaction, commit_transaction, pending_update,
}
use zkmips_zkvm_impl_in_rust.State.Proofs.{
  get_proof, storage_proofs, proofs_of, verify_proof, verify_rest, verify_storage, verify_each,
  all_true,
}
use zkmips_zkvm_impl_in_rust.State.Rules.{Safe, Stays-bind, Stays-lift}
use zkmips_zkvm_impl_in_rust.State.Trie
use zkmips_zkvm_impl_in_rust.State.Trie.Refines.{EmptyReads}
use zkmips_zkvm_impl_in_rust.State.Trie.{TrieLibrary, MerklePatriciaTrie, map_err, opened}
use zkmips_zkvm_impl_in_rust.State.Runs.{
  Call, gets_account, gets_storage, gets_code, updates, reverts, gets_proof, verifies, begins,
  rolls_back, commits, after, perform, Reachable, start, step,
}
use zkmips_zkvm_impl_in_rust.State.Empty.{
  Idle, on_storage-Idle, on_snapshots-Idle, of_trie-Idle, reading-Idle, pure-Idle, get_account-Idle,
  get_storage-Idle, get_code-Idle, KeepsIdle,
}

module _ {Db View S N : Type 0} {library : TrieLibrary Db View} (services : Services Db S N)
    (reads : EmptyReads library) where
  cached_empty :
      (l : List (List ℕ × (Account × ℕ))) (a : List ℕ) (n : ℕ)
      → l ≡ []
      → cached (lookup a l) n ≡ none
  unfolding cached lookup
  cached_empty l a n e = rw e refl

  -- The write lock is held, and the account has to be read: no answer.
  update_account-blocked :
      (a : List ℕ) (u : AccountUpdate) (n : ℕ) (m : StateManager Db S N)
      → Idle library services m
      → update_account library services true a u n m ≡ blocked
  unfolding update_account get_account read_account
  update_account-blocked a u n m p = rw (cached_empty m.cached_accounts a n p.uncached) refl

  update_state-blocked :
      (update : StateUpdate) (a : List ℕ) (u : AccountUpdate) (rest : List (List ℕ × AccountUpdate))
      (m : StateManager Db S N)
      → Idle library services m
      → update.accounts ≡ (a, u) ∷ rest
      → update_state library services update m ≡ blocked
  unfolding update_state update_accounts
  update_state-blocked update a u rest m p e =
      rw (e, update_account-blocked a u update.block_number m p) refl

  update_accounts-Idle :
      (l : List (List ℕ × AccountUpdate)) (n : ℕ)
      → KeepsIdle services reads (update_accounts library services l n)
  unfolding update_accounts
  update_accounts-Idle [] n = pure-Idle services reads []
  update_accounts-Idle ((a, u) ∷ rest) n = record {
    at = λ m p. rw (update_account-blocked a u n m p) tt;
  }

  update_state-Idle :
      (update : StateUpdate) → KeepsIdle services reads (update_state library services update)
  unfolding update_state
  update_state-Idle update =
      Stays-bind _ (update_accounts-Idle update.accounts update.block_number) (λ rs.
        Stays-bind _ (Stays-lift _ (first_error rs)) (λ _.
          Stays-bind _
            (reading-Idle services reads
              (λ m. services.generate_witness m.trie update.block_number))
            (λ w. Stays-bind _ (Stays-lift _ (services.generate_proof w)) (λ proof.
              Stays-bind _ (of_trie-Idle services reads (Trie.root_hash library)) (λ root.
                Stays-bind _ (on_snapshots-Idle services reads _)
                  (λ _. of_trie-Idle services reads (Trie.root_hash library)))))))

  revert_to_snapshot-Idle :
      (n : ℕ) → KeepsIdle services reads (revert_to_snapshot library services n)
  unfolding revert_to_snapshot Trie.from_root Trie.new
  revert_to_snapshot-Idle n =
      Stays-bind _ (on_snapshots-Idle services reads (services.get_snapshot n))
        (λ root. record { at = λ m p. record { is_empty = refl; uncached = refl } })

  future-Idle :
      {A : Type 0} (f : Method StateError (StateManager Db S N) A)
      → KeepsIdle services reads f
      → KeepsIdle services reads (future f)
  future-Idle f k = record { at = λ m p. go (f m) (k.at m p) }
    where
      go :
          {B : Type 0} (r : Attempt (Outcome StateError B × StateManager Db S N))
          → Safe (Idle library services) r
          → Safe (Idle library services) (collected r)
      go blocked h = tt
      go (done (ok a, m)) h = h
      go (done (err e, m)) h = h
      go (done (panic, m)) h = h

  storage_proofs-Idle :
      (a root : List ℕ) (keys : List (List ℕ))
      → KeepsIdle services reads (storage_proofs library services a root keys)
  unfolding storage_proofs
  storage_proofs-Idle a root [] = pure-Idle services reads []
  storage_proofs-Idle a root (key ∷ keys) =
      Stays-bind _ (future-Idle _ (on_storage-Idle services reads (services.get_proof a key root)))
        (λ r.
          Stays-bind _ (storage_proofs-Idle a root keys) (λ rs. pure-Idle services reads (r ∷ rs)))

  proofs_of-Idle :
      (a : List ℕ) (keys : List (List ℕ)) (o : Option (List ℕ))
      → KeepsIdle services reads (proofs_of library services a keys o)
  unfolding proofs_of
  proofs_of-Idle a keys none = pure-Idle services reads []
  proofs_of-Idle a keys (some bytes) =
      Stays-bind _ (Stays-lift _ (or_invalid (services.deserialize bytes))) (λ account.
        Stays-bind _ (storage_proofs-Idle a account.storage_root keys)
          (λ rs. Stays-lift _ (first_error rs)))

  get_proof-Idle :
      (a : List ℕ) (keys : List (List ℕ))
      → KeepsIdle services reads (get_proof library services a keys)
  unfolding get_proof
  get_proof-Idle a keys =
      Stays-bind _ (of_trie-Idle services reads (λ t. Trie.get_proof library t a)) (λ p.
        Stays-bind _ (of_trie-Idle services reads (λ t. Trie.get library t a))
          (λ o. Stays-bind _ (proofs_of-Idle a keys o) (λ ps. pure-Idle services reads _)))

  verify_storage-Idle :
      (a : List ℕ) (keys : List (List ℕ)) (ps : List (List (List ℕ))) (o : Option (List ℕ))
      → KeepsIdle services reads (verify_storage library services a keys ps o)
  unfolding verify_storage
  verify_storage-Idle a keys ps none = pure-Idle services reads true
  verify_storage-Idle a keys ps (some bytes) =
      Stays-bind _ (Stays-lift _ (or_invalid (services.deserialize bytes))) (λ account.
        Stays-bind _
          (reading-Idle services reads (λ m.
            first_error (verify_each library services a account.storage_root m.storage keys ps)))
          (λ rs. pure-Idle services reads (all_true library services rs)))

  verify_rest-Idle :
      (a : List ℕ) (keys : List (List ℕ)) (proof : StateProof) (t : MerklePatriciaTrie Db)
      (b : Bool)
      → KeepsIdle services reads (verify_rest library services a keys proof t b)
  unfolding verify_rest
  verify_rest-Idle a keys proof t false = pure-Idle services reads false
  verify_rest-Idle a keys proof t true =
      Stays-bind _ (Stays-lift _ (map_err trie_error (Trie.get library t a)))
        (λ o. verify_storage-Idle a keys proof.storage_proofs o)

  verify_proof-Idle :
      (a : List ℕ) (keys : List (List ℕ)) (proof : StateProof) (root : List ℕ)
      → KeepsIdle services reads (verify_proof library services a keys proof root)
  unfolding verify_proof
  verify_proof-Idle a keys proof root =
      Stays-bind _ (Stays-lift _ (map_err trie_error (Trie.from_root library root))) (λ t.
        Stays-bind _
          (Stays-lift _ (map_err trie_error (Trie.verify_proof library t a proof.account_proof)))
          (λ b. verify_rest-Idle a keys proof t b))

  begin_transaction-Idle : KeepsIdle services reads (begin_transaction library services)
  unfolding begin_transaction
  begin_transaction-Idle = record {
    at = λ m p. record { is_empty = p.is_empty; uncached = p.uncached };
  }

  rollback_transaction-Idle : KeepsIdle services reads (rollback_transaction library services)
  unfolding rollback_transaction
  rollback_transaction-Idle = record {
    at = λ m p. record { is_empty = p.is_empty; uncached = p.uncached };
  }

  commit_transaction-Idle :
      (now : ℕ) → KeepsIdle services reads (commit_transaction library services now)
  unfolding commit_transaction
  commit_transaction-Idle now =
      Stays-bind _ (on_snapshots-Idle services reads services.get_latest_block_number) (λ n.
        Stays-bind _
          (record {
            at = λ m p. (update_state-Idle (pending_update library services n now m)).at m p;
          })
          (λ root. record { at = λ m p. record { is_empty = p.is_empty; uncached = p.uncached } }))

  after-Idle :
      {A : Type 0} (f : Method StateError (StateManager Db S N) A)
      → KeepsIdle services reads f
      → (m t : StateManager Db S N) → Idle library services m
      → after (f m) ≡ done t
      → Idle library services t
  after-Idle f k m t p e = go (f m) (k.at m p) e
    where
      go :
          {B : Type 0} (r : Attempt (Outcome StateError B × StateManager Db S N))
          → Safe (Idle library services) r
          → after r ≡ done t
          → Idle library services t
      go blocked h e = absurd cc
      go (done (r, m)) h e = let q : m ≡ t = cc in subst (Idle library services) q h

  perform-Idle :
      (c : Call) (m t : StateManager Db S N)
      → Idle library services m
      → perform library services c m ≡ done t
      → Idle library services t
  unfolding perform
  perform-Idle (gets_account a n) m t p e =
      after-Idle _ (get_account-Idle services reads a n) m t p e
  perform-Idle (gets_storage a key n) m t p e =
      after-Idle _ (get_storage-Idle services reads a key n) m t p e
  perform-Idle (gets_code k) m t p e = after-Idle _ (get_code-Idle services reads k) m t p e
  perform-Idle (updates u) m t p e = after-Idle _ (update_state-Idle u) m t p e
  perform-Idle (reverts n) m t p e = after-Idle _ (revert_to_snapshot-Idle n) m t p e
  perform-Idle (gets_proof a keys) m t p e = after-Idle _ (get_proof-Idle a keys) m t p e
  perform-Idle (verifies a keys proof root) m t p e =
      after-Idle _ (verify_proof-Idle a keys proof root) m t p e
  perform-Idle begins m t p e = after-Idle _ begin_transaction-Idle m t p e
  perform-Idle rolls_back m t p e = after-Idle _ rollback_transaction-Idle m t p e
  perform-Idle (commits now) m t p e = after-Idle _ (commit_transaction-Idle now) m t p e

  Reachable-Idle :
      (m : StateManager Db S N) → Reachable library services m → Idle library services m
  unfolding new Trie.new
  Reachable-Idle m (start s n) = record { is_empty = refl; uncached = refl }
  Reachable-Idle m (step k t c r e) = perform-Idle c k m (Reachable-Idle k r) e

  -- Whatever was called of a manager since `new`, `update_state` of one account or more never comes
  -- back: it waits for the lock that it holds.
  pub update_state_never_returns :
      (m : StateManager Db S N) (update : StateUpdate) (a : List ℕ) (u : AccountUpdate)
      (rest : List (List ℕ × AccountUpdate))
      → Reachable library services m
      → update.accounts ≡ (a, u) ∷ rest
      → update_state library services update m ≡ blocked
  update_state_never_returns m update a u rest r e =
      update_state-blocked update a u rest m (Reachable-Idle m r) e
