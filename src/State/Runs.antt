-- ===== src/State/Runs.antt =====
-- src/state/mod.rs: the runs of calls of a manager that `new` has made.
use zkmips_zkvm_impl_in_rust.Base.{bytes_eq, ℕ, false, ◌≡◌, List, Outcome, Attempt, done, blocked}
use zkmips_zkvm_impl_in_rust.State.{StateUpdate, StateProof, Services, StateManager}
use zkmips_zkvm_impl_in_rust.State.Reads.{new, get_account, get_storage, get_code}
use zkmips_zkvm_impl_in_rust.State.Updates.{
  update_state, revert_to_snapshot, begin_transaction, rollback_transaction, commit_transaction,
}
use zkmips_zkvm_impl_in_rust.State.Proofs.{get_proof, verify_proof}
use zkmips_zkvm_impl_in_rust.State.Trie.{TrieLibrary}

-- The calls of the public methods.
pub data Call : Type 0 where
  gets_account : List ℕ → ℕ → Call
  gets_storage : List ℕ → List ℕ → ℕ → Call
  gets_code : List ℕ → Call
  updates : StateUpdate → Call
  reverts : ℕ → Call
  gets_proof : List ℕ → List (List ℕ) → Call
  verifies : List ℕ → List (List ℕ) → StateProof → List ℕ → Call
  begins rolls_back : Call
  commits : ℕ → Call

-- The manager after a call that comes back, whatever it answers.
abbrev pub after : {E M A : Type 0} → Attempt (Outcome E A × M) → Attempt M
after blocked = blocked
after (done (r, m)) = done m

module _ {Db View S N : Type 0} (library : TrieLibrary Db View) (services : Services Db S N) where
  unfoldable pub perform : Call → StateManager Db S N → Attempt (StateManager Db S N)
  perform (gets_account address block) m =
      after (get_account library services false address block m)
  perform (gets_storage address key block) m =
      after (get_storage library services address key block m)
  perform (gets_code code_hash) m = after (get_code library services code_hash m)
  perform (updates update) m = after (update_state library services update m)
  perform (reverts block) m = after (revert_to_snapshot library services block m)
  perform (gets_proof address keys) m = after (get_proof library services address keys m)
  perform (verifies address keys proof root) m =
      after (verify_proof library services address keys proof root m)
  perform begins m = after (begin_transaction library services m)
  perform rolls_back m = after (rollback_transaction library services m)
  perform (commits now) m = after (commit_transaction library services now m)

  -- What a new manager comes to by calls that come back.
  pub data Reachable : StateManager Db S N → Type 0 where
    start : (s : S) (n : N) → Reachable (new library services s n)
    step : (m t : StateManager Db S N) (c : Call) → Reachable m → perform c m ≡ done t → Reachable t
