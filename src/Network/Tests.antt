-- ===== src/Network/Tests.antt =====
-- The theorems on the network at work: four validators, blocks of one byte per transaction.
use zkmips_zkvm_impl_in_rust.Base.{
  ℕ, ◌*◌, ◌%◌, ◌≤◌, ◌≡◌, refl, true, List, [], ◌∷◌, none, some, ok, err, arith, length, ◌⊎◌, nat_eq,
  bytes_eq,
}
use zkmips_zkvm_impl_in_rust.Base.Map
use zkmips_zkvm_impl_in_rust.Network.Sets
use zkmips_zkvm_impl_in_rust.Network.Message.{Transaction, Block, no_valid_proposer, Codec, hash}
use zkmips_zkvm_impl_in_rust.Network.Consensus
use zkmips_zkvm_impl_in_rust.Network.Consensus.{
  ConsensusConfig, default_config, ValidatorInfo, ConsensusState, is_valid_validator,
  select_proposer, create_block, cleanup, get_parent_hash,
}
use zkmips_zkvm_impl_in_rust.Network.Consensus.Votes.{
  Event, block, vote, handle, Reaches, here, after, IsValid,
}
use zkmips_zkvm_impl_in_rust.Network.Consensus.Eligible.{eligible}
use zkmips_zkvm_impl_in_rust.Network.Consensus.Quorum.{
  reachable-IsValid, quorum_intersection, Finalized, Finalized-by_quorum,
}
use zkmips_zkvm_impl_in_rust.Network.Consensus.Proposer.{total, Chosen, select_proposer_lem}
use zkmips_zkvm_impl_in_rust.Network.Consensus.Finality.{Final, submit_votes, Final-by_votes}
use zkmips_zkvm_impl_in_rust.Network.Sync
use zkmips_zkvm_impl_in_rust.Network.Manager
use zkmips_zkvm_impl_in_rust.Network.Manager.{NetworkManager, NetworkConfig}
use zkmips_zkvm_impl_in_rust.Network.Manager.Connected
use zkmips_zkvm_impl_in_rust.Network.Manager.Connected.{connecting, disconnecting, connected_peers}

abbrev codec : Codec
codec = record {
  blake3 = λ l. l;
  serialize_header = λ h. h.number ∷ [];
  serialize_transaction = λ tx. some (tx.nonce ∷ []);
  default_hash = [];
}

abbrev info : ValidatorInfo
info = record {
  address = [];
  stake = 1000;
  last_proposed = 0;
  total_proposed = 0;
  total_validated = 0;
  uptime = 0;
}

abbrev other_three : List (List ℕ × ValidatorInfo)
other_three = (2 ∷ [], info) ∷ (3 ∷ [], info) ∷ (4 ∷ [], info) ∷ []

abbrev four : List (List ℕ × ValidatorInfo)
four = (1 ∷ [], info) ∷ other_three

abbrev transaction_of : ℕ → Transaction
transaction_of n = record {
  nonce = n;
  from = [];
  to = [];
  value = 0;
  payload = [];
  signature = none;
}

abbrev block_of : ℕ → Block
block_of n = record {
  header = record {
    parent_hash = [];
    timestamp = 0;
    number = n;
    author = [];
    transactions_root = [];
    state_root = [];
    receipts_root = [];
  };
  transactions = [];
  state_root = [];
  receipts_root = [];
}

unfoldable engine : ConsensusState
engine = record (Consensus.new 0) {
  validators = four;
  pending_transactions = transaction_of 1 ∷ transaction_of 2 ∷ [];
}

engine-IsValid : IsValid codec default_config engine
unfolding engine Consensus.new Map.lookup Map.contains_key
engine-IsValid = record {
  distinct = (refl, (refl, (refl, (refl, tt))));
  ballots = tt;
  hashed = tt;
  numbered = tt;
  votable = λ h p. p;
}

abbrev two_thirds : ConsensusState
two_thirds =
    (handle codec default_config true (vote 5 (1 ∷ []) (9 ∷ []))
      (handle codec default_config true (block (block_of 9)) engine).1).1

abbrev run : Reaches codec default_config true engine two_thirds
run = after (vote 5 (1 ∷ []) (9 ∷ [])) (after (block (block_of 9)) here)

reachable-IsValid_example : IsValid codec default_config two_thirds
reachable-IsValid_example =
    reachable-IsValid codec default_config true engine two_thirds run engine-IsValid

abbrev most : List (List ℕ)
most = (1 ∷ []) ∷ (2 ∷ []) ∷ (3 ∷ []) ∷ []

abbrev others : List (List ℕ)
others = (2 ∷ []) ∷ (3 ∷ []) ∷ (4 ∷ []) ∷ []

unfoldable voted : ConsensusState
voted = record engine { votes = (9 ∷ [], most) ∷ (8 ∷ [], others) ∷ [] }

voted-IsValid : IsValid codec default_config voted
unfolding voted engine Consensus.new Map.lookup Map.contains_key Sets.contains eligible
voted-IsValid = record {
  distinct = (refl, (refl, (refl, (refl, tt))));
  ballots = (
    record { once = (refl, (refl, (refl, tt))); entitled = λ a h. ground arith },
    (record { once = (refl, (refl, (refl, tt))); entitled = λ a h. ground arith }, tt),
  );
  hashed = tt;
  numbered = tt;
  votable = λ h p. ground arith;
}

abbrev last_vote : Event
last_vote = vote 5 (4 ∷ []) (9 ∷ [])

abbrev ready : ConsensusState
ready = record voted { pending_blocks = (9 ∷ [], block_of 9) ∷ [] }

ready-IsValid : IsValid codec default_config ready
unfolding voted engine hash Consensus.new Map.lookup Map.contains_key
ready-IsValid = record {
  distinct = voted-IsValid.distinct;
  ballots = voted-IsValid.ballots;
  hashed = (refl, tt);
  numbered = tt;
  votable = λ h p. ground arith;
}

Finalized-by_quorum_example :
    ((handle codec default_config true last_vote ready).1.finalized_blocks ≡ ready.finalized_blocks)
    ⊎ ((now : ℕ) × (a : List ℕ) × (h : List ℕ) × (last_vote ≡ vote now a h)
        × Finalized codec default_config ready
            (handle codec default_config true last_vote ready).1
            h)
Finalized-by_quorum_example =
    Finalized-by_quorum codec default_config true last_vote ready ready-IsValid

-- Three validators vote, after one that has voted on the block before.
abbrev in_turn : List (ℕ × List ℕ)
in_turn = (9, 4 ∷ []) ∷ (7, 1 ∷ []) ∷ (8, 3 ∷ []) ∷ []

Final-by_votes_example :
    Final (9 ∷ []) (block_of 9) (submit_votes default_config (9 ∷ []) in_turn two_thirds)
unfolding engine Consensus.new Map.lookup Map.insert Map.remove Map.contains_key Sets.add
    Sets.contains Consensus.check_consensus Consensus.is_valid_validator Consensus.submit_vote
    Consensus.process_block Consensus.finalize hash
Final-by_votes_example =
    Final-by_votes codec default_config (9 ∷ []) (block_of 9) in_turn ((1 ∷ []) ∷ []) two_thirds
      (reachable-IsValid codec default_config true engine two_thirds run engine-IsValid)
      (refl, refl) (refl, (refl, (refl, tt))) (refl, (refl, (refl, tt))) refl

-- The fourth vote finalizes the block.
vote_finalizes :
    (handle codec default_config true last_vote ready).1.finalized_blocks ≡ (9, block_of 9) ∷ []
unfolding voted engine Consensus.new Consensus.submit_vote Consensus.finalize Map.lookup Map.insert
    Map.remove Sets.add Sets.contains
vote_finalizes = refl

quorum_intersection_example :
    (a : List ℕ) × (Sets.contains a most ≡ true)
    × (Sets.contains a others ≡ true)
    × (is_valid_validator default_config a voted ≡ true)
unfolding voted engine Map.lookup Consensus.check_consensus
quorum_intersection_example =
    quorum_intersection codec default_config voted (9 ∷ []) (8 ∷ []) most others voted-IsValid refl
      refl refl refl

select_proposer_lem_example :
    ((b : List ℕ) × (select_proposer true engine ≡ ok b)
      × Chosen engine.validators
          (engine.current_round * total engine.validators % length engine.validators)
          b)
    ⊎ ((select_proposer true engine ≡ err no_valid_proposer)
        × (total engine.validators
            ≤ engine.current_round * total engine.validators % length engine.validators))
unfolding engine total
select_proposer_lem_example =
    select_proposer_lem true engine (1 ∷ []) info (other_three) refl (omega arith)

abbrev node : NetworkManager
node =
    Manager.new 0
      (record { max_peers = 1; sync_batch_size = 10; consensus_config = default_config })

node-IsValid : Connected.IsValid node
unfolding Manager.new Sync.new Map.contains_key Map.lookup
node-IsValid = record { bounded = omega arith; together = λ i. refl }

connected_peers_example : Connected.IsValid (
    Connected.handle_all codec
      (connecting 1 (7 ∷ []) ∷ connecting 2 (8 ∷ []) ∷ disconnecting (7 ∷ []) ∷ [])
      node)
connected_peers_example =
    connected_peers codec
      (connecting 1 (7 ∷ []) ∷ connecting 2 (8 ∷ []) ∷ disconnecting (7 ∷ []) ∷ []) node
      node-IsValid
