-- ===== src/Network/Consensus.antt =====
-- src/network/consensus.rs: `ConsensusEngine`. The list of a map has the entries in the order in
-- which the map is walked. A floating point number is its bits, and the clock is an argument. The
-- sizes of collections and of blocks stay far from 2 ^ 64.
pub mod Eligible
pub mod Votes
pub mod Rounds
pub mod Proposer
pub mod Quorum
pub mod Finality
use zkmips_zkvm_impl_in_rust.Base.{
  ℕ, zero, suc, ◌+◌, ◌-◌, ◌*◌, ◌%◌, ◌^◌, Bool, true, false, not, List, [], ◌∷◌, ◌++◌, Option, none,
  some, ltb, leb, eqb, nat_eq, bytes_eq, if◌then◌else◌, length, Outcome, ok, err, panic, Exec, pure,
  fail, lift, continue, ◌>>=◌, ◌>>◌,
}
use zkmips_zkvm_impl_in_rust.Base.Map.{lookup, insert, remove, contains_key}
use zkmips_zkvm_impl_in_rust.Base.Word.{add_usize}
use zkmips_zkvm_impl_in_rust.Network.Sets
use zkmips_zkvm_impl_in_rust.Network.Message.{
  Transaction, BlockHeader, Block, NetworkError, invalid_transaction, invalid_block,
  invalid_validator, finalization_timeout, no_valid_proposer, serialization_failed, Codec, hash,
  compute_transactions_root,
}

pub record ConsensusConfig : Type 0 where
  pub block_time : ℕ
  pub max_block_size : ℕ
  pub min_validators : ℕ
  pub max_validators : ℕ
  pub validator_stake_threshold : ℕ

-- `ConsensusConfig::default()`; the time in seconds.
abbrev pub default_config : ConsensusConfig
default_config = record {
  block_time = 15;
  max_block_size = 1024 * 1024;
  min_validators = 4;
  max_validators = 100;
  validator_stake_threshold = 1000;
}

pub record ValidatorInfo : Type 0 where
  pub address : List ℕ
  pub stake : ℕ
  pub last_proposed : ℕ
  pub total_proposed : ℕ
  pub total_validated : ℕ
  pub uptime : ℕ

pub record ConsensusState : Type 0 where
  pub current_round : ℕ
  pub current_height : ℕ
  pub validators : List (List ℕ × ValidatorInfo)
  pub pending_transactions : List Transaction
  pub pending_blocks : List (List ℕ × Block)
  pub finalized_blocks : List (ℕ × Block)
  pub votes : List (List ℕ × List (List ℕ))
  pub last_finalized_time : ℕ

pub record ConsensusStatus : Type 0 where
  pub height : ℕ
  pub round : ℕ
  pub pending_transactions : ℕ
  pub pending_blocks : ℕ
  pub active_validators : ℕ
  pub last_finalized_time : ℕ

abbrev pub Op : Type 0 → Type 0
Op A = Exec NetworkError ConsensusState A

unfoldable pub new : ℕ → ConsensusState
new now = record {
  current_round = 0;
  current_height = 0;
  validators = [];
  pending_transactions = [];
  pending_blocks = [];
  finalized_blocks = [];
  votes = [];
  last_finalized_time = now;
}

unfoldable pub validate_transaction : Transaction → Bool
validate_transaction transaction = true

unfoldable pub validate_block : Block → Bool
validate_block block = true

unfoldable pub process_transaction : Transaction → Op Unit
unfolding validate_transaction
process_transaction transaction s =
    if not (validate_transaction transaction)
    then (err invalid_transaction, s)
    else (ok tt, record s { pending_transactions = s.pending_transactions ++ (transaction ∷ []) })

unfoldable pub process_block : Codec → Block → Op Unit
unfolding validate_block
process_block codec block s = if not (validate_block block) then (err invalid_block, s) else (
  ok tt,
  record s {
    pending_blocks = insert (hash codec block) block s.pending_blocks;
    votes = insert (hash codec block) [] s.votes;
  },
)

unfoldable pub is_valid_validator : ConsensusConfig → List ℕ → ConsensusState → Bool
is_valid_validator config validator s = elim (lookup validator s.validators) [
  | some info ↦ leb config.validator_stake_threshold info.stake
  | none ↦ false
]

unfoldable pub check_consensus : ℕ → ℕ → Bool
check_consensus votes total_validators = ltb (total_validators * 2) (votes * 3)

-- What `submit_vote` does once the block has its majority.
unfoldable pub finalize : ℕ → List ℕ → ConsensusState → ConsensusState
finalize now block_hash s = elim (lookup block_hash s.pending_blocks) [
  | none ↦ s
  | some block ↦ record s {
    pending_blocks = remove block_hash s.pending_blocks;
    finalized_blocks = insert block.header.number block s.finalized_blocks;
    last_finalized_time = now;
  }
]

abbrev pub count_vote : ℕ → List ℕ → List (List ℕ) → ConsensusState → ConsensusState
count_vote now block_hash votes s =
    let s' : ConsensusState = record s { votes = insert block_hash votes s.votes } in
    if check_consensus (length votes) (length s.validators) then finalize now block_hash s' else s'

unfoldable pub submit_vote : ConsensusConfig → ℕ → List ℕ → List ℕ → Op Unit
unfolding is_valid_validator check_consensus
submit_vote config now validator block_hash s =
    if not (is_valid_validator config validator s)
    then (err invalid_validator, s)
    else elim (lookup block_hash s.votes) [
      | none ↦ (ok tt, s)
      | some votes ↦ (ok tt, count_vote now block_hash (Sets.add validator votes) s)
    ]

-- `values().map(|v| v.stake).sum()`, on `u64`.
unfoldable pub sum_stakes : Bool → ℕ → List (List ℕ × ValidatorInfo) → Outcome NetworkError ℕ
sum_stakes checks total [] = ok total
sum_stakes checks total ((address, info) ∷ rest) =
    elim (add_usize {E = NetworkError} checks total info.stake) [
      | ok sum ↦ sum_stakes checks sum rest
      | err e ↦ err e
      | panic ↦ panic
    ]

unfoldable pub walk : ℕ → List (List ℕ × ValidatorInfo) → Outcome NetworkError (List ℕ)
walk proposer_value [] = err no_valid_proposer
walk proposer_value ((address, info) ∷ rest) =
    let later = walk (proposer_value - info.stake) rest in
    if ltb proposer_value info.stake then ok address else later

-- The remainder by no validators panics. The product of two `u64` fits a `u128`.
abbrev pub proposer_of : ConsensusState → ℕ → Outcome NetworkError (List ℕ)
proposer_of s total_stake = elim s.validators [
  | [] ↦ panic
  | v ∷ rest ↦ walk (s.current_round * total_stake % length s.validators) s.validators
]

unfoldable pub select_proposer : Bool → ConsensusState → Outcome NetworkError (List ℕ)
unfolding sum_stakes walk
select_proposer checks s = elim (sum_stakes checks 0 s.validators) [
  | ok total_stake ↦ proposer_of s total_stake
  | err e ↦ err e
  | panic ↦ panic
]

-- The loop of `create_block`: the transactions taken, and those that stay.
abbrev pub taken :
    Transaction
    → Outcome NetworkError (List Transaction) × List Transaction
    → Outcome NetworkError (List Transaction) × List Transaction
taken tx (ok txs, rest) = (ok (tx ∷ txs), rest)
taken tx (err e, rest) = (err e, rest)
taken tx (panic, rest) = (panic, rest)

unfoldable pub collect_transactions :
    Codec → ℕ → ℕ → List Transaction → Outcome NetworkError (List Transaction) × List Transaction
collect_transactions codec limit size [] = (ok [], [])
collect_transactions codec limit size (tx ∷ rest) = elim (codec.serialize_transaction tx) [
  | none ↦ (err serialization_failed, tx ∷ rest)
  | some tx_bytes ↦ elim (ltb limit (size + length tx_bytes)) [
    | true ↦ (ok [], tx ∷ rest)
    | false ↦ taken tx (collect_transactions codec limit (size + length tx_bytes) rest)
  ]
]

unfoldable pub get_parent_hash : Codec → ConsensusState → List ℕ
get_parent_hash codec s = elim (lookup s.current_height s.finalized_blocks) [
  | some block ↦ hash codec block
  | none ↦ codec.default_hash
]

abbrev pub root_of : Option (List ℕ) → Outcome NetworkError (List ℕ)
root_of (some root) = ok root
root_of none = panic

abbrev pub collect : Codec → ConsensusConfig → Op (List Transaction)
collect codec config s =
    let (txs, rest) = collect_transactions codec config.max_block_size 0 s.pending_transactions in
    (txs, record s { pending_transactions = rest })

unfoldable pub create_block : Codec → ConsensusConfig → Bool → ℕ → List ℕ → Op Block
unfolding collect_transactions get_parent_hash
create_block codec config checks timestamp proposer = do
  transactions ← collect codec config
  parent_hash ← λ s. (ok (get_parent_hash codec s), s)
  number ← λ s. (add_usize checks s.current_height 1, s)
  transactions_root ← lift (root_of (compute_transactions_root codec transactions))
  pure (record {
    header = record {
      parent_hash = parent_hash;
      timestamp = timestamp;
      number = number;
      author = proposer;
      transactions_root = transactions_root;
      state_root = codec.default_hash;
      receipts_root = codec.default_hash;
    };
    transactions = transactions;
    state_root = codec.default_hash;
    receipts_root = codec.default_hash;
  })

abbrev pub next_round : Bool → Op Unit
next_round checks s = elim (add_usize {E = NetworkError} checks s.current_round 1) [
  | ok round ↦ (ok tt, record s { current_round = round })
  | err e ↦ (err e, s)
  | panic ↦ (panic, s)
]

-- The block that is made is dropped at the end.
unfoldable pub process_round : Codec → ConsensusConfig → Bool → ℕ → Op Unit
process_round codec config checks timestamp = do
  next_round checks
  proposer ← λ s. (select_proposer checks s, s)
  block ← create_block codec config checks timestamp proposer
  pure tt

-- Times in milliseconds.
unfoldable pub check_finalization : ℕ → Op Unit
check_finalization now s =
    if ltb 60_000 (now - s.last_finalized_time) then (err finalization_timeout, s) else (ok tt, s)

abbrev pub retain_pending :
    List (List ℕ × Block) → List (List ℕ × List (List ℕ)) → List (List ℕ × List (List ℕ))
retain_pending pending_blocks [] = []
retain_pending pending_blocks ((h, votes) ∷ rest) =
    let kept = retain_pending pending_blocks rest in
    if contains_key h pending_blocks then (h, votes) ∷ kept else kept

-- `while len() > 10000 { pop_front(); }`
abbrev pub trim : List Transaction → List Transaction
trim [] = []
trim (tx ∷ rest) =
    let rest' = trim rest in if ltb 10_000 (length (tx ∷ rest)) then rest' else tx ∷ rest

unfoldable pub cleanup : Op Unit
unfolding contains_key
cleanup s = (
  ok tt,
  record s {
    votes = retain_pending s.pending_blocks s.votes;
    pending_transactions = trim s.pending_transactions;
  },
)

-- One turn of the loop of `start`, with the times of its two clocks.
unfoldable pub tick : Codec → ConsensusConfig → Bool → ℕ → ℕ → Op Unit
tick codec config checks timestamp now = do
  process_round codec config checks timestamp
  check_finalization now
  cleanup

unfoldable pub get_status : ℕ → ConsensusState → ConsensusStatus
get_status now s = record {
  height = s.current_height;
  round = s.current_round;
  pending_transactions = length s.pending_transactions;
  pending_blocks = length s.pending_blocks;
  active_validators = length s.validators;
  last_finalized_time = now - s.last_finalized_time;
}
