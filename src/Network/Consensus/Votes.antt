-- ===== src/Network/Consensus/Votes.antt =====
-- The events that an engine sees, and what the votes are worth after any run of them.
use zkmips_zkvm_impl_in_rust.Base.{
  ℕ, ◌≡◌, refl, Bool, true, List, [], ◌∷◌, none, bytes_eq, nat_eq, if◌then◌else◌, arith, All,
}
use zkmips_zkvm_impl_in_rust.Base.Map.{
  lookup, insert, contains_key, Distinct, All-remove, lookup-insert,
}
use zkmips_zkvm_impl_in_rust.Network.Sets.{contains, Once, Within}
use zkmips_zkvm_impl_in_rust.Network.Message.{Transaction, Block, Codec, hash}
use zkmips_zkvm_impl_in_rust.Network.Consensus.{
  ConsensusConfig, ValidatorInfo, ConsensusState, Op, process_transaction, process_block,
  submit_vote, process_round, check_finalization, cleanup, retain_pending, create_block,
}
use zkmips_zkvm_impl_in_rust.Network.Consensus.Eligible.{eligible}

-- A call of a method, with the times that it reads.
pub data Event : Type 0 where
  transaction : Transaction → Event
  block : Block → Event
  vote : ℕ → List ℕ → List ℕ → Event
  round : ℕ → Event
  finalization : ℕ → Event
  cleaning : Event

module _ (codec : Codec) (config : ConsensusConfig) (checks : Bool) where
  abbrev pub handle : Event → Op Unit
  handle (transaction tx) = process_transaction tx
  handle (block b) = process_block codec b
  handle (vote now validator block_hash) = submit_vote config now validator block_hash
  handle (round timestamp) = process_round codec config checks timestamp
  handle (finalization now) = check_finalization now
  handle cleaning = cleanup

  -- From one state to another by events, whatever they answer.
  pub data Reaches (s : ConsensusState) : ConsensusState → Type 0 where
    here : Reaches s s
    after : {t : ConsensusState} (e : Event) → Reaches s t → Reaches s (handle e t).1

-- The votes for a block come from different validators with stake enough.
pub record Ballot (threshold : ℕ) (m : List (List ℕ × ValidatorInfo)) (votes : List (List ℕ))
    : Type 0 where
  pub once : Once votes
  pub entitled : Within votes (eligible threshold m)

pub record IsValid (codec : Codec) (config : ConsensusConfig) (s : ConsensusState) : Type 0 where
  pub distinct : Distinct s.validators
  pub ballots : All (λ e. Ballot config.validator_stake_threshold s.validators e.1) s.votes
  pub hashed : All (λ e. hash codec e.1 ≡ e.0) s.pending_blocks
  pub numbered : All (λ e. e.1.header.number ≡ e.0) s.finalized_blocks
  pub votable :
      (h : List ℕ) → contains_key h s.pending_blocks ≡ true → contains_key h s.votes ≡ true

-- What no method changes but the vote, the block and the cleaning.
pub record SameVotes (s t : ConsensusState) : Type 0 where
  pub validators : t.validators ≡ s.validators
  pub votes : t.votes ≡ s.votes
  pub pending : t.pending_blocks ≡ s.pending_blocks
  pub finalized : t.finalized_blocks ≡ s.finalized_blocks
  pub height : t.current_height ≡ s.current_height

pub SameVotes-IsValid :
    (codec : Codec) (config : ConsensusConfig) (s t : ConsensusState)
    → SameVotes s t
    → IsValid codec config s
    → IsValid codec config t
SameVotes-IsValid codec config s t e v = record {
  distinct = rw (e.validators) v.distinct;
  ballots = rw (e.validators, e.votes) v.ballots;
  hashed = rw (e.pending) v.hashed;
  numbered = rw (e.finalized) v.numbered;
  votable = rw (e.pending, e.votes) v.votable;
}

pub process_round-SameVotes :
    (codec : Codec) (config : ConsensusConfig) (checks : Bool) (timestamp : ℕ) (s : ConsensusState)
    → SameVotes s (process_round codec config checks timestamp s).1
unfolding process_round create_block
process_round-SameVotes codec config checks timestamp s = ground arith

empty-Ballot : (threshold : ℕ) (m : List (List ℕ × ValidatorInfo)) → Ballot threshold m []
unfolding contains
empty-Ballot threshold m = record { once = tt; entitled = λ a h. absurd (ground arith) }

pub process_block-IsValid :
    (codec : Codec) (config : ConsensusConfig) (b : Block) (s : ConsensusState)
    → IsValid codec config s
    → IsValid codec config (process_block codec b s).1
unfolding process_block insert contains_key
process_block-IsValid codec config b s v = record {
  distinct = v.distinct;
  ballots = (
    empty-Ballot _ _,
    All-remove (λ e. Ballot config.validator_stake_threshold s.validators e.1) (hash codec b)
        s.votes v.ballots,
  );
  hashed = (refl, All-remove (λ e. hash codec e.1 ≡ e.0) (hash codec b) s.pending_blocks v.hashed);
  numbered = v.numbered;
  votable = λ h p. ground (
    arith,
    v.votable h,
    lookup-insert (hash codec b) h b s.pending_blocks,
    lookup-insert (hash codec b) h [] s.votes,
  );
}

retain-All :
    (P : List ℕ × List (List ℕ) → Type 0) (bs : List (List ℕ × Block))
    (l : List (List ℕ × List (List ℕ)))
    → All P l
    → All P (retain_pending bs l)
retain-All P bs [] h = tt
retain-All P bs ((k, x) ∷ l) h = ground (arith, retain-All P bs l h.1)

pub contains-retain :
    (bs : List (List ℕ × Block)) (k : List ℕ) (l : List (List ℕ × List (List ℕ)))
    → lookup k (retain_pending bs l) ≡ (if contains_key k bs then lookup k l else none)
unfolding lookup
contains-retain bs k [] = ground arith
contains-retain bs k ((j, x) ∷ l) = ground (arith, contains-retain bs k l, bytes_eq.beq_iff j k)

pub cleanup-IsValid :
    (codec : Codec) (config : ConsensusConfig) (s : ConsensusState)
    → IsValid codec config s
    → IsValid codec config (cleanup s).1
unfolding cleanup contains_key
cleanup-IsValid codec config s v = record {
  distinct = v.distinct;
  ballots =
      retain-All (λ e. Ballot config.validator_stake_threshold s.validators e.1) s.pending_blocks
        s.votes v.ballots;
  hashed = v.hashed;
  numbered = v.numbered;
  votable = λ h p. ground (arith, v.votable h, contains-retain s.pending_blocks h s.votes);
}
