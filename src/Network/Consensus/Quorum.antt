-- ===== src/Network/Consensus/Quorum.antt =====
-- Votes are counted once for each validator, and a majority of them finalizes a block.
use zkmips_zkvm_impl_in_rust.Base.{
  ℕ, ◌*◌, ◌<◌, ◌≡◌, refl, sym, ◌∙◌, Bool, true, false, List, none, some, bytes_eq, nat_eq, length,
  arith, ok, err, Option-cases, Bool-cases, inl, inr, ◌⊎◌,
}
use zkmips_zkvm_impl_in_rust.Base.Map.{
  lookup, insert, contains_key, Distinct, All-remove, All-lookup, lookup-insert, lookup-insert_self,
  lookup-remove,
}
use zkmips_zkvm_impl_in_rust.Network.Sets
use zkmips_zkvm_impl_in_rust.Network.Sets.{contains, Once, Within}
use zkmips_zkvm_impl_in_rust.Network.Message.{Transaction, Block, invalid_validator, Codec, hash}
use zkmips_zkvm_impl_in_rust.Network.Consensus.{
  ConsensusConfig, ConsensusState, is_valid_validator, submit_vote, check_consensus, finalize,
  count_vote, process_transaction, check_finalization, process_block, cleanup,
}
use zkmips_zkvm_impl_in_rust.Network.Consensus.Eligible.{
  eligible, contains-eligible, eligible-Once, length-eligible,
}
use zkmips_zkvm_impl_in_rust.Network.Consensus.Votes.{
  Event, transaction, block, vote, round, finalization, cleaning, handle, Reaches, here, after,
  Ballot, IsValid, SameVotes, SameVotes-IsValid, process_round-SameVotes, process_block-IsValid,
  cleanup-IsValid,
}

module _ (codec : Codec) (config : ConsensusConfig) where
  add-Ballot :
      (a : List ℕ) (s : ConsensusState) (votes : List (List ℕ))
      → Distinct s.validators
      → is_valid_validator config a s ≡ true
      → Ballot config.validator_stake_threshold s.validators votes
      → Ballot config.validator_stake_threshold s.validators (Sets.add a votes)
  add-Ballot a s votes d h b = record {
    once = Sets.add-Once a votes b.once;
    entitled = λ x q. ground (
      arith,
      Sets.contains-add a x votes,
      b.entitled x,
      bytes_eq.beq_iff a x,
      contains-eligible config a s d,
    );
  }

  finalize-IsValid :
      (now : ℕ) (h : List ℕ) (s : ConsensusState)
      → IsValid codec config s
      → IsValid codec config (finalize now h s)
  unfolding finalize insert contains_key
  finalize-IsValid now h s v = elim (Option-cases (lookup h s.pending_blocks)) [
    | inl e ↦ rw (e, finalize) v
    | inr (b, e) ↦
        rw (e, finalize)
          (record {
            distinct = v.distinct;
            ballots = v.ballots;
            hashed = All-remove (λ x. hash codec x.1 ≡ x.0) h s.pending_blocks v.hashed;
            numbered = (
              refl,
              All-remove (λ x. x.1.header.number ≡ x.0) b.header.number s.finalized_blocks
                  v.numbered,
            );
            votable = λ k p. ground (arith, v.votable k, lookup-remove h k s.pending_blocks);
          })
  ]

  counted-IsValid :
      (h : List ℕ) (votes : List (List ℕ)) (s : ConsensusState)
      → IsValid codec config s
      → Ballot config.validator_stake_threshold s.validators votes
      → IsValid codec config (record s { votes = insert h votes s.votes })
  unfolding insert contains_key
  counted-IsValid h votes s v b = record {
    distinct = v.distinct;
    ballots = (
      b,
      All-remove (λ e. Ballot config.validator_stake_threshold s.validators e.1) h s.votes
          v.ballots,
    );
    hashed = v.hashed;
    numbered = v.numbered;
    votable = λ k p. ground (arith, v.votable k, lookup-insert h k votes s.votes);
  }

  pub Ballot-of :
      (h : List ℕ) (votes : List (List ℕ)) (s : ConsensusState)
      → IsValid codec config s
      → lookup h s.votes ≡ some votes
      → Ballot config.validator_stake_threshold s.validators votes
  Ballot-of h votes s v e =
      All-lookup (Ballot config.validator_stake_threshold s.validators) h s.votes votes v.ballots e

  count_vote-IsValid :
      (now : ℕ) (h : List ℕ) (votes : List (List ℕ)) (s : ConsensusState)
      → IsValid codec config (record s { votes = insert h votes s.votes })
      → IsValid codec config (count_vote now h votes s)
  count_vote-IsValid now h votes s v =
      elim (Bool-cases (check_consensus (length votes) (length s.validators))) [
        | inl e ↦ rw e (finalize-IsValid now h _ v)
        | inr e ↦ rw e v
      ]

  -- The outcomes of a vote.
  pub submit_vote-cases :
      (now : ℕ) (a h : List ℕ) (s : ConsensusState)
      → ((is_valid_validator config a s ≡ false)
          × (submit_vote config now a h s ≡ (err invalid_validator, s)))
        ⊎ ((lookup h s.votes ≡ none) × (submit_vote config now a h s ≡ (ok tt, s)))
        ⊎ ((votes : List (List ℕ)) × (is_valid_validator config a s ≡ true)
            × (lookup h s.votes ≡ some votes)
            × (submit_vote config now a h s ≡ (ok tt, count_vote now h (Sets.add a votes) s)))
  unfolding submit_vote
  submit_vote-cases now a h s = elim (Bool-cases (is_valid_validator config a s)) [
    | inr not_valid ↦ inl (not_valid, ground arith)
    | inl may ↦ elim (Option-cases (lookup h s.votes)) [
      | inl e ↦ inr (inl (e, ground arith))
      | inr (votes, e) ↦ inr (inr (votes, may, e, ground arith))
    ]
  ]

  pub submit_vote-IsValid :
      (now : ℕ) (a h : List ℕ) (s : ConsensusState)
      → IsValid codec config s
      → IsValid codec config (submit_vote config now a h s).1
  submit_vote-IsValid now a h s v = elim (submit_vote-cases now a h s) [
    | inl (_, e) ↦ rw e v
    | inr (inl (_, e)) ↦ rw e v
    | inr (inr (votes, may, l, e)) ↦ rw e (
        count_vote-IsValid now h (Sets.add a votes) s (
          counted-IsValid h (Sets.add a votes) s v
            (add-Ballot a s votes v.distinct may (Ballot-of h votes s v l))))
  ]

  process_transaction-SameVotes :
      (tx : Transaction) (s : ConsensusState) → SameVotes s (process_transaction tx s).1
  unfolding process_transaction
  process_transaction-SameVotes tx s = ground arith

  check_finalization-SameVotes :
      (now : ℕ) (s : ConsensusState) → SameVotes s (check_finalization now s).1
  unfolding check_finalization
  check_finalization-SameVotes now s = ground arith

  handle-IsValid :
      (checks : Bool) (e : Event) (s : ConsensusState)
      → IsValid codec config s
      → IsValid codec config (handle codec config checks e s).1
  handle-IsValid checks (transaction tx) s v =
      SameVotes-IsValid codec config s _ (process_transaction-SameVotes tx s) v
  handle-IsValid checks (block b) s v = process_block-IsValid codec config b s v
  handle-IsValid checks (vote now a h) s v = submit_vote-IsValid now a h s v
  handle-IsValid checks (round timestamp) s v =
      SameVotes-IsValid codec config s _ (process_round-SameVotes codec config checks timestamp s) v
  handle-IsValid checks (finalization now) s v =
      SameVotes-IsValid codec config s _ (check_finalization-SameVotes now s) v
  handle-IsValid checks cleaning s v = cleanup-IsValid codec config s v

  -- From a state that keeps the invariant, whatever is received, in whatever order, and whatever
  -- the methods answer: the votes for a block stay those of different validators with stake
  -- enough, blocks stand under their hash while they are pending and under their number once they
  -- are finalized, and a pending block can be voted for.
  pub reachable-IsValid :
      (checks : Bool) (s t : ConsensusState)
      → Reaches codec config checks s t
      → IsValid codec config s
      → IsValid codec config t
  reachable-IsValid checks s t here v = v
  reachable-IsValid checks s t (after e r) v =
      handle-IsValid checks e _ (reachable-IsValid checks s _ r v)

  -- A majority is one of two thirds of the validators.
  majority : (n k : ℕ) → check_consensus n k ≡ true → k * 2 < n * 3
  unfolding check_consensus
  majority n k h = ground arith

  -- In a state that keeps the invariant, two blocks that each have votes enough to be finalized
  -- have a voter in common, who is a validator with stake enough.
  pub quorum_intersection :
      (s : ConsensusState) (h k : List ℕ) (l r : List (List ℕ))
      → IsValid codec config s
      → lookup h s.votes ≡ some l
      → lookup k s.votes ≡ some r
      → check_consensus (length l) (length s.validators) ≡ true
      → check_consensus (length r) (length s.validators) ≡ true
      → (a : List ℕ) × (contains a l ≡ true)
        × (contains a r ≡ true)
        × (is_valid_validator config a s ≡ true)
  quorum_intersection s h k l r v el er ml mr =
      let bl = Ballot-of h l s v el in
      let br = Ballot-of k r s v er in
      let threshold = config.validator_stake_threshold in
      let (a, al, ar) =
        Sets.common l r (eligible threshold s.validators) bl.once br.once
          (eligible-Once threshold s.validators v.distinct) bl.entitled br.entitled
          (omega (
            arith,
            length-eligible threshold s.validators,
            majority (length l) (length s.validators) ml,
            majority (length r) (length s.validators) mr,
          )) in
      (a, al, ar, sym (contains-eligible config a s v.distinct) ∙ bl.entitled a al)

  -- A block that a majority of different validators has voted for.
  pub record Finalized (s t : ConsensusState) (h : List ℕ) : Type 0 where
    pub found : Block
    pub votes : List (List ℕ)
    pub was_pending : lookup h s.pending_blocks ≡ some found
    pub voted : lookup h t.votes ≡ some votes
    pub ballot : Ballot config.validator_stake_threshold s.validators votes
    pub many : length s.validators * 2 < length votes * 3
    pub final : t.finalized_blocks ≡ insert found.header.number found s.finalized_blocks

  counted-Finalized :
      (now : ℕ) (h : List ℕ) (votes : List (List ℕ)) (s : ConsensusState)
      → Ballot config.validator_stake_threshold s.validators votes
      → ((count_vote now h votes s).finalized_blocks ≡ s.finalized_blocks)
        ⊎ Finalized s (count_vote now h votes s) h
  unfolding finalize insert
  counted-Finalized now h votes s b =
      elim (Bool-cases (check_consensus (length votes) (length s.validators))) [
        | inr e ↦ inl (ground arith)
        | inl e ↦ elim (Option-cases (lookup h s.pending_blocks)) [
          | inl n ↦ inl (ground arith)
          | inr (found, f) ↦ inr (record {
            found = found;
            votes = votes;
            was_pending = f;
            voted = ground (arith, lookup-insert_self h votes s.votes);
            ballot = b;
            many = majority (length votes) (length s.validators) e;
            final = ground arith;
          })
        ]
      ]

  vote-Finalized :
      (now : ℕ) (a h : List ℕ) (s : ConsensusState)
      → IsValid codec config s
      → ((submit_vote config now a h s).1.finalized_blocks ≡ s.finalized_blocks)
        ⊎ Finalized s (submit_vote config now a h s).1 h
  vote-Finalized now a h s v = elim (submit_vote-cases now a h s) [
    | inl (_, e) ↦ inl (ground (arith, e))
    | inr (inl (_, e)) ↦ inl (ground (arith, e))
    | inr (inr (votes, may, l, e)) ↦ rw e (
        counted-Finalized now h (Sets.add a votes) s
          (add-Ballot a s votes v.distinct may (Ballot-of h votes s v l)))
  ]

  process_block-finalized :
      (b : Block) (s : ConsensusState)
      → (process_block codec b s).1.finalized_blocks ≡ s.finalized_blocks
  unfolding process_block
  process_block-finalized b s = ground arith

  cleanup-finalized : (s : ConsensusState) → (cleanup s).1.finalized_blocks ≡ s.finalized_blocks
  unfolding cleanup
  cleanup-finalized s = refl

  -- From a state that keeps the invariant, the finalized blocks change only by a vote, and only so
  -- that the block voted for, which was pending, takes the place of its number, after more than
  -- two thirds as many different validators as there are, each with stake enough, have voted for
  -- it.
  pub Finalized-by_quorum :
      (checks : Bool) (e : Event) (s : ConsensusState)
      → IsValid codec config s
      → ((handle codec config checks e s).1.finalized_blocks ≡ s.finalized_blocks)
        ⊎ ((now : ℕ) × (a : List ℕ) × (h : List ℕ) × (e ≡ vote now a h)
            × Finalized s (handle codec config checks e s).1 h)
  Finalized-by_quorum checks (transaction tx) s v =
      inl (process_transaction-SameVotes tx s).finalized
  Finalized-by_quorum checks (block b) s v = inl (process_block-finalized b s)
  Finalized-by_quorum checks (vote now a h) s v = elim (vote-Finalized now a h s v) [
    | inl e ↦ inl e
    | inr f ↦ inr (now, a, h, refl, f)
  ]
  Finalized-by_quorum checks (round timestamp) s v =
      inl (process_round-SameVotes codec config checks timestamp s).finalized
  Finalized-by_quorum checks (finalization now) s v =
      inl (check_finalization-SameVotes now s).finalized
  Finalized-by_quorum checks cleaning s v = inl (cleanup-finalized s)
